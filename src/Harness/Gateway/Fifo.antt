-- ===== src/Harness/Gateway/Fifo.antt =====
-- society/harness/gateway.py: without predictions a pool for tools is a first-come semaphore.
use society_harness.Prelude.Dicts.{assign_at}
use society_harness.Prelude.{
  ℕ, ◌+◌, ◌≡◌, refl, ap, ◌∙◌, true, false, Text, same_refl, List, [], ◌∷◌, none, some, arith,
  if◌then◌else◌, Bool-cases, inl, inr,
}
use society_harness.Prelude.Int.{pos, ◌+ℤ◌, leb_ℤ, -ℤ_parts}
use society_harness.Agentsim.Resource.{Resource}
use society_harness.Agentsim.Resource
use society_harness.Harness.Gateway.{
  Waiter, Gateway, Predictions, is_chat, is_done, has_result, remove, remove_first, predicts,
}
use society_harness.Harness.Gateway.Admission.{
  capacity, fits, over_capacity, order, sort_by, first_ready, put_res,
}
use society_harness.Harness.Gateway.Grants.{
  charge, use_lease, grant_waiter, dispatch_each, dispatch,
}
use society_harness.Harness.Gateway.Dispatching.{dispatch_each-Granted, dispatch_each-Full}
use society_harness.Harness.Gateway.Queue.{
  admitted, settled, set_all, leave_all, Differ, AllTools, AllTools-sort_by, admitted-nil,
  admitted-In, admitted-Out,
}
use society_harness.Harness.Gateway.Turns.{FirstCome, sort_by-FirstCome}

module _ (minute hour second milli : ℕ) where
  -- What a grant to a tool does.
  granted_tool :
      (now : ℕ) (w : Waiter) (s : Gateway)
      → predicts s.policy ≡ false
      → is_chat w.grant ≡ false
      → (let s' =
            put_res w.grant.res
              (Resource.take w.grant.sid w.grant.amt (s.res w.grant.res))
              (remove w s) in
          grant_waiter minute hour second milli now w s
          ≡ record s' { results = (w.fut, record w.grant { t_start = now }) ∷ s.results })
  unfolding grant_waiter charge use_lease remove
  granted_tool now w s plain tool = ground arith

  fits_tool :
      (p : Predictions) (now : ℕ) (w : Waiter) (s : Gateway)
      → predicts s.policy ≡ false
      → is_chat w.grant ≡ false
      → fits minute hour second milli p now w s ≡ (
        s,
        if leb_ℤ
              ((s.res w.grant.res).used +ℤ pos w.grant.amt)
              (pos ((s.res w.grant.res).capacity + 1))
            then none
            else some capacity,
      )
  unfolding fits over_capacity
  fits_tool p now w s plain tool =
      ground (arith, -ℤ_parts (pos ((s.res w.grant.res).capacity + 1)) (pos 0))

  -- The gateway after a tool was let in.
  abbrev let_in : ℕ → Waiter → Gateway → Gateway
  let_in now w s =
      let s' =
        put_res w.grant.res (Resource.take w.grant.sid w.grant.amt (s.res w.grant.res))
          (remove w s) in
      record s' { results = (w.fut, record w.grant { t_start = now }) ∷ s.results }

  AllTools-let_in :
      (now : ℕ) (name : Text) (w : Waiter) (ws : List Waiter) (s : Gateway)
      → Differ w.fut ws
      → AllTools name s ws
      → AllTools name (let_in now w s) ws
  unfolding is_done has_result remove
  AllTools-let_in now name w [] s d t = tt
  AllTools-let_in now name w (v ∷ vs) s (d, ds) ((chat, at_name, waits), different, ts) =
      ((chat, at_name, ground arith), different, AllTools-let_in now name w vs s ds ts)

  let_in-Room :
      (now : ℕ) (name : Text) (w : Waiter) (s : Gateway)
      → w.grant.res ≡ name
      → (((let_in now w s).res name).capacity ≡ (s.res name).capacity)
        × (((let_in now w s).res name).used ≡ (s.res name).used +ℤ pos w.grant.amt)
        × ((let_in now w s).waiters name ≡ remove_first w.fut (s.waiters name))
  unfolding assign_at remove Resource.take
  let_in-Room now name w s at_name = rw (← at_name) (rw (same_refl w.grant.res) (refl, refl, refl))

  dispatch_each-nil :
      (p : Predictions) (now : ℕ) (s : Gateway)
      → dispatch_each minute hour second milli p now [] s ≡ s
  unfolding dispatch_each
  dispatch_each-nil p now s = refl

  dispatch_each-In :
      (p : Predictions) (now : ℕ) (w : Waiter) (ws : List Waiter) (s : Gateway)
      → predicts s.policy ≡ false
      → is_chat w.grant ≡ false
      → is_done w s ≡ false
      → leb_ℤ ((s.res w.grant.res).used +ℤ pos w.grant.amt) (pos ((s.res w.grant.res).capacity + 1))
        ≡ true
      → dispatch_each minute hour second milli p now (w ∷ ws) s
        ≡ dispatch_each minute hour second milli p now ws (let_in now w s)
  dispatch_each-In p now w ws s plain tool waits enough =
      let fine : fits minute hour second milli p now w s ≡ (s, none) =
        fits_tool p now w s plain tool ∙ rw enough refl in
      let step =
        dispatch_each-Granted minute hour second milli p now w ws s waits (ap (λ r. r.1) fine) in
      let same_state : (fits minute hour second milli p now w s).0 ≡ s = ap (λ r. r.0) fine in
      let after : grant_waiter minute hour second milli now w
            (fits minute hour second milli p now w s).0
          ≡ let_in now w s =
        ap (grant_waiter minute hour second milli now w) same_state
        ∙ granted_tool now w s plain tool in
      step ∙ ap (dispatch_each minute hour second milli p now ws) after

  dispatch_each-Out :
      (p : Predictions) (now : ℕ) (w : Waiter) (ws : List Waiter) (s : Gateway)
      → predicts s.policy ≡ false
      → is_chat w.grant ≡ false
      → is_done w s ≡ false
      → leb_ℤ ((s.res w.grant.res).used +ℤ pos w.grant.amt) (pos ((s.res w.grant.res).capacity + 1))
        ≡ false
      → dispatch_each minute hour second milli p now (w ∷ ws) s ≡ s
  dispatch_each-Out p now w ws s plain tool waits full =
      let over : fits minute hour second milli p now w s ≡ (s, some capacity) =
        fits_tool p now w s plain tool ∙ rw full refl in
      dispatch_each-Full minute hour second milli p now w ws s waits (ap (λ r. r.1) over)
      ∙ ap (λ r. r.0) over

  dispatch_each-Fifo :
      (p : Predictions) (now : ℕ) (name : Text) (ws : List Waiter) (s : Gateway)
      → predicts s.policy ≡ false
      → AllTools name s ws
      → (let s' = dispatch_each minute hour second milli p now ws s in
          let in_turn = admitted (s.res name).capacity (s.res name).used ws in
          (settled s'.results ≡ set_all in_turn (settled s.results))
          × (s'.waiters name ≡ leave_all in_turn (s.waiters name)))
  unfolding set_all leave_all settled remove
  dispatch_each-Fifo p now name [] s plain tools =
      rw (dispatch_each-nil p now s)
        (rw (admitted-nil (s.res name).capacity (s.res name).used) (refl, refl))
  dispatch_each-Fifo p now name (w ∷ ws) s plain ((tool, at_name, waits), different, tools) =
      let s1 = let_in now w s in
      let (same_capacity, more_used, left) = let_in-Room now name w s at_name in
      let (set, queued) =
        dispatch_each-Fifo p now name ws s1 plain
          (AllTools-let_in now name w ws s different tools) in
      let in_turn = admitted (s.res name).capacity ((s.res name).used +ℤ pos w.grant.amt) ws in
      let turns : admitted (s1.res name).capacity (s1.res name).used ws ≡ in_turn =
        rw same_capacity (rw more_used refl) in
      elim (Bool-cases
        (leb_ℤ ((s.res name).used +ℤ pos w.grant.amt) (pos ((s.res name).capacity + 1)))) [
          | inl enough ↦ rw (dispatch_each-In p now w ws s plain tool waits (rw at_name enough)) (
              rw (admitted-In (s.res name).capacity (s.res name).used w ws enough) (
                set ∙ ap (λ r. set_all r (w.fut ∷ settled s.results)) turns,
                queued
                    ∙ ap (λ r. leave_all r (s1.waiters name)) turns
                    ∙ ap (leave_all in_turn) left,
              ))
          | inr full ↦
              rw (dispatch_each-Out p now w ws s plain tool waits (rw at_name full))
                (rw (admitted-Out (s.res name).capacity (s.res name).used w ws full) (refl, refl))
        ]

  dispatch-Plain :
      (p : Predictions) (now : ℕ) (name : Text) (s : Gateway)
      → predicts s.policy ≡ false
      → dispatch minute hour second milli p now name s
        ≡ dispatch_each minute hour second milli p now (sort_by first_ready (s.waiters name)) s
  unfolding dispatch order dispatch_each sort_by
  dispatch-Plain p now name s plain = ground arith

  -- Where nothing is predicted, a pool that tools wait for is a first-come semaphore. Of waiters that are
  -- tool calls with futures of their own, none of them done, `_dispatch` lets in exactly those that the
  -- semaphore admits one after another, where those that became ready first stand in front and those
  -- that became ready at the same time stand in the order of the queue. It sets their futures in that
  -- order, and leaves the others in the queue as they stood.
  pub dispatch-Fifo :
      (p : Predictions) (now : ℕ) (name : Text) (s : Gateway)
      → predicts s.policy ≡ false
      → AllTools name s (s.waiters name)
      → (let s' = dispatch minute hour second milli p now name s in
          (turns : List Waiter) × FirstCome (s.waiters name) turns
          × (let in_turn = admitted (s.res name).capacity (s.res name).used turns in
              (settled s'.results ≡ set_all in_turn (settled s.results))
              × (s'.waiters name ≡ leave_all in_turn (s.waiters name))))
  dispatch-Fifo p now name s plain tools =
      let turns = sort_by first_ready (s.waiters name) in
      let ordered = AllTools-sort_by first_ready name s (s.waiters name) tools in
      let each = dispatch_each-Fifo p now name turns s plain ordered in
      (turns, sort_by-FirstCome (s.waiters name), rw (dispatch-Plain p now name s plain) each)
