-- ===== src/Harness/Gateway/Dispatching.antt =====
-- society/harness/gateway.py: grants stay within the capacity, waiter by waiter.
use society_harness.Prelude.{
  ℕ, ◌+◌, ◌≡◌, true, false, ◌≢◌, ◌⊎◌, Text, List, [], ◌∷◌, none, some, arith, Bool-cases,
  Option-cases, inl, inr,
}
use society_harness.Prelude.Int.{pos, ◌+ℤ◌, ◌≤ℤ◌}
use society_harness.Agentsim.Resource.{Resource}
use society_harness.Agentsim.Resource
use society_harness.Harness.Gateway.{Waiter, Gateway, Predictions, is_chat, is_done, remove}
use society_harness.Harness.Gateway.Admission.{
  Why, capacity, rpm, tpm_short, budget, order, fits, put_res,
}
use society_harness.Harness.Gateway.Grants.{
  goes_inflight, run_with, charge, use_lease, grant_waiter, dispatch_each, dispatch, dispatch_in,
  dispatch_all,
}
use society_harness.Harness.Gateway.Uses.{
  AllIn, SameUses-of_res, AllIn-SameUses, put_res-AllIn, take-InCapacity, remove-AllIn,
  fits-SameUses, fits-Under, Under-InCapacity, run_with-res, charge-SameUses, use_lease-res,
  order-SameUses,
}

module _ (minute hour second milli : ℕ) where
  pub grant_waiter-AllIn :
      (now : ℕ) (w : Waiter) (s : Gateway)
      → (s.res w.grant.res).used +ℤ pos w.grant.amt ≤ℤ pos ((s.res w.grant.res).capacity + 1)
      → AllIn s
      → AllIn (grant_waiter minute hour second milli now w s)
  unfolding grant_waiter remove
  grant_waiter-AllIn now w s under a =
      let g = record w.grant { t_start = now } in
      let taken = Resource.take g.sid g.amt (s.res g.res) in
      let s2 = put_res g.res taken (remove w s) in
      let (s3, g') = charge minute hour second milli now g s2 in
      let s4 = use_lease minute hour second milli now g' s3 in
      let in2 =
        put_res-AllIn g.res taken (remove w s) (take-InCapacity g.sid g.amt (s.res g.res) under)
          a in
      let in3 = AllIn-SameUses s2 s3 (charge-SameUses minute hour second milli now g s2) in2 in
      let in4 =
        AllIn-SameUses s3 s4
          (SameUses-of_res s3 s4 (use_lease-res minute hour second milli now g' s3)) in3 in
      let s5 = run_with g'.run_id (goes_inflight g'.node_id) s4 in
      let in5 =
        AllIn-SameUses s4 s5
          (SameUses-of_res s4 s5
            (run_with-res minute hour second milli g'.run_id (goes_inflight g'.node_id) s4))
          in4 in
      elim (Bool-cases (is_chat g')) [ inl chat ↦ rw chat in5 | inr tool ↦ rw tool in4 ]

  pub dispatch_each-Done :
      (p : Predictions) (now : ℕ) (w : Waiter) (ws : List Waiter) (s : Gateway)
      → is_done w s ≡ true
      → dispatch_each minute hour second milli p now (w ∷ ws) s
        ≡ dispatch_each minute hour second milli p now ws (remove w s)
  unfolding dispatch_each
  dispatch_each-Done p now w ws s done = ground arith

  pub dispatch_each-Granted :
      (p : Predictions) (now : ℕ) (w : Waiter) (ws : List Waiter) (s : Gateway)
      → is_done w s ≡ false
      → (fits minute hour second milli p now w s).1 ≡ none
      → dispatch_each minute hour second milli p now (w ∷ ws) s
        ≡ dispatch_each minute hour second milli p now ws (
            grant_waiter minute hour second milli now w (fits minute hour second milli p now w s).0)
  unfolding dispatch_each
  dispatch_each-Granted p now w ws s pending fine = ground arith

  pub dispatch_each-Full :
      (p : Predictions) (now : ℕ) (w : Waiter) (ws : List Waiter) (s : Gateway)
      → is_done w s ≡ false
      → (fits minute hour second milli p now w s).1 ≡ some capacity
      → dispatch_each minute hour second milli p now (w ∷ ws) s
        ≡ (fits minute hour second milli p now w s).0
  unfolding dispatch_each
  dispatch_each-Full p now w ws s pending full = ground arith

  pub dispatch_each-Short :
      (p : Predictions) (now : ℕ) (w : Waiter) (ws : List Waiter) (s : Gateway) (why : Why)
      → is_done w s ≡ false
      → (fits minute hour second milli p now w s).1 ≡ some why
      → why ≢ capacity
      → dispatch_each minute hour second milli p now (w ∷ ws) s
        ≡ dispatch_each minute hour second milli p now ws
            (fits minute hour second milli p now w s).0
  unfolding dispatch_each
  dispatch_each-Short p now w ws s why pending short other = ground arith

  pub dispatch_each-AllIn :
      (p : Predictions) (now : ℕ) (ws : List Waiter) (s : Gateway)
      → AllIn s
      → AllIn (dispatch_each minute hour second milli p now ws s)
  unfolding dispatch_each
  dispatch_each-AllIn p now [] s a = a
  dispatch_each-AllIn p now (w ∷ ws) s a =
      let (s', why) = fits minute hour second milli p now w s in
      let same_uses = fits-SameUses minute hour second milli p now w s in
      let a' = AllIn-SameUses s s' same_uses a in
      let refused : (why : Why)
          → is_done w s ≡ false
          → (fits minute hour second milli p now w s).1 ≡ some why
          → why ≢ capacity
          → AllIn (dispatch_each minute hour second milli p now (w ∷ ws) s) =
        λ reason pending short other.
          rw (dispatch_each-Short p now w ws s reason pending short other)
            (dispatch_each-AllIn p now ws s' a') in
      elim (Bool-cases (is_done w s)) [
        | inl done ↦
            rw (dispatch_each-Done p now w ws s done)
              (dispatch_each-AllIn p now ws (remove w s) (remove-AllIn w s a))
        | inr pending ↦ elim (Option-cases why) [
          | inl fine ↦
              let under =
                Under-InCapacity minute hour second milli now w.grant s
                  (fits-Under minute hour second milli p now w s fine) in
              let (used_same, capacity_same) = same_uses w.grant.res in
              let still : (s'.res w.grant.res).used +ℤ pos w.grant.amt
                  ≤ℤ pos ((s'.res w.grant.res).capacity + 1) =
                rw used_same (rw capacity_same under) in
              rw (dispatch_each-Granted p now w ws s pending fine) (
                dispatch_each-AllIn p now ws (grant_waiter minute hour second milli now w s')
                  (grant_waiter-AllIn now w s' still a'))
          | inr (capacity, full) ↦ rw (dispatch_each-Full p now w ws s pending full) a'
          | inr (rpm, short) ↦ refused rpm pending short (λ e. cc)
          | inr (tpm_short, short) ↦ refused tpm_short pending short (λ e. cc)
          | inr (budget, short) ↦ refused budget pending short (λ e. cc)
        ]
      ]

  pub dispatch_lem :
      (p : Predictions) (now : ℕ) (name : Text) (s : Gateway)
      → (dispatch minute hour second milli p now name s ≡ s)
        ⊎ (dispatch minute hour second milli p now name s
            ≡ dispatch_each minute hour second milli p now
                (order minute hour second milli p now name s).1
                (order minute hour second milli p now name s).0)
  unfolding dispatch
  dispatch_lem p now name s = ground arith

  pub dispatch-AllIn :
      (p : Predictions) (now : ℕ) (name : Text) (s : Gateway)
      → AllIn s
      → AllIn (dispatch minute hour second milli p now name s)
  dispatch-AllIn p now name s a =
      let (s', ordered) = order minute hour second milli p now name s in
      let a' =
        AllIn-SameUses s s'
          (SameUses-of_res s s' (order-SameUses minute hour second milli p now name s)) a in
      elim (dispatch_lem p now name s) [
        | inl nobody ↦ rw nobody a
        | inr some_wait ↦ rw some_wait (dispatch_each-AllIn p now ordered s' a')
      ]

  pub dispatch_in-AllIn :
      (p : Predictions) (now : ℕ) (names : List Text) (s : Gateway)
      → AllIn s
      → AllIn (dispatch_in minute hour second milli p now names s)
  unfolding dispatch_in
  dispatch_in-AllIn p now [] s a = a
  dispatch_in-AllIn p now (name ∷ names) s a =
      dispatch_in-AllIn p now names (dispatch minute hour second milli p now name s)
        (dispatch-AllIn p now name s a)

  pub dispatch_all-AllIn :
      (p : Predictions) (now : ℕ) (s : Gateway)
      → AllIn s
      → AllIn (dispatch_all minute hour second milli p now s)
  unfolding dispatch_all
  dispatch_all-AllIn p now s a = dispatch_in-AllIn p now s.names s a
