-- ===== src/Harness/Gateway/Grants.antt =====
-- society/harness/gateway.py: `_grant`, `_dispatch`, `acquire` and `release`. Where the source raises
-- after it changed the state, the outcome stands beside the state. A guard gives the lease that is
-- consumed.
use society_harness.Prelude.{
  ℕ, ◌/◌, min, Bool, true, false, not, ◌&&◌, Text, same, mem, List, [], ◌∷◌, ◌++◌, Option, none,
  some, if◌then◌else◌, ltb,
}
use society_harness.Prelude.Dicts.{assign_at, assign}
use society_harness.Prelude.Int.{pos_part}
use society_harness.Prelude.Results.{Result, ok, raise, key_error}
use society_harness.Agentsim.Buckets.Tokens
use society_harness.Agentsim.Buckets.Budgets
use society_harness.Agentsim.Buckets.Tokens.{TokenBucket}
use society_harness.Agentsim.Buckets.Budgets.{BudgetBucket}
use society_harness.Agentsim.Resource.{Resource}
use society_harness.Agentsim.Resource
use society_harness.Agentsim.Resource.Provider
use society_harness.Agentsim.Ledger.{Ledger, consume}
use society_harness.Agentsim.Ledger.Reserved.{own}
use society_harness.Harness.Gateway.{
  Policy, off, predicts, RunState, Grant, Waiter, Gateway, Predictions, is_chat, is_done, remove,
}
use society_harness.Harness.Gateway.Admission.{
  Refusal, capacity, order, fits, provider_refusal, put_tpm, put_budget, put_res,
}

abbrev pub or_same : Ledger → Result Ledger → Ledger
or_same l (ok l') = l'
or_same l (raise e) = l

-- `set.add` and `set.discard`
unfoldable pub set_add : Text → List Text → List Text
set_add x xs = if mem x xs then xs else xs ++ x ∷ []

unfoldable pub discard : Text → List Text → List Text
discard x [] = []
discard x (y ∷ ys) = if same y x then discard x ys else y ∷ discard x ys

abbrev pub run_with : Text → (RunState → RunState) → Gateway → Gateway
run_with run_id change s = elim (s.runs run_id) [
  | none ↦ s
  | some run ↦ record s { runs = assign_at run_id (some (change run)) s.runs }
]

-- `self.policy == "off"`
abbrev pub is_off : Policy → Bool
is_off off = true
is_off _ = false

abbrev pub attempts_now : Text → ℕ → RunState → RunState
attempts_now node attempt run = record run { attempts = assign node attempt run.attempts }

abbrev pub close_gang : RunState → RunState
close_gang run = record run { gang_open = false }

abbrev pub goes_inflight : Text → RunState → RunState
goes_inflight node run = record run { inflight = set_add node run.inflight }

unfoldable pub enqueue : Waiter → Gateway → Gateway
enqueue w s = record s {
  waiters = assign_at w.grant.res (s.waiters w.grant.res ++ w ∷ []) s.waiters;
}

-- A timeout, or the caller's end: the future is cancelled, and the waiter removed once that is seen.
unfoldable pub cancel : Waiter → Gateway → Gateway
cancel w s = if is_done w s then s else record s { cancelled = w.fut ∷ s.cancelled }

module _ (minute hour second milli : ℕ) where
  unfoldable pub take_tokens : ℕ → Grant → Gateway → Gateway
  take_tokens now g s =
      let name = (s.res g.res).name in
      elim (s.tpm name) [
        | none ↦ s
        | some b ↦
            if ltb 0 g.est_tokens
            then put_tpm name (Tokens.try_take minute g.est_tokens now Tokens.whole b).0 s
            else s
      ]

  -- What is reserved for the attempt, `max(0.0, min(g.est_usd, b.level))`, down to a whole unit.
  unfoldable pub affordable : ℕ → BudgetBucket → ℕ
  affordable est b = min est (pos_part b.level / hour)

  unfoldable pub prepay : ℕ → Grant → Gateway → Gateway × Grant
  prepay now g s = elim (s.budgets g.tenant) [
    | none ↦ (s, g)
    | some b ↦ elim (s.prices (s.res g.res).name) [
      | none ↦ (s, g)
      | some price ↦
          let b' = Budgets.refill hour now b in
          let prepaid = affordable g.est_usd b' in
          if predicts s.policy && ltb 0 g.est_usd
          then (
            put_budget g.tenant (Budgets.pay hour now prepaid b') s,
            record g { prepaid = prepaid },
          )
          else (s, g)
    ]
  ]

  -- What `_grant` does where the kind is a chat.
  unfoldable pub charge : ℕ → Grant → Gateway → Gateway × Grant
  charge now g s =
      let called = put_res g.res (Provider.take_call minute now 0 (s.res g.res)) s in
      let paid = prepay now g (take_tokens now g called) in if is_chat g then paid else (s, g)

  unfoldable pub use_lease : ℕ → Grant → Gateway → Gateway
  use_lease now g s =
      let name = (s.res g.res).name in
      if predicts s.policy && ltb 0 (own s.ledger name g.run_id now)
      then run_with g.run_id close_gang
          (record s { ledger = or_same s.ledger (consume g.run_id name now s.ledger) })
      else s

  unfoldable pub grant_waiter : ℕ → Waiter → Gateway → Gateway
  grant_waiter now w s =
      let g = record w.grant { t_start = now } in
      let s1 = remove w s in
      let s2 = put_res g.res (Resource.take g.sid g.amt (s1.res g.res)) s1 in
      let (s3, g') = charge now g s2 in
      let s4 = use_lease now g' s3 in
      let s5 = if is_chat g' then run_with g'.run_id (goes_inflight g'.node_id) s4 else s4 in
      record s5 { results = (w.fut, g') ∷ s5.results }

  -- The loop of `_dispatch` over the waiters as they stood at first.
  unfoldable pub dispatch_each : Predictions → ℕ → List Waiter → Gateway → Gateway
  dispatch_each p now [] s = s
  dispatch_each p now (w ∷ ws) s = elim (is_done w s) [
    | true ↦ dispatch_each p now ws (remove w s)
    | false ↦
        let (s', why) = fits minute hour second milli p now w s in
        elim why [
          | none ↦ dispatch_each p now ws (grant_waiter now w s')
          | some capacity ↦ s'
          | some _ ↦ dispatch_each p now ws s'
        ]
  ]

  unfoldable pub dispatch : Predictions → ℕ → Text → Gateway → Gateway
  dispatch p now name s = elim (s.waiters name) [
    | [] ↦ s
    | w ∷ ws ↦
        let (s', ordered) = order minute hour second milli p now name s in
        dispatch_each p now ordered s'
  ]

  unfoldable pub dispatch_in : Predictions → ℕ → List Text → Gateway → Gateway
  dispatch_in p now [] s = s
  dispatch_in p now (name ∷ names) s = dispatch_in p now names (dispatch p now name s)

  unfoldable pub dispatch_all : Predictions → ℕ → Gateway → Gateway
  dispatch_all p now s = dispatch_in p now s.names s

  -- The end of `acquire`: the provider's refusal, or a place in the queue.
  unfoldable pub refuse_or_queue :
      Predictions → ℕ → Waiter → Option Refusal → Gateway → Gateway × Result (Option Refusal)
  refuse_or_queue p now w (some refusal) s = (s, ok (some refusal))
  refuse_or_queue p now w none s = (dispatch p now w.grant.res (enqueue w s), ok none)

  -- `acquire` until it waits: a waiter with a new future, or the refusal of an unknown name or of the
  -- provider.
  unfoldable pub acquire : Predictions → ℕ → Waiter → Gateway → Gateway × Result (Option Refusal)
  acquire p now w s =
      let g = w.grant in
      let s1 = if is_chat g then run_with g.run_id (attempts_now g.node_id g.attempt) s else s in
      let (s2, why) = provider_refusal minute hour second milli now g s1 in
      if not (mem g.res s.names)
      then (s, raise key_error)
      else if is_off s.policy && (s.res g.res).api_like
      then refuse_or_queue p now w why s2
      else refuse_or_queue p now w none s1
