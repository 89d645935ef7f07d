-- ===== src/Harness/Gateway/Admission.antt =====
-- society/harness/gateway.py: which waiter comes next and whether it fits. What looks at a bucket
-- refills it, so that a test returns the gateway beside its answer.
use society_harness.Prelude.Dicts.{assign_at}
use society_harness.Prelude.{
  ℕ, ◌+◌, ◌*◌, max, Bool, true, not, ◌&&◌, ◌||◌, Text, codes, same, List, [], ◌∷◌, ◌++◌, Option,
  none, some, if◌then◌else◌, ◌==◌, ltb, leb, length,
}
use society_harness.Prelude.Int.{pos, ◌+ℤ◌, ◌-ℤ◌, ◌*ℤ◌, ltb_ℤ, leb_ℤ}
use society_harness.Agentsim.Buckets.{Fraction}
use society_harness.Agentsim.Buckets.Tokens
use society_harness.Agentsim.Buckets.Budgets
use society_harness.Agentsim.Buckets.Tokens.{TokenBucket}
use society_harness.Agentsim.Buckets.Budgets.{BudgetBucket}
use society_harness.Agentsim.Resource.{Resource}
use society_harness.Agentsim.Resource.Provider
use society_harness.Agentsim.Ledger.Reserved.{own, reserved_for_others}
use society_harness.Harness.Gateway.{
  Policy, off, gate, needs, oracle, predicts, Grant, Waiter, Gateway, Predictions, is_chat,
}

pub data Refusal : Type 0 where
  overloaded : Refusal
  rate_limit : Fraction → Refusal
  budget_refused : Refusal

pub data Why : Type 0 where
  capacity rpm tpm_short budget : Why

-- The tolerance on amounts.
abbrev pub tolerance : ℕ
tolerance = 1

-- MIN_CHARGE_USD
abbrev pub min_charge_usd : ℕ
min_charge_usd = 20000000

abbrev pub model_tier : Text
model_tier = codes "model"

-- A stable sort by a key.
unfoldable pub insert_by : (Waiter → Waiter → Bool) → Waiter → List Waiter → List Waiter
insert_by before w [] = w ∷ []
insert_by before w (v ∷ vs) = if before w v then w ∷ v ∷ vs else v ∷ insert_by before w vs

unfoldable pub sort_by : (Waiter → Waiter → Bool) → List Waiter → List Waiter
sort_by before [] = []
sort_by before (w ∷ ws) = insert_by before w (sort_by before ws)

abbrev pub first_ready : Waiter → Waiter → Bool
first_ready w v = leb w.grant.t_ready v.grant.t_ready

-- `(w.est_service, w.grant.t_ready)`
abbrev pub shortest : Waiter → Waiter → Bool
shortest w v =
    ltb w.est_service v.est_service || (w.est_service == v.est_service && first_ready w v)

abbrev pub least_tag : Waiter → Waiter → Bool
least_tag w v = ltb w.tag v.tag || (w.tag == v.tag && first_ready w v)

unfoldable pub keep_if : (Waiter → Bool) → List Waiter → List Waiter
keep_if test [] = []
keep_if test (w ∷ ws) = if test w then w ∷ keep_if test ws else keep_if test ws

abbrev pub tag_or : ℕ → Option ℕ → ℕ
tag_or clock none = clock
tag_or clock (some t) = t

abbrev pub put_tpm : Text → TokenBucket → Gateway → Gateway
put_tpm name b s = record s { tpm = assign_at name (some b) s.tpm }

abbrev pub put_budget : Text → BudgetBucket → Gateway → Gateway
put_budget tenant b s = record s { budgets = assign_at tenant (some b) s.budgets }

abbrev pub put_res : Text → Resource → Gateway → Gateway
put_res name r s = record s { res = assign_at name r s.res }

-- The ticks of a minute, an hour, a second and a millisecond.
module _ (minute hour second milli : ℕ) where
  -- A tag of 0 is not set yet. Tags are counted in millionths of a tick.
  unfoldable pub with_tag : Predictions → Gateway → Waiter → Waiter
  with_tag p s w =
      if w.tag == 0
      then record w {
        tag =
            max (tag_or s.v_clock (s.tags w.grant.run_id)) s.v_clock
            + max second w.est_service * p.weight w.grant.tenant;
      }
      else w

  unfoldable pub tag_all : Predictions → Gateway → (Waiter → Bool) → List Waiter → List Waiter
  tag_all p s test [] = []
  tag_all p s test (w ∷ ws) = (if test w then with_tag p s w else w) ∷ tag_all p s test ws

  -- The waiters in the order in which they are tried, and the gateway with the tags set.
  unfoldable pub order : Predictions → ℕ → Text → Gateway → Gateway × List Waiter
  order p now name s =
      let ws = s.waiters name in
      if not (predicts s.policy)
      then (s, sort_by first_ready ws)
      else (let is_own = λ (w : Waiter). ltb 0 (own s.ledger name w.grant.run_id now) in
          let first = sort_by first_ready (keep_if is_own ws) in
          let others = keep_if (λ (w : Waiter). not (is_own w)) ws in
          if same (s.res name).tier model_tier
            && ltb (s.res name).capacity (length others * Provider.one)
          then (s, first ++ sort_by shortest others)
          else (let tagged = tag_all p s (λ (w : Waiter). not (is_own w)) ws in
              (
                record s { waiters = assign_at name tagged s.waiters },
                first ++ sort_by least_tag (keep_if (λ (w : Waiter). not (is_own w)) tagged),
              )))

  -- Ten times the parts that `_fits` wants in the token bucket.
  abbrev pub tokens_wanted : Policy → ℕ → TokenBucket → ℕ
  tokens_wanted off est b = 0
  tokens_wanted gate est b = b.tpm * minute
  tokens_wanted needs est b = 10 * (est * minute)
  tokens_wanted oracle est b = 10 * (est * minute)

  unfoldable pub budget_ok : Predictions → ℕ → Waiter → Policy → BudgetBucket → BudgetBucket × Bool
  budget_ok p now w off b =
      let (b', may) = Budgets.can_pay hour now min_charge_usd b in
      (if may then b' else record b' { refused = b'.refused + 1 }, true)
  budget_ok p now w gate b =
      let (b', left) = Budgets.remaining_frac hour now b in (b', leb left.den (10 * left.num))
  budget_ok p now w needs b =
      let (b', left) = Budgets.remaining_frac hour now b in
      (b', leb (p.this_cost w.grant * hour) (left.num + b'.per_hour * w.est_service))
  budget_ok p now w oracle b =
      let (b', left) = Budgets.remaining_frac hour now b in
      (b', leb (p.this_cost w.grant * hour) (left.num + b'.per_hour * w.est_service))

  abbrev pub reserved_now : ℕ → Grant → Gateway → ℕ
  reserved_now now g s =
      if predicts s.policy
      then reserved_for_others s.ledger (s.res g.res).name g.run_id now (s.res g.res).holders
      else 0

  -- `r.used + g.amt > r.capacity - reserved + 1e-9`
  unfoldable pub over_capacity : ℕ → Grant → Gateway → Bool
  over_capacity now g s =
      ltb_ℤ (pos ((s.res g.res).capacity + tolerance) -ℤ pos (reserved_now now g s))
        ((s.res g.res).used +ℤ pos g.amt)

  unfoldable pub fits_budget : Predictions → ℕ → Waiter → Gateway → Gateway × Option Why
  fits_budget p now w s =
      let g = w.grant in
      elim (s.budgets g.tenant) [
        | none ↦ (s, none)
        | some b ↦ elim (s.prices (s.res g.res).name) [
          | none ↦ (s, none)
          | some price ↦
              let (b', may) = budget_ok p now w s.policy b in
              (put_budget g.tenant b' s, if may then none else some budget)
        ]
      ]

  unfoldable pub fits_tokens : Predictions → ℕ → Waiter → Gateway → Gateway × Option Why
  fits_tokens p now w s =
      let g = w.grant in
      let name = (s.res g.res).name in
      elim (s.tpm name) [
        | none ↦ fits_budget p now w s
        | some b ↦
            let b' = Tokens.refill minute now b in
            let s' = put_tpm name b' s in
            let rest = fits_budget p now w s' in
            if not (leb_ℤ (pos (tokens_wanted s.policy g.est_tokens b')) (pos 10 *ℤ b'.level))
              || leb_ℤ b'.level (pos 0)
            then (s', some tpm_short)
            else rest
      ]

  -- `_fits`: no reason where the waiter fits.
  unfoldable pub fits : Predictions → ℕ → Waiter → Gateway → Gateway × Option Why
  fits p now w s =
      let g = w.grant in
      let (r', may) = Provider.can_call minute now Provider.one (s.res g.res) in
      let s' = put_res g.res r' s in
      let rest = fits_tokens p now w s' in
      if over_capacity now g s
      then (s, some capacity)
      else if not (is_chat g)
      then (s, none)
      else if not may
      then (s', some rpm)
      else rest

  unfoldable pub refused_budget : ℕ → Grant → Gateway → Gateway × Option Refusal
  refused_budget now g s = elim (s.budgets g.tenant) [
    | none ↦ (s, none)
    | some b ↦ elim (s.prices (s.res g.res).name) [
      | none ↦ (s, none)
      | some price ↦
          let (b', may) = Budgets.can_pay hour now min_charge_usd b in
          if not (is_chat g)
          then (s, none)
          else if may
          then (put_budget g.tenant b' s, none)
          else (put_budget g.tenant (record b' { refused = b'.refused + 1 }) s, some budget_refused)
    ]
  ]

  unfoldable pub refused_tokens : ℕ → Grant → Gateway → Gateway × Option Refusal
  refused_tokens now g s =
      let name = (s.res g.res).name in
      elim (s.tpm name) [
        | none ↦ refused_budget now g s
        | some b ↦
            let b' = Tokens.refill minute now b in
            let s' = put_tpm name b' s in
            let rest = refused_budget now g s' in
            let (waited, wait) = Tokens.wait_for minute milli Provider.one now Tokens.whole b' in
            if leb_ℤ b'.level (pos 0)
            then (put_tpm name waited s', some (rate_limit wait))
            else rest
      ]

  unfoldable pub provider_refusal : ℕ → Grant → Gateway → Gateway × Option Refusal
  provider_refusal now g s =
      let r = s.res g.res in
      let (r', may) = Provider.can_call minute now Provider.one r in
      let s' = put_res g.res r' s in
      let (waited, wait) = Provider.budget_wait minute milli now r' in
      let rest = refused_tokens now g s' in
      if ltb_ℤ (pos (r.capacity + tolerance)) (r.used +ℤ pos g.amt)
      then (s, some overloaded)
      else if not may
      then (put_res g.res waited s, some (rate_limit wait))
      else rest
