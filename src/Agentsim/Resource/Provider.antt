-- ===== src/Agentsim/Resource/Provider.antt =====
-- agentsim/resources.py: a provider's request budget in `Resource`. The draw `u` of a call is in parts
-- of 10^9, as is the background load.
use society_harness.Prelude.{ℕ, ◌+◌, Bool, true, none, some, if◌then◌else◌, ltb, leb}
use society_harness.Prelude.Results.{Result, ok, raise, value_error, ◌>>=◌}
use society_harness.Agentsim.Buckets.{Fraction}
use society_harness.Agentsim.Buckets.Calls
use society_harness.Agentsim.Resource.{Resource}

-- 1.0
abbrev pub one : ℕ
one = 1000000000

module _ (minute : ℕ) where
  -- `__post_init__`
  unfoldable pub set_up : Resource → Result Resource
  set_up r = do
    r' ← elim (r.rpm) [
      | none ↦ ok r
      | some rpm ↦ do calls ← Calls.make minute rpm; ok (record r { calls = some calls })
    ]
    if leb one r.background_load then raise value_error else ok r'

  unfoldable pub call_cost : ℕ → Resource → ℕ
  call_cost u r = one + (if ltb u r.background_load then one else 0)

  unfoldable pub can_call : ℕ → ℕ → Resource → Resource × Bool
  can_call now u r = elim (r.calls) [
    | none ↦ (r, true)
    | some calls ↦
        let (calls', may) = Calls.can_call minute now (call_cost u r) calls in
        (record r { calls = some calls' }, may)
  ]

  unfoldable pub take_call : ℕ → ℕ → Resource → Resource
  take_call now u r = elim (r.calls) [
    | none ↦ r
    | some calls ↦ record r { calls = some (Calls.take minute now (call_cost u r) calls) }
  ]

  unfoldable pub remaining_frac : ℕ → Resource → Resource × Fraction
  remaining_frac now r = elim (r.calls) [
    | none ↦ (r, record { num = 1; den = 1 })
    | some calls ↦
        let (calls', left) = Calls.remaining_frac minute now calls in
        (record r { calls = some calls' }, left)
  ]

  unfoldable pub budget_wait : ℕ → ℕ → Resource → Resource × Fraction
  budget_wait milli now r = elim (r.calls) [
    | none ↦ (r, record { num = 0; den = 1 })
    | some calls ↦
        let (calls', wait) = Calls.wait_for minute milli now one calls in
        (record r { calls = some calls' }, wait)
  ]
