-- ===== src/Harness/Gateway/Billing.antt =====
-- society/harness/gateway.py: what a tenant pays for a call that was paid in advance for a part.
use society_harness.Prelude.{ℕ, ◌+◌, ◌≡◌, ◌⊎◌, Bool, true, false}
use society_harness.Prelude.Int.{pos, ◌+ℤ◌, ◌≤ℤ◌}
use society_harness.Agentsim.Buckets.Budgets
use society_harness.Agentsim.Buckets.Budgets.{BudgetBucket}
use society_harness.Harness.Gateway.{Gateway}

-- `failed` tells whether the tenant could not pay the bill `usd`, of which `prepaid` was paid before.
abbrev pub Settled : BudgetBucket → BudgetBucket → ℕ → ℕ → Bool → Type 0
Settled b b' usd prepaid failed =
    ((failed ≡ false) × (b'.spent +ℤ pos prepaid ≡ b.spent +ℤ pos usd) × (b'.refused ≡ b.refused))
    ⊎ ((failed ≡ true)
        × (b.spent ≤ℤ b'.spent)
        × (b'.spent +ℤ pos prepaid ≤ℤ b.spent +ℤ pos usd)
        × (b'.refused ≡ b.refused + 1))

-- `b'` is `b` after a bill of `usd`; `failed` tells whether the tenant could not pay it.
abbrev pub Paid : BudgetBucket → BudgetBucket → ℕ → Bool → Type 0
Paid b b' usd failed =
    ((failed ≡ false) × (b'.spent ≡ b.spent +ℤ pos usd) × (b'.refused ≡ b.refused))
    ⊎ ((failed ≡ true)
        × (b.spent ≤ℤ b'.spent)
        × (b'.spent ≤ℤ b.spent +ℤ pos usd)
        × (b'.refused ≡ b.refused + 1))
