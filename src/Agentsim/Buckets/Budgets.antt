-- ===== src/Agentsim/Buckets/Budgets.antt =====
-- agentsim/resources.py: `BudgetBucket`, a tenant's USD or tokens with a refill per hour. What was
-- spent is counted in units, and may fall where the gateway hands money back.
use society_harness.Prelude.{ℕ, ◌*◌, Bool, Option, none, some, if◌then◌else◌, ◌==◌}
use society_harness.Prelude.Int.{ℤ, pos, pos_part, ◌-ℤ◌, ◌+ℤ◌, leb_ℤ}
use society_harness.Prelude.Results.{Result, ok, raise, value_error}
use society_harness.Agentsim.Buckets.{Fraction, at_least, refilled}

pub record BudgetBucket : Type 0 where
  pub capacity : ℕ
  pub per_hour : ℕ
  pub level : ℤ
  pub t : ℕ
  pub spent : ℤ
  pub refused : ℕ

-- The number of ticks of an hour.
module _ (hour : ℕ) where
  unfoldable pub make : ℕ → ℕ → Result BudgetBucket
  make capacity per_hour =
      if capacity == 0
      then raise value_error
      else ok (record {
        capacity = capacity;
        per_hour = per_hour;
        level = pos (capacity * hour);
        t = 0;
        spent = pos 0;
        refused = 0;
      })

  unfoldable pub refill : ℕ → BudgetBucket → BudgetBucket
  refill now b = record b {
    level = refilled (b.capacity * hour) b.per_hour b.level b.t now;
    t = now;
  }

  unfoldable pub can_pay : ℕ → ℕ → BudgetBucket → BudgetBucket × Bool
  can_pay now amount b =
      let b' = refill now b in (b', leb_ℤ (pos (amount * hour) -ℤ pos hour) b'.level)

  unfoldable pub pay : ℕ → ℕ → BudgetBucket → BudgetBucket
  pay now amount b =
      let b' = refill now b in
      record b' { level = b'.level -ℤ pos (amount * hour); spent = b'.spent +ℤ pos amount }

  unfoldable pub remaining_frac : ℕ → BudgetBucket → BudgetBucket × Fraction
  remaining_frac now b =
      let b' = refill now b in (b', record { num = pos_part b'.level; den = b'.capacity * hour })

  -- An infinite wait is `none`.
  unfoldable pub wait_for : ℕ → ℕ → ℕ → BudgetBucket → BudgetBucket × Option Fraction
  unfolding at_least
  wait_for milli now amount b =
      let b' = refill now b in
      if b'.per_hour == 0
      then (b', none)
      else (b', some (at_least milli (pos_part (pos (amount * hour) -ℤ b'.level)) b'.per_hour))
