-- ===== src/Agentsim/Buckets/Calls.antt =====
-- agentsim/resources.py: `CallBucket`, requests per minute. A method that refills returns the bucket
-- beside its result.
use society_harness.Prelude.{ℕ, ◌*◌, Bool, if◌then◌else◌, ◌==◌}
use society_harness.Prelude.Int.{ℤ, pos, pos_part, ◌-ℤ◌, leb_ℤ}
use society_harness.Prelude.Results.{Result, ok, raise, value_error}
use society_harness.Agentsim.Buckets.{Fraction, at_least, refilled}

pub record CallBucket : Type 0 where
  pub rpm : ℕ
  pub level : ℤ
  pub t : ℕ

-- The number of ticks of a minute.
module _ (minute : ℕ) where
  unfoldable pub make : ℕ → Result CallBucket
  make rpm =
      if rpm == 0
      then raise value_error
      else ok (record { rpm = rpm; level = pos (rpm * minute); t = 0 })

  unfoldable pub refill : ℕ → CallBucket → CallBucket
  refill now b = record b { level = refilled (b.rpm * minute) b.rpm b.level b.t now; t = now }

  unfoldable pub can_call : ℕ → ℕ → CallBucket → CallBucket × Bool
  can_call now calls b =
      let b' = refill now b in (b', leb_ℤ (pos (calls * minute) -ℤ pos minute) b'.level)

  unfoldable pub take : ℕ → ℕ → CallBucket → CallBucket
  take now calls b = let b' = refill now b in record b' { level = b'.level -ℤ pos (calls * minute) }

  unfoldable pub remaining_frac : ℕ → CallBucket → CallBucket × Fraction
  remaining_frac now b =
      let b' = refill now b in (b', record { num = pos_part b'.level; den = b'.rpm * minute })

  unfoldable pub wait_for : ℕ → ℕ → ℕ → CallBucket → CallBucket × Fraction
  unfolding at_least
  wait_for milli now calls b =
      let b' = refill now b in
      (b', at_least milli (pos_part (pos (calls * minute) -ℤ b'.level)) b'.rpm)
