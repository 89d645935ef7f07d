-- ===== src/Agentsim/Buckets/Tokens.antt =====
-- agentsim/resources.py: `TokenBucket`, tokens per minute. The fraction of the bucket that may be used
-- is counted in millionths.
use society_harness.Prelude.{ℕ, ◌*◌, Bool, true, false, if◌then◌else◌, ◌==◌}
use society_harness.Prelude.Int.{ℤ, pos, pos_part, ◌-ℤ◌, ◌*ℤ◌, leb_ℤ}
use society_harness.Prelude.Results.{Result, ok, raise, value_error}
use society_harness.Agentsim.Buckets.{Fraction, at_least, refilled}

pub record TokenBucket : Type 0 where
  pub tpm : ℕ
  pub level : ℤ
  pub t : ℕ

abbrev pub whole : ℕ
whole = 1000000

-- The tolerance of 10^-6 is a thousand units.
abbrev tolerance : ℕ
tolerance = 1000

module _ (minute : ℕ) where
  unfoldable pub make : ℕ → Result TokenBucket
  make tpm =
      if tpm == 0
      then raise value_error
      else ok (record { tpm = tpm; level = pos (tpm * minute); t = 0 })

  unfoldable pub refill : ℕ → TokenBucket → TokenBucket
  refill now b = record b { level = refilled (b.tpm * minute) b.tpm b.level b.t now; t = now }

  -- `(1.0 - fraction) * self.tpm`, in millionths of a part.
  unfoldable pub headroom : ℕ → TokenBucket → ℤ
  headroom fraction b = (pos whole -ℤ pos fraction) *ℤ pos (b.tpm * minute)

  unfoldable pub try_take : ℕ → ℕ → ℕ → TokenBucket → TokenBucket × Bool
  unfolding headroom
  try_take tokens now fraction b =
      let b' = refill now b in
      let left = b'.level -ℤ pos (tokens * minute) in
      if leb_ℤ (headroom fraction b' -ℤ pos (whole * (tolerance * minute))) (pos whole *ℤ left)
      then (record b' { level = left }, true)
      else (b', false)

  unfoldable pub debit : ℕ → ℕ → TokenBucket → TokenBucket
  debit tokens now b =
      let b' = refill now b in record b' { level = b'.level -ℤ pos (tokens * minute) }

  unfoldable pub wait_for : ℕ → ℕ → ℕ → ℕ → TokenBucket → TokenBucket × Fraction
  unfolding headroom at_least
  wait_for milli tokens now fraction b =
      let b' = refill now b in
      let deficit =
        pos (whole * (tokens * minute)) -ℤ (pos whole *ℤ b'.level -ℤ headroom fraction b') in
      (b', at_least milli (pos_part deficit) (whole * b'.tpm))
