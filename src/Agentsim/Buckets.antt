-- ===== src/Agentsim/Buckets.antt =====
-- agentsim/resources.py: what `CallBucket`, `TokenBucket` and `BudgetBucket` share. Time is counted in
-- ticks and amounts in units of 10^-9, the tolerance of the source. A level is counted in parts, of
-- which a unit has as many as the bucket's period has ticks (60 s, or one hour), so that a refill is
-- exact: in each tick a bucket gains as many parts as its rate is. A quotient of the source is a
-- `Fraction`.
pub mod Calls
pub mod Tokens
pub mod Budgets
pub mod Rate
mod Examples
use society_harness.Prelude.{ℕ, ◌+◌, ◌*◌, ◌≤◌, ◌≡◌, arith, if◌then◌else◌, leb}
use society_harness.Prelude.Int.{
  ℤ, pos, pos_part, neg_part, ◌+ℤ◌, ◌-ℤ◌, +ℤ_parts, -ℤ_parts, +ℤ_cancel, min_ℤ, leb_ℤ,
}

pub record Fraction : Type 0 where
  pub num : ℕ
  pub den : ℕ

-- `max(0.001, n / d)`, in ticks; `milli` is the number of ticks of a millisecond.
unfoldable pub at_least : ℕ → ℕ → ℕ → Fraction
at_least milli n d =
    if leb (milli * d) n then record { num = n; den = d } else record { num = milli; den = 1 }

-- `min(capacity, level + (now - t) * rate / period)`
unfoldable pub refilled : ℕ → ℕ → ℤ → ℕ → ℕ → ℤ
refilled capacity rate level t now =
    min_ℤ (pos capacity) (level +ℤ pos (now * rate) -ℤ pos (t * rate))

module _ (capacity rate : ℕ) (level : ℤ) (t now : ℕ) where
  abbrev later_level : ℤ
  later_level = refilled capacity rate level t now

  -- A refill adds no more than the rate gives for the time.
  pub refilled_cost :
      pos_part later_level + t * rate + neg_part level
      ≤ pos_part level + now * rate + neg_part later_level
  unfolding refilled
  refilled_cost = ground (
    arith,
    +ℤ_parts level (pos (now * rate)),
    -ℤ_parts (level +ℤ pos (now * rate)) (pos (t * rate)),
  )

  pub refilled-le-capacity : pos_part later_level ≤ capacity
  unfolding refilled
  refilled-le-capacity = ground arith

  pub refilled_floor : (floor : ℕ) → t ≤ now → neg_part level ≤ floor → neg_part later_level ≤ floor
  unfolding refilled
  refilled_floor floor later above =
      let gained : t * rate ≤ now * rate = grind arith in
      ground (
        arith,
        +ℤ_parts level (pos (now * rate)),
        -ℤ_parts (level +ℤ pos (now * rate)) (pos (t * rate)),
      )

-- A second refill at the same time changes nothing.
pub refilled_again :
    (capacity rate : ℕ) (level : ℤ) (now : ℕ)
    → pos_part level ≤ capacity
    → refilled capacity rate level now now ≡ level
unfolding refilled
refilled_again capacity rate level now within =
    let back : level +ℤ pos (now * rate) -ℤ pos (now * rate) ≡ level =
      +ℤ_cancel level (pos (now * rate)) in
    rw back (ground arith)
