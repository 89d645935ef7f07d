-- ===== src/Agentsim/Buckets/Rate.antt =====
-- agentsim/resources.py: how many calls a `CallBucket` lets through.
use society_harness.Prelude.{ℕ, ◌+◌, ◌*◌, ◌≤◌, ◌≡◌, refl, List, [], ◌∷◌, arith, if◌then◌else◌}
use society_harness.Prelude.Int.{pos, pos_part, neg_part, ◌-ℤ◌, -ℤ_parts, leb_ℤ}
use society_harness.Agentsim.Buckets.{
  refilled, refilled_cost, refilled-le-capacity, refilled_floor, refilled_again,
}
use society_harness.Agentsim.Buckets.Calls.{CallBucket, refill, can_call, take}

-- A client asks for so many calls, and makes them if it may: the bucket afterwards, and the calls made.
unfoldable pub ask : ℕ → ℕ → ℕ → CallBucket → CallBucket × ℕ
ask minute now calls b =
    let (b', may) = can_call minute now calls b in
    if may then (take minute now calls b', calls) else (b', 0)

unfoldable pub serve : ℕ → List (ℕ × ℕ) → CallBucket → CallBucket × ℕ
serve minute [] b = (b, 0)
serve minute ((now, calls) ∷ rest) b =
    let (b', made) = ask minute now calls b in
    let (end, more) = serve minute rest b' in (end, made + more)

-- The times of the asks, from `t` on.
abbrev pub Ordered : ℕ → List (ℕ × ℕ) → Type 0
Ordered t [] = Unit
Ordered t ((now, calls) ∷ rest) = (t ≤ now) × Ordered now rest

-- Not below the tolerance of one call's 10^-9.
abbrev pub Solvent : ℕ → CallBucket → Type 0
Solvent minute b = neg_part b.level ≤ minute

refill-Solvent :
    (minute now : ℕ) (b : CallBucket)
    → b.t ≤ now
    → Solvent minute b
    → Solvent minute (refill minute now b)
unfolding refill
refill-Solvent minute now b later s =
    refilled_floor (b.rpm * minute) b.rpm b.level b.t now minute later s

ask_lem :
    (minute now calls : ℕ) (b : CallBucket)
    → ask minute now calls b ≡ (
        let b' = refill minute now b in
        if leb_ℤ (pos (calls * minute) -ℤ pos minute) b'.level
        then (record b' { level = b'.level -ℤ pos (calls * minute) }, calls)
        else (b', 0))
unfolding ask can_call take refill
ask_lem minute now calls b =
    rw
      (refilled_again (b.rpm * minute) b.rpm (refilled (b.rpm * minute) b.rpm b.level b.t now) now
        (refilled-le-capacity (b.rpm * minute) b.rpm b.level b.t now))
      refl

ask_stamp :
    (minute now calls : ℕ) (b : CallBucket)
    → ((ask minute now calls b).0.t ≡ now) × ((ask minute now calls b).0.rpm ≡ b.rpm)
unfolding ask can_call take refill
ask_stamp minute now calls b = ground arith

-- What an ask costs is taken from the level and its refill.
ask_cost :
    (minute now calls : ℕ) (b : CallBucket)
    → (ask minute now calls b).1 * minute
        + b.t * b.rpm
        + pos_part (ask minute now calls b).0.level
        + neg_part b.level
      ≤ pos_part b.level + now * b.rpm + neg_part (ask minute now calls b).0.level
unfolding refill
ask_cost minute now calls b =
    let level = refilled (b.rpm * minute) b.rpm b.level b.t now in
    rw (ask_lem minute now calls b) (
      ground (
        arith,
        refilled_cost (b.rpm * minute) b.rpm b.level b.t now,
        -ℤ_parts level (pos (calls * minute)),
      ))

ask-Solvent :
    (minute now calls : ℕ) (b : CallBucket)
    → b.t ≤ now
    → Solvent minute b
    → Solvent minute (ask minute now calls b).0
ask-Solvent minute now calls b later s =
    let level = (refill minute now b).level in
    rw (ask_lem minute now calls b) (
      ground (
        arith,
        refill-Solvent minute now b later s,
        -ℤ_parts level (pos (calls * minute)),
        -ℤ_parts (pos (calls * minute)) (pos minute),
      ))

serve_cost :
    (minute : ℕ) (asks : List (ℕ × ℕ)) (b : CallBucket)
    → Ordered b.t asks
    → Solvent minute b
    → (serve minute asks b).1 * minute + b.t * b.rpm + neg_part b.level
      ≤ pos_part b.level + (serve minute asks b).0.t * b.rpm + minute
unfolding serve
serve_cost minute [] b o s = omega arith
serve_cost minute ((now, calls) ∷ rest) b (later, o) s =
    let b' = (ask minute now calls b).0 in
    let (stamp, same_rpm) = ask_stamp minute now calls b in
    let ih = serve_cost minute rest b' (rw stamp o) (ask-Solvent minute now calls b later s) in
    let cost = ask_cost minute now calls b in
    let rate : (b'.t * b'.rpm ≡ now * b.rpm)
        × ((serve minute rest b').0.t * b'.rpm ≡ (serve minute rest b').0.t * b.rpm) =
      rw stamp (rw same_rpm (refl, refl)) in
    grind arith

-- A client that asks before each call makes no more calls than the full bucket and the rate give for
-- the time: from any state of the bucket that its capacity bounds and that is overdrawn by no more than
-- the tolerance, over asks in the order of time, the calls cost at most the capacity, what is
-- refilled between the first state and the last ask, and the tolerance of one comparison.
pub serve_rate :
    (minute : ℕ) (asks : List (ℕ × ℕ)) (b : CallBucket)
    → pos_part b.level ≤ b.rpm * minute
    → Solvent minute b
    → Ordered b.t asks
    → (serve minute asks b).1 * minute + b.t * b.rpm
      ≤ b.rpm * minute + (serve minute asks b).0.t * b.rpm + minute
serve_rate minute asks b within s o = omega (arith, serve_cost minute asks b o s, within)
