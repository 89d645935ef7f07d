-- ===== src/Agentsim/Resource/Accounting.antt =====
-- agentsim/resources.py: the accounting that `Resource.check` asserts.
use society_harness.Prelude.{
  ℕ, suc, ◌+◌, ◌-◌, ◌≤◌, ◌≡◌, refl, Text, List, [], ◌∷◌, Option, arith, leb, ◌==◌, Bool-cases, inl,
  inr,
}
use society_harness.Prelude.Int.{pos, pos_part, neg_part, ◌-ℤ◌, +ℤ_parts, -ℤ_parts}
use society_harness.Prelude.Results.{ok, >>=-eq-ok}
use society_harness.Agentsim.Resource.{
  Resource, held_by, set_holder, delete_holder, take, amount_or, release, give, total, allowance,
  check, Call, takes, gives, after_calls,
}

total-set_holder :
    (holders : List (Text × ℕ)) (sid : Text) (amt : ℕ)
    → total (set_holder holders sid amt) + held_by holders sid ≡ total holders + amt
unfolding total set_holder held_by
total-set_holder [] sid amt = omega arith
total-set_holder ((key, x) ∷ rest) sid amt = ground (arith, total-set_holder rest sid amt)

total-delete_holder :
    (holders : List (Text × ℕ)) (sid : Text)
    → total (delete_holder holders sid) + held_by holders sid ≡ total holders
unfolding total delete_holder held_by
total-delete_holder [] sid = omega arith
total-delete_holder ((key, x) ∷ rest) sid = ground (arith, total-delete_holder rest sid)

-- What is used and the sum of the holders differ by at most `n`.
abbrev pub Drift : ℕ → Resource → Type 0
Drift n r =
    (pos_part r.used ≤ total r.holders + neg_part r.used + n)
    × (total r.holders + neg_part r.used ≤ pos_part r.used + n)

take-Drift : (n : ℕ) (sid : Text) (amt : ℕ) (r : Resource) → Drift n r → Drift n (take sid amt r)
unfolding take
take-Drift n sid amt r d =
    let sum = total-set_holder r.holders sid (held_by r.holders sid + amt) in
    let used = +ℤ_parts r.used (pos amt) in
    (omega (arith, sum, used, d.0, d.1), omega (arith, sum, used, d.0, d.1))

-- The holder gives up about as much as is subtracted.
Drift-of_left :
    (n amt held left : ℕ) (r r' : Resource)
    → r'.used ≡ r.used -ℤ pos amt
    → total r'.holders + held ≡ total r.holders + left
    → held ≤ left + amt + 1
    → left + amt ≤ held + 1
    → Drift n r
    → Drift (n + 1) r'
Drift-of_left n amt held left r r' u t low high d =
    let used = -ℤ_parts r.used (pos amt) in
    rw u (omega (arith, used, t, low, high, d.0, d.1), omega (arith, used, t, low, high, d.0, d.1))

release-Drift :
    (n : ℕ) (sid : Text) (amt : ℕ) (r r' : Resource)
    → release sid (held_by r.holders sid) amt r ≡ ok r'
    → Drift n r
    → Drift (n + 1) r'
unfolding release
release-Drift n sid amt r r' e d =
    let held = held_by r.holders sid in
    elim (Bool-cases (leb held (amt + 1))) [
      | inl all ↦
          let whole : record r { used = r.used -ℤ pos amt; holders = delete_holder r.holders sid }
              ≡ r' =
            ground arith in
          rw (← whole) (
            Drift-of_left n amt held 0 r
              (record r { used = r.used -ℤ pos amt; holders = delete_holder r.holders sid }) refl
              (omega (arith, total-delete_holder r.holders sid)) (ground arith) (ground arith) d)
      | inr part ↦
          let whole : record r {
            used = r.used -ℤ pos amt;
            holders = set_holder r.holders sid (held - amt);
          }
              ≡ r' =
            ground arith in
          rw (← whole) (
            Drift-of_left n amt held (held - amt) r
              (record r {
                used = r.used -ℤ pos amt;
                holders = set_holder r.holders sid (held - amt);
              })
              refl (omega (arith, total-set_holder r.holders sid (held - amt))) (ground arith)
              (ground arith) d)
    ]

give-Drift :
    (n : ℕ) (sid : Text) (amt : Option ℕ) (r r' : Resource)
    → give sid amt r ≡ ok r'
    → Drift n r
    → Drift (n + 1) r'
unfolding give
give-Drift n sid amt r r' e d = elim (Bool-cases (held_by r.holders sid == 0)) [
  | inl none_held ↦ absurd (ground arith)
  | inr some_held ↦
      release-Drift n sid (amount_or amt (held_by r.holders sid)) r r' (rw some_held at e) d
]

-- How many of the calls give.
unfoldable pub give_count : List Call → ℕ
give_count [] = 0
give_count (takes sid amt ∷ calls) = give_count calls
give_count (gives sid amt ∷ calls) = suc (give_count calls)

after_calls-Drift :
    (n : ℕ) (calls : List Call) (r r' : Resource)
    → after_calls calls r ≡ ok r'
    → Drift n r
    → Drift (n + give_count calls) r'
unfolding after_calls give_count
after_calls-Drift n [] r r' e d =
    let same_resource : r ≡ r' = cc in rw (← same_resource) (omega (arith, d.0), omega (arith, d.1))
after_calls-Drift n (takes sid amt ∷ calls) r r' e d =
    after_calls-Drift n calls (take sid amt r) r' e (take-Drift n sid amt r d)
after_calls-Drift n (gives sid amt ∷ calls) r r' e d =
    let (r1, given, rest) = >>=-eq-ok (give sid amt r) _ e in
    let ih = after_calls-Drift (n + 1) calls r1 r' rest (give-Drift n sid amt r r1 given d) in
    (omega (arith, ih.0), omega (arith, ih.1))

check-of_Drift : (r : Resource) → Drift allowance r → check r ≡ ok r
unfolding check
check-of_Drift r d = ground (arith, d.0, d.1)

-- The assertion of `check` does not fail on a resource whose use began as the sum of its holders, after
-- any calls of `take` and `give` that return, of which at most a thousand are of `give`.
pub after_calls-check :
    (calls : List Call) (r r' : Resource)
    → r.used ≡ pos (total r.holders)
    → give_count calls ≤ allowance
    → after_calls calls r ≡ ok r'
    → check r' ≡ ok r'
after_calls-check calls r r' exact few e =
    let start : Drift 0 r = rw exact (omega arith, omega arith) in
    let (a, b) = after_calls-Drift 0 calls r r' e start in
    check-of_Drift r' (omega (arith, a), omega (arith, b))
