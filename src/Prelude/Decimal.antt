-- ===== src/Prelude/Decimal.antt =====
-- Python's `str(n)` and `int(s)` on the decimal digits of a natural number.
use Prim.Native.Nat.{ℕ, zero, suc, ◌+◌, ◌-◌, ◌*◌, ◌/◌, ◌%◌, ◌<◌}
use mathlib.Core.Path.{◌≡◌, refl}
use mathlib.Core.Bool.{Bool, true, false, ◌&&◌}
use mathlib.Core.Option.{Option, none, some}
use mathlib.Core.List.{[], ◌∷◌, ◌++◌}
use native.Mathlib.Omega.{arith}
use society_harness.Prelude.Tests.{ltb, leb, if◌then◌else◌, Bool-cases}
use mathlib.Core.Logic.{◌≢◌, inl, inr}
use society_harness.Prelude.Texts.{Text}

show_from : ℕ → ℕ → Text
show_from zero n = []
show_from (suc fuel) n = elim (ltb n 10) [
  | true ↦ (n + 48) ∷ []
  | false ↦ show_from fuel (n / 10) ++ (n % 10 + 48) ∷ []
]

unfoldable pub show : ℕ → Text
unfolding show_from
show n = show_from (suc n) n

abbrev pub is_digit : ℕ → Bool
is_digit c = leb 48 c && leb c 57

unfoldable pub parse_from : ℕ → Text → Option ℕ
parse_from acc [] = some acc
parse_from acc (c ∷ cs) =
    let rest = parse_from (acc * 10 + (c - 48)) cs in if is_digit c then rest else none

-- `int("")` raises; so does any text with another character (a sign, a space or `_`, which `int`
-- also reads, are left out).
unfoldable pub parse : Text → Option ℕ
unfolding parse_from
parse [] = none
parse (c ∷ cs) = parse_from 0 (c ∷ cs)

abbrev parse_more : Option ℕ → Text → Option ℕ
parse_more none ys = none
parse_more (some n) ys = parse_from n ys

parse_from-append :
    (acc : ℕ) (xs ys : Text) → parse_from acc (xs ++ ys) ≡ parse_more (parse_from acc xs) ys
unfolding parse_from
parse_from-append acc [] ys = refl
parse_from-append acc (c ∷ cs) ys = ground (arith, parse_from-append (acc * 10 + (c - 48)) cs ys)

parse_from-show_from : (fuel n : ℕ) → n < fuel → parse_from 0 (show_from fuel n) ≡ some n
unfolding show_from parse_from
parse_from-show_from zero n h = elim h [ ]
parse_from-show_from (suc fuel) n h = elim (Bool-cases (ltb n 10)) [
  | inl small ↦ rw (small, show_from) (ground arith)
  | inr large ↦
      rw (large, show_from)
        (ground (
          arith,
          parse_from-append 0 (show_from fuel (n / 10)) ((n % 10 + 48) ∷ []),
          parse_from-show_from fuel (n / 10),
        ))
]

parse-eq : (s : Text) (n : ℕ) → 0 < n → parse_from 0 s ≡ some n → parse s ≡ some n
unfolding parse parse_from
parse-eq [] n h e = ground arith
parse-eq (c ∷ cs) n h e = e

-- The digits of a number read back as the number.
pub parse-show : (n : ℕ) → parse (show n) ≡ some n
unfolding parse show
parse-show zero = refl
parse-show (suc n) =
    parse-eq (show_from (suc (suc n)) (suc n)) (suc n) (omega arith)
      (parse_from-show_from (suc (suc n)) (suc n) (omega arith))

abbrev pub AllDigits : Text → Type 0
AllDigits [] = Unit {0}
AllDigits (c ∷ cs) = (is_digit c ≡ true) × AllDigits cs

AllDigits-append : (xs ys : Text) → AllDigits xs → AllDigits ys → AllDigits (xs ++ ys)
AllDigits-append [] ys hx hy = hy
AllDigits-append (x ∷ xs) ys hx hy = (hx.0, AllDigits-append xs ys hx.1 hy)

show_from-AllDigits : (fuel n : ℕ) → AllDigits (show_from fuel n)
unfolding show_from
show_from-AllDigits zero n = tt
show_from-AllDigits (suc fuel) n = elim (Bool-cases (ltb n 10)) [
  | inl small ↦ rw (small, show_from) (ground arith, tt)
  | inr large ↦
      rw (large, show_from)
        (AllDigits-append (show_from fuel (n / 10)) ((n % 10 + 48) ∷ [])
          (show_from-AllDigits fuel (n / 10)) (ground arith, tt))
]

pub show-AllDigits : (n : ℕ) → AllDigits (show n)
unfolding show
show-AllDigits n = show_from-AllDigits (suc n) n

pub show-ne-nil : (n : ℕ) → show n ≢ []
unfolding parse
show-ne-nil n e = let none_read : parse (show n) ≡ none = rw e in cc (parse-show n)

pub show-injective : (m n : ℕ) → show m ≡ show n → m ≡ n
show-injective m n e = cc (parse-show m, parse-show n)
