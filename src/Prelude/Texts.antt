-- ===== src/Prelude/Texts.antt =====
-- Python texts as lists of code points, and lists of texts with membership and multiplicity.
use Prim.Native.Char.{code}
use Prim.Native.String.{String}
use Prim.Native.Nat.{ℕ, suc, ◌+◌, ◌≤◌, ◌<◌}
use mathlib.Core.Path.{◌≡◌, refl}
use mathlib.Core.Logic.{◌↔◌}
use mathlib.Core.Bool.{Bool, true, false, ◌&&◌, ◌||◌}
use mathlib.Core.List.{List, [], ◌∷◌, ◌++◌, reverse, reverse-cons}
use native.Mathlib.Omega.{arith}
use society_harness.Prelude.Tests.{◌==◌, if◌then◌else◌}
use society_harness.Prelude.Lists.{length}

abbrev pub Text : Type 0
Text = List ℕ

abbrev pub codes : String → Text
codes String.[] = []
codes (String.◌∷◌ c s) = code c ∷ codes s

unfoldable pub same : Text → Text → Bool
same [] [] = true
same [] (y ∷ ys) = false
same (x ∷ xs) [] = false
same (x ∷ xs) (y ∷ ys) = x == y && same xs ys

pub same→eq : (a b : Text) → same a b ≡ true → a ≡ b
unfolding same
same→eq [] [] h = refl
same→eq [] (y ∷ ys) h = cc
same→eq (x ∷ xs) [] h = cc
same→eq (x ∷ xs) (y ∷ ys) h = ground (arith, same→eq xs ys)

pub same_refl : (a : Text) → same a a ≡ true
unfolding same
same_refl [] = refl
same_refl (x ∷ xs) = ground (arith, same_refl xs)

pub same_iff : (a b : Text) → (same a b ≡ true) ↔ (a ≡ b)
same_iff a b = (same→eq a b, λ e. rw e (same_refl b))

pub same_symm : (a b : Text) → same a b ≡ same b a
same_symm a b = ground (arith, same_iff a b, same_iff b a)

-- Python's `x in xs`.
unfoldable pub mem : Text → List Text → Bool
mem a [] = false
mem a (x ∷ xs) = same x a || mem a xs

-- How often `a` stands in a list.
unfoldable pub count : Text → List Text → ℕ
count a [] = 0
count a (x ∷ xs) = if same x a then suc (count a xs) else count a xs

pub mem-append : (a : Text) (xs ys : List Text) → mem a (xs ++ ys) ≡ (mem a xs || mem a ys)
unfolding mem
mem-append a [] ys = refl
mem-append a (x ∷ xs) ys = ground (arith, mem-append a xs ys)

pub mem-reverse : (a : Text) (xs : List Text) → mem a (reverse xs) ≡ mem a xs
unfolding mem
mem-reverse a [] = refl
mem-reverse a (x ∷ xs) =
    rw (reverse-cons x xs) (ground (arith, mem-append a (reverse xs) (x ∷ []), mem-reverse a xs))

pub count-append : (a : Text) (xs ys : List Text) → count a (xs ++ ys) ≡ count a xs + count a ys
unfolding count
count-append a [] ys = omega arith
count-append a (x ∷ xs) ys = ground (arith, count-append a xs ys)

pub count-singleton : (a x : Text) → count a (x ∷ []) ≡ (if same x a then 1 else 0)
unfolding count
count-singleton a x = refl

pub mem_iff_count : (a : Text) (xs : List Text) → (mem a xs ≡ true) ↔ (0 < count a xs)
unfolding mem count
mem_iff_count a [] = ground arith
mem_iff_count a (x ∷ xs) = ground (arith, mem_iff_count a xs)

-- The list without the first `a`.
erase : Text → List Text → List Text
erase a [] = []
erase a (x ∷ xs) = if same x a then xs else x ∷ erase a xs

count-erase :
    (a b : Text) (xs : List Text)
    → 0 < count a xs
    → count b xs ≡ count b (erase a xs) + (if same a b then 1 else 0)
unfolding count erase
count-erase a b [] h = elim h [ ]
count-erase a b (x ∷ xs) h =
    ground (arith, count-erase a b xs, same_iff x a, same_iff x b, same_iff a b)

length-erase : (a : Text) (xs : List Text) → 0 < count a xs → length xs ≡ suc (length (erase a xs))
unfolding count erase
length-erase a [] h = elim h [ ]
length-erase a (x ∷ xs) h = ground (arith, length-erase a xs)

-- A list that holds nothing more often than another is no longer than it.
pub length-le_of_count :
    (xs ys : List Text) → ((a : Text) → count a xs ≤ count a ys) → length xs ≤ length ys
unfolding count
length-le_of_count [] ys h = omega arith
length-le_of_count (x ∷ xs) ys h =
    let here : 0 < count x ys = ground (arith, h x, same_refl x) in
    let rest : (a : Text) → count a xs ≤ count a (erase x ys) =
      λ a. ground (arith, h a, count-erase x a ys here) in
    omega (arith, length-erase x ys here, length-le_of_count xs (erase x ys) rest)

-- If it is also no shorter, it holds the same items, each as often.
pub count-eq_of_length :
    (xs ys : List Text)
    → ((a : Text) → count a xs ≤ count a ys)
    → length ys ≤ length xs
    → (a : Text) → count a xs ≡ count a ys
unfolding count
count-eq_of_length [] [] h l a = refl
count-eq_of_length [] (y ∷ ys) h l a = absurd (omega arith)
count-eq_of_length (x ∷ xs) ys h l a =
    let here : 0 < count x ys = ground (arith, h x, same_refl x) in
    let rest : (b : Text) → count b xs ≤ count b (erase x ys) =
      λ b. ground (arith, h b, count-erase x b ys here) in
    let shorter : length (erase x ys) ≤ length xs = omega (arith, length-erase x ys here) in
    ground (arith, count-erase x a ys here, count-eq_of_length xs (erase x ys) rest shorter a)

-- `t.startswith(prefix)`
unfoldable pub starts_with : Text → Text → Bool
starts_with [] t = true
starts_with (p ∷ ps) [] = false
starts_with (p ∷ ps) (c ∷ cs) = p == c && starts_with ps cs

starts_with→eq :
    (prefix t : Text) → starts_with prefix t ≡ true → (rest : Text) × (t ≡ prefix ++ rest)
unfolding starts_with
starts_with→eq [] t h = (t, refl)
starts_with→eq (p ∷ ps) [] h = absurd cc
starts_with→eq (p ∷ ps) (c ∷ cs) h =
    let (rest, e) = starts_with→eq ps cs (ground arith) in
    let first : c ≡ p = ground arith in (rest, cc)

starts_with-append : (prefix rest : Text) → starts_with prefix (prefix ++ rest) ≡ true
unfolding starts_with
starts_with-append [] rest = refl
starts_with-append (p ∷ ps) rest = ground (arith, starts_with-append ps rest)

pub starts_with_iff :
    (prefix t : Text) → (starts_with prefix t ≡ true) ↔ ((rest : Text) × (t ≡ prefix ++ rest))
starts_with_iff prefix t =
    (starts_with→eq prefix t, λ (rest, e). rw e (starts_with-append prefix rest))

-- `sep.join(lines)`
unfoldable pub join_with : Text → List Text → Text
join_with sep [] = []
join_with sep (t ∷ []) = t
join_with sep (t ∷ (u ∷ us)) = t ++ (sep ++ join_with sep (u ∷ us))
