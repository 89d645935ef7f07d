-- ===== src/Memory/Kv/Names.antt =====
-- society/memory/kv.py: the keys, and the numbers that their texts end in.
use society_harness.Prelude.{
  length, length-append, refl, ℕ, ◌≤◌, ◌≡◌, ◌≢◌, refl, true, Text, codes, same, same→eq, mem, List,
  [], ◌∷◌, ◌++◌, none, some, arith, Bool-cases, inl, inr, append_assoc, sym, ap, ◌∙◌,
}
use society_harness.Prelude.Decimal.{
  show, parse-show, AllDigits, show-AllDigits, show-ne-nil, show-injective, is_digit,
}
use society_harness.Prelude.Results.{ok, >>=-eq-ok}
use society_harness.Memory.Kv.{
  scope, attempt_key, current_key, after_last, attempt_number, attempt_numbers, max_or_zero,
}

pub append_left_cancel : (xs ys zs : Text) → xs ++ ys ≡ xs ++ zs → ys ≡ zs
append_left_cancel [] ys zs e = e
append_left_cancel (x ∷ xs) ys zs e = append_left_cancel xs ys zs (cc)

pub attempt_key-injective :
    (run agent dtype : Text) (m n : ℕ)
    → attempt_key run agent dtype m ≡ attempt_key run agent dtype n
    → m ≡ n
unfolding attempt_key
attempt_key-injective run agent dtype m n e = show-injective m n (
    append_left_cancel (codes "attempt_") (show m) (show n)
      (append_left_cancel (scope run agent dtype) _ _ e))

last_or : ℕ → Text → ℕ
last_or d [] = d
last_or d (c ∷ cs) = last_or c cs

last_or-append : (d e : ℕ) (xs ys : Text) → ys ≢ [] → last_or d (xs ++ ys) ≡ last_or e ys
unfolding last_or
last_or-append d e [] [] h = absurd (h refl)
last_or-append d e [] (y ∷ ys) h = refl
last_or-append d e (x ∷ xs) ys h = last_or-append x e xs ys h

last_or-digit :
    (d : ℕ) (cs : Text) → is_digit d ≡ true → AllDigits cs → is_digit (last_or d cs) ≡ true
unfolding last_or
last_or-digit d [] h a = h
last_or-digit d (c ∷ cs) h a = last_or-digit c cs a.0 a.1

-- An attempt's key ends in a digit, a pointer's key in a letter.
pub attempt_key-ne-current_key :
    (r a d r' a' d' : Text) (n : ℕ) → attempt_key r a d n ≢ current_key r' a' d'
unfolding attempt_key current_key last_or
attempt_key-ne-current_key r a d r' a' d' n e =
    let digit = last_or-digit 48 (show n) refl (show-AllDigits n) in
    let letter = last_or-append 48 48 (scope r' a' d') (codes "current") (λ e. cc) in
    let number : last_or 48 (scope r a d ++ (codes "attempt_" ++ show n)) ≡ last_or 48 (show n) =
      rw (← append_assoc)
        (last_or-append 48 48 (scope r a d ++ codes "attempt_") (show n) (show-ne-nil n)) in
    let ends : last_or 48 (show n) ≡ 116 = sym number ∙ ap (last_or 48) e ∙ letter in ground arith

after_last-append :
    (xs ys rest : Text) → after_last ys ≡ some rest → after_last (xs ++ ys) ≡ some rest
unfolding after_last
after_last-append [] ys rest h = h
after_last-append (x ∷ xs) ys rest h = rw (after_last-append xs ys rest h)

after_last-digits : (cs : Text) → AllDigits cs → after_last cs ≡ none
unfolding after_last
after_last-digits [] a = refl
after_last-digits (c ∷ cs) a = rw (after_last-digits cs a.1) (ground arith)

pub attempt_number-attempt_key :
    (run agent dtype : Text) (n : ℕ) → attempt_number (attempt_key run agent dtype n) ≡ ok n
unfolding attempt_number attempt_key after_last
attempt_number-attempt_key run agent dtype n =
    let tail : after_last (codes "attempt_" ++ show n) ≡ some (show n) =
      rw (after_last-digits (show n) (show-AllDigits n), after_last) in
    rw (after_last-append (scope run agent dtype) _ (show n) tail, parse-show n)

-- The numbers of a list of keys are those of its head and of its tail.
attempt_numbers-cons :
    (j : Text) (ks : List Text) (nums : List ℕ)
    → attempt_numbers (j ∷ ks) ≡ ok nums
    → (n : ℕ) × (ns : List ℕ) × (attempt_number j ≡ ok n)
      × (attempt_numbers ks ≡ ok ns)
      × (nums ≡ n ∷ ns)
unfolding attempt_numbers
attempt_numbers-cons j ks nums e =
    let (n, head, more) = >>=-eq-ok (attempt_number j) _ e in
    let (ns, tail, whole) = >>=-eq-ok (attempt_numbers ks) _ more in (n, ns, head, tail, cc)

-- The maximum is no less than the number of any key.
pub le-max_or_zero :
    (ks : List Text) (k : Text) (n : ℕ) (nums : List ℕ)
    → attempt_numbers ks ≡ ok nums
    → mem k ks ≡ true
    → attempt_number k ≡ ok n
    → n ≤ max_or_zero nums
unfolding max_or_zero mem
le-max_or_zero [] k n nums e m h = cc
le-max_or_zero (j ∷ ks) k n nums e m h =
    let (x, xs, head, tail, whole) = attempt_numbers-cons j ks nums e in
    rw whole (elim (Bool-cases (same j k)) [
      | inl hit ↦ let number : attempt_number j ≡ ok n = rw (same→eq j k hit) h in ground arith
      | inr miss ↦ ground (arith, le-max_or_zero ks k n xs tail (ground arith) h)
    ])

append_right_cancel : (xs ys zs : Text) → length xs ≡ length ys → xs ++ zs ≡ ys ++ zs → xs ≡ ys
append_right_cancel [] [] zs h e = refl
append_right_cancel [] (y ∷ ys) zs h e = absurd (omega arith)
append_right_cancel (x ∷ xs) [] zs h e = absurd (omega arith)
append_right_cancel (x ∷ xs) (y ∷ ys) zs h e =
    let rest = append_right_cancel xs ys zs (omega arith) (cc) in cc

current_key-split :
    (run agent dtype : Text)
    → current_key run agent dtype
      ≡ (codes "run:" ++ (run ++ (codes ":" ++ (agent ++ codes ":"))))
        ++ (dtype ++ codes ":current")
unfolding current_key
current_key-split run agent dtype = simp append_assoc

-- Under one run and agent a pointer's key tells its dtype.
pub current_key-injective :
    (run agent d d' : Text) → current_key run agent d ≡ current_key run agent d' → d ≡ d'
current_key-injective run agent d d' e =
    let tails =
      append_left_cancel (codes "run:" ++ (run ++ (codes ":" ++ (agent ++ codes ":"))))
        (d ++ codes ":current") (d' ++ codes ":current")
        (sym (current_key-split run agent d) ∙ e ∙ current_key-split run agent d') in
    append_right_cancel d d' (codes ":current")
      (omega (
        arith,
        ap length tails,
        length-append d (codes ":current"),
        length-append d' (codes ":current"),
      ))
      tails
