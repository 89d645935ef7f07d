-- ===== src/Memory/Kv/Attempts.antt =====
-- society/memory/kv.py: attempts, their numbers and `:current` under the methods of the store.
use society_harness.Prelude.{
  ℕ, ◌<◌, ◌≡◌, ◌≢◌, true, false, Text, codes, same, same_iff, same_refl, mem, ◌++◌, arith,
  Bool-cases, inl, inr, sym, ap, ◌∙◌, append_assoc,
}
use society_harness.Prelude.Decimal.{show}
use society_harness.Prelude.Results.{ok, raise, value_error, key_error, >>=-eq-ok}
use society_harness.Json.{Json, num}
use society_harness.Memory.Kv.{
  Store, get, exists, put, scope, attempt_key, current_key, attempt_numbers, keys, next_attempt,
  put_attempt, get_attempt, promote, get_current, current_attempt, pointer, item, truthy,
}
use society_harness.Memory.Kv.Rows.{get-put, exists-put, mem-keys}
use society_harness.Memory.Kv.Names.{
  attempt_key-ne-current_key, attempt_number-attempt_key, le-max_or_zero,
}

-- The key of `n` is not that of a text that differs from it.
pub same-false : (j k : Text) → j ≢ k → same j k ≡ false
same-false j k h = ground (arith, same_iff j k)

-- The text before an attempt's number.
abbrev attempt_prefix : Text → Text → Text → Text
attempt_prefix run agent dtype = scope run agent dtype ++ codes "attempt_"

attempt_key-split :
    (run agent dtype : Text) (m : ℕ)
    → attempt_key run agent dtype m ≡ attempt_prefix run agent dtype ++ show m
unfolding attempt_key
attempt_key-split run agent dtype m =
    sym (append_assoc (scope run agent dtype) (codes "attempt_") (show m))

module _ (s : Store) (run agent dtype : Text) where
  listed :
      (m : ℕ)
      → exists s (attempt_key run agent dtype m) ≡ true
      → mem (attempt_key run agent dtype m) (keys s (attempt_prefix run agent dtype)) ≡ true
  listed m h = rw (attempt_key-split run agent dtype m) (
      mem-keys s (attempt_prefix run agent dtype) (show m)
        (rw (← attempt_key-split run agent dtype m) h))

  -- If `next_attempt` returns a number, it is above the number of every attempt of the scope that is
  -- in the store.
  pub next_attempt_above :
      (n m : ℕ)
      → next_attempt s run agent dtype ≡ ok n
      → exists s (attempt_key run agent dtype m) ≡ true
      → m < n
  unfolding next_attempt
  next_attempt_above n m e h =
      let (nums, read, last) =
        >>=-eq-ok (attempt_numbers (keys s (attempt_prefix run agent dtype))) _ e in
      ground (
        arith,
        le-max_or_zero (keys s (attempt_prefix run agent dtype)) (attempt_key run agent dtype m) m
            nums read (listed m h) (attempt_number-attempt_key run agent dtype m),
      )

  -- So the key of the new attempt is free.
  pub next_attempt_free :
      (n : ℕ)
      → next_attempt s run agent dtype ≡ ok n
      → exists s (attempt_key run agent dtype n) ≡ false
  next_attempt_free n e = elim (Bool-cases (exists s (attempt_key run agent dtype n))) [
    | inl taken ↦ absurd (omega (arith, next_attempt_above n n e taken))
    | inr free ↦ free
  ]

module _ (now : ℕ) (s : Store) (run agent dtype : Text) (n : ℕ) (v : Json) where
  -- A second write of the same attempt raises.
  pub put_attempt-value_error :
      exists s (attempt_key run agent dtype n) ≡ true
      → put_attempt now s run agent dtype n v ≡ raise value_error
  unfolding put_attempt
  put_attempt-value_error h = rw h

  pub put_attempt-eq-ok :
      (s' : Store) (k : Text)
      → put_attempt now s run agent dtype n v ≡ ok (s', k)
      → (exists s (attempt_key run agent dtype n) ≡ false)
        × (s' ≡ put now s (attempt_key run agent dtype n) v)
        × (k ≡ attempt_key run agent dtype n)
  unfolding put_attempt
  put_attempt-eq-ok s' k e = ground arith

  -- When `put_attempt` returns, the attempt reads as the value, and every key that was stored reads
  -- as before.
  pub put_attempt-get :
      (s' : Store) (k : Text)
      → put_attempt now s run agent dtype n v ≡ ok (s', k)
      → (get_attempt s' run agent dtype n ≡ v)
        × ((j : Text) → exists s j ≡ true → get s' j ≡ get s j)
  unfolding get_attempt
  put_attempt-get s' k e =
      let (free, whole, key) = put_attempt-eq-ok s' k e in
      rw whole (
        ground (
          arith,
          get-put now s (attempt_key run agent dtype n) (attempt_key run agent dtype n) v,
          same_refl (attempt_key run agent dtype n),
        ),
        λ j h. ground (
          arith,
          get-put now s (attempt_key run agent dtype n) j v,
          same_iff (attempt_key run agent dtype n) j,
          λ (same_key : attempt_key run agent dtype n ≡ j). ap (exists s) same_key,
        ),
      )

  -- No attempt moves a pointer, that of its own scope included.
  pub put_attempt_pointers :
      (s' : Store) (k run' agent' dtype' : Text)
      → put_attempt now s run agent dtype n v ≡ ok (s', k)
      → get s' (current_key run' agent' dtype') ≡ get s (current_key run' agent' dtype')
  put_attempt_pointers s' k run' agent' dtype' e =
      let (free, whole, key) = put_attempt-eq-ok s' k e in
      rw whole (
        ground (
          arith,
          get-put now s (attempt_key run agent dtype n) (current_key run' agent' dtype') v,
          same-false _ _ (attempt_key-ne-current_key run agent dtype run' agent' dtype' n),
        ))

-- What `get_current` returns when the pointer is one that `promote` writes.
pub get_current-pointer :
    (s : Store) (run agent dtype target : Text) (n : ℕ)
    → get s (current_key run agent dtype) ≡ pointer target n
    → (get_current s run agent dtype ≡ ok (get s target))
      × (current_attempt s run agent dtype ≡ ok (num n))
unfolding get_current current_attempt truthy item same
get_current-pointer s run agent dtype target n e = (rw e, rw e)

module _ (now : ℕ) (s : Store) (run agent dtype : Text) (n : ℕ) where
  -- A missing attempt cannot be promoted.
  pub promote-key_error :
      exists s (attempt_key run agent dtype n) ≡ false
      → promote now s run agent dtype n ≡ raise key_error
  unfolding promote
  promote-key_error h = rw h

  pub promote-eq-ok :
      (s' : Store) (k : Text)
      → promote now s run agent dtype n ≡ ok (s', k)
      → (exists s (attempt_key run agent dtype n) ≡ true)
        × (s' ≡ put now s (current_key run agent dtype) (pointer (attempt_key run agent dtype n) n))
        × (k ≡ current_key run agent dtype)
  unfolding promote
  promote-eq-ok s' k e = ground arith

  -- When `promote` returns, readers get the value of the promoted attempt and its number, and every
  -- attempt, of any scope, still reads as before.
  pub promote_current :
      (s' : Store) (k : Text)
      → promote now s run agent dtype n ≡ ok (s', k)
      → (get_current s' run agent dtype ≡ ok (get_attempt s run agent dtype n))
        × (current_attempt s' run agent dtype ≡ ok (num n))
        × ((run' agent' dtype' : Text) (m : ℕ)
            → get_attempt s' run' agent' dtype' m ≡ get_attempt s run' agent' dtype' m)
  unfolding get_attempt
  promote_current s' k e =
      let (there, whole, key) = promote-eq-ok s' k e in
      let target = attempt_key run agent dtype n in
      let p = current_key run agent dtype in
      let moved : get (put now s p (pointer target n)) p ≡ pointer target n =
        ground (arith, get-put now s p p (pointer target n), same_refl p) in
      let kept : (run' agent' dtype' : Text) (m : ℕ)
          → get (put now s p (pointer target n)) (attempt_key run' agent' dtype' m)
            ≡ get s (attempt_key run' agent' dtype' m) =
        λ run' agent' dtype' m. ground (
          arith,
          get-put now s p (attempt_key run' agent' dtype' m) (pointer target n),
          same-false p (attempt_key run' agent' dtype' m)
              (λ h. attempt_key-ne-current_key run' agent' dtype' run agent dtype m (sym h)),
        ) in
      let (value, number) =
        get_current-pointer (put now s p (pointer target n)) run agent dtype target n moved in
      rw whole (value ∙ ap ok (kept run agent dtype n), number, kept)

-- A worker's value reaches its readers: if `next_attempt` returns a number, `put_attempt` and
-- `promote` cannot fail under it, `get_current` then returns the value, and every older attempt of
-- the scope reads as before.
pub handoff :
    (now later : ℕ) (s : Store) (run agent dtype : Text) (n : ℕ) (v : Json)
    → next_attempt s run agent dtype ≡ ok n
    → (written : Store × Text) × (promoted : Store × Text) × (put_attempt now s run agent dtype n v
        ≡ ok written)
      × (promote later written.0 run agent dtype n ≡ ok promoted)
      × (get_current promoted.0 run agent dtype ≡ ok v)
      × ((m : ℕ)
          → exists s (attempt_key run agent dtype m) ≡ true
          → get_attempt promoted.0 run agent dtype m ≡ get_attempt s run agent dtype m)
unfolding put_attempt promote get_attempt
handoff now later s run agent dtype n v e =
    let free = next_attempt_free s run agent dtype n e in
    let k = attempt_key run agent dtype n in
    let s1 = put now s k v in
    let there : exists s1 k ≡ true = ground (arith, exists-put now s k k v, same_refl k) in
    let p = current_key run agent dtype in
    let put_done : put_attempt now s run agent dtype n v ≡ ok (s1, k) = rw free in
    let promote_done : promote later s1 run agent dtype n ≡ ok (put later s1 p (pointer k n), p) =
      rw there in
    let (value, kept) = put_attempt-get now s run agent dtype n v s1 k put_done in
    let (reads, number, same_attempts) =
      promote_current later s1 run agent dtype n (put later s1 p (pointer k n)) p promote_done in
    (
      (s1, k),
      (put later s1 p (pointer k n), p),
      put_done,
      promote_done,
      reads ∙ ap ok value,
      λ m h. same_attempts run agent dtype m ∙ kept (attempt_key run agent dtype m) h,
    )
