-- ===== src/Gates/Executor/Promotion.antt =====
-- society/gates/executor.py: what a promotion does to the store.
use society_harness.Prelude.{
  ℕ, true, false, Text, same, same_iff, same_refl, mem, List, [], ◌∷◌, ◌≡◌, refl, sym, ◌∙◌, arith,
  Bool-cases, inl, inr,
}
use society_harness.Prelude.Results.{Result, ok, raise}
use society_harness.Memory.Kv.{
  Store, get, promote, exists, attempt_key, current_key, pointer, get_attempt,
}
use society_harness.Memory.Kv.Rows.{get-put, exists-put}
use society_harness.Memory.Kv.Names.{current_key-injective, attempt_key-ne-current_key}
use society_harness.Memory.Kv.Attempts.{
  put_attempt-get, put_attempt_pointers, put_attempt-eq-ok, promote_current, promote-eq-ok,
  same-false,
}
use society_harness.Gates.Executor.Outputs.{promote_all}
use society_harness.Gates.Executor.{dtypes}
use society_harness.Gates.Executor.Storage.{AcrossAttempts}

-- Every `:current` reads as before.
abbrev pub SamePointers : Store → Store → Type 0
SamePointers kv kv' =
    (run agent dtype : Text)
    → get kv' (current_key run agent dtype) ≡ get kv (current_key run agent dtype)

-- Every attempt in the store is still there, with its value.
abbrev pub KeepsAttempts : Store → Store → Type 0
KeepsAttempts kv kv' =
    (run agent dtype : Text) (m : ℕ)
    → exists kv (attempt_key run agent dtype m) ≡ true
    → (exists kv' (attempt_key run agent dtype m) ≡ true)
      × (get_attempt kv' run agent dtype m ≡ get_attempt kv run agent dtype m)

-- The same attempts are in the store, with the same values.
abbrev pub SameAttempts : Store → Store → Type 0
SameAttempts kv kv' =
    (run agent dtype : Text) (m : ℕ)
    → (exists kv' (attempt_key run agent dtype m) ≡ exists kv (attempt_key run agent dtype m))
      × (get_attempt kv' run agent dtype m ≡ get_attempt kv run agent dtype m)

SameAttempts-trans : (a b c : Store) → SameAttempts a b → SameAttempts b c → SameAttempts a c
SameAttempts-trans a b c h k run agent dtype m =
    let (there, read) = h run agent dtype m in
    let (there', read') = k run agent dtype m in (there' ∙ there, read' ∙ read)

pub KeepsAttempts-of_same : (a b : Store) → SameAttempts a b → KeepsAttempts a b
KeepsAttempts-of_same a b h run agent dtype m there =
    let (still, read) = h run agent dtype m in (still ∙ there, read)

pointer-ne-attempt :
    (run agent dtype run' agent' dtype' : Text) (m : ℕ)
    → same (current_key run agent dtype) (attempt_key run' agent' dtype' m) ≡ false
pointer-ne-attempt run agent dtype run' agent' dtype' m =
    same-false _ _ (λ h. attempt_key-ne-current_key run' agent' dtype' run agent dtype m (sym h))

pub SamePointers-AcrossAttempts : AcrossAttempts SamePointers
SamePointers-AcrossAttempts = record {
  same_store = λ kv run agent dtype. refl;
  trans = λ a b c h k run agent dtype. k run agent dtype ∙ h run agent dtype;
  new_attempt = λ now kv run agent dtype n v kv' k e run' agent' dtype'.
      put_attempt_pointers now kv run agent dtype n v kv' k run' agent' dtype' e;
}

pub KeepsAttempts-trans :
    (a b c : Store) → KeepsAttempts a b → KeepsAttempts b c → KeepsAttempts a c
KeepsAttempts-trans a b c h k run agent dtype m there =
    let (there', read) = h run agent dtype m there in
    let (there'', read') = k run agent dtype m there' in (there'', read' ∙ read)

pub KeepsAttempts-AcrossAttempts : AcrossAttempts KeepsAttempts
unfolding get_attempt
KeepsAttempts-AcrossAttempts = record {
  same_store = λ kv run agent dtype m there. (there, refl);
  trans = KeepsAttempts-trans;
  new_attempt = λ now kv run agent dtype n v kv' k e run' agent' dtype' m there.
      let (free, whole, key) = put_attempt-eq-ok now kv run agent dtype n v kv' k e in
      (
        rw whole (
            ground (
              arith,
              exists-put now kv (attempt_key run agent dtype n) (attempt_key run' agent' dtype' m)
                  v,
            )),
        (put_attempt-get now kv run agent dtype n v kv' k e).1 _ there,
      );
}

module _ (now : ℕ) (run agent : Text) (n : ℕ) where
  promote-SameAttempts :
      (kv kv' : Store) (dtype k : Text)
      → promote now kv run agent dtype n ≡ ok (kv', k)
      → SameAttempts kv kv'
  promote-SameAttempts kv kv' dtype k e run' agent' dtype' m =
      let (old, whole, key) = promote-eq-ok now kv run agent dtype n kv' k e in
      (
        rw whole (
            ground (
              arith,
              exists-put now kv (current_key run agent dtype) (attempt_key run' agent' dtype' m)
                  (pointer (attempt_key run agent dtype n) n),
              pointer-ne-attempt run agent dtype run' agent' dtype' m,
            )),
        (promote_current now kv run agent dtype n kv' k e).2 run' agent' dtype' m,
      )

  -- The pointer of `dtype` is at attempt `n`.
  abbrev pub PointsHere : Store → Text → Type 0
  PointsHere kv dtype =
      get kv (current_key run agent dtype) ≡ pointer (attempt_key run agent dtype n) n

  promote-PointsHere :
      (kv kv' : Store) (dtype k : Text)
      → promote now kv run agent dtype n ≡ ok (kv', k)
      → PointsHere kv' dtype
  promote-PointsHere kv kv' dtype k e =
      let (old, whole, key) = promote-eq-ok now kv run agent dtype n kv' k e in
      rw whole (
        ground (
          arith,
          get-put now kv (current_key run agent dtype) (current_key run agent dtype)
              (pointer (attempt_key run agent dtype n) n),
          same_refl (current_key run agent dtype),
        ))

  -- A later promotion of the same attempt leaves it there.
  PointsHere-promote :
      (kv kv' : Store) (dtype d k : Text)
      → promote now kv run agent dtype n ≡ ok (kv', k)
      → PointsHere kv d
      → PointsHere kv' d
  PointsHere-promote kv kv' dtype d k e h =
      let (old, whole, key) = promote-eq-ok now kv run agent dtype n kv' k e in
      rw whole (elim (Bool-cases (same (current_key run agent dtype) (current_key run agent d))) [
        | inl hit ↦
            let one = current_key-injective run agent dtype d ((same_iff _ _).0 hit) in
            rw (← one) (
              ground (
                arith,
                get-put now kv (current_key run agent dtype) (current_key run agent dtype)
                    (pointer (attempt_key run agent dtype n) n),
                same_refl (current_key run agent dtype),
              ))
        | inr miss ↦ ground (
          arith,
          get-put now kv (current_key run agent dtype) (current_key run agent d)
              (pointer (attempt_key run agent dtype n) n),
        )
      ])

  abbrev pub Promoted : List Text → Store → Store → Type 0
  Promoted dtypes kv kv' =
      SameAttempts kv kv'
      × ((d : Text) → PointsHere kv d → PointsHere kv' d)
      × ((d : Text)
          → mem d dtypes ≡ true
          → exists kv (attempt_key run agent d n) ≡ true
          → PointsHere kv' d)

  Promoted-cons :
      (dtype k : Text) (rest : List Text) (kv mid kv' : Store)
      → promote now kv run agent dtype n ≡ ok (mid, k)
      → Promoted rest mid kv'
      → Promoted (dtype ∷ rest) kv kv'
  unfolding mem
  Promoted-cons dtype k rest kv mid kv' e (kept, stay, new) = (
    SameAttempts-trans kv mid kv' (promote-SameAttempts kv mid dtype k e) kept,
    λ d h. stay d (PointsHere-promote kv mid dtype d k e h),
    λ d m there. elim (Bool-cases (same dtype d)) [
      | inl hit ↦
          let one = (same_iff dtype d).0 hit in
          rw (← one) (stay dtype (promote-PointsHere kv mid dtype k e))
      | inr miss ↦
          new d (ground arith) ((promote-SameAttempts kv mid dtype k e run agent d n).0 ∙ there)
    ],
  )

  Promoted-skip :
      (dtype : Text) (rest : List Text) (kv kv' : Store)
      → exists kv (attempt_key run agent dtype n) ≡ false
      → Promoted rest kv kv'
      → Promoted (dtype ∷ rest) kv kv'
  unfolding mem
  Promoted-skip dtype rest kv kv' absent (kept, stay, new) = (
    kept,
    stay,
    λ d m there. elim (Bool-cases (same dtype d)) [
      | inl hit ↦
          let one = (same_iff dtype d).0 hit in
          let gone : exists kv (attempt_key run agent d n) ≡ false = rw (← one) absent in cc
      | inr miss ↦ new d (ground arith) there
    ],
  )

  pub promote_all-Promoted :
      (dtypes : List Text) (kv kv' : Store)
      → promote_all now run agent n dtypes kv ≡ ok kv'
      → Promoted dtypes kv kv'
  unfolding promote_all mem
  promote_all-Promoted [] kv kv' e =
      let whole : kv ≡ kv' = cc in rw (← whole) (λ r a d m. (refl, refl), λ d h. h, λ d m there. cc)
  promote_all-Promoted (dtype ∷ rest) kv kv' e =
      elim (Bool-cases (exists kv (attempt_key run agent dtype n))) [
        | inl there ↦ go there (promote now kv run agent dtype n) refl (promote_all-Promoted rest)
        | inr absent ↦
            Promoted-skip dtype rest kv kv' absent (promote_all-Promoted rest kv kv' (ground arith))
      ]
    where
      go :
          exists kv (attempt_key run agent dtype n) ≡ true
          → (r : Result (Store × Text)) → promote now kv run agent dtype n ≡ r
          → ((kv kv' : Store) → promote_all now run agent n rest kv ≡ ok kv' → Promoted rest kv kv')
          → Promoted (dtype ∷ rest) kv kv'
      go there (ok (mid, k)) p ih =
          Promoted-cons dtype k rest kv mid kv' p (ih mid kv' (ground arith))
      go there (raise x) p ih = absurd (ground arith)
