-- ===== src/Gates/Checks/Schemas/Matches.antt =====
-- society/gates/deterministic.py: which schemas `diff_schemas` finds no difference between.

use society_harness.Prelude.{
  ◌≡◌, ◌↔◌, refl, true, false, Text, mem, codes, Option-cases, List, [], ◌∷◌, ◌++◌, none, some, inl,
  inr,
}
use society_harness.Prelude.Results.{Result, ok, raise, ◌>>=◌}
use society_harness.Gates.Checks.Schemas.{
  Schema, truth, schema, Props, no_props, prop, ItemsOf, no_items, items, same_types, find_prop,
  type_diff, required_diff, under, unexpected_props, in_order, by_key, diff_schemas, diff_props,
  diff_items,
}
use society_harness.Gates.Checks.Schemas.Clean.{
  AllClean, unexpected-AllClean, AllClean-unexpected, in_order-AllClean, AllClean-in_order,
  by_key-AllClean, append-AllClean, type_diff_iff, required_diff_iff, ok_cons,
}

-- The same type, the same required fields, matching properties under the same names, and items that
-- match or are absent from both. A truth value matches nothing.
unfoldable mutual
  pub Matches : Schema → Schema → Type 0
  Matches (schema t r ps i) (schema u q qs j) =
      (same_types t u ≡ true)
      × ((k : Text) → mem k r ≡ mem k q)
      × PropsMatch ps qs
      × ((k : Text) → find_prop k ps ≡ none → find_prop k qs ≡ none)
      × ItemsMatch i j
  Matches _ _ = true ≡ false

  pub PropsMatch : Props → Props → Type 0
  PropsMatch no_props qs = true ≡ true
  PropsMatch (prop k s ps) qs =
      ((a : Schema) × (find_prop k qs ≡ some a) × Matches s a) × PropsMatch ps qs

  pub ItemsMatch : ItemsOf → ItemsOf → Type 0
  ItemsMatch no_items no_items = true ≡ true
  ItemsMatch (items s) (items a) = Matches s a
  ItemsMatch _ _ = true ≡ false

-- Each part of a comparison that found nothing found nothing.
four_parts :
    (inner last : Result (List Text)) (ts rs : List Text)
    → (do is ← inner; ls ← last; ok (ts ++ (rs ++ (is ++ ls)))) ≡ ok []
    → (ts ≡ []) × ((rs ≡ []) × ((inner ≡ ok []) × (last ≡ ok [])))
four_parts (raise e) last ts rs h = absurd cc
four_parts (ok is) (raise e) ts rs h = absurd cc
four_parts (ok []) (ok []) [] [] h = (refl, (refl, (refl, refl)))
four_parts (ok []) (ok (l ∷ ls)) [] [] h = absurd (ok_cons h)
four_parts (ok (i ∷ is)) (ok ls) [] [] h = absurd (ok_cons h)
four_parts (ok is) (ok ls) [] (r ∷ rs) h = absurd (ok_cons h)
four_parts (ok is) (ok ls) (t ∷ ts) rs h = absurd (ok_cons h)

mutual
  unfolding diff_schemas Matches AllClean

  diff_schemas-Matches : (e a : Schema) (path : Text) → diff_schemas e a path ≡ ok [] → Matches e a
  diff_schemas-Matches (truth b) a path h = absurd cc
  diff_schemas-Matches (schema t r ps i) (truth b) path h = absurd cc
  diff_schemas-Matches (schema t r ps i) (schema u q qs j) path h =
      let found = diff_props ps qs path ++ unexpected_props ps qs path in
      let (types, (required, (inner, last))) =
        four_parts (in_order (by_key found)) (diff_items i j path) (type_diff t u path)
          (required_diff r q path) h in
      let clean =
        (append-AllClean (diff_props ps qs path) (unexpected_props ps qs path)).0
          ((by_key-AllClean found).0 (in_order-AllClean (by_key found) inner)) in
      (
        (type_diff_iff t u path).0 types,
        (required_diff_iff r q path).0 required,
        diff_props-PropsMatch ps qs path clean.0,
        unexpected-AllClean ps qs path clean.1,
        diff_items-ItemsMatch i j path last,
      )

  diff_props-PropsMatch :
      (ps qs : Props) (path : Text) → AllClean (diff_props ps qs path) → PropsMatch ps qs
  diff_props-PropsMatch no_props qs path h = refl
  diff_props-PropsMatch (prop k s ps) qs path (first, rest) = (
    elim (Option-cases (find_prop k qs)) [
      | inl missing ↦ absurd (ok_cons (rw missing at first))
      | inr (a, there) ↦ (a, there, diff_schemas-Matches s a (under path k) (rw there at first))
    ],
    diff_props-PropsMatch ps qs path rest,
  )

  diff_items-ItemsMatch :
      (i j : ItemsOf) (path : Text) → diff_items i j path ≡ ok [] → ItemsMatch i j
  diff_items-ItemsMatch no_items no_items path h = refl
  diff_items-ItemsMatch no_items (items a) path h = absurd (ok_cons h)
  diff_items-ItemsMatch (items s) no_items path h = absurd (ok_cons h)
  diff_items-ItemsMatch (items s) (items a) path h = diff_schemas-Matches s a (path ++ codes "[]") h

all_parts :
    (inner last : Result (List Text)) (ts rs : List Text)
    → ts ≡ []
    → rs ≡ []
    → inner ≡ ok []
    → last ≡ ok []
    → (do is ← inner; ls ← last; ok (ts ++ (rs ++ (is ++ ls)))) ≡ ok []
all_parts inner last ts rs no_ts no_rs no_inner no_last =
    rw no_inner (rw no_last (rw no_ts (rw no_rs refl)))

mutual
  unfolding diff_schemas Matches AllClean

  Matches-diff_schemas : (e a : Schema) (path : Text) → Matches e a → diff_schemas e a path ≡ ok []
  Matches-diff_schemas (truth b) a path h = absurd cc
  Matches-diff_schemas (schema t r ps i) (truth b) path h = absurd cc
  Matches-diff_schemas (schema t r ps i) (schema u q qs j) path
        (types, required, props, known, inside) =
      let found = diff_props ps qs path ++ unexpected_props ps qs path in
      let clean =
        (append-AllClean (diff_props ps qs path) (unexpected_props ps qs path)).1
          (PropsMatch-diff_props ps qs path props, AllClean-unexpected ps qs path known) in
      all_parts (in_order (by_key found)) (diff_items i j path) (type_diff t u path)
        (required_diff r q path) ((type_diff_iff t u path).1 types)
        ((required_diff_iff r q path).1 required)
        (AllClean-in_order (by_key found) ((by_key-AllClean found).1 clean))
        (ItemsMatch-diff_items i j path inside)

  PropsMatch-diff_props :
      (ps qs : Props) (path : Text) → PropsMatch ps qs → AllClean (diff_props ps qs path)
  PropsMatch-diff_props no_props qs path h = refl
  PropsMatch-diff_props (prop k s ps) qs path ((a, there, equal), rest) = (
    rw there (Matches-diff_schemas s a (under path k) equal),
    PropsMatch-diff_props ps qs path rest,
  )

  ItemsMatch-diff_items :
      (i j : ItemsOf) (path : Text) → ItemsMatch i j → diff_items i j path ≡ ok []
  ItemsMatch-diff_items no_items no_items path h = refl
  ItemsMatch-diff_items no_items (items a) path h = absurd cc
  ItemsMatch-diff_items (items s) no_items path h = absurd cc
  ItemsMatch-diff_items (items s) (items a) path h = Matches-diff_schemas s a (path ++ codes "[]") h

-- diff_schemas returns no difference, without an exception, exactly if the two schemas match: the
-- same type, the same required fields, matching properties under the same names, and items that
-- match or are absent from both, without a truth value at any place that is compared.
pub diff_schemas_iff : (e a : Schema) (path : Text) → (diff_schemas e a path ≡ ok []) ↔ Matches e a
diff_schemas_iff e a path = (diff_schemas-Matches e a path, Matches-diff_schemas e a path)
