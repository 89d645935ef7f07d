-- ===== src/Gates/Checks/Schemas/Clean.antt =====
-- society/gates/deterministic.py: when each part of a comparison of schemas finds nothing.
use mathlib.Core.Path.{subst}
use society_harness.Prelude.{
  ◌≡◌, ◌↔◌, refl, Bool, true, false, Text, same, same_iff, same_refl, mem, sym, ap, ◌∙◌, codes,
  Option-cases, List, [], ◌∷◌, ◌++◌, none, some, arith, Bool-cases, inl, inr,
}
use society_harness.Prelude.Results.{ok, raise, >>=-eq-ok}
use society_harness.Gates.Checks.Schemas.{
  TypeOf, Schema, Props, no_props, prop, same_types, text_leb, insert_on, sorted_on, sorted,
  difference, find_prop, each_text, missing_field, unexpected_field, unexpected_at, type_diff,
  required_diff, under, Found, unexpected_props, in_order, by_key,
}

-- Nothing is found at any property.
unfoldable pub AllClean : List Found → Type 0
AllClean [] = true ≡ true
AllClean (f ∷ fs) = (f.1 ≡ ok []) × AllClean fs

pub in_order-AllClean : (fs : List Found) → in_order fs ≡ ok [] → AllClean fs
unfolding in_order AllClean
in_order-AllClean [] h = refl
in_order-AllClean ((k, raise e) ∷ fs) h = absurd cc
in_order-AllClean ((k, ok []) ∷ fs) h =
    let (later, returned, whole) = >>=-eq-ok (in_order fs) (λ l. ok ([] ++ l)) h in
    (refl, in_order-AllClean fs (cc))
in_order-AllClean ((k, ok (d ∷ ds)) ∷ fs) h =
    let (later, returned, whole) = >>=-eq-ok (in_order fs) (λ l. ok ((d ∷ ds) ++ l)) h in absurd cc

pub AllClean-in_order : (fs : List Found) → AllClean fs → in_order fs ≡ ok []
unfolding in_order AllClean
AllClean-in_order [] h = refl
AllClean-in_order ((k, r) ∷ fs) (clean, rest) = rw clean (rw (AllClean-in_order fs rest) refl)

insert_on-AllClean :
    (f : Found) (fs : List Found)
    → AllClean (insert_on (λ (g : Found). g.0) f fs) ↔ AllClean (f ∷ fs)
unfolding insert_on AllClean
insert_on-AllClean f [] = (λ h. h, λ h. h)
insert_on-AllClean f (g ∷ gs) = elim (Bool-cases (text_leb f.0 g.0)) [
  | inl first ↦ rw first (λ h. h, λ h. h)
  | inr later ↦
      let swapped = insert_on-AllClean f gs in
      rw later (
        λ h. let both = swapped.0 h.1 in (both.0, (h.0, both.1)),
        λ h. (h.1.0, swapped.1 (h.0, h.1.1)),
      )
]

pub by_key-AllClean : (fs : List Found) → AllClean (by_key fs) ↔ AllClean fs
unfolding sorted_on AllClean
by_key-AllClean [] = (λ h. h, λ h. h)
by_key-AllClean (f ∷ fs) = (
  λ h. let both = (insert_on-AllClean f (by_key fs)).0 h in (both.0, (by_key-AllClean fs).0 both.1),
  λ h. (insert_on-AllClean f (by_key fs)).1 (h.0, (by_key-AllClean fs).1 h.1),
)

pub append-AllClean : (fs gs : List Found) → AllClean (fs ++ gs) ↔ (AllClean fs × AllClean gs)
unfolding AllClean
append-AllClean [] gs = (λ h. (refl, h), λ h. h.1)
append-AllClean (f ∷ fs) gs = (
  λ h. let both = (append-AllClean fs gs).0 h.1 in ((h.0, both.0), both.1),
  λ h. (h.0.0, (append-AllClean fs gs).1 (h.0.1, h.1)),
)

pub ok_cons : {d : Text} {ds : List Text} → ok (d ∷ ds) ≡ ok [] → ⊥
ok_cons h = cc

ne_nil : {V : Type 0} {v : V} {vs : List V} → v ∷ vs ≡ [] → ⊥
ne_nil h = cc

some-ne-none : {V : Type 0} {v : V} → some v ≡ none → ⊥
some-ne-none h = cc

in_tail : (a k : Text) (those : List Text) → mem k those ≡ true → mem k (a ∷ those) ≡ true
unfolding mem
in_tail a k those m = rw m (ground arith)

tail_absent :
    (j : Text) (s : Schema) (k : Text) (qs : Props)
    → find_prop k (prop j s qs) ≡ none
    → find_prop k qs ≡ none
tail_absent j s k qs h = elim (Bool-cases (same j k)) [
  | inl here ↦ absurd (some-ne-none (rw here at h))
  | inr elsewhere ↦ rw elsewhere at h
]

unexpected-extra :
    (ps : Props) (j : Text) (s : Schema) (qs : Props) (path : Text)
    → find_prop j ps ≡ none
    → unexpected_props ps (prop j s qs) path
      ≡ (j, ok ((under path j ++ codes ": unexpected property") ∷ [])) ∷ unexpected_props ps qs path
unexpected-extra ps j s qs path extra =
    ap (λ o. unexpected_at o j path (unexpected_props ps qs path)) extra

unexpected-known :
    (ps : Props) (j : Text) (s : Schema) (qs : Props) (path : Text) (e : Schema)
    → find_prop j ps ≡ some e
    → unexpected_props ps (prop j s qs) path ≡ unexpected_props ps qs path
unexpected-known ps j s qs path e known =
    ap (λ o. unexpected_at o j path (unexpected_props ps qs path)) known

pub unexpected-AllClean :
    (ps qs : Props) (path : Text)
    → AllClean (unexpected_props ps qs path)
    → (k : Text) → find_prop k ps ≡ none
    → find_prop k qs ≡ none
unfolding AllClean
unexpected-AllClean ps no_props path clean k absent = refl
unexpected-AllClean ps (prop j s qs) path clean k absent = elim (Option-cases (find_prop j ps)) [
  | inl extra ↦ absurd (ok_cons (subst AllClean (unexpected-extra ps j s qs path extra) clean).0)
  | inr (e, known) ↦ elim (Bool-cases (same j k)) [
    | inl here ↦ let key : j ≡ k = (same_iff j k).0 here in absurd cc
    | inr elsewhere ↦ rw elsewhere (
        unexpected-AllClean ps qs path
          (subst AllClean (unexpected-known ps j s qs path e known) clean) k absent)
  ]
]

pub AllClean-unexpected :
    (ps qs : Props) (path : Text)
    → ((k : Text) → find_prop k ps ≡ none → find_prop k qs ≡ none)
    → AllClean (unexpected_props ps qs path)
unfolding AllClean
AllClean-unexpected ps no_props path known = refl
AllClean-unexpected ps (prop j s qs) path known =
    let rest =
      AllClean-unexpected ps qs path (λ k none_here. tail_absent j s k qs (known k none_here)) in
    elim (Option-cases (find_prop j ps)) [
      | inl extra ↦ absurd (some-ne-none (rw (same_refl j) at (known j extra)))
      | inr (e, there) ↦ subst AllClean (sym (unexpected-known ps j s qs path e there)) rest
    ]

difference-nil :
    (those others : List Text)
    → difference those others ≡ []
    → (k : Text) → mem k those ≡ true
    → mem k others ≡ true
unfolding difference mem
difference-nil [] bs h k m = absurd cc
difference-nil (a ∷ those) others h k m = elim (Bool-cases (mem a others)) [
  | inr missing ↦ absurd (ne_nil (rw missing at h))
  | inl there ↦ elim (Bool-cases (same a k)) [
    | inl here ↦ let key : a ≡ k = (same_iff a k).0 here in rw (sym key) there
    | inr elsewhere ↦ difference-nil those others (rw there at h) k (rw elsewhere at m)
  ]
]

nil-difference :
    (those others : List Text)
    → ((k : Text) → mem k those ≡ true → mem k others ≡ true)
    → difference those others ≡ []
unfolding difference mem
nil-difference [] others every = refl
nil-difference (a ∷ those) others every =
    let first : mem a others ≡ true = every a (rw (same_refl a) refl) in
    rw first (nil-difference those others (λ k m. every k (in_tail a k those m)))

insert_on-ne-nil : (key : Text → Text) (v : Text) (vs : List Text) → insert_on key v vs ≡ [] → ⊥
unfolding insert_on
insert_on-ne-nil key v [] h = cc
insert_on-ne-nil key v (w ∷ ws) h = ground arith

each_text-nil : (f : Text → Text) (ks : List Text) → each_text f ks ≡ [] → ks ≡ []
each_text-nil f [] h = refl
each_text-nil f (k ∷ ks) h = absurd (ne_nil h)

-- Messages on the sorted names are none exactly if there are no names.
messages-nil : (f : Text → Text) (ks : List Text) → each_text f (sorted ks) ≡ [] → ks ≡ []
unfolding sorted_on
messages-nil f [] h = refl
messages-nil f (k ∷ ks) h =
    absurd (
      insert_on-ne-nil (λ t. t) k (sorted ks)
        (each_text-nil f (insert_on (λ t. t) k (sorted ks)) h))

messages-none : (f : Text → Text) (ks : List Text) → ks ≡ [] → each_text f (sorted ks) ≡ []
unfolding sorted_on
messages-none f ks h = rw h refl

append-nil-parts : {V : Type 0} (vs ws : List V) → vs ++ ws ≡ [] → (vs ≡ []) × (ws ≡ [])
append-nil-parts [] ws h = (refl, h)
append-nil-parts (v ∷ vs) ws h = absurd (ne_nil h)

pub type_diff_iff :
    (t u : TypeOf) (path : Text) → (type_diff t u path ≡ []) ↔ (same_types t u ≡ true)
type_diff_iff t u path = elim (Bool-cases (same_types t u)) [
  | inl equal ↦ (λ h. equal, λ h. rw equal refl)
  | inr differ ↦ (λ h. absurd (ne_nil (rw differ at h)), λ h. absurd cc)
]

both_ways : (a b : Bool) → (a ≡ true → b ≡ true) → (b ≡ true → a ≡ true) → a ≡ b
both_ways true b f g = sym (f refl)
both_ways false true f g = g refl
both_ways false false f g = refl

pub required_diff_iff :
    (r q : List Text) (path : Text)
    → (required_diff r q path ≡ []) ↔ ((k : Text) → mem k r ≡ mem k q)
required_diff_iff r q path = (
  λ h.
      let (missing, extra) =
        append-nil-parts (each_text (missing_field path) (sorted (difference r q)))
          (each_text (unexpected_field path) (sorted (difference q r))) h in
      λ k.
        both_ways (mem k r) (mem k q)
          (difference-nil r q (messages-nil (missing_field path) (difference r q) missing) k)
          (difference-nil q r (messages-nil (unexpected_field path) (difference q r) extra) k),
  λ same_names.
      let none_missing = nil-difference r q (λ k m. sym (same_names k) ∙ m) in
      let none_extra = nil-difference q r (λ k m. same_names k ∙ m) in
      ap (λ ms. ms ++ each_text (unexpected_field path) (sorted (difference q r)))
        (messages-none (missing_field path) (difference r q) none_missing)
      ∙ messages-none (unexpected_field path) (difference q r) none_extra,
)
