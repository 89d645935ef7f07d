-- ===== src/Prelude/Dicts.antt =====
-- Python dicts with text keys, as lists of pairs in the order of insertion or as functions.
use society_harness.Prelude.Tests.{if◌then◌else◌, Bool-cases}
use society_harness.Prelude.Texts.{Text, same, same_iff, same_refl}
use mathlib.Core.Path.{◌≡◌, refl}
use mathlib.Core.Bool.{true}
use mathlib.Core.Logic.{inl, inr}
use native.Mathlib.Omega.{arith}
use mathlib.Core.Option.{Option, none, some}
use mathlib.Core.List.{List, [], ◌∷◌}

module _ {ℓ} {V : Type ℓ} where
  -- `d.get(k)`
  unfoldable pub lookup : Text → List (Text × V) → Option V
  lookup k [] = none
  lookup k ((j, v) ∷ rest) = if same j k then some v else lookup k rest

  -- `d[k] = v`
  unfoldable pub assign : Text → V → List (Text × V) → List (Text × V)
  assign k v [] = (k, v) ∷ []
  assign k v ((j, w) ∷ rest) = if same j k then (j, v) ∷ rest else (j, w) ∷ assign k v rest

  -- `d.pop(k, None)`
  unfoldable pub pop_key : Text → List (Text × V) → List (Text × V)
  pop_key k [] = []
  pop_key k ((j, w) ∷ rest) = if same j k then pop_key k rest else (j, w) ∷ pop_key k rest

  unfoldable pub value_or : V → Option V → V
  value_or v none = v
  value_or v (some w) = w

-- `d[k] = v`, where a dict is a function of its keys.
unfoldable pub assign_at {ℓ} : {V : Type ℓ} → Text → V → (Text → V) → Text → V
assign_at k v d j = if same k j then v else d j

same_both : (i k j : Text) → same i j ≡ true → same k j ≡ true → same i k ≡ true
same_both i k j a b =
    let left : i ≡ j = (same_iff i j).0 a in
    let right : k ≡ j = (same_iff k j).0 b in rw left (rw right (same_refl j))

pub lookup-assign :
    {V : Type 0} (k : Text) (v : V) (d : List (Text × V)) (j : Text)
    → lookup j (assign k v d) ≡ (if same k j then some v else lookup j d)
unfolding lookup assign
lookup-assign k v [] j = refl
lookup-assign k v ((i, w) ∷ rest) j = elim (Bool-cases (same i k)) [
  | inl here ↦ let key : i ≡ k = (same_iff i k).0 here in rw here (rw key (ground arith))
  | inr elsewhere ↦ rw elsewhere (ground (arith, lookup-assign k v rest j, same_both i k j))
]

pub lookup-pop_key :
    {V : Type 0} (k : Text) (d : List (Text × V)) (j : Text)
    → lookup j (pop_key k d) ≡ (if same k j then none else lookup j d)
unfolding lookup pop_key
lookup-pop_key k [] j = ground arith
lookup-pop_key k ((i, w) ∷ rest) j = elim (Bool-cases (same i k)) [
  | inl here ↦
      let key : i ≡ k = (same_iff i k).0 here in
      rw here (rw key (ground (arith, lookup-pop_key k rest j)))
  | inr elsewhere ↦ rw elsewhere (ground (arith, lookup-pop_key k rest j, same_both i k j))
]

-- A dict that changes at one key keeps what holds of all of its values.
pub assign_at-Holds :
    {V : Type 0} (Good : V → Type 0) (k : Text) (v : V) (d : Text → V)
    → Good v
    → ((name : Text) → Good (d name))
    → (name : Text) → Good (assign_at k v d name)
unfolding assign_at
assign_at-Holds Good k v d good all name = elim (Bool-cases (same k name)) [
  | inl here ↦ rw here good
  | inr elsewhere ↦ rw elsewhere (all name)
]
