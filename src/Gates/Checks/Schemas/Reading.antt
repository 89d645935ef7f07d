-- ===== src/Gates/Checks/Schemas/Reading.antt =====
-- society/gates/deterministic.py: what `diff_schemas` reads of a schema by `get`.
use mathlib.Core.Path.{subst}
use society_harness.Prelude.{
  ◌≡◌, ◌⊎◌, ◌↔◌, refl, ap, sym, ◌∙◌, Text, codes, same, same_iff, List, [], ◌∷◌, Option, none, some,
  Bool-cases, inl, inr,
}
use society_harness.Prelude.Results.{ok, >>=-eq-ok}
use society_harness.Json.{
  Json, bool, str, arr, obj, Items, nil, cons, Fields, end, field, get_field, texts,
}
use society_harness.Gates.Checks.Schemas.{
  SimpleType, array, boolean, integer, null_type, number, object, string, type_name, TypeOf,
  untyped, one, many, Schema, truth, schema, Props, no_props, prop, ItemsOf, no_items, items,
  find_type, simple_type, simple_types, type_from, texts_from, required_from, props_of, items_of,
  read_schema, read_props, read_each,
}

abbrev pub type_names : List SimpleType → List Text
type_names [] = []
type_names (a ∷ as_well) = type_name a ∷ type_names as_well

-- The value of `type` is absent, a name or a list of names.
abbrev pub TypeIs : Option Json → TypeOf → Type 0
TypeIs o untyped = o ≡ none
TypeIs o (one a) = o ≡ some (str (type_name a))
TypeIs o (many s) = o ≡ some (arr (texts (type_names s)))

abbrev pub RequiredIs : Option Json → List Text → Type 0
RequiredIs o r = ((o ≡ none) × (r ≡ [])) ⊎ (o ≡ some (arr (texts r)))

-- The value is this schema: a truth value, or a dict with these values under `type`, `required`,
-- `properties` and `items`.
unfoldable mutual
  pub ReadsAs : Json → Schema → Type 0
  ReadsAs v (truth b) = v ≡ bool b
  ReadsAs v (schema t r ps i) =
      (fs : Fields) × (v ≡ obj fs)
      × TypeIs (get_field (codes "type") fs) t
      × RequiredIs (get_field (codes "required") fs) r
      × PropsAre (get_field (codes "properties") fs) ps
      × ItemsAre (get_field (codes "items") fs) i

  pub PropsAre : Option Json → Props → Type 0
  PropsAre o no_props = (o ≡ none) ⊎ (o ≡ some (obj end))
  PropsAre o (prop k s ps) =
      (v : Json) × (rest : Fields) × (o ≡ some (obj (field k v rest)))
      × ReadsAs v s
      × EachIs rest ps

  pub EachIs : Fields → Props → Type 0
  EachIs gs no_props = gs ≡ end
  EachIs gs (prop k s ps) =
      (v : Json) × (rest : Fields) × (gs ≡ field k v rest) × ReadsAs v s × EachIs rest ps

  pub ItemsAre : Option Json → ItemsOf → Type 0
  ItemsAre o no_items = o ≡ none
  ItemsAre o (items s) = (v : Json) × (o ≡ some v) × ReadsAs v s

find_type-eq :
    (t : Text) (names : List SimpleType) (a : SimpleType)
    → find_type t names ≡ ok a
    → t ≡ type_name a
find_type-eq t [] a h = absurd cc
find_type-eq t (b ∷ rest) a h = elim (Bool-cases (same t (type_name b))) [
  | inl here ↦
      let found : ok b ≡ ok a = rw here at h in
      let one_type : b ≡ a = cc in (same_iff t (type_name b)).0 here ∙ ap type_name one_type
  | inr elsewhere ↦ find_type-eq t rest a (rw elsewhere at h)
]

simple_type-eq : (t : Text) (a : SimpleType) → simple_type t ≡ ok a → t ≡ type_name a
simple_type-eq t a h =
    find_type-eq t (array ∷ boolean ∷ integer ∷ null_type ∷ number ∷ object ∷ string ∷ []) a h

type_name-simple : (a : SimpleType) → simple_type (type_name a) ≡ ok a
unfolding same
type_name-simple array = refl
type_name-simple boolean = refl
type_name-simple integer = refl
type_name-simple null_type = refl
type_name-simple number = refl
type_name-simple object = refl
type_name-simple string = refl

texts_from-texts : (ts : List Text) → texts_from (texts ts) ≡ ok ts
texts_from-texts [] = refl
texts_from-texts (t ∷ ts) = rw (texts_from-texts ts) refl

texts_from-eq : (xs : Items) (ts : List Text) → texts_from xs ≡ ok ts → xs ≡ texts ts
texts_from-eq nil [] h = refl
texts_from-eq nil (t ∷ ts) h = absurd cc
texts_from-eq (cons (str t) rest) ts h =
    let (us, got, whole) = >>=-eq-ok (texts_from rest) _ h in
    let tail = texts_from-eq rest us got in
    let all : (t ∷ us) ≡ ts = cc in ap (cons (str t)) tail ∙ ap texts all
texts_from-eq (cons v rest) ts h = absurd cc

simple_types-eq :
    (ts : List Text) (s : List SimpleType) → simple_types ts ≡ ok s → ts ≡ type_names s
simple_types-eq [] s h = let e : [] ≡ s = cc in ap type_names e
simple_types-eq (t ∷ ts) s h =
    let (a, one_name, h') = >>=-eq-ok (simple_type t) _ h in
    let (rest, others, whole) = >>=-eq-ok (simple_types ts) _ h' in
    let all : (a ∷ rest) ≡ s = cc in
    let first = simple_type-eq t a one_name in
    let later = simple_types-eq ts rest others in
    ap (λ u. u ∷ ts) first ∙ ap (λ us. type_name a ∷ us) later ∙ ap type_names all

type_names-simple : (s : List SimpleType) → simple_types (type_names s) ≡ ok s
type_names-simple [] = refl
type_names-simple (a ∷ s) = rw (type_name-simple a) (rw (type_names-simple s) refl)

type_from-TypeIs : (o : Option Json) (t : TypeOf) → type_from o ≡ ok t → TypeIs o t
type_from-TypeIs none t h = let e : untyped ≡ t = cc in subst (TypeIs none) e refl
type_from-TypeIs (some (str u)) t h =
    let (a, named, whole) = >>=-eq-ok (simple_type u) _ h in
    let e : one a ≡ t = cc in
    subst (TypeIs (some (str u))) e (ap (λ x. some (str x)) (simple_type-eq u a named))
type_from-TypeIs (some (arr xs)) t h =
    let (ts, listed, h') = >>=-eq-ok (texts_from xs) _ h in
    let (s, named, whole) = >>=-eq-ok (simple_types ts) _ h' in
    let e : many s ≡ t = cc in
    let values = texts_from-eq xs ts listed ∙ ap texts (simple_types-eq ts s named) in
    subst (TypeIs (some (arr xs))) e (ap (λ ys. some (arr ys)) values)
type_from-TypeIs (some v) t h = absurd cc

TypeIs-type_from : (o : Option Json) (t : TypeOf) → TypeIs o t → type_from o ≡ ok t
TypeIs-type_from o untyped h = rw h refl
TypeIs-type_from o (one a) h = rw h (rw (type_name-simple a) refl)
TypeIs-type_from o (many s) h =
    rw h (rw (texts_from-texts (type_names s)) (rw (type_names-simple s) refl))

required_from-RequiredIs :
    (o : Option Json) (r : List Text) → required_from o ≡ ok r → RequiredIs o r
required_from-RequiredIs none r h = let e : [] ≡ r = cc in inl (refl, sym e)
required_from-RequiredIs (some (arr xs)) r h = inr (ap (λ ys. some (arr ys)) (texts_from-eq xs r h))
required_from-RequiredIs (some v) r h = absurd cc

RequiredIs-required_from :
    (o : Option Json) (r : List Text) → RequiredIs o r → required_from o ≡ ok r
RequiredIs-required_from o r (inl (e, none_there)) = rw e (rw none_there refl)
RequiredIs-required_from o r (inr e) = rw e (texts_from-texts r)

props_of-none : (fs : Fields) → get_field (codes "properties") fs ≡ none → props_of fs ≡ ok no_props
unfolding read_schema
props_of-none end e = refl
props_of-none (field k v fs) e = elim (Bool-cases (same k (codes "properties"))) [
  | inl here ↦ let found : some v ≡ none = rw here at e in absurd cc
  | inr elsewhere ↦ rw elsewhere (props_of-none fs (rw elsewhere at e))
]

props_of-some :
    (fs : Fields) (v : Json)
    → get_field (codes "properties") fs ≡ some v
    → props_of fs ≡ read_props v
unfolding read_schema
props_of-some end v e = absurd cc
props_of-some (field k u fs) v e = elim (Bool-cases (same k (codes "properties"))) [
  | inl here ↦
      let found : some u ≡ some v = rw here at e in
      let it : u ≡ v = cc in rw here (ap read_props it)
  | inr elsewhere ↦ rw elsewhere (props_of-some fs v (rw elsewhere at e))
]

items_of-none : (fs : Fields) → get_field (codes "items") fs ≡ none → items_of fs ≡ ok no_items
unfolding read_schema
items_of-none end e = refl
items_of-none (field k v fs) e = elim (Bool-cases (same k (codes "items"))) [
  | inl here ↦ let found : some v ≡ none = rw here at e in absurd cc
  | inr elsewhere ↦ rw elsewhere (items_of-none fs (rw elsewhere at e))
]

items_of-some :
    (fs : Fields) (v : Json) (s : Schema)
    → get_field (codes "items") fs ≡ some v
    → read_schema v ≡ ok s
    → items_of fs ≡ ok (items s)
unfolding read_schema
items_of-some end v s e read = absurd cc
items_of-some (field k u fs) v s e read = elim (Bool-cases (same k (codes "items"))) [
  | inl here ↦
      let found : some u ≡ some v = rw here at e in
      let it : u ≡ v = cc in
      let read_u : read_schema u ≡ ok s = ap read_schema it ∙ read in rw here (rw read_u refl)
  | inr elsewhere ↦ rw elsewhere (items_of-some fs v s (rw elsewhere at e) read)
]

EachIs-PropsAre : (gs : Fields) (ps : Props) → EachIs gs ps → PropsAre (some (obj gs)) ps
unfolding ReadsAs
EachIs-PropsAre gs no_props h = inr (ap (λ fs. some (obj fs)) h)
EachIs-PropsAre gs (prop k s ps) (v, rest, e, read, others) =
    (v, rest, ap (λ fs. some (obj fs)) e, read, others)

mutual
  unfolding ReadsAs read_schema

  read_schema-ReadsAs : (v : Json) (s : Schema) → read_schema v ≡ ok s → ReadsAs v s
  read_schema-ReadsAs (bool b) s h = let e : truth b ≡ s = cc in subst (ReadsAs (bool b)) e refl
  read_schema-ReadsAs (obj fs) s h =
      let (t, typed, h1) = >>=-eq-ok (type_from (get_field (codes "type") fs)) _ h in
      let (r, required, h2) = >>=-eq-ok (required_from (get_field (codes "required") fs)) _ h1 in
      let (ps, props, h3) = >>=-eq-ok (props_of fs) _ h2 in
      let (i, inside, whole) = >>=-eq-ok (items_of fs) _ h3 in
      let e : schema t r ps i ≡ s = cc in
      subst (ReadsAs (obj fs)) e (
        fs,
        refl,
        type_from-TypeIs (get_field (codes "type") fs) t typed,
        required_from-RequiredIs (get_field (codes "required") fs) r required,
        props_of-PropsAre fs ps props,
        items_of-ItemsAre fs i inside,
      )
  read_schema-ReadsAs v s h = absurd cc

  props_of-PropsAre :
      (fs : Fields) (ps : Props)
      → props_of fs ≡ ok ps
      → PropsAre (get_field (codes "properties") fs) ps
  props_of-PropsAre end ps h = let e : no_props ≡ ps = cc in subst (PropsAre none) e (inl refl)
  props_of-PropsAre (field k v fs) ps h = elim (Bool-cases (same k (codes "properties"))) [
    | inl here ↦ rw here (read_props-PropsAre v ps (rw here at h))
    | inr elsewhere ↦ rw elsewhere (props_of-PropsAre fs ps (rw elsewhere at h))
  ]

  read_props-PropsAre : (v : Json) (ps : Props) → read_props v ≡ ok ps → PropsAre (some v) ps
  read_props-PropsAre (obj gs) ps h = EachIs-PropsAre gs ps (read_each-EachIs gs ps h)
  read_props-PropsAre v ps h = absurd cc

  read_each-EachIs : (gs : Fields) (ps : Props) → read_each gs ≡ ok ps → EachIs gs ps
  read_each-EachIs end ps h = let e : no_props ≡ ps = cc in subst (EachIs end) e refl
  read_each-EachIs (field k v gs) ps h =
      let (s, read, h') = >>=-eq-ok (read_schema v) _ h in
      let (qs, later, whole) = >>=-eq-ok (read_each gs) _ h' in
      let e : prop k s qs ≡ ps = cc in
      subst (EachIs (field k v gs)) e
        (v, gs, refl, read_schema-ReadsAs v s read, read_each-EachIs gs qs later)

  items_of-ItemsAre :
      (fs : Fields) (i : ItemsOf) → items_of fs ≡ ok i → ItemsAre (get_field (codes "items") fs) i
  items_of-ItemsAre end i h = let e : no_items ≡ i = cc in subst (ItemsAre none) e refl
  items_of-ItemsAre (field k v fs) i h = elim (Bool-cases (same k (codes "items"))) [
    | inl here ↦
        let (s, read, whole) = >>=-eq-ok (read_schema v) _ (rw here at h) in
        let e : items s ≡ i = cc in
        rw here (subst (ItemsAre (some v)) e (v, refl, read_schema-ReadsAs v s read))
    | inr elsewhere ↦ rw elsewhere (items_of-ItemsAre fs i (rw elsewhere at h))
  ]

mutual
  unfolding ReadsAs read_schema

  ReadsAs-read_schema : (s : Schema) (v : Json) → ReadsAs v s → read_schema v ≡ ok s
  ReadsAs-read_schema (truth b) v h = rw h refl
  ReadsAs-read_schema (schema t r ps i) v (fs, is_dict, typed, required, props, inside) =
      rw is_dict (
        rw (TypeIs-type_from (get_field (codes "type") fs) t typed) (
          rw (RequiredIs-required_from (get_field (codes "required") fs) r required)
            (rw (PropsAre-props_of ps fs props) (rw (ItemsAre-items_of i fs inside) refl))))

  PropsAre-props_of :
      (ps : Props) (fs : Fields)
      → PropsAre (get_field (codes "properties") fs) ps
      → props_of fs ≡ ok ps
  PropsAre-props_of no_props fs h = elim h [
    | inl absent ↦ props_of-none fs absent
    | inr empty ↦ props_of-some fs (obj end) empty
  ]
  PropsAre-props_of (prop k s ps) fs (v, rest, e, read, others) =
      props_of-some fs (obj (field k v rest)) e
      ∙ rw (ReadsAs-read_schema s v read) (rw (EachIs-read_each ps rest others) refl)

  EachIs-read_each : (ps : Props) (gs : Fields) → EachIs gs ps → read_each gs ≡ ok ps
  EachIs-read_each no_props gs h = rw h refl
  EachIs-read_each (prop k s ps) gs (v, rest, e, read, others) =
      rw e (rw (ReadsAs-read_schema s v read) (rw (EachIs-read_each ps rest others) refl))

  ItemsAre-items_of :
      (i : ItemsOf) (fs : Fields) → ItemsAre (get_field (codes "items") fs) i → items_of fs ≡ ok i
  ItemsAre-items_of no_items fs h = items_of-none fs h
  ItemsAre-items_of (items s) fs (v, e, read) =
      items_of-some fs v s e (ReadsAs-read_schema s v read)

-- `read_schema` reads a value as a schema exactly if it is that schema.
pub read_schema_iff : (v : Json) (s : Schema) → (read_schema v ≡ ok s) ↔ ReadsAs v s
read_schema_iff v s = (read_schema-ReadsAs v s, ReadsAs-read_schema s v)
