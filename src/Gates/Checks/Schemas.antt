-- ===== src/Gates/Checks/Schemas.antt =====
-- society/gates/deterministic.py: `diff_schemas`. What it gets from the dicts of a schema on its way down
-- is read first, as a `Schema`; where that is not of the form that the meta-schema demands, the reading
-- raises. The meta-schema allows the truth values as schemas.
pub mod Gate
mod Clean
pub mod Reading
pub mod Matches
pub mod Approval
mod Examples
use society_harness.Prelude.{
  Bool, true, false, ◌&&◌, ◌||◌, ◌==◌, ltb, Text, codes, same, mem, List, [], ◌∷◌, ◌++◌, Option,
  none, some, if◌then◌else◌, join_with,
}
use society_harness.Prelude.Results.{Result, ok, raise, attribute_error, type_error, ◌>>=◌}
use society_harness.Json.{
  Json, null, bool, num, str, arr, obj, Items, nil, cons, Fields, field, end, get_field, texts,
}
use society_harness.Memory.Kv.{get_current}
use society_harness.Gates.Types.{GateResult, GateContext, approve, reject}
use society_harness.Gates.Checks.{fields_of}

-- The names that the keyword `type` allows.
pub data SimpleType : Type 0 where
  array boolean integer null_type number object string : SimpleType

abbrev pub type_name : SimpleType → Text
type_name array = codes "array"
type_name boolean = codes "boolean"
type_name integer = codes "integer"
type_name null_type = codes "null"
type_name number = codes "number"
type_name object = codes "object"
type_name string = codes "string"

-- The value of `type`: absent, one name or a list of names.
pub data TypeOf : Type 0 where
  untyped : TypeOf
  one : SimpleType → TypeOf
  many : List SimpleType → TypeOf

mutual
  pub data Schema : Type 0 where
    truth : Bool → Schema
    schema : TypeOf → List Text → Props → ItemsOf → Schema

  pub data Props : Type 0 where
    no_props : Props
    prop : Text → Schema → Props → Props

  pub data ItemsOf : Type 0 where
    no_items : ItemsOf
    items : Schema → ItemsOf

-- The name `t`, among the names in the list.
abbrev pub find_type : Text → List SimpleType → Result SimpleType
find_type t [] = raise type_error
find_type t (a ∷ rest) = if same t (type_name a) then ok a else find_type t rest

abbrev pub simple_type : Text → Result SimpleType
simple_type t = find_type t (array ∷ boolean ∷ integer ∷ null_type ∷ number ∷ object ∷ string ∷ [])

-- A list of texts.
abbrev pub texts_from : Items → Result (List Text)
texts_from nil = ok []
texts_from (cons (str t) rest) = do ts ← texts_from rest; ok (t ∷ ts)
texts_from (cons _ rest) = raise type_error

abbrev pub simple_types : List Text → Result (List SimpleType)
simple_types [] = ok []
simple_types (t ∷ ts) = do a ← simple_type t; rest ← simple_types ts; ok (a ∷ rest)

-- `schema.get("type")`
abbrev pub type_from : Option Json → Result TypeOf
type_from none = ok untyped
type_from (some (str t)) = do a ← simple_type t; ok (one a)
type_from (some (arr xs)) = do ts ← texts_from xs; s ← simple_types ts; ok (many s)
type_from _ = raise type_error

-- `schema.get("required", [])`
abbrev pub required_from : Option Json → Result (List Text)
required_from none = ok []
required_from (some (arr xs)) = texts_from xs
required_from _ = raise type_error

-- What `diff_schemas` reads of a value: `get` on it and, under `properties` and `items`, on the values
-- in it. On a value that the meta-schema does not allow there it raises.
unfoldable mutual
  pub read_schema : Json → Result Schema
  read_schema (bool b) = ok (truth b)
  read_schema (obj fs) = do
    t ← type_from (get_field (codes "type") fs)
    r ← required_from (get_field (codes "required") fs)
    ps ← props_of fs
    i ← items_of fs
    ok (schema t r ps i)
  read_schema _ = raise attribute_error

  -- `schema.get("properties", {})`
  pub props_of : Fields → Result Props
  props_of end = ok no_props
  props_of (field k v fs) = if same k (codes "properties") then read_props v else props_of fs

  pub read_props : Json → Result Props
  read_props (obj fs) = read_each fs
  read_props _ = raise type_error

  pub read_each : Fields → Result Props
  read_each end = ok no_props
  read_each (field k v fs) = do s ← read_schema v; ps ← read_each fs; ok (prop k s ps)

  -- `schema["items"]`, if it is there
  pub items_of : Fields → Result ItemsOf
  items_of end = ok no_items
  items_of (field k v fs) =
      if same k (codes "items") then (do s ← read_schema v; ok (items s)) else items_of fs

abbrev pub same_type : SimpleType → SimpleType → Bool
same_type a b = same (type_name a) (type_name b)

abbrev pub same_list : List SimpleType → List SimpleType → Bool
same_list [] [] = true
same_list (a ∷ s) (b ∷ t) = same_type a b && same_list s t
same_list _ _ = false

-- `==` on the values of `type`
abbrev pub same_types : TypeOf → TypeOf → Bool
same_types untyped untyped = true
same_types (one a) (one b) = same_type a b
same_types (many s) (many t) = same_list s t
same_types _ _ = false

abbrev pub quoted : SimpleType → Text
quoted a = codes "'" ++ (type_name a ++ codes "'")

abbrev pub quoted_list : List SimpleType → Text
quoted_list [] = []
quoted_list (a ∷ []) = quoted a
quoted_list (a ∷ (b ∷ rest)) = quoted a ++ (codes ", " ++ quoted_list (b ∷ rest))

-- `!r` of the values of `type`
abbrev pub repr_type : TypeOf → Text
repr_type untyped = codes "None"
repr_type (one a) = quoted a
repr_type (many s) = codes "[" ++ (quoted_list s ++ codes "]")

-- Texts are ordered by their code points.
unfoldable pub text_leb : Text → Text → Bool
text_leb [] t = true
text_leb (c ∷ cs) [] = false
text_leb (c ∷ cs) (d ∷ ds) = ltb c d || (c == d && text_leb cs ds)

module _ {ℓ} {V : Type ℓ} (key : V → Text) where
  unfoldable pub insert_on : V → List V → List V
  insert_on v [] = v ∷ []
  insert_on v (w ∷ ws) = if text_leb (key v) (key w) then v ∷ w ∷ ws else w ∷ insert_on v ws

  -- `sorted`, by a key
  unfoldable pub sorted_on : List V → List V
  sorted_on [] = []
  sorted_on (v ∷ vs) = insert_on v (sorted_on vs)

-- The difference of two sets.
unfoldable pub difference : List Text → List Text → List Text
difference [] bs = []
difference (a ∷ others) bs = if mem a bs then difference others bs else a ∷ difference others bs

abbrev pub find_prop : Text → Props → Option Schema
find_prop k no_props = none
find_prop k (prop j s ps) = if same j k then some s else find_prop k ps

abbrev pub each_text : (Text → Text) → List Text → List Text
each_text f [] = []
each_text f (t ∷ ts) = f t ∷ each_text f ts

abbrev pub sorted : List Text → List Text
sorted = sorted_on (λ (t : Text). t)

abbrev pub type_diff : TypeOf → TypeOf → Text → List Text
type_diff t u path =
    if same_types t u
    then []
    else (path ++ (codes ": type " ++ (repr_type t ++ (codes " != " ++ repr_type u)))) ∷ []

abbrev pub missing_field : Text → Text → Text
missing_field path k = path ++ (codes ": required field '" ++ (k ++ codes "' missing"))

abbrev pub unexpected_field : Text → Text → Text
unexpected_field path k = path ++ (codes ": unexpected required field '" ++ (k ++ codes "'"))

abbrev pub required_diff : List Text → List Text → Text → List Text
required_diff expected actual path =
    each_text (missing_field path) (sorted (difference expected actual))
    ++ each_text (unexpected_field path) (sorted (difference actual expected))

abbrev pub under : Text → Text → Text
under path k = path ++ (codes "." ++ k)

-- What is found at a property.
abbrev pub Found : Type 0
Found = Text × Result (List Text)

abbrev pub unexpected_at : Option Schema → Text → Text → List Found → List Found
unexpected_at none k path rest =
    (k, ok ((under path k ++ codes ": unexpected property") ∷ [])) ∷ rest
unexpected_at (some e) k path rest = rest

abbrev pub unexpected_props : Props → Props → Text → List Found
unexpected_props expected no_props path = []
unexpected_props expected (prop k s ps) path =
    unexpected_at (find_prop k expected) k path (unexpected_props expected ps path)

-- `diffs.extend` for each in turn
unfoldable pub in_order : List Found → Result (List Text)
in_order [] = ok []
in_order ((k, r) ∷ rest) = do first ← r; later ← in_order rest; ok (first ++ later)

abbrev pub by_key : List Found → List Found
by_key = sorted_on (λ (f : Found). f.0)

-- The loop over the sorted keys takes up what `diff_props` and `unexpected_props` find at each.
unfoldable mutual
  pub diff_schemas : Schema → Schema → Text → Result (List Text)
  diff_schemas (truth b) actual path = raise attribute_error
  diff_schemas (schema t r ps i) (truth b) path = raise attribute_error
  diff_schemas (schema t r ps i) (schema u q qs j) path = do
    inner ← in_order (by_key (diff_props ps qs path ++ unexpected_props ps qs path))
    last ← diff_items i j path
    ok (type_diff t u path ++ (required_diff r q path ++ (inner ++ last)))

  pub diff_props : Props → Props → Text → List Found
  diff_props no_props actual path = []
  diff_props (prop k s ps) actual path =
      (
        k,
        elim (find_prop k actual) [
          | none ↦ ok ((under path k ++ codes ": missing property") ∷ [])
          | some a ↦ diff_schemas s a (under path k)
        ],
      )
      ∷ diff_props ps actual path

  pub diff_items : ItemsOf → ItemsOf → Text → Result (List Text)
  diff_items no_items no_items path = ok []
  diff_items no_items (items a) path = ok ((path ++ codes ": items mismatch") ∷ [])
  diff_items (items s) no_items path = ok ((path ++ codes ": items mismatch") ∷ [])
  diff_items (items s) (items a) path = diff_schemas s a (path ++ codes "[]")
