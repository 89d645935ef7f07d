-- ===== src/Json.antt =====
-- JSON values, as the agents' results, the stored values and the gates' details hold them. A number
-- is a natural number: the sources store counts, attempt numbers and times in these values.
use society_harness.Prelude.{ℕ, Text, List, [], ◌∷◌, Option, none, some, same, if◌then◌else◌, Bool}

mutual
  pub data Json : Type 0 where
    null : Json
    bool : Bool → Json
    num : ℕ → Json
    str : Text → Json
    arr : Items → Json
    obj : Fields → Json

  pub data Items : Type 0 where
    nil : Items
    cons : Json → Items → Items

  pub data Fields : Type 0 where
    end : Fields
    field : Text → Json → Fields → Fields

abbrev pub texts : List Text → Items
texts [] = nil
texts (t ∷ ts) = cons (str t) (texts ts)

-- `d.get(k)` on the fields of an object.
abbrev pub get_field : Text → Fields → Option Json
get_field k end = none
get_field k (field j v fs) = if same j k then some v else get_field k fs
