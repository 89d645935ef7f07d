-- ===== src/Memory/Kv.antt =====
-- society/memory/kv.py. A row is a key, its value and the time of its last write; the table holds a
-- key once. Time is an argument of each write. A method that may raise returns a `Result`. The value
-- `None` and a missing row both read as `null`.
pub mod Rows
pub mod Names
pub mod Attempts
mod Examples
use society_harness.Prelude.{
  ℕ, zero, suc, ◌+◌, max, Bool, true, false, not, ◌&&◌, ◌||◌, Text, codes, same, List, [], ◌∷◌,
  ◌++◌, map, Option, none, some, if◌then◌else◌, ◌==◌, leb,
}
use society_harness.Prelude.Results.{
  Result, ok, raise, value_error, key_error, type_error, index_error, ◌>>=◌,
}
use society_harness.Prelude.Decimal.{show, parse}
use society_harness.Json.{
  Json, null, bool, num, str, arr, obj, Items, nil, cons, Fields, end, field, get_field,
}

pub record Row : Type 0 where
  pub key : Text
  pub value : Json
  pub created_at : ℕ

abbrev pub Store : Type 0
Store = List Row

-- `run:{run_id}:{agent}:{dtype}:`
unfoldable pub scope : Text → Text → Text → Text
scope run agent dtype =
    codes "run:" ++ (run ++ (codes ":" ++ (agent ++ (codes ":" ++ (dtype ++ codes ":")))))

unfoldable pub attempt_key : Text → Text → Text → ℕ → Text
unfolding scope
attempt_key run agent dtype n = scope run agent dtype ++ (codes "attempt_" ++ show n)

unfoldable pub current_key : Text → Text → Text → Text
unfolding scope
current_key run agent dtype = scope run agent dtype ++ codes "current"

-- The row of a primary key.
unfoldable pub find : Store → Text → Option Row
find [] k = none
find (r ∷ rs) k = if same r.key k then some r else find rs k

unfoldable pub delete : Store → Text → Store
delete [] k = []
delete (r ∷ rs) k = if same r.key k then delete rs k else r ∷ delete rs k

-- INSERT OR REPLACE: the old row goes and the new one is the last.
unfoldable pub put : ℕ → Store → Text → Json → Store
put now s k v = delete s k ++ record { key = k; value = v; created_at = now } ∷ []

abbrev value_or_null : Option Row → Json
value_or_null none = null
value_or_null (some r) = r.value

unfoldable pub get : Store → Text → Json
get s k = value_or_null (find s k)

abbrev is_some {ℓ} : {A : Type ℓ} → Option A → Bool
is_some none = false
is_some (some a) = true

unfoldable pub exists : Store → Text → Bool
exists s k = is_some (find s k)

-- LIKE folds the case of ASCII letters.
fold_case : ℕ → ℕ
fold_case c = if leb b'A' c && leb c b'Z' then c + 32 else c

-- The LIKE operator: `%` stands for any text and `_` for any one character.
unfoldable pub like : Text → Text → Bool
unfolding fold_case
like [] [] = true
like [] (c ∷ cs) = false
like (p ∷ ps) [] = p == b'%' && like ps []
like (p ∷ ps) (c ∷ cs) = elim (p == b'%') [
  | true ↦ like ps (c ∷ cs) || like (p ∷ ps) cs
  | false ↦ (p == b'_' || fold_case p == fold_case c) && like ps cs
]

insert_by_time : Row → List Row → List Row
insert_by_time r [] = r ∷ []
insert_by_time r (q ∷ qs) =
    if leb r.created_at q.created_at then r ∷ q ∷ qs else q ∷ insert_by_time r qs

-- ORDER BY created_at
order_by_time : List Row → List Row
unfolding insert_by_time
order_by_time [] = []
order_by_time (r ∷ rs) = insert_by_time r (order_by_time rs)

select_like : Text → Store → List Row
select_like pattern [] = []
select_like pattern (r ∷ rs) =
    if like pattern r.key then r ∷ select_like pattern rs else select_like pattern rs

unfoldable pub keys : Store → Text → List Text
unfolding order_by_time select_like
keys s prefix = map (λ r. r.key) (order_by_time (select_like (prefix ++ codes "%") s))

-- What stands behind the last `_`.
unfoldable pub after_last : Text → Option Text
after_last [] = none
after_last (c ∷ cs) = elim (after_last cs) [
  | some rest ↦ some rest
  | none ↦ if c == b'_' then some cs else none
]

abbrev int_of : Option ℕ → Result ℕ
int_of none = raise value_error
int_of (some n) = ok n

abbrev suffix_number : Option Text → Result ℕ
suffix_number none = raise index_error
suffix_number (some s) = int_of (parse s)

-- `int(k.rsplit("_", 1)[1])`
unfoldable pub attempt_number : Text → Result ℕ
attempt_number k = suffix_number (after_last k)

unfoldable pub attempt_numbers : List Text → Result (List ℕ)
attempt_numbers [] = ok []
attempt_numbers (k ∷ ks) = do n ← attempt_number k; ns ← attempt_numbers ks; ok (n ∷ ns)

unfoldable pub max_or_zero : List ℕ → ℕ
max_or_zero [] = 0
max_or_zero (n ∷ ns) = max n (max_or_zero ns)

unfoldable pub next_attempt : Store → Text → Text → Text → Result ℕ
next_attempt s run agent dtype = do
  nums ← attempt_numbers (keys s (scope run agent dtype ++ codes "attempt_"))
  ok (max_or_zero nums + 1)

-- The new store and the key written.
unfoldable pub put_attempt : ℕ → Store → Text → Text → Text → ℕ → Json → Result (Store × Text)
put_attempt now s run agent dtype n v =
    let k = attempt_key run agent dtype n in
    if exists s k then raise value_error else ok (put now s k v, k)

unfoldable pub get_attempt : Store → Text → Text → Text → ℕ → Json
get_attempt s run agent dtype n = get s (attempt_key run agent dtype n)

abbrev pub pointer : Text → ℕ → Json
pointer target n =
    obj (field (codes "points_to") (str target) (field (codes "attempt") (num n) end))

unfoldable pub promote : ℕ → Store → Text → Text → Text → ℕ → Result (Store × Text)
promote now s run agent dtype n =
    let target = attempt_key run agent dtype n in
    let k = current_key run agent dtype in
    if exists s target then ok (put now s k (pointer target n), k) else raise key_error

-- Python's truth of a value.
unfoldable pub truthy : Json → Bool
truthy null = false
truthy (bool b) = b
truthy (num zero) = false
truthy (num (suc n)) = true
truthy (str []) = false
truthy (str (c ∷ cs)) = true
truthy (arr nil) = false
truthy (arr (cons j js)) = true
truthy (obj end) = false
truthy (obj (field k j fs)) = true

abbrev or_key_error : Option Json → Result Json
or_key_error none = raise key_error
or_key_error (some v) = ok v

-- `value[k]` with a text `k`.
unfoldable pub item : Json → Text → Result Json
item (obj fs) k = or_key_error (get_field k fs)
item v k = raise type_error

-- `get(value)`: the pointers that this class writes hold texts; any other value is refused here.
abbrev get_by : Store → Json → Result Json
get_by s (str k) = ok (get s k)
get_by s v = raise type_error

abbrev follow : Store → Result Json → Result Json
follow s (ok target) = get_by s target
follow s (raise e) = raise e

unfoldable pub get_current : Store → Text → Text → Text → Result Json
get_current s run agent dtype =
    let p = get s (current_key run agent dtype) in
    if truthy p then follow s (item p (codes "points_to")) else ok null

unfoldable pub current_attempt : Store → Text → Text → Text → Result Json
current_attempt s run agent dtype =
    let p = get s (current_key run agent dtype) in
    if truthy p then item p (codes "attempt") else ok null
