-- ===== src/Memory/Kv/Examples.antt =====
-- Runs of the store and the theorems about it at small tables.
use society_harness.Prelude.{◌≡◌, refl, Text, codes, same, mem, [], ◌∷◌, ◌++◌, ℕ, true, ◌<◌}
use society_harness.Prelude.Decimal.{show, parse}
use society_harness.Prelude.Results.{Result, ok}
use society_harness.Json.{Json, str, num, null}
use society_harness.Memory.Kv.{
  Store, attempt_key, current_key, find, delete, put, get, exists, like, fold_case, keys,
  after_last, attempt_number, attempt_numbers, max_or_zero, next_attempt, put_attempt, get_attempt,
  promote, pointer, truthy, item, get_current, current_attempt,
}
use society_harness.Memory.Kv.Attempts.{next_attempt_above, promote_current, handoff}

abbrev r : Text
r = codes "r1"

abbrev backend : Text
backend = codes "backend"

abbrev schema : Text
schema = codes "schema"

-- One attempt, not promoted.
abbrev one_attempt : Store
one_attempt =
    record {
      key = codes "run:r1:backend:schema:attempt_1";
      value = str (codes "old");
      created_at = 5;
    }
    ∷ []

-- What readers of the schema get.
latest : Store → Result Json
unfolding next_attempt attempt_numbers attempt_number max_or_zero after_last keys like fold_case
    find delete put get exists put_attempt get_attempt promote truthy item get_current
    current_attempt attempt_key current_key show parse same mem
latest s = get_current s r backend schema

second_attempt : next_attempt one_attempt r backend schema ≡ ok 2
unfolding latest
second_attempt = refl

-- `_` in the pattern of `next_attempt` stands for any character.
wildcard_counts : next_attempt one_attempt r backend (codes "_chema") ≡ ok 2
unfolding latest
wildcard_counts = refl

first_there : exists one_attempt (attempt_key r backend schema 1) ≡ true
unfolding latest
first_there = refl

next_attempt_above_example : 1 < 2
next_attempt_above_example =
    next_attempt_above one_attempt r backend schema 2 1 second_attempt first_there

handoff_example :
    (written : Store × Text) × (promoted : Store × Text) × (put_attempt 7 one_attempt r backend
        schema 2
        (str (codes "new"))
      ≡ ok written)
    × (promote 8 written.0 r backend schema 2 ≡ ok promoted)
    × (get_current promoted.0 r backend schema ≡ ok (str (codes "new")))
    × ((m : ℕ)
        → exists one_attempt (attempt_key r backend schema m) ≡ true
        → get_attempt promoted.0 r backend schema m ≡ get_attempt one_attempt r backend schema m)
handoff_example = handoff 7 8 one_attempt r backend schema 2 (str (codes "new")) second_attempt

abbrev schema_key : Text
schema_key = codes "run:r1:backend:schema:attempt_2"

abbrev two_attempts : Store
two_attempts = one_attempt ++ record { key = schema_key; value = null; created_at = 7 } ∷ []

put_second : put_attempt 7 one_attempt r backend schema 2 null ≡ ok (two_attempts, schema_key)
unfolding latest
put_second = refl

abbrev schema_pointer : Text
schema_pointer = codes "run:r1:backend:schema:current"

abbrev promoted_first : Store
promoted_first =
    one_attempt
    ++ record {
      key = schema_pointer;
      value = pointer (codes "run:r1:backend:schema:attempt_1") 1;
      created_at = 9;
    }
      ∷ []

promote_first : promote 9 one_attempt r backend schema 1 ≡ ok (promoted_first, schema_pointer)
unfolding latest
promote_first = refl

promote_current_example :
    (get_current promoted_first r backend schema ≡ ok (get_attempt one_attempt r backend schema 1))
    × (current_attempt promoted_first r backend schema ≡ ok (num 1))
    × ((run agent dtype : Text) (m : ℕ)
        → get_attempt promoted_first run agent dtype m ≡ get_attempt one_attempt run agent dtype m)
promote_current_example =
    promote_current 9 one_attempt r backend schema 1 promoted_first schema_pointer promote_first
