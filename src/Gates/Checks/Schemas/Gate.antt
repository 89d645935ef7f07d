-- ===== src/Gates/Checks/Schemas/Gate.antt =====
-- society/gates/deterministic.py: `SchemaDiffGate`. `check_schema` of jsonschema is a parameter that
-- gives the message of the SchemaError that it raises, or none.
use society_harness.Prelude.{Text, codes, List, [], ◌∷◌, ◌++◌, Option, none, some, join_with}
use society_harness.Prelude.Results.{Result, ok, ◌>>=◌}
use society_harness.Json.{Json, null, arr, obj, field, end, get_field, texts}
use society_harness.Memory.Kv.{get_current}
use society_harness.Gates.Types.{GateResult, GateContext, approve, reject}
use society_harness.Gates.Checks.{fields_of}
use society_harness.Gates.Checks.Schemas.{read_schema, diff_schemas}

pub record SchemaDiffGate : Type 0 where
  pub producer_agent : Text
  pub producer_dtype : Text
  pub consumer_result_key : Text

abbrev pub schema_gate_name : Text
schema_gate_name = codes "schema_diff"

abbrev pub reject_invalid : Text → Text → Result GateResult
reject_invalid label message =
    ok (reject schema_gate_name (label ++ (codes " schema invalid: " ++ message)))

unfoldable pub diff_verdict : List Text → GateResult
diff_verdict [] = approve schema_gate_name (codes "consumer schema matches published schema") end
diff_verdict (d ∷ ds) =
    record (reject schema_gate_name
      (codes "schema mismatch: " ++ join_with (codes "; ") (d ∷ ds))) {
        details = field (codes "diffs") (arr (texts (d ∷ ds))) end;
      }

-- The comparison behind the two checks, each of which gave the message of a SchemaError or none.
unfoldable pub compare_schemas : Option Text → Option Text → Json → Json → Result GateResult
compare_schemas (some message) used expected actual = reject_invalid (codes "published") message
compare_schemas none (some message) expected actual = reject_invalid (codes "used") message
compare_schemas none none expected actual = do
  e ← read_schema expected
  a ← read_schema actual
  diffs ← diff_schemas e a (codes "$")
  ok (diff_verdict diffs)

module _ (check_schema : Json → Option Text) where
  -- `actual`: what the result of the consumer has under the key.
  unfoldable pub against : SchemaDiffGate → Json → Option Json → Result GateResult
  against g expected (some (obj fs)) =
      compare_schemas (check_schema expected) (check_schema (obj fs)) expected (obj fs)
  against g expected _ = ok (
      reject schema_gate_name
        (codes "consumer output missing '" ++ (g.consumer_result_key ++ codes "'")))

  unfoldable pub published : SchemaDiffGate → GateContext → Json → Result GateResult
  published g ctx null = ok (
      reject schema_gate_name (
        codes "no :current "
        ++ (g.producer_agent ++ (codes ":" ++ (g.producer_dtype ++ codes " in KV")))))
  published g ctx expected =
      against g expected (get_field g.consumer_result_key (fields_of ctx.output.result))

  unfoldable pub schema_diff_gate : SchemaDiffGate → GateContext → Result GateResult
  schema_diff_gate g ctx = do
    expected ← get_current ctx.kv ctx.run_id g.producer_agent g.producer_dtype
    published g ctx expected
