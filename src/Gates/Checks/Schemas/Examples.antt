-- ===== src/Gates/Checks/Schemas/Examples.antt =====
-- society/gates/deterministic.py: tests and witnesses of the gate that compares schemas.
use society_harness.Prelude.{
  Text, Option, ◌≡◌, ◌↔◌, refl, true, none, some, codes, same, mem, [], ◌∷◌,
}
use society_harness.Prelude.Results.{Result, ok, raise, attribute_error}
use society_harness.Gates.Checks.Schemas.{
  Schema, truth, schema, untyped, one, object, string, integer, no_props, prop, no_items, items,
  text_leb, insert_on, sorted_on, difference, in_order, diff_schemas, read_schema,
}
use society_harness.Gates.Checks.Schemas.Gate.{
  SchemaDiffGate, schema_diff_gate, published, against, compare_schemas, diff_verdict,
}
use society_harness.Gates.Checks.Schemas.Approval.{Agree, schema_diff_gate_iff}
use society_harness.Json.{Json, str, obj, Fields, field, end}
use society_harness.Memory.Kv.{Store, pointer, get_current, truthy, item, get, find, current_key}
use society_harness.Memory.Lineage.{Verdict, approved, rejected, escalated}
use society_harness.Gates.Types.{GateResult, GateContext}

abbrev leaf : Schema
leaf = schema (one string) [] no_props no_items

abbrev count_schema : Schema
count_schema = schema (one integer) [] no_props no_items

abbrev published_schema : Schema
published_schema =
    schema (one object) (codes "id" ∷ [])
      (prop (codes "id") leaf (prop (codes "n") count_schema no_props)) no_items

-- The same in another order of the properties.
abbrev reordered : Schema
reordered =
    schema (one object) (codes "id" ∷ [])
      (prop (codes "n") count_schema (prop (codes "id") leaf no_props)) no_items

abbrev changed : Schema
changed =
    schema (one object) (codes "id" ∷ codes "z" ∷ [])
      (prop (codes "n") leaf (prop (codes "a") leaf no_props)) (items leaf)

order_is_ignored : diff_schemas published_schema reordered (codes "$") ≡ ok []
unfolding diff_schemas in_order sorted_on insert_on text_leb difference mem same
order_is_ignored = refl

-- In the order of the source: required fields, the sorted properties, the items.
mismatches :
    diff_schemas published_schema changed (codes "$")
    ≡ ok (
        codes "$: unexpected required field 'z'"
        ∷ (codes "$.a: unexpected property"
            ∷ (codes "$.id: missing property"
                ∷ (codes "$.n: type 'integer' != 'string'" ∷ (codes "$: items mismatch" ∷ [])))))
unfolding diff_schemas in_order sorted_on insert_on text_leb difference mem same
mismatches = refl

-- A truth value is a schema, and has no `get`.
truth_raises :
    diff_schemas
      (schema untyped [] no_props (items (truth true)))
      (schema untyped [] no_props (items (truth true)))
      (codes "$")
    ≡ raise attribute_error
unfolding diff_schemas in_order sorted_on insert_on text_leb difference mem same
truth_raises = refl

-- A validator that accepts what is read as a schema.
abbrev message_of : Result Schema → Option Text
message_of (ok s) = none
message_of (raise e) = some (codes "not a schema")

abbrev validator : Json → Option Text
unfolding read_schema same
validator v = message_of (read_schema v)

abbrev text_schema : Fields
text_schema = field (codes "type") (str (codes "string")) end

abbrev gate : SchemaDiffGate
gate = record {
  producer_agent = codes "backend";
  producer_dtype = codes "schema";
  consumer_result_key = codes "schema_used";
}

abbrev store : Store
store =
    record {
      key = codes "run:r1:backend:schema:attempt_1";
      value = obj text_schema;
      created_at = 1;
    }
    ∷ record {
      key = codes "run:r1:backend:schema:current";
      value = pointer (codes "run:r1:backend:schema:attempt_1") 1;
      created_at = 2;
    }
    ∷ []

abbrev consumer : Fields → GateContext
consumer used = record {
  run_id = codes "r1";
  node = record {
    node_id = codes "ui";
    agent = codes "ui";
    system_prompt = [];
    task = [];
    context = end;
    tools = [];
    workspace = codes "/w";
    output_schema = none;
    attempt = 1;
    run_id = codes "r1";
  };
  output = record {
    node_id = codes "ui";
    agent = codes "ui";
    provider_name = codes "p";
    model = codes "m";
    text = [];
    result = some (obj (field (codes "schema_used") (obj used) end));
    files_written = [];
    input_tokens = 0;
    output_tokens = 0;
    cost_usd = 0;
    duration_ms = 0;
    error = none;
    error_kind = none;
    fallback_from = none;
  };
  attempt = 1;
  kv = store;
  workspace = codes "/w";
  prior = [];
}

schema_diff_gate_iff_example :
    ((r : GateResult) × (schema_diff_gate validator gate (consumer text_schema) ≡ ok r)
      × (r.verdict ≡ approved))
    ↔ Agree validator gate (consumer text_schema)
schema_diff_gate_iff_example = schema_diff_gate_iff validator gate (consumer text_schema)

abbrev verdict_of : Result GateResult → Verdict
verdict_of (ok r) = r.verdict
verdict_of (raise e) = escalated

other_schema : verdict_of (schema_diff_gate validator gate (consumer end)) ≡ rejected
unfolding schema_diff_gate published against compare_schemas diff_verdict get_current truthy item
    get find diff_schemas in_order sorted_on insert_on text_leb difference mem same current_key
    validator read_schema
other_schema = refl

same_schema : verdict_of (schema_diff_gate validator gate (consumer text_schema)) ≡ approved
unfolding schema_diff_gate published against compare_schemas diff_verdict get_current truthy item
    get find diff_schemas in_order sorted_on insert_on text_leb difference mem same current_key
    validator read_schema
same_schema = refl
