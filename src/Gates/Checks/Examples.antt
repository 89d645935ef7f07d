-- ===== src/Gates/Checks/Examples.antt =====
-- society/gates/deterministic.py: tests and witnesses of the deterministic gates.
use society_harness.Prelude.{
  ◌≡◌, ◌↔◌, refl, Bool, true, false, Text, codes, same, starts_with, List, [], ◌∷◌, none, some,
}
use society_harness.Prelude.Int.{negsuc}
use society_harness.Prelude.Results.{Result, ok, raise, attribute_error}
use society_harness.Json.{bool, str, arr, obj, nil, cons, Fields, end, field, get_field}
use society_harness.Memory.Kv.{truthy}
use society_harness.Memory.Lineage.{Verdict, approved, rejected}
use society_harness.Providers.Types.{NodeInput}
use society_harness.Gates.Types.{GateResult, GateContext}
use society_harness.Gates.Checks.{
  decision_consistency_gate, join, decide, weigh, failed_items, value_of, fields_of,
  files_written_gate, files_verdict, missing_prefixes, any_under, make_command_gate, command_result,
  output_schema_gate, valid,
}
use society_harness.Gates.Checks.Decision.{Consistent, decision_consistency_gate_iff}
use society_harness.Gates.Checks.Files.{Wrote, files_written_gate_iff}

abbrev check_item : Text → Bool → Fields
check_item name marked = field (codes "item") (str name) (field (codes "ok") (bool marked) end)

abbrev decision : Bool → Bool → Fields
decision go second = field (codes "go") (bool go) (
    field (codes "checklist")
      (arr (
        cons (obj (check_item (codes "tests") true))
          (cons (obj (check_item (codes "docs") second)) nil)))
      end)

abbrev node : NodeInput
node = record {
  node_id = codes "ship";
  agent = codes "ship";
  system_prompt = [];
  task = [];
  context = end;
  tools = [];
  workspace = codes "/w";
  output_schema = none;
  attempt = 1;
  run_id = codes "r";
}

abbrev context_of : Fields → GateContext
context_of result = record {
  run_id = codes "r";
  node = node;
  output = record {
    node_id = codes "ship";
    agent = codes "ship";
    provider_name = codes "p";
    model = codes "m";
    text = [];
    result = some (obj result);
    files_written = codes "app/a.py" ∷ codes "tests/b.py" ∷ [];
    input_tokens = 0;
    output_tokens = 0;
    cost_usd = 0;
    duration_ms = 0;
    error = none;
    error_kind = none;
    fallback_from = none;
  };
  attempt = 1;
  kv = [];
  workspace = codes "/w";
  prior = [];
}

abbrev verdict_of : Result GateResult → Verdict
verdict_of (ok r) = r.verdict
verdict_of (raise e) = rejected

no_go_agrees : verdict_of (decision_consistency_gate (context_of (decision false false))) ≡ approved
unfolding decision_consistency_gate decide weigh failed_items join truthy same
no_go_agrees = refl

go_disagrees : verdict_of (decision_consistency_gate (context_of (decision true false))) ≡ rejected
unfolding decision_consistency_gate decide weigh failed_items join truthy same
go_disagrees = refl

-- An item that is no object makes the gate raise.
abbrev flat : Fields
flat =
    field (codes "go") (bool true)
      (field (codes "checklist") (arr (cons (str (codes "tests")) nil)) end)

flat_raises : decision_consistency_gate (context_of flat) ≡ raise attribute_error
unfolding decision_consistency_gate decide failed_items truthy same
flat_raises = refl

decision_consistency_gate_iff_example :
    ((r : GateResult) × (decision_consistency_gate (context_of (decision true true)) ≡ ok r)
      × (r.verdict ≡ approved))
    ↔ Consistent
        (value_of
          (get_field (codes "go") (fields_of (context_of (decision true true)).output.result)))
        (value_of (
          get_field
            (codes "checklist")
            (fields_of (context_of (decision true true)).output.result)))
decision_consistency_gate_iff_example =
    decision_consistency_gate_iff (context_of (decision true true))

abbrev quote_first : List Text → Text
quote_first [] = []
quote_first (t ∷ ts) = t

nothing_under_docs :
    (files_written_gate quote_first (codes "app/" ∷ codes "docs/" ∷ []) (context_of end)).verdict
    ≡ rejected
unfolding files_written_gate files_verdict missing_prefixes any_under starts_with
nothing_under_docs = refl

files_written_gate_iff_example :
    ((files_written_gate quote_first (codes "app/" ∷ codes "tests/" ∷ []) (context_of end)).verdict
      ≡ approved)
    ↔ Wrote (codes "app/" ∷ codes "tests/" ∷ []) (context_of end).output.files_written
files_written_gate_iff_example =
    files_written_gate_iff quote_first (codes "app/" ∷ codes "tests/" ∷ []) (context_of end)

killed :
    (command_result
      (make_command_gate (codes "pytest") 300 none)
      (some (record { stdout = []; stderr = []; returncode = negsuc 8 }))).verdict
    ≡ rejected
unfolding command_result make_command_gate
killed = refl

undeclared : verdict_of (output_schema_gate (λ v s. valid) (context_of end)) ≡ approved
unfolding output_schema_gate
undeclared = refl
