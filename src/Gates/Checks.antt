-- ===== src/Gates/Checks.antt =====
-- society/gates/deterministic.py: `OutputSchemaGate`, `CommandGate`, `DecisionConsistencyGate` and
-- `FilesWrittenGate`. The validation of jsonschema, the run of a process and `repr` of a list of texts
-- are parameters. The result of a worker is None or an object, by its type.
pub mod Decision
pub mod Files
pub mod Schemas
mod Examples
use society_harness.Prelude.{
  ℕ, zero, suc, Bool, true, false, not, ◌&&◌, ◌||◌, Text, codes, starts_with, List, [], ◌∷◌, ◌++◌,
  Option, none, some, if◌then◌else◌, length,
}
use society_harness.Prelude.Decimal.{show}
use society_harness.Prelude.Int.{ℤ, pos, negsuc}
use society_harness.Prelude.Results.{
  Result, ok, raise, type_error, attribute_error, schema_error, ◌>>=◌,
}
use society_harness.Json.{
  Json, null, bool, num, str, arr, obj, Items, nil, cons, Fields, end, field, get_field,
}
use society_harness.Memory.Kv.{truthy}
use society_harness.Gates.Types.{GateResult, GateContext, approve, reject}
use society_harness.Gates.Executor.Feedback.{last_chars}

-- What jsonschema.validate does: it returns, raises ValidationError or raises SchemaError.
pub data Validation : Type 0 where
  valid : Validation
  violates : Text → Validation
  bad_schema : Validation

module _ (validate : Json → Json → Validation) where
  unfoldable pub output_schema_gate : GateContext → Result GateResult
  output_schema_gate ctx = elim (ctx.node.output_schema) [
    | none ↦ ok (approve (codes "output_schema") (codes "no output schema declared") end)
    | some schema ↦ elim (ctx.output.result) [
      | none ↦ ok (reject (codes "output_schema") (codes "node produced no structured result"))
      | some result ↦ elim (validate result schema) [
        | valid ↦ ok (approve (codes "output_schema") (codes "structured output valid") end)
        | violates message ↦
            ok (reject (codes "output_schema") (codes "output schema violation: " ++ message))
        | bad_schema ↦ raise schema_error
      ]
    ]
  ]

-- A finished process; `none` where it timed out.
pub record CompletedProcess : Type 0 where
  pub stdout : Text
  pub stderr : Text
  pub returncode : ℤ

pub record CommandGate : Type 0 where
  pub command : Text
  pub timeout : ℕ
  pub name : Text

abbrev pub named : Option Text → Text
named none = codes "command"
named (some []) = codes "command"
named (some (c ∷ cs)) = c ∷ cs

-- `__init__`
unfoldable pub make_command_gate : Text → ℕ → Option Text → CommandGate
make_command_gate command timeout name = record {
  command = command;
  timeout = timeout;
  name = named name;
}

abbrev pub show_ℤ : ℤ → Text
show_ℤ (pos n) = show n
show_ℤ (negsuc n) = codes "-" ++ show (suc n)

abbrev pub is_zero_code : ℤ → Bool
is_zero_code (pos zero) = true
is_zero_code (pos (suc n)) = false
is_zero_code (negsuc n) = false

unfoldable pub command_result : CommandGate → Option CompletedProcess → GateResult
command_result g none =
    reject g.name (codes "command timed out after " ++ (show g.timeout ++ codes "s"))
command_result g (some r) =
    let tail = last_chars 3000 (r.stdout ++ r.stderr) in
    let details = field (codes "output") (str tail) end in
    if is_zero_code r.returncode
    then approve g.name (codes "exit code 0") details
    else record (reject g.name (codes "exit code " ++ (show_ℤ r.returncode ++ (10 ∷ tail)))) {
      details = details;
    }

module _ {W : Type 0} (run : Text → Text → ℕ → W → Option CompletedProcess × W) where
  unfoldable pub command_gate : CommandGate → GateContext → W → GateResult × W
  command_gate g ctx w =
      let (finished, w') = run g.command ctx.workspace g.timeout w in
      (command_result g finished, w')

-- `ctx.output.result or {}`
abbrev pub fields_of : Option Json → Fields
fields_of (some (obj fs)) = fs
fields_of _ = end

abbrev pub value_of : Option Json → Json
value_of none = null
value_of (some v) = v

abbrev pub default_item : Option Json → Json
default_item none = str (codes "?")
default_item (some v) = v

-- `[i.get("item", "?") for i in items if not i.get("ok")]`
unfoldable pub failed_items : Items → Result (List Json)
failed_items nil = ok []
failed_items (cons (obj i) rest) =
    if truthy (value_of (get_field (codes "ok") i))
    then failed_items rest
    else do failed ← failed_items rest; ok (default_item (get_field (codes "item") i) ∷ failed)
failed_items (cons _ rest) = raise attribute_error

-- The same over any value: a text or a mapping yields texts, which have no `get`.
abbrev pub failed_in : Json → Result (List Json)
failed_in (arr items) = failed_items items
failed_in (str t) = raise attribute_error
failed_in (obj fs) = raise attribute_error
failed_in _ = raise type_error

-- `', '.join(failed)`
unfoldable pub join : List Json → Result Text
join [] = ok []
join (str t ∷ []) = ok t
join (str t ∷ (v ∷ vs)) = do rest ← join (v ∷ vs); ok (t ++ (codes ", " ++ rest))
join (_ ∷ vs) = raise type_error

abbrev pub decision_gate_name : Text
decision_gate_name = codes "decision_consistency"

unfoldable pub weigh : Bool → List Json → Result GateResult
weigh true [] = ok (approve decision_gate_name (codes "decision consistent with checklist") end)
weigh true (v ∷ vs) = do
  names ← join (v ∷ vs)
  ok (
      reject decision_gate_name (
        codes "go=true but checklist items failed: "
        ++ (names
            ++ codes
                ". Either mark non-blocking findings ok=true (keep the note) or set go=false.")))
weigh false [] = ok (
    reject decision_gate_name
      (codes "go=false but every checklist item is ok=true; cite the blocking item"))
weigh false (v ∷ vs) =
    ok (approve decision_gate_name (codes "decision consistent with checklist") end)

abbrev pub missing_decision : GateResult
missing_decision = reject decision_gate_name (codes "decision missing go or checklist")

unfoldable pub decide : Json → Json → Result GateResult
decide (bool go) items =
    if truthy items then (failed_in items >>= weigh go) else ok missing_decision
decide _ items = ok missing_decision

unfoldable pub decision_consistency_gate : GateContext → Result GateResult
decision_consistency_gate ctx =
    let r = fields_of ctx.output.result in
    decide (value_of (get_field (codes "go") r)) (value_of (get_field (codes "checklist") r))

unfoldable pub any_under : Text → List Text → Bool
any_under prefix [] = false
any_under prefix (f ∷ fs) = starts_with prefix f || any_under prefix fs

unfoldable pub missing_prefixes : List Text → List Text → List Text
missing_prefixes [] written = []
missing_prefixes (p ∷ ps) written =
    if any_under p written then missing_prefixes ps written else p ∷ missing_prefixes ps written

unfoldable pub join_texts : List Text → Text
join_texts [] = []
join_texts (t ∷ []) = t
join_texts (t ∷ (u ∷ us)) = t ++ (codes ", " ++ join_texts (u ∷ us))

abbrev pub files_gate_name : Text
files_gate_name = codes "files_written"

module _ (repr_list : List Text → Text) where
  abbrev pub written_or_none : List Text → Text
  written_or_none [] = codes "none"
  written_or_none (f ∷ fs) = repr_list (f ∷ fs)

  unfoldable pub files_verdict : List Text → List Text → GateResult
  files_verdict written [] =
      approve files_gate_name (codes "wrote " ++ (show (length written) ++ codes " file(s)")) end
  files_verdict written (p ∷ ps) = reject files_gate_name (
      codes "no files written under "
      ++ (join_texts (p ∷ ps)
          ++ (codes " — the work was reported but not done (files written: "
              ++ (written_or_none written ++ codes ")"))))

  unfoldable pub files_written_gate : List Text → GateContext → GateResult
  files_written_gate required ctx =
      let written = ctx.output.files_written in
      files_verdict written (missing_prefixes required written)
