-- ===== src/Runner/Planner.antt =====
-- society/runner/planner.py: `Planner`, `agent_catalog` and `dag_json_schema`. The validation of
-- pydantic is a parameter; reading a graph from a file is left out.
pub mod Plans
mod Examples
use society_harness.Prelude.{
  join_with, Bool, true, false, Text, codes, same, List, [], ◌∷◌, ◌++◌, Option, none, some,
}
use society_harness.Prelude.Dicts.{lookup, value_or}
use society_harness.Json.{Json, bool, str, arr, obj, texts, Fields, end, field}
use society_harness.Memory.Lineage.{Verdict, approved, rejected, escalated}
use society_harness.Spec.{DagSpec}
use society_harness.Providers.Types.{NodeInput, NodeOutput, Worker}
use society_harness.Gates.Types.{GateResult}
use society_harness.Gates.Validator.{validate_dag}
use society_harness.Gates.Executor.Feedback.{error_text}
use society_harness.Runner.Checks.{AgentSpec, output_names}

abbrev pub newline : Text
newline = 10 ∷ []

-- PLANNER_SYSTEM
abbrev pub planner_lines : List Text
planner_lines =
    codes "You are the Planner for a multi-agent software team."
    ∷ codes
        "You do not write code. You produce a dependency graph (DAG) of tasks for the agents listed below."
    ∷ codes ""
    ∷ codes "Rules:"
    ∷ codes "- Use ONLY the listed agents and ONLY the outputs each agent can publish."
    ∷ codes "- Every node's `inputs` must be outputs of nodes it (transitively) depends on."
    ∷ codes "- Independent work must NOT depend on each other so it can run in parallel."
    ∷ codes
        "- A node's `outputs` must be prefixed with its own agent name (e.g. \"backend:schema\")."
    ∷ codes "- Tasks must be concrete, self-contained instructions. The agent will see nothing else"
    ∷ codes "  except the KV values named in its `inputs`."
    ∷ codes
        "- Prefer fewer, well-scoped nodes. Do not add a node for an agent that has nothing to do."
    ∷ codes "- Output ONLY the JSON object. No prose."
    ∷ []

abbrev typed : Text → Json
typed name = obj (field (codes "type") (str name) end)

abbrev string_list : Json
string_list = obj (
    field (codes "type") (str (codes "array")) (field (codes "items") (typed (codes "string")) end))

abbrev node_properties : Fields
node_properties = field (codes "id") (typed (codes "string")) (
    field (codes "agent") (typed (codes "string")) (
      field (codes "task") (typed (codes "string")) (
        field (codes "depends_on") string_list (
          field (codes "inputs") string_list (
            field (codes "outputs") string_list (
              field (codes "workspace")
                (obj (field (codes "type") (arr (texts (codes "string" ∷ codes "null" ∷ []))) end))
                end))))))

abbrev closed_object : Fields → List Text → Json
closed_object properties required = obj (
    field (codes "type") (str (codes "object")) (
      field (codes "properties") (obj properties) (
        field (codes "required") (arr (texts required))
          (field (codes "additionalProperties") (bool false) end))))

abbrev node_schema : Json
node_schema = closed_object node_properties (
    codes "id"
    ∷ codes "agent"
    ∷ codes "task"
    ∷ codes "depends_on"
    ∷ codes "inputs"
    ∷ codes "outputs"
    ∷ [])

abbrev pub dag_json_schema : Json
dag_json_schema =
    closed_object
      (field (codes "goal") (typed (codes "string")) (
        field (codes "nodes")
          (obj (field (codes "type") (str (codes "array")) (field (codes "items") node_schema end)))
          end))
      (codes "goal" ∷ codes "nodes" ∷ [])

-- What DagSpec.model_validate does: it returns a graph or raises ValidationError.
pub data Parsed : Type 0 where
  parsed : DagSpec → Parsed
  invalid : Text → Parsed

abbrev pub or_none : Text → Text
or_none [] = codes "(none)"
or_none (c ∷ cs) = c ∷ cs

unfoldable pub qualify : Text → List Text → List Text
qualify name [] = []
qualify name (d ∷ ds) = (name ++ (codes ":" ++ d)) ∷ qualify name ds

abbrev pub verdict_plan : DagSpec → GateResult → Option DagSpec × Text
verdict_plan dag res = elim (res.verdict) [
  | approved ↦ (some dag, codes "ok")
  | _ ↦ (none, codes "plan rejected by dag gate: " ++ res.reason)
]

unfoldable pub parsed_plan : Parsed → Option DagSpec × Text
parsed_plan (invalid message) = (none, codes "plan failed schema validation: " ++ message)
parsed_plan (parsed dag) = verdict_plan dag (validate_dag dag.nodes [])

module _ (model_validate : Json → Parsed) where
  unfoldable pub read_answer : Text → Option Json → Option DagSpec × Text
  read_answer (c ∷ cs) result = (none, codes "planner error: " ++ (c ∷ cs))
  read_answer [] none = (none, codes "planner returned no structured output")
  read_answer [] (some result) = parsed_plan (model_validate result)

pub record Planner (W : Type 0) : Type 0 where
  pub worker : Worker W
  pub agents : List (Text × AgentSpec W)
  pub descriptions : List (Text × Text)
  pub workspace : Text

module _ {W : Type 0} where
  unfoldable pub catalog_lines : List (Text × AgentSpec W) → List (Text × Text) → List Text
  catalog_lines [] descriptions = []
  catalog_lines ((name, spec) ∷ rest) descriptions =
      (codes "- "
        ++ (name
            ++ (codes ": "
                ++ (value_or [] (lookup name descriptions)
                    ++ (newline
                        ++ (codes "  can publish: "
                            ++ or_none
                                (join_with (codes ", ") (qualify name (output_names spec)))))))))
      ∷ catalog_lines rest descriptions

  unfoldable pub agent_catalog : List (Text × AgentSpec W) → List (Text × Text) → Text
  agent_catalog agents descriptions = join_with newline (catalog_lines agents descriptions)

  unfoldable pub planner_input : Planner W → Text → NodeInput
  planner_input planner goal = record {
    node_id = codes "planner";
    agent = codes "planner";
    system_prompt =
        join_with newline planner_lines
        ++ (newline
            ++ (newline
                ++ (codes "Available agents:"
                    ++ (newline ++ agent_catalog planner.agents planner.descriptions))));
    task = codes "Goal: " ++ (goal ++ (newline ++ (newline ++ codes "Produce the DAG.")));
    context = end;
    tools = [];
    workspace = planner.workspace;
    output_schema = some dag_json_schema;
    attempt = 1;
    run_id = [];
  }

  -- `Planner.plan`
  unfoldable pub plan : (Json → Parsed) → Planner W → Text → W → (Option DagSpec × Text) × W
  plan model_validate planner goal w =
      let (out, w') = planner.worker.run (planner_input planner goal) w in
      (read_answer model_validate (error_text out.error) out.result, w')
