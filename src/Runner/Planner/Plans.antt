-- ===== src/Runner/Planner/Plans.antt =====
-- society/runner/planner.py: which plans the planner returns.
use society_harness.Prelude.{arith, ◌≡◌, ◌↔◌, refl, Text, [], ◌∷◌, Option, none, some}
use society_harness.Json.{Json}
use society_harness.Memory.Lineage.{approved}
use society_harness.Spec.{DagSpec}
use society_harness.Gates.Types.{GateResult}
use society_harness.Gates.Validator.{validate_dag}
use society_harness.Gates.Validator.Approval.{IsWellFormed, validate_dag_iff}
use society_harness.Gates.Executor.Feedback.{error_text}
use society_harness.Providers.Types.{NodeOutput}
use society_harness.Runner.Planner.{
  Parsed, parsed, invalid, Planner, planner_input, verdict_plan, parsed_plan, read_answer, plan,
}

-- The answer has no error, and its result is a graph that is well-formed with no initial keys.
abbrev pub Answers : (Json → Parsed) → NodeOutput → DagSpec → Type 0
Answers model_validate out dag =
    (error_text out.error ≡ [])
    × ((result : Json) × (out.result ≡ some result) × (model_validate result ≡ parsed dag))
    × IsWellFormed dag.nodes []

verdict_plan_iff :
    (dag answer : DagSpec) (res : GateResult)
    → ((verdict_plan answer res).0 ≡ some dag) ↔ ((res.verdict ≡ approved) × (answer ≡ dag))
verdict_plan_iff dag answer res = ground arith

parsed_plan_iff :
    (dag : DagSpec) (answer : Parsed)
    → ((parsed_plan answer).0 ≡ some dag) ↔ ((answer ≡ parsed dag) × IsWellFormed dag.nodes [])
unfolding parsed_plan
parsed_plan_iff dag (invalid message) = (λ e. absurd cc, λ (e, w). absurd cc)
parsed_plan_iff dag (parsed answer) = (
  λ e.
      let (a, same_dag) = (verdict_plan_iff dag answer (validate_dag answer.nodes [])).0 e in
      (rw same_dag refl, rw (← same_dag) ((validate_dag_iff answer.nodes []).0 a)),
  λ (e, w).
      let same_dag : answer ≡ dag = cc in
      let a = (validate_dag_iff dag.nodes []).1 w in
      (verdict_plan_iff dag answer (validate_dag answer.nodes [])).1 (rw same_dag a, same_dag),
)

read_answer_iff :
    (model_validate : Json → Parsed) (dag : DagSpec) (out : NodeOutput) (error : Text)
    (answer : Option Json)
    → ((read_answer model_validate error answer).0 ≡ some dag) ↔ (
        (error ≡ [])
        × ((result : Json) × (answer ≡ some result) × (model_validate result ≡ parsed dag))
        × IsWellFormed dag.nodes [])
unfolding read_answer
read_answer_iff model_validate dag out (c ∷ cs) answer = (λ e. absurd cc, λ (e, r, w). absurd cc)
read_answer_iff model_validate dag out [] none = (λ e. absurd cc, λ (e, (r, s, t), w). absurd cc)
read_answer_iff model_validate dag out [] (some result) = (
  λ e.
      let (validated, w) = (parsed_plan_iff dag (model_validate result)).0 e in
      (refl, (result, refl, validated), w),
  λ (e, (r, s, validated), w).
      let same_result : result ≡ r = cc in
      (parsed_plan_iff dag (model_validate result)).1 (rw same_result validated, w),
)

-- The planner returns a graph if and only if the worker answered without an error, with a result that
-- validates as this graph, and the graph is well-formed with no initial keys: its ids are unique, its
-- dependencies known and free of cycles, and every input is published upstream.
pub plan_iff :
    {W : Type 0} (model_validate : Json → Parsed) (planner : Planner W) (goal : Text) (w : W)
    (dag : DagSpec)
    → ((plan model_validate planner goal w).0.0 ≡ some dag)
      ↔ Answers model_validate (planner.worker.run (planner_input planner goal) w).0 dag
unfolding plan
plan_iff model_validate planner goal w dag =
    let out = (planner.worker.run (planner_input planner goal) w).0 in
    read_answer_iff model_validate dag out (error_text out.error) out.result
