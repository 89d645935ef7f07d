-- ===== src/Runner/Checks.antt =====
-- society/runner/dag.py: `DagRunner._validate`, and `AgentSpec` of society/runner/spec.py, of which
-- it reads the declared outputs; `prepare` takes the workspace and the context. `repr` is Python's `!r` on a text. The graph validator reads the
-- graph's nodes.
pub mod Accepts
mod Examples
use society_harness.Prelude.{
  ◌≡◌, Bool, true, false, not, Text, codes, same, mem, List, [], ◌∷◌, ◌++◌, map, Option, none, some,
  if◌then◌else◌,
}
use society_harness.Prelude.Results.{Result, ok, raise, ◌>>=◌}
use society_harness.Json.{Json, Fields}
use society_harness.Spec.{NodeSpec, DagSpec}
use society_harness.Providers.Types.{Worker}
use society_harness.Gates.Types.{Gate}
use society_harness.Gates.Executor.Types.{Extractor}
use society_harness.Memory.Lineage.{is_approved}
use society_harness.Gates.Validator.{validate_dag}
use society_harness.Runner.Refs.{parse_ref}

pub record AgentSpec (W : Type 0) : Type 0 where
  pub name : Text
  pub worker : Worker W
  pub system_prompt : Text
  pub tools : List Text
  pub gates : List (Gate W)
  pub outputs : List (Text × Extractor)
  pub output_schema : Option Json
  pub seed : Option Text
  pub description : Text
  pub prepare : Option (Text → Fields → W → Option Fields × W)

-- The loop that only parses.
unfoldable pub parse_all : List Text → Result (List (Text × Text))
parse_all [] = ok []
parse_all (ref ∷ refs) = do p ← parse_ref ref; ps ← parse_all refs; ok (p ∷ ps)

-- `self.agents[name]`
unfoldable pub agent_named {ℓ} : {A : Type ℓ} → List (Text × A) → Text → Option A
agent_named [] name = none
agent_named ((key, agent) ∷ rest) name = if same key name then some agent else agent_named rest name

abbrev pub output_names : {W : Type 0} → AgentSpec W → List Text
output_names agent = map (λ o. o.0) agent.outputs

-- A fault that was found ends the checks.
abbrev pub or_next : Option Text → Result (Option Text) → Result (Option Text)
or_next (some fault) next = ok (some fault)
or_next none next = next

module _ {W : Type 0} (repr : Text → Text) where
  unfoldable pub output_fault : NodeSpec → AgentSpec W → Text → Text × Text → Option Text
  output_fault n agent ref (owner, dtype) =
      if not (same owner n.agent)
      then some (
          codes "node "
          ++ (n.id ++ (codes " may only publish under its own agent, not " ++ repr ref)))
      else if not (mem dtype (output_names agent))
      then some (
          codes "agent " ++ (repr n.agent ++ (codes " has no extractor for output " ++ repr dtype)))
      else none

  -- The loop over `n.outputs`.
  unfoldable pub check_outputs : NodeSpec → AgentSpec W → List Text → Result (Option Text)
  unfolding output_fault
  check_outputs n agent [] = ok none
  check_outputs n agent (ref ∷ refs) = do
    p ← parse_ref ref
    or_next (output_fault n agent ref p) (check_outputs n agent refs)

  unfoldable pub check_node : NodeSpec → Option (AgentSpec W) → Result (Option Text)
  check_node n none =
      ok (some (codes "node " ++ (n.id ++ (codes " uses unknown agent " ++ repr n.agent))))
  check_node n (some agent) = do
    ps ← parse_all (n.inputs ++ n.outputs)
    check_outputs n agent n.outputs

  -- The loop over `dag.nodes`.
  unfoldable pub check_nodes : List (Text × AgentSpec W) → List NodeSpec → Result (Option Text)
  check_nodes agents [] = ok none
  check_nodes agents (n ∷ ns) = do
    fault ← check_node n (agent_named agents n.agent)
    or_next fault (check_nodes agents ns)

  unfoldable pub validate : List (Text × AgentSpec W) → DagSpec → Result (Option Text)
  validate agents dag =
      let res = validate_dag dag.nodes [] in
      if is_approved res.verdict then check_nodes agents dag.nodes else ok (some res.reason)
