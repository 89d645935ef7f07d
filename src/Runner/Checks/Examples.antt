-- ===== src/Runner/Checks/Examples.antt =====
-- society/runner/dag.py: tests and witnesses of `_validate`, on the graph of
-- society/tests/test_gates.py.
use society_harness.Prelude.{
  ℕ, ◌≡◌, ◌↔◌, refl, Text, codes, same, mem, List, [], ◌∷◌, ◌++◌, none, some,
}
use society_harness.Prelude.Results.{ok}
use society_harness.Json.{null}
use society_harness.Spec.{DagSpec}
use society_harness.Memory.Lineage.{approved}
use society_harness.Providers.Types.{Worker}
use society_harness.Providers.Samples.{worker}
use society_harness.Gates.Executor.Types.{value}
use society_harness.Gates.Validator.{validate_dag}
use society_harness.Gates.Validator.Examples.{good_dag}
use society_harness.Runner.Refs.{parse_ref, partition}
use society_harness.Runner.Checks.{
  AgentSpec, parse_all, agent_named, output_fault, check_outputs, check_node, check_nodes, validate,
}
use society_harness.Runner.Checks.Accepts.{AllRunnable, validate_iff}

abbrev quoted : Text → Text
quoted t = codes "'" ++ (t ++ codes "'")

abbrev agent : Worker ℕ → Text → Text → AgentSpec ℕ
agent w name dtype = record {
  name = name;
  worker = w;
  system_prompt = [];
  tools = [];
  gates = [];
  outputs = (dtype, λ out. value null) ∷ [];
  output_schema = none;
  seed = none;
  description = [];
  prepare = none;
}

abbrev society : Worker ℕ → List (Text × AgentSpec ℕ)
society w =
    (codes "backend", agent w (codes "backend") (codes "schema"))
    ∷ (codes "frontend", agent w (codes "frontend") (codes "ui"))
    ∷ (codes "integration", agent w (codes "integration") (codes "report"))
    ∷ []

accepts_the_society : (w : Worker ℕ) → check_nodes quoted (society w) good_dag ≡ ok none
unfolding check_nodes check_node check_outputs output_fault parse_all agent_named parse_ref
    partition mem same
accepts_the_society w = refl

without_frontend :
    (w : Worker ℕ)
    → check_nodes quoted
        ((codes "backend", agent w (codes "backend") (codes "schema")) ∷ [])
        good_dag
      ≡ ok (some (codes "node frontend uses unknown agent 'frontend'"))
unfolding check_nodes check_node check_outputs output_fault parse_all agent_named parse_ref
    partition mem same
without_frontend w = refl

abbrev goal : DagSpec
goal = record { goal = codes "todo"; nodes = good_dag }

abbrev agents : List (Text × AgentSpec ℕ)
agents = society (worker (codes "stub") none none)

validate_iff_example :
    (validate quoted agents goal ≡ ok none)
    ↔ (((validate_dag goal.nodes []).verdict ≡ approved) × AllRunnable agents goal.nodes)
validate_iff_example = validate_iff quoted agents goal
