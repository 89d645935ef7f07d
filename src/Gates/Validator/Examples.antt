-- ===== src/Gates/Validator/Examples.antt =====
-- Runs of `validate_dag` and the theorems about it at the graph of society/tests/test_gates.py.
use society_harness.Prelude.{
  inl, inr, arith, ◌≡◌, refl, ◌↔◌, Text, codes, same, mem, count, List, [], ◌∷◌, none, true,
}
use society_harness.Json.{arr, texts, field, end}
use society_harness.Spec.{NodeSpec}
use society_harness.Memory.Lineage.{approved}
use society_harness.Gates.Validator.{
  ids, to_set, by_id, deps_of, inputs_of, outputs_of, any_empty, unknown_dep, nodes_fault, edges,
  children, relax, drain, indegrees, sources, ordering, climb, edge_count, ancestors,
  outputs_of_all, unproduced, wiring_fault, nodes_verdict, validate_dag,
}
use society_harness.Gates.Validator.Counting.{Unique, to_set-count}
use society_harness.Gates.Validator.Draining.{IsOrdered}
use society_harness.Gates.Validator.Acyclic.{ordering_ends}
use society_harness.Gates.Validator.Upstream.{HasEdge, Reaches, mem-ancestors_iff}
use society_harness.Gates.Validator.Approval.{
  IsWellFormed, validate_dag_iff, validate_dag-IsOrdered,
}

abbrev node : Text → List Text → List Text → List Text → NodeSpec
node id deps inputs outputs = record {
  id = id;
  agent = id;
  task = [];
  depends_on = deps;
  inputs = inputs;
  outputs = outputs;
  tools = none;
  workspace = none;
}

abbrev schema : Text
schema = codes "backend:schema"

abbrev ui : Text
ui = codes "frontend:ui"

abbrev pub good_dag : List NodeSpec
good_dag =
    node (codes "backend") [] [] (schema ∷ [])
    ∷ node (codes "frontend") (codes "backend" ∷ []) (schema ∷ []) (ui ∷ [])
    ∷ node (codes "integration") (codes "backend" ∷ codes "frontend" ∷ []) (schema ∷ ui ∷ []) []
    ∷ []

abbrev cyclic_dag : List NodeSpec
cyclic_dag = node (codes "a") (codes "b" ∷ []) [] [] ∷ node (codes "b") (codes "a" ∷ []) [] [] ∷ []

-- All that a run of the validator calls.
run : List NodeSpec → List Text → Text
unfolding validate_dag nodes_verdict to_set any_empty nodes_fault unknown_dep ordering drain relax
    children edges indegrees sources deps_of by_id wiring_fault unproduced outputs_of_all ancestors
    climb inputs_of outputs_of edge_count mem same
run nodes initial = (validate_dag nodes initial).reason

pub good_dag_approved : (validate_dag good_dag []).verdict ≡ approved
unfolding run
good_dag_approved = refl

cyclic_dag_reason : (validate_dag cyclic_dag []).reason ≡ codes "dag contains a cycle"
unfolding run
cyclic_dag_reason = refl

unknown_dep_reason :
    (validate_dag (node (codes "a") (codes "zz" ∷ []) [] [] ∷ []) []).reason
    ≡ codes "a depends on unknown node zz"
unfolding run
unknown_dep_reason = refl

validate_dag_iff_example :
    ((validate_dag good_dag []).verdict ≡ approved) ↔ IsWellFormed good_dag []
validate_dag_iff_example = validate_dag_iff good_dag []

validate_dag-IsOrdered_example :
    (order : List Text) × ((validate_dag good_dag []).details
      ≡ field (codes "order") (arr (texts order)) end)
    × IsOrdered good_dag [] order
    × ((x : Text) → count x order ≡ count x (ids good_dag))
validate_dag-IsOrdered_example = validate_dag-IsOrdered good_dag [] good_dag_approved

cyclic_dag-Unique : Unique cyclic_dag
unfolding run
cyclic_dag-Unique x = to_set-count x (ids cyclic_dag) refl

ordering_ends_example : (ordering cyclic_dag).1 ≡ []
ordering_ends_example = ordering_ends cyclic_dag cyclic_dag-Unique

good_dag-Unique : Unique good_dag
unfolding run
good_dag-Unique x = to_set-count x (ids good_dag) refl

good_dag-Known : (x d : Text) → HasEdge good_dag x d → mem d (ids good_dag) ≡ true
unfolding mem
good_dag-Known x d (inl (at_backend, m)) = absurd cc
good_dag-Known x d (inr (inl (at_frontend, m))) = ground arith
good_dag-Known x d (inr (inr (inl (at_integration, m)))) = ground arith
good_dag-Known x d (inr (inr (inr none_left))) = absurd none_left

mem-ancestors_iff_example :
    (mem (codes "backend") (ancestors good_dag (codes "integration")) ≡ true)
    ↔ Reaches good_dag (codes "integration") (codes "backend")
unfolding mem same
mem-ancestors_iff_example =
    mem-ancestors_iff good_dag (codes "integration") (codes "backend") good_dag-Unique
      good_dag-Known refl
