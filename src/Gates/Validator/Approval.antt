-- ===== src/Gates/Validator/Approval.antt =====
-- society/gates/deterministic.py: what the verdict of `validate_dag` means.
use society_harness.Prelude.{
  codes, count, ◌≡◌, ◌≢◌, refl, true, false, Text, mem, mem_iff_count, List, [], ◌∷◌, arith, sym,
  ◌∙◌, ◌↔◌, none, length,
}
use society_harness.Json.{arr, texts, field, end}
use society_harness.Spec.{NodeSpec}
use society_harness.Gates.Validator.Draining.{IsOrdered}
use society_harness.Memory.Lineage.{approved}
use society_harness.Gates.Validator.{
  ids, to_set, inputs_of, any_empty, nodes_fault, ordering, wiring_fault, order_verdict,
  nodes_verdict, validate_dag,
}
use society_harness.Gates.Validator.Counting.{Unique, to_set-count, count-to_set}
use society_harness.Gates.Validator.Acyclic.{
  Known, Acyclic, order_full-of_Acyclic, count-order, Acyclic-of_order, ordering-IsOrdered,
}
use society_harness.Gates.Validator.Wiring.{
  AllSound, any_empty-mem, nodes_fault-none, deps_of_known, wiring_fault-none, Supplied,
  available_iff,
}

-- What a graph must be to run.
pub record IsWellFormed (nodes : List NodeSpec) (initial : List Text) : Type 0 where
  pub some_node : nodes ≢ []
  pub unique : Unique nodes
  pub named : mem [] (ids nodes) ≡ false
  pub sound : AllSound (ids nodes) nodes
  pub acyclic : Acyclic nodes
  pub wired :
      (x i : Text)
      → mem x (ids nodes) ≡ true
      → mem i (inputs_of nodes x) ≡ true
      → Supplied nodes initial x i

pub Known-of_sound : (nodes : List NodeSpec) → AllSound (ids nodes) nodes → Known nodes
Known-of_sound nodes sound x d m = deps_of_known (ids nodes) nodes x d sound m

order_verdict_iff :
    (nodes : List NodeSpec) (initial order : List Text)
    → ((order_verdict nodes initial order).verdict ≡ approved)
      ↔ ((length order ≡ length (ids nodes)) × (wiring_fault nodes initial order ≡ none))
unfolding order_verdict
order_verdict_iff nodes initial order = (λ e. ground arith, λ h. ground arith)

module _ (nodes : List NodeSpec) (initial : List Text) (unique : Unique nodes) where
  order : List Text
  order = (ordering nodes).0

  -- The inputs are checked along the order, which holds each node when there is no cycle.
  wired_of_order :
      length order ≡ length (ids nodes)
      → wiring_fault nodes initial order ≡ none
      → (x i : Text) → mem x (ids nodes) ≡ true
      → mem i (inputs_of nodes x) ≡ true
      → Supplied nodes initial x i
  unfolding order
  wired_of_order full clean x i m e =
      let here : mem x order ≡ true = ground (
        arith,
        count-order nodes unique full x,
        mem_iff_count x order,
        mem_iff_count x (ids nodes),
      ) in
      (available_iff nodes initial x i).0
        ((wiring_fault-none nodes initial order).0 clean x here i e)

  order_of_wired :
      length order ≡ length (ids nodes)
      → ((x i : Text)
          → mem x (ids nodes) ≡ true
          → mem i (inputs_of nodes x) ≡ true
          → Supplied nodes initial x i)
      → wiring_fault nodes initial order ≡ none
  unfolding order
  order_of_wired full wired = (wiring_fault-none nodes initial order).1 λ x m i e.
      (available_iff nodes initial x i).1 (
        wired x i
          (ground (
            arith,
            count-order nodes unique full x,
            mem_iff_count x order,
            mem_iff_count x (ids nodes),
          ))
          e)

Parts : List NodeSpec → List Text → Type 0
Parts nodes initial =
    (length (to_set (ids nodes)) ≡ length (ids nodes))
    × (any_empty (ids nodes) ≡ false)
    × (nodes_fault (ids nodes) nodes ≡ none)
    × ((order_verdict nodes initial (ordering nodes).0).verdict ≡ approved)

validate_dag-Parts :
    (n : NodeSpec) (ns : List NodeSpec) (initial : List Text)
    → ((validate_dag (n ∷ ns) initial).verdict ≡ approved) ↔ Parts (n ∷ ns) initial
unfolding validate_dag nodes_verdict Parts
validate_dag-Parts n ns initial = (λ e. ground arith, λ h. ground arith)

IsWellFormed-of_Parts :
    (n : NodeSpec) (ns : List NodeSpec) (initial : List Text)
    → Parts (n ∷ ns) initial
    → IsWellFormed (n ∷ ns) initial
unfolding Parts order
IsWellFormed-of_Parts n ns initial (set, full_names, clean, passed) =
    let nodes = n ∷ ns in
    let unique : Unique nodes = λ x. to_set-count x (ids nodes) set in
    let (full, wires) = (order_verdict_iff nodes initial (ordering nodes).0).0 passed in
    record {
      some_node = λ e. cc;
      unique = unique;
      named = sym (any_empty-mem (ids nodes)) ∙ full_names;
      sound = (nodes_fault-none (ids nodes) nodes).0 clean;
      acyclic = Acyclic-of_order nodes unique full;
      wired = wired_of_order nodes initial unique full wires;
    }

Parts-of_IsWellFormed :
    (n : NodeSpec) (ns : List NodeSpec) (initial : List Text)
    → IsWellFormed (n ∷ ns) initial
    → Parts (n ∷ ns) initial
unfolding Parts order
Parts-of_IsWellFormed n ns initial w =
    let nodes = n ∷ ns in
    let full = order_full-of_Acyclic nodes w.unique (Known-of_sound nodes w.sound) w.acyclic in
    (
      count-to_set (ids nodes) w.unique,
      any_empty-mem (ids nodes) ∙ w.named,
      (nodes_fault-none (ids nodes) nodes).1 w.sound,
      (order_verdict_iff nodes initial (ordering nodes).0).1
          (full, order_of_wired nodes initial w.unique full w.wired),
    )

-- `validate_dag` approves a graph exactly when it has a node, its ids are unique and not empty, each
-- node has an agent and depends on nodes of the graph only, there is no cycle, and each input of a
-- node is among the initial keys or the outputs of a node upstream of it.
pub validate_dag_iff :
    (nodes : List NodeSpec) (initial : List Text)
    → ((validate_dag nodes initial).verdict ≡ approved) ↔ IsWellFormed nodes initial
unfolding validate_dag
validate_dag_iff [] initial = (λ e. cc, λ w. absurd (w.some_node refl))
validate_dag_iff (n ∷ ns) initial = (
  λ e. IsWellFormed-of_Parts n ns initial ((validate_dag-Parts n ns initial).0 e),
  λ w. (validate_dag-Parts n ns initial).1 (Parts-of_IsWellFormed n ns initial w),
)

approval_details :
    (nodes : List NodeSpec) (initial : List Text)
    → (validate_dag nodes initial).verdict ≡ approved
    → (validate_dag nodes initial).details
      ≡ field (codes "order") (arr (texts (ordering nodes).0)) end
unfolding validate_dag nodes_verdict
approval_details [] initial e = cc
approval_details (n ∷ ns) initial e = ground arith

-- The details of an approval list every node once, each behind all of its dependencies.
pub validate_dag-IsOrdered :
    (nodes : List NodeSpec) (initial : List Text)
    → (validate_dag nodes initial).verdict ≡ approved
    → (order : List Text) × ((validate_dag nodes initial).details
        ≡ field (codes "order") (arr (texts order)) end)
      × IsOrdered nodes [] order
      × ((x : Text) → count x order ≡ count x (ids nodes))
validate_dag-IsOrdered nodes initial e =
    let w = (validate_dag_iff nodes initial).0 e in
    (
      (ordering nodes).0,
      approval_details nodes initial e,
      ordering-IsOrdered nodes w.unique,
      count-order nodes w.unique
          (order_full-of_Acyclic nodes w.unique (Known-of_sound nodes w.sound) w.acyclic),
    )
