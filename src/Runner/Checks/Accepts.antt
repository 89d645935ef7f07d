-- ===== src/Runner/Checks/Accepts.antt =====
-- society/runner/dag.py: the graphs that `_validate` accepts.
use society_harness.Prelude.{
  ◌≡◌, ◌↔◌, refl, true, Text, same_iff, mem, List, [], ◌∷◌, ◌++◌, Option, none, some, arith, ap,
  ◌∙◌, if◌then◌else◌,
}
use society_harness.Prelude.Results.{Result, ok, >>=-eq-ok}
use society_harness.Spec.{NodeSpec, DagSpec}
use society_harness.Memory.Lineage.{
  Verdict, approved, rejected, abstained, escalated, error, is_approved,
}
use society_harness.Gates.Validator.{validate_dag}
use society_harness.Runner.Refs.{parse_ref}
use society_harness.Runner.Checks.{
  AgentSpec, parse_all, agent_named, output_names, or_next, output_fault, check_outputs, check_node,
  check_nodes, validate,
}

abbrev pub IsParsed : Text → Type 0
IsParsed ref = (p : Text × Text) × (parse_ref ref ≡ ok p)

abbrev pub AllParsed : List Text → Type 0
AllParsed [] = Unit
AllParsed (ref ∷ refs) = IsParsed ref × AllParsed refs

parse_all-AllParsed :
    (refs : List Text) {ps : List (Text × Text)} → parse_all refs ≡ ok ps → AllParsed refs
unfolding parse_all
parse_all-AllParsed [] e = tt
parse_all-AllParsed (ref ∷ refs) e =
    let (p, here, rest) = >>=-eq-ok (parse_ref ref) _ e in
    let (ps, there, whole) = >>=-eq-ok (parse_all refs) _ rest in
    ((p, here), parse_all-AllParsed refs there)

parse_all-of_AllParsed :
    (refs : List Text) → AllParsed refs → (ps : List (Text × Text)) × (parse_all refs ≡ ok ps)
unfolding parse_all
parse_all-of_AllParsed [] all = ([], refl)
parse_all-of_AllParsed (ref ∷ refs) ((p, here), all) =
    let (ps, there) = parse_all-of_AllParsed refs all in (p ∷ ps, rw here (rw there refl))

or_next-none :
    (fault : Option Text) (next : Result (Option Text))
    → or_next fault next ≡ ok none
    → (fault ≡ none) × (next ≡ ok none)
or_next-none (some f) next e = cc
or_next-none none next e = (refl, e)

module _ {W : Type 0} where
  -- Each output stands under the node's own agent, which has an extractor for it.
  abbrev pub Published : NodeSpec → AgentSpec W → List Text → Type 0
  Published n agent [] = Unit
  Published n agent (ref ∷ refs) =
      ((dtype : Text) × (parse_ref ref ≡ ok (n.agent, dtype))
        × (mem dtype (output_names agent) ≡ true))
      × Published n agent refs

  abbrev pub Runnable : List (Text × AgentSpec W) → NodeSpec → Type 0
  Runnable agents n =
      (agent : AgentSpec W) × (agent_named agents n.agent ≡ some agent)
      × AllParsed (n.inputs ++ n.outputs)
      × Published n agent n.outputs

  abbrev pub AllRunnable : List (Text × AgentSpec W) → List NodeSpec → Type 0
  AllRunnable agents [] = Unit
  AllRunnable agents (n ∷ ns) = Runnable agents n × AllRunnable agents ns

  module _ (repr : Text → Text) where
    output_fault-none :
        (n : NodeSpec) (agent : AgentSpec W) (ref owner dtype : Text)
        → output_fault repr n agent ref (owner, dtype) ≡ none
        → (owner ≡ n.agent) × (mem dtype (output_names agent) ≡ true)
    unfolding output_fault
    output_fault-none n agent ref owner dtype e = ground (arith, same_iff owner n.agent)

    output_fault-own :
        (n : NodeSpec) (agent : AgentSpec W) (ref dtype : Text)
        → mem dtype (output_names agent) ≡ true
        → output_fault repr n agent ref (n.agent, dtype) ≡ none
    unfolding output_fault
    output_fault-own n agent ref dtype e = ground (arith, same_iff n.agent n.agent)

    check_outputs-Published :
        (n : NodeSpec) (agent : AgentSpec W) (refs : List Text)
        → check_outputs repr n agent refs ≡ ok none
        → Published n agent refs
    unfolding check_outputs
    check_outputs-Published n agent [] e = tt
    check_outputs-Published n agent (ref ∷ refs) e =
        let ((owner, dtype), here, rest) = >>=-eq-ok (parse_ref ref) _ e in
        let (fault, there) = or_next-none _ _ rest in
        let (own, listed) = output_fault-none n agent ref owner dtype fault in
        (
          (dtype, here ∙ ap (λ o. ok (o, dtype)) own, listed),
          check_outputs-Published n agent refs there,
        )

    check_outputs-of_Published :
        (n : NodeSpec) (agent : AgentSpec W) (refs : List Text)
        → Published n agent refs
        → check_outputs repr n agent refs ≡ ok none
    unfolding check_outputs
    check_outputs-of_Published n agent [] all = refl
    check_outputs-of_Published n agent (ref ∷ refs) ((dtype, here, listed), all) = rw here (
        rw (output_fault-own n agent ref dtype listed)
          (check_outputs-of_Published n agent refs all))

    check_node-Runnable :
        (agents : List (Text × AgentSpec W)) (n : NodeSpec) (found : Option (AgentSpec W))
        → agent_named agents n.agent ≡ found
        → check_node repr n found ≡ ok none
        → Runnable agents n
    unfolding check_node
    check_node-Runnable agents n none h e = cc
    check_node-Runnable agents n (some agent) h e =
        let (ps, parsed, rest) = >>=-eq-ok (parse_all (n.inputs ++ n.outputs)) _ e in
        (
          agent,
          h,
          parse_all-AllParsed (n.inputs ++ n.outputs) parsed,
          check_outputs-Published n agent n.outputs rest,
        )

    check_node-of_Runnable :
        (agents : List (Text × AgentSpec W)) (n : NodeSpec)
        → Runnable agents n
        → check_node repr n (agent_named agents n.agent) ≡ ok none
    unfolding check_node
    check_node-of_Runnable agents n (agent, h, parsed, published) =
        let (ps, all) = parse_all-of_AllParsed (n.inputs ++ n.outputs) parsed in
        rw h (rw all (check_outputs-of_Published n agent n.outputs published))

    check_nodes_iff :
        (agents : List (Text × AgentSpec W)) (ns : List NodeSpec)
        → (check_nodes repr agents ns ≡ ok none) ↔ AllRunnable agents ns
    unfolding check_nodes
    check_nodes_iff agents [] = (λ e. tt, λ u. refl)
    check_nodes_iff agents (n ∷ ns) = (
      λ e.
          let (fault, here, rest) =
            >>=-eq-ok (check_node repr n (agent_named agents n.agent)) _ e in
          let (fine, there) = or_next-none _ _ rest in
          (
            check_node-Runnable agents n _ refl (here ∙ ap ok fine),
            (check_nodes_iff agents ns).0 there,
          ),
      λ (here, all). rw (check_node-of_Runnable agents n here) ((check_nodes_iff agents ns).1 all),
    )

    -- The test of the graph's verdict.
    guarded_iff :
        (v : Verdict) (agents : List (Text × AgentSpec W)) (ns : List NodeSpec) (reason : Text)
        → ((if is_approved v then check_nodes repr agents ns else ok (some reason)) ≡ ok none)
          ↔ ((v ≡ approved) × AllRunnable agents ns)
    guarded_iff approved agents ns reason = (
      λ e. (refl, (check_nodes_iff agents ns).0 e),
      λ (e, all). (check_nodes_iff agents ns).1 all,
    )
    guarded_iff rejected agents ns reason = (λ e. cc, λ (e, all). cc)
    guarded_iff abstained agents ns reason = (λ e. cc, λ (e, all). cc)
    guarded_iff escalated agents ns reason = (λ e. cc, λ (e, all). cc)
    guarded_iff error agents ns reason = (λ e. cc, λ (e, all). cc)

    -- `_validate` finds no fault exactly if `validate_dag` approves the graph and, of each node, the
    -- agent is known, every input and output parses as a reference, and every output stands under
    -- the node's own agent and has an extractor there.
    pub validate_iff :
        (agents : List (Text × AgentSpec W)) (dag : DagSpec)
        → (validate repr agents dag ≡ ok none)
          ↔ (((validate_dag dag.nodes []).verdict ≡ approved) × AllRunnable agents dag.nodes)
    unfolding validate
    validate_iff agents dag =
        guarded_iff (validate_dag dag.nodes []).verdict agents dag.nodes
          (validate_dag dag.nodes []).reason
