-- ===== src/Gates/Validator.antt =====
-- society/gates/deterministic.py: `validate_dag` and `_ancestors`. A dict from node ids is a
-- function; `by_id` is read only at ids that the earlier checks found, and is empty elsewhere. The
-- queue's head is its left end, and the stack's head is its top.
pub mod Counting
pub mod Draining
pub mod Acyclic
pub mod Upstream
pub mod Wiring
pub mod Approval
pub mod Examples
use society_harness.Prelude.{
  ℕ, zero, suc, ◌+◌, ◌≡◌, Bool, true, false, not, ◌||◌, Text, codes, same, mem, List, [], ◌∷◌, ◌++◌,
  map, reverse, Option, none, some, length, if◌then◌else◌, ◌==◌,
}
use society_harness.Prelude.Int.{ℤ, pos, dec, is_zero}
use society_harness.Json.{arr, texts, field, end}
use society_harness.Spec.{NodeSpec}
use society_harness.Gates.Types.{GateResult, approve, reject}

abbrev pub ids : List NodeSpec → List Text
ids nodes = map (λ n. n.id) nodes

-- `set(xs)`: each item once.
pub to_set : List Text → List Text
to_set [] = []
to_set (x ∷ xs) = if mem x xs then to_set xs else x ∷ to_set xs

unfoldable pub by_id : List NodeSpec → Text → Option NodeSpec
by_id [] x = none
by_id (n ∷ ns) x = if same n.id x then some n else by_id ns x

abbrev deps_or_none : Option NodeSpec → List Text
deps_or_none none = []
deps_or_none (some n) = n.depends_on

unfoldable pub deps_of : List NodeSpec → Text → List Text
deps_of nodes x = deps_or_none (by_id nodes x)

abbrev outputs_or_none : Option NodeSpec → List Text
outputs_or_none none = []
outputs_or_none (some n) = n.outputs

pub outputs_of : List NodeSpec → Text → List Text
outputs_of nodes x = outputs_or_none (by_id nodes x)

abbrev inputs_or_none : Option NodeSpec → List Text
inputs_or_none none = []
inputs_or_none (some n) = n.inputs

pub inputs_of : List NodeSpec → Text → List Text
inputs_of nodes x = inputs_or_none (by_id nodes x)

pub any_empty : List Text → Bool
any_empty [] = false
any_empty ([] ∷ xs) = true
any_empty ((c ∷ cs) ∷ xs) = any_empty xs

-- The first of `deps` that is no node.
pub unknown_dep : List Text → List Text → Option Text
unknown_dep known [] = none
unknown_dep known (d ∷ ds) = if mem d known then unknown_dep known ds else some d

abbrev agent_fault : NodeSpec → Text → Option Text → Option Text
agent_fault n [] rest = some (n.id ++ codes " has no agent")
agent_fault n (c ∷ cs) rest = rest

abbrev node_fault : NodeSpec → Option Text → Option Text → Option Text
node_fault n (some d) rest = some (n.id ++ (codes " depends on unknown node " ++ d))
node_fault n none rest = agent_fault n n.agent rest

-- The loop over the nodes that checks their dependencies and agents.
pub nodes_fault : List Text → List NodeSpec → Option Text
nodes_fault known [] = none
nodes_fault known (n ∷ ns) = node_fault n (unknown_dep known n.depends_on) (nodes_fault known ns)

-- `n` once for each `dep` among `deps`.
pub edges : Text → Text → List Text → List Text
edges dep n [] = []
edges dep n (d ∷ ds) = if same d dep then n ∷ edges dep n ds else edges dep n ds

pub children : List NodeSpec → Text → List Text
children [] dep = []
children (n ∷ ns) dep = edges dep n.id n.depends_on ++ children ns dep

abbrev update : (Text → ℤ) → Text → ℤ → Text → ℤ
update m k v j = if same k j then v else m j

-- The loop over `children[cur]`.
pub relax : List Text → (Text → ℤ) → List Text → (Text → ℤ) × List Text
relax [] indeg q = (indeg, q)
relax (c ∷ cs) indeg q =
    let left = dec (indeg c) in
    relax cs (update indeg c left) (if is_zero left then q ++ c ∷ [] else q)

-- The `while q` loop: the order, and what is left of the queue when the fuel ends.
pub drain : List NodeSpec → ℕ → (Text → ℤ) → List Text → List Text → List Text × List Text
drain nodes zero indeg q order = (order, q)
drain nodes (suc fuel) indeg [] order = (order, [])
drain nodes (suc fuel) indeg (cur ∷ q) order =
    let (indeg', q') = relax (children nodes cur) indeg q in
    drain nodes fuel indeg' q' (order ++ cur ∷ [])

pub indegrees : List NodeSpec → Text → ℤ
indegrees nodes x = pos (length (deps_of nodes x))

pub sources : (Text → ℤ) → List Text → List Text
sources indeg [] = []
sources indeg (x ∷ xs) = if is_zero (indeg x) then x ∷ sources indeg xs else sources indeg xs

pub ordering : List NodeSpec → List Text × List Text
ordering nodes =
    drain nodes (length nodes) (indegrees nodes) (sources (indegrees nodes) (ids nodes)) []

-- The loop of `_ancestors`: what was seen, and what is left on the stack when the fuel ends.
pub climb : List NodeSpec → ℕ → List Text → List Text → List Text × List Text
climb nodes zero seen stack = (seen, stack)
climb nodes (suc fuel) seen [] = (seen, [])
climb nodes (suc fuel) seen (cur ∷ stack) = elim (mem cur seen) [
  | true ↦ climb nodes fuel seen stack
  | false ↦ climb nodes fuel (cur ∷ seen) (reverse (deps_of nodes cur) ++ stack)
]

unfoldable pub edge_count : List NodeSpec → ℕ
edge_count [] = 0
edge_count (n ∷ ns) = length n.depends_on + edge_count ns

pub ancestors : List NodeSpec → Text → List Text
ancestors nodes x =
    (climb nodes (length (deps_of nodes x) + edge_count nodes) [] (reverse (deps_of nodes x))).0

-- The outputs of the nodes in `us`.
pub outputs_of_all : List NodeSpec → List Text → List Text
outputs_of_all nodes [] = []
outputs_of_all nodes (u ∷ us) = outputs_of nodes u ++ outputs_of_all nodes us

-- The first of `inputs` that nothing upstream produces.
pub unproduced : List Text → List Text → Option Text
unproduced available [] = none
unproduced available (i ∷ is) = if mem i available then unproduced available is else some i

abbrev pub available : List NodeSpec → List Text → Text → List Text
available nodes initial x = outputs_of_all nodes (ancestors nodes x) ++ initial

abbrev wire_fault : Text → Option Text → Option Text → Option Text
wire_fault x (some i) rest =
    some (x ++ (codes " reads '" ++ (i ++ codes "' which no upstream node produces")))
wire_fault x none rest = rest

-- The loop over the order that checks the inputs.
pub wiring_fault : List NodeSpec → List Text → List Text → Option Text
wiring_fault nodes initial [] = none
wiring_fault nodes initial (x ∷ xs) =
    wire_fault x (unproduced (available nodes initial x) (inputs_of nodes x))
      (wiring_fault nodes initial xs)

abbrev pub validator_name : Text
validator_name = codes "dag_validator"

wiring_verdict : List Text → Option Text → GateResult
wiring_verdict order (some reason) = reject validator_name reason
wiring_verdict order none =
    approve validator_name (codes "dag is acyclic and fully wired")
      (field (codes "order") (arr (texts order)) end)

order_verdict : List NodeSpec → List Text → List Text → GateResult
unfolding wiring_verdict
order_verdict nodes initial order =
    if length order == length (ids nodes)
    then wiring_verdict order (wiring_fault nodes initial order)
    else reject validator_name (codes "dag contains a cycle")

nodes_verdict : List NodeSpec → List Text → Option Text → GateResult
unfolding order_verdict
nodes_verdict nodes initial (some reason) = reject validator_name reason
nodes_verdict nodes initial none = order_verdict nodes initial (ordering nodes).0

pub validate_dag : List NodeSpec → List Text → GateResult
unfolding nodes_verdict
validate_dag [] initial = reject validator_name (codes "dag has no nodes")
validate_dag (n ∷ ns) initial =
    let nodes = n ∷ ns in
    let names = ids nodes in
    if not (length (to_set names) == length names) || any_empty names
    then reject validator_name (codes "node ids must be unique and non-empty")
    else nodes_verdict nodes initial (nodes_fault names nodes)
