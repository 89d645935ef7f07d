-- ===== src/Lib.antt =====
-- Society Harness runs a society of agents. A planner turns a goal into a graph of nodes; the
-- runner starts each node once the nodes it depends on are done; the executor runs one node
-- under a retry loop in which gates judge every attempt; and approved outputs are handed to
-- later nodes through a key-value store, with an audit trail beside it. The simulator under
-- agentsim studies how such societies share capacity: sessions reserve parts of a resource by
-- leases, which a ledger keeps within the capacity.
--
-- Which file models which code:
--
--   Memory/Kv.antt            society/memory/kv.py: the store of attempts and :current pointers
--   Memory/Lineage.antt       society/memory/lineage.py: the audit trail
--   Providers/Types.antt      society/providers/types.py: what a worker takes and returns
--   Providers/Fallback.antt   society/providers/fallback.py: the worker that falls back on another
--   Spec.antt                 society/runner/spec.py: the nodes of a graph
--   Gates/Types.antt          society/gates/types.py: results, contexts and gates
--   Gates/Validator.antt      society/gates/deterministic.py: validate_dag and _ancestors
--   Gates/Executor.antt       society/gates/executor.py: execute_node, with its parts in
--                             Gates/Executor/{Types,Feedback,Outputs,Records}.antt
--   Runner/Refs.antt          society/runner/spec.py: parse_ref
--   Runner/Checks.antt        society/runner/dag.py: DagRunner._validate
--   Runner/Dag.antt           society/runner/dag.py: the node tasks of DagRunner.run
--   Runner/Planner.antt       society/runner/planner.py: Planner, agent_catalog and dag_json_schema,
--                             with the wire forms in Runner/Planner/Plans.antt
--   Agentsim/Ledger.antt      agentsim/resources.py: Lease and Ledger, with what is kept from others
--                             in Agentsim/Ledger/Reserved.antt, limit and check in
--                             Agentsim/Ledger/Checks.antt
--   Gates/Checks.antt         society/gates/deterministic.py: the gates on schemas, commands,
--                             decisions and written files, with diff_schemas in
--                             Gates/Checks/Schemas.antt and SchemaDiffGate in
--                             Gates/Checks/Schemas/Gate.antt
--   Agentsim/Resource.antt    agentsim/resources.py: Resource, with its request budget in
--                             Agentsim/Resource/Provider.antt
--   Agentsim/Buckets.antt     agentsim/resources.py: CallBucket, TokenBucket and BudgetBucket, in
--                             Agentsim/Buckets/{Calls,Tokens,Budgets}.antt
--   Agentsim/Model.antt       agentsim/resources.py: ModelPhysics, with _make_room in
--                             Agentsim/Model/Eviction.antt and the requests in
--                             Agentsim/Model/Requests.antt
--   Agentsim/Control.antt     agentsim/control.py: PI and AllocationLoop, with jain_fairness in
--                             Agentsim/Control/Fairness.antt
--   Harness/Governed.antt     society/harness/governed.py: GovernedWorker and GovernedCommandGate,
--                             over any calls of the gateway
--   Harness/Issue.antt        society/harness/gateway.py: _issue
--   Harness/Gateway.antt      society/harness/gateway.py: the state of the gateway, with _order and
--                             _fits in Harness/Gateway/Admission.antt, acquire and _dispatch in
--                             Harness/Gateway/Grants.antt, release, verdicts and runs in
--                             Harness/Gateway/Release.antt, and its moves in
--                             Harness/Gateway/Steps.antt
--   Json.antt, Prelude.antt   JSON values; texts, numbers, results and lists
--
-- The other files hold lemmas and, under the name Examples, tests and witnesses.
--
-- How the parts correspond. A text is the list of its code points, and a JSON value a tree. A
-- dict from node ids is a function, and a dict of outputs a list of pairs in its order. The
-- table of the store is a list of rows with one row for a key; a method that may raise returns
-- a Result. The executor passes a state along that holds the store, the trail and a world: the
-- world is all that workers and gates can read and change (files, processes, models), and
-- `clock` reads the time from it. Workers, gates, output extractors and
-- `repr` (Python's !r) are arguments of the definitions. A worker or a gate of the model does not
-- raise and does not write to the store, and an extractor returns a value or an error text. The observer, which is only told of
-- events, is left out. Money is counted in units of 10^-9 USD, confidence in millionths, and
-- `usd` prints an amount. The amounts of resources and leases are counted in units of 10^-9,
-- and times in ticks. `int()` is modelled on plain decimal digits.
--
-- The gateway admits the calls of all runs to the shared resources. Its methods between two awaits
-- are functions on its state, and a run of it is a list of moves: a call asks, gives up or is handed
-- back, a verdict comes, a run starts or ends, the clock ticks. What a policy predicts (costs,
-- weights, and the leases that it issues anew) is an argument of each move, so that nothing is
-- assumed of it. The level of a bucket is counted in parts, of which a unit has as many as the
-- bucket's period has ticks, and a refill is exact. Divisions by rates are kept as fractions,
-- and what is paid out of a balance is rounded down to whole units of money.
--
-- A run of the graph is a relation between states, one step for each move of a task from one
-- `await` to the next, so that every interleaving of the tasks is a run. An execution is there
-- one step that ends it with any outcome; exceptions that `run_node` does not catch, which end
-- the whole run, are left out.
--
-- Bounds and fuel. The queue loop of validate_dag runs with as much fuel as there are nodes,
-- which is enough since each round places another node. The stack loop of _ancestors runs with
-- as much as the node and the whole graph have dependencies, which is enough since the
-- dependencies of a node are pushed once. The retry loop is a recursion on the attempts that
-- are left.
--
-- Not modelled: the input that the runner builds for a node, the gates that search files; how the gateway defers runs and schedules what they will need, and the runner that
-- declares them; the engine and policies of agentsim.
--
-- Nor HTTP servers and clients, command lines and file access; the learned predictors, their
-- features and training; sampling, plots and statistics; prompts. A process that a gate runs is
-- a parameter, and so is the validation of a value against a JSON schema or of a
-- plan against its model.
pub mod Prelude
pub mod Json
pub mod Spec
pub mod Memory
pub mod Providers
pub mod Gates
pub mod Runner
pub mod Agentsim
pub mod Harness
