-- ===== src/Runner/Dag.antt =====
-- society/runner/dag.py: `DagRunner.run`, the scheduling of the node tasks. Every node has a task,
-- which waits for the events of its dependencies in their order and then executes the node. A step
-- takes one task up to its next `await`, in any order among the tasks. What happens inside
-- `execute_node` is the subject of Gates/Executor.antt: here an execution ends at any later time,
-- with any outcome or exception that `run_node` catches.
pub mod Order
pub mod Progress
pub mod Result
mod Examples
use society_harness.Prelude.{
  ◌≡◌, Bool, true, false, Text, codes, same, mem, List, [], ◌∷◌, ◌++◌, map, Option, none, some,
  if◌then◌else◌,
}
use society_harness.Spec.{NodeSpec}
use society_harness.Gates.Types.{GateResult}
use society_harness.Gates.Executor.Types.{NodeOutcome}
use society_harness.Gates.Validator.{ids, deps_of}

-- Where a task stands: waiting for the events of these nodes, inside `execute_node`, or returned.
pub data Phase : Type 0 where
  waiting : List Text → Phase
  running : Phase
  returned : Phase

pub data RunStatus : Type 0 where
  completed run_escalated invalid : RunStatus

-- What `run_node` catches: EscalationRequired with its parts, or a RuntimeError with its message.
pub data Failure : Type 0 where
  escalation_required : Text → Text → List GateResult → Failure
  runtime_failure : Text → Failure

abbrev pub message : Failure → Text
message (escalation_required node_id reason history) = node_id ++ (codes ": " ++ reason)
message (runtime_failure text) = text

abbrev pub escalation_of : Failure → Option Failure
escalation_of (escalation_required node_id reason history) =
    some (escalation_required node_id reason history)
escalation_of (runtime_failure text) = none

-- The tasks' phases, the events `done`, the event `failed` and the fields of `RunResult`.
pub record RunState : Type 0 where
  pub phase : Text → Phase
  pub done : Text → Bool
  pub failed : Bool
  pub status : RunStatus
  pub outcomes : List (Text × NodeOutcome)
  pub escalation : Option Failure
  pub reason : Text

unfoldable pub set_phase : (Text → Phase) → Text → Phase → Text → Phase
set_phase phase x p y = if same x y then p else phase y

unfoldable pub set_event : (Text → Bool) → Text → Text → Bool
set_event done x y = if same x y then true else done y

unfoldable pub start : List NodeSpec → RunState
start nodes = record {
  phase = λ x. waiting (deps_of nodes x);
  done = λ x. false;
  failed = false;
  status = completed;
  outcomes = [];
  escalation = none;
  reason = [];
}

-- A task that waits, up to its next `await`; `none` where it has to go on waiting.
unfoldable pub wake_from : Phase → Text → RunState → Option RunState
unfolding set_phase
wake_from (waiting []) x s =
    some (record s { phase = set_phase s.phase x (if s.failed then returned else running) })
wake_from (waiting (d ∷ ds)) x s =
    if s.done d
    then some (record s { phase = set_phase s.phase x (if s.failed then returned else waiting ds) })
    else none
wake_from running x s = none
wake_from returned x s = none

unfoldable pub wake : Text → RunState → Option RunState
unfolding wake_from
wake x s = wake_from (s.phase x) x s

-- `execute_node` returned.
unfoldable pub complete : Text → NodeOutcome → RunState → RunState
unfolding set_phase set_event
complete x o s = record s {
  phase = set_phase s.phase x returned;
  outcomes = s.outcomes ++ (x, o) ∷ [];
  done = set_event s.done x;
}

-- `_build_input` or `execute_node` raised.
unfoldable pub fail : Text → Failure → RunState → RunState
unfolding set_phase
fail x e s = record s {
  phase = set_phase s.phase x returned;
  status = run_escalated;
  reason = message e;
  escalation = escalation_of e;
  failed = true;
  done = λ y. true;
}

-- One step of the run.
pub data Step (nodes : List NodeSpec) : RunState → RunState → Type 0 where
  woke :
      {s s' : RunState} (x : Text) → mem x (ids nodes) ≡ true → wake x s ≡ some s' → Step nodes s s'
  returns :
      {s : RunState} (x : Text) (o : NodeOutcome)
      → mem x (ids nodes) ≡ true
      → s.phase x ≡ running
      → Step nodes s (complete x o s)
  raises :
      {s : RunState} (x : Text) (e : Failure)
      → mem x (ids nodes) ≡ true
      → s.phase x ≡ running
      → Step nodes s (fail x e s)

-- The states of a run.
pub data Reached (nodes : List NodeSpec) : RunState → Type 0 where
  started : Reached nodes (start nodes)
  later : {s s' : RunState} → Reached nodes s → Step nodes s s' → Reached nodes s'

-- The nodes with an outcome.
unfoldable pub finished : RunState → List Text
finished s = map (λ o. o.0) s.outcomes
