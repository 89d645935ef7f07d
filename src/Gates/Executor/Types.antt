-- ===== src/Gates/Executor/Types.antt =====
-- society/gates/executor.py: what `execute_node` is given, changes and returns. Money is counted in
-- whole units of 10^-9 USD.
use society_harness.Prelude.{ℕ, Bool, Text, List}
use society_harness.Prelude.Results.{Exception}
use society_harness.Json.{Json}
use society_harness.Memory.Kv.{Store}
use society_harness.Memory.Lineage.{Log}
use society_harness.Providers.Types.{NodeInput, NodeOutput, Worker}
use society_harness.Gates.Types.{GateResult, Gate}

pub record RetryPolicy : Type 0 where
  pub max_attempts : ℕ
  pub max_run_cost_usd : ℕ

pub record NodeOutcome : Type 0 where
  pub node_id : Text
  pub output : NodeOutput
  pub attempt : ℕ
  pub gates : List GateResult
  pub approved : Bool
  pub written_keys : List Text

-- An extractor returns a value, `null` for `None`, or raises with a message.
pub data Extracted : Type 0 where
  value : Json → Extracted
  failed : Text → Extracted

abbrev pub Extractor : Type 0
Extractor = NodeOutput → Extracted

pub record Job (W : Type 0) : Type 0 where
  pub run_id : Text
  pub node : NodeInput
  pub worker : Worker W
  pub gates : List (Gate W)
  pub policy : RetryPolicy
  pub outputs : List (Text × Extractor)

pub record State (W : Type 0) : Type 0 where
  pub kv : Store
  pub lineage : Log
  pub world : W

-- `EscalationRequired` and `BudgetExceeded` carry the node, the reason and the history.
pub data Outcome : Type 0 where
  done : NodeOutcome → Outcome
  escalation budget_exceeded : Text → Text → List GateResult → Outcome
  raised : Exception → Outcome
