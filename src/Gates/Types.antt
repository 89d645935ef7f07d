-- ===== src/Gates/Types.antt =====
-- society/gates/types.py. A confidence is counted in millionths. A gate and a worker are parameters:
-- they read and change a world of type `W` (files, processes, models).
use society_harness.Prelude.{ℕ, Text, List}
use society_harness.Memory.Kv.{Store}
use society_harness.Memory.Lineage.{Verdict, approved, rejected}
use society_harness.Providers.Types.{NodeInput, NodeOutput}
use society_harness.Json.{Fields, end}

pub record GateResult : Type 0 where
  pub gate : Text
  pub verdict : Verdict
  pub confidence : ℕ
  pub reason : Text
  pub details : Fields

abbrev pub certain : ℕ
certain = 1000000

abbrev pub reject : Text → Text → GateResult
reject gate reason = record {
  gate = gate;
  verdict = rejected;
  confidence = certain;
  reason = reason;
  details = end;
}

abbrev pub approve : Text → Text → Fields → GateResult
approve gate reason details = record {
  gate = gate;
  verdict = approved;
  confidence = certain;
  reason = reason;
  details = details;
}

pub record GateContext : Type 0 where
  pub run_id : Text
  pub node : NodeInput
  pub output : NodeOutput
  pub attempt : ℕ
  pub kv : Store
  pub workspace : Text
  pub prior : List GateResult

pub record Gate (W : Type 0) : Type 0 where
  pub name : Text
  pub check : GateContext → W → GateResult × W
