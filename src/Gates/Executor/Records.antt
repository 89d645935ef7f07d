-- ===== src/Gates/Executor/Records.antt =====
-- society/gates/executor.py: the lineage records that the loop writes.
use society_harness.Prelude.{ℕ, Text, codes, List, [], ◌++◌, some, none}
use society_harness.Memory.Lineage.{escalated, LineageRecord, append}
use society_harness.Providers.Types.{NodeOutput}
use society_harness.Gates.Types.{GateResult}
use society_harness.Gates.Executor.Types.{Job, State}
use society_harness.Gates.Executor.Feedback.{last_chars, context_keys}

module _ {W : Type 0} (clock : W → ℕ) (usd : ℕ → Text) (job : Job W) where
  unfoldable pub escalation_record : State W → ℕ → Text → Text → LineageRecord
  escalation_record s attempt gate reason = record {
    ts = clock s.world;
    run_id = job.run_id;
    node_id = job.node.node_id;
    agent = job.node.agent;
    attempt = attempt;
    provider = [];
    model = [];
    fallback_from = none;
    inputs_read = [];
    outputs_written = [];
    files_written = [];
    gate = gate;
    verdict = some escalated;
    confidence = none;
    reason = reason;
    input_tokens = 0;
    output_tokens = 0;
    cost_usd = 0;
    duration_ms = 0;
    started_at = none;
    finished_at = none;
    error = none;
    text_tail = [];
  }

  unfoldable pub log_escalation : State W → ℕ → Text → Text → State W
  unfolding escalation_record
  log_escalation s attempt gate reason = record s {
    lineage = append s.lineage (escalation_record s attempt gate reason);
  }

  unfoldable pub attempt_record :
      ℕ → NodeOutput → ℕ → List Text → GateResult → ℕ → ℕ → LineageRecord
  attempt_record now out attempt written final started finished = record {
    ts = now;
    run_id = job.run_id;
    node_id = job.node.node_id;
    agent = job.node.agent;
    attempt = attempt;
    provider = out.provider_name;
    model = out.model;
    fallback_from = out.fallback_from;
    inputs_read = context_keys job.node.context;
    outputs_written = written;
    files_written = out.files_written;
    gate = final.gate;
    verdict = some final.verdict;
    confidence = some final.confidence;
    reason = final.reason;
    input_tokens = out.input_tokens;
    output_tokens = out.output_tokens;
    cost_usd = out.cost_usd;
    duration_ms = out.duration_ms;
    started_at = some started;
    finished_at = some finished;
    error = out.error;
    text_tail = last_chars 1500 out.text;
  }

  unfoldable pub budget_reason : ℕ → Text
  budget_reason spent =
      codes "run cost $"
      ++ (usd spent ++ (codes " exceeded ceiling $" ++ usd job.policy.max_run_cost_usd))
