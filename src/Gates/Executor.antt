-- ===== src/Gates/Executor.antt =====
-- society/gates/executor.py: one node under the retry, gate and promote loop. The arguments of
-- `execute_node` are a `Job`; `clock` is `time.time()` and `usd` prints money. The worker, the gates
-- and the extractors are parameters that do not raise beyond what their types say, and the observer,
-- which is only told of events, is left out.
pub mod Types
pub mod Feedback
pub mod Outputs
pub mod Records
pub mod Storage
pub mod Promotion
pub mod Handoff
pub mod Verdicts
pub mod Trail
pub mod Ceiling
mod Examples
use society_harness.Prelude.{
  ℕ, zero, suc, ◌+◌, Bool, true, false, Text, codes, List, [], ◌∷◌, ◌++◌, map, Option, none, some,
  if◌then◌else◌, leb,
}
use society_harness.Prelude.Decimal.{show}
use society_harness.Prelude.Results.{Exception, index_error, Result, ok, raise, ◌>>=◌}
use society_harness.Json.{Json, null, num, obj, field, end, Fields}
use society_harness.Memory.Kv.{Store, next_attempt, put_attempt, promote, exists, attempt_key}
use society_harness.Memory.Lineage.{
  Verdict, approved, rejected, abstained, escalated, error, is_approved, LineageRecord, Log, append,
  total_cost,
}
use society_harness.Providers.Types.{NodeInput, NodeOutput, Worker}
use society_harness.Gates.Types.{GateResult, GateContext, Gate}
use Types.{
  RetryPolicy, NodeOutcome, Extracted, value, failed, Extractor, Job, State, Outcome, done,
  escalation, budget_exceeded, raised,
}
use Outputs.{run_dtype, Written, wrote, write_failed, write_outputs, promote_all, run_gates}
use Records.{log_escalation, attempt_record, budget_reason}
use Feedback.{
  feedback_task, or_error, error_text, no_error_gate, failures, get_last, last_chars, context_keys,
}

-- One round of the loop ends the call, or goes on with a new task and a longer history.
pub data Round (W : Type 0) : Type 0 where
  finish : Outcome → State W → Round W
  again : Text → List GateResult → State W → Round W

module _ {W : Type 0} (clock : W → ℕ) (usd : ℕ → Text) (job : Job W) where
  over_budget : List GateResult → State W → Round W
  unfolding log_escalation budget_reason
  over_budget history s =
      let reason = budget_reason clock usd job (total_cost s.lineage job.run_id) in
      finish (budget_exceeded job.node.node_id reason history)
        (log_escalation clock usd job s 0 (codes "budget") reason)

  -- `kv.next_attempt(run_id, agent, "_run")` and the marker of the attempt.
  start_attempt : State W → Result (ℕ × Store)
  start_attempt s = do
    n ← next_attempt s.kv job.run_id job.node.agent run_dtype
    p ←
        put_attempt (clock s.world) s.kv job.run_id job.node.agent run_dtype n
          (obj (field (codes "started") (num (clock s.world)) end))
    ok (n, p.0)

  undecided : ℕ → List GateResult → GateResult → State W → Round W
  unfolding log_escalation
  undecided attempt history final s =
      let reason = codes "gate " ++ (final.gate ++ (codes " could not decide: " ++ final.reason)) in
      finish (escalation job.node.node_id reason history)
        (log_escalation clock usd job s attempt final.gate reason)

  -- The extractors' dtypes are promoted, and the call returns. A promotion raises only where the attempt
  -- is not there, which is not reached.
  promoted : ℕ → NodeOutput → List Text → List GateResult → State W → Result Store → Round W
  promoted attempt out written history s (ok kv) =
      finish
        (done (record {
          node_id = job.node.node_id;
          output = out;
          attempt = attempt;
          gates = history;
          approved = true;
          written_keys = written;
        }))
        (record s { kv = kv })
  promoted attempt out written history s (raise e) = finish (raised e) s

  abbrev pub dtypes : List Text
  dtypes = map (λ o. o.0) job.outputs

  -- What follows the verdict of the last gate.
  settle :
      Verdict
      → ℕ
      → NodeOutput
      → List Text
      → List GateResult
      → List GateResult
      → GateResult
      → State W
      → Round W
  settle approved attempt out written results history final s =
      promoted attempt out written history s
        (promote_all (clock s.world) job.run_id job.node.agent attempt dtypes s.kv)
  settle abstained attempt out written results history final s = undecided attempt history final s
  settle error attempt out written results history final s = undecided attempt history final s
  settle _ attempt out written results history final s =
      again (feedback_task job.node.task (attempt + 1) (failures results)) history s

  -- `results[-1]` decides, after its record is written.
  conclude :
      ℕ
      → NodeOutput
      → List Text
      → List GateResult
      → List GateResult
      → ℕ
      → ℕ
      → State W
      → Option GateResult
      → Round W
  conclude attempt out written results history started finished s none =
      finish (raised index_error) s
  conclude attempt out written results history started finished s (some final) =
      settle final.verdict attempt out written results history final (record s {
        lineage = append s.lineage (
            attempt_record clock usd job (clock s.world) out attempt written final started
              finished);
      })

  judge : ℕ → NodeInput → NodeOutput → List Text → List GateResult → ℕ → ℕ → State W → Round W
  judge attempt node out written history started finished s =
      let (results, w) =
        run_gates (no_error_gate ∷ job.gates)
          (record {
            run_id = job.run_id;
            node = node;
            output = out;
            attempt = attempt;
            kv = s.kv;
            workspace = job.node.workspace;
            prior = [];
          })
          s.world in
      conclude attempt out written results (history ++ results) started finished
        (record s { world = w }) (get_last results)

  judge_written : ℕ → NodeInput → List GateResult → ℕ → ℕ → State W → Written → Round W
  judge_written attempt node history started finished s (wrote keys out kv) =
      judge attempt node out keys history started finished (record s { kv = kv })
  judge_written attempt node history started finished s (write_failed e kv) =
      finish (raised e) (record s { kv = kv })

  work : ℕ → Text → List GateResult → State W → Round W
  work attempt task history s =
      let node = record job.node { task = task; attempt = attempt; run_id = job.run_id } in
      let (out, w) = job.worker.run node s.world in
      judge_written attempt node history (clock s.world) (clock w) (record s { world = w })
        (write_outputs (clock w) job.run_id job.node.agent attempt job.outputs [] out s.kv)

  work_started : Text → List GateResult → State W → Result (ℕ × Store) → Round W
  work_started task history s (ok (n, kv)) = work n task history (record s { kv = kv })
  work_started task history s (raise e) = finish (raised e) s

  -- The body of the `for` loop.
  round : Text → List GateResult → State W → Round W
  round task history s =
      if leb job.policy.max_run_cost_usd (total_cost s.lineage job.run_id)
      then over_budget history s
      else work_started task history s (start_attempt s)

  -- After the last rejection. With no attempt at all `history[-1]` raises.
  give_up : List GateResult → State W → Option GateResult → Outcome × State W
  give_up history s none = (raised index_error, s)
  give_up history s (some final) =
      let reason =
        codes "rejected "
        ++ (show job.policy.max_attempts ++ (codes " times; last: " ++ final.reason)) in
      (
        escalation job.node.node_id reason history,
        log_escalation clock usd job s job.policy.max_attempts final.gate reason,
      )

  -- The loop, by the attempts left.
  attempts : ℕ → Text → List GateResult → State W → Outcome × State W
  attempts zero task history s = give_up history s (get_last history)
  attempts (suc left) task history s = elim (round task history s) [
    | finish o s' ↦ (o, s')
    | again task' history' s' ↦ attempts left task' history' s'
  ]

  pub execute_node : State W → Outcome × State W
  execute_node s = attempts job.policy.max_attempts job.node.task [] s
