-- ===== src/Gates/Executor/Examples.antt =====
-- Runs of `execute_node` and the theorems about it: a worker whose first report is rejected.
use society_harness.Prelude.{
  ◌≡◌, refl, codes, same, mem, [], ◌∷◌, ℕ, ◌+◌, true, false, none, some, if◌then◌else◌, ltb,
}
use society_harness.Prelude.Decimal.{show, parse}
use society_harness.Prelude.Results.{ok}
use society_harness.Json.{str, num, end}
use society_harness.Memory.Kv.{
  next_attempt, attempt_numbers, attempt_number, max_or_zero, after_last, keys, like, find, delete,
  put, get, exists, put_attempt, promote, truthy, item, get_current, current_attempt, attempt_key,
  current_key, get_attempt,
}
use society_harness.Memory.Lineage.{total_cost, read, append}
use society_harness.Providers.Types.{NodeInput, NodeOutput, Worker}
use society_harness.Gates.Types.{Gate, approve, reject}
use society_harness.Gates.Executor.Types.{Job, State, Outcome, done, NodeOutcome, value}
use society_harness.Gates.Executor.Outputs.{write_outputs, promote_all, run_gates}
use society_harness.Gates.Executor.Records.{log_escalation, attempt_record, budget_reason}
use society_harness.Gates.Executor.Feedback.{no_error_gate, get_last, failures, feedback_task}
use society_harness.Gates.Executor.{
  over_budget, start_attempt, undecided, promoted, settle, conclude, judge, judge_written,
  work_started, work, round, give_up, attempts, execute_node,
}
use society_harness.Gates.Executor.Promotion.{SamePointers, KeepsAttempts}
use society_harness.Gates.Executor.Handoff.{
  is_done, execute_node-SamePointers, execute_node-KeepsAttempts, execute_node-current,
}
use society_harness.Gates.Executor.Verdicts.{ByAllGates, execute_node-ByAllGates}
use society_harness.Gates.Executor.Trail.{Grew, execute_node-Grew}

abbrev input : NodeInput
input = record {
  node_id = codes "n1";
  agent = codes "backend";
  system_prompt = [];
  task = codes "add login";
  context = end;
  tools = [];
  workspace = [];
  output_schema = none;
  attempt = 1;
  run_id = [];
}

-- The world counts the worker's calls, each of which costs 100.
abbrev report : ℕ → NodeOutput
report calls = record {
  node_id = codes "n1";
  agent = codes "backend";
  provider_name = codes "stub";
  model = codes "stub";
  text = [];
  result = some (num calls);
  files_written = [];
  input_tokens = 0;
  output_tokens = 0;
  cost_usd = 100;
  duration_ms = 1;
  error = none;
  error_kind = none;
  fallback_from = none;
}

abbrev worker : Worker ℕ
worker = record {
  name = codes "stub";
  model = codes "stub";
  run = λ node calls. (report calls, calls + 1);
}

-- Approves from the second attempt on.
abbrev second_only : Gate ℕ
second_only = record {
  name = codes "second";
  check = λ ctx w. (
    if ltb ctx.attempt 2
        then reject (codes "second") (codes "again")
        else approve (codes "second") [] end,
    w,
  );
}

abbrev job_of : ℕ → Job ℕ
job_of max_attempts = record {
  run_id = codes "r1";
  node = input;
  worker = worker;
  gates = second_only ∷ [];
  policy = record { max_attempts = max_attempts; max_run_cost_usd = 1000 };
  outputs = (codes "schema", λ out. value (str (codes "s"))) ∷ [];
}

abbrev clock : ℕ → ℕ
clock w = w

abbrev fresh : State ℕ
fresh = record { kv = []; lineage = []; world = 0 }

-- All that a call runs.
final : ℕ → Outcome
unfolding no_error_gate over_budget start_attempt undecided promoted settle conclude judge
    judge_written work_started work round give_up attempts execute_node write_outputs promote_all
    run_gates log_escalation attempt_record budget_reason get_last failures feedback_task total_cost
    read append next_attempt attempt_numbers attempt_number max_or_zero after_last keys like find
    delete put get exists put_attempt promote truthy item get_current current_attempt attempt_key
    current_key show parse same mem
final max_attempts = (execute_node clock show (job_of max_attempts) fresh).0

rejected_once : is_done (execute_node clock show (job_of 1) fresh).0 ≡ false
unfolding final
rejected_once = refl

execute_node-SamePointers_example : SamePointers [] (execute_node clock show (job_of 1) fresh).1.kv
execute_node-SamePointers_example =
    execute_node-SamePointers clock show (job_of 1) fresh rejected_once

execute_node-KeepsAttempts_example :
    KeepsAttempts [] (execute_node clock show (job_of 3) fresh).1.kv
execute_node-KeepsAttempts_example = execute_node-KeepsAttempts clock show (job_of 3) fresh

abbrev outcome_of : Outcome → NodeOutcome
outcome_of (done o) = o
outcome_of _ = record {
  node_id = [];
  output = report 0;
  attempt = 0;
  gates = [];
  approved = false;
  written_keys = [];
}

second_outcome : NodeOutcome
unfolding final
second_outcome = outcome_of (execute_node clock show (job_of 3) fresh).0

second_done : (execute_node clock show (job_of 3) fresh).0 ≡ done second_outcome
unfolding second_outcome
second_done = refl

second_attempt : second_outcome.attempt ≡ 2
unfolding second_outcome
second_attempt = refl

schema_listed : mem (codes "schema") (codes "schema" ∷ []) ≡ true
unfolding final
schema_listed = refl

schema_written :
    exists
      (execute_node clock show (job_of 3) fresh).1.kv
      (attempt_key (codes "r1") (codes "backend") (codes "schema") second_outcome.attempt)
    ≡ true
unfolding second_outcome
schema_written = refl

execute_node-current_example :
    let kv = (execute_node clock show (job_of 3) fresh).1.kv in
    (get_current kv (codes "r1") (codes "backend") (codes "schema")
      ≡ ok (get_attempt kv (codes "r1") (codes "backend") (codes "schema") second_outcome.attempt))
    × (current_attempt kv (codes "r1") (codes "backend") (codes "schema")
        ≡ ok (num second_outcome.attempt))
execute_node-current_example =
    execute_node-current clock show (job_of 3) fresh second_outcome (codes "schema") second_done
      schema_listed schema_written

execute_node-ByAllGates_example :
    ByAllGates clock show (job_of 3) (execute_node clock show (job_of 3) fresh).0
execute_node-ByAllGates_example = execute_node-ByAllGates clock show (job_of 3) fresh

execute_node-Grew_example :
    Grew clock show (job_of 3) 4 [] (execute_node clock show (job_of 3) fresh).1.lineage
execute_node-Grew_example = execute_node-Grew clock show (job_of 3) fresh
