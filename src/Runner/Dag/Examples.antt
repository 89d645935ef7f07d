-- ===== src/Runner/Dag/Examples.antt =====
-- society/runner/dag.py: tests and witnesses.
use society_harness.Prelude.{
  ◌+◌, ◌*◌, ◌≤◌, ◌≡◌, ◌≢◌, refl, true, Text, codes, same, mem, List, [], ◌∷◌, Option, none, some,
  arith, ◌⊎◌, inl, length,
}
use society_harness.Spec.{NodeSpec}
use society_harness.Providers.Samples.{report}
use society_harness.Gates.Executor.Types.{NodeOutcome}
use society_harness.Gates.Validator.{ids, by_id, deps_of, edge_count}
use society_harness.Gates.Validator.Examples.{good_dag, good_dag_approved}
use society_harness.Runner.Dag.{
  running, returned, completed, run_escalated, runtime_failure, RunState, set_phase, set_event,
  start, wake_from, wake, complete, fail, Step, woke, returns, raises, Reached, started, later,
  finished,
}
use society_harness.Runner.Dag.Order.{Reached-InOrder, Step-failed}
use society_harness.Runner.Dag.Progress.{CanMove, Reached-CanMove, Steps, stay, go, Steps-bound}
use society_harness.Runner.Dag.Result.{Culprit, Reached-Result}

abbrev node : Text → List Text → NodeSpec
node id deps = record {
  id = id;
  agent = codes "coder";
  task = [];
  depends_on = deps;
  inputs = [];
  outputs = [];
  tools = none;
  workspace = none;
}

abbrev api : Text
api = codes "api"

abbrev ui : Text
ui = codes "ui"

abbrev graph : List NodeSpec
graph = node api [] ∷ node ui (api ∷ []) ∷ []

abbrev outcome : NodeOutcome
outcome = record {
  node_id = api;
  output = report (codes "stub") none none;
  attempt = 1;
  gates = [];
  approved = true;
  written_keys = [];
}

abbrev or_start : Option RunState → RunState
or_start none = start graph
or_start (some s) = s

abbrev woken : Text → RunState → RunState
woken x s = or_start (wake x s)

-- `api` runs, then returns an outcome, then `ui` runs, then returns.
abbrev api_runs : RunState
api_runs = woken api (start graph)

abbrev api_done : RunState
api_done = complete api outcome api_runs

abbrev ui_runs : RunState
ui_runs = woken ui (woken ui api_done)

abbrev ui_done : RunState
ui_done = complete ui outcome ui_runs

-- Or `api` raises, and the task of `ui` returns without running.
abbrev api_failed : RunState
api_failed = fail api (runtime_failure (codes "no :current")) api_runs

abbrev ui_skipped : RunState
ui_skipped = woken ui api_failed

waits_for_api : wake ui (start graph) ≡ none
unfolding wake wake_from start deps_of by_id same
waits_for_api = refl

ui_runs-Reached : Reached graph ui_runs
unfolding wake wake_from start complete set_phase set_event deps_of by_id mem same
ui_runs-Reached =
    later
      (later (later (later started (woke api refl refl)) (returns api outcome refl refl))
        (woke ui refl refl))
      (woke ui refl refl)

ui_done-Steps : Steps graph 5 (start graph) ui_done
unfolding wake wake_from start complete set_phase set_event deps_of by_id mem same
ui_done-Steps = go (woke api refl refl) (
    go (returns api outcome refl refl)
      (go (woke ui refl refl) (go (woke ui refl refl) (go (returns ui outcome refl refl) stay))))

ui_skipped-Reached : Reached graph ui_skipped
unfolding wake wake_from start fail set_phase set_event deps_of by_id mem same
ui_skipped-Reached =
    later
      (later (later started (woke api refl refl))
        (raises api (runtime_failure (codes "no :current")) refl refl))
      (woke ui refl refl)

ui_running : ui_runs.phase ui ≡ running
unfolding wake wake_from start complete set_phase set_event deps_of by_id same
ui_running = refl

api_is_dep : mem api (deps_of graph ui) ≡ true
unfolding deps_of by_id mem same
api_is_dep = refl

ui_is_node : mem ui (ids graph) ≡ true
unfolding mem same
ui_is_node = refl

Reached-InOrder_example : mem api (finished ui_runs) ≡ true
Reached-InOrder_example = Reached-InOrder graph ui_runs-Reached ui api (inl ui_running) api_is_dep

api_failed-Step : Step graph api_failed ui_skipped
unfolding wake wake_from start fail set_phase deps_of by_id mem same
api_failed-Step = woke ui refl refl

api_failed_failed : api_failed.failed ≡ true
unfolding fail
api_failed_failed = refl

Step-failed_example :
    (ui_skipped.failed ≡ true)
    × ((y : Text) → ui_skipped.phase y ≡ running → api_failed.phase y ≡ running)
Step-failed_example = Step-failed graph api_failed-Step api_failed_failed

skipped_all : (x : Text) → mem x (ids graph) ≡ true → ui_skipped.phase x ≡ returned
unfolding wake wake_from start fail set_phase deps_of by_id mem same
skipped_all x m = ground arith

Reached-Result_example :
    ((ui_skipped.status ≡ completed)
      × ((x : Text) → mem x (ids graph) ≡ true → mem x (finished ui_skipped) ≡ true))
    ⊎ ((ui_skipped.status ≡ run_escalated) × Culprit graph ui_skipped)
Reached-Result_example = Reached-Result graph ui_skipped ui_skipped-Reached skipped_all

-- The graph of society/tests/test_gates.py, with `backend` executed.
abbrev backend : Text
backend = codes "backend"

abbrev backend_runs : RunState
backend_runs = or_start (wake backend (start good_dag))

abbrev backend_done : RunState
backend_done = complete backend outcome backend_runs

backend_done-Reached : Reached good_dag backend_done
unfolding wake wake_from start complete set_phase set_event deps_of by_id mem same
backend_done-Reached =
    later (later started (woke backend refl refl)) (returns backend outcome refl refl)

backend_done-Steps : Steps good_dag 2 (start good_dag) backend_done
unfolding wake wake_from start complete set_phase set_event deps_of by_id mem same
backend_done-Steps = go (woke backend refl refl) (go (returns backend outcome refl refl) stay)

frontend_is_node : mem (codes "frontend") (ids good_dag) ≡ true
unfolding mem same
frontend_is_node = refl

frontend_waits : backend_done.phase (codes "frontend") ≢ returned
unfolding wake wake_from start complete set_phase deps_of by_id same
frontend_waits e = cc

Reached-CanMove_example : CanMove good_dag backend_done
Reached-CanMove_example =
    Reached-CanMove good_dag [] backend_done (codes "frontend") good_dag_approved
      backend_done-Reached frontend_is_node frontend_waits

Steps-bound_example : 2 ≤ edge_count good_dag + 2 * length good_dag
Steps-bound_example = Steps-bound good_dag [] 2 backend_done good_dag_approved backend_done-Steps
