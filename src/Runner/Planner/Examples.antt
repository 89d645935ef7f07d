-- ===== src/Runner/Planner/Examples.antt =====
-- society/runner/planner.py: tests and witnesses of the planner.
use society_harness.Prelude.{ℕ, suc, ◌≡◌, ◌↔◌, refl, codes, [], ◌∷◌, none, some}
use society_harness.Json.{Json, null}
use society_harness.Spec.{DagSpec}
use society_harness.Providers.Types.{Worker}
use society_harness.Providers.Samples.{report, worker}
use society_harness.Runner.Planner.{
  Parsed, parsed, invalid, Planner, planner_input, plan, read_answer, parsed_plan,
}
use society_harness.Runner.Planner.Plans.{Answers, plan_iff}

abbrev lonely : DagSpec
lonely = record {
  goal = codes "g";
  nodes =
      record {
        id = codes "a";
        agent = codes "a";
        task = [];
        depends_on = [];
        inputs = [];
        outputs = [];
        tools = none;
        workspace = none;
      }
      ∷ [];
}

-- A worker that answers with some result.
abbrev answering : Worker ℕ
answering = record {
  name = codes "p";
  model = codes "m";
  run = λ node calls. (record (report (codes "p") none none) { result = some null }, suc calls);
}

abbrev planner_of : Worker ℕ → Planner ℕ
planner_of w = record { worker = w; agents = []; descriptions = []; workspace = codes "/w" }

abbrev accepts : Json → Parsed
accepts result = parsed lonely

silent :
    (plan accepts (planner_of (worker (codes "p") none none)) (codes "g") 0).0
    ≡ (none, codes "planner returned no structured output")
unfolding plan read_answer
silent = refl

failing :
    (plan accepts (planner_of (worker (codes "p") (some (codes "down")) none)) (codes "g") 0).0
    ≡ (none, codes "planner error: down")
unfolding plan read_answer
failing = refl

malformed :
    (plan (λ result. invalid (codes "no nodes")) (planner_of answering) (codes "g") 0).0
    ≡ (none, codes "plan failed schema validation: no nodes")
unfolding plan read_answer parsed_plan
malformed = refl

plan_iff_example :
    ((plan accepts (planner_of answering) (codes "g") 0).0.0 ≡ some lonely)
    ↔ Answers accepts (answering.run (planner_input (planner_of answering) (codes "g")) 0).0 lonely
plan_iff_example = plan_iff accepts (planner_of answering) (codes "g") 0 lonely
