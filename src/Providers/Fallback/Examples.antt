-- ===== src/Providers/Fallback/Examples.antt =====
-- society/providers/fallback.py: tests and witnesses. The world counts the calls of a worker.
use society_harness.Prelude.{ℕ, ◌≡◌, ◌↔◌, ◌⊎◌, refl, true, codes, [], none, some}
use society_harness.Prelude.Decimal.{show}
use society_harness.Json.{end}
use society_harness.Providers.Types.{NodeInput, provider}
use society_harness.Providers.Samples.{worker}
use society_harness.Providers.Fallback.{
  FallbackWorker, is_provider, run, secondary_first, primary_first, Switched, BothFail,
  run-BothFail,
}

abbrev input : ℕ → NodeInput
input attempt = record {
  node_id = codes "n1";
  agent = codes "backend";
  system_prompt = [];
  task = codes "add login";
  context = end;
  tools = [];
  workspace = [];
  output_schema = none;
  attempt = attempt;
  run_id = [];
}

-- The primary is rate limited; the secondary works and goes first from the third attempt on.
abbrev limited : FallbackWorker ℕ
limited = record {
  primary = worker (codes "openai") (some (codes "429")) (some provider);
  secondary = worker (codes "ollama") none none;
  switch_from_attempt = some 3;
}

falls_back : (run limited (input 1) 0).0.fallback_from ≡ some (codes "openai:m — 429")
unfolding run primary_first
falls_back = refl

switches_late : (run limited (input 3) 0).0.fallback_from ≡ some (codes "openai:m (attempt 3)")
unfolding run secondary_first show
switches_late = refl

calls_both : (run limited (input 1) 0).1 ≡ 2
unfolding run primary_first
calls_both = refl

run-BothFail_example : (is_provider (run limited (input 3) 0).0.error_kind ≡ true) ↔ (
    (Switched limited (input 3) × BothFail limited (input 3) limited.secondary limited.primary 0)
    ⊎ ((Switched limited (input 3) → ⊥)
        × BothFail limited (input 3) limited.primary limited.secondary 0))
run-BothFail_example = run-BothFail limited (input 3) 0
