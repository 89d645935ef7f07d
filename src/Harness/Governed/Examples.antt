-- ===== src/Harness/Governed/Examples.antt =====
-- society/harness/governed.py: tests and witnesses of the governed worker. The gateway of the tests
-- refuses so many times before it grants, and counts the units that are held.
use society_harness.Prelude.{same, ◌+◌, ℕ, zero, suc, ◌-◌, ◌≡◌, ◌⊎◌, ◌∷◌, refl, codes, [], none}
use society_harness.Prelude.Results.{Exception, Result, ok, raise, value_error}
use society_harness.Json.{end}
use society_harness.Providers.Types.{NodeInput, NodeOutput}
use society_harness.Providers.Samples.{report}
use society_harness.Harness.Governed.{
  ProviderError, Answer, granted, refused, Calls, GovernedWorker, wait_of, acquire_loop, call_with,
  govern, released, Ending, returned, raised, error_output, no_use,
}
use society_harness.Harness.Governed.Units.{took, gave, noted, noting, Closed, govern-Closed}

-- Refusals left, units held and the ticks that were slept.
record Desk : Type 0 where
  refusals : ℕ
  units : ℕ
  slept : ℕ

abbrev overloaded : ProviderError
overloaded = record { kind = codes "overloaded"; retry_after = 0; message = codes "at capacity" }

abbrev ask_desk : ℕ → Desk → Answer ℕ × Desk
ask_desk zero d = (granted 7, record d { units = suc d.units })
ask_desk (suc n) d = (refused overloaded, record d { refusals = n })

abbrev desk_calls : Calls Desk ℕ
desk_calls = record {
  acquire = λ a d. ask_desk d.refusals d;
  release = λ g u d. (released, record d { units = d.units - 1 });
  sleep = λ t d. record d { slept = d.slept + t };
  uniform = λ d. (1000000, d);
}

abbrev desk : ℕ → Desk
desk refusals = record { refusals = refusals; units = 0; slept = 0 }

abbrev node : NodeInput
node = record {
  node_id = codes "n1";
  agent = codes "backend";
  system_prompt = [];
  task = [];
  context = end;
  tools = [];
  workspace = [];
  output_schema = none;
  attempt = 1;
  run_id = codes "r";
}

abbrev worker_of : Result NodeOutput → GovernedWorker Desk
worker_of result = record {
  inner = λ n d. (result, d);
  resource = codes "model.anthropic";
  tenant_of = λ run. codes "tenant0";
  name = codes "p";
  model = codes "m";
}

-- Two refusals are retried after half a second and a second.
retries : govern desk_calls 1000 (worker_of (ok (report (codes "p") none none))) node (desk 2) ≡ (
  (returned (report (codes "p") none none), 0),
  record { refusals = 0; units = 0; slept = 1500 },
)
unfolding govern acquire_loop wait_of call_with same
retries = refl

abbrev counted_errors : (Ending NodeOutput × ℕ) × Desk → ℕ
counted_errors ((result, errors), d) = errors

gives_up :
    counted_errors
      (govern desk_calls 1000 (worker_of (ok (report (codes "p") none none))) node (desk 3))
    ≡ 1
unfolding govern acquire_loop wait_of same
gives_up = refl

-- The unit goes back after two refusals, though the worker raised.
gives_back :
    (govern (noted desk_calls) 1000 (noting (worker_of (raise value_error))) node (desk 2, [])).1.1
    ≡ took 7 ∷ (gave 7 (no_use (codes "error")) ∷ [])
unfolding govern acquire_loop wait_of call_with same
gives_back = refl

govern-Closed_example :
    (let ((ending, errors), (w', log')) =
        govern (noted desk_calls) 1000 (noting (worker_of (raise value_error))) node (desk 1, []) in
      ((g : ℕ) × Closed desk_calls 1000
          (worker_of (raise value_error))
          node
          g
          (took g ∷ [])
          log'
          ending
          errors)
      ⊎ ((log' ≡ [])
          × (((e : ProviderError) × (ending
                  ≡ returned (error_output desk_calls 1000 (worker_of (raise value_error)) node e))
                × (errors ≡ 1))
              ⊎ ((e : Exception) × (ending ≡ raised e) × (errors ≡ 0)))))
govern-Closed_example =
    govern-Closed desk_calls 1000 (worker_of (raise value_error)) node (desk 1) []
