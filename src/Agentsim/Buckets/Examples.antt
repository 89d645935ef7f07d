-- ===== src/Agentsim/Buckets/Examples.antt =====
-- agentsim/resources.py: tests and witnesses of the buckets. A tick is a second here, and an amount
-- a whole unit.
use society_harness.Prelude.{ℕ, ◌+◌, ◌*◌, ◌≤◌, ◌≡◌, refl, List, [], ◌∷◌, arith}
use society_harness.Prelude.Int.{pos, ◌+ℤ◌, ◌-ℤ◌}
use society_harness.Prelude.Results.{ok, raise, value_error}
use society_harness.Agentsim.Buckets.{refilled, at_least}
use society_harness.Agentsim.Buckets.Calls.{CallBucket, make, refill, can_call, take, wait_for}
use society_harness.Agentsim.Buckets.Rate.{ask, serve, serve_rate}

-- Two calls a minute.
abbrev bucket : CallBucket
bucket = record { rpm = 2; level = pos 120; t = 0 }

made : make 60 2 ≡ ok bucket
unfolding make
made = refl

no_rate : make 60 0 ≡ raise value_error
unfolding make
no_rate = refl

-- The tolerance is a whole call here, so that the level may fall to -60.
abbrev asks : List (ℕ × ℕ)
asks = (0, 2) ∷ (1, 2) ∷ (30, 1) ∷ (90, 2) ∷ []

served : serve 60 asks bucket ≡ (record { rpm = 2; level = pos 0; t = 90 }, 5)
unfolding serve ask can_call take refill refilled ◌+ℤ◌ ◌-ℤ◌
served = refl

waits : (wait_for 60 1 10 1 (take 60 0 2 bucket)).1 ≡ record { num = 40; den = 2 }
unfolding wait_for take refill refilled at_least ◌+ℤ◌ ◌-ℤ◌
waits = refl

serve_rate_example : (serve 60 asks bucket).1 * 60 + 0 ≤ 120 + (serve 60 asks bucket).0.t * 2 + 60
serve_rate_example = serve_rate 60 asks bucket (omega arith) (omega arith) (ground arith)
