-- ===== src/Agentsim/Control/Examples.antt =====
-- agentsim/control.py: tests and witnesses of the feedback loop.
use society_harness.Prelude.{
  ◌/◌, ◌*◌, ◌≡◌, refl, true, Text, codes, same, List, [], ◌∷◌, none, arith,
}
use society_harness.Prelude.Dicts.{lookup, value_or, assign_at}
use society_harness.Prelude.Int.{pos, ◌+ℤ◌, ◌-ℤ◌, ◌*ℤ◌}
use society_harness.Prelude.Results.{ok}
use society_harness.Agentsim.Control.{
  Loop, Reading, unit, make, make_pi, update, demand_error, corrected, paced, sample, sample_each,
  set_prediction, tick_now, tick_resources, tick_budgets,
}
use society_harness.Agentsim.Control.Fairness.{fair_weight}
use society_harness.Agentsim.Control.Bounds.{
  InBounds, Call, predicts, ticks_now, after, after_all, after_all-Bounds,
}

abbrev loop : Loop
loop = record {
  res = codes "cpu" ∷ [];
  budgets = codes "usd" ∷ [];
  tick = 30;
  enabled = true;
  scale = λ name. make_pi 600000 150000 (unit / 2) (2 * unit);
  occ_int = λ name. pos 0;
  last_t = 0;
  tick_start = 0;
  predicted = λ name. none;
  floor = λ name. 100000000;
  refused_seen = λ name. 0;
  fair_w = [];
  served = [];
  ticks = 0;
}

made : make (codes "cpu" ∷ []) (codes "usd" ∷ []) 30 true 600000 150000 ≡ ok loop
unfolding make
made = refl

-- Four units, of which two are used where one was predicted.
abbrev world : Text → Reading
world name = record { capacity = 4; used = pos 2 }

abbrev calls : List Call
calls = predicts (codes "cpu") 1 ∷ ticks_now world (λ name. 1) 30 ∷ []

-- The error is a quarter, and the scale 1 + 0.6 / 4 + 0.15 / 4; a refusal raises the floor.
corrects :
    (((after_all calls loop).scale (codes "cpu")).x ≡ pos 1187500000000)
    × ((after_all calls loop).floor (codes "usd") ≡ 170000000)
unfolding after_all after set_prediction tick_now sample sample_each tick_resources corrected
    demand_error update tick_budgets paced make_pi assign_at same ◌+ℤ◌ ◌-ℤ◌ ◌*ℤ◌
corrects = (refl, refl)

loop-Bounds : InBounds loop
unfolding make_pi lookup value_or
loop-Bounds = (
  λ name. (refl, refl, omega arith, omega arith),
  λ name. (omega arith, omega arith),
  λ sid. (omega arith, omega arith),
)

after_all-Bounds_example : InBounds (after_all calls loop)
after_all-Bounds_example = after_all-Bounds calls loop loop-Bounds

-- A session with the mean share has the weight 1, and one with twice the mean 1.5.
mean_share : (fair_weight 500000 4 40 10 ≡ 1000000) × (fair_weight 500000 4 40 20 ≡ 1500000)
unfolding fair_weight ◌+ℤ◌ ◌-ℤ◌ ◌*ℤ◌
mean_share = (refl, refl)
