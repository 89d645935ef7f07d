-- ===== src/Agentsim/Resource/Examples.antt =====
-- agentsim/resources.py: tests and witnesses of `Resource`.
use society_harness.Prelude.{◌≤◌, ◌≡◌, refl, false, codes, same, List, [], ◌∷◌, none, some, arith}
use society_harness.Prelude.Int.{pos, ◌+ℤ◌, ◌-ℤ◌}
use society_harness.Prelude.Results.{Result, ok, raise, runtime_error}
use society_harness.Agentsim.Resource.{
  Resource, held_by, set_holder, delete_holder, take, give, release, total, allowance, check, Call,
  takes, gives, after_calls,
}
use society_harness.Agentsim.Resource.Accounting.{give_count, after_calls-check}

abbrev pool : Resource
pool = record {
  name = codes "sandbox.cpu";
  capacity = 8000000000;
  tier = codes "sandbox";
  api_like = false;
  rpm = none;
  background_load = 0;
  timeout_s = none;
  cost_per_call = 0;
  tokens_per_call = 0;
  used = pos 0;
  holders = [];
  waiters = [];
  calls = none;
}

abbrev calls : List Call
calls =
    takes (codes "A") 3000000000
    ∷ takes (codes "B") 2000000000
    ∷ gives (codes "A") (some 1000000000)
    ∷ gives (codes "B") none
    ∷ []

abbrev or_pool : Result Resource → Resource
or_pool (ok r) = r
or_pool (raise e) = pool

abbrev afterwards : Resource
afterwards = or_pool (after_calls calls pool)

calls_return : after_calls calls pool ≡ ok afterwards
unfolding after_calls take give release held_by set_holder delete_holder same ◌+ℤ◌ ◌-ℤ◌
calls_return = refl

a_keeps_two : afterwards.holders ≡ (codes "A", 2000000000) ∷ []
unfolding after_calls take give release held_by set_holder delete_holder same ◌+ℤ◌ ◌-ℤ◌
a_keeps_two = refl

refuses_a_stranger : give (codes "C") none afterwards ≡ raise runtime_error
unfolding after_calls take give release held_by set_holder delete_holder same ◌+ℤ◌ ◌-ℤ◌
refuses_a_stranger = refl

exact_at_first : pool.used ≡ pos (total pool.holders)
unfolding total
exact_at_first = refl

two_give : give_count calls ≤ allowance
unfolding give_count
two_give = omega arith

after_calls-check_example : check afterwards ≡ ok afterwards
after_calls-check_example =
    after_calls-check calls pool afterwards exact_at_first two_give calls_return
