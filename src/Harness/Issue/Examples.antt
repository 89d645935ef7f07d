-- ===== src/Harness/Issue/Examples.antt =====
-- society/harness/gateway.py: a run of `_issue`. On a pool of four units the run `A` holds them on
-- [0, 10) and `B` on [20, 30); a lease of `A` on [5, 30) is kept at 5.
use society_harness.Prelude.{◌≡◌, refl, false, Text, codes, same, mem, [], ◌∷◌, Option, none, ℕ}
use society_harness.Prelude.Int.{pos, ◌+ℤ◌, ◌-ℤ◌}
use society_harness.Prelude.Results.{Exception, Result, ok, raise}
use society_harness.Agentsim.Resource.{Resource}
use society_harness.Agentsim.Ledger.{
  Lease, Ledger, leases_of, lease_of, active_max, active_sum, sum_active, active, meeting, peak,
  starts, largest_sum, set_session, take_out, retire_old, retire, count_unused, without_session,
  without, issue_all, issue, insert, count_issued, ends_with,
}
use society_harness.Agentsim.Ledger.Reserved.{own}
use society_harness.Agentsim.Ledger.Checks.{limit, base, resource_named}
use society_harness.Harness.Issue.{others, has_room, keep, issue_leases}

abbrev cpu : Text
cpu = codes "sandbox.cpu"

abbrev pool : Resource
pool = record {
  name = cpu;
  capacity = 4000000000;
  tier = codes "sandbox";
  api_like = false;
  rpm = none;
  background_load = 0;
  timeout_s = none;
  cost_per_call = 0;
  tokens_per_call = 0;
  used = pos 0;
  holders = [];
  waiters = [];
  calls = none;
}

abbrev lease : Text → ℕ → ℕ → Lease
lease sid start expiry = record {
  sid = sid;
  res = cpu;
  amt = 4000000000;
  start = start;
  expiry = expiry;
}

abbrev ledger : Ledger
ledger = record {
  by_res =
      (cpu, (codes "A", lease (codes "A") 0 10) ∷ (codes "B", lease (codes "B") 20 30) ∷ []) ∷ [];
  expired_total = 0;
  issued_total = 2;
  unit_s_issued = 80000000000;
  unit_s_unused = 0;
  cpu = record { issued = 80000000000; unused = 0 };
  budget = record { issued = 0; unused = 0 };
}

abbrev ledger_of : Result (Ledger × Option Exception) → Ledger
ledger_of (ok (l, e)) = l
ledger_of (raise e) = ledger

leased_twice_over :
    active_sum
      (ledger_of
        (issue_leases ((cpu, pool) ∷ []) (codes "A") (lease (codes "A") 5 30 ∷ []) 5 ledger))
      cpu
      20
    ≡ 8000000000
unfolding issue_leases keep has_room others limit base resource_named own active_max leases_of
    lease_of active_sum sum_active active meeting peak starts largest_sum set_session take_out
    retire_old retire count_unused without_session without issue_all issue insert count_issued
    ends_with mem same ◌+ℤ◌ ◌-ℤ◌
leased_twice_over = refl
