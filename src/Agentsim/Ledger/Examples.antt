-- ===== src/Agentsim/Ledger/Examples.antt =====
-- agentsim/resources.py: tests and witnesses, with leases like those of the self-test in
-- agentsim/run.py. Two sessions hold leases on a CPU pool of 6 units.
use society_harness.Prelude.{
  ℕ, ◌≤◌, ◌<◌, ◌≡◌, ◌≢◌, refl, Text, codes, same, starts_with, mem, [], ◌∷◌, none, some, arith,
  if◌then◌else◌, ◌&&◌, ◌↔◌, false, true,
}
use society_harness.Prelude.Int.{pos}
use society_harness.Prelude.Results.{Result, ok, raise, value_error, assertion_error}
use society_harness.Agentsim.Resource.{Resource}
use society_harness.Agentsim.Ledger.Checks.{
  check, limit, base, take_chars, resource_named, check_resource, any_expired,
}
use society_harness.Agentsim.Ledger.Kept.{AllKept, check_iff}
use society_harness.Agentsim.Ledger.{
  Lease, Ledger, make_lease, leases_of, lease_of, issue, issue_all, count_unused, ends_with,
  set_session, consume, consume_lease, active, sum_active, active_sum, meeting, starts, largest_sum,
  peak, active_max, expire, expired, all_expired,
}
use society_harness.Agentsim.Ledger.Reserved.{
  fits, reserved, reserved_for_others, in_family, family_holds,
}
use society_harness.Agentsim.Ledger.Peak.{active_max-peak}
use society_harness.Agentsim.Ledger.Limits.{issue-AtMost}
use society_harness.Agentsim.Ledger.Expiry.{expire-Live}
use society_harness.Agentsim.Ledger.Sessions.{held, wanted, set_session-held, consume-held}

abbrev cpu : Text
cpu = codes "sandbox.cpu"

abbrev lease : Text → ℕ → ℕ → ℕ → Lease
lease sid amt start expiry = record {
  sid = sid;
  res = cpu;
  amt = amt;
  start = start;
  expiry = expiry;
}

abbrev of_a : Lease
of_a = lease (codes "A") 4 10 70

abbrev of_b : Lease
of_b = lease (codes "B") 2 50 90

abbrev ledger : Ledger
ledger = record {
  by_res = (cpu, (codes "A", of_a) ∷ (codes "B", of_b) ∷ []) ∷ [];
  expired_total = 0;
  issued_total = 2;
  unit_s_issued = 320;
  unit_s_unused = 0;
  cpu = record { issued = 320; unused = 0 };
  budget = record { issued = 0; unused = 0 };
}

refuses_the_model_tier : make_lease (codes "C") (codes "model.kv") 1 0 10 ≡ raise value_error
unfolding make_lease same
refuses_the_model_tier = refl

peak_of_both : active_max ledger cpu 20 90 ≡ 6
unfolding active_max leases_of meeting peak largest_sum starts sum_active active same
peak_of_both = refl

keeps_from_b : reserved_for_others ledger cpu (codes "B") 20 ((codes "A/1.1", 1) ∷ []) ≡ 3
unfolding reserved_for_others reserved in_family family_holds starts_with leases_of active same
keeps_from_b = refl

keeps_nothing_from_its_family : reserved_for_others ledger cpu (codes "A/1.1") 20 [] ≡ 0
unfolding reserved_for_others reserved in_family family_holds starts_with leases_of active same
keeps_nothing_from_its_family = refl

refuses_two_on_one :
    (set_session (codes "C") (lease (codes "C") 1 0 9 ∷ lease (codes "C") 1 9 12 ∷ []) 0 ledger).1
    ≡ some value_error
unfolding set_session issue_all mem same
refuses_two_on_one = refl

active_max-peak_example :
    ((t : ℕ) → 20 ≤ t → t < 90 → active_sum ledger cpu t ≤ active_max ledger cpu 20 90)
    × ((t : ℕ) × (20 ≤ t) × (t < 90) × (active_max ledger cpu 20 90 ≡ active_sum ledger cpu t))
active_max-peak_example = active_max-peak ledger cpu 20 90 (omega arith)

-- From 70 on four units are free.
abbrev of_c : Lease
of_c = lease (codes "C") 4 70 100

never_above_six : (t : ℕ) → active_sum ledger cpu t ≤ 6
unfolding active_sum leases_of sum_active active same
never_above_six t = ground arith

of_c_fits : 4 ≤ fits ledger cpu 6 5 70 100
unfolding fits active_max leases_of meeting peak largest_sum starts sum_active active same
of_c_fits = omega arith

issue-AtMost_example :
    ((t : ℕ) → active_sum (issue of_c ledger) cpu t ≤ 6)
    × ((res : Text) (t : ℕ)
        → res ≢ cpu
        → active_sum (issue of_c ledger) res t ≡ active_sum ledger res t)
issue-AtMost_example = issue-AtMost ledger of_c 6 5 never_above_six (omega arith) of_c_fits

expires_one : (expire 70 ledger).1 ≡ 1
unfolding expire all_expired expired
expires_one = refl

expire-Live_example :
    ((sid : Text) (x : Lease)
      → lease_of (leases_of (expire 70 ledger).0.by_res cpu) sid ≡ some x
      → 70 < x.expiry)
    × ((t : ℕ) → 70 ≤ t → active_sum (expire 70 ledger).0 cpu t ≡ active_sum ledger cpu t)
expire-Live_example = expire-Live 70 ledger cpu

replaces_a : (set_session (codes "A") (lease (codes "A") 1 20 30 ∷ []) 15 ledger).1 ≡ none
unfolding set_session issue_all mem same
replaces_a = refl

set_session-held_example :
    held
      (set_session (codes "A") (lease (codes "A") 1 20 30 ∷ []) 15 ledger).0.by_res
      cpu
      (codes "B")
    ≡ (if same (codes "A") (codes "B")
        then wanted (lease (codes "A") 1 20 30 ∷ []) cpu
        else held ledger.by_res cpu (codes "B"))
set_session-held_example =
    set_session-held (codes "A") (lease (codes "A") 1 20 30 ∷ []) 15 ledger cpu (codes "B")
      replaces_a

abbrev or_ledger : Result Ledger → Ledger
or_ledger (ok l) = l
or_ledger (raise e) = ledger

abbrev consumed : Ledger
consumed = or_ledger (consume (codes "B") cpu 60 ledger)

b_consumes : consume (codes "B") cpu 60 ledger ≡ ok consumed
unfolding consume consume_lease leases_of lease_of same
b_consumes = refl

waited_ten_ticks_for_two_units : consumed.unit_s_unused ≡ 20
unfolding consume consume_lease count_unused ends_with leases_of lease_of same
waited_ten_ticks_for_two_units = refl

consume-held_example :
    ((x : Lease) × (held ledger.by_res cpu (codes "B") ≡ some x))
    × ((res' other : Text)
        → held consumed.by_res res' other ≡ (
            if same cpu res' && same (codes "B") other
            then none
            else held ledger.by_res res' other))
consume-held_example = consume-held (codes "B") cpu 60 ledger consumed b_consumes

abbrev pool : Resource
pool = record {
  name = cpu;
  capacity = 6;
  tier = codes "sandbox";
  api_like = false;
  rpm = none;
  background_load = 0;
  timeout_s = none;
  cost_per_call = 0;
  tokens_per_call = 0;
  used = pos 0;
  holders = [];
  waiters = [];
  calls = none;
}

a_has_expired : check ((cpu, pool) ∷ []) 70 ledger.by_res ≡ raise assertion_error
unfolding check limit base resource_named ends_with check_resource any_expired sum_active active
    same
a_has_expired = refl

has_no_call_budget : limit ((cpu, pool) ∷ []) (codes "sandbox.cpu@rpm") ≡ raise value_error
unfolding limit base resource_named ends_with take_chars same
has_no_call_budget = refl

check_iff_example :
    (check ((cpu, pool) ∷ []) 60 ledger.by_res ≡ ok true)
    ↔ AllKept ((cpu, pool) ∷ []) 60 ledger.by_res
check_iff_example = check_iff ((cpu, pool) ∷ []) 60 ledger.by_res
