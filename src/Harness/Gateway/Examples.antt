-- ===== src/Harness/Gateway/Examples.antt =====
-- society/harness/gateway.py: tests and witnesses of the gateway. A tick is a second.
use society_harness.Prelude.Dicts.{assign_at}
use society_harness.Prelude.{
  ℕ, ◌*◌, ◌≡◌, refl, Bool, true, false, codes, same, List, [], ◌∷◌, none, some, arith,
}
use society_harness.Prelude.Int.{pos, ◌+ℤ◌, ◌-ℤ◌}
use society_harness.Agentsim.Buckets.{refilled}
use society_harness.Agentsim.Buckets.Budgets
use society_harness.Agentsim.Buckets.Budgets.{BudgetBucket}
use society_harness.Agentsim.Resource.{Resource}
use society_harness.Agentsim.Resource
use society_harness.Agentsim.Resource.Provider
use society_harness.Agentsim.Ledger.{Ledger}
use society_harness.Harness.Gateway.{
  Grant, gate, Waiter, Gateway, Predictions, is_done, has_result, has_number, remove, remove_first,
}
use society_harness.Harness.Gateway.Admission.{fits, over_capacity, order, sort_by, insert_by}
use society_harness.Harness.Gateway.Grants.{
  affordable, grant_waiter, charge, use_lease, dispatch_each, dispatch,
}
use society_harness.Harness.Gateway.Release.{bill, settle, Usage}
use society_harness.Harness.Gateway.Steps.{Move, asks, hands_back, ticks}
use society_harness.Harness.Gateway.Queue.{admitted, settled, set_all, leave_all, AllTools}
use society_harness.Harness.Gateway.Fifo.{dispatch-Fifo}
use society_harness.Harness.Gateway.Turns.{FirstCome}

-- Two units of a pool.
abbrev pool : Resource
pool = record {
  name = codes "cpu";
  capacity = 2000000000;
  tier = codes "sandbox";
  api_like = false;
  rpm = none;
  background_load = 0;
  timeout_s = none;
  cost_per_call = 0;
  tokens_per_call = 0;
  used = pos 0;
  holders = [];
  waiters = [];
  calls = none;
}

abbrev tool : ℕ → ℕ → Waiter
tool fut ready = record {
  grant = record {
    sid = codes "s";
    res = codes "cpu";
    amt = 1000000000;
    kind = codes "tool";
    t_ready = ready;
    t_start = ready;
    run_id = codes "r";
    node_id = codes "n";
    agent = codes "a";
    attempt = 1;
    tenant = codes "t";
    est_tokens = 0;
    est_usd = 0;
    prepaid = 0;
  };
  fut = fut;
  est_service = 0;
  tag = 0;
}

abbrev no_leases : Ledger
no_leases = record {
  by_res = [];
  expired_total = 0;
  issued_total = 0;
  unit_s_issued = 0;
  unit_s_unused = 0;
  cpu = record { issued = 0; unused = 0 };
  budget = record { issued = 0; unused = 0 };
}

abbrev with_queue : List Waiter → Gateway
with_queue queue = record {
  policy = gate;
  names = codes "cpu" ∷ [];
  res = λ name. pool;
  budgets = λ tenant. none;
  tpm = λ name. none;
  prices = λ name. none;
  ledger = no_leases;
  waiters = λ name. queue;
  runs = λ run. none;
  tags = λ run. none;
  v_clock = 0;
  results = [];
  cancelled = [];
}

abbrev nothing_known : Predictions
nothing_known = record {
  this_cost = λ g. 0;
  weight = λ tenant. 1000000;
  reissue = λ run l. l;
  gang = λ run. false;
}

abbrev queue : List Waiter
queue = tool 1 5 ∷ tool 2 3 ∷ tool 3 4 ∷ []

-- The two that were ready first are let in.
abbrev dispatched : Gateway
dispatched = dispatch 60 3600 1 1 nothing_known 6 (codes "cpu") (with_queue queue)

first_come : settled dispatched.results ≡ 3 ∷ 2 ∷ []
unfolding dispatch order sort_by insert_by dispatch_each is_done has_result has_number fits
    over_capacity grant_waiter charge use_lease remove remove_first assign_at settled same
    Resource.take ◌+ℤ◌ ◌-ℤ◌ Provider.can_call
first_come = refl

all_tools : AllTools (codes "cpu") (with_queue queue) queue
unfolding is_done has_result has_number same
all_tools = ground arith

dispatch-Fifo_example :
    (turns : List Waiter) × FirstCome queue turns
    × (let in_turn = admitted 2000000000 (pos 0) turns in
        (settled dispatched.results ≡ set_all in_turn [])
        × (dispatched.waiters (codes "cpu") ≡ leave_all in_turn queue))
unfolding settled
dispatch-Fifo_example =
    dispatch-Fifo 60 3600 1 1 nothing_known 6 (codes "cpu") (with_queue queue) refl all_tools

abbrev used_one : Usage
used_one = record { tokens_in = 0; tokens_out = 0; outcome = codes "ok"; rejected = false }

abbrev moves : List (Predictions × (ℕ × Move))
moves =
    (nothing_known, (0, asks (tool 1 0)))
    ∷ (nothing_known, (1, asks (tool 2 1)))
    ∷ (nothing_known, (2, asks (tool 3 2)))
    ∷ (nothing_known, (9, hands_back (tool 1 0).grant used_one))
    ∷ (nothing_known, (10, ticks))
    ∷ []

-- A balance of 50 units that does not refill.
abbrev purse : BudgetBucket
purse = record {
  capacity = 100;
  per_hour = 0;
  level = pos (50 * 3600);
  t = 0;
  spent = pos 7;
  refused = 0;
}

abbrev prepaid_of : ℕ → ℕ
prepaid_of est = affordable 60 3600 1 1 est (Budgets.refill 3600 1 purse)

abbrev billed : ℕ → ℕ → BudgetBucket × Bool
billed est usd =
    settle 60 3600 1 1 2 usd (prepaid_of est) (Budgets.pay 3600 1 (prepaid_of est) purse)

refunds : billed 40 30 ≡ (
  record {
    capacity = 100;
    per_hour = 0;
    level = pos (20 * 3600);
    t = 2;
    spent = pos 37;
    refused = 0;
  },
  false,
)
unfolding affordable settle Budgets.refill Budgets.pay Budgets.can_pay refilled ◌+ℤ◌ ◌-ℤ◌
refunds = refl

refuses : billed 40 60 ≡ (
  record { capacity = 100; per_hour = 0; level = pos 0; t = 2; spent = pos 57; refused = 1 },
  true,
)
unfolding affordable settle Budgets.refill Budgets.pay Budgets.can_pay refilled ◌+ℤ◌ ◌-ℤ◌
refuses = refl

-- A bill of nothing is not settled, so that what was reserved stays paid.
abbrev reserved_call : Grant
reserved_call = record (tool 1 0).grant { kind = codes "chat"; est_usd = 40; prepaid = 40 }

abbrev with_purse : Gateway
with_purse = record (with_queue []) { budgets = λ tenant. some purse }

keeps_the_reservation : bill 60 3600 1 1 2 reserved_call 0 with_purse ≡ (with_purse, false)
unfolding bill
keeps_the_reservation = refl

abbrev charged_purse : Gateway
charged_purse = record with_purse { budgets = λ tenant. some (Budgets.pay 3600 1 40 purse) }

abbrev price : ℕ
price = 60
