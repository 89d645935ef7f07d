-- ===== src/Harness/Gateway.antt =====
-- society/harness/gateway.py: the state of the gateway. A dict is a function of its keys, and the
-- resources stand beside the list of their names. A future is a number: `results` holds those that a
-- grant was set on, and `cancelled` those that a timeout or the caller gave up. Money and tokens are in
-- units of 10^-9, times in ticks, a price is that of one token. What is learned (the brain, the forecast
-- and the loop's weights) comes with each call as `Predictions`; counters of decisions and the event
-- stream are left out.
pub mod Admission
pub mod Grants
pub mod Release
pub mod Steps
pub mod Uses
pub mod Dispatching
pub mod Capacity
pub mod Billing
pub mod Turns
pub mod Queue
pub mod Fifo
mod Examples
use society_harness.Prelude.{
  ℕ, ◌*◌, max, Bool, true, false, ◌||◌, Text, codes, same, mem, List, [], ◌∷◌, Option, none, some,
  if◌then◌else◌, ◌==◌,
}
use society_harness.Prelude.Dicts.{assign_at}
use society_harness.Agentsim.Buckets.Tokens.{TokenBucket}
use society_harness.Agentsim.Buckets.Budgets.{BudgetBucket}
use society_harness.Agentsim.Resource.{Resource}
use society_harness.Agentsim.Ledger.{Ledger}

pub data Policy : Type 0 where
  off gate needs oracle : Policy

-- `policy in ("needs", "oracle")`
abbrev pub predicts : Policy → Bool
predicts off = false
predicts gate = false
predicts needs = true
predicts oracle = true

pub record NodeRef : Type 0 where
  pub id : Text
  pub agent : Text
  pub res : Text
  pub deps : List Text
  pub paid : Bool

pub record RunState : Type 0 where
  pub run_id : Text
  pub tenant : Text
  pub nodes : List (Text × NodeRef)
  pub started : ℕ
  pub done : List Text
  pub attempts : List (Text × ℕ)
  pub spent : ℕ
  pub inflight : List Text
  pub judging : List Text
  pub status : Text
  pub gang_open : Bool
  pub service : List (Text × ℕ)

pub record Grant : Type 0 where
  pub sid : Text
  pub res : Text
  pub amt : ℕ
  pub kind : Text
  pub t_ready : ℕ
  pub t_start : ℕ
  pub run_id : Text
  pub node_id : Text
  pub agent : Text
  pub attempt : ℕ
  pub tenant : Text
  pub est_tokens : ℕ
  pub est_usd : ℕ
  pub prepaid : ℕ

pub record Waiter : Type 0 where
  pub grant : Grant
  pub fut : ℕ
  pub est_service : ℕ
  pub tag : ℕ

pub record Gateway : Type 0 where
  pub policy : Policy
  pub names : List Text
  pub res : Text → Resource
  pub budgets : Text → Option BudgetBucket
  pub tpm : Text → Option TokenBucket
  pub prices : Text → Option (ℕ × ℕ)
  pub ledger : Ledger
  pub waiters : Text → List Waiter
  pub runs : Text → Option RunState
  pub tags : Text → Option ℕ
  pub v_clock : ℕ
  pub results : List (ℕ × Grant)
  pub cancelled : List ℕ

-- What the brain and the loop say at the time of a call: the cost of the waiter's own attempt, the
-- weight of a tenant in millionths, the ledger after the leases of a run were reissued, and whether the
-- first nodes of a run were scheduled together.
pub record Predictions : Type 0 where
  pub this_cost : Grant → ℕ
  pub weight : Text → ℕ
  pub reissue : Text → Ledger → Ledger
  pub gang : Text → Bool

abbrev pub is_chat : Grant → Bool
is_chat g = same g.kind (codes "chat")

unfoldable pub has_result : ℕ → List (ℕ × Grant) → Bool
has_result fut [] = false
has_result fut ((f, g) ∷ rest) = f == fut || has_result fut rest

unfoldable pub has_number : ℕ → List ℕ → Bool
has_number fut [] = false
has_number fut (f ∷ rest) = f == fut || has_number fut rest

-- `w.fut.done()`
unfoldable pub is_done : Waiter → Gateway → Bool
is_done w s = has_result w.fut s.results || has_number w.fut s.cancelled

-- `list.remove`: the first waiter that is equal, which by its future is the same one.
unfoldable pub remove_first : ℕ → List Waiter → List Waiter
remove_first fut [] = []
remove_first fut (w ∷ ws) = if w.fut == fut then ws else w ∷ remove_first fut ws

unfoldable pub remove : Waiter → Gateway → Gateway
remove w s = record s {
  waiters = assign_at w.grant.res (remove_first w.fut (s.waiters w.grant.res)) s.waiters;
}
