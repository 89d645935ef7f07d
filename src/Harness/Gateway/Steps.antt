-- ===== src/Harness/Gateway/Steps.antt =====
-- society/harness/gateway.py: the gateway as it runs, one move at a time between two awaits.
use society_harness.Prelude.{ℕ, Bool, Text, List, [], ◌∷◌}
use society_harness.Prelude.Results.{Result, ok, raise}
use society_harness.Agentsim.Ledger.{expire}
use society_harness.Harness.Gateway.{NodeRef, Grant, Waiter, Gateway, Predictions, remove}
use society_harness.Harness.Gateway.Grants.{dispatch_all, acquire, cancel}
use society_harness.Harness.Gateway.Release.{Usage, note_verdict, run_start, release, run_end}

pub data Move : Type 0 where
  asks : Waiter → Move
  gives_up : Waiter → Move
  sees_end : Waiter → Move
  hands_back : Grant → Usage → Move
  verdict : Text → Text → Bool → Move
  starts : Text → Text → List (Text × NodeRef) → Move
  ends : Text → Text → Move
  ticks : Move

abbrev pub state_or : Gateway → Result (Gateway × (ℕ × Bool)) → Gateway
state_or s (ok (s', charged)) = s'
state_or s (raise e) = s

module _ (minute hour second milli : ℕ) where
  unfoldable pub advance : Predictions → ℕ → Move → Gateway → Gateway
  advance p now (asks w) s = (acquire minute hour second milli p now w s).0
  advance p now (gives_up w) s = cancel w s
  advance p now (sees_end w) s = remove w s
  advance p now (hands_back g u) s = state_or s (release minute hour second milli p now g u s)
  advance p now (verdict run_id node approved) s = note_verdict p run_id node approved s
  advance p now (starts run_id tenant nodes) s = run_start p now run_id tenant nodes s
  advance p now (ends run_id status) s = run_end minute hour second milli p now run_id status s
  advance p now ticks s =
      dispatch_all minute hour second milli p now (record s { ledger = (expire now s.ledger).0 })

  -- Each move has its time and what is predicted then.
  unfoldable pub advance_all : List (Predictions × (ℕ × Move)) → Gateway → Gateway
  advance_all [] s = s
  advance_all ((p, (now, move)) ∷ rest) s = advance_all rest (advance p now move s)
