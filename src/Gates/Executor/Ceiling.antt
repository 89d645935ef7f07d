-- ===== src/Gates/Executor/Ceiling.antt =====
-- society/gates/executor.py: the ceiling on the cost of a run.
use society_harness.Prelude.{ℕ, ◌+◌, ◌<◌, Text, [], ◌∷◌, ◌++◌, none, ◌≡◌, ◌≢◌, ◌⊎◌}
use society_harness.Memory.Lineage.{Log}
use society_harness.Gates.Executor.Types.{Job}
use society_harness.Gates.Executor.{Round, finish, again}

-- `n` is what the records of `run` cost together.
abbrev pub Spent : Text → Log → ℕ → Type 0
Spent run [] n = n ≡ 0
Spent run (r ∷ rs) n =
    (m : ℕ) × Spent run rs m
    × (((r.run_id ≡ run) × (n ≡ r.cost_usd + m)) ⊎ ((r.run_id ≢ run) × (n ≡ m)))

module _ {W : Type 0} (clock : W → ℕ) (usd : ℕ → Text) (job : Job W) where
  -- The records of the run cost less than the ceiling.
  abbrev pub Under : Log → Type 0
  Under log = (n : ℕ) × Spent job.run_id log n × (n < job.policy.max_run_cost_usd)

  -- Of the records `new` behind `log`, each of an attempt stands behind records that cost less than the
  -- ceiling: an attempt has a time at which it started, and an escalation has none.
  abbrev pub InBudget : Log → Log → Type 0
  InBudget log [] = Unit {0}
  InBudget log (r ∷ rs) = (r.started_at ≢ none → Under log) × InBudget (log ++ r ∷ []) rs

  abbrev pub Kept : Log → Log → Type 0
  Kept log log' = (new : Log) × (log' ≡ log ++ new) × InBudget log new

  abbrev RoundKept : Log → Round W → Type 0
  RoundKept log (finish o s) = Kept log s.lineage
  RoundKept log (again task history s) = Kept log s.lineage
