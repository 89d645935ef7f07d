-- ===== src/Memory/Lineage.antt =====
-- society/memory/lineage.py: the audit trail. The file's lines are a list of records, oldest first;
-- money is counted in whole units of 10^-9 USD.
use society_harness.Prelude.{
  ℕ, ◌+◌, ◌≡◌, Bool, true, false, Text, same, List, [], ◌∷◌, ◌++◌, Option, none, some,
  if◌then◌else◌, arith,
}

pub data Verdict : Type 0 where
  approved rejected abstained escalated error : Verdict

abbrev pub is_approved : Verdict → Bool
is_approved approved = true
is_approved _ = false

pub record LineageRecord : Type 0 where
  pub ts : ℕ
  pub run_id : Text
  pub node_id : Text
  pub agent : Text
  pub attempt : ℕ
  pub provider : Text
  pub model : Text
  pub fallback_from : Option Text
  pub inputs_read : List Text
  pub outputs_written : List Text
  pub files_written : List Text
  pub gate : Text
  pub verdict : Option Verdict
  pub confidence : Option ℕ
  pub reason : Text
  pub input_tokens : ℕ
  pub output_tokens : ℕ
  pub cost_usd : ℕ
  pub duration_ms : ℕ
  pub started_at : Option ℕ
  pub finished_at : Option ℕ
  pub error : Option Text
  pub text_tail : Text

abbrev pub Log : Type 0
Log = List LineageRecord

unfoldable pub append : Log → LineageRecord → Log
append log rec = log ++ rec ∷ []

abbrev wanted : Option Text → LineageRecord → Bool
wanted none rec = true
wanted (some run) rec = same rec.run_id run

unfoldable pub read : Log → Option Text → List LineageRecord
read [] run = []
read (rec ∷ log) run = if wanted run rec then rec ∷ read log run else read log run

abbrev sum_cost : List LineageRecord → ℕ
sum_cost [] = 0
sum_cost (rec ∷ recs) = rec.cost_usd + sum_cost recs

unfoldable pub total_cost : Log → Text → ℕ
total_cost log run = sum_cost (read log (some run))

-- A new record adds its cost to its own run and to no other.
pub total_cost-append :
    (log : Log) (rec : LineageRecord) (run : Text)
    → total_cost (append log rec) run
      ≡ total_cost log run + (if same rec.run_id run then rec.cost_usd else 0)
unfolding total_cost append read
total_cost-append [] rec run = ground arith
total_cost-append (r ∷ log) rec run = ground (arith, total_cost-append log rec run)
