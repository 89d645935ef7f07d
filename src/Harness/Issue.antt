-- ===== src/Harness/Issue.antt =====
-- society/harness/gateway.py: `_issue`, which hands the leases of a run to the ledger. The gateway's
-- resources are a list of pairs, and its other state is left out.
mod Examples
use society_harness.Prelude.{
  ℕ, ◌+◌, Bool, true, false, not, Text, List, [], ◌∷◌, Option, if◌then◌else◌, leb,
}
use society_harness.Prelude.Int.{ℤ, pos, ◌+ℤ◌, ◌-ℤ◌, ltb_ℤ}
use society_harness.Prelude.Results.{Exception, Result, ok, raise, ◌>>=◌}
use society_harness.Agentsim.Resource.{Resource}
use society_harness.Agentsim.Ledger.{Lease, Ledger, active_max, set_session}
use society_harness.Agentsim.Ledger.Reserved.{own}
use society_harness.Agentsim.Ledger.Checks.{limit}

unfoldable pub others : Ledger → Text → ℕ → Lease → ℤ
others l run now lease =
    pos (active_max l lease.res lease.start lease.expiry)
    -ℤ pos (if leb lease.start now then own l lease.res run now else 0)

-- `others + lease.amt <= cap + 1e-9`
unfoldable pub has_room : Ledger → Text → ℕ → ℕ → Lease → Bool
unfolding others
has_room l run now cap lease = not (ltb_ℤ (pos (cap + 1)) (others l run now lease +ℤ pos lease.amt))

unfoldable pub keep : List (Text × Resource) → Ledger → Text → ℕ → List Lease → Result (List Lease)
unfolding has_room
keep resources l run now [] = ok []
keep resources l run now (lease ∷ rest) = do
  cap ← limit resources lease.res
  kept ← keep resources l run now rest
  ok (if has_room l run now cap lease then lease ∷ kept else kept)

unfoldable pub issue_leases :
    List (Text × Resource) → Text → List Lease → ℕ → Ledger → Result (Ledger × Option Exception)
issue_leases resources run leases now l = do
  kept ← keep resources l run now leases
  ok (set_session run kept now l)
