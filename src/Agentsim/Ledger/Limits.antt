-- ===== src/Agentsim/Ledger/Limits.antt =====
-- agentsim/resources.py and agentsim/reserver.py: the sums of the leases after one is issued (I1).
use society_harness.Prelude.{
  ℕ, ◌+◌, ◌-◌, ◌≤◌, ◌<◌, ◌≡◌, Text, same, same_iff, List, [], ◌∷◌, ◌++◌, ◌&&◌, ◌*◌, ◌≢◌, arith,
  if◌then◌else◌,
}
use society_harness.Agentsim.Ledger.{
  Lease, Leases, Ledger, leases_of, active, sum_active, active_sum, insert, issue, count_issued,
}
use society_harness.Agentsim.Ledger.Peak.{active_max-peak}
use society_harness.Agentsim.Ledger.Reserved.{fits}

sum_active-append :
    (t : ℕ) (leases : Leases) (sid : Text) (lease : Lease)
    → sum_active t (leases ++ (sid, lease) ∷ [])
      ≡ sum_active t leases + (if active t lease then lease.amt else 0)
unfolding sum_active
sum_active-append t [] sid lease = ground arith
sum_active-append t ((s, x) ∷ rest) sid lease = ground (arith, sum_active-append t rest sid lease)

sum_active-insert :
    (t : ℕ) (lease : Lease) (by_res : List (Text × Leases)) (res : Text)
    → sum_active t (leases_of (insert lease by_res) res)
      ≡ sum_active t (leases_of by_res res)
        + (if same lease.res res && active t lease then lease.amt else 0)
unfolding insert leases_of sum_active
sum_active-insert t lease [] res = ground arith
sum_active-insert t lease ((key, leases) ∷ rest) res = ground (
  arith,
  same_iff key lease.res,
  same_iff key res,
  same_iff lease.res res,
  sum_active-append t leases lease.sid lease,
  sum_active-insert t lease rest res,
)

pub by_res-count_issued :
    (res : Text) (n : ℕ) (l : Ledger) → (count_issued res n l).by_res ≡ l.by_res
unfolding count_issued
by_res-count_issued res n l = ground arith

-- What the lease adds at an instant.
active_sum-issue :
    (l : Ledger) (lease : Lease) (res : Text) (t : ℕ)
    → active_sum (issue lease l) res t
      ≡ active_sum l res t + (if same lease.res res && active t lease then lease.amt else 0)
unfolding active_sum issue
active_sum-issue l lease res t =
    rw (by_res-count_issued lease.res (lease.amt * (lease.expiry - lease.start)) l)
      (sum_active-insert t lease l.by_res res)

-- I1: if the leases on a resource never exceed its capacity, and the new lease on it asks for no more
-- than `_fits` allows over its own interval, then the leases on it never exceed the capacity after the
-- lease is issued; and the leases on other resources sum up to the same as before.
pub issue-AtMost :
    (l : Ledger) (lease : Lease) (capacity wanted : ℕ)
    → ((t : ℕ) → active_sum l lease.res t ≤ capacity)
    → lease.start < lease.expiry
    → lease.amt ≤ fits l lease.res capacity wanted lease.start lease.expiry
    → ((t : ℕ) → active_sum (issue lease l) lease.res t ≤ capacity)
      × ((res : Text) (t : ℕ)
          → res ≢ lease.res
          → active_sum (issue lease l) res t ≡ active_sum l res t)
unfolding fits active
issue-AtMost l lease capacity wanted within some_time small =
    let (bound, attained) = active_max-peak l lease.res lease.start lease.expiry some_time in
    (
      λ t. ground (arith, active_sum-issue l lease lease.res t, bound t, within t),
      λ res t other. ground (arith, active_sum-issue l lease res t, same_iff lease.res res),
    )
