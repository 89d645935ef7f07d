-- ===== src/Agentsim/Ledger/Expiry.antt =====
-- agentsim/resources.py: the leases that `expire` leaves (I3).
use society_harness.Prelude.{ℕ, ◌≤◌, ◌<◌, ◌≡◌, refl, Text, List, [], ◌∷◌, some, arith, ◌∙◌}
use society_harness.Agentsim.Ledger.{
  Lease, Leases, Ledger, leases_of, lease_of, active, sum_active, active_sum, unexpired,
  all_unexpired, all_expired, retire_all, retire, count_unused, expire,
}

pub by_res-retire : (lease : Lease) (now : ℕ) (l : Ledger) → (retire lease now l).by_res ≡ l.by_res
unfolding retire count_unused
by_res-retire lease now l = ground arith

by_res-retire_all :
    (now : ℕ) (leases : List Lease) (l : Ledger) → (retire_all now leases l).by_res ≡ l.by_res
unfolding retire_all
by_res-retire_all now [] l = refl
by_res-retire_all now (lease ∷ rest) l =
    by_res-retire_all now rest (retire lease now l) ∙ by_res-retire lease now l

leases_of-all_unexpired :
    (now : ℕ) (by_res : List (Text × Leases)) (res : Text)
    → leases_of (all_unexpired now by_res) res ≡ unexpired now (leases_of by_res res)
unfolding all_unexpired leases_of unexpired
leases_of-all_unexpired now [] res = refl
leases_of-all_unexpired now ((key, leases) ∷ rest) res =
    ground (arith, leases_of-all_unexpired now rest res)

leases_of-expire :
    (now : ℕ) (l : Ledger) (res : Text)
    → leases_of (expire now l).0.by_res res ≡ unexpired now (leases_of l.by_res res)
unfolding expire
leases_of-expire now l res =
    rw (by_res-retire_all now (all_expired now l.by_res) l)
      (leases_of-all_unexpired now l.by_res res)

sum_active-unexpired :
    (now t : ℕ) (leases : Leases)
    → now ≤ t
    → sum_active t (unexpired now leases) ≡ sum_active t leases
unfolding sum_active active unexpired
sum_active-unexpired now t [] l = refl
sum_active-unexpired now t ((sid, lease) ∷ rest) l =
    ground (arith, sum_active-unexpired now t rest l)

unexpired-live :
    (now : ℕ) (leases : Leases) (sid : Text) (lease : Lease)
    → lease_of (unexpired now leases) sid ≡ some lease
    → now < lease.expiry
unfolding unexpired lease_of
unexpired-live now [] sid lease e = cc
unexpired-live now ((key, x) ∷ rest) sid lease e = ground (arith, unexpired-live now rest sid lease)

-- I3: after `expire` at an instant every lease that is found expires later; and at that instant and
-- from then on the active leases of every resource sum up to the same as before the call.
pub expire-Live :
    (now : ℕ) (l : Ledger) (res : Text)
    → ((sid : Text) (lease : Lease)
        → lease_of (leases_of (expire now l).0.by_res res) sid ≡ some lease
        → now < lease.expiry)
      × ((t : ℕ) → now ≤ t → active_sum (expire now l).0 res t ≡ active_sum l res t)
unfolding active_sum
expire-Live now l res = (
  λ sid lease e.
      unexpired-live now (leases_of l.by_res res) sid lease (rw (leases_of-expire now l res) at e),
  λ t later.
      rw (leases_of-expire now l res) (sum_active-unexpired now t (leases_of l.by_res res) later),
)
