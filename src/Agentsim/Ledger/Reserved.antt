-- ===== src/Agentsim/Ledger/Reserved.antt =====
-- agentsim/resources.py: what `Ledger` keeps from a session, for the families of others; and
-- agentsim/reserver.py: the part of a lease that still fits.
use society_harness.Prelude.{
  ℕ, ◌+◌, ◌-◌, min, Bool, not, ◌&&◌, ◌||◌, Text, codes, same, starts_with, List, [], ◌∷◌, ◌++◌,
  Option, none, some, if◌then◌else◌,
}
use society_harness.Agentsim.Ledger.{Lease, Leases, Ledger, active, leases_of, lease_of, active_max}

-- `Ledger.in_family`, and what a family holds.
unfoldable pub in_family : Text → Text → Bool
in_family owner sid = same sid owner || starts_with (owner ++ codes "/") sid

unfoldable pub family_holds : Text → List (Text × ℕ) → ℕ
family_holds owner [] = 0
family_holds owner ((h, amt) ∷ rest) =
    (if in_family owner h then amt else 0) + family_holds owner rest

abbrev own_amount : ℕ → Option Lease → ℕ
own_amount now none = 0
own_amount now (some lease) = if active now lease then lease.amt else 0

unfoldable pub own : Ledger → Text → Text → ℕ → ℕ
own l res sid now = own_amount now (lease_of (leases_of l.by_res res) sid)

-- The sum over other families' active leases of what they do not hold yet.
unfoldable pub reserved : Text → ℕ → List (Text × ℕ) → Leases → ℕ
reserved sid now holders [] = 0
reserved sid now holders ((other, lease) ∷ rest) =
    (if not (in_family other sid) && active now lease
      then lease.amt - family_holds other holders
      else 0)
    + reserved sid now holders rest

unfoldable pub reserved_for_others : Ledger → Text → Text → ℕ → List (Text × ℕ) → ℕ
reserved_for_others l res sid now holders = reserved sid now holders (leases_of l.by_res res)

-- `Reserver._fits`, with the capacity of the resource.
unfoldable pub fits : Ledger → Text → ℕ → ℕ → ℕ → ℕ → ℕ
fits l res capacity amt start expiry = min amt (capacity - active_max l res start expiry)
