-- ===== src/Agentsim/Ledger/Checks.antt =====
-- agentsim/resources.py: `Ledger.limit` and `Ledger.check`.
use society_harness.Prelude.{
  ℕ, zero, suc, ◌+◌, ◌-◌, Bool, true, false, Text, same, List, [], ◌∷◌, Option, none, some,
  if◌then◌else◌, leb, ltb, length, ◌||◌,
}
use society_harness.Prelude.Results.{
  Result, ok, raise, key_error, value_error, assertion_error, ◌>>=◌,
}
use society_harness.Agentsim.Resource.{Resource}
use society_harness.Agentsim.Ledger.{Leases, is_budget, ends_with, sum_active}

-- The first `n` characters.
unfoldable pub take_chars : ℕ → Text → Text
take_chars zero cs = []
take_chars (suc n) [] = []
take_chars (suc n) (c ∷ cs) = c ∷ take_chars n cs

-- `res[:-4] if res.endswith("@rpm") else res`
unfoldable pub base : Text → Text
unfolding ends_with
base res = if is_budget res then take_chars (length res - 4) res else res

unfoldable pub resource_named : List (Text × Resource) → Text → Option Resource
resource_named [] name = none
resource_named ((key, r) ∷ rest) name = if same key name then some r else resource_named rest name

abbrev pub rpm_or_raise : Option ℕ → Result ℕ
rpm_or_raise none = raise value_error
rpm_or_raise (some rpm) = ok rpm

abbrev pub limit_of : Option Resource → Bool → Result ℕ
limit_of none budget = raise key_error
limit_of (some r) budget = if budget then rpm_or_raise r.rpm else ok r.capacity

unfoldable pub limit : List (Text × Resource) → Text → Result ℕ
limit resources res = limit_of (resource_named resources (base res)) (is_budget res)

unfoldable pub any_expired : ℕ → Leases → Bool
any_expired now [] = false
any_expired now ((sid, lease) ∷ rest) = leb lease.expiry now || any_expired now rest

-- The tolerance of the source is one unit.
unfoldable pub check_resource : ℕ → Leases → ℕ → Result Bool
check_resource now leases lim =
    if ltb (lim + 1) (sum_active now leases)
    then raise assertion_error
    else if any_expired now leases
    then raise assertion_error
    else ok true

unfoldable pub check : List (Text × Resource) → ℕ → List (Text × Leases) → Result Bool
unfolding check_resource
check resources now [] = ok true
check resources now ((res, leases) ∷ rest) = do
  lim ← limit resources res
  fine ← check_resource now leases lim
  check resources now rest
