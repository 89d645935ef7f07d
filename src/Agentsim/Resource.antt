-- ===== src/Agentsim/Resource.antt =====
-- agentsim/resources.py: `Resource`, its capacity and its holders. Amounts are counted in units of
-- 10^-9, the tolerance of the source; what is used may fall below zero by that tolerance and is an
-- integer. An infinite `rpm` or timeout is `none`. The background load is a probability in parts of
-- 10^9.
pub mod Accounting
pub mod Provider
mod Examples
use society_harness.Prelude.{
  ℕ, zero, suc, ◌+◌, ◌-◌, Bool, true, false, ◌||◌, Text, same, List, [], ◌∷◌, Option, none, some,
  if◌then◌else◌, leb, ltb, ◌==◌,
}
use society_harness.Prelude.Int.{ℤ, pos, negsuc, pos_part, neg_part, ◌+ℤ◌, ◌-ℤ◌}
use society_harness.Prelude.Results.{Result, ok, raise, runtime_error, assertion_error, ◌>>=◌}
use society_harness.Agentsim.Buckets.Calls.{CallBucket}

pub record Resource : Type 0 where
  pub name : Text
  pub capacity : ℕ
  pub tier : Text
  pub api_like : Bool
  pub rpm : Option ℕ
  pub background_load : ℕ
  pub timeout_s : Option ℕ
  pub cost_per_call : ℕ
  pub tokens_per_call : ℕ
  pub used : ℤ
  pub holders : List (Text × ℕ)
  pub waiters : List (Text × ℕ)
  pub calls : Option CallBucket

unfoldable pub free : ℕ → Resource → ℤ
free cap r = pos cap -ℤ r.used

-- `self.holders.get(sid, 0.0)`
unfoldable pub held_by : List (Text × ℕ) → Text → ℕ
held_by [] sid = 0
held_by ((key, amt) ∷ rest) sid = if same key sid then amt else held_by rest sid

-- `self.holders[sid] = amt`
unfoldable pub set_holder : List (Text × ℕ) → Text → ℕ → List (Text × ℕ)
set_holder [] sid amt = (sid, amt) ∷ []
set_holder ((key, x) ∷ rest) sid amt =
    if same key sid then (key, amt) ∷ rest else (key, x) ∷ set_holder rest sid amt

-- `del self.holders[sid]`
unfoldable pub delete_holder : List (Text × ℕ) → Text → List (Text × ℕ)
delete_holder [] sid = []
delete_holder ((key, x) ∷ rest) sid =
    if same key sid then rest else (key, x) ∷ delete_holder rest sid

unfoldable pub take : Text → ℕ → Resource → Resource
take sid amt r = record r {
  used = r.used +ℤ pos amt;
  holders = set_holder r.holders sid (held_by r.holders sid + amt);
}

abbrev pub amount_or : Option ℕ → ℕ → ℕ
amount_or none held = held
amount_or (some amt) held = amt

-- The tolerance, of 10^-9.
abbrev tolerance : ℕ
tolerance = 1

unfoldable pub release : Text → ℕ → ℕ → Resource → Result Resource
release sid held amt r =
    if ltb (held + tolerance) amt
    then raise runtime_error
    else ok (record r {
      used = r.used -ℤ pos amt;
      holders =
          if leb held (amt + tolerance)
          then delete_holder r.holders sid
          else set_holder r.holders sid (held - amt);
    })

unfoldable pub give : Text → Option ℕ → Resource → Result Resource
unfolding release
give sid amt r =
    let held = held_by r.holders sid in
    if held == 0 then raise runtime_error else release sid held (amount_or amt held) r

unfoldable pub total : List (Text × ℕ) → ℕ
total [] = 0
total ((key, amt) ∷ rest) = amt + total rest

-- The allowance of `check`, of 10^-6.
abbrev pub allowance : ℕ
allowance = 1000

-- `abs(s - self.used) > 1e-6 or self.used < -1e-6`
unfoldable pub check : Resource → Result Resource
check r =
    let s = total r.holders in
    if ltb (pos_part r.used + allowance) (s + neg_part r.used)
      || ltb (s + neg_part r.used + allowance) (pos_part r.used)
      || ltb allowance (neg_part r.used)
    then raise assertion_error
    else ok r

-- The calls of an engine on a resource.
pub data Call : Type 0 where
  takes : Text → ℕ → Call
  gives : Text → Option ℕ → Call

unfoldable pub after_calls : List Call → Resource → Result Resource
after_calls [] r = ok r
after_calls (takes sid amt ∷ calls) r = after_calls calls (take sid amt r)
after_calls (gives sid amt ∷ calls) r = do r' ← give sid amt r; after_calls calls r'
