-- ===== src/Agentsim/Ledger.antt =====
-- agentsim/resources.py: `Lease` and `Ledger`. Amounts are counted in units of 10^-9 and times in
-- whole ticks of the clock, so that a unit-second is their product. The dict of a resource's leases
-- is a list of its items, and so is the dict of the resources. Subtraction that the source cuts off
-- at zero is that of ℕ. An operation that may raise after it changed the ledger returns the ledger
-- and the exception.
pub mod Peak
pub mod Reserved
pub mod Limits
pub mod Expiry
pub mod Sessions
pub mod Checks
pub mod Kept
mod Examples
use society_harness.Prelude.{
  ℕ, zero, suc, ◌+◌, ◌-◌, ◌*◌, min, max, Bool, true, false, not, ◌&&◌, ◌||◌, Text, codes, same, mem,
  List, [], ◌∷◌, ◌++◌, Option, none, some, if◌then◌else◌, leb, ltb, ◌==◌, length,
}
use society_harness.Prelude.Results.{Exception, value_error, runtime_error, Result, ok, raise}

pub record Lease : Type 0 where
  pub sid : Text
  pub res : Text
  pub amt : ℕ
  pub start : ℕ
  pub expiry : ℕ

abbrev pub Leases : Type 0
Leases = List (Text × Lease)

-- Unit-seconds of the two kinds of leases, `cpu` and `budget`.
pub record Kind : Type 0 where
  pub issued : ℕ
  pub unused : ℕ

pub record Ledger : Type 0 where
  pub by_res : List (Text × Leases)
  pub expired_total : ℕ
  pub issued_total : ℕ
  pub unit_s_issued : ℕ
  pub unit_s_unused : ℕ
  pub cpu : Kind
  pub budget : Kind

-- `Lease.__post_init__`
unfoldable pub make_lease : Text → Text → ℕ → ℕ → ℕ → Result Lease
make_lease sid res amt start expiry =
    if amt == 0 || leb expiry start
    then raise value_error
    else if same res (codes "model.kv") || same res (codes "model.tpm")
    then raise value_error
    else ok (record { sid = sid; res = res; amt = amt; start = start; expiry = expiry })

-- `res.endswith("@rpm")`
unfoldable pub ends_with : Text → Text → Bool
ends_with suffix [] = same suffix []
ends_with suffix (c ∷ cs) = same suffix (c ∷ cs) || ends_with suffix cs

abbrev pub is_budget : Text → Bool
is_budget res = ends_with (codes "@rpm") res

unfoldable pub leases_of : List (Text × Leases) → Text → Leases
leases_of [] res = []
leases_of ((key, leases) ∷ rest) res = if same key res then leases else leases_of rest res

unfoldable pub lease_of : Leases → Text → Option Lease
lease_of [] sid = none
lease_of ((key, lease) ∷ rest) sid = if same key sid then some lease else lease_of rest sid

-- `leases.pop(sid, None)`: what is left.
unfoldable pub without : Leases → Text → Leases
without [] sid = []
without ((key, lease) ∷ rest) sid =
    if same key sid then without rest sid else (key, lease) ∷ without rest sid

abbrev add_unused : ℕ → Kind → Kind
add_unused n k = record k { unused = k.unused + n }

abbrev add_issued : ℕ → Kind → Kind
add_issued n k = record k { issued = k.issued + n }

-- The statistics of unit-seconds that were reserved and not used, and of those that were issued.
unfoldable pub count_unused : Text → ℕ → Ledger → Ledger
count_unused res n l =
    let m = record l { unit_s_unused = l.unit_s_unused + n } in
    if is_budget res
    then record m { budget = add_unused n m.budget }
    else record m { cpu = add_unused n m.cpu }

unfoldable pub count_issued : Text → ℕ → Ledger → Ledger
count_issued res n l =
    let m = record l { issued_total = l.issued_total + 1; unit_s_issued = l.unit_s_issued + n } in
    if is_budget res
    then record m { budget = add_issued n m.budget }
    else record m { cpu = add_issued n m.cpu }

unfoldable pub retire : Lease → ℕ → Ledger → Ledger
retire lease now l = count_unused lease.res (lease.amt * (min now lease.expiry - lease.start)) l

unfoldable pub active : ℕ → Lease → Bool
active now lease = leb lease.start now && ltb now lease.expiry

unfoldable pub sum_active : ℕ → Leases → ℕ
unfolding active
sum_active now [] = 0
sum_active now ((sid, lease) ∷ rest) =
    (if active now lease then lease.amt else 0) + sum_active now rest

unfoldable pub active_sum : Ledger → Text → ℕ → ℕ
active_sum l res now = sum_active now (leases_of l.by_res res)

-- The leases that meet [t0, t1).
unfoldable pub meeting : ℕ → ℕ → Leases → Leases
meeting t0 t1 [] = []
meeting t0 t1 ((sid, lease) ∷ rest) =
    if ltb t0 lease.expiry && ltb lease.start t1
    then (sid, lease) ∷ meeting t0 t1 rest
    else meeting t0 t1 rest

-- The instants of [t0, t1) at which one of them starts.
unfoldable pub starts : ℕ → ℕ → Leases → List ℕ
starts t0 t1 [] = []
starts t0 t1 ((sid, lease) ∷ rest) =
    if leb t0 lease.start && ltb lease.start t1
    then lease.start ∷ starts t0 t1 rest
    else starts t0 t1 rest

unfoldable pub largest_sum : Leases → ℕ → List ℕ → ℕ
largest_sum leases best [] = best
largest_sum leases best (t ∷ ts) = largest_sum leases (max best (sum_active t leases)) ts

-- The empty list of leases has the sum 0 at `t0`, and that is what the source returns for it.
unfoldable pub peak : ℕ → ℕ → Leases → ℕ
peak t0 t1 [] = 0
peak t0 t1 (l ∷ ls) = largest_sum (l ∷ ls) (sum_active t0 (l ∷ ls)) (starts t0 t1 (l ∷ ls))

unfoldable pub active_max : Ledger → Text → ℕ → ℕ → ℕ
active_max l res t0 t1 = peak t0 t1 (meeting t0 t1 (leases_of l.by_res res))

-- The loop of `set_session` that takes the old leases of `sid` out.
unfoldable pub retire_old : Option Lease → ℕ → Ledger → Ledger
retire_old none now l = l
retire_old (some lease) now l = retire lease now l

unfoldable pub take_out : Text → ℕ → List (Text × Leases) → Ledger → Ledger
take_out sid now [] l = l
take_out sid now ((key, leases) ∷ rest) l =
    take_out sid now rest (retire_old (lease_of leases sid) now l)

unfoldable pub without_session : Text → List (Text × Leases) → List (Text × Leases)
without_session sid [] = []
without_session sid ((key, leases) ∷ rest) = (key, without leases sid) ∷ without_session sid rest

-- `self.by_res.setdefault(lease.res, {})[sid] = lease`, where `sid` has no lease on the resource.
unfoldable pub insert : Lease → List (Text × Leases) → List (Text × Leases)
insert lease [] = (lease.res, (lease.sid, lease) ∷ []) ∷ []
insert lease ((key, leases) ∷ rest) =
    if same key lease.res
    then (key, leases ++ (lease.sid, lease) ∷ []) ∷ rest
    else (key, leases) ∷ insert lease rest

unfoldable pub issue : Lease → Ledger → Ledger
issue lease l =
    let m = count_issued lease.res (lease.amt * (lease.expiry - lease.start)) l in
    record m { by_res = insert lease m.by_res }

unfoldable pub issue_all : Text → List Text → List Lease → Ledger → Ledger × Option Exception
issue_all sid seen [] l = (l, none)
issue_all sid seen (lease ∷ rest) l =
    if not (same lease.sid sid) || mem lease.res seen
    then (l, some value_error)
    else issue_all sid (lease.res ∷ seen) rest (issue lease l)

unfoldable pub set_session : Text → List Lease → ℕ → Ledger → Ledger × Option Exception
set_session sid leases now l =
    let m = take_out sid now l.by_res l in
    issue_all sid [] leases (record m { by_res = without_session sid m.by_res })

unfoldable pub pop_lease : Text → Text → List (Text × Leases) → List (Text × Leases)
pop_lease sid res [] = []
pop_lease sid res ((key, leases) ∷ rest) =
    if same key res
    then (key, without leases sid) ∷ rest
    else (key, leases) ∷ pop_lease sid res rest

unfoldable pub consume_lease : Option Lease → Text → Text → ℕ → Ledger → Result Ledger
consume_lease none sid res now l = raise runtime_error
consume_lease (some lease) sid res now l =
    let m = count_unused lease.res (lease.amt * (now - lease.start)) l in
    ok (record m { by_res = pop_lease sid res m.by_res })

unfoldable pub consume : Text → Text → ℕ → Ledger → Result Ledger
consume sid res now l = consume_lease (lease_of (leases_of l.by_res res) sid) sid res now l

-- The leases of one resource that are past their expiry, and the others.
unfoldable pub expired : ℕ → Leases → List Lease
expired now [] = []
expired now ((sid, lease) ∷ rest) =
    if leb lease.expiry now then lease ∷ expired now rest else expired now rest

unfoldable pub unexpired : ℕ → Leases → Leases
unexpired now [] = []
unexpired now ((sid, lease) ∷ rest) =
    if leb lease.expiry now then unexpired now rest else (sid, lease) ∷ unexpired now rest

unfoldable pub retire_all : ℕ → List Lease → Ledger → Ledger
retire_all now [] l = l
retire_all now (lease ∷ rest) l = retire_all now rest (retire lease now l)

-- The loop of `expire` over the resources.
unfoldable pub all_expired : ℕ → List (Text × Leases) → List Lease
all_expired now [] = []
all_expired now ((key, leases) ∷ rest) = expired now leases ++ all_expired now rest

unfoldable pub all_unexpired : ℕ → List (Text × Leases) → List (Text × Leases)
all_unexpired now [] = []
all_unexpired now ((key, leases) ∷ rest) = (key, unexpired now leases) ∷ all_unexpired now rest

-- The new ledger, and how many leases expired.
unfoldable pub expire : ℕ → Ledger → Ledger × ℕ
expire now l =
    let gone = all_expired now l.by_res in
    let m = retire_all now gone l in
    (
      record m {
        by_res = all_unexpired now m.by_res;
        expired_total = m.expired_total + length gone;
      },
      length gone,
    )
