-- ===== src/Agentsim/Ledger/Sessions.antt =====
-- agentsim/resources.py: whose leases `set_session` and `consume` change.
use society_harness.Prelude.{
  ℕ, ◌-◌, ◌*◌, ◌≡◌, refl, false, ◌&&◌, Text, same, same_iff, same→eq, same_refl, List, [], ◌∷◌,
  ◌++◌, Option, none, some, arith, if◌then◌else◌, Bool-cases, inl, inr, ◌∙◌,
}
use society_harness.Prelude.Results.{ok}
use society_harness.Agentsim.Ledger.{
  Lease, Leases, Ledger, leases_of, lease_of, without, without_session, insert, issue, issue_all,
  count_unused, take_out, retire_old, set_session, consume, consume_lease, pop_lease,
}
use society_harness.Agentsim.Ledger.Limits.{by_res-count_issued}
use society_harness.Agentsim.Ledger.Expiry.{by_res-retire}

-- The lease of a session on a resource.
unfoldable pub held : List (Text × Leases) → Text → Text → Option Lease
held by_res res sid = lease_of (leases_of by_res res) sid

abbrev pub or_else : Option Lease → Option Lease → Option Lease
or_else none b = b
or_else (some x) b = some x

-- The lease on `res` in a list of leases for different resources.
unfoldable pub wanted : List Lease → Text → Option Lease
wanted [] res = none
wanted (lease ∷ rest) res = if same lease.res res then some lease else wanted rest res

lease_of-without :
    (leases : Leases) (sid other : Text)
    → lease_of (without leases sid) other ≡ (if same sid other then none else lease_of leases other)
unfolding lease_of without
lease_of-without [] sid other = ground arith
lease_of-without ((key, lease) ∷ rest) sid other = ground (
  arith,
  lease_of-without rest sid other,
  same_iff key sid,
  same_iff key other,
  same_iff sid other,
)

leases_of-without_session :
    (sid : Text) (by_res : List (Text × Leases)) (res : Text)
    → leases_of (without_session sid by_res) res ≡ without (leases_of by_res res) sid
unfolding leases_of without_session without
leases_of-without_session sid [] res = refl
leases_of-without_session sid ((key, leases) ∷ rest) res =
    ground (arith, leases_of-without_session sid rest res)

held-without_session :
    (sid : Text) (by_res : List (Text × Leases)) (res other : Text)
    → held (without_session sid by_res) res other
      ≡ (if same sid other then none else held by_res res other)
unfolding held
held-without_session sid by_res res other =
    rw (leases_of-without_session sid by_res res)
      (lease_of-without (leases_of by_res res) sid other)

by_res-retire_old :
    (o : Option Lease) (now : ℕ) (l : Ledger) → (retire_old o now l).by_res ≡ l.by_res
unfolding retire_old
by_res-retire_old none now l = refl
by_res-retire_old (some lease) now l = by_res-retire lease now l

by_res-take_out :
    (sid : Text) (now : ℕ) (by_res : List (Text × Leases)) (l : Ledger)
    → (take_out sid now by_res l).by_res ≡ l.by_res
unfolding take_out
by_res-take_out sid now [] l = refl
by_res-take_out sid now ((key, leases) ∷ rest) l =
    by_res-take_out sid now rest (retire_old (lease_of leases sid) now l)
    ∙ by_res-retire_old (lease_of leases sid) now l

lease_of-append :
    (leases : Leases) (sid other : Text) (lease : Lease)
    → lease_of (leases ++ (sid, lease) ∷ []) other
      ≡ or_else (lease_of leases other) (if same sid other then some lease else none)
unfolding lease_of
lease_of-append [] sid other lease = ground arith
lease_of-append ((key, x) ∷ rest) sid other lease =
    ground (arith, lease_of-append rest sid other lease)

held-insert :
    (lease : Lease) (by_res : List (Text × Leases)) (res other : Text)
    → held (insert lease by_res) res other
      ≡ or_else
          (held by_res res other)
          (if same lease.res res && same lease.sid other then some lease else none)
unfolding held insert leases_of lease_of
held-insert lease [] res other = ground arith
held-insert lease ((key, leases) ∷ rest) res other = ground (
  arith,
  same_iff key lease.res,
  same_iff key res,
  same_iff lease.res res,
  lease_of-append leases lease.sid other lease,
  held-insert lease rest res other,
)

held-issue :
    (lease : Lease) (l : Ledger) (res other : Text)
    → held (issue lease l).by_res res other
      ≡ or_else
          (held l.by_res res other)
          (if same lease.res res && same lease.sid other then some lease else none)
unfolding issue
held-issue lease l res other =
    rw (by_res-count_issued lease.res (lease.amt * (lease.expiry - lease.start)) l)
      (held-insert lease l.by_res res other)

held-issue_all :
    (sid : Text) (seen : List Text) (leases : List Lease) (l : Ledger) (res other : Text)
    → same sid other ≡ false
    → held (issue_all sid seen leases l).0.by_res res other ≡ held l.by_res res other
unfolding issue_all
held-issue_all sid seen [] l res other d = refl
held-issue_all sid seen (lease ∷ rest) l res other d = ground (
  arith,
  held-issue_all sid (lease.res ∷ seen) rest (issue lease l) res other,
  held-issue lease l res other,
  same_iff lease.sid sid,
  same_iff lease.sid other,
  same_iff sid other,
)

held-issue_all-own :
    (sid : Text) (seen : List Text) (leases : List Lease) (l : Ledger) (res : Text)
    → (issue_all sid seen leases l).1 ≡ none
    → held (issue_all sid seen leases l).0.by_res res sid
      ≡ or_else (held l.by_res res sid) (wanted leases res)
unfolding issue_all wanted
held-issue_all-own sid seen [] l res e = ground arith
held-issue_all-own sid seen (lease ∷ rest) l res e = ground (
  arith,
  held-issue_all-own sid (lease.res ∷ seen) rest (issue lease l) res,
  held-issue lease l res sid,
)

-- When `set_session` does not raise, the session has exactly the leases of the list afterwards, and
-- none that it had before, and the leases of every other session are as they were.
pub set_session-held :
    (sid : Text) (leases : List Lease) (now : ℕ) (l : Ledger) (res other : Text)
    → (set_session sid leases now l).1 ≡ none
    → held (set_session sid leases now l).0.by_res res other
      ≡ (if same sid other then wanted leases res else held l.by_res res other)
unfolding set_session
set_session-held sid leases now l res other e =
    let m = take_out sid now l.by_res l in
    let kept = by_res-take_out sid now l.by_res l in
    let n = record m { by_res = without_session sid m.by_res } in
    let base : held n.by_res res other
        ≡ (if same sid other then none else held l.by_res res other) =
      rw kept (held-without_session sid l.by_res res other) in
    elim (Bool-cases (same sid other)) [
      | inl h ↦ rw (← same→eq sid other h) (
          ground (
            arith,
            held-issue_all-own sid [] leases n res e,
            rw (← same→eq sid other h) at base,
            same_refl sid,
          ))
      | inr h ↦ ground (arith, held-issue_all sid [] leases n res other h)
    ]

held-pop_lease :
    (sid res : Text) (by_res : List (Text × Leases)) (res' other : Text)
    → held (pop_lease sid res by_res) res' other
      ≡ (if same res res' && same sid other then none else held by_res res' other)
unfolding held pop_lease leases_of lease_of
held-pop_lease sid res [] res' other = ground arith
held-pop_lease sid res ((key, leases) ∷ rest) res' other = ground (
  arith,
  same_iff key res,
  same_iff key res',
  same_iff res res',
  lease_of-without leases sid other,
  held-pop_lease sid res rest res' other,
)

by_res-count_unused : (res : Text) (n : ℕ) (l : Ledger) → (count_unused res n l).by_res ≡ l.by_res
unfolding count_unused
by_res-count_unused res n l = ground arith

held-consume_lease :
    (lease : Lease) (sid res : Text) (now : ℕ) (l l' : Ledger) (res' other : Text)
    → consume_lease (some lease) sid res now l ≡ ok l'
    → held l'.by_res res' other
      ≡ (if same res res' && same sid other then none else held l.by_res res' other)
unfolding consume_lease
held-consume_lease lease sid res now l l' res' other e =
    let m = count_unused lease.res (lease.amt * (now - lease.start)) l in
    let one : record m { by_res = pop_lease sid res m.by_res } ≡ l' = cc in
    let kept = by_res-count_unused lease.res (lease.amt * (now - lease.start)) l in
    rw (← one) (rw kept (held-pop_lease sid res l.by_res res' other))

consume_lease-some :
    (o : Option Lease) (sid res : Text) (now : ℕ) (l l' : Ledger)
    → consume_lease o sid res now l ≡ ok l'
    → (lease : Lease) × (o ≡ some lease)
unfolding consume_lease
consume_lease-some none sid res now l l' e = cc
consume_lease-some (some lease) sid res now l l' e = (lease, refl)

-- When `consume` returns, the session held a lease on the resource; that lease is gone, and every
-- other lease of the ledger stays.
pub consume-held :
    (sid res : Text) (now : ℕ) (l l' : Ledger)
    → consume sid res now l ≡ ok l'
    → ((lease : Lease) × (held l.by_res res sid ≡ some lease))
      × ((res' other : Text)
          → held l'.by_res res' other
            ≡ (if same res res' && same sid other then none else held l.by_res res' other))
unfolding consume held
consume-held sid res now l l' e =
    let (lease, there) =
      consume_lease-some (lease_of (leases_of l.by_res res) sid) sid res now l l' e in
    (
      (lease, there),
      λ res' other. held-consume_lease lease sid res now l l' res' other (rw there at e),
    )
