-- ===== src/Agentsim/Ledger/Kept.antt =====
-- agentsim/resources.py: what `Ledger.check` accepts.
use society_harness.Prelude.{
  ℕ, ◌+◌, ◌-◌, ◌≤◌, ◌<◌, ◌≡◌, ◌≢◌, ◌⊎◌, inl, inr, ◌↔◌, refl, sym, ap, ◌∙◌, ◌++◌, codes, same_iff,
  same_refl, Bool-cases, length-append, Bool, true, false, Text, same, List, [], ◌∷◌, Option, none,
  some, arith, leb, ltb, length,
}
use society_harness.Prelude.Results.{ok, >>=-eq-ok}
use society_harness.Agentsim.Resource.{Resource}
use society_harness.Agentsim.Ledger.{Leases, is_budget, ends_with, active, sum_active}
use society_harness.Agentsim.Ledger.Checks.{
  take_chars, base, resource_named, rpm_or_raise, limit_of, limit, any_expired, check_resource,
  check,
}

-- `n` is the sum of the amounts of the leases that have started at `now` and are not past their expiry.
abbrev pub Load : ℕ → Leases → ℕ → Type 0
Load now [] n = n ≡ 0
Load now ((sid, lease) ∷ rest) n =
    (m : ℕ) × Load now rest m
    × (((lease.start ≤ now) × (now < lease.expiry) × (n ≡ lease.amt + m))
        ⊎ (((now < lease.start) ⊎ (lease.expiry ≤ now)) × (n ≡ m)))

-- Every lease ends after `now`.
abbrev pub Live : ℕ → Leases → Type 0
Live now [] = Unit
Live now ((sid, lease) ∷ rest) = (now < lease.expiry) × Live now rest

-- The limit of a request budget `name@rpm` is the rpm of `name`; that of another name its capacity.
abbrev pub HasLimit : List (Text × Resource) → Text → ℕ → Type 0
HasLimit resources res lim =
    ((name : Text) × (r : Resource) × (res ≡ name ++ codes "@rpm")
      × (resource_named resources name ≡ some r)
      × (r.rpm ≡ some lim))
    ⊎ (((name : Text) → res ≢ name ++ codes "@rpm")
        × ((r : Resource) × (resource_named resources res ≡ some r) × (r.capacity ≡ lim)))

-- I1 and I3 of one resource at `now`.
abbrev pub IsKept : List (Text × Resource) → ℕ → Text → Leases → Type 0
IsKept resources now res leases =
    (lim : ℕ) × HasLimit resources res lim
    × ((load : ℕ) × Load now leases load × (load ≤ lim + 1))
    × Live now leases

abbrev pub AllKept : List (Text × Resource) → ℕ → List (Text × Leases) → Type 0
AllKept resources now [] = Unit
AllKept resources now ((res, leases) ∷ rest) =
    IsKept resources now res leases × AllKept resources now rest

sum_active-Load : (now : ℕ) (leases : Leases) → Load now leases (sum_active now leases)
unfolding sum_active active
sum_active-Load now [] = refl
sum_active-Load now ((sid, lease) ∷ rest) = (
  sum_active now rest,
  sum_active-Load now rest,
  elim (Bool-cases (leb lease.start now)) [
    | inr before ↦ inr (inl (ground arith), rw before (omega arith))
    | inl begun ↦ elim (Bool-cases (ltb now lease.expiry)) [
      | inl lasts ↦ inl (ground arith, ground arith, rw (begun, active) (rw lasts (omega arith)))
      | inr past ↦ inr (inr (ground arith), rw begun (rw past (omega arith)))
    ]
  ],
)

Load-unique : (now : ℕ) (leases : Leases) (n : ℕ) → Load now leases n → n ≡ sum_active now leases
unfolding sum_active active
Load-unique now [] n h = h
Load-unique now ((sid, lease) ∷ rest) n (m, load, inl (begun, lasts, sum)) =
    ground (arith, Load-unique now rest m load)
Load-unique now ((sid, lease) ∷ rest) n (m, load, inr (inl before, sum)) =
    ground (arith, Load-unique now rest m load)
Load-unique now ((sid, lease) ∷ rest) n (m, load, inr (inr past, sum)) =
    ground (arith, Load-unique now rest m load)

any_expired-Live : (now : ℕ) (leases : Leases) → (any_expired now leases ≡ false) ↔ Live now leases
unfolding any_expired
any_expired-Live now [] = (λ e. tt, λ u. refl)
any_expired-Live now ((sid, lease) ∷ rest) = (
  λ e. (ground arith, (any_expired-Live now rest).0 (ground arith)),
  λ (later, live). ground (arith, (any_expired-Live now rest).1 live),
)

ends_with→eq : (suffix t : Text) → ends_with suffix t ≡ true → (name : Text) × (t ≡ name ++ suffix)
unfolding ends_with
ends_with→eq suffix [] h = ([], sym ((same_iff suffix []).0 h))
ends_with→eq suffix (c ∷ cs) h = elim (Bool-cases (same suffix (c ∷ cs))) [
  | inl whole ↦ ([], sym ((same_iff suffix (c ∷ cs)).0 whole))
  | inr part ↦ let (name, e) = ends_with→eq suffix cs (ground arith) in (c ∷ name, ap (◌∷◌ c) e)
]

ends_with_refl : (suffix : Text) → ends_with suffix suffix ≡ true
unfolding ends_with
ends_with_refl [] = same_refl []
ends_with_refl (c ∷ cs) = rw (same_refl (c ∷ cs)) refl

ends_with-append : (suffix name : Text) → ends_with suffix (name ++ suffix) ≡ true
unfolding ends_with
ends_with-append suffix [] = ends_with_refl suffix
ends_with-append suffix (c ∷ cs) = ground (arith, ends_with-append suffix cs)

take_chars-append : (name rest : Text) → take_chars (length name) (name ++ rest) ≡ name
unfolding take_chars
take_chars-append [] rest = refl
take_chars-append (c ∷ cs) rest = ap (◌∷◌ c) (take_chars-append cs rest)

base-append : (name : Text) → base (name ++ codes "@rpm") ≡ name
unfolding base
base-append name =
    let size : length (name ++ codes "@rpm") - 4 ≡ length name =
      omega (arith, length-append name (codes "@rpm")) in
    rw (ends_with-append (codes "@rpm") name) (rw size (take_chars-append name (codes "@rpm")))

rpm_or_raise_iff : (o : Option ℕ) (lim : ℕ) → (rpm_or_raise o ≡ ok lim) ↔ (o ≡ some lim)
rpm_or_raise_iff none lim = (λ e. absurd cc, λ e. absurd cc)
rpm_or_raise_iff (some rpm) lim = (λ e. cc, λ e. cc)

limit_of-budget :
    (o : Option Resource) (lim : ℕ)
    → (limit_of o true ≡ ok lim) ↔ ((r : Resource) × (o ≡ some r) × (r.rpm ≡ some lim))
limit_of-budget none lim = (λ e. absurd cc, λ (r, known, rpm). absurd cc)
limit_of-budget (some r) lim = (
  λ e. (r, refl, (rpm_or_raise_iff r.rpm lim).0 e),
  λ (q, known, rpm). let one : r ≡ q = cc in (rpm_or_raise_iff r.rpm lim).1 (rw one rpm),
)

limit_of-capacity :
    (o : Option Resource) (lim : ℕ)
    → (limit_of o false ≡ ok lim) ↔ ((r : Resource) × (o ≡ some r) × (r.capacity ≡ lim))
limit_of-capacity none lim = (λ e. absurd cc, λ (r, known, cap). absurd cc)
limit_of-capacity (some r) lim =
    (λ e. (r, refl, cc), λ (q, known, cap). let one : r ≡ q = cc in rw one (rw cap refl))

HasLimit-base :
    (resources : List (Text × Resource)) (res name : Text) (lim : ℕ)
    → res ≡ name ++ codes "@rpm"
    → HasLimit resources res lim
    → (r : Resource) × (resource_named resources (base res) ≡ some r) × (r.rpm ≡ some lim)
HasLimit-base resources res name lim e (inl (other, r, e', known, rpm)) =
    let of_name : base res ≡ other = ap base e' ∙ base-append other in
    (r, ap (resource_named resources) of_name ∙ known, rpm)
HasLimit-base resources res name lim e (inr (plain, limited)) = absurd (plain name e)

base-plain : (res : Text) → is_budget res ≡ false → base res ≡ res
unfolding base
base-plain res plain = rw plain refl

plain_name : (res name : Text) → is_budget res ≡ false → res ≡ name ++ codes "@rpm" → ⊥
plain_name res name plain e =
    let budget : is_budget res ≡ true = ap is_budget e ∙ ends_with-append (codes "@rpm") name in
    absurd cc

HasLimit-plain :
    (resources : List (Text × Resource)) (res : Text) (lim : ℕ)
    → is_budget res ≡ false
    → HasLimit resources res lim
    → (r : Resource) × (resource_named resources (base res) ≡ some r) × (r.capacity ≡ lim)
HasLimit-plain resources res lim plain (inl (name, r, e, known, rpm)) =
    absurd (plain_name res name plain e)
HasLimit-plain resources res lim plain (inr (other, (r, known, cap))) =
    (r, ap (resource_named resources) (base-plain res plain) ∙ known, cap)

limit_iff :
    (resources : List (Text × Resource)) (res : Text) (lim : ℕ)
    → (limit resources res ≡ ok lim) ↔ HasLimit resources res lim
unfolding limit
limit_iff resources res lim = elim (Bool-cases (is_budget res)) [
  | inl budget ↦
      let (name, e) = ends_with→eq (codes "@rpm") res budget in
      let of_name : base res ≡ name = ap base e ∙ base-append name in
      (
        λ h.
            let (r, known, rpm) =
              (limit_of-budget (resource_named resources (base res)) lim).0 (rw budget at h) in
            inl (name, r, e, ap (resource_named resources) (sym of_name) ∙ known, rpm),
        λ h. rw budget (
            (limit_of-budget (resource_named resources (base res)) lim).1
              (HasLimit-base resources res name lim e h)),
      )
  | inr plain ↦ (
    λ h.
        let (r, known, cap) =
          (limit_of-capacity (resource_named resources (base res)) lim).0 (rw plain at h) in
        inr (
          λ name e. plain_name res name plain e,
          (r, ap (resource_named resources) (sym (base-plain res plain)) ∙ known, cap),
        ),
    λ h. rw plain (
        (limit_of-capacity (resource_named resources (base res)) lim).1
          (HasLimit-plain resources res lim plain h)),
  )
]

check_resource-ok :
    (now : ℕ) (leases : Leases) (lim : ℕ) (b : Bool)
    → check_resource now leases lim ≡ ok b
    → (sum_active now leases ≤ lim + 1) × (any_expired now leases ≡ false)
unfolding check_resource
check_resource-ok now leases lim b e = ground arith

check_resource-fine :
    (now : ℕ) (leases : Leases) (lim : ℕ)
    → sum_active now leases ≤ lim + 1
    → any_expired now leases ≡ false
    → check_resource now leases lim ≡ ok true
unfolding check_resource
check_resource-fine now leases lim h k = ground arith

-- `check` raises nothing exactly if every name with leases has a limit, which for `name@rpm` is the rpm
-- of the resource `name` and else the capacity of the resource, the leases that run at `now` sum up to
-- no more than that limit and the tolerance (I1), and each lease ends after `now` (I3).
pub check_iff :
    (resources : List (Text × Resource)) (now : ℕ) (by_res : List (Text × Leases))
    → (check resources now by_res ≡ ok true) ↔ AllKept resources now by_res
unfolding check
check_iff resources now [] = (λ e. tt, λ u. refl)
check_iff resources now ((res, leases) ∷ rest) = (
  λ e.
      let (lim, known, e') = >>=-eq-ok (limit resources res) _ e in
      let (fine, one, all) = >>=-eq-ok (check_resource now leases lim) _ e' in
      let (within, live) = check_resource-ok now leases lim fine one in
      (
        (
          lim,
          (limit_iff resources res lim).0 known,
          (sum_active now leases, sum_active-Load now leases, within),
          (any_expired-Live now leases).0 live,
        ),
        (check_iff resources now rest).0 all,
      ),
  λ ((lim, limited, (load, summed, below), live), all).
      let within : sum_active now leases ≤ lim + 1 =
        omega (arith, Load-unique now leases load summed, below) in
      let fresh = (any_expired-Live now leases).1 live in
      rw ((limit_iff resources res lim).1 limited) (
        rw (check_resource-fine now leases lim within fresh)
          ((check_iff resources now rest).1 all)),
)
