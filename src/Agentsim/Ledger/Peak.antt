-- ===== src/Agentsim/Ledger/Peak.antt =====
-- agentsim/resources.py: the sums that `active_max` compares, and those at every other instant.
use society_harness.Prelude.{
  ℕ, ◌≤◌, ◌<◌, ◌≡◌, refl, Text, List, [], ◌∷◌, max, arith, leb, ltb, ◌&&◌, ◌⊎◌, inl, inr,
  Bool-cases, ◌∙◌, if◌then◌else◌,
}
use society_harness.Agentsim.Ledger.{
  Leases, Ledger, leases_of, active, sum_active, active_sum, meeting, starts, largest_sum, peak,
  active_max,
}

-- Each of the instants up to `t` is at most `q`.
abbrev Below : ℕ → ℕ → List ℕ → Type 0
Below t q [] = Unit
Below t q (x ∷ xs) = (x ≤ t → x ≤ q) × Below t q xs

abbrev Within : ℕ → ℕ → List ℕ → Type 0
Within t0 t1 [] = Unit
Within t0 t1 (x ∷ xs) = (t0 ≤ x) × (x < t1) × Within t0 t1 xs

best-le : (leases : Leases) (best : ℕ) (ts : List ℕ) → best ≤ largest_sum leases best ts
unfolding largest_sum
best-le leases best [] = omega arith
best-le leases best (t ∷ ts) = omega (arith, best-le leases (max best (sum_active t leases)) ts)

Below-mono : (t p q : ℕ) (xs : List ℕ) → p ≤ q → Below t p xs → Below t q xs
Below-mono t p q [] l b = tt
Below-mono t p q (x ∷ xs) l (b, bs) = (λ h. omega (arith, b h), Below-mono t p q xs l bs)

-- The last of `p` and the instants up to `t`.
latest : ℕ → ℕ → List ℕ → ℕ
latest t p [] = p
latest t p (x ∷ xs) = latest t (if leb x t then max p x else p) xs

latest-ge : (t p : ℕ) (xs : List ℕ) → p ≤ latest t p xs
unfolding latest
latest-ge t p [] = omega arith
latest-ge t p (x ∷ xs) = ground (arith, latest-ge t (if leb x t then max p x else p) xs)

latest-le : (t p : ℕ) (xs : List ℕ) → p ≤ t → latest t p xs ≤ t
unfolding latest
latest-le t p [] l = l
latest-le t p (x ∷ xs) l = latest-le t (if leb x t then max p x else p) xs (ground arith)

latest-Below : (t p : ℕ) (xs : List ℕ) → Below t (latest t p xs) xs
unfolding latest
latest-Below t p [] = tt
latest-Below t p (x ∷ xs) =
    let p' = if leb x t then max p x else p in
    (λ h. ground (arith, latest-ge t p' xs), latest-Below t p' xs)

max-either : (a b : ℕ) → (max a b ≡ a) ⊎ (max a b ≡ b)
max-either a b = omega arith

-- The sum at that instant is among those compared.
sum_active-latest-le :
    (leases : Leases) (best t p : ℕ) (xs : List ℕ)
    → sum_active p leases ≤ best
    → sum_active (latest t p xs) leases ≤ largest_sum leases best xs
unfolding latest largest_sum
sum_active-latest-le leases best t p [] l = l
sum_active-latest-le leases best t p (x ∷ xs) l =
    sum_active-latest-le leases (max best (sum_active x leases)) t (if leb x t then max p x else p)
      xs
      (elim (Bool-cases (leb x t)) [
        | inl h ↦ elim (max-either p x) [
          | inl e ↦ rw h (rw e (omega arith))
          | inr e ↦ rw h (rw e (omega arith))
        ]
        | inr h ↦ rw h (omega arith)
      ])

-- No lease that is active at `t` starts between `q` and `t`.
sum_active-le :
    (t q t0 t1 : ℕ) (leases : Leases)
    → t < t1
    → t0 ≤ q
    → q ≤ t
    → Below t q (starts t0 t1 leases)
    → sum_active t leases ≤ sum_active q leases
unfolding sum_active active starts
sum_active-le t q t0 t1 [] below above l b = omega arith
sum_active-le t q t0 t1 ((sid, lease) ∷ rest) below above l b =
    elim (Bool-cases (leb t0 lease.start && ltb lease.start t1)) [
      | inl h ↦
          let (here, later) = rw h at b in
          ground (arith, here, sum_active-le t q t0 t1 rest below above l later)
      | inr h ↦ ground (arith, sum_active-le t q t0 t1 rest below above l (rw h at b))
    ]

sum_active-meeting :
    (t t0 t1 : ℕ) (leases : Leases)
    → t0 ≤ t
    → t < t1
    → sum_active t (meeting t0 t1 leases) ≡ sum_active t leases
unfolding sum_active active meeting
sum_active-meeting t t0 t1 [] l k = refl
sum_active-meeting t t0 t1 ((sid, lease) ∷ rest) l k =
    ground (arith, sum_active-meeting t t0 t1 rest l k)

sum_active-peak-le :
    (t t0 t1 : ℕ) (leases : Leases) → t0 ≤ t → t < t1 → sum_active t leases ≤ peak t0 t1 leases
unfolding peak sum_active
sum_active-peak-le t t0 t1 [] l k = omega arith
sum_active-peak-le t t0 t1 (x ∷ xs) l k =
    let ls = x ∷ xs in
    let ps = starts t0 t1 ls in
    omega (
      arith,
      sum_active-le t (latest t t0 ps) t0 t1 ls k (latest-ge t t0 ps) (latest-le t t0 ps l)
          (latest-Below t t0 ps),
      sum_active-latest-le ls (sum_active t0 ls) t t0 ps (omega arith),
    )

starts-Within : (t0 t1 : ℕ) (leases : Leases) → Within t0 t1 (starts t0 t1 leases)
unfolding starts
starts-Within t0 t1 [] = tt
starts-Within t0 t1 ((sid, lease) ∷ rest) =
    elim (Bool-cases (leb t0 lease.start && ltb lease.start t1)) [
      | inl h ↦ rw h (ground arith, ground arith, starts-Within t0 t1 rest)
      | inr h ↦ rw h (starts-Within t0 t1 rest)
    ]

largest_sum-attained :
    (leases : Leases) (best u t0 t1 : ℕ) (ts : List ℕ)
    → t0 ≤ u
    → u < t1
    → best ≡ sum_active u leases
    → Within t0 t1 ts
    → (v : ℕ) × (t0 ≤ v) × (v < t1) × (largest_sum leases best ts ≡ sum_active v leases)
unfolding largest_sum
largest_sum-attained leases best u t0 t1 [] l k e w = (u, l, k, e)
largest_sum-attained leases best u t0 t1 (t ∷ ts) l k e (a, b, w) =
    elim (max-either best (sum_active t leases)) [
      | inl h ↦
          largest_sum-attained leases (max best (sum_active t leases)) u t0 t1 ts l k (h ∙ e) w
      | inr h ↦ largest_sum-attained leases (max best (sum_active t leases)) t t0 t1 ts a b h w
    ]

peak-attained :
    (t0 t1 : ℕ) (leases : Leases)
    → t0 < t1
    → (v : ℕ) × (t0 ≤ v) × (v < t1) × (peak t0 t1 leases ≡ sum_active v leases)
unfolding peak sum_active
peak-attained t0 t1 [] l = (t0, omega arith, l, refl)
peak-attained t0 t1 (x ∷ xs) l =
    largest_sum-attained (x ∷ xs) _ t0 t0 t1 _ (omega arith) l refl (starts-Within t0 t1 (x ∷ xs))

-- `active_max` over [t0, t1) is the peak: at every instant of the interval at most so much is leased,
-- and at some instant exactly so much.
pub active_max-peak :
    (l : Ledger) (res : Text) (t0 t1 : ℕ)
    → t0 < t1
    → ((t : ℕ) → t0 ≤ t → t < t1 → active_sum l res t ≤ active_max l res t0 t1)
      × ((t : ℕ) × (t0 ≤ t) × (t < t1) × (active_max l res t0 t1 ≡ active_sum l res t))
unfolding active_sum active_max
active_max-peak l res t0 t1 some_time =
    let leases = leases_of l.by_res res in
    let (v, above, below, e) = peak-attained t0 t1 (meeting t0 t1 leases) some_time in
    (
      λ t a b. omega (
        arith,
        sum_active-peak-le t t0 t1 (meeting t0 t1 leases) a b,
        sum_active-meeting t t0 t1 leases a b,
      ),
      (v, above, below, e ∙ sum_active-meeting v t0 t1 leases above below),
    )
