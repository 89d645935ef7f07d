-- ===== src/Gates/Validator/Counting.antt =====
-- society/gates/deterministic.py: how often a node stands in the lists that `validate_dag` builds.
use society_harness.Prelude.{
  ℕ, zero, suc, ◌+◌, ◌≤◌, ◌≡◌, refl, true, false, Text, same, same→eq, same_iff, same_refl, mem,
  count, mem-append, count-append, mem_iff_count, List, [], ◌∷◌, ◌++◌, length, arith, if◌then◌else◌,
  ◌==◌, Bool-cases, inl, inr, ap,
}
use society_harness.Prelude.Int.{ℤ, pos, dec, is_zero}
use society_harness.Spec.{NodeSpec}
use society_harness.Gates.Validator.{
  ids, to_set, by_id, deps_of, edges, children, relax, indegrees, sources, update,
}

-- Every id stands once.
abbrev pub Unique : List NodeSpec → Type 0
Unique nodes = (x : Text) → count x (ids nodes) ≤ 1

to_set-le : (xs : List Text) → length (to_set xs) ≤ length xs
unfolding to_set
to_set-le [] = omega arith
to_set-le (x ∷ xs) = ground (arith, to_set-le xs)

pub to_set-count : (x : Text) (xs : List Text) → length (to_set xs) ≡ length xs → count x xs ≤ 1
unfolding to_set count
to_set-count x [] h = omega arith
to_set-count x (y ∷ xs) h =
    ground (arith, to_set-le xs, to_set-count x xs, same_iff y x, mem_iff_count x xs)

pub count-to_set : (xs : List Text) → ((x : Text) → count x xs ≤ 1) → length (to_set xs) ≡ length xs
unfolding to_set count
count-to_set [] h = refl
count-to_set (y ∷ xs) h =
    let rest : (x : Text) → count x xs ≤ 1 = λ x. ground (arith, h x) in
    ground (arith, count-to_set xs rest, h y, same_refl y, mem_iff_count y xs)

pub deps_of-nil :
    (nodes : List NodeSpec) (x : Text) → count x (ids nodes) ≡ 0 → deps_of nodes x ≡ []
unfolding deps_of by_id count
deps_of-nil [] x h = refl
deps_of-nil (n ∷ ns) x h = ground (arith, deps_of-nil ns x)

count-edges :
    (x dep n : Text) (ds : List Text)
    → count x (edges dep n ds) ≡ (if same n x then count dep ds else 0)
unfolding edges count
count-edges x dep n [] = ground arith
count-edges x dep n (d ∷ ds) = ground (arith, count-edges x dep n ds)

count-children_absent :
    (nodes : List NodeSpec) (x dep : Text)
    → count x (ids nodes) ≡ 0
    → count x (children nodes dep) ≡ 0
unfolding children count
count-children_absent [] x dep h = refl
count-children_absent (n ∷ ns) x dep h = ground (
  arith,
  count-append x (edges dep n.id n.depends_on) (children ns dep),
  count-edges x dep n.id n.depends_on,
  count-children_absent ns x dep,
)

-- A node stands among the children of `dep` as often as `dep` stands among its dependencies.
pub count-children :
    (nodes : List NodeSpec) (x dep : Text)
    → count x (ids nodes) ≤ 1
    → count x (children nodes dep) ≡ count dep (deps_of nodes x)
unfolding children deps_of by_id count
count-children [] x dep h = refl
count-children (n ∷ ns) x dep h = ground (
  arith,
  count-append x (edges dep n.id n.depends_on) (children ns dep),
  count-edges x dep n.id n.depends_on,
  count-children_absent ns x dep,
  count-children ns x dep,
)

-- How many of the dependencies are not in `seen`.
pub pending : List Text → List Text → ℕ
pending seen [] = 0
pending seen (d ∷ ds) = if mem d seen then pending seen ds else suc (pending seen ds)

pub pending-nil : (ds : List Text) → pending [] ds ≡ length ds
unfolding pending mem
pending-nil [] = refl
pending-nil (d ∷ ds) = ap suc (pending-nil ds)

pub pending-snoc :
    (seen : List Text) (cur : Text) (ds : List Text)
    → mem cur seen ≡ false
    → pending seen ds ≡ pending (seen ++ cur ∷ []) ds + count cur ds
unfolding pending count mem
pending-snoc seen cur [] h = refl
pending-snoc seen cur (d ∷ ds) h = ground (
  arith,
  mem-append d seen (cur ∷ []),
  same_iff d cur,
  same_iff cur d,
  pending-snoc seen cur ds h,
)

pub pending-mem :
    (seen : List Text) (d : Text) (ds : List Text)
    → pending seen ds ≡ 0
    → mem d ds ≡ true
    → mem d seen ≡ true
unfolding pending mem
pending-mem seen d [] h m = cc
pending-mem seen d (e ∷ ds) h m = ground (arith, same_iff e d, pending-mem seen d ds)

pub pending-zero :
    (seen ds : List Text) → ((d : Text) → mem d ds ≡ true → mem d seen ≡ true) → pending seen ds ≡ 0
unfolding pending mem
pending-zero seen [] h = refl
pending-zero seen (d ∷ ds) h =
    let rest : (e : Text) → mem e ds ≡ true → mem e seen ≡ true = λ e m. h e (ground arith) in
    let here : mem d seen ≡ true = h d (ground (arith, same_refl d)) in
    ground (arith, pending-zero seen ds rest)

dec-pos_suc : (a : ℤ) (m : ℕ) → a ≡ pos (suc m) → dec a ≡ pos m
dec-pos_suc a m h = rw h

-- One pass over `cs` lowers the count of `x` by its occurrences, and queues `x` if it falls to 0.
abbrev pub Relaxes : Text → ℕ → List Text → List Text → (Text → ℤ) × List Text → Type 0
Relaxes x k cs q (indeg, q') =
    (indeg x ≡ pos k)
    × (count x q' ≡ count x q + (if k == 0 then (if count x cs == 0 then 0 else 1) else 0))

queue_if : ℤ → Text → List Text → List Text
queue_if left c q = if is_zero left then q ++ c ∷ [] else q

count-queue_if :
    (x c : Text) (left : ℤ) (q : List Text)
    → count x (queue_if left c q)
      ≡ count x q + (if same c x then (if is_zero left then 1 else 0) else 0)
unfolding queue_if count
count-queue_if x c left q = ground (arith, count-append x q (c ∷ []))

is_zero-pos : (k : ℕ) → is_zero (pos k) ≡ (k == 0)
is_zero-pos zero = refl
is_zero-pos (suc k) = ground arith

Relaxes-hit :
    (c x : Text) (k : ℕ) (cs q : List Text) (left : ℤ) (r : (Text → ℤ) × List Text)
    → same c x ≡ true
    → left ≡ pos (k + count x cs)
    → Relaxes x k cs (queue_if left c q) r
    → Relaxes x k (c ∷ cs) q r
unfolding count
Relaxes-hit c x k cs q left r hit e (low, queued) =
    (low, ground (arith, count-queue_if x c left q, is_zero-pos (k + count x cs)))

Relaxes-miss :
    (c x : Text) (k : ℕ) (cs q : List Text) (left : ℤ) (r : (Text → ℤ) × List Text)
    → same c x ≡ false
    → Relaxes x k cs (queue_if left c q) r
    → Relaxes x k (c ∷ cs) q r
unfolding count
Relaxes-miss c x k cs q left r miss (low, queued) = (low, ground (arith, count-queue_if x c left q))

pub relax_lem :
    (cs : List Text) (indeg : Text → ℤ) (q : List Text) (x : Text) (k : ℕ)
    → indeg x ≡ pos (k + count x cs)
    → Relaxes x k cs q (relax cs indeg q)
unfolding relax count queue_if
relax_lem [] indeg q x k h = ground arith
relax_lem (c ∷ cs) indeg q x k h =
    let left = dec (indeg c) in
    let rest : indeg x ≡ pos (suc (k + count x cs))
        → same c x ≡ true
        → left ≡ pos (k + count x cs) =
      λ e hit. dec-pos_suc (indeg c) (k + count x cs) (rw (same→eq c x hit) e) in
    let after = relax cs (update indeg c left) (queue_if left c q) in
    elim (Bool-cases (same c x)) [
      | inl hit ↦
          let e : indeg x ≡ pos (suc (k + count x cs)) = ground arith in
          Relaxes-hit c x k cs q left after hit (rest e hit)
            (relax_lem cs (update indeg c left) (queue_if left c q) x k (rw hit (rest e hit)))
      | inr miss ↦
          Relaxes-miss c x k cs q left after miss
            (relax_lem cs (update indeg c left) (queue_if left c q) x k (ground arith))
    ]

count-sources :
    (indeg : Text → ℤ) (x : Text) (xs : List Text)
    → count x (sources indeg xs) ≡ (if is_zero (indeg x) then count x xs else 0)
unfolding sources count
count-sources indeg x [] = ground arith
count-sources indeg x (y ∷ xs) = elim (Bool-cases (same y x)) [
  | inl hit ↦ rw (same→eq y x hit) (ground (arith, count-sources indeg x xs))
  | inr miss ↦ ground (arith, count-sources indeg x xs)
]

-- The first queue holds each node without dependencies once.
pub count-sources-indegrees :
    (nodes : List NodeSpec) (x : Text) (xs : List Text)
    → count x (sources (indegrees nodes) xs)
      ≡ (if pending [] (deps_of nodes x) == 0 then count x xs else 0)
unfolding indegrees
count-sources-indegrees nodes x xs = ground (
  arith,
  count-sources (indegrees nodes) x xs,
  is_zero-pos (length (deps_of nodes x)),
  pending-nil (deps_of nodes x),
)
