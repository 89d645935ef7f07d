-- ===== src/Runner/Dag/Progress.antt =====
-- society/runner/dag.py: the progress of a run, and the number of its steps.
use society_harness.Prelude.{
  ℕ, zero, suc, ◌+◌, ◌*◌, ◌≤◌, ◌<◌, ◌≡◌, ◌≢◌, refl, true, false, Text, same, same_iff, same_symm,
  mem_iff_count, count, same_refl, mem, List, [], ◌∷◌, some, if◌then◌else◌, arith, ◌⊎◌, inl, inr,
  Bool-cases, length, ap, sym,
}
use society_harness.Spec.{NodeSpec}
use society_harness.Memory.Lineage.{approved}
use society_harness.Gates.Validator.{ids, by_id, deps_of, validate_dag, edge_count}
use society_harness.Gates.Validator.Counting.{Unique}
use society_harness.Gates.Validator.Acyclic.{Known, Acyclic}
use society_harness.Gates.Validator.Approval.{validate_dag_iff, Known-of_sound}
use society_harness.Runner.Dag.{
  Phase, waiting, running, returned, RunState, set_phase, start, wake_from, wake, complete, fail,
  Step, woke, returns, raises, Reached,
}
use society_harness.Runner.Dag.Order.{Inv, Reached-Inv}

-- Some node is executing, or some waiting task can go on.
abbrev pub CanMove : List NodeSpec → RunState → Type 0
CanMove nodes s =
    (y : Text) × (mem y (ids nodes) ≡ true)
    × ((s.phase y ≡ running) ⊎ ((s' : RunState) × (wake y s ≡ some s')))

module _ (nodes : List NodeSpec) (known : Known nodes) (acyclic : Acyclic nodes) (s : RunState)
    (inv : Inv nodes s) where
  moves_at :
      (n : ℕ)
      → ((d : Text)
          → acyclic.0 d < n
          → mem d (ids nodes) ≡ true
          → s.phase d ≢ returned
          → CanMove nodes s)
      → (x : Text) → acyclic.0 x < suc n
      → mem x (ids nodes) ≡ true
      → (p : Phase) → s.phase x ≡ p
      → p ≢ returned
      → CanMove nodes s
  unfolding wake wake_from mem
  moves_at n lower x r m returned e h = absurd (h refl)
  moves_at n lower x r m running e h = (x, m, inl e)
  moves_at n lower x r m (waiting []) e h = (x, m, inr (_, ap (λ p. wake_from p x s) e))
  moves_at n lower x r m (waiting (d ∷ ds)) e h = elim (Bool-cases (s.done d)) [
    | inl set ↦ (
      x,
      m,
      inr (
        record s { phase = set_phase s.phase x (if s.failed then returned else waiting ds) },
        ground arith,
      ),
    )
    | inr unset ↦
        let dep : mem d (deps_of nodes x) ≡ true =
          inv.within x d (d ∷ ds) e (ground (arith, same_refl d)) in
        lower d (omega (arith, acyclic.1 x d m dep)) (known x d dep)
          (λ b. ground (arith, inv.ends d))
  ]

  moves_below :
      (n : ℕ) (x : Text)
      → acyclic.0 x < n
      → mem x (ids nodes) ≡ true
      → s.phase x ≢ returned
      → CanMove nodes s
  moves_below zero x r m h = elim r [ ]
  moves_below (suc n) x r m h = moves_at n (moves_below n) x r m (s.phase x) refl h

-- No deadlock: on a graph that `validate_dag` approves, as long as the task of some node has not
-- returned, some node is executing or some waiting task can go on.
pub Reached-CanMove :
    (nodes : List NodeSpec) (initial : List Text) (s : RunState) (x : Text)
    → (validate_dag nodes initial).verdict ≡ approved
    → Reached nodes s
    → mem x (ids nodes) ≡ true
    → s.phase x ≢ returned
    → CanMove nodes s
Reached-CanMove nodes initial s x e r m h =
    let w = (validate_dag_iff nodes initial).0 e in
    moves_below nodes (Known-of_sound nodes w.sound) w.acyclic s (Reached-Inv nodes r)
      (suc (w.acyclic.0 x)) x (omega arith) m h

abbrev weight : Phase → ℕ
weight (waiting ds) = length ds + 2
weight running = 1
weight returned = 0

-- The steps that the tasks of these nodes may still take.
pub steps_left : List Text → RunState → ℕ
steps_left [] s = 0
steps_left (x ∷ xs) s = weight (s.phase x) + steps_left xs s

-- A step that changes one phase to a lighter one.
steps_left-le :
    (xs : List Text) (x : Text) (s s' : RunState) (p : Phase)
    → ((y : Text) → s'.phase y ≡ (if same x y then p else s.phase y))
    → weight p < weight (s.phase x)
    → steps_left xs s' ≤ steps_left xs s
unfolding steps_left
steps_left-le [] x s s' p h l = omega arith
steps_left-le (y ∷ xs) x s s' p h l =
    ground (arith, h y, same_iff x y, steps_left-le xs x s s' p h l)

steps_left-lt :
    (xs : List Text) (x : Text) (s s' : RunState) (p : Phase)
    → ((y : Text) → s'.phase y ≡ (if same x y then p else s.phase y))
    → weight p < weight (s.phase x)
    → mem x xs ≡ true
    → steps_left xs s' < steps_left xs s
unfolding steps_left mem
steps_left-lt [] x s s' p h l m = cc
steps_left-lt (y ∷ xs) x s s' p h l m = ground (
  arith,
  h y,
  same_iff x y,
  same_symm x y,
  same_refl x,
  steps_left-le xs x s s' p h l,
  steps_left-lt xs x s s' p h l,
)

Lighter : Text → RunState → RunState → Type 0
Lighter x s s' =
    (p : Phase) × ((y : Text) → s'.phase y ≡ (if same x y then p else s.phase y))
    × (weight p < weight (s.phase x))

wake_from-Lighter :
    (q : Phase) (x : Text) (s s' : RunState)
    → s.phase x ≡ q
    → wake_from q x s ≡ some s'
    → Lighter x s s'
unfolding wake_from set_phase Lighter
wake_from-Lighter (waiting []) x s s' here e =
    let p = if s.failed then returned else running in
    let one : record s { phase = set_phase s.phase x p } ≡ s' = cc in
    (p, λ y. ap (λ t. t.phase y) (sym one), rw here (ground arith))
wake_from-Lighter (waiting (d ∷ ds)) x s s' here e = elim (Bool-cases (s.done d)) [
  | inl set ↦
      let p = if s.failed then returned else waiting ds in
      let one : record s { phase = set_phase s.phase x p } ≡ s' = ground arith in
      (p, λ y. ap (λ t. t.phase y) (sym one), rw here (ground arith))
  | inr unset ↦ absurd (ground arith)
]
wake_from-Lighter running x s s' here e = cc
wake_from-Lighter returned x s s' here e = cc

Step-lt :
    (nodes : List NodeSpec) {s s' : RunState}
    → Step nodes s s'
    → steps_left (ids nodes) s' < steps_left (ids nodes) s
unfolding wake complete fail set_phase Lighter
Step-lt nodes {s} {s'} (woke x m e) =
    let (p, h, l) = wake_from-Lighter (s.phase x) x s s' refl e in
    steps_left-lt (ids nodes) x s s' p h l m
Step-lt nodes {s} (returns x o m here) =
    steps_left-lt (ids nodes) x s (complete x o s) returned (λ y. refl) (rw here (omega arith)) m
Step-lt nodes {s} (raises x e m here) =
    steps_left-lt (ids nodes) x s (fail x e s) returned (λ y. refl) (rw here (omega arith)) m

-- A run of so many steps.
pub data Steps (nodes : List NodeSpec) : ℕ → RunState → RunState → Type 0 where
  stay : {s : RunState} → Steps nodes 0 s s
  go :
      {n : ℕ} {s s' s'' : RunState}
      → Step nodes s s'
      → Steps nodes n s' s''
      → Steps nodes (suc n) s s''

Steps-le :
    (nodes : List NodeSpec) {n : ℕ} {s s' : RunState}
    → Steps nodes n s s'
    → n + steps_left (ids nodes) s' ≤ steps_left (ids nodes) s
Steps-le nodes stay = omega arith
Steps-le nodes (go step rest) = omega (arith, Step-lt nodes step, Steps-le nodes rest)

start-steps_left-skip :
    (n : NodeSpec) (ns : List NodeSpec) (xs : List Text)
    → mem n.id xs ≡ false
    → steps_left xs (start (n ∷ ns)) ≡ steps_left xs (start ns)
unfolding steps_left start mem deps_of by_id
start-steps_left-skip n ns [] m = refl
start-steps_left-skip n ns (x ∷ xs) m =
    ground (arith, same_symm n.id x, start-steps_left-skip n ns xs)

start-steps_left :
    (nodes : List NodeSpec)
    → Unique nodes
    → steps_left (ids nodes) (start nodes) ≡ edge_count nodes + 2 * length nodes
unfolding steps_left start deps_of by_id edge_count count
start-steps_left [] unique = refl
start-steps_left (n ∷ ns) unique =
    let once : mem n.id (ids ns) ≡ false =
      ground (arith, unique n.id, same_refl n.id, mem_iff_count n.id (ids ns)) in
    let rest = start-steps_left ns (λ x. ground (arith, unique x)) in
    ground (arith, same_refl n.id, start-steps_left-skip n ns (ids ns) once, rest)

-- A run ends: on a graph that `validate_dag` approves, no run takes more steps than two for each node
-- and one for each dependency.
pub Steps-bound :
    (nodes : List NodeSpec) (initial : List Text) (n : ℕ) (s : RunState)
    → (validate_dag nodes initial).verdict ≡ approved
    → Steps nodes n (start nodes) s
    → n ≤ edge_count nodes + 2 * length nodes
Steps-bound nodes initial n s e steps =
    let w = (validate_dag_iff nodes initial).0 e in
    omega (arith, Steps-le nodes steps, start-steps_left nodes w.unique)
