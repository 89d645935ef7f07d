-- ===== src/Gates/Validator/Wiring.antt =====
-- society/gates/deterministic.py: the checks of `validate_dag` on single nodes and their inputs.
use society_harness.Prelude.{
  ◌≡◌, ◌≢◌, refl, true, Text, same, same→eq, same_refl, mem, mem-append, List, [], ◌∷◌, arith,
  Bool-cases, inl, inr, ◌↔◌, ◌⊎◌, none,
}
use society_harness.Spec.{NodeSpec}
use society_harness.Gates.Validator.{
  by_id, deps_of, inputs_of, outputs_of, any_empty, unknown_dep, nodes_fault, outputs_of_all,
  unproduced, available, wiring_fault, ancestors,
}
use society_harness.Gates.Validator.Upstream.{
  Upstream, mem-ancestors-Upstream, Upstream-mem-ancestors,
}

-- A node has an agent, and depends on known nodes only.
pub record IsSound (known : List Text) (n : NodeSpec) : Type 0 where
  pub deps_known : (d : Text) → mem d n.depends_on ≡ true → mem d known ≡ true
  pub has_agent : n.agent ≢ []

abbrev pub AllSound : List Text → List NodeSpec → Type 0
AllSound known [] = Unit {0}
AllSound known (n ∷ ns) = IsSound known n × AllSound known ns

pub any_empty-mem : (xs : List Text) → any_empty xs ≡ mem [] xs
unfolding any_empty mem same
any_empty-mem [] = refl
any_empty-mem ([] ∷ xs) = refl
any_empty-mem ((c ∷ cs) ∷ xs) = any_empty-mem xs

unknown_dep-none :
    (known ds : List Text)
    → (unknown_dep known ds ≡ none) ↔ ((d : Text) → mem d ds ≡ true → mem d known ≡ true)
unfolding unknown_dep mem
unknown_dep-none known [] = (λ e d m. cc, λ h. refl)
unknown_dep-none known (x ∷ ds) = (
  λ e d m. elim (Bool-cases (same x d)) [
    | inl hit ↦ rw (← same→eq x d hit) (ground arith)
    | inr miss ↦ (unknown_dep-none known ds).0 (ground arith) d (ground arith)
  ],
  λ h.
      let rest = (unknown_dep-none known ds).1 (λ d m. h d (ground arith)) in
      ground (arith, h x, same_refl x),
)

pub nodes_fault-none :
    (known : List Text) (nodes : List NodeSpec)
    → (nodes_fault known nodes ≡ none) ↔ AllSound known nodes
unfolding nodes_fault
nodes_fault-none known [] = (λ e. tt, λ a. refl)
nodes_fault-none known (n ∷ ns) = (
  λ e. (
    record {
      deps_known = (unknown_dep-none known n.depends_on).0 (ground arith);
      has_agent = λ bare. ground arith;
    },
    (nodes_fault-none known ns).0 (ground arith),
  ),
  λ a.
      let clean = (unknown_dep-none known n.depends_on).1 a.0.deps_known in
      let rest = (nodes_fault-none known ns).1 a.1 in let bare = a.0.has_agent in ground arith,
)

pub deps_of_known :
    (known : List Text) (nodes : List NodeSpec) (x d : Text)
    → AllSound known nodes
    → mem d (deps_of nodes x) ≡ true
    → mem d known ≡ true
unfolding deps_of by_id mem
deps_of_known known [] x d a m = cc
deps_of_known known (n ∷ ns) x d a m =
    ground (arith, a.0.deps_known d, deps_of_known known ns x d a.1)

unproduced-none :
    (given inputs : List Text)
    → (unproduced given inputs ≡ none) ↔ ((i : Text) → mem i inputs ≡ true → mem i given ≡ true)
unfolding unproduced mem
unproduced-none given [] = (λ e i m. cc, λ h. refl)
unproduced-none given (x ∷ inputs) = (
  λ e i m. elim (Bool-cases (same x i)) [
    | inl hit ↦ rw (← same→eq x i hit) (ground arith)
    | inr miss ↦ (unproduced-none given inputs).0 (ground arith) i (ground arith)
  ],
  λ h.
      let rest = (unproduced-none given inputs).1 (λ i m. h i (ground arith)) in
      ground (arith, h x, same_refl x),
)

module _ (nodes : List NodeSpec) (initial : List Text) where
  -- Every input of `x` is available to it.
  abbrev pub IsFed : Text → Type 0
  IsFed x = (i : Text) → mem i (inputs_of nodes x) ≡ true → mem i (available nodes initial x) ≡ true

  pub wiring_fault-none :
      (order : List Text)
      → (wiring_fault nodes initial order ≡ none) ↔ ((x : Text) → mem x order ≡ true → IsFed x)
  unfolding wiring_fault mem
  wiring_fault-none [] = (λ e x m. cc, λ h. refl)
  wiring_fault-none (y ∷ order) = (
    λ e x m. elim (Bool-cases (same y x)) [
      | inl hit ↦
          rw (← same→eq y x hit)
            ((unproduced-none (available nodes initial y) (inputs_of nodes y)).0 (ground arith))
      | inr miss ↦ (wiring_fault-none order).0 (ground arith) x (ground arith)
    ],
    λ h.
        let rest = (wiring_fault-none order).1 (λ x m. h x (ground arith)) in
        let here =
          (unproduced-none (available nodes initial y) (inputs_of nodes y)).1
            (h y (ground (arith, same_refl y))) in
        ground arith,
  )

  mem-outputs_of_all :
      (i : Text) (us : List Text)
      → mem i (outputs_of_all nodes us) ≡ true
      → (u : Text) × (mem u us ≡ true) × (mem i (outputs_of nodes u) ≡ true)
  unfolding outputs_of_all mem
  mem-outputs_of_all i [] m = cc
  mem-outputs_of_all i (u ∷ us) m = elim (Bool-cases (mem i (outputs_of nodes u))) [
    | inl here ↦ (u, ground (arith, same_refl u), here)
    | inr absent ↦
        let (v, among, makes) =
          mem-outputs_of_all i us
            (ground (arith, mem-append i (outputs_of nodes u) (outputs_of_all nodes us))) in
        (v, ground arith, makes)
  ]

  outputs_of_all-mem :
      (i u : Text) (us : List Text)
      → mem u us ≡ true
      → mem i (outputs_of nodes u) ≡ true
      → mem i (outputs_of_all nodes us) ≡ true
  unfolding outputs_of_all mem
  outputs_of_all-mem i u [] m makes = cc
  outputs_of_all-mem i u (v ∷ us) m makes = elim (Bool-cases (same v u)) [
    | inl hit ↦
        let here : mem i (outputs_of nodes v) ≡ true = rw (same→eq v u hit) makes in
        ground (arith, mem-append i (outputs_of nodes v) (outputs_of_all nodes us))
    | inr miss ↦ ground (
      arith,
      mem-append i (outputs_of nodes v) (outputs_of_all nodes us),
      outputs_of_all-mem i u us,
    )
  ]

  -- An input is given at the start, or published by a node upstream.
  abbrev pub Supplied : Text → Text → Type 0
  Supplied x i =
      (mem i initial ≡ true)
      ⊎ ((u : Text) × Upstream nodes x u × (mem i (outputs_of nodes u) ≡ true))

  pub available_iff : (x i : Text) → (mem i (available nodes initial x) ≡ true) ↔ Supplied x i
  available_iff x i = (
    λ m. elim (Bool-cases (mem i initial)) [
      | inl given ↦ inl given
      | inr absent ↦
          let (u, among, makes) =
            mem-outputs_of_all i (ancestors nodes x)
              (ground (arith, mem-append i (outputs_of_all nodes (ancestors nodes x)) initial)) in
          inr (u, mem-ancestors-Upstream nodes x u among, makes)
    ],
    λ s. elim s [
      | inl given ↦ ground (arith, mem-append i (outputs_of_all nodes (ancestors nodes x)) initial)
      | inr (u, up, makes) ↦ ground (
        arith,
        mem-append i (outputs_of_all nodes (ancestors nodes x)) initial,
        outputs_of_all-mem i u (ancestors nodes x) (Upstream-mem-ancestors nodes x up) makes,
      )
    ],
  )
