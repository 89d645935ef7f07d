-- ===== src/Gates/Validator/Upstream.antt =====
-- society/gates/deterministic.py: `_ancestors` and the nodes upstream of a node.
use society_harness.Prelude.{
  ◌↔◌, ℕ, zero, suc, ◌+◌, ◌≤◌, ◌≡◌, refl, true, false, Text, same, same→eq, same_iff, same_refl,
  count, ◌⊎◌, mem, mem-append, mem-reverse, List, [], ◌∷◌, ◌++◌, length, length-append,
  length-reverse, arith, if◌then◌else◌, reverse, Bool-cases, inl, inr, sym, ap, ◌∙◌, ◌||◌,
  append-nil,
}
use society_harness.Spec.{NodeSpec}
use society_harness.Gates.Validator.{ids, by_id, deps_of, climb, edge_count, ancestors}

-- `u` is a dependency of `x`, or of a node upstream of `x`.
pub data Upstream (nodes : List NodeSpec) (x : Text) : Text → Type 0 where
  direct : {u : Text} → mem u (deps_of nodes x) ≡ true → Upstream nodes x u
  further : {d u : Text} → Upstream nodes x d → mem u (deps_of nodes d) ≡ true → Upstream nodes x u

-- The dependencies that the loop may still push.
unseen_edges : List Text → List NodeSpec → ℕ
unseen_edges seen [] = 0
unseen_edges seen (n ∷ ns) =
    if mem n.id seen then unseen_edges seen ns else length n.depends_on + unseen_edges seen ns

unseen_edges-nil : (nodes : List NodeSpec) → unseen_edges [] nodes ≡ edge_count nodes
unfolding unseen_edges edge_count mem
unseen_edges-nil [] = refl
unseen_edges-nil (n ∷ ns) = ap (◌+◌ (length n.depends_on)) (unseen_edges-nil ns)

unseen_edges-le :
    (cur : Text) (seen : List Text) (nodes : List NodeSpec)
    → unseen_edges (cur ∷ seen) nodes ≤ unseen_edges seen nodes
unfolding unseen_edges mem
unseen_edges-le cur seen [] = omega arith
unseen_edges-le cur seen (n ∷ ns) = ground (arith, unseen_edges-le cur seen ns)

unseen_edges-push :
    (cur : Text) (seen : List Text) (nodes : List NodeSpec)
    → mem cur seen ≡ false
    → length (deps_of nodes cur) + unseen_edges (cur ∷ seen) nodes ≤ unseen_edges seen nodes
unfolding unseen_edges mem deps_of by_id
unseen_edges-push cur seen [] h = omega arith
unseen_edges-push cur seen (n ∷ ns) h = ground (
  arith,
  unseen_edges-push cur seen ns h,
  unseen_edges-le cur seen ns,
  same_iff n.id cur,
  same_iff cur n.id,
)

module _ (nodes : List NodeSpec) (x : Text) where
  abbrev pushed : Text → List Text → List Text
  pushed cur stack = reverse (deps_of nodes cur) ++ stack

  record Inv (seen stack : List Text) : Type 0 where
    sound : (u : Text) → mem u (seen ++ stack) ≡ true → Upstream nodes x u
    begun : (u : Text) → mem u (deps_of nodes x) ≡ true → mem u (seen ++ stack) ≡ true
    closed :
        (d u : Text)
        → mem d seen ≡ true
        → mem u (deps_of nodes d) ≡ true
        → mem u (seen ++ stack) ≡ true

  module _ (seen : List Text) (cur : Text) (stack : List Text) where
    -- A node that was seen before is passed over.
    mem-skip :
        (u : Text) → mem cur seen ≡ true → mem u (seen ++ cur ∷ stack) ≡ mem u (seen ++ stack)
    unfolding mem
    mem-skip u h =
        ground (arith, mem-append u seen (cur ∷ stack), mem-append u seen stack, same_iff cur u)

    mem-push :
        (u : Text)
        → mem u ((cur ∷ seen) ++ pushed cur stack)
          ≡ (mem u (deps_of nodes cur) || mem u (seen ++ cur ∷ stack))
    unfolding mem
    mem-push u = ground (
      arith,
      mem-append u seen (cur ∷ stack),
      mem-append u seen (pushed cur stack),
      mem-append u (reverse (deps_of nodes cur)) stack,
      mem-reverse u (deps_of nodes cur),
    )

    Inv-skip : mem cur seen ≡ true → Inv seen (cur ∷ stack) → Inv seen stack
    Inv-skip h v = record {
      sound = λ u m. v.sound u (mem-skip u h ∙ m);
      begun = λ u m. sym (mem-skip u h) ∙ v.begun u m;
      closed = λ d u m e. sym (mem-skip u h) ∙ v.closed d u m e;
    }

    sound-push :
        Inv seen (cur ∷ stack)
        → (u : Text) → mem u ((cur ∷ seen) ++ pushed cur stack) ≡ true
        → Upstream nodes x u
    unfolding mem
    sound-push v u m = elim (Bool-cases (mem u (deps_of nodes cur))) [
      | inl new ↦
          further (v.sound cur (ground (arith, mem-append cur seen (cur ∷ stack), same_refl cur)))
            new
      | inr old ↦ v.sound u (ground (arith, mem-push u))
    ]

    closed-push :
        Inv seen (cur ∷ stack)
        → (d u : Text) → mem d (cur ∷ seen) ≡ true
        → mem u (deps_of nodes d) ≡ true
        → mem u ((cur ∷ seen) ++ pushed cur stack) ≡ true
    unfolding mem
    closed-push v d u m e = elim (Bool-cases (same cur d)) [
      | inl hit ↦
          let here : mem u (deps_of nodes cur) ≡ true = rw (same→eq cur d hit) e in
          ground (arith, mem-push u)
      | inr miss ↦ let old = v.closed d u (ground arith) e in ground (arith, mem-push u)
    ]

    Inv-push : Inv seen (cur ∷ stack) → Inv (cur ∷ seen) (pushed cur stack)
    unfolding mem
    Inv-push v = record {
      sound = sound-push v;
      begun = λ u m. let old = v.begun u m in ground (arith, mem-push u);
      closed = closed-push v;
    }

  Climbed : List Text × List Text → Type 0
  Climbed (seen, stack) = (stack ≡ []) × Inv seen []

  climb-Climbed :
      (fuel : ℕ) (seen stack : List Text)
      → Inv seen stack
      → length stack + unseen_edges seen nodes ≤ fuel
      → Climbed (climb nodes fuel seen stack)
  unfolding climb Climbed
  climb-Climbed zero seen [] v h = (refl, v)
  climb-Climbed zero seen (cur ∷ stack) v h = absurd (omega arith)
  climb-Climbed (suc fuel) seen [] v h = (refl, v)
  climb-Climbed (suc fuel) seen (cur ∷ stack) v h = elim (Bool-cases (mem cur seen)) [
    | inl old ↦
        rw (old, climb)
          (climb-Climbed fuel seen stack (Inv-skip seen cur stack old v) (omega arith))
    | inr new ↦
        rw (new, climb)
          (climb-Climbed fuel (cur ∷ seen) (pushed cur stack) (Inv-push seen cur stack v) (
            omega (
              arith,
              unseen_edges-push cur seen nodes new,
              length-append (reverse (deps_of nodes cur)) stack,
              length-reverse (deps_of nodes cur),
            )))
  ]

  Inv-start : Inv [] (reverse (deps_of nodes x))
  unfolding mem
  Inv-start = record {
    sound = λ u m. direct (sym (mem-reverse u (deps_of nodes x)) ∙ m);
    begun = λ u m. mem-reverse u (deps_of nodes x) ∙ m;
    closed = λ d u m e. cc;
  }

  ancestors-Inv : Inv (ancestors nodes x) []
  unfolding ancestors Climbed
  ancestors-Inv =
      (climb-Climbed (length (deps_of nodes x) + edge_count nodes) [] _ Inv-start
        (omega (arith, unseen_edges-nil nodes, length-reverse (deps_of nodes x)))).1

  pub mem-ancestors-Upstream : (u : Text) → mem u (ancestors nodes x) ≡ true → Upstream nodes x u
  mem-ancestors-Upstream u m = ancestors-Inv.sound u (rw append-nil m)

  pub Upstream-mem-ancestors : {u : Text} → Upstream nodes x u → mem u (ancestors nodes x) ≡ true
  Upstream-mem-ancestors (direct {u} m) = rw append-nil at (ancestors-Inv.begun u m)
  Upstream-mem-ancestors (further {d} {u} up m) =
      rw append-nil at (ancestors-Inv.closed d u (Upstream-mem-ancestors up) m)

-- Some node has the id `x` and depends on `u`.
abbrev pub HasEdge : List NodeSpec → Text → Text → Type 0
HasEdge [] x u = ⊥
HasEdge (n ∷ ns) x u = ((n.id ≡ x) × (mem u n.depends_on ≡ true)) ⊎ HasEdge ns x u

-- A path of such dependencies, of one or more.
pub data Reaches (nodes : List NodeSpec) (x : Text) : Text → Type 0 where
  one_edge : {u : Text} → HasEdge nodes x u → Reaches nodes x u
  more_edges : {d u : Text} → Reaches nodes x d → HasEdge nodes d u → Reaches nodes x u

deps_of-HasEdge :
    (nodes : List NodeSpec) (x u : Text) → mem u (deps_of nodes x) ≡ true → HasEdge nodes x u
unfolding deps_of by_id mem
deps_of-HasEdge [] x u m = absurd cc
deps_of-HasEdge (n ∷ ns) x u m = elim (Bool-cases (same n.id x)) [
  | inl here ↦ inl ((same_iff n.id x).0 here, rw here at m)
  | inr elsewhere ↦ inr (deps_of-HasEdge ns x u (rw elsewhere at m))
]

HasEdge-count : (nodes : List NodeSpec) (x u : Text) → HasEdge nodes x u → 1 ≤ count x (ids nodes)
unfolding count
HasEdge-count [] x u h = absurd h
HasEdge-count (n ∷ ns) x u (inl (here, m)) =
    let it : same n.id x ≡ true = (same_iff n.id x).1 here in ground arith
HasEdge-count (n ∷ ns) x u (inr h) = ground (arith, HasEdge-count ns x u h)

HasEdge-deps_of :
    (nodes : List NodeSpec) (x u : Text)
    → ((y : Text) → count y (ids nodes) ≤ 1)
    → HasEdge nodes x u
    → mem u (deps_of nodes x) ≡ true
unfolding deps_of by_id count
HasEdge-deps_of [] x u unique h = absurd h
HasEdge-deps_of (n ∷ ns) x u unique (inl (here, m)) =
    let it : same n.id x ≡ true = (same_iff n.id x).1 here in rw it m
HasEdge-deps_of (n ∷ ns) x u unique (inr h) = elim (Bool-cases (same n.id x)) [
  | inl twice ↦ absurd (ground (arith, unique x, HasEdge-count ns x u h))
  | inr elsewhere ↦ rw elsewhere (HasEdge-deps_of ns x u (λ y. ground (arith, unique y)) h)
]

Upstream-Reaches :
    (nodes : List NodeSpec) (x : Text) {u : Text} → Upstream nodes x u → Reaches nodes x u
Upstream-Reaches nodes x (direct {u} m) = one_edge (deps_of-HasEdge nodes x u m)
Upstream-Reaches nodes x (further {d} {u} up m) =
    more_edges (Upstream-Reaches nodes x up) (deps_of-HasEdge nodes d u m)

Reaches-Upstream :
    (nodes : List NodeSpec) (x : Text)
    → ((y : Text) → count y (ids nodes) ≤ 1)
    → {u : Text} → Reaches nodes x u
    → Upstream nodes x u
Reaches-Upstream nodes x unique (one_edge {u} e) = direct (HasEdge-deps_of nodes x u unique e)
Reaches-Upstream nodes x unique (more_edges {d} {u} up e) =
    further (Reaches-Upstream nodes x unique up) (HasEdge-deps_of nodes d u unique e)

-- In a graph whose ids are unique and whose dependencies are ids of nodes, `_ancestors` returns for a
-- node exactly the nodes that it reaches by one or more dependencies.
pub mem-ancestors_iff :
    (nodes : List NodeSpec) (x u : Text)
    → ((y : Text) → count y (ids nodes) ≤ 1)
    → ((y d : Text) → HasEdge nodes y d → mem d (ids nodes) ≡ true)
    → mem x (ids nodes) ≡ true
    → (mem u (ancestors nodes x) ≡ true) ↔ Reaches nodes x u
mem-ancestors_iff nodes x u unique known here = (
  λ m. Upstream-Reaches nodes x (mem-ancestors-Upstream nodes x u m),
  λ path. Upstream-mem-ancestors nodes x (Reaches-Upstream nodes x unique path),
)
