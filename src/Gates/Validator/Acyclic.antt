-- ===== src/Gates/Validator/Acyclic.antt =====
-- society/gates/deterministic.py: the order of `validate_dag` and the cycles of a graph.
use society_harness.Prelude.{
  ℕ, zero, suc, ◌≤◌, ◌<◌, ◌≡◌, true, Text, same, same→eq, mem, count, mem-append, mem_iff_count,
  List, [], ◌∷◌, ◌++◌, length, arith, if◌then◌else◌, ◌==◌, Bool-cases, inl, inr, append-nil,
  length-le_of_count, count-eq_of_length, ◌⊎◌,
}
use society_harness.Spec.{NodeSpec}
use society_harness.Gates.Validator.{ids, deps_of, ordering}
use society_harness.Gates.Validator.Counting.{Unique, pending, pending-zero}
use society_harness.Gates.Validator.Draining.{IsOrdered, Drained, ordering-Drained}

-- Every dependency is a node.
abbrev pub Known : List NodeSpec → Type 0
Known nodes = (x d : Text) → mem d (deps_of nodes x) ≡ true → mem d (ids nodes) ≡ true

-- The nodes can be ranked with each node above its dependencies: no cycle among them.
abbrev pub Acyclic : List NodeSpec → Type 0
Acyclic nodes =
    (rank : Text → ℕ) × ((x d : Text)
      → mem x (ids nodes) ≡ true
      → mem d (deps_of nodes x) ≡ true
      → rank d < rank x)

-- Where `x` first stands.
pub index : Text → List Text → ℕ
index x [] = 0
index x (y ∷ ys) = if same y x then 0 else suc (index x ys)

pub IsOrdered-index :
    (nodes : List NodeSpec) (seen xs : List Text) (x d : Text)
    → IsOrdered nodes seen xs
    → mem x xs ≡ true
    → mem d (deps_of nodes x) ≡ true
    → (mem d seen ≡ true) ⊎ (index d xs < index x xs)
unfolding mem index
IsOrdered-index nodes seen [] x d o m e = cc
IsOrdered-index nodes seen (y ∷ xs) x d o m e = elim (Bool-cases (same y x)) [
  | inl hit ↦ inl (o.0 d (rw (same→eq y x hit) e))
  | inr miss ↦ ground (
    arith,
    IsOrdered-index nodes (seen ++ y ∷ []) xs x d o.1 (ground arith) e,
    mem-append d seen (y ∷ []),
  )
]

module _ (nodes : List NodeSpec) (unique : Unique nodes) where
  abbrev pub order : List Text
  order = (ordering nodes).0

  drained : Drained nodes unique (ordering nodes)
  drained = ordering-Drained nodes unique

  -- With unique node ids the loop ends with an empty queue: the fuel, one round for each node, is
  -- enough.
  pub ordering_ends : (ordering nodes).1 ≡ []
  ordering_ends = drained.0

  pub ordering-IsOrdered : IsOrdered nodes [] order
  ordering-IsOrdered = drained.1.1.ordered

  placed_once :
      (x : Text)
      → count x order ≡ (if pending order (deps_of nodes x) == 0 then count x (ids nodes) else 0)
  placed_once x = rw append-nil at (drained.1.1.queued x)

  pub count-order-le : (x : Text) → count x order ≤ count x (ids nodes)
  count-order-le x = ground (arith, placed_once x)

  -- With no cycle every node is placed.
  placed :
      (rank : Text → ℕ)
      → ((x d : Text) → mem x (ids nodes) ≡ true → mem d (deps_of nodes x) ≡ true → rank d < rank x)
      → Known nodes
      → (n : ℕ) (x : Text) → mem x (ids nodes) ≡ true
      → rank x < n
      → mem x order ≡ true
  placed rank falls known zero x m h = elim h [ ]
  placed rank falls known (suc n) x m h =
      let ready : pending order (deps_of nodes x) ≡ 0 = pending-zero order (deps_of nodes x) (λ d e.
        let lower = falls x d m e in placed rank falls known n d (known x d e) (omega arith)) in
      ground (arith, placed_once x, mem_iff_count x order, mem_iff_count x (ids nodes))

  pub order_full-of_Acyclic : Known nodes → Acyclic nodes → length order ≡ length (ids nodes)
  order_full-of_Acyclic known (rank, falls) =
      let full : (x : Text) → count x (ids nodes) ≤ count x order = λ x.
        elim (Bool-cases (mem x (ids nodes))) [
          | inl here ↦ ground (
            arith,
            unique x,
            placed rank falls known (suc (rank x)) x here (omega arith),
            mem_iff_count x order,
          )
          | inr absent ↦ ground (arith, mem_iff_count x (ids nodes))
        ] in
      omega (
        arith,
        length-le_of_count order (ids nodes) count-order-le,
        length-le_of_count (ids nodes) order full,
      )

  pub count-order :
      length order ≡ length (ids nodes) → (x : Text) → count x order ≡ count x (ids nodes)
  count-order full = count-eq_of_length order (ids nodes) count-order-le (omega arith)

  pub Acyclic-of_order : length order ≡ length (ids nodes) → Acyclic nodes
  unfolding mem
  Acyclic-of_order full = (
    λ x. index x order,
    λ x d m e. ground (
      arith,
      count-order full x,
      mem_iff_count x order,
      mem_iff_count x (ids nodes),
      λ (here : mem x order ≡ true). IsOrdered-index nodes [] order x d ordering-IsOrdered here e,
    ),
  )
