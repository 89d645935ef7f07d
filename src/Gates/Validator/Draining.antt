-- ===== src/Gates/Validator/Draining.antt =====
-- society/gates/deterministic.py: the queue of `validate_dag`. The invariant of its loop, and what
-- holds of the order when it ends.
use society_harness.Prelude.{
  ℕ, zero, suc, ◌+◌, ◌≤◌, ◌<◌, ◌≡◌, refl, true, false, Text, same_refl, mem, count, count-append,
  mem_iff_count, List, [], ◌∷◌, ◌++◌, length, length-append, length-map, arith, if◌then◌else◌, ◌==◌,
  ap, append-nil, append_assoc, ◌∙◌, length-le_of_count,
}
use society_harness.Prelude.Int.{ℤ, pos}
use society_harness.Spec.{NodeSpec}
use society_harness.Gates.Validator.{
  ids, deps_of, children, relax, drain, indegrees, sources, ordering,
}
use society_harness.Gates.Validator.Counting.{
  Unique, pending, pending-snoc, pending-nil, pending-mem, deps_of-nil, count-children, relax_lem,
  Relaxes, count-sources-indegrees,
}

-- Each node of `xs` stands behind all of its dependencies.
abbrev pub IsOrdered : List NodeSpec → List Text → List Text → Type 0
IsOrdered nodes seen [] = Unit {0}
IsOrdered nodes seen (x ∷ xs) =
    ((d : Text) → mem d (deps_of nodes x) ≡ true → mem d seen ≡ true)
    × IsOrdered nodes (seen ++ x ∷ []) xs

IsOrdered-snoc :
    (nodes : List NodeSpec) (seen xs : List Text) (x : Text)
    → IsOrdered nodes seen xs
    → ((d : Text) → mem d (deps_of nodes x) ≡ true → mem d (seen ++ xs) ≡ true)
    → IsOrdered nodes seen (xs ++ x ∷ [])
IsOrdered-snoc nodes seen [] x o h = (λ d m. rw append-nil at (h d m), tt)
IsOrdered-snoc nodes seen (y ∷ xs) x o h =
    (o.0, IsOrdered-snoc nodes (seen ++ y ∷ []) xs x o.1 λ d m. rw append_assoc (h d m))

-- How often `x` is queued or placed: once when nothing that it depends on is missing.
abbrev expected : List NodeSpec → List Text → Text → ℕ
expected nodes order x = if pending order (deps_of nodes x) == 0 then count x (ids nodes) else 0

pub record Inv (nodes : List NodeSpec) (indeg : Text → ℤ) (q order : List Text) : Type 0 where
  pub degree : (x : Text) → indeg x ≡ pos (pending order (deps_of nodes x))
  pub queued : (x : Text) → count x (order ++ q) ≡ expected nodes order x
  pub ordered : IsOrdered nodes [] order

module _ (nodes : List NodeSpec) (unique : Unique nodes) where
  Inv-start : Inv nodes (indegrees nodes) (sources (indegrees nodes) (ids nodes)) []
  unfolding indegrees
  Inv-start = record {
    degree = λ x. rw (pending-nil (deps_of nodes x));
    queued = λ x. count-sources-indegrees nodes x (ids nodes);
    ordered = tt;
  }

  module _ (indeg : Text → ℤ) (cur : Text) (q order : List Text) where
    cur_new : Inv nodes indeg (cur ∷ q) order → mem cur order ≡ false
    unfolding count
    cur_new v = ground (
      arith,
      v.queued cur,
      count-append cur order (cur ∷ q),
      same_refl cur,
      unique cur,
      mem_iff_count cur order,
    )

    cur_ready : Inv nodes indeg (cur ∷ q) order → pending order (deps_of nodes cur) ≡ 0
    unfolding count
    cur_ready v = ground (arith, v.queued cur, count-append cur order (cur ∷ q), same_refl cur)

    pending-step :
        (x : Text)
        → Inv nodes indeg (cur ∷ q) order
        → pending order (deps_of nodes x)
          ≡ pending (order ++ cur ∷ []) (deps_of nodes x) + count x (children nodes cur)
    pending-step x v =
        rw (count-children nodes x cur (unique x))
          (pending-snoc order cur (deps_of nodes x) (cur_new v))

    child_present : (x : Text) → 0 < count x (children nodes cur) → count x (ids nodes) ≡ 1
    unfolding count
    child_present x h = ground (
      arith,
      unique x,
      count-children nodes x cur (unique x),
      λ (e : count x (ids nodes) ≡ 0). ap (count cur) (deps_of-nil nodes x e),
    )

    queued-step :
        (x : Text) (r : (Text → ℤ) × List Text)
        → Inv nodes indeg (cur ∷ q) order
        → Relaxes x (pending (order ++ cur ∷ []) (deps_of nodes x)) (children nodes cur) q r
        → count x ((order ++ cur ∷ []) ++ r.1) ≡ expected nodes (order ++ cur ∷ []) x
    unfolding count
    queued-step x r v (low, queue) = ground (
      arith,
      count-append x (order ++ cur ∷ []) r.1,
      count-append x order (cur ∷ []),
      count-append x order (cur ∷ q),
      v.queued x,
      pending-step x v,
      child_present x,
    )

    relaxed :
        (x : Text)
        → Inv nodes indeg (cur ∷ q) order
        → Relaxes x
            (pending (order ++ cur ∷ []) (deps_of nodes x))
            (children nodes cur)
            q
            (relax (children nodes cur) indeg q)
    relaxed x v =
        relax_lem (children nodes cur) indeg q x _ (v.degree x ∙ ap pos (pending-step x v))

    Inv-step :
        Inv nodes indeg (cur ∷ q) order
        → let (indeg', q') = relax (children nodes cur) indeg q in
          Inv nodes indeg' q' (order ++ cur ∷ [])
    Inv-step v = record {
      degree = λ x. (relaxed x v).0;
      queued = λ x. queued-step x (relax (children nodes cur) indeg q) v (relaxed x v);
      ordered =
          IsOrdered-snoc nodes [] order cur v.ordered
            (λ d. pending-mem order d (deps_of nodes cur) (cur_ready v));
    }

  order-le :
      (indeg : Text → ℤ) (q order : List Text)
      → Inv nodes indeg q order
      → length order + length q ≤ length nodes
  order-le indeg q order v =
      let below : (x : Text) → count x (order ++ q) ≤ count x (ids nodes) =
        λ x. ground (arith, v.queued x) in
      omega (
        arith,
        length-append order q,
        length-le_of_count (order ++ q) (ids nodes) below,
        length-map (λ n. n.id) nodes,
      )

  -- The invariant when the loop has ended: the queue is empty.
  abbrev pub Drained : List Text × List Text → Type 0
  Drained (order, q) = (q ≡ []) × ((indeg : Text → ℤ) × Inv nodes indeg [] order)

  drain-Drained :
      (fuel : ℕ) (indeg : Text → ℤ) (q order : List Text)
      → Inv nodes indeg q order
      → length nodes ≤ fuel + length order
      → Drained (drain nodes fuel indeg q order)
  unfolding drain
  drain-Drained zero indeg [] order v h = (refl, (indeg, v))
  drain-Drained zero indeg (cur ∷ q) order v h =
      absurd (omega (arith, order-le indeg (cur ∷ q) order v))
  drain-Drained (suc fuel) indeg [] order v h = (refl, (indeg, v))
  drain-Drained (suc fuel) indeg (cur ∷ q) order v h =
      drain-Drained fuel _ _ (order ++ cur ∷ []) (Inv-step indeg cur q order v)
        (omega (arith, length-append order (cur ∷ [])))

  pub ordering-Drained : Drained (ordering nodes)
  unfolding ordering
  ordering-Drained = drain-Drained (length nodes) _ _ [] Inv-start (omega arith)
