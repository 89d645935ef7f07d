-- ===== src/Harness/Gateway/Turns.antt =====
-- society/harness/gateway.py: the order in which waiters become ready, first come first.
use society_harness.Prelude.{
  ℕ, ◌≤◌, ◌≡◌, refl, ◌∙◌, List, [], ◌∷◌, arith, ◌==◌, if◌then◌else◌, Bool-cases, inl, inr,
}
use society_harness.Harness.Gateway.{Waiter}
use society_harness.Harness.Gateway.Admission.{sort_by, insert_by, first_ready}

-- No waiter was ready before `t`.
abbrev pub NotBefore : ℕ → List Waiter → Type 0
NotBefore t [] = Unit
NotBefore t (w ∷ ws) = (t ≤ w.grant.t_ready) × NotBefore t ws

-- Nobody stands behind one who was ready later.
abbrev pub Ascending : List Waiter → Type 0
Ascending [] = Unit
Ascending (w ∷ ws) = NotBefore w.grant.t_ready ws × Ascending ws

-- The waiters that became ready at `t`.
abbrev pub ready_at : ℕ → List Waiter → List Waiter
ready_at t [] = []
ready_at t (w ∷ ws) = if w.grant.t_ready == t then w ∷ ready_at t ws else ready_at t ws

-- `turns` has the waiters of `queue`, those who were ready first in front, and those who were ready at
-- the same time in the order of the queue.
abbrev pub FirstCome : List Waiter → List Waiter → Type 0
FirstCome queue turns = Ascending turns × ((t : ℕ) → ready_at t turns ≡ ready_at t queue)

NotBefore-le : (t u : ℕ) (ws : List Waiter) → t ≤ u → NotBefore u ws → NotBefore t ws
NotBefore-le t u [] h n = tt
NotBefore-le t u (w ∷ ws) h (here, later) = (omega arith, NotBefore-le t u ws h later)

NotBefore-insert :
    (t : ℕ) (w : Waiter) (ws : List Waiter)
    → t ≤ w.grant.t_ready
    → NotBefore t ws
    → NotBefore t (insert_by first_ready w ws)
unfolding insert_by
NotBefore-insert t w [] h n = (h, tt)
NotBefore-insert t w (v ∷ vs) h (here, later) = elim (Bool-cases (first_ready w v)) [
  | inl first ↦ rw first (h, (here, later))
  | inr behind ↦ rw behind (here, NotBefore-insert t w vs h later)
]

Ascending-insert :
    (w : Waiter) (ws : List Waiter) → Ascending ws → Ascending (insert_by first_ready w ws)
unfolding insert_by
Ascending-insert w [] a = (tt, tt)
Ascending-insert w (v ∷ vs) (front, rest) = elim (Bool-cases (first_ready w v)) [
  | inl first ↦
      let below : w.grant.t_ready ≤ v.grant.t_ready = ground arith in
      rw first ((below, NotBefore-le w.grant.t_ready v.grant.t_ready vs below front), (front, rest))
  | inr behind ↦
      let above : v.grant.t_ready ≤ w.grant.t_ready = ground arith in
      rw behind (NotBefore-insert v.grant.t_ready w vs above front, Ascending-insert w vs rest)
]

ready_at-insert :
    (t : ℕ) (w : Waiter) (ws : List Waiter)
    → ready_at t (insert_by first_ready w ws) ≡ ready_at t (w ∷ ws)
unfolding insert_by
ready_at-insert t w [] = refl
ready_at-insert t w (v ∷ vs) = ground (arith, ready_at-insert t w vs)

sort_by-Ascending : (ws : List Waiter) → Ascending (sort_by first_ready ws)
unfolding sort_by
sort_by-Ascending [] = tt
sort_by-Ascending (w ∷ ws) = Ascending-insert w (sort_by first_ready ws) (sort_by-Ascending ws)

ready_at-sort_by : (t : ℕ) (ws : List Waiter) → ready_at t (sort_by first_ready ws) ≡ ready_at t ws
unfolding sort_by
ready_at-sort_by t [] = refl
ready_at-sort_by t (w ∷ ws) =
    ready_at-insert t w (sort_by first_ready ws) ∙ ground (arith, ready_at-sort_by t ws)

pub sort_by-FirstCome : (ws : List Waiter) → FirstCome ws (sort_by first_ready ws)
sort_by-FirstCome ws = (sort_by-Ascending ws, λ t. ready_at-sort_by t ws)
