-- ===== src/Harness/Gateway/Queue.antt =====
-- society/harness/gateway.py: the first-come semaphore that a pool for tools is, and its waiters.
use society_harness.Prelude.{
  ℕ, ◌+◌, ◌≡◌, refl, Bool, true, false, Text, List, [], ◌∷◌, arith, ◌==◌, if◌then◌else◌, Bool-cases,
  inl, inr,
}
use society_harness.Prelude.Int.{ℤ, pos, ◌+ℤ◌, leb_ℤ}
use society_harness.Harness.Gateway.{Grant, Waiter, Gateway, is_chat, is_done, remove_first}
use society_harness.Harness.Gateway.Admission.{sort_by, insert_by}

-- The semaphore: it lets the waiters in one after another, and stops at the first that does not fit.
unfoldable pub admitted : ℕ → ℤ → List Waiter → List Waiter
admitted limit used [] = []
admitted limit used (w ∷ ws) =
    let rest = admitted limit (used +ℤ pos w.grant.amt) ws in
    if leb_ℤ (used +ℤ pos w.grant.amt) (pos (limit + 1)) then w ∷ rest else []

-- The futures on which results are set, the last first.
unfoldable pub settled : List (ℕ × Grant) → List ℕ
settled [] = []
settled ((fut, g) ∷ rest) = fut ∷ settled rest

unfoldable pub set_all : List Waiter → List ℕ → List ℕ
set_all [] futs = futs
set_all (w ∷ ws) futs = set_all ws (w.fut ∷ futs)

unfoldable pub leave_all : List Waiter → List Waiter → List Waiter
leave_all [] queue = queue
leave_all (w ∷ ws) queue = leave_all ws (remove_first w.fut queue)

-- A tool call that waits for `name`.
abbrev pub IsTool : Text → Gateway → Waiter → Type 0
IsTool name s w = (is_chat w.grant ≡ false) × (w.grant.res ≡ name) × (is_done w s ≡ false)

abbrev pub Differ : ℕ → List Waiter → Type 0
Differ fut [] = Unit
Differ fut (w ∷ ws) = ((fut == w.fut) ≡ false) × Differ fut ws

-- Tool calls with futures of their own.
abbrev pub AllTools : Text → Gateway → List Waiter → Type 0
AllTools name s [] = Unit
AllTools name s (w ∷ ws) = IsTool name s w × Differ w.fut ws × AllTools name s ws

pub Differ-insert_by :
    (before : Waiter → Waiter → Bool) (fut : ℕ) (w : Waiter) (ws : List Waiter)
    → (fut == w.fut) ≡ false
    → Differ fut ws
    → Differ fut (insert_by before w ws)
unfolding insert_by
Differ-insert_by before fut w [] d ds = (d, tt)
Differ-insert_by before fut w (v ∷ vs) d ds = elim (Bool-cases (before w v)) [
  | inl first ↦ rw first (d, ds)
  | inr later ↦ rw later (ds.0, Differ-insert_by before fut w vs d ds.1)
]

pub AllTools-insert_by :
    (before : Waiter → Waiter → Bool) (name : Text) (s : Gateway) (w : Waiter) (ws : List Waiter)
    → AllTools name s (w ∷ ws)
    → AllTools name s (insert_by before w ws)
unfolding insert_by
AllTools-insert_by before name s w [] t = t
AllTools-insert_by before name s w (v ∷ vs) (tool, (d, ds), (tool', ds', ts)) =
    elim (Bool-cases (before w v)) [
      | inl first ↦ rw first (tool, (d, ds), (tool', ds', ts))
      | inr later ↦ rw later (
        tool',
        Differ-insert_by before v.fut w vs (ground arith) ds',
        AllTools-insert_by before name s w vs (tool, ds, ts),
      )
    ]

pub Differ-sort_by :
    (before : Waiter → Waiter → Bool) (fut : ℕ) (ws : List Waiter)
    → Differ fut ws
    → Differ fut (sort_by before ws)
unfolding sort_by
Differ-sort_by before fut [] d = tt
Differ-sort_by before fut (w ∷ ws) (d, ds) =
    Differ-insert_by before fut w (sort_by before ws) d (Differ-sort_by before fut ws ds)

pub AllTools-sort_by :
    (before : Waiter → Waiter → Bool) (name : Text) (s : Gateway) (ws : List Waiter)
    → AllTools name s ws
    → AllTools name s (sort_by before ws)
unfolding sort_by
AllTools-sort_by before name s [] t = tt
AllTools-sort_by before name s (w ∷ ws) (tool, ds, ts) =
    AllTools-insert_by before name s w (sort_by before ws)
      (tool, Differ-sort_by before w.fut ws ds, AllTools-sort_by before name s ws ts)

pub admitted-nil : (limit : ℕ) (used : ℤ) → admitted limit used [] ≡ []
unfolding admitted
admitted-nil limit used = refl

pub admitted-In :
    (limit : ℕ) (used : ℤ) (w : Waiter) (ws : List Waiter)
    → leb_ℤ (used +ℤ pos w.grant.amt) (pos (limit + 1)) ≡ true
    → admitted limit used (w ∷ ws) ≡ w ∷ admitted limit (used +ℤ pos w.grant.amt) ws
unfolding admitted
admitted-In limit used w ws enough = rw enough refl

pub admitted-Out :
    (limit : ℕ) (used : ℤ) (w : Waiter) (ws : List Waiter)
    → leb_ℤ (used +ℤ pos w.grant.amt) (pos (limit + 1)) ≡ false
    → admitted limit used (w ∷ ws) ≡ []
unfolding admitted
admitted-Out limit used w ws full = rw full refl
