-- ===== src/Runner/Dag/Result.antt =====
-- society/runner/dag.py: the result of a run whose tasks have all returned.
use society_harness.Prelude.{
  ◌≡◌, refl, true, false, Text, same_iff, same_refl, mem, List, [], ◌∷◌, some, if◌then◌else◌, arith,
  ◌⊎◌, inl, inr, Bool-cases, sym, ◌∙◌,
}
use society_harness.Spec.{NodeSpec}
use society_harness.Gates.Executor.Types.{NodeOutcome}
use society_harness.Gates.Validator.{ids}
use society_harness.Runner.Dag.{
  Phase, waiting, running, returned, completed, run_escalated, Failure, RunState, set_phase, start,
  wake_from, wake, complete, fail, Step, woke, returns, raises, Reached, started, later, finished,
}
use society_harness.Runner.Dag.Order.{Reached-Inv, mem-finished-complete}

-- A node whose task returned without an outcome.
abbrev pub Culprit : List NodeSpec → RunState → Type 0
Culprit nodes s =
    (x : Text) × (mem x (ids nodes) ≡ true) × (s.phase x ≡ returned) × (mem x (finished s) ≡ false)

-- What has an outcome has returned, and behind a failure stands a node without an outcome.
record Blamed (nodes : List NodeSpec) (s : RunState) : Type 0 where
  over : (x : Text) → mem x (finished s) ≡ true → s.phase x ≡ returned
  blame : s.failed ≡ true → Culprit nodes s

start-Blamed : (nodes : List NodeSpec) → Blamed nodes (start nodes)
unfolding start finished mem
start-Blamed nodes = record { over = λ x m. ground arith; blame = λ f. absurd (ground arith) }

-- What a waiting task does.
pub wake_from-keeps :
    (p : Phase) (x : Text) (s s' : RunState)
    → s.phase x ≡ p
    → wake_from p x s ≡ some s'
    → (s'.failed ≡ s.failed)
      × (s'.outcomes ≡ s.outcomes)
      × ((y : Text) → s.phase y ≡ returned → s'.phase y ≡ returned)
unfolding wake_from set_phase
wake_from-keeps (waiting []) x s s' here e =
    let one : record s { phase = set_phase s.phase x (if s.failed then returned else running) }
        ≡ s' =
      cc in
    rw (← one) (refl, refl, λ y h. ground (arith, same_iff x y))
wake_from-keeps (waiting (d ∷ ds)) x s s' here e = elim (Bool-cases (s.done d)) [
  | inl set ↦
      let one : record s { phase = set_phase s.phase x (if s.failed then returned else waiting ds) }
          ≡ s' =
        ground arith in
      rw (← one) (refl, refl, λ y h. ground (arith, same_iff x y))
  | inr unset ↦ absurd (ground arith)
]
wake_from-keeps running x s s' here e = cc
wake_from-keeps returned x s s' here e = cc

-- The three kinds of step keep it.
woke-Blamed :
    (nodes : List NodeSpec) (s s' : RunState)
    → s'.failed ≡ s.failed
    → s'.outcomes ≡ s.outcomes
    → ((y : Text) → s.phase y ≡ returned → s'.phase y ≡ returned)
    → Blamed nodes s
    → Blamed nodes s'
unfolding finished
woke-Blamed nodes s s' failed outcomes stay b = record {
  over = λ y m. stay y (b.over y (rw (← outcomes) m));
  blame = λ f.
      let (y, listed, over, missing) = b.blame (sym failed ∙ f) in
      (y, listed, stay y over, rw outcomes missing);
}

complete-Blamed :
    (nodes : List NodeSpec) (s : RunState) (x : Text) (o : NodeOutcome)
    → s.phase x ≡ running
    → Blamed nodes s
    → Blamed nodes (complete x o s)
unfolding complete set_phase
complete-Blamed nodes s x o here b = record {
  over = λ y m. ground (arith, mem-finished-complete y x o s, b.over y);
  blame = λ f.
      let (y, listed, over, missing) = b.blame f in
      (y, listed, ground arith, ground (arith, mem-finished-complete y x o s, same_iff x y));
}

fail-Blamed :
    (nodes : List NodeSpec) (s : RunState) (x : Text) (e : Failure)
    → mem x (ids nodes) ≡ true
    → s.phase x ≡ running
    → Blamed nodes s
    → Blamed nodes (fail x e s)
unfolding fail set_phase finished
fail-Blamed nodes s x e m here b = record {
  over = λ y h. ground (arith, b.over y);
  blame = λ f. (x, m, ground (arith, same_refl x), ground (arith, b.over x));
}

Step-Blamed :
    (nodes : List NodeSpec) {s s' : RunState} → Step nodes s s' → Blamed nodes s → Blamed nodes s'
unfolding wake
Step-Blamed nodes {s} {s'} (woke x m e) b =
    let (failed, outcomes, stay) = wake_from-keeps (s.phase x) x s s' refl e in
    woke-Blamed nodes s s' failed outcomes stay b
Step-Blamed nodes {s} (returns x o m here) b = complete-Blamed nodes s x o here b
Step-Blamed nodes {s} (raises x e m here) b = fail-Blamed nodes s x e m here b

Reached-Blamed : (nodes : List NodeSpec) {s : RunState} → Reached nodes s → Blamed nodes s
Reached-Blamed nodes started = start-Blamed nodes
Reached-Blamed nodes (later r step) = Step-Blamed nodes step (Reached-Blamed nodes r)

-- When the tasks of all nodes have returned, either the status is completed and every node has an
-- outcome, or the status is escalated and a node whose task returned has none.
pub Reached-Result :
    (nodes : List NodeSpec) (s : RunState)
    → Reached nodes s
    → ((x : Text) → mem x (ids nodes) ≡ true → s.phase x ≡ returned)
    → ((s.status ≡ completed) × ((x : Text) → mem x (ids nodes) ≡ true → mem x (finished s) ≡ true))
      ⊎ ((s.status ≡ run_escalated) × Culprit nodes s)
Reached-Result nodes s r all =
    let inv = Reached-Inv nodes r in
    elim (Bool-cases s.failed) [
      | inl f ↦ inr (ground (arith, inv.verdict), Blamed.blame (Reached-Blamed nodes r) f)
      | inr f ↦ inl (ground (arith, inv.verdict), λ x m. inv.events x f (inv.ends x (all x m)))
    ]
