-- ===== src/Runner/Dag/Order.antt =====
-- society/runner/dag.py: the order in which the node tasks of a run execute, and what a failure stops.
use society_harness.Prelude.{
  ◌≡◌, refl, true, false, Text, same, same_iff, mem, ◌||◌, List, [], ◌∷◌, ◌++◌, map, some,
  if◌then◌else◌, arith, ◌⊎◌, inl, inr, Bool-cases,
}
use society_harness.Spec.{NodeSpec}
use society_harness.Gates.Executor.Types.{NodeOutcome}
use society_harness.Gates.Validator.{deps_of}
use society_harness.Runner.Dag.{
  Phase, waiting, running, returned, completed, run_escalated, Failure, RunState, set_phase,
  set_event, start, wake_from, wake, complete, fail, Step, woke, returns, raises, Reached, started,
  later, finished,
}

mem-keys-append :
    (d x : Text) (o : NodeOutcome) (os : List (Text × NodeOutcome))
    → mem d (map (λ p. p.0) (os ++ (x, o) ∷ [])) ≡ (mem d (map (λ p. p.0) os) || same x d)
unfolding mem
mem-keys-append d x o [] = ground arith
mem-keys-append d x o (p ∷ os) = ground (arith, mem-keys-append d x o os)

pub mem-finished-complete :
    (d x : Text) (o : NodeOutcome) (s : RunState)
    → mem d (finished (complete x o s)) ≡ (mem d (finished s) || same x d)
unfolding finished complete
mem-finished-complete d x o s = mem-keys-append d x o s.outcomes

module _ (nodes : List NodeSpec) where
  -- Each dependency is still waited for or has its event set; without a failure only outcomes set
  -- events; and what runs or has an outcome stands behind the outcomes of its dependencies.
  pub record Inv (s : RunState) : Type 0 where
    pub waits :
        (x d : Text) (ds : List Text)
        → s.phase x ≡ waiting ds
        → mem d (deps_of nodes x) ≡ true
        → mem d ds ≡ false
        → s.done d ≡ true
    pub within :
        (x d : Text) (ds : List Text)
        → s.phase x ≡ waiting ds
        → mem d ds ≡ true
        → mem d (deps_of nodes x) ≡ true
    pub events : (d : Text) → s.failed ≡ false → s.done d ≡ true → mem d (finished s) ≡ true
    pub runs :
        (x d : Text)
        → s.phase x ≡ running
        → mem d (deps_of nodes x) ≡ true
        → mem d (finished s) ≡ true
    pub ran :
        (x d : Text)
        → mem x (finished s) ≡ true
        → mem d (deps_of nodes x) ≡ true
        → mem d (finished s) ≡ true
    pub ends : (x : Text) → s.phase x ≡ returned → s.done x ≡ true
    pub all_set : (x : Text) → s.failed ≡ true → s.done x ≡ true
    pub verdict : s.status ≡ (if s.failed then run_escalated else completed)

  start-Inv : Inv (start nodes)
  unfolding start mem finished
  start-Inv = record {
    waits = λ x d ds e m n. ground arith;
    within = λ x d ds e m. ground arith;
    events = λ d e f. ground arith;
    runs = λ x d e m. ground arith;
    ran = λ x d e m. ground arith;
    ends = λ x e. ground arith;
    all_set = λ x e. ground arith;
    verdict = refl;
  }

  -- A task that goes from waiting to another phase keeps the invariant if the new phase does.
  moves-Inv :
      (s : RunState) (x : Text) (p : Phase)
      → Inv s
      → ((d : Text) (ds : List Text)
          → p ≡ waiting ds
          → mem d (deps_of nodes x) ≡ true
          → mem d ds ≡ false
          → s.done d ≡ true)
      → ((d : Text) (ds : List Text)
          → p ≡ waiting ds
          → mem d ds ≡ true
          → mem d (deps_of nodes x) ≡ true)
      → ((d : Text) → p ≡ running → mem d (deps_of nodes x) ≡ true → mem d (finished s) ≡ true)
      → (p ≡ returned → s.done x ≡ true)
      → Inv (record s { phase = set_phase s.phase x p })
  unfolding set_phase finished
  moves-Inv s x p inv w i r e = record {
    waits = λ y d ds h m n. ground (arith, same_iff x y, inv.waits y d ds, w d ds);
    within = λ y d ds h m. ground (arith, same_iff x y, inv.within y d ds, i d ds);
    events = inv.events;
    runs = λ y d h m. ground (arith, same_iff x y, inv.runs y d, r d);
    ran = inv.ran;
    ends = λ y h. ground (arith, same_iff x y, inv.ends y, e);
    all_set = inv.all_set;
    verdict = inv.verdict;
  }

  complete-Inv :
      (s : RunState) (x : Text) (o : NodeOutcome)
      → s.phase x ≡ running
      → Inv s
      → Inv (complete x o s)
  unfolding complete set_phase set_event
  complete-Inv s x o here inv = record {
    waits = λ y d ds h m n. ground (arith, same_iff x y, inv.waits y d ds);
    within = λ y d ds h m. ground (arith, same_iff x y, inv.within y d ds);
    events = λ d f h. ground (arith, mem-finished-complete d x o s, inv.events d);
    runs = λ y d h m. ground (arith, mem-finished-complete d x o s, inv.runs y d);
    ran = λ y d h m. ground (
      arith,
      mem-finished-complete d x o s,
      mem-finished-complete y x o s,
      same_iff x y,
      inv.runs y d,
      inv.ran y d,
    );
    ends = λ y h. ground (arith, same_iff x y, inv.ends y);
    all_set = λ y h. ground (arith, inv.all_set y);
    verdict = inv.verdict;
  }

  fail-Inv : (s : RunState) (x : Text) (e : Failure) → Inv s → Inv (fail x e s)
  unfolding fail set_phase finished
  fail-Inv s x e inv = record {
    waits = λ y d ds h m n. refl;
    within = λ y d ds h m. ground (arith, same_iff x y, inv.within y d ds);
    events = λ d f h. ground arith;
    runs = λ y d h m. ground (arith, same_iff x y, inv.runs y d);
    ran = inv.ran;
    ends = λ y h. refl;
    all_set = λ y h. refl;
    verdict = refl;
  }

  wake_from-Inv :
      (p : Phase) (x : Text) (s s' : RunState)
      → s.phase x ≡ p
      → wake_from p x s ≡ some s'
      → Inv s
      → Inv s'
  unfolding wake_from mem
  wake_from-Inv (waiting []) x s s' here e inv =
      let p = if s.failed then returned else running in
      let one : record s { phase = set_phase s.phase x p } ≡ s' = cc in
      rw (← one) (
        moves-Inv s x p inv (λ d ds h m n. ground arith) (λ d ds h m. ground arith)
          (λ d h m. ground (arith, inv.events d, inv.waits x d []))
          (λ h. ground (arith, inv.all_set x)))
  wake_from-Inv (waiting (d ∷ ds)) x s s' here e inv = elim (Bool-cases (s.done d)) [
    | inl set ↦
        let p = if s.failed then returned else waiting ds in
        let one : record s { phase = set_phase s.phase x p } ≡ s' = ground arith in
        rw (← one) (
          moves-Inv s x p inv
            (λ d' ds' h m n. ground (arith, inv.all_set d', inv.waits x d' (d ∷ ds), same_iff d d'))
            (λ d' ds' h m. ground (arith, inv.within x d' (d ∷ ds))) (λ d' h m. ground arith)
            (λ h. ground (arith, inv.all_set x)))
    | inr unset ↦ ground arith
  ]
  wake_from-Inv running x s s' here e inv = cc
  wake_from-Inv returned x s s' here e inv = cc

  Step-Inv : {s s' : RunState} → Step nodes s s' → Inv s → Inv s'
  unfolding wake
  Step-Inv {s} {s'} (woke x m e) inv = wake_from-Inv (s.phase x) x s s' refl e inv
  Step-Inv {s} (returns x o m here) inv = complete-Inv s x o here inv
  Step-Inv {s} (raises x e m here) inv = fail-Inv s x e inv

  pub Reached-Inv : {s : RunState} → Reached nodes s → Inv s
  Reached-Inv started = start-Inv
  Reached-Inv (later r step) = Step-Inv step (Reached-Inv r)

  -- In every state of a run, a node that runs or has an outcome has behind it the outcomes of all
  -- the nodes it depends on.
  pub Reached-InOrder :
      {s : RunState}
      → Reached nodes s
      → (x d : Text) → (s.phase x ≡ running) ⊎ (mem x (finished s) ≡ true)
      → mem d (deps_of nodes x) ≡ true
      → mem d (finished s) ≡ true
  Reached-InOrder r x d (inl h) m = Inv.runs (Reached-Inv r) x d h m
  Reached-InOrder r x d (inr h) m = Inv.ran (Reached-Inv r) x d h m

  wake_from-failed :
      (p : Phase) (x : Text) (s s' : RunState)
      → wake_from p x s ≡ some s'
      → s.failed ≡ true
      → (s'.failed ≡ true) × ((y : Text) → s'.phase y ≡ running → s.phase y ≡ running)
  unfolding wake_from set_phase
  wake_from-failed (waiting []) x s s' e f =
      let one : record s { phase = set_phase s.phase x (if s.failed then returned else running) }
          ≡ s' =
        cc in
      rw (← one) (f, λ y h. ground arith)
  wake_from-failed (waiting (d ∷ ds)) x s s' e f = elim (Bool-cases (s.done d)) [
    | inl set ↦ ground arith
    | inr unset ↦ ground arith
  ]
  wake_from-failed running x s s' e f = cc
  wake_from-failed returned x s s' e f = cc

  -- After a failure no node starts: a step leaves the run failed, and what runs after it ran before.
  pub Step-failed :
      {s s' : RunState}
      → Step nodes s s'
      → s.failed ≡ true
      → (s'.failed ≡ true) × ((y : Text) → s'.phase y ≡ running → s.phase y ≡ running)
  unfolding wake complete fail set_phase
  Step-failed {s} {s'} (woke x m e) f = wake_from-failed (s.phase x) x s s' e f
  Step-failed {s} (returns x o m here) f = (f, λ y h. ground arith)
  Step-failed {s} (raises x e m here) f = (refl, λ y h. ground arith)
