-- ===== src/Gates/Executor/Handoff.antt =====
-- society/gates/executor.py: what readers of the store see after `execute_node`.
use society_harness.Prelude.{ℕ, Bool, true, false, Text, mem, map, ◌≡◌, sym, ◌∙◌}
use society_harness.Prelude.Results.{ok}
use society_harness.Json.{num}
use society_harness.Memory.Kv.{
  Store, get, exists, attempt_key, current_key, pointer, get_attempt, get_current, current_attempt,
}
use society_harness.Memory.Kv.Attempts.{get_current-pointer}
use society_harness.Gates.Executor.Types.{
  Job, State, Outcome, done, escalation, budget_exceeded, raised, NodeOutcome,
}
use society_harness.Gates.Executor.{dtypes, execute_node}
use society_harness.Gates.Executor.Storage.{Ends, execute_node-Ends}
use society_harness.Gates.Executor.Promotion.{
  SamePointers, KeepsAttempts, KeepsAttempts-trans, KeepsAttempts-of_same,
  SamePointers-AcrossAttempts, KeepsAttempts-AcrossAttempts, promote_all-Promoted,
}

-- The call returned.
abbrev pub is_done : Outcome → Bool
is_done (done o) = true
is_done _ = false

module _ {W : Type 0} (clock : W → ℕ) (usd : ℕ → Text) (job : Job W) (s : State W) where
  abbrev outcome : Outcome
  outcome = (execute_node clock usd job s).0

  abbrev after : Store
  after = (execute_node clock usd job s).1.kv

  Ends-SamePointers :
      (o : Outcome) (kv' : Store)
      → Ends SamePointers SamePointers-AcrossAttempts clock usd job s.kv o kv'
      → is_done o ≡ false
      → SamePointers s.kv kv'
  Ends-SamePointers (done o) kv' e h = cc
  Ends-SamePointers _ kv' e h = e

  -- Unless a node is approved, no `:current` moves: whatever the worker wrote and whatever the gates
  -- said, an escalation, an exceeded budget or an exception leaves every reader's value as it was.
  pub execute_node-SamePointers : is_done outcome ≡ false → SamePointers s.kv after
  execute_node-SamePointers =
      Ends-SamePointers outcome after
        (execute_node-Ends SamePointers SamePointers-AcrossAttempts clock usd job s)

  Ends-KeepsAttempts :
      (o : Outcome) (kv' : Store)
      → Ends KeepsAttempts KeepsAttempts-AcrossAttempts clock usd job s.kv o kv'
      → KeepsAttempts s.kv kv'
  Ends-KeepsAttempts (done o) kv' (mid, now, r, p) = KeepsAttempts-trans s.kv mid kv' r (
      KeepsAttempts-of_same mid kv'
        (promote_all-Promoted now job.run_id job.node.agent o.attempt _ mid kv' p).0)
  Ends-KeepsAttempts (escalation x y z) kv' e = e
  Ends-KeepsAttempts (budget_exceeded x y z) kv' e = e
  Ends-KeepsAttempts (raised x) kv' e = e

  -- Attempts are immutable: each one in the store before a call is there afterwards with the same
  -- value, however the call ends.
  pub execute_node-KeepsAttempts : KeepsAttempts s.kv after
  execute_node-KeepsAttempts =
      Ends-KeepsAttempts outcome after
        (execute_node-Ends KeepsAttempts KeepsAttempts-AcrossAttempts clock usd job s)

  Ends-current :
      (x : Outcome) (kv' : Store) (o : NodeOutcome) (dtype : Text)
      → Ends SamePointers SamePointers-AcrossAttempts clock usd job s.kv x kv'
      → x ≡ done o
      → mem dtype (dtypes clock usd job) ≡ true
      → exists kv' (attempt_key job.run_id job.node.agent dtype o.attempt) ≡ true
      → get kv' (current_key job.run_id job.node.agent dtype)
        ≡ pointer (attempt_key job.run_id job.node.agent dtype o.attempt) o.attempt
  Ends-current (done p) kv' o dtype (mid, now, r, all) e listed there =
      let one : p ≡ o = cc in
      rw (← one) (
        let (kept, stay, new) =
          promote_all-Promoted now job.run_id job.node.agent p.attempt _ mid kv' all in
        let there' = rw (← one) at there in
        new dtype listed (sym (kept job.run_id job.node.agent dtype p.attempt).0 ∙ there'))
  Ends-current (escalation x y z) kv' o dtype h e listed there = cc
  Ends-current (budget_exceeded x y z) kv' o dtype h e listed there = cc
  Ends-current (raised x) kv' o dtype h e listed there = cc

  -- When a node is approved, every output that its attempt wrote is what readers get from now on:
  -- `:current` of that dtype gives the value and the number of the approved attempt.
  pub execute_node-current :
      (o : NodeOutcome) (dtype : Text)
      → outcome ≡ done o
      → mem dtype (map (λ x. x.0) job.outputs) ≡ true
      → exists after (attempt_key job.run_id job.node.agent dtype o.attempt) ≡ true
      → (get_current after job.run_id job.node.agent dtype
          ≡ ok (get_attempt after job.run_id job.node.agent dtype o.attempt))
        × (current_attempt after job.run_id job.node.agent dtype ≡ ok (num o.attempt))
  unfolding get_attempt
  execute_node-current o dtype e listed there =
      get_current-pointer after job.run_id job.node.agent dtype
        (attempt_key job.run_id job.node.agent dtype o.attempt) o.attempt
        (Ends-current outcome after o dtype
          (execute_node-Ends SamePointers SamePointers-AcrossAttempts clock usd job s) e listed
          there)
