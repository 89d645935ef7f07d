-- ===== src/Gates/Executor/Storage.antt =====
-- society/gates/executor.py: what `execute_node` does to the store, followed step by step.
use society_harness.Prelude.{
  ◌⊎◌, ℕ, zero, suc, Text, List, [], ◌∷◌, Option, none, some, leb, ◌≡◌, refl, Bool-cases, inl, inr,
}
use society_harness.Prelude.Results.{Result, ok, raise, >>=-eq-ok}
use society_harness.Json.{Json, null}
use society_harness.Memory.Kv.{Store, next_attempt, put_attempt}
use society_harness.Memory.Lineage.{total_cost, approved, Verdict}
use society_harness.Providers.Types.{NodeInput, NodeOutput}
use society_harness.Gates.Types.{GateResult}
use society_harness.Gates.Executor.Types.{
  Job, State, Outcome, done, escalation, budget_exceeded, raised, Extracted, Extractor, value,
  failed,
}
use society_harness.Gates.Executor.Outputs.{
  run_dtype, Written, wrote, write_failed, write_outputs, write_value, write_extracted, promote_all,
  after_put,
}
use society_harness.Gates.Executor.Records.{log_escalation}
use society_harness.Gates.Executor.{
  Round, finish, again, over_budget, start_attempt, undecided, promoted, dtypes, settle, conclude,
  judge, judge_written, work_started, work, round, give_up, attempts, execute_node,
}

-- A relation between stores that holds across any number of new attempts.
pub record AcrossAttempts (R : Store → Store → Type 0) : Type 0 where
  pub same_store : (kv : Store) → R kv kv
  pub trans : (a b c : Store) → R a b → R b c → R a c
  pub new_attempt :
      (now : ℕ) (kv : Store) (run agent dtype : Text) (n : ℕ) (v : Json) (kv' : Store) (k : Text)
      → put_attempt now kv run agent dtype n v ≡ ok (kv', k)
      → R kv kv'

pub Round-cases :
    {W : Type 0} (r : Round W)
    → ((o : Outcome) × (s : State W) × (r ≡ finish o s))
      ⊎ ((task : Text) × (history : List GateResult) × (s : State W) × (r ≡ again task history s))
Round-cases (finish o s) = inl (o, s, refl)
Round-cases (again task history s) = inr (task, history, s, refl)

module _ (R : Store → Store → Type 0) (law : AcrossAttempts R) where
  abbrev Reached : Store → Written → Type 0
  Reached kv (wrote keys out kv') = R kv kv'
  Reached kv (write_failed e kv') = R kv kv'

  Reached-trans : (a b : Store) (w : Written) → R a b → Reached b w → Reached a w
  Reached-trans a b (wrote keys out kv) h r = law.trans a b kv h r
  Reached-trans a b (write_failed e kv) h r = law.trans a b kv h r

  module _ (now : ℕ) (run agent : Text) (attempt : ℕ) where
    after_put-Reached :
        (dtype : Text) (v : Json) (keys : List Text) (out : NodeOutput) (kv : Store)
        (r : Result (Store × Text))
        → put_attempt now kv run agent dtype attempt v ≡ r
        → Reached kv (after_put keys out kv r)
    after_put-Reached dtype v keys out kv (ok (kv', k)) e =
        law.new_attempt now kv run agent dtype attempt v kv' k e
    after_put-Reached dtype v keys out kv (raise x) e = law.same_store kv

    write_value-Reached :
        (dtype : Text) (v : Json) (keys : List Text) (out : NodeOutput) (kv : Store)
        → Reached kv (write_value now run agent attempt dtype v keys out kv)
    write_value-Reached dtype null keys out kv = law.same_store kv
    write_value-Reached dtype v keys out kv = after_put-Reached dtype v keys out kv _ refl

    write_extracted-Reached :
        (dtype : Text) (x : Extracted) (keys : List Text) (out : NodeOutput) (kv : Store)
        → Reached kv (write_extracted now run agent attempt dtype x keys out kv)
    write_extracted-Reached dtype (value v) keys out kv = write_value-Reached dtype v keys out kv
    write_extracted-Reached dtype (failed e) keys out kv = law.same_store kv

    write_outputs-Reached :
        (outputs : List (Text × Extractor)) (keys : List Text) (out : NodeOutput) (kv : Store)
        → Reached kv (write_outputs now run agent attempt outputs keys out kv)
    unfolding write_outputs
    write_outputs-Reached [] keys out kv = law.same_store kv
    write_outputs-Reached ((dtype, extract) ∷ rest) keys out kv =
        go (write_extracted now run agent attempt dtype (extract out) keys out kv)
          (write_extracted-Reached dtype (extract out) keys out kv) (write_outputs-Reached rest)
      where
        go :
            (w : Written)
            → Reached kv w
            → ((keys : List Text) (out : NodeOutput) (kv : Store)
                → Reached kv (write_outputs now run agent attempt rest keys out kv))
            → Reached kv (elim w [
              | wrote keys' out' kv' ↦ write_outputs now run agent attempt rest keys' out' kv'
              | write_failed e kv' ↦ write_failed e kv'
            ])
        go (wrote keys' out' kv') h ih = Reached-trans kv kv' _ h (ih keys' out' kv')
        go (write_failed e kv') h ih = h

  module _ {W : Type 0} (clock : W → ℕ) (usd : ℕ → Text) (job : Job W) where
    -- A call that returns promotes what it wrote; any other leaves the store across attempts.
    abbrev pub Ends : Store → Outcome → Store → Type 0
    Ends kv (done o) kv' =
        (mid : Store) × (now : ℕ) × R kv mid
        × (promote_all now job.run_id job.node.agent o.attempt (dtypes clock usd job) mid ≡ ok kv')
    Ends kv _ kv' = R kv kv'

    abbrev RoundEnds : Store → Round W → Type 0
    RoundEnds kv (finish o s') = Ends kv o s'.kv
    RoundEnds kv (again task history s') = R kv s'.kv

    Ends-trans : (a b c : Store) (o : Outcome) → R a b → Ends b o c → Ends a o c
    Ends-trans a b c (done o) h (mid, now, r, p) = (mid, now, law.trans a b mid h r, p)
    Ends-trans a b c (escalation x y z) h r = law.trans a b c h r
    Ends-trans a b c (budget_exceeded x y z) h r = law.trans a b c h r
    Ends-trans a b c (raised e) h r = law.trans a b c h r

    RoundEnds-trans : (a b : Store) (r : Round W) → R a b → RoundEnds b r → RoundEnds a r
    RoundEnds-trans a b (finish o s') h e = Ends-trans a b s'.kv o h e
    RoundEnds-trans a b (again task history s') h e = law.trans a b s'.kv h e

    promoted-Ends :
        (n : ℕ) (out : NodeOutput) (keys : List Text) (history : List GateResult) (s : State W)
        (r : Result Store)
        → promote_all (clock s.world) job.run_id job.node.agent n (dtypes clock usd job) s.kv ≡ r
        → RoundEnds s.kv (promoted clock usd job n out keys history s r)
    unfolding promoted
    promoted-Ends n out keys history s (ok kv) e = (s.kv, clock s.world, law.same_store s.kv, e)
    promoted-Ends n out keys history s (raise x) e = law.same_store s.kv

    settle-Ends :
        (v : Verdict) (n : ℕ) (out : NodeOutput) (keys : List Text)
        (results history : List GateResult) (final : GateResult) (s : State W)
        → RoundEnds s.kv (settle clock usd job v n out keys results history final s)
    unfolding settle undecided
    settle-Ends approved n out keys results history final s =
        promoted-Ends n out keys history s _ refl
    settle-Ends v n out keys results history final s = law.same_store s.kv

    conclude-Ends :
        (n : ℕ) (out : NodeOutput) (keys : List Text) (results history : List GateResult)
        (started finished : ℕ) (s : State W) (final : Option GateResult)
        → RoundEnds s.kv
            (conclude clock usd job n out keys results history started finished s final)
    unfolding conclude
    conclude-Ends n out keys results history started finished s none = law.same_store s.kv
    conclude-Ends n out keys results history started finished s (some final) =
        settle-Ends final.verdict n out keys results history final _

    judge_written-Ends :
        (n : ℕ) (node : NodeInput) (history : List GateResult) (started finished : ℕ) (kv : Store)
        (s : State W) (w : Written)
        → Reached kv w
        → RoundEnds kv (judge_written clock usd job n node history started finished s w)
    unfolding judge_written judge
    judge_written-Ends n node history started finished kv s (wrote keys out kv') h =
        RoundEnds-trans kv kv' _ h (conclude-Ends n out keys _ _ started finished _ _)
    judge_written-Ends n node history started finished kv s (write_failed e kv') h = h

    work-Ends :
        (n : ℕ) (task : Text) (history : List GateResult) (s : State W)
        → RoundEnds s.kv (work clock usd job n task history s)
    unfolding work
    work-Ends n task history s =
        judge_written-Ends n _ history _ _ s.kv _ _
          (write_outputs-Reached _ job.run_id job.node.agent n job.outputs [] _ s.kv)

    start_attempt-Reached :
        (s : State W) (n : ℕ) (kv : Store) → start_attempt clock usd job s ≡ ok (n, kv) → R s.kv kv
    unfolding start_attempt
    start_attempt-Reached s n kv e =
        let (m, numbered, more) =
          >>=-eq-ok (next_attempt s.kv job.run_id job.node.agent run_dtype) _ e in
        let ((kv', k), marked, last) =
          >>=-eq-ok (put_attempt (clock s.world) s.kv job.run_id job.node.agent run_dtype m _) _
            more in
        let reached : R s.kv kv' =
          law.new_attempt (clock s.world) s.kv job.run_id job.node.agent run_dtype m _ kv' k
            marked in
        let whole : kv' ≡ kv = cc in rw (← whole) reached

    work_started-Ends :
        (task : Text) (history : List GateResult) (s : State W) (r : Result (ℕ × Store))
        → start_attempt clock usd job s ≡ r
        → RoundEnds s.kv (work_started clock usd job task history s r)
    unfolding work_started
    work_started-Ends task history s (ok (n, kv)) e =
        RoundEnds-trans s.kv kv _ (start_attempt-Reached s n kv e) (work-Ends n task history _)
    work_started-Ends task history s (raise x) e = law.same_store s.kv

    round-Ends :
        (task : Text) (history : List GateResult) (s : State W)
        → RoundEnds s.kv (round clock usd job task history s)
    unfolding round over_budget
    round-Ends task history s =
        elim (Bool-cases (leb job.policy.max_run_cost_usd (total_cost s.lineage job.run_id))) [
          | inl over ↦ rw over (law.same_store s.kv)
          | inr under ↦ rw under (work_started-Ends task history s _ refl)
        ]

    give_up-Ends :
        (history : List GateResult) (s : State W) (final : Option GateResult)
        → Ends s.kv
            (give_up clock usd job history s final).0
            (give_up clock usd job history s final).1.kv
    unfolding give_up log_escalation
    give_up-Ends history s none = law.same_store s.kv
    give_up-Ends history s (some final) = law.same_store s.kv

    attempts-Ends :
        (left : ℕ) (task : Text) (history : List GateResult) (s : State W)
        → Ends s.kv
            (attempts clock usd job left task history s).0
            (attempts clock usd job left task history s).1.kv
    unfolding attempts
    attempts-Ends zero task history s = give_up-Ends history s _
    attempts-Ends (suc left) task history s =
        elim (Round-cases (round clock usd job task history s)) [
          | inl (o, s', e) ↦
              let h : RoundEnds s.kv (finish o s') = rw e at (round-Ends task history s) in
              rw (e, attempts) h
          | inr (task', history', s', e) ↦
              let h : RoundEnds s.kv (again task' history' s') =
                rw e at (round-Ends task history s) in
              rw (e, attempts) (Ends-trans s.kv s'.kv _ _ h (attempts-Ends left task' history' s'))
        ]

    pub execute_node-Ends :
        (s : State W)
        → Ends s.kv (execute_node clock usd job s).0 (execute_node clock usd job s).1.kv
    unfolding execute_node
    execute_node-Ends s = attempts-Ends job.policy.max_attempts job.node.task [] s
