-- ===== src/Gates/Executor/Trail.antt =====
-- society/gates/executor.py: the audit trail of a node, and the ceiling on a run's cost.
use society_harness.Prelude.{
  ℕ, zero, suc, ◌+◌, ◌≤◌, Text, List, [], ◌∷◌, ◌++◌, Option, none, some, leb, length, length-append,
  ◌≡◌, refl, sym, arith, Bool-cases, inl, inr, append-nil, append_assoc,
}
use society_harness.Prelude.Results.{Result, ok, raise}
use society_harness.Memory.Kv.{Store}
use society_harness.Memory.Lineage.{approved, abstained, error, Verdict, Log, total_cost, append}
use society_harness.Providers.Types.{NodeInput, NodeOutput}
use society_harness.Gates.Types.{GateResult}
use society_harness.Gates.Executor.Types.{Job, State}
use society_harness.Gates.Executor.Outputs.{Written, wrote, write_failed}
use society_harness.Gates.Executor.Records.{escalation_record, log_escalation, attempt_record}
use society_harness.Gates.Executor.Feedback.{get_last}
use society_harness.Gates.Executor.{
  Round, finish, again, over_budget, undecided, promoted, settle, conclude, judge, judge_written,
  work_started, work, round, give_up, attempts, execute_node,
}
use society_harness.Gates.Executor.Storage.{Round-cases}

module _ {W : Type 0} (clock : W → ℕ) (usd : ℕ → Text) (job : Job W) where
  -- Records of this run and node.
  abbrev pub AllOwn : Log → Type 0
  AllOwn [] = Unit {0}
  AllOwn (r ∷ rs) =
      (r.run_id ≡ job.run_id)
      × (r.node_id ≡ job.node.node_id)
      × (r.agent ≡ job.node.agent)
      × AllOwn rs

  AllOwn-append : (xs ys : Log) → AllOwn xs → AllOwn ys → AllOwn (xs ++ ys)
  AllOwn-append [] ys a b = b
  AllOwn-append (x ∷ xs) ys a b = (a.0, a.1, a.2, AllOwn-append xs ys a.3 b)

  -- At most `n` records were added, all of this run and node, and none was lost or changed.
  abbrev pub Grew : ℕ → Log → Log → Type 0
  Grew n log log' = (new : Log) × (log' ≡ log ++ new) × AllOwn new × (length new ≤ n)

  Grew-same : (n : ℕ) (log : Log) → Grew n log log
  Grew-same n log = ([], sym (append-nil log), tt, omega arith)

  Grew-trans : (m n : ℕ) (a b c : Log) → Grew m a b → Grew n b c → Grew (m + n) a c
  Grew-trans m n a b c (xs, e, own, short) (ys, e', own', short') = (
    xs ++ ys,
    rw (e', e) (append_assoc a xs ys),
    AllOwn-append xs ys own own',
    omega (arith, length-append xs ys),
  )

  Grew-mono : (m n : ℕ) (a b : Log) → m ≤ n → Grew m a b → Grew n a b
  Grew-mono m n a b h (xs, e, own, short) = (xs, e, own, omega arith)

  Grew-escalation :
      (s : State W) (n : ℕ) (gate reason : Text)
      → Grew 1 s.lineage (log_escalation clock usd job s n gate reason).lineage
  unfolding log_escalation append
  Grew-escalation s n gate reason = (
    escalation_record clock usd job s n gate reason ∷ [],
    refl,
    (refl, refl, refl, tt),
    omega arith,
  )

  Grew-attempt :
      (log : Log) (now : ℕ) (out : NodeOutput) (n : ℕ) (keys : List Text) (final : GateResult)
      (started finished : ℕ)
      → Grew 1 log (append log (attempt_record clock usd job now out n keys final started finished))
  unfolding attempt_record append
  Grew-attempt log now out n keys final started finished = (
    attempt_record clock usd job now out n keys final started finished ∷ [],
    refl,
    (refl, refl, refl, tt),
    omega arith,
  )

  -- A round that ends the call adds up to two records, and one that goes on adds one.
  abbrev RoundGrew : ℕ → Log → Round W → Type 0
  RoundGrew n log (finish o s) = Grew (suc n) log s.lineage
  RoundGrew n log (again task history s) = Grew n log s.lineage

  promoted-Grew :
      (n : ℕ) (out : NodeOutput) (keys : List Text) (history : List GateResult) (s : State W)
      (r : Result Store)
      → RoundGrew 0 s.lineage (promoted clock usd job n out keys history s r)
  unfolding promoted
  promoted-Grew n out keys history s (ok kv) = Grew-same 1 s.lineage
  promoted-Grew n out keys history s (raise e) = Grew-same 1 s.lineage

  settle-Grew :
      (v : Verdict) (n : ℕ) (out : NodeOutput) (keys : List Text)
      (results history : List GateResult) (final : GateResult) (s : State W)
      → RoundGrew 0 s.lineage (settle clock usd job v n out keys results history final s)
  unfolding settle undecided
  settle-Grew approved n out keys results history final s = promoted-Grew n out keys history s _
  settle-Grew abstained n out keys results history final s = Grew-escalation s n _ _
  settle-Grew error n out keys results history final s = Grew-escalation s n _ _
  settle-Grew v n out keys results history final s = Grew-same 0 s.lineage

  RoundGrew-trans :
      (m n : ℕ) (a b : Log) (r : Round W) → Grew m a b → RoundGrew n b r → RoundGrew (m + n) a r
  RoundGrew-trans m n a b (finish o s) h g =
      Grew-mono _ _ a s.lineage (omega arith) (Grew-trans m (suc n) a b s.lineage h g)
  RoundGrew-trans m n a b (again task history s) h g = Grew-trans m n a b s.lineage h g

  conclude-Grew :
      (n : ℕ) (out : NodeOutput) (keys : List Text) (results history : List GateResult)
      (started finished : ℕ) (s : State W) (last : Option GateResult)
      → RoundGrew 1 s.lineage
          (conclude clock usd job n out keys results history started finished s last)
  unfolding conclude
  conclude-Grew n out keys results history started finished s none = Grew-same 2 s.lineage
  conclude-Grew n out keys results history started finished s (some final) =
      RoundGrew-trans 1 0 s.lineage _ _
        (Grew-attempt s.lineage (clock s.world) out n keys final started finished)
        (settle-Grew final.verdict n out keys results history final _)

  judge_written-Grew :
      (n : ℕ) (node : NodeInput) (history : List GateResult) (started finished : ℕ) (s : State W)
      (w : Written)
      → RoundGrew 1 s.lineage (judge_written clock usd job n node history started finished s w)
  unfolding judge_written judge
  judge_written-Grew n node history started finished s (wrote keys out kv) =
      conclude-Grew n out keys _ _ started finished _ _
  judge_written-Grew n node history started finished s (write_failed e kv) = Grew-same 2 s.lineage

  work_started-Grew :
      (task : Text) (history : List GateResult) (s : State W) (r : Result (ℕ × Store))
      → RoundGrew 1 s.lineage (work_started clock usd job task history s r)
  unfolding work_started work
  work_started-Grew task history s (ok (n, kv)) = judge_written-Grew n _ history _ _ _ _
  work_started-Grew task history s (raise e) = Grew-same 2 s.lineage

  round-Grew :
      (task : Text) (history : List GateResult) (s : State W)
      → RoundGrew 1 s.lineage (round clock usd job task history s)
  unfolding round over_budget
  round-Grew task history s =
      elim (Bool-cases (leb job.policy.max_run_cost_usd (total_cost s.lineage job.run_id))) [
        | inl over ↦ rw over (Grew-mono 1 2 _ _ (omega arith) (Grew-escalation s 0 _ _))
        | inr under ↦ rw under (work_started-Grew task history s _)
      ]

  give_up-Grew :
      (history : List GateResult) (s : State W) (last : Option GateResult)
      → Grew 1 s.lineage (give_up clock usd job history s last).1.lineage
  unfolding give_up
  give_up-Grew history s none = Grew-same 1 s.lineage
  give_up-Grew history s (some final) = Grew-escalation s _ _ _

  attempts-Grew :
      (left : ℕ) (task : Text) (history : List GateResult) (s : State W)
      → Grew (left + 1) s.lineage (attempts clock usd job left task history s).1.lineage
  unfolding attempts
  attempts-Grew zero task history s =
      Grew-mono 1 _ _ _ (omega arith) (give_up-Grew history s (get_last history))
  attempts-Grew (suc left) task history s =
      elim (Round-cases (round clock usd job task history s)) [
        | inl (o, s', e) ↦
            let h : RoundGrew 1 s.lineage (finish o s') = rw e at (round-Grew task history s) in
            rw (e, attempts) (Grew-mono 2 _ _ _ (omega arith) h)
        | inr (task', history', s', e) ↦
            let h : RoundGrew 1 s.lineage (again task' history' s') =
              rw e at (round-Grew task history s) in
            rw (e, attempts)
              (Grew-mono (1 + (left + 1)) _ _ _ (omega arith)
                (Grew-trans 1 (left + 1) _ _ _ h (attempts-Grew left task' history' s')))
      ]

  -- The audit trail is append-only: a call adds at most one record for each attempt and one more,
  -- all of its own run, node and agent, behind the records that were there, however it ends.
  pub execute_node-Grew :
      (s : State W)
      → Grew (job.policy.max_attempts + 1) s.lineage (execute_node clock usd job s).1.lineage
  unfolding execute_node
  execute_node-Grew s = attempts-Grew job.policy.max_attempts job.node.task [] s
