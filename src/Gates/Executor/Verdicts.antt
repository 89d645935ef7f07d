-- ===== src/Gates/Executor/Verdicts.antt =====
-- society/gates/executor.py: the verdicts behind an approval.
use mathlib.Core.Path.{subst}
use society_harness.Prelude.{
  ℕ, zero, suc, true, false, Text, List, [], ◌∷◌, ◌++◌, Option, none, some, leb, ◌≡◌, refl, sym, ap,
  ◌∙◌, append-nil, append_assoc, Bool-cases, inl, inr, ◌⊎◌,
}
use society_harness.Prelude.Results.{Result, ok, raise}
use society_harness.Memory.Kv.{Store}
use society_harness.Memory.Lineage.{approved, Verdict, is_approved, total_cost}
use society_harness.Providers.Types.{NodeInput, NodeOutput}
use society_harness.Gates.Types.{GateResult, GateContext, Gate}
use society_harness.Gates.Executor.Types.{Job, State, Outcome, done}
use society_harness.Gates.Executor.Outputs.{Written, wrote, write_failed, run_gates}
use society_harness.Gates.Executor.Feedback.{get_last, no_error_gate, no_error_result, error_text}
use society_harness.Gates.Executor.{
  Round, finish, again, over_budget, undecided, promoted, settle, conclude, judge, judge_written,
  work_started, work, round, give_up, attempts, execute_node,
}
use society_harness.Gates.Executor.Storage.{Round-cases}

get_last-snoc : (xs : List GateResult) (g : GateResult) → get_last (xs ++ g ∷ []) ≡ some g
unfolding get_last
get_last-snoc [] g = refl
get_last-snoc (x ∷ []) g = refl
get_last-snoc (x ∷ y ∷ xs) g = get_last-snoc (y ∷ xs) g

-- Each gate in turn returned the result at its place, given the results before it and the world that
-- the gate before it left, and each result approves.
abbrev pub ApprovedBy : {W : Type 0} → List (Gate W) → GateContext → W → List GateResult → Type 0
ApprovedBy [] ctx w [] = Unit {0}
ApprovedBy [] ctx w (r ∷ rs) = ⊥
ApprovedBy (g ∷ gates) ctx w [] = ⊥
ApprovedBy (g ∷ gates) ctx w (r ∷ rs) =
    (r ≡ (g.check ctx w).0)
    × (r.verdict ≡ approved)
    × ApprovedBy gates (record ctx { prior = ctx.prior ++ r ∷ [] }) (g.check ctx w).1 rs

is_approved-eq : (v : Verdict) → is_approved v ≡ true → v ≡ approved
is_approved-eq approved h = refl
is_approved-eq v h = absurd cc

-- The gates all approved, or the last one that ran did not.
abbrev GatesRan : {W : Type 0} → List (Gate W) → GateContext → W → List GateResult → Type 0
GatesRan gates ctx w results =
    ((own : List GateResult) × (results ≡ ctx.prior ++ own) × ApprovedBy gates ctx w own)
    ⊎ ((g : GateResult) × (get_last results ≡ some g) × (is_approved g.verdict ≡ false))

run_gates-GatesRan :
    {W : Type 0} (gates : List (Gate W)) (ctx : GateContext) (w : W)
    → GatesRan gates ctx w (run_gates gates ctx w).0
unfolding run_gates
run_gates-GatesRan [] ctx w = inl ([], sym (append-nil ctx.prior), tt)
run_gates-GatesRan (g ∷ gates) ctx w =
    let (res, w') = g.check ctx w in
    elim (Bool-cases (is_approved res.verdict)) [
      | inl pass ↦
          rw (pass, run_gates)
            (elim (run_gates-GatesRan gates (record ctx { prior = ctx.prior ++ res ∷ [] }) w') [
              | inl (own, e, all) ↦ inl (
                res ∷ own,
                e ∙ append_assoc ctx.prior (res ∷ []) own,
                (refl, is_approved-eq res.verdict pass, all),
              )
              | inr stopped ↦ inr stopped
            ])
      | inr fail ↦ rw (fail, run_gates) (inr (res, get_last-snoc ctx.prior res, fail))
    ]

-- `NoErrorGate` approves only outputs without an error.
no_error-Approved : (t : Text) → (no_error_result t).verdict ≡ approved → t ≡ []
no_error-Approved [] h = refl
no_error-Approved (c ∷ cs) h = absurd cc

ApprovedBy-NoError :
    {W : Type 0} (gates : List (Gate W)) (ctx : GateContext) (w : W) (results : List GateResult)
    → ApprovedBy (no_error_gate ∷ gates) ctx w results
    → error_text ctx.output.error ≡ []
unfolding no_error_gate
ApprovedBy-NoError gates ctx w [] all = absurd all
ApprovedBy-NoError gates ctx w (r ∷ rs) (own, pass, rest) =
    no_error-Approved (error_text ctx.output.error)
      (ap (λ (g : GateResult). g.verdict) (sym own) ∙ pass)

module _ {W : Type 0} (clock : W → ℕ) (usd : ℕ → Text) (job : Job W) where
  -- The gates were run on this output at this attempt, and the output has no error.
  abbrev pub Judged : ℕ → NodeOutput → List GateResult → Type 0
  Judged n out results =
      (error_text out.error ≡ [])
      × ((ctx : GateContext) × (w : W) × (ctx.run_id ≡ job.run_id)
          × (ctx.output ≡ out)
          × (ctx.attempt ≡ n)
          × (ctx.prior ≡ [])
          × ApprovedBy (no_error_gate ∷ job.gates) ctx w results)

  -- A call that returned reports an attempt that was judged, at the end of its history.
  abbrev pub ByAllGates : Outcome → Type 0
  ByAllGates (done o) =
      (before : List GateResult) × (results : List GateResult) × (o.gates ≡ before ++ results)
      × Judged o.attempt o.output results
      × (o.approved ≡ true)
  ByAllGates _ = Unit {0}

  abbrev RoundBy : Round W → Type 0
  RoundBy (finish o s) = ByAllGates o
  RoundBy (again task history s) = Unit {0}

  promoted-By :
      (n : ℕ) (out : NodeOutput) (keys : List Text) (before results : List GateResult) (s : State W)
      (r : Result Store)
      → Judged n out results
      → RoundBy (promoted clock usd job n out keys (before ++ results) s r)
  unfolding promoted
  promoted-By n out keys before results s (ok kv) j = (before, results, refl, j, refl)
  promoted-By n out keys before results s (raise e) j = tt

  settle-By :
      (v : Verdict) (n : ℕ) (out : NodeOutput) (keys : List Text) (before results : List GateResult)
      (final : GateResult) (s : State W)
      → (is_approved v ≡ true → Judged n out results)
      → RoundBy (settle clock usd job v n out keys results (before ++ results) final s)
  unfolding settle undecided
  settle-By approved n out keys before results final s h =
      promoted-By n out keys before results s _ (h refl)
  settle-By v n out keys before results final s h = tt

  conclude-By :
      (n : ℕ) (out : NodeOutput) (keys : List Text) (before results : List GateResult)
      (started finished : ℕ) (s : State W) (last : Option GateResult) (ctx : GateContext) (w : W)
      → ctx.run_id ≡ job.run_id
      → ctx.output ≡ out
      → ctx.attempt ≡ n
      → ctx.prior ≡ []
      → get_last results ≡ last
      → GatesRan (no_error_gate ∷ job.gates) ctx w results
      → RoundBy
          (conclude clock usd job n out keys results (before ++ results) started finished s last)
  unfolding conclude
  conclude-By n out keys before results started finished s none ctx w of_run of_out at_n new e r =
      tt
  conclude-By n out keys before results started finished s (some final) ctx w of_run of_out at_n new
        e r =
      settle-By final.verdict n out keys before results final _ (passed r)
    where
      passed :
          GatesRan (no_error_gate ∷ job.gates) ctx w results
          → is_approved final.verdict ≡ true
          → Judged n out results
      passed (inl (own, whole, all)) pass =
          let same_results : results ≡ own = whole ∙ ap (λ before. before ++ own) new in
          let all_gates =
            subst (ApprovedBy (no_error_gate ∷ job.gates) ctx w) (sym same_results) all in
          (
            ap (λ (o : NodeOutput). error_text o.error) (sym of_out)
                ∙ ApprovedBy-NoError job.gates ctx w own all,
            (ctx, w, of_run, of_out, at_n, new, all_gates),
          )
      passed (inr (g, last, fail)) pass =
          let one : g ≡ final = cc in
          let fails : is_approved final.verdict ≡ false = rw (← one) fail in cc

  judge-By :
      (n : ℕ) (node : NodeInput) (out : NodeOutput) (keys : List Text) (history : List GateResult)
      (started finished : ℕ) (s : State W)
      → RoundBy (judge clock usd job n node out keys history started finished s)
  unfolding judge
  judge-By n node out keys history started finished s =
      conclude-By n out keys history _ started finished _ _ _ s.world refl refl refl refl refl
        (run_gates-GatesRan (no_error_gate ∷ job.gates) _ s.world)

  judge_written-By :
      (n : ℕ) (node : NodeInput) (history : List GateResult) (started finished : ℕ) (s : State W)
      (w : Written)
      → RoundBy (judge_written clock usd job n node history started finished s w)
  unfolding judge_written
  judge_written-By n node history started finished s (wrote keys out kv) =
      judge-By n node out keys history started finished _
  judge_written-By n node history started finished s (write_failed e kv) = tt

  work_started-By :
      (task : Text) (history : List GateResult) (s : State W) (r : Result (ℕ × Store))
      → RoundBy (work_started clock usd job task history s r)
  unfolding work_started work
  work_started-By task history s (ok (n, kv)) = judge_written-By n _ history _ _ _ _
  work_started-By task history s (raise e) = tt

  round-By :
      (task : Text) (history : List GateResult) (s : State W)
      → RoundBy (round clock usd job task history s)
  unfolding round over_budget
  round-By task history s =
      elim (Bool-cases (leb job.policy.max_run_cost_usd (total_cost s.lineage job.run_id))) [
        | inl over ↦ rw over tt
        | inr under ↦ rw under (work_started-By task history s _)
      ]

  give_up-By :
      (history : List GateResult) (s : State W) (last : Option GateResult)
      → ByAllGates (give_up clock usd job history s last).0
  unfolding give_up
  give_up-By history s none = tt
  give_up-By history s (some final) = tt

  attempts-By :
      (left : ℕ) (task : Text) (history : List GateResult) (s : State W)
      → ByAllGates (attempts clock usd job left task history s).0
  unfolding attempts
  attempts-By zero task history s = give_up-By history s _
  attempts-By (suc left) task history s = elim (Round-cases (round clock usd job task history s)) [
    | inl (o, s', e) ↦
        let h : RoundBy (finish o s') = rw e at (round-By task history s) in rw (e, attempts) h
    | inr (task', history', s', e) ↦ rw (e, attempts) (attempts-By left task' history' s')
  ]

  -- If `execute_node` returns, then its output has no error, and the results that end the history are
  -- what `NoErrorGate` and every gate of the agent, one after another, returned for that output and that
  -- attempt, each given the results before it and the world that the gate before it left, and each of
  -- these results approves.
  pub execute_node-ByAllGates : (s : State W) → ByAllGates (execute_node clock usd job s).0
  unfolding execute_node
  execute_node-ByAllGates s = attempts-By job.policy.max_attempts job.node.task [] s
