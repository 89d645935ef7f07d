-- ===== src/Harness/Governed/Units.antt =====
-- society/harness/governed.py: every unit that is acquired goes back once.
use mathlib.Core.Path.{subst}
use society_harness.Prelude.{
  ◌*◌, ◌/◌, min, ◌⊎◌, ℕ, zero, suc, ◌≡◌, refl, ◌∙◌, codes, ◌==◌, Bool-cases, inl, inr, ap,
  append-nil, List, [], ◌∷◌, ◌++◌, same, ◌||◌,
}
use society_harness.Prelude.Results.{Exception, Result-cases}
use society_harness.Providers.Types.{NodeInput, NodeOutput}
use society_harness.Harness.Governed.{
  ProviderError, Ask, Use, Answer, granted, refused, broke, Released, released, unpaid, failed,
  Ending, returned, raised, Calls, GovernedWorker, unless_raised, wait_of, acquire_loop, call_with,
  govern, ask_of, error_output, sdk_retries, no_use, usage_of,
}

-- The units that changed hands, in order.
pub data Handed (G : Type 0) : Type 0 where
  took : G → Handed G
  gave : G → Use → Handed G

abbrev pub taken : {G : Type 0} → Answer G → List (Handed G)
taken (granted g) = took g ∷ []
taken (refused e) = []
taken (broke e) = []

-- The gateway with a record of what changes hands.
abbrev pub noted : {W G : Type 0} → Calls W G → Calls (W × List (Handed G)) G
noted gw = record {
  acquire = λ a (w, log). let (answer, w') = gw.acquire a w in (answer, (w', log ++ taken answer));
  release =
      λ g u (w, log). let (after, w') = gw.release g u w in (after, (w', log ++ gave g u ∷ []));
  sleep = λ t (w, log). (gw.sleep t w, log);
  uniform = λ (w, log). let (factor, w') = gw.uniform w in (factor, (w', log));
}

-- A worker that does not hand over units itself.
abbrev pub noting : {W G : Type 0} → GovernedWorker W → GovernedWorker (W × List (Handed G))
noting worker = record {
  inner = λ node (w, log). let (result, w') = worker.inner node w in (result, (w', log));
  resource = worker.resource;
  tenant_of = worker.tenant_of;
  name = worker.name;
  model = worker.model;
}

Answer-cases :
    {G : Type 0} (answer : Answer G)
    → ((g : G) × (answer ≡ granted g))
      ⊎ (((e : ProviderError) × (answer ≡ refused e)) ⊎ ((e : Exception) × (answer ≡ broke e)))
Answer-cases (granted g) = inl (g, refl)
Answer-cases (refused e) = inr (inl (e, refl))
Answer-cases (broke e) = inr (inr (e, refl))

Released-cases :
    (r : Released)
    → (r ≡ released) ⊎ (((e : ProviderError) × (r ≡ unpaid e)) ⊎ ((e : Exception) × (r ≡ failed e)))
Released-cases released = inl refl
Released-cases (unpaid e) = inr (inl (e, refl))
Released-cases (failed e) = inr (inr (e, refl))

onto :
    {A : Type 0} (before log rest whole : List A)
    → before ≡ log
    → whole ≡ before ++ rest
    → whole ≡ log ++ rest
onto before log rest whole e h = cc

module _ {W G : Type 0} (gw : Calls W G) (second : ℕ) where
  -- What changed hands in a loop that ended with this answer.
  acquire_loop-Log :
      (left delay : ℕ) (a : Ask) (w : W) (log : List (Handed G))
      → (let (answer, (w', log')) = acquire_loop (noted gw) second left delay a (w, log) in
          log' ≡ log ++ taken answer)
  unfolding acquire_loop wait_of
  acquire_loop-Log zero delay a w log = refl
  acquire_loop-Log (suc left) delay a w log = elim (Answer-cases (gw.acquire a w).0) [
    | inl (g, got) ↦ rw (got, acquire_loop) (ap (λ o. log ++ taken o) got)
    | inr (inr (e, other)) ↦ rw (other, acquire_loop) (ap (λ o. log ++ taken o) other)
    | inr (inl (e, denied)) ↦
        let next = min (8 * second) (delay * 2) in
        let nothing : log ++ taken (gw.acquire a w).0 ≡ log =
          ap (λ o. log ++ taken o) denied ∙ append-nil log in
        elim (Bool-cases (same e.kind (codes "budget") || same e.kind (codes "timeout"))) [
          | inl last ↦ rw (denied, acquire_loop) (rw last (ap (λ o. log ++ taken o) denied))
          | inr again ↦
              rw (denied, acquire_loop)
                (rw again (elim (Bool-cases (e.retry_after == 0)) [
                  | inl drawn ↦ rw drawn (
                      onto (log ++ taken (gw.acquire a w).0) log _ _ nothing
                        (acquire_loop-Log left next a _ (log ++ taken (gw.acquire a w).0)))
                  | inr told ↦ rw told (
                      onto (log ++ taken (gw.acquire a w).0) log _ _ nothing
                        (acquire_loop-Log left next a _ (log ++ taken (gw.acquire a w).0)))
                ]))
        ]
  ]

  -- A unit that was taken went back once, and the call ended as its parts did.
  abbrev pub Closed :
      GovernedWorker W
      → NodeInput
      → G
      → List (Handed G)
      → List (Handed G)
      → Ending NodeOutput
      → ℕ
      → Type 0
  Closed worker node g log log' ending errors =
      ((e : Exception) × (log' ≡ log ++ gave g (no_use (codes "error")) ∷ [])
        × (errors ≡ 0)
        × ((after : Released) × (ending ≡ unless_raised after (raised e))))
      ⊎ ((out : NodeOutput) × (log' ≡ log ++ gave g (usage_of out) ∷ [])
          × (((ending ≡ returned out) × (errors ≡ 0))
              ⊎ (((e : ProviderError) × (ending ≡ returned (error_output gw second worker node e))
                    × (errors ≡ 1))
                  ⊎ ((e : Exception) × (ending ≡ raised e) × (errors ≡ 0)))))

  Closed-from :
      (worker : GovernedWorker W) (node : NodeInput) (g : G) (before log log' : List (Handed G))
      (ending : Ending NodeOutput) (errors : ℕ)
      → before ≡ log
      → Closed worker node g before log' ending errors
      → Closed worker node g log log' ending errors
  Closed-from worker node g before log log' ending errors e closed =
      subst (λ l. Closed worker node g l log' ending errors) e closed

  call_with-Closed :
      (worker : GovernedWorker W) (node : NodeInput) (g : G) (w : W) (log : List (Handed G))
      → (let ((ending, errors), (w', log')) =
            call_with (noted gw) second (noting worker) node g (w, log) in
          Closed worker node g log log' ending errors)
  unfolding call_with error_output
  call_with-Closed worker node g w log = elim (Result-cases (worker.inner node w).0) [
    | inr (e, bad) ↦ rw (bad, call_with) (inl (e, refl, refl, (_, refl)))
    | inl (out, good) ↦
        let closed = gw.release g (usage_of out) (worker.inner node w).1 in
        elim (Released-cases closed.0) [
          | inl fine ↦ rw (good, call_with) (rw fine (inr (out, refl, inl (refl, refl))))
          | inr (inl (e, short)) ↦
              rw (good, call_with) (rw short (inr (out, refl, inr (inl (e, refl, refl)))))
          | inr (inr (e, bad)) ↦
              rw (good, call_with) (rw bad (inr (out, refl, inr (inr (e, refl, refl)))))
        ]
  ]

  -- Whatever the gateway does, a model call takes at most one unit and gives back the one that it took
  -- exactly once: as an error where the worker raised, and else with the usage of its output. Without a
  -- unit nothing changes hands, and the call ends as a provider error that is counted or with the
  -- exception of the gateway. Where the worker raised, the call raises, and where it returned, the call
  -- returns its output, an error that is counted, or raises as the release did.
  pub govern-Closed :
      (worker : GovernedWorker W) (node : NodeInput) (w : W) (log : List (Handed G))
      → (let ((ending, errors), (w', log')) =
            govern (noted gw) second (noting worker) node (w, log) in
          ((g : G) × Closed worker node g (log ++ took g ∷ []) log' ending errors)
          ⊎ ((log' ≡ log)
              × (((e : ProviderError) × (ending ≡ returned (error_output gw second worker node e))
                    × (errors ≡ 1))
                  ⊎ ((e : Exception) × (ending ≡ raised e) × (errors ≡ 0)))))
  unfolding govern error_output ask_of
  govern-Closed worker node w log =
      let a = ask_of gw second worker node in
      let handed = acquire_loop-Log sdk_retries (second / 2) a w log in
      let (answer, (w', log')) =
        acquire_loop (noted gw) second sdk_retries (second / 2) a (w, log) in
      elim (Answer-cases answer) [
        | inl (g, got) ↦
            let one_taken : log' ≡ log ++ took g ∷ [] = handed ∙ ap (λ o. log ++ taken o) got in
            rw (got, govern)
              (inl (
                g,
                Closed-from worker node g log' (log ++ took g ∷ []) _ _ _ one_taken
                    (call_with-Closed worker node g w' log'),
              ))
        | inr (inl (e, denied)) ↦
            let nothing = handed ∙ ap (λ o. log ++ taken o) denied ∙ append-nil log in
            rw (denied, govern) (inr (nothing, inl (e, refl, refl)))
        | inr (inr (e, other)) ↦
            let nothing = handed ∙ ap (λ o. log ++ taken o) other ∙ append-nil log in
            rw (other, govern) (inr (nothing, inr (e, refl, refl)))
      ]
