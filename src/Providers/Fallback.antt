-- ===== src/Providers/Fallback.antt =====
-- society/providers/fallback.py: a worker made of two, which are its parameters. Python's f-string
-- prints a missing error as `None`.
mod Examples
use society_harness.Prelude.{
  ℕ, zero, suc, ◌≤◌, ◌<◌, sym, ◌∙◌, ◌≡◌, ◌↔◌, refl, Bool, true, false, Text, codes, ◌++◌, Option,
  none, some, if◌then◌else◌, leb, arith, ◌⊎◌, inl, inr, Bool-cases,
}
use society_harness.Prelude.Decimal.{show}
use society_harness.Providers.Types.{NodeInput, NodeOutput, Worker, ErrorKind, provider, task}

pub record FallbackWorker (W : Type 0) : Type 0 where
  pub primary : Worker W
  pub secondary : Worker W
  pub switch_from_attempt : Option ℕ

abbrev pub is_provider : Option ErrorKind → Bool
is_provider none = false
is_provider (some provider) = true
is_provider (some task) = false

abbrev print : Option Text → Text
print none = codes "None"
print (some t) = t

-- `self.switch_from_attempt and node.attempt >= self.switch_from_attempt`
abbrev pub switches : Option ℕ → ℕ → Bool
switches none attempt = false
switches (some zero) attempt = false
switches (some (suc n)) attempt = leb (suc n) attempt

switches_iff :
    (from : Option ℕ) (attempt : ℕ)
    → (switches from attempt ≡ true) ↔ ((n : ℕ) × (from ≡ some n) × (0 < n) × (n ≤ attempt))
switches_iff none attempt = (λ e. absurd cc, λ (n, e, x, y). absurd cc)
switches_iff (some zero) attempt =
    (λ e. absurd cc, λ (n, e, x, y). let none_given : zero ≡ n = cc in absurd (omega arith))
switches_iff (some (suc n)) attempt = (
  λ e. (suc n, refl, omega arith, ground arith),
  λ (m, e, x, y). let one : suc n ≡ m = cc in ground arith,
)

true-ne-false : true ≡ false → ⊥
true-ne-false e = cc

module _ {W : Type 0} (self : FallbackWorker W) (node : NodeInput) where
  abbrev pub blame : NodeOutput → Text → NodeOutput
  blame out text = record out { fallback_from = some text }

  abbrev primary_label : Text
  primary_label = self.primary.name ++ (codes ":" ++ self.primary.model)

  unfoldable pub secondary_first : W → NodeOutput × W
  secondary_first w =
      let (out, w1) = self.secondary.run node w in
      elim (is_provider out.error_kind) [
        | true ↦
            let (again, w2) = self.primary.run node w1 in
            (blame again (codes "secondary unavailable — " ++ print out.error), w2)
        | false ↦ (
          blame out (primary_label ++ (codes " (attempt " ++ (show node.attempt ++ codes ")"))),
          w1,
        )
      ]

  unfoldable pub primary_first : W → NodeOutput × W
  primary_first w =
      let (out, w1) = self.primary.run node w in
      elim (is_provider out.error_kind) [
        | true ↦
            let (again, w2) = self.secondary.run node w1 in
            (blame again (primary_label ++ (codes " — " ++ print out.error)), w2)
        | false ↦ (out, w1)
      ]

  unfoldable pub run : W → NodeOutput × W
  unfolding secondary_first primary_first
  run w =
      if switches self.switch_from_attempt node.attempt then secondary_first w else primary_first w

  -- The two workers fail with a provider error one after the other, in this order.
  abbrev pub BothFail : Worker W → Worker W → W → Type 0
  BothFail a b w =
      (is_provider (a.run node w).0.error_kind ≡ true)
      × (is_provider (b.run node (a.run node w).1).0.error_kind ≡ true)

  -- The attempt is at least the one from which on the workers switch; 0 stands for none.
  abbrev pub Switched : Type 0
  Switched = (n : ℕ) × (self.switch_from_attempt ≡ some n) × (0 < n) × (n ≤ node.attempt)

  BothFail-iff_order :
      (a b : Worker W) (w : W) (r : NodeOutput)
      → (is_provider (a.run node w).0.error_kind ≡ true
          → r.error_kind ≡ (b.run node (a.run node w).1).0.error_kind)
      → (is_provider (a.run node w).0.error_kind ≡ false
          → r.error_kind ≡ (a.run node w).0.error_kind)
      → (is_provider r.error_kind ≡ true) ↔ BothFail a b w
  BothFail-iff_order a b w r failed fine =
      elim (Bool-cases (is_provider (a.run node w).0.error_kind)) [
        | inl bad ↦ rw (failed bad) (λ e. (bad, e), λ (x, e). e)
        | inr good ↦ rw (fine good) (λ e. absurd (cc), λ (e, x). e)
      ]

  -- A provider error comes out exactly if both workers were run, one after the other, and both failed
  -- with one: the secondary before the primary where a positive attempt is given at which the workers
  -- switch and the node is at that attempt or a later one, and else the primary before the secondary.
  pub run-BothFail :
      (w : W)
      → (is_provider (run w).0.error_kind ≡ true) ↔ (
          (Switched × BothFail self.secondary self.primary w)
          ⊎ ((Switched → ⊥) × BothFail self.primary self.secondary w))
  unfolding run secondary_first primary_first
  run-BothFail w = elim (Bool-cases (switches self.switch_from_attempt node.attempt)) [
    | inl late ↦
        let switched = (switches_iff self.switch_from_attempt node.attempt).0 late in
        let order =
          BothFail-iff_order self.secondary self.primary w (secondary_first w).0
            (λ h. rw (h, secondary_first) refl) (λ h. rw (h, secondary_first) refl) in
        rw late (
          λ e. inl (switched, order.0 e),
          λ where_failed. elim where_failed [
            | inl (x, failed) ↦ order.1 failed
            | inr (early, x) ↦ absurd (early switched)
          ],
        )
    | inr early ↦
        let not_switched = λ (s : Switched).
          true-ne-false (sym ((switches_iff self.switch_from_attempt node.attempt).1 s) ∙ early) in
        let order =
          BothFail-iff_order self.primary self.secondary w (primary_first w).0
            (λ h. rw (h, primary_first) refl) (λ h. rw (h, primary_first) refl) in
        rw early (
          λ e. inr (not_switched, order.0 e),
          λ where_failed. elim where_failed [
            | inl (s, x) ↦ absurd (not_switched s)
            | inr (x, failed) ↦ order.1 failed
          ],
        )
  ]
