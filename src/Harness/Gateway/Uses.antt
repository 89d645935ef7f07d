-- ===== src/Harness/Gateway/Uses.antt =====
-- society/harness/gateway.py: what leaves the use of the resources alone.
use society_harness.Prelude.Dicts.{assign_at}
use society_harness.Prelude.{
  ℕ, ◌+◌, ◌≡◌, refl, ◌∙◌, false, Text, same, same_iff, none, some, arith, Bool-cases, Option-cases,
  inl, inr,
}
use society_harness.Prelude.Int.{pos, ◌+ℤ◌, ◌≤ℤ◌, ltb_ℤ, -ℤ_parts}
use society_harness.Prelude.Results.{ok}
use society_harness.Agentsim.Buckets.Tokens
use society_harness.Agentsim.Resource.{Resource}
use society_harness.Agentsim.Resource
use society_harness.Agentsim.Resource.Provider
use society_harness.Harness.Gateway.{Grant, Waiter, Gateway, Predictions, is_chat, remove, RunState}
use society_harness.Harness.Gateway.Admission.{
  tolerance, order, fits, fits_tokens, fits_budget, over_capacity, reserved_now, put_res, put_tpm,
  provider_refusal, refused_tokens, refused_budget,
}
use society_harness.Harness.Gateway.Grants.{run_with, take_tokens, prepay, charge, use_lease}
use society_harness.Harness.Gateway.Release.{drop_leases, reissue_running}

-- A resource with the same capacity, of which the same is used.
abbrev pub SameUse : Resource → Resource → Type 0
SameUse r r' = (r'.used ≡ r.used) × (r'.capacity ≡ r.capacity)

abbrev pub SameUses : Gateway → Gateway → Type 0
SameUses s s' = (name : Text) → SameUse (s.res name) (s'.res name)

-- No more is used than there is, up to the tolerance.
abbrev pub InCapacity : Resource → Type 0
InCapacity r = r.used ≤ℤ pos (r.capacity + 1)

abbrev pub AllIn : Gateway → Type 0
AllIn s = (name : Text) → InCapacity (s.res name)

pub SameUses-trans : (r s t : Gateway) → SameUses r s → SameUses s t → SameUses r t
SameUses-trans r s t h k name = ((k name).0 ∙ (h name).0, (k name).1 ∙ (h name).1)

pub SameUses-of_res : (s s' : Gateway) → s'.res ≡ s.res → SameUses s s'
SameUses-of_res s s' e name = rw e (refl, refl)

pub AllIn-SameUses : (s s' : Gateway) → SameUses s s' → AllIn s → AllIn s'
AllIn-SameUses s s' h a name = rw (h name).0 (rw (h name).1 (a name))

pub put_res-SameUses :
    (name : Text) (r : Resource) (s : Gateway)
    → SameUse (s.res name) r
    → SameUses s (put_res name r s)
unfolding assign_at
put_res-SameUses name r s h other = elim (Bool-cases (same name other)) [
  | inl here ↦ let key : name ≡ other = (same_iff name other).0 here in rw here (rw (← key) h)
  | inr elsewhere ↦ rw elsewhere (refl, refl)
]

pub put_res-AllIn :
    (name : Text) (r : Resource) (s : Gateway) → InCapacity r → AllIn s → AllIn (put_res name r s)
unfolding assign_at
put_res-AllIn name r s h a other = elim (Bool-cases (same name other)) [
  | inl here ↦ rw here h
  | inr elsewhere ↦ rw elsewhere (a other)
]

pub take-InCapacity :
    (sid : Text) (amt : ℕ) (r : Resource)
    → r.used +ℤ pos amt ≤ℤ pos (r.capacity + 1)
    → InCapacity (Resource.take sid amt r)
unfolding Resource.take
take-InCapacity sid amt r h = h

pub remove-AllIn : (w : Waiter) (s : Gateway) → AllIn s → AllIn (remove w s)
unfolding remove
remove-AllIn w s a = a

pub give-InCapacity :
    (sid : Text) (amt : ℕ) (r r' : Resource)
    → Resource.give sid (some amt) r ≡ ok r'
    → InCapacity r
    → InCapacity r'
unfolding Resource.give Resource.release
give-InCapacity sid amt r r' e h = ground (arith, -ℤ_parts r.used (pos amt))

pub reissue_running-res :
    (p : Predictions) (run_id : Text) (s : Gateway) → (reissue_running p run_id s).res ≡ s.res
reissue_running-res p run_id s = ground arith

pub drop_leases-res :
    (now : ℕ) (run_id : Text) (s : Gateway) → (drop_leases now run_id s).res ≡ s.res
drop_leases-res now run_id s = ground arith

module _ (minute hour second milli : ℕ) where
  pub can_call-SameUse : (now u : ℕ) (r : Resource) → SameUse r (Provider.can_call minute now u r).0
  unfolding Provider.can_call
  can_call-SameUse now u r = ground arith

  pub take_call-SameUse : (now u : ℕ) (r : Resource) → SameUse r (Provider.take_call minute now u r)
  unfolding Provider.take_call
  take_call-SameUse now u r = ground arith

  pub budget_wait-SameUse :
      (now : ℕ) (r : Resource) → SameUse r (Provider.budget_wait minute milli now r).0
  unfolding Provider.budget_wait
  budget_wait-SameUse now r = ground arith

  pub fits_budget-res :
      (p : Predictions) (now : ℕ) (w : Waiter) (s : Gateway)
      → (fits_budget minute hour second milli p now w s).0.res ≡ s.res
  unfolding fits_budget
  fits_budget-res p now w s = ground arith

  pub fits_tokens-res :
      (p : Predictions) (now : ℕ) (w : Waiter) (s : Gateway)
      → (fits_tokens minute hour second milli p now w s).0.res ≡ s.res
  unfolding fits_tokens
  fits_tokens-res p now w s =
      let name = (s.res w.grant.res).name in
      elim (Option-cases (s.tpm name)) [
        | inl none_there ↦ ground (arith, fits_budget-res p now w s)
        | inr (b, there) ↦
            ground (arith, fits_budget-res p now w (put_tpm name (Tokens.refill minute now b) s))
      ]

  -- `_fits` changes no use, and finds the capacity where it finds that a waiter fits.
  pub fits-SameUses :
      (p : Predictions) (now : ℕ) (w : Waiter) (s : Gateway)
      → SameUses s (fits minute hour second milli p now w s).0
  unfolding fits
  fits-SameUses p now w s =
      let (r', may) = Provider.can_call minute now Provider.one (s.res w.grant.res) in
      let s' = put_res w.grant.res r' s in
      let called =
        put_res-SameUses w.grant.res r' s (can_call-SameUse now Provider.one (s.res w.grant.res)) in
      let rest =
        SameUses-of_res s' (fits_tokens minute hour second milli p now w s').0
          (fits_tokens-res p now w s') in
      let all =
        SameUses-trans s s' (fits_tokens minute hour second milli p now w s').0 called rest in
      elim (Bool-cases (over_capacity minute hour second milli now w.grant s)) [
        | inl over ↦ rw over (λ name. (refl, refl))
        | inr under ↦ elim (Bool-cases (is_chat w.grant)) [
          | inr tool ↦ rw under (rw tool (λ name. (refl, refl)))
          | inl chat ↦ elim (Bool-cases may) [
            | inl fine ↦ rw under (rw chat (rw fine all))
            | inr short ↦ rw under (rw chat (rw short called))
          ]
        ]
      ]

  pub fits-Under :
      (p : Predictions) (now : ℕ) (w : Waiter) (s : Gateway)
      → (fits minute hour second milli p now w s).1 ≡ none
      → over_capacity minute hour second milli now w.grant s ≡ false
  unfolding fits
  fits-Under p now w s e = ground arith

  pub Under-InCapacity :
      (now : ℕ) (g : Grant) (s : Gateway)
      → over_capacity minute hour second milli now g s ≡ false
      → (s.res g.res).used +ℤ pos g.amt ≤ℤ pos ((s.res g.res).capacity + 1)
  unfolding over_capacity
  Under-InCapacity now g s e =
      let r = s.res g.res in
      ground (
        arith,
        e,
        -ℤ_parts (pos (r.capacity + 1)) (pos (reserved_now minute hour second milli now g s)),
      )

  pub run_with-res :
      (run_id : Text) (change : RunState → RunState) (s : Gateway)
      → (run_with run_id change s).res ≡ s.res
  run_with-res run_id change s = ground arith

  pub take_tokens-res :
      (now : ℕ) (g : Grant) (s : Gateway)
      → (take_tokens minute hour second milli now g s).res ≡ s.res
  unfolding take_tokens
  take_tokens-res now g s = ground arith

  pub prepay-res :
      (now : ℕ) (g : Grant) (s : Gateway) → (prepay minute hour second milli now g s).0.res ≡ s.res
  unfolding prepay
  prepay-res now g s = ground arith

  pub charge-SameUses :
      (now : ℕ) (g : Grant) (s : Gateway) → SameUses s (charge minute hour second milli now g s).0
  unfolding charge
  charge-SameUses now g s =
      let r' = Provider.take_call minute now 0 (s.res g.res) in
      let s1 = put_res g.res r' s in
      let s2 = take_tokens minute hour second milli now g s1 in
      let s3 = (prepay minute hour second milli now g s2).0 in
      let called = put_res-SameUses g.res r' s (take_call-SameUse now 0 (s.res g.res)) in
      let rest = SameUses-of_res s1 s3 (prepay-res now g s2 ∙ take_tokens-res now g s1) in
      elim (Bool-cases (is_chat g)) [
        | inl chat ↦ rw chat (SameUses-trans s s1 s3 called rest)
        | inr tool ↦ rw tool (λ name. (refl, refl))
      ]

  pub use_lease-res :
      (now : ℕ) (g : Grant) (s : Gateway) → (use_lease minute hour second milli now g s).res ≡ s.res
  unfolding use_lease
  use_lease-res now g s = ground arith

  pub order-SameUses :
      (p : Predictions) (now : ℕ) (name : Text) (s : Gateway)
      → (order minute hour second milli p now name s).0.res ≡ s.res
  unfolding order
  order-SameUses p now name s = ground arith

  pub refused_budget-res :
      (now : ℕ) (g : Grant) (s : Gateway)
      → (refused_budget minute hour second milli now g s).0.res ≡ s.res
  unfolding refused_budget
  refused_budget-res now g s = ground arith

  pub refused_tokens-res :
      (now : ℕ) (g : Grant) (s : Gateway)
      → (refused_tokens minute hour second milli now g s).0.res ≡ s.res
  unfolding refused_tokens
  refused_tokens-res now g s =
      let name = (s.res g.res).name in
      elim (Option-cases (s.tpm name)) [
        | inl none_there ↦ ground (arith, refused_budget-res now g s)
        | inr (b, there) ↦
            ground (arith, refused_budget-res now g (put_tpm name (Tokens.refill minute now b) s))
      ]

  pub provider_refusal-SameUses :
      (now : ℕ) (g : Grant) (s : Gateway)
      → SameUses s (provider_refusal minute hour second milli now g s).0
  unfolding provider_refusal
  provider_refusal-SameUses now g s =
      let r = s.res g.res in
      let (r', may) = Provider.can_call minute now Provider.one r in
      let called = can_call-SameUse now Provider.one r in
      let s' = put_res g.res r' s in
      let waited = (Provider.budget_wait minute milli now r').0 in
      let waits = budget_wait-SameUse now r' in
      let kept = put_res-SameUses g.res r' s called in
      let kept_waiting = put_res-SameUses g.res waited s (waits.0 ∙ called.0, waits.1 ∙ called.1) in
      let rest = (refused_tokens minute hour second milli now g s').0 in
      let all =
        SameUses-trans s s' rest kept (SameUses-of_res s' rest (refused_tokens-res now g s')) in
      elim (Bool-cases (ltb_ℤ (pos (r.capacity + tolerance)) (r.used +ℤ pos g.amt))) [
        | inl over ↦ rw over (λ name. (refl, refl))
        | inr under ↦ elim (Bool-cases may) [
          | inl fine ↦ rw under (rw fine all)
          | inr short ↦ rw under (rw short kept_waiting)
        ]
      ]
