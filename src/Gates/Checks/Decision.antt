-- ===== src/Gates/Checks/Decision.antt =====
-- society/gates/deterministic.py: what `DecisionConsistencyGate` approves.
use society_harness.Prelude.{
  zero, suc, ◌≡◌, ◌↔◌, refl, sym, ap, ◌∙◌, Bool, true, false, ◌&&◌, codes, List, [], ◌∷◌,
  Bool-cases, inl, inr,
}
use society_harness.Prelude.Results.{ok, ◌>>=◌, >>=-eq-ok}
use society_harness.Json.{
  Json, null, bool, num, str, arr, obj, Items, nil, cons, end, field, get_field,
}
use society_harness.Memory.Lineage.{approved}
use society_harness.Memory.Kv.{truthy}
use society_harness.Gates.Types.{GateResult, GateContext}
use society_harness.Gates.Checks.{
  fields_of, value_of, default_item, failed_items, join, weigh, decide, decision_consistency_gate,
}

-- Every item is marked `ok`.
abbrev pub all_ok : Items → Bool
all_ok nil = true
all_ok (cons (obj i) rest) = truthy (value_of (get_field (codes "ok") i)) && all_ok rest
all_ok (cons _ rest) = false

abbrev pub AllObjects : Items → Type 0
AllObjects nil = Unit
AllObjects (cons (obj i) rest) = AllObjects rest
AllObjects (cons _ rest) = ⊥

abbrev pub is_none : List Json → Bool
is_none [] = true
is_none (v ∷ vs) = false

abbrev pub no_items : Items → Bool
no_items nil = true
no_items (cons v vs) = false

-- A checklist that is a list of objects, not empty, with `go` exactly if every item is marked ok.
abbrev pub Consistent : Json → Json → Type 0
Consistent go checklist =
    (b : Bool) × (items : Items) × (go ≡ bool b)
    × (checklist ≡ arr items)
    × (no_items items ≡ false)
    × AllObjects items
    × (b ≡ all_ok items)

failed_items-Objects :
    (items : Items)
    → AllObjects items
    → (failed : List Json) × (failed_items items ≡ ok failed) × (is_none failed ≡ all_ok items)
unfolding failed_items
failed_items-Objects nil objects = ([], refl, refl)
failed_items-Objects (cons null rest) objects = absurd objects
failed_items-Objects (cons (bool b) rest) objects = absurd objects
failed_items-Objects (cons (num n) rest) objects = absurd objects
failed_items-Objects (cons (str t) rest) objects = absurd objects
failed_items-Objects (cons (arr xs) rest) objects = absurd objects
failed_items-Objects (cons (obj i) rest) objects =
    let (failed, e, none_failed) = failed_items-Objects rest objects in
    elim (Bool-cases (truthy (value_of (get_field (codes "ok") i)))) [
      | inl marked ↦ rw marked (failed, e, none_failed)
      | inr unmarked ↦
          rw unmarked (default_item (get_field (codes "item") i) ∷ failed, rw e refl, refl)
    ]

Objects-failed_items :
    (items : Items) (failed : List Json) → failed_items items ≡ ok failed → AllObjects items
unfolding failed_items
Objects-failed_items nil failed e = tt
Objects-failed_items (cons null rest) failed e = absurd cc
Objects-failed_items (cons (bool b) rest) failed e = absurd cc
Objects-failed_items (cons (num n) rest) failed e = absurd cc
Objects-failed_items (cons (str t) rest) failed e = absurd cc
Objects-failed_items (cons (arr xs) rest) failed e = absurd cc
Objects-failed_items (cons (obj i) rest) failed e =
    elim (Bool-cases (truthy (value_of (get_field (codes "ok") i)))) [
      | inl marked ↦ Objects-failed_items rest failed (rw marked at e)
      | inr unmarked ↦
          let (others, e', last) = >>=-eq-ok (failed_items rest) _ (rw unmarked at e) in
          Objects-failed_items rest others e'
    ]

-- The verdict of `weigh` is that of the comparison.
weigh-Approved :
    (go : Bool) (failed : List Json) (r : GateResult)
    → weigh go failed ≡ ok r
    → r.verdict ≡ approved
    → go ≡ is_none failed
unfolding weigh
weigh-Approved true [] r e a = refl
weigh-Approved true (v ∷ vs) r e a =
    let (names, joined, last) = >>=-eq-ok (join (v ∷ vs)) _ e in absurd cc
weigh-Approved false [] r e a = absurd cc
weigh-Approved false (v ∷ vs) r e a = refl

Approved-weigh :
    (go : Bool) (failed : List Json)
    → go ≡ is_none failed
    → (r : GateResult) × (weigh go failed ≡ ok r) × (r.verdict ≡ approved)
unfolding weigh
Approved-weigh true [] e = (_, refl, refl)
Approved-weigh true (v ∷ vs) e = absurd cc
Approved-weigh false [] e = absurd cc
Approved-weigh false (v ∷ vs) e = (_, refl, refl)

weigh_items-Consistent :
    (go : Bool) (items : Items) (r : GateResult)
    → (failed_items items >>= weigh go) ≡ ok r
    → r.verdict ≡ approved
    → AllObjects items × (go ≡ all_ok items)
weigh_items-Consistent go items r e a =
    let (failed, ran, weighed) = >>=-eq-ok (failed_items items) (weigh go) e in
    let objects = Objects-failed_items items failed ran in
    let (others, again, none_failed) = failed_items-Objects items objects in
    let same_list : failed ≡ others = cc in
    (objects, weigh-Approved go failed r weighed a ∙ ap is_none same_list ∙ none_failed)

decide-Consistent :
    (go checklist : Json) (r : GateResult)
    → decide go checklist ≡ ok r
    → r.verdict ≡ approved
    → Consistent go checklist
unfolding decide truthy
decide-Consistent null checklist r e a = absurd cc
decide-Consistent (num n) checklist r e a = absurd cc
decide-Consistent (str t) checklist r e a = absurd cc
decide-Consistent (arr xs) checklist r e a = absurd cc
decide-Consistent (obj fs) checklist r e a = absurd cc
decide-Consistent (bool go) null r e a = absurd cc
decide-Consistent (bool go) (bool true) r e a = absurd cc
decide-Consistent (bool go) (bool false) r e a = absurd cc
decide-Consistent (bool go) (num zero) r e a = absurd cc
decide-Consistent (bool go) (num (suc n)) r e a = absurd cc
decide-Consistent (bool go) (str []) r e a = absurd cc
decide-Consistent (bool go) (str (c ∷ cs)) r e a = absurd cc
decide-Consistent (bool go) (obj end) r e a = absurd cc
decide-Consistent (bool go) (obj (field k v fs)) r e a = absurd cc
decide-Consistent (bool go) (arr nil) r e a = absurd cc
decide-Consistent (bool go) (arr (cons i rest)) r e a =
    let (objects, agrees) = weigh_items-Consistent go (cons i rest) r e a in
    (go, cons i rest, refl, refl, refl, objects, agrees)

Consistent-decide :
    (go checklist : Json)
    → Consistent go checklist
    → (r : GateResult) × (decide go checklist ≡ ok r) × (r.verdict ≡ approved)
unfolding decide truthy
Consistent-decide go checklist (b, nil, is_b, is_items, some_items, objects, agrees) = absurd cc
Consistent-decide go checklist (b, cons i rest, is_b, is_items, some_items, objects, agrees) =
    let (failed, ran, none_failed) = failed_items-Objects (cons i rest) objects in
    let (r, weighed, a) = Approved-weigh b failed (agrees ∙ sym none_failed) in
    (r, rw is_b (rw is_items (rw ran weighed)), a)

-- The gate approves exactly the decisions that agree with their checklist: it returns an approval if
-- and only if `go` is a Boolean, the checklist is a list of objects that is not empty, and `go` is true
-- exactly if every item is marked ok.
pub decision_consistency_gate_iff :
    (ctx : GateContext)
    → ((r : GateResult) × (decision_consistency_gate ctx ≡ ok r) × (r.verdict ≡ approved))
      ↔ Consistent
          (value_of (get_field (codes "go") (fields_of ctx.output.result)))
          (value_of (get_field (codes "checklist") (fields_of ctx.output.result)))
unfolding decision_consistency_gate
decision_consistency_gate_iff ctx =
    let go = value_of (get_field (codes "go") (fields_of ctx.output.result)) in
    let checklist = value_of (get_field (codes "checklist") (fields_of ctx.output.result)) in
    (λ (r, e, a). decide-Consistent go checklist r e a, Consistent-decide go checklist)
