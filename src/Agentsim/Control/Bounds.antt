-- ===== src/Agentsim/Control/Bounds.antt =====
-- agentsim/control.py: the corrections of the loop stay within their bounds.
use society_harness.Prelude.{
  ℕ, ◌-◌, ◌*◌, ◌/◌, ◌≤◌, ◌≡◌, max, Bool, not, ◌||◌, ◌==◌, Text, same, List, [], ◌∷◌, arith,
  if◌then◌else◌, ltb, length, Bool-cases, Option-cases, inl, inr,
}
use society_harness.Prelude.Dicts.{
  assign_at-Holds, lookup-assign, lookup-pop_key, lookup, assign, pop_key, value_or, assign_at,
}
use society_harness.Prelude.Int.{ℤ, pos, ◌≤ℤ◌}
use society_harness.Agentsim.Control.{
  Pi, Loop, Reading, unit, million, update, corrected, demand_error, paced, highest, lowest, sample,
  set_prediction, tick_resources, tick_budgets, tick_now,
}
use society_harness.Agentsim.Control.Fairness.{
  fair_weight, weigh_all, ratios, common, sum_of, numerator, fairness_update, served_add, forget,
}

-- The scale is within [0.5, 2].
abbrev pub InScale : Pi → Type 0
InScale p =
    (p.lo ≡ unit / 2) × (p.hi ≡ 2 * unit) × (pos (unit / 2) ≤ℤ p.x) × (p.x ≤ℤ pos (2 * unit))

abbrev pub InFloor : ℕ → Type 0
InFloor floor = (lowest ≤ floor) × (floor ≤ highest)

abbrev pub InWeight : ℕ → Type 0
InWeight w = (500000 ≤ w) × (w ≤ 2000000)

-- Every weight that `weight` reads.
abbrev pub Weights : List (Text × ℕ) → Type 0
Weights d = (sid : Text) → InWeight (value_or million (lookup sid d))

abbrev pub InBounds : Loop → Type 0
InBounds l =
    ((name : Text) → InScale (l.scale name))
    × ((name : Text) → InFloor (l.floor name))
    × Weights l.fair_w

update-InScale : (e : ℤ) (p : Pi) → InScale p → InScale (update e p)
unfolding update
update-InScale e p (lo, hi, above, below) = ground (arith, lo, hi)

paced-InFloor : (refused : Bool) (floor : ℕ) → InFloor floor → InFloor (paced refused floor)
unfolding paced
paced-InFloor refused floor (above, below) = ground (arith, above, below)

fair_weight-InWeight : (k n sum num : ℕ) → InWeight (fair_weight k n sum num)
unfolding fair_weight
fair_weight-InWeight k n sum num = ground arith

assign-Weights :
    (k : Text) (w : ℕ) (d : List (Text × ℕ)) → InWeight w → Weights d → Weights (assign k w d)
unfolding value_or
assign-Weights k w d good all sid = rw (lookup-assign k w d sid) (elim (Bool-cases (same k sid)) [
  | inl here ↦ rw here good
  | inr elsewhere ↦ rw elsewhere (all sid)
])

pop_key-Weights : (k : Text) (d : List (Text × ℕ)) → Weights d → Weights (pop_key k d)
unfolding value_or
pop_key-Weights k d all sid = rw (lookup-pop_key k d sid) (elim (Bool-cases (same k sid)) [
  | inl here ↦ rw here (omega arith, omega arith)
  | inr elsewhere ↦ rw elsewhere (all sid)
])

weigh_all-Weights :
    (k n d sum : ℕ) (rs : List (Text × (ℕ × ℕ))) (ws : List (Text × ℕ))
    → Weights ws
    → Weights (weigh_all k n d sum rs ws)
unfolding weigh_all
weigh_all-Weights k n d sum [] ws all = all
weigh_all-Weights k n d sum ((sid, (s, time)) ∷ rest) ws all =
    let w = fair_weight k n sum (numerator d s time) in
    weigh_all-Weights k n d sum rest (assign sid w ws)
      (assign-Weights sid w ws (fair_weight-InWeight k n sum (numerator d s time)) all)

corrected-InScale :
    (world : Text → Reading) (len : ℕ) (name : Text) (l : Loop)
    → InScale (l.scale name)
    → InScale (corrected world len name l)
unfolding corrected
corrected-InScale world len name l s = elim (Option-cases (l.predicted name)) [
  | inl unknown ↦ ground (arith, s)
  | inr (pred, known) ↦
      let e = demand_error (l.occ_int name) len pred (world name).capacity in
      ground (arith, s, update-InScale e (l.scale name) s)
]

tick_resources-Bounds :
    (world : Text → Reading) (len : ℕ) (names : List Text) (l : Loop)
    → InBounds l
    → InBounds (tick_resources world len names l)
unfolding tick_resources
tick_resources-Bounds world len [] l b = b
tick_resources-Bounds world len (name ∷ names) l (scales, floors, weights) =
    tick_resources-Bounds world len names
      (record l {
        scale = assign_at name (corrected world len name l) l.scale;
        occ_int = assign_at name (pos 0) l.occ_int;
      })
      (
        assign_at-Holds InScale name (corrected world len name l) l.scale
            (corrected-InScale world len name l (scales name)) scales,
        floors,
        weights,
      )

tick_budgets-Bounds :
    (refused : Text → ℕ) (names : List Text) (l : Loop)
    → InBounds l
    → InBounds (tick_budgets refused names l)
unfolding tick_budgets
tick_budgets-Bounds refused [] l b = b
tick_budgets-Bounds refused (name ∷ names) l (scales, floors, weights) =
    let pace = paced (ltb (l.refused_seen name) (refused name)) (l.floor name) in
    let within =
      paced-InFloor (ltb (l.refused_seen name) (refused name)) (l.floor name) (floors name) in
    tick_budgets-Bounds refused names
      (record l {
        refused_seen = assign_at name (refused name) l.refused_seen;
        floor = if l.enabled then assign_at name pace l.floor else l.floor;
      })
      (
        scales,
        λ other. elim (Bool-cases l.enabled) [
          | inl on ↦ rw on (assign_at-Holds InFloor name pace l.floor within floors other)
          | inr frozen ↦ rw frozen (floors other)
        ],
        weights,
      )

-- The calls of an engine on the loop.
pub data Call : Type 0 where
  samples : (Text → Reading) → ℕ → Call
  predicts : Text → ℕ → Call
  ticks_now : (Text → Reading) → (Text → ℕ) → ℕ → Call
  serves : Text → ℕ → ℕ → Call
  weighs : ℕ → ℕ → ℕ → Call
  forgets : Text → Call

unfoldable pub after : Call → Loop → Loop
after (samples world now) l = sample world now l
after (predicts name occ) l = set_prediction name occ l
after (ticks_now world refused now) l = tick_now world refused now l
after (serves sid seconds now) l = served_add sid seconds now l
after (weighs second now k) l = fairness_update second now k l
after (forgets sid) l = forget sid l

unfoldable pub after_all : List Call → Loop → Loop
after_all [] l = l
after_all (c ∷ cs) l = after_all cs (after c l)

after-Bounds : (c : Call) (l : Loop) → InBounds l → InBounds (after c l)
unfolding after sample set_prediction tick_now served_add fairness_update forget
after-Bounds (samples world now) l b = b
after-Bounds (predicts name occ) l b = b
after-Bounds (ticks_now world refused now) l b =
    let l1 = sample world now l in
    let l2 = tick_resources world (max 1 (now - l.tick_start)) l.res l1 in
    tick_budgets-Bounds refused l.budgets l2
      (tick_resources-Bounds world (max 1 (now - l.tick_start)) l.res l1 b)
after-Bounds (serves sid seconds now) l b = b
after-Bounds (weighs second now k) l (scales, floors, weights) =
    let rs = ratios second now l.served in
    let d = common rs in
    let sum = sum_of d rs in
    elim (Bool-cases (not l.enabled || ltb (length l.served) 4 || ltb (length rs) 4 || sum == 0)) [
      | inl too_few ↦ rw too_few (scales, floors, weights)
      | inr enough ↦
          rw enough (scales, floors, weigh_all-Weights k (length rs) d sum rs l.fair_w weights)
    ]
after-Bounds (forgets sid) l (scales, floors, weights) =
    (scales, floors, pop_key-Weights sid l.fair_w weights)

-- The corrections of the feedback loop stay bounded over any calls: every forecast scale within [0.5, 2],
-- every pacing floor within [0.02, 0.5] of its budget, and every fairness weight within [0.5, 2].
pub after_all-Bounds : (cs : List Call) (l : Loop) → InBounds l → InBounds (after_all cs l)
unfolding after_all
after_all-Bounds [] l b = b
after_all-Bounds (c ∷ cs) l b = after_all-Bounds cs (after c l) (after-Bounds c l b)
