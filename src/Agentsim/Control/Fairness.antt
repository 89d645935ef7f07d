-- ===== src/Agentsim/Control/Fairness.antt =====
-- agentsim/control.py: the weights of the sessions. The ratios of served time to the time since are
-- brought to a common denominator, so that their mean and the errors are exact before they are rounded.
use society_harness.Prelude.{
  ℕ, ◌+◌, ◌-◌, ◌*◌, ◌/◌, max, not, ◌||◌, Text, List, [], ◌∷◌, if◌then◌else◌, ltb, ◌==◌, length,
}
use society_harness.Prelude.Dicts.{lookup, assign, pop_key, value_or}
use society_harness.Prelude.Int.{pos, pos_part, ◌-ℤ◌, ◌+ℤ◌, ◌*ℤ◌, sub_ℕ}
use society_harness.Agentsim.Control.{Loop, million, clamp, quotient}

unfoldable pub served_add : Text → ℕ → ℕ → Loop → Loop
served_add sid seconds now l =
    let (s, since) = value_or (0, now) (lookup sid l.served) in
    record l { served = assign sid (s + seconds, since) l.served }

-- A session that was served for a while: its served time, and the time since, at least one second.
unfoldable pub ratios : ℕ → ℕ → List (Text × (ℕ × ℕ)) → List (Text × (ℕ × ℕ))
ratios second now [] = []
ratios second now ((sid, (s, since)) ∷ rest) =
    let others = ratios second now rest in
    if ltb (30 * second) (now - since)
    then (sid, (s, max second (now - since))) ∷ others
    else others

unfoldable pub common : List (Text × (ℕ × ℕ)) → ℕ
common [] = 1
common ((sid, (s, time)) ∷ rest) = time * common rest

-- The numerators over the denominator `d`.
unfoldable pub numerator : ℕ → ℕ → ℕ → ℕ
numerator d s time = s * (d / time)

unfoldable pub sum_of : ℕ → List (Text × (ℕ × ℕ)) → ℕ
sum_of d [] = 0
sum_of d ((sid, (s, time)) ∷ rest) = numerator d s time + sum_of d rest

-- `1.0 + k * max(-1.0, min(1.0, (r - mean) / mean))` within [0.5, 2]
unfoldable pub fair_weight : ℕ → ℕ → ℕ → ℕ → ℕ
fair_weight k n sum num =
    let e = quotient ((pos (n * num) -ℤ pos sum) *ℤ pos million) sum in
    let c = clamp (sub_ℕ 0 million) (pos million) e in
    pos_part (clamp (pos 500000) (pos 2000000) (pos million +ℤ quotient (pos k *ℤ c) million))

unfoldable pub weigh_all : ℕ → ℕ → ℕ → ℕ → List (Text × (ℕ × ℕ)) → List (Text × ℕ) → List (Text × ℕ)
weigh_all k n d sum [] weights = weights
weigh_all k n d sum ((sid, (s, time)) ∷ rest) weights =
    weigh_all k n d sum rest (assign sid (fair_weight k n sum (numerator d s time)) weights)

unfoldable pub fairness_update : ℕ → ℕ → ℕ → Loop → Loop
fairness_update second now k l =
    let rs = ratios second now l.served in
    let d = common rs in
    let sum = sum_of d rs in
    if not l.enabled || ltb (length l.served) 4 || ltb (length rs) 4 || sum == 0
    then l
    else record l { fair_w = weigh_all k (length rs) d sum rs l.fair_w }

unfoldable pub weight : Text → Loop → ℕ
weight sid l = value_or million (lookup sid l.fair_w)

unfoldable pub forget : Text → Loop → Loop
forget sid l = record l { fair_w = pop_key sid l.fair_w; served = pop_key sid l.served }
