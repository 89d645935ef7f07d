-- ===== src/Agentsim/Control.antt =====
-- agentsim/control.py: `PI` and `AllocationLoop`. Errors, gains and weights are counted in millionths, a
-- scale in 10^-12, a floor and amounts in 10^-9, times in ticks; a quotient is rounded towards zero to
-- its unit. A prediction that is not a number is `none`. The history of reports is left out.
pub mod Fairness
pub mod Bounds
mod Examples
use society_harness.Prelude.{
  ℕ, zero, suc, ◌+◌, ◌-◌, ◌*◌, ◌/◌, min, max, Bool, true, false, not, ◌||◌, Text, same, List, [],
  ◌∷◌, Option, none, some, if◌then◌else◌, leb, ltb, ◌==◌, length,
}
use society_harness.Prelude.Dicts.{lookup, assign, pop_key, value_or, assign_at}
use society_harness.Prelude.Int.{
  ℤ, pos, negsuc, pos_part, neg_part, ◌+ℤ◌, ◌-ℤ◌, ◌*ℤ◌, min_ℤ, max_ℤ, sub_ℕ,
}
use society_harness.Prelude.Results.{Result, ok, raise, value_error}

abbrev pub million : ℕ
million = 1000000

-- 1.0 of a scale
abbrev pub unit : ℕ
unit = 1000000000000

-- `max(lo, min(hi, x))`
abbrev pub clamp : ℤ → ℤ → ℤ → ℤ
clamp lo hi x = max_ℤ lo (min_ℤ hi x)

-- A signed quotient, towards zero.
abbrev pub quotient : ℤ → ℕ → ℤ
quotient a n = sub_ℕ (pos_part a / n) (neg_part a / n)

pub record Pi : Type 0 where
  pub kp : ℕ
  pub ki : ℕ
  pub lo : ℕ
  pub hi : ℕ
  pub x : ℤ
  pub i : ℤ
  pub n : ℕ
  pub abs_err : ℕ

unfoldable pub make_pi : ℕ → ℕ → ℕ → ℕ → Pi
make_pi kp ki lo hi = record {
  kp = kp;
  ki = ki;
  lo = lo;
  hi = hi;
  x = pos unit;
  i = pos 0;
  n = 0;
  abs_err = 0;
}

-- `PI.update`
unfoldable pub update : ℤ → Pi → Pi
update e p =
    let i = clamp (sub_ℕ 0 (2 * million)) (pos (2 * million)) (p.i +ℤ e) in
    record p {
      i = i;
      x = clamp (pos p.lo) (pos p.hi) (pos unit +ℤ pos p.kp *ℤ e +ℤ pos p.ki *ℤ i);
      n = suc p.n;
      abs_err = p.abs_err + (pos_part e + neg_part e);
    }

-- What the loop reads of a resource and of a budget.
pub record Reading : Type 0 where
  pub capacity : ℕ
  pub used : ℤ

pub record Loop : Type 0 where
  pub res : List Text
  pub budgets : List Text
  pub tick : ℕ
  pub enabled : Bool
  pub scale : Text → Pi
  pub occ_int : Text → ℤ
  pub last_t : ℕ
  pub tick_start : ℕ
  pub predicted : Text → Option ℕ
  pub floor : Text → ℕ
  pub refused_seen : Text → ℕ
  pub fair_w : List (Text × ℕ)
  pub served : List (Text × (ℕ × ℕ))
  pub ticks : ℕ

unfoldable pub make : List Text → List Text → ℕ → Bool → ℕ → ℕ → Result Loop
make res budgets tick_s enabled kp ki =
    if tick_s == 0
    then raise value_error
    else ok (record {
      res = res;
      budgets = budgets;
      tick = tick_s;
      enabled = enabled;
      scale = λ name. make_pi kp ki (unit / 2) (2 * unit);
      occ_int = λ name. pos 0;
      last_t = 0;
      tick_start = 0;
      predicted = λ name. none;
      floor = λ name. 100000000;
      refused_seen = λ name. 0;
      fair_w = [];
      served = [];
      ticks = 0;
    })

unfoldable pub sample_each : (Text → Reading) → ℕ → List Text → (Text → ℤ) → Text → ℤ
sample_each world dt [] occ = occ
sample_each world dt (name ∷ names) occ =
    sample_each world dt names (assign_at name (occ name +ℤ (world name).used *ℤ pos dt) occ)

-- No event comes before the last one.
unfoldable pub sample : (Text → Reading) → ℕ → Loop → Loop
sample world now l = record l {
  occ_int = sample_each world (now - l.last_t) l.res l.occ_int;
  last_t = now;
}

unfoldable pub set_prediction : Text → ℕ → Loop → Loop
set_prediction name mean_occ l = record l { predicted = assign_at name (some mean_occ) l.predicted }

-- `(realised - pred) / r.capacity`
unfoldable pub demand_error : ℤ → ℕ → ℕ → ℕ → ℤ
demand_error occ len pred capacity =
    quotient ((occ -ℤ pos (pred * len)) *ℤ pos million) (len * capacity)

unfoldable pub corrected : (Text → Reading) → ℕ → Text → Loop → Pi
corrected world len name l = elim (l.predicted name) [
  | none ↦ l.scale name
  | some pred ↦
      if (world name).capacity == 0 || not l.enabled
      then l.scale name
      else update (demand_error (l.occ_int name) len pred (world name).capacity) (l.scale name)
]

unfoldable pub tick_resources : (Text → Reading) → ℕ → List Text → Loop → Loop
tick_resources world len [] l = l
tick_resources world len (name ∷ names) l = tick_resources world len names (record l {
  scale = assign_at name (corrected world len name l) l.scale;
  occ_int = assign_at name (pos 0) l.occ_int;
})

-- 0.5, 0.02 and 0.01
abbrev pub highest : ℕ
highest = 500000000

abbrev pub lowest : ℕ
lowest = 20000000

abbrev pub relief : ℕ
relief = 10000000

unfoldable pub paced : Bool → ℕ → ℕ
paced refused floor =
    if refused then min highest (floor * 3 / 2 + lowest) else max lowest (floor - relief)

unfoldable pub tick_budgets : (Text → ℕ) → List Text → Loop → Loop
tick_budgets refused [] l = l
tick_budgets refused (name ∷ names) l = tick_budgets refused names (record l {
  refused_seen = assign_at name (refused name) l.refused_seen;
  floor =
      if l.enabled
      then assign_at name (paced (ltb (l.refused_seen name) (refused name)) (l.floor name)) l.floor
      else l.floor;
})

-- `refused` is the count of each budget.
unfoldable pub tick_now : (Text → Reading) → (Text → ℕ) → ℕ → Loop → Loop
tick_now world refused now l =
    let l1 = sample world now l in
    let l2 = tick_resources world (max 1 (now - l.tick_start)) l.res l1 in
    let l3 = tick_budgets refused l.budgets l2 in
    record l3 { tick_start = now; ticks = suc l3.ticks }
