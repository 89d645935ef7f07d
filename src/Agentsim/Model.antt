-- ===== src/Agentsim/Model.antt =====
-- agentsim/resources.py: `ModelPhysics`, the prefix cache and the running requests of one model
-- endpoint. Tokens are whole, times are ticks, and a duration is a `Fraction`. `retained_until` is `none`
-- where the source has infinity. The eviction order of a policy is a test on two idle entries.
pub mod Eviction
pub mod Requests
pub mod Room
pub mod Within
pub mod Spares
mod Examples
use society_harness.Prelude.{
  ℕ, zero, suc, ◌+◌, ◌-◌, ◌*◌, min, Bool, true, false, not, ◌&&◌, ◌||◌, Text, same, List, [], ◌∷◌,
  ◌++◌, Option, none, some, if◌then◌else◌, leb, ltb, ◌==◌, length, map,
}
use society_harness.Prelude.Dicts.{lookup, assign, pop_key, value_or}
use society_harness.Prelude.Int.{ℤ, pos, negsuc, ◌+ℤ◌, ◌-ℤ◌}
use society_harness.Prelude.Results.{
  Result, ok, raise, value_error, key_error, runtime_error, zero_division_error, ◌>>=◌,
}
use society_harness.Agentsim.Buckets.{Fraction}

pub record KvEntry : Type 0 where
  pub tokens : ℕ
  pub retained_until : Option ℕ
  pub last_access : ℕ

-- The triple of `self.decoding`.
pub record Decoding : Type 0 where
  pub tokens : ℕ
  pub t_start : ℕ
  pub duration : Fraction

pub record ModelPhysics : Type 0 where
  pub kv_capacity : ℕ
  pub prefill_rate : ℕ
  pub decode_base : ℕ
  pub decode_capacity : ℕ
  pub kv_ttl_s : ℕ
  pub evict_before : ℕ → Text × KvEntry → Text × KvEntry → Bool
  pub retained : List (Text × KvEntry)
  pub decoding : List (Text × Decoding)
  pub evictions : ℕ
  pub reused : ℤ
  pub unused : ℕ

-- The default of `evict_key`: expired first, then least recently used.
abbrev pub fresh : ℕ → KvEntry → Bool
fresh now e = elim (e.retained_until) [ none ↦ true | some t ↦ leb now t ]

unfoldable pub default_before : ℕ → Text × KvEntry → Text × KvEntry → Bool
default_before now (s, a) (r, b) =
    if fresh now a
    then fresh now b && leb a.last_access b.last_access
    else fresh now b || leb a.last_access b.last_access

unfoldable pub make :
    ℕ → ℕ → ℕ → ℕ → ℕ → (ℕ → Text × KvEntry → Text × KvEntry → Bool) → Result ModelPhysics
make kv_capacity prefill_rate decode_base decode_capacity kv_ttl_s evict_before =
    if kv_capacity == 0 || prefill_rate == 0 || decode_base == 0 || decode_capacity == 0
    then raise value_error
    else ok (record {
      kv_capacity = kv_capacity;
      prefill_rate = prefill_rate;
      decode_base = decode_base;
      decode_capacity = decode_capacity;
      kv_ttl_s = kv_ttl_s;
      evict_before = evict_before;
      retained = [];
      decoding = [];
      evictions = 0;
      reused = pos 0;
      unused = 0;
    })

-- `e.tokens * max(0.0, min(now, e.retained_until) - e.last_access)`, nothing for an active entry
abbrev pub idle_cost : ℕ → Option KvEntry → ℕ
idle_cost now none = 0
idle_cost now (some e) = elim (e.retained_until) [
  | none ↦ 0
  | some t ↦ e.tokens * (min now t - e.last_access)
]

unfoldable pub account_idle_removal : Text → ℕ → ModelPhysics → ModelPhysics
account_idle_removal sid now p = record p {
  unused = p.unused + idle_cost now (lookup sid p.retained);
}

unfoldable pub retained_tokens : List (Text × KvEntry) → ℕ
retained_tokens [] = 0
retained_tokens ((s, e) ∷ rest) = e.tokens + retained_tokens rest

unfoldable pub decoding_tokens : List (Text × Decoding) → ℕ
decoding_tokens [] = 0
decoding_tokens ((s, d) ∷ rest) = d.tokens + decoding_tokens rest

abbrev pub is_active : KvEntry → Bool
is_active e = elim (e.retained_until) [ none ↦ true | some t ↦ false ]

unfoldable pub active_retained : List (Text × KvEntry) → ℕ
active_retained [] = 0
active_retained ((s, e) ∷ rest) = (if is_active e then e.tokens else 0) + active_retained rest

unfoldable pub used : ModelPhysics → ℕ
used p = retained_tokens p.retained + decoding_tokens p.decoding

unfoldable pub active_tokens : ModelPhysics → ℕ
active_tokens p = active_retained p.retained + decoding_tokens p.decoding

unfoldable pub fits : ℕ → ModelPhysics → Bool
fits need p = leb (active_tokens p + need) p.kv_capacity

abbrev pub miss_of : ℕ → ℕ → Option KvEntry → ℕ
miss_of tokens_in now none = tokens_in
miss_of tokens_in now (some e) =
    if not (fresh now e) || ltb tokens_in e.tokens then tokens_in else tokens_in - e.tokens

unfoldable pub miss_tokens : Text → ℕ → ℕ → ModelPhysics → ℕ
miss_tokens sid tokens_in now p = miss_of tokens_in now (lookup sid p.retained)

-- `self.kv_capacity - self.used() >= need`
unfoldable pub has_room : ℕ → ModelPhysics → Bool
has_room need p = leb (used p + need) p.kv_capacity
