-- ===== src/Agentsim/Model/Requests.antt =====
-- agentsim/resources.py: the requests of `ModelPhysics`, from prefill to the retained prefix. The
-- retention of an entry may be negative in a call, which is refused.
use society_harness.Prelude.{
  List, [], ◌∷◌, ℕ, suc, ◌+◌, ◌*◌, Bool, true, false, Text, List, Option, none, some, if◌then◌else◌,
  leb, ◌==◌, length,
}
use society_harness.Prelude.Dicts.{lookup, assign, pop_key}
use society_harness.Prelude.Int.{ℤ, pos, negsuc, ◌+ℤ◌, ◌-ℤ◌}
use society_harness.Prelude.Results.{
  Result, ok, raise, value_error, key_error, runtime_error, ◌>>=◌,
}
use society_harness.Agentsim.Buckets.{Fraction}
use society_harness.Agentsim.Model.{KvEntry, ModelPhysics, account_idle_removal, miss_tokens}
use society_harness.Agentsim.Model.Eviction.{make_room}

-- What a prefill does to the entry of its session first.
unfoldable pub reuse : Text → ℕ → ℕ → ℕ → ModelPhysics → Result ModelPhysics
reuse sid miss tokens_in now p =
    if miss == tokens_in
    then (let p' = account_idle_removal sid now p in
        ok (record p' { retained = pop_key sid p'.retained }))
    else elim (lookup sid p.retained) [
      | none ↦ raise key_error
      | some e ↦
          ok (record p {
            reused = p.reused +ℤ pos (e.tokens * now) -ℤ pos (e.tokens * e.last_access);
          })
    ]

abbrev pub tokens_or_zero : Option KvEntry → ℕ
tokens_or_zero none = 0
tokens_or_zero (some e) = e.tokens

-- `setdefault`, and the entry is active from now on
unfoldable pub fill : Text → ℕ → ℕ → ModelPhysics → ModelPhysics
fill sid miss now p = record p {
  retained =
      assign sid
        (record {
          tokens = tokens_or_zero (lookup sid p.retained) + miss;
          retained_until = none;
          last_access = now;
        })
        p.retained;
}

unfoldable pub begin_prefill :
    Text → ℕ → ℕ → ModelPhysics → Result (ModelPhysics × (ℕ × (Fraction × List Text)))
begin_prefill sid tokens_in now p =
    let miss = miss_tokens sid tokens_in now p in
    do
      p1 ← reuse sid miss tokens_in now p
      room ← make_room miss now sid p1
      ok (fill sid miss now room.0, (miss, (record { num = miss; den = p.prefill_rate }, room.1)))

-- `tokens_out / min(decode_base, decode_capacity / n_active)`
unfoldable pub decode_time : ℕ → ℕ → ModelPhysics → Fraction
decode_time tokens_out n_active p =
    if leb (p.decode_base * n_active) p.decode_capacity
    then record { num = tokens_out; den = p.decode_base }
    else record { num = tokens_out * n_active; den = p.decode_capacity }

unfoldable pub begin_decode :
    Text → ℕ → ℕ → ModelPhysics → Result (ModelPhysics × (Fraction × List Text))
begin_decode sid tokens_out now p = do
  room ← make_room tokens_out now sid p
  let p1 = room.0
  let dur = decode_time tokens_out (suc (length p1.decoding)) p1
  elim (lookup sid p1.retained) [
    | none ↦ raise key_error
    | some entry ↦ ok (
      record p1 {
        retained = pop_key sid p1.retained;
        decoding =
            assign sid
              (record { tokens = entry.tokens + tokens_out; t_start = now; duration = dur })
              p1.decoding;
      },
      (dur, room.1),
    )
  ]

unfoldable pub end_decode : Text → ℕ → ℤ → ModelPhysics → Result ModelPhysics
end_decode sid now (negsuc ttl) p = raise value_error
end_decode sid now (pos ttl) p = elim (lookup sid p.decoding) [
  | none ↦ raise key_error
  | some d ↦ ok (record p {
    decoding = pop_key sid p.decoding;
    retained =
        assign sid
          (record { tokens = d.tokens; retained_until = some (now + ttl); last_access = now })
          p.retained;
  })
]

unfoldable pub set_ttl : Text → ℕ → ℤ → ModelPhysics → Result (ModelPhysics × Bool)
set_ttl sid now (negsuc ttl) p = raise value_error
set_ttl sid now (pos ttl) p = elim (lookup sid p.retained) [
  | none ↦ ok (p, false)
  | some e ↦ elim (e.retained_until) [
    | none ↦ raise runtime_error
    | some t ↦ ok (
      record p {
        retained = assign sid (record e { retained_until = some (now + ttl) }) p.retained;
      },
      true,
    )
  ]
]

unfoldable pub drop : Text → ℕ → ModelPhysics → ModelPhysics
drop sid now p =
    let p' = account_idle_removal sid now (record p { decoding = pop_key sid p.decoding }) in
    record p' { retained = pop_key sid p'.retained }

-- The calls of an engine on the model tier.
pub data Request : Type 0 where
  prefill : Text → ℕ → ℕ → Request
  decode : Text → ℕ → ℕ → Request
  finish : Text → ℕ → ℤ → Request
  retain : Text → ℕ → ℤ → Request
  leave : Text → ℕ → Request

unfoldable pub serve : Request → ModelPhysics → Result ModelPhysics
serve (prefill sid tokens_in now) p = do answer ← begin_prefill sid tokens_in now p; ok answer.0
serve (decode sid tokens_out now) p = do answer ← begin_decode sid tokens_out now p; ok answer.0
serve (finish sid now ttl) p = end_decode sid now ttl p
serve (retain sid now ttl) p = do answer ← set_ttl sid now ttl p; ok answer.0
serve (leave sid now) p = ok (drop sid now p)

unfoldable pub serve_all : List Request → ModelPhysics → Result ModelPhysics
serve_all [] p = ok p
serve_all (r ∷ rs) p = do p' ← serve r p; serve_all rs p'
