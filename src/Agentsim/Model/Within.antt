-- ===== src/Agentsim/Model/Within.antt =====
-- agentsim/resources.py: `ModelPhysics` keeps within its capacity.
use society_harness.Prelude.{
  ℕ, suc, ◌+◌, ◌≤◌, ◌≡◌, refl, ◌∙◌, Bool, Text, List, [], ◌∷◌, none, some, arith, length,
  Option-cases, inl, inr,
}
use society_harness.Prelude.Dicts.{lookup, assign, pop_key}
use society_harness.Prelude.Int.{ℤ, pos, negsuc}
use society_harness.Prelude.Results.{ok, >>=-eq-ok}
use society_harness.Agentsim.Buckets.{Fraction}
use society_harness.Agentsim.Model.{
  KvEntry, Decoding, ModelPhysics, used, account_idle_removal, miss_tokens,
}
use society_harness.Agentsim.Model.Eviction.{make_room}
use society_harness.Agentsim.Model.Requests.{
  Request, prefill, decode, finish, retain, leave, serve, serve_all, reuse, fill, tokens_or_zero,
  begin_prefill, begin_decode, decode_time, end_decode, set_ttl, drop,
}
use society_harness.Agentsim.Model.Room.{
  decoding_or_zero, retained_tokens-pop_key, retained_tokens-assign, decoding_tokens-pop_key,
  decoding_tokens-assign, make_room-HasRoom,
}

abbrev pub Within : ModelPhysics → Type 0
Within p = used p ≤ p.kv_capacity

reuse-capacity :
    (sid : Text) (miss tokens_in now : ℕ) (p p' : ModelPhysics)
    → reuse sid miss tokens_in now p ≡ ok p'
    → p'.kv_capacity ≡ p.kv_capacity
unfolding reuse account_idle_removal
reuse-capacity sid miss tokens_in now p p' e = ground arith

fill-used :
    (sid : Text) (miss now : ℕ) (p : ModelPhysics) → used (fill sid miss now p) ≡ used p + miss
unfolding fill used
fill-used sid miss now p =
    let entry : KvEntry = record {
      tokens = tokens_or_zero (lookup sid p.retained) + miss;
      retained_until = none;
      last_access = now;
    } in
    omega (arith, retained_tokens-assign sid entry p.retained)

-- A prefill ends within the capacity, whatever was used before.
begin_prefill-Within :
    (sid : Text) (tokens_in now : ℕ) (p p' : ModelPhysics) (miss : ℕ) (time : Fraction)
    (evicted : List Text)
    → begin_prefill sid tokens_in now p ≡ ok (p', (miss, (time, evicted)))
    → Within p' × (p'.kv_capacity ≡ p.kv_capacity)
unfolding begin_prefill fill
begin_prefill-Within sid tokens_in now p p' miss time evicted e =
    let need = miss_tokens sid tokens_in now p in
    let (p1, reused, rest) = >>=-eq-ok (reuse sid need tokens_in now p) _ e in
    let (room, made, last) = >>=-eq-ok (make_room need now sid p1) _ rest in
    let (within, kept) = make_room-HasRoom need now sid p1 room.0 room.1 made in
    let end : fill sid need now room.0 ≡ p' = cc in
    let same_capacity = reuse-capacity sid need tokens_in now p p1 reused in
    rw (← end) (omega (arith, fill-used sid need now room.0, within), kept ∙ same_capacity)

last-Within :
    (sid : Text) (p : ModelPhysics) (running : Decoding) (tokens_out : ℕ)
    → running.tokens ≡ tokens_or_zero (lookup sid p.retained) + tokens_out
    → used p + tokens_out ≤ p.kv_capacity
    → Within
        (record p { retained = pop_key sid p.retained; decoding = assign sid running p.decoding })
unfolding used
last-Within sid p running tokens_out moved within = omega (
  arith,
  moved,
  within,
  retained_tokens-pop_key sid p.retained,
  decoding_tokens-assign sid running p.decoding,
)

begin_decode-Within :
    (sid : Text) (tokens_out now : ℕ) (p p' : ModelPhysics) (time : Fraction) (evicted : List Text)
    → begin_decode sid tokens_out now p ≡ ok (p', (time, evicted))
    → Within p' × (p'.kv_capacity ≡ p.kv_capacity)
unfolding begin_decode
begin_decode-Within sid tokens_out now p p' time evicted e =
    let (room, made, rest) = >>=-eq-ok (make_room tokens_out now sid p) _ e in
    let (within, kept) = make_room-HasRoom tokens_out now sid p room.0 room.1 made in
    let p1 = room.0 in
    let dur = decode_time tokens_out (suc (length p1.decoding)) p1 in
    elim (Option-cases (lookup sid p1.retained)) [
      | inl missing ↦ absurd (ground arith)
      | inr (entry, found) ↦
          let running : Decoding = record {
            tokens = entry.tokens + tokens_out;
            t_start = now;
            duration = dur;
          } in
          let last : ModelPhysics = record p1 {
            retained = pop_key sid p1.retained;
            decoding = assign sid running p1.decoding;
          } in
          let end : last ≡ p' = ground arith in
          let moved : tokens_or_zero (lookup sid p1.retained) ≡ entry.tokens = rw found refl in
          rw (← end) (last-Within sid p1 running tokens_out (omega (arith, moved)) within, kept)
    ]

end_decode-Within :
    (sid : Text) (now : ℕ) (ttl : ℤ) (p p' : ModelPhysics)
    → end_decode sid now ttl p ≡ ok p'
    → Within p
    → Within p' × (p'.kv_capacity ≡ p.kv_capacity)
unfolding end_decode used
end_decode-Within sid now (negsuc ttl) p p' e w = absurd (ground arith)
end_decode-Within sid now (pos ttl) p p' e w = elim (Option-cases (lookup sid p.decoding)) [
  | inl missing ↦ absurd (ground arith)
  | inr (d, found) ↦
      let entry : KvEntry = record {
        tokens = d.tokens;
        retained_until = some (now + ttl);
        last_access = now;
      } in
      let last : ModelPhysics = record p {
        decoding = pop_key sid p.decoding;
        retained = assign sid entry p.retained;
      } in
      let end : last ≡ p' = ground arith in
      let moved : decoding_or_zero (lookup sid p.decoding) ≡ d.tokens = rw found refl in
      rw (← end) (
        omega (
          arith,
          moved,
          decoding_tokens-pop_key sid p.decoding,
          retained_tokens-assign sid entry p.retained,
          w,
        ),
        refl,
      )
]

set_ttl-Within :
    (sid : Text) (now : ℕ) (ttl : ℤ) (p p' : ModelPhysics) (found : Bool)
    → set_ttl sid now ttl p ≡ ok (p', found)
    → Within p
    → Within p' × (p'.kv_capacity ≡ p.kv_capacity)
unfolding set_ttl used
set_ttl-Within sid now (negsuc ttl) p p' found e w = absurd (ground arith)
set_ttl-Within sid now (pos ttl) p p' found e w = elim (Option-cases (lookup sid p.retained)) [
  | inl missing ↦ let end : p ≡ p' = ground arith in rw (← end) (w, refl)
  | inr (entry, at) ↦ elim (Option-cases entry.retained_until) [
    | inl active ↦ absurd (ground arith)
    | inr (t, idle) ↦
        let later : KvEntry = record entry { retained_until = some (now + ttl) } in
        let last : ModelPhysics = record p { retained = assign sid later p.retained } in
        let end : last ≡ p' = ground arith in
        let kept : tokens_or_zero (lookup sid p.retained) ≡ entry.tokens = rw at refl in
        rw (← end) (omega (arith, kept, retained_tokens-assign sid later p.retained, w), refl)
  ]
]

drop-Within :
    (sid : Text) (now : ℕ) (p : ModelPhysics)
    → Within p
    → Within (drop sid now p) × ((drop sid now p).kv_capacity ≡ p.kv_capacity)
unfolding drop account_idle_removal used
drop-Within sid now p w = (
  omega (arith, retained_tokens-pop_key sid p.retained, decoding_tokens-pop_key sid p.decoding, w),
  refl,
)

serve-Within :
    (r : Request) (p p' : ModelPhysics)
    → serve r p ≡ ok p'
    → Within p
    → Within p' × (p'.kv_capacity ≡ p.kv_capacity)
unfolding serve
serve-Within (prefill sid tokens_in now) p p' e w =
    let ((p1, (miss, (time, evicted))), ran, last) =
      >>=-eq-ok (begin_prefill sid tokens_in now p) _ e in
    let end : p1 ≡ p' = cc in
    rw (← end) (begin_prefill-Within sid tokens_in now p p1 miss time evicted ran)
serve-Within (decode sid tokens_out now) p p' e w =
    let ((p1, (time, evicted)), ran, last) = >>=-eq-ok (begin_decode sid tokens_out now p) _ e in
    let end : p1 ≡ p' = cc in
    rw (← end) (begin_decode-Within sid tokens_out now p p1 time evicted ran)
serve-Within (finish sid now ttl) p p' e w = end_decode-Within sid now ttl p p' e w
serve-Within (retain sid now ttl) p p' e w =
    let ((p1, found), ran, last) = >>=-eq-ok (set_ttl sid now ttl p) _ e in
    let end : p1 ≡ p' = cc in rw (← end) (set_ttl-Within sid now ttl p p1 found ran w)
serve-Within (leave sid now) p p' e w =
    let end : drop sid now p ≡ p' = cc in rw (← end) (drop-Within sid now p w)

-- The tokens that a model endpoint holds never exceed its capacity: any requests that return, in any
-- order, keep within it.
pub serve_all-Within :
    (rs : List Request) (p p' : ModelPhysics) → serve_all rs p ≡ ok p' → Within p → Within p'
unfolding serve_all
serve_all-Within [] p p' e w = let end : p ≡ p' = cc in rw (← end) w
serve_all-Within (r ∷ rs) p p' e w =
    let (p1, ran, rest) = >>=-eq-ok (serve r p) (serve_all rs) e in
    serve_all-Within rs p1 p' rest (serve-Within r p p1 ran w).0
