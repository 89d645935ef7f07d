-- ===== src/Agentsim/Model/Room.antt =====
-- agentsim/resources.py: the sums of tokens in `ModelPhysics`, and what `_make_room` leaves.
use society_harness.Prelude.{
  ℕ, zero, suc, ◌+◌, ◌≤◌, ◌≡◌, refl, ap, sym, ◌∙◌, Text, List, [], ◌∷◌, ◌++◌, Option, none, some,
  arith, leb, length, Bool-cases, inl, inr,
}
use society_harness.Prelude.Dicts.{lookup, assign, pop_key}
use society_harness.Prelude.Results.{ok, >>=-eq-ok}
use society_harness.Agentsim.Model.{
  KvEntry, Decoding, ModelPhysics, used, retained_tokens, decoding_tokens, has_room,
  account_idle_removal,
}
use society_harness.Agentsim.Model.Eviction.{
  make_room, evict_idle, evict_decoding, remove_idle, evict_running, refuse_small, idle_entries,
  in_order, victim,
}
use society_harness.Agentsim.Model.Requests.{tokens_or_zero}

abbrev pub decoding_or_zero : Option Decoding → ℕ
decoding_or_zero none = 0
decoding_or_zero (some d) = d.tokens

pub retained_tokens-pop_key :
    (k : Text) (d : List (Text × KvEntry))
    → retained_tokens (pop_key k d) + tokens_or_zero (lookup k d) ≤ retained_tokens d
unfolding retained_tokens pop_key lookup
retained_tokens-pop_key k [] = omega arith
retained_tokens-pop_key k ((j, e) ∷ rest) = ground (arith, retained_tokens-pop_key k rest)

pub retained_tokens-assign :
    (k : Text) (e : KvEntry) (d : List (Text × KvEntry))
    → retained_tokens (assign k e d) + tokens_or_zero (lookup k d) ≡ retained_tokens d + e.tokens
unfolding retained_tokens assign lookup
retained_tokens-assign k e [] = omega arith
retained_tokens-assign k e ((j, f) ∷ rest) = ground (arith, retained_tokens-assign k e rest)

pub decoding_tokens-pop_key :
    (k : Text) (d : List (Text × Decoding))
    → decoding_tokens (pop_key k d) + decoding_or_zero (lookup k d) ≤ decoding_tokens d
unfolding decoding_tokens pop_key lookup
decoding_tokens-pop_key k [] = omega arith
decoding_tokens-pop_key k ((j, e) ∷ rest) = ground (arith, decoding_tokens-pop_key k rest)

pub decoding_tokens-assign :
    (k : Text) (e : Decoding) (d : List (Text × Decoding))
    → decoding_tokens (assign k e d) ≤ decoding_tokens d + e.tokens
unfolding decoding_tokens assign
decoding_tokens-assign k e [] = omega arith
decoding_tokens-assign k e ((j, f) ∷ rest) = ground (arith, decoding_tokens-assign k e rest)

evict_idle-capacity :
    (need now : ℕ) (idle : List (Text × KvEntry)) (p : ModelPhysics)
    → (evict_idle need now idle p).kv_capacity ≡ p.kv_capacity
unfolding evict_idle remove_idle account_idle_removal
evict_idle-capacity need now [] p = refl
evict_idle-capacity need now ((sid, e) ∷ rest) p =
    ground (arith, evict_idle-capacity need now rest (remove_idle sid now p))

evict_decoding-capacity :
    (fuel need now : ℕ) (evicted : List Text) (p p' : ModelPhysics) (evicted' : List Text)
    → evict_decoding fuel need now evicted p ≡ ok (p', evicted')
    → p'.kv_capacity ≡ p.kv_capacity
unfolding evict_decoding evict_running
evict_decoding-capacity zero need now evicted p p' evicted' e =
    let same_state : p ≡ p' = cc in ap (λ q. q.kv_capacity) (sym same_state)
evict_decoding-capacity (suc fuel) need now evicted p p' evicted' e =
    let least = victim now p.decoding in
    ground (
      arith,
      evict_decoding-capacity fuel need now (evicted ++ least ∷ []) (evict_running least p) p'
          evicted',
    )

refuse_small-HasRoom :
    (need : ℕ) (room : ModelPhysics × List Text) (p' : ModelPhysics) (evicted' : List Text)
    → refuse_small need room ≡ ok (p', evicted')
    → (used p' + need ≤ p'.kv_capacity) × (p'.kv_capacity ≡ room.0.kv_capacity)
unfolding refuse_small has_room
refuse_small-HasRoom need (p, evicted) p' evicted' e =
    elim (Bool-cases (leb (used p + need) p.kv_capacity)) [
      | inl enough ↦
          let same_state : p ≡ p' = ground arith in rw (← same_state) (ground arith, refl)
      | inr short ↦ absurd (ground arith)
    ]

pub make_room-HasRoom :
    (need now : ℕ) (keep : Text) (p p' : ModelPhysics) (evicted : List Text)
    → make_room need now keep p ≡ ok (p', evicted)
    → (used p' + need ≤ p'.kv_capacity) × (p'.kv_capacity ≡ p.kv_capacity)
unfolding make_room has_room
make_room-HasRoom need now keep p p' evicted e =
    let idle = in_order (p.evict_before now) (idle_entries keep p.retained) in
    let p1 = evict_idle need now idle p in
    elim (Bool-cases (leb (used p + need) p.kv_capacity)) [
      | inl enough ↦
          let same_state : p ≡ p' = ground arith in rw (← same_state) (ground arith, refl)
      | inr short ↦
          let (room, ran, last) =
            >>=-eq-ok (evict_decoding (length p1.decoding) need now [] p1) (refuse_small need)
              (rw short at e) in
          let (within, kept) = refuse_small-HasRoom need room p' evicted last in
          (
            within,
            kept
                ∙ evict_decoding-capacity (length p1.decoding) need now [] p1 room.0 room.1 ran
                ∙ evict_idle-capacity need now idle p,
          )
    ]
