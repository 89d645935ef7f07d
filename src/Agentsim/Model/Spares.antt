-- ===== src/Agentsim/Model/Spares.antt =====
-- agentsim/resources.py: when `_make_room` leaves the running requests alone.
use society_harness.Prelude.{
  ℕ, zero, suc, ◌+◌, ◌≤◌, ◌≡◌, refl, sym, ap, ◌∙◌, Bool, true, false, not, ◌&&◌, ◌||◌, Text, same,
  List, [], ◌∷◌, arith, if◌then◌else◌, length, Bool-cases, inl, inr, ◌⊎◌, same_refl,
}
use society_harness.Prelude.Dicts.{pop_key}
use society_harness.Prelude.Results.{ok}
use society_harness.Agentsim.Model.{
  KvEntry, ModelPhysics, used, retained_tokens, decoding_tokens, has_room, account_idle_removal,
  is_active,
}
use society_harness.Agentsim.Model.Eviction.{
  make_room, evict_idle, evict_decoding, remove_idle, refuse_small, idle_entries, in_order, place,
}

-- The tokens that are not reclaimed with the idle entries.
unfoldable pub pinned : Text → List (Text × KvEntry) → ℕ
pinned keep [] = 0
pinned keep ((s, e) ∷ rest) =
    (if not (is_active e) && not (same s keep) then 0 else e.tokens) + pinned keep rest

unfoldable pop_all : List (Text × KvEntry) → List (Text × KvEntry) → List (Text × KvEntry)
pop_all [] d = d
pop_all ((k, e) ∷ ks) d = pop_all ks (pop_key k d)

unfoldable any_key : Text → List (Text × KvEntry) → Bool
any_key s [] = false
any_key s ((k, e) ∷ ks) = same s k || any_key s ks

unfoldable tokens_left : List (Text × KvEntry) → List (Text × KvEntry) → ℕ
tokens_left ks [] = 0
tokens_left ks ((s, e) ∷ rest) = (if any_key s ks then 0 else e.tokens) + tokens_left ks rest

tokens_left-nil : (d : List (Text × KvEntry)) → tokens_left [] d ≡ retained_tokens d
unfolding tokens_left any_key retained_tokens
tokens_left-nil [] = refl
tokens_left-nil ((s, e) ∷ rest) = ground (arith, tokens_left-nil rest)

tokens_left-pop_key :
    (k : Text) (f : KvEntry) (ks d : List (Text × KvEntry))
    → tokens_left ks (pop_key k d) ≡ tokens_left ((k, f) ∷ ks) d
unfolding tokens_left any_key pop_key
tokens_left-pop_key k f ks [] = refl
tokens_left-pop_key k f ks ((s, e) ∷ rest) = ground (arith, tokens_left-pop_key k f ks rest)

retained_tokens-pop_all :
    (ks d : List (Text × KvEntry)) → retained_tokens (pop_all ks d) ≡ tokens_left ks d
unfolding pop_all
retained_tokens-pop_all [] d = sym (tokens_left-nil d)
retained_tokens-pop_all ((k, f) ∷ ks) d =
    retained_tokens-pop_all ks (pop_key k d) ∙ tokens_left-pop_key k f ks d

any_key-place :
    (before : Text × KvEntry → Text × KvEntry → Bool) (s : Text) (x : Text × KvEntry)
    (ks : List (Text × KvEntry))
    → any_key s (place before x ks) ≡ (same s x.0 || any_key s ks)
unfolding any_key place
any_key-place before s x [] = refl
any_key-place before s x (k ∷ ks) = ground (arith, any_key-place before s x ks)

any_key-in_order :
    (before : Text × KvEntry → Text × KvEntry → Bool) (s : Text) (ks : List (Text × KvEntry))
    → any_key s (in_order before ks) ≡ any_key s ks
unfolding any_key in_order
any_key-in_order before s [] = refl
any_key-in_order before s (k ∷ ks) =
    any_key-place before s k (in_order before ks)
    ∙ ap (λ b. same s k.0 || b) (any_key-in_order before s ks)

-- Every idle entry has its key among `ks`.
abbrev Covered : Text → List (Text × KvEntry) → List (Text × KvEntry) → Type 0
Covered keep ks [] = Unit
Covered keep ks ((s, e) ∷ rest) =
    ((not (is_active e) && not (same s keep)) ≡ true → any_key s ks ≡ true) × Covered keep ks rest

Covered-weaken :
    (keep : Text) (x : Text × KvEntry) (ks d : List (Text × KvEntry))
    → Covered keep ks d
    → Covered keep (x ∷ ks) d
unfolding any_key
Covered-weaken keep x ks [] c = tt
Covered-weaken keep x ks ((s, e) ∷ rest) (here, c) =
    (λ idle. ground (arith, here idle), Covered-weaken keep x ks rest c)

idle_entries-Idle :
    (keep s : Text) (e : KvEntry) (rest : List (Text × KvEntry))
    → (not (is_active e) && not (same s keep)) ≡ true
    → idle_entries keep ((s, e) ∷ rest) ≡ (s, e) ∷ idle_entries keep rest
unfolding idle_entries
idle_entries-Idle keep s e rest idle = rw idle refl

idle_entries-Kept :
    (keep s : Text) (e : KvEntry) (rest : List (Text × KvEntry))
    → (not (is_active e) && not (same s keep)) ≡ false
    → idle_entries keep ((s, e) ∷ rest) ≡ idle_entries keep rest
unfolding idle_entries
idle_entries-Kept keep s e rest kept = rw kept refl

any_key-head :
    (s : Text) (e : KvEntry) (ks : List (Text × KvEntry)) → any_key s ((s, e) ∷ ks) ≡ true
unfolding any_key
any_key-head s e ks = rw (same_refl s) refl

Covered-eq :
    (keep : Text) (ks js d : List (Text × KvEntry))
    → ks ≡ js
    → Covered keep js d
    → Covered keep ks d
Covered-eq keep ks js d e c = rw e c

Covered-idle : (keep : Text) (d : List (Text × KvEntry)) → Covered keep (idle_entries keep d) d
Covered-idle keep [] = tt
Covered-idle keep ((s, e) ∷ rest) =
    let ih = Covered-idle keep rest in
    let keys = idle_entries keep ((s, e) ∷ rest) in
    let fewer = idle_entries keep rest in
    elim (Bool-cases (not (is_active e) && not (same s keep))) [
      | inl idle ↦
          let here = idle_entries-Idle keep s e rest idle in
          let later = Covered-weaken keep (s, e) fewer rest ih in
          (
            λ h. rw here (any_key-head s e fewer),
            Covered-eq keep keys ((s, e) ∷ fewer) rest here later,
          )
      | inr kept ↦ (
        λ h. absurd cc,
        Covered-eq keep keys fewer rest (idle_entries-Kept keep s e rest kept) ih,
      )
    ]

Covered-in_order :
    (keep : Text) (before : Text × KvEntry → Text × KvEntry → Bool) (ks d : List (Text × KvEntry))
    → Covered keep ks d
    → Covered keep (in_order before ks) d
Covered-in_order keep before ks [] c = tt
Covered-in_order keep before ks ((s, e) ∷ rest) (here, c) =
    (λ idle. any_key-in_order before s ks ∙ here idle, Covered-in_order keep before ks rest c)

tokens_left-Covered :
    (keep : Text) (ks d : List (Text × KvEntry))
    → Covered keep ks d
    → tokens_left ks d ≤ pinned keep d
unfolding tokens_left pinned
tokens_left-Covered keep ks [] c = omega arith
tokens_left-Covered keep ks ((s, e) ∷ rest) (here, c) =
    ground (arith, here, tokens_left-Covered keep ks rest c)

-- The loop over the idle entries ends with room, or with all of them gone.
evict_idle-Ends :
    (need now : ℕ) (idle : List (Text × KvEntry)) (p : ModelPhysics)
    → ((has_room need (evict_idle need now idle p) ≡ true)
        ⊎ ((evict_idle need now idle p).retained ≡ pop_all idle p.retained))
      × ((evict_idle need now idle p).decoding ≡ p.decoding)
      × ((evict_idle need now idle p).kv_capacity ≡ p.kv_capacity)
unfolding evict_idle pop_all remove_idle account_idle_removal
evict_idle-Ends need now [] p = (inr refl, refl, refl)
evict_idle-Ends need now ((sid, e) ∷ rest) p =
    let p' = remove_idle sid now p in
    let (ends, same_decoding, kept) = evict_idle-Ends need now rest p' in
    elim (Bool-cases (has_room need p')) [
      | inl enough ↦ rw enough (inl enough, refl, refl)
      | inr short ↦ rw short (ends, same_decoding, kept)
    ]

evict_idle-HasRoom :
    (need now : ℕ) (keep : Text) (before : Text × KvEntry → Text × KvEntry → Bool)
    (p : ModelPhysics)
    → pinned keep p.retained + decoding_tokens p.decoding + need ≤ p.kv_capacity
    → has_room need (evict_idle need now (in_order before (idle_entries keep p.retained)) p) ≡ true
unfolding has_room used
evict_idle-HasRoom need now keep before p small =
    let idle = in_order before (idle_entries keep p.retained) in
    let (ends, same_decoding, kept) = evict_idle-Ends need now idle p in
    let covered =
      Covered-in_order keep before (idle_entries keep p.retained) p.retained
        (Covered-idle keep p.retained) in
    let left = tokens_left-Covered keep idle p.retained covered in
    elim ends [
      | inl enough ↦ enough
      | inr gone ↦
          let total : retained_tokens (evict_idle need now idle p).retained
              ≤ pinned keep p.retained =
            rw gone (rw (retained_tokens-pop_all idle p.retained) left) in
          let decoding : decoding_tokens (evict_idle need now idle p).decoding
              ≡ decoding_tokens p.decoding =
            ap decoding_tokens same_decoding in
          ground (arith, total, decoding, kept, small)
    ]

evict_decoding-Done :
    (fuel need now : ℕ) (p : ModelPhysics)
    → has_room need p ≡ true
    → evict_decoding fuel need now [] p ≡ ok (p, [])
unfolding evict_decoding
evict_decoding-Done zero need now p enough = refl
evict_decoding-Done (suc fuel) need now p enough = rw enough refl

-- `_make_room` returns, and evicts no running request, whenever the running requests, the active
-- prefixes, what the session itself keeps and the need fit into the capacity together, however much
-- idle entries hold.
pub make_room-Spares :
    (need now : ℕ) (keep : Text) (p : ModelPhysics)
    → pinned keep p.retained + decoding_tokens p.decoding + need ≤ p.kv_capacity
    → (p' : ModelPhysics) × (make_room need now keep p ≡ ok (p', []))
      × (p'.decoding ≡ p.decoding)
      × (used p' + need ≤ p.kv_capacity)
unfolding make_room refuse_small has_room
make_room-Spares need now keep p small = elim (Bool-cases (has_room need p)) [
  | inl enough ↦ (p, rw enough refl, refl, ground arith)
  | inr short ↦
      let idle = in_order (p.evict_before now) (idle_entries keep p.retained) in
      let p' = evict_idle need now idle p in
      let enough = evict_idle-HasRoom need now keep (p.evict_before now) p small in
      let (ends, same_decoding, kept) = evict_idle-Ends need now idle p in
      let done = evict_decoding-Done (length p'.decoding) need now p' enough in
      (p', rw short (rw done (rw enough refl)), same_decoding, ground (arith, kept))
]
