-- ===== src/Agentsim/Model/Eviction.antt =====
-- agentsim/resources.py: `ModelPhysics._make_room`, which reclaims idle prefixes and then running
-- requests. A request that takes no time at all would be divided by.
use society_harness.Prelude.{
  true, ℕ, zero, suc, ◌+◌, ◌*◌, Bool, false, not, ◌&&◌, ◌||◌, Text, same, List, [], ◌∷◌, ◌++◌,
  if◌then◌else◌, ltb, ◌==◌, length,
}
use society_harness.Prelude.Dicts.{pop_key}
use society_harness.Prelude.Results.{Result, ok, raise, runtime_error, zero_division_error, ◌>>=◌}
use society_harness.Agentsim.Model.{
  KvEntry, Decoding, ModelPhysics, is_active, has_room, account_idle_removal,
}

-- The idle entries but `keep`, as they stand.
unfoldable pub idle_entries : Text → List (Text × KvEntry) → List (Text × KvEntry)
idle_entries keep [] = []
idle_entries keep ((s, e) ∷ rest) =
    if not (is_active e) && not (same s keep)
    then (s, e) ∷ idle_entries keep rest
    else idle_entries keep rest

-- A stable sort.
unfoldable pub place :
    (Text × KvEntry → Text × KvEntry → Bool)
    → Text × KvEntry
    → List (Text × KvEntry)
    → List (Text × KvEntry)
place before x [] = x ∷ []
place before x (y ∷ ys) = if before x y then x ∷ y ∷ ys else y ∷ place before x ys

unfoldable pub in_order :
    (Text × KvEntry → Text × KvEntry → Bool) → List (Text × KvEntry) → List (Text × KvEntry)
in_order before [] = []
in_order before (x ∷ xs) = place before x (in_order before xs)

unfoldable pub remove_idle : Text → ℕ → ModelPhysics → ModelPhysics
remove_idle sid now p =
    let p' = account_idle_removal sid now p in record p' { retained = pop_key sid p'.retained }

-- The loop over the idle entries, until there is room.
unfoldable pub evict_idle : ℕ → ℕ → List (Text × KvEntry) → ModelPhysics → ModelPhysics
evict_idle need now [] p = p
evict_idle need now ((sid, e) ∷ rest) p =
    let p' = remove_idle sid now p in
    let more = evict_idle need now rest p' in if has_room need p' then p' else more

-- `(now - a.t_start) / a.duration < (now - b.t_start) / b.duration`
abbrev pub less_progressed : ℕ → Decoding → Decoding → Bool
less_progressed now a b =
    let left = a.duration.den * b.duration.num in
    let right = b.duration.den * a.duration.num in
    ltb (now * left + b.t_start * right) (now * right + a.t_start * left)

-- `min` returns the first of the least, and divides by every duration.
unfoldable pub victim_of : ℕ → Text → Decoding → List (Text × Decoding) → Text
victim_of now s d [] = s
victim_of now s d ((r, c) ∷ rest) =
    if less_progressed now c d then victim_of now r c rest else victim_of now s d rest

unfoldable pub any_instant : List (Text × Decoding) → Bool
any_instant [] = false
any_instant ((s, d) ∷ rest) = d.duration.num == 0 || any_instant rest

unfoldable pub evict_running : Text → ModelPhysics → ModelPhysics
evict_running victim p = record p {
  decoding = pop_key victim p.decoding;
  retained = pop_key victim p.retained;
  evictions = suc p.evictions;
}

unfoldable pub victim : ℕ → List (Text × Decoding) → Text
victim now [] = []
victim now ((s, d) ∷ rest) = victim_of now s d rest

abbrev pub is_empty : List (Text × Decoding) → Bool
is_empty [] = true
is_empty (x ∷ xs) = false

-- The loop over the running requests, with as much fuel as there are requests.
unfoldable pub evict_decoding :
    ℕ → ℕ → ℕ → List Text → ModelPhysics → Result (ModelPhysics × List Text)
evict_decoding zero need now evicted p = ok (p, evicted)
evict_decoding (suc fuel) need now evicted p =
    let least = victim now p.decoding in
    let rest = evict_decoding fuel need now (evicted ++ least ∷ []) (evict_running least p) in
    if has_room need p || is_empty p.decoding
    then ok (p, evicted)
    else if any_instant p.decoding
    then raise zero_division_error
    else rest

unfoldable pub refuse_small : ℕ → ModelPhysics × List Text → Result (ModelPhysics × List Text)
refuse_small need (p, evicted) = if has_room need p then ok (p, evicted) else raise runtime_error

unfoldable pub make_room : ℕ → ℕ → Text → ModelPhysics → Result (ModelPhysics × List Text)
make_room need now keep p =
    if has_room need p
    then ok (p, [])
    else (let idle = in_order (p.evict_before now) (idle_entries keep p.retained) in
        let p' = evict_idle need now idle p in
        evict_decoding (length p'.decoding) need now [] p' >>= refuse_small need)
