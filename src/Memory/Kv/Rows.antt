-- ===== src/Memory/Kv/Rows.antt =====
-- society/memory/kv.py: the table under writes.
use society_harness.Prelude.{
  ℕ, ◌≡◌, refl, true, ◌||◌, Text, same, same→eq, same_iff, mem, List, [], ◌∷◌, ◌++◌, map, none,
  some, if◌then◌else◌, arith, Bool-cases, Option-cases, inl, inr, ◌==◌,
}
use society_harness.Json.{Json}
use society_harness.Memory.Kv.{
  Row, Store, find, delete, put, get, exists, like, insert_by_time, order_by_time, select_like,
  keys,
}

find-delete : (s : Store) (k j : Text) → find (delete s k) j ≡ (if same k j then none else find s j)
unfolding find delete
find-delete [] k j = ground arith
find-delete (r ∷ rs) k j =
    ground (arith, find-delete rs k j, same_iff r.key k, same_iff r.key j, same_iff k j)

find-snoc :
    (s : Store) (r : Row) (j : Text)
    → find s j ≡ none
    → find (s ++ r ∷ []) j ≡ (if same r.key j then some r else none)
unfolding find
find-snoc [] r j h = refl
find-snoc (q ∷ s) r j h = ground (arith, find-snoc s r j)

find-snoc_found :
    (s : Store) (r q : Row) (j : Text) → find s j ≡ some q → find (s ++ r ∷ []) j ≡ some q
unfolding find
find-snoc_found [] r q j h = cc
find-snoc_found (p ∷ s) r q j h = ground (arith, find-snoc_found s r q j)

abbrev row : ℕ → Text → Json → Row
row now k v = record { key = k; value = v; created_at = now }

-- A write is seen at its key and nowhere else.
pub find-put :
    (now : ℕ) (s : Store) (k j : Text) (v : Json)
    → find (put now s k v) j ≡ (if same k j then some (row now k v) else find s j)
unfolding put
find-put now s k j v = elim (Option-cases (find (delete s k) j)) [
  | inl e ↦ rw (find-snoc (delete s k) (row now k v) j e) (ground (arith, find-delete s k j))
  | inr (q, e) ↦
      rw (find-snoc_found (delete s k) (row now k v) q j e) (ground (arith, find-delete s k j))
]

pub get-put :
    (now : ℕ) (s : Store) (k j : Text) (v : Json)
    → get (put now s k v) j ≡ (if same k j then v else get s j)
unfolding get
get-put now s k j v = ground (arith, find-put now s k j v)

pub exists-put :
    (now : ℕ) (s : Store) (k j : Text) (v : Json)
    → exists (put now s k v) j ≡ (same k j || exists s j)
unfolding exists
exists-put now s k j v = ground (arith, find-put now s k j v)

abbrev row_keys : List Row → List Text
row_keys rs = map (λ r. r.key) rs

mem-insert_by_time :
    (k : Text) (r : Row) (rs : List Row)
    → mem k (row_keys (insert_by_time r rs)) ≡ (same r.key k || mem k (row_keys rs))
unfolding insert_by_time mem
mem-insert_by_time k r [] = refl
mem-insert_by_time k r (q ∷ qs) = ground (arith, mem-insert_by_time k r qs)

mem-order_by_time :
    (k : Text) (rs : List Row) → mem k (row_keys (order_by_time rs)) ≡ mem k (row_keys rs)
unfolding order_by_time mem
mem-order_by_time k [] = refl
mem-order_by_time k (r ∷ rs) =
    ground (arith, mem-insert_by_time k r (order_by_time rs), mem-order_by_time k rs)

mem-select_like :
    (pattern k : Text) (s : Store)
    → exists s k ≡ true
    → like pattern k ≡ true
    → mem k (row_keys (select_like pattern s)) ≡ true
unfolding exists find select_like mem
mem-select_like pattern k [] h m = cc
mem-select_like pattern k (r ∷ rs) h m = elim (Bool-cases (same r.key k)) [
  | inl hit ↦ let fits : like pattern r.key ≡ true = rw (same→eq r.key k hit) m in ground arith
  | inr miss ↦ ground (arith, mem-select_like pattern k rs (ground arith) m)
]

percent_any : (p : ℕ) (q t : Text) → (p == b'%') ≡ true → like q t ≡ true → like (p ∷ q) t ≡ true
unfolding like
percent_any p q [] w h = ground arith
percent_any p q (c ∷ cs) w h = ground arith

percent_all : (t : Text) → like (b'%' ∷ []) t ≡ true
unfolding like
percent_all [] = refl
percent_all (c ∷ cs) = percent_all cs

-- A text fits the pattern of its own prefix, whatever wildcards the prefix holds.
like-prefix : (p t : Text) → like (p ++ b'%' ∷ []) (p ++ t) ≡ true
unfolding like
like-prefix [] t = percent_all t
like-prefix (c ∷ p) t = elim (Bool-cases (c == b'%')) [
  | inl wild ↦
      rw (wild, like)
        (ground (arith, percent_any c (p ++ b'%' ∷ []) (p ++ t) wild (like-prefix p t)))
  | inr plain ↦ rw (plain, like) (ground (arith, like-prefix p t))
]

pub mem-keys :
    (s : Store) (prefix rest : Text)
    → exists s (prefix ++ rest) ≡ true
    → mem (prefix ++ rest) (keys s prefix) ≡ true
unfolding keys
mem-keys s prefix rest h = ground (
  arith,
  mem-order_by_time (prefix ++ rest) (select_like (prefix ++ b'%' ∷ []) s),
  mem-select_like (prefix ++ b'%' ∷ []) (prefix ++ rest) s h (like-prefix prefix rest),
)
