-- ===== src/Agentsim/Model/Examples.antt =====
-- agentsim/resources.py: tests and witnesses of `ModelPhysics`.
use society_harness.Prelude.{
  ◌+◌, ◌≤◌, ◌≡◌, refl, false, true, codes, same, Text, List, [], ◌∷◌, arith,
}
use society_harness.Prelude.Dicts.{lookup, assign, pop_key}
use society_harness.Prelude.Int.{pos}
use society_harness.Prelude.Results.{Result, ok, raise, value_error, runtime_error}
use society_harness.Agentsim.Model.{
  ModelPhysics, default_before, make, used, retained_tokens, decoding_tokens, miss_tokens, has_room,
  account_idle_removal, active_tokens, active_retained, fits,
}
use society_harness.Agentsim.Model.Eviction.{
  make_room, evict_idle, evict_decoding, remove_idle, refuse_small, idle_entries, in_order, place,
  victim, victim_of, any_instant, evict_running,
}
use society_harness.Agentsim.Model.Requests.{
  Request, prefill, decode, finish, serve, serve_all, reuse, fill, begin_prefill, begin_decode,
  decode_time, end_decode,
}
use society_harness.Agentsim.Model.Within.{Within, serve_all-Within}
use society_harness.Agentsim.Model.Spares.{pinned, make_room-Spares}

abbrev endpoint : ModelPhysics
endpoint = record {
  kv_capacity = 100;
  prefill_rate = 10;
  decode_base = 5;
  decode_capacity = 8;
  kv_ttl_s = 60;
  evict_before = default_before;
  retained = [];
  decoding = [];
  evictions = 0;
  reused = pos 0;
  unused = 0;
}

made : make 100 10 5 8 60 default_before ≡ ok endpoint
unfolding make
made = refl

no_rate : make 100 0 5 8 60 default_before ≡ raise value_error
unfolding make
no_rate = refl

-- `A` leaves a prefix of 40 tokens, and `B` is decoding to 50 when `C` comes with 60.
abbrev requests : List Request
requests =
    prefill (codes "A") 30 0
    ∷ decode (codes "A") 10 3
    ∷ finish (codes "A") 5 (pos 60)
    ∷ prefill (codes "B") 30 6
    ∷ decode (codes "B") 20 9
    ∷ []

abbrev or_endpoint : Result ModelPhysics → ModelPhysics
or_endpoint (ok p) = p
or_endpoint (raise e) = endpoint

abbrev busy : ModelPhysics
busy = or_endpoint (serve_all requests endpoint)

requests_return : serve_all requests endpoint ≡ ok busy
unfolding serve_all serve begin_prefill reuse make_room refuse_small fill begin_decode decode_time
    end_decode used retained_tokens decoding_tokens has_room miss_tokens account_idle_removal lookup
    assign pop_key same
requests_return = refl

holds :
    (used busy ≡ 90) × (active_tokens busy ≡ 50) × (fits 50 busy ≡ true) × (fits 51 busy ≡ false)
unfolding serve_all serve begin_prefill reuse make_room refuse_small fill begin_decode decode_time
    end_decode used retained_tokens decoding_tokens has_room miss_tokens account_idle_removal lookup
    assign pop_key same active_tokens active_retained fits
holds = (refl, refl, refl, refl)

endpoint-Within : Within endpoint
unfolding used retained_tokens decoding_tokens
endpoint-Within = omega arith

serve_all-Within_example : Within busy
serve_all-Within_example = serve_all-Within requests endpoint busy requests_return endpoint-Within

fits_beside :
    pinned (codes "C") busy.retained + decoding_tokens busy.decoding + 50 ≤ busy.kv_capacity
unfolding serve_all serve begin_prefill reuse make_room refuse_small fill begin_decode decode_time
    end_decode used retained_tokens decoding_tokens has_room miss_tokens account_idle_removal lookup
    assign pop_key same pinned
fits_beside = omega arith

make_room-Spares_example :
    (p' : ModelPhysics) × (make_room 50 10 (codes "C") busy ≡ ok (p', []))
    × (p'.decoding ≡ busy.decoding)
    × (used p' + 50 ≤ busy.kv_capacity)
make_room-Spares_example = make_room-Spares 50 10 (codes "C") busy fits_beside

abbrev evicted_of : Result (ModelPhysics × List Text) → List Text
evicted_of (ok (p, evicted)) = evicted
evicted_of (raise e) = []

-- A larger need evicts `B`.
evicts_b : evicted_of (make_room 60 10 (codes "C") busy) ≡ codes "B" ∷ []
unfolding serve_all serve begin_prefill reuse make_room refuse_small fill begin_decode decode_time
    end_decode used retained_tokens decoding_tokens has_room miss_tokens account_idle_removal lookup
    assign pop_key same evict_idle evict_decoding remove_idle idle_entries in_order place victim
    victim_of any_instant evict_running
evicts_b = refl

too_large : make_room 101 10 (codes "C") busy ≡ raise runtime_error
unfolding serve_all serve begin_prefill reuse make_room refuse_small fill begin_decode decode_time
    end_decode used retained_tokens decoding_tokens has_room miss_tokens account_idle_removal lookup
    assign pop_key same evict_idle evict_decoding remove_idle idle_entries in_order place victim
    victim_of any_instant evict_running
too_large = refl
