-- ===== src/Examples/Runtime.antt =====
-- The key/value cache and its sessions (src/runtime/cache) at concrete inputs.
use hypermoe_engine.Base.{ℕ, ◌*◌, ◌^◌, ◌-◌, ◌≤◌, ◌≡◌, refl, true, List, [], ◌∷◌, arith, All, length}
use hypermoe_engine.Base.Word.{add64}
use hypermoe_engine.Base.Outcome.{ok, throws, division_by_zero}
use hypermoe_engine.Base.Map.{has, emplace}
use hypermoe_engine.Runtime.KvCache.{TensorView, KvCache, make, empty_layers, checked_cache_bytes}
use hypermoe_engine.Runtime.KvCache.Growth.{Full}
use hypermoe_engine.Runtime.KvCache.History.{Call, appends, clears, Shaped, run, layers_grown}
use hypermoe_engine.Runtime.Sessions.{
  Caches, KvCacheManager, KvCacheAllocation, allocate_session, open_session, release_session,
  opened,
}
use hypermoe_engine.Runtime.Sessions
use hypermoe_engine.Runtime.Sessions.Reserved.{make-Inv}
use hypermoe_engine.Runtime.Sessions.Calls.{sessions_reserved, release_session-allocate_session}
use hypermoe_engine.Runtime.Sessions.Calls

-- Two tokens with one head of two numbers.
abbrev tokens : TensorView ℕ
tokens = record { usable = true; dimensions = 2 ∷ 1 ∷ 2 ∷ []; elements = 5 ∷ 6 ∷ 7 ∷ 8 ∷ [] }

abbrev cache : KvCache ℕ
cache = record {
  maximum_sequence_length = 4;
  key_value_heads = 1;
  head_dimension = 2;
  layers = empty_layers 2;
}

cache_made : make {V = ℕ} 2 4 1 2 ≡ ok cache
unfolding make checked_cache_bytes
cache_made = refl

-- The bytes of a token wrap around to 0.
divides_by_zero : checked_cache_bytes 1 1 (2 ^ 61 - 1) 1 ≡ throws division_by_zero
unfolding checked_cache_bytes
divides_by_zero = refl

-- The third append is too long, and the last one is not contiguous.
abbrev growth : List (Call ℕ)
growth =
    appends 0 0 tokens tokens
    ∷ appends 0 2 tokens tokens
    ∷ appends 0 4 tokens tokens
    ∷ clears 1
    ∷ appends 1 1 tokens tokens
    ∷ []

growth-Shaped : All Shaped growth
growth-Shaped = ((refl, refl), ((refl, refl), ((refl, refl), (tt, ((refl, refl), tt)))))

layers_grown_example : All (Full 4 2) (run cache growth).layers
layers_grown_example = layers_grown 2 4 1 2 cache growth cache_made (omega arith) growth-Shaped

-- Each session needs 192 bytes.
abbrev caches : Caches ℕ
caches = record { create = λ n. ok n; memory_usage_bytes = λ c. 0 }

abbrev manager : KvCacheManager ℕ
manager = record {
  layer_count = 2;
  maximum_sequence_length = 4;
  key_value_heads = 1;
  head_dimension = 2;
  memory_limit_bytes = 400;
  bytes_per_session = 192;
  peak_committed_bytes = 0;
  reserved_bytes = 0;
  next_session_id = 1;
  sessions = [];
  created = 0;
}

manager_made : Sessions.make {C = ℕ} 2 4 1 2 400 ≡ ok manager
unfolding Sessions.make opened checked_cache_bytes
manager_made = refl

-- The third session does not fit.
abbrev session_calls : List Calls.Call
session_calls =
    Calls.allocates ∷ Calls.allocates ∷ Calls.allocates ∷ Calls.releases 1 ∷ Calls.reports ∷ []

sessions_reserved_example :
    let s = Calls.run caches manager session_calls in
    (s.reserved_bytes ≡ length s.sessions * 192) × (length s.sessions * 192 ≤ 400)
sessions_reserved_example =
    sessions_reserved caches 2 4 1 2 400 manager session_calls manager_made (omega arith)

abbrev first_session : KvCacheAllocation ℕ
first_session = record { session_id = 1; cache = 0; reserved_bytes = 192 }

abbrev with_one : KvCacheManager ℕ
with_one = record manager {
  reserved_bytes = 192;
  next_session_id = 2;
  sessions = (1, 0) ∷ [];
  created = 1;
}

first_allocated : allocate_session caches manager ≡ (ok first_session, with_one)
unfolding allocate_session open_session has emplace
first_allocated = refl

release_session-allocate_session_example :
    release_session 1 with_one
    ≡ (ok tt, record manager { next_session_id = add64 1 1; created = 1 })
release_session-allocate_session_example =
    release_session-allocate_session caches manager with_one first_session
      (make-Inv 2 4 1 2 400 manager (omega arith) manager_made) first_allocated
