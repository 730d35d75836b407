-- ===== src/Runtime/Sessions.antt =====
-- src/runtime/cache/KVCacheManager.hpp, src/runtime/cache/KVCacheManager.cpp: the sessions that share
-- the memory of the key/value caches. The mutex makes each method one step. The caches are of any
-- type: what making one returns or throws, and the bytes that it uses, are parameters.
pub mod Reserved
pub mod Calls
use hypermoe_engine.Base.{
  ℕ, zero, suc, ◌+◌, ◌-◌, Bool, true, false, ◌||◌, Option, none, some, List, [], ◌∷◌, ltb, ◌==◌,
  if◌then◌else◌, length,
}
use hypermoe_engine.Base.Word.{max64, add64, sub64}
use hypermoe_engine.Base.Outcome.{
  Outcome, ok, throws, Error, invalid_argument, runtime_error, overflow_error, logic_error,
  out_of_range, ◌>>=◌, ◌>>◌, reject,
}
use hypermoe_engine.Base.Map.{Map, lookup, erase, has, emplace}
use hypermoe_engine.Base.Exec.{Exec}
use hypermoe_engine.Runtime.KvCache.{checked_cache_bytes}

-- The caches: the n-th that is made, and the bytes that one uses.
pub record Caches (C : Type 0) : Type 0 where
  pub create : ℕ → Outcome C
  pub memory_usage_bytes : C → ℕ

pub record KvCacheManager (C : Type 0) : Type 0 where
  pub layer_count : ℕ
  pub maximum_sequence_length : ℕ
  pub key_value_heads : ℕ
  pub head_dimension : ℕ
  pub memory_limit_bytes : ℕ
  pub bytes_per_session : ℕ
  pub peak_committed_bytes : ℕ
  pub reserved_bytes : ℕ
  pub next_session_id : ℕ
  pub sessions : Map C
  pub created : ℕ

pub record KvCacheAllocation (C : Type 0) : Type 0 where
  pub session_id : ℕ
  pub cache : C
  pub reserved_bytes : ℕ

pub record KvCacheManagerStats : Type 0 where
  pub active_sessions : ℕ
  pub committed_bytes : ℕ
  pub reserved_bytes : ℕ
  pub peak_committed_bytes : ℕ
  pub memory_limit_bytes : ℕ

module _ {C : Type 0} where
  -- The constructor once the bytes of a session are counted.
  unfoldable pub opened : ℕ → ℕ → ℕ → ℕ → ℕ → ℕ → Outcome (KvCacheManager C)
  opened layers sequence heads dimension limit bytes = do
    reject (limit == 0 || ltb limit bytes) invalid_argument
    ok (record {
      layer_count = layers;
      maximum_sequence_length = sequence;
      key_value_heads = heads;
      head_dimension = dimension;
      memory_limit_bytes = limit;
      bytes_per_session = bytes;
      peak_committed_bytes = 0;
      reserved_bytes = 0;
      next_session_id = 1;
      sessions = [];
      created = 0;
    })

  -- The constructor, with a backend that is available or none.
  unfoldable pub make : ℕ → ℕ → ℕ → ℕ → ℕ → Outcome (KvCacheManager C)
  make layers sequence heads dimension limit =
      checked_cache_bytes layers sequence heads dimension
      >>= opened layers sequence heads dimension limit

  -- The writes behind the checks: the id is used up before the cache is made.
  unfoldable pub open_session : ℕ → Outcome C → Exec (KvCacheManager C) (KvCacheAllocation C)
  unfolding add64
  open_session id (throws e) s = (throws e, s)
  open_session id (ok c) s = if has id s.sessions then (throws logic_error, s) else (
    ok (record { session_id = id; cache = c; reserved_bytes = s.bytes_per_session }),
    record s {
      sessions = emplace id c s.sessions;
      reserved_bytes = add64 s.reserved_bytes s.bytes_per_session;
    },
  )

  unfoldable pub allocate_session : Caches C → Exec (KvCacheManager C) (KvCacheAllocation C)
  unfolding open_session add64 sub64
  allocate_session caches s =
      if ltb (sub64 s.memory_limit_bytes s.bytes_per_session) s.reserved_bytes
      then (throws runtime_error, s)
      else if s.next_session_id == 0
      then (throws overflow_error, s)
      else open_session s.next_session_id (caches.create s.created)
          (record s { next_session_id = add64 s.next_session_id 1; created = suc s.created })

  unfoldable pub release_session : ℕ → Exec (KvCacheManager C) (Unit {0})
  unfolding sub64
  release_session id s =
      if has id s.sessions
      then (
        ok tt,
        record s {
          sessions = erase id s.sessions;
          reserved_bytes = sub64 s.reserved_bytes s.bytes_per_session;
        },
      )
      else (throws out_of_range, s)

  unfoldable pub committed_from : Caches C → ℕ → Map C → Outcome ℕ
  unfolding add64
  committed_from caches n [] = ok n
  committed_from caches n ((id, c) ∷ m) =
      if ltb (max64 - caches.memory_usage_bytes c) n
      then throws overflow_error
      else committed_from caches (add64 n (caches.memory_usage_bytes c)) m

  unfoldable pub report : Outcome ℕ → Exec (KvCacheManager C) KvCacheManagerStats
  report (throws e) s = (throws e, s)
  report (ok committed) s =
      let peak =
        if ltb s.peak_committed_bytes committed then committed else s.peak_committed_bytes in
      (
        ok (record {
          active_sessions = length s.sessions;
          committed_bytes = committed;
          reserved_bytes = s.reserved_bytes;
          peak_committed_bytes = peak;
          memory_limit_bytes = s.memory_limit_bytes;
        }),
        record s { peak_committed_bytes = peak },
      )

  unfoldable pub stats : Caches C → Exec (KvCacheManager C) KvCacheManagerStats
  unfolding report committed_from
  stats caches s = report (committed_from caches 0 s.sessions) s
