-- ===== src/Runtime/Sessions/Calls.antt =====
-- Histories of calls on the sessions of src/runtime/cache/KVCacheManager.cpp.
use hypermoe_engine.Base.{
  ℕ, suc, ◌+◌, ◌*◌, ◌≤◌, ◌<◌, ◌≡◌, refl, ap, ◌∙◌, none, List, [], ◌∷◌, length, arith, ==_refl,
}
use hypermoe_engine.Base.Word.{modulus64, add64, sub64}
use hypermoe_engine.Base.Outcome.{ok}
use hypermoe_engine.Base.Map.{lookup, erase, has, emplace, erase-none}
use hypermoe_engine.Runtime.Sessions.{
  Caches, KvCacheManager, KvCacheAllocation, make, open_session, allocate_session, release_session,
  report, stats,
}
use hypermoe_engine.Runtime.Sessions.Reserved.{
  Inv, make-Inv, allocate_session-Inv, release_session-Inv, stats-Inv,
}

pub data Call : Type 0 where
  allocates : Call
  releases : ℕ → Call
  reports : Call

module _ {C : Type 0} where
  -- A call that throws is a step too.
  unfoldable pub step : Caches C → KvCacheManager C → Call → KvCacheManager C
  unfolding allocate_session release_session stats
  step caches s allocates = (allocate_session caches s).1
  step caches s (releases id) = (release_session id s).1
  step caches s reports = (stats caches s).1

  unfoldable pub run : Caches C → KvCacheManager C → List Call → KvCacheManager C
  unfolding step
  run caches s [] = s
  run caches s (c ∷ cs) = run caches (step caches s c) cs

  step-Inv : (caches : Caches C) (s : KvCacheManager C) (c : Call) → Inv s → Inv (step caches s c)
  unfolding step
  step-Inv caches s allocates v = allocate_session-Inv caches s v
  step-Inv caches s (releases id) v = release_session-Inv id s v
  step-Inv caches s reports v = stats-Inv caches s v

  run-Inv :
      (caches : Caches C) (s : KvCacheManager C) (cs : List Call) → Inv s → Inv (run caches s cs)
  unfolding run
  run-Inv caches s [] v = v
  run-Inv caches s (c ∷ cs) v = run-Inv caches (step caches s c) cs (step-Inv caches s c v)

  step-limit :
      (caches : Caches C) (s : KvCacheManager C) (c : Call)
      → ((step caches s c).memory_limit_bytes ≡ s.memory_limit_bytes)
        × ((step caches s c).bytes_per_session ≡ s.bytes_per_session)
  unfolding step allocate_session open_session release_session stats report
  step-limit caches s allocates = ground arith
  step-limit caches s (releases id) = ground arith
  step-limit caches s reports = ground arith

  run-limit :
      (caches : Caches C) (s : KvCacheManager C) (cs : List Call)
      → ((run caches s cs).memory_limit_bytes ≡ s.memory_limit_bytes)
        × ((run caches s cs).bytes_per_session ≡ s.bytes_per_session)
  unfolding run
  run-limit caches s [] = (refl, refl)
  run-limit caches s (c ∷ cs) =
      ground (arith, step-limit caches s c, run-limit caches (step caches s c) cs)

  -- After any calls on a new manager the active sessions have their full reservations, and together
  -- they are within the limit of the constructor.
  pub sessions_reserved :
      (caches : Caches C) (layers sequence heads dimension limit : ℕ) (s : KvCacheManager C)
      (cs : List Call)
      → make layers sequence heads dimension limit ≡ ok s
      → limit < modulus64
      → let s' = run caches s cs in
        (s'.reserved_bytes ≡ length s'.sessions * s.bytes_per_session)
        × (length s'.sessions * s.bytes_per_session ≤ s.memory_limit_bytes)
  sessions_reserved caches layers sequence heads dimension limit s cs made w =
      let i = run-Inv caches s cs (make-Inv layers sequence heads dimension limit s w made) in
      let (limit_kept, bytes_kept) = run-limit caches s cs in
      let per = ap (λ (n : ℕ). length (run caches s cs).sessions * n) bytes_kept in
      (i.reserved ∙ per, omega (arith, i.reserved, i.fits))

  -- A session that was just allocated can be released, and that restores the manager but for the
  -- session id and the cache that were used up.
  pub release_session-allocate_session :
      (caches : Caches C) (s s' : KvCacheManager C) (a : KvCacheAllocation C)
      → Inv s
      → allocate_session caches s ≡ (ok a, s')
      → release_session a.session_id s'
        ≡ (ok tt, record s { next_session_id = add64 s.next_session_id 1; created = suc s.created })
  unfolding allocate_session open_session release_session add64 sub64 lookup has emplace erase
  release_session-allocate_session caches s s' a v h =
      let id : a.session_id ≡ s.next_session_id = ground arith in
      let new : lookup s.next_session_id s.sessions ≡ none = ground arith in
      let room : s.reserved_bytes + s.bytes_per_session ≤ s.memory_limit_bytes =
        ground (arith, v.fits, v.one_fits, v.limit_word) in
      ground (
        arith,
        erase-none s.next_session_id s.sessions new,
        ==_refl s.next_session_id,
        v.limit_word,
      )
