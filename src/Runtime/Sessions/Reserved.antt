-- ===== src/Runtime/Sessions/Reserved.antt =====
-- The reservations of the sessions of src/runtime/cache/KVCacheManager.cpp.
use hypermoe_engine.Base.{
  ℕ, suc, ◌+◌, ◌*◌, ◌≤◌, ◌<◌, ◌≡◌, ap, inl, inr, [], ltb, ◌==◌, length, arith, Bool-cases,
}
use hypermoe_engine.Base.Word.{modulus64, add64, sub64}
use hypermoe_engine.Base.Outcome.{Outcome, ok, throws, >>=-eq-ok}
use hypermoe_engine.Base.Map.{
  erase, has, Distinct, emplace-none, has-none, has-some, Distinct-erase, length-erase,
}
use native.Mathlib.Nat.{add-mul}
use hypermoe_engine.Runtime.KvCache.{checked_cache_bytes}
use hypermoe_engine.Runtime.Sessions.{
  Caches, KvCacheManager, make, opened, open_session, allocate_session, release_session,
  committed_from, report, stats,
}

-- One more times `b`.
suc_times : (n b : ℕ) → suc n * b ≡ b + n * b
suc_times n b = omega (arith, add-mul 1 n b)

module _ {C : Type 0} where
  -- Each session has its reservation, and they fit in the limit.
  pub record Inv (s : KvCacheManager C) : Type 0 where
    pub distinct : Distinct s.sessions
    pub reserved : s.reserved_bytes ≡ length s.sessions * s.bytes_per_session
    pub fits : s.reserved_bytes ≤ s.memory_limit_bytes
    pub one_fits : s.bytes_per_session ≤ s.memory_limit_bytes
    pub limit_word : s.memory_limit_bytes < modulus64

  started :
      (layers sequence heads dimension limit bytes : ℕ) (s : KvCacheManager C)
      → limit < modulus64
      → opened layers sequence heads dimension limit bytes ≡ ok s
      → Inv s
  unfolding opened
  started layers sequence heads dimension limit bytes s w h =
      let none_yet : s.sessions ≡ [] = ground arith in
      record {
        distinct = rw none_yet tt;
        reserved = rw none_yet (ground arith);
        fits = ground arith;
        one_fits = ground arith;
        limit_word = ground arith;
      }

  pub make-Inv :
      (layers sequence heads dimension limit : ℕ) (s : KvCacheManager C)
      → limit < modulus64
      → make layers sequence heads dimension limit ≡ ok s
      → Inv s
  unfolding make
  make-Inv layers sequence heads dimension limit s w h =
      let (bytes, counted, made) =
        >>=-eq-ok (checked_cache_bytes layers sequence heads dimension)
          (opened layers sequence heads dimension limit) h in
      started layers sequence heads dimension limit bytes s w made

  open_session-Inv :
      (id : ℕ) (r : Outcome C) (s : KvCacheManager C)
      → Inv s
      → s.reserved_bytes + s.bytes_per_session ≤ s.memory_limit_bytes
      → Inv (open_session id r s).1
  unfolding open_session add64
  open_session-Inv id (throws e) s v h = v
  open_session-Inv id (ok c) s v h = elim (Bool-cases (has id s.sessions)) [
    | inl e ↦ rw (e, open_session) v
    | inr e ↦
        let new = has-none id s.sessions e in
        rw (e, open_session, emplace-none id c s.sessions new)
          record {
            distinct = (new, v.distinct);
            reserved = omega (
              arith,
              v.reserved,
              v.limit_word,
              suc_times (length s.sessions) s.bytes_per_session,
            );
            fits = omega (arith, v.limit_word);
            one_fits = v.one_fits;
            limit_word = v.limit_word;
          }
  ]

  counted-Inv :
      (s : KvCacheManager C)
      → Inv s
      → Inv (record s { next_session_id = add64 s.next_session_id 1; created = suc s.created })
  counted-Inv s v = record {
    distinct = v.distinct;
    reserved = v.reserved;
    fits = v.fits;
    one_fits = v.one_fits;
    limit_word = v.limit_word;
  }

  pub allocate_session-Inv :
      (caches : Caches C) (s : KvCacheManager C) → Inv s → Inv (allocate_session caches s).1
  unfolding allocate_session sub64
  allocate_session-Inv caches s v =
      elim (Bool-cases (ltb (sub64 s.memory_limit_bytes s.bytes_per_session) s.reserved_bytes)) [
        | inl e ↦ simp (allocate_session, e) v
        | inr e ↦ elim (Bool-cases (s.next_session_id == 0)) [
          | inl z ↦ simp (allocate_session, e, z) v
          | inr z ↦
              simp (allocate_session, e, z)
                (open_session-Inv s.next_session_id (caches.create s.created)
                  (record s {
                    next_session_id = add64 s.next_session_id 1;
                    created = suc s.created;
                  })
                  (counted-Inv s v) (ground (arith, v.fits, v.one_fits, v.limit_word)))
        ]
      ]

  pub release_session-Inv : (id : ℕ) (s : KvCacheManager C) → Inv s → Inv (release_session id s).1
  unfolding release_session sub64
  release_session-Inv id s v = elim (Bool-cases (has id s.sessions)) [
    | inl e ↦
        let (c, live) = has-some id s.sessions e in
        let count = length-erase id c s.sessions v.distinct live in
        let sum = suc_times (length (erase id s.sessions)) s.bytes_per_session in
        let whole = ap (λ (n : ℕ). n * s.bytes_per_session) count in
        rw (e, release_session)
          record {
            distinct = Distinct-erase id s.sessions v.distinct;
            reserved = omega (arith, v.reserved, v.fits, v.limit_word);
            fits = omega (arith, v.reserved, v.fits, v.limit_word);
            one_fits = v.one_fits;
            limit_word = v.limit_word;
          }
    | inr e ↦ rw (e, release_session) v
  ]

  pub stats-Inv : (caches : Caches C) (s : KvCacheManager C) → Inv s → Inv (stats caches s).1
  unfolding stats
  stats-Inv caches s v = reported (committed_from caches 0 s.sessions)
    where
      peaked : (n : ℕ) → Inv (record s { peak_committed_bytes = n })
      peaked n = record {
        distinct = v.distinct;
        reserved = v.reserved;
        fits = v.fits;
        one_fits = v.one_fits;
        limit_word = v.limit_word;
      }

      reported : (r : Outcome ℕ) → Inv (report r s).1
      reported (throws e) = v
      reported (ok n) = peaked _
