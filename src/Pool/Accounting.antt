-- ===== src/Pool/Accounting.antt =====
-- The statistics of the memory pool of src/backend/cuda/CudaMemoryPool.cpp and its blocks.
pub mod Requests
use hypermoe_engine.Base.{
  ℕ, zero, suc, ◌+◌, ◌-◌, ◌*◌, ◌/◌, ◌%◌, max, ◌≤◌, ◌<◌, ◌≡◌, refl, inl, inr, Bool, true, false, not,
  ◌&&◌, Option, none, some, List, [], ◌∷◌, ltb, leb, ◌==◌, if◌then◌else◌, arith, Option-cases,
  Bool-cases,
}
use hypermoe_engine.Base.Word.{add64, sub64, max64, modulus64}
use hypermoe_engine.Base.Outcome.{Outcome, ok, throws, Error, invalid_argument, overflow_error}
use hypermoe_engine.Base.Map.{
  Map, lookup, erase, has, emplace, Distinct, total, total-erase, Distinct-erase, lookup-erase,
  emplace-none, has-none,
}
use hypermoe_engine.Base.Exec.{Exec}
use hypermoe_engine.Pool.{
  aligned_size, alignment, Block, CudaMemoryPool, Backend, init, put_back, lower_bound, insert,
  reuse, count_allocation, undo, activate, allocated, obtain, acquire_aligned, acquire, cache_block,
  free_block, deactivate, cacheable, give_up, release_block, release, drop_block, drain, trim,
  shutdown,
}

-- The sum of the capacities.
abbrev pub capacities : List Block → ℕ
capacities [] = 0
capacities (b ∷ bs) = b.0 + capacities bs

abbrev pub itself : ℕ → ℕ
itself n = n

-- Counters as 64-bit sums over the blocks; the cache is exact, and within its limit. A block of
-- `pending` bytes is on its way between the active ones, the cache and the backend.
pub record Inv (pending : ℕ) (s : CudaMemoryPool) : Type 0 where
  pub distinct : Distinct s.active_blocks
  pub small : (p c : ℕ) → lookup p s.active_blocks ≡ some c → c < modulus64
  pub active_sum : s.statistics.active_bytes ≡ total itself s.active_blocks % modulus64
  pub free_sum : s.statistics.free_bytes ≡ capacities s.free_blocks
  pub free_fits : s.statistics.free_bytes ≤ s.maximum_cached_bytes
  pub allocated_sum :
      s.statistics.allocated_bytes
      ≡ (total itself s.active_blocks + capacities s.free_blocks + pending) % modulus64
  pub limit_word : s.maximum_cached_bytes < modulus64

pub init-Inv : (n : ℕ) → n < modulus64 → Inv 0 (init n)
unfolding init lookup
init-Inv n h = record {
  distinct = tt;
  small = λ p c e. cc;
  active_sum = refl;
  free_sum = refl;
  free_fits = omega arith;
  allocated_sum = refl;
  limit_word = h;
}

-- A request is rounded up to the next multiple of the alignment, and fits a word.
pub aligned_size-ok :
    (n c : ℕ)
    → n < modulus64
    → aligned_size n ≡ ok c
    → (n ≤ c) × (c < n + alignment) × (c % alignment ≡ 0) × (c < modulus64)
unfolding aligned_size
aligned_size-ok n c w h = ground arith

pub lower_bound-capacities :
    (n : ℕ) (bs : List Block) (b : Block) (rest : List Block)
    → lower_bound n bs ≡ some (b, rest)
    → (n ≤ b.0) × (capacities bs ≡ b.0 + capacities rest)
unfolding lower_bound put_back
lower_bound-capacities n [] b rest h = cc
lower_bound-capacities n (c ∷ bs) b rest h = elim (Option-cases (lower_bound n bs)) [
  | inl e ↦ ground arith
  | inr ((d, ds), e) ↦ ground (arith, lower_bound-capacities n bs d ds e)
]

insert-capacities : (b : Block) (bs : List Block) → capacities (insert b bs) ≡ b.0 + capacities bs
unfolding insert
insert-capacities b [] = refl
insert-capacities b (c ∷ bs) = ground (arith, insert-capacities b bs)

pub reuse-Inv :
    (b : Block) (rest : List Block) (s : CudaMemoryPool)
    → Inv 0 s
    → capacities s.free_blocks ≡ b.0 + capacities rest
    → Inv b.0 (reuse b rest s)
unfolding reuse sub64
reuse-Inv b rest s v h = record {
  distinct = v.distinct;
  small = v.small;
  active_sum = v.active_sum;
  free_sum = omega (arith, v.free_sum, v.free_fits, v.limit_word);
  free_fits = omega (arith, v.free_sum, v.free_fits, v.limit_word);
  allocated_sum = omega (arith, v.allocated_sum);
  limit_word = v.limit_word;
}

pub count_allocation-Inv : (n : ℕ) (s : CudaMemoryPool) → Inv 0 s → Inv n (count_allocation n s)
unfolding count_allocation add64
count_allocation-Inv n s v = record {
  distinct = v.distinct;
  small = v.small;
  active_sum = v.active_sum;
  free_sum = v.free_sum;
  free_fits = v.free_fits;
  allocated_sum = omega (arith, v.allocated_sum);
  limit_word = v.limit_word;
}

-- The pending block is given to the backend.
undo-Inv :
    (b : Block) (reused : Bool) (s : CudaMemoryPool)
    → Inv b.0 s
    → b.0 < modulus64
    → Inv 0 (undo b reused s)
unfolding undo sub64
undo-Inv b reused s v h = record {
  distinct = v.distinct;
  small = v.small;
  active_sum = v.active_sum;
  free_sum = v.free_sum;
  free_fits = v.free_fits;
  allocated_sum = omega (arith, v.allocated_sum);
  limit_word = v.limit_word;
}

free_block-Inv :
    (b : Block) (s : CudaMemoryPool) → Inv b.0 s → b.0 < modulus64 → Inv 0 (free_block b s)
unfolding free_block sub64
free_block-Inv b s v h = record {
  distinct = v.distinct;
  small = v.small;
  active_sum = v.active_sum;
  free_sum = v.free_sum;
  free_fits = v.free_fits;
  allocated_sum = omega (arith, v.allocated_sum);
  limit_word = v.limit_word;
}

-- The pending block becomes active.
pub activate-Inv :
    (b : Block) (reused : Bool) (s : CudaMemoryPool)
    → Inv b.0 s
    → b.0 < modulus64
    → Inv 0 (activate b reused s).1
unfolding activate lookup add64
activate-Inv b reused s v h = elim (Bool-cases (has b.1 s.active_blocks)) [
  | inl e ↦ rw (e, activate) (undo-Inv b reused s v h)
  | inr e ↦
      let new = has-none b.1 s.active_blocks e in
      rw (e, activate)
        record {
          distinct = (new, v.distinct);
          small = λ p c. ground (arith, v.small p c);
          active_sum = omega (arith, v.active_sum);
          free_sum = v.free_sum;
          free_fits = v.free_fits;
          allocated_sum = omega (arith, v.allocated_sum);
          limit_word = v.limit_word;
        }
]

deactivate-Inv :
    (b : Block) (s : CudaMemoryPool)
    → Inv 0 s
    → lookup b.1 s.active_blocks ≡ some b.0
    → Inv b.0 (deactivate b s)
unfolding deactivate sub64
deactivate-Inv b s v h =
    let sum = total-erase itself b.1 b.0 s.active_blocks v.distinct h in
    record {
      distinct = Distinct-erase b.1 s.active_blocks v.distinct;
      small = λ p c. rw (lookup-erase b.1 p s.active_blocks) (ground (arith, v.small p c));
      active_sum = omega (arith, v.active_sum, v.small b.1 b.0 h);
      free_sum = v.free_sum;
      free_fits = v.free_fits;
      allocated_sum = omega (arith, v.allocated_sum);
      limit_word = v.limit_word;
    }

cache_block-Inv :
    (b : Block) (s : CudaMemoryPool) → Inv b.0 s → cacheable b.0 s ≡ true → Inv 0 (cache_block b s)
unfolding cache_block cacheable add64 sub64
cache_block-Inv b s v h =
    let sum = insert-capacities b s.free_blocks in
    let fits : b.0 + s.statistics.free_bytes ≤ s.maximum_cached_bytes =
      ground (arith, v.free_fits, v.limit_word) in
    record {
      distinct = v.distinct;
      small = v.small;
      active_sum = v.active_sum;
      free_sum = omega (arith, v.free_sum, v.limit_word);
      free_fits = omega (arith, v.limit_word);
      allocated_sum = omega (arith, v.allocated_sum);
      limit_word = v.limit_word;
    }

release_block-Inv : (p : ℕ) (s : CudaMemoryPool) → Inv 0 s → Inv 0 (release_block p s)
unfolding release_block give_up
release_block-Inv p s v = elim (Option-cases (lookup p s.active_blocks)) [
  | inl e ↦ rw (e, release_block) v
  | inr (c, e) ↦
      let out = deactivate-Inv (c, p) s v e in
      rw (e, release_block, give_up)
        (elim (Bool-cases (cacheable c (deactivate (c, p) s))) [
          | inl b ↦ rw b (cache_block-Inv (c, p) (deactivate (c, p) s) out b)
          | inr b ↦ rw b (free_block-Inv (c, p) (deactivate (c, p) s) out (v.small p c e))
        ])
]

-- A release keeps the accounting, whatever pointer it is called with.
pub release-Inv : (p : ℕ) (s : CudaMemoryPool) → Inv 0 s → Inv 0 (release p s)
unfolding release
release-Inv p s v = ground (arith, release_block-Inv p s v)
