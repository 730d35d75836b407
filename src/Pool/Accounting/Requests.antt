-- ===== src/Pool/Accounting/Requests.antt =====
-- That acquisitions, trim and shutdown of src/backend/cuda/CudaMemoryPool.cpp keep the accounting.
use hypermoe_engine.Base.{
  ℕ, suc, ◌+◌, ◌<◌, ◌≡◌, refl, inl, inr, true, false, List, [], ◌∷◌, arith, Option-cases,
  Bool-cases,
}
use hypermoe_engine.Base.Word.{sub64, modulus64}
use hypermoe_engine.Base.Outcome.{Outcome, ok, throws}
use hypermoe_engine.Pool.{
  aligned_size, Block, CudaMemoryPool, Backend, lower_bound, reuse, count_allocation, allocated,
  obtain, acquire_aligned, acquire, drop_block, drain, trim, shutdown,
}
use hypermoe_engine.Pool.Accounting.{
  Inv, capacities, aligned_size-ok, lower_bound-capacities, reuse-Inv, count_allocation-Inv,
  activate-Inv,
}

called-Inv : (s : CudaMemoryPool) → Inv 0 s → Inv 0 (record s { allocations = suc s.allocations })
called-Inv s v = record {
  distinct = v.distinct;
  small = v.small;
  active_sum = v.active_sum;
  free_sum = v.free_sum;
  free_fits = v.free_fits;
  allocated_sum = v.allocated_sum;
  limit_word = v.limit_word;
}

allocated-Inv :
    (c : ℕ) (r : Outcome ℕ) (s : CudaMemoryPool)
    → Inv 0 s
    → c < modulus64
    → Inv 0 (allocated c r s).1
unfolding allocated
allocated-Inv c (throws e) s v h = v
allocated-Inv c (ok p) s v h =
    activate-Inv (c, p) false (count_allocation c s) (count_allocation-Inv c s v) h

obtain-Inv :
    (backend : Backend) (c : ℕ) (s : CudaMemoryPool)
    → Inv 0 s
    → c < modulus64
    → Inv 0 (obtain backend c (lower_bound c s.free_blocks) s).1
unfolding obtain
obtain-Inv backend c s v h = elim (Option-cases (lower_bound c s.free_blocks)) [
  | inl e ↦
      rw (e, obtain)
        (allocated-Inv c (backend.allocate s.allocations c)
          (record s { allocations = suc s.allocations }) (called-Inv s v) h)
  | inr ((b, rest), e) ↦
      let split = lower_bound-capacities c s.free_blocks b rest e in
      rw (e, obtain)
        (activate-Inv b true (reuse b rest s) (reuse-Inv b rest s v split.1)
          (omega (arith, v.free_sum, v.free_fits, v.limit_word, split)))
]

acquire_aligned-Inv :
    (backend : Backend) (r : Outcome ℕ) (s : CudaMemoryPool)
    → Inv 0 s
    → ((c : ℕ) → r ≡ ok c → c < modulus64)
    → Inv 0 (acquire_aligned backend r s).1
unfolding acquire_aligned
acquire_aligned-Inv backend (throws e) s v k = v
acquire_aligned-Inv backend (ok c) s v k = elim (Bool-cases s.accepting) [
  | inl b ↦ simp (acquire_aligned, b) (obtain-Inv backend c s v (k c refl))
  | inr b ↦ simp (acquire_aligned, b) v
]

-- An acquisition keeps the accounting, on every path.
pub acquire-Inv :
    (backend : Backend) (n : ℕ) (s : CudaMemoryPool)
    → Inv 0 s
    → n < modulus64
    → Inv 0 (acquire backend n s).1
unfolding acquire
acquire-Inv backend n s v h =
    acquire_aligned-Inv backend (aligned_size n) s v (λ c e. (aligned_size-ok n c h e).3)

drop_block-Inv :
    (b : Block) (bs : List Block) (s : CudaMemoryPool)
    → Inv 0 s
    → s.free_blocks ≡ b ∷ bs
    → Inv 0 (drop_block b bs s)
unfolding drop_block sub64
drop_block-Inv b bs s v h =
    let sum : capacities s.free_blocks ≡ b.0 + capacities bs = rw h refl in
    record {
      distinct = v.distinct;
      small = v.small;
      active_sum = v.active_sum;
      free_sum = omega (arith, v.free_sum, v.free_fits, v.limit_word);
      free_fits = omega (arith, v.free_sum, v.free_fits, v.limit_word);
      allocated_sum = omega (arith, v.allocated_sum, v.free_sum, v.free_fits, v.limit_word);
      limit_word = v.limit_word;
    }

drain-Inv :
    (bs : List Block) (s : CudaMemoryPool) → Inv 0 s → s.free_blocks ≡ bs → Inv 0 (drain bs s)
unfolding drain drop_block
drain-Inv [] s v h = v
drain-Inv (b ∷ bs) s v h = drain-Inv bs (drop_block b bs s) (drop_block-Inv b bs s v h) refl

pub trim-Inv : (s : CudaMemoryPool) → Inv 0 s → Inv 0 (trim s)
unfolding trim
trim-Inv s v = drain-Inv s.free_blocks s v refl

pub shutdown-Inv : (s : CudaMemoryPool) → Inv 0 s → Inv 0 (shutdown s)
unfolding shutdown
shutdown-Inv s v =
    trim-Inv (record s { accepting = false })
      (record {
        distinct = v.distinct;
        small = v.small;
        active_sum = v.active_sum;
        free_sum = v.free_sum;
        free_fits = v.free_fits;
        allocated_sum = v.allocated_sum;
        limit_word = v.limit_word;
      })
