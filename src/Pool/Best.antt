-- ===== src/Pool/Best.antt =====
-- That acquisitions of the memory pool find the best block, and what shutdown ends, src/backend/cuda/CudaMemoryPool.cpp.
use hypermoe_engine.Base.{
  ℕ, ◌≤◌, ◌<◌, ◌≡◌, ◌≢◌, refl, ◌∙◌, inl, inr, false, List, [], ◌∷◌, arith, Option-cases, Bool-cases,
}
use hypermoe_engine.Base.Word.{modulus64}
use hypermoe_engine.Base.Outcome.{Outcome, ok, throws}
use hypermoe_engine.Base.Map.{lookup}
use hypermoe_engine.Pool.{
  aligned_size, Block, CudaMemoryPool, Backend, init, lower_bound, reuse, count_allocation, undo,
  activate, allocated, obtain, acquire_aligned, acquire, cache_block, free_block, deactivate,
  cacheable, give_up, release_block, release, drop_block, drain, trim, shutdown,
}
use hypermoe_engine.Pool.Calls.{Call, acquires, releases, trims, shuts_down, run, step}
use hypermoe_engine.Pool.Accounting.{aligned_size-ok, lower_bound-capacities}
use hypermoe_engine.Pool.Calls.{Call, acquires, releases, trims, shuts_down, run, step}
use hypermoe_engine.Pool.Fit.{
  Origin, Handed, acquire_aligned-fits, Sorted, insert-Sorted, Least, lower_bound-Sorted,
  none-Least,
}

obtain-Sorted :
    (backend : Backend) (c : ℕ) (s : CudaMemoryPool)
    → Sorted s.free_blocks
    → Sorted (obtain backend c (lower_bound c s.free_blocks) s).1.free_blocks
unfolding obtain allocated activate count_allocation reuse undo
obtain-Sorted backend c s v = elim (Option-cases (lower_bound c s.free_blocks)) [
  | inl e ↦ ground arith
  | inr ((b, rest), e) ↦ ground (arith, (lower_bound-Sorted c s.free_blocks b rest v e).sorted)
]

acquire_aligned-Sorted :
    (backend : Backend) (r : Outcome ℕ) (s : CudaMemoryPool)
    → Sorted s.free_blocks
    → Sorted (acquire_aligned backend r s).1.free_blocks
unfolding acquire_aligned
acquire_aligned-Sorted backend (throws e) s v = v
acquire_aligned-Sorted backend (ok c) s v = elim (Bool-cases s.accepting) [
  | inl a ↦ simp (acquire_aligned, a) (obtain-Sorted backend c s v)
  | inr a ↦ simp (acquire_aligned, a) v
]

acquire-Sorted :
    (backend : Backend) (n : ℕ) (s : CudaMemoryPool)
    → Sorted s.free_blocks
    → Sorted (acquire backend n s).1.free_blocks
unfolding acquire
acquire-Sorted backend n s v = acquire_aligned-Sorted backend (aligned_size n) s v

release_block-Sorted :
    (p : ℕ) (s : CudaMemoryPool) → Sorted s.free_blocks → Sorted (release_block p s).free_blocks
unfolding release_block give_up cache_block free_block deactivate
release_block-Sorted p s v = elim (Option-cases (lookup p s.active_blocks)) [
  | inl e ↦ ground arith
  | inr (c, e) ↦ ground (arith, insert-Sorted (c, p) s.free_blocks v)
]

release-Sorted :
    (p : ℕ) (s : CudaMemoryPool) → Sorted s.free_blocks → Sorted (release p s).free_blocks
unfolding release
release-Sorted p s v = ground (arith, release_block-Sorted p s v)

drain-empty :
    (bs : List Block) (s : CudaMemoryPool) → s.free_blocks ≡ bs → (drain bs s).free_blocks ≡ []
unfolding drain drop_block
drain-empty [] s e = e
drain-empty (b ∷ bs) s e = drain-empty bs (drop_block b bs s) refl

run-Sorted :
    (backend : Backend) (s : CudaMemoryPool) (cs : List Call)
    → Sorted s.free_blocks
    → Sorted (run backend s cs).free_blocks
unfolding run step trim shutdown
run-Sorted backend s [] v = v
run-Sorted backend s (acquires n ∷ cs) v =
    run-Sorted backend (acquire backend n s).1 cs (acquire-Sorted backend n s v)
run-Sorted backend s (releases p ∷ cs) v =
    run-Sorted backend (release p s) cs (release-Sorted p s v)
run-Sorted backend s (trims ∷ cs) v =
    run-Sorted backend (trim s) cs (rw (drain-empty s.free_blocks s refl) tt)
run-Sorted backend s (shuts_down ∷ cs) v =
    run-Sorted backend (shutdown s) cs
      (rw (drain-empty s.free_blocks (record s { accepting = false }) refl) tt)

Origin-Least :
    (c : ℕ) (bs : List Block) (b : Block) → Sorted bs → Origin c bs b → (c ≤ b.0) × Least c b bs
Origin-Least c bs b v (inl (rest, e)) =
    ((lower_bound-capacities c bs b rest e).0, (lower_bound-Sorted c bs b rest v e).least)
Origin-Least c bs b v (inr (e, size)) = (omega arith, none-Least c b bs e)

aligned_best :
    (backend : Backend) (n : ℕ) (r : Outcome ℕ) (s : CudaMemoryPool) (b : Block)
    → n < modulus64
    → Sorted s.free_blocks
    → aligned_size n ≡ r
    → (acquire_aligned backend r s).0 ≡ ok b
    → (c : ℕ) × (r ≡ ok c)
      × (n ≤ b.0)
      × Least c b s.free_blocks
      × Handed s (acquire_aligned backend r s).1 b
unfolding acquire_aligned
aligned_best backend n (throws e) s b w v q h = cc
aligned_best backend n (ok c) s b w v q h =
    let (origin, handed) = acquire_aligned-fits backend c s b h in
    let (large, least) = Origin-Least c s.free_blocks b v origin in
    let rounded = aligned_size-ok n c w q in (c, refl, omega (arith, rounded.0), least, handed)

-- An acquisition that returns after any calls on a new pool hands out a pointer that was not active
-- and now is, with a block of at least the size asked for; among the cached blocks that are large
-- enough for the aligned size none is smaller.
pub acquire_best :
    (backend : Backend) (maximum : ℕ) (cs : List Call) (n : ℕ) (b : Block)
    → n < modulus64
    → (acquire backend n (run backend (init maximum) cs)).0 ≡ ok b
    → let s = run backend (init maximum) cs in
      (c : ℕ) × (aligned_size n ≡ ok c)
      × (n ≤ b.0)
      × Least c b s.free_blocks
      × Handed s (acquire backend n s).1 b
unfolding acquire init
acquire_best backend maximum cs n b w h =
    let s = run backend (init maximum) cs in
    aligned_best backend n (aligned_size n) s b w (run-Sorted backend (init maximum) cs tt) refl h

-- The pool is shut down and its cache is empty.
abbrev pub Closed : CudaMemoryPool → Type 0
Closed s = (s.accepting ≡ false) × (s.free_blocks ≡ [])

acquire-Closed :
    (backend : Backend) (n : ℕ) (s : CudaMemoryPool)
    → Closed s
    → Closed (acquire backend n s).1 × ((b : Block) → (acquire backend n s).0 ≢ ok b)
unfolding acquire acquire_aligned
acquire-Closed backend n s v = ground arith

drain-accepting : (bs : List Block) (s : CudaMemoryPool) → (drain bs s).accepting ≡ s.accepting
unfolding drain drop_block
drain-accepting [] s = refl
drain-accepting (b ∷ bs) s = drain-accepting bs (drop_block b bs s)

shutdown-Closed : (s : CudaMemoryPool) → Closed (shutdown s)
unfolding shutdown trim
shutdown-Closed s = (
  drain-accepting s.free_blocks (record s { accepting = false }),
  drain-empty s.free_blocks (record s { accepting = false }) refl,
)

step-Closed :
    (backend : Backend) (s : CudaMemoryPool) (c : Call) → Closed s → Closed (step backend s c)
unfolding step release release_block give_up cache_block free_block deactivate cacheable trim
    shutdown
step-Closed backend s (acquires n) v = (acquire-Closed backend n s v).0
step-Closed backend s (releases p) v = ground arith
step-Closed backend s trims v =
    (drain-accepting s.free_blocks s ∙ v.0, drain-empty s.free_blocks s refl)
step-Closed backend s shuts_down v = shutdown-Closed s

run-Closed :
    (backend : Backend) (s : CudaMemoryPool) (cs : List Call) → Closed s → Closed (run backend s cs)
unfolding run
run-Closed backend s [] v = v
run-Closed backend s (c ∷ cs) v =
    run-Closed backend (step backend s c) cs (step-Closed backend s c v)

-- Once a pool is shut down its cache stays empty over any further calls, releases of blocks that
-- are still out included, and no acquisition returns.
pub shut_for_good :
    (backend : Backend) (s : CudaMemoryPool) (cs : List Call) (n : ℕ) (b : Block)
    → let s' = run backend (shutdown s) cs in
      (s'.free_blocks ≡ []) × ((acquire backend n s').0 ≢ ok b)
shut_for_good backend s cs n b =
    let closed = run-Closed backend (shutdown s) cs (shutdown-Closed s) in
    (closed.1, (acquire-Closed backend n (run backend (shutdown s) cs) closed).1 b)
