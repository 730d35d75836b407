-- ===== src/Pool/Fit.antt =====
-- Which block an acquisition of the memory pool hands out, src/backend/cuda/CudaMemoryPool.cpp.
use hypermoe_engine.Base.{
  ℕ, suc, ◌≤◌, ◌<◌, ◌≡◌, refl, ◌∙◌, sym, ap, subst, ◌⊎◌, inl, inr, Bool, true, false, Option, none,
  some, List, [], ◌∷◌, leb, arith, Option-cases, Bool-cases, All, ==_refl,
}
use hypermoe_engine.Base.Outcome.{Outcome, ok, throws, runtime_error}
use hypermoe_engine.Base.Map.{lookup, has, has-none}
use hypermoe_engine.Pool.{
  Block, CudaMemoryPool, Backend, put_back, lower_bound, insert, reuse, count_allocation, activate,
  allocated, obtain, acquire_aligned,
}

activate-fits :
    (b d : Block) (reused : Bool) (s : CudaMemoryPool)
    → (activate b reused s).0 ≡ ok d
    → (b ≡ d)
      × (lookup d.1 s.active_blocks ≡ none)
      × (lookup d.1 (activate b reused s).1.active_blocks ≡ some d.0)
unfolding activate lookup
activate-fits b d reused s h = elim (Bool-cases (has b.1 s.active_blocks)) [
  | inl e ↦ ground arith
  | inr e ↦
      let new = has-none b.1 s.active_blocks e in
      let same : b ≡ d = ground arith in ground (arith, ==_refl d.1)
]

-- The block comes from the cache, or it is a new one of just the size.
abbrev pub Origin : ℕ → List Block → Block → Type 0
Origin c free b =
    ((rest : List Block) × (lower_bound c free ≡ some (b, rest)))
    ⊎ ((lower_bound c free ≡ none) × (b.0 ≡ c))

abbrev pub Handed : CudaMemoryPool → CudaMemoryPool → Block → Type 0
Handed s s' b = (lookup b.1 s.active_blocks ≡ none) × (lookup b.1 s'.active_blocks ≡ some b.0)

allocated-fits :
    (c : ℕ) (r : Outcome ℕ) (s : CudaMemoryPool) (b : Block)
    → (allocated c r s).0 ≡ ok b
    → (b.0 ≡ c) × Handed s (allocated c r s).1 b
unfolding allocated count_allocation
allocated-fits c (throws e) s b h = cc
allocated-fits c (ok p) s b h =
    let (same, new, held) = activate-fits (c, p) b false (count_allocation c s) h in
    (ap (λ (d : Block). d.0) (sym same), (new, held))

obtain-fits :
    (backend : Backend) (c : ℕ) (o : Option (Block × List Block)) (s : CudaMemoryPool) (b : Block)
    → lower_bound c s.free_blocks ≡ o
    → (obtain backend c o s).0 ≡ ok b
    → Origin c s.free_blocks b × Handed s (obtain backend c o s).1 b
unfolding obtain reuse
obtain-fits backend c none s b e h =
    let called : CudaMemoryPool = record s { allocations = suc s.allocations } in
    let (size, handed) = allocated-fits c (backend.allocate s.allocations c) called b h in
    (inr (e, size), handed)
obtain-fits backend c (some (d, rest)) s b e h =
    let (same, new, held) = activate-fits d b true (reuse d rest s) h in
    (inl (rest, e ∙ ap (λ (x : Block). some (x, rest)) same), (new, held))

pub accepted :
    (backend : Backend) (c : ℕ) (s : CudaMemoryPool)
    → s.accepting ≡ true
    → acquire_aligned backend (ok c) s ≡ obtain backend c (lower_bound c s.free_blocks) s
unfolding acquire_aligned
accepted backend c s a = simp (acquire_aligned, a)

pub refused :
    (backend : Backend) (c : ℕ) (s : CudaMemoryPool)
    → s.accepting ≡ false
    → (acquire_aligned backend (ok c) s).0 ≡ throws runtime_error
unfolding acquire_aligned
refused backend c s a = simp (acquire_aligned, a)

pub acquire_aligned-fits :
    (backend : Backend) (c : ℕ) (s : CudaMemoryPool) (b : Block)
    → (acquire_aligned backend (ok c) s).0 ≡ ok b
    → Origin c s.free_blocks b × Handed s (acquire_aligned backend (ok c) s).1 b
acquire_aligned-fits backend c s b h = elim (Bool-cases s.accepting) [
  | inl a ↦
      let e = accepted backend c s a in
      rw e (
        obtain-fits backend c (lower_bound c s.free_blocks) s b refl
          (subst (λ (r : Outcome Block × CudaMemoryPool). r.0 ≡ ok b) e h))
  | inr a ↦ ground (arith, refused backend c s a)
]

-- In the order of the capacities.
abbrev pub Sorted : List Block → Type 0
Sorted [] = Unit
Sorted (b ∷ bs) = All (λ (c : Block). b.0 ≤ c.0) bs × Sorted bs

All-insert :
    (P : Block → Type 0) (b : Block) (bs : List Block) → P b → All P bs → All P (insert b bs)
unfolding insert
All-insert P b [] h a = (h, tt)
All-insert P b (c ∷ bs) h a = elim (Bool-cases (leb c.0 b.0)) [
  | inl e ↦ rw (insert, e) (a.0, All-insert P b bs h a.1)
  | inr e ↦ rw (insert, e) (h, a)
]

All-larger :
    (m n : ℕ) (bs : List Block)
    → m ≤ n
    → All (λ (c : Block). n ≤ c.0) bs
    → All (λ (c : Block). m ≤ c.0) bs
All-larger m n [] h a = tt
All-larger m n (c ∷ bs) h a = (omega arith, All-larger m n bs h a.1)

pub insert-Sorted : (b : Block) (bs : List Block) → Sorted bs → Sorted (insert b bs)
unfolding insert
insert-Sorted b [] s = (tt, tt)
insert-Sorted b (c ∷ bs) s = elim (Bool-cases (leb c.0 b.0)) [
  | inl e ↦
      rw (insert, e)
        (All-insert (λ (d : Block). c.0 ≤ d.0) b bs (ground arith) s.0, insert-Sorted b bs s.1)
  | inr e ↦
      let less : b.0 ≤ c.0 = ground arith in
      rw (insert, e) ((less, All-larger b.0 c.0 bs less s.0), s)
]

-- No block that is large enough is smaller.
abbrev pub Least : ℕ → Block → List Block → Type 0
Least n b bs = All (λ (c : Block). n ≤ c.0 → b.0 ≤ c.0) bs

-- What a search in a sorted cache finds.
pub record Found (n : ℕ) (bs : List Block) (b : Block) (rest : List Block) : Type 0 where
  pub sorted : Sorted rest
  pub least : Least n b bs
  pub within : (m : ℕ) → All (λ (c : Block). m ≤ c.0) bs → All (λ (c : Block). m ≤ c.0) rest

larger-Least :
    (n : ℕ) (b : Block) (bs : List Block) → All (λ (c : Block). b.0 ≤ c.0) bs → Least n b bs
larger-Least n b [] a = tt
larger-Least n b (c ∷ bs) a = (λ k. a.0, larger-Least n b bs a.1)

found_first : (n : ℕ) (b : Block) (bs : List Block) → Sorted (b ∷ bs) → Found n (b ∷ bs) b bs
found_first n b bs s = record {
  sorted = s.1;
  least = (λ k. omega arith, larger-Least n b bs s.0);
  within = λ m a. a.1;
}

found_later :
    (n : ℕ) (d b : Block) (bs rest : List Block)
    → Sorted (d ∷ bs)
    → d.0 < n
    → Found n bs b rest
    → Found n (d ∷ bs) b (d ∷ rest)
found_later n d b bs rest s k f = record {
  sorted = (f.within d.0 s.0, f.sorted);
  least = (λ h. omega arith, f.least);
  within = λ m a. (a.0, f.within m a.1);
}

pub lower_bound-Sorted :
    (n : ℕ) (bs : List Block) (b : Block) (rest : List Block)
    → Sorted bs
    → lower_bound n bs ≡ some (b, rest)
    → Found n bs b rest
unfolding lower_bound put_back
lower_bound-Sorted n [] b rest s h = cc
lower_bound-Sorted n (d ∷ bs) b rest s h = elim (Bool-cases (leb n d.0)) [
  | inl e ↦
      let q : d ≡ b = ground arith in
      let r : bs ≡ rest = ground arith in
      subst (λ (x : Block). Found n (d ∷ bs) x rest) q
        (subst (λ (x : List Block). Found n (d ∷ bs) d x) r (found_first n d bs s))
  | inr e ↦ elim (Option-cases (lower_bound n bs)) [
    | inl r ↦ ground arith
    | inr ((b', rest'), r) ↦
        let q : b' ≡ b = ground arith in
        let t : (d ∷ rest') ≡ rest = ground arith in
        subst (λ (x : Block). Found n (d ∷ bs) x rest) q
          (subst (λ (x : List Block). Found n (d ∷ bs) b' x) t
            (found_later n d b' bs rest' s (ground arith) (lower_bound-Sorted n bs b' rest' s.1 r)))
  ]
]

pub none-Least : (n : ℕ) (b : Block) (bs : List Block) → lower_bound n bs ≡ none → Least n b bs
unfolding lower_bound put_back
none-Least n b [] h = tt
none-Least n b (d ∷ bs) h = elim (Option-cases (lower_bound n bs)) [
  | inl r ↦ (ground arith, none-Least n b bs r)
  | inr (p, r) ↦ ground arith
]
