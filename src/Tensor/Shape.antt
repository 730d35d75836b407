-- ===== src/Tensor/Shape.antt =====
-- src/tensor/Shape.hpp, src/tensor/Shape.cpp: the dimensions of a tensor, its strides, and how many
-- elements it and its storage have. Failures for lack of host memory are left out.
pub mod Offsets
use hypermoe_engine.Base.{
  ℕ, ◌-◌, ◌/◌, Bool, true, false, not, ◌&&◌, List, [], ◌∷◌, ltb, ◌==◌, if◌then◌else◌, length,
}
use hypermoe_engine.Base.Word.{max64, add64, mul64}
use hypermoe_engine.Base.Outcome.{
  Outcome, ok, throws, invalid_argument, overflow_error, ◌>>=◌, ◌>>◌, reject,
}

pub record Shape : Type 0 where
  pub dimensions : List ℕ
  pub strides : List ℕ
  pub element_count : ℕ
  pub storage_element_count : ℕ

-- The loop of `validateAndCount`.
unfoldable pub count : ℕ → List ℕ → Outcome ℕ
unfolding mul64
count elements [] = ok elements
count elements (d ∷ ds) = do
  reject (d == 0) invalid_argument
  reject (ltb (max64 / d) elements) overflow_error
  count (mul64 elements d) ds

-- The stride of the dimension before these, which the loop has in hand when it comes there.
unfoldable pub stride_before : List ℕ → ℕ
unfolding mul64
stride_before [] = 1
stride_before (d ∷ ds) = mul64 (stride_before ds) d

-- `makeContiguousStrides`, which goes through the dimensions from the last one.
unfoldable pub contiguous_strides : List ℕ → List ℕ
unfolding stride_before
contiguous_strides [] = []
contiguous_strides (d ∷ ds) = stride_before ds ∷ contiguous_strides ds

-- The constructor from dimensions.
unfoldable pub make : List ℕ → Outcome Shape
unfolding count contiguous_strides
make ds = do
  elements ← count 1 ds
  ok (record {
    dimensions = ds;
    strides = contiguous_strides ds;
    element_count = elements;
    storage_element_count = elements;
  })

-- A stride of zero needs a tensor of one element.
unfoldable pub check_strides : ℕ → List ℕ → Outcome (Unit {0})
check_strides elements [] = ok tt
check_strides elements (s ∷ ss) = do
  reject (s == 0 && ltb 1 elements) invalid_argument
  check_strides elements ss

-- The loop that adds up the span of the storage; the lists are of one length there.
unfoldable pub span : ℕ → List ℕ → List ℕ → Outcome ℕ
unfolding add64 mul64
span storage [] ss = ok storage
span storage (d ∷ ds) [] = ok storage
span storage (d ∷ ds) (s ∷ ss) = do
  reject (not (d - 1 == 0) && ltb ((max64 - storage) / (d - 1)) s) overflow_error
  span (add64 storage (mul64 (d - 1) s)) ds ss

-- The constructor from dimensions and strides.
unfoldable pub make_strided : List ℕ → List ℕ → Outcome Shape
unfolding count check_strides span
make_strided ds ss = do
  elements ← count 1 ds
  reject (not (length ss == length ds)) invalid_argument
  check_strides elements ss
  storage ← span 1 ds ss
  ok (record {
    dimensions = ds;
    strides = ss;
    element_count = elements;
    storage_element_count = storage;
  })

-- The loop of `isContiguous`, from the last dimension: is it contiguous, and the stride expected next.
unfoldable pub contiguous : List ℕ → List ℕ → Bool × ℕ
unfolding mul64
contiguous [] ss = (true, 1)
contiguous (d ∷ ds) [] = (false, 1)
contiguous (d ∷ ds) (s ∷ ss) =
    let (yet, expected) = contiguous ds ss in
    if yet && s == expected then (true, mul64 expected d) else (false, expected)

unfoldable pub is_contiguous : Shape → Bool
unfolding contiguous
is_contiguous s = (contiguous s.dimensions s.strides).0
