-- ===== src/Examples/Tensor.antt =====
-- The shapes and views of src/tensor at concrete inputs.
use hypermoe_engine.Base.{
  ℕ, ◌≡◌, ◌+◌, ◌*◌, ◌%◌, ◌^◌, ◌<◌, ◌≤◌, refl, Bool, true, List, [], ◌∷◌, product, arith,
}
use hypermoe_engine.Base.Word.{max64, modulus64}
use hypermoe_engine.Base.Outcome.{ok, throws, overflow_error, out_of_range}
use hypermoe_engine.Storage.Index.{size_of}
use hypermoe_engine.Tensor.Shape.{Shape, make, make_strided, is_contiguous}
use hypermoe_engine.Tensor.Shape.Offsets.{offset, make_strided-offset, make-rows}
use hypermoe_engine.Tensor.View.{TensorView, cpu, slice_bytes, required_bytes}
use hypermoe_engine.Tensor.View
use hypermoe_engine.Tensor.View.Slices.{slice_bytes-inside, slice_bytes-slice_bytes}

-- Two rows of three, six apart.
abbrev strided : Shape
strided = record {
  dimensions = 2 ∷ 3 ∷ [];
  strides = 6 ∷ 1 ∷ [];
  element_count = 6;
  storage_element_count = 9;
}

abbrev rows : Shape
rows = record {
  dimensions = 2 ∷ 3 ∷ [];
  strides = 3 ∷ 1 ∷ [];
  element_count = 6;
  storage_element_count = 6;
}

program : Unit {0}
unfolding make make_strided slice_bytes View.make required_bytes size_of
program = tt

make_strided-offset_example : (8 < 9) × (9 < modulus64)
unfolding program
make_strided-offset_example =
    make_strided-offset (2 ∷ 3 ∷ []) (6 ∷ 1 ∷ []) (1 ∷ 2 ∷ []) strided refl (omega arith)

make-rows_example :
    (is_contiguous rows ≡ true)
    × (rows.element_count ≡ product (2 ∷ 3 ∷ []))
    × (product (2 ∷ 3 ∷ []) < modulus64)
    × (offset (1 ∷ 2 ∷ []) rows.strides < rows.element_count)
    × (offset (1 ∷ 2 ∷ []) rows.strides ≡ offset (0 ∷ 2 ∷ []) rows.strides
        → ◌≡◌ {A = List ℕ} (1 ∷ 2 ∷ []) (0 ∷ 2 ∷ []))
unfolding program
make-rows_example =
    make-rows (2 ∷ 3 ∷ []) (1 ∷ 2 ∷ []) (0 ∷ 2 ∷ []) rows refl (omega arith) (omega arith)

-- Too many elements for a word, and a span that is too long.
too_many : make (2 ^ 40 ∷ 2 ^ 40 ∷ []) ≡ throws overflow_error
unfolding program
too_many = refl

too_long : make_strided (3 ∷ []) (max64 ∷ []) ≡ throws overflow_error
unfolding program
too_long = refl

-- All owners are alive.
abbrev alive : ℕ → Bool
alive n = true

abbrev view : TensorView
view = record {
  shape = rows;
  dtype = 0;
  device = cpu;
  address = 1024;
  mutable_address = 1024;
  bytes = 24;
  storage_bytes = 80;
  lifetime = 0;
}

abbrev slice : TensorView
slice = record view { shape = strided; address = 1040; mutable_address = 1040; storage_bytes = 36 }

abbrev inner : TensorView
inner = record view { address = 1048; mutable_address = 1048; storage_bytes = 24 }

slice_bytes-inside_example :
    (1024 ≤ 1040 + 8 * size_of 0)
    × (1040 + 8 * size_of 0 + size_of 0 ≤ 1024 + 80)
    × ((1040 + 8 * size_of 0) % size_of 0 ≡ 0)
unfolding program
slice_bytes-inside_example =
    slice_bytes-inside alive view slice 16 0 (2 ∷ 3 ∷ []) (6 ∷ 1 ∷ []) (1 ∷ 2 ∷ []) strided refl
      (omega arith) refl

slice_bytes-slice_bytes_example : slice_bytes alive view (16 + 8) rows 0 ≡ ok inner
unfolding program
slice_bytes-slice_bytes_example =
    slice_bytes-slice_bytes alive view slice inner 16 8 0 strided rows refl refl

-- A slice that would end behind the storage.
outside : slice_bytes alive view 48 strided 0 ≡ throws out_of_range
unfolding program
outside = refl
