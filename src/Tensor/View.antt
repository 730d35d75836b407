-- ===== src/Tensor/View.antt =====
-- src/tensor/TensorView.hpp, src/tensor/TensorView.cpp, src/tensor/DType.hpp: views of the storage of
-- tensors and buffers. A pointer is its address, zero for null; adding to it does not wrap around. An
-- owner is a number, and `alive` tells which owners are alive at the call. `TensorError` is an
-- `invalid_argument`.
pub mod Slices
use hypermoe_engine.Base.{
  ℕ, zero, ◌+◌, ◌-◌, ◌*◌, ◌/◌, ◌%◌, Bool, true, false, not, ◌&&◌, ◌||◌, Option, none, some, ltb,
  ◌==◌, if◌then◌else◌,
}
use hypermoe_engine.Base.Word.{max64, mul64}
use hypermoe_engine.Base.Outcome.{
  Outcome, ok, throws, invalid_argument, overflow_error, logic_error, out_of_range, ◌>>=◌, ◌>>◌,
  reject,
}
use hypermoe_engine.Storage.Index.{size_of}
use hypermoe_engine.Tensor.Shape.{Shape, is_contiguous}

pub data Ordinal : Type 0 where
  negative : Ordinal
  at : ℕ → Ordinal

unfoldable pub same_ordinal : Ordinal → Ordinal → Bool
same_ordinal negative negative = true
same_ordinal (at m) (at n) = m == n
same_ordinal _ _ = false

-- The type is its code, 0 for the CPU and 1 for CUDA.
pub record Device : Type 0 where
  pub type : ℕ
  pub ordinal : Ordinal

abbrev pub cpu : Device
cpu = record { type = 0; ordinal = at 0 }

-- What is read of a buffer: its address and size, and the kind and the ordinal of its backend.
pub record DeviceBuffer : Type 0 where
  pub address : ℕ
  pub size : ℕ
  pub has_backend : Bool
  pub cuda : Bool
  pub ordinal : Ordinal
  pub owner : ℕ

pub record TensorView : Type 0 where
  pub shape : Shape
  pub dtype : ℕ
  pub device : Device
  pub address : ℕ
  pub mutable_address : ℕ
  pub bytes : ℕ
  pub storage_bytes : ℕ
  pub lifetime : ℕ

unfoldable pub alignment_of : ℕ → ℕ
alignment_of code =
    if code == 0 then 4 else if code == 1 || code == 2 then 2 else if code == 3 then 1 else 0

unfoldable pub is_negative : Ordinal → Bool
is_negative negative = true
is_negative (at n) = false

unfoldable pub validate_device : Device → Outcome (Unit {0})
unfolding is_negative same_ordinal
validate_device d = do
  reject (ltb 1 d.type || is_negative d.ordinal) invalid_argument
  reject (d.type == 0 && not (same_ordinal d.ordinal (at 0))) invalid_argument

unfoldable pub validate_buffer_device : DeviceBuffer → Device → Outcome (Unit {0})
unfolding validate_device same_ordinal
validate_buffer_device b d = do
  validate_device d
  reject (not b.has_backend) invalid_argument
  reject
      (d.type == 0 && b.cuda
        || d.type == 1 && (not b.cuda || not (same_ordinal b.ordinal d.ordinal)))
      invalid_argument

-- `count * sizeOf(dtype)`, or an `overflow_error`.
unfoldable pub size_in_bytes : ℕ → ℕ → Outcome ℕ
unfolding size_of mul64
size_in_bytes elements dtype = do
  reject (size_of dtype == 0 || ltb (max64 / size_of dtype) elements) overflow_error
  ok (mul64 elements (size_of dtype))

unfoldable pub required_bytes : Shape → ℕ → Outcome ℕ
unfolding size_in_bytes
required_bytes s dtype = size_in_bytes s.storage_element_count dtype

unfoldable pub logical_bytes : Shape → ℕ → Outcome ℕ
unfolding size_in_bytes
logical_bytes s dtype = size_in_bytes s.element_count dtype

module _ (alive : ℕ → Bool) where
  -- The private constructor.
  unfoldable pub make : Shape → ℕ → Device → ℕ → ℕ → ℕ → ℕ → Outcome TensorView
  unfolding logical_bytes validate_device alignment_of required_bytes
  make shape dtype device address mutable_address storage lifetime = do
    bytes ← logical_bytes shape dtype
    validate_device device
    reject (address == 0 || not (alive lifetime)) invalid_argument
    reject (alignment_of dtype == 0 || not (address % alignment_of dtype == 0)) invalid_argument
    required ← required_bytes shape dtype
    reject (ltb storage required) invalid_argument
    ok (record {
      shape = shape;
      dtype = dtype;
      device = device;
      address = address;
      mutable_address = mutable_address;
      bytes = bytes;
      storage_bytes = storage;
      lifetime = lifetime;
    })

  unfoldable pub from_device_buffer :
      Shape → ℕ → Device → Option DeviceBuffer → Bool → Outcome TensorView
  unfolding make validate_buffer_device
  from_device_buffer shape dtype device none writable = throws invalid_argument
  from_device_buffer shape dtype device (some b) writable = do
    reject (b.address == 0) invalid_argument
    validate_buffer_device b device
    make shape dtype device b.address (if writable then b.address else 0) b.size b.owner

  -- The bytes of a vector: address, size and owner.
  unfoldable pub from_host_buffer : Shape → ℕ → Option (ℕ × ℕ × ℕ) → Bool → Outcome TensorView
  unfolding make validate_device
  from_host_buffer shape dtype none writable = throws invalid_argument
  from_host_buffer shape dtype (some (address, size, owner)) writable = do
    reject (size == 0) invalid_argument
    validate_device cpu
    make shape dtype cpu address (if writable then address else 0) size owner

  unfoldable pub valid : TensorView → Bool
  valid v = not (v.address == 0) && not (v.bytes == 0) && alive v.lifetime

  -- `data()`
  unfoldable pub data_of : TensorView → ℕ
  data_of v = if alive v.lifetime then v.address else 0

  unfoldable pub writable : TensorView → Bool
  writable v = not (v.mutable_address == 0) && alive v.lifetime

  unfoldable pub reshape : TensorView → Shape → Outcome TensorView
  unfolding make valid is_contiguous
  reshape v shape = do
    reject (not (valid v)) logic_error
    reject (not (is_contiguous v.shape) || not (is_contiguous shape)) invalid_argument
    reject (not (shape.element_count == v.shape.element_count)) invalid_argument
    make shape v.dtype v.device v.address v.mutable_address v.storage_bytes v.lifetime

  unfoldable pub slice_bytes : TensorView → ℕ → Shape → ℕ → Outcome TensorView
  unfolding valid
  slice_bytes v offset shape dtype = do
    reject (not (valid v)) logic_error
    reject (size_of dtype == 0) invalid_argument
    reject (not (offset % size_of dtype == 0)) invalid_argument
    reject (ltb v.storage_bytes offset) out_of_range
    required ← required_bytes shape dtype
    reject (ltb (v.storage_bytes - offset) required) out_of_range
    make shape dtype v.device (v.address + offset)
        (if v.mutable_address == 0 then 0 else v.mutable_address + offset) required v.lifetime
