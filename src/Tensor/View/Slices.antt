-- ===== src/Tensor/View/Slices.antt =====
-- What a slice of a view of src/tensor/TensorView.cpp can reach.
use hypermoe_engine.Base.{
  ℕ, ◌≡◌, ◌+◌, ◌-◌, ◌*◌, ◌%◌, ◌<◌, ◌≤◌, sym, ap, ◌∙◌, Bool, true, false, not, ◌||◌, List, arith,
  ltb, ◌==◌, if◌then◌else◌,
}
use hypermoe_engine.Base.Word.{max64, modulus64, mul64_exact}
use hypermoe_engine.Base.Outcome.{
  ok, >>=-eq-ok, reject, invalid_argument, logic_error, out_of_range,
}
use hypermoe_engine.Storage.Index.{size_of}
use hypermoe_engine.Tensor.Shape.{Shape, make_strided}
use hypermoe_engine.Tensor.Shape.Offsets.{Within, offset, make_strided-offset}
use hypermoe_engine.Tensor.View.{
  TensorView, Device, validate_device, alignment_of, size_in_bytes, required_bytes, logical_bytes,
  valid, make, slice_bytes,
}
use native.Mathlib.Nat.{
  le-div_iff_mul-le, mul-le-mul_right, add-mul, one-mul, add-mul-mod_self_right, add_assoc, add-mod,
  zero-mod,
}

size_in_bytes-exact :
    (n dtype b : ℕ)
    → size_in_bytes n dtype ≡ ok b
    → (b ≡ n * size_of dtype) × (0 < size_of dtype) × (b < modulus64)
unfolding size_in_bytes
size_in_bytes-exact n dtype b h =
    let positive : 0 < size_of dtype = ground arith in
    let fits : n * size_of dtype ≤ max64 = (le-div_iff_mul-le positive).0 (ground arith) in
    let exact = mul64_exact n (size_of dtype) (omega arith) in
    (ground (arith, exact), positive, ground (arith, exact))

-- What the constructor makes of its arguments.
pub record Made (alive : ℕ → Bool) (shape : Shape) (dtype : ℕ) (device : Device)
    (address mutable_address storage lifetime : ℕ) (v : TensorView) : Type 0 where
  pub device_of : v.device ≡ device
  pub mutable_of : v.mutable_address ≡ mutable_address
  pub lifetime_of : v.lifetime ≡ lifetime
  pub shape_of : v.shape ≡ shape
  pub dtype_of : v.dtype ≡ dtype
  pub address_of : v.address ≡ address
  pub storage_of : v.storage_bytes ≡ storage
  pub aligned : address % alignment_of dtype ≡ 0
  pub bytes_of : logical_bytes shape dtype ≡ ok v.bytes
  pub required : (n : ℕ) × (required_bytes shape dtype ≡ ok n) × (n ≤ storage)
  pub living : alive v.lifetime ≡ true

make-Made :
    (alive : ℕ → Bool) (shape : Shape) (dtype : ℕ) (device : Device)
    (address mutable_address storage lifetime : ℕ) (v : TensorView)
    → make alive shape dtype device address mutable_address storage lifetime ≡ ok v
    → Made alive shape dtype device address mutable_address storage lifetime v
unfolding make
make-Made alive shape dtype device address mutable_address storage lifetime v h =
    let (bytes, logical, h1) = >>=-eq-ok (logical_bytes shape dtype) _ h in
    let (_, placed, h2) = >>=-eq-ok (validate_device device) _ h1 in
    let (_, there, h3) =
      >>=-eq-ok (reject (address == 0 || not (alive lifetime)) invalid_argument) _ h2 in
    let (_, fine, h4) =
      >>=-eq-ok
        (reject (alignment_of dtype == 0 || not (address % alignment_of dtype == 0))
          invalid_argument)
        _ h3 in
    let (n, needed, h5) = >>=-eq-ok (required_bytes shape dtype) _ h4 in
    let (_, enough, h6) = >>=-eq-ok (reject (ltb storage n) invalid_argument) _ h5 in
    record {
      device_of = cc;
      mutable_of = cc;
      lifetime_of = cc;
      shape_of = cc;
      dtype_of = cc;
      address_of = cc;
      storage_of = cc;
      aligned = ground (arith, fine);
      bytes_of = logical ∙ ap ok (ground (arith, h6));
      required = (n, needed, ground (arith, enough));
      living = ground (arith, there, h6);
    }

-- What a slice that returns has gone through.
pub record Sliced (alive : ℕ → Bool) (v : TensorView) (from : ℕ) (shape : Shape) (dtype : ℕ)
    (w : TensorView) : Type 0 where
  pub required : ℕ
  pub needed : required_bytes shape dtype ≡ ok required
  pub room : from + required ≤ v.storage_bytes
  pub is_valid : valid alive v ≡ true
  pub typed : (size_of dtype == 0) ≡ false
  pub stepped : from % size_of dtype ≡ 0
  pub built :
      make alive shape dtype v.device
        (v.address + from)
        (if v.mutable_address == 0 then 0 else v.mutable_address + from)
        required
        v.lifetime
      ≡ ok w
  pub made :
      Made alive shape dtype v.device
        (v.address + from)
        (if v.mutable_address == 0 then 0 else v.mutable_address + from)
        required
        v.lifetime
        w

slice_bytes-Sliced :
    (alive : ℕ → Bool) (v : TensorView) (from : ℕ) (shape : Shape) (dtype : ℕ) (w : TensorView)
    → slice_bytes alive v from shape dtype ≡ ok w
    → Sliced alive v from shape dtype w
unfolding slice_bytes
slice_bytes-Sliced alive v from shape dtype w h =
    let (_, a, h1) = >>=-eq-ok (reject (not (valid alive v)) logic_error) _ h in
    let (_, b, h2) = >>=-eq-ok (reject (size_of dtype == 0) invalid_argument) _ h1 in
    let (_, c, h3) = >>=-eq-ok (reject (not (from % size_of dtype == 0)) invalid_argument) _ h2 in
    let (_, d, h4) = >>=-eq-ok (reject (ltb v.storage_bytes from) out_of_range) _ h3 in
    let (n, needed, h5) = >>=-eq-ok (required_bytes shape dtype) _ h4 in
    let (_, e, h6) = >>=-eq-ok (reject (ltb (v.storage_bytes - from) n) out_of_range) _ h5 in
    record {
      required = n;
      needed = needed;
      room = ground (arith, d, e);
      is_valid = ground (arith, a);
      typed = ground (arith, b);
      stepped = ground (arith, c);
      built = h6;
      made = make-Made alive shape dtype v.device (v.address + from) _ n v.lifetime w h6;
    }

alignment_of-size_of : (dtype : ℕ) → alignment_of dtype ≡ size_of dtype
unfolding alignment_of size_of
alignment_of-size_of dtype = ground arith

-- A slice of a view lies in the storage of the view: each element of its shape, at an index within the
-- dimensions, takes bytes that are all in that storage, at an address that suits its type.
pub slice_bytes-inside :
    (alive : ℕ → Bool) (v w : TensorView) (from dtype : ℕ) (ds ss is : List ℕ) (shape : Shape)
    → make_strided ds ss ≡ ok shape
    → Within is ds
    → slice_bytes alive v from shape dtype ≡ ok w
    → (v.address ≤ w.address + offset is shape.strides * size_of dtype)
      × (w.address + offset is shape.strides * size_of dtype + size_of dtype
          ≤ v.address + v.storage_bytes)
      × ((w.address + offset is shape.strides * size_of dtype) % size_of dtype ≡ 0)
unfolding required_bytes
slice_bytes-inside alive v w from dtype ds ss is shape built within h =
    let q = slice_bytes-Sliced alive v from shape dtype w h in
    let (exact, positive, small) =
      size_in_bytes-exact shape.storage_element_count dtype q.required q.needed in
    let o = offset is shape.strides in
    let below : o < shape.storage_element_count =
      (make_strided-offset ds ss is shape built within).0 in
    let step : (o + 1) * size_of dtype ≤ shape.storage_element_count * size_of dtype =
      mul-le-mul_right (size_of dtype) (omega (arith, below)) in
    let place = q.made.address_of in
    let room = q.room in
    (
      omega (arith, place),
      omega (arith, place, room, exact, add-mul o 1 (size_of dtype), one-mul (size_of dtype)),
      add-mul-mod_self_right w.address o (size_of dtype)
          ∙ ap (λ (x : ℕ). x % size_of dtype) place
          ∙ ap (λ (x : ℕ). (v.address + from) % x) (sym (alignment_of-size_of dtype))
          ∙ q.made.aligned,
    )

slice_bytes-make :
    (alive : ℕ → Bool) (v : TensorView) (from : ℕ) (shape : Shape) (dtype n : ℕ)
    → valid alive v ≡ true
    → (size_of dtype == 0) ≡ false
    → from % size_of dtype ≡ 0
    → required_bytes shape dtype ≡ ok n
    → from + n ≤ v.storage_bytes
    → slice_bytes alive v from shape dtype
      ≡ make alive shape dtype v.device
          (v.address + from)
          (if v.mutable_address == 0 then 0 else v.mutable_address + from)
          n
          v.lifetime
unfolding slice_bytes
slice_bytes-make alive v from shape dtype n ok_view typed stepped needed room =
    rw (ok_view, typed, stepped, needed) (ground arith)

steps : (a b n : ℕ) → a % n ≡ 0 → b % n ≡ 0 → (a + b) % n ≡ 0
steps a b n p q = add-mod a b n ∙ cc (p, q, zero-mod n)

-- A slice of a slice, of the same element type, is the slice of the view at the sum of the offsets.
pub slice_bytes-slice_bytes :
    (alive : ℕ → Bool) (v w u : TensorView) (a b dtype : ℕ) (outer inner : Shape)
    → slice_bytes alive v a outer dtype ≡ ok w
    → slice_bytes alive w b inner dtype ≡ ok u
    → slice_bytes alive v (a + b) inner dtype ≡ ok u
slice_bytes-slice_bytes alive v w u a b dtype outer inner h k =
    let q = slice_bytes-Sliced alive v a outer dtype w h in
    let r = slice_bytes-Sliced alive w b inner dtype u k in
    let m = q.made in
    let s = r.built in
    let mutable : (if v.mutable_address == 0 then 0 else v.mutable_address + (a + b))
        ≡ (if w.mutable_address == 0 then 0 else w.mutable_address + b) =
      ground (arith, m.mutable_of) in
    let room : a + b + r.required ≤ v.storage_bytes = omega (arith, q.room, r.room, m.storage_of) in
    slice_bytes-make alive v (a + b) inner dtype r.required q.is_valid q.typed
      (steps a b (size_of dtype) q.stepped r.stepped) r.needed room
    ∙ cc (s, m.device_of, m.address_of, m.lifetime_of, add_assoc v.address a b, mutable)
