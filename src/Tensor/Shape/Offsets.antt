-- ===== src/Tensor/Shape/Offsets.antt =====
-- Where the elements of a shape of src/tensor/Shape.cpp lie in its storage.
use hypermoe_engine.Base.{
  ℕ, ◌≡◌, ◌+◌, ◌-◌, ◌*◌, ◌/◌, ◌<◌, ◌≤◌, refl, sym, Bool, true, false, not, ◌&&◌, List, [], ◌∷◌,
  arith, ltb, length, product, ap, subst, ◌∙◌, ==→eq, All, ltb→lt, Bool-cases, inl, inr, ◌==◌,
}
use native.Mathlib.Nat.{
  le-div_iff_mul-le, mul_comm, mul_assoc, zero-mul, one-mul, add-mul, mul-le-mul_right,
}
use hypermoe_engine.Base.Word.{max64, modulus64, add64, mul64, mul64_exact, add64_exact}
use hypermoe_engine.Base.Outcome.{ok, >>=-eq-ok, reject, overflow_error, invalid_argument}
use hypermoe_engine.Tensor.Shape.{
  Shape, count, stride_before, contiguous_strides, make, check_strides, span, make_strided,
  contiguous, is_contiguous,
}

-- An index has a number below each dimension.
abbrev pub Within : List ℕ → List ℕ → Type 0
Within [] [] = Unit
Within (i ∷ is) (d ∷ ds) = (i < d) × Within is ds
Within _ _ = ⊥

-- The place of the element at an index, counted in elements.
abbrev pub offset : List ℕ → List ℕ → ℕ
offset (i ∷ is) (s ∷ ss) = i * s + offset is ss
offset _ _ = 0

-- One round of the loop: the check makes the sum exact.
span_round :
    (storage d s : ℕ)
    → (not (d - 1 == 0) && ltb ((max64 - storage) / (d - 1)) s) ≡ false
    → storage < modulus64
    → (add64 storage (mul64 (d - 1) s) ≡ storage + (d - 1) * s)
      × (storage + (d - 1) * s < modulus64)
span_round storage d s h b = (
  ap (add64 storage) (mul64_exact (d - 1) s (omega (arith, small)))
      ∙ add64_exact storage ((d - 1) * s) small,
  small,
)
  where
    small : storage + (d - 1) * s < modulus64
    small = elim (Bool-cases (d - 1 == 0)) [
      | inl z ↦ omega (arith, ap (λ (x : ℕ). x * s) (==→eq (d - 1) 0 z), zero-mul s)
      | inr p ↦
          let positive : 0 < d - 1 = ground arith in
          let fits : s * (d - 1) ≤ max64 - storage =
            (le-div_iff_mul-le positive).0 (ground arith) in
          omega (arith, mul_comm s (d - 1))
    ]

span-offset :
    (storage n : ℕ) (is ds ss : List ℕ)
    → span storage ds ss ≡ ok n
    → storage < modulus64
    → Within is ds
    → (storage + offset is ss ≤ n) × (n < modulus64)
unfolding span
span-offset storage n [] [] ss h b w = ground arith
span-offset storage n (i ∷ is) (d ∷ ds) [] h b w = ground arith
span-offset storage n (i ∷ is) (d ∷ ds) (s ∷ ss) h b w =
    let (_, check, rest) =
      >>=-eq-ok (reject (not (d - 1 == 0) && ltb ((max64 - storage) / (d - 1)) s) overflow_error)
        (λ _. span (add64 storage (mul64 (d - 1) s)) ds ss) h in
    let (exact, small) = span_round storage d s (ground arith) b in
    let next = subst (λ (x : ℕ). span x ds ss ≡ ok n) exact rest in
    let (rest_fits, n_small) = span-offset (storage + (d - 1) * s) n is ds ss next small w.1 in
    let low : i * s ≤ (d - 1) * s = mul-le-mul_right s (omega (arith, w.0)) in
    (omega arith, n_small)
span-offset storage n [] (d ∷ ds) ss h b w = elim w [ ]
span-offset storage n (i ∷ is) [] ss h b w = elim w [ ]

count-exact :
    (e x : ℕ) (ds : List ℕ)
    → e ≤ max64
    → count e ds ≡ ok x
    → (x ≡ e * product ds) × (x ≤ max64) × All (λ d. 0 < d) ds
unfolding count
count-exact e x [] w h = (ground arith, ground arith, tt)
count-exact e x (d ∷ ds) w h =
    let positive : 0 < d = ground arith in
    let fits : e * d ≤ max64 = (le-div_iff_mul-le positive).0 (ground arith) in
    let next : count (mul64 e d) ds ≡ ok x = ground arith in
    let step = subst (λ (y : ℕ). count y ds ≡ ok x) (mul64_exact e d (omega arith)) next in
    let (is, small, rest) = count-exact (e * d) x ds fits step in
    (is ∙ mul_assoc e d (product ds), small, (positive, rest))

-- A shape with strides that the constructor accepts keeps every element in its storage, and the number
-- of elements of the storage is a word: the place of an index within the dimensions is below it.
pub make_strided-offset :
    (ds ss is : List ℕ) (shape : Shape)
    → make_strided ds ss ≡ ok shape
    → Within is ds
    → (offset is shape.strides < shape.storage_element_count)
      × (shape.storage_element_count < modulus64)
unfolding make_strided
make_strided-offset ds ss is shape h w =
    let (elements, counted, h1) = >>=-eq-ok (count 1 ds) _ h in
    let (_, one_length, h2) =
      >>=-eq-ok (reject (not (length ss == length ds)) invalid_argument) _ h1 in
    let (_, nonzero, h3) = >>=-eq-ok (check_strides elements ss) _ h2 in
    let (n, spanned, h4) = >>=-eq-ok (span 1 ds ss) _ h3 in
    let (fits, small) = span-offset 1 n is ds ss spanned (omega arith) w in
    (ground (arith, fits), ground (arith, small))

-- The product of dimensions that are not zero grows with each.
product_tail : (d : ℕ) (ds : List ℕ) → 0 < d → product ds ≤ d * product ds
product_tail d ds p = omega (arith, mul-le-mul_right (product ds) p, one-mul (product ds))

stride_before-product :
    (ds : List ℕ) → All (λ d. 0 < d) ds → product ds ≤ max64 → stride_before ds ≡ product ds
unfolding stride_before
stride_before-product [] a h = refl
stride_before-product (d ∷ ds) a h =
    let rest = stride_before-product ds a.1 (omega (arith, product_tail d ds a.0)) in
    ap (λ (x : ℕ). mul64 x d) rest
    ∙ mul64_exact (product ds) d (omega (arith, mul_comm (product ds) d))
    ∙ mul_comm (product ds) d

-- The place of an index in a contiguous shape.
row : List ℕ → List ℕ → ℕ
row is ds = offset is (contiguous_strides ds)

row-cons :
    (i d : ℕ) (is ds : List ℕ)
    → All (λ x. 0 < x) ds
    → product ds ≤ max64
    → row (i ∷ is) (d ∷ ds) ≡ i * product ds + row is ds
unfolding row contiguous_strides
row-cons i d is ds a h = ap (λ (x : ℕ). i * x + row is ds) (stride_before-product ds a h)

row-lt :
    (is ds : List ℕ)
    → All (λ d. 0 < d) ds
    → product ds ≤ max64
    → Within is ds
    → row is ds < product ds
unfolding row contiguous_strides
row-lt [] [] a h w = omega arith
row-lt (i ∷ is) (d ∷ ds) a h w =
    let small : product ds ≤ max64 = omega (arith, product_tail d ds a.0) in
    let next = row-lt is ds a.1 small w.1 in
    let step : (i + 1) * product ds ≤ d * product ds =
      mul-le-mul_right (product ds) (omega (arith, w.0)) in
    omega (arith, row-cons i d is ds a.1 small, add-mul i 1 (product ds), one-mul (product ds))
row-lt [] (d ∷ ds) a h w = elim w [ ]
row-lt (i ∷ is) [] a h w = elim w [ ]

-- Two numbers to a base.
digits : (i j o p n : ℕ) → o < n → p < n → i * n + o ≡ j * n + p → (i ≡ j) × (o ≡ p)
digits i j o p n a b h = elim (Bool-cases (ltb i j)) [
  | inl l ↦ absurd (omega (arith, mul-le-mul_right n (ltb→lt i j l), add-mul i 1 n, one-mul n))
  | inr m ↦ elim (Bool-cases (ltb j i)) [
    | inl l ↦ absurd (omega (arith, mul-le-mul_right n (ltb→lt j i l), add-mul j 1 n, one-mul n))
    | inr k ↦ let e : i ≡ j = ground arith in (e, omega (arith, ap (λ (x : ℕ). x * n) e))
  ]
]

row-injective :
    (is js ds : List ℕ)
    → All (λ d. 0 < d) ds
    → product ds ≤ max64
    → Within is ds
    → Within js ds
    → row is ds ≡ row js ds
    → is ≡ js
row-injective [] [] [] a h v w e = refl
row-injective (i ∷ is) (j ∷ js) (d ∷ ds) a h v w e =
    let small : product ds ≤ max64 = omega (arith, product_tail d ds a.0) in
    let (same, rest) =
      digits i j (row is ds) (row js ds) (product ds) (row-lt is ds a.1 small v.1)
        (row-lt js ds a.1 small w.1)
        (sym (row-cons i d is ds a.1 small) ∙ e ∙ row-cons j d js ds a.1 small) in
    cc (same, row-injective is js ds a.1 small v.1 w.1 rest)
row-injective [] (j ∷ js) [] a h v w e = elim w [ ]
row-injective [] (j ∷ js) (d ∷ ds) a h v w e = elim v [ ]
row-injective (i ∷ is) [] [] a h v w e = elim v [ ]
row-injective (i ∷ is) [] (d ∷ ds) a h v w e = elim w [ ]
row-injective [] [] (d ∷ ds) a h v w e = elim v [ ]
row-injective (i ∷ is) (j ∷ js) [] a h v w e = elim v [ ]

contiguous-contiguous_strides :
    (ds : List ℕ) → contiguous ds (contiguous_strides ds) ≡ (true, stride_before ds)
unfolding contiguous contiguous_strides stride_before
contiguous-contiguous_strides [] = refl
contiguous-contiguous_strides (d ∷ ds) = rw (contiguous-contiguous_strides ds) (ground arith)

-- What the strides of a shape make of its elements.
abbrev RowMajor : List ℕ → List ℕ → List ℕ → Shape → Type 0
RowMajor ds is js shape =
    (is_contiguous shape ≡ true)
    × (shape.element_count ≡ product ds)
    × (offset is shape.strides < shape.element_count)
    × (offset is shape.strides ≡ offset js shape.strides → is ≡ js)

-- A shape from dimensions is contiguous and has as many elements as the product of its dimensions, a
-- word; each index within the dimensions has a place of its own below that number, so that no two
-- elements share one.
pub make-rows :
    (ds is js : List ℕ) (shape : Shape)
    → make ds ≡ ok shape
    → Within is ds
    → Within js ds
    → (is_contiguous shape ≡ true)
      × (shape.element_count ≡ product ds)
      × (product ds < modulus64)
      × (offset is shape.strides < shape.element_count)
      × (offset is shape.strides ≡ offset js shape.strides → is ≡ js)
unfolding make is_contiguous row
make-rows ds is js shape h v w =
    let (elements, counted, made) = >>=-eq-ok (count 1 ds) _ h in
    let (exact, small, positive) = count-exact 1 elements ds (omega arith) counted in
    let total : product ds ≤ max64 = omega (arith, one-mul (product ds)) in
    let same : product ds ≡ elements = sym (exact ∙ one-mul (product ds)) in
    let below = row-lt is ds positive total v in
    let built : Shape = record {
      dimensions = ds;
      strides = contiguous_strides ds;
      element_count = elements;
      storage_element_count = elements;
    } in
    let equal : built ≡ shape = cc made in
    let parts : RowMajor ds is js shape = subst (RowMajor ds is js) equal (
      ap (λ (x : Bool × ℕ). x.0) (contiguous-contiguous_strides ds),
      sym same,
      omega (arith, below),
      row-injective is js ds positive total v w,
    ) in
    (parts.0, parts.1, omega arith, parts.2, parts.3)
