-- ===== src/Storage/Bytes.antt =====
-- `writeLittleEndian` and `readLittleEndian` of src/storage/ExpertIndex.cpp for the two widths that
-- are used, their loops unrolled. A stream is the list of its bytes.
use hypermoe_engine.Base.{ℕ, ◌+◌, ◌*◌, ◌/◌, ◌%◌, ◌^◌, ◌<◌, ◌≡◌, ap, List, [], ◌∷◌, ◌++◌, arith}
use hypermoe_engine.Base.Outcome.{Outcome, ok, throws, storage_error}

abbrev pub Bytes : Type 0
Bytes = List ℕ

unfoldable pub write32 : ℕ → Bytes
write32 v = v % 256 ∷ v / 2 ^ 8 % 256 ∷ v / 2 ^ 16 % 256 ∷ v / 2 ^ 24 % 256 ∷ []

unfoldable pub write64 : ℕ → Bytes
write64 v =
    v % 256
    ∷ v / 2 ^ 8 % 256
    ∷ v / 2 ^ 16 % 256
    ∷ v / 2 ^ 24 % 256
    ∷ v / 2 ^ 32 % 256
    ∷ v / 2 ^ 40 % 256
    ∷ v / 2 ^ 48 % 256
    ∷ v / 2 ^ 56 % 256
    ∷ []

-- A value and the bytes behind it; an exception at the end of the stream.
abbrev pub Read : Type 0 → Type 0
Read A = Bytes → Outcome (A × Bytes)

unfoldable pub read32 : Read ℕ
read32 (a ∷ b ∷ c ∷ d ∷ bs) = ok (a + b * 2 ^ 8 + c * 2 ^ 16 + d * 2 ^ 24, bs)
read32 _ = throws storage_error

unfoldable pub read64 : Read ℕ
read64 (a ∷ b ∷ c ∷ d ∷ e ∷ f ∷ g ∷ h ∷ bs) = ok (
  a + b * 2 ^ 8 + c * 2 ^ 16 + d * 2 ^ 24 + e * 2 ^ 32 + f * 2 ^ 40 + g * 2 ^ 48 + h * 2 ^ 56,
  bs,
)
read64 _ = throws storage_error

pub read32-write32 : (v : ℕ) (bs : Bytes) → v < 2 ^ 32 → read32 (write32 v ++ bs) ≡ ok (v, bs)
unfolding read32 write32
read32-write32 v bs h = ap (λ (x : ℕ). ok (x, bs)) (omega arith)

pub read64-write64 : (v : ℕ) (bs : Bytes) → v < 2 ^ 64 → read64 (write64 v ++ bs) ≡ ok (v, bs)
unfolding read64 write64
read64-write64 v bs h = ap (λ (x : ℕ). ok (x, bs)) (omega arith)
