-- ===== src/Base/Outcome.antt =====
-- A C++ call that may throw: its value, or the standard exception that it throws. Two
-- are no exceptions: `out_of_fuel`, when a loop of the model has not come to its end, and
-- `division_by_zero`, where the program stops.
use mathlib.Core.Path.{◌≡◌, refl}
use mathlib.Core.Bool.{Bool, true, false}

pub data Error : Type 0 where
  invalid_argument overflow_error runtime_error logic_error out_of_range storage_error : Error
  out_of_fuel division_by_zero : Error

pub data Outcome {ℓ} (A : Type ℓ) : Type ℓ where
  ok : A → Outcome A
  throws : Error → Outcome A

-- `catch (const std::runtime_error&)`: `overflow_error` and `StorageError` derive from it.
unfoldable pub is_runtime_error : Error → Bool
is_runtime_error runtime_error = true
is_runtime_error overflow_error = true
is_runtime_error storage_error = true
is_runtime_error _ = false

-- `if (b) throw x;`
abbrev pub reject : Bool → Error → Outcome (Unit {0})
reject false x = ok tt
reject true x = throws x

module _ {ℓ κ} {A : Type ℓ} {B : Type κ} where
  infixl 5 ◌>>=◌
  -- What follows a call, unless that throws.
  abbrev pub ◌>>=◌ : Outcome A → (A → Outcome B) → Outcome B
  ◌>>=◌ (throws x) next = throws x
  ◌>>=◌ (ok value) next = next value

  -- A call that returns went through its first part.
  pub >>=-eq-ok :
      (first : Outcome A) (next : A → Outcome B) {b : B}
      → (first >>= next) ≡ ok b
      → (value : A) × (first ≡ ok value) × (next value ≡ ok b)
  >>=-eq-ok (throws x) next h = cc
  >>=-eq-ok (ok value) next h = (value, refl, h)

infixl 5 ◌>>◌
abbrev pub ◌>>◌ {ℓ} : {B : Type ℓ} → Outcome (Unit {0}) → Outcome B → Outcome B
check >> next = check >>= λ _. next
