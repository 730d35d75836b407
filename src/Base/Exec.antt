-- ===== src/Base/Exec.antt =====
-- A method of an object that may throw. What it wrote before it throws stays written, so the state
-- comes back beside the exception.
use mathlib.Core.Path.{◌≡◌, refl}
use hypermoe_engine.Base.Outcome.{Error, Outcome, ok, throws}

abbrev pub Exec {ℓ} : Type ℓ → Type ℓ → Type ℓ
Exec S A = S → Outcome A × S

module _ {ℓ} {S A : Type ℓ} where
  abbrev pub raise : Error → Exec S A
  raise x now = (throws x, now)

  abbrev pub pure : A → Exec S A
  pure value now = (ok value, now)

module _ {ℓ} {S A B : Type ℓ} where
  -- What follows a call that came to this outcome.
  abbrev pub continue : Outcome A → (A → Exec S B) → Exec S B
  continue (throws x) next now = (throws x, now)
  continue (ok value) next now = next value now

  infixl 10 ◌>>=◌
  abbrev pub ◌>>=◌ : Exec S A → (A → Exec S B) → Exec S B
  ◌>>=◌ call next now = let (outcome, after) = call now in continue outcome next after

  infixl 10 ◌>>◌
  abbrev pub ◌>>◌ : Exec S A → Exec S B → Exec S B
  call >> next = call >>= λ _. next

-- A call that returns went through its first part.
pub >>=-returns {ℓ} :
    {S A B : Type ℓ} (call : Exec S A) (next : A → Exec S B) (now : S) {b : B} {after : S}
    → (call >>= next) now ≡ (ok b, after)
    → (a : A) × (between : S) × (call now ≡ (ok a, between)) × (next a between ≡ (ok b, after))
>>=-returns {S = S} {A = A} {B = B} call next now {b} {after} h = split (call now) refl h
  where
    split :
        (r : Outcome A × S)
        → call now ≡ r
        → continue r.0 next r.1 ≡ (ok b, after)
        → (a : A) × (between : S) × (call now ≡ (ok a, between)) × (next a between ≡ (ok b, after))
    split (ok a, between) e k = (a, between, e, k)
    split (throws x, between) e k = absurd (cc)
