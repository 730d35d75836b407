-- ===== src/Base/Map.antt =====
-- `std::unordered_map` and `std::map` keyed by a number: an association list. The order of the
-- entries stands for the iteration order, which the standard leaves open for `unordered_map`.
use hypermoe_engine.Base.Tests.{◌==◌, if◌then◌else◌, ==_refl}
use hypermoe_engine.Base.Lists.{length}
use Prim.Native.Nat.{ℕ, suc, ◌+◌}
use mathlib.Core.Path.{◌≡◌, refl}
use mathlib.Core.Bool.{Bool, true, false}
use mathlib.Core.Option.{Option, none, some}
use mathlib.Core.List.{List, [], ◌∷◌}
use native.Mathlib.Omega.{arith}

abbrev pub Map {ℓ} : Type ℓ → Type ℓ
Map V = List (ℕ × V)

module _ {ℓ} {V : Type ℓ} where
  unfoldable pub lookup : ℕ → Map V → Option V
  lookup k [] = none
  lookup k ((j, v) ∷ m) = let rest = lookup k m in if j == k then some v else rest

  unfoldable pub erase : ℕ → Map V → Map V
  erase k [] = []
  erase k ((j, v) ∷ m) = let rest = erase k m in if j == k then rest else (j, v) ∷ rest

  -- `m[k] = v`
  unfoldable pub put : ℕ → V → Map V → Map V
  unfolding erase
  put k v m = (k, v) ∷ erase k m

  -- Is `k` a key?
  unfoldable pub has : ℕ → Map V → Bool
  unfolding lookup
  has k m = elim (lookup k m) [ none ↦ false | some v ↦ true ]

  -- `m.emplace(k, v)` keeps an entry that is there.
  unfoldable pub emplace : ℕ → V → Map V → Map V
  unfolding has
  emplace k v m = if has k m then m else (k, v) ∷ m

  -- No key stands twice.
  abbrev pub Distinct : Map V → Type ℓ
  Distinct [] = Unit
  Distinct ((k, v) ∷ m) = (lookup k m ≡ none) × Distinct m

  pub lookup-erase :
      (k j : ℕ) (m : Map V) → lookup j (erase k m) ≡ (if k == j then none else lookup j m)
  unfolding lookup erase
  lookup-erase k j [] = ground arith
  lookup-erase k j ((i, v) ∷ m) = ground (arith, lookup-erase k j m)

  pub lookup-put :
      (k j : ℕ) (v : V) (m : Map V) → lookup j (put k v m) ≡ (if k == j then some v else lookup j m)
  unfolding lookup put
  lookup-put k j v m = ground (arith, lookup-erase k j m)

  pub lookup-put_self : (k : ℕ) (v : V) (m : Map V) → lookup k (put k v m) ≡ some v
  lookup-put_self k v m = rw (lookup-put k k v m, ==_refl k)

  pub lookup-erase_self : (k : ℕ) (m : Map V) → lookup k (erase k m) ≡ none
  lookup-erase_self k m = rw (lookup-erase k k m, ==_refl k)

  pub Distinct-erase : (k : ℕ) (m : Map V) → Distinct m → Distinct (erase k m)
  unfolding erase
  Distinct-erase k [] d = tt
  Distinct-erase k ((j, v) ∷ m) d = ground (arith, Distinct-erase k m d.1, lookup-erase k j m)

  pub Distinct-put : (k : ℕ) (v : V) (m : Map V) → Distinct m → Distinct (put k v m)
  unfolding put
  Distinct-put k v m d = (lookup-erase_self k m, Distinct-erase k m d)

  pub erase-none : (k : ℕ) (m : Map V) → lookup k m ≡ none → erase k m ≡ m
  unfolding lookup erase
  erase-none k [] h = refl
  erase-none k ((j, v) ∷ m) h = ground (arith, erase-none k m)

  pub emplace-none : (k : ℕ) (v : V) (m : Map V) → lookup k m ≡ none → emplace k v m ≡ (k, v) ∷ m
  unfolding emplace
  emplace-none k v m h = rw (h, has)

  -- An entry that is there stays.
  pub lookup-emplace_old :
      (k j : ℕ) (v w : V) (m : Map V) → lookup j m ≡ some v → lookup j (emplace k w m) ≡ some v
  unfolding emplace has lookup
  lookup-emplace_old k j v w m h = ground (arith)

  pub erase-emplace : (k : ℕ) (v : V) (m : Map V) → lookup k m ≡ none → erase k (emplace k v m) ≡ m
  unfolding erase
  erase-emplace k v m h = rw (emplace-none k v m h, ==_refl k) (erase-none k m h)

  pub has-none : (k : ℕ) (m : Map V) → has k m ≡ false → lookup k m ≡ none
  unfolding has
  has-none k m h = ground arith

  pub has-some : (k : ℕ) (m : Map V) → has k m ≡ true → (v : V) × (lookup k m ≡ some v)
  unfolding has
  has-some k m h = ground arith

  -- The sum of `f` over the values.
  abbrev pub total : (V → ℕ) → Map V → ℕ
  total f [] = 0
  total f ((k, v) ∷ m) = f v + total f m

  pub total-erase :
      (f : V → ℕ) (k : ℕ) (v : V) (m : Map V)
      → Distinct m
      → lookup k m ≡ some v
      → total f m ≡ f v + total f (erase k m)
  unfolding lookup erase
  total-erase f k v [] d h = cc
  total-erase f k v ((j, w) ∷ m) d h = ground (arith, total-erase f k v m d.1, erase-none j m d.0)

  pub total-put :
      (f : V → ℕ) (k : ℕ) (v w : V) (m : Map V)
      → Distinct m
      → lookup k m ≡ some v
      → total f (put k w m) + f v ≡ f w + total f m
  unfolding put
  total-put f k v w m d h = omega (arith, total-erase f k v m d h)

  pub length-erase :
      (k : ℕ) (v : V) (m : Map V)
      → Distinct m
      → lookup k m ≡ some v
      → length m ≡ suc (length (erase k m))
  unfolding lookup erase
  length-erase k v [] d h = cc
  length-erase k v ((j, w) ∷ m) d h = ground (arith, length-erase k v m d.1, erase-none j m d.0)

pub ruleset map_laws = (lookup-put, lookup-erase)
