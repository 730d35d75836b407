-- ===== src/Prediction/Counts.antt =====
-- Counters kept in an `unordered_map`, as src/prediction keeps them, with keys of any type. A key
-- that is not there counts zero.
use hypermoe_engine.Base.{
  ℕ, ◌+◌, ◌%◌, ◌≡◌, ◌↔◌, refl, sym, ap, ◌∙◌, Bool, true, false, List, [], ◌∷◌, ◌++◌, arith,
  if◌then◌else◌, Bool-cases, inl, inr,
}
use hypermoe_engine.Base.Word.{modulus64, add64, add64_exact}

-- `operator==` of a key.
pub record Key (K : Type 0) : Type 0 where
  pub same : K → K → Bool
  pub same_iff : (j k : K) → (same j k ≡ true) ↔ (j ≡ k)

abbrev pub Counters : Type 0 → Type 0
Counters K = List (K × ℕ)

module _ {K : Type 0} ⦃key : Key K⦄ where
  -- `++counters[k]`
  unfoldable pub increment : K → Counters K → Counters K
  unfolding add64
  increment k [] = (k, 1) ∷ []
  increment k ((j, n) ∷ m) =
      let rest = increment k m in if key.same j k then (j, add64 n 1) ∷ m else (j, n) ∷ rest

  unfoldable pub increment_all : List K → Counters K → Counters K
  unfolding increment
  increment_all [] m = m
  increment_all (k ∷ ks) m = increment_all ks (increment k m)

  -- What `find` leads to, or zero.
  unfoldable pub count : K → Counters K → ℕ
  count k [] = 0
  count k ((j, n) ∷ m) = let rest = count k m in if key.same j k then n else rest

  -- How often a key stands in a list.
  unfoldable pub occurrences : K → List K → ℕ
  occurrences k [] = 0
  occurrences k (j ∷ js) = let rest = occurrences k js in if key.same j k then 1 + rest else rest

  pub same_self : (k : K) → key.same k k ≡ true
  same_self k = (key.same_iff k k).1 refl

  pub same_trans : (i j k : K) → key.same i j ≡ true → key.same i k ≡ key.same j k
  same_trans i j k h = ap (λ (x : K). key.same x k) ((key.same_iff i j).0 h)

  same_apart : (i j k : K) → key.same i j ≡ false → key.same i k ≡ true → key.same j k ≡ false
  same_apart i j k h e = elim (Bool-cases (key.same j k)) [
    | inl f ↦
        let both : key.same i j ≡ true =
          (key.same_iff i j).1 ((key.same_iff i k).0 e ∙ sym ((key.same_iff j k).0 f)) in
        absurd (cc)
    | inr f ↦ f
  ]

  -- With `add64` shut.
  count-increment :
      (k j : K) (m : Counters K)
      → count k (increment j m) ≡ (if key.same j k then add64 (count k m) 1 else count k m)
  unfolding count increment
  count-increment k j [] = elim (Bool-cases (key.same j k)) [
    | inl h ↦ rw h (ground (arith, add64_exact 0 1 (omega arith)))
    | inr h ↦ rw h refl
  ]
  count-increment k j ((i, n) ∷ m) = elim (Bool-cases (key.same i j)) [
    | inl h ↦ elim (Bool-cases (key.same j k)) [
      | inl e ↦ rw (h, same_trans i j k h, e) refl
      | inr e ↦ rw (h, same_trans i j k h, e) refl
    ]
    | inr h ↦ elim (Bool-cases (key.same i k)) [
      | inl e ↦ rw (h, e, same_apart i j k h e) refl
      | inr e ↦ rw (h, e) (count-increment k j m)
    ]
  ]

  -- Counters that count as many modulo 2^64.
  pub count-increment_all :
      (k : K) (ks : List K) (m : Counters K) (n : ℕ)
      → count k m ≡ n % modulus64
      → count k (increment_all ks m) ≡ (n + occurrences k ks) % modulus64
  unfolding increment_all occurrences add64
  count-increment_all k [] m n h = omega (arith, h)
  count-increment_all k (j ∷ js) m n h = elim (Bool-cases (key.same j k)) [
    | inl e ↦ rw e (
        count-increment_all k js (increment j m) (n + 1)
          (count-increment k j m ∙ rw e (omega (arith, h)))
        ∙ omega arith)
    | inr e ↦ rw e (count-increment_all k js (increment j m) n (count-increment k j m ∙ rw e h))
  ]

  pub occurrences-append :
      (k : K) (xs ys : List K) → occurrences k (xs ++ ys) ≡ occurrences k xs + occurrences k ys
  unfolding occurrences
  occurrences-append k [] ys = omega arith
  occurrences-append k (x ∷ xs) ys = ground (arith, occurrences-append k xs ys)
