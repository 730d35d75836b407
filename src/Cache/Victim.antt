-- ===== src/Cache/Victim.antt =====
-- What `selectVictim` is to compute: the first of the candidates that are not excluded, in a strict
-- order. The loops of the policies are proved equal to `pick`.
use hypermoe_engine.Base.{
  ℕ, ◌≡◌, refl, ap, subst, ◌⊎◌, inl, inr, Bool, true, false, Option, none, some, List, [], ◌∷◌,
  if◌then◌else◌, contains, Member, here, there, Bool-cases,
}

module _ (before : ℕ → ℕ → Bool) where
  unfoldable pub better : Option ℕ → ℕ → Option ℕ
  better none id = some id
  better (some v) id = if before id v then some id else some v

  unfoldable pub pick : List ℕ → List ℕ → Option ℕ → Option ℕ
  unfolding better
  pick excluded [] best = best
  pick excluded (id ∷ ids) best =
      pick excluded ids (if contains id excluded then best else better best id)

  -- A strict linear order.
  pub record IsOrder : Type 0 where
    pub irrefl : (a : ℕ) → before a a ≡ false
    pub cotrans : (a b c : ℕ) → before a b ≡ false → before b c ≡ false → before a c ≡ false
    pub asym : (a b : ℕ) → before a b ≡ true → before b a ≡ false
    pub total : (a b : ℕ) → before a b ≡ false → before b a ≡ false → a ≡ b

  -- `v` may be evicted, and no candidate that may be comes before it.
  pub record IsVictim (excluded candidates : List ℕ) (v : ℕ) : Type 0 where
    pub candidate : Member v candidates
    pub allowed : contains v excluded ≡ false
    pub least : (c : ℕ) → Member c candidates → contains c excluded ≡ false → before c v ≡ false

  -- `best` is right for the candidates that have been read.
  abbrev Best : List ℕ → List ℕ → Option ℕ → Type 0
  Best excluded seen none = (c : ℕ) → Member c seen → contains c excluded ≡ true
  Best excluded seen (some v) = IsVictim excluded seen v

onto : List ℕ → List ℕ → List ℕ
onto [] seen = seen
onto (id ∷ ids) seen = onto ids (id ∷ seen)

onto-seen : (ids seen : List ℕ) (c : ℕ) → Member c seen → Member c (onto ids seen)
unfolding onto
onto-seen [] seen c m = m
onto-seen (id ∷ ids) seen c m = onto-seen ids (id ∷ seen) c (there m)

onto-ids : (ids seen : List ℕ) (c : ℕ) → Member c ids → Member c (onto ids seen)
unfolding onto
onto-ids [] seen c m = elim m [ ]
onto-ids (id ∷ ids) seen c here = onto-seen ids (id ∷ seen) c here
onto-ids (id ∷ ids) seen c (there m) = onto-ids ids (id ∷ seen) c m

regroup :
    (id : ℕ) (ids seen : List ℕ) (c : ℕ)
    → Member c ids ⊎ Member c (id ∷ seen)
    → Member c (id ∷ ids) ⊎ Member c seen
regroup id ids seen c (inl k) = inl (there k)
regroup id ids seen c (inr here) = inl here
regroup id ids seen c (inr (there k)) = inr k

onto-Member : (ids seen : List ℕ) (c : ℕ) → Member c (onto ids seen) → Member c ids ⊎ Member c seen
unfolding onto
onto-Member [] seen c m = inr m
onto-Member (id ∷ ids) seen c m = regroup id ids seen c (onto-Member ids (id ∷ seen) c m)

onto-nil : (ids : List ℕ) (c : ℕ) → Member c (onto ids []) → Member c ids
onto-nil ids c m = elim (onto-Member ids [] c m) [ inl k ↦ k | inr k ↦ none_there c k ]
  where
    none_there : (c : ℕ) → Member c [] → Member c ids
    none_there c k = elim k [ ]

module _ {before : ℕ → ℕ → Bool} (o : IsOrder before) where
  -- More candidates have been read before: `seen` grows at its head.
  skip :
      (excluded seen : List ℕ) (id : ℕ) (best : Option ℕ)
      → contains id excluded ≡ true
      → Best before excluded seen best
      → Best before excluded (id ∷ seen) best
  skip excluded seen id none e b = go
    where
      go : (c : ℕ) → Member c (id ∷ seen) → contains c excluded ≡ true
      go c here = e
      go c (there m) = b c m
  skip excluded seen id (some v) e b = record {
    candidate = there b.candidate;
    allowed = b.allowed;
    least = go;
  }
    where
      go : (c : ℕ) → Member c (id ∷ seen) → contains c excluded ≡ false → before c v ≡ false
      go c here n = cc
      go c (there m) n = b.least c m n

  -- The new candidate comes first, or there was none.
  take_new :
      (excluded seen : List ℕ) (id : ℕ)
      → contains id excluded ≡ false
      → ((c : ℕ) → Member c seen → contains c excluded ≡ false → before c id ≡ false)
      → IsVictim before excluded (id ∷ seen) id
  take_new excluded seen id n h = record { candidate = here; allowed = n; least = go }
    where
      go : (c : ℕ) → Member c (id ∷ seen) → contains c excluded ≡ false → before c id ≡ false
      go c here n' = o.irrefl c
      go c (there m) n' = h c m n'

  keep_old :
      (excluded seen : List ℕ) (id v : ℕ)
      → before id v ≡ false
      → IsVictim before excluded seen v
      → IsVictim before excluded (id ∷ seen) v
  keep_old excluded seen id v n b = record {
    candidate = there b.candidate;
    allowed = b.allowed;
    least = go;
  }
    where
      go : (c : ℕ) → Member c (id ∷ seen) → contains c excluded ≡ false → before c v ≡ false
      go c here n' = n
      go c (there m) n' = b.least c m n'

  consider :
      (excluded seen : List ℕ) (id : ℕ) (best : Option ℕ)
      → Best before excluded seen best
      → Best before excluded
          (id ∷ seen)
          (if contains id excluded then best else better before best id)
  unfolding better
  consider excluded seen id best b = elim (Bool-cases (contains id excluded)) [
    | inl e ↦ rw e (skip excluded seen id best e b)
    | inr n ↦ rw n (go best b n)
  ]
    where
      go :
          (best : Option ℕ)
          → Best before excluded seen best
          → contains id excluded ≡ false
          → Best before excluded (id ∷ seen) (better before best id)
      go none b n = take_new excluded seen id n λ c m n'. cc (b c m)
      go (some v) b n = elim (Bool-cases (before id v)) [
        | inl first ↦ rw first (
            take_new excluded seen id n
              (λ c m n'. o.cotrans c v id (b.least c m n') (o.asym id v first)))
        | inr later ↦ rw later (keep_old excluded seen id v later b)
      ]

  pick-Best :
      (excluded seen ids : List ℕ) (best : Option ℕ)
      → Best before excluded seen best
      → Best before excluded (onto ids seen) (pick before excluded ids best)
  unfolding pick onto
  pick-Best excluded seen [] best b = b
  pick-Best excluded seen (id ∷ ids) best b =
      pick-Best excluded (id ∷ seen) ids _ (consider excluded seen id best b)

  same_members :
      (excluded : List ℕ) (xs ys : List ℕ) (best : Option ℕ)
      → ((c : ℕ) → Member c xs → Member c ys)
      → ((c : ℕ) → Member c ys → Member c xs)
      → Best before excluded xs best
      → Best before excluded ys best
  same_members excluded xs ys none f g b = λ c m n. b c (g c m) n
  same_members excluded xs ys (some v) f g b = record {
    candidate = f v b.candidate;
    allowed = b.allowed;
    least = λ c m n. b.least c (g c m) n;
  }

  pick_lem : (excluded ids : List ℕ) → Best before excluded ids (pick before excluded ids none)
  pick_lem excluded ids =
      same_members excluded (onto ids []) ids _ (onto-nil ids) (onto-ids ids [])
        (pick-Best excluded [] ids none (λ c m. elim m [ ]))

  -- `pick` returns the first candidate that is not excluded.
  pub pick-IsVictim :
      (excluded ids : List ℕ) (v : ℕ)
      → pick before excluded ids none ≡ some v
      → IsVictim before excluded ids v
  pick-IsVictim excluded ids v e = subst (Best before excluded ids) e (pick_lem excluded ids)

  -- It returns nothing only if all are excluded.
  pub pick-none :
      (excluded ids : List ℕ)
      → pick before excluded ids none ≡ none
      → (c : ℕ) → Member c ids
      → contains c excluded ≡ true
  pick-none excluded ids e = subst (Best before excluded ids) e (pick_lem excluded ids)

  -- There is one victim at most.
  pub IsVictim-unique :
      (excluded ids : List ℕ) (v w : ℕ)
      → IsVictim before excluded ids v
      → IsVictim before excluded ids w
      → v ≡ w
  IsVictim-unique excluded ids v w a b =
      o.total v w (b.least v a.candidate a.allowed) (a.least w b.candidate b.allowed)

  -- So the victim does not depend on the order in which the candidates stand.
  pub pick-same :
      (excluded xs ys : List ℕ)
      → ((c : ℕ) → Member c xs → Member c ys)
      → ((c : ℕ) → Member c ys → Member c xs)
      → pick before excluded xs none ≡ pick before excluded ys none
  pick-same excluded xs ys f g =
      go (pick before excluded xs none) (pick before excluded ys none)
        (same_members excluded xs ys _ f g (pick_lem excluded xs)) (pick_lem excluded ys)
    where
      go : (a b : Option ℕ) → Best before excluded ys a → Best before excluded ys b → a ≡ b
      go none none p q = refl
      go none (some w) p q = cc (p w q.candidate, q.allowed)
      go (some v) none p q = cc (q v p.candidate, p.allowed)
      go (some v) (some w) p q = ap some (IsVictim-unique excluded ys v w p q)
