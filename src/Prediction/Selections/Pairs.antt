-- ===== src/Prediction/Selections/Pairs.antt =====
-- How often the loops of src/prediction/TransitionDatabase.cpp count a transition and a pair.
use hypermoe_engine.Base.{
  ℕ, ◌+◌, ◌*◌, ◌≡◌, refl, ap, ◌∙◌, true, false, ◌&&◌, ◌||◌, List, [], ◌∷◌, map, arith,
  if◌then◌else◌, Bool-cases, inl, inr,
}
use hypermoe_engine.Prediction.Counts.{occurrences, occurrences-append}
use hypermoe_engine.Prediction.Selections.{
  ExpertSelection, transition, same_selection, same_pair, selection_key, transition_key, pair_key,
  less, ordered_pair, transitions_of, pairs_of,
}
use native.Mathlib.Nat.{add-mul, one-mul, mul-add, mul-one, zero-mul}

transitions_from :
    (f t g : ExpertSelection) (ts : List ExpertSelection)
    → occurrences (transition f t) (map (transition g) ts)
      ≡ (if same_selection g f then occurrences t ts else 0)
unfolding occurrences
transitions_from f t g [] = ground arith
transitions_from f t g (x ∷ xs) = elim (Bool-cases (same_selection g f)) [
  | inl h ↦ rw h (
      ap (λ (n : ℕ). if same_selection x t then 1 + n else n)
        (transitions_from f t g xs ∙ rw h refl))
  | inr h ↦ rw h (transitions_from f t g xs ∙ rw h refl)
]

pub occurrences-transitions_of :
    (f t : ExpertSelection) (fs ts : List ExpertSelection)
    → occurrences (transition f t) (transitions_of fs ts) ≡ occurrences f fs * occurrences t ts
unfolding transitions_of occurrences
occurrences-transitions_of f t [] ts = omega (arith, zero-mul (occurrences t ts))
occurrences-transitions_of f t (g ∷ fs) ts =
    occurrences-append (transition f t) (map (transition g) ts) (transitions_of fs ts)
    ∙ rw (transitions_from f t g ts, occurrences-transitions_of f t fs ts)
        (elim (Bool-cases (same_selection g f)) [
          | inl h ↦ rw h (
              omega (
                arith,
                add-mul 1 (occurrences f fs) (occurrences t ts),
                one-mul (occurrences t ts),
              ))
          | inr h ↦ rw h (omega arith)
        ])

same_ordered :
    (x y a b : ExpertSelection)
    → same_pair (ordered_pair x y) (ordered_pair a b)
      ≡ (same_selection x a && same_selection y b || same_selection x b && same_selection y a)
unfolding ordered_pair less
same_ordered x y a b = ground arith

-- The pairs with one partner.
pairs_with :
    (x a b : ExpertSelection) (ys : List ExpertSelection)
    → same_selection a b ≡ false
    → occurrences (ordered_pair a b) (map (ordered_pair x) ys) ≡ (
        if same_selection x a
        then occurrences b ys
        else if same_selection x b
        then occurrences a ys
        else 0)
unfolding occurrences
pairs_with x a b [] h = ground arith
pairs_with x a b (y ∷ ys) h = rw (same_ordered x y a b) (ground (arith, pairs_with x a b ys h))

same_apart :
    (x a b : ExpertSelection)
    → same_selection x a ≡ true
    → same_selection a b ≡ false
    → same_selection x b ≡ false
same_apart x a b e h = ground arith

pub occurrences-pairs_of :
    (a b : ExpertSelection) (xs : List ExpertSelection)
    → same_selection a b ≡ false
    → occurrences (ordered_pair a b) (pairs_of xs) ≡ occurrences a xs * occurrences b xs
unfolding pairs_of occurrences
occurrences-pairs_of a b [] h = omega arith
occurrences-pairs_of a b (x ∷ xs) h =
    occurrences-append (ordered_pair a b) (map (ordered_pair x) xs) (pairs_of xs)
    ∙ rw (pairs_with x a b xs h, occurrences-pairs_of a b xs h)
        (elim (Bool-cases (same_selection x a)) [
          | inl e ↦
              rw (e, same_apart x a b e h)
                (omega (
                  arith,
                  add-mul 1 (occurrences a xs) (occurrences b xs),
                  one-mul (occurrences b xs),
                ))
          | inr e ↦ elim (Bool-cases (same_selection x b)) [
            | inl f ↦
                rw (e, f)
                  (omega (
                    arith,
                    mul-add (occurrences a xs) 1 (occurrences b xs),
                    mul-one (occurrences a xs),
                  ))
            | inr f ↦ rw (e, f) (omega arith)
          ]
        ])
