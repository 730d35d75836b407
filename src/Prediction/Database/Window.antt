-- ===== src/Prediction/Database/Window.antt =====
-- The last decisions that a TransitionDatabase of src/prediction/TransitionDatabase.cpp keeps.
use hypermoe_engine.Base.{
  ℕ, zero, suc, ◌%◌, ◌≡◌, refl, sym, ap, ◌∙◌, Bool, true, false, List, [], ◌∷◌, ◌++◌, arith, length,
  length-append, take,
}
use hypermoe_engine.Base.Word.{modulus64, add64}
use hypermoe_engine.Base.Outcome.{ok}
use hypermoe_engine.Prediction.Selections.{ExpertSelection, RouterDecision, valid, current}
use hypermoe_engine.Prediction.Database.{TransitionDatabase, make, note, trim, end_stream}
use hypermoe_engine.Prediction.Database.Calls.{
  Call, recorded, ended, replay, decisions, replay_induction,
}
use mathlib.Core.List.{reverse, reverse-cons}

module _ {ℓ} {A : Type ℓ} where
  trim-append_one :
      (n : ℕ) (xs : List A) (x : A) → trim (suc n) (xs ++ x ∷ []) ≡ trim n xs ++ x ∷ []
  unfolding trim
  trim-append_one n [] x = ground arith
  trim-append_one n (y ∷ ys) x = ground (arith, trim-append_one n ys x, length-append ys (x ∷ []))

  trim-zero : (xs : List A) → trim 0 xs ≡ []
  unfolding trim
  trim-zero [] = refl
  trim-zero (x ∷ xs) = ground (arith, trim-zero xs)

  trim-reverse : (n : ℕ) (xs : List A) → trim n (reverse xs) ≡ reverse (take n xs)
  unfolding trim
  trim-reverse zero xs = trim-zero (reverse xs)
  trim-reverse (suc n) [] = refl
  trim-reverse (suc n) (x ∷ xs) =
      rw (reverse-cons x xs, trim-append_one n (reverse xs) x, trim-reverse n xs)
        (sym (reverse-cons x (take n xs)))

  take-nil : (n : ℕ) → ◌≡◌ {A = List A} (take n []) []
  take-nil zero = refl
  take-nil (suc n) = refl

  take-take : (n : ℕ) (x : A) (xs : List A) → take n (x ∷ take n xs) ≡ take n (x ∷ xs)
  take-take zero x xs = refl
  take-take (suc n) x xs = ap (λ (ys : List A). x ∷ ys) (once n xs)
    where
      once : (n : ℕ) (xs : List A) → take n (take (suc n) xs) ≡ take n xs
      once zero xs = refl
      once (suc n) [] = refl
      once (suc n) (x ∷ xs) = ap (λ (ys : List A). x ∷ ys) (once n xs)

-- What the database keeps of the decisions.
record Kept (window : ℕ) (cs : List Call) (d : TransitionDatabase) : Type 0 where
  bounded : d.recent_window ≡ window
  newest : d.recent ≡ reverse (take window (decisions cs))
  counted : d.observations ≡ length (decisions cs) % modulus64

note-Kept :
    (window : ℕ) (cs : List Call) (decision : RouterDecision) (stream : ℕ) (d : TransitionDatabase)
    → valid decision ≡ true
    → Kept window cs d
    → Kept window (recorded decision stream ∷ cs) (note stream (current decision) d)
unfolding note add64
note-Kept window cs decision stream d v k =
    let now = current decision in
    let older = decisions cs in
    record {
      bounded = k.bounded;
      newest =
          rw (v, k.bounded, k.newest, sym (reverse-cons now (take window older)))
            (trim-reverse window (now ∷ take window older)
              ∙ ap (λ (ds : List (List ExpertSelection)). reverse ds) (take-take window now older));
      counted = rw v (omega (arith, k.counted));
    }

skipped-Kept :
    (window : ℕ) (cs : List Call) (decision : RouterDecision) (stream : ℕ) (d : TransitionDatabase)
    → valid decision ≡ false
    → Kept window cs d
    → Kept window (recorded decision stream ∷ cs) d
skipped-Kept window cs decision stream d v k = record {
  bounded = k.bounded;
  newest = rw v k.newest;
  counted = rw v k.counted;
}

end_stream-Kept :
    (window : ℕ) (cs : List Call) (stream : ℕ) (d : TransitionDatabase)
    → Kept window cs d
    → Kept window (ended stream ∷ cs) (end_stream stream d)
unfolding end_stream
end_stream-Kept window cs stream d k = record {
  bounded = k.bounded;
  newest = k.newest;
  counted = k.counted;
}

make-Kept :
    (window : ℕ) (decays : Bool) (d : TransitionDatabase)
    → make window decays ≡ ok d
    → Kept window [] d
unfolding make
make-Kept window decays d h = record {
  bounded = ground arith;
  newest = ground (arith, take-nil {A = List ExpertSelection} window);
  counted = ground arith;
}

-- After any calls on a new database, whether they return or throw, `recent` holds the last valid
-- decisions, as many as the window has room for, from the oldest to the newest, and `observations` is
-- their number, modulo 2^64.
pub replay-recent :
    (window : ℕ) (decays : Bool) (d : TransitionDatabase) (cs : List Call)
    → make window decays ≡ ok d
    → ((replay cs d).recent ≡ reverse (take window (decisions cs)))
      × ((replay cs d).observations ≡ length (decisions cs) % modulus64)
replay-recent window decays d cs h =
    let k =
      replay_induction (Kept window) (note-Kept window) (skipped-Kept window)
        (end_stream-Kept window) cs (make-Kept window decays d h) in
    (k.newest, k.counted)
