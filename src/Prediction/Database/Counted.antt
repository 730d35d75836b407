-- ===== src/Prediction/Database/Counted.antt =====
-- The counters of src/prediction/TransitionDatabase.cpp against the calls.
use hypermoe_engine.Base.{
  ℕ, ◌+◌, ◌*◌, ◌%◌, ◌≡◌, refl, sym, ◌∙◌, Bool, true, false, Option, none, some, List, [], ◌∷◌,
  arith, ◌==◌, if◌then◌else◌, Bool-cases, inl, inr,
}
use hypermoe_engine.Base.Word.{modulus64}
use hypermoe_engine.Base.Outcome.{ok}
use hypermoe_engine.Base.Map.{lookup, lookup-put, lookup-erase}
use hypermoe_engine.Prediction.Counts.{Counters, count, occurrences, count-increment_all}
use hypermoe_engine.Prediction.Selections.{
  ExpertSelection, ExpertTransition, RouterDecision, same_selection, transition, valid, current,
  ordered_pair, transitions_of, pairs_of, selection_key, transition_key, pair_key,
}
use hypermoe_engine.Prediction.Selections.Pairs.{occurrences-transitions_of, occurrences-pairs_of}
use hypermoe_engine.Prediction.Database.{
  TransitionDatabase, make, note, end_stream, frequency_of, transition_count, cooccurrence_count,
  count_transitions,
}
use hypermoe_engine.Prediction.Database.Calls.{
  Call, recorded, ended, replay, decisions, last_of, selected, together, followed, replay_induction,
}
use native.Mathlib.Nat.{zero-mul}

found : Option (List ExpertSelection) → List ExpertSelection
found none = []
found (some now) = now

count-count_transitions :
    (f t : ExpertSelection) (before : Option (List ExpertSelection)) (now : List ExpertSelection)
    (m : Counters ExpertTransition) (n : ℕ)
    → count (transition f t) m ≡ n % modulus64
    → count (transition f t) (count_transitions before now m)
      ≡ (n + occurrences f (found before) * occurrences t now) % modulus64
unfolding count_transitions found occurrences
count-count_transitions f t none now m n h = h ∙ omega (arith, zero-mul (occurrences t now))
count-count_transitions f t (some b) now m n h =
    count-increment_all (transition f t) (transitions_of b now) m n h
    ∙ rw (occurrences-transitions_of f t b now) refl

-- What the database holds after the calls.
record Counted (cs : List Call) (d : TransitionDatabase) : Type 0 where
  previous : (s : ℕ) → found (lookup s d.previous_by_stream) ≡ last_of s cs
  frequencies : (e : ExpertSelection) → count e d.frequency ≡ selected e (decisions cs) % modulus64
  transitions :
      (f t : ExpertSelection) → count (transition f t) d.transitions ≡ followed f t cs % modulus64
  pairs :
      (a b : ExpertSelection)
      → same_selection a b ≡ false
      → count (ordered_pair a b) d.cooccurrence ≡ together a b (decisions cs) % modulus64

make-Counted :
    (window : ℕ) (decays : Bool) (d : TransitionDatabase) → make window decays ≡ ok d → Counted [] d
unfolding make found lookup count
make-Counted window decays d h = record {
  previous = λ s. ground arith;
  frequencies = λ e. ground arith;
  transitions = λ f t. ground arith;
  pairs = λ a b k. ground arith;
}

note-Counted :
    (cs : List Call) (decision : RouterDecision) (stream : ℕ) (d : TransitionDatabase)
    → valid decision ≡ true
    → Counted cs d
    → Counted (recorded decision stream ∷ cs) (note stream (current decision) d)
unfolding note found
note-Counted cs decision stream d v p = record {
  previous = λ s.
      rw (v, lookup-put stream s (current decision) d.previous_by_stream)
        (elim (Bool-cases (stream == s)) [ inl e ↦ rw e refl | inr e ↦ rw e (p.previous s) ]);
  frequencies = λ e. rw v (
      count-increment_all e (current decision) d.frequency (selected e (decisions cs))
        (p.frequencies e)
      ∙ omega arith);
  transitions = λ f t.
      rw (v, sym (p.previous stream))
        (count-count_transitions f t (lookup stream d.previous_by_stream) (current decision)
            d.transitions (followed f t cs) (p.transitions f t)
          ∙ omega arith);
  pairs = λ a b ne.
      rw (v, sym (occurrences-pairs_of a b (current decision) ne))
        (count-increment_all (ordered_pair a b) (pairs_of (current decision)) d.cooccurrence
            (together a b (decisions cs)) (p.pairs a b ne)
          ∙ omega arith);
}

end_stream-Counted :
    (cs : List Call) (stream : ℕ) (d : TransitionDatabase)
    → Counted cs d
    → Counted (ended stream ∷ cs) (end_stream stream d)
unfolding end_stream found
end_stream-Counted cs stream d p = record {
  previous = λ s.
      rw (lookup-erase stream s d.previous_by_stream)
        (elim (Bool-cases (stream == s)) [ inl e ↦ rw e refl | inr e ↦ rw e (p.previous s) ]);
  frequencies = p.frequencies;
  transitions = p.transitions;
  pairs = p.pairs;
}

skipped-Counted :
    (cs : List Call) (decision : RouterDecision) (stream : ℕ) (d : TransitionDatabase)
    → valid decision ≡ false
    → Counted cs d
    → Counted (recorded decision stream ∷ cs) d
skipped-Counted cs decision stream d v p = record {
  previous = λ s. rw v (p.previous s);
  frequencies = λ e. rw v (p.frequencies e);
  transitions = λ f t. rw v (p.transitions f t);
  pairs = λ a b ne. rw v (p.pairs a b ne);
}

replay-Counted : (cs : List Call) {d : TransitionDatabase} → Counted [] d → Counted cs (replay cs d)
replay-Counted cs k = replay_induction Counted note-Counted skipped-Counted end_stream-Counted cs k

-- After any calls on a new database, whether they return or throw, each counter is what the valid
-- decisions make it, modulo 2^64: an expert counts as often as it was selected, a transition as often
-- as a decision selected its first expert and the next one of that stream, not ended in between, its
-- second, and a pair of two experts as often as one decision selected both, in either order.
pub replay_counted :
    (window : ℕ) (decays : Bool) (d : TransitionDatabase) (cs : List Call) (a b : ExpertSelection)
    → make window decays ≡ ok d
    → (frequency_of a (replay cs d) ≡ selected a (decisions cs) % modulus64)
      × (transition_count a b (replay cs d) ≡ followed a b cs % modulus64)
      × (cooccurrence_count a b (replay cs d)
          ≡ (if same_selection a b then 0 else together a b (decisions cs) % modulus64))
unfolding frequency_of transition_count cooccurrence_count
replay_counted window decays d cs a b h =
    let p = replay-Counted cs (make-Counted window decays d h) in
    (
      p.frequencies a,
      p.transitions a b,
      elim (Bool-cases (same_selection a b)) [ inl e ↦ rw e refl | inr e ↦ rw e (p.pairs a b e) ],
    )
