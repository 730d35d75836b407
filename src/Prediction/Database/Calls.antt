-- ===== src/Prediction/Database/Calls.antt =====
-- Histories of calls of a TransitionDatabase of src/prediction/TransitionDatabase.cpp, newest first, and
-- what they select, read from the calls alone.
use hypermoe_engine.Base.{
  ℕ, ◌+◌, ◌*◌, ◌==◌, ◌≡◌, refl, sym, subst, Bool-cases, inl, inr, true, false, List, [], ◌∷◌,
  if◌then◌else◌,
}
use hypermoe_engine.Prediction.Counts.{occurrences}
use hypermoe_engine.Prediction.Selections.{
  ExpertSelection, RouterDecision, valid, current, selection_key,
}
use hypermoe_engine.Prediction.Database.{TransitionDatabase, note, record_decision, end_stream}

pub data Call : Type 0 where
  recorded : RouterDecision → ℕ → Call
  ended : ℕ → Call

-- The database after the calls, whether they return or throw.
abbrev pub perform : Call → TransitionDatabase → TransitionDatabase
perform (recorded decision stream) d = (record_decision decision stream d).1
perform (ended stream) d = end_stream stream d

abbrev pub replay : List Call → TransitionDatabase → TransitionDatabase
replay [] d = d
replay (c ∷ cs) d = perform c (replay cs d)

-- The valid decisions, newest first.
abbrev pub decisions : List Call → List (List ExpertSelection)
decisions [] = []
decisions (recorded decision stream ∷ cs) =
    let rest = decisions cs in if valid decision then current decision ∷ rest else rest
decisions (ended stream ∷ cs) = decisions cs

-- What the stream selected last, unless it was ended since.
abbrev pub last_of : ℕ → List Call → List ExpertSelection
last_of stream [] = []
last_of stream (recorded decision s ∷ cs) =
    let rest = last_of stream cs in
    if valid decision then if s == stream then current decision else rest else rest
last_of stream (ended s ∷ cs) = let rest = last_of stream cs in if s == stream then [] else rest

-- How often an expert is selected, over all decisions.
abbrev pub selected : ExpertSelection → List (List ExpertSelection) → ℕ
selected e [] = 0
selected e (d ∷ ds) = occurrences e d + selected e ds

-- How often two experts are selected together.
abbrev pub together : ExpertSelection → ExpertSelection → List (List ExpertSelection) → ℕ
together a b [] = 0
together a b (d ∷ ds) = occurrences a d * occurrences b d + together a b ds

-- How often a decision of a stream selects `from` and the next one of that stream `to`.
abbrev pub followed : ExpertSelection → ExpertSelection → List Call → ℕ
followed from to [] = 0
followed from to (recorded decision stream ∷ cs) =
    let rest = followed from to cs in
    if valid decision
    then occurrences from (last_of stream cs) * occurrences to (current decision) + rest
    else rest
followed from to (ended stream ∷ cs) = followed from to cs

recorded_valid :
    (decision : RouterDecision) (stream : ℕ) (d : TransitionDatabase)
    → valid decision ≡ true
    → (record_decision decision stream d).1 ≡ note stream (current decision) d
unfolding record_decision
recorded_valid decision stream d v = rw v refl

recorded_invalid :
    (decision : RouterDecision) (stream : ℕ) (d : TransitionDatabase)
    → valid decision ≡ false
    → (record_decision decision stream d).1 ≡ d
unfolding record_decision
recorded_invalid decision stream d v = rw v refl

-- What holds at the start and is kept by each call holds after any calls.
pub replay_induction {ℓ} :
    (P : List Call → TransitionDatabase → Type ℓ)
    → ((cs : List Call) (decision : RouterDecision) (stream : ℕ) (d : TransitionDatabase)
        → valid decision ≡ true
        → P cs d
        → P (recorded decision stream ∷ cs) (note stream (current decision) d))
    → ((cs : List Call) (decision : RouterDecision) (stream : ℕ) (d : TransitionDatabase)
        → valid decision ≡ false
        → P cs d
        → P (recorded decision stream ∷ cs) d)
    → ((cs : List Call) (stream : ℕ) (d : TransitionDatabase)
        → P cs d
        → P (ended stream ∷ cs) (end_stream stream d))
    → (cs : List Call) {d : TransitionDatabase} → P [] d
    → P cs (replay cs d)
replay_induction P noted skipped closed [] k = k
replay_induction P noted skipped closed (recorded decision stream ∷ cs) {d} k =
    let rest = replay_induction P noted skipped closed cs k in
    elim (Bool-cases (valid decision)) [
      | inl v ↦
          subst (P (recorded decision stream ∷ cs))
            (sym (recorded_valid decision stream (replay cs d) v))
            (noted cs decision stream (replay cs d) v rest)
      | inr v ↦
          subst (P (recorded decision stream ∷ cs))
            (sym (recorded_invalid decision stream (replay cs d) v))
            (skipped cs decision stream (replay cs d) v rest)
    ]
replay_induction P noted skipped closed (ended stream ∷ cs) {d} k =
    closed cs stream (replay cs d) (replay_induction P noted skipped closed cs k)
