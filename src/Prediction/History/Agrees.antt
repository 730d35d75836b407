-- ===== src/Prediction/History/Agrees.antt =====
-- src/prediction/ExpertHistory.cpp against src/prediction/TransitionDatabase.cpp.
use hypermoe_engine.Base.{
  ℕ, ◌≡◌, refl, Bool, true, false, List, [], ◌∷◌, map, arith, if◌then◌else◌, Option, none, some,
}
use hypermoe_engine.Base.Outcome.{Outcome, ok}
use hypermoe_engine.Base.Map.{lookup, lookup-put_self}
use hypermoe_engine.Prediction.Counts.{increment_all}
use hypermoe_engine.Prediction.Selections.{
  ExpertSelection, RouterDecision, valid, current, transitions_of, selection_key, transition_key,
}
use hypermoe_engine.Prediction.Database.{TransitionDatabase, count_transitions, make, frequency_of}
use hypermoe_engine.Prediction.Database
use hypermoe_engine.Prediction.Database.Calls.{recorded, replay, Call}
use hypermoe_engine.Prediction.History.{
  ExpertHistory, empty, note, record_decision, frequency, transition_count,
}

-- The history after the decisions, newest first, whether recording them returns or throws.
abbrev pub run : List RouterDecision → ExpertHistory
run [] = empty
run (d ∷ ds) = (record_decision d (run ds)).1

-- A database that got the same decisions in one stream.
abbrev pub in_stream : ℕ → RouterDecision → Call
in_stream stream d = recorded d stream

-- The history and the database hold the same counters.
record Agrees (stream : ℕ) (h : ExpertHistory) (d : TransitionDatabase) : Type 0 where
  observed : d.observations ≡ h.decisions
  frequencies : d.frequency ≡ h.frequencies
  transitions : d.transitions ≡ h.transitions
  previous : elim (lookup stream d.previous_by_stream) [ none ↦ [] | some now ↦ now ] ≡ h.previous

counted_alike :
    (before : Option (List ExpertSelection)) (now : List ExpertSelection) (m : _)
    → count_transitions before now m
      ≡ increment_all (transitions_of (elim before [ none ↦ [] | some found ↦ found ]) now) m
unfolding count_transitions transitions_of increment_all
counted_alike none now m = refl
counted_alike (some b) now m = refl

note-Agrees :
    (stream : ℕ) (now : List ExpertSelection) (h : ExpertHistory) (d : TransitionDatabase)
    → Agrees stream h d
    → Agrees stream (note now h) (Database.note stream now d)
unfolding note Database.note
note-Agrees stream now h d a = record {
  observed = rw a.observed refl;
  frequencies = rw a.frequencies refl;
  transitions =
      rw
        (
          counted_alike (lookup stream d.previous_by_stream) now d.transitions,
          a.previous,
          a.transitions,
        )
        refl;
  previous = rw (lookup-put_self stream now d.previous_by_stream) refl;
}

record-Agrees :
    (stream : ℕ) (decision : RouterDecision) (h : ExpertHistory) (d : TransitionDatabase)
    → Agrees stream h d
    → Agrees stream (record_decision decision h).1 (Database.record_decision decision stream d).1
unfolding record_decision Database.record_decision
record-Agrees stream decision h d a =
    either (valid decision) _ _ _ _ (note-Agrees stream (current decision) h d a) a
  where
    either :
        (b : Bool) (x y : Outcome (Unit {0}) × ExpertHistory)
        (x' y' : Outcome (Unit {0}) × TransitionDatabase)
        → Agrees stream x.1 x'.1
        → Agrees stream y.1 y'.1
        → Agrees stream (if b then x else y).1 (if b then x' else y').1
    either true x y x' y' k l = k
    either false x y x' y' k l = l

make-Agrees :
    (window : ℕ) (decays : Bool) (d : TransitionDatabase) (stream : ℕ)
    → make window decays ≡ ok d
    → Agrees stream empty d
unfolding make lookup
make-Agrees window decays d stream h = record {
  observed = ground arith;
  frequencies = ground arith;
  transitions = ground arith;
  previous = ground arith;
}

run-Agrees :
    (stream : ℕ) (d : TransitionDatabase) (ds : List RouterDecision)
    → Agrees stream empty d
    → Agrees stream (run ds) (replay (map (in_stream stream) ds) d)
run-Agrees stream d [] a = a
run-Agrees stream d (x ∷ xs) a =
    record-Agrees stream x (run xs) (replay (map (in_stream stream) xs) d)
      (run-Agrees stream d xs a)

-- A history and a new database that get the same decisions, the database in one stream, count the same
-- frequencies and the same transitions.
pub run-replay :
    (window : ℕ) (decays : Bool) (d : TransitionDatabase) (stream : ℕ) (ds : List RouterDecision)
    (a b : ExpertSelection)
    → make window decays ≡ ok d
    → (frequency a.layer_id a.expert_id (run ds)
        ≡ frequency_of a (replay (map (in_stream stream) ds) d))
      × (transition_count a b (run ds)
          ≡ Database.transition_count a b (replay (map (in_stream stream) ds) d))
unfolding frequency frequency_of transition_count Database.transition_count
run-replay window decays d stream ds a b h =
    let k = run-Agrees stream d ds (make-Agrees window decays d stream h) in
    (rw k.frequencies refl, rw k.transitions refl)
