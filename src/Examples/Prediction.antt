-- ===== src/Examples/Prediction.antt =====
-- The counters of src/prediction at concrete calls.
use hypermoe_engine.Base.{ℕ, ◌%◌, ◌≡◌, refl, true, List, [], ◌∷◌, map, if◌then◌else◌, length, take}
use hypermoe_engine.Base.Word.{modulus64, add64}
use hypermoe_engine.Base.Outcome.{throws, invalid_argument}
use hypermoe_engine.Base.Map.{lookup, put, erase}
use hypermoe_engine.Prediction.Counts.{increment, increment_all, count, occurrences}
use hypermoe_engine.Prediction.Selections.{
  ExpertSelection, RouterDecision, valid, current, less, ordered_pair, transitions_of, pairs_of,
  same_selection,
}
use hypermoe_engine.Prediction.Database.{
  TransitionDatabase, make, record_decision, end_stream, frequency_of, transition_count,
  cooccurrence_count, experts_in_layer, previous_selections, trim,
}
use hypermoe_engine.Prediction.Database
use hypermoe_engine.Prediction.Database.Calls.{
  Call, recorded, ended, replay, decisions, selected, together, followed,
}
use hypermoe_engine.Prediction.Database.Counted.{replay_counted}
use hypermoe_engine.Prediction.Database.Window.{replay-recent}
use hypermoe_engine.Prediction.History
use hypermoe_engine.Prediction.History.{ExpertHistory}
use hypermoe_engine.Prediction.History.Agrees.{run, in_stream, run-replay}
use mathlib.Core.List.{reverse}

abbrev expert : ℕ → ℕ → ExpertSelection
expert layer id = record { layer_id = layer; expert_id = id }

abbrev decision : ℕ → List ℕ → RouterDecision
decision layer ids = record {
  layer_id = layer;
  selected_expert_ids = ids;
  routing_scores = length ids;
}

-- No expert is selected.
abbrev nothing : RouterDecision
nothing = decision 0 []

abbrev fresh : TransitionDatabase
fresh = record {
  recent_window = 2;
  observations = 0;
  frequency = [];
  transitions = [];
  cooccurrence = [];
  previous_by_stream = [];
  recent = [];
}

-- Two streams, the first of which ends; the newest call stands first.
abbrev calls : List Call
calls =
    recorded (decision 2 (5 ∷ [])) 1
    ∷ recorded (decision 1 (4 ∷ 3 ∷ [])) 2
    ∷ ended 1
    ∷ recorded nothing 1
    ∷ recorded (decision 1 (3 ∷ [])) 1
    ∷ recorded (decision 0 (1 ∷ 2 ∷ [])) 2
    ∷ recorded (decision 0 (2 ∷ 1 ∷ [])) 1
    ∷ []

program : Unit {0}
unfolding valid current less ordered_pair transitions_of pairs_of increment increment_all count
    occurrences lookup put erase add64 trim make record_decision end_stream frequency_of
    transition_count cooccurrence_count experts_in_layer previous_selections Database.note
    Database.count_transitions Database.of_layer Database.put_in Database.sort History.note
    History.record_decision
program = tt

twice : frequency_of (expert 0 1) (replay calls fresh) ≡ 2
unfolding program
twice = refl

both_orders : cooccurrence_count (expert 0 1) (expert 0 2) (replay calls fresh) ≡ 2
unfolding program
both_orders = refl

in_its_stream : transition_count (expert 0 1) (expert 1 3) (replay calls fresh) ≡ 2
unfolding program
in_its_stream = refl

not_over_an_end : transition_count (expert 1 3) (expert 2 5) (replay calls fresh) ≡ 0
unfolding program
not_over_an_end = refl

sorted : experts_in_layer 1 (replay calls fresh) ≡ expert 1 3 ∷ expert 1 4 ∷ []
unfolding program
sorted = refl

refused : (record_decision nothing 1 fresh).0 ≡ throws invalid_argument
unfolding program
refused = refl

replay_counted_example :
    (frequency_of (expert 0 1) (replay calls fresh)
      ≡ selected (expert 0 1) (decisions calls) % modulus64)
    × (transition_count (expert 0 1) (expert 1 3) (replay calls fresh)
        ≡ followed (expert 0 1) (expert 1 3) calls % modulus64)
    × (cooccurrence_count (expert 0 1) (expert 1 3) (replay calls fresh) ≡ (
        if same_selection (expert 0 1) (expert 1 3)
        then 0
        else together (expert 0 1) (expert 1 3) (decisions calls) % modulus64))
unfolding program
replay_counted_example = replay_counted 2 true fresh calls (expert 0 1) (expert 1 3) refl

replay-recent_example :
    ((replay calls fresh).recent ≡ reverse (take 2 (decisions calls)))
    × ((replay calls fresh).observations ≡ length (decisions calls) % modulus64)
unfolding program
replay-recent_example = replay-recent 2 true fresh calls refl

abbrev steps : List RouterDecision
steps = decision 1 (3 ∷ 4 ∷ []) ∷ nothing ∷ decision 0 (1 ∷ 3 ∷ []) ∷ []

run-replay_example :
    (History.frequency 0 3 (run steps)
      ≡ frequency_of (expert 0 3) (replay (map (in_stream 7) steps) fresh))
    × (History.transition_count (expert 0 3) (expert 1 4) (run steps)
        ≡ transition_count (expert 0 3) (expert 1 4) (replay (map (in_stream 7) steps) fresh))
unfolding program
run-replay_example = run-replay 2 true fresh 7 steps (expert 0 3) (expert 1 4) refl
