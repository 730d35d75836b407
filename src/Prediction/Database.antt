-- ===== src/Prediction/Database.antt =====
-- src/prediction/TransitionDatabase.hpp, src/prediction/TransitionDatabase.cpp: what was selected, what
-- followed what in a stream of decisions, and what was selected together. The decayed counters, which
-- are floating-point numbers, are left out.
pub mod Calls
pub mod Counted
pub mod Window
use hypermoe_engine.Base.{
  ℕ, suc, ◌==◌, ltb, Bool, true, false, not, ◌||◌, Option, none, some, List, [], ◌∷◌, ◌++◌, map,
  if◌then◌else◌, length,
}
use hypermoe_engine.Base.Word.{add64}
use hypermoe_engine.Base.Outcome.{Outcome, ok, throws, invalid_argument}
use hypermoe_engine.Base.Map.{Map, lookup, put, erase}
use hypermoe_engine.Base.Exec.{Exec}
use hypermoe_engine.Prediction.Counts.{Counters, increment_all, count}
use hypermoe_engine.Prediction.Selections.{
  ExpertSelection, ExpertTransition, ExpertCooccurrence, RouterDecision, same_selection, transition,
  valid, current, ordered_pair, transitions_of, pairs_of, selection_key, transition_key, pair_key,
}

pub record TransitionDatabase : Type 0 where
  pub recent_window : ℕ
  pub observations : ℕ
  pub frequency : Counters ExpertSelection
  pub transitions : Counters ExpertTransition
  pub cooccurrence : Counters ExpertCooccurrence
  pub previous_by_stream : Map (List ExpertSelection)
  pub recent : List (List ExpertSelection)

-- The constructor; whether the decay factor is a finite number above zero and at most one is an
-- argument.
unfoldable pub make : ℕ → Bool → Outcome TransitionDatabase
make window decays =
    if window == 0 || not decays
    then throws invalid_argument
    else ok (record {
      recent_window = window;
      observations = 0;
      frequency = [];
      transitions = [];
      cooccurrence = [];
      previous_by_stream = [];
      recent = [];
    })

-- `while (recent_.size() > recentWindow_) recent_.pop_front();`
unfoldable pub trim {ℓ} : {A : Type ℓ} → ℕ → List A → List A
trim window [] = []
trim window (x ∷ xs) =
    let rest = trim window xs in if ltb window (length (x ∷ xs)) then rest else x ∷ xs

-- The transitions from what the stream selected before.
unfoldable pub count_transitions :
    Option (List ExpertSelection)
    → List ExpertSelection
    → Counters ExpertTransition
    → Counters ExpertTransition
unfolding increment_all transitions_of
count_transitions none now m = m
count_transitions (some before) now m = increment_all (transitions_of before now) m

-- `record`, for a valid decision.
unfoldable pub note : ℕ → List ExpertSelection → TransitionDatabase → TransitionDatabase
unfolding increment_all count_transitions pairs_of put lookup trim add64
note stream now d = record d {
  observations = add64 d.observations 1;
  frequency = increment_all now d.frequency;
  transitions = count_transitions (lookup stream d.previous_by_stream) now d.transitions;
  cooccurrence = increment_all (pairs_of now) d.cooccurrence;
  previous_by_stream = put stream now d.previous_by_stream;
  recent = trim d.recent_window (d.recent ++ now ∷ []);
}

unfoldable pub record_decision : RouterDecision → ℕ → Exec TransitionDatabase (Unit {0})
unfolding note valid current
record_decision decision stream d =
    if valid decision
    then (ok tt, note stream (current decision) d)
    else (throws invalid_argument, d)

unfoldable pub end_stream : ℕ → TransitionDatabase → TransitionDatabase
unfolding erase
end_stream stream d = record d { previous_by_stream = erase stream d.previous_by_stream }

unfoldable pub frequency_of : ExpertSelection → TransitionDatabase → ℕ
unfolding count
frequency_of e d = count e d.frequency

unfoldable pub transition_count : ExpertSelection → ExpertSelection → TransitionDatabase → ℕ
unfolding count
transition_count from to d = count (transition from to) d.transitions

unfoldable pub cooccurrence_count : ExpertSelection → ExpertSelection → TransitionDatabase → ℕ
unfolding count ordered_pair
cooccurrence_count first second d =
    if same_selection first second then 0 else count (ordered_pair first second) d.cooccurrence

-- The entries of a layer, of which each expert has one.
unfoldable pub of_layer : ℕ → Counters ExpertSelection → List ExpertSelection
of_layer layer [] = []
of_layer layer ((e, n) ∷ m) =
    let rest = of_layer layer m in if e.layer_id == layer then e ∷ rest else rest

-- `std::sort` by the expert.
unfoldable pub put_in : ExpertSelection → List ExpertSelection → List ExpertSelection
put_in e [] = e ∷ []
put_in e (x ∷ xs) =
    let rest = put_in e xs in if ltb x.expert_id e.expert_id then x ∷ rest else e ∷ x ∷ xs

unfoldable pub sort : List ExpertSelection → List ExpertSelection
unfolding put_in
sort [] = []
sort (x ∷ xs) = put_in x (sort xs)

unfoldable pub experts_in_layer : ℕ → TransitionDatabase → List ExpertSelection
unfolding of_layer sort
experts_in_layer layer d = sort (of_layer layer d.frequency)

unfoldable pub previous_selections : ℕ → TransitionDatabase → List ExpertSelection
unfolding lookup
previous_selections stream d = elim (lookup stream d.previous_by_stream) [
  | none ↦ []
  | some found ↦ found
]
