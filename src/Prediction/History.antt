-- ===== src/Prediction/History.antt =====
-- src/prediction/ExpertHistory.hpp, src/prediction/ExpertHistory.cpp: what was selected, and what
-- followed what in one sequence of decisions.
pub mod Agrees
use hypermoe_engine.Base.{ℕ, Bool, true, false, List, [], if◌then◌else◌}
use hypermoe_engine.Base.Word.{add64}
use hypermoe_engine.Base.Outcome.{ok, throws, invalid_argument}
use hypermoe_engine.Base.Exec.{Exec}
use hypermoe_engine.Prediction.Counts.{Counters, increment_all, count}
use hypermoe_engine.Prediction.Selections.{
  ExpertSelection, ExpertTransition, RouterDecision, transition, valid, current, transitions_of,
  selection_key, transition_key,
}

pub record ExpertHistory : Type 0 where
  pub decisions : ℕ
  pub frequencies : Counters ExpertSelection
  pub transitions : Counters ExpertTransition
  pub previous : List ExpertSelection

abbrev pub empty : ExpertHistory
empty = record { decisions = 0; frequencies = []; transitions = []; previous = [] }

-- `record`, for a valid decision.
unfoldable pub note : List ExpertSelection → ExpertHistory → ExpertHistory
unfolding increment_all transitions_of add64
note now h = record {
  decisions = add64 h.decisions 1;
  frequencies = increment_all now h.frequencies;
  transitions = increment_all (transitions_of h.previous now) h.transitions;
  previous = now;
}

unfoldable pub record_decision : RouterDecision → Exec ExpertHistory (Unit {0})
unfolding note valid current
record_decision decision h =
    if valid decision then (ok tt, note (current decision) h) else (throws invalid_argument, h)

unfoldable pub frequency : ℕ → ℕ → ExpertHistory → ℕ
unfolding count
frequency layer id h = count (record { layer_id = layer; expert_id = id }) h.frequencies

unfoldable pub transition_count : ExpertSelection → ExpertSelection → ExpertHistory → ℕ
unfolding count
transition_count from to h = count (transition from to) h.transitions
