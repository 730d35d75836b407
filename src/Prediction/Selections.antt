-- ===== src/Prediction/Selections.antt =====
-- src/prediction/ExpertHistory.hpp, src/router/RouterDecision.hpp and the pairs of
-- src/prediction/TransitionDatabase.cpp: the keys of the counters. Of the routing scores, floating-point
-- numbers, only how many there are is kept.
pub mod Pairs
use hypermoe_engine.Base.{
  ℕ, ◌≡◌, ◌↔◌, refl, sym, ap, ◌∙◌, Bool, true, false, not, ◌&&◌, ◌||◌, List, [], ◌∷◌, ◌++◌, map,
  arith, ltb, ◌==◌, if◌then◌else◌, length, ==→eq, ==_refl,
}
use hypermoe_engine.Prediction.Counts.{Key}

pub record ExpertSelection : Type 0 where
  pub layer_id : ℕ
  pub expert_id : ℕ

abbrev pub same_selection : ExpertSelection → ExpertSelection → Bool
same_selection a b = a.layer_id == b.layer_id && a.expert_id == b.expert_id

pub record ExpertTransition : Type 0 where
  pub from : ExpertSelection
  pub to : ExpertSelection

abbrev pub transition : ExpertSelection → ExpertSelection → ExpertTransition
transition f t = record { from = f; to = t }

pub record ExpertCooccurrence : Type 0 where
  pub first : ExpertSelection
  pub second : ExpertSelection

abbrev pub same_transition : ExpertTransition → ExpertTransition → Bool
same_transition a b = same_selection a.from b.from && same_selection a.to b.to

abbrev pub same_pair : ExpertCooccurrence → ExpertCooccurrence → Bool
same_pair a b = same_selection a.first b.first && same_selection a.second b.second

pub same_selection_iff : (a b : ExpertSelection) → (same_selection a b ≡ true) ↔ (a ≡ b)
same_selection_iff a b = ground arith

pub same_transition_iff : (a b : ExpertTransition) → (same_transition a b ≡ true) ↔ (a ≡ b)
same_transition_iff a b = ground arith

pub same_pair_iff : (a b : ExpertCooccurrence) → (same_pair a b ≡ true) ↔ (a ≡ b)
same_pair_iff a b = ground arith

instance abbrev pub selection_key : Key ExpertSelection
selection_key = record { same = same_selection; same_iff = same_selection_iff }

instance abbrev pub transition_key : Key ExpertTransition
transition_key = record { same = same_transition; same_iff = same_transition_iff }

instance abbrev pub pair_key : Key ExpertCooccurrence
pair_key = record { same = same_pair; same_iff = same_pair_iff }

pub record RouterDecision : Type 0 where
  pub layer_id : ℕ
  pub selected_expert_ids : List ℕ
  pub routing_scores : ℕ

unfoldable pub valid : RouterDecision → Bool
valid d =
    not (length d.selected_expert_ids == 0) && length d.selected_expert_ids == d.routing_scores

-- What the decision selects, the `current` of `record`.
unfoldable pub current : RouterDecision → List ExpertSelection
current d = map (λ id. record { layer_id = d.layer_id; expert_id = id }) d.selected_expert_ids

unfoldable pub less : ExpertSelection → ExpertSelection → Bool
less left right =
    ltb left.layer_id right.layer_id
    || left.layer_id == right.layer_id && ltb left.expert_id right.expert_id

unfoldable pub ordered_pair : ExpertSelection → ExpertSelection → ExpertCooccurrence
unfolding less
ordered_pair a b =
    if less b a then record { first = b; second = a } else record { first = a; second = b }

-- The keys that the two loops over `previous` and `current` count.
unfoldable pub transitions_of : List ExpertSelection → List ExpertSelection → List ExpertTransition
transitions_of [] ts = []
transitions_of (f ∷ fs) ts = map (transition f) ts ++ transitions_of fs ts

-- The keys that the two loops over `left` and `right` count.
unfoldable pub pairs_of : List ExpertSelection → List ExpertCooccurrence
unfolding ordered_pair
pairs_of [] = []
pairs_of (x ∷ xs) = map (ordered_pair x) xs ++ pairs_of xs
