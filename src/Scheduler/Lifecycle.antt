-- ===== src/Scheduler/Lifecycle.antt =====
-- src/scheduler/ExpertState.hpp, src/scheduler/ExpertState.cpp: the state machine that the
-- scheduler keeps for each expert. The mutex makes each method one step; what the clock shows is an
-- argument. The overloads without a layer are calls with layer 0.
pub mod History
pub mod Reach
pub mod Walks
use hypermoe_engine.Base.{
  ℕ, ◌+◌, ◌*◌, ◌^◌, ◌≡◌, Bool, true, false, not, ◌||◌, Option, none, some, List, [], ◌∷◌,
  if◌then◌else◌,
}
use hypermoe_engine.Base.Word.{add64}
use hypermoe_engine.Base.Outcome.{
  Outcome, ok, throws, Error, invalid_argument, logic_error, out_of_range,
}
use hypermoe_engine.Base.Map.{Map, lookup, put, has, emplace}
use hypermoe_engine.Base.Exec.{Exec}
use hypermoe_engine.Memory.Tier.{Tier}

pub data Lifecycle : Type 0 where
  requested queued loading ready in_use evicting failed : Lifecycle

-- `left == right`
unfoldable pub equals : Lifecycle → Lifecycle → Bool
equals requested requested = true
equals queued queued = true
equals loading loading = true
equals ready ready = true
equals in_use in_use = true
equals evicting evicting = true
equals failed failed = true
equals _ _ = false

pub record ExpertState : Type 0 where
  pub layer_id : ℕ
  pub id : ℕ
  pub current_location : Tier
  pub target_location : Tier
  pub state : Lifecycle
  pub last_used : ℕ
  pub usage_count : ℕ

-- `states_`
abbrev pub States : Type 0
States = Map ExpertState

-- `(layerId << 32) | id` of two 32-bit ids.
abbrev pub key : ℕ → ℕ → ℕ
key layer id = layer * 2 ^ 32 + id

abbrev pub Done : Type 0
Done = Unit {0}

unfoldable pub register_expert : ℕ → ℕ → Tier → ℕ → Exec States Done
register_expert layer id location now s =
    if has (key layer id) s then (throws invalid_argument, s) else (
      ok tt,
      emplace (key layer id)
          (record {
            layer_id = layer;
            id = id;
            current_location = location;
            target_location = location;
            state = ready;
            last_used = now;
            usage_count = 0;
          })
          s,
    )

-- A guarded write through the reference that `requireLocked` returns.
unfoldable pub commit : ℕ → Outcome ExpertState → Exec States Done
unfolding put
commit k (ok e) s = (ok tt, put k e s)
commit k (throws x) s = (throws x, s)

unfoldable pub edit : ℕ → ℕ → (ExpertState → Outcome ExpertState) → Exec States Done
unfolding lookup commit
edit layer id f s = elim (lookup (key layer id) s) [
  | none ↦ (throws out_of_range, s)
  | some e ↦ commit (key layer id) (f e) s
]

unfoldable pub allow : Bool → ExpertState → Outcome ExpertState
allow true e = ok e
allow false e = throws logic_error

unfoldable pub to_requested : Tier → ExpertState → Outcome ExpertState
unfolding allow equals
to_requested target e =
    allow (equals e.state ready || equals e.state failed)
      (record e { target_location = target; state = requested })

unfoldable pub to_queued : ExpertState → Outcome ExpertState
unfolding allow equals
to_queued e = allow (equals e.state requested) (record e { state = queued })

unfoldable pub to_loading : ExpertState → Outcome ExpertState
unfolding allow equals
to_loading e = allow (equals e.state queued) (record e { state = loading })

unfoldable pub to_ready : Tier → ℕ → ExpertState → Outcome ExpertState
unfolding allow equals
to_ready location now e =
    allow (equals e.state loading || equals e.state evicting || equals e.state requested)
      (record e {
        current_location = location;
        target_location = location;
        state = ready;
        last_used = now;
      })

unfoldable pub to_in_use : ℕ → ExpertState → Outcome ExpertState
unfolding allow equals add64
to_in_use now e =
    allow (equals e.state ready)
      (record e { state = in_use; last_used = now; usage_count = add64 e.usage_count 1 })

unfoldable pub to_released : ℕ → ExpertState → Outcome ExpertState
unfolding allow equals
to_released now e = allow (equals e.state in_use) (record e { state = ready; last_used = now })

unfoldable pub to_evicting : Tier → ExpertState → Outcome ExpertState
unfolding allow equals
to_evicting target e =
    allow (equals e.state ready) (record e { target_location = target; state = evicting })

unfoldable pub to_failed : ExpertState → Outcome ExpertState
to_failed e = ok (record e { state = failed })

unfoldable pub to_reconciled : Tier → ExpertState → Outcome ExpertState
unfolding allow equals
to_reconciled location e =
    allow
      (not (
        equals e.state in_use
        || equals e.state loading
        || equals e.state queued
        || equals e.state evicting))
      (record e { current_location = location; target_location = location; state = ready })

unfoldable pub request : ℕ → ℕ → Tier → Exec States Done
unfolding edit to_requested
request layer id target = edit layer id (to_requested target)

unfoldable pub mark_queued : ℕ → ℕ → Exec States Done
unfolding edit to_queued
mark_queued layer id = edit layer id to_queued

unfoldable pub mark_loading : ℕ → ℕ → Exec States Done
unfolding edit to_loading
mark_loading layer id = edit layer id to_loading

unfoldable pub mark_ready : ℕ → ℕ → Tier → ℕ → Exec States Done
unfolding edit to_ready
mark_ready layer id location now = edit layer id (to_ready location now)

unfoldable pub acquire : ℕ → ℕ → ℕ → Exec States Done
unfolding edit to_in_use
acquire layer id now = edit layer id (to_in_use now)

unfoldable pub release : ℕ → ℕ → ℕ → Exec States Done
unfolding edit to_released
release layer id now = edit layer id (to_released now)

unfoldable pub begin_eviction : ℕ → ℕ → Tier → Exec States Done
unfolding edit to_evicting
begin_eviction layer id target = edit layer id (to_evicting target)

unfoldable pub mark_failed : ℕ → ℕ → Exec States Done
unfolding edit to_failed
mark_failed layer id = edit layer id to_failed

unfoldable pub reconcile : ℕ → ℕ → Tier → Exec States Done
unfolding edit to_reconciled
reconcile layer id location = edit layer id (to_reconciled location)

unfoldable pub snapshot : ℕ → ℕ → States → Outcome ExpertState
unfolding lookup
snapshot layer id s = elim (lookup (key layer id) s) [ none ↦ throws out_of_range | some e ↦ ok e ]

-- In the order of the map.
unfoldable pub snapshots : States → List ExpertState
snapshots [] = []
snapshots ((k, e) ∷ s) = e ∷ snapshots s
