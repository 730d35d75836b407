-- ===== src/Examples/Scheduler.antt =====
-- The lifecycle states of src/scheduler/ExpertState.cpp at concrete inputs.
use hypermoe_engine.Base.{◌≡◌, ◌≢◌, inr, refl, some, List, [], ◌∷◌, arith, All}
use hypermoe_engine.Base.Map.{lookup, has, emplace}
use hypermoe_engine.Memory.Tier.{vram, ram, nvme}
use hypermoe_engine.Scheduler.Lifecycle.{
  in_use, ExpertState, key, register_expert, request, mark_queued, mark_loading, mark_ready,
  acquire,
}
use hypermoe_engine.Scheduler.Lifecycle.History.{
  requests, queues, loads, readies, acquires, releases, evicts, fails, reconciles, Call, registers,
  performs, run, step, perform,
}
use hypermoe_engine.Scheduler.Lifecycle.Reach.{ready_where_sent, LeavesUse, UsedIn, use_protected}
use hypermoe_engine.Scheduler.Lifecycle.Walks.{Walk, run-Walk}

-- Expert 5 of layer 1 is loaded into VRAM and acquired; a second expert is registered.
abbrev loading_calls : List Call
loading_calls =
    registers 1 5 nvme 0
    ∷ registers 1 6 nvme 0
    ∷ performs 1 5 (requests vram)
    ∷ performs 1 5 queues
    ∷ performs 1 5 loads
    ∷ performs 1 5 (readies vram 3)
    ∷ performs 1 5 (acquires 4)
    ∷ []

abbrev five : ExpertState
five = record {
  layer_id = 1;
  id = 5;
  current_location = vram;
  target_location = vram;
  state = in_use;
  last_used = 4;
  usage_count = 1;
}

five_in_use : lookup (key 1 5) (run [] loading_calls) ≡ some five
unfolding lookup has emplace run step perform register_expert request mark_queued mark_loading
    mark_ready acquire
five_in_use = refl

ready_where_sent_example : five.current_location ≡ five.target_location
ready_where_sent_example = ready_where_sent loading_calls (key 1 5) five five_in_use (inr refl)

-- While it is in use it is asked for again, evicted and reconciled, and the other one fails.
abbrev other_calls : List Call
other_calls =
    performs 1 5 (requests ram)
    ∷ performs 1 5 (evicts nvme)
    ∷ performs 1 5 (reconciles nvme)
    ∷ performs 1 6 fails
    ∷ []

keys_differ : key 1 6 ≢ key 1 5
keys_differ = omega arith

other_calls-LeavesUse : All (LeavesUse (key 1 5)) other_calls
other_calls-LeavesUse = (λ k. refl, (λ k. refl, (λ k. refl, (λ k. elim (keys_differ k) [ ], tt))))

use_protected_example :
    (e : ExpertState) × (lookup (key 1 5) (run (run [] loading_calls) other_calls) ≡ some e)
    × UsedIn vram e
use_protected_example =
    use_protected (key 1 5) vram (run [] loading_calls) other_calls five five_in_use (refl, refl)
      other_calls-LeavesUse

-- Expert 5 is released, cannot be loaded at once, and leaves for the RAM.
abbrev return_calls : List Call
return_calls =
    performs 1 5 (releases 9)
    ∷ performs 1 5 loads
    ∷ performs 1 6 fails
    ∷ performs 1 5 (evicts ram)
    ∷ registers 1 5 nvme 10
    ∷ performs 1 5 (readies ram 11)
    ∷ []

run-Walk_example :
    (e : ExpertState) × (lookup (key 1 5) (run (run [] loading_calls) return_calls) ≡ some e)
    × Walk (key 1 5) return_calls in_use e.state
run-Walk_example = run-Walk (key 1 5) five (run [] loading_calls) return_calls five_in_use
