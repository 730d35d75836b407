-- ===== src/Experts/Moves.antt =====
-- `moveExpertLocked` and `makeRoomLocked` of src/experts/expert_manager/expert_manager.cpp. The two
-- call one another: `move_expert` takes the depth of calls as fuel, and the eviction loop the
-- number of experts. What the code reads through the reference `managed` after other experts have
-- moved is read again here.
use hypermoe_engine.Base.{
  ℕ, zero, suc, not, ◌&&◌, Option, none, some, List, ◌∷◌, ltb, ◌==◌, if◌then◌else◌, length,
}
use hypermoe_engine.Base.Outcome.{ok, throws, runtime_error, logic_error, out_of_range, out_of_fuel}
use hypermoe_engine.Base.Map.{lookup}
use hypermoe_engine.Base.Exec.{pure, raise, ◌>>=◌, ◌>>◌}
use hypermoe_engine.Memory.Tier.{Tier, vram, ram, nvme, same}
use hypermoe_engine.Memory.Manager.{available_bytes, usage_for}
use hypermoe_engine.Cache.Policy.{CachePolicy}
use hypermoe_engine.Experts.State.{ManagedExpert, TransferRequest, Transfers, M, require_expert}
use hypermoe_engine.Experts.Steps.{
  Done, Payload, loaded_buffer, downloaded, uploaded, candidates_of, reserve_memory, transfer,
  guarded, try, replace_allocation, place, settle, unload, copied,
}

-- A load from disk, an upload and a download.
abbrev pub load_request : ManagedExpert → ℕ → TransferRequest
load_request e id = record {
  layer_id = e.metadata.layer;
  expert_id = id;
  source = nvme;
  destination = ram;
  host_buffer = none;
  source_device_buffer = none;
}

abbrev pub upload_request : ManagedExpert → ℕ → TransferRequest
upload_request e id = record (load_request e id) {
  source = ram;
  destination = vram;
  host_buffer = e.weights;
}

abbrev pub download_request : ManagedExpert → ℕ → TransferRequest
download_request e id = record (load_request e id) {
  source = vram;
  source_device_buffer = e.device_weights;
}

-- The room that a call makes in a tier, before the expert is moved: tier, bytes, pinned experts.
abbrev pub Room : CachePolicy → Type 0
Room P = Tier → ℕ → List ℕ → M P Done

module _ {P : CachePolicy} where
  -- The `try` block: what the expert owns at its destination.
  unfoldable pub fetch : ManagedExpert → Tier → Tier → ℕ → M P Payload
  unfolding copied transfer loaded_buffer uploaded downloaded same
  fetch e source destination id s = elim s.transfers [
    | none ↦ copied e source s
    | some t ↦
        if same source nvme
        then (do
          r ← transfer t (load_request e id)
          λ s. elim (loaded_buffer r e.metadata.size_bytes) [
            | throws x ↦ (throws x, s)
            | ok b ↦ (ok (record { host = some b; device = none }), s)
          ])
            s
        else if same source ram && same destination vram
        then (do r ← transfer t (upload_request e id); λ s. (uploaded r, s)) s
        else if same source vram && same destination ram
        then (do r ← transfer t (download_request e id); λ s. (downloaded r, s)) s
        else copied e source s
  ]

  -- Between host and device, or within the host.
  unfoldable pub relocate : Room P → ℕ → ℕ → Tier → Tier → List ℕ → M P Done
  unfolding require_expert reserve_memory guarded fetch replace_allocation settle
  relocate room layer id source destination pinned = do
    e ← require_expert layer id
    room destination e.metadata.size_bytes pinned
    e' ← require_expert layer id
    a ← reserve_memory destination e'.metadata.size_bytes
    p ← guarded a.id (fetch e' source destination id)
    replace_allocation e'.allocation a.id
    λ s. (ok tt, settle layer id e' source destination a p s)

  -- From NVMe to RAM with a transfer service. An exception of the transfer is not caught.
  unfoldable pub direct_load : Transfers → Room P → ℕ → ℕ → List ℕ → M P Done
  unfolding require_expert reserve_memory transfer guarded loaded_buffer replace_allocation place
  direct_load t room layer id pinned = do
    e ← require_expert layer id
    room ram e.metadata.size_bytes pinned
    e' ← require_expert layer id
    a ← reserve_memory ram e'.metadata.size_bytes
    r ← transfer t (load_request e' id)
    b ← guarded a.id (λ s. (loaded_buffer r e'.metadata.size_bytes, s))
    replace_allocation e'.allocation a.id
    λ s. (ok tt, place layer id e' ram (some a) (record { host = some b; device = none }) s)

  -- A move to NVMe, or one that needs room.
  unfoldable pub move_on : Room P → ℕ → ℕ → ManagedExpert → Tier → List ℕ → M P Done
  unfolding unload relocate same
  move_on room layer id e destination pinned =
      if same destination nvme
      then unload layer id e e.metadata.location
      else relocate room layer id e.metadata.location destination pinned

  -- With a transfer service, NVMe to RAM has a path of its own.
  unfoldable pub move_by :
      Option Transfers → Room P → ℕ → ℕ → ManagedExpert → Tier → List ℕ → M P Done
  unfolding move_on direct_load same
  move_by none room layer id e destination pinned = move_on room layer id e destination pinned
  move_by (some t) room layer id e destination pinned =
      if same e.metadata.location nvme && same destination ram
      then direct_load t room layer id pinned
      else move_on room layer id e destination pinned

  unfoldable pub move_warm : Room P → ℕ → ℕ → ManagedExpert → Tier → List ℕ → M P Done
  unfolding move_by
  move_warm room layer id e destination pinned s =
      move_by s.transfers room layer id e destination pinned s

  unfoldable pub move_from :
      Room P → (Tier → M P Done) → ℕ → ℕ → ManagedExpert → Tier → List ℕ → M P Done
  unfolding move_warm same
  move_from room again layer id e destination pinned =
      if same e.metadata.location destination
      then pure tt
      else if not (e.residency_leases == 0)
      then raise logic_error
      else if same e.metadata.location nvme && same destination vram
      then (again ram >> again vram)
      else move_warm room layer id e destination pinned

  -- The body of `moveExpertLocked`; `again` is its call of itself for another destination.
  unfoldable pub move_body : Room P → (Tier → M P Done) → ℕ → ℕ → Tier → List ℕ → M P Done
  unfolding require_expert move_from
  move_body room again layer id destination pinned = do
    e ← require_expert layer id
    move_from room again layer id e destination pinned

-- A call of `moveExpertLocked`: layer, id, destination, pinned experts.
abbrev pub Move : CachePolicy → Type 0
Move P = ℕ → ℕ → Tier → List ℕ → M P Done

module _ {P : CachePolicy} where
  -- The victim leaves the tier: from VRAM to RAM or, at a `runtime_error`, to NVMe.
  unfoldable pub demote : Move P → Tier → ManagedExpert → List ℕ → M P Done
  unfolding try same
  demote move tier e pinned =
      if same tier vram
      then try (move e.metadata.layer e.metadata.id ram pinned)
          (move e.metadata.layer e.metadata.id nvme pinned)
      else move e.metadata.layer e.metadata.id nvme pinned

  -- `policyExperts_.find(*victim)` and `experts_.at(identity->second)`
  unfoldable pub expert_of : ℕ → M P ManagedExpert
  unfolding lookup
  expert_of victim s = elim (lookup victim s.policy_experts) [
    | none ↦ (throws logic_error, s)
    | some k ↦ elim (lookup k s.experts) [ none ↦ (throws out_of_range, s) | some e ↦ (ok e, s) ]
  ]

  unfoldable pub evict_victim : Move P → Tier → List ℕ → Option ℕ → M P Done
  unfolding demote expert_of
  evict_victim move tier pinned none = raise runtime_error
  evict_victim move tier pinned (some v) = do e ← expert_of v; demote move tier e (v ∷ pinned)

  -- The body of the loop of `makeRoomLocked`.
  unfoldable pub evict_one : Move P → Tier → List ℕ → M P Done
  unfolding evict_victim candidates_of
  evict_one move tier pinned s =
      evict_victim move tier pinned
        (P.select_victim s.policy tier (candidates_of tier s.experts) pinned) s

  unfoldable pub room_loop : Move P → ℕ → Tier → ℕ → List ℕ → M P Done
  unfolding evict_one usage_for available_bytes
  room_loop move zero tier required pinned s = (throws out_of_fuel, s)
  room_loop move (suc f) tier required pinned s =
      let rest = room_loop move f tier required pinned in
      if ltb (available_bytes (usage_for s.memory tier)) required
      then (evict_one move tier pinned >> rest) s
      else (ok tt, s)

  unfoldable pub make_room : Move P → Room P
  unfolding room_loop usage_for same
  make_room move tier required pinned s =
      if same tier nvme
      then (ok tt, s)
      else if ltb (usage_for s.memory tier).limit_bytes required
      then (throws runtime_error, s)
      else room_loop move (suc (length s.experts)) tier required pinned s

  unfoldable pub move_expert : ℕ → Move P
  unfolding move_body make_room
  move_expert zero layer id destination pinned s = (throws out_of_fuel, s)
  move_expert (suc d) layer id destination pinned s =
      move_body (make_room (move_expert d)) (λ t. move_expert d layer id t pinned) layer id
        destination pinned s

-- From NVMe to VRAM by RAM, a victim from VRAM to RAM, and a victim from RAM to NVMe.
abbrev pub call_depth : ℕ
call_depth = 4
