-- ===== src/Experts/Adoption.antt =====
-- `adoptDeviceWeights` of expert_manager.cpp, when the device has room: the expert is moved
-- whatever its leases.
use hypermoe_engine.Base.{ℕ, ◌<◌, ◌≡◌, refl, none, some, [], ◌∷◌, ==_refl}
use hypermoe_engine.Base.Outcome.{ok}
use hypermoe_engine.Base.Map.{lookup, lookup-put_self, lookup-emplace_old}
use hypermoe_engine.Memory.Tier.{Tier, vram, ram, same}
use hypermoe_engine.Memory.Manager.{Allocation, MemoryManager, reserved, release}
use hypermoe_engine.Memory.Manager.Accounting.{Inv}
use hypermoe_engine.Cache.Policy.{CachePolicy}
use hypermoe_engine.Experts.State.{
  Buffer, ManagedExpert, ExpertManager, key, require_expert, write_expert, record_access,
}
use hypermoe_engine.Experts.Steps.{Payload, replace_allocation, settle, place}
use hypermoe_engine.Experts.Operations.{make_room_locked, move_locked}
use hypermoe_engine.Experts.Residency.{touch, take_over, adopt_device, adopt_device_weights}
use hypermoe_engine.Experts.Failures.{HasRoom, make_room-roomy, reserve-roomy}

-- The expert stands in the tier with these leases and buffers.
pub record Stands {P : CachePolicy} (layer id : ℕ) (tier : Tier) (leases : ℕ) (p : Payload)
    (s : ExpertManager P) : Type 0 where
  pub expert : ManagedExpert
  pub found : lookup (key layer id) s.experts ≡ some expert
  pub location : expert.metadata.location ≡ tier
  pub leased : expert.residency_leases ≡ leases
  pub host : expert.weights ≡ p.host
  pub device : expert.device_weights ≡ p.device

live :
    (old : Allocation) (m : MemoryManager) (tier : Tier) (n : ℕ)
    → lookup old.id m.allocations ≡ some old
    → lookup old.id (reserved m tier n).allocations ≡ some old
unfolding reserved
live old m vram n h = lookup-emplace_old m.next_id old.id old _ m.allocations h
live old m _ n h = lookup-emplace_old m.next_id old.id old _ m.allocations h

module _ {P : CachePolicy} where
  touch-Stands :
      (layer id : ℕ) (tier : Tier) (n : ℕ) (p : Payload) (s : ExpertManager P)
      → Stands layer id tier n p s
      → ((touch layer id s).0 ≡ ok tt) × Stands layer id tier n p (touch layer id s).1
  unfolding touch record_access write_expert
  touch-Stands layer id tier n p s h =
      rw (touch, require_expert, h.found)
        (
          refl,
          record {
            expert = record h.expert { usage_count = _; last_used = _ };
            found = lookup-put_self (key layer id) _ s.experts;
            location = h.location;
            leased = h.leased;
            host = h.host;
            device = h.device;
          },
        )

  settle-Stands :
      (layer id : ℕ) (e : ManagedExpert) (source tier : Tier) (a : Allocation) (p : Payload)
      (s : ExpertManager P)
      → Stands layer id tier e.residency_leases p (settle layer id e source tier a p s)
  unfolding settle place write_expert
  settle-Stands layer id e source tier a p s = record {
    expert = _;
    found = lookup-put_self (key layer id) _ _;
    location = refl;
    leased = refl;
    host = refl;
    device = refl;
  }

  replaced :
      (old : Allocation) (n : ℕ) (s : ExpertManager P)
      → lookup old.id s.memory.allocations ≡ some old
      → (s' : ExpertManager P) × (replace_allocation (some old) n s ≡ (ok tt, s'))
  unfolding replace_allocation release
  replaced old n s h = rw (replace_allocation, h, release) (_, refl)

  take_over-Stands :
      (s : ExpertManager P) (layer id : ℕ) (e : ManagedExpert) (old : Allocation) (p : Payload)
      → lookup (key layer id) s.experts ≡ some e
      → e.allocation ≡ some old
      → lookup old.id s.memory.allocations ≡ some old
      → Inv s.memory
      → 0 < e.metadata.size_bytes
      → HasRoom s.memory vram e.metadata.size_bytes
      → ((take_over layer id e vram p s).0 ≡ ok tt)
        × Stands layer id vram e.residency_leases p (take_over layer id e vram p s).1
  unfolding same take_over
  take_over-Stands s layer id e old p here owned known v sized roomy =
      let taken : ExpertManager P = record s {
        memory = reserved s.memory vram e.metadata.size_bytes;
      } in
      let (s', done) =
        replaced old s.memory.next_id taken (live old s.memory vram e.metadata.size_bytes known) in
      rw
        (
          take_over,
          make_room_locked,
          make_room-roomy (move_locked {P = P}) vram e.metadata.size_bytes (e.policy_id ∷ []) s v
              roomy,
          require_expert,
          here,
          reserve-roomy vram e.metadata.size_bytes s v roomy refl sized,
          owned,
          done,
        )
        (touch-Stands layer id vram e.residency_leases p _
          (settle-Stands layer id e e.metadata.location vram _ p s'))

  -- An expert in RAM, where VRAM has room for it and the buffer has its size, is moved to VRAM
  -- whatever its leases: the call returns, the leases are still counted, the host weights are gone.
  pub adopt_device_weights-Stands :
      (s : ExpertManager P) (layer id : ℕ) (e : ManagedExpert) (old : Allocation) (b : Buffer)
      → lookup (key layer id) s.experts ≡ some e
      → e.metadata.location ≡ ram
      → e.allocation ≡ some old
      → lookup old.id s.memory.allocations ≡ some old
      → Inv s.memory
      → 0 < e.metadata.size_bytes
      → HasRoom s.memory vram e.metadata.size_bytes
      → b.size ≡ e.metadata.size_bytes
      → let (r, s') = adopt_device_weights layer id (some b) s in
        (r ≡ ok tt)
        × Stands layer id vram e.residency_leases (record { host = none; device = some b }) s'
  unfolding adopt_device_weights
  adopt_device_weights-Stands s layer id e old b here warm owned known v sized roomy fits =
      simp
        (
          adopt_device_weights,
          require_expert,
          here,
          adopt_device,
          fits,
          ==_refl e.metadata.size_bytes,
          warm,
        )
        (take_over-Stands s layer id e old (record { host = none; device = some b }) here owned
          known v sized roomy)
