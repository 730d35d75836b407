-- ===== src/Experts/Residency.antt =====
-- Eviction on demand, adoption of buffers that others loaded, and residency leases,
-- expert_manager.cpp.
use hypermoe_engine.Base.{
  ℕ, zero, suc, Bool, true, false, not, ◌||◌, Option, none, some, [], ◌∷◌, ltb, ◌==◌, if◌then◌else◌,
  length,
}
use hypermoe_engine.Base.Word.{add64, sub64}
use hypermoe_engine.Base.Outcome.{ok, throws, invalid_argument, logic_error, out_of_fuel}
use hypermoe_engine.Base.Exec.{pure, raise, ◌>>=◌, ◌>>◌}
use hypermoe_engine.Memory.Tier.{Tier, vram, ram, nvme, same}
use hypermoe_engine.Memory.Manager.{usage_for}
use hypermoe_engine.Cache.Policy.{CachePolicy}
use hypermoe_engine.Experts.State.{
  Buffer, same_buffer, ManagedExpert, M, require_expert, write_expert, record_access,
}
use hypermoe_engine.Experts.Steps.{
  Done, Payload, reserve_memory, replace_allocation, settle, candidates_of,
}
use hypermoe_engine.Experts.Operations.{move_locked, make_room_locked}
use hypermoe_engine.Experts.Moves.{expert_of, demote}

-- `location != VRAM || !deviceWeights`, and the same of RAM.
unfoldable pub owns_device : ManagedExpert → Option Buffer
unfolding same
owns_device e = if same e.metadata.location vram then e.device_weights else none

unfoldable pub owns_host : ManagedExpert → Option Buffer
unfolding same
owns_host e = if same e.metadata.location ram then e.weights else none

module _ {P : CachePolicy} where
  -- One round of the loop of `evictUntilWithin`: no victim ends it.
  unfoldable pub evict_or_stop : Tier → ℕ → M P ℕ → Option ℕ → M P ℕ
  unfolding expert_of demote move_locked
  evict_or_stop tier n rest none s = (ok n, s)
  evict_or_stop tier n rest (some v) s =
      (do e ← expert_of v; demote move_locked tier e (v ∷ []); rest) s

  unfoldable pub evict_loop : ℕ → Tier → ℕ → ℕ → M P ℕ
  unfolding evict_or_stop candidates_of usage_for
  evict_loop zero tier maximum n s = (throws out_of_fuel, s)
  evict_loop (suc f) tier maximum n s =
      let rest = evict_loop f tier maximum (suc n) in
      if ltb maximum (usage_for s.memory tier).used_bytes
      then evict_or_stop tier n rest
          (P.select_victim s.policy tier (candidates_of tier s.experts) []) s
      else (ok n, s)

  -- The result is the number of experts that were moved.
  unfoldable pub evict_until_within : Tier → ℕ → M P ℕ
  unfolding evict_loop same
  evict_until_within tier maximum s =
      if same tier nvme
      then (throws invalid_argument, s)
      else evict_loop (suc (length s.experts)) tier maximum 0 s

  unfoldable pub prepare_residency : ℕ → ℕ → Tier → M P Done
  unfolding require_expert make_room_locked same
  prepare_residency layer id destination =
      if same destination ram || same destination vram
      then (do
        e ← require_expert layer id
        if same e.metadata.location destination
            then pure tt
            else make_room_locked destination e.metadata.size_bytes (e.policy_id ∷ []))
      else raise invalid_argument

  unfoldable pub touch : ℕ → ℕ → M P Done
  unfolding require_expert record_access
  touch layer id = do e ← require_expert layer id; λ s. (ok tt, record_access layer id e s)

  -- An expert that is already there must own this very buffer.
  unfoldable pub adopted_before : ℕ → ℕ → Option Buffer → Buffer → M P Done
  unfolding touch same_buffer
  adopted_before layer id owned b =
      if same_buffer owned b then touch layer id else raise logic_error

  -- The expert takes the buffer in the tier, after room has been made.
  unfoldable pub take_over : ℕ → ℕ → ManagedExpert → Tier → Payload → M P Done
  unfolding make_room_locked require_expert reserve_memory replace_allocation settle touch
  take_over layer id e tier p = do
    make_room_locked tier e.metadata.size_bytes (e.policy_id ∷ [])
    e' ← require_expert layer id
    a ← reserve_memory tier e'.metadata.size_bytes
    replace_allocation e'.allocation a.id
    λ s. (ok tt, settle layer id e' e'.metadata.location tier a p s)
    touch layer id

  -- `none` is a buffer that is missing, empty or of a backend that is not available.
  unfoldable pub adopt_device : ℕ → ℕ → Buffer → ManagedExpert → M P Done
  unfolding adopted_before take_over same
  adopt_device layer id b e =
      if not (b.size == e.metadata.size_bytes)
      then raise invalid_argument
      else if same e.metadata.location vram
      then adopted_before layer id e.device_weights b
      else take_over layer id e vram (record { host = none; device = some b })

  unfoldable pub adopt_device_weights : ℕ → ℕ → Option Buffer → M P Done
  unfolding require_expert adopt_device
  adopt_device_weights layer id none = raise invalid_argument
  adopt_device_weights layer id (some b) = require_expert layer id >>= adopt_device layer id b

  unfoldable pub adopt_host : ℕ → ℕ → Buffer → ManagedExpert → M P Done
  unfolding adopted_before take_over same
  adopt_host layer id b e =
      if not (b.size == e.metadata.size_bytes)
      then raise invalid_argument
      else if not (e.residency_leases == 0)
      then raise logic_error
      else if same e.metadata.location ram
      then adopted_before layer id e.weights b
      else take_over layer id e ram (record { host = some b; device = none })

  unfoldable pub adopt_host_weights : ℕ → ℕ → Option Buffer → M P Done
  unfolding require_expert adopt_host
  adopt_host_weights layer id none = raise invalid_argument
  adopt_host_weights layer id (some b) = require_expert layer id >>= adopt_host layer id b

  -- `fetch_add(1)` on the lease counter.
  unfoldable pub lease : ℕ → ℕ → Option Buffer → M P Buffer
  unfolding require_expert write_expert add64
  lease layer id none = raise logic_error
  lease layer id (some b) = do
    e ← require_expert layer id
    λ s.
        (ok b, write_expert layer id (record e { residency_leases = add64 e.residency_leases 1 }) s)

  unfoldable pub when : Bool → M P Done → M P Done
  when true m = m
  when false m = pure tt

  -- A lease on the device buffer, brought back to VRAM if it is not there.
  unfoldable pub acquire_resident_expert : ℕ → ℕ → M P Buffer
  unfolding require_expert move_locked lease owns_device when
  acquire_resident_expert layer id = do
    e ← require_expert layer id
    when (elim (owns_device e) [ none ↦ true | some b ↦ false ])
        (move_locked layer id vram (e.policy_id ∷ []))
    e' ← require_expert layer id
    lease layer id (owns_device e')

  unfoldable pub acquire_host_expert : ℕ → ℕ → M P Buffer
  unfolding require_expert move_locked lease owns_host when same
  acquire_host_expert layer id = do
    e ← require_expert layer id
    when (same e.metadata.location nvme || same e.metadata.location vram)
        (move_locked layer id ram (e.policy_id ∷ []))
    e' ← require_expert layer id
    lease layer id (owns_host e')

  -- `ExpertResidencyLease::reset` of a lease on this expert: `fetch_sub(1)`.
  unfoldable pub reset_lease : ℕ → ℕ → M P Done
  unfolding require_expert write_expert sub64
  reset_lease layer id = do
    e ← require_expert layer id
    λ s. (
      ok tt,
      write_expert layer id (record e { residency_leases = sub64 e.residency_leases 1 }) s,
    )
