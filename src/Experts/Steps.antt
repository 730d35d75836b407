-- ===== src/Experts/Steps.antt =====
-- The steps of `moveExpertLocked` in src/experts/expert_manager/expert_manager.cpp: reservations,
-- transfers, and the writes that a finished move makes. The `catch` blocks are functions of the
-- outcome of what they guard.
use hypermoe_engine.Base.{
  ℕ, suc, Bool, true, false, ◌&&◌, Option, none, some, List, [], ◌∷◌, ◌==◌, if◌then◌else◌,
}
use hypermoe_engine.Base.Word.{add64}
use hypermoe_engine.Base.Outcome.{Outcome, ok, throws, runtime_error, logic_error, is_runtime_error}
use hypermoe_engine.Base.Map.{Map}
use hypermoe_engine.Memory.Tier.{Tier, vram, ram, nvme, same}
use hypermoe_engine.Memory.Manager.{MemoryManager, Allocation}
use hypermoe_engine.Memory.Manager
use hypermoe_engine.Cache.Policy.{CachePolicy}
use hypermoe_engine.Experts.State.{
  Buffer, ManagedExpert, TransferRequest, TransferResult, Transfers, ExpertManager, M, write_expert,
  give_back,
}

-- The value of a `void` method.
abbrev pub Done : Type 0
Done = Unit {0}

-- `destinationWeights` and `destinationDeviceWeights`
pub record Payload : Type 0 where
  pub host : Option Buffer
  pub device : Option Buffer

-- The checks on a finished host transfer: cancelled, no buffer, another size.
unfoldable pub loaded_buffer : TransferResult → ℕ → Outcome Buffer
loaded_buffer r size = elim r.buffer [
  | none ↦ throws runtime_error
  | some b ↦
      if r.completed
      then (if b.size == size then ok b else throws runtime_error)
      else throws runtime_error
]

unfoldable pub downloaded : TransferResult → Outcome Payload
downloaded r = elim r.buffer [
  | none ↦ throws runtime_error
  | some b ↦
      if r.completed then ok (record { host = some b; device = none }) else throws runtime_error
]

unfoldable pub uploaded : TransferResult → Outcome Payload
uploaded r = elim r.device_buffer [
  | none ↦ throws runtime_error
  | some b ↦
      if r.completed then ok (record { host = none; device = some b }) else throws runtime_error
]

-- `candidatesLocked`: the policy ids of the experts in the tier that no lease holds.
unfoldable pub candidates_of : Tier → Map ManagedExpert → List ℕ
unfolding same
candidates_of tier [] = []
candidates_of tier ((k, e) ∷ m) =
    let rest = candidates_of tier m in
    if same e.metadata.location tier && e.residency_leases == 0 then e.policy_id ∷ rest else rest

module _ {P : CachePolicy} where
  unfoldable pub granted : Option Allocation × MemoryManager → M P Allocation
  granted (none, m) s = (throws runtime_error, record s { memory = m })
  granted (some a, m) s = (ok a, record s { memory = m })

  unfoldable pub granted_or : Outcome (Option Allocation × MemoryManager) → M P Allocation
  unfolding granted
  granted_or (ok r) s = granted r s
  granted_or (throws e) s = (throws e, s)

  -- `memory_.allocate`, and the throw where it returns nothing.
  unfoldable pub reserve_memory : Tier → ℕ → M P Allocation
  unfolding granted_or
  reserve_memory tier size s = granted_or (Manager.allocate s.memory tier size) s

  -- `transfers_->submit(request)`, and `get()` on its future.
  unfoldable pub transfer : Transfers → TransferRequest → M P TransferResult
  transfer t r s = (t.submit s.submitted r, record s { submitted = suc s.submitted })

  -- `catch (...) { (void)memory_.release(id); throw; }`
  unfoldable pub or_give_back : {A : Type 0} → ℕ → Outcome A → M P A
  unfolding give_back
  or_give_back id (ok a) s = (ok a, s)
  or_give_back id (throws e) s = (throws e, give_back id s)

  unfoldable pub guarded : {A : Type 0} → ℕ → M P A → M P A
  unfolding or_give_back
  guarded id m s = let (r, s') = m s in or_give_back id r s'

  -- `catch (const std::runtime_error&)`
  unfoldable pub on_runtime_error : M P Done → Outcome Done → M P Done
  unfolding is_runtime_error
  on_runtime_error handler (ok a) s = (ok a, s)
  on_runtime_error handler (throws e) s = if is_runtime_error e then handler s else (throws e, s)

  unfoldable pub try : M P Done → M P Done → M P Done
  unfolding on_runtime_error
  try m handler s = let (r, s') = m s in on_runtime_error handler r s'

  -- The source allocation is released; if it is unknown, the new one is given back.
  unfoldable pub replace_allocation : Option Allocation → ℕ → M P Done
  unfolding give_back Manager.release
  replace_allocation none id s = (ok tt, s)
  replace_allocation (some old) id s =
      let (m, done) = Manager.release s.memory old.id in
      if done then (ok tt, record s { memory = m }) else (throws logic_error, give_back id s)

  -- What the expert owns after a move, and `onResident`.
  unfoldable pub place :
      ℕ → ℕ → ManagedExpert → Tier → Option Allocation → Payload → ExpertManager P → ExpertManager P
  unfolding write_expert
  place layer id e tier allocation p s =
      record (write_expert layer id
        (record e {
          metadata = record e.metadata { location = tier };
          allocation = allocation;
          weights = p.host;
          device_weights = p.device;
        })
        s) { policy = P.on_resident s.policy e.policy_id tier }

  -- `onEvict`, and the counter of evictions from VRAM.
  unfoldable pub evicted_from : Tier → ManagedExpert → ExpertManager P → ExpertManager P
  unfolding same add64
  evicted_from source e s =
      let counted : ExpertManager P =
        if same source vram
        then record s { stats = record s.stats { vram_evictions = add64 s.stats.vram_evictions 1 } }
        else s in
      if same source nvme
      then counted
      else record counted { policy = P.on_evict counted.policy e.policy_id source }

  unfoldable pub promoted : Tier → ExpertManager P → ExpertManager P
  unfolding same add64
  promoted destination s =
      if same destination vram
      then record s { stats = record s.stats { vram_promotions = add64 s.stats.vram_promotions 1 } }
      else s

  -- A move to NVMe: the reservation and the buffers are given up.
  unfoldable pub cold : ℕ → ℕ → ManagedExpert → Tier → M P Done
  unfolding write_expert same add64
  cold layer id e source s =
      let counted : ExpertManager P =
        if same source vram
        then record s { stats = record s.stats { vram_evictions = add64 s.stats.vram_evictions 1 } }
        else if same source ram
        then record s { stats = record s.stats { ram_evictions = add64 s.stats.ram_evictions 1 } }
        else s in
      let told : ExpertManager P = record counted {
        policy = P.on_evict counted.policy e.policy_id source;
      } in
      (
        ok tt,
        write_expert layer id
            (record e {
              metadata = record e.metadata { location = nvme };
              allocation = none;
              weights = none;
              device_weights = none;
            })
            told,
      )

  -- `!memory_.release(id)` is an error.
  unfoldable pub release_then : MemoryManager × Bool → M P Done → M P Done
  release_then (m, true) next s = next (record s { memory = m })
  release_then (m, false) next s = (throws logic_error, s)

  unfoldable pub unload : ℕ → ℕ → ManagedExpert → Tier → M P Done
  unfolding cold release_then Manager.release
  unload layer id e source s = elim e.allocation [
    | none ↦ cold layer id e source s
    | some a ↦ release_then (Manager.release s.memory a.id) (cold layer id e source) s
  ]

  -- Without a transfer service the host weights are copied.
  unfoldable pub copied : ManagedExpert → Tier → M P Payload
  unfolding same
  copied e source s = elim e.weights [
    | none ↦ (ok (record { host = none; device = e.device_weights }), s)
    | some b ↦
        if same source nvme
        then (ok (record { host = some b; device = e.device_weights }), s)
        else (
          ok (record { host = some (record b { copy = suc s.copies }); device = e.device_weights }),
          record s { copies = suc s.copies },
        )
  ]

  -- The writes of a finished move from `source`.
  unfoldable pub settle :
      ℕ → ℕ → ManagedExpert → Tier → Tier → Allocation → Payload → ExpertManager P → ExpertManager P
  unfolding place promoted evicted_from
  settle layer id e source destination a p s =
      place layer id e destination (some a) p (promoted destination (evicted_from source e s))
