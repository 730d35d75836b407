-- ===== src/Experts/Failures.antt =====
-- What a failed transfer leaves behind, when the destination tier has room.
use hypermoe_engine.Base.{
  ℕ, suc, ◌+◌, ◌-◌, ◌≤◌, ◌<◌, ◌≡◌, refl, ap, Bool, false, Option, some, List, [], ◌∷◌, arith,
}
use hypermoe_engine.Base.Word.{modulus64}
use hypermoe_engine.Base.Exec.{continue}
use hypermoe_engine.Base.Outcome.{Error, Outcome, ok, throws, ◌>>=◌}
use hypermoe_engine.Base.Map.{lookup}
use hypermoe_engine.Memory.Tier.{Tier, vram, ram, nvme, same}
use hypermoe_engine.Memory.Manager.{MemoryManager, usage_for, reserved}
use hypermoe_engine.Memory.Manager.Accounting.{Inv, available_lem, allocate-roomy}
use hypermoe_engine.Memory.Manager.Calls.{release-allocate}
use hypermoe_engine.Cache.Policy.{CachePolicy}
use hypermoe_engine.Experts.State.{
  ManagedExpert, ExpertManager, TransferResult, Transfers, M, key, require_expert, give_back,
}
use hypermoe_engine.Experts.Steps.{
  Done, granted_or, granted, reserve_memory, transfer, guarded, or_give_back, uploaded,
}
use hypermoe_engine.Experts.Moves.{
  Move, Room, load_request, upload_request, direct_load, relocate, move_on, move_by, move_warm,
  move_from, move_body, make_room, room_loop, move_expert, fetch,
}
use hypermoe_engine.Experts.Operations.{move, move_locked}

-- The tier has room for `n` bytes without an eviction.
abbrev pub HasRoom : MemoryManager → Tier → ℕ → Type 0
HasRoom m t n = n ≤ (usage_for m t).limit_bytes - (usage_for m t).used_bytes

module _ {P : CachePolicy} where
  pub make_room-roomy :
      (move : Move P) (t : Tier) (n : ℕ) (pinned : List ℕ) (s : ExpertManager P)
      → Inv s.memory
      → HasRoom s.memory t n
      → make_room move t n pinned s ≡ (ok tt, s)
  unfolding make_room room_loop
  make_room-roomy move t n pinned s v h = ground (arith, available_lem s.memory t v)

  pub reserve-roomy :
      (t : Tier) (n : ℕ) (s : ExpertManager P)
      → Inv s.memory
      → HasRoom s.memory t n
      → same t nvme ≡ false
      → 0 < n
      → reserve_memory t n s ≡ (
        ok (record { id = s.memory.next_id; tier = t; size_bytes = n }),
        record s { memory = reserved s.memory t n },
      )
  unfolding reserve_memory granted_or granted
  reserve-roomy t n s v h warm some_bytes =
      rw (allocate-roomy s.memory t n v h warm some_bytes, reserve_memory)

module _ {P : CachePolicy} where
  move_warm_wired :
      (t : Transfers) (room : Room P) (layer id : ℕ) (e : ManagedExpert) (to : Tier)
      (pinned : List ℕ) (s : ExpertManager P)
      → s.transfers ≡ some t
      → move_warm room layer id e to pinned s ≡ move_by (some t) room layer id e to pinned s
  unfolding move_warm
  move_warm_wired t room layer id e to pinned s h =
      ap (λ (o : Option Transfers). move_by o room layer id e to pinned s) h

  move_from_cold :
      (t : Transfers) (room : Room P) (again : Tier → M P Done) (layer id : ℕ) (e : ManagedExpert)
      (pinned : List ℕ) (s : ExpertManager P)
      → s.transfers ≡ some t
      → e.metadata.location ≡ nvme
      → e.residency_leases ≡ 0
      → move_from room again layer id e ram pinned s ≡ direct_load t room layer id pinned s
  unfolding move_from move_by same
  move_from_cold t room again layer id e pinned s h cold free =
      simp (move_from, move_by, cold, free, move_warm_wired t room layer id e ram pinned s h)

  move_from_warm :
      (t : Transfers) (room : Room P) (again : Tier → M P Done) (layer id : ℕ) (e : ManagedExpert)
      (pinned : List ℕ) (s : ExpertManager P)
      → s.transfers ≡ some t
      → e.metadata.location ≡ ram
      → e.residency_leases ≡ 0
      → move_from room again layer id e vram pinned s ≡ relocate room layer id ram vram pinned s
  unfolding move_from move_by move_on same
  move_from_warm t room again layer id e pinned s h warm free =
      simp
        (move_from, move_by, move_on, warm, free, move_warm_wired t room layer id e vram pinned s h)

  guarded_throws :
      {A : Type 0} (n : ℕ) (m : M P A) (x : Error) (s s' : ExpertManager P)
      → m s ≡ (throws x, s')
      → guarded n m s ≡ (throws x, give_back n s')
  unfolding guarded or_give_back
  guarded_throws n m x s s' h = rw (h, guarded, or_give_back) refl

  -- What the checks on a finished upload make of the answer.
  answered :
      (r : Outcome TransferResult) (x : Error) (s : ExpertManager P)
      → (r >>= uploaded) ≡ throws x
      → continue r (λ (a : TransferResult) (s : ExpertManager P). (uploaded a, s)) s ≡ (throws x, s)
  answered (throws y) x s h = cc
  answered (ok r) x s h = cc

  fetch-upload_throws :
      (t : Transfers) (id : ℕ) (e : ManagedExpert) (x : Error) (s : ExpertManager P)
      → s.transfers ≡ some t
      → (t.submit s.submitted (upload_request e id) >>= uploaded) ≡ throws x
      → fetch e ram vram id s ≡ (throws x, record s { submitted = suc s.submitted })
  unfolding fetch transfer same
  fetch-upload_throws t id e x s h fails =
      simp (fetch, h, transfer)
        (answered (t.submit s.submitted (upload_request e id)) x
          (record s { transfers = some t; submitted = suc s.submitted }) fails)

  -- A reservation that is given back leaves its id used up.
  give_back-reserved :
      (tier : Tier) (n : ℕ) (s : ExpertManager P)
      → Inv s.memory
      → s.memory.next_id + 1 < modulus64
      → HasRoom s.memory tier n
      → same tier nvme ≡ false
      → 0 < n
      → give_back s.memory.next_id (record s { memory = reserved s.memory tier n })
        ≡ record s { memory = record s.memory { next_id = s.memory.next_id + 1 } }
  unfolding give_back
  give_back-reserved tier n s v word roomy warm some_bytes =
      let back =
        release-allocate s.memory _ tier n _ v word
          (allocate-roomy s.memory tier n v roomy warm some_bytes) in
      ap (λ (p : MemoryManager × Bool). record s { memory = p.0 }) back

module _ {P : CachePolicy} (s : ExpertManager P) (layer id : ℕ) (e : ManagedExpert) (x : Error)
    (here : lookup (key layer id) s.experts ≡ some e) (valid : Inv s.memory)
    (sized : 0 < e.metadata.size_bytes) where
  direct_load_throws :
      (t : Transfers) (room : Room P) (pinned : List ℕ)
      → HasRoom s.memory ram e.metadata.size_bytes
      → room ram e.metadata.size_bytes pinned s ≡ (ok tt, s)
      → t.submit s.submitted (load_request e id) ≡ throws x
      → direct_load t room layer id pinned s ≡ (
        throws x,
        record s {
          memory = reserved s.memory ram e.metadata.size_bytes;
          submitted = suc s.submitted;
        },
      )
  unfolding direct_load require_expert transfer same
  direct_load_throws t room pinned roomy made fails = rw (
    direct_load,
    require_expert,
    here,
    made,
    require_expert,
    here,
    reserve-roomy ram e.metadata.size_bytes s valid roomy refl sized,
    transfer,
    fails,
  )

  -- A move from NVMe to RAM, in a valid memory manager, of an expert of nonzero size that no lease
  -- holds, where RAM has room for it without an eviction and the transfer service throws for the
  -- load: the move throws the same exception, and right after it RAM holds a new reservation of the
  -- size of the expert, a submission number is used up, and nothing else has changed: the expert is
  -- as it was, on NVMe.
  pub move-load_throws :
      (t : Transfers)
      → HasRoom s.memory ram e.metadata.size_bytes
      → s.transfers ≡ some t
      → e.metadata.location ≡ nvme
      → e.residency_leases ≡ 0
      → t.submit s.submitted (load_request e id) ≡ throws x
      → move layer id ram s ≡ (
        throws x,
        record s {
          memory = reserved s.memory ram e.metadata.size_bytes;
          submitted = suc s.submitted;
        },
      )
  unfolding move move_locked move_expert move_body move_from move_warm move_by require_expert same
  move-load_throws t roomy wired cold free fails =
      rw
        (
          move,
          require_expert,
          here,
          move_locked,
          move_expert,
          move_body,
          require_expert,
          here,
          move_from_cold t (make_room (move_expert 3))
              (λ u. move_expert 3 layer id u (e.policy_id ∷ [])) layer id e (e.policy_id ∷ []) s
              wired cold free,
        )
        (direct_load_throws t (make_room (move_expert 3)) (e.policy_id ∷ []) roomy
          (make_room-roomy (move_expert 3) ram e.metadata.size_bytes (e.policy_id ∷ []) s valid
            roomy)
          fails)

  relocate-upload_throws :
      (t : Transfers) (room : Room P) (pinned : List ℕ)
      → HasRoom s.memory vram e.metadata.size_bytes
      → s.memory.next_id + 1 < modulus64
      → s.transfers ≡ some t
      → room vram e.metadata.size_bytes pinned s ≡ (ok tt, s)
      → (t.submit s.submitted (upload_request e id) >>= uploaded) ≡ throws x
      → relocate room layer id ram vram pinned s ≡ (
        throws x,
        record s {
          memory = record s.memory { next_id = s.memory.next_id + 1 };
          submitted = suc s.submitted;
        },
      )
  unfolding relocate
  relocate-upload_throws t room pinned roomy word wired made fails =
      let taken : ExpertManager P = record s {
        memory = reserved s.memory vram e.metadata.size_bytes;
      } in
      let thrown = fetch-upload_throws t id e x taken wired fails in
      rw
        (
          require_expert,
          here,
          made,
          require_expert,
          here,
          reserve-roomy vram e.metadata.size_bytes s valid roomy refl sized,
          guarded_throws s.memory.next_id (fetch e ram vram id) x taken _ thrown,
        )
        (ap (λ (r : ExpertManager P). (throws x, record r { submitted = suc s.submitted }))
          (give_back-reserved vram e.metadata.size_bytes s valid word roomy refl sized))

  -- A move from RAM to VRAM, in a valid memory manager whose ids have not run out, of an expert of
  -- nonzero size that no lease holds, where VRAM has room for it without an eviction and there is a
  -- transfer service whose upload throws, is cancelled or brings no buffer: the move throws the
  -- exception of the upload, or that of the check on its answer, and gives its reservation back: an
  -- allocation id and a submission number are used up, and nothing else has changed.
  pub move-upload_throws :
      (t : Transfers)
      → HasRoom s.memory vram e.metadata.size_bytes
      → s.memory.next_id + 1 < modulus64
      → s.transfers ≡ some t
      → e.metadata.location ≡ ram
      → e.residency_leases ≡ 0
      → (t.submit s.submitted (upload_request e id) >>= uploaded) ≡ throws x
      → move layer id vram s ≡ (
        throws x,
        record s {
          memory = record s.memory { next_id = s.memory.next_id + 1 };
          submitted = suc s.submitted;
        },
      )
  unfolding move move_locked
  move-upload_throws t roomy word wired warm free fails =
      rw
        (
          move,
          require_expert,
          here,
          move_locked,
          move_expert,
          move_body,
          require_expert,
          here,
          move_from_warm t (make_room (move_expert 3))
              (λ u. move_expert 3 layer id u (e.policy_id ∷ [])) layer id e (e.policy_id ∷ []) s
              wired warm free,
        )
        (relocate-upload_throws t (make_room (move_expert 3)) (e.policy_id ∷ []) roomy word wired
          (make_room-roomy (move_expert 3) vram e.metadata.size_bytes (e.policy_id ∷ []) s valid
            roomy)
          fails)
