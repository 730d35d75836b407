-- ===== src/Experts/Operations.antt =====
-- The public operations of the expert manager, expert_manager.cpp. The mutex makes each one step.
-- Tensor views of resident weights, and the floating-point hints and scores, are left out.
use hypermoe_engine.Base.{ℕ, List, [], ◌∷◌}
use hypermoe_engine.Base.Word.{add64}
use hypermoe_engine.Base.Outcome.{ok}
use hypermoe_engine.Base.Exec.{◌>>=◌, ◌>>◌}
use hypermoe_engine.Memory.Tier.{Tier, vram, ram}
use hypermoe_engine.Cache.Policy.{CachePolicy}
use hypermoe_engine.Experts.State.{Expert, Stats, M, require_expert, record_access}
use hypermoe_engine.Experts.Steps.{Done}
use hypermoe_engine.Experts.Moves.{Move, make_room, move_expert, call_depth}

pub data RequestSource : Type 0 where
  vram_hit ram_hit nvme_load : RequestSource

unfoldable pub source_of : Tier → RequestSource
source_of vram = vram_hit
source_of ram = ram_hit
source_of _ = nvme_load

unfoldable pub count_request : RequestSource → ℕ → Stats → Stats
unfolding add64
count_request vram_hit size s = record s {
  requests = add64 s.requests 1;
  vram_hits = add64 s.vram_hits 1;
}
count_request ram_hit size s = record s {
  requests = add64 s.requests 1;
  ram_hits = add64 s.ram_hits 1;
}
count_request nvme_load size s = record s {
  requests = add64 s.requests 1;
  nvme_loads = add64 s.nvme_loads 1;
  nvme_bytes_read = add64 s.nvme_bytes_read size;
}

module _ {P : CachePolicy} where
  -- `moveExpertLocked` and `makeRoomLocked` with enough fuel.
  unfoldable pub move_locked : Move P
  unfolding move_expert
  move_locked = move_expert call_depth

  unfoldable pub make_room_locked : Tier → ℕ → List ℕ → M P Done
  unfolding make_room move_locked
  make_room_locked = make_room move_locked

  unfoldable pub move : ℕ → ℕ → Tier → M P Done
  unfolding require_expert move_locked
  move layer id destination = do
    e ← require_expert layer id
    move_locked layer id destination (e.policy_id ∷ [])

  -- An expert is wanted in VRAM.
  unfoldable pub request : ℕ → ℕ → M P (Expert × RequestSource)
  unfolding require_expert move_locked record_access count_request source_of
  request layer id = do
    e ← require_expert layer id
    move_locked layer id vram (e.policy_id ∷ [])
    e' ← require_expert layer id
    λ s. (
      ok (e'.metadata, source_of e.metadata.location),
      record (record_access layer id e' s) {
        stats = count_request (source_of e.metadata.location) e.metadata.size_bytes s.stats;
      },
    )
