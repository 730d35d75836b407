-- ===== src/Memory/Manager.antt =====
-- include/hypermoe/memory/memory_manager.hpp, src/memory/vram_manager/memory_manager.cpp: logical
-- reservations in the VRAM and RAM tiers. The mutex makes each method one step. The tag of an
-- allocation, a text for diagnostics that no code reads, is left out.
pub mod Accounting
pub mod Calls
use hypermoe_engine.Base.{
  ℕ, ◌≡◌, Bool, true, false, Option, none, some, [], ltb, ◌==◌, if◌then◌else◌,
}
use hypermoe_engine.Base.Word.{add64, sub64}
use hypermoe_engine.Base.Outcome.{Outcome, ok, throws, invalid_argument}
use hypermoe_engine.Base.Map.{Map, lookup, erase, emplace, has}
use hypermoe_engine.Memory.Tier.{Tier, vram, ram, pinned_ram, nvme, same}

pub record Allocation : Type 0 where
  pub id : ℕ
  pub tier : Tier
  pub size_bytes : ℕ

pub record TierUsage : Type 0 where
  pub used_bytes : ℕ
  pub limit_bytes : ℕ

unfoldable pub available_bytes : TierUsage → ℕ
unfolding sub64
available_bytes u = sub64 u.limit_bytes u.used_bytes

pub record MemoryManager : Type 0 where
  pub vram_usage : TierUsage
  pub ram_usage : TierUsage
  pub next_id : ℕ
  pub allocations : Map Allocation

-- The constructor.
unfoldable pub init : ℕ → ℕ → MemoryManager
init vram_limit ram_limit = record {
  vram_usage = record { used_bytes = 0; limit_bytes = vram_limit };
  ram_usage = record { used_bytes = 0; limit_bytes = ram_limit };
  next_id = 1;
  allocations = [];
}

-- Every tier but VRAM is accounted in the RAM usage.
unfoldable pub usage_for : MemoryManager → Tier → TierUsage
usage_for m vram = m.vram_usage
usage_for m ram = m.ram_usage
usage_for m pinned_ram = m.ram_usage
usage_for m nvme = m.ram_usage

-- A write through the reference that `usageFor` returns.
unfoldable pub set_used : MemoryManager → Tier → ℕ → MemoryManager
set_used m vram n = record m { vram_usage = record m.vram_usage { used_bytes = n } }
set_used m ram n = record m { ram_usage = record m.ram_usage { used_bytes = n } }
set_used m pinned_ram n = record m { ram_usage = record m.ram_usage { used_bytes = n } }
set_used m nvme n = record m { ram_usage = record m.ram_usage { used_bytes = n } }

-- The writes of a reservation that fits.
unfoldable pub reserved : MemoryManager → Tier → ℕ → MemoryManager
unfolding usage_for set_used emplace add64
reserved m tier size =
    let allocation : Allocation = record { id = m.next_id; tier = tier; size_bytes = size } in
    set_used
      (record m {
        next_id = add64 m.next_id 1;
        allocations = emplace m.next_id allocation m.allocations;
      })
      tier (add64 (usage_for m tier).used_bytes size)

unfoldable pub reserve : MemoryManager → Tier → ℕ → Outcome (Option Allocation × MemoryManager)
unfolding usage_for available_bytes
reserve m tier size =
    if ltb (available_bytes (usage_for m tier)) size
    then ok (none, m)
    else ok (some (record { id = m.next_id; tier = tier; size_bytes = size }), reserved m tier size)

unfoldable pub allocate : MemoryManager → Tier → ℕ → Outcome (Option Allocation × MemoryManager)
unfolding reserve same
allocate m tier size =
    if same tier nvme
    then throws invalid_argument
    else if size == 0
    then throws invalid_argument
    else reserve m tier size

-- The writes that give back the allocation `id` of `size` bytes in `tier`.
unfoldable pub released : MemoryManager → ℕ → Tier → ℕ → MemoryManager
unfolding usage_for set_used sub64 erase
released m id tier size = record (set_used m tier (sub64 (usage_for m tier).used_bytes size)) {
  allocations = erase id m.allocations;
}

unfoldable pub release : MemoryManager → ℕ → MemoryManager × Bool
unfolding released lookup
release m id = elim (lookup id m.allocations) [
  | none ↦ (m, false)
  | some a ↦ (released m id a.tier a.size_bytes, true)
]

unfoldable pub usage : MemoryManager → Tier → Outcome TierUsage
unfolding usage_for same
usage m tier = if same tier nvme then throws invalid_argument else ok (usage_for m tier)

unfoldable pub contains : MemoryManager → ℕ → Bool
unfolding has
contains m id = has id m.allocations
