-- ===== src/Examples/Experts.antt =====
-- The expert manager of src/experts/expert_manager/expert_manager.cpp at concrete inputs.
use hypermoe_engine.Base.{suc, ◌+◌, ◌≡◌, refl, Option, none, some, List, [], ◌∷◌, arith}
use hypermoe_engine.Base.Outcome.{ok, throws, storage_error}
use hypermoe_engine.Base.Map.{lookup}
use hypermoe_engine.Memory.Tier.{vram, ram, nvme}
use hypermoe_engine.Memory.Manager.{Allocation, MemoryManager, usage_for, reserved}
use hypermoe_engine.Memory.Manager.Accounting.{Inv}
use hypermoe_engine.Cache.Lru.{new}
use hypermoe_engine.Cache.Lru.Choice.{lru_policy}
use hypermoe_engine.Experts.State.{
  fp16, Buffer, ManagedExpert, Stats, Transfers, ExpertManager, key,
}
use hypermoe_engine.Experts.Operations.{move}
use hypermoe_engine.Experts.Residency.{adopt_device_weights}
use hypermoe_engine.Experts.Leases.{SamePlace}
use hypermoe_engine.Experts.Leases.History.{
  Call, requests, moves, prepares, evicts, adopts_host, run, leased_stays,
}
use hypermoe_engine.Experts.Pressure.{MemoryPressureController, poll}
use hypermoe_engine.Experts.Pressure.Leased.{poll-leased}
use hypermoe_engine.Experts.Failures.{HasRoom, move-load_throws, move-upload_throws}
use hypermoe_engine.Experts.Adoption.{Stands, adopt_device_weights-Stands}

-- Every transfer fails in storage.
abbrev broken : Transfers
broken = record { submit = λ n r. throws storage_error }

abbrev ram_allocation : Allocation
ram_allocation = record { id = 1; tier = ram; size_bytes = 64 }

abbrev host_buffer : Buffer
host_buffer = record { address = 1; copy = 0; size = 64 }

abbrev device_buffer : Buffer
device_buffer = record { address = 2; copy = 0; size = 64 }

-- Expert 5 of layer 1 lies in RAM, held by one lease.
abbrev leased : ManagedExpert
leased = record {
  metadata = record { id = 5; layer = 1; size_bytes = 64; quantization = fp16; location = ram };
  policy_id = 0;
  allocation = some ram_allocation;
  weights = some host_buffer;
  device_weights = none;
  residency_leases = 1;
  usage_count = 0;
  last_used = 0;
}

abbrev unleased : ManagedExpert
unleased = record leased { residency_leases = 0 }

-- Expert 6 of layer 1 is still on disk.
abbrev on_disk : ManagedExpert
on_disk = record {
  metadata = record { id = 6; layer = 1; size_bytes = 64; quantization = fp16; location = nvme };
  policy_id = 1;
  allocation = none;
  weights = none;
  device_weights = none;
  residency_leases = 0;
  usage_count = 0;
  last_used = 0;
}

abbrev memory : MemoryManager
memory = record {
  vram_usage = record { used_bytes = 0; limit_bytes = 100 };
  ram_usage = record { used_bytes = 64; limit_bytes = 200 };
  next_id = 2;
  allocations = (1, ram_allocation) ∷ [];
}

memory-Inv : Inv memory
unfolding lookup
memory-Inv = record {
  distinct = (refl, tt);
  fresh = λ id h. ground arith;
  vram_sum = refl;
  ram_sum = refl;
  vram_fits = omega arith;
  ram_fits = omega arith;
  vram_word = omega arith;
  ram_word = omega arith;
  id_word = omega arith;
}

abbrev stats : Stats
stats = record {
  requests = 0;
  vram_hits = 0;
  ram_hits = 0;
  nvme_loads = 0;
  vram_evictions = 0;
  ram_evictions = 0;
  nvme_bytes_read = 0;
  vram_promotions = 0;
}

abbrev with_expert : ManagedExpert → Option Transfers → ExpertManager lru_policy
with_expert five transfers = record {
  memory = memory;
  policy = new;
  transfers = transfers;
  submitted = 0;
  copies = 0;
  experts = (key 1 5, five) ∷ (key 1 6, on_disk) ∷ [];
  policy_experts = (0, key 1 5) ∷ (1, key 1 6) ∷ [];
  legacy_experts = [];
  next_policy_id = 2;
  access_clock = 0;
  stats = stats;
}

five_here : lookup (key 1 5) (with_expert leased none).experts ≡ some leased
unfolding lookup
five_here = refl

five_free_here : lookup (key 1 5) (with_expert unleased (some broken)).experts ≡ some unleased
unfolding lookup
five_free_here = refl

six_here : lookup (key 1 6) (with_expert leased (some broken)).experts ≡ some on_disk
unfolding lookup
six_here = refl

old_live : lookup 1 memory.allocations ≡ some ram_allocation
unfolding lookup
old_live = refl

abbrev attempts : List Call
attempts =
    moves 1 5 nvme
    ∷ requests 1 5
    ∷ evicts ram 0
    ∷ prepares 1 6 vram
    ∷ adopts_host 1 5 (some host_buffer)
    ∷ requests 1 6
    ∷ []

leased_stays_example :
    (e : ManagedExpert) × (lookup (key 1 5) (run (with_expert leased none) attempts).experts
      ≡ some e)
    × (e.residency_leases ≡ 1)
    × SamePlace leased e
leased_stays_example =
    leased_stays (with_expert leased none) attempts 1 5 leased five_here (omega arith)

ram_room : HasRoom memory ram 64
unfolding usage_for
ram_room = omega arith

vram_room : HasRoom memory vram 64
unfolding usage_for
vram_room = omega arith

-- The load of expert 6 fails, and its 64 bytes stay reserved.
move-load_throws_example : move 1 6 ram (with_expert leased (some broken)) ≡ (
  throws storage_error,
  record (with_expert leased (some broken)) { memory = reserved memory ram 64; submitted = suc 0 },
)
move-load_throws_example =
    move-load_throws (with_expert leased (some broken)) 1 6 on_disk storage_error six_here
      memory-Inv (omega arith) broken ram_room refl refl refl refl

move-upload_throws_example : move 1 5 vram (with_expert unleased (some broken)) ≡ (
  throws storage_error,
  record (with_expert unleased (some broken)) {
    memory = record memory { next_id = memory.next_id + 1 };
    submitted = suc 0;
  },
)
move-upload_throws_example =
    move-upload_throws (with_expert unleased (some broken)) 1 5 unleased storage_error
      five_free_here memory-Inv (omega arith) broken vram_room (omega arith) refl refl refl refl

-- The leased expert is taken out of RAM.
adopt_device_weights-Stands_example :
    let (r, s) = adopt_device_weights 1 5 (some device_buffer) (with_expert leased none) in
    (r ≡ ok tt) × Stands 1 5 vram 1 (record { host = none; device = some device_buffer }) s
adopt_device_weights-Stands_example =
    adopt_device_weights-Stands (with_expert leased none) 1 5 leased ram_allocation device_buffer
      five_here refl refl old_live memory-Inv (omega arith) vram_room refl

-- The RAM is to shrink to 10 bytes, but the lease holds its expert.
abbrev controller : MemoryPressureController lru_policy
controller = record {
  experts = with_expert leased none;
  config = record {
    vram_safety_margin_bytes = 0;
    ram_safety_margin_bytes = 190;
    storage_queue_high_watermark = 64;
  };
  stats = record {
    polls = 0;
    vram_pressure_events = 0;
    ram_pressure_events = 0;
    storage_queue_pressure_events = 0;
  };
}

poll-leased_example :
    (e : ManagedExpert) × (lookup (key 1 5) (poll 3 controller).1.experts.experts ≡ some e)
    × (e.residency_leases ≡ 1)
    × SamePlace leased e
poll-leased_example = poll-leased lru_policy controller 3 1 5 leased five_here (omega arith)
