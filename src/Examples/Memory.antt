-- ===== src/Examples/Memory.antt =====
-- The memory manager of src/memory/vram_manager/memory_manager.cpp at concrete inputs.
use hypermoe_engine.Base.{◌+◌, ◌≤◌, ◌<◌, ◌≡◌, refl, true, false, some, List, [], ◌∷◌, arith}
use hypermoe_engine.Base.Word.{modulus64}
use hypermoe_engine.Base.Outcome.{ok, throws, invalid_argument}
use hypermoe_engine.Base.Map.{total}
use hypermoe_engine.Memory.Tier.{vram, ram, nvme}
use hypermoe_engine.Memory.Manager.{Allocation, MemoryManager, init, allocate, reserved, release}
use hypermoe_engine.Memory.Manager.Accounting.{init-Inv, vram_bytes, ram_bytes}
use hypermoe_engine.Memory.Manager.Calls.{
  Call, allocates, releases, step, run, history_accounted, release-allocate, release_twice,
}

-- Two allocations, one that does not fit, and two releases of the first.
abbrev calls : List Call
calls = allocates vram 60 ∷ allocates ram 30 ∷ allocates vram 50 ∷ releases 1 ∷ releases 1 ∷ []

used_after : (run (init 100 100) calls).ram_usage.used_bytes ≡ 30
unfolding run step allocate release init reserved
used_after = refl

freed_after : (run (init 100 100) calls).vram_usage.used_bytes ≡ 0
unfolding run step allocate release init reserved
freed_after = refl

allocate-nvme : allocate (init 100 100) nvme 1 ≡ throws invalid_argument
unfolding allocate
allocate-nvme = refl

history_accounted_example :
    let m = run (init 100 100) calls in
    (m.vram_usage.used_bytes ≡ total vram_bytes m.allocations)
    × (m.ram_usage.used_bytes ≡ total ram_bytes m.allocations)
    × (m.vram_usage.used_bytes ≤ 100)
    × (m.ram_usage.used_bytes ≤ 100)
history_accounted_example =
    history_accounted 100 100 calls (omega arith) (omega arith) (omega arith)

abbrev first : Allocation
first = record { id = 1; tier = vram; size_bytes = 60 }

abbrev one_live : MemoryManager
one_live = record {
  vram_usage = record { used_bytes = 60; limit_bytes = 100 };
  ram_usage = record { used_bytes = 0; limit_bytes = 100 };
  next_id = 2;
  allocations = (1, first) ∷ [];
}

allocate_first : allocate (init 100 100) vram 60 ≡ ok (some first, one_live)
unfolding allocate init reserved
allocate_first = refl

next_fits : (init 100 100).next_id + 1 < modulus64
unfolding init
next_fits = omega arith

release-allocate_example :
    release one_live first.id
    ≡ (record (init 100 100) { next_id = (init 100 100).next_id + 1 }, true)
release-allocate_example =
    release-allocate (init 100 100) one_live vram 60 first
      (init-Inv 100 100 (omega arith) (omega arith)) next_fits allocate_first

release_twice_example : release (release one_live 1).0 1 ≡ ((release one_live 1).0, false)
release_twice_example = release_twice one_live 1
