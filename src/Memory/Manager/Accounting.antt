-- ===== src/Memory/Manager/Accounting.antt =====
-- The accounting invariant of the memory manager, and that its operations keep it.
use hypermoe_engine.Base.{
  ℕ, ◌+◌, ◌-◌, ◌≤◌, ◌<◌, ◌≡◌, refl, inl, inr, false, Option, none, some, arith, Option-cases,
}
use hypermoe_engine.Base.Word.{modulus64}
use hypermoe_engine.Base.Outcome.{ok}
use hypermoe_engine.Base.Map.{
  lookup, erase, Distinct, total, total-erase, lookup-erase, Distinct-erase, emplace-none,
}
use hypermoe_engine.Memory.Tier.{Tier, vram, nvme, same}
use hypermoe_engine.Memory.Manager.{
  Allocation, MemoryManager, available_bytes, init, usage_for, reserve, reserved, allocate,
  released, release,
}

-- What an allocation counts for in the VRAM usage, and in the RAM usage.
abbrev pub vram_size : Tier → ℕ → ℕ
vram_size vram n = n
vram_size _ n = 0

abbrev pub ram_size : Tier → ℕ → ℕ
ram_size vram n = 0
ram_size _ n = n

abbrev pub vram_bytes : Allocation → ℕ
vram_bytes a = vram_size a.tier a.size_bytes

abbrev pub ram_bytes : Allocation → ℕ
ram_bytes a = ram_size a.tier a.size_bytes

-- The usage counters are the sums over the live allocations and stay within the limits; ids are
-- unique and below `next_id`.
pub record Inv (m : MemoryManager) : Type 0 where
  pub distinct : Distinct m.allocations
  pub fresh : (id : ℕ) → m.next_id ≤ id → lookup id m.allocations ≡ none
  pub vram_sum : m.vram_usage.used_bytes ≡ total vram_bytes m.allocations
  pub ram_sum : m.ram_usage.used_bytes ≡ total ram_bytes m.allocations
  pub vram_fits : m.vram_usage.used_bytes ≤ m.vram_usage.limit_bytes
  pub ram_fits : m.ram_usage.used_bytes ≤ m.ram_usage.limit_bytes
  pub vram_word : m.vram_usage.limit_bytes < modulus64
  pub ram_word : m.ram_usage.limit_bytes < modulus64
  pub id_word : m.next_id < modulus64

pub init-Inv : (v r : ℕ) → v < modulus64 → r < modulus64 → Inv (init v r)
unfolding init lookup
init-Inv v r h k = record {
  distinct = tt;
  fresh = λ id _. refl;
  vram_sum = refl;
  ram_sum = refl;
  vram_fits = omega arith;
  ram_fits = omega arith;
  vram_word = h;
  ram_word = k;
  id_word = omega arith;
}

-- `availableBytes()` does not wrap in a valid state.
pub available_lem :
    (m : MemoryManager) (tier : Tier)
    → Inv m
    → available_bytes (usage_for m tier)
      ≡ (usage_for m tier).limit_bytes - (usage_for m tier).used_bytes
unfolding available_bytes usage_for
available_lem m vram v = omega (arith, v.vram_fits, v.vram_word)
available_lem m _ v = omega (arith, v.ram_fits, v.ram_word)

pub reserved-Inv :
    (m : MemoryManager) (tier : Tier) (size : ℕ)
    → Inv m
    → m.next_id + 1 < modulus64
    → size ≤ (usage_for m tier).limit_bytes - (usage_for m tier).used_bytes
    → Inv (reserved m tier size)
unfolding reserved lookup
reserved-Inv m vram size v room h =
    rw (emplace-none m.next_id _ m.allocations (v.fresh m.next_id (omega arith))) record {
      distinct = (v.fresh m.next_id (omega arith), v.distinct);
      fresh = λ id k. ground (arith, v.fresh id);
      vram_sum = omega arith;
      ram_sum = omega arith;
      vram_fits = omega arith;
      ram_fits = omega arith;
      vram_word = v.vram_word;
      ram_word = v.ram_word;
      id_word = omega arith;
    }
reserved-Inv m _ size v room h =
    rw (emplace-none m.next_id _ m.allocations (v.fresh m.next_id (omega arith))) record {
      distinct = (v.fresh m.next_id (omega arith), v.distinct);
      fresh = λ id k. ground (arith, v.fresh id);
      vram_sum = omega arith;
      ram_sum = omega arith;
      vram_fits = omega arith;
      ram_fits = omega arith;
      vram_word = v.vram_word;
      ram_word = v.ram_word;
      id_word = omega arith;
    }

-- A reservation that fits is granted.
pub allocate-roomy :
    (m : MemoryManager) (tier : Tier) (size : ℕ)
    → Inv m
    → size ≤ (usage_for m tier).limit_bytes - (usage_for m tier).used_bytes
    → same tier nvme ≡ false
    → 0 < size
    → allocate m tier size
      ≡ ok (some (record { id = m.next_id; tier = tier; size_bytes = size }), reserved m tier size)
unfolding allocate reserve
allocate-roomy m tier size v h warm some_bytes = rw warm (ground (arith, available_lem m tier v))

-- A reservation, granted or refused, keeps the accounting.
pub allocate-Inv :
    (m : MemoryManager) (tier : Tier) (size : ℕ) {r : Option Allocation × MemoryManager}
    → Inv m
    → m.next_id + 1 < modulus64
    → allocate m tier size ≡ ok r
    → Inv r.1
unfolding allocate reserve
allocate-Inv m tier size v room e =
    ground (arith, available_lem m tier v, reserved-Inv m tier size v room)

released-Inv :
    (m : MemoryManager) (id : ℕ) (tier : Tier) (size : ℕ)
    → Inv m
    → total vram_bytes m.allocations
      ≡ vram_size tier size + total vram_bytes (erase id m.allocations)
    → total ram_bytes m.allocations ≡ ram_size tier size + total ram_bytes (erase id m.allocations)
    → Inv (released m id tier size)
unfolding released
released-Inv m id vram size v s s' = record {
  distinct = Distinct-erase id m.allocations v.distinct;
  fresh = λ j k. rw (lookup-erase id j m.allocations) (ground (arith, v.fresh j));
  vram_sum = omega arith;
  ram_sum = omega arith;
  vram_fits = omega arith;
  ram_fits = omega arith;
  vram_word = v.vram_word;
  ram_word = v.ram_word;
  id_word = v.id_word;
}
released-Inv m id _ size v s s' = record {
  distinct = Distinct-erase id m.allocations v.distinct;
  fresh = λ j k. rw (lookup-erase id j m.allocations) (ground (arith, v.fresh j));
  vram_sum = omega arith;
  ram_sum = omega arith;
  vram_fits = omega arith;
  ram_fits = omega arith;
  vram_word = v.vram_word;
  ram_word = v.ram_word;
  id_word = v.id_word;
}

-- So does a release, of a live id or of any other.
pub release-Inv : (m : MemoryManager) (id : ℕ) → Inv m → Inv (release m id).0
unfolding release
release-Inv m id v = elim (Option-cases (lookup id m.allocations)) [
  | inl gone ↦ rw (gone, release) v
  | inr (a, live) ↦
      rw (live, release)
        (released-Inv m id a.tier a.size_bytes v
          (total-erase vram_bytes id a m.allocations v.distinct live)
          (total-erase ram_bytes id a m.allocations v.distinct live))
]
