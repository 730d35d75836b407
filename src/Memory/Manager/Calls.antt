-- ===== src/Memory/Manager/Calls.antt =====
-- What a client of the memory manager may rely on, over single calls and over whole histories.
use hypermoe_engine.Base.{
  ℕ, ◌+◌, ◌-◌, ◌≤◌, ◌<◌, ◌≡◌, refl, inl, inr, true, false, Option, some, List, [], ◌∷◌, arith,
  length, Option-cases, ==_refl,
}
use hypermoe_engine.Base.Word.{modulus64}
use hypermoe_engine.Base.Outcome.{Outcome, ok, throws}
use hypermoe_engine.Base.Map.{lookup, emplace-none, erase-emplace, lookup-erase_self, total}
use hypermoe_engine.Memory.Tier.{Tier, vram}
use hypermoe_engine.Memory.Manager.{
  Allocation, MemoryManager, init, usage_for, reserved, reserve, allocate, released, release,
}
use hypermoe_engine.Memory.Manager.Accounting.{
  Inv, init-Inv, allocate-Inv, release-Inv, available_lem, vram_bytes, ram_bytes,
}

-- A call of a client.
pub data Call : Type 0 where
  allocates : Tier → ℕ → Call
  releases : ℕ → Call

-- A call that throws leaves the manager as it was.
abbrev after : MemoryManager → Outcome (Option Allocation × MemoryManager) → MemoryManager
after m (ok r) = r.1
after m (throws e) = m

unfoldable pub step : MemoryManager → Call → MemoryManager
step m (allocates tier size) = after m (allocate m tier size)
step m (releases id) = (release m id).0

unfoldable pub run : MemoryManager → List Call → MemoryManager
unfolding step
run m [] = m
run m (c ∷ cs) = run (step m c) cs

after_keeps {ℓ} :
    (P : MemoryManager → Type ℓ) (m : MemoryManager)
    (o : Outcome (Option Allocation × MemoryManager))
    → P m
    → ((r : Option Allocation × MemoryManager) → o ≡ ok r → P r.1)
    → P (after m o)
after_keeps P m (ok r) p k = k r refl
after_keeps P m (throws e) p k = p

step-Inv : (m : MemoryManager) (c : Call) → Inv m → m.next_id + 1 < modulus64 → Inv (step m c)
unfolding step
step-Inv m (allocates tier size) v room =
    after_keeps Inv m (allocate m tier size) v λ r e. allocate-Inv m tier size v room e
step-Inv m (releases id) v room = release-Inv m id v

-- What a call leaves alone: the limits, and all but one id.
record Grows (m n : MemoryManager) : Type 0 where
  vram_limit : n.vram_usage.limit_bytes ≡ m.vram_usage.limit_bytes
  ram_limit : n.ram_usage.limit_bytes ≡ m.ram_usage.limit_bytes
  ids : n.next_id ≤ m.next_id + 1

reserved-Grows : (m : MemoryManager) (t : Tier) (size : ℕ) → Grows m (reserved m t size)
unfolding reserved
reserved-Grows m vram size = record { vram_limit = refl; ram_limit = refl; ids = omega arith }
reserved-Grows m _ size = record { vram_limit = refl; ram_limit = refl; ids = omega arith }

released-Grows : (m : MemoryManager) (id : ℕ) (t : Tier) (size : ℕ) → Grows m (released m id t size)
unfolding released
released-Grows m id vram size = record { vram_limit = refl; ram_limit = refl; ids = omega arith }
released-Grows m id _ size = record { vram_limit = refl; ram_limit = refl; ids = omega arith }

step-Grows : (m : MemoryManager) (c : Call) → Grows m (step m c)
unfolding step allocate reserve release
step-Grows m (allocates tier size) = ground (arith, reserved-Grows m tier size)
step-Grows m (releases id) = elim (Option-cases (lookup id m.allocations)) [
  | inl e ↦ rw (e, step, release) record { vram_limit = refl; ram_limit = refl; ids = omega arith }
  | inr (a, e) ↦ rw (e, step, release) (released-Grows m id a.tier a.size_bytes)
]

run-Inv :
    (m : MemoryManager) (cs : List Call)
    → Inv m
    → m.next_id + length cs < modulus64
    → Inv (run m cs)
unfolding run
run-Inv m [] v h = v
run-Inv m (c ∷ cs) v h =
    run-Inv (step m c) cs (step-Inv m c v (omega arith)) (omega (arith, (step-Grows m c).ids))

limits-run :
    (m : MemoryManager) (cs : List Call)
    → ((run m cs).vram_usage.limit_bytes ≡ m.vram_usage.limit_bytes)
      × ((run m cs).ram_usage.limit_bytes ≡ m.ram_usage.limit_bytes)
unfolding run
limits-run m [] = (refl, refl)
limits-run m (c ∷ cs) = ground (arith, step-Grows m c, limits-run (step m c) cs)

-- After any history of fewer than 2^64 - 1 calls on a new manager the bytes in use in each tier are
-- the sum of its live allocations, and at most the limit that the constructor was given.
pub history_accounted :
    (v r : ℕ) (cs : List Call)
    → v < modulus64
    → r < modulus64
    → 1 + length cs < modulus64
    → let m = run (init v r) cs in
      (m.vram_usage.used_bytes ≡ total vram_bytes m.allocations)
      × (m.ram_usage.used_bytes ≡ total ram_bytes m.allocations)
      × (m.vram_usage.used_bytes ≤ v)
      × (m.ram_usage.used_bytes ≤ r)
unfolding init
history_accounted v r cs hv hr h =
    let i = run-Inv (init v r) cs (init-Inv v r hv hr) (omega arith) in
    let l = limits-run (init v r) cs in (i.vram_sum, i.ram_sum, omega arith, omega arith)

used_back :
    (m : MemoryManager) (t : Tier) (size : ℕ)
    → Inv m
    → m.next_id + 1 < modulus64
    → size ≤ (usage_for m t).limit_bytes - (usage_for m t).used_bytes
    → released (reserved m t size) m.next_id t size ≡ record m { next_id = m.next_id + 1 }
unfolding reserved released
used_back m vram size v room h =
    let back =
      erase-emplace m.next_id (record { id = m.next_id; tier = vram; size_bytes = size })
        m.allocations (v.fresh m.next_id (omega arith)) in
    ground (arith, back)
used_back m tier size v room h =
    let back =
      erase-emplace m.next_id (record { id = m.next_id; tier = tier; size_bytes = size })
        m.allocations (v.fresh m.next_id (omega arith)) in
    ground (arith, back)

found :
    (m : MemoryManager) (t : Tier) (size : ℕ)
    → Inv m
    → lookup m.next_id (reserved m t size).allocations
      ≡ some (record { id = m.next_id; tier = t; size_bytes = size })
unfolding reserved lookup
found m vram size v =
    rw (emplace-none m.next_id _ m.allocations (v.fresh m.next_id (omega arith)), ==_refl m.next_id)
found m _ size v =
    rw (emplace-none m.next_id _ m.allocations (v.fresh m.next_id (omega arith)), ==_refl m.next_id)

-- Giving back what was just reserved restores the manager but for the id that was used up.
pub release-allocate :
    (m m' : MemoryManager) (tier : Tier) (size : ℕ) (a : Allocation)
    → Inv m
    → m.next_id + 1 < modulus64
    → allocate m tier size ≡ ok (some a, m')
    → release m' a.id ≡ (record m { next_id = m.next_id + 1 }, true)
unfolding allocate reserve release
release-allocate m m' tier size a v room e =
    ground (arith, available_lem m tier v, used_back m tier size v room, found m tier size v)

-- A second release of one id is refused, and changes nothing.
pub release_twice :
    (m : MemoryManager) (id : ℕ) → release (release m id).0 id ≡ ((release m id).0, false)
unfolding release released
release_twice m id = ground (arith, lookup-erase_self id m.allocations)
