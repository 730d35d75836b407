-- ===== src/Memory/Tier.antt =====
-- include/hypermoe/memory/memory_tier.hpp
use mathlib.Core.Bool.{Bool, true, false}
use mathlib.Core.Path.{◌≡◌}
use native.Mathlib.Omega.{arith}

pub data Tier : Type 0 where
  vram ram pinned_ram nvme : Tier

pub Tier-discrete : Discrete Tier
Tier-discrete = hlevel

-- `left == right`
unfoldable pub same : Tier → Tier → Bool
same vram vram = true
same ram ram = true
same pinned_ram pinned_ram = true
same nvme nvme = true
same _ _ = false

pub same_refl : (t : Tier) → same t t ≡ true
unfolding same
same_refl t = ground arith

pub same→eq : (t u : Tier) → same t u ≡ true → t ≡ u
unfolding same
same→eq t u h = ground arith
