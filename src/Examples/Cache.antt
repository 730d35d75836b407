-- ===== src/Examples/Cache.antt =====
-- The cache policies at concrete inputs.
use hypermoe_engine.Base.{ℕ, ◌≡◌, refl, false, some, [], ◌∷◌, arith, Member, here, there, contains}
use hypermoe_engine.Memory.Tier.{vram}
use hypermoe_engine.Cache.Victim.{IsVictim}
use hypermoe_engine.Cache.Lru.{Lru, new, on_access, stamp, select_victim}
use hypermoe_engine.Cache.Lru.Choice.{older, lru-IsVictim, lru-same, used_last, Stamped}
use hypermoe_engine.Cache.Lfu.{Lfu}
use hypermoe_engine.Cache.Lfu
use hypermoe_engine.Cache.Lfu.Choice.{rarer, lfu-IsVictim}

-- Expert 7 was used before expert 8.
abbrev policy : Lru
policy = record { clock = 2; last_access = (8, 2) ∷ (7, 1) ∷ [] }

accessed : on_access (on_access new 7) 8 ≡ policy
unfolding on_access
accessed = refl

oldest_goes : select_victim policy vram (8 ∷ 7 ∷ []) [] ≡ some 7
unfolding select_victim
oldest_goes = refl

pinned_stays : select_victim policy vram (8 ∷ 7 ∷ []) (7 ∷ []) ≡ some 8
unfolding select_victim
pinned_stays = refl

lru-IsVictim_example : IsVictim (older policy) [] (8 ∷ 7 ∷ []) 7
lru-IsVictim_example = lru-IsVictim policy vram (8 ∷ 7 ∷ []) [] 7 oldest_goes

swapped : (c : ℕ) → Member c (8 ∷ 7 ∷ []) → Member c (7 ∷ 8 ∷ [])
swapped _ here = there here
swapped _ (there here) = here
swapped _ (there (there m)) = elim m [ ]

swapped_back : (c : ℕ) → Member c (7 ∷ 8 ∷ []) → Member c (8 ∷ 7 ∷ [])
swapped_back _ here = there here
swapped_back _ (there here) = here
swapped_back _ (there (there m)) = elim m [ ]

lru-same_example :
    select_victim policy vram (8 ∷ 7 ∷ []) [] ≡ select_victim policy vram (7 ∷ 8 ∷ []) []
lru-same_example = lru-same policy vram (8 ∷ 7 ∷ []) (7 ∷ 8 ∷ []) [] swapped swapped_back

policy-Stamped : Stamped policy
unfolding stamp
policy-Stamped id = ground arith

-- Only expert 7 may go.
just_used : select_victim (on_access policy 7) vram (8 ∷ 7 ∷ []) (8 ∷ []) ≡ some 7
unfolding select_victim on_access
just_used = refl

abbrev seven : ℕ
seven = 7

seven_allowed : contains 7 (8 ∷ []) ≡ false
unfolding contains
seven_allowed = refl

used_last_example : seven ≡ seven
used_last_example =
    used_last policy seven vram (8 ∷ 7 ∷ []) (8 ∷ []) (omega arith) policy-Stamped just_used seven
      (there here) seven_allowed

-- Expert 7 was used twice, expert 8 once.
abbrev counts : Lfu
counts = Lfu.on_access (Lfu.on_access (Lfu.on_access Lfu.new 7) 8) 7

rarest_goes : Lfu.select_victim counts vram (7 ∷ 8 ∷ []) [] ≡ some 8
unfolding Lfu.select_victim Lfu.on_access
rarest_goes = refl

lfu-IsVictim_example : IsVictim (rarer counts) [] (7 ∷ 8 ∷ []) 8
lfu-IsVictim_example = lfu-IsVictim counts vram (7 ∷ 8 ∷ []) [] 8 rarest_goes
