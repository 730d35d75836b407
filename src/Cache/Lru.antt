-- ===== src/Cache/Lru.antt =====
-- `LruCachePolicy`, src/experts/expert_cache/lru_cache_policy.cpp
pub mod Choice
use hypermoe_engine.Base.{
  ℕ, suc, ◌+◌, ◌≡◌, Bool, true, false, ◌&&◌, ◌||◌, Option, none, some, List, [], ◌∷◌, ltb, ◌==◌,
  if◌then◌else◌, contains,
}
use hypermoe_engine.Base.Word.{add64, max64}
use hypermoe_engine.Base.Map.{Map, lookup, put, emplace, has}
use hypermoe_engine.Memory.Tier.{Tier}

pub record Lru : Type 0 where
  pub clock : ℕ
  pub last_access : Map ℕ

abbrev pub new : Lru
new = record { clock = 0; last_access = [] }

unfoldable pub on_access : Lru → ℕ → Lru
unfolding add64 put
on_access p id = record {
  clock = add64 p.clock 1;
  last_access = put id (add64 p.clock 1) p.last_access;
}

unfoldable pub on_resident : Lru → ℕ → Tier → Lru
unfolding add64 has emplace
on_resident p id tier = if has id p.last_access then p else record {
  clock = add64 p.clock 1;
  last_access = emplace id (add64 p.clock 1) p.last_access;
}

unfoldable pub on_evict : Lru → ℕ → Tier → Lru
on_evict p id tier = p

-- `it == lastAccess_.end() ? 0 : it->second`
unfoldable pub stamp : Lru → ℕ → ℕ
unfolding lookup
stamp p id = elim (lookup id p.last_access) [ none ↦ 0 | some t ↦ t ]

-- The loop's variables `victim` and `oldest`.
pub record Found : Type 0 where
  pub victim : Option ℕ
  pub oldest : ℕ

-- `!victim || stamp < oldest || (stamp == oldest && id < *victim)`
unfoldable pub replaces : Found → ℕ → ℕ → Bool
replaces f s id = elim f.victim [
  | none ↦ true
  | some v ↦ ltb s f.oldest || s == f.oldest && ltb id v
]

-- The loop's body.
unfoldable pub advance : Lru → List ℕ → Found → ℕ → Found
unfolding stamp replaces contains
advance p excluded f id =
    if contains id excluded
    then f
    else if replaces f (stamp p id) id
    then record { victim = some id; oldest = stamp p id }
    else f

unfoldable pub scan : Lru → List ℕ → List ℕ → Found → Option ℕ
unfolding advance
scan p excluded [] f = f.victim
scan p excluded (id ∷ ids) f = scan p excluded ids (advance p excluded f id)

unfoldable pub select_victim : Lru → Tier → List ℕ → List ℕ → Option ℕ
unfolding scan
select_victim p tier candidates excluded =
    scan p excluded candidates (record { victim = none; oldest = max64 })
