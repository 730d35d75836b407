-- ===== src/Cache/Lfu.antt =====
-- `LFUPolicy`, src/cache/LFUPolicy.cpp
pub mod Choice
use hypermoe_engine.Base.{
  ℕ, suc, ◌+◌, ◌≡◌, Bool, true, false, ◌&&◌, ◌||◌, Option, none, some, List, [], ◌∷◌, ltb, ◌==◌,
  if◌then◌else◌, contains,
}
use hypermoe_engine.Base.Word.{add64, max64}
use hypermoe_engine.Base.Map.{Map, lookup, put, emplace, has}
use hypermoe_engine.Memory.Tier.{Tier}

pub record Lfu : Type 0 where
  pub clock : ℕ
  pub frequency : Map ℕ
  pub last_access : Map ℕ

abbrev pub new : Lfu
new = record { clock = 0; frequency = []; last_access = [] }

-- `it == m.end() ? 0 : it->second`
unfoldable pub count : ℕ → Map ℕ → ℕ
unfolding lookup
count id m = elim (lookup id m) [ none ↦ 0 | some n ↦ n ]

-- `++frequency_[id]` starts from 0 at a new key.
unfoldable pub on_access : Lfu → ℕ → Lfu
unfolding add64 put count
on_access p id = record {
  clock = add64 p.clock 1;
  frequency = put id (add64 (count id p.frequency) 1) p.frequency;
  last_access = put id (add64 p.clock 1) p.last_access;
}

unfoldable pub on_resident : Lfu → ℕ → Tier → Lfu
unfolding add64 has emplace
on_resident p id tier =
    let q : Lfu = record p { frequency = emplace id 0 p.frequency } in
    if has id p.last_access then q else record q {
      clock = add64 p.clock 1;
      last_access = emplace id (add64 p.clock 1) p.last_access;
    }

unfoldable pub on_evict : Lfu → ℕ → Tier → Lfu
on_evict p id tier = p

-- The loop's variables `victim`, `minimumFrequency` and `oldest`.
pub record Found : Type 0 where
  pub victim : Option ℕ
  pub minimum_frequency : ℕ
  pub oldest : ℕ

unfoldable pub replaces : Found → ℕ → ℕ → ℕ → Bool
replaces f frequency recency id = elim f.victim [
  | none ↦ true
  | some v ↦
      ltb frequency f.minimum_frequency
      || (frequency == f.minimum_frequency && ltb recency f.oldest
          || frequency == f.minimum_frequency && (recency == f.oldest && ltb id v))
]

-- The loop's body.
unfoldable pub advance : Lfu → List ℕ → Found → ℕ → Found
unfolding count replaces contains
advance p excluded f id =
    let frequency = count id p.frequency in
    let recency = count id p.last_access in
    if contains id excluded
    then f
    else if replaces f frequency recency id
    then record { victim = some id; minimum_frequency = frequency; oldest = recency }
    else f

unfoldable pub scan : Lfu → List ℕ → List ℕ → Found → Option ℕ
unfolding advance
scan p excluded [] f = f.victim
scan p excluded (id ∷ ids) f = scan p excluded ids (advance p excluded f id)

unfoldable pub select_victim : Lfu → Tier → List ℕ → List ℕ → Option ℕ
unfolding scan
select_victim p tier candidates excluded =
    scan p excluded candidates (record { victim = none; minimum_frequency = max64; oldest = max64 })
