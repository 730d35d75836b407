-- ===== src/Cache/Policy.antt =====
-- `CachePolicy`: the interface by which the expert manager asks for a victim, with the contract
-- that the manager relies on. `setLayerProbability`, `setPrefetchConfidence` and `residencyScore`
-- only pass floating-point hints, which the LRU and LFU policies ignore.
use hypermoe_engine.Base.{ℕ, ◌≡◌, true, false, Option, none, some, List, contains, Member}
use hypermoe_engine.Memory.Tier.{Tier}

pub record CachePolicy : Type 1 where
  pub State : Type 0
  pub on_access : State → ℕ → State
  pub on_resident : State → ℕ → Tier → State
  pub on_evict : State → ℕ → Tier → State
  pub select_victim : State → Tier → List ℕ → List ℕ → Option ℕ
  pub victim_allowed :
      (s : State) (t : Tier) (candidates excluded : List ℕ) (v : ℕ)
      → select_victim s t candidates excluded ≡ some v
      → Member v candidates × (contains v excluded ≡ false)
  pub no_victim :
      (s : State) (t : Tier) (candidates excluded : List ℕ)
      → select_victim s t candidates excluded ≡ none
      → (c : ℕ) → Member c candidates
      → contains c excluded ≡ true
