-- ===== src/Experts/Pressure.antt =====
-- src/memory/MemoryPressureController.hpp, src/memory/MemoryPressureController.cpp: a poll of the
-- memory, which evicts experts down to a safety margin. The controller shares its memory manager with
-- the expert manager. How many transfers are pending is an argument.
pub mod Leased
use hypermoe_engine.Base.{ℕ, ◌-◌, Bool, true, false, ltb, leb, if◌then◌else◌}
use hypermoe_engine.Base.Word.{add64}
use hypermoe_engine.Base.Outcome.{Outcome, ok, throws}
use hypermoe_engine.Base.Exec.{Exec, continue, pure, ◌>>=◌, ◌>>◌}
use hypermoe_engine.Memory.Tier.{Tier, vram, ram}
use hypermoe_engine.Memory.Manager.{TierUsage, usage_for}
use hypermoe_engine.Cache.Policy.{CachePolicy}
use hypermoe_engine.Experts.State.{ExpertManager}
use hypermoe_engine.Experts.Residency.{evict_until_within}

pub record MemoryPressureConfig : Type 0 where
  pub vram_safety_margin_bytes : ℕ
  pub ram_safety_margin_bytes : ℕ
  pub storage_queue_high_watermark : ℕ

pub record MemoryPressureReport : Type 0 where
  pub vram_pressure : Bool
  pub ram_pressure : Bool
  pub storage_queue_pressure : Bool
  pub vram_experts_moved : ℕ
  pub ram_experts_moved : ℕ
  pub storage_queue_depth : ℕ

pub record MemoryPressureStats : Type 0 where
  pub polls : ℕ
  pub vram_pressure_events : ℕ
  pub ram_pressure_events : ℕ
  pub storage_queue_pressure_events : ℕ

pub record MemoryPressureController (P : CachePolicy) : Type 0 where
  pub experts : ExpertManager P
  pub config : MemoryPressureConfig
  pub stats : MemoryPressureStats

-- `limit > margin ? limit - margin : 0`
unfoldable pub target_of : TierUsage → ℕ → ℕ
target_of u margin = if ltb margin u.limit_bytes then u.limit_bytes - margin else 0

unfoldable pub count_event : Tier → MemoryPressureStats → MemoryPressureStats
unfolding add64
count_event vram s = record s { vram_pressure_events = add64 s.vram_pressure_events 1 }
count_event _ s = record s { ram_pressure_events = add64 s.ram_pressure_events 1 }

module _ {P : CachePolicy} where
  abbrev pub used_bytes : Tier → MemoryPressureController P → ℕ
  used_bytes tier c = (usage_for c.experts.memory tier).used_bytes

  -- `experts_.evictUntilWithin(tier, target)`
  unfoldable pub evict : Tier → ℕ → Exec (MemoryPressureController P) ℕ
  evict tier target c =
      let (r, experts) = evict_until_within tier target c.experts in
      (r, record c { experts = experts })

  -- Is the tier under pressure, and how many experts were moved then?
  unfoldable pub relieve : Tier → ℕ → Exec (MemoryPressureController P) (Bool × ℕ)
  unfolding count_event
  relieve tier target c =
      if ltb target (used_bytes tier c)
      then (do n ← evict tier target; pure (true, n))
          (record c { stats = count_event tier c.stats })
      else (ok (false, 0), c)

  unfoldable pub look_at_queue : ℕ → Exec (MemoryPressureController P) Bool
  unfolding add64
  look_at_queue pending c =
      if leb c.config.storage_queue_high_watermark pending
      then (
        ok true,
        record c {
          stats = record c.stats {
            storage_queue_pressure_events = add64 c.stats.storage_queue_pressure_events 1;
          };
        },
      )
      else (ok false, c)

  unfoldable pub relieve_both : ℕ → ℕ → ℕ → Exec (MemoryPressureController P) MemoryPressureReport
  relieve_both vram_target ram_target pending = do
    v ← relieve vram vram_target
    r ← relieve ram ram_target
    q ← look_at_queue pending
    pure (record {
      vram_pressure = v.0;
      ram_pressure = r.0;
      storage_queue_pressure = q;
      vram_experts_moved = v.1;
      ram_experts_moved = r.1;
      storage_queue_depth = pending;
    })

  -- The targets are those of the usage at the start.
  unfoldable pub poll : ℕ → Exec (MemoryPressureController P) MemoryPressureReport
  unfolding add64
  poll pending c =
      relieve_both (target_of (usage_for c.experts.memory vram) c.config.vram_safety_margin_bytes)
        (target_of (usage_for c.experts.memory ram) c.config.ram_safety_margin_bytes) pending
        (record c { stats = record c.stats { polls = add64 c.stats.polls 1 } })
