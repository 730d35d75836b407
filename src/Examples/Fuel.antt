-- ===== src/Examples/Fuel.antt =====
-- Calls on an expert manager of src/experts/expert_manager/expert_manager.cpp that evict, and end.
use hypermoe_engine.Base.{ℕ, ◌≡◌, refl, sym, ap, true, Option, none, some, List, [], ◌∷◌}
use hypermoe_engine.Base.Outcome.{ok}
use hypermoe_engine.Memory.Tier.{nvme}
use hypermoe_engine.Cache.Lru.{new}
use hypermoe_engine.Cache.Lru.Choice.{lru_policy}
use hypermoe_engine.Experts.State.{fp16, Buffer, Expert, TransferRequest, Transfers, ExpertManager}
use hypermoe_engine.Experts.Leases.History.{Call, registers, requests, run}
use hypermoe_engine.Experts.Fuel.{ends}
use hypermoe_engine.Experts.Fuel.History.{call_ends, run-ends}

-- Every transfer brings a buffer of 60 bytes.
abbrev buffer : Buffer
buffer = record { address = 7; copy = 0; size = 60 }

abbrev quick : Transfers
quick = record {
  submit =
      λ n r. ok (record { completed = true; buffer = some buffer; device_buffer = some buffer });
}

-- Room for one expert in VRAM and for one in RAM.
abbrev small : ExpertManager lru_policy
small = record {
  memory = record {
    vram_usage = record { used_bytes = 0; limit_bytes = 100 };
    ram_usage = record { used_bytes = 0; limit_bytes = 100 };
    next_id = 1;
    allocations = [];
  };
  policy = new;
  transfers = some quick;
  submitted = 0;
  copies = 0;
  experts = [];
  policy_experts = [];
  legacy_experts = [];
  next_policy_id = 0;
  access_clock = 0;
  stats = record {
    requests = 0;
    vram_hits = 0;
    ram_hits = 0;
    nvme_loads = 0;
    vram_evictions = 0;
    ram_evictions = 0;
    nvme_bytes_read = 0;
    vram_promotions = 0;
  };
}

abbrev expert : ℕ → Expert
expert id = record { id = id; layer = 0; size_bytes = 60; quantization = fp16; location = nvme }

-- The second request evicts the first expert to RAM, the third one both.
abbrev calls : List Call
calls =
    registers (expert 1)
    ∷ registers (expert 2)
    ∷ registers (expert 3)
    ∷ requests 0 1
    ∷ requests 0 2
    ∷ []

quick_ends :
    (t : Transfers) (n : ℕ) (r : TransferRequest)
    → small.transfers ≡ some t
    → ends (t.submit n r) ≡ true
quick_ends t n r h =
    ap (λ (o : Option Transfers). elim o [ none ↦ true | some x ↦ ends (x.submit n r) ]) (sym h)

run-ends_example : call_ends (run small calls) (requests 0 3) ≡ true
run-ends_example = run-ends small calls (requests 0 3) refl refl quick_ends
