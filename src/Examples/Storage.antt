-- ===== src/Examples/Storage.antt =====
-- The expert index of src/storage/ExpertIndex.cpp at concrete inputs.
use hypermoe_engine.Base.{ℕ, ◌-◌, ◌^◌, ◌≡◌, refl, some, [], ◌∷◌, arith, All, get_elem?}
use hypermoe_engine.Base.Map.{lookup, has, emplace, put, erase}
use hypermoe_engine.Base.Outcome.{ok, throws, storage_error}
use hypermoe_engine.Storage.Index.{
  ExpertRecord, ProjectionRecord, ExpertIndex, key, make, find, find_in, add_record, add_records,
  add_projection, add_projections, claim_position, check_fields, check_range, check_shape,
  check_elements, multiply, all_zero, positions_at, position, set_position, size_of,
}
use hypermoe_engine.Storage.Index.Save.{save}
use hypermoe_engine.Storage.Index.Load.{load}
use hypermoe_engine.Storage.Index.RoundTrip.{RecordWords, ProjectionWords, load-save}
use hypermoe_engine.Storage.Index.Lookup.{find_every, find_only}
use hypermoe_engine.Storage.Index.Ranges.{Contained, make-Contained}

abbrev expert : ExpertRecord
expert = record {
  layer_id = 3;
  expert_id = 9;
  offset = 4096;
  size = 1024;
  quantization_type = 0;
  checksum = 77;
}

-- A gate of 8 times 16 numbers of four bytes, at the start of the payload.
abbrev gate : ProjectionRecord
gate = record {
  layer_id = 3;
  expert_id = 9;
  projection_type = 0;
  dtype = 0;
  rank = 2;
  reserved = 0;
  offset = 4096;
  size = 512;
  shape = record { d0 = 8; d1 = 16; d2 = 0; d3 = 0 };
  checksum = 5;
  trailing_reserved = 0;
}

abbrev max_word : ℕ
max_word = 2 ^ 64 - 1

abbrev index : ExpertIndex
index = record {
  records = expert ∷ [];
  projections = gate ∷ [];
  lookup_ = (key 3 9, 0) ∷ [];
  projection_lookup = (key 3 9, record { gate = 0; up = max_word; down = max_word }) ∷ [];
}

index_made : make (expert ∷ []) (gate ∷ []) ≡ ok index
unfolding make add_record add_records add_projection add_projections claim_position check_fields
    check_range check_shape check_elements multiply all_zero find_in lookup has emplace put erase
    positions_at position set_position size_of
index_made = refl

-- A projection that ends behind the payload is refused.
outside : make (expert ∷ []) (record gate { offset = 4700 } ∷ []) ≡ throws storage_error
unfolding make add_record add_records add_projection add_projections claim_position check_fields
    check_range find_in lookup has emplace
outside = refl

expert-RecordWords : RecordWords expert
expert-RecordWords = (omega arith, omega arith, omega arith, omega arith, omega arith, omega arith)

gate-ProjectionWords : ProjectionWords gate
gate-ProjectionWords = record {
  layer_id = omega arith;
  expert_id = omega arith;
  projection_type = omega arith;
  dtype = omega arith;
  rank = omega arith;
  reserved = omega arith;
  offset = omega arith;
  size = omega arith;
  shape = (omega arith, omega arith, omega arith, omega arith);
  checksum = omega arith;
  trailing_reserved = omega arith;
}

load-save_example : load (save index) ≡ ok index
load-save_example =
    load-save (expert ∷ []) (gate ∷ []) index index_made (expert-RecordWords, tt)
      (gate-ProjectionWords, tt) (omega arith) (omega arith)

make-Contained_example : All (Contained (expert ∷ [])) (gate ∷ [])
make-Contained_example =
    make-Contained (expert ∷ []) (gate ∷ []) index index_made ((omega arith, omega arith), tt)
      ((omega arith, omega arith), tt)

find_every_example : find index 3 9 ≡ some expert
find_every_example = find_every (expert ∷ []) (gate ∷ []) index 0 expert index_made refl

found_it : find index 3 9 ≡ some expert
unfolding find find_in lookup
found_it = refl

find_only_example :
    (j : ℕ) × (get_elem? (expert ∷ []) j ≡ some expert)
    × (expert.layer_id ≡ 3)
    × (expert.expert_id ≡ 9)
find_only_example =
    find_only (expert ∷ []) (gate ∷ []) index 3 9 expert index_made (omega arith, tt) (omega arith)
      found_it
