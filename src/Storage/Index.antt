-- ===== src/Storage/Index.antt =====
-- src/storage/ExpertIndex.hpp, src/storage/ExpertIndex.cpp: the table of the packed experts and of
-- their projections, with its checks. Enumerations that come from a file are kept as their codes.
pub mod Save
pub mod Load
pub mod RoundTrip
pub mod Lookup
pub mod Ranges
use hypermoe_engine.Base.{
  ℕ, zero, suc, ◌+◌, ◌-◌, ◌*◌, ◌/◌, ◌^◌, Bool, true, false, not, ◌&&◌, ◌||◌, Option, none, some,
  List, [], ◌∷◌, ltb, leb, ◌==◌, if◌then◌else◌, get_elem?, take, drop,
}
use hypermoe_engine.Base.Word.{max64, add64, mul64}
use hypermoe_engine.Base.Outcome.{Outcome, ok, throws, storage_error, ◌>>=◌, ◌>>◌, reject}
use hypermoe_engine.Base.Map.{Map, lookup, put, has, emplace}

pub record ExpertRecord : Type 0 where
  pub layer_id : ℕ
  pub expert_id : ℕ
  pub offset : ℕ
  pub size : ℕ
  pub quantization_type : ℕ
  pub checksum : ℕ

-- The four dimensions of `shape`.
pub record Shape : Type 0 where
  pub d0 : ℕ
  pub d1 : ℕ
  pub d2 : ℕ
  pub d3 : ℕ

pub record ProjectionRecord : Type 0 where
  pub layer_id : ℕ
  pub expert_id : ℕ
  pub projection_type : ℕ
  pub dtype : ℕ
  pub rank : ℕ
  pub reserved : ℕ
  pub offset : ℕ
  pub size : ℕ
  pub shape : Shape
  pub checksum : ℕ
  pub trailing_reserved : ℕ

-- The index of the projection of each type, or the largest word.
pub record Positions : Type 0 where
  pub gate : ℕ
  pub up : ℕ
  pub down : ℕ

pub record ExpertIndex : Type 0 where
  pub records : List ExpertRecord
  pub projections : List ProjectionRecord
  pub lookup_ : Map ℕ
  pub projection_lookup : Map Positions

-- `(layerId << 32) | expertId` of two 32-bit ids.
abbrev pub key : ℕ → ℕ → ℕ
key layer id = layer * 2 ^ 32 + id

-- `hypermoe::isValid` of a quantization code.
unfoldable pub valid_quantization : ℕ → Bool
valid_quantization code = ltb code 8

-- `tensor::isValid` and `tensor::sizeOf` of a data type.
unfoldable pub valid_dtype : ℕ → Bool
valid_dtype code = ltb code 4

unfoldable pub size_of : ℕ → ℕ
size_of code =
    if code == 0 then 4 else if code == 1 || code == 2 then 2 else if code == 3 then 1 else 0

-- One round of the first loop of `rebuildLookup`.
unfoldable pub add_record : ℕ → ExpertRecord → Map ℕ → Outcome (Map ℕ)
unfolding valid_quantization
add_record index r m = do
  reject (r.size == 0 || not (valid_quantization r.quantization_type)) storage_error
  reject (ltb (max64 - r.size) r.offset) storage_error
  reject (has (key r.layer_id r.expert_id) m) storage_error
  ok (emplace (key r.layer_id r.expert_id) index m)

unfoldable pub add_records : ℕ → List ExpertRecord → Map ℕ → Outcome (Map ℕ)
add_records index [] m = ok m
add_records index (r ∷ rs) m = do m' ← add_record index r m; add_records (suc index) rs m'

unfoldable pub find_in : List ExpertRecord → Map ℕ → ℕ → ℕ → Option ExpertRecord
find_in records m layer id = elim (lookup (key layer id) m) [
  | none ↦ none
  | some index ↦ get_elem? records index
]

unfoldable pub position : ℕ → Positions → ℕ
position zero p = p.gate
position (suc zero) p = p.up
position (suc (suc n)) p = p.down

unfoldable pub set_position : ℕ → ℕ → Positions → Positions
set_position zero n p = record p { gate = n }
set_position (suc zero) n p = record p { up = n }
set_position (suc (suc t)) n p = record p { down = n }

-- The value that `try_emplace` leaves under the key.
unfoldable pub positions_at : ℕ → Map Positions → Positions
positions_at k m = elim (lookup k m) [
  | none ↦ record { gate = max64; up = max64; down = max64 }
  | some p ↦ p
]

-- The product of the first `rank` dimensions, and the zeros behind them.
unfoldable pub multiply : ℕ → List ℕ → Outcome ℕ
unfolding mul64
multiply elements [] = ok elements
multiply elements (d ∷ ds) = do
  reject (d == 0) storage_error
  reject (ltb (max64 / d) elements) storage_error
  multiply (mul64 elements d) ds

unfoldable pub all_zero : List ℕ → Outcome (Unit {0})
all_zero [] = ok tt
all_zero (d ∷ ds) = do reject (not (d == 0)) storage_error; all_zero ds

abbrev pub dimensions : Shape → List ℕ
dimensions s = s.d0 ∷ s.d1 ∷ s.d2 ∷ s.d3 ∷ []

-- The checks of a projection on its own.
unfoldable pub check_fields : ProjectionRecord → Outcome (Unit {0})
unfolding valid_dtype
check_fields p =
    reject
      (p.size == 0
        || p.rank == 0
        || ltb 4 p.rank
        || not (valid_dtype p.dtype)
        || not (p.reserved == 0)
        || not (p.trailing_reserved == 0)
        || ltb 2 p.projection_type)
      storage_error

-- The projection lies in the payload of its expert.
unfoldable pub check_range : ProjectionRecord → Option ExpertRecord → Outcome (Unit {0})
unfolding add64
check_range p none = throws storage_error
check_range p (some e) =
    reject
      (ltb p.offset e.offset
        || ltb (max64 - p.size) p.offset
        || ltb (add64 e.offset e.size) (add64 p.offset p.size))
      storage_error

-- The rest of the checks of the shape, once its elements are counted.
unfoldable pub check_elements : ProjectionRecord → ℕ → Outcome (Unit {0})
check_elements p elements = do
  all_zero (drop p.rank (dimensions p.shape))
  reject
      (ltb (max64 / size_of p.dtype) elements || not (mul64 elements (size_of p.dtype) == p.size))
      storage_error

unfoldable pub check_shape : ProjectionRecord → Outcome (Unit {0})
check_shape p = multiply 1 (take p.rank (dimensions p.shape)) >>= check_elements p

-- The place of the projection's type must be free.
unfoldable pub claim_position :
    ℕ → ProjectionRecord → Positions → Map Positions → Outcome (Map Positions)
claim_position index p positions m = do
  reject (not (position p.projection_type positions == max64)) storage_error
  check_shape p
  ok (put (key p.layer_id p.expert_id) (set_position p.projection_type index positions) m)

-- One round of the second loop.
unfoldable pub add_projection :
    List ExpertRecord → Map ℕ → ℕ → ProjectionRecord → Map Positions → Outcome (Map Positions)
add_projection records lookup_ index p m = do
  check_fields p
  check_range p (find_in records lookup_ p.layer_id p.expert_id)
  claim_position index p (positions_at (key p.layer_id p.expert_id) m) m

unfoldable pub add_projections :
    List ExpertRecord → Map ℕ → ℕ → List ProjectionRecord → Map Positions → Outcome (Map Positions)
add_projections records lookup_ index [] m = ok m
add_projections records lookup_ index (p ∷ ps) m = do
  m' ← add_projection records lookup_ index p m
  add_projections records lookup_ (suc index) ps m'

-- The constructor, by `rebuildLookup`.
unfoldable pub make : List ExpertRecord → List ProjectionRecord → Outcome ExpertIndex
make records projections = do
  lookup_ ← add_records 0 records []
  projection_lookup ← add_projections records lookup_ 0 projections []
  ok (record {
    records = records;
    projections = projections;
    lookup_ = lookup_;
    projection_lookup = projection_lookup;
  })

unfoldable pub find : ExpertIndex → ℕ → ℕ → Option ExpertRecord
unfolding find_in
find i layer id = find_in i.records i.lookup_ layer id

unfoldable pub find_projection : ExpertIndex → ℕ → ℕ → ℕ → Option ProjectionRecord
find_projection i layer id type = elim (lookup (key layer id) i.projection_lookup) [
  | none ↦ none
  | some p ↦
      if leb 3 type || position type p == max64
      then none
      else get_elem? i.projections (position type p)
]
