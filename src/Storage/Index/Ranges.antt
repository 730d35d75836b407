-- ===== src/Storage/Index/Ranges.antt =====
-- What `rebuildLookup` of src/storage/ExpertIndex.cpp makes sure of for each projection.
use hypermoe_engine.Base.{
  ℕ, suc, ◌+◌, ◌*◌, ◌/◌, ◌^◌, ◌≤◌, ◌<◌, ◌≡◌, refl, ap, sym, subst, ◌∙◌, true, Option, none, some,
  List, [], ◌∷◌, All, get_elem?, take, drop, product, arith,
}
use hypermoe_engine.Base.Word.{max64, modulus64, add64, mul64, mul64_exact}
use hypermoe_engine.Base.Outcome.{ok, >>=-eq-ok}
use hypermoe_engine.Base.Map.{Map}
use hypermoe_engine.Storage.Index.{
  ExpertRecord, ProjectionRecord, Positions, ExpertIndex, key, find_in, make, dimensions, size_of,
  valid_dtype, add_records, multiply, all_zero, check_fields, check_range, check_shape,
  check_elements, claim_position, add_projection, add_projections, positions_at,
}
use hypermoe_engine.Storage.Index.Lookup.{
  Checked, add_records-Checked, make-Made, Ids, find_in-only, All-get_elem?,
}
use native.Mathlib.Nat.{le-div_iff_mul-le, mul_assoc}

product_fits : (d e : ℕ) → 0 < d → e ≤ max64 / d → e * d ≤ max64
product_fits d e p h = (le-div_iff_mul-le p).0 h

multiply-exact :
    (e : ℕ) (ds : List ℕ) (x : ℕ)
    → e ≤ max64
    → multiply e ds ≡ ok x
    → (x ≡ e * product ds) × (x ≤ max64)
unfolding multiply
multiply-exact e [] x w h = (ground arith, ground arith)
multiply-exact e (d ∷ ds) x w h =
    let positive : 0 < d = ground arith in
    let fits = product_fits d e positive (ground arith) in
    let next : multiply (mul64 e d) ds ≡ ok x = ground arith in
    let step = subst (λ (y : ℕ). multiply y ds ≡ ok x) (mul64_exact e d (omega arith)) next in
    let (is, small) = multiply-exact (e * d) ds x fits step in
    (is ∙ mul_assoc e d (product ds), small)

-- The code has 0 to 3, and its size is 4, 2 or 1 bytes.
size_of-positive : (code : ℕ) → valid_dtype code ≡ true → 0 < size_of code
unfolding valid_dtype size_of
size_of-positive code h = ground arith

check_fields-dtype : (p : ProjectionRecord) → check_fields p ≡ ok tt → valid_dtype p.dtype ≡ true
unfolding check_fields
check_fields-dtype p h = ground arith

-- The fields that the checks make sure of.
pub record Shaped (p : ProjectionRecord) : Type 0 where
  pub elements : product (take p.rank (dimensions p.shape)) * size_of p.dtype ≡ p.size
  pub zeros : all_zero (drop p.rank (dimensions p.shape)) ≡ ok tt

check_shape-Shaped : (p : ProjectionRecord) → 0 < size_of p.dtype → check_shape p ≡ ok tt → Shaped p
unfolding check_shape check_elements
check_shape-Shaped p positive h =
    let (n, count, rest) =
      >>=-eq-ok (multiply 1 (take p.rank (dimensions p.shape))) (check_elements p) h in
    let (total, small) =
      multiply-exact 1 (take p.rank (dimensions p.shape)) n (omega arith) count in
    let whole : n ≡ product (take p.rank (dimensions p.shape)) = omega arith in
    let fits = product_fits (size_of p.dtype) n positive (ground arith) in
    let exact = mul64_exact n (size_of p.dtype) (omega arith) in
    record {
      elements = ap (λ (x : ℕ). x * size_of p.dtype) (sym whole) ∙ sym exact ∙ ground arith;
      zeros = ground arith;
    }

-- The projection lies in the payload of the expert.
abbrev pub Inside : ProjectionRecord → ExpertRecord → Type 0
Inside p e = (e.offset ≤ p.offset) × (p.offset + p.size ≤ e.offset + e.size)

check_range-Inside :
    (p : ProjectionRecord) (e : ExpertRecord)
    → p.size < modulus64
    → e.offset + e.size < modulus64
    → check_range p (some e) ≡ ok tt
    → Inside p e
unfolding check_range add64
check_range-Inside p e w v h = (ground arith, ground arith)

claim_position-shape :
    (index : ℕ) (p : ProjectionRecord) (positions : Positions) (m m' : Map Positions)
    → claim_position index p positions m ≡ ok m'
    → check_shape p ≡ ok tt
unfolding claim_position
claim_position-shape index p positions m m' h = ground arith

-- The fields of a projection, and of the records, are words.
abbrev pub ProjectionFits : ProjectionRecord → Type 0
ProjectionFits p = (p.expert_id < 2 ^ 32) × (p.size < modulus64)

abbrev pub RecordFits : ExpertRecord → Type 0
RecordFits r = (r.expert_id < 2 ^ 32) × (r.size < modulus64)

-- A projection with the expert that it belongs to.
pub record Contained (rs : List ExpertRecord) (p : ProjectionRecord) : Type 0 where
  pub index : ℕ
  pub expert : ExpertRecord
  pub at : get_elem? rs index ≡ some expert
  pub layer : expert.layer_id ≡ p.layer_id
  pub id : expert.expert_id ≡ p.expert_id
  pub inside : Inside p expert
  pub shaped : Shaped p

All-Ids : (rs : List ExpertRecord) → All RecordFits rs → Ids rs
All-Ids [] a = tt
All-Ids (r ∷ rs) a = (a.0.0, All-Ids rs a.1)

module _ (rs : List ExpertRecord) (table : Map ℕ) (built : add_records 0 rs [] ≡ ok table)
    (words : All RecordFits rs) where
  found-Contained :
      (p : ProjectionRecord)
      → ProjectionFits p
      → Shaped p
      → (o : Option ExpertRecord) → find_in rs table p.layer_id p.expert_id ≡ o
      → check_range p o ≡ ok tt
      → Contained rs p
  unfolding check_range
  found-Contained p w shaped none f h = cc
  found-Contained p w shaped (some e) f h =
      let (j, at, layer, id) =
        find_in-only rs table p.layer_id p.expert_id e built (All-Ids rs words) w.0 f in
      let fits =
        (All-get_elem? Checked rs j e (add_records-Checked 0 rs [] table built) at).2
          (All-get_elem? RecordFits rs j e words at).1 in
      record {
        index = j;
        expert = e;
        at = at;
        layer = layer;
        id = id;
        inside = check_range-Inside p e w.1 fits h;
        shaped = shaped;
      }

  add_projection-Contained :
      (index : ℕ) (p : ProjectionRecord) (m m' : Map Positions)
      → ProjectionFits p
      → add_projection rs table index p m ≡ ok m'
      → Contained rs p
  unfolding add_projection
  add_projection-Contained index p m m' w h =
      let (_, fields, h1) = >>=-eq-ok (check_fields p) _ h in
      let (_, range, h2) =
        >>=-eq-ok (check_range p (find_in rs table p.layer_id p.expert_id)) _ h1 in
      let shape =
        claim_position-shape index p (positions_at (key p.layer_id p.expert_id) m) m m' h2 in
      let positive = size_of-positive p.dtype (check_fields-dtype p fields) in
      found-Contained p w (check_shape-Shaped p positive shape)
        (find_in rs table p.layer_id p.expert_id) refl range

  add_projections-Contained :
      (index : ℕ) (ps : List ProjectionRecord) (m m' : Map Positions)
      → All ProjectionFits ps
      → add_projections rs table index ps m ≡ ok m'
      → All (Contained rs) ps
  unfolding add_projections
  add_projections-Contained index [] m m' w h = tt
  add_projections-Contained index (p ∷ ps) m m' w h =
      let (m1, first, rest) =
        >>=-eq-ok (add_projection rs table index p m) (add_projections rs table (suc index) ps) h in
      (
        add_projection-Contained index p m m1 w.0 first,
        add_projections-Contained (suc index) ps m1 m' w.1 rest,
      )

-- In an index that the constructor accepts, with fields of the widths of the file, every projection
-- lies within the payload of a record with its layer and expert, its size is the product of its
-- dimensions and of the size of its data type, and the dimensions beyond its rank are zero.
pub make-Contained :
    (rs : List ExpertRecord) (ps : List ProjectionRecord) (i : ExpertIndex)
    → make rs ps ≡ ok i
    → All RecordFits rs
    → All ProjectionFits ps
    → All (Contained rs) ps
make-Contained rs ps i made words fits =
    let m = make-Made rs ps i made in
    add_projections-Contained rs i.lookup_ m.table words 0 ps [] i.projection_lookup fits m.places
