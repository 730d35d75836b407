-- ===== src/Storage/Index/RoundTrip.antt =====
-- Reading back what `ExpertIndex::save` wrote.
use hypermoe_engine.Base.{
  ℕ, ◌+◌, ◌-◌, ◌*◌, ◌/◌, ◌^◌, ◌≤◌, ◌<◌, ◌≡◌, refl, ap, ◌∙◌, List, [], ◌∷◌, length, All, arith,
}
use hypermoe_engine.Base.Word.{add64, mul64}
use hypermoe_engine.Base.Outcome.{ok}
use hypermoe_engine.Storage.Bytes.{Bytes, write32, write64, read32-write32, read64-write64}
use hypermoe_engine.Storage.Index.{ExpertRecord, Shape, ProjectionRecord, ExpertIndex, make}
use hypermoe_engine.Storage.Index.Save.{
  Header, write_header, write_record, write_records, write_shape, write_projection,
  write_projections, header_of, write_extension, save,
}
use hypermoe_engine.Storage.Index.Load.{
  read_magic, read_header, base_size, check_header, read_record, read_records, read_shape,
  read_projection, read_projections, read_extension, at_end, read_body, load,
}

abbrev pub Word32 : ℕ → Type 0
Word32 v = v < 2 ^ 32

abbrev pub Word64 : ℕ → Type 0
Word64 v = v < 2 ^ 64

-- The fields have the widths of the file.
abbrev pub RecordWords : ExpertRecord → Type 0
RecordWords r =
    Word32 r.layer_id
    × Word32 r.expert_id
    × Word64 r.offset
    × Word64 r.size
    × Word32 r.quantization_type
    × Word32 r.checksum

abbrev pub ShapeWords : Shape → Type 0
ShapeWords s = Word64 s.d0 × Word64 s.d1 × Word64 s.d2 × Word64 s.d3

pub record ProjectionWords (p : ProjectionRecord) : Type 0 where
  pub layer_id : Word32 p.layer_id
  pub expert_id : Word32 p.expert_id
  pub projection_type : Word32 p.projection_type
  pub dtype : Word32 p.dtype
  pub rank : Word32 p.rank
  pub reserved : Word32 p.reserved
  pub offset : Word64 p.offset
  pub size : Word64 p.size
  pub shape : ShapeWords p.shape
  pub checksum : Word32 p.checksum
  pub trailing_reserved : Word32 p.trailing_reserved

read_record-write_record :
    (r : ExpertRecord) (bs : Bytes) → RecordWords r → read_record (write_record r bs) ≡ ok (r, bs)
unfolding read_record write_record
read_record-write_record r bs (a, b, c, d, e, f) =
    rw
      (
        read32-write32 _ _ a,
        read32-write32 _ _ b,
        read64-write64 _ _ c,
        read64-write64 _ _ d,
        read32-write32 _ _ e,
        read32-write32 _ _ f,
      )
      refl

read_records-write_records :
    (rs : List ExpertRecord) (bs : Bytes)
    → All RecordWords rs
    → read_records (length rs) (write_records rs bs) ≡ ok (rs, bs)
unfolding read_records write_records
read_records-write_records [] bs h = refl
read_records-write_records (r ∷ rs) bs h =
    rw (read_record-write_record r (write_records rs bs) h.0, read_records-write_records rs bs h.1)
      refl

read_shape-write_shape :
    (s : Shape) (bs : Bytes) → ShapeWords s → read_shape (write_shape s bs) ≡ ok (s, bs)
unfolding read_shape write_shape
read_shape-write_shape s bs (a, b, c, d) =
    rw (read64-write64 _ _ a, read64-write64 _ _ b, read64-write64 _ _ c, read64-write64 _ _ d) refl

read_projection-write_projection :
    (p : ProjectionRecord) (bs : Bytes)
    → ProjectionWords p
    → read_projection (write_projection p bs) ≡ ok (p, bs)
unfolding read_projection write_projection
read_projection-write_projection p bs w =
    rw
      (
        read32-write32 _ _ w.layer_id,
        read32-write32 _ _ w.expert_id,
        read32-write32 _ _ w.projection_type,
        read32-write32 _ _ w.dtype,
        read32-write32 _ _ w.rank,
        read32-write32 _ _ w.reserved,
        read64-write64 _ _ w.offset,
        read64-write64 _ _ w.size,
        read_shape-write_shape p.shape _ w.shape,
        read32-write32 _ _ w.checksum,
        read32-write32 _ _ w.trailing_reserved,
      )
      refl

read_projections-write_projections :
    (ps : List ProjectionRecord) (bs : Bytes)
    → All ProjectionWords ps
    → read_projections (length ps) (write_projections ps bs) ≡ ok (ps, bs)
unfolding read_projections write_projections
read_projections-write_projections [] bs h = refl
read_projections-write_projections (p ∷ ps) bs h =
    rw
      (
        read_projection-write_projection p (write_projections ps bs) h.0,
        read_projections-write_projections ps bs h.1,
      )
      refl

length-write_records :
    (rs : List ExpertRecord) (bs : Bytes)
    → length (write_records rs bs) ≡ 32 * length rs + length bs
unfolding write_records write_record write32 write64
length-write_records [] bs = omega arith
length-write_records (r ∷ rs) bs = omega (arith, length-write_records rs bs)

length-write_projections :
    (ps : List ProjectionRecord) (bs : Bytes)
    → length (write_projections ps bs) ≡ 80 * length ps + length bs
unfolding write_projections write_projection write_shape write32 write64
length-write_projections [] bs = omega arith
length-write_projections (p ∷ ps) bs = omega (arith, length-write_projections ps bs)

-- The size of the extension of the second format.
abbrev pub extension_size : List ProjectionRecord → ℕ
extension_size [] = 0
extension_size (p ∷ ps) = 8 + 80 * length (p ∷ ps)

length-write_extension :
    (ps : List ProjectionRecord) → length (write_extension ps) ≡ extension_size ps
unfolding write_extension write64
length-write_extension [] = refl
length-write_extension (p ∷ ps) = omega (arith, length-write_projections (p ∷ ps) [])

pub length-save :
    (i : ExpertIndex) → length (save i) ≡ 32 + 32 * length i.records + extension_size i.projections
unfolding save write_header write32 write64
length-save i = omega (
  arith,
  length-write_records i.records (write_extension i.projections),
  length-write_extension i.projections,
)

read_header-write_header :
    (h : Header) (bs : Bytes)
    → Word32 h.version
    → Word32 h.endian
    → Word32 h.record_size
    → Word32 h.extension_record_size
    → Word64 h.count
    → read_header (write_header h bs) ≡ ok (h, bs)
unfolding read_header write_header
read_header-write_header h bs a b c d e =
    rw
      (
        read32-write32 _ _ a,
        read32-write32 _ _ b,
        read32-write32 _ _ c,
        read32-write32 _ _ d,
        read64-write64 _ _ e,
      )
      refl

check_header-header_of :
    (rs : List ExpertRecord) (ps : List ProjectionRecord)
    → length rs ≤ (2 ^ 63 - 1) / 32
    → check_header (header_of rs ps) (32 + 32 * length rs + extension_size ps) ≡ ok tt
unfolding check_header header_of base_size add64 mul64
check_header-header_of rs [] h = ground arith
check_header-header_of rs (p ∷ ps) h = ground arith

read_extension-write_extension :
    (p : ProjectionRecord) (ps : List ProjectionRecord) (base : ℕ)
    → All ProjectionWords (p ∷ ps)
    → base + extension_size (p ∷ ps) < 2 ^ 64
    → read_extension base (base + extension_size (p ∷ ps)) (write_extension (p ∷ ps))
      ≡ ok (p ∷ ps, [])
unfolding read_extension write_extension add64 mul64
read_extension-write_extension p ps base w h =
    rw (read64-write64 (length (p ∷ ps)) (write_projections (p ∷ ps) []) (omega arith))
      (ground (arith, read_projections-write_projections (p ∷ ps) [] w))

make-fields :
    (rs : List ExpertRecord) (ps : List ProjectionRecord) (i : ExpertIndex)
    → make rs ps ≡ ok i
    → (i.records ≡ rs) × (i.projections ≡ ps)
unfolding make
make-fields rs ps i h = ground arith

base_exact : (n : ℕ) → 32 + 32 * n < 2 ^ 64 → add64 32 (mul64 n 32) ≡ 32 + 32 * n
unfolding add64 mul64
base_exact n h = omega arith

read_body-write :
    (rs : List ExpertRecord) (ps : List ProjectionRecord)
    → All RecordWords rs
    → All ProjectionWords ps
    → 32 + 32 * length rs + extension_size ps < 2 ^ 64
    → read_body
        (header_of rs ps)
        (32 + 32 * length rs + extension_size ps)
        (write_records rs (write_extension ps))
      ≡ make rs ps
unfolding read_body header_of at_end write_extension base_size
read_body-write rs [] v w h =
    rw (read_records-write_records rs (write_extension []) v, write_extension, at_end) refl
read_body-write rs (p ∷ ps) v w h =
    rw
      (
        read_records-write_records rs (write_extension (p ∷ ps)) v,
        base_exact (length rs) (omega arith),
        read_extension-write_extension p ps (32 + 32 * length rs) w h,
        at_end,
      )
      refl

read_header-header_of :
    (rs : List ExpertRecord) (ps : List ProjectionRecord) (bs : Bytes)
    → length rs < 2 ^ 64
    → read_header (write_header (header_of rs ps) bs) ≡ ok (header_of rs ps, bs)
unfolding header_of
read_header-header_of rs [] bs h =
    read_header-write_header (header_of rs []) bs (omega arith) (omega arith) (omega arith)
      (omega arith) h
read_header-header_of rs (p ∷ ps) bs h =
    read_header-write_header (header_of rs (p ∷ ps)) bs (omega arith) (omega arith) (omega arith)
      (omega arith) h

read_magic-save :
    (i : ExpertIndex)
    → read_magic (save i)
      ≡ ok (
          write_header
            (header_of i.records i.projections)
            (write_records i.records (write_extension i.projections)))
unfolding save read_magic
read_magic-save i = refl

load_again :
    (i : ExpertIndex)
    → All RecordWords i.records
    → All ProjectionWords i.projections
    → length i.records ≤ (2 ^ 63 - 1) / 32
    → 32 + 32 * length i.records + extension_size i.projections < 2 ^ 64
    → load (save i) ≡ make i.records i.projections
unfolding load
load_again i v w n h =
    rw
      (
        load,
        length-save i,
        read_magic-save i,
        read_header-header_of i.records i.projections
            (write_records i.records (write_extension i.projections)) (omega arith),
        check_header-header_of i.records i.projections n,
      )
      (read_body-write i.records i.projections v w h)

-- An index that the constructor accepts, with fields of the widths of the file and a file of a size
-- that the platform can count, is read back from what `save` writes.
pub load-save :
    (rs : List ExpertRecord) (ps : List ProjectionRecord) (i : ExpertIndex)
    → make rs ps ≡ ok i
    → All RecordWords rs
    → All ProjectionWords ps
    → length rs ≤ (2 ^ 63 - 1) / 32
    → 32 + 32 * length rs + extension_size ps < 2 ^ 64
    → load (save i) ≡ ok i
load-save rs ps i made v w n h =
    let (records, projections) = make-fields rs ps i made in
    load_again i (rw records v) (rw projections w) (rw records n) (rw (records, projections) h)
    ∙ ap (λ (r : List ExpertRecord). make r i.projections) records
    ∙ ap (make rs) projections
    ∙ made
