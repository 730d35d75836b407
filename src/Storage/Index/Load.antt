-- ===== src/Storage/Index/Load.antt =====
-- `ExpertIndex::load` of src/storage/ExpertIndex.cpp. A file that cannot be opened or measured is left
-- out.
use hypermoe_engine.Base.{
  ℕ, zero, suc, ◌-◌, ◌/◌, ◌^◌, not, ◌&&◌, ◌||◌, List, [], ◌∷◌, ltb, ◌==◌, if◌then◌else◌, length,
}
use hypermoe_engine.Base.Word.{max64, add64, mul64}
use hypermoe_engine.Base.Outcome.{Outcome, ok, throws, storage_error, ◌>>=◌, ◌>>◌, reject}
use hypermoe_engine.Storage.Bytes.{Bytes, Read, read32, read64}
use hypermoe_engine.Storage.Index.{ExpertRecord, Shape, ProjectionRecord, ExpertIndex, make}
use hypermoe_engine.Storage.Index.Save.{
  Header, format_version, legacy_format_version, serialized_record_size,
  serialized_projection_record_size, header_size, endian_marker,
}

unfoldable pub read_magic : Bytes → Outcome Bytes
read_magic (a ∷ b ∷ c ∷ d ∷ e ∷ f ∷ g ∷ h ∷ bs) =
    if a == 72 && b == 77 && c == 79 && d == 69 && e == 73 && f == 68 && g == 88 && h == 0
    then ok bs
    else throws storage_error
read_magic _ = throws storage_error

unfoldable pub read_header : Read Header
read_header bs = do
  (version, bs) ← read32 bs
  (endian, bs) ← read32 bs
  (record_size, bs) ← read32 bs
  (extension_record_size, bs) ← read32 bs
  (count, bs) ← read64 bs
  ok (
    record {
      version = version;
      endian = endian;
      record_size = record_size;
      extension_record_size = extension_record_size;
      count = count;
    },
    bs,
  )

-- The largest `std::streamsize`.
abbrev pub max_streamsize : ℕ
max_streamsize = 2 ^ 63 - 1

-- The checks of the header, where the file has `file_size` bytes.
unfoldable pub base_size : Header → ℕ
unfolding add64 mul64
base_size h = add64 header_size (mul64 h.count serialized_record_size)

unfoldable pub check_header : Header → ℕ → Outcome (Unit {0})
unfolding base_size
check_header h file_size = do
  reject (not (h.version == legacy_format_version) && not (h.version == format_version))
      storage_error
  reject (not (h.endian == endian_marker)) storage_error
  reject
      (not (h.record_size == serialized_record_size)
        || h.version == legacy_format_version && not (h.extension_record_size == 0)
        || h.version == format_version
          && not (h.extension_record_size == serialized_projection_record_size))
      storage_error
  reject (ltb max64 h.count || ltb (max_streamsize / serialized_record_size) h.count) storage_error
  reject (ltb ((max64 - header_size) / serialized_record_size) h.count) storage_error
  reject
      (ltb file_size (base_size h)
        || h.version == legacy_format_version && not (file_size == base_size h))
      storage_error

unfoldable pub read_record : Read ExpertRecord
read_record bs = do
  (layer_id, bs) ← read32 bs
  (expert_id, bs) ← read32 bs
  (offset, bs) ← read64 bs
  (size, bs) ← read64 bs
  (quantization_type, bs) ← read32 bs
  (checksum, bs) ← read32 bs
  ok (
    record {
      layer_id = layer_id;
      expert_id = expert_id;
      offset = offset;
      size = size;
      quantization_type = quantization_type;
      checksum = checksum;
    },
    bs,
  )

unfoldable pub read_records : ℕ → Read (List ExpertRecord)
read_records zero bs = ok ([], bs)
read_records (suc n) bs = do (r, bs) ← read_record bs; (rs, bs) ← read_records n bs; ok (r ∷ rs, bs)

unfoldable pub read_shape : Read Shape
read_shape bs = do
  (d0, bs) ← read64 bs
  (d1, bs) ← read64 bs
  (d2, bs) ← read64 bs
  (d3, bs) ← read64 bs
  ok (record { d0 = d0; d1 = d1; d2 = d2; d3 = d3 }, bs)

unfoldable pub read_projection : Read ProjectionRecord
read_projection bs = do
  (layer_id, bs) ← read32 bs
  (expert_id, bs) ← read32 bs
  (projection_type, bs) ← read32 bs
  (dtype, bs) ← read32 bs
  (rank, bs) ← read32 bs
  (reserved, bs) ← read32 bs
  (offset, bs) ← read64 bs
  (size, bs) ← read64 bs
  (shape, bs) ← read_shape bs
  (checksum, bs) ← read32 bs
  (trailing_reserved, bs) ← read32 bs
  ok (
    record {
      layer_id = layer_id;
      expert_id = expert_id;
      projection_type = projection_type;
      dtype = dtype;
      rank = rank;
      reserved = reserved;
      offset = offset;
      size = size;
      shape = shape;
      checksum = checksum;
      trailing_reserved = trailing_reserved;
    },
    bs,
  )

unfoldable pub read_projections : ℕ → Read (List ProjectionRecord)
read_projections zero bs = ok ([], bs)
read_projections (suc n) bs = do
  (p, bs) ← read_projection bs
  (ps, bs) ← read_projections n bs
  ok (p ∷ ps, bs)

-- The part of the second format, behind `base` bytes.
unfoldable pub read_extension : ℕ → ℕ → Read (List ProjectionRecord)
unfolding add64 mul64
read_extension base file_size bs = do
  (count, bs) ← read64 bs
  reject (ltb (max64 - 8) base) storage_error
  let projection_base = add64 base 8
  reject
      (ltb max64 count
        || ltb ((max64 - projection_base) / serialized_projection_record_size) count
        || not (file_size == add64 projection_base (mul64 count serialized_projection_record_size)))
      storage_error
  read_projections count bs

-- `input.peek()` at the end.
unfoldable pub at_end : Bytes → Outcome (Unit {0})
at_end [] = ok tt
at_end (b ∷ bs) = throws storage_error

unfoldable pub read_body : Header → ℕ → Bytes → Outcome ExpertIndex
unfolding base_size
read_body h file_size bs = do
  (records, bs) ← read_records h.count bs
  (projections, bs) ←
      (if h.version == format_version
        then read_extension (base_size h) file_size bs
        else ok ([], bs))
  at_end bs
  make records projections

unfoldable pub load : Bytes → Outcome ExpertIndex
load file = do
  bs ← read_magic file
  (h, bs) ← read_header bs
  check_header h (length file)
  read_body h (length file) bs
