-- ===== src/Storage/Index/Save.antt =====
-- `ExpertIndex::save` of src/storage/ExpertIndex.cpp. A file is the list of its bytes; a file that
-- cannot be opened or written is left out.
use hypermoe_engine.Base.{ℕ, List, [], ◌∷◌, ◌++◌, length}
use hypermoe_engine.Storage.Bytes.{Bytes, write32, write64}
use hypermoe_engine.Storage.Index.{ExpertRecord, Shape, ProjectionRecord, ExpertIndex}

abbrev pub format_version : ℕ
format_version = 2

abbrev pub legacy_format_version : ℕ
legacy_format_version = 1

abbrev pub serialized_record_size : ℕ
serialized_record_size = 32

abbrev pub serialized_projection_record_size : ℕ
serialized_projection_record_size = 80

abbrev pub header_size : ℕ
header_size = 32

abbrev pub endian_marker : ℕ
endian_marker = 16909060

-- `HMOEIDX` and a zero.
abbrev pub magic : Bytes
magic = 72 ∷ 77 ∷ 79 ∷ 69 ∷ 73 ∷ 68 ∷ 88 ∷ 0 ∷ []

-- What follows the magic in the header.
pub record Header : Type 0 where
  pub version : ℕ
  pub endian : ℕ
  pub record_size : ℕ
  pub extension_record_size : ℕ
  pub count : ℕ

unfoldable pub write_header : Header → Bytes → Bytes
write_header h bs =
    write32 h.version
    ++ (write32 h.endian
        ++ (write32 h.record_size ++ (write32 h.extension_record_size ++ (write64 h.count ++ bs))))

unfoldable pub write_record : ExpertRecord → Bytes → Bytes
write_record r bs =
    write32 r.layer_id
    ++ (write32 r.expert_id
        ++ (write64 r.offset
            ++ (write64 r.size ++ (write32 r.quantization_type ++ (write32 r.checksum ++ bs)))))

unfoldable pub write_records : List ExpertRecord → Bytes → Bytes
write_records [] bs = bs
write_records (r ∷ rs) bs = write_record r (write_records rs bs)

unfoldable pub write_shape : Shape → Bytes → Bytes
write_shape s bs = write64 s.d0 ++ (write64 s.d1 ++ (write64 s.d2 ++ (write64 s.d3 ++ bs)))

unfoldable pub write_projection : ProjectionRecord → Bytes → Bytes
write_projection p bs =
    write32 p.layer_id
    ++ (write32 p.expert_id
        ++ (write32 p.projection_type
            ++ (write32 p.dtype
                ++ (write32 p.rank
                    ++ (write32 p.reserved
                        ++ (write64 p.offset
                            ++ (write64 p.size
                                ++ (write_shape p.shape (
                                    write32 p.checksum
                                    ++ (write32 p.trailing_reserved ++ bs))))))))))

unfoldable pub write_projections : List ProjectionRecord → Bytes → Bytes
write_projections [] bs = bs
write_projections (p ∷ ps) bs = write_projection p (write_projections ps bs)

-- The version and the size of the extension records depend on whether there are projections.
unfoldable pub header_of : List ExpertRecord → List ProjectionRecord → Header
header_of records [] = record {
  version = legacy_format_version;
  endian = endian_marker;
  record_size = serialized_record_size;
  extension_record_size = 0;
  count = length records;
}
header_of records (p ∷ ps) = record {
  version = format_version;
  endian = endian_marker;
  record_size = serialized_record_size;
  extension_record_size = serialized_projection_record_size;
  count = length records;
}

unfoldable pub write_extension : List ProjectionRecord → Bytes
write_extension [] = []
write_extension (p ∷ ps) = write64 (length (p ∷ ps)) ++ write_projections (p ∷ ps) []

unfoldable pub save : ExpertIndex → Bytes
save i =
    magic
    ++ write_header (header_of i.records i.projections)
        (write_records i.records (write_extension i.projections))
