-- ===== src/Schema/Memory.antt =====
-- crates/ao2-cp-schema/src/memory.rs: the memory export.
use ao2_control_plane.Base.{
  ℕ, ◌≡◌, String, ◌<>◌, Bool, true, not, List, Result, ok, err, string_eq, nat_eq, ◌==◌,
  if◌then◌else◌, length, arith, ◌↔◌,
}
use ao2_control_plane.Base.Decimal.{decimal}
use ao2_control_plane.Disk.{Bytes}
use ao2_control_plane.Json.{Value, Members}

abbrev pub schema : String
schema = "ao2.memory-export.v1"

-- A member that is missing has become 0 or the empty list.
pub record MemoryExport : Type 0 where
  pub schema_version : String
  pub record_count : ℕ
  pub link_count : ℕ
  pub records : List Value
  pub links : List Value
  pub rest : Members

pub data MemoryExportParseError : Type 0 where
  json : String → MemoryExportParseError
  wrong_schema : String → String → MemoryExportParseError
  record_count_mismatch link_count_mismatch : ℕ → ℕ → MemoryExportParseError

-- `to_string`
unfoldable pub describe : MemoryExportParseError → String
describe (json message) = "json parse failed: " <> message
describe (wrong_schema expected actual) =
    "expected schema_version " <> expected <> ", got " <> actual
describe (record_count_mismatch declared actual) =
    "record_count " <> decimal declared <> " does not match records length " <> decimal actual
describe (link_count_mismatch declared actual) =
    "link_count " <> decimal declared <> " does not match links length " <> decimal actual

unfoldable pub checked : MemoryExport → Result MemoryExportParseError MemoryExport
unfolding string_eq nat_eq
checked e =
    if not (e.schema_version == schema)
    then err (wrong_schema schema e.schema_version)
    else if not (e.record_count == length e.records)
    then err (record_count_mismatch e.record_count (length e.records))
    else if not (e.link_count == length e.links)
    then err (link_count_mismatch e.link_count (length e.links))
    else ok e

-- `decode` is `serde_json::from_str` at the record, with the text of its error.
unfoldable pub parse_memory_export :
    (Bytes → Result String MemoryExport) → Bytes → Result MemoryExportParseError MemoryExport
unfolding checked
parse_memory_export decode raw = elim (decode raw) [
  | err message ↦ err (json message)
  | ok e ↦ checked e
]

unfoldable pub is_memory_export_schema : String → Bool
unfolding string_eq
is_memory_export_schema version = version == schema

-- What an accepted export is.
abbrev pub IsConsistent : MemoryExport → Type 0
IsConsistent e =
    (is_memory_export_schema e.schema_version ≡ true)
    × (e.record_count ≡ length e.records)
    × (e.link_count ≡ length e.links)

-- A memory export is accepted as what it decodes to exactly when that has the schema and declares
-- as many records and as many links as it lists.
pub parse_memory_export-ok :
    (decode : Bytes → Result String MemoryExport) (raw : Bytes) (e : MemoryExport)
    → (parse_memory_export decode raw ≡ ok e) ↔ ((decode raw ≡ ok e) × IsConsistent e)
unfolding parse_memory_export checked is_memory_export_schema
parse_memory_export-ok decode raw e = ground arith
