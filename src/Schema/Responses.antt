-- ===== src/Schema/Responses.antt =====
-- crates/ao2-cp-schema/src/responses.rs: the answers to an ingest and to a listing.
use ao2_control_plane.Base.{ℕ, String, List, Option}

abbrev pub schema_ingest_receipt : String
schema_ingest_receipt = "ao2.cp-ingest-receipt.v1"

abbrev pub schema_acceptance_list : String
schema_acceptance_list = "ao2.cp-acceptance-list.v1"

abbrev pub schema_bundle_list : String
schema_bundle_list = "ao2.cp-bundle-list.v1"

abbrev pub schema_memory_export_list : String
schema_memory_export_list = "ao2.cp-memory-export-list.v1"

pub record IngestReceipt : Type 0 where
  pub schema_version : String
  pub sha256 : String
  pub stored_at : ℕ
  pub ingested_schema_version : String

-- `IngestReceipt::new` at an instant.
abbrev pub new : ℕ → String → String → IngestReceipt
new now sha256 ingested_schema_version = record {
  schema_version = schema_ingest_receipt;
  sha256 = sha256;
  stored_at = now;
  ingested_schema_version = ingested_schema_version;
}

pub record AcceptanceListEntry : Type 0 where
  pub sha256 : String
  pub provider : String
  pub status : String
  pub ingested_at : ℕ
  pub size_bytes : ℕ
  pub schema_version : String

pub record AcceptanceListResponse : Type 0 where
  pub schema_version : String
  pub total_count : ℕ
  pub limit : ℕ
  pub offset : ℕ
  pub entries : List AcceptanceListEntry

pub record BundleListEntry : Type 0 where
  pub sha256 : String
  pub ingested_at : ℕ
  pub size_bytes : ℕ
  pub schema_version : String
  pub status : Option String

pub record BundleListResponse : Type 0 where
  pub schema_version : String
  pub total_count : ℕ
  pub limit : ℕ
  pub offset : ℕ
  pub entries : List BundleListEntry
