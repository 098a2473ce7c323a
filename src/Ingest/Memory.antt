-- ===== src/Ingest/Memory.antt =====
-- crates/ao2-cp-server/src/handlers/memory.rs, without its dashboard and the signed uploads.
use ao2_control_plane.Base.{
  ℕ, String, List, Option, none, some, ok, ◌>>=◌, ◌>>◌, lift, map_err, length,
}
use ao2_control_plane.Base.Text.{codes}
use ao2_control_plane.Disk.{Bytes}
use ao2_control_plane.Bundle
use ao2_control_plane.Bundle.Kind.{memory_export, memory_export_signature}
use ao2_control_plane.Index.{read_all}
use ao2_control_plane.Schema.Memory.{MemoryExport, parse_memory_export, describe}
use ao2_control_plane.Schema.Responses.{
  IngestReceipt, new, BundleListResponse, schema_memory_export_list,
}
use ao2_control_plane.Server.AppError.{AppError}
use ao2_control_plane.Server.Caching.{Cached, validate_sha}
use ao2_control_plane.Ingest.{
  Outside, AppState, Clock, Method, schema_error, on_bundles, on_index, digest_of, store_absent,
  index_entry, admitted, require_bundle, get_stored, head_stored,
}
use ao2_control_plane.Ingest.ControlPlane.{ListQuery, bundle_page}

module _ (o : Outside) where
  abbrev pub accept : Clock → Bytes → MemoryExport → String → Method IngestReceipt
  accept clock raw export sha = do
    store_absent o memory_export sha raw
    index_entry o (record {
      ingested_at = clock.ingested;
      schema = export.schema_version;
      provider = none;
      sha256 = sha;
      status = some "accepted";
      size_bytes = length raw;
    })
    λ s. (ok (new clock.stored sha export.schema_version), s)

  unfoldable pub post_memory_export : AppState → Clock → Bytes → Method IngestReceipt
  unfolding admitted schema_error parse_memory_export store_absent index_entry
  post_memory_export state clock body = do
    lift (admitted o state body)
    export ← lift (
        map_err (λ e. schema_error "expected schema_version" (describe e))
          (parse_memory_export o.memory_export body))
    value ← lift (map_err AppError.bad_request (o.from_slice body))
    accept clock body export (digest_of o value)

  unfoldable pub list_memory_exports : ListQuery → Method BundleListResponse
  unfolding bundle_page
  list_memory_exports q = do
    all ← on_index o (read_all o.codec)
    λ s. (ok (bundle_page schema_memory_export_list "ao2.memory-export.v1" q all), s)

  -- The answer is the sidecar as it is stored.
  unfoldable pub get_memory_export_signature : String → Method Bytes
  unfolding validate_sha require_bundle Bundle.read
  get_memory_export_signature sha = do
    lift (validate_sha (codes sha))
    require_bundle o memory_export_signature sha
    on_bundles o (Bundle.read memory_export_signature sha)

  unfoldable pub get_memory_export : String → Option (Option (List ℕ)) → Method Cached
  unfolding get_stored
  get_memory_export = get_stored o memory_export

  unfoldable pub head_memory_export : String → Option (Option (List ℕ)) → Method Cached
  unfolding head_stored
  head_memory_export = head_stored o memory_export
