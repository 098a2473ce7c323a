-- ===== src/Ingest/ControlPlane.antt =====
-- crates/ao2-cp-server/src/handlers/control_plane.rs, without its index of routes.
use ao2_control_plane.Base.{
  ℕ, min, String, Bool, List, map, Option, none, ok, ◌>>=◌, ◌>>◌, lift, map_err, string_eq, ◌==◌,
  length, take, drop, filter, sort_by, if◌then◌else◌,
}
use ao2_control_plane.Disk.{Bytes}
use ao2_control_plane.Bundle.Kind.{control_plane_bundle}
use ao2_control_plane.Index.State.{IndexEntry}
use ao2_control_plane.Index.{read_all}
use ao2_control_plane.Schema.ControlPlane.{ControlPlaneBundle, parse_control_plane_bundle, describe}
use ao2_control_plane.Schema.Responses.{
  IngestReceipt, new, BundleListEntry, BundleListResponse, schema_bundle_list,
}
use ao2_control_plane.Server.AppError.{AppError}
use ao2_control_plane.Server.Caching.{Cached}
use ao2_control_plane.Ingest.{
  Outside, AppState, Clock, Method, schema_error, on_index, digest_of, store_absent, index_entry,
  admitted, get_stored, head_stored,
}
use ao2_control_plane.Ingest.Acceptance.{passes_since, latest_first}

pub record ListQuery : Type 0 where
  pub limit : ℕ
  pub offset : ℕ
  pub since : Option ℕ

abbrev pub default_limit : ℕ
default_limit = 50

abbrev pub listed : IndexEntry → BundleListEntry
listed e = record {
  sha256 = e.sha256;
  ingested_at = e.ingested_at;
  size_bytes = e.size_bytes;
  schema_version = e.schema;
  status = e.status;
}

-- The page of one schema, under the name that the answer has.
unfoldable pub bundle_page : String → String → ListQuery → List IndexEntry → BundleListResponse
unfolding string_eq sort_by
bundle_page name schema q all =
    let sorted = sort_by latest_first (
      filter (λ (e : IndexEntry). if e.schema == schema then passes_since q.since e else Bool.false)
        all) in
    record {
      schema_version = name;
      total_count = length sorted;
      limit = min q.limit 500;
      offset = q.offset;
      entries = map listed (take (min q.limit 500) (drop q.offset sorted));
    }

module _ (o : Outside) where
  abbrev pub accept : Clock → Bytes → ControlPlaneBundle → String → Method IngestReceipt
  accept clock raw bundle sha = do
    store_absent o control_plane_bundle sha raw
    index_entry o (record {
      ingested_at = clock.ingested;
      schema = bundle.schema_version;
      provider = none;
      sha256 = sha;
      status = none;
      size_bytes = length raw;
    })
    λ s. (ok (new clock.stored sha bundle.schema_version), s)

  unfoldable pub post_bundle : AppState → Clock → Bytes → Method IngestReceipt
  unfolding admitted schema_error parse_control_plane_bundle store_absent index_entry
  post_bundle state clock body = do
    lift (admitted o state body)
    bundle ← lift (
        map_err (λ e. schema_error "expected schema_version" (describe e))
          (parse_control_plane_bundle o.control_plane_bundle body))
    value ← lift (map_err AppError.bad_request (o.from_slice body))
    accept clock body bundle (digest_of o value)

  unfoldable pub list_bundles : ListQuery → Method BundleListResponse
  unfolding bundle_page
  list_bundles q = do
    all ← on_index o (read_all o.codec)
    λ s. (ok (bundle_page schema_bundle_list "ao2.control-plane-fleet-bundle.v1" q all), s)

  unfoldable pub get_bundle : String → Option (Option (List ℕ)) → Method Cached
  unfolding get_stored
  get_bundle = get_stored o control_plane_bundle

  unfoldable pub head_bundle : String → Option (Option (List ℕ)) → Method Cached
  unfolding head_stored
  head_bundle = head_stored o control_plane_bundle
