-- ===== src/Ingest/Values.antt =====
-- Documents that are checked as JSON values: what the handlers of phase1_promotion.rs and
-- provider_readiness.rs share.
pub mod Latest
use ao2_control_plane.Base.{
  ℕ, String, List, [], ◌∷◌, Option, none, some, Result, ok, err, ◌>>=◌, ◌>>◌, lift, map_err,
  string_eq, ◌==◌, length, filter, sort_by,
}
use ao2_control_plane.Base.Text.{codes}
use ao2_control_plane.Disk.{Bytes}
use ao2_control_plane.Bundle
use ao2_control_plane.Bundle.Kind.{BundleKind}
use ao2_control_plane.Index.State.{IndexEntry}
use ao2_control_plane.Index.{read_all}
use ao2_control_plane.Json.{Value}
use ao2_control_plane.Schema.Responses.{IngestReceipt, new}
use ao2_control_plane.Server.AppError.{AppError}
use ao2_control_plane.Server.Caching.{Cached, validate_sha, etag_matches}
use ao2_control_plane.Ingest.{
  Outside, AppState, Clock, Method, on_index, digest_of, store_absent, index_entry, admitted,
  untampered, unless_cached,
}
use ao2_control_plane.Ingest.Acceptance.{latest_first}
use ao2_control_plane.Ingest.Dashboard.Source.{json_str}

abbrev pub first : List IndexEntry → Option IndexEntry
first [] = none
first (e ∷ es) = some e

module _ (o : Outside) where
  abbrev pub accept_value :
      BundleKind → String → Clock → Bytes → String → Option String → Method IngestReceipt
  accept_value kind schema clock raw sha status = do
    store_absent o kind sha raw
    index_entry o (record {
      ingested_at = clock.ingested;
      schema = schema;
      provider = none;
      sha256 = sha;
      status = status;
      size_bytes = length raw;
    })
    λ s. (ok (new clock.stored sha schema), s)

  -- The post of a document that `validate` accepts.
  unfoldable pub post_value :
      BundleKind
      → String
      → (Value → Result AppError (Unit {0}))
      → AppState
      → Clock
      → Bytes
      → Method IngestReceipt
  unfolding admitted store_absent index_entry json_str
  post_value kind schema validate state clock body = do
    lift (admitted o state body)
    value ← lift (map_err AppError.bad_request (o.from_slice body))
    lift (validate value)
    accept_value kind schema clock body (digest_of o value) (json_str value "status")

  -- Every error of the read is a missing bundle.
  unfoldable pub read_or_missing : BundleKind → String → Method Bytes
  unfolding Bundle.read
  read_or_missing kind sha s =
      let (r, h) = Bundle.read kind sha s.host in
      (map_err (λ e. AppError.not_found) r, record s { host = h })

  unfoldable pub read_value : BundleKind → String → Method Value
  unfolding read_or_missing
  read_value kind sha = do
    bytes ← read_or_missing kind sha
    lift (map_err AppError.internal (o.from_slice bytes))

  unfoldable pub get_value : BundleKind → String → Option (Option (List ℕ)) → Method Cached
  unfolding read_or_missing validate_sha etag_matches string_eq
  get_value kind sha header = do
    lift (validate_sha (codes sha))
    bytes ← read_or_missing kind sha
    unless_cached o sha header (λ s. (untampered o sha bytes (o.from_slice bytes), s))

  -- The entries of a schema, the latest first.
  unfoldable pub entries_of : String → Method (List IndexEntry)
  unfolding string_eq sort_by
  entries_of schema = do
    all ← on_index o (read_all o.codec)
    λ s. (ok (sort_by latest_first (filter (λ e. e.schema == schema) all)), s)

  -- The latest document of a schema with its entry.
  abbrev pub value_of_first : BundleKind → Option IndexEntry → Method (Option (IndexEntry × Value))
  value_of_first kind none s = (ok none, s)
  value_of_first kind (some e) s =
      (do value ← read_value kind e.sha256; λ t. (ok (some (e, value)), t)) s

  unfoldable pub latest_entry_value : BundleKind → String → Method (Option (IndexEntry × Value))
  unfolding entries_of read_value
  latest_entry_value kind schema = do es ← entries_of schema; value_of_first kind (first es)

  abbrev pub or_missing {ℓ} : {A : Type ℓ} → Option A → Result AppError A
  or_missing none = err AppError.not_found
  or_missing (some a) = ok a

  unfoldable pub latest_value : BundleKind → String → Option (Option (List ℕ)) → Method Cached
  unfolding latest_entry_value get_value
  latest_value kind schema header = do
    m ← latest_entry_value kind schema
    found ← lift (or_missing m)
    get_value kind found.0.sha256 header
