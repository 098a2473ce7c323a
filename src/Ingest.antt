-- ===== src/Ingest.antt =====
-- What the handlers of crates/ao2-cp-server/src/handlers that take in and give out bundles share.
pub mod Acceptance
pub mod ControlPlane
pub mod Memory
pub mod Signed
pub mod Keeps
pub mod Immutable
pub mod Genuine
pub mod RoundTrip
pub mod Provenance
pub mod Sidecar
pub mod Accepts
pub mod Pages
pub mod Dashboard
pub mod Values
use ao2_control_plane.Base.{
  ℕ, ◌≡◌, String, ◌<>◌, Bool, true, false, not, ◌||◌, List, [], ◌∷◌, Option, none, some, Result, ok,
  err, Exec, ◌>>=◌, ◌>>◌, convert, map_err, ltb, string_eq, ◌==◌, if◌then◌else◌, length,
}
use ao2_control_plane.Base.Text.{codes, codes_eq, contains_codes}
use ao2_control_plane.Disk.{Host, Bytes, IoError}
use ao2_control_plane.Bundle
use ao2_control_plane.Bundle.{BundleStoreError}
use ao2_control_plane.Bundle.Kind.{BundleKind}
use ao2_control_plane.Index.State.{IndexEntry, IndexStoreError, invalid_sha256, Storage, Codec}
use ao2_control_plane.Index.{append_if_absent}
use ao2_control_plane.Json.{Value}
use ao2_control_plane.Json.Canonical.{sha256_of_canonical}
use ao2_control_plane.Schema.Acceptance.{AcceptanceBundle}
use ao2_control_plane.Schema.Memory.{MemoryExport}
use ao2_control_plane.Schema.ControlPlane.{ControlPlaneBundle}
use ao2_control_plane.Server.AppError.{
  AppError, bad_request, internal, body_too_large, not_found, bundle_tampered,
}
use ao2_control_plane.Server.Signing.{Crypto, Encoding, sha256_hex}
use ao2_control_plane.Server.Caching.{
  Cached, validate_sha, format_etag, etag_matches, not_modified_response, cacheable_json_response,
  cacheable_head_response,
}

-- `SignedMemoryExportUpload` and `SignatureSidecar` of handlers/memory.rs.
pub record SignedMemoryExportUpload : Type 0 where
  pub schema_version : String
  pub export : Value
  pub export_b64 : Option String
  pub signature : Value

pub record SignatureSidecar : Type 0 where
  pub schema_version : String
  pub export_sha256 : String
  pub signature : Value

-- `SignedPhase1PromotionDecisionUpload` and `DecisionSignatureSidecar` of handlers/phase1_promotion.rs.
pub record SignedDecisionUpload : Type 0 where
  pub schema_version : String
  pub decision : Value
  pub decision_b64 : Option String
  pub signature : Value

pub record DecisionSignatureSidecar : Type 0 where
  pub schema_version : String
  pub phase1_promotion_decision_sha256 : String
  pub signature : Value

-- `SignedProviderReadinessUpload` and its sidecar of handlers/provider_readiness.rs.
pub record SignedReadinessUpload : Type 0 where
  pub schema_version : String
  pub readiness : Value
  pub signature : Value

pub record ReadinessSignatureSidecar : Type 0 where
  pub schema_version : String
  pub provider_readiness_sha256 : String
  pub signature : Value

-- What is taken from `std`, `serde_json` and `base64`, with the texts of their errors. A text that was
-- read from bytes is its bytes.
pub record Outside : Type 0 where
  pub crypto : Crypto
  pub encoding : Encoding
  pub codec : Codec
  pub is_utf8 : Bytes → Bool
  pub utf8_error : Bytes → String
  pub from_slice : Bytes → Result String Value
  pub acceptance : Bytes → Result String AcceptanceBundle
  pub memory_export : Bytes → Result String MemoryExport
  pub control_plane_bundle : Bytes → Result String ControlPlaneBundle
  pub signed_upload : Bytes → Result String SignedMemoryExportUpload
  pub signed_decision : Bytes → Result String SignedDecisionUpload
  pub signed_readiness : Bytes → Result String SignedReadinessUpload
  pub to_string_pretty : Value → Bytes
  pub print_sidecar : SignatureSidecar → Bytes
  pub print_decision_sidecar : DecisionSignatureSidecar → Bytes
  pub print_readiness_sidecar : ReadinessSignatureSidecar → Bytes
  pub decode_base64 : Bytes → Result String Bytes
  pub io_message : IoError → String
  pub debug : String → String

-- `AppState` without its storage, which is the state of the methods.
pub record AppState : Type 0 where
  pub max_body_bytes : ℕ
  pub provider_readiness_trusted_key_sha256s : List String
  pub signed_artifact_trusted_key_sha256s : List String

-- What the clock says when the entry is made and when the receipt is.
pub record Clock : Type 0 where
  pub ingested : ℕ
  pub stored : ℕ

abbrev pub Method {ℓ} : Type ℓ → Type ℓ
Method = Exec Storage AppError

-- `error` unless the test holds.
abbrev pub ensure : Bool → AppError → Method (Unit {0})
ensure test error s = (if test then ok tt else err error, s)

-- The test by which two kinds of schema errors are told apart.
unfoldable pub schema_error : String → String → AppError
unfolding contains_codes
schema_error unknown message =
    if contains_codes (codes message) (codes unknown)
    then AppError.schema_unknown message
    else AppError.schema_invalid message

module _ (o : Outside) where
  -- `to_string` of the errors of the two stores.
  abbrev pub bundle_message : BundleStoreError → String
  bundle_message (BundleStoreError.not_found sha) = "bundle not found: " <> sha
  bundle_message (BundleStoreError.io e) = "io error: " <> o.io_message e

  abbrev pub index_message : IndexStoreError → String
  index_message (IndexStoreError.io e) = "io: " <> o.io_message e
  index_message (invalid_sha256 sha) = "invalid sha256 in index entry: " <> sha

  abbrev pub on_bundles {ℓ} : {A : Type ℓ} → Exec Host BundleStoreError A → Method A
  on_bundles m s =
      let (r, h) = m s.host in
      (map_err (λ e. AppError.internal (bundle_message e)) r, record s { host = h })

  abbrev pub on_index {ℓ} : {A : Type ℓ} → Exec Storage IndexStoreError A → Method A
  on_index m = convert (λ e. AppError.internal (index_message e)) m

  abbrev pub digest_of : Value → String
  digest_of v = sha256_of_canonical (λ text. sha256_hex o.crypto (o.encoding.utf8 text)) v

  -- The bundle is written unless one of its digest is there.
  abbrev pub store_unless :
      BundleKind → String → Bytes → Storage → Bool × Host → Result AppError (Unit {0}) × Storage
  store_unless kind sha raw s (true, h) = (ok tt, record s { host = h })
  store_unless kind sha raw s (false, h) =
      on_bundles (Bundle.write kind sha raw) (record s { host = h })

  unfoldable pub store_absent : BundleKind → String → Bytes → Method (Unit {0})
  store_absent kind sha raw s = store_unless kind sha raw s (Bundle.exists kind sha s.host)

  unfoldable pub index_entry : IndexEntry → Method (Unit {0})
  index_entry entry = do on_index (append_if_absent o.codec entry); λ s. (ok tt, s)

  -- A body that is too long or no text is refused.
  unfoldable pub admitted : AppState → Bytes → Result AppError (Unit {0})
  admitted state body =
      if ltb state.max_body_bytes (length body)
      then err AppError.body_too_large
      else if not (o.is_utf8 body)
      then err (AppError.bad_request "body is not utf-8")
      else ok tt

  -- What was read is given out if its digest is the one that was asked for.
  abbrev pub untampered : String → Bytes → Result String Value → Result AppError Cached
  untampered sha bytes (err e) = err (AppError.internal e)
  untampered sha bytes (ok value) =
      if not (digest_of value == sha)
      then err (AppError.bundle_tampered sha (digest_of value))
      else ok (cacheable_json_response (format_etag (codes sha)) bytes)

  unfoldable pub read_verified : BundleKind → String → Method Cached
  unfolding string_eq
  read_verified kind sha = do
    bytes ← on_bundles (Bundle.read kind sha)
    λ s. (untampered sha bytes (o.from_slice bytes), s)

  unfoldable pub require_bundle : BundleKind → String → Method (Unit {0})
  require_bundle kind sha s =
      let (there, h) = Bundle.exists kind sha s.host in
      (if there then ok tt else err AppError.not_found, record s { host = h })

  abbrev pub unless_cached : String → Option (Option (List ℕ)) → Method Cached → Method Cached
  unless_cached sha header m s =
      if etag_matches header (format_etag (codes sha))
      then (ok (not_modified_response (format_etag (codes sha))), s)
      else m s

  -- The readers of one kind of bundle: with the body, and without.
  unfoldable pub get_stored : BundleKind → String → Option (Option (List ℕ)) → Method Cached
  unfolding read_verified require_bundle validate_sha etag_matches
  get_stored kind sha header = do
    λ s. (validate_sha (codes sha), s)
    require_bundle kind sha
    unless_cached sha header (read_verified kind sha)

  unfoldable pub head_stored : BundleKind → String → Option (Option (List ℕ)) → Method Cached
  unfolding require_bundle validate_sha etag_matches
  head_stored kind sha header = do
    λ s. (validate_sha (codes sha), s)
    require_bundle kind sha
    unless_cached sha header (λ s. (ok (cacheable_head_response (format_etag (codes sha))), s))
