-- ===== src/Readiness/Handlers.antt =====
-- The handlers of handlers/provider_readiness.rs that take in and give out readiness artifacts.
use ao2_control_plane.Base.{
  ℕ, String, ◌<>◌, Bool, false, List, map, Option, none, some, Result, ok, err, ◌>>=◌, ◌>>◌, lift,
  map_err, leb, string_eq, ◌==◌, length, require, then_do,
}
use ao2_control_plane.Base.Text.{codes, codes_eq}
use ao2_control_plane.Disk.{Bytes}
use ao2_control_plane.Bundle
use ao2_control_plane.Bundle.Kind.{provider_readiness, provider_readiness_signature}
use ao2_control_plane.Index.{read_all}
use ao2_control_plane.Json.{Value, get, as_bool}
use ao2_control_plane.Json.Canonical.{canonical_json}
use ao2_control_plane.Schema.Responses.{IngestReceipt, new, BundleListEntry, BundleListResponse}
use ao2_control_plane.Server.AppError.{AppError}
use ao2_control_plane.Server.Caching.{Cached, validate_sha}
use ao2_control_plane.Ingest.{
  Outside, ReadinessSignatureSidecar, AppState, Clock, Method, on_bundles, on_index, digest_of,
  index_entry, head_stored,
}
use ao2_control_plane.Ingest.Signed.{record_sidecar}
use ao2_control_plane.Ingest.ControlPlane.{ListQuery, bundle_page}
use ao2_control_plane.Ingest.Values.{
  post_value, get_value, first, entries_of, read_value, read_or_missing, or_missing,
}
use ao2_control_plane.Ingest.Dashboard.Source.{and_then, json_str}
use ao2_control_plane.Promotion.{or_else, bool_at}
use ao2_control_plane.Promotion.Evidence.{provider_readiness_schema}
use ao2_control_plane.Readiness.{validate_provider_readiness}
use ao2_control_plane.Readiness.Signature.{signature_schema, verified_provider_readiness_signature}

abbrev pub signed_upload_schema : String
signed_upload_schema = "ao2.cp-provider-readiness-signed-upload.v1"

abbrev pub list_schema : String
list_schema = "ao2.cp-provider-readiness-list.v1"

-- What is known of a readiness whose signature verifies.
pub record VerifiedReadiness : Type 0 where
  pub readiness : Value
  pub raw : Bytes
  pub signature : Value

pub record ReadinessUrls : Type 0 where
  pub raw_url : String
  pub detail_url : String
  pub detail_json_url : String
  pub signature_url : String

abbrev pub urls_of : String → ReadinessUrls
urls_of sha = record {
  raw_url = "/api/v1/provider/readiness/" <> sha;
  detail_url = "/api/v1/provider/readiness/" <> sha <> "/detail";
  detail_json_url = "/api/v1/provider/readiness/" <> sha <> "/detail.json";
  signature_url = "/api/v1/provider/readiness/" <> sha <> "/signature";
}

pub record ReadinessSignature : Type 0 where
  pub signature_verified : Bool
  pub signer_id : String
  pub public_key_sha256 : String

abbrev pub summary_of : Option Value → ReadinessSignature
summary_of none = record {
  signature_verified = false;
  signer_id = "unsigned";
  public_key_sha256 = "";
}
summary_of (some signature) = record {
  signature_verified = or_else (bool_at "signature_verified" signature) false;
  signer_id = or_else (json_str signature "signer_id") "unknown";
  public_key_sha256 = or_else (json_str signature "public_key_sha256") "";
}

abbrev pub or_none {ℓ} : {A : Type ℓ} → Result AppError A → Option A
or_none (ok a) = some a
or_none (err e) = none

module _ (o : Outside) where
  unfoldable pub post_provider_readiness : AppState → Clock → Bytes → Method IngestReceipt
  unfolding post_value validate_provider_readiness
  post_provider_readiness =
      post_value o provider_readiness provider_readiness_schema validate_provider_readiness

  -- The bytes that must be signed are the canonical text of the readiness.
  abbrev pub canonical_bytes : Value → Bytes
  canonical_bytes v = o.encoding.utf8 (canonical_json v)

  unfoldable pub verified_readiness : AppState → Bytes → Result AppError VerifiedReadiness
  unfolding validate_provider_readiness verified_provider_readiness_signature string_eq
  verified_readiness state body =
      then_do (require (leb (length body) state.max_body_bytes) AppError.body_too_large) (λ a.
        then_do (map_err AppError.bad_request (o.signed_readiness body)) (λ upload.
          then_do
            (require (upload.schema_version == signed_upload_schema) (
              AppError.schema_unknown (
                "expected schema_version " <> signed_upload_schema <> ", got "
                <> upload.schema_version)))
            (λ b. then_do (validate_provider_readiness upload.readiness) (λ c.
              then_do
                (verified_provider_readiness_signature o (canonical_bytes upload.readiness)
                  upload.signature state.provider_readiness_trusted_key_sha256s)
                (λ signature. ok (record {
                  readiness = upload.readiness;
                  raw = canonical_bytes upload.readiness;
                  signature = signature;
                }))))))

  abbrev pub sidecar_of : String → Value → ReadinessSignatureSidecar
  sidecar_of sha signature = record {
    schema_version = signature_schema;
    provider_readiness_sha256 = sha;
    signature = signature;
  }

  -- A bundle that is there is written over with the canonical text.
  unfoldable pub accept_readiness : Clock → VerifiedReadiness → Method IngestReceipt
  unfolding record_sidecar index_entry Bundle.write
  accept_readiness clock p = do
    on_bundles o (Bundle.write provider_readiness (digest_of o p.readiness) p.raw)
    record_sidecar o provider_readiness_signature "provider readiness" (digest_of o p.readiness)
        (o.print_readiness_sidecar (sidecar_of (digest_of o p.readiness) p.signature))
    index_entry o (record {
      ingested_at = clock.ingested;
      schema = provider_readiness_schema;
      provider = none;
      sha256 = digest_of o p.readiness;
      status = some "signed";
      size_bytes = length p.raw;
    })
    λ s. (ok (new clock.stored (digest_of o p.readiness) provider_readiness_schema), s)

  unfoldable pub post_signed_provider_readiness : AppState → Clock → Bytes → Method IngestReceipt
  unfolding verified_readiness accept_readiness
  post_signed_provider_readiness state clock body = do
    p ← lift (verified_readiness state body)
    accept_readiness clock p

  unfoldable pub list_provider_readiness :
      ListQuery → Method (BundleListResponse × List ReadinessUrls)
  unfolding bundle_page
  list_provider_readiness q = do
    all ← on_index o (read_all o.codec)
    let page = bundle_page list_schema provider_readiness_schema q all in
        λ s. (ok (page, map (λ (e : BundleListEntry). urls_of e.sha256) page.entries), s)

  unfoldable pub latest_provider_readiness : Option (Option (List ℕ)) → Method Cached
  unfolding entries_of get_value
  latest_provider_readiness header = do
    es ← entries_of o provider_readiness_schema
    e ← lift (or_missing o (first es))
    get_value o provider_readiness e.sha256 header

  unfoldable pub get_provider_readiness : String → Option (Option (List ℕ)) → Method Cached
  unfolding get_value
  get_provider_readiness sha header = get_value o provider_readiness sha header

  unfoldable pub head_provider_readiness : String → Option (Option (List ℕ)) → Method Cached
  unfolding head_stored
  head_provider_readiness sha header = head_stored o provider_readiness sha header

  unfoldable pub get_provider_readiness_signature : String → Method Bytes
  unfolding read_or_missing validate_sha
  get_provider_readiness_signature sha = do
    lift (validate_sha (codes sha))
    read_or_missing o provider_readiness_signature sha

  -- No error of the read is passed on.
  unfoldable pub provider_readiness_signature_summary : String → Method ReadinessSignature
  unfolding read_value get json_str as_bool
  provider_readiness_signature_summary sha s =
      let (r, t) = read_value o provider_readiness_signature sha s in
      (ok (summary_of (and_then (or_none r) (get "signature"))), t)
