-- ===== src/Promotion/Handlers.antt =====
-- The handlers of handlers/phase1_promotion.rs that take in and give out documents.
use ao2_control_plane.Base.{
  ℕ, String, ◌<>◌, List, Option, none, some, Result, ok, ◌>>=◌, ◌>>◌, lift, map_err, leb, string_eq,
  ◌==◌, length, require, then_do,
}
use ao2_control_plane.Base.Text.{codes}
use ao2_control_plane.Disk.{Bytes}
use ao2_control_plane.Bundle
use ao2_control_plane.Bundle.Kind.{
  phase1_promotion_checklist, phase1_promotion_inputs_verification, phase1_promotion_decision,
  phase1_promotion_decision_signature,
}
use ao2_control_plane.Json.{Value}
use ao2_control_plane.Schema.Responses.{IngestReceipt, new}
use ao2_control_plane.Server.AppError.{AppError}
use ao2_control_plane.Server.Caching.{Cached, validate_sha}
use ao2_control_plane.Server.Signing.{annotate_trust_policy, as_bytes}
use ao2_control_plane.Ingest.{
  Outside, SignedDecisionUpload, DecisionSignatureSidecar, AppState, Clock, Method, digest_of,
  store_absent, index_entry, head_stored,
}
use ao2_control_plane.Ingest.Signed.{verify_signed, record_sidecar, or_panic}
use ao2_control_plane.Ingest.Values.{post_value, get_value, latest_value, read_value}
use ao2_control_plane.Ingest.Dashboard.Source.{json_str}
use ao2_control_plane.Promotion.{or_else}
use ao2_control_plane.Promotion.Validate.{
  checklist_schema, inputs_verification_schema, decision_schema,
  validate_phase1_promotion_checklist, validate_phase1_promotion_inputs_verification,
  validate_phase1_promotion_decision, required_json_str,
}

abbrev pub signed_upload_schema : String
signed_upload_schema = "ao2.cp-phase1-promotion-decision-signed-upload.v1"

abbrev pub signature_schema : String
signature_schema = "ao2.cp-phase1-promotion-decision-signature.v1"

-- What is known of a decision whose signature verifies.
pub record VerifiedDecision : Type 0 where
  pub raw : Bytes
  pub decision : Value
  pub checklist_sha : String
  pub claimed : Value

module _ (o : Outside) where
  unfoldable pub post_phase1_promotion_checklist : AppState → Clock → Bytes → Method IngestReceipt
  unfolding post_value validate_phase1_promotion_checklist
  post_phase1_promotion_checklist =
      post_value o phase1_promotion_checklist checklist_schema validate_phase1_promotion_checklist

  unfoldable pub post_phase1_promotion_inputs_verification :
      AppState → Clock → Bytes → Method IngestReceipt
  unfolding post_value validate_phase1_promotion_inputs_verification
  post_phase1_promotion_inputs_verification =
      post_value o phase1_promotion_inputs_verification inputs_verification_schema
        validate_phase1_promotion_inputs_verification

  module _ (header : Option (Option (List ℕ))) where
    unfoldable pub latest_phase1_promotion_checklist : Method Cached
    unfolding latest_value
    latest_phase1_promotion_checklist =
        latest_value o phase1_promotion_checklist checklist_schema header

    unfoldable pub latest_phase1_promotion_inputs_verification : Method Cached
    unfolding latest_value
    latest_phase1_promotion_inputs_verification =
        latest_value o phase1_promotion_inputs_verification inputs_verification_schema header

    unfoldable pub latest_phase1_promotion_decision : Method Cached
    unfolding latest_value
    latest_phase1_promotion_decision =
        latest_value o phase1_promotion_decision decision_schema header

    module _ (sha : String) where
      unfoldable pub get_phase1_promotion_checklist : Method Cached
      unfolding get_value
      get_phase1_promotion_checklist = get_value o phase1_promotion_checklist sha header

      unfoldable pub get_phase1_promotion_inputs_verification : Method Cached
      unfolding get_value
      get_phase1_promotion_inputs_verification =
          get_value o phase1_promotion_inputs_verification sha header

      unfoldable pub get_phase1_promotion_decision : Method Cached
      unfolding get_value
      get_phase1_promotion_decision = get_value o phase1_promotion_decision sha header

      unfoldable pub head_phase1_promotion_checklist : Method Cached
      unfolding head_stored
      head_phase1_promotion_checklist = head_stored o phase1_promotion_checklist sha header

      unfoldable pub head_phase1_promotion_inputs_verification : Method Cached
      unfolding head_stored
      head_phase1_promotion_inputs_verification =
          head_stored o phase1_promotion_inputs_verification sha header

      unfoldable pub head_phase1_promotion_decision : Method Cached
      unfolding head_stored
      head_phase1_promotion_decision = head_stored o phase1_promotion_decision sha header

  -- The bytes that were signed.
  abbrev pub signed_bytes_of : SignedDecisionUpload → Result AppError Bytes
  signed_bytes_of upload = elim upload.decision_b64 [
    | some encoded ↦
        map_err (λ e. AppError.schema_invalid ("decision_b64 is not valid base64: " <> e))
          (o.decode_base64 (as_bytes o.crypto o.encoding encoded))
    | none ↦ ok (o.to_string_pretty upload.decision)
  ]

  unfoldable pub verify_signed_phase1_promotion_decision :
      Bytes → Value → Result AppError (Unit {0})
  unfolding verify_signed json_str string_eq
  verify_signed_phase1_promotion_decision raw signature =
      let schema = or_else (json_str signature "schema_version") "" in
      then_do
        (require (schema == signature_schema) (
          AppError.schema_unknown
            ("expected schema_version " <> signature_schema <> ", got " <> schema)))
        (λ u. verify_signed o "Phase 1 promotion decision" raw signature)

  -- The part of the handler before it looks for the checklist.
  unfoldable pub verified_decision : AppState → Bytes → Result AppError VerifiedDecision
  unfolding verify_signed_phase1_promotion_decision validate_phase1_promotion_decision
      required_json_str string_eq
  verified_decision state body =
      then_do (require (leb (length body) state.max_body_bytes) AppError.body_too_large) (λ a.
        then_do (map_err AppError.bad_request (o.signed_decision body)) (λ upload.
          then_do
            (require (upload.schema_version == signed_upload_schema) (
              AppError.schema_unknown (
                "expected schema_version " <> signed_upload_schema <> ", got "
                <> upload.schema_version)))
            (λ b. then_do (signed_bytes_of upload) (λ raw.
              then_do
                (require (o.is_utf8 raw) (
                  AppError.schema_invalid
                    ("signed Phase 1 promotion decision is not utf-8: " <> o.utf8_error raw)))
                (λ c. then_do (verify_signed_phase1_promotion_decision raw upload.signature) (λ d.
                  then_do (map_err AppError.schema_invalid (o.from_slice raw)) (λ decision.
                    then_do (validate_phase1_promotion_decision decision) (λ e.
                      then_do (required_json_str decision "checklist_sha256") (λ sha. ok (record {
                        raw = raw;
                        decision = decision;
                        checklist_sha = sha;
                        claimed = upload.signature;
                      }))))))))))

  unfoldable pub require_checklist : String → Method (Unit {0})
  unfolding Bundle.exists
  require_checklist sha s =
      let (there, h) = Bundle.exists phase1_promotion_checklist sha s.host in
      (
        require there (
            AppError.schema_invalid
              ("Phase 1 promotion decision references unknown checklist_sha256 " <> sha)),
        record s { host = h },
      )

  abbrev pub sidecar_of : String → Value → DecisionSignatureSidecar
  sidecar_of sha signature = record {
    schema_version = signature_schema;
    phase1_promotion_decision_sha256 = sha;
    signature = signature;
  }

  unfoldable pub accept_decision : Clock → VerifiedDecision → Value → Method IngestReceipt
  unfolding store_absent record_sidecar index_entry
  accept_decision clock p signature = do
    store_absent o phase1_promotion_decision (digest_of o p.decision) p.raw
    record_sidecar o phase1_promotion_decision_signature "phase1 promotion decision"
        (digest_of o p.decision)
        (o.print_decision_sidecar (sidecar_of (digest_of o p.decision) signature))
    index_entry o (record {
      ingested_at = clock.ingested;
      schema = decision_schema;
      provider = none;
      sha256 = digest_of o p.decision;
      status = some "signed";
      size_bytes = length p.raw;
    })
    λ s. (ok (new clock.stored (digest_of o p.decision) decision_schema), s)

  unfoldable pub post_signed_phase1_promotion_decision :
      AppState → Clock → Bytes → Method IngestReceipt
  unfolding verified_decision require_checklist annotate_trust_policy accept_decision
  post_signed_phase1_promotion_decision state clock body = do
    p ← lift (verified_decision state body)
    require_checklist p.checklist_sha
    signature ← lift (
        or_panic o (
          annotate_trust_policy o.crypto o.encoding p.claimed
            state.signed_artifact_trusted_key_sha256s))
    accept_decision clock p signature

  -- The checks of a sidecar that was read.
  abbrev check_sidecar : String → Value → Result AppError Value
  check_sidecar sha sidecar =
      let named = or_else (json_str sidecar "phase1_promotion_decision_sha256") "" in
      let schema = or_else (json_str sidecar "schema_version") "" in
      then_do
        (require (named == sha) (
          AppError.schema_invalid (
            "Phase 1 promotion decision signature sidecar sha mismatch: expected " <> sha
            <> ", got " <> named)))
        (λ a.
          then_do
            (require (schema == signature_schema) (
              AppError.schema_unknown
                ("expected schema_version " <> signature_schema <> ", got " <> schema)))
            (λ b. ok sidecar))

  unfoldable pub read_decision_signature_sidecar : String → Method Value
  unfolding validate_sha read_value json_str string_eq
  read_decision_signature_sidecar sha = do
    lift (validate_sha (codes sha))
    sidecar ← read_value o phase1_promotion_decision_signature sha
    lift (check_sidecar sha sidecar)

  unfoldable pub get_phase1_promotion_decision_signature : String → Method Bytes
  unfolding read_decision_signature_sidecar
  get_phase1_promotion_decision_signature sha = do
    sidecar ← read_decision_signature_sidecar sha
    λ s. (ok (o.to_string_pretty sidecar), s)
