-- ===== src/Support/Sidecars.antt =====
-- The methods of `Storage` that make a support bundle: the sidecars are read, the gaps enforced, and
-- the retention report added. `parse_json` is `serde_json::from_slice`.
use ao2_control_plane.Base.{
  ℕ, String, ◌<>◌, true, false, List, [], ◌∷◌, Option, none, some, ok, err, Exec, ◌>>=◌, convert,
  string_eq, ◌==◌, if◌then◌else◌, leb, sort_by, take,
}
use ao2_control_plane.Disk.{Host, Bytes, failed}
use ao2_control_plane.Bundle
use ao2_control_plane.Bundle.Kind.{
  BundleKind, subdir, provider_readiness_signature, phase1_promotion_decision_signature,
  release_evaluator_decision_signature,
}
use ao2_control_plane.Index
use ao2_control_plane.Index.State.{IndexEntry, Codec}
use ao2_control_plane.Retention.{StorageError, Method, RetentionPolicy, on_index}
use ao2_control_plane.Retention.Report.{RetentionReport, retention_report_for_entries}
use ao2_control_plane.Json.{Value, get, find_member, as_str, as_bool, as_object}
use ao2_control_plane.Support.State.{
  SupportBundleSignatureSummary, SupportBundleArtifactSummary, Observed,
  SupportBundlePhase1Readiness,
}
use ao2_control_plane.Support.Artifacts.{observed}
use ao2_control_plane.Support.Gaps.{entries_readiness, enforce_required_signed_artifact_sidecars}

abbrev and_then {ℓ κ} : {A : Type ℓ} {B : Type κ} → Option A → (A → Option B) → Option B
and_then none f = none
and_then (some a) f = f a

abbrev unwrap_or : Option String → String → String
unwrap_or none otherwise = otherwise
unwrap_or (some s) otherwise = s

-- What is read off a sidecar that parses.
unfoldable pub signature_summary_of : BundleKind → String → Value → SupportBundleSignatureSummary
unfolding get find_member as_str as_bool as_object subdir
signature_summary_of kind raw_url value =
    let signature = and_then (get "signature" value) as_object in
    let text = λ (key : String). and_then (and_then signature (find_member key)) as_str in
    record {
      schema_version = unwrap_or (and_then (get "schema_version" value) as_str) (subdir kind);
      raw_url = raw_url;
      signature_algorithm = text "signature_algorithm";
      signature_verified = and_then (and_then signature (find_member "signature_verified")) as_bool;
      signer_id = text "signer_id";
      public_key_sha256 = text "public_key_sha256";
      trust_anchor = text "trust_anchor";
      verification_scope = text "verification_scope";
      trust_policy = and_then signature (find_member "trust_policy");
    }

unfoldable pub set_signature : String → Option SupportBundleSignatureSummary → Observed → Observed
unfolding string_eq
set_signature id signature [] = []
set_signature id signature ((k, none) ∷ rest) = (k, none) ∷ set_signature id signature rest
set_signature id signature ((k, some a) ∷ rest) =
    (k, some (if k == id then record a { signature = signature } else a))
    ∷ set_signature id signature rest

pub record SupportBundle : Type 0 where
  pub phase1_release_readiness : SupportBundlePhase1Readiness
  pub retention_report : RetentionReport
  pub latest_index_entries : List IndexEntry

abbrev pub max_index_entries : ℕ
max_index_entries = 50

abbrev on_host :
    Exec Host StorageError SupportBundlePhase1Readiness → Method SupportBundlePhase1Readiness
on_host m s = let (r, h) = m s.host in (r, record s { host = h })

module _ (parse_json : Bytes → Option Value) where
  -- A sidecar that is no JSON is an `InvalidData` of the input and output.
  abbrev parsed :
      BundleKind
      → String
      → Option Value
      → Exec Host StorageError (Option SupportBundleSignatureSummary)
  parsed kind raw_url none h = (err (StorageError.io failed), h)
  parsed kind raw_url (some value) h = (ok (some (signature_summary_of kind raw_url value)), h)

  unfoldable pub support_bundle_signature_summary :
      BundleKind → String → String → Exec Host StorageError (Option SupportBundleSignatureSummary)
  unfolding signature_summary_of
  support_bundle_signature_summary kind sha raw_url h =
      let (there, h₁) = Bundle.exists kind sha h in
      elim there [
        | false ↦ (ok none, h₁)
        | true ↦
            (do
              raw ← convert StorageError.bundle (Bundle.read kind sha)
              parsed kind raw_url (parse_json raw))
              h₁
      ]

  -- The sidecar of one artifact, if there is the artifact.
  abbrev pub attach_to :
      String
      → BundleKind
      → (String → String)
      → Observed
      → Option SupportBundleArtifactSummary
      → Exec Host StorageError Observed
  attach_to id kind raw_url artifacts none h = (ok artifacts, h)
  attach_to id kind raw_url artifacts (some a) h =
      (do
        signature ← support_bundle_signature_summary kind a.sha256 (raw_url a.sha256)
        λ g. (ok (set_signature id signature artifacts), g))
        h

  unfoldable pub attach_signature :
      String → BundleKind → (String → String) → Observed → Exec Host StorageError Observed
  unfolding support_bundle_signature_summary set_signature observed
  attach_signature id kind raw_url artifacts =
      attach_to id kind raw_url artifacts (observed id artifacts)

  unfoldable pub attach_signatures : Observed → Exec Host StorageError Observed
  unfolding attach_signature
  attach_signatures artifacts = do
    one ←
        attach_signature "provider_readiness" provider_readiness_signature
          (λ sha. "/api/v1/provider/readiness/" <> sha <> "/signature") artifacts
    two ←
        attach_signature "signed_phase1_promotion_decision" phase1_promotion_decision_signature
          (λ sha. "/api/v1/phase1/promotion/decision/" <> sha <> "/signature") one
    attach_signature "release_evaluator_decision" release_evaluator_decision_signature
        (λ sha. "/api/v1/release/evaluator-decision/" <> sha <> "/signature") two

  unfoldable pub support_bundle_phase1_readiness :
      (String → ℕ) → List IndexEntry → Exec Host StorageError SupportBundlePhase1Readiness
  unfolding attach_signatures entries_readiness enforce_required_signed_artifact_sidecars
  support_bundle_phase1_readiness now entries = do
    artifacts ← attach_signatures (entries_readiness now entries).observed_artifacts
    λ h. (
      ok (
          enforce_required_signed_artifact_sidecars
            (record (entries_readiness now entries) { observed_artifacts = artifacts })),
      h,
    )

  unfoldable pub support_bundle : Codec → (String → ℕ) → RetentionPolicy → Method SupportBundle
  unfolding support_bundle_phase1_readiness retention_report_for_entries sort_by
  support_bundle c now policy = do
    all ← on_index (Index.read_all c)
    λ s.
        let entries = sort_by (λ (a b : IndexEntry). leb b.ingested_at a.ingested_at) all in
        (do
          report ← retention_report_for_entries entries policy
          readiness ← on_host (support_bundle_phase1_readiness now entries)
          λ t. (
            ok (record {
              phase1_release_readiness = readiness;
              retention_report = report;
              latest_index_entries = take max_index_entries entries;
            }),
            t,
          ))
          s
