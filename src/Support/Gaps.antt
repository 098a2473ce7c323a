-- ===== src/Support/Gaps.antt =====
-- `support_bundle_phase1_readiness` and `enforce_required_signed_artifact_sidecars`: the gaps that
-- block a release decision, and the readiness that they make.
use ao2_control_plane.Support.Requirements.{Requirement, required_artifacts, required_sidecars}
use ao2_control_plane.Base.{
  ℕ, ◌+◌, String, ◌<>◌, Bool, true, false, not, ◌&&◌, List, [], ◌∷◌, ◌++◌, Option, none, some,
  string_eq, option_eq, bool_eq, ◌==◌, if◌then◌else◌, length, filter,
}
use ao2_control_plane.Base.Decimal.{decimal}
use ao2_control_plane.Index.State.{IndexEntry}
use ao2_control_plane.Json.{Value, get, as_bool}
use ao2_control_plane.Support.State.{
  SupportBundleSignatureSummary, SupportBundleArtifactSummary, SupportBundleGap,
  SupportBundleGapSummary, SupportBundleCriticalPathStep, Observed, SupportBundlePhase1Readiness,
}
use ao2_control_plane.Support.Artifacts.{
  observed, observe, wanted_artifacts, artifact_status_is_blocking,
}

abbrev pub blocking : String → String → String → String → SupportBundleGap
blocking id gap_kind evidence_needed next_action = record {
  id = id;
  severity = "blocking";
  gap_kind = gap_kind;
  evidence_needed = evidence_needed;
  next_action = next_action;
}

abbrev pub or_zero : Option ℕ → ℕ
or_zero none = 0
or_zero (some n) = n

abbrev pub or_unknown : Option String → String
or_unknown none = "unknown"
or_unknown (some s) = s

abbrev stale_gap : Requirement → SupportBundleArtifactSummary → SupportBundleGap
stale_gap q a =
    blocking q.id "stale_artifact"
      ("fresh "
        <> q.evidence_needed
        <> "; observed artifact is "
        <> decimal a.age_seconds
        <> " seconds old and exceeds the "
        <> decimal (or_zero a.stale_after_seconds)
        <> " second freshness window")
      ("refresh stale evidence: " <> q.next_action)

abbrev failed_gap : Requirement → SupportBundleArtifactSummary → SupportBundleGap
failed_gap q a =
    blocking q.id "failed_status"
      ("non-failing "
        <> q.evidence_needed
        <> "; observed artifact status is "
        <> or_unknown a.status)
      ("resolve failed artifact status "
        <> or_unknown a.status
        <> " and republish: "
        <> q.next_action)

-- The gap of one row, if there is one.
unfoldable pub artifact_gap :
    Requirement → Option SupportBundleArtifactSummary → List SupportBundleGap
artifact_gap q none = blocking q.id "missing_artifact" q.evidence_needed q.next_action ∷ []
artifact_gap q (some a) =
    if a.is_stale
    then stale_gap q a ∷ []
    else if artifact_status_is_blocking a.status
    then failed_gap q a ∷ []
    else []

unfoldable pub artifact_gaps : List Requirement → Observed → List SupportBundleGap
unfolding artifact_gap observed
artifact_gaps [] artifacts = []
artifact_gaps (q ∷ qs) artifacts =
    artifact_gap q (observed q.id artifacts) ++ artifact_gaps qs artifacts

abbrev of_kind : String → List SupportBundleGap → ℕ
of_kind kind gaps = length (filter (λ gap. gap.gap_kind == kind) gaps)

unfoldable pub support_bundle_gap_summary : List SupportBundleGap → SupportBundleGapSummary
support_bundle_gap_summary gaps = record {
  total_blocking = length gaps;
  missing_artifact_count = of_kind "missing_artifact" gaps;
  stale_artifact_count = of_kind "stale_artifact" gaps;
  failed_status_count = of_kind "failed_status" gaps;
  missing_signature_count = of_kind "missing_signature" gaps;
  unverified_signature_count = of_kind "unverified_signature" gaps;
  untrusted_signature_count = of_kind "untrusted_signature" gaps;
}

abbrev step_of : ℕ → SupportBundleGap → SupportBundleCriticalPathStep
step_of index gap = record {
  operator_step = index + 1;
  id = gap.id;
  severity = gap.severity;
  gap_kind = gap.gap_kind;
  evidence_needed = gap.evidence_needed;
  next_action = gap.next_action;
}

unfoldable pub critical_path_from : ℕ → List SupportBundleGap → List SupportBundleCriticalPathStep
critical_path_from index [] = []
critical_path_from index (gap ∷ gaps) = step_of index gap ∷ critical_path_from (index + 1) gaps

unfoldable pub support_bundle_critical_path :
    List SupportBundleGap → List SupportBundleCriticalPathStep
unfolding critical_path_from
support_bundle_critical_path = critical_path_from 0

abbrev pub is_empty : List SupportBundleGap → Bool
is_empty [] = true
is_empty (gap ∷ gaps) = false

abbrev pub first_action : String → List SupportBundleGap → String
first_action otherwise [] = otherwise
first_action otherwise (gap ∷ gaps) = gap.next_action

-- The readiness that some gaps make, with the advice for when there is none.
unfoldable pub readiness_of :
    String → Observed → List SupportBundleGap → SupportBundlePhase1Readiness
unfolding support_bundle_gap_summary support_bundle_critical_path
readiness_of otherwise artifacts gaps = record {
  observed_artifacts = artifacts;
  readiness_status = if is_empty gaps then "ready" else "blocked";
  release_decision_allowed = is_empty gaps;
  total_open_gaps = length gaps;
  gap_summary = support_bundle_gap_summary gaps;
  critical_path = support_bundle_critical_path gaps;
  blocking_gaps = gaps;
  next_recommended_action = first_action otherwise gaps;
}

-- `support_bundle_phase1_readiness`, the function of the entries.
unfoldable pub entries_readiness : (String → ℕ) → List IndexEntry → SupportBundlePhase1Readiness
unfolding readiness_of artifact_gaps observe wanted_artifacts
entries_readiness now entries =
    let artifacts = observe now entries wanted_artifacts in
    readiness_of
      "all support-bundle Phase 1 observer artifacts are present; verify release readiness in Factory v3 evaluator/closer before promotion"
      artifacts (artifact_gaps required_artifacts artifacts)

abbrev and_then {ℓ κ} : {A : Type ℓ} {B : Type κ} → Option A → (A → Option B) → Option B
and_then none f = none
and_then (some a) f = f a

abbrev member_is_true : String → Value → Bool
member_is_true key v = and_then (get key v) as_bool == some true

unfoldable pub is_release_authoritative : SupportBundleSignatureSummary → Bool
unfolding get as_bool bool_eq option_eq
is_release_authoritative signature =
    if not (signature.signature_verified == some true) then false else elim signature.trust_policy [
      | none ↦ false
      | some policy ↦
          member_is_true "release_authoritative" policy && member_is_true "trusted_key_match" policy
    ]

-- `{:?}` of an optional flag.
abbrev debug : Option Bool → String
debug none = "None"
debug (some true) = "Some(true)"
debug (some false) = "Some(false)"

-- The gap that the sidecar of the provider readiness makes. None is needed.
unfoldable pub provider_signature_gap : Option SupportBundleArtifactSummary → List SupportBundleGap
unfolding is_release_authoritative option_eq bool_eq
provider_signature_gap none = []
provider_signature_gap (some a) = elim a.signature [
  | none ↦ []
  | some signature ↦
      if not (signature.signature_verified == some true)
      then blocking "provider_readiness_signature" "unverified_signature"
          ("verified release-authoritative pinned-key signature sidecar for provider readiness evidence; observed signature_verified is "
            <> debug signature.signature_verified)
          "replace or republish unverified provider readiness signature sidecar using configured trusted public-key digest verification"
        ∷ []
      else if not (is_release_authoritative signature)
      then blocking "provider_readiness_signature" "untrusted_signature"
          "release-authoritative pinned-key signature sidecar for provider readiness evidence; observer-only upload-key signatures are not release-authoritative"
          "configure trusted provider-readiness public-key SHA256 digests and republish provider readiness so trust_policy.release_authoritative and trusted_key_match are true"
        ∷ []
      else []
]

unfoldable pub sidecar_gap :
    Requirement → Option SupportBundleArtifactSummary → List SupportBundleGap
unfolding option_eq bool_eq
sidecar_gap q none = []
sidecar_gap q (some a) = elim a.signature [
  | none ↦ blocking (q.id <> "_signature") "missing_signature" q.evidence_needed q.next_action ∷ []
  | some signature ↦
      if not (signature.signature_verified == some true)
      then blocking (q.id <> "_signature") "unverified_signature"
          (q.evidence_needed
            <> "; observed signature_verified is "
            <> debug signature.signature_verified)
          ("replace or republish unverified signature sidecar: " <> q.next_action)
        ∷ []
      else []
]

unfoldable pub sidecar_gaps : List Requirement → Observed → List SupportBundleGap
unfolding sidecar_gap observed
sidecar_gaps [] artifacts = []
sidecar_gaps (q ∷ qs) artifacts =
    sidecar_gap q (observed q.id artifacts) ++ sidecar_gaps qs artifacts

-- The gaps so far are kept, and what follows from them is made again.
unfoldable pub enforce_required_signed_artifact_sidecars :
    SupportBundlePhase1Readiness → SupportBundlePhase1Readiness
unfolding readiness_of provider_signature_gap sidecar_gaps
enforce_required_signed_artifact_sidecars r =
    readiness_of
      "all support-bundle Phase 1 observer artifacts and required signature sidecars are present; verify release readiness in Factory v3 evaluator/closer before promotion"
      r.observed_artifacts
      (r.blocking_gaps
        ++ (provider_signature_gap (observed "provider_readiness" r.observed_artifacts)
            ++ sidecar_gaps required_sidecars r.observed_artifacts))
