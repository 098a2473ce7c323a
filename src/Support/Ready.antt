-- ===== src/Support/Ready.antt =====
-- When a release decision is allowed.
use ao2_control_plane.Base.{
  ◌≡◌, true, false, ◌↔◌, Option, none, some, Result, ok, err, string_eq, bool_eq, option_eq, All,
}
use ao2_control_plane.Retention.{StorageError}
use ao2_control_plane.Support.State.{
  SupportBundleSignatureSummary, SupportBundleArtifactSummary, Observed,
  SupportBundlePhase1Readiness,
}
use ao2_control_plane.Support.Artifacts.{observed, artifact_status_is_blocking}
use ao2_control_plane.Support.Gaps.{is_release_authoritative}
use ao2_control_plane.Support.Requirements.{required_artifacts, required_sidecars}

-- The artifact is there, within its window, and of a status that does not block.
abbrev pub IsAcceptable : Option SupportBundleArtifactSummary → Type 0
IsAcceptable none = ⊥
IsAcceptable (some a) = (a.is_stale ≡ false) × (artifact_status_is_blocking a.status ≡ false)

abbrev IsVerifiedBy : Option SupportBundleSignatureSummary → Type 0
IsVerifiedBy none = ⊥
IsVerifiedBy (some s) = s.signature_verified ≡ some true

-- A decision that is there has a sidecar with a verified signature.
abbrev pub IsVerified : Option SupportBundleArtifactSummary → Type 0
IsVerified none = Unit
IsVerified (some a) = IsVerifiedBy a.signature

abbrev IsTrustedBy : Option SupportBundleSignatureSummary → Type 0
IsTrustedBy none = Unit
IsTrustedBy (some s) = is_release_authoritative s ≡ true

-- The stored flags of a sidecar of the provider readiness that is there say that it is verified and
-- pinned; without a sidecar nothing is asked.
abbrev pub IsTrusted : Option SupportBundleArtifactSummary → Type 0
IsTrusted none = Unit
IsTrusted (some a) = IsTrustedBy a.signature

-- What the observed artifacts must be for a release decision.
pub record IsReady (artifacts : Observed) : Type 0 where
  pub acceptable : All (λ q. IsAcceptable (observed q.id artifacts)) required_artifacts
  pub trusted : IsTrusted (observed "provider_readiness" artifacts)
  pub verified : All (λ q. IsVerified (observed q.id artifacts)) required_sidecars

-- What is stated of an answer, when it is a readiness.
abbrev pub DecidesReady : Result StorageError SupportBundlePhase1Readiness → Type 0
DecidesReady (ok r) = (r.release_decision_allowed ≡ true) ↔ IsReady r.observed_artifacts
DecidesReady (err e) = Unit
