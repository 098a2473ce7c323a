-- ===== src/Support/State.antt =====
-- The data of the support bundle. The names of schemas, the trust boundaries and the links, which are
-- the same in every bundle, are left out.
use ao2_control_plane.Base.{ℕ, String, Bool, List, Option}
use ao2_control_plane.Json.{Value}

pub record SupportBundleSignatureSummary : Type 0 where
  pub schema_version : String
  pub raw_url : String
  pub signature_algorithm : Option String
  pub signature_verified : Option Bool
  pub signer_id : Option String
  pub public_key_sha256 : Option String
  pub trust_anchor : Option String
  pub verification_scope : Option String
  pub trust_policy : Option Value

pub record SupportBundleArtifactSummary : Type 0 where
  pub sha256 : String
  pub schema : String
  pub status : Option String
  pub ingested_at : ℕ
  pub age_seconds : ℕ
  pub stale_after_seconds : Option ℕ
  pub is_stale : Bool
  pub raw_url : String
  pub signature : Option SupportBundleSignatureSummary

pub record SupportBundleGap : Type 0 where
  pub id : String
  pub severity : String
  pub gap_kind : String
  pub evidence_needed : String
  pub next_action : String

pub record SupportBundleGapSummary : Type 0 where
  pub total_blocking : ℕ
  pub missing_artifact_count : ℕ
  pub stale_artifact_count : ℕ
  pub failed_status_count : ℕ
  pub missing_signature_count : ℕ
  pub unverified_signature_count : ℕ
  pub untrusted_signature_count : ℕ

pub record SupportBundleCriticalPathStep : Type 0 where
  pub operator_step : ℕ
  pub id : String
  pub severity : String
  pub gap_kind : String
  pub evidence_needed : String
  pub next_action : String

-- The artifacts by their names; a name that is not there and one that has none are told apart.
abbrev pub Observed : Type 0
Observed = List (String × Option SupportBundleArtifactSummary)

pub record SupportBundlePhase1Readiness : Type 0 where
  pub observed_artifacts : Observed
  pub readiness_status : String
  pub release_decision_allowed : Bool
  pub total_open_gaps : ℕ
  pub gap_summary : SupportBundleGapSummary
  pub critical_path : List SupportBundleCriticalPathStep
  pub blocking_gaps : List SupportBundleGap
  pub next_recommended_action : String
