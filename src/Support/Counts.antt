-- ===== src/Support/Counts.antt =====
-- The summary and the critical path are about the same gaps as the list of them.
use ao2_control_plane.Base.{
  Result, ok, err, continue, ℕ, zero, suc, ◌+◌, ◌≡◌, refl, ap, String, true, ◌||◌, List, [], ◌∷◌,
  ◌++◌, map, Option, none, some, arith, string_eq, ◌==◌, if◌then◌else◌, length, All,
}
use ao2_control_plane.Index.State.{IndexEntry}
use ao2_control_plane.Disk.{Host, Bytes}
use ao2_control_plane.Retention.{StorageError}
use ao2_control_plane.Json.{Value}
use ao2_control_plane.Support.Sidecars.{attach_signatures, support_bundle_phase1_readiness}
use ao2_control_plane.Support.State.{
  SupportBundleArtifactSummary, SupportBundleGap, SupportBundleGapSummary,
  SupportBundleCriticalPathStep, SupportBundlePhase1Readiness, Observed,
}
use ao2_control_plane.Support.Artifacts.{observed, observe, wanted_artifacts}
use ao2_control_plane.Support.Gaps.{
  artifact_gap, artifact_gaps, provider_signature_gap, sidecar_gap, sidecar_gaps,
  support_bundle_gap_summary, support_bundle_critical_path, critical_path_from, readiness_of,
  entries_readiness, enforce_required_signed_artifact_sidecars,
}
use ao2_control_plane.Support.Requirements.{Requirement, required_artifacts, required_sidecars}

-- One of the six kinds that the summary counts.
abbrev pub IsCounted : SupportBundleGap → Type 0
IsCounted gap =
    (gap.gap_kind == "missing_artifact"
      || gap.gap_kind == "stale_artifact"
      || gap.gap_kind == "failed_status"
      || gap.gap_kind == "missing_signature"
      || gap.gap_kind == "unverified_signature"
      || gap.gap_kind == "untrusted_signature")
    ≡ true

artifact_gap-IsCounted :
    (q : Requirement) (a : Option SupportBundleArtifactSummary) → All IsCounted (artifact_gap q a)
unfolding artifact_gap string_eq
artifact_gap-IsCounted q none = (refl, tt)
artifact_gap-IsCounted q (some a) = ground arith

provider_signature_gap-IsCounted :
    (a : Option SupportBundleArtifactSummary) → All IsCounted (provider_signature_gap a)
unfolding provider_signature_gap string_eq
provider_signature_gap-IsCounted a = ground arith

sidecar_gap-IsCounted :
    (q : Requirement) (a : Option SupportBundleArtifactSummary) → All IsCounted (sidecar_gap q a)
unfolding sidecar_gap string_eq
sidecar_gap-IsCounted q a = ground arith

All-append :
    (xs ys : List SupportBundleGap) → All IsCounted xs → All IsCounted ys → All IsCounted (xs ++ ys)
All-append [] ys p q = q
All-append (x ∷ xs) ys p q = (p.0, All-append xs ys p.1 q)

artifact_gaps-IsCounted :
    (qs : List Requirement) (artifacts : Observed) → All IsCounted (artifact_gaps qs artifacts)
unfolding artifact_gaps
artifact_gaps-IsCounted [] artifacts = tt
artifact_gaps-IsCounted (q ∷ qs) artifacts =
    All-append (artifact_gap q (observed q.id artifacts)) (artifact_gaps qs artifacts)
      (artifact_gap-IsCounted q (observed q.id artifacts)) (artifact_gaps-IsCounted qs artifacts)

sidecar_gaps-IsCounted :
    (qs : List Requirement) (artifacts : Observed) → All IsCounted (sidecar_gaps qs artifacts)
unfolding sidecar_gaps
sidecar_gaps-IsCounted [] artifacts = tt
sidecar_gaps-IsCounted (q ∷ qs) artifacts =
    All-append (sidecar_gap q (observed q.id artifacts)) (sidecar_gaps qs artifacts)
      (sidecar_gap-IsCounted q (observed q.id artifacts)) (sidecar_gaps-IsCounted qs artifacts)

-- The sum of the six counts.
abbrev pub sum_of : SupportBundleGapSummary → ℕ
sum_of s =
    s.missing_artifact_count + s.stale_artifact_count + s.failed_status_count
    + s.missing_signature_count + s.unverified_signature_count + s.untrusted_signature_count

-- A kind that is counted is counted once.
counted_once :
    (kind : String)
    → (kind == "missing_artifact"
        || kind == "stale_artifact"
        || kind == "failed_status"
        || kind == "missing_signature"
        || kind == "unverified_signature"
        || kind == "untrusted_signature")
      ≡ true
    → (if kind == "missing_artifact" then 1 else 0)
        + (if kind == "stale_artifact" then 1 else 0)
        + (if kind == "failed_status" then 1 else 0)
        + (if kind == "missing_signature" then 1 else 0)
        + (if kind == "unverified_signature" then 1 else 0)
        + (if kind == "untrusted_signature" then 1 else 0)
      ≡ 1
counted_once kind h = elim (string_eq.dec kind "missing_artifact") [
  | yes p ↦ rw p (unfold string_eq in refl)
  | no n_missing_artifact ↦ elim (string_eq.dec kind "stale_artifact") [
    | yes p ↦ rw p (unfold string_eq in refl)
    | no n_stale_artifact ↦ elim (string_eq.dec kind "failed_status") [
      | yes p ↦ rw p (unfold string_eq in refl)
      | no n_failed_status ↦ elim (string_eq.dec kind "missing_signature") [
        | yes p ↦ rw p (unfold string_eq in refl)
        | no n_missing_signature ↦ elim (string_eq.dec kind "unverified_signature") [
          | yes p ↦ rw p (unfold string_eq in refl)
          | no n_unverified_signature ↦ elim (string_eq.dec kind "untrusted_signature") [
            | yes p ↦ rw p (unfold string_eq in refl)
            | no n_untrusted_signature ↦ ground arith
          ]
        ]
      ]
    ]
  ]
]

summary-IsCounted :
    (gaps : List SupportBundleGap)
    → All IsCounted gaps
    → sum_of (support_bundle_gap_summary gaps) ≡ length gaps
unfolding support_bundle_gap_summary
summary-IsCounted [] c = refl
summary-IsCounted (gap ∷ gaps) c =
    ground (arith, summary-IsCounted gaps c.1, counted_once gap.gap_kind c.0)

critical_path_from-map :
    (index : ℕ) (gaps : List SupportBundleGap)
    → map (λ (step : SupportBundleCriticalPathStep). step.id) (critical_path_from index gaps)
      ≡ map (λ (gap : SupportBundleGap). gap.id) gaps
unfolding critical_path_from
critical_path_from-map index [] = refl
critical_path_from-map index (gap ∷ gaps) =
    ap (◌∷◌ gap.id) (critical_path_from-map (index + 1) gaps)

abbrev count_from : ℕ → ℕ → List ℕ
count_from start zero = []
count_from start (suc n) = start ∷ count_from (start + 1) n

critical_path_from-count_from :
    (index : ℕ) (gaps : List SupportBundleGap)
    → map
        (λ (step : SupportBundleCriticalPathStep). step.operator_step)
        (critical_path_from index gaps)
      ≡ count_from (index + 1) (length gaps)
unfolding critical_path_from
critical_path_from-count_from index [] = refl
critical_path_from-count_from index (gap ∷ gaps) =
    ap (◌∷◌ (index + 1)) (critical_path_from-count_from (index + 1) gaps)

-- The numbers and the list of gaps of a readiness say the same.
pub record IsCoherent (r : SupportBundlePhase1Readiness) : Type 0 where
  pub counts : sum_of r.gap_summary ≡ r.total_open_gaps
  pub total : r.gap_summary.total_blocking ≡ r.total_open_gaps
  pub listed : length r.blocking_gaps ≡ r.total_open_gaps
  pub ids :
      map (λ (step : SupportBundleCriticalPathStep). step.id) r.critical_path
      ≡ map (λ (gap : SupportBundleGap). gap.id) r.blocking_gaps
  pub steps :
      map (λ (step : SupportBundleCriticalPathStep). step.operator_step) r.critical_path
      ≡ count_from 1 r.total_open_gaps

readiness_of-IsCoherent :
    (otherwise : String) (artifacts : Observed) (gaps : List SupportBundleGap)
    → All IsCounted gaps
    → IsCoherent (readiness_of otherwise artifacts gaps)
unfolding readiness_of support_bundle_gap_summary support_bundle_critical_path
readiness_of-IsCoherent otherwise artifacts gaps c = record {
  counts = summary-IsCounted gaps c;
  total = refl;
  listed = refl;
  ids = critical_path_from-map 0 gaps;
  steps = critical_path_from-count_from 0 gaps;
}

abbrev pub CoherentAnswer : Result StorageError SupportBundlePhase1Readiness → Type 0
CoherentAnswer (ok r) = IsCoherent r
CoherentAnswer (err e) = Unit

enforced-IsCoherent :
    (r : SupportBundlePhase1Readiness)
    → All IsCounted r.blocking_gaps
    → IsCoherent (enforce_required_signed_artifact_sidecars r)
unfolding enforce_required_signed_artifact_sidecars
enforced-IsCoherent r c =
    let o = r.observed_artifacts in
    let provider = provider_signature_gap (observed "provider_readiness" o) in
    readiness_of-IsCoherent _ o (r.blocking_gaps ++ (provider ++ sidecar_gaps required_sidecars o))
      (All-append r.blocking_gaps (provider ++ sidecar_gaps required_sidecars o) c (
        All-append provider (sidecar_gaps required_sidecars o)
          (provider_signature_gap-IsCounted (observed "provider_readiness" o))
          (sidecar_gaps-IsCounted required_sidecars o)))

after_attach :
    (r : SupportBundlePhase1Readiness)
    → All IsCounted r.blocking_gaps
    → (attached : Result StorageError Observed) (h : Host)
    → CoherentAnswer
        (continue attached
          (λ artifacts g. (
            ok (
                enforce_required_signed_artifact_sidecars
                  (record r { observed_artifacts = artifacts })),
            g,
          ))
          h).0
after_attach r c (ok after) h = enforced-IsCoherent (record r { observed_artifacts = after }) c
after_attach r c (err e) h = tt

-- In a readiness that the server answers with, the six counts of the summary add up to the total of
-- open gaps, which is the length of the list of gaps, and the critical path has the gaps of that
-- list in its order, numbered from 1.
pub readiness-IsCoherent :
    (parse_json : Bytes → Option Value) (now : String → ℕ) (entries : List IndexEntry) (h : Host)
    → CoherentAnswer (support_bundle_phase1_readiness parse_json now entries h).0
unfolding support_bundle_phase1_readiness entries_readiness readiness_of
readiness-IsCoherent parse_json now entries h =
    let r = entries_readiness now entries in
    let before = observe now entries wanted_artifacts in
    let (attached, g) = attach_signatures parse_json before h in
    after_attach r (artifact_gaps-IsCounted required_artifacts before) attached g
