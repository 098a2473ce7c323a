-- ===== src/Promotion/Panel.antt =====
-- `phase1_operator_panel_value` of handlers/phase1_promotion.rs, without the constant texts and links.
pub mod Authority
pub mod Shown
use ao2_control_plane.Base.{
  ℕ, String, Bool, true, false, not, ◌&&◌, ◌||◌, Option, none, some, Result, ok, err, ◌>>=◌, nat_eq,
  string_eq, ◌==◌, if◌then◌else◌, ltb,
}
use ao2_control_plane.Bundle.Kind.{
  phase1_promotion_checklist, phase1_promotion_decision, three_os_release_smoke,
}
use ao2_control_plane.Index.State.{IndexEntry}
use ao2_control_plane.Json.{Value, null, get, as_bool}
use ao2_control_plane.Ingest.{Outside, Method}
use ao2_control_plane.Ingest.Values.{latest_entry_value}
use ao2_control_plane.Ingest.Dashboard.Source.{and_then}
use ao2_control_plane.Promotion.{or_else, bool_at}
use ao2_control_plane.Promotion.Smoke.{three_os_schema}
use ao2_control_plane.Promotion.Validate.{checklist_schema, decision_schema}
use ao2_control_plane.Promotion.Summary.{
  ChecklistSummary, SmokeSummary, checklist_artifact_summary, three_os_smoke_artifact_summary,
}
use ao2_control_plane.Promotion.Decision.{DecisionSummary, decision_artifact_summary}
use ao2_control_plane.Promotion.Evidence.{
  ReadinessCheck, AcceptanceCheck, missing_readiness, provider_readiness_check,
  live_provider_acceptance_check, acceptance_of, latest_provider_readiness,
  latest_acceptance_by_provider,
}
use ao2_control_plane.Promotion.Gaps.{Observed, Phase1GapInputs, GapReport, phase1_gap_report}
use ao2_control_plane.Promotion.Dashboard.{PromotionDashboard, phase1_promotion_dashboard_value}

-- The panel, with the dashboard that it repeats.
pub record OperatorPanel : Type 0 where
  pub status : String
  pub phase1_state : String
  pub checklist_status : String
  pub signed_decision_status : String
  pub decision : String
  pub signed_decision_badge : String
  pub signature_badge : String
  pub decision_mode : String
  pub signature_verified : Bool
  pub release_authoritative : Bool
  pub three_os_status : String
  pub dashboard : PromotionDashboard

-- What the sidecar of the decision says of the authority of its key.
unfoldable pub release_authoritative : Option DecisionSummary → Bool
unfolding get as_bool
release_authoritative none = false
release_authoritative (some d) =
    or_else (bool_at "release_authoritative" d.signature.trust_policy) false

abbrev pub smoke_status : Option SmokeSummary → String
smoke_status none = "external_required"
smoke_status (some s) = s.status

abbrev verified : Option DecisionSummary → Bool
verified none = false
verified (some d) = d.signature.signature_verified

-- A field of the decision, or "missing".
abbrev of_decision : (DecisionSummary → String) → Option DecisionSummary → String
of_decision f none = "missing"
of_decision f (some d) = f d

abbrev of_checklist : (ChecklistSummary → String) → Option ChecklistSummary → String
of_checklist f none = "missing"
of_checklist f (some c) = f c

abbrev phase1_state_of : Option DecisionSummary → Option ChecklistSummary → String
phase1_state_of (some d) checklist = d.phase1_state
phase1_state_of none checklist = of_checklist (λ c. c.phase1_state) checklist

abbrev pub decision_badge : String → String → String
decision_badge status decision =
    if status == "passed" && decision == "promote_phase1_candidate" then "passed" else status

unfoldable pub panel_of : PromotionDashboard → OperatorPanel
unfolding release_authoritative string_eq nat_eq
panel_of d = record {
  status =
      if d.state == "promotion_decision_observed"
        && d.gap_report.total_open_gaps == 0
        && release_authoritative d.decision_artifact
        && smoke_status d.three_os_smoke == "passed"
      then "ready"
      else if ltb 0 d.gap_report.total_open_gaps
      then "attention"
      else "review";
  phase1_state = phase1_state_of d.decision_artifact d.checklist_artifact;
  checklist_status = of_checklist (λ c. c.status) d.checklist_artifact;
  signed_decision_status = of_decision (λ x. x.status) d.decision_artifact;
  decision = of_decision (λ x. x.decision) d.decision_artifact;
  signed_decision_badge =
      decision_badge (of_decision (λ x. x.status) d.decision_artifact)
        (of_decision (λ x. x.decision) d.decision_artifact);
  signature_badge = if verified d.decision_artifact then "verified" else "missing";
  decision_mode = of_decision (λ x. x.decision_mode) d.decision_artifact;
  signature_verified = verified d.decision_artifact;
  release_authoritative = release_authoritative d.decision_artifact;
  three_os_status = smoke_status d.three_os_smoke;
  dashboard = d;
}

module _ (o : Outside) where
  unfoldable pub phase1_operator_panel_value : Method OperatorPanel
  unfolding phase1_promotion_dashboard_value panel_of
  phase1_operator_panel_value = do
    dashboard ← phase1_promotion_dashboard_value o
    λ s. (ok (panel_of dashboard), s)
