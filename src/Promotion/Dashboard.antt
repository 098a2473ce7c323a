-- ===== src/Promotion/Dashboard.antt =====
-- `phase1_promotion_dashboard_value` of handlers/phase1_promotion.rs, without the constant texts, the links, and the correlation of the candidate, which comes from
-- handlers/release_publication.rs and decides nothing here.
use ao2_control_plane.Base.{
  String, Bool, false, ◌&&◌, ◌||◌, Option, none, some, ok, ◌>>=◌, nat_eq, string_eq, ◌==◌,
  if◌then◌else◌,
}
use ao2_control_plane.Bundle.Kind.{
  phase1_promotion_checklist, phase1_promotion_decision, three_os_release_smoke,
}
use ao2_control_plane.Index.State.{IndexEntry}
use ao2_control_plane.Json.{Value}
use ao2_control_plane.Ingest.{Outside, Method}
use ao2_control_plane.Ingest.Values.{latest_entry_value}
use ao2_control_plane.Promotion.Smoke.{three_os_schema}
use ao2_control_plane.Promotion.Validate.{checklist_schema, decision_schema}
use ao2_control_plane.Promotion.Summary.{
  ChecklistSummary, SmokeSummary, checklist_artifact_summary, three_os_smoke_artifact_summary,
}
use ao2_control_plane.Promotion.Decision.{DecisionSummary, decision_artifact_summary}
use ao2_control_plane.Promotion.Evidence.{
  ReadinessCheck, AcceptanceCheck, missing_readiness, provider_readiness_check,
  live_provider_acceptance_check, acceptance_of, latest_provider_readiness,
  latest_acceptance_by_provider,
}
use ao2_control_plane.Promotion.Gaps.{Observed, Phase1GapInputs, GapReport, phase1_gap_report}

-- An artifact that is `none` is missing.
pub record PromotionDashboard : Type 0 where
  pub state : String
  pub next_action : String
  pub gap_report : GapReport
  pub checklist_artifact : Option ChecklistSummary
  pub decision_artifact : Option DecisionSummary
  pub provider_readiness : ReadinessCheck
  pub live_provider_acceptance : AcceptanceCheck
  pub three_os_smoke : Option SmokeSummary

abbrev pub map_option {ℓ κ} : {A : Type ℓ} {B : Type κ} → (A → B) → Option A → Option B
map_option f none = none
map_option f (some a) = some (f a)

unfoldable pub checklist_passed : Option ChecklistSummary → Bool
unfolding string_eq
checklist_passed none = false
checklist_passed (some c) = c.status == "passed" && c.phase1_state == "phase1_candidate_ready"

unfoldable pub signed_promotion_decision : Option DecisionSummary → Bool
unfolding string_eq
signed_promotion_decision none = false
signed_promotion_decision (some d) =
    d.decision == "promote_phase1_candidate" && d.signature.signature_verified

-- Whether the readiness is observed, or superseded by the acceptance.
unfoldable pub readiness_satisfied : ReadinessCheck → Bool
unfolding string_eq
readiness_satisfied r = r.status == "observed" || r.status == "superseded_by_live_acceptance"

unfoldable pub state_value :
    Option DecisionSummary → Option ChecklistSummary → ReadinessCheck → AcceptanceCheck → String
unfolding signed_promotion_decision checklist_passed readiness_satisfied string_eq
state_value decision checklist readiness acceptance =
    if signed_promotion_decision decision
    then "promotion_decision_observed"
    else if checklist_passed checklist
    then "release_candidate_observed"
    else if readiness_satisfied readiness && acceptance.state == "live_acceptance_complete"
    then "release_gate_ready"
    else "collecting_evidence"

unfoldable pub next_action_of : String → String
unfolding string_eq
next_action_of state =
    if state == "promotion_decision_observed"
    then "signed Phase 1 promotion decision observed; proceed with release packaging or patch bump according to operator decision"
    else if state == "release_candidate_observed"
    then "review the ingested Phase 1 promotion checklist and publish a signed release-line decision"
    else if state == "release_gate_ready"
    then "run the guarded release gate with the latest factory-v3 three-OS evidence before Phase 1 promotion"
    else "publish provider readiness and live provider acceptance evidence before Phase 1 promotion"

abbrev observed_checklist : Option ChecklistSummary → Observed
observed_checklist none = record {
  status = some "missing";
  state = none;
  next_action = some "publish the factory-v3 Phase 1 promotion checklist artifact";
}
observed_checklist (some c) = record {
  status = some c.status;
  state = none;
  next_action = some c.next_action;
}

abbrev observed_decision : Option DecisionSummary → Observed
observed_decision none = record {
  status = some "missing";
  state = none;
  next_action = some "publish a signed Phase 1 promotion decision after checklist review";
}
observed_decision (some d) = record { status = some d.status; state = none; next_action = none }

abbrev observed_smoke : Option SmokeSummary → Observed
observed_smoke none = record {
  status = some "external_required";
  state = some "pending_factory_evidence";
  next_action =
      some "attach latest factory-v3 three-OS smoke summary with macOS, Ubuntu, and Windows proof";
}
observed_smoke (some s) = record {
  status = some s.status;
  state = some s.state;
  next_action = some s.next_action;
}

abbrev release_gate_status : Observed
release_gate_status = record {
  status = some "external_required";
  state = some "pending_operator_gate";
  next_action = some "run factory-v3 release-gate dry-run or final AO2 release gate";
}

abbrev pub gap_inputs :
    String
    → ReadinessCheck
    → AcceptanceCheck
    → Option ChecklistSummary
    → Option DecisionSummary
    → Option SmokeSummary
    → Phase1GapInputs
gap_inputs state readiness acceptance checklist decision smoke = record {
  state = state;
  next_action = next_action_of state;
  readiness_status = record {
    status = some readiness.status;
    state = none;
    next_action = some readiness.next_action;
  };
  acceptance_status = record {
    status = some acceptance.status;
    state = some acceptance.state;
    next_action = some acceptance.next_action;
  };
  checklist_summary = observed_checklist checklist;
  decision_summary = observed_decision decision;
  release_gate_status = release_gate_status;
  three_os_smoke_status = observed_smoke smoke;
}

abbrev pub readiness_of : Option Value → AcceptanceCheck → ReadinessCheck
readiness_of none acceptance = missing_readiness
readiness_of (some readiness) acceptance =
    provider_readiness_check readiness (acceptance.state == "live_acceptance_complete")

unfoldable pub dashboard_of :
    ReadinessCheck
    → AcceptanceCheck
    → Option ChecklistSummary
    → Option DecisionSummary
    → Option SmokeSummary
    → PromotionDashboard
unfolding state_value next_action_of phase1_gap_report
dashboard_of readiness acceptance checklist decision smoke =
    let state = state_value decision checklist readiness acceptance in
    record {
      state = state;
      next_action = next_action_of state;
      gap_report =
          phase1_gap_report (gap_inputs state readiness acceptance checklist decision smoke);
      checklist_artifact = checklist;
      decision_artifact = decision;
      provider_readiness = readiness;
      live_provider_acceptance = acceptance;
      three_os_smoke = smoke;
    }

module _ (o : Outside) where
  abbrev pub summarised : Option (IndexEntry × Value) → Method (Option DecisionSummary)
  summarised none s = (ok none, s)
  summarised (some (e, decision)) s =
      (do summary ← decision_artifact_summary o e decision; λ t. (ok (some summary), t)) s

  unfoldable pub phase1_promotion_dashboard_value : Method PromotionDashboard
  unfolding latest_provider_readiness latest_acceptance_by_provider latest_entry_value
      decision_artifact_summary checklist_artifact_summary three_os_smoke_artifact_summary
      provider_readiness_check live_provider_acceptance_check dashboard_of string_eq
  phase1_promotion_dashboard_value = do
    readiness ← latest_provider_readiness o
    latest ← latest_acceptance_by_provider o
    checklist ← latest_entry_value o phase1_promotion_checklist checklist_schema
    decision ← latest_entry_value o phase1_promotion_decision decision_schema
    smoke ← latest_entry_value o three_os_release_smoke three_os_schema
    summary ← summarised decision
    let acceptance =
        live_provider_acceptance_check (acceptance_of "codex" latest)
          (acceptance_of "claude" latest) (acceptance_of "antigravity" latest)
    λ s. (
      ok (
          dashboard_of (readiness_of readiness acceptance) acceptance
            (map_option (λ p. checklist_artifact_summary p.0 p.1) checklist) summary
            (map_option (λ p. three_os_smoke_artifact_summary p.0 p.1) smoke)),
      s,
    )
