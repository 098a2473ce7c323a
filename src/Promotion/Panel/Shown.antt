-- ===== src/Promotion/Panel/Shown.antt =====
-- The panel of the operator over a storage.
use ao2_control_plane.Base.{
  ◌≡◌, ◌↔◌, refl, Option, none, some, Result, ok, err, continue, string_eq, nat_eq, if◌then◌else◌,
}
use ao2_control_plane.Index.State.{IndexEntry, Storage}
use ao2_control_plane.Json.{Value}
use ao2_control_plane.Server.AppError.{AppError}
use ao2_control_plane.Bundle.Kind.{
  phase1_promotion_checklist, phase1_promotion_decision, three_os_release_smoke,
}
use ao2_control_plane.Promotion.Smoke.{three_os_schema}
use ao2_control_plane.Promotion.Validate.{checklist_schema, decision_schema}
use ao2_control_plane.Ingest.Values.{latest_entry_value}
use ao2_control_plane.Ingest.Values.Latest.{IsLatest, latest_entry_value-IsLatest}
use ao2_control_plane.Promotion.Summary.{
  SmokeSummary, text_of, clean_pass, three_os_smoke_artifact_summary,
}
use ao2_control_plane.Ingest.{Outside, Method}
use ao2_control_plane.Promotion.Decision.{
  DecisionSummary, signature_summary, decision_summary_of, decision_artifact_summary, succeeded,
}
use ao2_control_plane.Promotion.Handlers.{read_decision_signature_sidecar}
use ao2_control_plane.Promotion.Evidence.{latest_provider_readiness, latest_acceptance_by_provider}
use ao2_control_plane.Promotion.Dashboard.{
  PromotionDashboard, map_option, dashboard_of, summarised, phase1_promotion_dashboard_value,
}
use ao2_control_plane.Promotion.Panel.{OperatorPanel, panel_of, phase1_operator_panel_value}
use ao2_control_plane.Promotion.Panel.Authority.{IsAuthorised, ready_iff}

module _ (o : Outside) where
  -- The storage at the start of each part of the panel.
  abbrev before_checklist : Storage → Storage
  before_checklist s = (latest_acceptance_by_provider o (latest_provider_readiness o s).1).1

  abbrev before_decision : Storage → Storage
  before_decision s =
      (latest_entry_value o phase1_promotion_checklist checklist_schema (before_checklist s)).1

  abbrev before_smoke : Storage → Storage
  before_smoke s =
      (latest_entry_value o phase1_promotion_decision decision_schema (before_decision s)).1

  abbrev before_sidecar : Storage → Storage
  before_sidecar s =
      (latest_entry_value o three_os_release_smoke three_os_schema (before_smoke s)).1

  -- The summary of a decision, with the signature of the sidecar that is read for its digest.
  abbrev ShowsDecision : Storage → Option (IndexEntry × Value) → Option DecisionSummary → Type 0
  ShowsDecision t none none = Unit
  ShowsDecision t (some (e, v)) (some d) =
      (d.sha256 ≡ e.sha256)
      × (d.decision ≡ text_of v "decision")
      × (d.signature
          ≡ signature_summary (succeeded (read_decision_signature_sidecar o e.sha256 t).0))
  ShowsDecision t _ _ = ⊥

  abbrev ShowsSmoke : Option (IndexEntry × Value) → Option SmokeSummary → Type 0
  ShowsSmoke none none = Unit
  ShowsSmoke (some (e, v)) (some x) =
      (x.sha256 ≡ e.sha256) × (x.status ≡ (if clean_pass v then "passed" else "failed"))
  ShowsSmoke _ _ = ⊥

  -- The decision and the smoke report are those of the newest entries of their schemas.
  pub record Shows (s : Storage) (d : PromotionDashboard) : Type 0 where
    pub decision : Option (IndexEntry × Value)
    pub newest_decision :
        IsLatest o phase1_promotion_decision decision_schema (before_decision s) decision
    pub shows_decision : ShowsDecision (before_sidecar s) decision d.decision_artifact
    pub smoke : Option (IndexEntry × Value)
    pub newest_smoke : IsLatest o three_os_release_smoke three_os_schema (before_smoke s) smoke
    pub shows_smoke : ShowsSmoke smoke d.three_os_smoke

  abbrev DashboardAnswer : Storage → Result AppError PromotionDashboard → Type 0
  DashboardAnswer s (err e) = Unit
  DashboardAnswer s (ok d) = (((panel_of d).status ≡ "ready") ↔ IsAuthorised d) × Shows s d

  abbrev pub PanelAnswer : Storage → Result AppError OperatorPanel → Type 0
  PanelAnswer s (err e) = Unit
  PanelAnswer s (ok p) = ((p.status ≡ "ready") ↔ IsAuthorised p.dashboard) × Shows s p.dashboard

  module _ (s : Storage) where
    -- A step that either fails or goes on.
    step_answer :
        {A : Type 0} (r : Result AppError A) (f : A → Method PromotionDashboard) (t : Storage)
        → ((a : A) → r ≡ ok a → DashboardAnswer s (f a t).0)
        → DashboardAnswer s (continue r f t).0
    step_answer (ok a) f t each = each a refl
    step_answer (err e) f t each = tt

    summary_step :
        (decision : Option (IndexEntry × Value))
        (f : Option DecisionSummary → Method PromotionDashboard) (t : Storage)
        → ((d : Option DecisionSummary) (u : Storage)
            → ShowsDecision t decision d
            → DashboardAnswer s (f d u).0)
        → DashboardAnswer s (continue (summarised o decision t).0 f (summarised o decision t).1).0
    unfolding decision_artifact_summary decision_summary_of
    summary_step none f t each = each none t tt
    summary_step (some (e, decision)) f t each = each _ _ (refl, refl, refl)

    smoke-ShowsSmoke :
        (m : Option (IndexEntry × Value))
        → ShowsSmoke m (map_option (λ p. three_os_smoke_artifact_summary p.0 p.1) m)
    unfolding three_os_smoke_artifact_summary
    smoke-ShowsSmoke none = tt
    smoke-ShowsSmoke (some (e, v)) = (refl, refl)

    dashboard-DashboardAnswer : DashboardAnswer s (phase1_promotion_dashboard_value o s).0
    unfolding phase1_promotion_dashboard_value
    dashboard-DashboardAnswer =
        let s₁ = (latest_provider_readiness o s).1 in
        let s₂ = before_checklist s in
        let s₃ = before_decision s in
        let s₄ = before_smoke s in
        let s₅ = before_sidecar s in
        let decision = latest_entry_value o phase1_promotion_decision decision_schema s₃ in
        let smoke = latest_entry_value o three_os_release_smoke three_os_schema s₄ in
        step_answer (latest_provider_readiness o s).0 _ s₁ (λ readiness e₁.
          step_answer (latest_acceptance_by_provider o s₁).0 _ s₂ (λ latest e₂.
            step_answer (latest_entry_value o phase1_promotion_checklist checklist_schema s₂).0 _ s₃
              (λ checklist e₃. step_answer decision.0 _ s₄ (λ d e₄.
                step_answer smoke.0 _ s₅ (λ m e₅. summary_step d _ s₅ (λ summary u shown. (
                  ready_iff _ _ _ summary _,
                  record {
                    decision = d;
                    newest_decision =
                        latest_entry_value-IsLatest o phase1_promotion_decision decision_schema s₃ d
                          e₄;
                    shows_decision = (unfold dashboard_of in shown);
                    smoke = m;
                    newest_smoke =
                        latest_entry_value-IsLatest o three_os_release_smoke three_os_schema s₄ m
                          e₅;
                    shows_smoke = (unfold dashboard_of in smoke-ShowsSmoke m);
                  },
                )))))))

    panel-PanelAnswer :
        (r : Result AppError PromotionDashboard) (t : Storage)
        → DashboardAnswer s r
        → PanelAnswer s (continue r (λ d u. (ok (panel_of d), u)) t).0
    panel-PanelAnswer (ok d) t h = (unfold panel_of in h)
    panel-PanelAnswer (err e) t h = tt

  -- The panel of the operator, if it is returned, says `ready` exactly when the decision that it shows is
  -- to promote, the signature that it shows for it is verified and of an authoritative key, and the smoke
  -- report that it shows has passed. The decision is that of the newest entry of its schema in the index
  -- as it is read then, or none if there is no entry, and so is the smoke report, which has passed
  -- exactly if its document is a clean pass; the signature is that of the sidecar that is read for the
  -- digest of that decision, or that of an unsigned one.
  pub operator_panel-IsAuthorised :
      (s : Storage) → PanelAnswer s (phase1_operator_panel_value o s).0
  unfolding phase1_operator_panel_value
  operator_panel-IsAuthorised s =
      let (r, t) = phase1_promotion_dashboard_value o s in
      panel-PanelAnswer s r t (dashboard-DashboardAnswer s)
