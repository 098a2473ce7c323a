-- ===== src/Promotion/Panel/Authority.antt =====
-- When the panel of the operator says that a release is ready.
use ao2_control_plane.Base.{
  ℕ, ◌≡◌, ◌↔◌, refl, sym, ap, ◌∙◌, String, Bool, true, false, ◌&&◌, Option, none, some, [], ◌∷◌,
  string_eq, ◌==◌, if◌then◌else◌, nat_eq, length, arith,
}
use mathlib.Core.Option.{none-ne-some, some-injective}
use ao2_control_plane.Base.Text.{codes, string_eq_iff}
use ao2_control_plane.Promotion.Summary.{SmokeSummary, ChecklistSummary}
use ao2_control_plane.Promotion.Gaps.{Phase1GapInputs, open_gaps, phase1_gap_report}
use ao2_control_plane.Promotion.Decision.{DecisionSummary}
use ao2_control_plane.Promotion.Evidence.{ReadinessCheck, AcceptanceCheck}
use ao2_control_plane.Promotion.Dashboard.{
  PromotionDashboard, signed_promotion_decision, checklist_passed, readiness_satisfied, state_value,
  gap_inputs, dashboard_of,
}
use ao2_control_plane.Promotion.Panel.{release_authoritative, smoke_status, panel_of}

abbrev first_code : String → ℕ
first_code s = elim (codes s) [ [] ↦ 0 | c ∷ cs ↦ c ]

-- A decision to promote, with a verified signature whose key is authoritative, and a smoke report
-- that passed.
abbrev pub IsAuthorised : PromotionDashboard → Type 0
IsAuthorised d =
    (x : DecisionSummary) × (d.decision_artifact ≡ some x)
    × (x.decision ≡ "promote_phase1_candidate")
    × (x.signature.signature_verified ≡ true)
    × (release_authoritative (some x) ≡ true)
    × ((s : SmokeSummary) × (d.three_os_smoke ≡ some s) × (s.status ≡ "passed"))

abbrev promoted : String
promoted = "promotion_decision_observed"

choose_other :
    (b : Bool) (s t : String)
    → (s == promoted) ≡ false
    → (t == promoted) ≡ false
    → ((if b then s else t) == promoted) ≡ false
choose_other true s t p q = p
choose_other false s t p q = q

choose_promoted :
    (b : Bool) (s : String)
    → (s == promoted) ≡ false
    → ((if b then promoted else s) == promoted) ≡ b
choose_promoted true s e = (string_eq_iff promoted promoted).1 refl
choose_promoted false s e = e

other_states :
    (("release_candidate_observed" == promoted) ≡ false)
    × (("release_gate_ready" == promoted) ≡ false)
    × (("collecting_evidence" == promoted) ≡ false)
unfolding string_eq
other_states = (refl, refl, refl)

state_is :
    (decision : Option DecisionSummary) (checklist : Option ChecklistSummary)
    (readiness : ReadinessCheck) (acceptance : AcceptanceCheck)
    → (state_value decision checklist readiness acceptance == promoted)
      ≡ signed_promotion_decision decision
unfolding state_value
state_is decision checklist readiness acceptance =
    let (a, b, c) = other_states in
    choose_promoted (signed_promotion_decision decision) _ (
      choose_other (checklist_passed checklist) "release_candidate_observed" _ a (
        choose_other
          (readiness_satisfied readiness && acceptance.state == "live_acceptance_complete")
          "release_gate_ready" "collecting_evidence" b c))

promoted-no_gaps :
    (i : Phase1GapInputs) → (i.state == promoted) ≡ true → (phase1_gap_report i).total_open_gaps ≡ 0
unfolding phase1_gap_report open_gaps string_eq
promoted-no_gaps i e =
    let same : i.state ≡ promoted = (string_eq_iff i.state promoted).0 e in rw same refl

attention_ne : ◌≡◌ {A = String} "attention" "ready" → ⊥
attention_ne h = let e : ◌≡◌ {A = ℕ} 97 114 = ap first_code h in absurd (omega arith)

review_ne : ◌≡◌ {A = String} "review" "ready" → ⊥
review_ne h = let e : ◌≡◌ {A = ℕ} 6 5 = ap (λ s. length (codes s)) h in absurd (omega arith)

ready_status :
    (b c : Bool)
    → (◌≡◌ {A = String} (if b then "ready" else if c then "attention" else "review") "ready")
      ↔ (b ≡ true)
ready_status true c = (λ h. refl, λ h. refl)
ready_status false true = (λ h. absurd (attention_ne h), λ h. cc)
ready_status false false = (λ h. absurd (review_ne h), λ h. cc)

is_zero : (n : ℕ) → n ≡ 0 → (n == 0) ≡ true
is_zero n e = ground arith

-- The test on the gaps follows from the state.
without_gaps :
    (a b c d s : Bool) → a ≡ s → (a ≡ true → b ≡ true) → (a && b && c && d) ≡ (s && c && d)
without_gaps true b c d s e none' = let b' = none' refl in ground arith
without_gaps false b c d s e none' = ground arith

and_three : (a b c : Bool) → (a && b && c) ≡ true → (a ≡ true) × (b ≡ true) × (c ≡ true)
and_three true true true h = (refl, refl, refl)
and_three true true false h = cc
and_three true false c h = cc
and_three false b c h = cc

and_two : (a b : Bool) → (a && b) ≡ true → (a ≡ true) × (b ≡ true)
and_two true true h = (refl, refl)
and_two true false h = cc
and_two false b h = cc

all_true :
    (a b c d : Bool) → a ≡ true → b ≡ true → c ≡ true → d ≡ true → ((a && b) && c && d) ≡ true
all_true a b c d p q r s = ground arith

external_ne : (smoke_status none == "passed") ≡ false
unfolding string_eq
external_ne = refl

no_smoke : (smoke_status none == "passed") ≡ true → ⊥
no_smoke h = let e : false ≡ true = sym external_ne ∙ h in cc

module _ (readiness : ReadinessCheck) (acceptance : AcceptanceCheck)
    (checklist : Option ChecklistSummary) where
  abbrev dashboard : Option DecisionSummary → Option SmokeSummary → PromotionDashboard
  dashboard decision smoke = dashboard_of readiness acceptance checklist decision smoke

  conditions_iff :
      (decision : Option DecisionSummary) (smoke : Option SmokeSummary)
      → ((signed_promotion_decision decision
            && release_authoritative decision
            && smoke_status smoke == "passed")
          ≡ true)
        ↔ IsAuthorised (dashboard decision smoke)
  unfolding signed_promotion_decision dashboard_of
  conditions_iff none smoke = (λ h. cc h, λ h. absurd (none-ne-some h.0 h.1))
  conditions_iff (some x) none = (
    λ h. absurd (
        no_smoke
          (and_three (signed_promotion_decision (some x)) (release_authoritative (some x)) _ h).2),
    λ h. let (y, e, p) = h.5 in absurd (none-ne-some y e),
  )
  conditions_iff (some x) (some y) = (
    λ h.
        let (signed, authority, passed) =
          and_three (signed_promotion_decision (some x)) (release_authoritative (some x)) _ h in
        let (d, v) =
          and_two (x.decision == "promote_phase1_candidate") x.signature.signature_verified
            signed in
        (x, refl, (string_eq_iff _ _).0 d, v, authority, (y, refl, (string_eq_iff _ _).0 passed)),
    λ h.
        let (x', e, d, v, authority, z) = h in
        let (y', e', p) = z in
        let ex = some-injective x x' e in
        let ey = some-injective y y' e' in
        let d' =
          (string_eq_iff x.decision "promote_phase1_candidate").1
            (ap (λ (t : DecisionSummary). t.decision) ex ∙ d) in
        let v' = ap (λ (t : DecisionSummary). t.signature.signature_verified) ex ∙ v in
        let a' = ap (λ (t : DecisionSummary). release_authoritative (some t)) ex ∙ authority in
        let p' = (string_eq_iff y.status "passed").1 (ap (λ (t : SmokeSummary). t.status) ey ∙ p) in
        all_true (x.decision == "promote_phase1_candidate") x.signature.signature_verified
          (release_authoritative (some x)) (y.status == "passed") d' v' a' p',
  )

  pub ready_iff :
      (decision : Option DecisionSummary) (smoke : Option SmokeSummary)
      → ((panel_of (dashboard decision smoke)).status ≡ "ready")
        ↔ IsAuthorised (dashboard decision smoke)
  unfolding panel_of dashboard_of
  ready_iff decision smoke =
      let state = state_value decision checklist readiness acceptance in
      let i = gap_inputs state readiness acceptance checklist decision smoke in
      let test =
        without_gaps (state == promoted) ((phase1_gap_report i).total_open_gaps == 0)
          (release_authoritative decision) (smoke_status smoke == "passed")
          (signed_promotion_decision decision) (state_is decision checklist readiness acceptance)
          (λ e. is_zero _ (promoted-no_gaps i e)) in
      let (to, from) =
        ready_status
          (state == promoted
            && (phase1_gap_report i).total_open_gaps == 0
            && release_authoritative decision
            && smoke_status smoke == "passed")
          _ in
      let (there, back) = conditions_iff decision smoke in
      (λ h. there (sym test ∙ to h), λ h. from (test ∙ back h))
