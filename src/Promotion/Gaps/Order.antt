-- ===== src/Promotion/Gaps/Order.antt =====
-- Where the critical path of a gap report does not follow the dependencies.
use ao2_control_plane.Base.{
  ◌≡◌, refl, String, Bool, true, false, List, [], ◌∷◌, ◌++◌, map, string_eq, ◌==◌, if◌then◌else◌,
  length, contains, sort_by, arith,
}
use ao2_control_plane.Promotion.Gaps.{
  Phase1GapInputs, Phase1Gap, blocking_gap, gap_if, gate_gaps, candidate_gaps, collecting_gaps,
  open_gaps, phase1_gap_dependencies, operator_action_queue, not_after, phase1_gap_report,
}

abbrev pub path_ids : List Phase1Gap → List String
path_ids gaps = map (λ a. a.id) (sort_by not_after (operator_action_queue gaps))

abbrev pub misplaced : List String
misplaced = "provider_readiness" ∷ "phase1_promotion_checklist" ∷ "live_provider_acceptance" ∷ []

abbrev Misplaces : List Phase1Gap → Type 0
Misplaces gaps = length gaps ≡ 3 → path_ids gaps ≡ misplaced

choose-Misplaces :
    (b : Bool) (xs ys : List Phase1Gap)
    → Misplaces xs
    → Misplaces ys
    → Misplaces (if b then xs else ys)
choose-Misplaces true xs ys p q = p
choose-Misplaces false xs ys p q = q

gate-Misplaces : (b : Bool) (g h : Phase1Gap) → Misplaces (g ∷ gap_if b h)
gate-Misplaces true g h e = absurd (omega arith)
gate-Misplaces false g h e = absurd (omega arith)

collecting-Misplaces :
    (b c d : Bool) (e n e' n' e'' n'' : String)
    → Misplaces (
        gap_if b (blocking_gap "provider_readiness" e n)
        ++ (gap_if c (blocking_gap "live_provider_acceptance" e' n')
            ++ gap_if d (blocking_gap "phase1_promotion_checklist" e'' n'')))
unfolding operator_action_queue not_after sort_by string_eq native.Mathlib.Decide.ℕ_discrete
collecting-Misplaces true true true e n e' n' e'' n'' h = refl
collecting-Misplaces true true false e n e' n' e'' n'' h = absurd (omega arith)
collecting-Misplaces true false c e n e' n' e'' n'' h = absurd (ground arith)
collecting-Misplaces false b c e n e' n' e'' n'' h = absurd (ground arith)

-- Whenever three gaps are open, the critical path has the checklist before the live acceptance by the
-- providers, on which it depends.
pub critical_path_misplaces_checklist :
    (i : Phase1GapInputs)
    → length (open_gaps i) ≡ 3
    → (map (λ a. a.id) (phase1_gap_report i).critical_path ≡ misplaced)
      × (contains (phase1_gap_dependencies "phase1_promotion_checklist") "live_provider_acceptance"
          ≡ true)
unfolding phase1_gap_report open_gaps gate_gaps candidate_gaps collecting_gaps
critical_path_misplaces_checklist i three = (
  choose-Misplaces (i.state == "release_gate_ready") _ _ (gate-Misplaces _ _ _)
      (choose-Misplaces (i.state == "release_candidate_observed") _ _ (λ e. absurd (omega arith))
        (choose-Misplaces (i.state == "promotion_decision_observed") _ _ (λ e. absurd (omega arith))
          (collecting-Misplaces _ _ _ _ _ _ _ _ _)))
      three,
  unfold phase1_gap_dependencies in refl,
)
