-- ===== src/Promotion/Gaps.antt =====
-- `phase1_gap_report` of handlers/phase1_promotion.rs. The constant texts of the report are left out.
pub mod Actionable
pub mod Order
use ao2_control_plane.Base.{
  ℕ, suc, ◌+◌, String, Bool, true, false, not, List, [], ◌∷◌, ◌++◌, map, Option, none, some,
  string_eq, option_eq, bool_eq, nat_eq, leb, ltb, ◌==◌, if◌then◌else◌, length, filter, contains,
  sort_by,
}
use ao2_control_plane.Promotion.{or_else}

-- What the report reads of one of the statuses.
pub record Observed : Type 0 where
  pub status : Option String
  pub state : Option String
  pub next_action : Option String

pub record Phase1GapInputs : Type 0 where
  pub state : String
  pub next_action : String
  pub readiness_status : Observed
  pub acceptance_status : Observed
  pub checklist_summary : Observed
  pub decision_summary : Observed
  pub release_gate_status : Observed
  pub three_os_smoke_status : Observed

pub record Phase1Gap : Type 0 where
  pub id : String
  pub severity : String
  pub evidence_needed : String
  pub next_action : String

pub record OperatorAction : Type 0 where
  pub id : String
  pub severity : String
  pub action_order : ℕ
  pub depends_on : List String
  pub ready_to_start : Bool
  pub blocked_by_open_gaps : List String
  pub next_action : String
  pub evidence_needed : String

pub record GapReport : Type 0 where
  pub state : String
  pub total_open_gaps : ℕ
  pub blocking : ℕ
  pub ready_to_start_actions : ℕ
  pub blocking_gaps : List Phase1Gap
  pub operator_action_queue : List OperatorAction
  pub critical_path : List OperatorAction
  pub next_recommended_action : String

abbrev pub blocking_gap : String → String → String → Phase1Gap
blocking_gap id evidence_needed next_action = record {
  id = id;
  severity = "blocking";
  evidence_needed = evidence_needed;
  next_action = next_action;
}

abbrev pub gap_if : Bool → Phase1Gap → List Phase1Gap
gap_if b gap = if b then gap ∷ [] else []

unfoldable pub gate_gaps : Phase1GapInputs → List Phase1Gap
unfolding option_eq string_eq
gate_gaps i =
    blocking_gap "release_gate" "factory-v3 guarded release-gate evidence"
      (or_else i.release_gate_status.next_action "run factory-v3 release gate")
    ∷ gap_if (not (i.three_os_smoke_status.status == some "passed")) (
        blocking_gap "three_os_smoke" "macOS, Ubuntu, and Windows smoke evidence"
          (or_else i.three_os_smoke_status.next_action "attach three-OS smoke summary"))

unfoldable pub candidate_gaps : Phase1GapInputs → List Phase1Gap
candidate_gaps i =
    blocking_gap "signed_promotion_decision"
      "signed Phase 1 promotion decision linked to the accepted checklist"
      (or_else i.decision_summary.next_action "publish a signed release-line decision")
    ∷ []

unfoldable pub collecting_gaps : Phase1GapInputs → List Phase1Gap
unfolding option_eq string_eq
collecting_gaps i =
    gap_if (i.readiness_status.status == some "missing") (
      blocking_gap "provider_readiness" "latest provider readiness evidence"
        (or_else i.readiness_status.next_action "publish provider readiness evidence"))
    ++ (gap_if (not (i.acceptance_status.state == some "live_acceptance_complete")) (
          blocking_gap "live_provider_acceptance"
            "live Codex and Claude provider acceptance artifacts"
            (or_else i.acceptance_status.next_action "publish live provider acceptance evidence"))
        ++ gap_if (i.checklist_summary.status == some "missing") (
            blocking_gap "phase1_promotion_checklist"
              "factory-v3 Phase 1 promotion checklist artifact"
              (or_else i.checklist_summary.next_action "publish the Phase 1 promotion checklist")))

-- The match on the state.
unfoldable pub open_gaps : Phase1GapInputs → List Phase1Gap
unfolding string_eq gate_gaps candidate_gaps collecting_gaps
open_gaps i =
    if i.state == "release_gate_ready"
    then gate_gaps i
    else if i.state == "release_candidate_observed"
    then candidate_gaps i
    else if i.state == "promotion_decision_observed"
    then []
    else collecting_gaps i

unfoldable pub phase1_gap_dependencies : String → List String
unfolding string_eq
phase1_gap_dependencies id =
    if id == "provider_readiness"
    then []
    else if id == "live_provider_acceptance"
    then "provider_readiness" ∷ []
    else if id == "three_os_smoke"
    then "provider_readiness" ∷ "live_provider_acceptance" ∷ []
    else if id == "release_gate"
    then "provider_readiness" ∷ "live_provider_acceptance" ∷ "three_os_smoke" ∷ []
    else if id == "phase1_promotion_checklist"
    then "provider_readiness" ∷ "live_provider_acceptance" ∷ "release_gate" ∷ "three_os_smoke" ∷ []
    else if id == "signed_promotion_decision"
    then "phase1_promotion_checklist" ∷ []
    else []

abbrev pub is_empty : List String → Bool
is_empty [] = true
is_empty (s ∷ more) = false

-- The action of a gap, by its place and the ids of all open gaps.
unfoldable pub action_of : List String → ℕ → Phase1Gap → OperatorAction
unfolding phase1_gap_dependencies string_eq
action_of open_ids index gap =
    let blocked_by = filter (contains open_ids) (phase1_gap_dependencies gap.id) in
    record {
      id = gap.id;
      severity = gap.severity;
      action_order = index + 1;
      depends_on = phase1_gap_dependencies gap.id;
      ready_to_start = is_empty blocked_by;
      blocked_by_open_gaps = blocked_by;
      next_action = gap.next_action;
      evidence_needed = gap.evidence_needed;
    }

unfoldable pub queue_from : List String → ℕ → List Phase1Gap → List OperatorAction
unfolding action_of
queue_from open_ids index [] = []
queue_from open_ids index (gap ∷ gaps) =
    action_of open_ids index gap ∷ queue_from open_ids (index + 1) gaps

unfoldable pub operator_action_queue : List Phase1Gap → List OperatorAction
unfolding queue_from
operator_action_queue gaps = queue_from (map (λ g. g.id) gaps) 0 gaps

-- The order of the critical path: what can start, then what depends on most, then as in the queue.
unfoldable pub not_after : OperatorAction → OperatorAction → Bool
unfolding bool_eq nat_eq
not_after a b =
    if a.ready_to_start == b.ready_to_start
    then (if length a.depends_on == length b.depends_on
        then leb a.action_order b.action_order
        else ltb (length b.depends_on) (length a.depends_on))
    else a.ready_to_start

abbrev pub report_of : Phase1GapInputs → List Phase1Gap → List OperatorAction → GapReport
report_of i gaps queue = record {
  state = i.state;
  total_open_gaps = length gaps;
  blocking = length (filter (λ g. g.severity == "blocking") gaps);
  ready_to_start_actions = length (filter (λ a. a.ready_to_start) queue);
  blocking_gaps = gaps;
  operator_action_queue = queue;
  critical_path = sort_by not_after queue;
  next_recommended_action = i.next_action;
}

unfoldable pub phase1_gap_report : Phase1GapInputs → GapReport
unfolding open_gaps operator_action_queue not_after sort_by string_eq
phase1_gap_report i = report_of i (open_gaps i) (operator_action_queue (open_gaps i))
