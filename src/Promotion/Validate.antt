-- ===== src/Promotion/Validate.antt =====
-- The validations of the other documents of handlers/phase1_promotion.rs.
use ao2_control_plane.Base.{
  String, ◌<>◌, Bool, true, false, ◌||◌, List, [], ◌∷◌, Result, ok, string_eq, bool_eq, ◌==◌,
  require, then_do,
}
use ao2_control_plane.Base.Text.{codes}
use ao2_control_plane.Json.{Value, Members, object, get, find_member, as_bool, as_object}
use ao2_control_plane.Server.AppError.{AppError}
use ao2_control_plane.Server.Caching.{validate_sha}
use ao2_control_plane.Ingest.Dashboard.Source.{and_then, json_str, as_u64}
use ao2_control_plane.Promotion.{
  or_else, is_some, bool_at, not_blank, require_texts, require_schema,
}
use ao2_control_plane.Promotion.Smoke.{some_or, show_bool}

abbrev pub checklist_schema : String
checklist_schema = "factory-v3/ao2-phase1-promotion-checklist/v1"

abbrev pub inputs_verification_schema : String
inputs_verification_schema = "ao2.phase1-replacement-promotion-inputs-verification.v1"

abbrev pub decision_schema : String
decision_schema = "factory-v3/ao2-phase1-promotion-decision/v1"

-- Texts that may be empty, and members of any value.
unfoldable pub require_some_texts : List String → Value → Result AppError (Unit {0})
unfolding json_str
require_some_texts [] v = ok tt
require_some_texts (key ∷ keys) v =
    then_do
      (require (is_some (json_str v key))
        (AppError.schema_invalid ("Phase 1 promotion checklist missing " <> key)))
      (λ u. require_some_texts keys v)

unfoldable pub require_members : List String → Members → Result AppError (Unit {0})
unfolding find_member
require_members [] checks = ok tt
require_members (key ∷ keys) checks =
    then_do
      (require (is_some (find_member key checks))
        (AppError.schema_invalid ("Phase 1 checklist missing " <> key)))
      (λ u. require_members keys checks)

unfoldable pub validate_phase1_promotion_checklist : Value → Result AppError (Unit {0})
unfolding require_schema require_some_texts require_members get as_object
validate_phase1_promotion_checklist checklist =
    then_do (require_schema checklist_schema checklist) (λ a.
      then_do (require_some_texts ("status" ∷ "phase1_state" ∷ []) checklist) (λ b.
        then_do
          (some_or (AppError.schema_invalid "Phase 1 checklist missing checks")
            (and_then (get "checklist" checklist) as_object))
          (require_members (
            "provider_readiness" ∷ "live_provider_acceptance" ∷ "release_gate" ∷ "three_os_smoke"
            ∷ []))))

abbrev boundary_error : String → String → AppError
boundary_error field expected =
    AppError.schema_invalid
      ("Phase 1 promotion inputs verification trust_boundary." <> field <> " must be " <> expected)

abbrev require_text : String → String → Value → Result AppError (Unit {0})
require_text field expected boundary =
    require (or_else (json_str boundary field) "" == expected) (boundary_error field expected)

abbrev require_bool : String → Bool → Value → Result AppError (Unit {0})
require_bool field expected boundary =
    require (or_else (bool_at field boundary) true == expected)
      (boundary_error field (show_bool expected))

-- The control plane observes, and neither changes artifacts nor approves a release.
unfoldable pub require_boundary : Value → Result AppError (Unit {0})
unfolding json_str get as_bool string_eq bool_eq
require_boundary boundary =
    then_do (require_text "control_plane_role" "read_only_observer" boundary) (λ a.
      then_do (require_text "release_acceptance_owner" "factory-v3 evaluator-closer" boundary) (λ b.
        then_do (require_bool "mutates_ao_artifacts" false boundary)
          (λ c. require_bool "control_plane_approves_release" false boundary)))

unfoldable pub validate_phase1_promotion_inputs_verification : Value → Result AppError (Unit {0})
unfolding require_schema require_boundary json_str get as_u64 as_object string_eq
validate_phase1_promotion_inputs_verification report =
    let status = or_else (json_str report "status") "" in
    then_do (require_schema inputs_verification_schema report) (λ a.
      then_do
        (require (status == "accepted" || status == "rejected") (
          AppError.schema_invalid
            "Phase 1 promotion inputs verification status must be accepted or rejected"))
        (λ b.
          then_do
            (require (is_some (and_then (get "failure_count" report) as_u64)) (
              AppError.schema_invalid
                "Phase 1 promotion inputs verification missing failure_count"))
            (λ c.
              then_do
                (some_or
                  (AppError.schema_invalid
                    "Phase 1 promotion inputs verification missing trust_boundary")
                  (and_then (get "trust_boundary" report) as_object))
                (λ members. require_boundary (object members)))))

unfoldable pub required_json_str : Value → String → Result AppError String
unfolding json_str not_blank
required_json_str v field =
    some_or (AppError.schema_invalid ("missing " <> field)) (not_blank (json_str v field))

unfoldable pub validate_phase1_promotion_decision : Value → Result AppError (Unit {0})
unfolding require_schema require_texts required_json_str validate_sha string_eq
validate_phase1_promotion_decision decision =
    then_do (require_schema decision_schema decision) (λ a.
      then_do
        (require_texts "Phase 1 promotion decision missing "
          ("status" ∷ "decision" ∷ "phase1_state" ∷ "checklist_sha256" ∷ "operator" ∷ "rationale"
            ∷ [])
          decision)
        (λ b. then_do (required_json_str decision "decision") (λ verdict.
          then_do
            (require (verdict == "promote_phase1_candidate") (
              AppError.schema_invalid
                "Phase 1 promotion decision must be promote_phase1_candidate"))
            (λ c.
              then_do (required_json_str decision "checklist_sha256")
                (λ sha. validate_sha (codes sha))))))
