-- ===== src/Tests/Promotions.antt =====
-- Evidence of a promotion that is taken in, refused and shown.
use ao2_control_plane.Base.{
  ◌≡◌, ◌↔◌, refl, String, true, false, [], ◌∷◌, map, Option, none, some, ok, err, string_eq, nat_eq,
  length, contains, then_do,
}
use ao2_control_plane.Base.Text.{codes, codes_eq, trim}
use ao2_control_plane.Disk.{Bytes, Host, path_eq}
use ao2_control_plane.Index.State.{IndexEntry}
use ao2_control_plane.Json.{Value, bool, string, object, member, no_members}
use ao2_control_plane.Server.AppError.{AppError, to_string}
use ao2_control_plane.Ingest.{admitted}
use ao2_control_plane.Promotion.Smoke.{validate_three_os_release_smoke}
use ao2_control_plane.Promotion.Smoke.Verdict.{IsSound, validate_three_os_release_smoke-IsSound}
use ao2_control_plane.Promotion.Gaps.{
  Observed, Phase1GapInputs, open_gaps, phase1_gap_report, phase1_gap_dependencies,
}
use ao2_control_plane.Promotion.Gaps.Actionable.{IsActionable, phase1_gap_report-IsActionable}
use ao2_control_plane.Promotion.Gaps.Order.{misplaced, critical_path_misplaces_checklist}
use ao2_control_plane.Promotion.Audit.{Rejection, post_phase1_three_os_smoke, rejection_of}
use ao2_control_plane.Promotion.Audit.Refusal.{LogsRecord, refused_smoke-LogsRecord}
use ao2_control_plane.Readiness.{provider_phase1_dashboard_blockers}
use ao2_control_plane.Readiness.Complete.{IsUnblocked, dashboard-IsUnblocked_iff}
use ao2_control_plane.Tests.Handlers.{body, clock, state, world, empty}

abbrev unseen : Observed
unseen = record { status = some "missing"; state = some "missing"; next_action = none }

-- Nothing was published yet.
abbrev nothing_yet : Phase1GapInputs
nothing_yet = record {
  state = "collecting_evidence";
  next_action = "publish evidence";
  readiness_status = unseen;
  acceptance_status = unseen;
  checklist_summary = unseen;
  decision_summary = unseen;
  release_gate_status = unseen;
  three_os_smoke_status = unseen;
}

phase1_gap_report-IsActionable_example : IsActionable (phase1_gap_report nothing_yet)
phase1_gap_report-IsActionable_example = phase1_gap_report-IsActionable nothing_yet

three_are_open : length (open_gaps nothing_yet) ≡ 3
unfolding open_gaps string_eq
three_are_open = refl

critical_path_misplaces_checklist_example :
    (map (λ a. a.id) (phase1_gap_report nothing_yet).critical_path ≡ misplaced)
    × (contains (phase1_gap_dependencies "phase1_promotion_checklist") "live_provider_acceptance"
        ≡ true)
critical_path_misplaces_checklist_example =
    critical_path_misplaces_checklist nothing_yet three_are_open

abbrev commit : String
commit = "0123456789abcdef0123456789abcdef01234567"

abbrev passed : Value
passed = object (member "status" (string "passed") no_members)

-- All three targets passed on a clean source.
abbrev clean_smoke : Value
clean_smoke = object (
    member "schema" (string "ao2-control-plane.three-os-release-smoke.v1") (
      member "status" (string "passed") (
        member "source_commit" (string commit) (
          member "version" (string "1.0.0") (
            member "release_candidate_version" (string "1.0.0-rc.1") (
              member "source_dirty" (bool false) (
                member "targets"
                  (object (
                    member "macos" passed
                      (member "ubuntu" passed (member "windows" passed no_members))))
                  no_members)))))))

smoke_is_valid : validate_three_os_release_smoke (λ text. text) clean_smoke ≡ ok tt
unfolding validate_three_os_release_smoke codes_eq trim native.Mathlib.Decide.ℕ_discrete then_do
smoke_is_valid = refl

abbrev smoke_entry : IndexEntry
smoke_entry = record {
  ingested_at = 5;
  schema = "ao2-control-plane.three-os-release-smoke.v1";
  provider = none;
  sha256 = "00";
  status = some "passed";
  size_bytes = 2;
}

validate_three_os_release_smoke-IsSound_example : IsSound clean_smoke smoke_entry
validate_three_os_release_smoke-IsSound_example =
    validate_three_os_release_smoke-IsSound (λ text. text) clean_smoke smoke_entry smoke_is_valid

abbrev gate : Value
gate = object (member "status" (string "ready") no_members)

-- A readiness whose pilot is not required yet, before none at all.
dashboard-IsUnblocked_iff_example :
    (provider_phase1_dashboard_blockers (("00", gate) ∷ []) ≡ []) ↔ IsUnblocked (("00", gate) ∷ [])
dashboard-IsUnblocked_iff_example = dashboard-IsUnblocked_iff (("00", gate) ∷ [])

-- The empty object has no schema.
abbrev refusal : AppError
refusal =
    AppError.schema_unknown "expected schema ao2-control-plane.three-os-release-smoke.v1, got "

admits : admitted world state body ≡ ok tt
unfolding admitted
admits = refl

reads : world.from_slice body ≡ ok (object no_members)
unfolding native.Mathlib.Decide.ℕ_discrete nat_eq
reads = refl

refuses : validate_three_os_release_smoke world.debug (object no_members) ≡ err refusal
unfolding validate_three_os_release_smoke then_do
refuses = refl

abbrev print_reason : Rejection → Option Bytes
print_reason r = some (codes r.rejection_reason)

refused_smoke-LogsRecord_example :
    (h : Host) × (post_phase1_three_os_smoke world print_reason state clock body empty
      ≡ (err refusal, record empty { host = h }))
    × LogsRecord world print_reason
        (print_reason (rejection_of world print_reason clock.ingested body (to_string refusal)))
        empty.host
        h
refused_smoke-LogsRecord_example =
    refused_smoke-LogsRecord world print_reason state clock body (object no_members) refusal empty
      admits reads refuses
