-- ===== src/Promotion/Summary.antt =====
-- The summaries of artifacts of handlers/phase1_promotion.rs, without the sidecars that they read.
use ao2_control_plane.Base.{
  ℕ, String, ◌<>◌, Bool, true, not, ◌&&◌, some, string_eq, option_eq, ◌==◌, if◌then◌else◌, all,
}
use ao2_control_plane.Index.State.{IndexEntry}
use ao2_control_plane.Json.{Value, object, no_members, get, as_bool}
use ao2_control_plane.Ingest.Dashboard.Source.{and_then, json_str, as_u64}
use ao2_control_plane.Promotion.{or_else, bool_at}
use ao2_control_plane.Promotion.Smoke.{targets_of_smoke}

-- A text of an artifact, or `unknown`.
abbrev pub text_of : Value → String → String
text_of v key = or_else (json_str v key) "unknown"

abbrev object_at : String → Value → Value
object_at key v = or_else (get key v) (object no_members)

pub record ChecklistSummary : Type 0 where
  pub status : String
  pub phase1_state : String
  pub next_action : String
  pub sha256 : String
  pub ingested_at : ℕ
  pub raw_url : String

unfoldable pub checklist_artifact_summary : IndexEntry → Value → ChecklistSummary
unfolding json_str
checklist_artifact_summary e checklist = record {
  status = text_of checklist "status";
  phase1_state = text_of checklist "phase1_state";
  next_action = text_of checklist "next_action";
  sha256 = e.sha256;
  ingested_at = e.ingested_at;
  raw_url = "/api/v1/phase1/promotion/checklist/" <> e.sha256;
}

pub record InputsVerificationSummary : Type 0 where
  pub status : String
  pub mode : String
  pub failure_count : ℕ
  pub sha256 : String
  pub ingested_at : ℕ
  pub raw_url : String
  pub control_plane_role : String
  pub mutates_ao_artifacts : Bool
  pub release_acceptance_owner : String
  pub control_plane_approves_release : Bool

unfoldable pub inputs_verification_artifact_summary : IndexEntry → Value → InputsVerificationSummary
unfolding json_str get as_u64 as_bool
inputs_verification_artifact_summary e report =
    let boundary = object_at "trust_boundary" report in
    record {
      status = text_of report "status";
      mode = text_of report "mode";
      failure_count = or_else (and_then (get "failure_count" report) as_u64) 0;
      sha256 = e.sha256;
      ingested_at = e.ingested_at;
      raw_url = "/api/v1/phase1/promotion/inputs-verification/" <> e.sha256;
      control_plane_role = text_of boundary "control_plane_role";
      mutates_ao_artifacts = or_else (bool_at "mutates_ao_artifacts" boundary) true;
      release_acceptance_owner = text_of boundary "release_acceptance_owner";
      control_plane_approves_release =
          or_else (bool_at "control_plane_approves_release" boundary) true;
    }

pub record SmokeSummary : Type 0 where
  pub status : String
  pub state : String
  pub version : String
  pub release_candidate_version : String
  pub source_commit : String
  pub source_dirty : Bool
  pub sha256 : String
  pub ingested_at : ℕ
  pub raw_url : String
  pub targets : Value
  pub remote_command_files : Value
  pub rerun_commands : Value
  pub report : String
  pub root : String
  pub next_action : String

unfoldable pub target_clean : Value → String → Bool
unfolding get json_str option_eq string_eq
target_clean smoke target =
    and_then (and_then (get "targets" smoke) (get target)) (λ v. json_str v "status")
    == some "passed"

unfoldable pub clean_pass : Value → Bool
unfolding target_clean json_str get as_bool string_eq
clean_pass smoke =
    text_of smoke "status" == "passed"
    && not (or_else (bool_at "source_dirty" smoke) true)
    && all (target_clean smoke) targets_of_smoke

unfoldable pub three_os_smoke_artifact_summary : IndexEntry → Value → SmokeSummary
unfolding clean_pass json_str get as_bool
three_os_smoke_artifact_summary e smoke = record {
  status = if clean_pass smoke then "passed" else "failed";
  state =
      if clean_pass smoke
      then "three_os_release_smoke_passed"
      else "three_os_release_smoke_needs_attention";
  version = text_of smoke "version";
  release_candidate_version = text_of smoke "release_candidate_version";
  source_commit = text_of smoke "source_commit";
  source_dirty = or_else (bool_at "source_dirty" smoke) true;
  sha256 = e.sha256;
  ingested_at = e.ingested_at;
  raw_url = "/api/v1/phase1/promotion/three-os-smoke/" <> e.sha256;
  targets = object_at "targets" smoke;
  remote_command_files = object_at "remote_command_files" smoke;
  rerun_commands = object_at "rerun_commands" smoke;
  report = or_else (json_str smoke "report") "missing";
  root = or_else (json_str smoke "root") "missing";
  next_action =
      if clean_pass smoke
      then "three-OS release smoke is present; run the guarded release gate"
      else "rerun three-OS release smoke from a clean source commit until macOS, Ubuntu, and Windows pass";
}
