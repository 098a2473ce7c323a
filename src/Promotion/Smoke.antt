-- ===== src/Promotion/Smoke.antt =====
-- `validate_three_os_release_smoke` of handlers/phase1_promotion.rs.
pub mod Verdict
use ao2_control_plane.Base.{
  ℕ, String, ◌<>◌, Bool, true, false, not, ◌&&◌, ◌||◌, List, [], ◌∷◌, map, Option, none, some,
  Result, ok, err, string_eq, nat_eq, bool_eq, leb, ◌==◌, if◌then◌else◌, length, all, any, contains,
  filter, require, then_do,
}
use ao2_control_plane.Base.Text.{codes}
use ao2_control_plane.Json.{Value, Members, get, find_member, as_bool, as_str, as_object}
use ao2_control_plane.Server.AppError.{AppError}
use ao2_control_plane.Ingest.Dashboard.Source.{and_then, json_str}
use ao2_control_plane.Promotion.{or_else, is_some, bool_at, require_texts, require_schema}

abbrev pub three_os_schema : String
three_os_schema = "ao2-control-plane.three-os-release-smoke.v1"

abbrev pub targets_of_smoke : List String
targets_of_smoke = "macos" ∷ "ubuntu" ∷ "windows" ∷ []

-- A text of ASCII has as many bytes as code points.
unfoldable pub is_git_sha40 : List ℕ → Bool
unfolding nat_eq
is_git_sha40 commit =
    length commit == 40 && all (λ b. leb b'0' b && leb b b'9' || leb b'a' b && leb b b'f') commit

abbrev pub show_bool : Bool → String
show_bool b = if b then "true" else "false"

-- A text of the value of a target.
unfoldable pub target_text : Members → String → String → Option String
unfolding find_member json_str
target_text targets target key = and_then (find_member target targets) (λ v. json_str v key)

unfoldable pub target_passed : Members → String → Bool
unfolding target_text string_eq
target_passed targets target = or_else (target_text targets target "status") "unknown" == "passed"

abbrev check_status : String → Option String → Result AppError (Unit {0})
check_status target none =
    err (AppError.schema_invalid ("three-OS release smoke missing " <> target <> " target status"))
check_status target (some status) =
    require (contains ("passed" ∷ "failed" ∷ "skipped" ∷ []) status) (
      AppError.schema_invalid
        ("three-OS release smoke has invalid " <> target <> " status " <> status))

unfoldable pub check_statuses : Members → List String → Result AppError (Unit {0})
unfolding target_text string_eq
check_statuses targets [] = ok tt
check_statuses targets (target ∷ more) =
    then_do (check_status target (target_text targets target "status"))
      (λ u. check_statuses targets more)

-- The status that the evidence of the targets stands for.
unfoldable pub recomputed_status : Members → Bool → String
unfolding target_passed
recomputed_status targets source_dirty =
    if all (target_passed targets) targets_of_smoke && not source_dirty then "passed" else "failed"

unfoldable pub check_posted_status : Value → Members → Bool → Result AppError (Unit {0})
unfolding recomputed_status json_str string_eq
check_posted_status smoke targets source_dirty =
    let posted = or_else (json_str smoke "status") "" in
    require (posted == recomputed_status targets source_dirty) (
      AppError.schema_invalid (
        "three-OS release smoke top-level status disagrees with server-side recomputation from per-target evidence: posted="
        <> posted
        <> ", recomputed="
        <> recomputed_status targets source_dirty
        <> " (all_targets_passed="
        <> show_bool (all (target_passed targets) targets_of_smoke)
        <> ", source_dirty="
        <> show_bool source_dirty
        <> ")"))

abbrev agreed : List String → String
agreed [] = "unknown"
agreed (reference ∷ more) = if all (λ s. s == reference) more then reference else "drift"

-- What the targets that passed say of the correlation of the candidate.
unfoldable pub recomputed_parity : Members → String
unfolding target_passed target_text string_eq
recomputed_parity targets = agreed (
    map (λ target. or_else (target_text targets target "candidate_correlation_status") "unknown")
      (filter (target_passed targets) targets_of_smoke))

unfoldable pub check_parity : Members → Option String → Result AppError (Unit {0})
unfolding recomputed_parity string_eq
check_parity targets none = ok tt
check_parity targets (some posted) = require (posted == recomputed_parity targets) (
    AppError.schema_invalid (
      "three-OS release smoke candidate_correlation_parity disagrees with server-side recomputation from per-target evidence: posted="
      <> posted
      <> ", recomputed="
      <> recomputed_parity targets))

abbrev pub commit_at : Members → String → String
commit_at per_target target = or_else (and_then (find_member target per_target) as_str) "unknown"

-- A target that passed from another commit.
unfoldable pub dissents : Members → String → Members → String → Bool
unfolding target_passed find_member as_str string_eq
dissents targets commit per_target target =
    target_passed targets target && not (commit_at per_target target == commit)

abbrev joined : List String → String
joined [] = ""
joined (s ∷ []) = s
joined (s ∷ t ∷ more) = s <> ", " <> joined (t ∷ more)

-- `debug` is the form of a text under `{:?}`.
unfoldable pub check_commits :
    (String → String) → Value → Members → String → Members → Result AppError (Unit {0})
unfolding dissents bool_eq get as_bool
check_commits debug smoke targets commit per_target =
    let drift = any (dissents targets commit per_target) targets_of_smoke in
    then_do
      (require (or_else (bool_at "source_commit_per_target_drift" smoke) drift == drift) (
        AppError.schema_invalid (
          "three-OS release smoke source_commit_per_target_drift disagrees with server-side recomputation: posted="
          <> show_bool (not drift)
          <> ", recomputed="
          <> show_bool drift
          <> " (top-level source_commit="
          <> debug commit
          <> ")")))
      (λ u. require (not drift) (
        AppError.schema_invalid (
          "three-OS release smoke source_commit_per_target drift: top-level source_commit="
          <> commit
          <> " disagrees with per-target source_commit_at_target ("
          <> joined (
              map (λ target. target <> "=" <> commit_at per_target target)
                (filter (dissents targets commit per_target) targets_of_smoke))
          <> "); orchestrator HEAD drifted between packaging and execution")))

abbrev pub check_recorded_commits :
    (String → String) → Value → Members → String → Option Members → Result AppError (Unit {0})
check_recorded_commits debug smoke targets commit none = ok tt
check_recorded_commits debug smoke targets commit (some per_target) =
    check_commits debug smoke targets commit per_target

abbrev pub some_or {ℓ} : {A : Type ℓ} → AppError → Option A → Result AppError A
some_or e none = err e
some_or e (some a) = ok a

unfoldable pub validate_three_os_release_smoke :
    (String → String) → Value → Result AppError (Unit {0})
unfolding require_schema require_texts json_str is_git_sha40 get as_bool as_object check_statuses
    check_posted_status check_parity check_commits
validate_three_os_release_smoke debug smoke =
    let commit = or_else (json_str smoke "source_commit") "" in
    let dirty = or_else (bool_at "source_dirty" smoke) true in
    then_do (require_schema three_os_schema smoke) (λ a.
      then_do
        (require_texts "three-OS release smoke missing "
          ("status" ∷ "source_commit" ∷ "version" ∷ "release_candidate_version" ∷ []) smoke)
        (λ b.
          then_do
            (require (is_some (bool_at "source_dirty" smoke))
              (AppError.schema_invalid "three-OS release smoke missing source_dirty"))
            (λ c.
              then_do
                (require (is_git_sha40 (codes commit)) (
                  AppError.schema_invalid (
                    "three-OS release smoke source_commit must be a 40-char lowercase hex git sha1; got "
                    <> debug commit)))
                (λ d.
                  then_do
                    (some_or (AppError.schema_invalid "three-OS release smoke missing targets")
                      (and_then (get "targets" smoke) as_object))
                    (λ targets. then_do (check_statuses targets targets_of_smoke) (λ e.
                      then_do (check_posted_status smoke targets dirty) (λ f.
                        then_do
                          (check_parity targets (json_str smoke "candidate_correlation_parity"))
                          (λ g.
                            check_recorded_commits debug smoke targets commit
                              (and_then (get "source_commit_per_target" smoke) as_object)))))))))
