-- ===== src/Promotion/Smoke/Verdict.antt =====
-- What a smoke report that was accepted says.
use ao2_control_plane.Base.{
  ℕ, ◌≡◌, ◌↔◌, ◌⊎◌, inl, inr, refl, sym, ap, ◌∙◌, fun_ext, String, Bool, true, false, not, ◌&&◌, [],
  ◌∷◌, Option, none, some, ok, string_eq, option_eq, bool_eq, ◌==◌, if◌then◌else◌, all, any,
  Bool-cases, arith, then_do-ok, require-ok,
}
use mathlib.Core.Option.{some-injective}
use ao2_control_plane.Base.Text.{codes, string_eq_iff}
use ao2_control_plane.Index.State.{IndexEntry}
use ao2_control_plane.Json.{Value, Members, object, get, find_member, as_object}
use ao2_control_plane.Server.AppError.{AppError}
use ao2_control_plane.Ingest.Dashboard.Source.{and_then, json_str}
use ao2_control_plane.Promotion.{or_else, bool_at, require_texts, is_some, not_blank}
use ao2_control_plane.Promotion.Smoke.{
  targets_of_smoke, is_git_sha40, target_text, target_passed, commit_at, recomputed_status,
  check_posted_status, check_commits, check_recorded_commits, dissents, some_or,
  validate_three_os_release_smoke,
}
use ao2_control_plane.Promotion.Summary.{clean_pass, target_clean, three_os_smoke_artifact_summary}

unknown-ne-passed : ◌≡◌ {A = String} "unknown" "passed" → ⊥
unknown-ne-passed h = cc

-- Every target that passed did so from the commit, or no commits are recorded by target.
abbrev pub FromCommit : Members → String → Option Members → Type 0
FromCommit targets commit none = Unit
FromCommit targets commit (some per_target) =
    AtTarget "macos" × AtTarget "ubuntu" × AtTarget "windows"
  where
    AtTarget : String → Type 0
    AtTarget target =
        (target_passed targets target ≡ false) ⊎ (commit_at per_target target ≡ commit)

abbrev pub AllPassed : Members → Type 0
AllPassed targets =
    (target_text targets "macos" "status" ≡ some "passed")
    × (target_text targets "ubuntu" "status" ≡ some "passed")
    × (target_text targets "windows" "status" ≡ some "passed")

-- What is known of a smoke report that was accepted, and of the summary of it.
pub record IsSound (smoke : Value) (e : IndexEntry) : Type 0 where
  pub commit : String
  pub has_commit : json_str smoke "source_commit" ≡ some commit
  pub is_commit : is_git_sha40 (codes commit) ≡ true
  pub targets : Members
  pub has_targets : and_then (get "targets" smoke) as_object ≡ some targets
  pub status :
      (json_str smoke "status" ≡ some "passed")
      ↔ ((bool_at "source_dirty" smoke ≡ some false) × AllPassed targets)
  pub commits :
      FromCommit targets commit (and_then (get "source_commit_per_target" smoke) as_object)
  pub summary : json_str smoke "status" ≡ some (three_os_smoke_artifact_summary e smoke).status

none_of_three :
    (p : String → Bool)
    → not (any p targets_of_smoke) ≡ true
    → (p "macos" ≡ false) × (p "ubuntu" ≡ false) × (p "windows" ≡ false)
none_of_three p h = ground arith

not_dissents :
    (targets : Members) (commit : String) (per_target : Members) (target : String)
    → dissents targets commit per_target target ≡ false
    → (target_passed targets target ≡ false) ⊎ (commit_at per_target target ≡ commit)
unfolding dissents
not_dissents targets commit per_target target h =
    elim (Bool-cases (commit_at per_target target == commit)) [
      | inl same ↦ inr ((string_eq_iff _ _).0 same)
      | inr other ↦ inl (ground arith)
    ]

check_commits-FromCommit :
    (debug : String → String) (smoke : Value) (targets : Members) (commit : String)
    (m : Option Members)
    → check_recorded_commits debug smoke targets commit m ≡ ok tt
    → FromCommit targets commit m
unfolding check_commits
check_commits-FromCommit debug smoke targets commit none h = tt
check_commits-FromCommit debug smoke targets commit (some per) h =
    let (u, e, h₁) = then_do-ok _ _ tt h in
    let (a, b, c) = none_of_three (dissents targets commit per) (require-ok _ _ h₁) in
    (
      not_dissents targets commit per "macos" a,
      not_dissents targets commit per "ubuntu" b,
      not_dissents targets commit per "windows" c,
    )

some_or-ok : {A : Type 0} (e : AppError) (m : Option A) (a : A) → some_or e m ≡ ok a → m ≡ some a
some_or-ok e none a h = ground arith
some_or-ok e (some b) a h = ground arith

is_some-some : (m : Option Bool) → is_some m ≡ true → m ≡ some (or_else m true)
is_some-some none h = ground arith
is_some-some (some b) h = refl

is_passed : (m : Option String) → ((or_else m "unknown" == "passed") ≡ true) ↔ (m ≡ some "passed")
is_passed none = (λ h. absurd (unknown-ne-passed ((string_eq_iff "unknown" "passed").0 h)), λ h. cc)
is_passed (some s) =
    (λ h. ap some ((string_eq_iff s "passed").0 h), λ h. (string_eq_iff s "passed").1 (cc))

-- The two ways in which the source reads whether a target passed.
some_passed : (m : Option String) → (m == some "passed") ≡ (or_else m "unknown" == "passed")
some_passed none = ground (arith, unknown-ne-passed)
some_passed (some s) = ground arith

not_blank-some : (m : Option String) → is_some (not_blank m) ≡ true → m ≡ some (or_else m "")
unfolding not_blank
not_blank-some none h = ground arith
not_blank-some (some s) h = refl

object_of :
    (m : Option Value) (m' : Members) → and_then m as_object ≡ some m' → m ≡ some (object m')
unfolding as_object
object_of none m' h = cc
object_of (some (object x)) m' h = cc
object_of (some v) m' h = cc

target_passed_iff :
    (targets : Members) (target : String)
    → (target_passed targets target ≡ true) ↔ (target_text targets target "status" ≡ some "passed")
unfolding target_passed
target_passed_iff targets target = is_passed (target_text targets target "status")

all_three :
    (targets : Members) → (all (target_passed targets) targets_of_smoke ≡ true) ↔ AllPassed targets
all_three targets =
    let (m, m') = target_passed_iff targets "macos" in
    let (u, u') = target_passed_iff targets "ubuntu" in
    let (w, w') = target_passed_iff targets "windows" in
    (
      λ h. (m (ground arith), u (ground arith), w (ground arith)),
      λ h. let a = m' h.0 in let b = u' h.1 in let c = w' h.2 in ground arith,
    )

target_clean-passed :
    (smoke : Value) (targets : Members)
    → get "targets" smoke ≡ some (object targets)
    → (target : String) → target_clean smoke target ≡ target_passed targets target
unfolding target_clean target_passed target_text get
target_clean-passed smoke targets e target =
    rw e (some_passed (and_then (find_member target targets) (λ v. json_str v "status")))

all_clean :
    (smoke : Value) (targets : Members)
    → get "targets" smoke ≡ some (object targets)
    → all (target_clean smoke) targets_of_smoke ≡ all (target_passed targets) targets_of_smoke
all_clean smoke targets e = rw (fun_ext (target_clean-passed smoke targets e)) refl

-- The status that is recomputed, with what it is computed from.
abbrev verdict : Bool → Bool → String
verdict passed dirty = if passed && not dirty then "passed" else "failed"

abbrev first_code : String → ℕ
first_code s = elim (codes s) [ [] ↦ 0 | c ∷ cs ↦ c ]

failed-ne-passed : ◌≡◌ {A = String} "failed" "passed" → ⊥
failed-ne-passed h = absurd (let e : ◌≡◌ {A = ℕ} 102 112 = ap first_code h in omega arith)

verdict_iff :
    (passed dirty : Bool) → (verdict passed dirty ≡ "passed") ↔ ((dirty ≡ false) × (passed ≡ true))
verdict_iff true false = (λ h. (refl, refl), λ h. refl)
verdict_iff true true = (λ h. absurd (failed-ne-passed h), λ h. cc (h.0))
verdict_iff false dirty = (λ h. absurd (failed-ne-passed h), λ h. cc (h.1))

verdict_again :
    (passed dirty : Bool)
    → (if verdict passed dirty == "passed" && not dirty && passed then "passed" else "failed")
      ≡ verdict passed dirty
verdict_again true false = ground (arith, (string_eq_iff "passed" "passed").1 refl)
verdict_again true true = ground arith
verdict_again false dirty = ground arith

posted_status :
    (targets : Members) (dirty : Bool)
    → (recomputed_status targets dirty ≡ "passed") ↔ ((dirty ≡ false) × AllPassed targets)
unfolding recomputed_status
posted_status targets dirty =
    let (to, from) = all_three targets in
    let (there, back) = verdict_iff (all (target_passed targets) targets_of_smoke) dirty in
    (λ h. ((there h).0, to (there h).1), λ h. back (h.0, from h.1))

summary_status :
    (smoke : Value) (targets : Members) (e : IndexEntry)
    → get "targets" smoke ≡ some (object targets)
    → json_str smoke "status"
      ≡ some (recomputed_status targets (or_else (bool_at "source_dirty" smoke) true))
    → (three_os_smoke_artifact_summary e smoke).status
      ≡ recomputed_status targets (or_else (bool_at "source_dirty" smoke) true)
unfolding three_os_smoke_artifact_summary clean_pass recomputed_status
summary_status smoke targets e has_targets posted =
    rw (posted, all_clean smoke targets has_targets)
      (verdict_again (all (target_passed targets) targets_of_smoke)
        (or_else (bool_at "source_dirty" smoke) true))

texts_of :
    (smoke : Value)
    → require_texts "three-OS release smoke missing "
        ("status" ∷ "source_commit" ∷ "version" ∷ "release_candidate_version" ∷ [])
        smoke
      ≡ ok tt
    → (json_str smoke "status" ≡ some (or_else (json_str smoke "status") ""))
      × (json_str smoke "source_commit" ≡ some (or_else (json_str smoke "source_commit") ""))
unfolding require_texts
texts_of smoke h =
    let (a, e₁, h₁) = then_do-ok _ _ tt h in
    let (b, e₂, h₂) = then_do-ok _ _ tt h₁ in
    (not_blank-some _ (require-ok _ _ e₁), not_blank-some _ (require-ok _ _ e₂))

posted_as_recomputed :
    (smoke : Value) (targets : Members) (dirty : Bool)
    → check_posted_status smoke targets dirty ≡ ok tt
    → or_else (json_str smoke "status") "" ≡ recomputed_status targets dirty
unfolding check_posted_status
posted_as_recomputed smoke targets dirty h = (string_eq_iff _ _).0 (require-ok _ _ h)

-- A report on the smoke tests that passes the validation names a commit of forty hexadecimal digits, its
-- status is `passed` exactly when the source was clean and all three targets passed, each target
-- that passed was built from that commit where the commits are recorded by target, and the summary
-- of the artifact says the status of the report.
pub validate_three_os_release_smoke-IsSound :
    (debug : String → String) (smoke : Value) (e : IndexEntry)
    → validate_three_os_release_smoke debug smoke ≡ ok tt
    → IsSound smoke e
unfolding validate_three_os_release_smoke
validate_three_os_release_smoke-IsSound debug smoke e h =
    let (a, e₁, h₁) = then_do-ok _ _ tt h in
    let (b, e₂, h₂) = then_do-ok _ _ tt h₁ in
    let (c, e₃, h₃) = then_do-ok _ _ tt h₂ in
    let (d, e₄, h₄) = then_do-ok _ _ tt h₃ in
    let (targets, e₅, h₅) = then_do-ok _ _ tt h₄ in
    let (f, e₆, h₆) = then_do-ok _ _ tt h₅ in
    let (g, e₇, h₇) = then_do-ok _ _ tt h₆ in
    let (i, e₈, h₈) = then_do-ok _ _ tt h₇ in
    let (has_status, has_commit) = texts_of smoke e₂ in
    let has = object_of (get "targets" smoke) targets (some_or-ok _ _ targets e₅) in
    let dirty = is_some-some (bool_at "source_dirty" smoke) (require-ok _ _ e₃) in
    let posted : json_str smoke "status"
        ≡ some (recomputed_status targets (or_else (bool_at "source_dirty" smoke) true)) =
      has_status ∙ ap some (posted_as_recomputed smoke targets _ e₇) in
    let (there, back) = posted_status targets (or_else (bool_at "source_dirty" smoke) true) in
    record {
      commit = or_else (json_str smoke "source_commit") "";
      has_commit = has_commit;
      is_commit = require-ok _ _ e₄;
      targets = targets;
      has_targets = some_or-ok _ _ targets e₅;
      status = (
        λ p.
            let (clean, passed) = there (some-injective _ _ (sym posted ∙ p)) in
            (dirty ∙ ap some clean, passed),
        λ q. posted ∙ ap some (back (some-injective _ _ (sym dirty ∙ q.0), q.1)),
      );
      commits = check_commits-FromCommit debug smoke targets _ _ h₈;
      summary = posted ∙ ap some (sym (summary_status smoke targets e has posted));
    }
