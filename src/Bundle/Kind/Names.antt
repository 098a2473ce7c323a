-- ===== src/Bundle/Kind/Names.antt =====
-- Directory names and kinds determine one another, as far as the tables list the kinds.
use ao2_control_plane.Base.{
  ◌≡◌, refl, ap, true, String, ◌∷◌, Option, none, some, find?, ◌==◌, string_eq, contains, all,
  if◌then◌else◌, ◌&&◌,
}
use ao2_control_plane.Bundle.Kind.{
  BundleKind, subdir, kind_eq, all_bundle_kinds, all_prunable_primary_kinds, related_kinds,
  bundle_kind_from_subdir, ai_task_board, windows_stack_qualification_progress, acceptance_codex,
}

kind_of : String → Option BundleKind
unfolding subdir string_eq
kind_of dir =
    find? (λ kind. subdir kind == dir)
      (ai_task_board ∷ windows_stack_qualification_progress ∷ all_bundle_kinds)

kind_of-subdir : (kind : BundleKind) → kind_of (subdir kind) ≡ some kind
unfolding kind_of
kind_of-subdir acceptance_codex = refl
kind_of-subdir _ = refl

-- Two kinds never share a directory.
pub subdir_injective : (j k : BundleKind) → subdir j ≡ subdir k → j ≡ k
subdir_injective j k e = cc (kind_of-subdir j, kind_of-subdir k, ap kind_of e)

-- A kind that the report goes through is found again by the name of its directory, and any other
-- kind is not found by its own.
pub bundle_kind_from_subdir-subdir :
    (kind : BundleKind)
    → bundle_kind_from_subdir (subdir kind)
      ≡ (if contains all_bundle_kinds kind then some kind else none)
unfolding bundle_kind_from_subdir kind_eq
bundle_kind_from_subdir-subdir acceptance_codex = refl
bundle_kind_from_subdir-subdir _ = refl

pub prunable_covered :
    all
      (λ kind.
        contains all_bundle_kinds kind && all (contains all_bundle_kinds) (related_kinds kind))
      all_prunable_primary_kinds
    ≡ true
unfolding kind_eq related_kinds
prunable_covered = refl
