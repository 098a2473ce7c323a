-- ===== src/Retention/Report/Totals.antt =====
-- The totals of a retention report against its kinds.
use ao2_control_plane.Base.{
  ℕ, ◌+◌, ◌≡◌, List, [], ◌∷◌, Result, ok, err, continue, length, ltb, String, map, take,
}
use ao2_control_plane.Disk.{Host}
use ao2_control_plane.Bundle
use ao2_control_plane.Bundle.{BundleStoreError}
use ao2_control_plane.Bundle.Kind.{BundleKind, subdir, all_bundle_kinds}
use ao2_control_plane.Index
use ao2_control_plane.Index.State.{IndexStoreError, IndexEntry, Storage}
use ao2_control_plane.Retention.{
  RetentionPolicy, RetentionCandidate, StorageError, retention_candidates,
}
use ao2_control_plane.Retention.Report.{
  RetentionKindReport, RetentionReport, Totals, max_prune_candidates,
}

unfoldable pub files_of : List RetentionKindReport → ℕ
files_of [] = 0
files_of (r ∷ rs) = r.bundle_files + files_of rs

abbrev pub names_of : List RetentionKindReport → List String
names_of rs = map (λ r. r.kind) rs

-- What a successful loop over the kinds has summed, and the kinds that it went through.
abbrev Sums : List BundleKind → ℕ → Result BundleStoreError Totals → Type 0
Sums kinds files (ok (f, b, rs)) = (f ≡ files + files_of rs) × (names_of rs ≡ map subdir kinds)
Sums kinds files (err e) = Unit {0}

-- The totals with one more report before them.
add_report :
    RetentionKindReport
    → Result BundleStoreError Totals
    → Host
    → Result BundleStoreError Totals × Host
add_report r m = continue m (λ t g. (ok (t.0, t.1, r ∷ t.2), g))

-- The report of a kind has its name.
abbrev Named : BundleKind → Result BundleStoreError RetentionKindReport → Type 0
Named kind (ok r) = r.kind ≡ subdir kind
Named kind (err e) = Unit {0}

-- What a report says of its kinds and of the candidates.
abbrev pub IsConsistent : List RetentionCandidate → RetentionReport → Type 0
IsConsistent candidates r =
    (names_of r.kinds ≡ map subdir all_bundle_kinds)
    × (r.total_bundle_files ≡ files_of r.kinds)
    × (r.total_prune_candidates ≡ length candidates)
    × (r.prune_candidates ≡ take max_prune_candidates candidates)
    × (r.prune_candidates_truncated ≡ ltb max_prune_candidates (length candidates))

abbrev Good : List RetentionCandidate → Result StorageError RetentionReport → Type 0
Good candidates (ok r) = IsConsistent candidates r
Good candidates (err e) = Unit {0}

-- A report of the entries that were read.
abbrev Reported :
    RetentionPolicy
    → Result IndexStoreError (List IndexEntry)
    → Storage
    → Result StorageError RetentionReport
    → Type 0
Reported policy m t (ok r) =
    (entries : List IndexEntry) × (m ≡ ok entries)
    × IsConsistent (retention_candidates entries policy t.host).0 r
Reported policy m t (err e) = Unit {0}
