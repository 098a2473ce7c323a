-- ===== src/Retention/Removal.antt =====
-- Which files a pruning touches.
use ao2_control_plane.Base.{
  drop, ℕ, ◌≡◌, ◌≢◌, refl, ◌∙◌, String, true, false, List, [], ◌∷◌, map, Option, some, none,
  contains, string_eq, ◌==◌, arith,
}
use ao2_control_plane.Disk.{Host, path_eq, lookup, metadata, read_file, read_on}
use ao2_control_plane.Bundle
use ao2_control_plane.Bundle.{path}
use ao2_control_plane.Bundle.Kind.{
  BundleKind, bundle_kind_from_subdir, all_prunable_primary_kinds, related_kinds,
}
use ao2_control_plane.Bundle.Reads.{lookup-remove_if_exists}
use ao2_control_plane.Index.State.{IndexEntry, Storage, Codec}
use ao2_control_plane.Index.{
  ensure_loaded, load_from_disk, file_fingerprint, ledger, read_all, load_opened,
}
use ao2_control_plane.Retention.{
  RetentionPolicy, RetentionCandidate, add_related, candidate, candidates_for, gather,
  retention_candidates, latest_of, remove_one, add_u64, remove_kinds, remove_candidates,
  prune_retention, carry_out, size_or_zero,
}

pub path_sha_ne : (j k : BundleKind) (s t : String) → s ≢ t → (path j s == path k t) ≡ false
unfolding path
path_sha_ne j k s t ne = ground arith

module _ (sha : String) (kind : BundleKind) (other : String) (ne : sha ≢ other) where
  remove_one-lookup :
      (o : Option BundleKind) (h : Host)
      → lookup (path kind other) (remove_one o sha h).1.files ≡ lookup (path kind other) h.files
  unfolding remove_one
  remove_one-lookup none h = refl
  remove_one-lookup (some k) h =
      ground (arith, lookup-remove_if_exists k kind sha other h, path_sha_ne k kind sha other ne)

  remove_kinds-lookup :
      (names : List String) (h : Host)
      → lookup (path kind other) (remove_kinds names sha h).1.files
        ≡ lookup (path kind other) h.files
  unfolding remove_kinds
  remove_kinds-lookup [] h = refl
  remove_kinds-lookup (name ∷ names) h =
      let o = bundle_kind_from_subdir name in
      ground (arith, remove_one-lookup o h, remove_kinds-lookup names (remove_one o sha h).1)

-- The removal of candidates changes no bundle of a digest that is not that of a candidate,
-- whatever calls fail.
pub remove_candidates-lookup :
    (cs : List RetentionCandidate) (kind : BundleKind) (sha : String) (h : Host)
    → contains (map (λ c. c.sha256) cs) sha ≡ false
    → lookup (path kind sha) (remove_candidates cs h).1.files ≡ lookup (path kind sha) h.files
unfolding remove_candidates
remove_candidates-lookup [] kind sha h e = refl
remove_candidates-lookup (c ∷ cs) kind sha h e = ground (
  arith,
  remove_kinds-lookup c.sha256 kind sha (ground arith) (c.kind ∷ c.related_bundle_kinds) h,
  remove_candidates-lookup cs kind sha
      (remove_kinds (c.kind ∷ c.related_bundle_kinds) c.sha256 h).1,
)

files-metadata : (h : Host) → (metadata ledger h).1.files ≡ h.files
unfolding metadata
files-metadata h = ground arith

files-exists :
    (kind : BundleKind) (sha : String) (h : Host) → (Bundle.exists kind sha h).1.files ≡ h.files
unfolding Bundle.exists metadata
files-exists kind sha h = ground arith

files-size :
    (kind : BundleKind) (sha : String) (h : Host) → (Bundle.size kind sha h).1.files ≡ h.files
unfolding Bundle.size metadata
files-size kind sha h = ground arith

files-add_related :
    (kinds : List BundleKind) (sha : String) (n : ℕ) (h : Host)
    → (add_related kinds sha n h).1.files ≡ h.files
unfolding add_related
files-add_related [] sha n h = refl
files-add_related (kind ∷ kinds) sha n h =
    let h₁ = (Bundle.exists kind sha h).1 in
    let h₂ = (Bundle.size kind sha h₁).1 in
    ground (
      arith,
      files-exists kind sha h,
      files-size kind sha h₁,
      files-add_related kinds sha n h₁,
      files-add_related kinds sha (add_u64 n (size_or_zero kind sha h₁).0) h₂,
    )

files-candidate :
    (kind : BundleKind) (e : IndexEntry) (h : Host) → (candidate kind e h).1.files ≡ h.files
unfolding candidate
files-candidate kind e h =
    files-add_related (related_kinds kind) e.sha256 (size_or_zero kind e.sha256 h).0
      (size_or_zero kind e.sha256 h).1
    ∙ files-size kind e.sha256 h

files-candidates_for :
    (kind : BundleKind) (es : List IndexEntry) (h : Host)
    → (candidates_for kind es h).1.files ≡ h.files
unfolding candidates_for
files-candidates_for kind [] h = refl
files-candidates_for kind (e ∷ es) h =
    files-candidates_for kind es (candidate kind e h).1 ∙ files-candidate kind e h

files-gather :
    (kinds : List BundleKind) (entries : List IndexEntry) (policy : RetentionPolicy) (h : Host)
    → (gather kinds entries policy h).1.files ≡ h.files
unfolding gather
files-gather [] entries policy h = refl
files-gather (kind ∷ kinds) entries policy h =
    let surplus = drop policy.keep_latest (latest_of kind entries) in
    files-gather kinds entries policy (candidates_for kind surplus h).1
    ∙ files-candidates_for kind surplus h

pub files-retention_candidates :
    (entries : List IndexEntry) (policy : RetentionPolicy) (h : Host)
    → (retention_candidates entries policy h).1.files ≡ h.files
unfolding retention_candidates
files-retention_candidates entries policy h =
    files-gather all_prunable_primary_kinds entries policy h

pub files-ensure_loaded :
    (c : Codec) (s : Storage) → (ensure_loaded c s).1.host.files ≡ s.host.files
unfolding ensure_loaded load_from_disk load_opened file_fingerprint metadata read_file read_on
files-ensure_loaded c s = ground arith

-- A dry run changes no file, whatever it reports and whatever calls fail.
pub files-prune_retention_dry :
    (c : Codec) (policy : RetentionPolicy) (s : Storage)
    → (prune_retention c policy true s).1.host.files ≡ s.host.files
unfolding prune_retention read_all carry_out
files-prune_retention_dry c policy s = ground (
  arith,
  files-ensure_loaded c s,
  files-retention_candidates (ensure_loaded c s).1.index.entries policy (ensure_loaded c s).1.host,
)
