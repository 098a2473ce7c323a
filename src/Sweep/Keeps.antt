-- ===== src/Sweep/Keeps.antt =====
-- What the start of a storage leaves alone.
use ao2_control_plane.Base.{
  ◌≡◌, ◌≢◌, refl, ap, ◌∙◌, String, true, false, List, [], ◌∷◌, map, contains, string_eq, arith,
  Result, ok, err, continue, map_err, Bool-cases, inl, inr,
}
use ao2_control_plane.Disk.{
  Host, path_eq, lookup, remove_file, create_dir_all, dir_exists, read_dir,
}
use ao2_control_plane.Disk.Laws.{remove_file-lookup}
use ao2_control_plane.Bundle
use ao2_control_plane.Bundle.{BundleStoreError, path}
use ao2_control_plane.Bundle.Kind.{BundleKind, kind_eq, subdir, swept_kinds}
use ao2_control_plane.Bundle.Kind.Names.{subdir_injective}
use ao2_control_plane.Index.State.{Storage, Codec, initial_state}
use ao2_control_plane.Index.{read_all, ensure_loaded}
use ao2_control_plane.Retention.Removal.{files-ensure_loaded, path_sha_ne}
use ao2_control_plane.Sweep.{remove_unknown, sweep_kind, sweep_kinds, sweep_orphans, open_storage}
use ao2_control_plane.Retention.{bundle}

files-list : (kind : BundleKind) (h : Host) → (Bundle.list kind h).1.files ≡ h.files
unfolding Bundle.list dir_exists read_dir
files-list kind h = ground arith

module _ (known : List String) (kind : BundleKind) (sha : String)
    (is_known : contains known sha ≡ true) where
  remove_unknown-lookup :
      (k : BundleKind) (listed : List String) (h : Host)
      → lookup (path kind sha) (remove_unknown k known listed h).1.files
        ≡ lookup (path kind sha) h.files
  unfolding remove_unknown
  remove_unknown-lookup k [] h = refl
  remove_unknown-lookup k (other ∷ listed) h = elim (Bool-cases (contains known other)) [
    | inl yes_known ↦ ground (arith, remove_unknown-lookup k listed h)
    | inr unknown ↦
        let ne : other ≢ sha = λ e. ground (arith, ap (contains known) e) in
        ground (
          arith,
          remove_unknown-lookup k listed (remove_file (path k other) h).1,
          remove_file-lookup (path k other) h (path kind sha),
          path_sha_ne k kind other sha ne,
        )
  ]

  after_list :
      (k : BundleKind) (r : Result BundleStoreError (List String)) (h : Host)
      → lookup (path kind sha) (continue (map_err bundle r) (remove_unknown k known) h).1.files
        ≡ lookup (path kind sha) h.files
  after_list k (ok listed) h = remove_unknown-lookup k listed h
  after_list k (err e) h = refl

  sweep_kind-lookup :
      (k : BundleKind) (h : Host)
      → lookup (path kind sha) (sweep_kind k known h).1.files ≡ lookup (path kind sha) h.files
  unfolding sweep_kind
  sweep_kind-lookup k h =
      after_list k (Bundle.list k h).0 (Bundle.list k h).1
      ∙ ap (lookup (path kind sha)) (files-list k h)

  sweep_kinds-lookup :
      (kinds : List BundleKind) (h : Host)
      → lookup (path kind sha) (sweep_kinds kinds known h).1.files ≡ lookup (path kind sha) h.files
  unfolding sweep_kinds
  sweep_kinds-lookup [] h = refl
  sweep_kinds-lookup (k ∷ kinds) h =
      ground (arith, sweep_kind-lookup k h, sweep_kinds-lookup kinds (sweep_kind k known h).1)

module _ (known : List String) (kind : BundleKind) (sha : String) where
  remove_unknown-lookup_ne :
      (k : BundleKind) (listed : List String) (h : Host)
      → k ≢ kind
      → lookup (path kind sha) (remove_unknown k known listed h).1.files
        ≡ lookup (path kind sha) h.files
  unfolding remove_unknown path
  remove_unknown-lookup_ne k [] h ne = refl
  remove_unknown-lookup_ne k (other ∷ listed) h ne =
      let names : subdir k ≢ subdir kind = λ e. ne (subdir_injective k kind e) in
      ground (
        arith,
        remove_unknown-lookup_ne k listed h ne,
        remove_unknown-lookup_ne k listed (remove_file (path k other) h).1 ne,
        remove_file-lookup (path k other) h (path kind sha),
      )

  after_list_ne :
      (k : BundleKind) (r : Result BundleStoreError (List String)) (h : Host)
      → k ≢ kind
      → lookup (path kind sha) (continue (map_err bundle r) (remove_unknown k known) h).1.files
        ≡ lookup (path kind sha) h.files
  after_list_ne k (ok listed) h ne = remove_unknown-lookup_ne k listed h ne
  after_list_ne k (err e) h ne = refl

  sweep_kind-lookup_ne :
      (k : BundleKind) (h : Host)
      → k ≢ kind
      → lookup (path kind sha) (sweep_kind k known h).1.files ≡ lookup (path kind sha) h.files
  unfolding sweep_kind
  sweep_kind-lookup_ne k h ne =
      after_list_ne k (Bundle.list k h).0 (Bundle.list k h).1 ne
      ∙ ap (lookup (path kind sha)) (files-list k h)

  sweep_kinds-lookup_ne :
      (kinds : List BundleKind) (h : Host)
      → contains kinds kind ≡ false
      → lookup (path kind sha) (sweep_kinds kinds known h).1.files ≡ lookup (path kind sha) h.files
  unfolding sweep_kinds
  sweep_kinds-lookup_ne [] h e = refl
  sweep_kinds-lookup_ne (k ∷ kinds) h e =
      ground (arith, sweep_kind-lookup_ne k h, sweep_kinds-lookup_ne kinds (sweep_kind k known h).1)

files-create_dir_all : (h : Host) → (create_dir_all h).1.files ≡ h.files
unfolding create_dir_all
files-create_dir_all h = ground arith

-- The same for what the start sweeps with, once it has made the directory.
sweep-lookup :
    (known : List String) (kind : BundleKind) (sha : String) (h : Host)
    → contains known sha ≡ true
    → lookup (path kind sha) (sweep_kinds swept_kinds known h).1.files
      ≡ lookup (path kind sha) h.files
sweep-lookup known kind sha h is_known = sweep_kinds-lookup known kind sha is_known swept_kinds h

-- The storage whose ledger the start reads.
abbrev created : Host → Storage
created h = record { host = (create_dir_all h).1; index = initial_state }

-- A start removes no bundle whose digest is in the index that it loads, whatever calls fail.
pub open_storage-lookup :
    (c : Codec) (h : Host) (kind : BundleKind) (sha : String)
    → contains (map (λ e. e.sha256) (open_storage c h).1.index.entries) sha ≡ true
    → lookup (path kind sha) (open_storage c h).1.host.files ≡ lookup (path kind sha) h.files
unfolding open_storage sweep_orphans read_all
open_storage-lookup c h kind sha is_known =
    let t = (ensure_loaded c (created h)).1 in
    ground (
      arith,
      files-create_dir_all h,
      files-ensure_loaded c (created h),
      sweep-lookup (map (λ e. e.sha256) t.index.entries) kind sha t.host,
    )

-- A start never changes the bundles of a kind that is not among those that it sweeps, whatever
-- calls fail.
pub open_storage-lookup_unswept :
    (c : Codec) (h : Host) (kind : BundleKind) (sha : String)
    → contains swept_kinds kind ≡ false
    → lookup (path kind sha) (open_storage c h).1.host.files ≡ lookup (path kind sha) h.files
unfolding open_storage sweep_orphans read_all
open_storage-lookup_unswept c h kind sha unswept =
    let t = (ensure_loaded c (created h)).1 in
    ground (
      arith,
      files-create_dir_all h,
      files-ensure_loaded c (created h),
      sweep_kinds-lookup_ne (map (λ e. e.sha256) t.index.entries) kind sha swept_kinds t.host
          unswept,
    )
