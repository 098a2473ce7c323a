-- ===== src/Sweep.antt =====
-- `Storage::open` and `sweep_orphans` of crates/ao2-cp-storage/src/lib.rs: what a start removes.
pub mod Keeps
use ao2_control_plane.Base.{
  ℕ, String, Bool, true, false, not, List, [], ◌∷◌, map, Option, none, some, Result, ok, err, Exec,
  ◌>>=◌, ◌>>◌, convert, contains, string_eq, if◌then◌else◌,
}
use ao2_control_plane.Disk.{Host, IoError, create_dir_all, remove_file}
use ao2_control_plane.Bundle
use ao2_control_plane.Bundle.{BundleStoreError, path}
use ao2_control_plane.Bundle.Kind.{BundleKind, swept_kinds}
use ao2_control_plane.Index
use ao2_control_plane.Index.State.{Storage, Codec, initial_state}
use ao2_control_plane.Retention.{StorageError, Method, on_index}

-- The removal of the listed bundles whose digest is not known.
unfoldable pub remove_unknown :
    BundleKind → List String → List String → Exec Host StorageError (Unit {0})
unfolding path remove_file
remove_unknown kind known [] h = (ok tt, h)
remove_unknown kind known (sha ∷ listed) h =
    (if contains known sha
      then remove_unknown kind known listed h
      else (do
        convert StorageError.io (remove_file (path kind sha))
        remove_unknown kind known listed)
          h)

unfoldable pub sweep_kind : BundleKind → List String → Exec Host StorageError (Unit {0})
unfolding remove_unknown
sweep_kind kind known = do
  listed ← convert StorageError.bundle (Bundle.list kind)
  remove_unknown kind known listed

unfoldable pub sweep_kinds : List BundleKind → List String → Exec Host StorageError (Unit {0})
unfolding sweep_kind
sweep_kinds [] known h = (ok tt, h)
sweep_kinds (kind ∷ kinds) known h = (do sweep_kind kind known; sweep_kinds kinds known) h

-- A method of the host, on the storage.
abbrev pub on_disk : Exec Host StorageError (Unit {0}) → Method (Unit {0})
on_disk m s = let (r, h) = m s.host in (r, record s { host = h })

module _ (c : Codec) where
  unfoldable pub sweep_orphans : Method (Unit {0})
  unfolding sweep_kinds
  sweep_orphans = do
    entries ← on_index (Index.read_all c)
    on_disk (sweep_kinds swept_kinds (map (λ e. e.sha256) entries))

  -- The bundle store has no state of its own, and the index starts without one.
  unfoldable pub open_storage : Host → Result StorageError (Unit {0}) × Storage
  unfolding sweep_orphans
  open_storage h =
      (do on_disk (convert StorageError.io create_dir_all); sweep_orphans)
        (record { host = h; index = initial_state })
