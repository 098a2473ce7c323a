-- ===== src/Bundle/Truncated.antt =====
-- The write of a bundle that failed in the background.
use ao2_control_plane.Base.{ℕ, ◌≡◌, String, ok, [], ◌∷◌, none, some, false, take, arith}
use ao2_control_plane.Disk.{
  Host, File, FilePath, Bytes, path_eq, lookup, create, write_all, sync_data, create_dir_all,
  rename, insert, erase,
}
use ao2_control_plane.Disk.Laws.{lookup-insert}
use ao2_control_plane.Bundle.Kind.{BundleKind}
use ao2_control_plane.Bundle.{path, tmp_path, write_tmp_then_rename, write, publish, fetch_add}

module _ (tmp target : FilePath) (bytes : Bytes) (n : ℕ) (h : Host) where
  renames_truncated :
      h.faults ≡ none ∷ some n ∷ []
      → h.reports bytes n ≡ false
      → ((write_tmp_then_rename tmp target bytes h).0 ≡ ok tt)
        × (lookup target (write_tmp_then_rename tmp target bytes h).1.files
            ≡ some (record { content = take n bytes; modified = h.now }))
  unfolding write_tmp_then_rename create write_all sync_data rename
  renames_truncated fates silent =
      let f : File = record { content = []; modified = h.now } in
      let g : File = record { content = take n bytes; modified = h.now } in
      let fs = insert tmp f h.files in
      ground (
        arith,
        lookup-insert tmp tmp f h.files,
        lookup-insert tmp tmp g fs,
        lookup-insert target target g (erase tmp (insert tmp g fs)),
      )

-- If the first two calls are well, the write of the bytes fails after `n` of them without saying so,
-- and nothing else fails, then `write` returns `Ok` and the bundle has the first `n` bytes.
pub truncated_write_is_ok :
    (kind : BundleKind) (sha256 : String) (bytes : Bytes) (n : ℕ) (h : Host)
    → h.faults ≡ none ∷ none ∷ some n ∷ []
    → h.reports bytes n ≡ false
    → ((write kind sha256 bytes h).0 ≡ ok tt)
      × (lookup (path kind sha256) (write kind sha256 bytes h).1.files
          ≡ some (record { content = take n bytes; modified = h.now }))
unfolding write publish create_dir_all
truncated_write_is_ok kind sha256 bytes n h fates silent =
    let h₁ = (create_dir_all h).1 in
    let tmp = tmp_path kind sha256 h.pid h.write_counter in
    ground (arith, renames_truncated tmp (path kind sha256) bytes n (fetch_add h₁))
