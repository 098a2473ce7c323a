-- ===== src/Bundle/Calm.antt =====
-- `write` when the file system answers every call.
use ao2_control_plane.Base.{◌≡◌, ◌≢◌, String, ok, [], some, arith}
use ao2_control_plane.Disk.{
  Host, File, FilePath, Bytes, path_eq, lookup, create, write_all, sync_data, create_dir_all,
  rename, insert, erase,
}
use ao2_control_plane.Disk.Laws.{lookup-insert, lookup-erase}
use ao2_control_plane.Bundle.Kind.{BundleKind}
use ao2_control_plane.Bundle.{path, tmp_path, write_tmp_then_rename, write, publish, fetch_add}

write_tmp_then_rename_calm :
    (tmp target : FilePath) (bytes : Bytes) (h : Host)
    → h.faults ≡ []
    → ((write_tmp_then_rename tmp target bytes h).0 ≡ ok tt)
      × ((write_tmp_then_rename tmp target bytes h).1.faults ≡ [])
unfolding write_tmp_then_rename create write_all sync_data rename
write_tmp_then_rename_calm tmp target bytes h calm = ground (
  arith,
  lookup-insert tmp tmp (record { content = []; modified = h.now }) h.files,
  lookup-insert tmp tmp (record { content = bytes; modified = h.now })
      (insert tmp (record { content = []; modified = h.now }) h.files),
)

pub write_calm :
    (kind : BundleKind) (sha256 : String) (bytes : Bytes) (h : Host)
    → h.faults ≡ []
    → ((write kind sha256 bytes h).0 ≡ ok tt) × ((write kind sha256 bytes h).1.faults ≡ [])
unfolding write publish create_dir_all
write_calm kind sha256 bytes h calm = ground (
  arith,
  write_tmp_then_rename_calm (tmp_path kind sha256 h.pid h.write_counter) (path kind sha256) bytes
      (fetch_add h),
)

module _ (tmp target : FilePath) (bytes : Bytes) (h : Host) where
  write_tmp_then_rename-spares :
      (q : FilePath)
      → h.faults ≡ []
      → tmp ≢ q
      → target ≢ q
      → lookup q (write_tmp_then_rename tmp target bytes h).1.files ≡ lookup q h.files
  unfolding write_tmp_then_rename create write_all sync_data rename
  write_tmp_then_rename-spares q calm t p =
      let f : File = record { content = []; modified = h.now } in
      let g : File = record { content = bytes; modified = h.now } in
      let fs = insert tmp f h.files in
      ground (
        arith,
        lookup-insert tmp q f h.files,
        lookup-insert tmp tmp f h.files,
        lookup-insert tmp q g fs,
        lookup-insert tmp tmp g fs,
        lookup-erase tmp q (insert tmp g fs),
        lookup-insert target q g (erase tmp (insert tmp g fs)),
      )

module _ (tmp target : FilePath) (bytes : Bytes) (h : Host) where
  write_tmp_then_rename-whole :
      h.faults ≡ []
      → lookup target (write_tmp_then_rename tmp target bytes h).1.files
        ≡ some (record { content = bytes; modified = h.now })
  unfolding write_tmp_then_rename create write_all sync_data rename
  write_tmp_then_rename-whole calm =
      let f : File = record { content = []; modified = h.now } in
      let g : File = record { content = bytes; modified = h.now } in
      let fs = insert tmp f h.files in
      ground (
        arith,
        lookup-insert tmp tmp f h.files,
        lookup-insert tmp tmp g fs,
        lookup-insert target target g (erase tmp (insert tmp g fs)),
      )

pub write_calm-whole :
    (kind : BundleKind) (sha256 : String) (bytes : Bytes) (h : Host)
    → h.faults ≡ []
    → lookup (path kind sha256) (write kind sha256 bytes h).1.files
      ≡ some (record { content = bytes; modified = h.now })
unfolding write publish create_dir_all
write_calm-whole kind sha256 bytes h calm =
    let tmp = tmp_path kind sha256 h.pid h.write_counter in
    ground (
      arith,
      write_tmp_then_rename_calm tmp (path kind sha256) bytes (fetch_add h),
      write_tmp_then_rename-whole tmp (path kind sha256) bytes (fetch_add h),
    )

-- A file that is no bundle stays as it is.
pub write_calm-spares :
    (kind : BundleKind) (sha256 : String) (bytes : Bytes) (h : Host) (q : FilePath)
    → h.faults ≡ []
    → tmp_path kind sha256 h.pid h.write_counter ≢ q
    → path kind sha256 ≢ q
    → lookup q (write kind sha256 bytes h).1.files ≡ lookup q h.files
unfolding write publish create_dir_all
write_calm-spares kind sha256 bytes h q calm t p =
    let tmp = tmp_path kind sha256 h.pid h.write_counter in
    ground (
      arith,
      write_tmp_then_rename_calm tmp (path kind sha256) bytes (fetch_add h),
      write_tmp_then_rename-spares tmp (path kind sha256) bytes (fetch_add h) q,
    )
