-- ===== src/Disk/Calm.antt =====
-- The calls when the file system answers them all.
use ao2_control_plane.Base.{ℕ, ◌≡◌, ok, Option, [], ◌++◌, none, some, arith, false}
use ao2_control_plane.Disk.{
  FilePath, File, Bytes, Host, path_eq, lookup, open_append, write_all, sync_data, create_dir_all,
}
use ao2_control_plane.Disk.Laws.{lookup-insert}

abbrev pub opened_file : Option File → Option ℕ → File
opened_file none now = record { content = []; modified = now }
opened_file (some f) now = f

pub open_append_calm :
    (p : FilePath) (h : Host)
    → h.faults ≡ []
    → ((open_append p h).0 ≡ ok tt)
      × ((open_append p h).1.faults ≡ [])
      × ((open_append p h).1.now ≡ h.now)
      × ((open_append p h).1.stored ≡ false)
      × (lookup p (open_append p h).1.files ≡ some (opened_file (lookup p h.files) h.now))
unfolding open_append
open_append_calm p h calm =
    ground (arith, lookup-insert p p (record { content = []; modified = h.now }) h.files)

pub write_all_calm :
    (p : FilePath) (bytes : Bytes) (h : Host) (f : File)
    → h.faults ≡ []
    → h.stored ≡ false
    → lookup p h.files ≡ some f
    → ((write_all p bytes h).0 ≡ ok tt)
      × ((write_all p bytes h).1.faults ≡ [])
      × ((write_all p bytes h).1.now ≡ h.now)
      × ((write_all p bytes h).1.stored ≡ false)
      × (lookup p (write_all p bytes h).1.files
          ≡ some (record { content = f.content ++ bytes; modified = h.now }))
unfolding write_all
write_all_calm p bytes h f calm fresh e =
    ground
      (arith, lookup-insert p p (record { content = f.content ++ bytes; modified = h.now }) h.files)

pub sync_data_calm : (h : Host) → h.faults ≡ [] → sync_data h ≡ (ok tt, h)
unfolding sync_data
sync_data_calm h calm = ground arith

pub create_dir_all_calm : (h : Host) → h.faults ≡ [] → create_dir_all h ≡ (ok tt, h)
unfolding create_dir_all
create_dir_all_calm h calm = ground arith
