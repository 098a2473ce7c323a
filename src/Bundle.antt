-- ===== src/Bundle.antt =====
-- `BundleStore` of crates/ao2-cp-storage/src/bundle.rs. The data directory is the root of the disk.
pub mod Kind
pub mod Atomic
pub mod Truncated
pub mod Reads
pub mod Calm
use ao2_control_plane.Base.{
  ℕ, ◌+◌, ◌%◌, ◌^◌, String, Bool, true, false, List, [], ◌∷◌, Option, none, some, Result, ok, err,
  Exec, ◌>>=◌, ◌>>◌, convert, is_ok,
}
use ao2_control_plane.Disk.{
  Host, FilePath, FileName, json, json_tmp, index_jsonl, index_jsonl_tmp, rejected_smoke_jsonl,
  Bytes, IoError, failed, create_dir_all, create, write_all, sync_data, rename, remove_file,
  read_file, metadata, dir_exists, read_dir,
}
use Kind.{BundleKind, subdir}

-- `NotFound` and `Io`.
pub data BundleStoreError : Type 0 where
  not_found : String → BundleStoreError
  io : IoError → BundleStoreError

abbrev pub Method {ℓ} : Type ℓ → Type ℓ
Method = Exec Host BundleStoreError

unfoldable pub path : BundleKind → String → FilePath
path kind sha256 = record { dir = subdir kind; name = json sha256 }

unfoldable pub tmp_path : BundleKind → String → ℕ → ℕ → FilePath
tmp_path kind sha256 pid unique = record { dir = subdir kind; name = json_tmp sha256 pid unique }

unfoldable pub write_tmp_then_rename : FilePath → FilePath → Bytes → Exec Host IoError (Unit {0})
write_tmp_then_rename tmp target bytes = do
  create tmp
  write_all tmp bytes
  sync_data
  rename tmp target

-- On an error the temporary file is removed, if that succeeds, and the error is returned.
abbrev pub clean_up : FilePath → Result IoError (Unit {0}) × Host → Result IoError (Unit {0}) × Host
clean_up tmp (ok a, h) = (ok a, h)
clean_up tmp (err e, h) = (err e, (remove_file tmp h).1)

-- `fetch_add(1)` on the counter, which wraps around at 2^64.
abbrev pub fetch_add : Host → Host
fetch_add h = record h { write_counter = (h.write_counter + 1) % 2 ^ 64 }

pub publish : BundleKind → String → Bytes → Exec Host IoError (Unit {0})
publish kind sha256 bytes h =
    let tmp = tmp_path kind sha256 h.pid h.write_counter in
    clean_up tmp (write_tmp_then_rename tmp (path kind sha256) bytes (fetch_add h))

unfoldable pub write : BundleKind → String → Bytes → Method (Unit {0})
unfolding publish
write kind sha256 bytes = do convert io create_dir_all; convert io (publish kind sha256 bytes)

-- `NotFound` of the file system names the bundle, any other error is passed on.
abbrev pub named : String → IoError → BundleStoreError
named sha256 IoError.not_found = not_found sha256
named sha256 failed = io failed

unfoldable pub read : BundleKind → String → Method Bytes
unfolding path read_file
read kind sha256 = convert (named sha256) (read_file (path kind sha256))

unfoldable pub exists : BundleKind → String → Host → Bool × Host
unfolding path metadata
exists kind sha256 h = let (r, h') = metadata (path kind sha256) h in (is_ok r, h')

unfoldable pub size : BundleKind → String → Method ℕ
unfolding path metadata
size kind sha256 = do
  (len, modified) ← convert (named sha256) (metadata (path kind sha256))
  λ h. (ok len, h)

abbrev removed : Result IoError (Unit {0}) → Result BundleStoreError Bool
removed (ok a) = ok true
removed (err IoError.not_found) = ok false
removed (err failed) = err (io failed)

unfoldable pub remove_if_exists : BundleKind → String → Method Bool
unfolding path remove_file
remove_if_exists kind sha256 h = let (r, h') = remove_file (path kind sha256) h in (removed r, h')

-- `name.strip_suffix(".json")`
abbrev pub published : List FileName → List String
published [] = []
published (json sha ∷ names) = sha ∷ published names
published (json_tmp sha pid unique ∷ names) = published names
published (index_jsonl ∷ names) = published names
published (index_jsonl_tmp ∷ names) = published names
published (rejected_smoke_jsonl ∷ names) = published names

unfoldable pub list : BundleKind → Method (List String)
unfolding dir_exists read_dir
list kind h =
    let (there, h') = dir_exists (subdir kind) h in
    elim there [
      | false ↦ (ok [], h')
      | true ↦ (do names ← convert io (read_dir (subdir kind)); λ g. (ok (published names), g)) h'
    ]
