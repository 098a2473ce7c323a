-- ===== src/Index.antt =====
-- `IndexStore` of crates/ao2-cp-storage/src/index.rs: the append-only ledger with its resident copy.
pub mod State
pub mod Load
pub mod Lines
pub mod Coherence
pub mod Append
pub mod Torn
pub mod Page
use ao2_control_plane.Base.{
  ℕ, String, Bool, true, false, ◌&&◌, List, [], ◌∷◌, ◌++◌, map, Option, none, some, Result, ok, err,
  Exec, ◌>>=◌, ◌>>◌, convert, modify, map_err, contains, string_eq, nat_eq, option_eq, ◌==◌,
  if◌then◌else◌, length,
}
use ao2_control_plane.Disk.{
  Host, File, FilePath, index_jsonl, index_jsonl_tmp, Bytes, IoError, not_found, failed, lookup,
  create_dir_all, create, open_append, write_all, sync_data, read_on, rename, read_file, metadata,
}
use State.{
  IndexEntry, IndexState, Storage, IndexStoreError, io, invalid_sha256, Codec, is_valid_sha256_hex,
}
use Load.{Loaded, load_file, nothing, load_lines, lines_from}

abbrev pub Method {ℓ} : Type ℓ → Type ℓ
Method = Exec Storage IndexStoreError

abbrev pub ledger : FilePath
ledger = record { dir = ""; name = index_jsonl }

abbrev pub ledger_tmp : FilePath
ledger_tmp = record { dir = ""; name = index_jsonl_tmp }

abbrev pub on_host {ℓ} : {A : Type ℓ} → Exec Host IoError A → Method A
on_host m s = let (r, h) = m s.host in (map_err io r, record s { host = h })

unfoldable pub validate_entry_sha256 : IndexEntry → Result IndexStoreError (Unit {0})
validate_entry_sha256 e =
    if is_valid_sha256_hex e.sha256 then ok tt else err (invalid_sha256 e.sha256)

-- The length and the modification time of the ledger; a missing one has length 0.
abbrev pub or_missing : Result IoError (ℕ × Option ℕ) → Result IoError (ℕ × Option ℕ)
or_missing (ok fingerprint) = ok fingerprint
or_missing (err not_found) = ok (0, none)
or_missing (err failed) = err failed

unfoldable pub file_fingerprint : Exec Host IoError (ℕ × Option ℕ)
file_fingerprint h = let (r, h') = metadata ledger h in (or_missing r, h')

-- `collect` into a hash set.
unfoldable pub insert_digest : String → List String → List String
insert_digest sha set = if contains set sha then set else sha ∷ set

unfoldable pub digests : List IndexEntry → List String
unfolding insert_digest
digests [] = []
digests (e ∷ es) = insert_digest e.sha256 (digests es)

pub record IndexLoad : Type 0 where
  pub lines : Loaded
  pub jsonl_bytes : ℕ
  pub jsonl_modified_unix_nanos : Option ℕ

abbrev pub no_file : IndexLoad
no_file = record { lines = nothing; jsonl_bytes = 0; jsonl_modified_unix_nanos = none }

-- A line that is no UTF-8 is an error of the reader.
abbrev pub or_invalid : Option Loaded → ℕ × Option ℕ → Result IoError IndexLoad
or_invalid none fingerprint = err failed
or_invalid (some l) (len, modified) =
    ok (record { lines = l; jsonl_bytes = len; jsonl_modified_unix_nanos = modified })

abbrev pub resident : IndexLoad → IndexState
resident l = record {
  loaded = true;
  entries = l.lines.entries;
  digest_index = digests l.lines.entries;
  jsonl_bytes = l.jsonl_bytes;
  jsonl_modified_unix_nanos = l.jsonl_modified_unix_nanos;
  malformed_lines_skipped = l.lines.malformed_lines_skipped;
  invalid_sha256_lines_skipped = l.lines.invalid_sha256_lines_skipped;
}

-- The test by which a resident copy is taken to be that of the file.
unfoldable pub is_current : IndexState → ℕ × Option ℕ → Bool
unfolding nat_eq option_eq
is_current state (len, modified) =
    state.loaded && (state.jsonl_bytes == len && state.jsonl_modified_unix_nanos == modified)

pub record IndexMetrics : Type 0 where
  pub resident_entries : ℕ
  pub resident_unique_sha256 : ℕ
  pub resident_digest_index_entries : ℕ
  pub jsonl_bytes : ℕ
  pub malformed_lines_skipped : ℕ
  pub invalid_sha256_lines_skipped : ℕ

abbrev pub measured : IndexState → IndexMetrics
measured state = record {
  resident_entries = length state.entries;
  resident_unique_sha256 = length state.digest_index;
  resident_digest_index_entries = length state.digest_index;
  jsonl_bytes = state.jsonl_bytes;
  malformed_lines_skipped = state.malformed_lines_skipped;
  invalid_sha256_lines_skipped = state.invalid_sha256_lines_skipped;
}

-- What `rewrite` assigns before it reads the fingerprint, and after.
abbrev pub replaced : List IndexEntry → IndexState → IndexState
replaced entries state = record state {
  loaded = true;
  entries = entries;
  digest_index = digests entries;
}

abbrev pub forgotten : IndexState → IndexState
forgotten state = record state { malformed_lines_skipped = 0; invalid_sha256_lines_skipped = 0 }

-- The last part of both ways to append: the entry becomes resident, then the fingerprint is read.
abbrev pub remember : IndexEntry → IndexState → IndexState
remember e state = record state {
  digest_index = insert_digest e.sha256 state.digest_index;
  entries = state.entries ++ e ∷ [];
}

abbrev pub stamped : ℕ × Option ℕ → IndexState → IndexState
stamped (len, modified) state = record state {
  jsonl_bytes = len;
  jsonl_modified_unix_nanos = modified;
}

module _ (c : Codec) where
  unfoldable pub load_opened :
      ℕ × Option ℕ → Result IoError Bytes → Host → Result IoError IndexLoad × Host
  load_opened fingerprint (ok content) h =
      let (r, h') = read_on h in
      (
        elim r [
          | ok done ↦ or_invalid (load_lines c (lines_from [] content) nothing) fingerprint
          | err e ↦ err e
        ],
        h',
      )
  load_opened fingerprint (err not_found) h = (ok no_file, h)
  load_opened fingerprint (err failed) h = (err failed, h)

  unfoldable pub load_from_disk : Exec Host IoError IndexLoad
  unfolding load_opened
  load_from_disk = do
    fingerprint ← file_fingerprint
    λ h. let (r, h') = read_file ledger h in load_opened fingerprint r h'

  unfoldable pub ensure_loaded : Method (Unit {0})
  ensure_loaded = do
    fingerprint ← on_host file_fingerprint
    λ s.
        if is_current s.index fingerprint
        then (ok tt, s)
        else (do l ← on_host load_from_disk; λ t. (ok tt, record t { index = resident l })) s

  unfoldable pub append_inner : IndexEntry → Method (Unit {0})
  append_inner e = do
    λ s. (validate_entry_sha256 e, s)
    on_host create_dir_all
    on_host (open_append ledger)
    on_host (write_all ledger (c.print e))
    on_host (write_all ledger (b'\n' ∷ []))
    on_host sync_data

  unfoldable pub append_checked : IndexEntry → Method (Unit {0})
  append_checked e = do
    append_inner e
    modify (λ s. record s { index = remember e s.index })
    fingerprint ← on_host file_fingerprint
    modify (λ s. record s { index = stamped fingerprint s.index })

  unfoldable pub append : IndexEntry → Method (Unit {0})
  append e = do ensure_loaded; append_checked e

  -- `true` if the entry is new, `false` if its digest is known and nothing was appended.
  unfoldable pub append_if_absent : IndexEntry → Method Bool
  append_if_absent e = do
    ensure_loaded
    λ s.
        if contains s.index.digest_index e.sha256
        then (ok false, s)
        else (do append_checked e; λ t. (ok true, t)) s

  unfoldable pub read_all : Method (List IndexEntry)
  read_all = do ensure_loaded; λ s. (ok s.index.entries, s)

  -- `metrics`, without the name of its schema.
  unfoldable pub metrics : Method IndexMetrics
  metrics = do ensure_loaded; λ s. (ok (measured s.index), s)

  unfoldable pub write_entries : List IndexEntry → Exec Host IoError (Unit {0})
  unfolding write_all
  write_entries [] = modify (λ h. h)
  write_entries (e ∷ es) = do
    write_all ledger_tmp (c.print e)
    write_all ledger_tmp (b'\n' ∷ [])
    write_entries es

  unfoldable pub validate_all : List IndexEntry → Result IndexStoreError (Unit {0})
  unfolding validate_entry_sha256
  validate_all [] = ok tt
  validate_all (e ∷ es) = elim (validate_entry_sha256 e) [ ok u ↦ validate_all es | err x ↦ err x ]

  unfoldable pub rewrite : List IndexEntry → Method (Unit {0})
  rewrite entries = do
    λ s. (validate_all entries, s)
    on_host create_dir_all
    on_host (create ledger_tmp)
    on_host (write_entries entries)
    on_host sync_data
    on_host (rename ledger_tmp ledger)
    modify (λ s. record s { index = replaced entries s.index })
    fingerprint ← on_host file_fingerprint
    modify (λ s. record s { index = forgotten (stamped fingerprint s.index) })
