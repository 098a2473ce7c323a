-- ===== src/Index/Coherence.antt =====
-- The resident copy follows the file, as long as the file system answers.
use ao2_control_plane.Base.{
  ℕ, ◌≡◌, refl, true, String, List, [], ◌∷◌, ◌++◌, map, Option, none, some, ok, contains, string_eq,
  nat_eq, option_eq, arith, length, Bool-cases, inl, inr,
}
use ao2_control_plane.Disk.{
  Host, File, Bytes, lookup, metadata, read_file, read_on, open_append, write_all,
}
use ao2_control_plane.Disk.Calm.{
  open_append_calm, write_all_calm, sync_data_calm, create_dir_all_calm, opened_file,
}
use ao2_control_plane.Index.State.{IndexEntry, IndexState, Storage, Codec, is_valid_sha256_hex}
use ao2_control_plane.Index.Load.{Loaded, load_file}
use ao2_control_plane.Index.Lines.{ends_line}
use ao2_control_plane.Index.{
  ledger, is_current, ensure_loaded, load_from_disk, resident, digests, insert_digest,
  file_fingerprint, append_inner, validate_entry_sha256,
}

abbrev pub content_of : Option File → Bytes
content_of none = []
content_of (some f) = f.content

abbrev pub fingerprint_of : Option File → ℕ × Option ℕ
fingerprint_of none = (0, none)
fingerprint_of (some f) = (length f.content, f.modified)

abbrev pub view : IndexState → Loaded
view state = record {
  entries = state.entries;
  malformed_lines_skipped = state.malformed_lines_skipped;
  invalid_sha256_lines_skipped = state.invalid_sha256_lines_skipped;
}

abbrev pub shas : List IndexEntry → List String
shas = map (λ e. e.sha256)

-- The resident copy is that of the file, and its digests are those of its entries.
pub record Holds (l : Loaded) (s : Storage) : Type 0 where
  pub seen : view s.index ≡ l
  pub known : (sha : String) → contains s.index.digest_index sha ≡ contains (shas l.entries) sha

pub record IsCoherent (c : Codec) (s : Storage) : Type 0 where
  pub finished : ends_line (content_of (lookup ledger s.host.files)) ≡ true
  pub current :
      is_current s.index (fingerprint_of (lookup ledger s.host.files)) ≡ true
      → (l : Loaded) → load_file c (lookup ledger s.host.files) ≡ some l
      → Holds l s

contains-digests :
    (es : List IndexEntry) (sha : String) → contains (digests es) sha ≡ contains (shas es) sha
unfolding digests insert_digest
contains-digests [] sha = refl
contains-digests (e ∷ es) sha =
    ground (arith, contains-digests es sha, contains-digests es e.sha256)

pub fingerprint_calm :
    (h : Host)
    → h.faults ≡ []
    → file_fingerprint h ≡ (ok (fingerprint_of (lookup ledger h.files)), h)
unfolding file_fingerprint metadata
fingerprint_calm h calm = ground arith

pub load_calm :
    (c : Codec) (h : Host) (l : Loaded)
    → h.faults ≡ []
    → load_file c (lookup ledger h.files) ≡ some l
    → load_from_disk c h ≡ (
      ok (record {
        lines = l;
        jsonl_bytes = (fingerprint_of (lookup ledger h.files)).0;
        jsonl_modified_unix_nanos = (fingerprint_of (lookup ledger h.files)).1;
      }),
      h,
    )
unfolding load_from_disk load_file metadata read_file read_on file_fingerprint
load_calm c h l calm e = ground arith

abbrev pub loaded_state : Loaded → Option File → IndexState
loaded_state l f = resident (record {
  lines = l;
  jsonl_bytes = (fingerprint_of f).0;
  jsonl_modified_unix_nanos = (fingerprint_of f).1;
})

loaded_state-Holds :
    (l : Loaded) (h : Host)
    → Holds l (record { host = h; index = loaded_state l (lookup ledger h.files) })
loaded_state-Holds l h = record { seen = refl; known = contains-digests l.entries }

is_current-loaded_state :
    (l : Loaded) (f : Option File) → is_current (loaded_state l f) (fingerprint_of f) ≡ true
unfolding is_current
is_current-loaded_state l f = ground arith

-- What `ensure_loaded` leaves: the files as they were, and the state of the file as it is now.
pub record Ensured (c : Codec) (s t : Storage) (l : Loaded) : Type 0 where
  pub host : t.host ≡ s.host
  pub fresh : is_current t.index (fingerprint_of (lookup ledger s.host.files)) ≡ true
  pub holds : Holds l t

-- With a file system that answers, on a coherent storage whose ledger loads, `ensure_loaded`
-- returns `Ok`, changes no file and leaves resident what the ledger holds, whether it loaded it
-- again or found its copy current.
pub ensure_loaded_calm :
    (c : Codec) (s : Storage) (l : Loaded)
    → IsCoherent c s
    → s.host.faults ≡ []
    → load_file c (lookup ledger s.host.files) ≡ some l
    → ((ensure_loaded c s).0 ≡ ok tt) × Ensured c s (ensure_loaded c s).1 l
unfolding ensure_loaded
ensure_loaded_calm c s l coh calm e =
    elim (Bool-cases (is_current s.index (fingerprint_of (lookup ledger s.host.files)))) [
      | inl yes' ↦
          rw (fingerprint_calm s.host calm, yes')
            (refl, record { host = refl; fresh = yes'; holds = coh.current yes' l e })
      | inr no' ↦
          rw (fingerprint_calm s.host calm, no', load_calm c s.host l calm e)
            (
              refl,
              record {
                host = refl;
                fresh = is_current-loaded_state l (lookup ledger s.host.files);
                holds = loaded_state-Holds l s.host;
              },
            )
    ]

-- The file with one more line.
abbrev pub appended : Codec → IndexEntry → Option File → Option ℕ → File
appended c e f now = record { content = (content_of f ++ c.print e) ++ 10 ∷ []; modified = now }

pub append_inner_calm :
    (c : Codec) (e : IndexEntry) (s : Storage)
    → s.host.faults ≡ []
    → is_valid_sha256_hex e.sha256 ≡ true
    → ((append_inner c e s).0 ≡ ok tt)
      × ((append_inner c e s).1.index ≡ s.index)
      × ((append_inner c e s).1.host.faults ≡ [])
      × (lookup ledger (append_inner c e s).1.host.files
          ≡ some (appended c e (lookup ledger s.host.files) s.host.now))
unfolding append_inner validate_entry_sha256
append_inner_calm c e s calm valid =
    let h = s.host in
    let h₁ = (open_append ledger h).1 in
    let h₂ = (write_all ledger (c.print e) h₁).1 in
    let h₃ = (write_all ledger (10 ∷ []) h₂).1 in
    ground (
      arith,
      create_dir_all_calm h calm,
      open_append_calm ledger h calm,
      write_all_calm ledger (c.print e) h₁ (opened_file (lookup ledger h.files) h.now),
      write_all_calm ledger (10 ∷ []) h₂
          (record { content = content_of (lookup ledger h.files) ++ c.print e; modified = h.now }),
      sync_data_calm h₃,
    )
