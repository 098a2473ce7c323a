-- ===== src/Disk.antt =====
-- The calls of `std::fs` that the storage crate makes, through their asynchronous forms, over a
-- file system that is explicit.
-- A file is named by its directory and its name there. A directory that is missing reads as one
-- that is empty, so making directories only takes its chance to fail.
pub mod Laws
pub mod Calm
use native.Mathlib.Decide.{ℕ_discrete}
use ao2_control_plane.Base.{
  ℕ, ◌++◌, String, Bool, true, false, List, [], ◌∷◌, Option, none, some, Result, ok, err, Exec,
  take, length, Eq, ◌==◌, string_eq, if◌then◌else◌,
}

-- The names that the program gives to files: `<sha>.json`, `<sha>.json.tmp.<pid>.<unique>`,
-- the ledger and its temporary copy, and the log of refused smoke reports.
pub data FileName : Type 0 where
  json : String → FileName
  json_tmp : String → ℕ → ℕ → FileName
  index_jsonl index_jsonl_tmp rejected_smoke_jsonl : FileName

pub record FilePath : Type 0 where
  pub dir : String
  pub name : FileName

unfoldable pub FileName-discrete : Discrete FileName
unfolding string_eq
FileName-discrete = hlevel (string_eq.dec, ℕ_discrete)

unfoldable pub FilePath-discrete : Discrete FilePath
unfolding string_eq FileName-discrete
FilePath-discrete = hlevel (string_eq.dec, FileName-discrete)

instance unfoldable pub path_eq : Eq FilePath
unfolding FilePath-discrete
path_eq = record { dec = FilePath-discrete }

abbrev pub Bytes : Type 0
Bytes = List ℕ

-- The modification time is in nanoseconds since the epoch, if the platform has one.
pub record File : Type 0 where
  pub content : Bytes
  pub modified : Option ℕ

abbrev pub Files : Type 0
Files = List (FilePath × File)

-- `faults` says what becomes of the next calls: `none` is one that succeeds, `some n` one that
-- fails, a write after its first `n` bytes. Past the end of the list all calls succeed.
-- A `tokio::fs::File` writes in the background: a failure that the call does not learn of is stored
-- in the handle, where only the next write or a flush finds it. `reports` is that library's part:
-- whether `write_all` of these bytes says itself that it failed after so many of them. `stored` is
-- an error that the open handle holds; no more than one handle is written to at a time.
-- With the files go the number of this process and its `WRITE_COUNTER`.
pub record Host : Type 0 where
  pub files : Files
  pub faults : List (Option ℕ)
  pub now : Option ℕ
  pub reports : Bytes → ℕ → Bool
  pub stored : Bool
  pub pid : ℕ
  pub write_counter : ℕ

pub data IoError : Type 0 where
  not_found failed : IoError

unfoldable pub lookup : FilePath → Files → Option File
lookup p [] = none
lookup p ((q, f) ∷ fs) = if q == p then some f else lookup p fs

unfoldable pub insert : FilePath → File → Files → Files
insert p f [] = (p, f) ∷ []
insert p f ((q, g) ∷ fs) = if q == p then (p, f) ∷ fs else (q, g) ∷ insert p f fs

unfoldable pub erase : FilePath → Files → Files
erase p [] = []
erase p ((q, g) ∷ fs) = let rest = erase p fs in if q == p then rest else (q, g) ∷ rest

abbrev pub untouched : ℕ → Host → Host
untouched n d = d

-- One call: its fate is taken off the list first.
module _ {ℓ} {A : Type ℓ} where
  abbrev pub attempt : Exec Host IoError A → (ℕ → Host → Host) → Exec Host IoError A
  attempt act spoil d = elim d.faults [
    | [] ↦ act d
    | none ∷ rest ↦ act (record d { faults = rest })
    | some n ∷ rest ↦ (err failed, spoil n (record d { faults = rest }))
  ]

abbrev pub extend : FilePath → Bytes → Host → Host
extend p bytes d = elim (lookup p d.files) [
  | none ↦ d
  | some f ↦ record d {
    files = insert p (record { content = f.content ++ bytes; modified = d.now }) d.files;
  }
]

unfoldable pub create_dir_all : Exec Host IoError (Unit {0})
create_dir_all = attempt (λ d. (ok tt, d)) untouched

-- `File::create`
unfoldable pub create : FilePath → Exec Host IoError (Unit {0})
create p =
    attempt
      (λ d. (
        ok tt,
        record d {
          files = insert p (record { content = []; modified = d.now }) d.files;
          stored = false;
        },
      ))
      untouched

abbrev pub opened : FilePath → Host → Host
opened p d = elim (lookup p d.files) [
  | none ↦ record d { files = insert p (record { content = []; modified = d.now }) d.files }
  | some _ ↦ d
]

-- `OpenOptions::new().create(true).append(true).open`
unfoldable pub open_append : FilePath → Exec Host IoError (Unit {0})
open_append p = attempt (λ d. (ok tt, record (opened p d) { stored = false })) untouched

-- What is left by a write that fails after `n` bytes.
abbrev pub cut_short : FilePath → Bytes → ℕ → Host → Result IoError (Unit {0}) × Host
cut_short p bytes n d =
    if d.reports bytes n
    then (err failed, extend p (take n bytes) d)
    else (ok tt, record (extend p (take n bytes) d) { stored = true })

-- `write_all` at the end of the file: it returns the error that the handle holds, and a failing one
-- may leave a first part, with or without saying so.
unfoldable pub write_all : FilePath → Bytes → Exec Host IoError (Unit {0})
write_all p bytes d =
    if d.stored then (err failed, record d { stored = false }) else (elim d.faults [
      | [] ↦ (ok tt, extend p bytes d)
      | none ∷ rest ↦ (ok tt, extend p bytes (record d { faults = rest }))
      | some n ∷ rest ↦ cut_short p bytes n (record d { faults = rest })
    ])

-- Waits for the write in the background, whose error it does not return.
unfoldable pub sync_data : Exec Host IoError (Unit {0})
sync_data = attempt (λ d. (ok tt, d)) untouched

abbrev pub or_not_found {ℓ} :
    {A : Type ℓ} → Option File → (File → Result IoError A × Host) → Host → Result IoError A × Host
or_not_found none act d = (err not_found, d)
or_not_found (some f) act d = act f

-- Reading on in a file that is open.
unfoldable pub read_on : Exec Host IoError (Unit {0})
read_on = attempt (λ h. (ok tt, h)) untouched

unfoldable pub rename : FilePath → FilePath → Exec Host IoError (Unit {0})
rename from to =
    attempt
      (λ d.
        or_not_found (lookup from d.files)
          (λ f. (ok tt, record d { files = insert to f (erase from d.files) })) d)
      untouched

unfoldable pub remove_file : FilePath → Exec Host IoError (Unit {0})
remove_file p =
    attempt
      (λ d. or_not_found (lookup p d.files) (λ f. (ok tt, record d { files = erase p d.files })) d)
      untouched

unfoldable pub read_file : FilePath → Exec Host IoError Bytes
read_file p = attempt (λ d. or_not_found (lookup p d.files) (λ f. (ok f.content, d)) d) untouched

-- The length and the modification time that `metadata` reports.
unfoldable pub metadata : FilePath → Exec Host IoError (ℕ × Option ℕ)
metadata p =
    attempt (λ d. or_not_found (lookup p d.files) (λ f. (ok (length f.content, f.modified), d)) d)
      untouched

unfoldable pub names_in : String → Files → List FileName
names_in dir [] = []
names_in dir ((p, f) ∷ fs) =
    let rest = names_in dir fs in if p.dir == dir then p.name ∷ rest else rest

abbrev pub some_entry : Result IoError (List FileName) × Host → Bool × Host
some_entry (ok (n ∷ names), h) = (true, h)
some_entry (ok [], h) = (false, h)
some_entry (err e, h) = (false, h)

-- `Path::exists` of a directory: a failing call says no, and so does an empty directory here.
unfoldable pub dir_exists : String → Host → Bool × Host
unfolding names_in
dir_exists dir h = some_entry (attempt (λ g. (ok (names_in dir g.files), g)) untouched h)

unfoldable pub read_dir : String → Exec Host IoError (List FileName)
read_dir dir = attempt (λ d. (ok (names_in dir d.files), d)) untouched
