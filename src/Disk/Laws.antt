-- ===== src/Disk/Laws.antt =====
-- What the files of a disk are after a change, one name at a time.
use ao2_control_plane.Base.{
  ℕ, ◌≡◌, ◌≢◌, refl, List, Option, [], ◌∷◌, ◌++◌, none, some, arith, true, false, ◌&&◌, ◌==◌,
  if◌then◌else◌, is_ok, inl, inr, Option-cases, take, Bool, Result, ◌⊎◌,
}
use ao2_control_plane.Disk.{
  FilePath, File, Files, Bytes, IoError, extend, cut_short, Host, path_eq, lookup, insert, erase,
  create, write_all, rename, remove_file, sync_data, create_dir_all,
}

pub lookup-insert :
    (p q : FilePath) (f : File) (fs : Files)
    → lookup q (insert p f fs) ≡ (if p == q then some f else lookup q fs)
unfolding lookup insert
lookup-insert p q f [] = refl
lookup-insert p q f ((r, g) ∷ fs) = ground (arith, lookup-insert p q f fs)

pub lookup-erase :
    (p q : FilePath) (fs : Files) → lookup q (erase p fs) ≡ (if p == q then none else lookup q fs)
unfolding lookup erase
lookup-erase p q [] = ground arith
lookup-erase p q ((r, g) ∷ fs) = ground (arith, lookup-erase p q fs)

-- Each call, seen through the files that it leaves and the clock.
module _ (p : FilePath) (h : Host) where
  pub create-lookup :
      (q : FilePath)
      → lookup q (create p h).1.files ≡ (
          if is_ok (create p h).0 && p == q
          then some (record { content = []; modified = h.now })
          else lookup q h.files)
  unfolding create
  create-lookup q =
      ground (arith, lookup-insert p q (record { content = []; modified = h.now }) h.files)

  pub now-create : (create p h).1.now ≡ h.now
  unfolding create
  now-create = ground arith

  pub reports-create : (create p h).1.reports ≡ h.reports
  unfolding create
  reports-create = ground arith

  pub remove_file-lookup :
      (q : FilePath)
      → lookup q (remove_file p h).1.files
        ≡ (if is_ok (remove_file p h).0 && p == q then none else lookup q h.files)
  unfolding remove_file
  remove_file-lookup q = ground (arith, lookup-erase p q h.files)

extend-lookup_ne :
    (p q : FilePath) (bytes : Bytes) (h : Host)
    → p ≢ q
    → lookup q (extend p bytes h).files ≡ lookup q h.files
extend-lookup_ne p q bytes h e = elim (Option-cases (lookup p h.files)) [
  | inl missing ↦ rw (missing, extend)
  | inr (f, there) ↦
      rw (there, extend)
        (ground (
          arith,
          lookup-insert p q (record { content = f.content ++ bytes; modified = h.now }) h.files,
        ))
]

-- What may stand behind the old content after a write that was well: all the bytes, or the first of
-- them if it failed there and the call did not learn of it.
abbrev pub IsLeft : Bytes → Host → Bytes → Type 0
IsLeft bytes h left =
    (left ≡ bytes) ⊎ ((n : ℕ) × (h.reports bytes n ≡ false) × (left ≡ take n bytes))

module _ (p : FilePath) (bytes : Bytes) (h : Host) where
  abbrev before : Bool → List (Option ℕ) → Host
  before st fs = record h { stored = st; faults = fs }

  abbrev Leaves : File → Result IoError (Unit {0}) × Host → Type 0
  Leaves f r =
      (left : Bytes) × IsLeft bytes h left
      × (is_ok r.0 ≡ true
          → lookup p r.1.files ≡ some (record { content = f.content ++ left; modified = h.now }))

  extend-lookup_self :
      (f : File) (left : Bytes) (st : Bool) (fs : List (Option ℕ))
      → lookup p h.files ≡ some f
      → lookup p (extend p left (before st fs)).files
        ≡ some (record { content = f.content ++ left; modified = h.now })
  extend-lookup_self f left st fs there =
      rw (there, extend)
        (ground (
          arith,
          lookup-insert p p (record { content = f.content ++ left; modified = h.now }) h.files,
        ))

  cut_short-Leaves :
      (f : File) (n : ℕ) (b : Bool) (st : Bool) (fs : List (Option ℕ))
      → lookup p h.files ≡ some f
      → h.reports bytes n ≡ b
      → Leaves f (cut_short p bytes n (before st fs))
  cut_short-Leaves f n true st fs there e = rw e (bytes, inl refl, λ u. ground arith)
  cut_short-Leaves f n false st fs there e =
      rw e (take n bytes, inr (n, e, refl), λ u. extend-lookup_self f (take n bytes) st fs there)

  write_all_cases :
      (f : File) (st : Bool) (fs : List (Option ℕ))
      → lookup p h.files ≡ some f
      → Leaves f (write_all p bytes (before st fs))
  unfolding write_all
  write_all_cases f true fs there = (bytes, inl refl, λ u. ground arith)
  write_all_cases f false [] there =
      (bytes, inl refl, λ u. extend-lookup_self f bytes false [] there)
  write_all_cases f false (none ∷ fs) there =
      (bytes, inl refl, λ u. extend-lookup_self f bytes false fs there)
  write_all_cases f false (some n ∷ fs) there =
      cut_short-Leaves f n (h.reports bytes n) false fs there refl

  pub write_all-Leaves : (f : File) → lookup p h.files ≡ some f → Leaves f (write_all p bytes h)
  write_all-Leaves f there = write_all_cases f h.stored h.faults there

  cut_short-lookup_ne :
      (q : FilePath) (n : ℕ) (st : Bool) (fs : List (Option ℕ))
      → p ≢ q
      → lookup q (cut_short p bytes n (before st fs)).1.files ≡ lookup q h.files
  cut_short-lookup_ne q n st fs e =
      ground (arith, extend-lookup_ne p q (take n bytes) (before st fs) e)

  write_all-lookup_ne_cases :
      (q : FilePath) (st : Bool) (fs : List (Option ℕ))
      → p ≢ q
      → lookup q (write_all p bytes (before st fs)).1.files ≡ lookup q h.files
  unfolding write_all
  write_all-lookup_ne_cases q true fs e = refl
  write_all-lookup_ne_cases q false [] e = extend-lookup_ne p q bytes (before false []) e
  write_all-lookup_ne_cases q false (none ∷ fs) e = extend-lookup_ne p q bytes (before false fs) e
  write_all-lookup_ne_cases q false (some n ∷ fs) e = cut_short-lookup_ne q n false fs e

  pub write_all-lookup_ne :
      (q : FilePath) → p ≢ q → lookup q (write_all p bytes h).1.files ≡ lookup q h.files
  write_all-lookup_ne q e = write_all-lookup_ne_cases q h.stored h.faults e

-- `rename` moves the file onto its new name, or changes nothing.
module _ (from to : FilePath) (h : Host) where
  pub rename-lookup :
      (q : FilePath) (f : File)
      → lookup from h.files ≡ some f
      → lookup q (rename from to h).1.files ≡ (
          if is_ok (rename from to h).0
          then (if to == q then some f else if from == q then none else lookup q h.files)
          else lookup q h.files)
  unfolding rename
  rename-lookup q f e =
      ground (arith, lookup-insert to q f (erase from h.files), lookup-erase from q h.files)

  pub rename_missing-lookup :
      (q : FilePath)
      → lookup from h.files ≡ none
      → (is_ok (rename from to h).0 ≡ false) × ((rename from to h).1.files ≡ h.files)
  unfolding rename
  rename_missing-lookup q e = ground arith

module _ (h : Host) where
  pub files-sync_data : (sync_data h).1.files ≡ h.files
  unfolding sync_data
  files-sync_data = ground arith

  pub files-create_dir_all : (create_dir_all h).1.files ≡ h.files
  unfolding create_dir_all
  files-create_dir_all = ground arith

  pub now-create_dir_all : (create_dir_all h).1.now ≡ h.now
  unfolding create_dir_all
  now-create_dir_all = ground arith

  pub reports-create_dir_all : (create_dir_all h).1.reports ≡ h.reports
  unfolding create_dir_all
  reports-create_dir_all = ground arith
