-- ===== src/Bundle/Reads.antt =====
-- What the readers of a bundle store report, by the files that are there.
use ao2_control_plane.Base.{
  ◌≡◌, refl, String, Bool, true, false, ◌&&◌, List, [], ◌∷◌, Option, some, none, arith, ◌==◌,
  if◌then◌else◌, Result, ok, err, contains, string_eq, length,
}
use ao2_control_plane.Disk.{Host, File, Files, FilePath, path_eq, lookup, names_in}
use ao2_control_plane.Disk.Laws.{lookup-erase}
use ao2_control_plane.Bundle.Kind.{BundleKind, subdir, kind_eq}
use ao2_control_plane.Bundle.{
  BundleStoreError, not_found, path, read, exists, size, list, remove_if_exists, published,
}

abbrev pub is_some {ℓ} : {A : Type ℓ} → Option A → Bool
is_some none = false
is_some (some a) = true

abbrev pub found {ℓ} : {A : Type ℓ} → String → (File → A) → Option File → Result BundleStoreError A
found sha get none = err (not_found sha)
found sha get (some f) = ok (get f)

abbrev pub is_listed : String → Result BundleStoreError (List String) → Bool
is_listed sha (ok names) = contains names sha
is_listed sha (err e) = false

abbrev pub is_removed : Result BundleStoreError Bool → Bool
is_removed (ok b) = b
is_removed (err e) = false

path_ext : (p q : FilePath) → p.dir ≡ q.dir → p.name ≡ q.name → p ≡ q
path_ext p q d n = λ i. record { dir = d i; name = n i }

-- A listing has the digests of the files that are there under the kind.
contains-published :
    (kind : BundleKind) (sha : String) (fs : Files)
    → contains (published (names_in (subdir kind) fs)) sha ≡ is_some (lookup (path kind sha) fs)
unfolding names_in lookup path
contains-published kind sha [] = refl
contains-published kind sha ((p, f) ∷ fs) =
    ground (arith, path_ext p (path kind sha), contains-published kind sha fs)

-- What the four readers report of a bundle.
pub record Agrees (kind : BundleKind) (sha : String) (h : Host) : Type 0 where
  pub reads : (read kind sha h).0 ≡ found sha (λ f. f.content) (lookup (path kind sha) h.files)
  pub sizes :
      (size kind sha h).0 ≡ found sha (λ f. length f.content) (lookup (path kind sha) h.files)
  pub existence : (exists kind sha h).0 ≡ is_some (lookup (path kind sha) h.files)
  pub listing : is_listed sha (list kind h).0 ≡ is_some (lookup (path kind sha) h.files)

-- With a file system that answers, the four readers agree on what is there: `exists` and `list`
-- say whether a bundle has a file, `read` and `size` give its bytes and their number or report
-- the digest as not found.
pub readers_agree :
    (kind : BundleKind) (sha : String) (h : Host) → h.faults ≡ [] → Agrees kind sha h
unfolding read size exists list
readers_agree kind sha h calm = record {
  reads = ground arith;
  sizes = ground arith;
  existence = ground arith;
  listing = ground (arith, contains-published kind sha h.files);
}

-- Under any failures of the file system, the named bundle has no file after `remove_if_exists` if
-- it returned `Ok(true)`, and what it had before otherwise. No other bundle changes.
pub lookup-remove_if_exists :
    (kind other : BundleKind) (sha256 sha : String) (h : Host)
    → lookup (path other sha) (remove_if_exists kind sha256 h).1.files ≡ (
        if is_removed (remove_if_exists kind sha256 h).0 && path kind sha256 == path other sha
        then none
        else lookup (path other sha) h.files)
unfolding remove_if_exists
lookup-remove_if_exists kind other sha256 sha h =
    ground (arith, lookup-erase (path kind sha256) (path other sha) h.files)
