-- ===== src/Ingest/Keeps.antt =====
-- Methods that leave every bundle that is there as it is, while the file system answers.
use ao2_control_plane.Base.{
  ℕ, ◌≡◌, ◌≢◌, refl, ap, sym, ◌∙◌, String, Bool, true, false, [], ◌∷◌, Option, none, some, Result,
  ok, err, Exec, ◌>>=◌, ◌>>◌, continue, convert, lift, modify, Option-cases, inl, inr, contains,
  string_eq, if◌then◌else◌, arith,
}
use mathlib.Core.Path.{subst}
use ao2_control_plane.Disk.{
  Host, File, FilePath, Bytes, IoError, path_eq, lookup, create_dir_all, open_append, write_all,
  sync_data, metadata, read_file, read_on,
}
use ao2_control_plane.Disk.Laws.{lookup-insert, write_all-lookup_ne}
use ao2_control_plane.Bundle
use ao2_control_plane.Bundle.{path}
use ao2_control_plane.Bundle.Kind.{BundleKind}
use ao2_control_plane.Bundle.Atomic.{lookup-write}
use ao2_control_plane.Bundle.Reads.{is_some}
use ao2_control_plane.Bundle.Calm.{write_calm}
use ao2_control_plane.Index.{
  ledger, on_host, file_fingerprint, load_from_disk, load_opened, ensure_loaded, append_inner,
  append_checked, append_if_absent, is_current, resident, validate_entry_sha256, remember, stamped,
}
use ao2_control_plane.Index.State.{IndexEntry, IndexState, Storage, Codec, IndexStoreError}
use ao2_control_plane.Server.AppError.{AppError}
use ao2_control_plane.Ingest.{
  Outside, store_unless, store_absent, index_entry, on_bundles, on_index, ensure,
}

-- All bundles of the first storage are in the second one, and that one answers.
pub record Grows (s t : Storage) : Type 0 where
  pub calm : t.host.faults ≡ []
  pub kept :
      (kind : BundleKind) (sha : String) (f : File)
      → lookup (path kind sha) s.host.files ≡ some f
      → lookup (path kind sha) t.host.files ≡ some f

module _ {E A : Type 0} where
  abbrev pub Keeps : Exec Storage E A → Type 0
  Keeps m = (s : Storage) → s.host.faults ≡ [] → Grows s (m s).1

pub Grows-refl : (s : Storage) → s.host.faults ≡ [] → Grows s s
Grows-refl s calm = record { calm = calm; kept = λ kind sha f there. there }

pub Grows-trans : (s t u : Storage) → Grows s t → Grows t u → Grows s u
Grows-trans s t u one two = record {
  calm = two.calm;
  kept = λ kind sha f there. two.kept kind sha f (one.kept kind sha f there);
}

-- The files matter, and nothing else.
Grows-files : (s t : Storage) → t.host.faults ≡ [] → t.host.files ≡ s.host.files → Grows s t
Grows-files s t calm same = record {
  calm = calm;
  kept = λ kind sha f there. ap (lookup (path kind sha)) same ∙ there;
}

module _ {E A B : Type 0} where
  continue-Grows :
      (s : Storage) (r : Result E A) (t : Storage) (f : A → Exec Storage E B)
      → Grows s t
      → ((a : A) → Keeps (f a))
      → Grows s (continue r f t).1
  continue-Grows s (ok a) t f one each = Grows-trans s t (f a t).1 one (each a t one.calm)
  continue-Grows s (err e) t f one each = one

  pub bind-Keeps :
      (m : Exec Storage E A) (f : A → Exec Storage E B)
      → Keeps m
      → ((a : A) → Keeps (f a))
      → Keeps (m >>= f)
  bind-Keeps m f one each s calm = continue-Grows s (m s).0 (m s).1 f (one s calm) each

  pub then-Keeps :
      (m : Exec Storage E A) (n : Exec Storage E B) → Keeps m → Keeps n → Keeps (m >> n)
  then-Keeps m n one two = bind-Keeps m (λ a. n) one (λ a. two)

module _ {E A : Type 0} where
  pub lift-Keeps : (r : Result E A) → Keeps (lift r)
  lift-Keeps r s calm = Grows-refl s calm

  pub choose-Grows :
      (test : Bool) (s : Storage) (x y : Result E A × Storage)
      → Grows s x.1
      → Grows s y.1
      → Grows s (if test then x else y).1
  choose-Grows true s x y one two = one
  choose-Grows false s x y one two = two

modify-Keeps :
    (f : Storage → Storage)
    → ((s : Storage) → (f s).host ≡ s.host)
    → Keeps {E = IndexStoreError} (modify f)
modify-Keeps f same s calm =
    Grows-files s (f s) (ap (λ (h : Host). h.faults) (same s) ∙ calm)
      (ap (λ (h : Host). h.files) (same s))

-- A call of the index on the file system, whose paths are not those of bundles.
module _ {A : Type 0} where
  abbrev Spares : Exec Host IoError A → Type 0
  Spares m =
      (h : Host)
      → h.faults ≡ []
      → ((m h).1.faults ≡ [])
        × ((kind : BundleKind) (sha : String)
            → lookup (path kind sha) (m h).1.files ≡ lookup (path kind sha) h.files)

  on_host-Keeps : (m : Exec Host IoError A) → Spares m → Keeps (on_host m)
  on_host-Keeps m spares s calm = record {
    calm = (spares s.host calm).0;
    kept = λ kind sha f there. (spares s.host calm).1 kind sha ∙ there;
  }

ledger-ne-path : (kind : BundleKind) (sha : String) → ledger ≢ path kind sha
unfolding path
ledger-ne-path kind sha e = cc (ap (λ (p : FilePath). p.name) e)

create_dir_all-Spares : Spares create_dir_all
unfolding create_dir_all
create_dir_all-Spares h calm = ground arith

sync_data-Spares : Spares sync_data
unfolding sync_data
sync_data-Spares h calm = ground arith

file_fingerprint-Spares : Spares file_fingerprint
unfolding file_fingerprint metadata
file_fingerprint-Spares h calm = ground arith

open_append-Spares : Spares (open_append ledger)
unfolding open_append
open_append-Spares h calm = (
  ground arith,
  λ kind sha. ground (
    arith,
    ledger-ne-path kind sha,
    lookup-insert ledger (path kind sha) (record { content = []; modified = h.now }) h.files,
  ),
)

write_all-Spares : (bytes : Bytes) → Spares (write_all ledger bytes)
unfolding write_all
write_all-Spares bytes h calm = (
  ground arith,
  λ kind sha. write_all-lookup_ne ledger bytes h (path kind sha) (ledger-ne-path kind sha),
)

load_from_disk-Spares : (c : Codec) → Spares (load_from_disk c)
unfolding load_from_disk load_opened file_fingerprint metadata read_file read_on
load_from_disk-Spares c h calm = ground arith

set_index-Keeps :
    (i : IndexState) → Keeps {E = IndexStoreError} (λ t. (ok (tt {0}), record t { index = i }))
set_index-Keeps i t calm = Grows-files t (record t { index = i }) calm refl

abbrev stamp : ℕ × Option ℕ → Exec Storage IndexStoreError (Unit {0})
stamp fingerprint = modify (λ s. record s { index = stamped fingerprint s.index })

module _ (c : Codec) where
  ensure_loaded-Keeps : Keeps (ensure_loaded c)
  unfolding ensure_loaded
  ensure_loaded-Keeps =
      bind-Keeps (on_host file_fingerprint) _
        (on_host-Keeps file_fingerprint file_fingerprint-Spares)
        (λ fingerprint s calm.
          choose-Grows (is_current s.index fingerprint) s (ok tt, s) _ (Grows-refl s calm)
            (bind-Keeps (on_host (load_from_disk c)) _
              (on_host-Keeps (load_from_disk c) (load_from_disk-Spares c))
              (λ l. set_index-Keeps (resident l)) s calm))

  append_inner-Keeps : (e : IndexEntry) → Keeps (append_inner c e)
  unfolding append_inner
  append_inner-Keeps e =
      bind-Keeps (lift (validate_entry_sha256 e)) _ (lift-Keeps (validate_entry_sha256 e)) (λ u.
        bind-Keeps (on_host create_dir_all) _ (on_host-Keeps create_dir_all create_dir_all-Spares)
          (λ u.
            bind-Keeps (on_host (open_append ledger)) _
              (on_host-Keeps (open_append ledger) open_append-Spares)
              (λ u.
                bind-Keeps (on_host (write_all ledger (c.print e))) _
                  (on_host-Keeps (write_all ledger (c.print e)) (write_all-Spares (c.print e)))
                  (λ u.
                    bind-Keeps (on_host (write_all ledger (b'\n' ∷ []))) _
                      (on_host-Keeps (write_all ledger (b'\n' ∷ []))
                        (write_all-Spares (b'\n' ∷ [])))
                      (λ u. on_host-Keeps sync_data sync_data-Spares)))))

  append_checked-Keeps : (e : IndexEntry) → Keeps (append_checked c e)
  unfolding append_checked
  append_checked-Keeps e = then-Keeps (append_inner c e) _ (append_inner-Keeps e) (
      then-Keeps (modify (λ s. record s { index = remember e s.index }))
        (◌>>=◌ (on_host file_fingerprint) stamp)
        (modify-Keeps (λ s. record s { index = remember e s.index }) (λ s. refl))
        (bind-Keeps (on_host file_fingerprint) stamp
          (on_host-Keeps file_fingerprint file_fingerprint-Spares)
          (λ fingerprint.
            modify-Keeps (λ s. record s { index = stamped fingerprint s.index }) (λ s. refl))))

  append_if_absent-Keeps : (e : IndexEntry) → Keeps (append_if_absent c e)
  unfolding append_if_absent
  append_if_absent-Keeps e = bind-Keeps (ensure_loaded c) _ ensure_loaded-Keeps (λ u s calm.
      choose-Grows (contains s.index.digest_index e.sha256) s (ok false, s) _ (Grows-refl s calm)
        (bind-Keeps (append_checked c e) _ (append_checked-Keeps e)
          (λ v. lift-Keeps {E = IndexStoreError} (ok true)) s calm))

module _ {E F A : Type 0} where
  convert-Keeps : (g : E → F) (m : Exec Storage E A) → Keeps m → Keeps (convert g m)
  convert-Keeps g m one = one

pub ensure-Keeps : (test : Bool) (error : AppError) → Keeps (ensure test error)
ensure-Keeps test error s calm = Grows-refl s calm

pub exists_calm :
    (kind : BundleKind) (sha : String) (h : Host)
    → h.faults ≡ []
    → Bundle.exists kind sha h ≡ (is_some (lookup (path kind sha) h.files), h)
unfolding Bundle.exists metadata
exists_calm kind sha h calm = ground arith

module _ (o : Outside) where
  pub index_entry-Keeps : (e : IndexEntry) → Keeps (index_entry o e)
  unfolding index_entry
  index_entry-Keeps e =
      bind-Keeps (on_index o (append_if_absent o.codec e)) _ (append_if_absent-Keeps o.codec e)
        (λ b. lift-Keeps {E = AppError} (ok tt))

  -- A bundle that is written was not there before.
  pub write-Grows :
      (kind : BundleKind) (sha : String) (raw : Bytes) (s : Storage)
      → s.host.faults ≡ []
      → lookup (path kind sha) s.host.files ≡ none
      → Grows s (on_bundles o (Bundle.write kind sha raw) s).1
  write-Grows kind sha raw s calm missing = record {
    calm = (write_calm kind sha raw s.host calm).1;
    kept = λ other sha' f there. ground (arith, (lookup-write kind sha raw s.host).2 other sha');
  }

  pub store_absent-Keeps :
      (kind : BundleKind) (sha : String) (raw : Bytes) → Keeps (store_absent o kind sha raw)
  unfolding store_absent
  store_absent-Keeps kind sha raw s calm =
      subst (λ (x : Bool × Host). Grows s (store_unless o kind sha raw s x).1)
        (sym (exists_calm kind sha s.host calm))
        (elim (Option-cases (lookup (path kind sha) s.host.files)) [
          | inl missing ↦ rw missing (write-Grows kind sha raw s calm missing)
          | inr (f, there) ↦ rw there (Grows-refl s calm)
        ])
