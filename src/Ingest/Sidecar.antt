-- ===== src/Ingest/Sidecar.antt =====
-- What a handler that is well leaves in a signature sidecar.
use ao2_control_plane.Base.{
  ◌≡◌, refl, sym, String, Bool, [], ok, ◌>>◌, pure, continue-Leaves, Option-cases, inl, inr, arith,
  some,
}
use mathlib.Core.Path.{subst}
use ao2_control_plane.Base.Text.{codes_eq}
use ao2_control_plane.Disk.{Host, File, Bytes, lookup}
use ao2_control_plane.Bundle.{path}
use ao2_control_plane.Bundle.Kind.{BundleKind}
use ao2_control_plane.Bundle.Calm.{write_calm-whole}
use ao2_control_plane.Index.State.{IndexEntry, Storage}
use ao2_control_plane.Server.AppError.{AppError}
use ao2_control_plane.Ingest.{Outside, Method, index_entry}
use ao2_control_plane.Ingest.Signed.{record_sidecar, record_or_compare}
use ao2_control_plane.Ingest.Keeps.{Grows, then-Keeps, lift-Keeps, index_entry-Keeps, exists_calm}
use ao2_control_plane.Ingest.Immutable.{read_calm, record_sidecar-Keeps}

-- The file of that name has these bytes.
abbrev pub Holds : BundleKind → String → Bytes → Storage → Type 0
Holds kind sha raw s =
    (f : File) × (lookup (path kind sha) s.host.files ≡ some f) × (f.content ≡ raw)

-- And the file system answers.
abbrev pub Settled : BundleKind → String → Bytes → Storage → Type 0
Settled kind sha raw s = Holds kind sha raw s × (s.host.faults ≡ [])

Holds-Grows :
    (kind : BundleKind) (sha : String) (raw : Bytes) (s t : Storage)
    → Grows s t
    → Holds kind sha raw s
    → Holds kind sha raw t
Holds-Grows kind sha raw s t grows (f, there, same) = (f, grows.kept kind sha f there, same)

module _ (o : Outside) (kind : BundleKind) (what sha : String) (raw : Bytes) where
  record_sidecar-Holds :
      (s : Storage)
      → s.host.faults ≡ []
      → (record_sidecar o kind what sha raw s).0 ≡ ok tt
      → Holds kind sha raw (record_sidecar o kind what sha raw s).1
  unfolding record_sidecar codes_eq
  record_sidecar-Holds s calm =
      subst
        (λ (x : Bool × Host).
          (record_or_compare o kind what sha raw s x).0 ≡ ok tt
          → Holds kind sha raw (record_or_compare o kind what sha raw s x).1)
        (sym (exists_calm kind sha s.host calm))
        (elim (Option-cases (lookup (path kind sha) s.host.files)) [
          | inl missing ↦ rw missing (λ e. (_, write_calm-whole kind sha raw s.host calm, refl))
          | inr (f, there) ↦
              rw (there, read_calm o kind sha f s.host calm there) (λ e. (f, there, ground arith))
        ])

  -- A first step after which the file system answers, the sidecar, the ledger and an answer.
  pub sidecar-Settled :
      {A : Type 0} (first : Method (Unit {0})) (e : IndexEntry) (a b : A) (s : Storage)
      → (first s).1.host.faults ≡ []
      → ((do first; record_sidecar o kind what sha raw; index_entry o e; pure a) s).0 ≡ ok b
      → Settled kind sha raw
          ((do first; record_sidecar o kind what sha raw; index_entry o e; pure a) s).1
  sidecar-Settled {A = A} first e a b s still h =
      let t = (first s).1 in
      let last : Method A = index_entry o e >> pure a in
      continue-Leaves (first s).0 (λ u. record_sidecar o kind what sha raw >> last) t b
        (Settled kind sha raw) h
        (λ u well h₁.
          continue-Leaves (record_sidecar o kind what sha raw t).0 (λ v. last)
            (record_sidecar o kind what sha raw t).1 b (Settled kind sha raw) h₁
            (λ v recorded h₂.
              let w = (record_sidecar o kind what sha raw t).1 in
              let grows : Grows w (last w).1 =
                then-Keeps (index_entry o e) (pure a) (index_entry-Keeps o e)
                  (lift-Keeps {E = AppError} (ok a)) w
                  (record_sidecar-Keeps o kind what sha raw t still).calm in
              (
                Holds-Grows kind sha raw w (last w).1 grows (record_sidecar-Holds t still recorded),
                grows.calm,
              )))
