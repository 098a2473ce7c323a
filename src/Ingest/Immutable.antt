-- ===== src/Ingest/Immutable.antt =====
-- What is taken in never changes a bundle that is there.
use ao2_control_plane.Base.{
  ◌≡◌, sym, String, Bool, [], none, some, Result, ok, err, ◌>>=◌, ◌>>◌, lift, map_err, Option-cases,
  inl, inr, length, string_eq, arith,
}
use mathlib.Core.Path.{subst}
use ao2_control_plane.Disk.{Host, File, Bytes, lookup}
use ao2_control_plane.Base.Text.{codes_eq}
use ao2_control_plane.Bundle
use ao2_control_plane.Bundle.{path}
use ao2_control_plane.Bundle.Kind.{
  BundleKind, memory_export, memory_export_signature, control_plane_bundle,
}
use ao2_control_plane.Index.State.{IndexEntry, Storage}
use ao2_control_plane.Schema.Memory.{describe as describe_memory}
use ao2_control_plane.Schema.Acceptance.{describe as describe_acceptance}
use ao2_control_plane.Schema.ControlPlane.{describe as describe_controlplane}
use ao2_control_plane.Ingest.Acceptance.{accept as accept_acceptance}
use ao2_control_plane.Ingest.ControlPlane.{accept as accept_controlplane}
use ao2_control_plane.Ingest.Memory.{accept as accept_memory}
use ao2_control_plane.Schema.Acceptance.{parse_acceptance}
use ao2_control_plane.Schema.ControlPlane.{parse_control_plane_bundle}
use ao2_control_plane.Schema.Memory.{parse_memory_export}
use ao2_control_plane.Schema.Responses.{IngestReceipt, new}
use ao2_control_plane.Server.AppError.{AppError}
use ao2_control_plane.Ingest.{
  schema_error, admitted, digest_of, Outside, AppState, Clock, Method, store_absent, index_entry,
}
use ao2_control_plane.Ingest.Acceptance.{post_acceptance, kind_of}
use ao2_control_plane.Ingest.ControlPlane.{post_bundle}
use ao2_control_plane.Ingest.Memory.{post_memory_export}
use ao2_control_plane.Ingest.Signed.{
  record_sidecar, record_or_compare, VerifiedUpload, verified_upload, sidecar_of, accept_signed,
  post_signed_memory_export,
}
use ao2_control_plane.Ingest.Keeps.{
  Grows-refl, Grows, Keeps, then-Keeps, lift-Keeps, index_entry-Keeps, store_absent-Keeps,
  write-Grows, exists_calm,
}

module _ {A B C : Type 0} where
  -- Three results that may be errors, and what is done with them.
  lifted-Keeps :
      (q : Result AppError (Unit {0})) (r : Result AppError A) (t : Result AppError B)
      (f : A → B → Method C)
      → ((a : A) (b : B) → Keeps (f a b))
      → Keeps (do lift q; a ← lift r; b ← lift t; f a b)
  lifted-Keeps (err e) r t f each s calm = lift-Keeps {A = C} (err e) s calm
  lifted-Keeps (ok u) (err e) t f each s calm = lift-Keeps {A = C} (err e) s calm
  lifted-Keeps (ok u) (ok a) (err e) f each s calm = lift-Keeps {A = C} (err e) s calm
  lifted-Keeps (ok u) (ok a) (ok b) f each s calm = each a b s calm

module _ {A B : Type 0} where
  pub unless_err-Keeps :
      (r : Result AppError A) (f : A → Method B)
      → ((a : A) → Keeps (f a))
      → Keeps (◌>>=◌ (lift r) f)
  unless_err-Keeps (err e) f each s calm = lift-Keeps {A = B} (err e) s calm
  unless_err-Keeps (ok a) f each s calm = each a s calm

module _ (o : Outside) where
  -- The two last steps of each handler.
  pub stored_and_indexed-Keeps :
      (kind : BundleKind) (sha : String) (raw : Bytes) (e : IndexEntry) (receipt : IngestReceipt)
      → Keeps {E = AppError} (do store_absent o kind sha raw; index_entry o e; λ s. (ok receipt, s))
  stored_and_indexed-Keeps kind sha raw e receipt =
      then-Keeps (store_absent o kind sha raw) (index_entry o e >> λ s. (ok receipt, s))
        (store_absent-Keeps o kind sha raw)
        (then-Keeps (index_entry o e) (λ s. (ok receipt, s)) (index_entry-Keeps o e)
          (lift-Keeps {E = AppError} (ok receipt)))

  module _ (state : AppState) (clock : Clock) (body : Bytes) where
    post_bundle-Keeps : Keeps (post_bundle o state clock body)
    unfolding post_bundle
    post_bundle-Keeps =
        lifted-Keeps (admitted o state body)
          (map_err (λ e. schema_error "expected schema_version" (describe_controlplane e))
            (parse_control_plane_bundle o.control_plane_bundle body))
          (map_err AppError.bad_request (o.from_slice body))
          (λ bundle value. accept_controlplane o clock body bundle (digest_of o value))
          (λ bundle value.
            stored_and_indexed-Keeps control_plane_bundle (digest_of o value) body _ _)

    post_memory_export-Keeps : Keeps (post_memory_export o state clock body)
    unfolding post_memory_export
    post_memory_export-Keeps =
        lifted-Keeps (admitted o state body)
          (map_err (λ e. schema_error "expected schema_version" (describe_memory e))
            (parse_memory_export o.memory_export body))
          (map_err AppError.bad_request (o.from_slice body))
          (λ bundle value. accept_memory o clock body bundle (digest_of o value))
          (λ bundle value. stored_and_indexed-Keeps memory_export (digest_of o value) body _ _)

    post_acceptance-Keeps : Keeps (post_acceptance o state clock body)
    unfolding post_acceptance
    post_acceptance-Keeps =
        lifted-Keeps (admitted o state body)
          (map_err (λ e. schema_error "unknown schema_version" (describe_acceptance e))
            (parse_acceptance o.acceptance body))
          (map_err AppError.bad_request (o.from_slice body))
          (λ bundle value. accept_acceptance o clock body bundle (digest_of o value))
          (λ bundle value.
            stored_and_indexed-Keeps (kind_of bundle.provider) (digest_of o value) body _ _)

  pub read_calm :
      (kind : BundleKind) (sha : String) (f : File) (h : Host)
      → h.faults ≡ []
      → lookup (path kind sha) h.files ≡ some f
      → Bundle.read kind sha h ≡ (ok f.content, h)
  unfolding Bundle.read
  read_calm kind sha f h calm there = ground arith

  pub record_sidecar-Keeps :
      (kind : BundleKind) (what sha : String) (raw : Bytes)
      → Keeps (record_sidecar o kind what sha raw)
  unfolding record_sidecar
  record_sidecar-Keeps kind what sha raw s calm =
      subst (λ (x : Bool × Host). Grows s (record_or_compare o kind what sha raw s x).1)
        (sym (exists_calm kind sha s.host calm))
        (elim (Option-cases (lookup (path kind sha) s.host.files)) [
          | inl missing ↦ rw missing (write-Grows o kind sha raw s calm missing)
          | inr (f, there) ↦ rw (there, read_calm kind sha f s.host calm there) (Grows-refl s calm)
        ])

  accept_signed-Keeps : (clock : Clock) (p : VerifiedUpload) → Keeps (accept_signed o clock p)
  unfolding accept_signed
  accept_signed-Keeps clock p =
      let sidecar = o.print_sidecar (sidecar_of o p.sha p.signature) in
      let entry : IndexEntry = record {
        ingested_at = clock.ingested;
        schema = p.export.schema_version;
        provider = none;
        sha256 = p.sha;
        status = some "signed";
        size_bytes = length p.raw;
      } in
      let receipt = new clock.stored p.sha p.export.schema_version in
      then-Keeps (store_absent o memory_export p.sha p.raw)
        (record_sidecar o memory_export_signature "memory export" p.sha sidecar
          >> (index_entry o entry >> λ s. (ok receipt, s)))
        (store_absent-Keeps o memory_export p.sha p.raw)
        (then-Keeps (record_sidecar o memory_export_signature "memory export" p.sha sidecar)
          (index_entry o entry >> λ s. (ok receipt, s))
          (record_sidecar-Keeps memory_export_signature "memory export" p.sha sidecar)
          (then-Keeps (index_entry o entry) (λ s. (ok receipt, s)) (index_entry-Keeps o entry)
            (lift-Keeps {E = AppError} (ok receipt))))

  post_signed-Keeps :
      (state : AppState) (clock : Clock) (body : Bytes)
      → Keeps (post_signed_memory_export o state clock body)
  unfolding post_signed_memory_export
  post_signed-Keeps state clock body =
      unless_err-Keeps (verified_upload o state body) (accept_signed o clock)
        (accept_signed-Keeps clock)

-- A bundle of any kind, the signature sidecars included, that is there before a handler takes in a
-- body is there unchanged after it, whatever the body is and whatever the handler answers, as long as
-- the file system answers every call.
pub ingest-Grows :
    (o : Outside) (state : AppState) (clock : Clock) (body : Bytes) (s : Storage)
    → s.host.faults ≡ []
    → Grows s (post_acceptance o state clock body s).1
      × Grows s (post_memory_export o state clock body s).1
      × Grows s (post_signed_memory_export o state clock body s).1
      × Grows s (post_bundle o state clock body s).1
ingest-Grows o state clock body s calm = (
  post_acceptance-Keeps o state clock body s calm,
  post_memory_export-Keeps o state clock body s calm,
  post_signed-Keeps o state clock body s calm,
  post_bundle-Keeps o state clock body s calm,
)
