-- ===== src/Ingest/Provenance.antt =====
-- What a signed upload that was accepted had to show.
use ao2_control_plane.Base.{
  ◌≡◌, refl, sym, continue, [], String, List, Option, none, some, Result, ok, err, continue-ok,
  then_do-ok, ok_injective, answer_of_three, map_err, string_eq, length, arith,
}
use ao2_control_plane.Base.Text.{trim, codes_eq}
use mathlib.Core.Path.{subst}
use ao2_control_plane.Disk.{Bytes, File, lookup}
use ao2_control_plane.Bundle.{path}
use ao2_control_plane.Bundle.Kind.{memory_export, memory_export_signature}
use ao2_control_plane.Index.State.{Storage}
use ao2_control_plane.Json.{Value}
use ao2_control_plane.Schema.Memory.{parse_memory_export}
use ao2_control_plane.Schema.Responses.{IngestReceipt, new}
use ao2_control_plane.Server.AppError.{AppError}
use ao2_control_plane.Server.Signing.{text_member, as_bytes, annotate_trust_policy}
use ao2_control_plane.Server.Signing.Verified.{IsStrong, IsSigned, verify_rsa_sha256_signature-ok}
use ao2_control_plane.Ingest.{Outside, AppState, Clock, store_absent, index_entry, digest_of}
use ao2_control_plane.Ingest.Keeps.{store_absent-Keeps}
use ao2_control_plane.Ingest.Sidecar.{Holds, sidecar-Settled}
use ao2_control_plane.Ingest.Signed.{
  signature_schema, sidecar_of, record_sidecar, VerifiedUpload, filled, decode_hex,
  required_signature_string, verify_signed, verify_signed_memory_export, verified_upload,
  accept_signed, post_signed_memory_export, or_panic,
}

module _ {E A : Type 0} where
  pub map_err-ok : (g : E → AppError) (r : Result E A) (a : A) → map_err g r ≡ ok a → r ≡ ok a
  map_err-ok g (ok x) a h = ground arith
  map_err-ok g (err e) a h = ground arith

module _ (o : Outside) where
  pub filled-ok :
      (what field : String) (m : Option String) (s : String)
      → filled o what field m ≡ ok s
      → m ≡ some s
  unfolding trim codes_eq
  filled-ok what field none s h = ground arith
  filled-ok what field (some t) s h = ground arith

  -- The claim has a key and a signature over the bytes that verifies under it.
  pub record IsSignedBy (raw : Bytes) (claimed : Value) : Type 0 where
    pub pem : String
    pub hex : String
    pub signature : Bytes
    pub has_key : text_member "public_key_pem" claimed ≡ some pem
    pub has_signature : text_member "signature_hex" claimed ≡ some hex
    pub decodes : decode_hex o (as_bytes o.crypto o.encoding hex) ≡ ok signature
    pub strong : IsStrong o.crypto o.encoding (o.crypto.key_size pem)
    pub signed : IsSigned o.crypto o.encoding raw pem (o.crypto.read_signature signature)

  pub verify-IsSignedBy :
      (what : String) (raw : Bytes) (claimed : Value)
      → verify_signed o what raw claimed ≡ ok tt
      → IsSignedBy raw claimed
  unfolding verify_signed required_signature_string
  verify-IsSignedBy what raw claimed h =
      let (u₁, e₁, h₁) = then_do-ok _ _ tt h in
      let (hex, e₂, h₂) = then_do-ok _ _ tt h₁ in
      let (pem, e₃, h₃) = then_do-ok _ _ tt h₂ in
      let (signature, e₄, h₄) = then_do-ok _ _ tt h₃ in
      let (u₅, e₅, h₅) = then_do-ok _ _ tt h₄ in
      let (u₆, e₆, h₆) = then_do-ok _ _ tt h₅ in
      let verified = (verify_rsa_sha256_signature-ok o.crypto o.encoding raw signature pem).0 h₆ in
      record {
        pem = pem;
        hex = hex;
        signature = signature;
        has_key = filled-ok what "public_key_pem" (text_member "public_key_pem" claimed) pem e₃;
        has_signature = filled-ok what "signature_hex" (text_member "signature_hex" claimed) hex e₂;
        decodes = e₄;
        strong = verified.0;
        signed = verified.1;
      }

  pub or_panic-ok : (m : Option Value) (v : Value) → or_panic o m ≡ ok v → m ≡ some v
  or_panic-ok none v h = ground arith
  or_panic-ok (some w) v h = ground arith

  -- What is known of an upload that came through.
  pub record IsProven (trusted : List String) (p : VerifiedUpload) : Type 0 where
    pub signed_by : IsSignedBy p.raw p.claimed
    pub parses : parse_memory_export o.memory_export p.raw ≡ ok p.export
    pub value : Value
    pub reads : o.from_slice p.raw ≡ ok value
    pub digest : p.sha ≡ digest_of o value
    pub annotated : annotate_trust_policy o.crypto o.encoding p.claimed trusted ≡ some p.signature

  verified_upload-IsProven :
      (state : AppState) (body : Bytes) (p : VerifiedUpload)
      → verified_upload o state body ≡ ok p
      → IsProven state.signed_artifact_trusted_key_sha256s p
  unfolding verified_upload
  verified_upload-IsProven state body p h =
      let (u₁, e₁, h₁) = then_do-ok _ _ p h in
      let (upload, e₂, h₂) = then_do-ok _ _ p h₁ in
      let (u₃, e₃, h₃) = then_do-ok _ _ p h₂ in
      let (raw, e₄, h₄) = then_do-ok _ _ p h₃ in
      let (u₅, e₅, h₅) = then_do-ok _ _ p h₄ in
      let (u₆, e₆, h₆) = then_do-ok _ _ p h₅ in
      let (export, e₇, h₇) = then_do-ok _ _ p h₆ in
      let (value, e₈, h₈) = then_do-ok _ _ p h₇ in
      let (signature, e₉, h₉) = then_do-ok _ _ p h₈ in
      let proven : IsProven state.signed_artifact_trusted_key_sha256s (record {
        raw = raw;
        export = export;
        sha = digest_of o value;
        claimed = upload.signature;
        signature = signature;
      }) =
        record {
          signed_by =
              unfold verify_signed_memory_export in
              verify-IsSignedBy "memory export" raw upload.signature e₅;
          parses = map_err-ok _ (parse_memory_export o.memory_export raw) export e₇;
          value = value;
          reads = map_err-ok _ (o.from_slice raw) value e₈;
          digest = refl;
          annotated =
              or_panic-ok
                (annotate_trust_policy o.crypto o.encoding upload.signature
                  state.signed_artifact_trusted_key_sha256s)
                signature e₉;
        } in
      subst (IsProven state.signed_artifact_trusted_key_sha256s) (ok_injective _ p h₉) proven

  accept_signed-ok :
      (clock : Clock) (p : VerifiedUpload) (s : Storage) (receipt : IngestReceipt)
      → (accept_signed o clock p s).0 ≡ ok receipt
      → receipt ≡ new clock.stored p.sha p.export.schema_version
  unfolding accept_signed
  accept_signed-ok clock p s receipt h = sym (
      answer_of_three (store_absent o memory_export p.sha p.raw)
        (record_sidecar o memory_export_signature "memory export" p.sha
          (o.print_sidecar (sidecar_of o p.sha p.signature)))
        (index_entry o (record {
          ingested_at = clock.ingested;
          schema = p.export.schema_version;
          provider = none;
          sha256 = p.sha;
          status = some "signed";
          size_bytes = length p.raw;
        }))
        _ receipt s h)

  accept_signed-Holds :
      (clock : Clock) (p : VerifiedUpload) (s : Storage) (receipt : IngestReceipt)
      → s.host.faults ≡ []
      → (accept_signed o clock p s).0 ≡ ok receipt
      → Holds memory_export_signature p.sha
          (o.print_sidecar (sidecar_of o p.sha p.signature))
          (accept_signed o clock p s).1
  unfolding accept_signed
  accept_signed-Holds clock p s receipt calm h =
      (sidecar-Settled o memory_export_signature "memory export" p.sha
        (o.print_sidecar (sidecar_of o p.sha p.signature))
        (store_absent o memory_export p.sha p.raw) _ _ receipt s
        (store_absent-Keeps o memory_export p.sha p.raw s calm).calm h).0

  -- If the file system answers every call, a signed upload that is answered by a receipt was signed:
  -- the signed bytes carry a signature of a key of at least 2048 bits, both named by the claimed
  -- signature object, they parse as a memory export, and the receipt has the digest of the canonical
  -- form of their JSON. The file that then stands in the store as the signature sidecar of that digest
  -- is the printed one with the claimed signature object, annotated by the configured keys.
  pub post_signed-IsProven :
      (state : AppState) (clock : Clock) (body : Bytes) (s : Storage) (receipt : IngestReceipt)
      → s.host.faults ≡ []
      → (post_signed_memory_export o state clock body s).0 ≡ ok receipt
      → (p : VerifiedUpload) × (verified_upload o state body ≡ ok p)
        × (receipt ≡ new clock.stored p.sha p.export.schema_version)
        × IsProven state.signed_artifact_trusted_key_sha256s p
        × ((f : File) × (lookup
                (path memory_export_signature p.sha)
                (post_signed_memory_export o state clock body s).1.host.files
              ≡ some f)
            × (f.content
                ≡ o.print_sidecar (record {
                  schema_version = signature_schema;
                  export_sha256 = p.sha;
                  signature = p.signature;
                })))
  unfolding post_signed_memory_export
  post_signed-IsProven state clock body s receipt calm h =
      let (p, e, h₁) = continue-ok (verified_upload o state body) _ s receipt h in
      (
        p,
        e,
        accept_signed-ok clock p s receipt h₁,
        verified_upload-IsProven state body p e,
        subst
            (λ (r : Result AppError VerifiedUpload).
              Holds memory_export_signature p.sha (o.print_sidecar (sidecar_of o p.sha p.signature))
                (continue r (accept_signed o clock) s).1)
            (sym e) (accept_signed-Holds clock p s receipt calm h₁),
      )
