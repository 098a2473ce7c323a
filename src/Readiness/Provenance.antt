-- ===== src/Readiness/Provenance.antt =====
-- What a signed readiness artifact that was accepted had to show.
use ao2_control_plane.Base.{
  ◌≡◌, refl, sym, Result, continue, [], continue-ok, ok_injective, answer_of_three, ap, ◌∙◌, String,
  Bool, List, Option, none, some, ok, length, then_do-ok, string_eq,
}
use ao2_control_plane.Base.Text.{codes_eq}
use mathlib.Core.Path.{subst}
use ao2_control_plane.Disk.{Bytes, File, lookup}
use ao2_control_plane.Bundle.{path}
use ao2_control_plane.Bundle.Calm.{write_calm}
use ao2_control_plane.Server.AppError.{AppError}
use ao2_control_plane.Bundle
use ao2_control_plane.Bundle.Kind.{provider_readiness, provider_readiness_signature}
use ao2_control_plane.Index.State.{Storage}
use ao2_control_plane.Json.{Value, get, find_member, as_bool}
use ao2_control_plane.Schema.Responses.{IngestReceipt, new}
use ao2_control_plane.Server.Signing.{text_member, as_bytes, sha256_hex}
use ao2_control_plane.Server.Signing.Verified.{verify_rsa_sha256_signature-ok}
use ao2_control_plane.Ingest.{Outside, AppState, Clock, on_bundles, index_entry, digest_of}
use ao2_control_plane.Ingest.Sidecar.{Settled, sidecar-Settled}
use ao2_control_plane.Ingest.Signed.{record_sidecar, required_signature_string}
use ao2_control_plane.Ingest.Provenance.{IsSignedBy, filled-ok}
use ao2_control_plane.Ingest.Dashboard.Source.{and_then}
use ao2_control_plane.Promotion.{bool_at}
use ao2_control_plane.Promotion.Evidence.{provider_readiness_schema}
use ao2_control_plane.Readiness.{validate_provider_readiness}
use ao2_control_plane.Readiness.Signature.{
  signature_schema, key_matches, verified_object, verified_bytes,
  verified_provider_readiness_signature,
}
use ao2_control_plane.Readiness.Handlers.{
  VerifiedReadiness, canonical_bytes, verified_readiness, sidecar_of, accept_readiness,
  post_signed_provider_readiness,
}

abbrev authority_of : Value → Option Bool
authority_of v = and_then (get "trust_policy" v) (bool_at "release_authoritative")

verified_object-authority :
    (hex sha key signer : String) (trusted : Bool)
    → authority_of (verified_object hex sha key signer trusted) ≡ some trusted
unfolding get find_member as_bool string_eq
verified_object-authority hex sha key signer trusted = refl

module _ (o : Outside) where
  -- The readiness was verified for its contracts and signed in its canonical text, and what is kept of the
  -- signature has authority exactly if its key is one that is configured.
  pub record IsProven (trusted : List String) (p : VerifiedReadiness) : Type 0 where
    pub claimed : Value
    pub contracts : validate_provider_readiness p.readiness ≡ ok tt
    pub canonical : p.raw ≡ canonical_bytes o p.readiness
    pub signed_by : IsSignedBy o p.raw claimed
    pub authority :
        authority_of p.signature
        ≡ some (
            key_matches o trusted
              (sha256_hex o.crypto (as_bytes o.crypto o.encoding signed_by.pem)))
    pub signer : String
    pub kept :
        p.signature
        ≡ verified_object signed_by.hex
            (sha256_hex o.crypto signed_by.signature)
            (sha256_hex o.crypto (as_bytes o.crypto o.encoding signed_by.pem))
            signer
            (key_matches o trusted
              (sha256_hex o.crypto (as_bytes o.crypto o.encoding signed_by.pem)))

  -- What is known of a signature object that verifies.
  abbrev IsKept : Bytes → Value → List String → Value → Type 0
  IsKept raw claimed trusted kept =
      (by : IsSignedBy o raw claimed) × (signer : String) × (kept
        ≡ verified_object by.hex (sha256_hex o.crypto by.signature)
            (sha256_hex o.crypto (as_bytes o.crypto o.encoding by.pem)) signer
            (key_matches o trusted (sha256_hex o.crypto (as_bytes o.crypto o.encoding by.pem))))

  verified-IsKept :
      (raw : Bytes) (claimed : Value) (trusted : List String) (kept : Value)
      → verified_provider_readiness_signature o raw claimed trusted ≡ ok kept
      → IsKept raw claimed trusted kept
  unfolding verified_provider_readiness_signature verified_bytes required_signature_string
  verified-IsKept raw claimed trusted kept h =
      let (members, e₁, h₁) = then_do-ok _ _ kept h in
      let (u₂, e₂, h₂) = then_do-ok _ _ kept h₁ in
      let (u₃, e₃, h₃) = then_do-ok _ _ kept h₂ in
      let (u₄, e₄, h₄) = then_do-ok _ _ kept h₃ in
      let (hex, e₅, h₅) = then_do-ok _ _ kept h₄ in
      let (pem, e₆, h₆) = then_do-ok _ _ kept h₅ in
      let (signer, e₇, h₇) = then_do-ok _ _ kept h₆ in
      let (signature, e₈, h₈) = then_do-ok _ _ kept h₇ in
      let (u₉, e₉, h₉) = then_do-ok _ _ kept h₈ in
      let (v, e₁₀, h₁₀) = then_do-ok _ _ kept h₉ in
      let (w, e₁₁, h₁₁) = then_do-ok _ _ kept h₁₀ in
      let (strong, signed) =
        (verify_rsa_sha256_signature-ok o.crypto o.encoding raw signature pem).0 e₁₁ in
      (
        record {
          pem = pem;
          hex = hex;
          signature = signature;
          has_key =
              filled-ok o "provider readiness" "public_key_pem"
                (text_member "public_key_pem" claimed) pem e₆;
          has_signature =
              filled-ok o "provider readiness" "signature_hex" (text_member "signature_hex" claimed)
                hex e₅;
          decodes = e₈;
          strong = strong;
          signed = signed;
        },
        signer,
        sym (ok_injective _ kept h₁₁),
      )

  pub verified_readiness-IsProven :
      (state : AppState) (body : Bytes) (p : VerifiedReadiness)
      → verified_readiness o state body ≡ ok p
      → IsProven state.provider_readiness_trusted_key_sha256s p
  unfolding verified_readiness
  verified_readiness-IsProven state body p h =
      let trusted = state.provider_readiness_trusted_key_sha256s in
      let (u₁, e₁, h₁) = then_do-ok _ _ p h in
      let (upload, e₂, h₂) = then_do-ok _ _ p h₁ in
      let (u₃, e₃, h₃) = then_do-ok _ _ p h₂ in
      let (u₄, e₄, h₄) = then_do-ok _ _ p h₃ in
      let (kept, e₅, h₅) = then_do-ok _ _ p h₄ in
      let raw = canonical_bytes o upload.readiness in
      let (by, signer, same) = verified-IsKept raw upload.signature trusted kept e₅ in
      let proven : IsProven trusted
          (record { readiness = upload.readiness; raw = raw; signature = kept }) =
        record {
          claimed = upload.signature;
          contracts = e₄;
          canonical = refl;
          signed_by = by;
          authority =
              ap authority_of same
              ∙ verified_object-authority by.hex (sha256_hex o.crypto by.signature)
                  (sha256_hex o.crypto (as_bytes o.crypto o.encoding by.pem)) signer
                  (key_matches o trusted
                    (sha256_hex o.crypto (as_bytes o.crypto o.encoding by.pem)));
          signer = signer;
          kept = same;
        } in
      subst (IsProven trusted) (ok_injective _ p h₅) proven

  accept_readiness-ok :
      (clock : Clock) (p : VerifiedReadiness) (s : Storage) (receipt : IngestReceipt)
      → (accept_readiness o clock p s).0 ≡ ok receipt
      → receipt ≡ new clock.stored (digest_of o p.readiness) provider_readiness_schema
  unfolding accept_readiness
  accept_readiness-ok clock p s receipt h =
      let sha = digest_of o p.readiness in
      sym (
        answer_of_three (on_bundles o (Bundle.write provider_readiness sha p.raw))
          (record_sidecar o provider_readiness_signature "provider readiness" sha
            (o.print_readiness_sidecar (sidecar_of o sha p.signature)))
          (index_entry o (record {
            ingested_at = clock.ingested;
            schema = provider_readiness_schema;
            provider = none;
            sha256 = sha;
            status = some "signed";
            size_bytes = length p.raw;
          }))
          _ receipt s h)

  accept_readiness-Settled :
      (clock : Clock) (p : VerifiedReadiness) (s : Storage) (receipt : IngestReceipt)
      → s.host.faults ≡ []
      → (accept_readiness o clock p s).0 ≡ ok receipt
      → Settled provider_readiness_signature
          (digest_of o p.readiness)
          (o.print_readiness_sidecar (sidecar_of o (digest_of o p.readiness) p.signature))
          (accept_readiness o clock p s).1
  unfolding accept_readiness
  accept_readiness-Settled clock p s receipt calm h =
      let sha = digest_of o p.readiness in
      sidecar-Settled o provider_readiness_signature "provider readiness" sha
        (o.print_readiness_sidecar (sidecar_of o sha p.signature))
        (on_bundles o (Bundle.write provider_readiness sha p.raw)) _ _ receipt s
        (write_calm provider_readiness sha p.raw s.host calm).1 h

  pub post_signed_readiness-Settled :
      (state : AppState) (clock : Clock) (body : Bytes) (s : Storage) (receipt : IngestReceipt)
      (p : VerifiedReadiness)
      → s.host.faults ≡ []
      → verified_readiness o state body ≡ ok p
      → (post_signed_provider_readiness o state clock body s).0 ≡ ok receipt
      → Settled provider_readiness_signature
          (sha256_hex o.crypto p.raw)
          (o.print_readiness_sidecar (sidecar_of o (sha256_hex o.crypto p.raw) p.signature))
          (post_signed_provider_readiness o state clock body s).1
  unfolding post_signed_provider_readiness
  post_signed_readiness-Settled state clock body s receipt p calm e h =
      let well : (accept_readiness o clock p s).0 ≡ ok receipt =
        ap (λ (r : Result AppError VerifiedReadiness). (continue r (accept_readiness o clock) s).0)
          (sym e)
        ∙ h in
      subst
        (λ (d : String).
          Settled provider_readiness_signature d
            (o.print_readiness_sidecar (sidecar_of o d p.signature))
            (post_signed_provider_readiness o state clock body s).1)
        (ap (sha256_hex o.crypto) (sym (verified_readiness-IsProven state body p e).canonical))
        (subst
          (λ (r : Result AppError VerifiedReadiness).
            Settled provider_readiness_signature (digest_of o p.readiness)
              (o.print_readiness_sidecar (sidecar_of o (digest_of o p.readiness) p.signature))
              (continue r (accept_readiness o clock) s).1)
          (sym e) (accept_readiness-Settled clock p s receipt calm well))

  -- If the file system answers every call, a signed readiness artifact that is answered by a receipt
  -- shows a verified contract of each of the three providers, and its canonical text is signed by a key
  -- of at least 2048 bits, both named by the claimed signature object; the receipt has the digest of
  -- that text. The file that then stands in the store as the signature sidecar of that digest is the
  -- printed one with the object that was made of the claim, which says that it is authoritative exactly
  -- if the digest of the key is one that is configured.
  pub post_signed_readiness-IsProven :
      (state : AppState) (clock : Clock) (body : Bytes) (s : Storage) (receipt : IngestReceipt)
      → s.host.faults ≡ []
      → (post_signed_provider_readiness o state clock body s).0 ≡ ok receipt
      → (p : VerifiedReadiness) × (verified_readiness o state body ≡ ok p)
        × (receipt ≡ new clock.stored (sha256_hex o.crypto p.raw) provider_readiness_schema)
        × IsProven state.provider_readiness_trusted_key_sha256s p
        × ((f : File) × (lookup
                (path provider_readiness_signature (sha256_hex o.crypto p.raw))
                (post_signed_provider_readiness o state clock body s).1.host.files
              ≡ some f)
            × (f.content
                ≡ o.print_readiness_sidecar (record {
                  schema_version = signature_schema;
                  provider_readiness_sha256 = sha256_hex o.crypto p.raw;
                  signature = p.signature;
                })))
  unfolding post_signed_provider_readiness
  post_signed_readiness-IsProven state clock body s receipt calm h =
      let (p, e, h₁) = continue-ok (verified_readiness o state body) _ s receipt h in
      let proven = verified_readiness-IsProven state body p e in
      let digest : digest_of o p.readiness ≡ sha256_hex o.crypto p.raw =
        ap (sha256_hex o.crypto) (sym proven.canonical) in
      (
        p,
        e,
        accept_readiness-ok clock p s receipt h₁
            ∙ ap (λ d. new clock.stored d provider_readiness_schema) digest,
        proven,
        (post_signed_readiness-Settled state clock body s receipt p calm e h).0,
      )
