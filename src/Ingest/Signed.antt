-- ===== src/Ingest/Signed.antt =====
-- The signed uploads of crates/ao2-cp-server/src/handlers/memory.rs.
use ao2_control_plane.Base.{
  ℕ, ◌+◌, ◌-◌, ◌*◌, String, ◌<>◌, Bool, true, false, not, ◌&&◌, [], ◌∷◌, Option, none, some, Result,
  ok, err, ◌>>=◌, ◌>>◌, lift, then_do, require, map_err, leb, string_eq, nat_eq, ◌==◌, length,
  if◌then◌else◌,
}
use ao2_control_plane.Base.Text.{codes, codes_eq, trim}
use ao2_control_plane.Disk.{Bytes}
use ao2_control_plane.Bundle
use ao2_control_plane.Bundle.Kind.{BundleKind, memory_export, memory_export_signature}
use ao2_control_plane.Index.State.{Storage}
use ao2_control_plane.Disk.{Host}
use ao2_control_plane.Json.{Value, get, as_str}
use ao2_control_plane.Schema.Memory.{MemoryExport, parse_memory_export, describe}
use ao2_control_plane.Schema.Responses.{IngestReceipt, new}
use ao2_control_plane.Server.AppError.{AppError}
use ao2_control_plane.Server.Signing.{
  text_member, sha256_hex, as_bytes, verify_rsa_sha256_signature, annotate_trust_policy,
}
use ao2_control_plane.Ingest.{
  Outside, SignedMemoryExportUpload, SignatureSidecar, AppState, Clock, Method, ensure,
  schema_error, on_bundles, digest_of, store_absent, index_entry,
}

abbrev pub signed_upload_schema : String
signed_upload_schema = "ao2.cp-memory-export-signed-upload.v1"

abbrev pub signature_schema : String
signature_schema = "ao2.cp-memory-export-signature.v1"

-- What is known of an upload that is verified. The signature is the one that is claimed, annotated.
pub record VerifiedUpload : Type 0 where
  pub raw : Bytes
  pub export : MemoryExport
  pub sha : String
  pub claimed : Value
  pub signature : Value

abbrev hex_value : ℕ → Option ℕ
hex_value c =
    if leb b'0' c && leb c b'9'
    then some (c - b'0')
    else if leb b'a' c && leb c b'f'
    then some (c - b'a' + 10)
    else if leb b'A' c && leb c b'F'
    then some (c - b'A' + 10)
    else none

abbrev pair_value : Option ℕ → Option ℕ → Option ℕ
pair_value (some a) (some b) = some (a * 16 + b)
pair_value _ _ = none

-- `u8::from_str_radix(pair, 16)`, which takes a plus sign before a digit.
unfoldable pub from_str_radix : ℕ → ℕ → Option ℕ
unfolding nat_eq
from_str_radix a b = if a == b'+' then hex_value b else pair_value (hex_value a) (hex_value b)

module _ (o : Outside) where
  abbrev decoded : Option ℕ → Result AppError Bytes → Result AppError Bytes
  decoded none rest = err (AppError.schema_invalid "signature_hex is not valid hex")
  decoded (some byte) (err e) = err e
  decoded (some byte) (ok bytes) = ok (byte ∷ bytes)

  -- `chunks_exact(2)`: a last byte alone would be left out.
  unfoldable pub decode_pairs : Bytes → Result AppError Bytes
  unfolding from_str_radix
  decode_pairs [] = ok []
  decode_pairs (a ∷ []) = ok []
  decode_pairs (a ∷ b ∷ rest) =
      let more = decode_pairs rest in
      if not (o.is_utf8 (a ∷ b ∷ []))
      then err (AppError.schema_invalid "signature_hex is not utf-8")
      else decoded (from_str_radix a b) more

  abbrev is_even : Bytes → Bool
  is_even [] = true
  is_even (a ∷ []) = false
  is_even (a ∷ b ∷ rest) = is_even rest

  unfoldable pub decode_hex : Bytes → Result AppError Bytes
  unfolding decode_pairs
  decode_hex value =
      if not (is_even value)
      then err (AppError.schema_invalid "signature_hex must have an even number of characters")
      else decode_pairs value

  abbrev pub non_empty : Option String → Option String
  non_empty none = none
  non_empty (some s) = if s == "" then none else some s

  -- `what` names the document in the texts of the errors, which differ by nothing else.
  abbrev pub filled : String → String → Option String → Result AppError String
  filled what field none = err (AppError.schema_invalid ("signed " <> what <> " missing " <> field))
  filled what field (some value) =
      if trim (codes value) == []
      then err (AppError.schema_invalid ("signed " <> what <> " missing " <> field))
      else ok value

  unfoldable pub required_signature_string : String → Value → String → Result AppError String
  unfolding get as_str trim codes_eq
  required_signature_string what signature field = filled what field (text_member field signature)

  -- A digest that is declared must be that of the bytes.
  abbrev pub agree : String → Option String → String → Result AppError (Unit {0})
  agree name none actual = ok tt
  agree name (some expected) actual =
      if not (actual == expected)
      then err (
          AppError.schema_invalid
            (name <> " mismatch: expected " <> expected <> ", got " <> actual))
      else ok tt

  abbrev pub or_empty : Option String → String
  or_empty none = ""
  or_empty (some s) = s

  abbrev pub check_algorithm : String → String → Result AppError (Unit {0})
  check_algorithm what algorithm =
      if not (algorithm == "RSA/SHA-256")
      then err (
          AppError.schema_invalid ("unsupported " <> what <> " signature algorithm: " <> algorithm))
      else ok tt

  unfoldable pub verify_signed : String → Bytes → Value → Result AppError (Unit {0})
  unfolding string_eq get as_str required_signature_string decode_hex sha256_hex
      verify_rsa_sha256_signature
  verify_signed what signed_bytes signature =
      then_do (check_algorithm what (or_empty (text_member "signature_algorithm" signature))) (λ u.
        then_do (required_signature_string what signature "signature_hex") (λ signature_hex.
          then_do (required_signature_string what signature "public_key_pem") (λ public_key_pem.
            then_do (decode_hex (as_bytes o.crypto o.encoding signature_hex)) (λ signature_bytes.
              then_do
                (agree "signature_sha256" (non_empty (text_member "signature_sha256" signature))
                  (sha256_hex o.crypto signature_bytes))
                (λ v.
                  then_do
                    (agree "public_key_sha256"
                      (non_empty (text_member "public_key_sha256" signature))
                      (sha256_hex o.crypto (as_bytes o.crypto o.encoding public_key_pem)))
                    (λ w.
                      verify_rsa_sha256_signature o.crypto o.encoding signed_bytes signature_bytes
                        public_key_pem))))))

  unfoldable pub verify_signed_memory_export : Bytes → Value → Result AppError (Unit {0})
  unfolding verify_signed
  verify_signed_memory_export = verify_signed "memory export"

  abbrev decode_export_b64 : String → Result AppError Bytes
  decode_export_b64 encoded =
      map_err (λ e. AppError.schema_invalid ("export_b64 is not valid base64: " <> e))
        (o.decode_base64 (as_bytes o.crypto o.encoding encoded))

  -- The bytes that the producer signed.
  abbrev pub signed_bytes_of : SignedMemoryExportUpload → Result AppError Bytes
  signed_bytes_of upload = elim upload.export_b64 [
    | some encoded ↦ decode_export_b64 encoded
    | none ↦ ok (o.to_string_pretty upload.export)
  ]

  -- The sidecar is written once, and any later one must be the same.
  abbrev pub record_or_compare :
      BundleKind
      → String
      → String
      → Bytes
      → Storage
      → Bool × Host
      → Result AppError (Unit {0}) × Storage
  record_or_compare kind what sha raw s (true, h) =
      (do
        existing ← on_bundles o (Bundle.read kind sha)
        ensure (existing == raw) (
            AppError.schema_invalid
              (what <> " signature sidecar already exists for this sha with different provenance")))
        (record s { host = h })
  record_or_compare kind what sha raw s (false, h) =
      on_bundles o (Bundle.write kind sha raw) (record s { host = h })

  unfoldable pub record_sidecar : BundleKind → String → String → Bytes → Method (Unit {0})
  unfolding codes_eq
  record_sidecar kind what sha raw s =
      record_or_compare kind what sha raw s (Bundle.exists kind sha s.host)

  abbrev pub sidecar_of : String → Value → SignatureSidecar
  sidecar_of sha signature = record {
    schema_version = signature_schema;
    export_sha256 = sha;
    signature = signature;
  }

  unfoldable pub accept_signed : Clock → VerifiedUpload → Method IngestReceipt
  unfolding store_absent record_sidecar index_entry
  accept_signed clock p = do
    store_absent o memory_export p.sha p.raw
    record_sidecar memory_export_signature "memory export" p.sha
        (o.print_sidecar (sidecar_of p.sha p.signature))
    index_entry o (record {
      ingested_at = clock.ingested;
      schema = p.export.schema_version;
      provider = none;
      sha256 = p.sha;
      status = some "signed";
      size_bytes = length p.raw;
    })
    λ s. (ok (new clock.stored p.sha p.export.schema_version), s)

  -- `none` is the panic of the annotation, which a signature that was verified excludes.
  abbrev pub or_panic : Option Value → Result AppError Value
  or_panic none = err (AppError.internal "panicked")
  or_panic (some v) = ok v

  -- The part of the handler before it turns to the storage.
  unfoldable pub verified_upload : AppState → Bytes → Result AppError VerifiedUpload
  unfolding string_eq schema_error parse_memory_export verify_signed_memory_export
      annotate_trust_policy
  verified_upload state body =
      then_do (require (leb (length body) state.max_body_bytes) AppError.body_too_large) (λ u.
        then_do (map_err AppError.bad_request (o.signed_upload body)) (λ upload.
          then_do
            (require (upload.schema_version == signed_upload_schema) (
              AppError.schema_unknown (
                "expected schema_version " <> signed_upload_schema <> ", got "
                <> upload.schema_version)))
            (λ v. then_do (signed_bytes_of upload) (λ raw.
              then_do (verify_signed_memory_export raw upload.signature) (λ w.
                then_do
                  (require (o.is_utf8 raw) (
                    AppError.schema_invalid
                      ("signed memory export is not utf-8: " <> o.utf8_error raw)))
                  (λ x.
                    then_do
                      (map_err (λ e. schema_error "expected schema_version" (describe e))
                        (parse_memory_export o.memory_export raw))
                      (λ export.
                        then_do (map_err AppError.schema_invalid (o.from_slice raw)) (λ value.
                          then_do
                            (or_panic (
                              annotate_trust_policy o.crypto o.encoding upload.signature
                                state.signed_artifact_trusted_key_sha256s))
                            (λ signature. ok (record {
                              raw = raw;
                              export = export;
                              sha = digest_of o value;
                              claimed = upload.signature;
                              signature = signature;
                            }))))))))))

  unfoldable pub post_signed_memory_export : AppState → Clock → Bytes → Method IngestReceipt
  unfolding verified_upload accept_signed
  post_signed_memory_export state clock body = do
    p ← lift (verified_upload state body)
    accept_signed clock p
