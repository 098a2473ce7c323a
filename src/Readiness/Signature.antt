-- ===== src/Readiness/Signature.antt =====
-- `verified_provider_readiness_signature` of handlers/provider_readiness.rs.
use ao2_control_plane.Base.{
  String, ◌<>◌, Bool, true, List, [], ◌∷◌, any, none, some, Result, ok, err, string_eq, ◌==◌,
  if◌then◌else◌, contains, require, then_do,
}
use ao2_control_plane.Base.Text.{codes_eq, to_ascii_lowercase}
use ao2_control_plane.Disk.{Bytes}
use ao2_control_plane.Json.{Value, Members, bool, string, object, member, no_members, as_object}
use ao2_control_plane.Server.AppError.{AppError}
use ao2_control_plane.Server.Signing.{
  sha256_hex, as_bytes, verify_rsa_sha256_signature, eq_ignore_ascii_case,
}
use ao2_control_plane.Ingest.{Outside}
use ao2_control_plane.Ingest.Signed.{
  required_signature_string, check_algorithm, decode_hex, agree, non_empty,
}
use ao2_control_plane.Ingest.Dashboard.Source.{json_str}
use ao2_control_plane.Promotion.{or_else}

abbrev pub signature_schema : String
signature_schema = "ao2.cp-provider-readiness-signature.v1"

abbrev supported_fields : List String
supported_fields =
    "schema_version" ∷ "signature_algorithm" ∷ "signature_hex" ∷ "signature_sha256"
    ∷ "public_key_pem" ∷ "public_key_sha256" ∷ "signer_id" ∷ []

-- The loop over the keys of the signature.
unfoldable pub require_supported : Members → Result AppError (Unit {0})
unfolding string_eq
require_supported no_members = ok tt
require_supported (member key v rest) =
    then_do
      (require (contains supported_fields key) (
        AppError.schema_invalid
          ("provider readiness signature contains unsupported field " <> key)))
      (λ u. require_supported rest)

abbrev members_of : Value → Result AppError Members
members_of signature = elim (as_object signature) [
  | some members ↦ ok members
  | none ↦ err (AppError.schema_invalid "provider readiness signature must be an object")
]

abbrev require_signature_schema : String → Result AppError (Unit {0})
require_signature_schema schema =
    require (schema == signature_schema) (
      AppError.schema_unknown
        ("expected schema_version " <> signature_schema <> ", got " <> schema))

abbrev scope : Bool → String
scope trusted = if trusted then "cryptographic-and-pinned-key" else "cryptographic-only"

abbrev anchor : Bool → String
anchor trusted =
    if trusted
    then "configured-provider-readiness-public-key-sha256"
    else "upload-public-key-not-authority"

abbrev trust_policy : Bool → String → Value
trust_policy trusted sha = object (
    member "policy"
      (string (if trusted then "pinned-public-key-sha256" else "observer-only-upload-key"))
      (member "trusted_key_match" (bool trusted) (
        member "release_authoritative" (bool trusted)
          (member "matched_public_key_sha256" (string (if trusted then sha else "")) no_members))))

-- The object that is kept of a signature that verifies.
abbrev pub verified_object : String → String → String → String → Bool → Value
verified_object signature_hex signature_sha256 public_key_sha256 signer_id trusted_key_match =
    object (
      member "schema_version" (string signature_schema) (
        member "signature_algorithm" (string "RSA/SHA-256") (
          member "signature_hex" (string signature_hex) (
            member "signature_sha256" (string signature_sha256) (
              member "public_key_sha256" (string public_key_sha256) (
                member "signer_id" (string signer_id) (
                  member "signature_verified" (bool true) (
                    member "verification_scope" (string (scope trusted_key_match)) (
                      member "trust_anchor" (string (anchor trusted_key_match)) (
                        member "trust_policy" (trust_policy trusted_key_match public_key_sha256)
                          no_members))))))))))

module _ (o : Outside) where
  abbrev pub key_matches : List String → String → Bool
  key_matches trusted sha = any (λ t. eq_ignore_ascii_case t sha) trusted

  -- The part with the bytes of the signature.
  unfoldable pub verified_bytes :
      Bytes → Value → List String → String → String → String → Bytes → Result AppError Value
  unfolding json_str sha256_hex verify_rsa_sha256_signature string_eq to_ascii_lowercase codes_eq
  verified_bytes raw signature trusted hex pem signer_id bytes =
      let signature_sha256 = sha256_hex o.crypto bytes in
      let key_sha256 = sha256_hex o.crypto (as_bytes o.crypto o.encoding pem) in
      then_do
        (agree o "signature_sha256" (non_empty o (json_str signature "signature_sha256"))
          signature_sha256)
        (λ a.
          then_do
            (agree o "public_key_sha256" (non_empty o (json_str signature "public_key_sha256"))
              key_sha256)
            (λ b. then_do (verify_rsa_sha256_signature o.crypto o.encoding raw bytes pem) (λ c. ok (
              verified_object hex signature_sha256 key_sha256 signer_id
                (key_matches trusted key_sha256)))))

  abbrev readiness_text : Value → String → Result AppError String
  readiness_text signature field = required_signature_string o "provider readiness" signature field

  unfoldable pub verified_provider_readiness_signature :
      Bytes → Value → List String → Result AppError Value
  unfolding require_supported as_object json_str required_signature_string decode_hex verified_bytes
      string_eq
  verified_provider_readiness_signature raw signature trusted =
      then_do (members_of signature) (λ members. then_do (require_supported members) (λ a.
        then_do (require_signature_schema (or_else (json_str signature "schema_version") "")) (λ b.
          then_do
            (check_algorithm o "provider readiness"
              (or_else (json_str signature "signature_algorithm") ""))
            (λ c. then_do (readiness_text signature "signature_hex") (λ hex.
              then_do (readiness_text signature "public_key_pem") (λ pem.
                then_do (readiness_text signature "signer_id") (λ signer_id.
                  then_do (decode_hex o (as_bytes o.crypto o.encoding hex))
                    (λ bytes. verified_bytes raw signature trusted hex pem signer_id bytes))))))))
