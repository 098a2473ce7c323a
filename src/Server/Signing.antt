-- ===== src/Server/Signing.antt =====
-- crates/ao2-cp-server/src/signing.rs: checking a signature, and saying what authority it has.
pub mod Verified
use ao2_control_plane.Base.{
  ℕ, ◌*◌, ◌/◌, ◌%◌, ◌≡◌, String, ◌<>◌, Bool, true, false, not, ◌&&◌, List, [], ◌∷◌, any, Option,
  none, some, Result, ok, err, string_eq, nat_eq, ◌==◌, ltb, if◌then◌else◌,
}
use ao2_control_plane.Base.Decimal.{decimal}
use ao2_control_plane.Base.Text.{codes, codes_eq, to_ascii_lowercase}
use ao2_control_plane.Disk.{Bytes}
use ao2_control_plane.Json.{Value, bool, string, object, no_members, member, get, as_str, set}
use ao2_control_plane.Server.AppError.{AppError, schema_invalid}

-- What is taken from `sha2` and `rsa`. A key is its PEM text: `key_size` reads it and gives the length
-- of the modulus in bytes, `verify` is only called with a key and a signature that could be read.
-- Errors are their texts.
pub record Crypto : Type 0 where
  pub digest : Bytes → Bytes
  pub key_size : String → Result String ℕ
  pub read_signature : Bytes → Result String Bytes
  pub verify : String → Bytes → Bytes → Result String (Unit {0})

-- The bytes of a text.
pub record Encoding : Type 0 where
  pub utf8 : List ℕ → Bytes

abbrev pub min_rsa_key_bits : ℕ
min_rsa_key_bits = 2048

unfoldable hex_digit : ℕ → String
unfolding nat_eq decimal
hex_digit n =
    if ltb n 10
    then decimal n
    else if n == 10
    then "a"
    else if n == 11
    then "b"
    else if n == 12
    then "c"
    else if n == 13
    then "d"
    else if n == 14
    then "e"
    else "f"

-- `{byte:02x}` of each byte.
unfoldable pub hex_of : Bytes → String
unfolding hex_digit
hex_of [] = ""
hex_of (byte ∷ bytes) = hex_digit (byte / 16) <> hex_digit (byte % 16) <> hex_of bytes

abbrev pub and_then {ℓ κ} : {A : Type ℓ} {B : Type κ} → Option A → (A → Option B) → Option B
and_then none f = none
and_then (some a) f = f a

abbrev pub text_member : String → Value → Option String
text_member key v = and_then (get key v) as_str

-- The texts that an annotation chooses.
pub record Classification : Type 0 where
  pub verification_scope : String
  pub trust_anchor : String
  pub policy : String
  pub matched_public_key_sha256 : String

abbrev classify : Bool → String → Classification
classify trusted_key_match public_key_sha256 =
    if trusted_key_match
    then record {
      verification_scope = "cryptographic-and-pinned-key";
      trust_anchor = "configured-signed-artifact-public-key-sha256";
      policy = "pinned-public-key-sha256";
      matched_public_key_sha256 = public_key_sha256;
    }
    else record {
      verification_scope = "cryptographic-only";
      trust_anchor = "upload-public-key-not-authority";
      policy = "observer-only-upload-key";
      matched_public_key_sha256 = "";
    }

abbrev trust_policy : Bool → Classification → Value
trust_policy trusted_key_match c = object (
    member "policy" (string c.policy) (
      member "trusted_key_match" (bool trusted_key_match) (
        member "release_authoritative" (bool trusted_key_match)
          (member "matched_public_key_sha256" (string c.matched_public_key_sha256) no_members))))

abbrev pub eq_ignore_ascii_case : String → String → Bool
eq_ignore_ascii_case a b = to_ascii_lowercase (codes a) == to_ascii_lowercase (codes b)

unfoldable pub sha256_hex : Crypto → Bytes → String
unfolding hex_of
sha256_hex k bytes = hex_of (k.digest bytes)

module _ (k : Crypto) (u : Encoding) where
  abbrev pub as_bytes : String → Bytes
  as_bytes s = u.utf8 (codes s)

  abbrev invalid : String → Result String (Unit {0}) → Result AppError (Unit {0})
  invalid prefix (ok tt) = ok tt
  invalid prefix (err e) = err (AppError.schema_invalid (prefix <> e))

  abbrev check_signature : Bytes → String → Result String Bytes → Result AppError (Unit {0})
  check_signature message pem (err e) =
      err (AppError.schema_invalid ("signature_hex is not a valid RSA signature: " <> e))
  check_signature message pem (ok signature) =
      invalid "signature verification failed: " (k.verify pem message signature)

  abbrev check_key : Bytes → Bytes → String → Result String ℕ → Result AppError (Unit {0})
  check_key message signature_bytes pem (err e) =
      err (AppError.schema_invalid ("public_key_pem is invalid: " <> e))
  check_key message signature_bytes pem (ok size) =
      if ltb (size * 8) min_rsa_key_bits
      then err (
          AppError.schema_invalid (
            "RSA public key is "
            <> decimal (size * 8)
            <> " bits; the minimum accepted is "
            <> decimal min_rsa_key_bits))
      else check_signature message pem (k.read_signature signature_bytes)

  unfoldable pub verify_rsa_sha256_signature : Bytes → Bytes → String → Result AppError (Unit {0})
  verify_rsa_sha256_signature message signature_bytes pem =
      check_key message signature_bytes pem (k.key_size pem)

  -- The digest of the key that the signature object has, or the empty text.
  unfoldable pub key_sha256_of : Value → String
  unfolding get as_str sha256_hex
  key_sha256_of signature = elim (text_member "public_key_pem" signature) [
    | none ↦ ""
    | some pem ↦ sha256_hex k (as_bytes pem)
  ]

  unfoldable pub is_trusted_key : List String → String → Bool
  unfolding string_eq to_ascii_lowercase codes_eq
  is_trusted_key trusted_key_sha256s sha =
      not (sha == "") && any (λ trusted. eq_ignore_ascii_case trusted sha) trusted_key_sha256s

  -- The object with five members set; `none` is the panic at a value that has no members.
  unfoldable pub annotate_trust_policy : Value → List String → Option Value
  unfolding set key_sha256_of is_trusted_key
  annotate_trust_policy signature trusted_key_sha256s =
      let sha = key_sha256_of signature in
      let trusted = is_trusted_key trusted_key_sha256s sha in
      let c = classify trusted sha in
      and_then (set "signature_verified" (bool true) signature) (λ v₁.
        and_then (set "public_key_sha256" (string sha) v₁) (λ v₂.
          and_then (set "verification_scope" (string c.verification_scope) v₂) (λ v₃.
            and_then (set "trust_anchor" (string c.trust_anchor) v₃)
              (λ v₄. set "trust_policy" (trust_policy trusted c) v₄))))
