-- ===== src/Server/Signing/Verified.antt =====
-- When a signature is accepted.
use ao2_control_plane.Base.{ℕ, ◌*◌, ◌≤◌, ◌≡◌, refl, String, Result, ok, err, ◌↔◌, arith}
use ao2_control_plane.Disk.{Bytes}
use ao2_control_plane.Server.Signing.{
  Crypto, Encoding, verify_rsa_sha256_signature, check_key, check_signature, invalid,
  min_rsa_key_bits,
}

module _ (k : Crypto) (u : Encoding) where
  -- The signature can be read and is one of the key over the message.
  abbrev pub IsSigned : Bytes → String → Result String Bytes → Type 0
  IsSigned message pem (err e) = ⊥
  IsSigned message pem (ok signature) = k.verify pem message signature ≡ ok tt

  abbrev pub IsStrong : Result String ℕ → Type 0
  IsStrong (err e) = ⊥
  IsStrong (ok size) = min_rsa_key_bits ≤ size * 8

  invalid-ok :
      (prefix : String) (r : Result String (Unit {0}))
      → (invalid k u prefix r ≡ ok tt) ↔ (r ≡ ok tt)
  invalid-ok prefix (ok tt) = (λ h. refl, λ h. refl)
  invalid-ok prefix (err e) = ground arith

  check_signature-ok :
      (message : Bytes) (pem : String) (r : Result String Bytes)
      → (check_signature k u message pem r ≡ ok tt) ↔ IsSigned message pem r
  check_signature-ok message pem (err e) = ground arith
  check_signature-ok message pem (ok signature) =
      invalid-ok "signature verification failed: " (k.verify pem message signature)

  check_key-ok :
      (message signature_bytes : Bytes) (pem : String) (r : Result String ℕ)
      → (check_key k u message signature_bytes pem r ≡ ok tt)
        ↔ (IsStrong r × IsSigned message pem (k.read_signature signature_bytes))
  check_key-ok message signature_bytes pem (err e) = ground arith
  check_key-ok message signature_bytes pem (ok size) =
      let c = check_signature-ok message pem (k.read_signature signature_bytes) in
      (λ h. (ground arith, c.0 (ground arith)), λ h. ground (arith, h.0, c.1 h.1))

  -- A signature is accepted exactly when the key can be read and has at least 2048 bits, the signature
  -- can be read, and it verifies under that key over those bytes.
  pub verify_rsa_sha256_signature-ok :
      (message signature_bytes : Bytes) (pem : String)
      → (verify_rsa_sha256_signature k u message signature_bytes pem ≡ ok tt)
        ↔ (IsStrong (k.key_size pem) × IsSigned message pem (k.read_signature signature_bytes))
  unfolding verify_rsa_sha256_signature
  verify_rsa_sha256_signature-ok message signature_bytes pem =
      check_key-ok message signature_bytes pem (k.key_size pem)
