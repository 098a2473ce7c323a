-- ===== src/Readiness/Authority.antt =====
-- Which signed readiness artifacts the support bundle takes to be authoritative for a release.
use ao2_control_plane.Base.{
  ◌↔◌, ◌⊎◌, inl, inr, Bool-cases, ◌≡◌, refl, ap, sym, ◌∙◌, String, Bool, true, false, List, [], ◌∷◌,
  any, Option, some, ok, string_eq, arith,
}
use ao2_control_plane.Base.Text.{codes, codes_eq, to_ascii_lowercase}
use ao2_control_plane.Disk.{Bytes, Host, File, lookup, metadata, read_file}
use ao2_control_plane.Bundle
use ao2_control_plane.Bundle.{path}
use ao2_control_plane.Bundle.Kind.{provider_readiness_signature}
use ao2_control_plane.Index.State.{Storage}
use ao2_control_plane.Json.{Value, get, find_member, as_bool, as_object}
use ao2_control_plane.Schema.Responses.{IngestReceipt}
use ao2_control_plane.Server.Signing.{sha256_hex, as_bytes, eq_ignore_ascii_case}
use ao2_control_plane.Support.State.{SupportBundleSignatureSummary}
use ao2_control_plane.Support.Gaps.{is_release_authoritative}
use ao2_control_plane.Support.Sidecars.{signature_summary_of, support_bundle_signature_summary}
use ao2_control_plane.Ingest.{Outside, AppState, Clock}
use ao2_control_plane.Readiness.Signature.{key_matches, verified_object}
use ao2_control_plane.Readiness.Handlers.{
  VerifiedReadiness, verified_readiness, sidecar_of, post_signed_provider_readiness,
}
use ao2_control_plane.Readiness.Provenance.{
  IsProven, verified_readiness-IsProven, post_signed_readiness-Settled,
}

module _ (P : String → Type 0) where
  abbrev pub Any : List String → Type 0
  Any [] = ⊥
  Any (x ∷ xs) = P x ⊎ Any xs

any-Any :
    (p : String → Bool) (P : String → Type 0)
    → ((s : String) → (p s ≡ true) ↔ P s)
    → (xs : List String) → (any p xs ≡ true) ↔ Any P xs
any-Any p P each [] = ground arith
any-Any p P each (x ∷ xs) =
    let here = each x in
    let there = any-Any p P each xs in
    (
      λ h. elim (Bool-cases (p x)) [
        | inl y ↦ inl (here.0 y)
        | inr n ↦ inr (there.0 (ground arith))
      ],
      λ h. elim h [ inl a ↦ ground (arith, here.1 a) | inr a ↦ ground (arith, there.1 a) ],
    )

same_key :
    (sha : String) (t : String)
    → (eq_ignore_ascii_case t sha ≡ true)
      ↔ (to_ascii_lowercase (codes t) ≡ to_ascii_lowercase (codes sha))
same_key sha t = ground arith

-- What the support bundle reads off a sidecar with the object that is kept.
authority_of_kept :
    (url hex signature_sha256 key signer : String) (trusted : Bool) (value : Value)
    → get "signature" value ≡ some (verified_object hex signature_sha256 key signer trusted)
    → is_release_authoritative (signature_summary_of provider_readiness_signature url value)
      ≡ trusted
unfolding is_release_authoritative signature_summary_of get find_member as_object as_bool string_eq
authority_of_kept url hex signature_sha256 key signer true value e = rw e refl
authority_of_kept url hex signature_sha256 key signer false value e = rw e refl

module _ (o : Outside) (parse_json : Bytes → Option Value) where
  summary_calm :
      (sha url : String) (h : Host) (f : File) (value : Value)
      → h.faults ≡ []
      → lookup (path provider_readiness_signature sha) h.files ≡ some f
      → parse_json f.content ≡ some value
      → (support_bundle_signature_summary parse_json provider_readiness_signature sha url h).0
        ≡ ok (some (signature_summary_of provider_readiness_signature url value))
  unfolding support_bundle_signature_summary Bundle.exists Bundle.read metadata read_file
  summary_calm sha url h f value calm there parses = ground arith

  -- After a signed readiness artifact was answered by a receipt, on a file system that answers every
  -- call, the support bundle finds its signature sidecar, if the bytes that were printed there parse as
  -- an object with the signature that was printed, and takes it to be release authoritative exactly if
  -- the configured list has the digest of the key that was claimed, whatever the case of the letters.
  pub signed_readiness-IsPinned :
      (state : AppState) (clock : Clock) (body : Bytes) (s : Storage) (receipt : IngestReceipt)
      (p : VerifiedReadiness) (value : Value) (url : String)
      → s.host.faults ≡ []
      → verified_readiness o state body ≡ ok p
      → (post_signed_provider_readiness o state clock body s).0 ≡ ok receipt
      → parse_json
          (o.print_readiness_sidecar (sidecar_of o (sha256_hex o.crypto p.raw) p.signature))
        ≡ some value
      → get "signature" value ≡ some p.signature
      → (proven : IsProven o state.provider_readiness_trusted_key_sha256s p)
        × (x : SupportBundleSignatureSummary) × ((support_bundle_signature_summary parse_json
              provider_readiness_signature
              (sha256_hex o.crypto p.raw)
              url
              (post_signed_provider_readiness o state clock body s).1.host).0
            ≡ ok (some x))
        × ((is_release_authoritative x ≡ true)
            ↔ Any
                (λ t.
                  to_ascii_lowercase (codes t)
                  ≡ to_ascii_lowercase (
                      codes
                        (sha256_hex o.crypto (as_bytes o.crypto o.encoding proven.signed_by.pem))))
                state.provider_readiness_trusted_key_sha256s)
  signed_readiness-IsPinned state clock body s receipt p value url calm e h parses has =
      let trusted = state.provider_readiness_trusted_key_sha256s in
      let proven = verified_readiness-IsProven o state body p e in
      let key = sha256_hex o.crypto (as_bytes o.crypto o.encoding proven.signed_by.pem) in
      let settled = post_signed_readiness-Settled o state clock body s receipt p calm e h in
      let f = settled.0.0 in
      let same =
        authority_of_kept url proven.signed_by.hex (sha256_hex o.crypto proven.signed_by.signature)
          key proven.signer (key_matches o trusted key) value (has ∙ ap some proven.kept) in
      let pinned = any-Any (λ t. eq_ignore_ascii_case t key) _ (same_key key) trusted in
      (
        proven,
        signature_summary_of provider_readiness_signature url value,
        summary_calm (sha256_hex o.crypto p.raw) url
            (post_signed_provider_readiness o state clock body s).1.host f value settled.1
            settled.0.1 (ap parse_json settled.0.2 ∙ parses),
        (λ a. pinned.0 (sym same ∙ a), λ a. same ∙ pinned.1 a),
      )
