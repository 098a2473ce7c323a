-- ===== src/Tests/Signatures.antt =====
-- Signed evidence of a promotion that is accepted.
use ao2_control_plane.Base.{
  ◌≡◌, refl, String, true, [], ◌∷◌, none, some, ok, string_eq, nat_eq, then_do,
}
use ao2_control_plane.Base.Text.{codes_eq, trim}
use ao2_control_plane.Disk.{
  create_dir_all, create, write_all, sync_data, insert, rename, erase, lookup, json, path_eq,
}
use ao2_control_plane.Bundle
use ao2_control_plane.Bundle.Kind.{subdir, phase1_promotion_checklist}
use ao2_control_plane.Index.State.{Storage, initial_state}
use ao2_control_plane.Index.{append_if_absent, ensure_loaded, file_fingerprint, is_current}
use ao2_control_plane.Json.{Value, string, object, member, no_members}
use ao2_control_plane.Json.Canonical.{write_value}
use ao2_control_plane.Schema.Responses.{new}
use ao2_control_plane.Server.Signing.{sha256_hex}
use ao2_control_plane.Ingest.{Outside, digest_of}
use ao2_control_plane.Promotion.Validate.{decision_schema}
use ao2_control_plane.Promotion.Handlers.{
  VerifiedDecision, verified_decision, post_signed_phase1_promotion_decision,
}
use ao2_control_plane.Promotion.Evidence.{provider_readiness_schema}
use ao2_control_plane.Readiness.Handlers.{
  VerifiedReadiness, verified_readiness, post_signed_provider_readiness,
}
use ao2_control_plane.Promotion.Provenance.{
  IsProven as IsProvenDecision, post_signed_decision-IsProven,
}
use ao2_control_plane.Readiness.Provenance.{
  IsProven as IsProvenReadiness, post_signed_readiness-IsProven,
}
use ao2_control_plane.Ingest.Keeps.{Grows}
use ao2_control_plane.Promotion.Immutable.{promotion-Grows}
use ao2_control_plane.Promotion.Handlers.{
  post_phase1_promotion_checklist, post_phase1_promotion_inputs_verification,
}
use ao2_control_plane.Readiness.Handlers.{post_provider_readiness}
use ao2_control_plane.Readiness.Signature.{signature_schema}
use ao2_control_plane.Disk.{File}
use ao2_control_plane.Bundle.{path}
use ao2_control_plane.Bundle.Kind.{provider_readiness_signature}
use ao2_control_plane.Json.{get, find_member}
use ao2_control_plane.Ingest.{AppState}
use ao2_control_plane.Server.Signing.{as_bytes}
use ao2_control_plane.Support.State.{SupportBundleSignatureSummary}
use ao2_control_plane.Support.Gaps.{is_release_authoritative}
use ao2_control_plane.Support.Sidecars.{support_bundle_signature_summary}
use ao2_control_plane.Readiness.Signature.{verified_object, key_matches}
use ao2_control_plane.Readiness.Handlers.{canonical_bytes}
use ao2_control_plane.Readiness.Authority.{Any, signed_readiness-IsPinned}
use ao2_control_plane.Base.{◌↔◌}
use ao2_control_plane.Base.Text.{codes, to_ascii_lowercase}
use ao2_control_plane.Promotion.Panel.{phase1_operator_panel_value}
use ao2_control_plane.Promotion.Panel.Shown.{PanelAnswer, operator_panel-IsAuthorised}
use ao2_control_plane.Tests.{no_files}
use ao2_control_plane.Tests.Documents.{toy_crypto}
use ao2_control_plane.Tests.Handlers.{body, clock, state, world, empty, sha}

abbrev claim_of : String → Value
claim_of schema = object (
    member "schema_version" (string schema) (
      member "signature_algorithm" (string "RSA/SHA-256") (
        member "public_key_pem" (string "pem")
          (member "signature_hex" (string "0a0b") (member "signer_id" (string "ci") no_members)))))

abbrev verified_contract : Value
verified_contract = object (member "status" (string "verified") no_members)

abbrev readiness : Value
readiness = object (
    member "schema" (string provider_readiness_schema) (
      member "contracts"
        (object (
          member "codex" verified_contract (
            member "claude" verified_contract (member "antigravity" verified_contract no_members))))
        no_members))

-- Every signature verifies.
abbrev readiness_world : Outside
readiness_world = record world {
  crypto = record toy_crypto { verify = λ pem message signature. ok tt };
  signed_readiness = λ bytes. ok (record {
    schema_version = "ao2.cp-provider-readiness-signed-upload.v1";
    readiness = readiness;
    signature = claim_of "ao2.cp-provider-readiness-signature.v1";
  });
}

-- The index knows the digest of the readiness.
abbrev knows_readiness : Storage
knows_readiness = record empty {
  index = record initial_state {
    loaded = true;
    digest_index = digest_of readiness_world readiness ∷ [];
  };
}

accepts_readiness :
    (post_signed_provider_readiness readiness_world state clock body knows_readiness).0
    ≡ ok (new 6 (digest_of readiness_world readiness) provider_readiness_schema)
unfolding post_signed_provider_readiness then_do native.Mathlib.Decide.ℕ_discrete write_value lookup
    Bundle.exists Bundle.read Bundle.write path_eq subdir append_if_absent ensure_loaded
    file_fingerprint is_current trim codes_eq create_dir_all Bundle.write_tmp_then_rename create
    write_all sync_data insert Bundle.tmp_path rename erase
accepts_readiness = refl

post_signed_readiness-IsProven_example :
    (p : VerifiedReadiness) × (verified_readiness readiness_world state body ≡ ok p)
    × (new 6 (digest_of readiness_world readiness) provider_readiness_schema
        ≡ new clock.stored (sha256_hex readiness_world.crypto p.raw) provider_readiness_schema)
    × IsProvenReadiness readiness_world [] p
    × ((f : File) × (lookup
            (path provider_readiness_signature (sha256_hex readiness_world.crypto p.raw))
            (post_signed_provider_readiness readiness_world state clock body
              knows_readiness).1.host.files
          ≡ some f)
        × (f.content
            ≡ readiness_world.print_readiness_sidecar (record {
              schema_version = signature_schema;
              provider_readiness_sha256 = sha256_hex readiness_world.crypto p.raw;
              signature = p.signature;
            })))
post_signed_readiness-IsProven_example =
    post_signed_readiness-IsProven readiness_world state clock body knows_readiness
      (new 6 (digest_of readiness_world readiness) provider_readiness_schema) refl accepts_readiness

abbrev key : String
key = sha256_hex readiness_world.crypto (as_bytes readiness_world.crypto world.encoding "pem")

abbrev pins_key : AppState
pins_key = record state { provider_readiness_trusted_key_sha256s = key ∷ [] }

abbrev signed_readiness : VerifiedReadiness
signed_readiness = record {
  readiness = readiness;
  raw = canonical_bytes readiness_world readiness;
  signature =
      verified_object "0a0b" (sha256_hex readiness_world.crypto (10 ∷ 11 ∷ [])) key "ci"
        (key_matches readiness_world (key ∷ []) key);
}

verifies : verified_readiness readiness_world pins_key body ≡ ok signed_readiness
unfolding post_signed_provider_readiness then_do native.Mathlib.Decide.ℕ_discrete write_value lookup
    Bundle.exists Bundle.read Bundle.write path_eq subdir append_if_absent ensure_loaded
    file_fingerprint is_current trim codes_eq create_dir_all Bundle.write_tmp_then_rename create
    write_all sync_data insert Bundle.tmp_path rename erase
verifies = refl

accepts_pinned :
    (post_signed_provider_readiness readiness_world pins_key clock body knows_readiness).0
    ≡ ok (new 6 (digest_of readiness_world readiness) provider_readiness_schema)
unfolding post_signed_provider_readiness then_do native.Mathlib.Decide.ℕ_discrete write_value lookup
    Bundle.exists Bundle.read Bundle.write path_eq subdir append_if_absent ensure_loaded
    file_fingerprint is_current trim codes_eq create_dir_all Bundle.write_tmp_then_rename create
    write_all sync_data insert Bundle.tmp_path rename erase
accepts_pinned = refl

abbrev read_sidecar : Value
read_sidecar = object (member "signature" signed_readiness.signature no_members)

has_signature : get "signature" read_sidecar ≡ some signed_readiness.signature
unfolding get find_member string_eq
has_signature = refl

signed_readiness-IsPinned_example :
    (proven : IsProvenReadiness readiness_world (key ∷ []) signed_readiness)
    × (x : SupportBundleSignatureSummary) × ((support_bundle_signature_summary
          (λ bytes. some read_sidecar)
          provider_readiness_signature
          (sha256_hex readiness_world.crypto signed_readiness.raw)
          "/signature"
          (post_signed_provider_readiness readiness_world pins_key clock body
            knows_readiness).1.host).0
        ≡ ok (some x))
    × ((is_release_authoritative x ≡ true)
        ↔ Any
            (λ t.
              to_ascii_lowercase (codes t)
              ≡ to_ascii_lowercase (
                  codes (
                    sha256_hex readiness_world.crypto
                      (as_bytes readiness_world.crypto world.encoding proven.signed_by.pem))))
            (key ∷ []))
signed_readiness-IsPinned_example =
    signed_readiness-IsPinned readiness_world (λ bytes. some read_sidecar) pins_key clock body
      knows_readiness (new 6 (digest_of readiness_world readiness) provider_readiness_schema)
      signed_readiness read_sidecar "/signature" refl verifies accepts_pinned refl has_signature

abbrev decision : Value
decision = object (
    member "schema" (string decision_schema) (
      member "status" (string "decided") (
        member "decision" (string "promote_phase1_candidate") (
          member "phase1_state" (string "release_candidate_observed") (
            member "checklist_sha256" (string sha) (
              member "operator" (string "ops") (member "rationale" (string "done") no_members)))))))

-- Two bytes are the decision.
abbrev decision_world : Outside
decision_world = record world {
  from_slice = λ bytes. ok decision;
  signed_decision = λ bytes. ok (record {
    schema_version = "ao2.cp-phase1-promotion-decision-signed-upload.v1";
    decision = decision;
    decision_b64 = some "{}";
    signature = claim_of "ao2.cp-phase1-promotion-decision-signature.v1";
  });
}

-- The checklist is there, and the index knows the digest of the decision.
abbrev knows_checklist : Storage
knows_checklist = record {
  host = record no_files {
    files =
        (
          record { dir = "phase1-promotion-checklist"; name = json sha },
          record { content = body; modified = none },
        )
        ∷ [];
  };
  index = record initial_state {
    loaded = true;
    digest_index = digest_of decision_world decision ∷ [];
  };
}

promotion-Grows_example :
    Grows knows_checklist (post_phase1_promotion_checklist world state clock body knows_checklist).1
    × Grows knows_checklist
        (post_phase1_promotion_inputs_verification world state clock body knows_checklist).1
    × Grows knows_checklist
        (post_signed_phase1_promotion_decision world state clock body knows_checklist).1
    × Grows knows_checklist (post_provider_readiness world state clock body knows_checklist).1
promotion-Grows_example = promotion-Grows world state clock body knows_checklist refl

accepts_decision :
    (post_signed_phase1_promotion_decision decision_world state clock body knows_checklist).0
    ≡ ok (new 6 (digest_of decision_world decision) decision_schema)
unfolding post_signed_phase1_promotion_decision then_do native.Mathlib.Decide.ℕ_discrete write_value
    lookup Bundle.exists Bundle.read Bundle.write path_eq subdir append_if_absent ensure_loaded
    file_fingerprint is_current trim codes_eq create_dir_all Bundle.write_tmp_then_rename create
    write_all sync_data insert Bundle.tmp_path rename erase
accepts_decision = refl

post_signed_decision-IsProven_example :
    (p : VerifiedDecision) × (verified_decision decision_world state body ≡ ok p)
    × IsProvenDecision decision_world p
    × ((Bundle.exists phase1_promotion_checklist p.checklist_sha knows_checklist.host).0 ≡ true)
    × (new 6 (digest_of decision_world decision) decision_schema
        ≡ new clock.stored (digest_of decision_world p.decision) decision_schema)
post_signed_decision-IsProven_example =
    post_signed_decision-IsProven decision_world state clock body knows_checklist
      (new 6 (digest_of decision_world decision) decision_schema) accepts_decision

-- The index has a decision, whose bundle is there.
abbrev decided : Storage
decided = record {
  host = record no_files {
    files =
        (
          record { dir = "phase1-promotion-decision"; name = json sha },
          record { content = body; modified = none },
        )
        ∷ [];
  };
  index = record initial_state {
    loaded = true;
    digest_index = sha ∷ [];
    entries =
        record {
          ingested_at = 3;
          schema = decision_schema;
          provider = none;
          sha256 = sha;
          status = some "signed";
          size_bytes = 2;
        }
        ∷ [];
  };
}

operator_panel-IsAuthorised_example :
    PanelAnswer decision_world decided (phase1_operator_panel_value decision_world decided).0
operator_panel-IsAuthorised_example = operator_panel-IsAuthorised decision_world decided
