-- ===== src/Tests/Handlers.antt =====
-- Bodies that are taken in and given out.
use ao2_control_plane.Base.{
  ◌≡◌, refl, String, true, false, [], ◌∷◌, none, some, ok, err, ◌==◌, if◌then◌else◌, string_eq,
  then_do, nat_eq, length, arith,
}
use ao2_control_plane.Base.Text.{codes, codes_eq}
use ao2_control_plane.Disk.{Bytes, File, lookup, json, path_eq}
use ao2_control_plane.Bundle
use ao2_control_plane.Bundle.{path}
use ao2_control_plane.Bundle.Kind.{subdir, memory_export_signature}
use ao2_control_plane.Index.State.{
  IndexEntry, Storage, Codec, Prints, initial_state, is_blank, is_valid_sha256_hex,
}
use ao2_control_plane.Index.{ledger, is_current, append_if_absent, ensure_loaded, file_fingerprint}
use ao2_control_plane.Index.Load.{nothing, load_file}
use ao2_control_plane.Index.Lines.{ends_line}
use ao2_control_plane.Index.Coherence.{IsCoherent}
use ao2_control_plane.Json.{Value, null, string, object, member, no_members}
use ao2_control_plane.Json.Canonical.{canonical_json, write_value}
use ao2_control_plane.Schema.ControlPlane.{ControlPlaneBundle}
use ao2_control_plane.Schema.Memory.{parse_memory_export}
use ao2_control_plane.Schema.Responses.{new}
use ao2_control_plane.Server.Signing.{sha256_hex}
use ao2_control_plane.Server.Caching.{validate_sha, format_etag, cacheable_json_response}
use ao2_control_plane.Ingest.{
  Outside, AppState, Clock, SignedMemoryExportUpload, SignedDecisionUpload, SignedReadinessUpload,
  admitted, digest_of,
}
use ao2_control_plane.StorageHandlers.{storage_prune, destructive_prune_enabled}
use ao2_control_plane.StorageHandlers.Guard.{IsHarmless, storage_prune-IsHarmless}
use ao2_control_plane.Ingest.Acceptance.{post_acceptance, get_acceptance}
use ao2_control_plane.Ingest.Acceptance.{ListQuery as AcceptanceQuery}
use ao2_control_plane.Ingest.Dashboard.{acceptance_dashboard_value}
use ao2_control_plane.Ingest.Dashboard.Faithful.{FaithfulAnswer, acceptance_dashboard-IsFaithful}
use ao2_control_plane.Ingest.{on_index}
use ao2_control_plane.Index.{read_all}
use ao2_control_plane.Ingest.ControlPlane.{post_bundle, get_bundle}
use ao2_control_plane.Ingest.Memory.{post_memory_export, get_memory_export}
use ao2_control_plane.Ingest.Signed.{
  signature_schema, VerifiedUpload, verified_upload, post_signed_memory_export,
  signed_upload_schema,
}
use ao2_control_plane.Ingest.Keeps.{Grows}
use ao2_control_plane.Ingest.Immutable.{ingest-Grows}
use ao2_control_plane.Ingest.Genuine.{IsGenuine, get-IsGenuine}
use ao2_control_plane.Ingest.RoundTrip.{get_memory_export-post}
use ao2_control_plane.Ingest.Provenance.{IsProven, post_signed-IsProven}
use ao2_control_plane.Ingest.Accepts.{Accepted, entry_of, post_memory_export-Accepted}
use ao2_control_plane.Tests.{no_files}
use ao2_control_plane.Tests.Documents.{
  toy_crypto, ascii, decode_export, export_of, decode_acceptance,
}

abbrev pub body : Bytes
body = codes "{}"

abbrev pub sha : String
sha = "0200000000000000000000000000000000000000000000000000000000000000"

abbrev pub clock : Clock
clock = record { ingested = 5; stored = 6 }

abbrev pub state : AppState
state = record {
  max_body_bytes = 100;
  signed_artifact_trusted_key_sha256s = [];
  provider_readiness_trusted_key_sha256s = [];
}

abbrev entry : IndexEntry
entry = entry_of clock body (export_of (null ∷ [])) sha

-- An entry is printed as its digest.
abbrev pub codec : Codec
codec = record {
  print = λ e. codes e.sha256;
  parse = λ bytes. if bytes == codes sha then some entry else none;
  is_utf8 = λ bytes. true;
}

abbrev claim : Value
claim = object (
    member "signature_algorithm" (string "RSA/SHA-256")
      (member "public_key_pem" (string "pem") (member "signature_hex" (string "0a0b") no_members)))

abbrev upload : SignedMemoryExportUpload
upload = record {
  schema_version = signed_upload_schema;
  export = object no_members;
  export_b64 = none;
  signature = claim;
}

abbrev fleet : ControlPlaneBundle
fleet = record { schema_version = "ao2.control-plane-fleet-bundle.v1"; rest = no_members }

abbrev signed_decision : SignedDecisionUpload
signed_decision = record {
  schema_version = "ao2.cp-phase1-promotion-decision-signed-upload.v1";
  decision = object no_members;
  decision_b64 = none;
  signature = claim;
}

abbrev signed_readiness : SignedReadinessUpload
signed_readiness = record {
  schema_version = "ao2.cp-provider-readiness-signed-upload.v1";
  readiness = object no_members;
  signature = claim;
}

-- Two bytes are the empty object, as a document of each kind.
abbrev pub world : Outside
world = record {
  crypto = toy_crypto;
  encoding = ascii;
  codec = codec;
  is_utf8 = λ bytes. true;
  utf8_error = λ bytes. "";
  from_slice = λ bytes. if length bytes == 2 then ok (object no_members) else err "EOF";
  acceptance = decode_acceptance;
  memory_export = decode_export;
  control_plane_bundle = λ bytes. ok fleet;
  signed_upload = λ bytes. ok upload;
  signed_decision = λ bytes. ok signed_decision;
  signed_readiness = λ bytes. ok signed_readiness;
  print_decision_sidecar = λ sidecar. codes sidecar.phase1_promotion_decision_sha256;
  print_readiness_sidecar = λ sidecar. codes sidecar.provider_readiness_sha256;
  debug = λ text. text;
  to_string_pretty = λ value. canonical_json value;
  print_sidecar = λ sidecar. codes sidecar.export_sha256;
  decode_base64 = λ bytes. ok bytes;
  io_message = λ e. "disk";
}

abbrev pub empty : Storage
empty = record { host = no_files; index = initial_state }

ingest-Grows_example :
    Grows empty (post_acceptance world state clock body empty).1
    × Grows empty (post_memory_export world state clock body empty).1
    × Grows empty (post_signed_memory_export world state clock body empty).1
    × Grows empty (post_bundle world state clock body empty).1
ingest-Grows_example = ingest-Grows world state clock body empty refl

admits : admitted world state body ≡ ok tt
unfolding admitted
admits = refl

parses : parse_memory_export decode_export body ≡ ok (export_of (null ∷ []))
unfolding parse_memory_export native.Mathlib.Decide.ℕ_discrete
parses = refl

reads : world.from_slice body ≡ ok (object no_members)
unfolding native.Mathlib.Decide.ℕ_discrete nat_eq
reads = refl

digests : digest_of world (object no_members) ≡ sha
unfolding native.Mathlib.Decide.ℕ_discrete write_value sha256_hex
digests = refl

abbrev value : Value
value = object no_members

sha_is_valid : validate_sha (codes (digest_of world value)) ≡ ok tt
unfolding validate_sha sha256_hex write_value native.Mathlib.Decide.ℕ_discrete
sha_is_valid = refl

get_memory_export-post_example :
    (get_memory_export world
      (digest_of world value)
      none
      (post_memory_export world state clock body empty).1).0
    ≡ ok (cacheable_json_response (format_etag (codes (digest_of world value))) body)
unfolding lookup
get_memory_export-post_example =
    get_memory_export-post world state clock body empty (export_of (null ∷ [])) value refl admits
      parses reads sha_is_valid refl

-- The export and its sidecar are there, and the index knows the digest.
abbrev known : Storage
known = record {
  host = record no_files {
    files =
        (
          record { dir = "memory-export"; name = json sha },
          record { content = body; modified = none },
        )
        ∷ (
          record { dir = "memory-export-signature"; name = json sha },
          record { content = codes sha; modified = none },
        )
        ∷ [];
  };
  index = record initial_state { loaded = true; digest_index = sha ∷ [] };
}

accepts_upload :
    (post_signed_memory_export world state clock body known).0
    ≡ ok (new 6 sha "ao2.memory-export.v1")
unfolding post_signed_memory_export then_do native.Mathlib.Decide.ℕ_discrete write_value lookup
    Bundle.exists Bundle.read path_eq subdir append_if_absent ensure_loaded file_fingerprint
    is_current
accepts_upload = refl

get-IsGenuine_example :
    IsGenuine world sha (get_acceptance world sha none known).0
    × IsGenuine world sha (get_memory_export world sha none known).0
    × IsGenuine world sha (get_bundle world sha none known).0
get-IsGenuine_example = get-IsGenuine world sha none known

post_signed-IsProven_example :
    (p : VerifiedUpload) × (verified_upload world state body ≡ ok p)
    × (new 6 sha "ao2.memory-export.v1" ≡ new clock.stored p.sha p.export.schema_version)
    × IsProven world [] p
    × ((f : File) × (lookup
            (path memory_export_signature p.sha)
            (post_signed_memory_export world state clock body known).1.host.files
          ≡ some f)
        × (f.content
            ≡ world.print_sidecar (record {
              schema_version = signature_schema;
              export_sha256 = p.sha;
              signature = p.signature;
            })))
post_signed-IsProven_example =
    post_signed-IsProven world state clock body known (new 6 sha "ao2.memory-export.v1") refl
      accepts_upload

codec-Prints : Prints codec (entry_of clock body (export_of (null ∷ [])) (digest_of world value))
unfolding codes_eq is_blank sha256_hex write_value native.Mathlib.Decide.ℕ_discrete
codec-Prints = record { parse-print = refl; utf8 = refl; no_control = refl; visible = refl }

sha_is_hex : is_valid_sha256_hex (digest_of world value) ≡ true
unfolding is_valid_sha256_hex sha256_hex write_value native.Mathlib.Decide.ℕ_discrete
sha_is_hex = refl

empty-IsCoherent : IsCoherent codec empty
unfolding lookup ends_line is_current
empty-IsCoherent = record { finished = refl; current = λ h. ground arith }

empty_loads : load_file codec (lookup ledger empty.host.files) ≡ some nothing
unfolding load_file lookup
empty_loads = refl

post_memory_export-Accepted_example :
    Accepted world
      (entry_of clock body (export_of (null ∷ [])) (digest_of world value))
      nothing
      (new clock.stored (digest_of world value) "ao2.memory-export.v1")
      (post_memory_export world state clock body empty)
post_memory_export-Accepted_example =
    post_memory_export-Accepted world state clock body (export_of (null ∷ [])) value nothing empty
      admits parses reads sha_is_hex codec-Prints refl empty_loads empty-IsCoherent

abbrev dashboard_query : AcceptanceQuery
dashboard_query = record { limit = 50; offset = 0; provider = none; since = none }

-- One acceptance that the index has.
abbrev pub one_acceptance : Storage
one_acceptance = (post_acceptance world state clock body empty).1

acceptance_dashboard-IsFaithful_example :
    FaithfulAnswer dashboard_query
      (on_index world (read_all world.codec) one_acceptance).0
      (acceptance_dashboard_value world dashboard_query one_acceptance).0
acceptance_dashboard-IsFaithful_example =
    acceptance_dashboard-IsFaithful world dashboard_query one_acceptance

disabled : destructive_prune_enabled (some "0") ≡ false
unfolding destructive_prune_enabled codes_eq native.Mathlib.Decide.ℕ_discrete
disabled = refl

-- The server is asked to delete, and its environment says no.
storage_prune-IsHarmless_example :
    IsHarmless
      (record { keep_latest = 1; execute = true })
      one_acceptance
      (storage_prune world (some "0") (record { keep_latest = 1; execute = true }) one_acceptance)
storage_prune-IsHarmless_example =
    storage_prune-IsHarmless world (some "0") 1 true one_acceptance disabled
