-- ===== src/Tests/Documents.antt =====
-- Documents that are written, parsed and signed.
use ao2_control_plane.Base.{
  ◌≡◌, ◌≢◌, String, List, [], ◌∷◌, ◌++◌, some, Result, ok, err, ◌==◌, if◌then◌else◌, string_eq,
  nat_eq, length, arith, ◌%◌,
}
use ao2_control_plane.Base.Text.{codes, codes_eq}
use ao2_control_plane.Disk.{Bytes}
use ao2_control_plane.Json.{Value, Members, null, number, object, member, no_members}
use ao2_control_plane.Json.Canonical.{canonical_json, write_string}
use ao2_control_plane.Json.Order.{in_object, swapped, canonical_json-Reordered}
use ao2_control_plane.Json.Literal.{read_literal, read_literal-write_string}
use ao2_control_plane.Schema.Memory.{MemoryExport, schema}
use ao2_control_plane.Schema.Acceptance.{AcceptanceBundle, codex, schema_codex}
use ao2_control_plane.Server.Signing.{Crypto, Encoding}

abbrev one : Value
one = number (codes "1")

abbrev ab : Members
ab = member "a" one (member "b" null no_members)

abbrev ba : Members
ba = member "b" null (member "a" one no_members)

a-ne-b : codes "a" ≢ codes "b"
a-ne-b e = ground (arith, e)

canonical_json-Reordered_example : canonical_json (object ab) ≡ canonical_json (object ba)
canonical_json-Reordered_example = canonical_json-Reordered (in_object (swapped a-ne-b))

read_literal-write_string_example :
    read_literal (write_string (codes "a\"b") ++ codes ",1") ≡ some (codes "a\"b", codes ",1")
read_literal-write_string_example = read_literal-write_string (codes "a\"b") (codes ",1")

abbrev pub export_of : List Value → MemoryExport
export_of records = record {
  schema_version = schema;
  record_count = 1;
  link_count = 0;
  records = records;
  links = [];
  rest = no_members;
}

abbrev pub decode_export : Bytes → Result String MemoryExport
decode_export bytes = if length bytes == 2 then ok (export_of (null ∷ [])) else err "EOF"

abbrev acceptance : AcceptanceBundle
acceptance = record {
  schema_version = schema_codex;
  status = "passed";
  provider = codex;
  run_id = "run";
  root = "root";
  target = "target";
  provider_prompt_file = "prompt";
  evidence_pack = "pack";
  cockpit = "cockpit";
  artifacts = null;
  smoke = null;
}

abbrev pub decode_acceptance : Bytes → Result String AcceptanceBundle
decode_acceptance bytes = ok acceptance

-- The digest is the length, a signature is the message itself, and each key has 2048 bits.
abbrev pub toy_crypto : Crypto
toy_crypto = record {
  digest = λ bytes.
      length bytes % 256
      ∷ 0
      ∷ 0
      ∷ 0
      ∷ 0
      ∷ 0
      ∷ 0
      ∷ 0
      ∷ 0
      ∷ 0
      ∷ 0
      ∷ 0
      ∷ 0
      ∷ 0
      ∷ 0
      ∷ 0
      ∷ 0
      ∷ 0
      ∷ 0
      ∷ 0
      ∷ 0
      ∷ 0
      ∷ 0
      ∷ 0
      ∷ 0
      ∷ 0
      ∷ 0
      ∷ 0
      ∷ 0
      ∷ 0
      ∷ 0
      ∷ 0
      ∷ [];
  key_size = λ pem. ok 256;
  read_signature = λ bytes. ok bytes;
  verify = λ pem message signature. if length message == length signature then ok tt else err "no";
}

abbrev pub ascii : Encoding
ascii = record { utf8 = λ text. text }
