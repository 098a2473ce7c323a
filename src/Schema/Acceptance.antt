-- ===== src/Schema/Acceptance.antt =====
-- crates/ao2-cp-schema/src/acceptance.rs: the evidence of a provider's pilot.
use ao2_control_plane.Base.{
  ◌≡◌, refl, ap, sym, ◌∙◌, String, ◌<>◌, Bool, not, ◌||◌, Result, ok, err, Option, none, some,
  string_eq, Eq, ◌==◌, if◌then◌else◌, arith, ◌↔◌,
}
use mathlib.Core.Path.{subst}
use ao2_control_plane.Disk.{Bytes}
use ao2_control_plane.Json.{Value}

abbrev pub schema_codex : String
schema_codex = "ao2.codex-provider-pilot-acceptance.v1"

abbrev pub schema_claude : String
schema_claude = "ao2.claude-provider-pilot-acceptance.v1"

abbrev pub schema_antigravity : String
schema_antigravity = "ao2.antigravity-provider-pilot-acceptance.v1"

pub data AcceptanceProvider : Type 0 where
  codex claude antigravity : AcceptanceProvider

unfoldable pub AcceptanceProvider-discrete : Discrete AcceptanceProvider
AcceptanceProvider-discrete = hlevel

instance unfoldable pub provider_eq : Eq AcceptanceProvider
unfolding AcceptanceProvider-discrete
provider_eq = record { dec = AcceptanceProvider-discrete }

abbrev pub as_str : AcceptanceProvider → String
as_str codex = "codex"
as_str claude = "claude"
as_str antigravity = "antigravity"

pub record AcceptanceBundle : Type 0 where
  pub schema_version : String
  pub status : String
  pub provider : AcceptanceProvider
  pub run_id : String
  pub root : String
  pub target : String
  pub provider_prompt_file : String
  pub evidence_pack : String
  pub cockpit : String
  pub artifacts : Value
  pub smoke : Value

pub data AcceptanceParseError : Type 0 where
  json : String → AcceptanceParseError
  unknown_schema : String → AcceptanceParseError
  provider_mismatch : String → String → AcceptanceParseError

-- `to_string`
unfoldable pub describe : AcceptanceParseError → String
describe (json message) = "json parse failed: " <> message
describe (unknown_schema s) = "unknown schema_version: " <> s
describe (provider_mismatch provider schema) =
    "provider " <> provider <> " does not match schema " <> schema

-- The provider of a schema.
unfoldable pub expected_provider : String → Option AcceptanceProvider
unfolding string_eq
expected_provider schema =
    if schema == schema_codex
    then some codex
    else if schema == schema_claude
    then some claude
    else if schema == schema_antigravity
    then some antigravity
    else none

unfoldable pub checked : AcceptanceBundle → Result AcceptanceParseError AcceptanceBundle
unfolding expected_provider AcceptanceProvider-discrete
checked bundle = elim (expected_provider bundle.schema_version) [
  | none ↦ err (unknown_schema bundle.schema_version)
  | some expected ↦
      if not (bundle.provider == expected)
      then err (provider_mismatch (as_str bundle.provider) bundle.schema_version)
      else ok bundle
]

-- What `?` makes of what is decoded.
abbrev after_decode : Result String AcceptanceBundle → Result AcceptanceParseError AcceptanceBundle
after_decode (err message) = err (json message)
after_decode (ok bundle) = checked bundle

-- `decode` is `serde_json::from_str` at the record, with the text of its error.
unfoldable pub parse_acceptance :
    (Bytes → Result String AcceptanceBundle) → Bytes → Result AcceptanceParseError AcceptanceBundle
unfolding checked
parse_acceptance decode raw = after_decode (decode raw)

unfoldable pub is_acceptance_schema : String → Bool
unfolding string_eq
is_acceptance_schema schema =
    schema == schema_codex || schema == schema_claude || schema == schema_antigravity

-- The schema that a provider's evidence has.
abbrev pub schema_of : AcceptanceProvider → String
schema_of codex = schema_codex
schema_of claude = schema_claude
schema_of antigravity = schema_antigravity

expected_provider-schema_of : (p : AcceptanceProvider) → expected_provider (schema_of p) ≡ some p
unfolding expected_provider string_eq
expected_provider-schema_of codex = refl
expected_provider-schema_of claude = refl
expected_provider-schema_of antigravity = refl

schema_of-expected_provider :
    (s : String) (p : AcceptanceProvider) → expected_provider s ≡ some p → s ≡ schema_of p
unfolding expected_provider
schema_of-expected_provider s codex h = ground arith
schema_of-expected_provider s claude h = ground arith
schema_of-expected_provider s antigravity h = ground arith

checked-ok :
    (b bundle : AcceptanceBundle)
    → (checked b ≡ ok bundle) ↔ ((b ≡ bundle) × (b.schema_version ≡ schema_of b.provider))
unfolding checked
checked-ok b bundle =
    let one = expected_provider-schema_of b.provider in
    let two = schema_of-expected_provider b.schema_version b.provider in
    (
      λ h. (ground (arith, one, two), ground (arith, one, two)),
      λ h. ground (arith, h.0, ap expected_provider h.1 ∙ one),
    )

abbrev HasSchema : AcceptanceBundle → Type 0
HasSchema b = b.schema_version ≡ schema_of b.provider

after_decode-ok :
    (r : Result String AcceptanceBundle) (bundle : AcceptanceBundle)
    → (after_decode r ≡ ok bundle) ↔ ((r ≡ ok bundle) × HasSchema bundle)
after_decode-ok (err message) bundle = ground arith
after_decode-ok (ok b) bundle =
    let c = checked-ok b bundle in
    (
      λ h. (ap ok (c.0 h).0, subst HasSchema (c.0 h).0 (c.0 h).1),
      λ h.
          let same : b ≡ bundle = ap (λ r. elim r [ ok x ↦ x | err e ↦ b ]) h.0 in
          c.1 (same, subst HasSchema (sym same) h.1),
    )

-- An acceptance bundle is accepted as what it decodes to exactly when that has the schema of its own
-- provider.
pub parse_acceptance-ok :
    (decode : Bytes → Result String AcceptanceBundle) (raw : Bytes) (bundle : AcceptanceBundle)
    → (parse_acceptance decode raw ≡ ok bundle)
      ↔ ((decode raw ≡ ok bundle) × (bundle.schema_version ≡ schema_of bundle.provider))
unfolding parse_acceptance
parse_acceptance-ok decode raw bundle = after_decode-ok (decode raw) bundle
