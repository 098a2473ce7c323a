-- ===== src/Promotion/Decision.antt =====
-- `decision_artifact_summary` of handlers/phase1_promotion.rs, with the sidecar that it reads.
use ao2_control_plane.Base.{
  ℕ, ◌+◌, String, ◌<>◌, Bool, false, not, Option, none, some, Result, ok, err, string_eq, ◌==◌,
  if◌then◌else◌, ltb,
}
use ao2_control_plane.Index.State.{IndexEntry}
use ao2_control_plane.Json.{
  Value, Items, null, bool, string, object, member, no_members, no_items, item, get, as_bool,
}
use ao2_control_plane.Ingest.{Outside, Method}
use ao2_control_plane.Ingest.Dashboard.Source.{and_then, json_str, as_array}
use ao2_control_plane.Promotion.{or_else, is_some, bool_at}
use ao2_control_plane.Promotion.Summary.{text_of}
use ao2_control_plane.Promotion.Handlers.{read_decision_signature_sidecar}

pub record SignatureSummary : Type 0 where
  pub present : Bool
  pub signature_verified : Bool
  pub signer_id : String
  pub signature_sha256 : String
  pub public_key_sha256 : String
  pub verification_scope : String
  pub trust_anchor : String
  pub trust_policy : Value

pub record DecisionSummary : Type 0 where
  pub status : String
  pub decision : String
  pub phase1_state : String
  pub checklist_sha256 : String
  pub operator : String
  pub rationale : String
  pub decision_mode : String
  pub governed_run_evidence_count : ℕ
  pub replacement_smoke_gate_present : Bool
  pub sha256 : String
  pub ingested_at : ℕ
  pub raw_url : String
  pub signature_url : String
  pub signature : SignatureSummary

abbrev unsigned : Value
unsigned = object (member "signature_verified" (bool false) no_members)

-- The summary of the signature in a sidecar, if one could be read.
unfoldable pub signature_summary : Option Value → SignatureSummary
unfolding get json_str as_bool
signature_summary sidecar =
    let sig = or_else (and_then sidecar (get "signature")) unsigned in
    record {
      present = is_some sidecar;
      signature_verified = or_else (bool_at "signature_verified" sig) false;
      signer_id = or_else (json_str sig "signer_id") "unsigned";
      signature_sha256 = or_else (json_str sig "signature_sha256") "not provided";
      public_key_sha256 = or_else (json_str sig "public_key_sha256") "not provided";
      verification_scope = or_else (json_str sig "verification_scope") "unsigned";
      trust_anchor = or_else (json_str sig "trust_anchor") "unsigned";
      trust_policy = or_else (get "trust_policy" sig) null;
    }

abbrev pub count_texts : Items → ℕ
count_texts no_items = 0
count_texts (item (string s) rest) = count_texts rest + 1
count_texts (item v rest) = count_texts rest

abbrev non_empty_text : Option Value → Bool
non_empty_text (some (string s)) = not (s == "")
non_empty_text _ = false

unfoldable pub decision_summary_of : IndexEntry → Value → Option Value → DecisionSummary
unfolding get json_str as_array string_eq signature_summary
decision_summary_of e decision sidecar =
    let artifacts = get "artifacts" decision in
    let runs =
      or_else
        (and_then (and_then (and_then artifacts (get "governed_run_evidence")) as_array)
          (λ items. some (count_texts items)))
        0 in
    let gate = non_empty_text (and_then artifacts (get "replacement_smoke_gate")) in
    record {
      status = text_of decision "status";
      decision = text_of decision "decision";
      phase1_state = text_of decision "phase1_state";
      checklist_sha256 = text_of decision "checklist_sha256";
      operator = text_of decision "operator";
      rationale = text_of decision "rationale";
      decision_mode =
          if ltb 0 runs
          then "governed_run_primary"
          else if gate
          then "replacement_smoke"
          else "unknown";
      governed_run_evidence_count = runs;
      replacement_smoke_gate_present = gate;
      sha256 = e.sha256;
      ingested_at = e.ingested_at;
      raw_url = "/api/v1/phase1/promotion/decision/" <> e.sha256;
      signature_url = "/api/v1/phase1/promotion/decision/" <> e.sha256 <> "/signature";
      signature = signature_summary sidecar;
    }

-- `Result::ok`
abbrev pub succeeded {ℓ κ} : {E : Type ℓ} {A : Type κ} → Result E A → Option A
succeeded (ok a) = some a
succeeded (err e) = none

unfoldable pub decision_artifact_summary : Outside → IndexEntry → Value → Method DecisionSummary
unfolding decision_summary_of read_decision_signature_sidecar
decision_artifact_summary o e decision s =
    let (r, t) = read_decision_signature_sidecar o e.sha256 s in
    (ok (decision_summary_of e decision (succeeded r)), t)
