-- ===== src/Support/Artifacts.antt =====
-- `latest_artifact_summary` and the artifacts that the readiness looks for.
use ao2_control_plane.Base.{
  ℕ, ◌-◌, ◌*◌, ◌/◌, ◌^◌, String, ◌<>◌, Bool, false, ◌||◌, List, [], ◌∷◌, Option, none, some,
  string_eq, option_eq, ◌==◌, ltb, leb, if◌then◌else◌, filter,
}
use ao2_control_plane.Base.Text.{codes, trim, to_ascii_lowercase, contains_codes}
use ao2_control_plane.Index.State.{IndexEntry}
use ao2_control_plane.Support.State.{SupportBundleArtifactSummary, Observed}

abbrev pub phase1_release_freshness_seconds : ℕ
phase1_release_freshness_seconds = 24 * 60 * 60

-- `max_by_key(ingested_at)`: the last one of those that are latest.
unfoldable pub latest_from : IndexEntry → List IndexEntry → IndexEntry
latest_from best [] = best
latest_from best (e ∷ es) = latest_from (if leb best.ingested_at e.ingested_at then e else best) es

unfoldable pub latest : List IndexEntry → Option IndexEntry
unfolding latest_from
latest [] = none
latest (e ∷ es) = some (latest_from e es)

-- An instant in the future has age 0.
abbrev pub age_of : ℕ → IndexEntry → ℕ
age_of now e = (now - e.ingested_at) / 10 ^ 9

abbrev pub exceeds : Option ℕ → ℕ → Bool
exceeds none age = false
exceeds (some threshold) age = ltb threshold age

abbrev pub summary_of : ℕ → (String → String) → Option ℕ → IndexEntry → SupportBundleArtifactSummary
summary_of now raw_url stale_after_seconds e = record {
  sha256 = e.sha256;
  schema = e.schema;
  status = e.status;
  ingested_at = e.ingested_at;
  age_seconds = age_of now e;
  stale_after_seconds = stale_after_seconds;
  is_stale = exceeds stale_after_seconds (age_of now e);
  raw_url = raw_url e.sha256;
  signature = none;
}

unfoldable pub latest_artifact_summary :
    ℕ
    → List IndexEntry
    → (IndexEntry → Bool)
    → (String → String)
    → Option ℕ
    → Option SupportBundleArtifactSummary
unfolding latest
latest_artifact_summary now entries predicate raw_url stale_after_seconds =
    elim (latest (filter predicate entries)) [
      | none ↦ none
      | some e ↦ some (summary_of now raw_url stale_after_seconds e)
    ]

unfoldable pub artifact_status_is_blocking : Option String → Bool
unfolding trim to_ascii_lowercase contains_codes
artifact_status_is_blocking none = false
artifact_status_is_blocking (some status) =
    let normalized = to_ascii_lowercase (trim (codes status)) in
    contains_codes normalized (codes "fail")
    || contains_codes normalized (codes "error")
    || contains_codes normalized (codes "reject")
    || contains_codes normalized (codes "block")

-- What is inserted under one name.
pub record Wanted : Type 0 where
  pub id : String
  pub predicate : IndexEntry → Bool
  pub raw_url : String → String
  pub stale_after_seconds : Option ℕ

unfoldable pub has_schema : String → IndexEntry → Bool
unfolding string_eq
has_schema schema e = e.schema == schema

unfoldable pub from_provider : String → IndexEntry → Bool
unfolding option_eq string_eq
from_provider provider e = e.provider == some provider

abbrev fresh : Option ℕ
fresh = some phase1_release_freshness_seconds

unfoldable pub wanted_artifacts : List Wanted
unfolding has_schema from_provider
wanted_artifacts =
    record {
      id = "provider_readiness";
      predicate = has_schema "factory-v3/hermes-provider-phase1-readiness/v1";
      raw_url = λ sha. "/api/v1/provider/readiness/latest";
      stale_after_seconds = fresh;
    }
    ∷ record {
      id = "codex_live_acceptance";
      predicate =
          λ e. has_schema "ao2.codex-provider-pilot-acceptance.v1" e || from_provider "codex" e;
      raw_url = λ sha. "/api/v1/acceptance/" <> sha;
      stale_after_seconds = fresh;
    }
    ∷ record {
      id = "claude_live_acceptance";
      predicate =
          λ e. has_schema "ao2.claude-provider-pilot-acceptance.v1" e || from_provider "claude" e;
      raw_url = λ sha. "/api/v1/acceptance/" <> sha;
      stale_after_seconds = fresh;
    }
    ∷ record {
      id = "phase1_promotion_checklist";
      predicate = has_schema "factory-v3/ao2-phase1-promotion-checklist/v1";
      raw_url = λ sha. "/api/v1/phase1/promotion/checklist/latest";
      stale_after_seconds = none;
    }
    ∷ record {
      id = "signed_phase1_promotion_decision";
      predicate = has_schema "factory-v3/ao2-phase1-promotion-decision/v1";
      raw_url = λ sha. "/api/v1/phase1/promotion/decision/latest";
      stale_after_seconds = none;
    }
    ∷ record {
      id = "three_os_release_smoke";
      predicate = has_schema "ao2-control-plane.three-os-release-smoke.v1";
      raw_url = λ sha. "/api/v1/phase1/promotion/three-os-smoke/latest";
      stale_after_seconds = fresh;
    }
    ∷ record {
      id = "release_publication";
      predicate = has_schema "ao2.release-publication-summary.v1";
      raw_url = λ sha. "/api/v1/release/publication/latest";
      stale_after_seconds = fresh;
    }
    ∷ record {
      id = "release_evaluator_decision";
      predicate = has_schema "factory-v3/ao2-release-evaluator-decision/v1";
      raw_url = λ sha. "/api/v1/release/evaluator-decision/latest";
      stale_after_seconds = fresh;
    }
    ∷ []

-- `now` is what the clock says while the artifact of a name is looked for.
unfoldable pub observe : (String → ℕ) → List IndexEntry → List Wanted → Observed
unfolding latest_artifact_summary
observe now entries [] = []
observe now entries (w ∷ ws) =
    (w.id, latest_artifact_summary (now w.id) entries w.predicate w.raw_url w.stale_after_seconds)
    ∷ observe now entries ws

-- `get(id).and_then(Option::as_ref)`
unfoldable pub observed : String → Observed → Option SupportBundleArtifactSummary
unfolding string_eq
observed id [] = none
observed id ((k, a) ∷ rest) = if k == id then a else observed id rest
