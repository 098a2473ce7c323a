-- ===== src/Promotion/Evidence.antt =====
-- The evidence that the dashboard of handlers/phase1_promotion.rs reads of providers.
use ao2_control_plane.Base.{
  ℕ, String, Bool, true, false, not, ◌&&◌, List, [], ◌∷◌, Option, none, some, ok, ◌>>=◌, lift,
  map_err, string_eq, option_eq, ◌==◌, if◌then◌else◌, any, filter, sort_by,
}
use ao2_control_plane.Base.Text.{codes, contains_codes}
use ao2_control_plane.Bundle
use ao2_control_plane.Bundle.Kind.{
  BundleKind, acceptance_codex, acceptance_claude, acceptance_antigravity, provider_readiness,
}
use ao2_control_plane.Index.State.{IndexEntry}
use ao2_control_plane.Index.{read_all}
use ao2_control_plane.Json.{Value, null, get, as_str}
use ao2_control_plane.Server.AppError.{AppError}
use ao2_control_plane.Ingest.{Outside, Method, on_bundles, on_index}
use ao2_control_plane.Ingest.Acceptance.{latest_first, or_default}
use ao2_control_plane.Ingest.Values.{first, entries_of}
use ao2_control_plane.Ingest.Dashboard.{scores}
use ao2_control_plane.Ingest.Dashboard.Source.{
  and_then, json_str, as_u64, acceptance_source_class, acceptance_score,
}
use ao2_control_plane.Promotion.{or_else, first_of}

abbrev pub provider_readiness_schema : String
provider_readiness_schema = "factory-v3/hermes-provider-phase1-readiness/v1"

-- The verdict goes before the status here.
unfoldable pub readiness_status : Value → String → String
unfolding get as_str
readiness_status readiness key =
    or_else
      (and_then (and_then (get key readiness) (λ v. first_of (get "verdict" v) (get "status" v)))
        as_str)
      "unknown"

-- The check of a readiness, or of a missing one, which has no artifact.
pub record ReadinessArtifact : Type 0 where
  pub artifact_status : String
  pub codex_gate : String
  pub codex_pilot : String
  pub superseded_by : Option String

pub record ReadinessCheck : Type 0 where
  pub status : String
  pub phase1_state : String
  pub next_action : String
  pub artifact : Option ReadinessArtifact

abbrev pub missing_readiness : ReadinessCheck
missing_readiness = record {
  status = "missing";
  phase1_state = "missing";
  next_action = "publish provider readiness evidence";
  artifact = none;
}

unfoldable pub phase1_state_of : Value → String
unfolding json_str readiness_status string_eq
phase1_state_of readiness =
    if not (or_else (json_str readiness "status") "unknown" == "passed")
    then "failed"
    else if readiness_status readiness "codex_gate" == "ready"
        && readiness_status readiness "codex_pilot" == "ready"
    then "ready"
    else "blocked"

unfoldable pub provider_readiness_check : Value → Bool → ReadinessCheck
unfolding phase1_state_of readiness_status json_str string_eq
provider_readiness_check readiness acceptance_complete =
    let ready = phase1_state_of readiness == "ready" in
    let superseded = acceptance_complete && not ready in
    record {
      status = if superseded then "superseded_by_live_acceptance" else "observed";
      phase1_state = phase1_state_of readiness;
      next_action =
          if ready
          then "review live provider acceptance evidence"
          else if superseded
          then "continue with live acceptance proof; keep direct provider execution guarded"
          else "keep provider execution guarded; use live acceptance evidence for promotion proof";
      artifact = some (record {
        artifact_status = or_else (json_str readiness "status") "unknown";
        codex_gate = readiness_status readiness "codex_gate";
        codex_pilot = readiness_status readiness "codex_pilot";
        superseded_by = if superseded then some "live_provider_acceptance" else none;
      });
    }

-- The summary of the latest acceptance of a provider.
pub record AcceptanceEntry : Type 0 where
  pub sha256 : String
  pub provider : String
  pub status : String
  pub source_class : String
  pub score : Option ℕ
  pub minimum_score : Option ℕ
  pub run_id : String

unfoldable pub acceptance_entry_summary : IndexEntry → Value → AcceptanceEntry
unfolding acceptance_source_class acceptance_score get json_str as_u64
acceptance_entry_summary e bundle = record {
  sha256 = e.sha256;
  provider = or_default e.provider;
  status = or_default e.status;
  source_class = acceptance_source_class bundle;
  score = acceptance_score bundle;
  minimum_score = and_then (and_then (get "smoke" bundle) (get "minimum_score")) as_u64;
  run_id = or_else (json_str bundle "run_id") "unknown";
}

-- `none` is `Null`.
unfoldable pub live_acceptance_ready : Option AcceptanceEntry → Bool
unfolding string_eq
live_acceptance_ready none = false
live_acceptance_ready (some e) =
    e.status == "passed" && e.source_class == "live" && scores e.score e.minimum_score

unfoldable pub provider_acceptance_state : Option AcceptanceEntry → String
unfolding live_acceptance_ready
provider_acceptance_state none = "missing"
provider_acceptance_state (some e) =
    if live_acceptance_ready (some e)
    then "passed"
    else if e.source_class == "live"
    then "not_ready"
    else "not_live"

pub record AcceptanceCheck : Type 0 where
  pub status : String
  pub state : String
  pub codex : String
  pub claude : String
  pub antigravity : String
  pub source_class : String
  pub next_action : String

-- All three providers count here.
unfoldable pub live_provider_acceptance_check :
    Option AcceptanceEntry → Option AcceptanceEntry → Option AcceptanceEntry → AcceptanceCheck
unfolding live_acceptance_ready provider_acceptance_state
live_provider_acceptance_check codex claude antigravity =
    let complete =
      live_acceptance_ready codex
      && live_acceptance_ready claude
      && live_acceptance_ready antigravity in
    record {
      status = if complete then "passed" else "missing";
      state = if complete then "live_acceptance_complete" else "blocked";
      codex = provider_acceptance_state codex;
      claude = provider_acceptance_state claude;
      antigravity = provider_acceptance_state antigravity;
      source_class = if complete then "live" else "mixed";
      next_action =
          if complete
          then "review signed evidence and run the guarded release gate before Phase 1 promotion"
          else "publish passing live Codex, Claude, and Antigravity provider-pilot acceptance evidence";
    }

abbrev pub acceptance_of : String → List (String × AcceptanceEntry) → Option AcceptanceEntry
acceptance_of provider [] = none
acceptance_of provider ((name, e) ∷ more) =
    if name == provider then some e else acceptance_of provider more

abbrev acceptance_kind : Option String → Option BundleKind
acceptance_kind none = none
acceptance_kind (some provider) =
    if provider == "codex"
    then some acceptance_codex
    else if provider == "claude"
    then some acceptance_claude
    else if provider == "antigravity"
    then some acceptance_antigravity
    else none

module _ (o : Outside) where
  abbrev read_first : Option IndexEntry → Method (Option Value)
  read_first none s = (ok none, s)
  read_first (some e) s =
      (do
        bytes ← on_bundles o (Bundle.read provider_readiness e.sha256)
        value ← lift (map_err AppError.internal (o.from_slice bytes))
        λ t. (ok (some value), t))
        s

  unfoldable pub latest_provider_readiness : Method (Option Value)
  unfolding entries_of Bundle.read
  latest_provider_readiness = do es ← entries_of o provider_readiness_schema; read_first (first es)

  abbrev read_kind : Option BundleKind → String → Method Value
  read_kind none sha s = (ok null, s)
  read_kind (some kind) sha s =
      (do
        bytes ← on_bundles o (Bundle.read kind sha)
        lift (map_err AppError.internal (o.from_slice bytes)))
        s

  unfoldable pub read_acceptance_value : IndexEntry → Method Value
  unfolding Bundle.read string_eq
  read_acceptance_value e = read_kind (acceptance_kind e.provider) e.sha256

  -- The first entry of each provider is kept.
  unfoldable pub latest_from :
      List IndexEntry → List (String × AcceptanceEntry) → Method (List (String × AcceptanceEntry))
  unfolding read_acceptance_value acceptance_entry_summary string_eq
  latest_from [] latest s = (ok latest, s)
  latest_from (e ∷ es) latest s = elim (any (λ p. p.0 == or_default e.provider) latest) [
    | true ↦ latest_from es latest s
    | false ↦
        (do
          bundle ← read_acceptance_value e
          latest_from es ((or_default e.provider, acceptance_entry_summary e bundle) ∷ latest))
          s
  ]

  unfoldable pub latest_acceptance_by_provider : Method (List (String × AcceptanceEntry))
  unfolding latest_from contains_codes sort_by
  latest_acceptance_by_provider = do
    all ← on_index o (read_all o.codec)
    latest_from
        (sort_by latest_first
          (filter (λ e. contains_codes (codes e.schema) (codes "acceptance")) all))
        []
