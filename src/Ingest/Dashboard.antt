-- ===== src/Ingest/Dashboard.antt =====
-- The dashboard of crates/ao2-cp-server/src/handlers/acceptance.rs, before it is rendered.
pub mod Source
pub mod Counts
pub mod Faithful
use ao2_control_plane.Base.{
  ℕ, ◌+◌, min, String, ◌<>◌, Bool, true, false, ◌&&◌, List, [], ◌∷◌, ◌++◌, Option, none, some,
  Result, ok, err, Exec, ◌>>=◌, lift, map_err, leb, string_eq, option_eq, ◌==◌, if◌then◌else◌,
  length, take, drop, filter, sort_by,
}
use ao2_control_plane.Bundle
use ao2_control_plane.Index.State.{IndexEntry}
use ao2_control_plane.Index.{read_all}
use ao2_control_plane.Json.{Value, get, as_str}
use ao2_control_plane.Server.AppError.{AppError}
use ao2_control_plane.Ingest.{Outside, Method, on_bundles, on_index}
use ao2_control_plane.Ingest.Acceptance.{
  ListQuery, selected, latest_first, or_default, acceptance_kind_for_sha,
}
use Source.{and_then, json_str, as_u64, acceptance_source_class, acceptance_score}

-- The object of one entry; `null` stands for a score that is none.
pub record Summary : Type 0 where
  pub sha256 : String
  pub provider : String
  pub status : String
  pub source_class : String
  pub schema_version : String
  pub run_id : String
  pub score : Option ℕ
  pub minimum_score : Option ℕ
  pub evidence_pack : String
  pub raw_url : String
  pub ingested_at : ℕ
  pub size_bytes : ℕ

-- What the loop over the entries has so far.
pub record Tally : Type 0 where
  pub codex_count : ℕ
  pub claude_count : ℕ
  pub antigravity_count : ℕ
  pub passed_count : ℕ
  pub live_count : ℕ
  pub fixture_count : ℕ
  pub unknown_source_count : ℕ
  pub latest_codex : Option Summary
  pub latest_claude : Option Summary
  pub latest_antigravity : Option Summary
  pub entries : List Summary

abbrev pub no_tally : Tally
no_tally = record {
  codex_count = 0;
  claude_count = 0;
  antigravity_count = 0;
  passed_count = 0;
  live_count = 0;
  fixture_count = 0;
  unknown_source_count = 0;
  latest_codex = none;
  latest_claude = none;
  latest_antigravity = none;
  entries = [];
}

abbrev or_else : Option String → String → String
or_else none otherwise = otherwise
or_else (some s) otherwise = s

unfoldable pub summary_of : IndexEntry → Value → Summary
unfolding acceptance_source_class acceptance_score get as_str as_u64
summary_of e bundle = record {
  sha256 = e.sha256;
  provider = or_default e.provider;
  status = or_default e.status;
  source_class = acceptance_source_class bundle;
  schema_version = e.schema;
  run_id = or_else (json_str bundle "run_id") "unknown";
  score = acceptance_score bundle;
  minimum_score = and_then (and_then (get "smoke" bundle) (get "minimum_score")) as_u64;
  evidence_pack = or_else (json_str bundle "evidence_pack") "";
  raw_url = "/api/v1/acceptance/" <> e.sha256;
  ingested_at = e.ingested_at;
  size_bytes = e.size_bytes;
}

abbrev pub one_if : Bool → ℕ
one_if b = if b then 1 else 0

-- The first one stays.
abbrev pub or_first : Option Summary → Bool → Summary → Option Summary
or_first (some x) b s = some x
or_first none b s = if b then some s else none

unfoldable pub counted : Summary → Tally → Tally
unfolding string_eq
counted s t = record {
  codex_count = t.codex_count + one_if (s.provider == "codex");
  claude_count = t.claude_count + one_if (s.provider == "claude");
  antigravity_count = t.antigravity_count + one_if (s.provider == "antigravity");
  passed_count = t.passed_count + one_if (s.status == "passed");
  live_count = t.live_count + one_if (s.source_class == "live");
  fixture_count =
      t.fixture_count
      + (if s.source_class == "live" then 0 else one_if (s.source_class == "fixture"));
  unknown_source_count =
      t.unknown_source_count
      + (if s.source_class == "live" then 0 else if s.source_class == "fixture" then 0 else 1);
  latest_codex = or_first t.latest_codex (s.provider == "codex") s;
  latest_claude = or_first t.latest_claude (s.provider == "claude") s;
  latest_antigravity = or_first t.latest_antigravity (s.provider == "antigravity") s;
  entries = t.entries ++ s ∷ [];
}

-- A missing minimum is 90.
abbrev pub scores : Option ℕ → Option ℕ → Bool
scores none minimum = false
scores (some score) none = leb 90 score
scores (some score) (some minimum) = leb minimum score

unfoldable pub live_acceptance_ready : Option Summary → Bool
unfolding string_eq
live_acceptance_ready none = false
live_acceptance_ready (some s) =
    s.status == "passed" && s.source_class == "live" && scores s.score s.minimum_score

unfoldable pub provider_acceptance_state : Option Summary → String
unfolding live_acceptance_ready
provider_acceptance_state none = "missing"
provider_acceptance_state (some s) =
    if live_acceptance_ready (some s)
    then "passed"
    else if s.source_class == "live"
    then "not_ready"
    else "not_live"

pub record Phase1Status : Type 0 where
  pub state : String
  pub reason : String
  pub codex : String
  pub claude : String
  pub antigravity : String
  pub source_class : String
  pub next_action : String

unfoldable pub provider_acceptance_phase1_status :
    Option Summary → Option Summary → Option Summary → Phase1Status
unfolding live_acceptance_ready provider_acceptance_state
provider_acceptance_phase1_status codex claude antigravity =
    let complete = live_acceptance_ready codex && live_acceptance_ready claude in
    record {
      state = if complete then "live_acceptance_complete" else "blocked";
      reason =
          if complete
          then "live_codex_and_claude_acceptance_passed"
          else "missing_live_provider_acceptance";
      codex = provider_acceptance_state codex;
      claude = provider_acceptance_state claude;
      antigravity = provider_acceptance_state antigravity;
      source_class = if complete then "live" else "mixed";
      next_action =
          if complete
          then "review signed evidence and run the guarded release gate before Phase 1 promotion"
          else "publish passing live Codex and Claude provider-pilot acceptance evidence";
    }

-- Without the name of its schema and its links.
pub record AcceptanceDashboard : Type 0 where
  pub total_count : ℕ
  pub limit : ℕ
  pub offset : ℕ
  pub tally : Tally
  pub phase1_acceptance : Phase1Status

abbrev pub dashboard_of : ℕ → ListQuery → Tally → AcceptanceDashboard
dashboard_of total q t = record {
  total_count = total;
  limit = min q.limit 500;
  offset = q.offset;
  tally = t;
  phase1_acceptance =
      provider_acceptance_phase1_status t.latest_codex t.latest_claude t.latest_antigravity;
}

module _ (o : Outside) where
  unfoldable pub read_acceptance_value : String → Method Value
  unfolding acceptance_kind_for_sha Bundle.read
  read_acceptance_value sha = do
    kind ← acceptance_kind_for_sha o sha
    bytes ← on_bundles o (Bundle.read kind sha)
    lift (map_err AppError.internal (o.from_slice bytes))

  unfoldable pub tally_entries : List IndexEntry → Tally → Method Tally
  unfolding read_acceptance_value counted summary_of
  tally_entries [] t = λ s. (ok t, s)
  tally_entries (e ∷ es) t = do
    bundle ← read_acceptance_value e.sha256
    tally_entries es (counted (summary_of e bundle) t)

  unfoldable pub acceptance_dashboard_value : ListQuery → Method AcceptanceDashboard
  unfolding selected sort_by tally_entries provider_acceptance_phase1_status
  acceptance_dashboard_value q = do
    all ← on_index o (read_all o.codec)
    tally ←
        tally_entries
          (take (min q.limit 500) (drop q.offset (sort_by latest_first (filter (selected q) all))))
          no_tally
    λ s. (ok (dashboard_of (length (filter (selected q) all)) q tally), s)
