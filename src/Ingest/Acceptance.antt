-- ===== src/Ingest/Acceptance.antt =====
-- crates/ao2-cp-server/src/handlers/acceptance.rs; its dashboard is in Ingest/Dashboard.
use ao2_control_plane.Base.{
  ℕ, min, String, Bool, List, [], ◌∷◌, map, Option, none, some, ok, err, ◌>>=◌, ◌>>◌, lift, map_err,
  leb, string_eq, option_eq, ◌==◌, length, take, drop, filter, sort_by, if◌then◌else◌,
}
use ao2_control_plane.Base.Text.{codes, contains_codes}
use ao2_control_plane.Disk.{Bytes}
use ao2_control_plane.Bundle
use ao2_control_plane.Bundle.Kind.{
  BundleKind, acceptance_codex, acceptance_claude, acceptance_antigravity,
}
use ao2_control_plane.Index.State.{IndexEntry}
use ao2_control_plane.Index.{read_all}
use ao2_control_plane.Schema.Acceptance.{
  AcceptanceProvider, codex, claude, antigravity, as_str, AcceptanceBundle, parse_acceptance,
  describe,
}
use ao2_control_plane.Schema.Responses.{
  IngestReceipt, new, AcceptanceListEntry, AcceptanceListResponse, schema_acceptance_list,
}
use ao2_control_plane.Server.AppError.{AppError}
use ao2_control_plane.Server.Caching.{
  Cached, validate_sha, format_etag, etag_matches, cacheable_head_response,
}
use ao2_control_plane.Ingest.{
  Outside, AppState, Clock, Method, schema_error, on_index, digest_of, store_absent, index_entry,
  admitted, read_verified, unless_cached,
}

pub record ListQuery : Type 0 where
  pub limit : ℕ
  pub offset : ℕ
  pub provider : Option String
  pub since : Option ℕ

abbrev pub default_limit : ℕ
default_limit = 50

abbrev pub kind_of : AcceptanceProvider → BundleKind
kind_of codex = acceptance_codex
kind_of claude = acceptance_claude
kind_of antigravity = acceptance_antigravity

abbrev pub passes_since : Option ℕ → IndexEntry → Bool
passes_since none e = Bool.true
passes_since (some since) e = leb since e.ingested_at

abbrev passes_provider : Option String → IndexEntry → Bool
passes_provider none e = Bool.true
passes_provider (some p) e = e.provider == some p

-- The latest first.
abbrev pub latest_first : IndexEntry → IndexEntry → Bool
latest_first a b = leb b.ingested_at a.ingested_at

abbrev pub or_default : Option String → String
or_default none = ""
or_default (some s) = s

abbrev listed : IndexEntry → AcceptanceListEntry
listed e = record {
  sha256 = e.sha256;
  provider = or_default e.provider;
  status = or_default e.status;
  ingested_at = e.ingested_at;
  size_bytes = e.size_bytes;
  schema_version = e.schema;
}

unfoldable pub selected : ListQuery → IndexEntry → Bool
unfolding contains_codes option_eq string_eq
selected q e =
    if contains_codes (codes e.schema) (codes "acceptance")
    then (if passes_provider q.provider e then passes_since q.since e else Bool.false)
    else Bool.false

unfoldable pub acceptance_page : ListQuery → List IndexEntry → AcceptanceListResponse
unfolding selected sort_by
acceptance_page q all =
    let sorted = sort_by latest_first (filter (selected q) all) in
    record {
      schema_version = schema_acceptance_list;
      total_count = length sorted;
      limit = min q.limit 500;
      offset = q.offset;
      entries = map listed (take (min q.limit 500) (drop q.offset sorted));
    }

module _ (o : Outside) where
  -- The bundle is stored and listed in the index.
  abbrev pub accept : Clock → Bytes → AcceptanceBundle → String → Method IngestReceipt
  accept clock raw bundle sha = do
    store_absent o (kind_of bundle.provider) sha raw
    index_entry o (record {
      ingested_at = clock.ingested;
      schema = bundle.schema_version;
      provider = some (as_str bundle.provider);
      sha256 = sha;
      status = some bundle.status;
      size_bytes = length raw;
    })
    λ s. (ok (new clock.stored sha bundle.schema_version), s)

  unfoldable pub post_acceptance : AppState → Clock → Bytes → Method IngestReceipt
  unfolding admitted schema_error parse_acceptance store_absent index_entry
  post_acceptance state clock body = do
    lift (admitted o state body)
    bundle ← lift (
        map_err (λ e. schema_error "unknown schema_version" (describe e))
          (parse_acceptance o.acceptance body))
    value ← lift (map_err AppError.bad_request (o.from_slice body))
    accept clock body bundle (digest_of o value)

  unfoldable pub list_acceptance : ListQuery → Method AcceptanceListResponse
  unfolding acceptance_page
  list_acceptance q = do all ← on_index o (read_all o.codec); λ s. (ok (acceptance_page q all), s)

  -- The first kind of the list that has the digest.
  abbrev first_kind : List BundleKind → String → Method BundleKind
  first_kind [] sha s = (err AppError.not_found, s)
  first_kind (kind ∷ kinds) sha s =
      let (there, h) = Bundle.exists kind sha s.host in
      let s' = record s { host = h } in
      let rest = first_kind kinds sha s' in if there then (ok kind, s') else rest

  unfoldable pub acceptance_kind_for_sha : String → Method BundleKind
  unfolding Bundle.exists
  acceptance_kind_for_sha =
      first_kind (acceptance_codex ∷ acceptance_claude ∷ acceptance_antigravity ∷ [])

  unfoldable pub get_acceptance : String → Option (Option (List ℕ)) → Method Cached
  unfolding acceptance_kind_for_sha read_verified validate_sha etag_matches
  get_acceptance sha header = do
    lift (validate_sha (codes sha))
    kind ← acceptance_kind_for_sha sha
    unless_cached o sha header (read_verified o kind sha)

  unfoldable pub head_acceptance : String → Option (Option (List ℕ)) → Method Cached
  unfolding acceptance_kind_for_sha validate_sha etag_matches
  head_acceptance sha header = do
    lift (validate_sha (codes sha))
    kind ← acceptance_kind_for_sha sha
    unless_cached o sha header (λ s. (ok (cacheable_head_response (format_etag (codes sha))), s))
