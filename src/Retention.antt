-- ===== src/Retention.antt =====
-- Retention of crates/ao2-cp-storage/src/lib.rs: which entries are candidates for pruning,
-- and `prune_retention`.
pub mod Digests
pub mod Keeps
pub mod Pruned
pub mod Removal
pub mod Report
use ao2_control_plane.Base.{
  ℕ, ◌+◌, ◌%◌, ◌^◌, String, Bool, true, false, not, ◌&&◌, List, [], ◌∷◌, ◌++◌, map, Option, none,
  some, Result, ok, err, Exec, ◌>>=◌, ◌>>◌, map_err, contains, string_eq, option_eq, ◌==◌,
  if◌then◌else◌, length, take, drop, filter, sort_by, leb, ltb, find?,
}
use ao2_control_plane.Disk.{Host, IoError}
use ao2_control_plane.Bundle
use ao2_control_plane.Bundle.{BundleStoreError}
use ao2_control_plane.Bundle.Kind.{
  BundleKind, kind_eq, subdir, acceptance_codex, acceptance_claude, acceptance_antigravity,
  control_plane_bundle, evidence_pack, hermes_watchdog_panel, memory_export, operator_packet,
  phase1_promotion_checklist, phase1_promotion_decision, phase1_promotion_inputs_verification,
  provider_readiness, provider_registry, release_evaluator_decision, release_publication,
  three_os_release_smoke, all_bundle_kinds, all_prunable_primary_kinds, related_kinds,
  bundle_kind_from_subdir,
}
use ao2_control_plane.Index
use ao2_control_plane.Index.State.{IndexEntry, Storage, IndexStoreError, Codec}

pub data StorageError : Type 0 where
  bundle : BundleStoreError → StorageError
  index : IndexStoreError → StorageError
  io : IoError → StorageError

abbrev pub Method {ℓ} : Type ℓ → Type ℓ
Method = Exec Storage StorageError

abbrev pub on_index {ℓ} : {A : Type ℓ} → Index.Method A → Method A
on_index m s = let (r, t) = m s in (map_err index r, t)

abbrev pub on_bundles {ℓ} : {A : Type ℓ} → Bundle.Method A → Method A
on_bundles m s = let (r, h) = m s.host in (map_err bundle r, record s { host = h })

-- The arms of the match on the schema, in their order.
abbrev pub schema_kinds : List (String × BundleKind)
schema_kinds =
    ("ao2.codex-provider-pilot-acceptance.v1", acceptance_codex)
    ∷ ("ao2.claude-provider-pilot-acceptance.v1", acceptance_claude)
    ∷ ("ao2.antigravity-provider-pilot-acceptance.v1", acceptance_antigravity)
    ∷ ("ao2.control-plane-fleet-bundle.v1", control_plane_bundle)
    ∷ ("ao2.evidence-pack.v1", evidence_pack)
    ∷ ("factory-v3/hermes-ao2-watchdog-panel/v1", hermes_watchdog_panel)
    ∷ ("ao2.memory-export.v1", memory_export)
    ∷ ("ao2.operator-evidence-packet.v1", operator_packet)
    ∷ ("factory-v3/ao2-phase1-promotion-checklist/v1", phase1_promotion_checklist)
    ∷ ("factory-v3/ao2-phase1-promotion-decision/v1", phase1_promotion_decision)
    ∷ (
      "ao2.phase1-replacement-promotion-inputs-verification.v1",
      phase1_promotion_inputs_verification,
    )
    ∷ ("factory-v3/hermes-provider-phase1-readiness/v1", provider_readiness)
    ∷ ("ao2.provider-plugin-registry.v1", provider_registry)
    ∷ ("factory-v3/ao2-release-evaluator-decision/v1", release_evaluator_decision)
    ∷ ("ao2.release-publication-summary.v1", release_publication)
    ∷ ("ao2-control-plane.three-os-release-smoke.v1", three_os_release_smoke)
    ∷ []

abbrev pub kind_at : String → List (String × BundleKind) → Option BundleKind
kind_at s [] = none
kind_at s ((t, kind) ∷ table) = if s == t then some kind else kind_at s table

-- The arms that are guarded by the provider.
abbrev pub provider_kind : Option String → Option BundleKind
provider_kind none = none
provider_kind (some provider) = kind_at provider (
    ("codex", acceptance_codex)
    ∷ ("claude", acceptance_claude)
    ∷ ("antigravity", acceptance_antigravity)
    ∷ [])

unfoldable pub entry_kind : IndexEntry → Option BundleKind
unfolding string_eq
entry_kind e = elim (kind_at e.schema schema_kinds) [
  | some kind ↦ some kind
  | none ↦ provider_kind e.provider
]

-- `entry_kind(entry) == Some(kind)`
unfoldable pub is_kind : BundleKind → IndexEntry → Bool
is_kind kind e = entry_kind e == some kind

pub record RetentionPolicy : Type 0 where
  pub keep_latest : ℕ

pub record RetentionCandidate : Type 0 where
  pub kind : String
  pub sha256 : String
  pub schema : String
  pub ingested_at : ℕ
  pub size_bytes : ℕ
  pub related_bundle_kinds : List String

-- `+=` on a `u64`, which wraps around in a release build.
abbrev pub add_u64 : ℕ → ℕ → ℕ
add_u64 a b = (a + b) % 2 ^ 64

abbrev pub sum_u64 : List ℕ → ℕ
sum_u64 [] = 0
sum_u64 (n ∷ ns) = add_u64 n (sum_u64 ns)

abbrev or_zero : Result BundleStoreError ℕ → ℕ
or_zero (ok n) = n
or_zero (err e) = 0

-- `bundles.size(kind, sha).await.unwrap_or(0)`
abbrev pub size_or_zero : BundleKind → String → Host → ℕ × Host
size_or_zero kind sha h = let (r, h') = Bundle.size kind sha h in (or_zero r, h')

-- The loop over the related kinds: the size so far, and the names of the kinds that are there.
unfoldable pub add_related : List BundleKind → String → ℕ → Host → (ℕ × List String) × Host
unfolding subdir
add_related [] sha size h = ((size, []), h)
add_related (kind ∷ kinds) sha size h =
    let (there, h₁) = Bundle.exists kind sha h in
    elim there [
      | false ↦ add_related kinds sha size h₁
      | true ↦
          let (more, h₂) = size_or_zero kind sha h₁ in
          let (rest, h₃) = add_related kinds sha (add_u64 size more) h₂ in
          ((rest.0, subdir kind ∷ rest.1), h₃)
    ]

unfoldable pub candidate : BundleKind → IndexEntry → Host → RetentionCandidate × Host
unfolding subdir add_related related_kinds
candidate kind e h =
    let (size, h₁) = size_or_zero kind e.sha256 h in
    let (total, h₂) = add_related (related_kinds kind) e.sha256 size h₁ in
    (
      record {
        kind = subdir kind;
        sha256 = e.sha256;
        schema = e.schema;
        ingested_at = e.ingested_at;
        size_bytes = total.0;
        related_bundle_kinds = total.1;
      },
      h₂,
    )

unfoldable pub candidates_for : BundleKind → List IndexEntry → Host → List RetentionCandidate × Host
unfolding candidate
candidates_for kind [] h = ([], h)
candidates_for kind (e ∷ es) h =
    let (c, h₁) = candidate kind e h in let (cs, h₂) = candidates_for kind es h₁ in (c ∷ cs, h₂)

-- The entries of a kind, the latest first; those of one instant keep the order of the index.
unfoldable pub latest_of : BundleKind → List IndexEntry → List IndexEntry
unfolding is_kind sort_by
latest_of kind entries =
    sort_by (λ a b. leb b.ingested_at a.ingested_at) (filter (is_kind kind) entries)

unfoldable pub gather :
    List BundleKind → List IndexEntry → RetentionPolicy → Host → List RetentionCandidate × Host
unfolding latest_of candidates_for
gather [] entries policy h = ([], h)
gather (kind ∷ kinds) entries policy h =
    let (cs, h₁) = candidates_for kind (drop policy.keep_latest (latest_of kind entries)) h in
    let (more, h₂) = gather kinds entries policy h₁ in (cs ++ more, h₂)

unfoldable pub retention_candidates :
    List IndexEntry → RetentionPolicy → Host → List RetentionCandidate × Host
unfolding gather sort_by
retention_candidates entries policy h =
    let (cs, h') = gather all_prunable_primary_kinds entries policy h in
    (sort_by (λ a b. leb a.ingested_at b.ingested_at) cs, h')

-- `if let Some(kind) = bundle_kind_from_subdir(name)` and its body.
unfoldable pub remove_one : Option BundleKind → String → Bundle.Method (Unit {0})
remove_one none sha h = (ok tt, h)
remove_one (some kind) sha h = (do Bundle.remove_if_exists kind sha; λ g. (ok tt, g)) h

-- The removal of one digest below each of the named directories.
unfoldable pub remove_kinds : List String → String → Bundle.Method (Unit {0})
unfolding remove_one
remove_kinds [] sha h = (ok tt, h)
remove_kinds (name ∷ names) sha h =
    (do remove_one (bundle_kind_from_subdir name) sha; remove_kinds names sha) h

unfoldable pub remove_candidates : List RetentionCandidate → Bundle.Method (Unit {0})
remove_candidates [] h = (ok tt, h)
remove_candidates (c ∷ cs) h =
    (do remove_kinds (c.kind ∷ c.related_bundle_kinds) c.sha256; remove_candidates cs) h

-- The entries whose digest is not that of a candidate.
unfoldable pub retained : List RetentionCandidate → List IndexEntry → List IndexEntry
retained cs = filter (λ e. not (contains (map (λ c. c.sha256) cs) e.sha256))

pub record RetentionPruneResult : Type 0 where
  pub dry_run : Bool
  pub keep_latest : ℕ
  pub pruned : List RetentionCandidate
  pub retained_index_entries : ℕ
  pub reclaimed_bytes : ℕ

abbrev pub prune_result :
    RetentionPolicy → Bool → List IndexEntry → List RetentionCandidate → RetentionPruneResult
prune_result policy dry_run entries cs = record {
  dry_run = dry_run;
  keep_latest = policy.keep_latest;
  pruned = cs;
  retained_index_entries = length (retained cs entries);
  reclaimed_bytes = sum_u64 (map (λ c. c.size_bytes) cs);
}

module _ (c : Codec) where
  -- The part under `if !dry_run`.
  unfoldable pub carry_out : Bool → List RetentionCandidate → List IndexEntry → Method (Unit {0})
  unfolding remove_candidates retained
  carry_out true cs entries s = (ok tt, s)
  carry_out false cs entries s =
      (do on_bundles (remove_candidates cs); on_index (Index.rewrite c (retained cs entries))) s

  unfoldable pub prune_retention : RetentionPolicy → Bool → Method RetentionPruneResult
  unfolding retention_candidates carry_out
  prune_retention policy dry_run = do
    entries ← on_index (Index.read_all c)
    λ s.
        let (cs, h) = retention_candidates entries policy s.host in
        (do carry_out dry_run cs entries; λ t. (ok (prune_result policy dry_run entries cs), t))
          (record s { host = h })
