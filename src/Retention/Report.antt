-- ===== src/Retention/Report.antt =====
-- `retention_report` of crates/ao2-cp-storage/src/lib.rs.
pub mod Totals
use ao2_control_plane.Base.{
  ℕ, zero, suc, ◌+◌, ◌-◌, ◌≤◌, ◌<◌, ◌%◌, ◌^◌, ◌≡◌, refl, ap, ◌∙◌, sym, min, String, Bool, true,
  false, List, [], ◌∷◌, ◌++◌, map, Option, none, some, Result, ok, err, Exec, ◌>>=◌, ◌>>◌, continue,
  map_err, convert, arith, string_eq, ◌==◌, if◌then◌else◌, length, length-take, take, filter, ltb,
  leb,
}
use ao2_control_plane.Disk.{Host, metadata}
use ao2_control_plane.Bundle
use ao2_control_plane.Bundle.{BundleStoreError}
use ao2_control_plane.Bundle.Kind.{BundleKind, subdir, all_bundle_kinds}
use ao2_control_plane.Index
use ao2_control_plane.Index.State.{IndexEntry, Storage, Codec}
use ao2_control_plane.Retention.{
  StorageError, Method, RetentionPolicy, RetentionCandidate, add_u64, sum_u64, size_or_zero,
  is_kind, retention_candidates, on_index, on_bundles,
}

pub record RetentionKindReport : Type 0 where
  pub kind : String
  pub indexed_entries : ℕ
  pub bundle_files : ℕ
  pub size_bytes : ℕ
  pub prune_candidates : ℕ

pub record RetentionReport : Type 0 where
  pub keep_latest : ℕ
  pub total_index_entries : ℕ
  pub total_bundle_files : ℕ
  pub total_size_bytes : ℕ
  pub reclaimable_bytes : ℕ
  pub total_prune_candidates : ℕ
  pub prune_candidates_limit : ℕ
  pub prune_candidates_truncated : Bool
  pub kinds : List RetentionKindReport
  pub prune_candidates : List RetentionCandidate

abbrev pub max_prune_candidates : ℕ
max_prune_candidates = 100

-- The loop over the listed digests: a size that cannot be read adds nothing.
unfoldable pub listed_size : BundleKind → List String → ℕ → Host → ℕ × Host
listed_size kind [] size h = (size, h)
listed_size kind (sha ∷ listed) size h =
    let (more, h') = size_or_zero kind sha h in listed_size kind listed (add_u64 size more) h'

unfoldable pub kind_report :
    List IndexEntry → List RetentionCandidate → BundleKind → Bundle.Method RetentionKindReport
unfolding listed_size subdir is_kind string_eq
kind_report entries candidates kind = do
  listed ← Bundle.list kind
  λ h.
      let (size, h') = listed_size kind listed 0 h in
      (
        ok (record {
          kind = subdir kind;
          indexed_entries = length (filter (is_kind kind) entries);
          bundle_files = length listed;
          size_bytes = size;
          prune_candidates = length (filter (λ c. c.kind == subdir kind) candidates);
        }),
        h',
      )

-- The loop over the kinds, with the totals of files and of bytes so far.
abbrev pub Totals : Type 0
Totals = ℕ × ℕ × List RetentionKindReport

unfoldable pub kind_reports :
    List IndexEntry → List RetentionCandidate → List BundleKind → ℕ → ℕ → Bundle.Method Totals
unfolding kind_report
kind_reports entries candidates [] files bytes h = (ok (files, bytes, []), h)
kind_reports entries candidates (kind ∷ kinds) files bytes h =
    (do
      report ← kind_report entries candidates kind
      (f, b, more) ←
          kind_reports entries candidates kinds (files + report.bundle_files)
            (add_u64 bytes report.size_bytes)
      λ g. (ok (f, b, report ∷ more), g))
      h

abbrev pub report_of :
    RetentionPolicy → List IndexEntry → List RetentionCandidate → Totals → RetentionReport
report_of policy entries candidates (files, bytes, kinds) = record {
  keep_latest = policy.keep_latest;
  total_index_entries = length entries;
  total_bundle_files = files;
  total_size_bytes = bytes;
  reclaimable_bytes = sum_u64 (map (λ c. c.size_bytes) candidates);
  total_prune_candidates = length candidates;
  prune_candidates_limit = max_prune_candidates;
  prune_candidates_truncated = ltb max_prune_candidates (length candidates);
  kinds = kinds;
  prune_candidates = take max_prune_candidates candidates;
}

-- `retention_report_for_entries`
unfoldable pub retention_report_for_entries :
    List IndexEntry → RetentionPolicy → Method RetentionReport
unfolding kind_reports retention_candidates
retention_report_for_entries entries policy s =
    let (candidates, h) = retention_candidates entries policy s.host in
    (do
      totals ← on_bundles (kind_reports entries candidates all_bundle_kinds 0 0)
      λ t. (ok (report_of policy entries candidates totals), t))
      (record s { host = h })

unfoldable pub retention_report : Codec → RetentionPolicy → Method RetentionReport
unfolding retention_report_for_entries
retention_report c policy = do
  entries ← on_index (Index.read_all c)
  retention_report_for_entries entries policy
