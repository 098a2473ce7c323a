-- ===== src/Tests/Retain.antt =====
-- Pruning, reporting and sweeping, run.
use ao2_control_plane.Base.{
  ℕ, String, List, ◌≡◌, refl, true, false, [], ◌∷◌, map, none, some, contains, string_eq,
}
use ao2_control_plane.Disk.{Host, lookup, json, index_jsonl}
use ao2_control_plane.Bundle.{path}
use ao2_control_plane.Bundle.Kind.{
  subdir, all_bundle_kinds, kind_eq, evidence_pack, phase1_promotion_inputs_verification,
  swept_kinds,
}
use ao2_control_plane.Index.State.{Codec}
use ao2_control_plane.Retention.{RetentionPolicy, RetentionCandidate, remove_candidates}
use ao2_control_plane.Index.{read_all, ensure_loaded, file_fingerprint, is_current}
use ao2_control_plane.Index.State.{IndexEntry, Storage, initial_state}
use ao2_control_plane.Disk.{metadata, path_eq}
use ao2_control_plane.Retention.Removal.{remove_candidates-lookup}
use ao2_control_plane.Retention.Report.{RetentionReport, report_of}
use ao2_control_plane.Sweep.{open_storage}
use ao2_control_plane.Sweep.Keeps.{open_storage-lookup, open_storage-lookup_unswept}
use ao2_control_plane.Tests.{pack, sha_a, sha_b, no_files, one_file, digest_codec}

abbrev keep_one : RetentionPolicy
keep_one = record { keep_latest = 1 }

abbrev old_pack : RetentionCandidate
old_pack = record {
  kind = "evidence-pack";
  sha256 = sha_b;
  schema = "ao2.evidence-pack.v1";
  ingested_at = 1;
  size_bytes = 1;
  related_bundle_kinds = "evidence-pack-signature" ∷ [];
}

sha_a-kept : contains (map (λ c. c.sha256) (old_pack ∷ [])) sha_a ≡ false
unfolding string_eq
sha_a-kept = refl

remove_candidates-lookup_example :
    lookup (path evidence_pack sha_a) (remove_candidates (old_pack ∷ []) one_file).1.files
    ≡ lookup (path evidence_pack sha_a) one_file.files
remove_candidates-lookup_example =
    remove_candidates-lookup (old_pack ∷ []) evidence_pack sha_a one_file sha_a-kept

unswept : contains swept_kinds phase1_promotion_inputs_verification ≡ false
unfolding kind_eq
unswept = refl

open_storage-lookup_unswept_example :
    lookup
      (path phase1_promotion_inputs_verification sha_a)
      (open_storage digest_codec one_file).1.host.files
    ≡ lookup (path phase1_promotion_inputs_verification sha_a) one_file.files
open_storage-lookup_unswept_example =
    open_storage-lookup_unswept digest_codec one_file phase1_promotion_inputs_verification sha_a
      unswept

-- Every line parses, as the same entry.
abbrev one_entry_codec : Codec
one_entry_codec = record {
  print = λ e. [];
  parse = λ bytes. some (pack 1 sha_a);
  is_utf8 = λ bytes. true;
}

-- A ledger of one entry, with its bundle and an orphan.
abbrev ledger_and_bundles : Host
ledger_and_bundles = record no_files {
  files =
      (
        record { dir = ""; name = index_jsonl },
        record { content = b'a' ∷ 10 ∷ []; modified = none },
      )
      ∷ (
        record { dir = "evidence-pack"; name = json sha_a },
        record { content = 1 ∷ []; modified = none },
      )
      ∷ (
        record { dir = "evidence-pack"; name = json sha_b },
        record { content = 2 ∷ []; modified = none },
      )
      ∷ [];
}

sha_a-indexed :
    contains
      (map (λ e. e.sha256) (open_storage one_entry_codec ledger_and_bundles).1.index.entries)
      sha_a
    ≡ true
unfolding open_storage ao2_control_plane.Disk.create_dir_all ao2_control_plane.Index.read_all
    ao2_control_plane.Index.ensure_loaded ao2_control_plane.Index.file_fingerprint
    ao2_control_plane.Disk.metadata lookup ao2_control_plane.Disk.path_eq
    ao2_control_plane.Index.is_current ao2_control_plane.Index.load_from_disk
    ao2_control_plane.Disk.read_file ao2_control_plane.Disk.read_on
    ao2_control_plane.Index.Load.load_lines ao2_control_plane.Index.Load.lines_from
    native.Mathlib.Decide.ℕ_discrete ao2_control_plane.Index.State.is_blank
    ao2_control_plane.Index.State.is_valid_sha256_hex string_eq
sha_a-indexed = refl

open_storage-lookup_example :
    lookup (path evidence_pack sha_a) (open_storage one_entry_codec ledger_and_bundles).1.host.files
    ≡ lookup (path evidence_pack sha_a) ledger_and_bundles.files
open_storage-lookup_example =
    open_storage-lookup one_entry_codec ledger_and_bundles evidence_pack sha_a sha_a-indexed

abbrev empty_report : RetentionReport
empty_report = report_of keep_one [] [] (
  0,
  0,
  map
      (λ k. record {
        kind = subdir k;
        indexed_entries = 0;
        bundle_files = 0;
        size_bytes = 0;
        prune_candidates = 0;
      })
      all_bundle_kinds,
)

abbrev codex_run : ℕ → String → IndexEntry
codex_run at sha = record {
  ingested_at = at;
  schema = "x";
  provider = some "codex";
  sha256 = sha;
  status = none;
  size_bytes = 1;
}

abbrev two_runs : List IndexEntry
two_runs = codex_run 1 sha_a ∷ codex_run 2 sha_b ∷ []

abbrev silent_codec : Codec
silent_codec = record digest_codec { print = λ e. [] }

-- The index is resident, and no bundle is left.
abbrev two_resident : Storage
two_resident = record {
  host = no_files;
  index = record initial_state { loaded = true; entries = two_runs };
}

abbrev older_run : RetentionCandidate
older_run = record {
  kind = "acceptance/codex";
  sha256 = sha_a;
  schema = "x";
  ingested_at = 1;
  size_bytes = 0;
  related_bundle_kinds = [];
}
