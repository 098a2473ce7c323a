-- ===== src/Tests.antt =====
-- Concrete stores, entries and requests on which the theorems are run.
mod Retain
mod Requests
mod Documents
mod Readiness
mod Handlers
mod Promotions
mod Signatures
use ao2_control_plane.Base.{
  ℕ, ◌<◌, ◌≡◌, ◌≢◌, refl, ap, sym, ◌∙◌, ◌⊎◌, String, Bool, true, false, not, List, [], ◌∷◌, ◌++◌,
  map, Option, none, some, Result, ok, err, Perm, contains, string_eq, ◌==◌, if◌then◌else◌, arith,
  length, take, filter, all, leb, All, is_ok, ◌&&◌, min,
}
use ao2_control_plane.Base.Text.{codes, codes_eq}
use ao2_control_plane.Disk.{
  Host, File, FilePath, Bytes, Files, lookup, insert, path_eq, json, index_jsonl,
}
use ao2_control_plane.Bundle
use ao2_control_plane.Bundle.{path}
use ao2_control_plane.Bundle.Kind.{
  BundleKind, kind_eq, subdir, evidence_pack, memory_export, evidence_pack_signature,
  phase1_promotion_inputs_verification, all_bundle_kinds, all_prunable_primary_kinds, swept_kinds,
  bundle_kind_from_subdir,
}
use ao2_control_plane.Bundle.Kind.Names.{subdir_injective, bundle_kind_from_subdir-subdir}
use ao2_control_plane.Bundle.Atomic.{lookup-write}
use ao2_control_plane.Bundle.Truncated.{truncated_write_is_ok}
use ao2_control_plane.Bundle.Reads.{Agrees, readers_agree, lookup-remove_if_exists, is_removed}
use ao2_control_plane.Index.State.{
  IndexEntry, IndexState, Storage, Codec, Prints, initial_state, is_valid_sha256_hex, is_blank,
}
use ao2_control_plane.Index.{ledger, ensure_loaded, append, append_if_absent, is_current}
use ao2_control_plane.Index.Load.{
  Loaded, nothing, load_file, load_lines, lines_from, line_kind, malformed, step,
}
use ao2_control_plane.Index.Lines.{ends_line, with_entry}
use ao2_control_plane.Index.Coherence.{Ensured, IsCoherent, Holds, ensure_loaded_calm, shas}
use ao2_control_plane.Index.Append.{append_if_absent_calm}
use ao2_control_plane.Index.Torn.{torn_append_lost, one_malformed}
use ao2_control_plane.Index.Page.{IndexPageRequest, page_of, pages_join, IsPage, page_of-IsPage}

abbrev sha_a : String
sha_a = "aaaaaaaaaaaaaaaaaaaaaaaaaaaaaaaaaaaaaaaaaaaaaaaaaaaaaaaaaaaaaaaa"

abbrev sha_b : String
sha_b = "bbbbbbbbbbbbbbbbbbbbbbbbbbbbbbbbbbbbbbbbbbbbbbbbbbbbbbbbbbbbbbbb"

abbrev pack : ℕ → String → IndexEntry
pack at sha = record {
  ingested_at = at;
  schema = "ao2.evidence-pack.v1";
  provider = none;
  sha256 = sha;
  status = some "passed";
  size_bytes = 3;
}

abbrev two_packs : List IndexEntry
two_packs = pack 1 sha_a ∷ pack 2 sha_b ∷ []

abbrev no_files : Host
no_files = record {
  files = [];
  faults = [];
  now = some 5;
  reports = λ bytes n. false;
  stored = false;
  pid = 7;
  write_counter = 0;
}

-- A disk that fails the third call, after two bytes of it if it is a write, which does not learn of
-- it.
abbrev failing : Host
failing = record no_files { faults = none ∷ none ∷ some 2 ∷ [] }

-- An entry is printed as its digest, and the digest of `pack 1 sha_a` is all that parses.
abbrev digest_codec : Codec
digest_codec = record {
  print = λ e. codes e.sha256;
  parse = λ bytes. if bytes == codes sha_a then some (pack 1 sha_a) else none;
  is_utf8 = λ bytes. true;
}

abbrev empty_storage : Storage
empty_storage = record { host = no_files; index = initial_state }

digest_codec-Prints : Prints digest_codec (pack 1 sha_a)
unfolding codes_eq is_blank native.Mathlib.Decide.ℕ_discrete
digest_codec-Prints = record { parse-print = refl; utf8 = refl; no_control = refl; visible = refl }

sha_a-valid : is_valid_sha256_hex sha_a ≡ true
unfolding is_valid_sha256_hex native.Mathlib.Decide.ℕ_discrete
sha_a-valid = refl

empty_storage-IsCoherent : IsCoherent digest_codec empty_storage
unfolding lookup ends_line is_current
empty_storage-IsCoherent = record { finished = refl; current = λ h. ground arith }

empty_loads : load_file digest_codec (lookup ledger no_files.files) ≡ some nothing
unfolding load_file lookup
empty_loads = refl

lookup-write_example :
    (left : Bytes) × ((left ≡ 1 ∷ 2 ∷ 3 ∷ [])
      ⊎ ((n : ℕ) × (failing.reports (1 ∷ 2 ∷ 3 ∷ []) n ≡ false) × (left ≡ take n (1 ∷ 2 ∷ 3 ∷ []))))
    × ((other : BundleKind) (sha : String)
        → lookup
            (path other sha)
            (Bundle.write evidence_pack sha_a (1 ∷ 2 ∷ 3 ∷ []) failing).1.files
          ≡ (if is_ok (Bundle.write evidence_pack sha_a (1 ∷ 2 ∷ 3 ∷ []) failing).0
                && path evidence_pack sha_a == path other sha
              then some (record { content = left; modified = some 5 })
              else lookup (path other sha) []))
lookup-write_example = lookup-write evidence_pack sha_a (1 ∷ 2 ∷ 3 ∷ []) failing

truncated_write_is_ok_example :
    ((Bundle.write evidence_pack sha_a (1 ∷ 2 ∷ 3 ∷ []) failing).0 ≡ ok tt)
    × (lookup
          (path evidence_pack sha_a)
          (Bundle.write evidence_pack sha_a (1 ∷ 2 ∷ 3 ∷ []) failing).1.files
        ≡ some (record { content = 1 ∷ 2 ∷ []; modified = some 5 }))
truncated_write_is_ok_example =
    truncated_write_is_ok evidence_pack sha_a (1 ∷ 2 ∷ 3 ∷ []) 2 failing refl refl

-- A disk with one bundle.
abbrev one_file : Host
one_file = record no_files {
  files =
      (
        record { dir = "evidence-pack"; name = json sha_a },
        record { content = 1 ∷ []; modified = none },
      )
      ∷ [];
}

readers_agree_example : Agrees evidence_pack sha_a one_file
readers_agree_example = readers_agree evidence_pack sha_a one_file refl

ensure_loaded_calm_example :
    ((ensure_loaded digest_codec empty_storage).0 ≡ ok tt)
    × Ensured digest_codec empty_storage (ensure_loaded digest_codec empty_storage).1 nothing
ensure_loaded_calm_example =
    ensure_loaded_calm digest_codec empty_storage nothing empty_storage-IsCoherent refl empty_loads

append_if_absent_calm_example :
    ((append_if_absent digest_codec (pack 1 sha_a) empty_storage).0 ≡ ok true)
    × (load_file digest_codec
          (lookup ledger (append_if_absent digest_codec (pack 1 sha_a) empty_storage).1.host.files)
        ≡ some (with_entry (pack 1 sha_a) nothing))
    × Holds
        (with_entry (pack 1 sha_a) nothing)
        (append_if_absent digest_codec (pack 1 sha_a) empty_storage).1
    × IsCoherent digest_codec (append_if_absent digest_codec (pack 1 sha_a) empty_storage).1
append_if_absent_calm_example =
    append_if_absent_calm digest_codec (pack 1 sha_a) empty_storage nothing digest_codec-Prints
      empty_storage-IsCoherent refl empty_loads sha_a-valid

-- A ledger of one brace, the start of a line.
abbrev torn_file : File
torn_file = record { content = b'{' ∷ []; modified = none }

abbrev torn_storage : Storage
torn_storage = record {
  host = record no_files { files = (record { dir = ""; name = index_jsonl }, torn_file) ∷ [] };
  index = initial_state;
}

torn_there : lookup ledger torn_storage.host.files ≡ some torn_file
unfolding lookup path_eq
torn_there = ground arith

nothing_finished : ends_line [] ≡ true
unfolding ends_line
nothing_finished = refl

no_lines_load : load_lines digest_codec (lines_from [] []) nothing ≡ some nothing
unfolding load_lines lines_from
no_lines_load = refl

torn_loads : load_file digest_codec (some torn_file) ≡ some (one_malformed nothing)
unfolding load_file line_kind codes_eq is_blank native.Mathlib.Decide.ℕ_discrete
torn_loads = refl

torn_line : line_kind digest_codec (b'{' ∷ codes sha_a) ≡ malformed
unfolding line_kind codes_eq is_blank native.Mathlib.Decide.ℕ_discrete
torn_line = refl

torn_append_lost_example :
    ((append digest_codec (pack 1 sha_a) torn_storage).0 ≡ ok tt)
    × ((append digest_codec (pack 1 sha_a) torn_storage).1.index.entries ≡ pack 1 sha_a ∷ [])
    × (load_file digest_codec
          (lookup ledger (append digest_codec (pack 1 sha_a) torn_storage).1.host.files)
        ≡ some (one_malformed nothing))
torn_append_lost_example =
    torn_append_lost digest_codec (pack 1 sha_a) torn_storage torn_file [] (b'{' ∷ []) nothing
      (one_malformed nothing) digest_codec-Prints sha_a-valid refl refl torn_there refl
      nothing_finished refl no_lines_load torn_loads torn_line

abbrev first_page : IndexPageRequest
first_page = record {
  offset = 0;
  limit = 1;
  schema_prefix = some "ao2.";
  provider = none;
  status = some "passed";
}

page_of-IsPage_example : IsPage first_page two_packs (page_of first_page two_packs)
page_of-IsPage_example = page_of-IsPage first_page two_packs
