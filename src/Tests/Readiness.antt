-- ===== src/Tests/Readiness.antt =====
-- The readiness of a small index.
use ao2_control_plane.Base.{ℕ, ◌*◌, ◌^◌, String, List, [], ◌∷◌, Option, none, some}
use ao2_control_plane.Disk.{Bytes}
use ao2_control_plane.Json.{Value}
use ao2_control_plane.Index.State.{IndexEntry}
use ao2_control_plane.Support.Sidecars.{support_bundle_phase1_readiness}
use ao2_control_plane.Support.Counts.{CoherentAnswer, readiness-IsCoherent}
use ao2_control_plane.Tests.{sha_a, sha_b, pack, no_files}

abbrev decision : IndexEntry
decision = record {
  ingested_at = 1;
  schema = "factory-v3/ao2-release-evaluator-decision/v1";
  provider = none;
  sha256 = sha_a;
  status = some "rejected";
  size_bytes = 3;
}

abbrev entries : List IndexEntry
entries = decision ∷ pack 2 sha_b ∷ []

abbrev clock : String → ℕ
clock id = 100 * 10 ^ 9

abbrev no_json : Bytes → Option Value
no_json bytes = none

readiness-IsCoherent_example :
    CoherentAnswer (support_bundle_phase1_readiness no_json clock entries no_files).0
readiness-IsCoherent_example = readiness-IsCoherent no_json clock entries no_files
