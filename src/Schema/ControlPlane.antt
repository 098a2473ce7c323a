-- ===== src/Schema/ControlPlane.antt =====
-- crates/ao2-cp-schema/src/control_plane.rs: the envelope of a bundle of the control plane.
use ao2_control_plane.Base.{
  String, ◌<>◌, Bool, not, Result, ok, err, string_eq, ◌==◌, if◌then◌else◌,
}
use ao2_control_plane.Disk.{Bytes}
use ao2_control_plane.Json.{Members}

abbrev pub schema : String
schema = "ao2.control-plane-fleet-bundle.v1"

pub record ControlPlaneBundle : Type 0 where
  pub schema_version : String
  pub rest : Members

pub data ControlPlaneBundleParseError : Type 0 where
  json : String → ControlPlaneBundleParseError
  wrong_schema : String → String → ControlPlaneBundleParseError

-- `to_string`
unfoldable pub describe : ControlPlaneBundleParseError → String
describe (json message) = "json parse failed: " <> message
describe (wrong_schema expected actual) =
    "expected schema_version " <> expected <> ", got " <> actual

-- `decode` is `serde_json::from_str` at the record, with the text of its error.
unfoldable pub parse_control_plane_bundle :
    (Bytes → Result String ControlPlaneBundle)
    → Bytes
    → Result ControlPlaneBundleParseError ControlPlaneBundle
unfolding string_eq
parse_control_plane_bundle decode raw = elim (decode raw) [
  | err message ↦ err (json message)
  | ok bundle ↦
      if not (bundle.schema_version == schema)
      then err (wrong_schema schema bundle.schema_version)
      else ok bundle
]

unfoldable pub is_control_plane_bundle_schema : String → Bool
unfolding string_eq
is_control_plane_bundle_schema version = version == schema
