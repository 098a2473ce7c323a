-- ===== src/Readiness.antt =====
-- crates/ao2-cp-server/src/handlers/provider_readiness.rs: what a readiness artifact must show, and how
-- near it is to Phase 1.
pub mod Signature
pub mod Handlers
pub mod Complete
pub mod Provenance
pub mod Authority
use ao2_control_plane.Base.{
  ℕ, ◌+◌, String, ◌<>◌, Bool, true, false, not, ◌&&◌, ◌||◌, List, [], ◌∷◌, ◌++◌, Option, none, some,
  Result, ok, err, string_eq, ◌==◌, if◌then◌else◌, length, filter, ltb, require, then_do,
}
use ao2_control_plane.Json.{
  Value, Items, Members, no_items, item, get, as_str, as_object, find_member,
}
use ao2_control_plane.Server.AppError.{AppError}
use ao2_control_plane.Ingest.Dashboard.Source.{and_then, json_str, as_array}
use ao2_control_plane.Promotion.{or_else, first_of, is_some, require_schema}
use ao2_control_plane.Promotion.Evidence.{provider_readiness_schema}

abbrev contract_status : String → Members → String
contract_status provider contracts =
    or_else (and_then (find_member provider contracts) (λ c. json_str c "status")) ""

abbrev require_verified : List String → Members → Result AppError (Unit {0})
require_verified [] contracts = ok tt
require_verified (provider ∷ providers) contracts =
    then_do
      (require (contract_status provider contracts == "verified")
        (AppError.schema_invalid (provider <> " provider contract must be verified")))
      (λ u. require_verified providers contracts)

abbrev contracts_of : Value → Result AppError Members
contracts_of readiness = elim (and_then (get "contracts" readiness) as_object) [
  | some contracts ↦ ok contracts
  | none ↦ err (AppError.schema_invalid "provider readiness missing contracts")
]

unfoldable pub validate_provider_readiness : Value → Result AppError (Unit {0})
unfolding require_schema get as_object find_member json_str string_eq
validate_provider_readiness readiness =
    then_do (require_schema provider_readiness_schema readiness) (λ a.
      then_do (contracts_of readiness)
        (λ contracts. require_verified ("codex" ∷ "claude" ∷ "antigravity" ∷ []) contracts))

-- The status goes before the verdict here.
unfoldable pub readiness_status : Value → String → String
unfolding get as_str
readiness_status readiness key =
    or_else
      (and_then (and_then (get key readiness) (λ v. first_of (get "status" v) (get "verdict" v)))
        as_str)
      "unknown"

abbrev names_codex : Items → Bool
names_codex no_items = false
names_codex (item v rest) =
    (elim (as_str v) [ some provider ↦ provider == "codex" | none ↦ false ]) || names_codex rest

abbrev pub artifact_status : Value → String
artifact_status readiness = or_else (json_str readiness "status") "unknown"

unfoldable pub required_live_provider_pilot : Value → Bool
unfolding get as_array as_str string_eq
required_live_provider_pilot readiness =
    elim (and_then (get "required_live_provider_pilots" readiness) as_array) [
      | some providers ↦ names_codex providers
      | none ↦ false
    ]

-- `provider` is "codex" always.
pub record Phase1Status : Type 0 where
  pub state : String
  pub reason : String
  pub gate : String
  pub pilot : String
  pub required_live_provider_pilot : Bool
  pub next_action : String

-- The chain over its tests: the artifact passed, the gate is ready, the pilot is known not to be ready,
-- it is ready, it is required.
abbrev pub classified : Bool → Bool → Bool → Bool → Bool → String × String × String
classified passed gate_ready pilot_waits pilot_ready required =
    if not passed
    then (
      "failed", "readiness_artifact_not_passed",
      "fix provider readiness artifact generation before Phase 1 promotion",
    )
    else if not gate_ready
    then (
      "blocked", "codex_gate_not_ready",
      "run guarded Codex provider smoke only after explicit operator approval",
    )
    else if pilot_waits
    then (
      "blocked", "codex_pilot_not_ready",
      "run guarded Codex provider pilot only after explicit operator approval",
    )
    else if pilot_ready && required
    then (
      "pilot_complete", "codex_pilot_ready_and_required",
      "review signed provider-pilot acceptance evidence for Phase 1 promotion",
    )
    else if pilot_ready
    then (
      "ready", "codex_gate_and_pilot_ready",
      "require a live Codex provider pilot before Phase 1 promotion",
    )
    else (
      "blocked", "codex_pilot_unknown",
      "publish a provider readiness artifact with a ready Codex pilot",
    )

unfoldable pub provider_phase1_status : Value → Phase1Status
unfolding json_str readiness_status required_live_provider_pilot string_eq
provider_phase1_status readiness =
    let gate = readiness_status readiness "codex_gate" in
    let pilot = readiness_status readiness "codex_pilot" in
    let required = required_live_provider_pilot readiness in
    let (state, reason, next_action) =
      classified (artifact_status readiness == "passed") (gate == "ready")
        (pilot == "blocked" || pilot == "not_ready") (pilot == "ready") required in
    record {
      state = state;
      reason = reason;
      gate = gate;
      pilot = pilot;
      required_live_provider_pilot = required;
      next_action = next_action;
    }

abbrev pub blocker_if : Bool → String → List String
blocker_if test text = if test then text ∷ [] else []

abbrev pub listed_blockers : Bool → Bool → Bool → Bool → List String
listed_blockers passed gate_ready pilot_ready required =
    blocker_if (not passed) "Provider readiness artifact has not passed"
    ++ (blocker_if (not gate_ready) "Codex readiness gate is not ready"
        ++ (blocker_if (not pilot_ready) "Codex provider pilot is not ready"
            ++ blocker_if (gate_ready && pilot_ready && not required)
                "Live Codex provider pilot is not marked as required for Phase 1 promotion"))

unfoldable pub provider_phase1_blockers : Value → List String
unfolding json_str readiness_status required_live_provider_pilot string_eq
provider_phase1_blockers readiness =
    listed_blockers (artifact_status readiness == "passed")
      (readiness_status readiness "codex_gate" == "ready")
      (readiness_status readiness "codex_pilot" == "ready") (required_live_provider_pilot readiness)

abbrev pub is_blocked : Value → Bool
is_blocked readiness = (provider_phase1_status readiness).state == "blocked"

abbrev history_blockers : List (String × Value) → List String
history_blockers older =
    blocker_if (ltb 0 (length (filter (λ (p : String × Value). is_blocked p.1) older)))
      "blocked readiness artifacts remain in provider readiness history"

-- The latest artifact stands first.
unfoldable pub provider_phase1_dashboard_blockers : List (String × Value) → List String
unfolding provider_phase1_blockers provider_phase1_status string_eq
provider_phase1_dashboard_blockers [] = "No provider readiness artifacts have been ingested" ∷ []
provider_phase1_dashboard_blockers ((sha, latest) ∷ older) =
    provider_phase1_blockers latest ++ history_blockers older

pub record Trend : Type 0 where
  pub total_count : ℕ
  pub latest_sha256 : String
  pub latest_status : String
  pub latest_codex_gate : String
  pub latest_codex_pilot : String
  pub latest_phase1_state : String
  pub codex_ready_count : ℕ
  pub codex_blocked_count : ℕ
  pub required_live_provider_pilot_count : ℕ

abbrev codex_ready : Value → Bool
codex_ready readiness =
    readiness_status readiness "codex_gate" == "ready"
    && readiness_status readiness "codex_pilot" == "ready"

abbrev has_items : Items → Bool
has_items no_items = false
has_items (item v rest) = true

abbrev requires_pilots : Value → Bool
requires_pilots readiness =
    elim (and_then (get "required_live_provider_pilots" readiness) as_array) [
      | some providers ↦ has_items providers
      | none ↦ false
    ]

abbrev count_where : (Value → Bool) → List (String × Value) → ℕ
count_where p items = length (filter (λ (i : String × Value). p i.1) items)

abbrev of_latest : (Value → String) → List (String × Value) → String
of_latest f [] = "unknown"
of_latest f ((sha, latest) ∷ older) = f latest

abbrev latest_sha : List (String × Value) → String
latest_sha [] = ""
latest_sha ((sha, latest) ∷ older) = sha

unfoldable pub provider_readiness_trend : List (String × Value) → Trend
unfolding provider_phase1_status readiness_status json_str get as_array string_eq
provider_readiness_trend items = record {
  total_count = length items;
  latest_sha256 = latest_sha items;
  latest_status = of_latest artifact_status items;
  latest_codex_gate = of_latest (λ v. readiness_status v "codex_gate") items;
  latest_codex_pilot = of_latest (λ v. readiness_status v "codex_pilot") items;
  latest_phase1_state = of_latest (λ v. (provider_phase1_status v).state) items;
  codex_ready_count = count_where codex_ready items;
  codex_blocked_count = count_where (λ v. readiness_status v "codex_pilot" == "blocked") items;
  required_live_provider_pilot_count = count_where requires_pilots items;
}
