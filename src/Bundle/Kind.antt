-- ===== src/Bundle/Kind.antt =====
-- `BundleKind` of crates/ao2-cp-storage/src/bundle.rs, and the tables over it in lib.rs.
pub mod Names
use ao2_control_plane.Base.{String, List, [], ◌∷◌, Option, find?, Eq, ◌==◌, string_eq}

pub data BundleKind : Type 0 where
  acceptance_codex acceptance_claude acceptance_antigravity : BundleKind
  ai_task_board control_plane_bundle : BundleKind
  evidence_pack evidence_pack_signature hermes_watchdog_panel : BundleKind
  memory_export memory_export_signature operator_packet operator_packet_signature : BundleKind
  phase1_promotion_checklist phase1_promotion_decision : BundleKind
  phase1_promotion_decision_signature phase1_promotion_inputs_verification : BundleKind
  provider_readiness provider_readiness_signature : BundleKind
  provider_registry provider_registry_signature : BundleKind
  release_evaluator_decision release_evaluator_decision_signature : BundleKind
  release_publication three_os_release_smoke : BundleKind
  windows_stack_qualification_progress : BundleKind

unfoldable pub BundleKind-discrete : Discrete BundleKind
BundleKind-discrete = hlevel

instance unfoldable pub kind_eq : Eq BundleKind
unfolding BundleKind-discrete
kind_eq = record { dec = BundleKind-discrete }

-- The directory below the data directory that holds the bundles of a kind.
unfoldable pub subdir : BundleKind → String
subdir acceptance_codex = "acceptance/codex"
subdir acceptance_claude = "acceptance/claude"
subdir acceptance_antigravity = "acceptance/antigravity"
subdir ai_task_board = "ai-task-board"
subdir control_plane_bundle = "control-plane-bundle"
subdir evidence_pack = "evidence-pack"
subdir evidence_pack_signature = "evidence-pack-signature"
subdir hermes_watchdog_panel = "hermes-watchdog-panel"
subdir memory_export = "memory-export"
subdir memory_export_signature = "memory-export-signature"
subdir operator_packet = "operator-packet"
subdir operator_packet_signature = "operator-packet-signature"
subdir phase1_promotion_checklist = "phase1-promotion-checklist"
subdir phase1_promotion_decision = "phase1-promotion-decision"
subdir phase1_promotion_decision_signature = "phase1-promotion-decision-signature"
subdir phase1_promotion_inputs_verification = "phase1-promotion-inputs-verification"
subdir provider_readiness = "provider-readiness"
subdir provider_readiness_signature = "provider-readiness-signature"
subdir provider_registry = "provider-registry"
subdir provider_registry_signature = "provider-registry-signature"
subdir release_evaluator_decision = "release-evaluator-decision"
subdir release_evaluator_decision_signature = "release-evaluator-decision-signature"
subdir release_publication = "release-publication"
subdir three_os_release_smoke = "three-os-release-smoke"
subdir windows_stack_qualification_progress = "windows-stack-qualification-progress"

-- The kinds that the retention report goes through.
abbrev pub all_bundle_kinds : List BundleKind
all_bundle_kinds =
    acceptance_codex ∷ acceptance_claude ∷ acceptance_antigravity ∷ control_plane_bundle
    ∷ evidence_pack ∷ evidence_pack_signature ∷ hermes_watchdog_panel ∷ memory_export
    ∷ memory_export_signature ∷ operator_packet ∷ operator_packet_signature
    ∷ phase1_promotion_checklist ∷ phase1_promotion_decision ∷ phase1_promotion_decision_signature
    ∷ phase1_promotion_inputs_verification ∷ provider_readiness ∷ provider_readiness_signature
    ∷ provider_registry ∷ provider_registry_signature ∷ release_evaluator_decision
    ∷ release_evaluator_decision_signature ∷ release_publication ∷ three_os_release_smoke ∷ []

abbrev pub all_prunable_primary_kinds : List BundleKind
all_prunable_primary_kinds =
    acceptance_codex ∷ acceptance_claude ∷ acceptance_antigravity ∷ control_plane_bundle
    ∷ evidence_pack ∷ hermes_watchdog_panel ∷ memory_export ∷ operator_packet
    ∷ phase1_promotion_checklist ∷ phase1_promotion_decision ∷ phase1_promotion_inputs_verification
    ∷ provider_readiness ∷ provider_registry ∷ release_evaluator_decision ∷ release_publication
    ∷ three_os_release_smoke ∷ []

-- The kinds whose orphans `Storage::open` removes.
abbrev pub swept_kinds : List BundleKind
swept_kinds =
    acceptance_codex ∷ acceptance_claude ∷ acceptance_antigravity ∷ control_plane_bundle
    ∷ evidence_pack ∷ evidence_pack_signature ∷ hermes_watchdog_panel ∷ memory_export
    ∷ memory_export_signature ∷ operator_packet ∷ operator_packet_signature
    ∷ phase1_promotion_checklist ∷ phase1_promotion_decision ∷ phase1_promotion_decision_signature
    ∷ provider_readiness ∷ provider_readiness_signature ∷ provider_registry
    ∷ provider_registry_signature ∷ release_evaluator_decision
    ∷ release_evaluator_decision_signature ∷ release_publication ∷ three_os_release_smoke ∷ []

unfoldable pub related_kinds : BundleKind → List BundleKind
related_kinds evidence_pack = evidence_pack_signature ∷ []
related_kinds memory_export = memory_export_signature ∷ []
related_kinds operator_packet = operator_packet_signature ∷ []
related_kinds phase1_promotion_decision = phase1_promotion_decision_signature ∷ []
related_kinds provider_readiness = provider_readiness_signature ∷ []
related_kinds provider_registry = provider_registry_signature ∷ []
related_kinds release_evaluator_decision = release_evaluator_decision_signature ∷ []
related_kinds _ = []

unfoldable pub bundle_kind_from_subdir : String → Option BundleKind
unfolding subdir string_eq
bundle_kind_from_subdir dir = find? (λ kind. subdir kind == dir) all_bundle_kinds
