-- ===== src/Support/Requirements.antt =====
-- The tables of crates/ao2-cp-storage/src/lib.rs of what a release decision needs.
use ao2_control_plane.Base.{String, List, [], ◌∷◌}

-- A row of the table of artifacts, and of the table of sidecars.
pub record Requirement : Type 0 where
  pub id : String
  pub evidence_needed : String
  pub next_action : String

abbrev pub required_artifacts : List Requirement
required_artifacts =
    record {
      id = "provider_readiness";
      evidence_needed = "latest provider readiness evidence";
      next_action =
          "publish provider readiness evidence through the governed AO2 evaluator-closer workflow";
    }
    ∷ record {
      id = "codex_live_acceptance";
      evidence_needed = "live Codex provider acceptance artifact";
      next_action = "publish live Codex acceptance evidence from AO2 signed execution";
    }
    ∷ record {
      id = "claude_live_acceptance";
      evidence_needed = "live Claude provider acceptance artifact";
      next_action = "publish live Claude acceptance evidence from AO2 signed execution";
    }
    ∷ record {
      id = "phase1_promotion_checklist";
      evidence_needed = "Factory v3 Phase 1 promotion checklist artifact";
      next_action = "publish the evaluator/closer Phase 1 promotion checklist";
    }
    ∷ record {
      id = "signed_phase1_promotion_decision";
      evidence_needed = "signed Phase 1 promotion decision";
      next_action = "publish the signed release-line decision after evaluator/closer review";
    }
    ∷ record {
      id = "three_os_release_smoke";
      evidence_needed = "latest clean macOS, Ubuntu, and Windows release-smoke summary";
      next_action = "publish the ao2-control-plane three-OS release-smoke summary";
    }
    ∷ record {
      id = "release_publication";
      evidence_needed =
          "AO2 published release evidence with provenance, rollback, and release doctor status";
      next_action =
          "publish the AO2 release-publication summary from the governed release workflow";
    }
    ∷ record {
      id = "release_evaluator_decision";
      evidence_needed = "Factory v3 release evaluator-closer decision artifact";
      next_action =
          "publish the Factory v3 release evaluator-closer decision after governed readiness comparison";
    }
    ∷ []

abbrev pub required_sidecars : List Requirement
required_sidecars =
    record {
      id = "signed_phase1_promotion_decision";
      evidence_needed = "verified signature sidecar for the signed Phase 1 promotion decision";
      next_action =
          "publish the signature sidecar for the signed Phase 1 promotion decision from the governed evaluator/closer workflow";
    }
    ∷ record {
      id = "release_evaluator_decision";
      evidence_needed =
          "verified signature sidecar for the Factory v3 release evaluator-closer decision";
      next_action =
          "publish the signature sidecar for the Factory v3 release evaluator-closer decision from the governed evaluator/closer workflow";
    }
    ∷ []
