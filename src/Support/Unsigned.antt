-- ===== src/Support/Unsigned.antt =====
-- Reading the sidecars changes nothing else of the observed artifacts.
use ao2_control_plane.Base.{
  ◌<>◌, ◌≡◌, refl, ◌∙◌, String, [], ◌∷◌, Option, none, some, Result, ok, err, continue, arith,
  string_eq, bool_eq, option_eq,
}
use ao2_control_plane.Disk.{Host, Bytes}
use ao2_control_plane.Bundle.Kind.{
  BundleKind, provider_readiness_signature, phase1_promotion_decision_signature,
  release_evaluator_decision_signature,
}
use ao2_control_plane.Retention.{StorageError}
use ao2_control_plane.Json.{Value}
use ao2_control_plane.Support.State.{
  SupportBundleSignatureSummary, SupportBundleArtifactSummary, Observed,
}
use ao2_control_plane.Support.Artifacts.{observed}
use ao2_control_plane.Support.Sidecars.{
  set_signature, support_bundle_signature_summary, attach_to, attach_signature, attach_signatures,
}

-- An artifact without its sidecar.
abbrev pub unsigned : Option SupportBundleArtifactSummary → Option SupportBundleArtifactSummary
unsigned none = none
unsigned (some a) = some (record a { signature = none })

abbrev pub SameUnsigned : Observed → Observed → Type 0
SameUnsigned before after =
    (k : String) → unsigned (observed k after) ≡ unsigned (observed k before)

set_signature-SameUnsigned :
    (id : String) (signature : Option SupportBundleSignatureSummary) (artifacts : Observed)
    → SameUnsigned artifacts (set_signature id signature artifacts)
unfolding set_signature observed
set_signature-SameUnsigned id signature [] k = refl
set_signature-SameUnsigned id signature ((j, none) ∷ rest) k =
    ground (arith, set_signature-SameUnsigned id signature rest k)
set_signature-SameUnsigned id signature ((j, some a) ∷ rest) k =
    ground (arith, set_signature-SameUnsigned id signature rest k)

abbrev pub Keeps : Observed → Result StorageError Observed → Type 0
Keeps before (ok after) = SameUnsigned before after
Keeps before (err e) = Unit

Keeps-trans :
    (before middle : Observed) (r : Result StorageError Observed)
    → SameUnsigned before middle
    → Keeps middle r
    → Keeps before r
Keeps-trans before middle (ok after) kept more = λ k. more k ∙ kept k
Keeps-trans before middle (err e) kept more = tt

-- A step that keeps the artifacts, after one that does.
Keeps-continue :
    (before : Observed) (r : Result StorageError Observed) (h : Host)
    (f : Observed → Host → Result StorageError Observed × Host)
    → ((o : Observed) (g : Host) → Keeps o (f o g).0)
    → Keeps before r
    → Keeps before (continue r f h).0
Keeps-continue before (err e) h f each kept = tt
Keeps-continue before (ok middle) h f each kept =
    Keeps-trans before middle (f middle h).0 kept (each middle h)

after_summary :
    (id : String) (artifacts : Observed)
    (r : Result StorageError (Option SupportBundleSignatureSummary)) (h : Host)
    → Keeps artifacts
        (continue r (λ signature g. (ok (set_signature id signature artifacts), g)) h).0
after_summary id artifacts (ok signature) h = set_signature-SameUnsigned id signature artifacts
after_summary id artifacts (err e) h = tt

module _ (parse_json : Bytes → Option Value) where
  attach_to-Keeps :
      (id : String) (kind : BundleKind) (raw_url : String → String) (artifacts : Observed)
      (o : Option SupportBundleArtifactSummary) (h : Host)
      → Keeps artifacts (attach_to parse_json id kind raw_url artifacts o h).0
  attach_to-Keeps id kind raw_url artifacts none h = λ k. refl
  attach_to-Keeps id kind raw_url artifacts (some a) h =
      let (r, g) = support_bundle_signature_summary parse_json kind a.sha256 (raw_url a.sha256) h in
      after_summary id artifacts r g

  attach_signature-Keeps :
      (id : String) (kind : BundleKind) (raw_url : String → String) (artifacts : Observed)
      (h : Host)
      → Keeps artifacts (attach_signature parse_json id kind raw_url artifacts h).0
  unfolding attach_signature
  attach_signature-Keeps id kind raw_url artifacts h =
      attach_to-Keeps id kind raw_url artifacts (observed id artifacts) h

  pub attach_signatures-Keeps :
      (artifacts : Observed) (h : Host)
      → Keeps artifacts (attach_signatures parse_json artifacts h).0
  unfolding attach_signatures
  attach_signatures-Keeps artifacts h =
      let (one, g) =
        attach_signature parse_json "provider_readiness" provider_readiness_signature
          (λ sha. "/api/v1/provider/readiness/" <> sha <> "/signature") artifacts h in
      Keeps-continue artifacts one g _
        (λ o g'.
          let (two, g'') =
            attach_signature parse_json "signed_phase1_promotion_decision"
              phase1_promotion_decision_signature
              (λ sha. "/api/v1/phase1/promotion/decision/" <> sha <> "/signature") o g' in
          Keeps-continue o two g'' _
            (λ o' h'.
              attach_signature-Keeps "release_evaluator_decision"
                release_evaluator_decision_signature _ o' h')
            (attach_signature-Keeps "signed_phase1_promotion_decision"
              phase1_promotion_decision_signature _ o g'))
        (attach_signature-Keeps "provider_readiness" provider_readiness_signature _ artifacts h)
