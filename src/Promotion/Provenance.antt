-- ===== src/Promotion/Provenance.antt =====
-- What a signed promotion decision that was accepted had to show.
use ao2_control_plane.Base.{
  ◌≡◌, sym, continue-ok, ok_injective, answer_of_three, ap, ◌∙◌, String, true, Option, none, some,
  ok, length, then_do-ok, require-ok, string_eq, arith,
}
use ao2_control_plane.Base.Text.{string_eq_iff, codes_eq}
use mathlib.Core.Path.{subst}
use ao2_control_plane.Disk.{Bytes}
use ao2_control_plane.Bundle
use ao2_control_plane.Bundle.Kind.{
  phase1_promotion_checklist, phase1_promotion_decision, phase1_promotion_decision_signature,
}
use ao2_control_plane.Index.State.{Storage}
use ao2_control_plane.Json.{Value}
use ao2_control_plane.Schema.Responses.{IngestReceipt, new}
use ao2_control_plane.Server.AppError.{AppError}
use ao2_control_plane.Server.Signing.{annotate_trust_policy}
use ao2_control_plane.Ingest.{Outside, AppState, Clock, store_absent, index_entry, digest_of}
use ao2_control_plane.Ingest.Signed.{record_sidecar, or_panic}
use ao2_control_plane.Ingest.Provenance.{IsSignedBy, verify-IsSignedBy, map_err-ok}
use ao2_control_plane.Ingest.Dashboard.Source.{json_str}
use ao2_control_plane.Promotion.{not_blank}
use ao2_control_plane.Promotion.Smoke.{some_or}
use ao2_control_plane.Promotion.Validate.{
  decision_schema, validate_phase1_promotion_decision, required_json_str,
}
use ao2_control_plane.Promotion.Handlers.{
  VerifiedDecision, verify_signed_phase1_promotion_decision, verified_decision, require_checklist,
  sidecar_of, accept_decision, post_signed_phase1_promotion_decision,
}

filled_text :
    (e : AppError) (m : Option String) (s : String) → some_or e (not_blank m) ≡ ok s → m ≡ some s
unfolding not_blank
filled_text e none s h = ground arith
filled_text e (some t) s h = ground arith

required-ok :
    (v : Value) (field s : String) → required_json_str v field ≡ ok s → json_str v field ≡ some s
unfolding required_json_str
required-ok v field s h = filled_text _ (json_str v field) s h

valid-promotes :
    (decision : Value)
    → validate_phase1_promotion_decision decision ≡ ok tt
    → json_str decision "decision" ≡ some "promote_phase1_candidate"
unfolding validate_phase1_promotion_decision
valid-promotes decision h =
    let (u₁, e₁, h₁) = then_do-ok _ _ tt h in
    let (u₂, e₂, h₂) = then_do-ok _ _ tt h₁ in
    let (verdict, e₃, h₃) = then_do-ok _ _ tt h₂ in
    let (u₄, e₄, h₄) = then_do-ok _ _ tt h₃ in
    required-ok decision "decision" verdict e₃
    ∙ ap some ((string_eq_iff verdict "promote_phase1_candidate").0 (require-ok _ _ e₄))

module _ (o : Outside) where
  -- The decision is what its signed text says, and it passes the checks of a promotion.
  pub record IsProven (p : VerifiedDecision) : Type 0 where
    pub signed_by : IsSignedBy o p.raw p.claimed
    pub reads : o.from_slice p.raw ≡ ok p.decision
    pub valid : validate_phase1_promotion_decision p.decision ≡ ok tt
    pub promotes : json_str p.decision "decision" ≡ some "promote_phase1_candidate"
    pub names_checklist : json_str p.decision "checklist_sha256" ≡ some p.checklist_sha

  verify_decision-IsSignedBy :
      (raw : Bytes) (claimed : Value)
      → verify_signed_phase1_promotion_decision o raw claimed ≡ ok tt
      → IsSignedBy o raw claimed
  unfolding verify_signed_phase1_promotion_decision
  verify_decision-IsSignedBy raw claimed h =
      let (u, e, h₁) = then_do-ok _ _ tt h in
      verify-IsSignedBy o "Phase 1 promotion decision" raw claimed h₁

  verified_decision-IsProven :
      (state : AppState) (body : Bytes) (p : VerifiedDecision)
      → verified_decision o state body ≡ ok p
      → IsProven p
  unfolding verified_decision
  verified_decision-IsProven state body p h =
      let (u₁, e₁, h₁) = then_do-ok _ _ p h in
      let (upload, e₂, h₂) = then_do-ok _ _ p h₁ in
      let (u₃, e₃, h₃) = then_do-ok _ _ p h₂ in
      let (raw, e₄, h₄) = then_do-ok _ _ p h₃ in
      let (u₅, e₅, h₅) = then_do-ok _ _ p h₄ in
      let (u₆, e₆, h₆) = then_do-ok _ _ p h₅ in
      let (decision, e₇, h₇) = then_do-ok _ _ p h₆ in
      let (u₈, e₈, h₈) = then_do-ok _ _ p h₇ in
      let (sha, e₉, h₉) = then_do-ok _ _ p h₈ in
      let proven : IsProven (record {
        raw = raw;
        decision = decision;
        checklist_sha = sha;
        claimed = upload.signature;
      }) =
        record {
          signed_by = verify_decision-IsSignedBy raw upload.signature e₆;
          reads = map_err-ok _ (o.from_slice raw) decision e₇;
          valid = e₈;
          promotes = valid-promotes decision e₈;
          names_checklist = required-ok decision "checklist_sha256" sha e₉;
        } in
      subst IsProven (ok_injective _ p h₉) proven

  require_checklist-ok :
      (sha : String) (s : Storage)
      → (require_checklist o sha s).0 ≡ ok tt
      → (Bundle.exists phase1_promotion_checklist sha s.host).0 ≡ true
  unfolding require_checklist
  require_checklist-ok sha s h = require-ok _ _ h

  accept_decision-ok :
      (clock : Clock) (p : VerifiedDecision) (signature : Value) (s : Storage)
      (receipt : IngestReceipt)
      → (accept_decision o clock p signature s).0 ≡ ok receipt
      → receipt ≡ new clock.stored (digest_of o p.decision) decision_schema
  unfolding accept_decision
  accept_decision-ok clock p signature s receipt h =
      let sha = digest_of o p.decision in
      sym (
        answer_of_three (store_absent o phase1_promotion_decision sha p.raw)
          (record_sidecar o phase1_promotion_decision_signature "phase1 promotion decision" sha
            (o.print_decision_sidecar (sidecar_of o sha signature)))
          (index_entry o (record {
            ingested_at = clock.ingested;
            schema = decision_schema;
            provider = none;
            sha256 = sha;
            status = some "signed";
            size_bytes = length p.raw;
          }))
          _ receipt s h)

  -- A signed promotion decision that is answered by a receipt reads as the JSON of its signed bytes, which
  -- carry a signature of a key of at least 2048 bits, both named by the claimed signature object;
  -- it passes the checks of a promotion, and the checklist that it names is in the bundle store; the
  -- receipt has the digest of its canonical form.
  pub post_signed_decision-IsProven :
      (state : AppState) (clock : Clock) (body : Bytes) (s : Storage) (receipt : IngestReceipt)
      → (post_signed_phase1_promotion_decision o state clock body s).0 ≡ ok receipt
      → (p : VerifiedDecision) × (verified_decision o state body ≡ ok p)
        × IsProven p
        × ((Bundle.exists phase1_promotion_checklist p.checklist_sha s.host).0 ≡ true)
        × (receipt ≡ new clock.stored (digest_of o p.decision) decision_schema)
  unfolding post_signed_phase1_promotion_decision
  post_signed_decision-IsProven state clock body s receipt h =
      let (p, e, h₁) = continue-ok (verified_decision o state body) _ s receipt h in
      let (u, known, h₂) =
        continue-ok (require_checklist o p.checklist_sha s).0 _
          (require_checklist o p.checklist_sha s).1 receipt h₁ in
      let (signature, annotated, h₃) =
        continue-ok
          (or_panic o (
            annotate_trust_policy o.crypto o.encoding p.claimed
              state.signed_artifact_trusted_key_sha256s))
          _ _ receipt h₂ in
      (
        p,
        e,
        verified_decision-IsProven state body p e,
        require_checklist-ok p.checklist_sha s known,
        accept_decision-ok clock p signature _ receipt h₃,
      )
