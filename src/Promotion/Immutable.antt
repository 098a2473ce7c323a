-- ===== src/Promotion/Immutable.antt =====
-- The posts of the promotion change no bundle that is there.
use ao2_control_plane.Base.{
  ◌≡◌, sym, Bool, [], String, none, some, Result, ok, ◌>>◌, map_err, length,
}
use mathlib.Core.Path.{subst}
use ao2_control_plane.Disk.{Bytes, Host}
use ao2_control_plane.Bundle.Kind.{
  BundleKind, phase1_promotion_checklist, phase1_promotion_decision,
  phase1_promotion_decision_signature,
}
use ao2_control_plane.Index.State.{IndexEntry, Storage}
use ao2_control_plane.Json.{Value}
use ao2_control_plane.Schema.Responses.{new}
use ao2_control_plane.Server.AppError.{AppError}
use ao2_control_plane.Server.Signing.{annotate_trust_policy}
use ao2_control_plane.Ingest.{
  Outside, AppState, Clock, admitted, digest_of, store_absent, index_entry,
}
use ao2_control_plane.Ingest.Signed.{record_sidecar, or_panic}
use ao2_control_plane.Ingest.Keeps.{
  Keeps, Grows, Grows-refl, exists_calm, then-Keeps, lift-Keeps, index_entry-Keeps,
  store_absent-Keeps,
}
use ao2_control_plane.Ingest.Immutable.{
  unless_err-Keeps, stored_and_indexed-Keeps, record_sidecar-Keeps,
}
use ao2_control_plane.Ingest.Values.{post_value}
use ao2_control_plane.Promotion.Validate.{decision_schema}
use ao2_control_plane.Promotion.Handlers.{
  VerifiedDecision, verified_decision, require_checklist, sidecar_of, accept_decision,
  post_phase1_promotion_checklist, post_phase1_promotion_inputs_verification,
  post_signed_phase1_promotion_decision,
}
use ao2_control_plane.Readiness.Handlers.{post_provider_readiness}

module _ (o : Outside) (state : AppState) (clock : Clock) (body : Bytes) where
  post_value-Keeps :
      (kind : BundleKind) (schema : String) (validate : Value → Result AppError (Unit {0}))
      → Keeps (post_value o kind schema validate state clock body)
  unfolding post_value
  post_value-Keeps kind schema validate = unless_err-Keeps (admitted o state body) _ (λ a.
      unless_err-Keeps (map_err AppError.bad_request (o.from_slice body)) _ (λ value.
        unless_err-Keeps (validate value) _
          (λ b. stored_and_indexed-Keeps o kind (digest_of o value) body _ _)))

  accept_decision-Keeps :
      (p : VerifiedDecision) (signature : Value) → Keeps (accept_decision o clock p signature)
  unfolding accept_decision
  accept_decision-Keeps p signature =
      let sha = digest_of o p.decision in
      let recorded =
        record_sidecar o phase1_promotion_decision_signature "phase1 promotion decision" sha
          (o.print_decision_sidecar (sidecar_of o sha signature)) in
      let entry : IndexEntry = record {
        ingested_at = clock.ingested;
        schema = decision_schema;
        provider = none;
        sha256 = sha;
        status = some "signed";
        size_bytes = length p.raw;
      } in
      let answer = new clock.stored sha decision_schema in
      then-Keeps (store_absent o phase1_promotion_decision sha p.raw)
        (recorded >> (index_entry o entry >> λ s. (ok answer, s)))
        (store_absent-Keeps o phase1_promotion_decision sha p.raw)
        (then-Keeps recorded (index_entry o entry >> λ s. (ok answer, s))
          (record_sidecar-Keeps o phase1_promotion_decision_signature "phase1 promotion decision"
            sha _)
          (then-Keeps (index_entry o entry) (λ s. (ok answer, s)) (index_entry-Keeps o entry)
            (lift-Keeps {E = AppError} (ok answer))))

  require_checklist-Keeps : (sha : String) → Keeps (require_checklist o sha)
  unfolding require_checklist
  require_checklist-Keeps sha s calm =
      subst (λ (x : Bool × Host). Grows s (record s { host = x.1 }))
        (sym (exists_calm phase1_promotion_checklist sha s.host calm)) (Grows-refl s calm)

  post_signed-Keeps : Keeps (post_signed_phase1_promotion_decision o state clock body)
  unfolding post_signed_phase1_promotion_decision
  post_signed-Keeps = unless_err-Keeps (verified_decision o state body) _ (λ p.
      then-Keeps (require_checklist o p.checklist_sha) _ (require_checklist-Keeps p.checklist_sha) (
        unless_err-Keeps
          (or_panic o (
            annotate_trust_policy o.crypto o.encoding p.claimed
              state.signed_artifact_trusted_key_sha256s))
          _ (λ signature. accept_decision-Keeps p signature)))

  -- A bundle or sidecar that is there before a checklist, an inputs verification, a signed decision or an
  -- unsigned readiness artifact is taken in is there unchanged after it, whatever the body is and
  -- whatever the handler answers, as long as the file system answers every call.
  pub promotion-Grows :
      (s : Storage)
      → s.host.faults ≡ []
      → Grows s (post_phase1_promotion_checklist o state clock body s).1
        × Grows s (post_phase1_promotion_inputs_verification o state clock body s).1
        × Grows s (post_signed_phase1_promotion_decision o state clock body s).1
        × Grows s (post_provider_readiness o state clock body s).1
  unfolding post_phase1_promotion_checklist post_phase1_promotion_inputs_verification
      post_provider_readiness
  promotion-Grows s calm = (
    post_value-Keeps _ _ _ s calm,
    post_value-Keeps _ _ _ s calm,
    post_signed-Keeps s calm,
    post_value-Keeps _ _ _ s calm,
  )
