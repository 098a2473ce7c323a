-- ===== src/Promotion/Audit/Refusal.antt =====
-- What the refusal of a smoke report leaves alone, and what it logs.
use ao2_control_plane.Base.{
  ◌≡◌, ◌≢◌, refl, ap, ◌∙◌, inl, inr, Bool, true, false, [], ◌∷◌, ◌++◌, Option, none, some, Result,
  ok, err, if◌then◌else◌, Option-cases, map_err, ◌>>=◌, ◌>>◌, lift, arith,
}
use ao2_control_plane.Disk.{
  Bytes, Host, FilePath, IoError, path_eq, lookup, metadata, open_append, create, read_file,
}
use ao2_control_plane.Disk.Laws.{lookup-insert, create-lookup, write_all-lookup_ne}
use ao2_control_plane.Index.State.{Storage}
use ao2_control_plane.Json.{Value}
use ao2_control_plane.Server.AppError.{AppError, to_string}
use ao2_control_plane.Ingest.{Outside, AppState, Clock, Method, admitted}
use ao2_control_plane.Promotion.Smoke.{validate_three_os_release_smoke}
use ao2_control_plane.Promotion.Audit.{
  Rejection, audit_path, audited, write_opened, append_line, append_printed, rejection_of,
  append_rejected_smoke_audit, post_phase1_three_os_smoke,
}
use ao2_control_plane.Promotion.Audit.Forensic.{content_of, logged, Logged, append_line-Logged}

-- Every other file is as it was.
abbrev pub Elsewhere : Host → Host → Type 0
Elsewhere g h = (q : FilePath) → audit_path ≢ q → lookup q h.files ≡ lookup q g.files

module _ (g : Host) where
  step_metadata : Elsewhere g (metadata audit_path g).1
  unfolding metadata
  step_metadata q ne = elim (Option-cases (logged g)) [
    | inl missing ↦ ground (arith)
    | inr (f, there) ↦ ground (arith)
  ]

  step_opened : (h : Host) → Elsewhere g h → Elsewhere g (open_append audit_path h).1
  unfolding open_append
  step_opened h e q ne = elim (Option-cases (logged h)) [
    | inl missing ↦ ground (
      arith,
      e q ne,
      lookup-insert audit_path q (record { content = []; modified = h.now }) h.files,
    )
    | inr (f, there) ↦ ground (arith, e q ne)
  ]

  step_created : (h : Host) → Elsewhere g h → Elsewhere g (create audit_path h).1
  step_created h e q ne = ground (arith, e q ne, create-lookup audit_path h q)

  step_read : (h : Host) → Elsewhere g h → Elsewhere g (read_file audit_path h).1
  unfolding read_file
  step_read h e q ne = elim (Option-cases (logged h)) [
    | inl missing ↦ ground (arith, e q ne)
    | inr (f, there) ↦ ground (arith, e q ne)
  ]

  step_written :
      (bytes : Bytes) (r : Result IoError (Unit {0}) × Host)
      → Elsewhere g r.1
      → Elsewhere g (write_opened bytes r)
  step_written bytes (ok u, h) e q ne = write_all-lookup_ne audit_path bytes h q ne ∙ e q ne
  step_written bytes (err x, h) e q ne = e q ne

  step_branch :
      (b : Bool) (h₁ h₂ : Host)
      → Elsewhere g h₁
      → Elsewhere g h₂
      → Elsewhere g (if b then h₁ else h₂)
  step_branch true h₁ h₂ e₁ e₂ q ne = e₁ q ne
  step_branch false h₁ h₂ e₁ e₂ q ne = e₂ q ne

append_line-Elsewhere :
    (is_utf8 : Bytes → Bool) (line : Bytes) (h : Host) → Elsewhere h (append_line is_utf8 line h)
unfolding append_line
append_line-Elsewhere is_utf8 line h =
    let h₁ = (metadata audit_path h).1 in
    let e₁ = step_metadata h in
    let h₂ = (read_file audit_path h₁).1 in
    step_branch h _ _ _ (step_written h line (open_append audit_path h₁) (step_opened h h₁ e₁))
      (step_written h _ (create audit_path h₂) (step_created h h₂ (step_read h h₁ e₁)))

module _ (o : Outside) (print : Rejection → Option Bytes) where
  -- What the log holds after a record that could be printed.
  abbrev pub LogsRecord : Option Bytes → Host → Host → Type 0
  LogsRecord none g h = h ≡ g
  LogsRecord (some text) g h =
      (Elsewhere g h)
      × (g.faults ≡ [] → Logged o.is_utf8 (content_of (logged g)) (text ++ b'\n' ∷ []) h)

  append_printed-LogsRecord :
      (m : Option Bytes) (h : Host) → LogsRecord m h (append_printed o print m h)
  append_printed-LogsRecord none h = refl
  append_printed-LogsRecord (some text) h =
      (append_line-Elsewhere o.is_utf8 _ h, append_line-Logged o.is_utf8 _ h)

  -- The chain of the handler, over what its first steps give.
  refused_chain :
      {A : Type 0} (clock : Clock) (body : Bytes) (fine : Result AppError (Unit {0}))
      (read : Result AppError Value) (check : Value → Result AppError (Unit {0}))
      (accept : Value → Method A) (smoke : Value) (e : AppError) (s : Storage)
      → fine ≡ ok tt
      → read ≡ ok smoke
      → check smoke ≡ err e
      → (do lift fine; v ← lift read; audited o print clock body (check v); accept v) s ≡ (
        err e,
        record s {
          host = append_rejected_smoke_audit o print clock.ingested body (to_string e) s.host;
        },
      )
  refused_chain clock body fine read check accept smoke e s p q r = rw (p, q, r) refl

  refused_smoke-answer :
      (state : AppState) (clock : Clock) (body : Bytes) (smoke : Value) (e : AppError) (s : Storage)
      → admitted o state body ≡ ok tt
      → o.from_slice body ≡ ok smoke
      → validate_three_os_release_smoke o.debug smoke ≡ err e
      → post_phase1_three_os_smoke o print state clock body s ≡ (
        err e,
        record s {
          host = append_rejected_smoke_audit o print clock.ingested body (to_string e) s.host;
        },
      )
  unfolding post_phase1_three_os_smoke
  refused_smoke-answer state clock body smoke e s fine reads refused =
      refused_chain clock body _ _ (validate_three_os_release_smoke o.debug) _ smoke e s fine
        (ap (map_err AppError.bad_request) reads) refused

  -- A report that is JSON and fails its validation is answered by the error of the validation, whatever
  -- fails in the file system. The refusal touches no file but the log, and leaves the index as it is. While
  -- the file system answers, the log is the old one and the new record, or, when that would pass its
  -- cap of 1 MiB, what a rotation leaves: the new record after the latest old lines that there is
  -- room for.
  pub refused_smoke-LogsRecord :
      (state : AppState) (clock : Clock) (body : Bytes) (smoke : Value) (e : AppError) (s : Storage)
      → admitted o state body ≡ ok tt
      → o.from_slice body ≡ ok smoke
      → validate_three_os_release_smoke o.debug smoke ≡ err e
      → (h : Host) × (post_phase1_three_os_smoke o print state clock body s
          ≡ (err e, record s { host = h }))
        × LogsRecord (print (rejection_of o print clock.ingested body (to_string e))) s.host h
  unfolding append_rejected_smoke_audit
  refused_smoke-LogsRecord state clock body smoke e s fine reads refused = (
    append_rejected_smoke_audit o print clock.ingested body (to_string e) s.host,
    refused_smoke-answer state clock body smoke e s fine reads refused,
    append_printed-LogsRecord _ s.host,
  )
