-- ===== src/Tests/Requests.antt =====
-- Requests that are recorded, let through and answered.
use ao2_control_plane.Base.{
  ℕ, ◌≡◌, refl, true, false, List, [], ◌∷◌, map, none, some, ok, err, ◌⊎◌, arith, ◌%◌, ◌^◌, ◌-◌,
}
use ao2_control_plane.Base.Text.{codes}
use ao2_control_plane.AuditLog.{
  AuditEntry, AuditLog, Answers, flushed, failed, open_persistence, with_persistence, append, run,
}
use ao2_control_plane.AuditLog.Ring.{last_of, entry_of, snapshot-run}
use ao2_control_plane.AuditLog.Counters.{counters-run}
use ao2_control_plane.AuditLog.Rotation.{
  on_disk, failed_rotation_is_final, IsBelow, run-IsBelow, Carries, no_line_is_lost,
}
use ao2_control_plane.Server.AppError.{AppError}
use ao2_control_plane.Server.Auth.{Request, require_token, Shows, require_token_lem}
use ao2_control_plane.Server.Caching.{validate_sha}
use ao2_control_plane.Tests.{sha_a}

abbrev request_at : ℕ → AuditEntry
request_at at = record {
  timestamp_unix_micros = at;
  method = "GET";
  path = "/api/v1/status";
  status = 200;
  duration_micros = 10;
  auth_attempted = true;
  authenticated = true;
}

abbrev all_well : Answers
all_well = record {
  line = some 9;
  written = flushed;
  removed = true;
  renamed = true;
  reopened = true;
  clock = 1;
}

-- The buffer takes the line, and nothing of it reaches the file.
abbrev disk_full : Answers
disk_full = record all_well { written = failed true 0 }

abbrev no_rename : Answers
no_rename = record all_well { renamed = false }

abbrev three_steps : List (Answers × AuditEntry)
three_steps = (all_well, request_at 1) ∷ (disk_full, request_at 2) ∷ (all_well, request_at 3) ∷ []

abbrev small_log : AuditLog
small_log = record {
  capacity = 2;
  entries = [];
  persistence = some (open_persistence [] 0 (some 10));
  total_appended = 0;
  total_dropped = 0;
  total_persistence_errors = 0;
  sent = [];
}

snapshot-run_example :
    (run three_steps (with_persistence 2 [] 0 (some 25))).entries
    ≡ last_of 2 (map entry_of three_steps)
snapshot-run_example = snapshot-run 2 0 [] (some 25) three_steps

counters-run_example :
    let log = run three_steps (with_persistence 2 [] 0 none) in
    (log.total_appended ≡ 3 % 2 ^ 64)
    × (log.total_dropped ≡ (3 - 2) % 2 ^ 64)
    × (log.sent ≡ map entry_of three_steps)
counters-run_example = counters-run 2 0 [] none three_steps (omega arith)

failed_rotation_is_final_example :
    on_disk (run three_steps (append no_rename (request_at 0) small_log))
    ≡ on_disk (append no_rename (request_at 0) small_log)
failed_rotation_is_final_example =
    failed_rotation_is_final no_rename (request_at 0) 9 (open_persistence [] 0 (some 10)) small_log
      three_steps refl (refl, refl, refl, refl, 10, refl, refl)

run-IsBelow_example : IsBelow 15 (run three_steps (with_persistence 2 [] 0 (some 15)))
run-IsBelow_example = run-IsBelow 2 0 15 [] three_steps (omega arith) (omega arith)

no_line_is_lost_example :
    Carries
      (request_at 0 ∷ map entry_of three_steps)
      (run three_steps (with_persistence 2 (request_at 0 ∷ []) 10 none))
no_line_is_lost_example =
    no_line_is_lost 2 10 (request_at 0 ∷ []) three_steps (refl, (refl, (refl, tt)))

abbrev stream_request : Request
stream_request = record {
  authorization = none;
  path = codes "/audit-log/stream";
  token = some (codes "secret");
}

abbrev same : List ℕ → List ℕ
same t = t

require_token_lem_example :
    ((require_token same (codes "secret") (λ r. true) stream_request ≡ ok true)
      × Shows (codes "secret") stream_request)
    ⊎ ((require_token same (codes "secret") (λ r. true) stream_request ≡ err AppError.unauthorized)
        × ¬ Shows (codes "secret") stream_request)
require_token_lem_example =
    require_token_lem same (codes "secret") (λ r. true) stream_request (λ t e. e)

digest_accepted : validate_sha (codes sha_a) ≡ ok tt
unfolding validate_sha native.Mathlib.Decide.ℕ_discrete
digest_accepted = refl
