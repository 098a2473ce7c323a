-- ===== src/Promotion/Audit.antt =====
-- The log of the smoke reports that handlers/phase1_promotion.rs refuses, and the handlers of the reports.
pub mod Rotate
pub mod Forensic
pub mod Refusal
use ao2_control_plane.Base.{
  ℕ, max, ◌+◌, ◌*◌, ◌/◌, String, Bool, true, false, not, ◌&&◌, ◌||◌, List, [], ◌∷◌, ◌++◌, Option,
  none, some, Result, ok, err, ◌>>=◌, ◌>>◌, lift, map_err, leb, ltb, string_eq, ◌==◌, if◌then◌else◌,
  length, take, filter,
}
use mathlib.Core.List.{reverse}
use ao2_control_plane.Base.Text.{codes}
use ao2_control_plane.Disk.{
  Bytes, Host, FilePath, rejected_smoke_jsonl, IoError, metadata, open_append, write_all, create,
  read_file,
}
use ao2_control_plane.Bundle.Kind.{three_os_release_smoke}
use ao2_control_plane.Index.State.{Storage, is_blank}
use ao2_control_plane.Index.Load.{lines_from}
use ao2_control_plane.Json.{Value, Members, get, find_member, as_str, as_bool, as_object}
use ao2_control_plane.Schema.Responses.{IngestReceipt}
use ao2_control_plane.Server.AppError.{AppError, to_string}
use ao2_control_plane.Server.Caching.{Cached}
use ao2_control_plane.Server.Signing.{sha256_hex}
use ao2_control_plane.Ingest.{Outside, AppState, Clock, Method, digest_of, admitted, head_stored}
use ao2_control_plane.Ingest.Values.{accept_value, get_value, latest_value}
use ao2_control_plane.Ingest.Dashboard.Source.{and_then, json_str}
use ao2_control_plane.Promotion.Smoke.{three_os_schema, validate_three_os_release_smoke}

abbrev pub max_bytes : ℕ
max_bytes = 1024 * 1024

abbrev pub rotate_target_bytes : ℕ
rotate_target_bytes = max_bytes * 3 / 4

abbrev pub audit_path : FilePath
audit_path = record { dir = ""; name = rejected_smoke_jsonl }

-- The fields of a refused report that are kept. The commit is cut to 12 characters, of which the ASCII
-- letters and digits are kept.
pub record Redacted : Type 0 where
  pub schema : Option String
  pub status : Option String
  pub version : Option String
  pub release_candidate_version : Option String
  pub source_commit_short : Option (List ℕ)
  pub source_dirty : Option Bool
  pub candidate_correlation_parity : Option String
  pub surface_content_hash_parity : Option String
  pub target_statuses : List (String × String)

abbrev is_ascii_alphanumeric : ℕ → Bool
is_ascii_alphanumeric c =
    leb b'0' c && leb c b'9' || leb b'a' c && leb c b'z' || leb b'A' c && leb c b'Z'

abbrev shortened : Option String → Option (List ℕ)
shortened none = none
shortened (some sha) = some (filter is_ascii_alphanumeric (take 12 (codes sha)))

abbrev status_under : Value → String → List (String × String)
status_under parsed target =
    elim (and_then (and_then (get "targets" parsed) (get target)) (λ v. json_str v "status")) [
      | some status ↦ (target, status) ∷ []
      | none ↦ []
    ]

abbrev redacted_of : Value → Redacted
redacted_of parsed = record {
  schema = json_str parsed "schema";
  status = json_str parsed "status";
  version = json_str parsed "version";
  release_candidate_version = json_str parsed "release_candidate_version";
  source_commit_short = shortened (json_str parsed "source_commit");
  source_dirty = and_then (get "source_dirty" parsed) as_bool;
  candidate_correlation_parity = json_str parsed "candidate_correlation_parity";
  surface_content_hash_parity = json_str parsed "surface_content_hash_parity";
  target_statuses =
      status_under parsed "macos"
      ++ (status_under parsed "ubuntu" ++ status_under parsed "windows");
}

-- `none` says that the body is no JSON.
unfoldable pub redacted_smoke_summary : Result String Value → Option Redacted
unfolding get json_str as_bool
redacted_smoke_summary (err e) = none
redacted_smoke_summary (ok parsed) = some (redacted_of parsed)

-- One record of the log.
pub record Rejection : Type 0 where
  pub timestamp_utc : ℕ
  pub rejection_reason : String
  pub body_sha256 : String
  pub body_size_bytes : ℕ
  pub posted_summary : Option Redacted

-- The old lines that are kept, from the newest on. No sum here comes near `usize::MAX`, where the
-- additions would saturate.
unfoldable pub kept_lines : ℕ → ℕ → List Bytes → List Bytes
kept_lines target kept_bytes [] = []
kept_lines target kept_bytes (line ∷ older) =
    let with_newline = length line + 1 in
    let rest = kept_lines target (kept_bytes + with_newline) older in
    if ltb target (kept_bytes + with_newline) then [] else line ∷ rest

abbrev pub joined : List Bytes → Bytes
joined [] = []
joined (line ∷ lines) = line ++ b'\n' ∷ joined lines

abbrev pub old_lines : Bytes → List Bytes
old_lines existing = filter (λ line. not (is_blank line)) (lines_from [] existing)

-- The new content of a file that would grow too long.
unfoldable pub rotated : Bytes → Bytes → Bytes
unfolding kept_lines lines_from is_blank
rotated existing line =
    joined (
      reverse (
        kept_lines (max rotate_target_bytes (length line)) (length line)
          (reverse (old_lines existing))))
    ++ line

abbrev pub size_or_zero : Result IoError (ℕ × Option ℕ) → ℕ
size_or_zero (ok (len, modified)) = len
size_or_zero (err e) = 0

-- `read_to_string(..).unwrap_or_default()`
abbrev pub text_or_empty : (Bytes → Bool) → Result IoError Bytes → Bytes
text_or_empty is_utf8 (ok bytes) = if is_utf8 bytes then bytes else []
text_or_empty is_utf8 (err e) = []

-- Whatever fails is passed over in silence, so is what `flush` finds when it has waited for the write.
abbrev pub write_opened : Bytes → Result IoError (Unit {0}) × Host → Host
write_opened bytes (ok u, h) = (write_all audit_path bytes h).1
write_opened bytes (err e, h) = h

unfoldable pub append_line : (Bytes → Bool) → Bytes → Host → Host
unfolding metadata open_append write_all create read_file rotated
append_line is_utf8 line h =
    let (size, h₁) = metadata audit_path h in
    if leb (size_or_zero size + length line) max_bytes
    then write_opened line (open_append audit_path h₁)
    else let (existing, h₂) = read_file audit_path h₁ in
      write_opened (rotated (text_or_empty is_utf8 existing) line) (create audit_path h₂)

module _ (o : Outside) (print : Rejection → Option Bytes) where
  abbrev pub rejection_of : ℕ → Bytes → String → Rejection
  rejection_of now raw reason = record {
    timestamp_utc = now;
    rejection_reason = reason;
    body_sha256 = sha256_hex o.crypto raw;
    body_size_bytes = length raw;
    posted_summary = redacted_smoke_summary (o.from_slice raw);
  }

  abbrev pub append_printed : Option Bytes → Host → Host
  append_printed none h = h
  append_printed (some text) h = append_line o.is_utf8 (text ++ b'\n' ∷ []) h

  unfoldable pub append_rejected_smoke_audit : ℕ → Bytes → String → Host → Host
  unfolding append_line redacted_smoke_summary sha256_hex
  append_rejected_smoke_audit now raw reason h =
      append_printed (print (rejection_of now raw reason)) h

  abbrev pub audited : Clock → Bytes → Result AppError (Unit {0}) → Method (Unit {0})
  audited clock raw (ok u) s = (ok u, s)
  audited clock raw (err e) s = (
    err e,
    record s { host = append_rejected_smoke_audit clock.ingested raw (to_string e) s.host },
  )

  unfoldable pub post_phase1_three_os_smoke : AppState → Clock → Bytes → Method IngestReceipt
  unfolding admitted validate_three_os_release_smoke append_rejected_smoke_audit to_string json_str
  post_phase1_three_os_smoke state clock body = do
    lift (admitted o state body)
    smoke ← lift (map_err AppError.bad_request (o.from_slice body))
    audited clock body (validate_three_os_release_smoke o.debug smoke)
    accept_value o three_os_release_smoke three_os_schema clock body (digest_of o smoke)
        (json_str smoke "status")

module _ (o : Outside) (header : Option (Option (List ℕ))) where
  unfoldable pub latest_phase1_three_os_smoke : Method Cached
  unfolding latest_value
  latest_phase1_three_os_smoke = latest_value o three_os_release_smoke three_os_schema header

  unfoldable pub get_phase1_three_os_smoke : String → Method Cached
  unfolding get_value
  get_phase1_three_os_smoke sha = get_value o three_os_release_smoke sha header

  unfoldable pub head_phase1_three_os_smoke : String → Method Cached
  unfolding head_stored
  head_phase1_three_os_smoke sha = head_stored o three_os_release_smoke sha header

-- The summary of the log: the latest record is the last line that is not blank.
pub record AuditSummary : Type 0 where
  pub count : ℕ
  pub latest_timestamp_utc : Option String
  pub latest_rejection_reason : Option (List ℕ)
  pub audit_log_size_bytes : ℕ
  pub audit_log_cap_bytes : ℕ

abbrev last : List Bytes → Option Bytes
last [] = none
last (line ∷ []) = some line
last (line ∷ next ∷ lines) = last (next ∷ lines)

abbrev succeeded : Result String Value → Option Value
succeeded (ok v) = some v
succeeded (err e) = none

abbrev cut_reason : Option String → Option (List ℕ)
cut_reason none = none
cut_reason (some raw) = some (take 240 (codes raw))

abbrev summary_of_log : Outside → Bytes → AuditSummary
summary_of_log o contents =
    let latest = and_then (last (old_lines contents)) (λ line. succeeded (o.from_slice line)) in
    record {
      count = length (old_lines contents);
      latest_timestamp_utc = and_then latest (λ r. json_str r "timestamp_utc");
      latest_rejection_reason = cut_reason (and_then latest (λ r. json_str r "rejection_reason"));
      audit_log_size_bytes = length contents;
      audit_log_cap_bytes = max_bytes;
    }

abbrev no_log : AuditSummary
no_log = record {
  count = 0;
  latest_timestamp_utc = none;
  latest_rejection_reason = none;
  audit_log_size_bytes = 0;
  audit_log_cap_bytes = max_bytes;
}

abbrev log_summary : Outside → Result IoError Bytes → AuditSummary
log_summary o (err e) = no_log
log_summary o (ok contents) = if o.is_utf8 contents then summary_of_log o contents else no_log

unfoldable pub rejected_smoke_audit_summary : Outside → Storage → AuditSummary × Storage
unfolding read_file lines_from is_blank json_str
rejected_smoke_audit_summary o s =
    let (r, h) = read_file audit_path s.host in (log_summary o r, record s { host = h })
