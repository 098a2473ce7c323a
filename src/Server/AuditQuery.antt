-- ===== src/Server/AuditQuery.antt =====
-- The filters of crates/ao2-cp-server/src/handlers/audit_log.rs. A text of the query is a list of
-- code points.
use ao2_control_plane.Base.{
  ℕ, min, max, Bool, true, ◌&&◌, List, Option, none, some, length, take, filter, leb, nat_eq,
  bool_eq, ◌==◌, if◌then◌else◌,
}
use ao2_control_plane.Base.Text.{
  codes, codes_eq, trim, to_ascii_lowercase, to_ascii_uppercase, starts_with_codes,
}
use ao2_control_plane.AuditLog.{AuditEntry, AuditLog, snapshot}
use mathlib.Core.List.{reverse}

abbrev pub max_response_entries : ℕ
max_response_entries = 1024

pub record AuditLogQuery : Type 0 where
  pub limit : Option ℕ
  pub since_unix_micros : Option ℕ
  pub method : Option (List ℕ)
  pub status : Option ℕ
  pub status_class : Option (List ℕ)
  pub path_prefix : Option (List ℕ)
  pub authenticated : Option Bool

-- `eq_ignore_ascii_case`
unfoldable pub eq_ignore_ascii_case : List ℕ → List ℕ → Bool
unfolding to_ascii_lowercase codes_eq
eq_ignore_ascii_case s t = to_ascii_lowercase s == to_ascii_lowercase t

-- A test that a query may leave out.
abbrev pub passes {ℓ} : {A : Type ℓ} → Option A → (A → Bool) → Bool
passes none p = true
passes (some a) p = p a

unfoldable pub class_of : List ℕ → Option (ℕ × ℕ)
unfolding codes_eq
class_of s =
    if s == codes "1xx"
    then some (100, 199)
    else if s == codes "2xx"
    then some (200, 299)
    else if s == codes "3xx"
    then some (300, 399)
    else if s == codes "4xx"
    then some (400, 499)
    else if s == codes "5xx"
    then some (500, 599)
    else none

unfoldable pub class_bucket : List ℕ → Option (ℕ × ℕ)
unfolding class_of trim to_ascii_lowercase
class_bucket s = class_of (to_ascii_lowercase (trim s))

unfoldable pub matches_filters :
    AuditLogQuery → Option (ℕ × ℕ) → Option (List ℕ) → AuditEntry → Bool
unfolding eq_ignore_ascii_case starts_with_codes nat_eq bool_eq
matches_filters q class_filter method_filter e =
    passes q.since_unix_micros (λ since. leb since e.timestamp_unix_micros)
    && passes method_filter (λ m. eq_ignore_ascii_case (codes e.method) m)
    && passes q.status (λ s. e.status == s)
    && passes class_filter (λ c. leb c.0 e.status && leb e.status c.1)
    && passes q.path_prefix (λ p. starts_with_codes (codes e.path) p)
    && passes q.authenticated (λ a. e.authenticated == a)

abbrev pub and_then {ℓ κ} : {A : Type ℓ} {B : Type κ} → Option A → (A → Option B) → Option B
and_then none f = none
and_then (some a) f = f a

abbrev pub is_match : AuditLogQuery → AuditEntry → Bool
is_match q =
    matches_filters q (and_then q.status_class class_bucket)
      (and_then q.method (λ m. some (to_ascii_uppercase m)))

-- `unwrap_or(100).clamp(1, MAX_RESPONSE_ENTRIES)`
abbrev pub limit_of : AuditLogQuery → ℕ
limit_of q = elim q.limit [ none ↦ 100 | some n ↦ min (max n 1) max_response_entries ]

pub record AuditLogAnswer : Type 0 where
  pub capacity : ℕ
  pub total_buffered : ℕ
  pub total_appended_since_boot : ℕ
  pub filtered_total : ℕ
  pub returned : ℕ
  pub limit : ℕ
  pub entries : List AuditEntry

-- The matching entries, the newest first.
unfoldable pub filtered : AuditLogQuery → List AuditEntry → List AuditEntry
unfolding matches_filters class_bucket to_ascii_uppercase
filtered q entries = filter (is_match q) (reverse entries)

-- `get_audit_log`, less the part on the file.
unfoldable pub get_audit_log : AuditLog → AuditLogQuery → AuditLogAnswer
unfolding filtered
get_audit_log log q =
    let found = filtered q (snapshot log) in
    let entries = take (limit_of q) found in
    record {
      capacity = log.capacity;
      total_buffered = length (snapshot log);
      total_appended_since_boot = log.total_appended;
      filtered_total = length found;
      returned = length entries;
      limit = limit_of q;
      entries = entries;
    }
