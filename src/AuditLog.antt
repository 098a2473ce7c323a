-- ===== src/AuditLog.antt =====
-- `AuditLog` of crates/ao2-cp-server/src/audit_log.rs: the bounded buffer of recent requests, its
-- counters, and the file that mirrors it.
pub mod Ring
pub mod Rotation
pub mod Counters
use ao2_control_plane.Base.{
  ℕ, ◌+◌, ◌-◌, ◌%◌, ◌^◌, min, String, Bool, true, false, List, [], ◌∷◌, ◌++◌, Option, none, some,
  nat_eq, ◌==◌, ltb, leb, if◌then◌else◌, length, take, drop,
}

pub record AuditEntry : Type 0 where
  pub timestamp_unix_micros : ℕ
  pub method : String
  pub path : String
  pub status : ℕ
  pub duration_micros : ℕ
  pub auth_attempted : Bool
  pub authenticated : Bool

-- The texts of `last_error`, each without the system's own message.
pub data PersistError : Type 0 where
  serialize_failed writer_absent write_failed rotate_failed : PersistError

-- `writer` is whether there is an open one, and `pending` the lines in its buffer. The lines of the
-- files and of the buffer are kept as the entries that they print.
pub record PersistenceState : Type 0 where
  pub live : List AuditEntry
  pub sidecar : Option (List AuditEntry)
  pub writer : Bool
  pub pending : List AuditEntry
  pub last_error : Option PersistError
  pub max_bytes : Option ℕ
  pub bytes_written : ℕ
  pub rotation_count : ℕ
  pub last_rotated_unix_micros : Option ℕ

-- `sent` is what went to the broadcast channel.
pub record AuditLog : Type 0 where
  pub capacity : ℕ
  pub entries : List AuditEntry
  pub persistence : Option PersistenceState
  pub total_appended : ℕ
  pub total_dropped : ℕ
  pub total_persistence_errors : ℕ
  pub sent : List AuditEntry

-- What `write_all` and `flush` come to: the buffer is written out, or the call fails after it has
-- taken the line or not, and after so many lines of the buffer have reached the file.
pub data Flush : Type 0 where
  flushed : Flush
  failed : Bool → ℕ → Flush

-- What the serializer and the system answer during one append: the length of the line, how it is
-- written, whether an old sidecar is removed, whether the live file is renamed and a fresh one
-- opened, and the clock.
pub record Answers : Type 0 where
  pub line : Option ℕ
  pub written : Flush
  pub removed : Bool
  pub renamed : Bool
  pub reopened : Bool
  pub clock : ℕ

abbrev pub u64_max : ℕ
u64_max = 2 ^ 64 - 1

abbrev pub saturating_add : ℕ → ℕ → ℕ
saturating_add a b = min (a + b) u64_max

-- `fetch_add(1)`
abbrev pub fetch_add : ℕ → ℕ
fetch_add n = (n + 1) % 2 ^ 64

unfoldable pub new : ℕ → AuditLog
new capacity = record {
  capacity = capacity;
  entries = [];
  persistence = none;
  total_appended = 0;
  total_dropped = 0;
  total_persistence_errors = 0;
  sent = [];
}

-- `open_persistence`, on a file that holds `live` in so many bytes.
abbrev pub open_persistence : List AuditEntry → ℕ → Option ℕ → PersistenceState
open_persistence live bytes max_bytes = record {
  live = live;
  sidecar = none;
  writer = true;
  pending = [];
  last_error = none;
  max_bytes = max_bytes;
  bytes_written = bytes;
  rotation_count = 0;
  last_rotated_unix_micros = none;
}

unfoldable pub with_persistence : ℕ → List AuditEntry → ℕ → Option ℕ → AuditLog
unfolding new
with_persistence capacity live bytes max_bytes = record (new capacity) {
  persistence = some (open_persistence live bytes max_bytes);
}

abbrev pub dropped_sidecar : Answers → Option (List AuditEntry) → Option (List AuditEntry)
dropped_sidecar a sidecar = if a.removed then none else sidecar

-- `rotate_persistence`, and whether it returned `Ok`. The writer is taken first; its buffer is empty,
-- since the rotation follows a flush.
unfoldable pub rotate_persistence : Answers → PersistenceState → Bool × PersistenceState
rotate_persistence a p =
    if a.renamed
    then (if a.reopened
        then (
          true,
          record p {
            live = [];
            sidecar = some p.live;
            writer = true;
            bytes_written = 0;
            rotation_count = saturating_add p.rotation_count 1;
            last_rotated_unix_micros = some a.clock;
          },
        )
        else (false, record p { live = []; sidecar = some p.live; writer = false }))
    else (false, record p { sidecar = dropped_sidecar a p.sidecar; writer = false })

-- The rotation after a write, if the file is long enough; the number counts its failure.
abbrev after_write : Answers → PersistenceState → ℕ × PersistenceState
after_write a p = elim p.max_bytes [
  | none ↦ (0, p)
  | some max ↦
      if leb max p.bytes_written
      then (let (done, q) = rotate_persistence a p in
          if done then (0, q) else (1, record q { last_error = some rotate_failed }))
      else (0, p)
]

-- The buffer with the line, if the writer takes it.
abbrev pub buffered : Bool → AuditEntry → List AuditEntry → List AuditEntry
buffered taken e pending = if taken then pending ++ e ∷ [] else pending

abbrev write_line : Answers → AuditEntry → ℕ → PersistenceState → ℕ × PersistenceState
write_line a e len p = elim a.written [
  | flushed ↦ after_write a (record p {
    live = p.live ++ buffered true e p.pending;
    pending = [];
    bytes_written = saturating_add p.bytes_written (saturating_add len 1);
  })
  | failed taken reached ↦ (
    1,
    record p {
      live = p.live ++ take reached (buffered taken e p.pending);
      pending = drop reached (buffered taken e p.pending);
      last_error = some write_failed;
    },
  )
]

-- `persist` of an entry whose printed line has the given length, and the errors that it counts.
abbrev persist_line : Answers → AuditEntry → ℕ → PersistenceState → ℕ × PersistenceState
persist_line a e len p =
    if p.writer then write_line a e len p else (1, record p { last_error = some writer_absent })

unfoldable pub persist_state : Answers → AuditEntry → PersistenceState → ℕ × PersistenceState
unfolding rotate_persistence
persist_state a e p = elim a.line [
  | none ↦ (1, record p { last_error = some serialize_failed })
  | some len ↦ persist_line a e len p
]

unfoldable pub persist : Answers → AuditEntry → AuditLog → AuditLog
persist a e log = elim log.persistence [
  | none ↦ log
  | some p ↦
      let (errors, q) = persist_state a e p in
      record log {
        persistence = some q;
        total_persistence_errors = (log.total_persistence_errors + errors) % 2 ^ 64;
      }
]

abbrev pub pop_front : List AuditEntry → List AuditEntry
pop_front [] = []
pop_front (x ∷ xs) = xs

-- The part under the lock of the buffer.
unfoldable pub push : AuditEntry → AuditLog → AuditLog
unfolding nat_eq
push e log =
    if ltb 0 log.capacity
    then (if length log.entries == log.capacity
        then record log {
          entries = pop_front log.entries ++ e ∷ [];
          total_dropped = fetch_add log.total_dropped;
        }
        else record log { entries = log.entries ++ e ∷ [] })
    else log

unfoldable pub append : Answers → AuditEntry → AuditLog → AuditLog
unfolding push persist persist_state
append a e log =
    let kept = persist a e (push e log) in
    record kept { total_appended = fetch_add kept.total_appended; sent = kept.sent ++ e ∷ [] }

-- A run of appends, each with the answers that it meets.
unfoldable pub run : List (Answers × AuditEntry) → AuditLog → AuditLog
unfolding append
run [] log = log
run ((a, e) ∷ rest) log = run rest (append a e log)

abbrev pub snapshot : AuditLog → List AuditEntry
snapshot log = log.entries

-- `oldest_resident_unix_micros`
unfoldable pub oldest_resident_unix_micros : AuditLog → Option ℕ
oldest_resident_unix_micros log = elim log.entries [
  | [] ↦ none
  | e ∷ es ↦ some e.timestamp_unix_micros
]

unfoldable pub take_persistence_error : AuditLog → Option PersistError × AuditLog
take_persistence_error log = elim log.persistence [
  | none ↦ (none, log)
  | some p ↦ (p.last_error, record log { persistence = some (record p { last_error = none }) })
]

unfoldable pub persistence_last_error : AuditLog → Option PersistError
persistence_last_error log = elim log.persistence [ none ↦ none | some p ↦ p.last_error ]
