-- ===== src/AuditLog/Rotation.antt =====
-- The mirror file of the buffer: what its rotation keeps small, what a failed write keeps back, and
-- what a failed rotation does to it.
use ao2_control_plane.Base.{
  ℕ, zero, suc, ◌<◌, ◌≡◌, refl, ap, ◌∙◌, sym, Bool, true, false, List, [], ◌∷◌, ◌++◌, map,
  append_assoc, append-nil, Option, none, some, arith, leb, if◌then◌else◌, take, drop, All,
}
use ao2_control_plane.AuditLog.{
  AuditEntry, AuditLog, Answers, Flush, flushed, failed, PersistenceState, with_persistence,
  open_persistence, push, persist, persist_state, append, run, rotate_persistence, saturating_add,
}
use ao2_control_plane.AuditLog.Ring.{entry_of}

-- The file's part of an append and of a run.
abbrev mirrored : Answers → AuditEntry → Option PersistenceState → Option PersistenceState
mirrored a e p = elim p [ none ↦ none | some q ↦ some ((persist_state a e q).1) ]

persistence-push : (e : AuditEntry) (log : AuditLog) → (push e log).persistence ≡ log.persistence
unfolding push
persistence-push e log = ground arith

persistence-append :
    (a : Answers) (e : AuditEntry) (log : AuditLog)
    → (append a e log).persistence ≡ mirrored a e log.persistence
unfolding append persist
persistence-append a e log = ground (arith, persistence-push e log)

-- The lines on the disk: of the live file and of the sidecar.
unfoldable pub on_disk : AuditLog → Option (List AuditEntry × Option (List AuditEntry))
on_disk log = elim log.persistence [ none ↦ none | some p ↦ some (p.live, p.sidecar) ]

-- A state without a writer, whose lines never change.
abbrev IsClosed : List AuditEntry → Option (List AuditEntry) → AuditLog → Type 0
IsClosed live sidecar log =
    (p : PersistenceState) × (log.persistence ≡ some p)
    × (p.writer ≡ false)
    × (p.live ≡ live)
    × (p.sidecar ≡ sidecar)

IsClosed-append :
    (a : Answers) (e : AuditEntry) (log : AuditLog) (live : List AuditEntry)
    (sidecar : Option (List AuditEntry))
    → IsClosed live sidecar log
    → IsClosed live sidecar (append a e log)
unfolding persist_state
IsClosed-append a e log live sidecar (p, is_open, w, l, s) = (
  (persist_state a e p).1,
  persistence-append a e log ∙ ap (mirrored a e) is_open,
  ground arith,
  ground arith,
  ground arith,
)

IsClosed-run :
    (steps : List (Answers × AuditEntry)) (log : AuditLog) (live : List AuditEntry)
    (sidecar : Option (List AuditEntry))
    → IsClosed live sidecar log
    → IsClosed live sidecar (run steps log)
unfolding run
IsClosed-run [] log live sidecar c = c
IsClosed-run ((a, e) ∷ steps) log live sidecar c =
    IsClosed-run steps (append a e log) live sidecar (IsClosed-append a e log live sidecar c)

IsClosed-on_disk :
    (log : AuditLog) (live : List AuditEntry) (sidecar : Option (List AuditEntry))
    → IsClosed live sidecar log
    → on_disk log ≡ some (live, sidecar)
unfolding on_disk
IsClosed-on_disk log live sidecar (p, is_open, w, l, s) = rw is_open (ap some (rw (l, s)))

-- The answers under which the append of a line of `len` bytes ends in a rotation that fails.
abbrev pub FailsToRotate : Answers → ℕ → PersistenceState → Type 0
FailsToRotate a len p =
    (p.writer ≡ true)
    × (a.line ≡ some len)
    × (a.written ≡ flushed)
    × ((if a.renamed then a.reopened else false) ≡ false)
    × (max : ℕ) × (p.max_bytes ≡ some max)
    × (leb max (saturating_add p.bytes_written (saturating_add len 1)) ≡ true)

failed_rotation-closes :
    (a : Answers) (e : AuditEntry) (len : ℕ) (p : PersistenceState)
    → FailsToRotate a len p
    → ((persist_state a e p).1).writer ≡ false
unfolding persist_state rotate_persistence
failed_rotation-closes a e len p (w, l, f, r, max, m, over) = ground arith

-- Once an append has met a rotation that fails, because the live file is not renamed or a fresh one
-- is not opened, no later append changes the files, whatever the file system answers it.
pub failed_rotation_is_final :
    (a : Answers) (e : AuditEntry) (len : ℕ) (p : PersistenceState) (log : AuditLog)
    (steps : List (Answers × AuditEntry))
    → log.persistence ≡ some p
    → FailsToRotate a len p
    → on_disk (run steps (append a e log)) ≡ on_disk (append a e log)
failed_rotation_is_final a e len p log steps is_open fails =
    let q = (persist_state a e p).1 in
    let closed : IsClosed q.live q.sidecar (append a e log) = (
      q,
      persistence-append a e log ∙ ap (mirrored a e) is_open,
      failed_rotation-closes a e len p fails,
      refl,
      refl,
    ) in
    IsClosed-on_disk (run steps (append a e log)) q.live q.sidecar
      (IsClosed-run steps (append a e log) q.live q.sidecar closed)
    ∙ sym (IsClosed-on_disk (append a e log) q.live q.sidecar closed)

-- The count of bytes is below the limit while the file has a writer.
abbrev pub IsBelow : ℕ → AuditLog → Type 0
IsBelow max log =
    (p : PersistenceState) × (log.persistence ≡ some p)
    × (p.max_bytes ≡ some max)
    × (p.writer ≡ true → p.bytes_written < max)

IsBelow-append :
    (max : ℕ) (a : Answers) (e : AuditEntry) (log : AuditLog)
    → 0 < max
    → IsBelow max log
    → IsBelow max (append a e log)
unfolding persist_state rotate_persistence
IsBelow-append max a e log pos (p, is_open, m, b) = (
  (persist_state a e p).1,
  persistence-append a e log ∙ ap (mirrored a e) is_open,
  ground arith,
  ground arith,
)

IsBelow-run :
    (max : ℕ) (steps : List (Answers × AuditEntry)) (log : AuditLog)
    → 0 < max
    → IsBelow max log
    → IsBelow max (run steps log)
unfolding run
IsBelow-run max [] log pos b = b
IsBelow-run max ((a, e) ∷ steps) log pos b =
    IsBelow-run max steps (append a e log) pos (IsBelow-append max a e log pos b)

-- A file that is opened with a byte count below its limit, which is not 0, has one below it after
-- any appends, for as long as it has a writer, whatever the file system answers.
pub run-IsBelow :
    (capacity bytes max : ℕ) (live : List AuditEntry) (steps : List (Answers × AuditEntry))
    → 0 < max
    → bytes < max
    → IsBelow max (run steps (with_persistence capacity live bytes (some max)))
unfolding with_persistence
run-IsBelow capacity bytes max live steps pos below =
    IsBelow-run max steps
      (unfold with_persistence in with_persistence capacity live bytes (some max)) pos
      (open_persistence live bytes (some max), refl, refl, λ w. below)

-- The serializer prints the entry, and the writer takes its line, written out at once or not.
abbrev pub is_taken : Answers × AuditEntry → Bool
is_taken (a, e) = elim a.line [
  | none ↦ false
  | some len ↦ elim a.written [ flushed ↦ true | failed taken reached ↦ taken ]
]

abbrev pub IsTaken : Answers × AuditEntry → Type 0
IsTaken step = is_taken step ≡ true

-- What is in the live file and then in the writer's buffer.
abbrev pub Carries : List AuditEntry → AuditLog → Type 0
Carries lines log =
    (p : PersistenceState) × (log.persistence ≡ some p)
    × (p.max_bytes ≡ none)
    × (p.writer ≡ true)
    × (p.live ++ p.pending ≡ lines)

take-drop : (n : ℕ) (xs : List AuditEntry) → take n xs ++ drop n xs ≡ xs
take-drop zero xs = refl
take-drop (suc n) [] = refl
take-drop (suc n) (x ∷ xs) = ap (λ ys. x ∷ ys) (take-drop n xs)

-- A line after those of the file and of the buffer, however many of them a flush moves.
moved :
    (n : ℕ) (live pending lines : List AuditEntry) (e : AuditEntry)
    → live ++ pending ≡ lines
    → (live ++ take n (pending ++ e ∷ [])) ++ drop n (pending ++ e ∷ []) ≡ lines ++ e ∷ []
moved n live pending lines e c =
    append_assoc live (take n (pending ++ e ∷ [])) (drop n (pending ++ e ∷ []))
    ∙ ap (λ x. live ++ x) (take-drop n (pending ++ e ∷ []))
    ∙ sym (append_assoc live pending (e ∷ []))
    ∙ ap (λ x. x ++ e ∷ []) c

emptied :
    (live pending lines : List AuditEntry) (e : AuditEntry)
    → live ++ pending ≡ lines
    → (live ++ (pending ++ e ∷ [])) ++ [] ≡ lines ++ e ∷ []
emptied live pending lines e c =
    append-nil (live ++ (pending ++ e ∷ []))
    ∙ sym (append_assoc live pending (e ∷ []))
    ∙ ap (λ x. x ++ e ∷ []) c

abbrev reached_of : Flush → ℕ
reached_of flushed = 0
reached_of (failed taken reached) = reached

Carries-append :
    (lines : List AuditEntry) (a : Answers) (e : AuditEntry) (log : AuditLog)
    → is_taken (a, e) ≡ true
    → Carries lines log
    → Carries (lines ++ e ∷ []) (append a e log)
unfolding persist_state
Carries-append lines a e log t (p, is_open, m, w, c) = (
  (persist_state a e p).1,
  persistence-append a e log ∙ ap (mirrored a e) is_open,
  ground arith,
  ground arith,
  ground (
    arith,
    emptied p.live p.pending lines e c,
    moved (reached_of a.written) p.live p.pending lines e c,
  ),
)

Carries-run :
    (lines : List AuditEntry) (steps : List (Answers × AuditEntry)) (log : AuditLog)
    → All IsTaken steps
    → Carries lines log
    → Carries (lines ++ map entry_of steps) (run steps log)
unfolding run
Carries-run lines [] log t c = rw append-nil c
Carries-run lines ((a, e) ∷ steps) log (t, ts) c =
    rw (sym (append_assoc lines (e ∷ []) (map entry_of steps)))
      (Carries-run (lines ++ e ∷ []) steps (append a e log) ts (Carries-append lines a e log t c))

-- Without rotation, and while the serializer prints every entry and the writer takes its line, the
-- live file followed by the writer's buffer is what the file held before and then every appended
-- entry, in order and once, however many writes fail and however many lines they leave behind.
pub no_line_is_lost :
    (capacity bytes : ℕ) (live : List AuditEntry) (steps : List (Answers × AuditEntry))
    → All IsTaken steps
    → Carries (live ++ map entry_of steps) (run steps (with_persistence capacity live bytes none))
unfolding with_persistence
no_line_is_lost capacity bytes live steps ts =
    Carries-run live steps (unfold with_persistence in with_persistence capacity live bytes none) ts
      (open_persistence live bytes none, refl, refl, refl, append-nil live)
