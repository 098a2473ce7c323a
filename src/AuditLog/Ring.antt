-- ===== src/AuditLog/Ring.antt =====
-- The buffer holds the last entries, as many as it has room for.
use Prim.Native.Nat.add
use native.Mathlib.Decide.{ℕ_discrete}
use ao2_control_plane.Base.{
  ℕ, zero, suc, ◌+◌, ◌-◌, ◌%◌, ◌^◌, ◌≤◌, ◌≡◌, refl, ◌∙◌, sym, List, [], ◌∷◌, ◌++◌, map,
  append_assoc, append-nil, Option, arith, length, length-append, length-drop, drop, nat_eq, ◌==◌,
  ltb, if◌then◌else◌,
}
use ao2_control_plane.AuditLog.{
  AuditEntry, AuditLog, pop_front, Answers, with_persistence, push, persist, append, run,
}

-- The end of a list, of at most the given length.
unfoldable pub last_of : ℕ → List AuditEntry → List AuditEntry
last_of n xs = drop (length xs - n) xs

abbrev pub entry_of : Answers × AuditEntry → AuditEntry
entry_of (a, e) = e

pub persist_keeps :
    (a : Answers) (e : AuditEntry) (log : AuditLog)
    → ((persist a e log).entries ≡ log.entries)
      × ((persist a e log).capacity ≡ log.capacity)
      × ((persist a e log).total_appended ≡ log.total_appended)
      × ((persist a e log).total_dropped ≡ log.total_dropped)
      × ((persist a e log).sent ≡ log.sent)
unfolding persist
persist_keeps a e log = ground arith

drop_all : (n : ℕ) (xs : List AuditEntry) → length xs ≤ n → drop n xs ≡ []
drop_all zero [] h = refl
drop_all zero (x ∷ xs) h = absurd (omega arith)
drop_all (suc n) [] h = refl
drop_all (suc n) (x ∷ xs) h = drop_all n xs (omega arith)

last_of_short : (n : ℕ) (xs : List AuditEntry) → length xs ≤ n → last_of n xs ≡ xs
unfolding last_of
last_of_short n xs h = let e : length xs - n ≡ 0 = omega arith in rw e

-- The buffer after `push`, from its capacity and what it held.
abbrev pushed : ℕ → List AuditEntry → AuditEntry → List AuditEntry
pushed n xs e =
    if ltb 0 n then (if length xs == n then pop_front xs ++ e ∷ [] else xs ++ e ∷ []) else xs

pushed-last_of :
    (n : ℕ) (xs : List AuditEntry) (e : AuditEntry)
    → length xs ≤ n
    → pushed n xs e ≡ last_of n (xs ++ e ∷ [])
unfolding last_of
pushed-last_of zero [] e h = refl
pushed-last_of zero (x ∷ xs) e h = absurd (omega arith)
pushed-last_of (suc n) [] e h =
    let none_over : 1 - suc n ≡ 0 = omega arith in rw none_over (ground arith)
pushed-last_of (suc n) (x ∷ xs) e h = elim (ℕ_discrete (length xs) n) [
  | yes full ↦
      let one_over : suc (length (xs ++ e ∷ [])) - suc n ≡ 1 =
        omega (arith, length-append {0} xs (e ∷ [])) in
      rw one_over (ground arith)
  | no room ↦
      let none_over : suc (length (xs ++ e ∷ [])) - suc n ≡ 0 =
        omega (arith, length-append {0} xs (e ∷ [])) in
      rw none_over (ground arith)
]

length-last_of : (n : ℕ) (xs : List AuditEntry) → length (last_of n xs) ≤ n
unfolding last_of
length-last_of n xs = omega (arith, length-drop (length xs - n) xs)

-- What is appended to the last entries of a list pushes out the same entries as from the list.
drop-append :
    (n : ℕ) (xs ys : List AuditEntry) → n ≤ length xs → drop n xs ++ ys ≡ drop n (xs ++ ys)
drop-append zero xs ys h = refl
drop-append (suc n) [] ys h = elim h [ ]
drop-append (suc n) (x ∷ xs) ys h = drop-append n xs ys (omega arith)

drop-drop : (m n : ℕ) (xs : List AuditEntry) → drop n (drop m xs) ≡ drop (m + n) xs
drop-drop zero n xs = rw add.zero
drop-drop (suc m) zero [] = rw add.suc
drop-drop (suc m) (suc n) [] = rw add.suc
drop-drop (suc m) n (x ∷ xs) = rw add.suc (drop-drop m n xs)

last_of-append :
    (n : ℕ) (xs ys : List AuditEntry) → last_of n (last_of n xs ++ ys) ≡ last_of n (xs ++ ys)
unfolding last_of
last_of-append n xs ys =
    let over = length xs - n in
    let same : over + (length (drop over (xs ++ ys)) - n) ≡ length (xs ++ ys) - n =
      omega (arith, length-drop over (xs ++ ys), length-append {0} xs ys) in
    rw (
      drop-append over xs ys (omega arith),
      drop-drop over (length (drop over (xs ++ ys)) - n) (xs ++ ys),
      same,
    )

pub push_lem :
    (e : AuditEntry) (log : AuditLog)
    → ((push e log).entries ≡ pushed log.capacity log.entries e)
      × ((push e log).capacity ≡ log.capacity)
      × ((push e log).total_appended ≡ log.total_appended)
      × ((push e log).sent ≡ log.sent)
unfolding push
push_lem e log = ground arith

entries-append :
    (a : Answers) (e : AuditEntry) (log : AuditLog)
    → length log.entries ≤ log.capacity
    → ((append a e log).entries ≡ last_of log.capacity (log.entries ++ e ∷ []))
      × ((append a e log).capacity ≡ log.capacity)
unfolding append
entries-append a e log h = ground (
  arith,
  persist_keeps a e (push e log),
  push_lem e log,
  pushed-last_of log.capacity log.entries e h,
)

entries-run :
    (steps : List (Answers × AuditEntry)) (log : AuditLog)
    → length log.entries ≤ log.capacity
    → (run steps log).entries ≡ last_of log.capacity (log.entries ++ map entry_of steps)
unfolding run
entries-run [] log h = sym (rw append-nil (last_of_short log.capacity log.entries h))
entries-run ((a, e) ∷ steps) log h =
    let next = append a e log in
    let (es, cap) = entries-append a e log h in
    let short : length next.entries ≤ next.capacity =
      rw (es, cap) (length-last_of log.capacity (log.entries ++ e ∷ [])) in
    entries-run steps next short
    ∙ rw (
      es,
      cap,
      last_of-append log.capacity (log.entries ++ e ∷ []) (map entry_of steps),
      append_assoc log.entries (e ∷ []) (map entry_of steps),
    )

-- After any appends to a new log with a mirror file, whatever the file system answers, the buffer
-- holds the last entries that were appended, as many as its capacity.
pub snapshot-run :
    (capacity bytes : ℕ) (live : List AuditEntry) (max_bytes : Option ℕ)
    (steps : List (Answers × AuditEntry))
    → (run steps (with_persistence capacity live bytes max_bytes)).entries
      ≡ last_of capacity (map entry_of steps)
unfolding with_persistence
snapshot-run capacity bytes live max_bytes steps =
    entries-run steps (unfold with_persistence in with_persistence capacity live bytes max_bytes)
      (omega arith)

pub total_appended-step :
    (a : Answers) (e : AuditEntry) (log : AuditLog)
    → ((append a e log).total_appended ≡ (log.total_appended + 1) % 2 ^ 64)
      × ((append a e log).sent ≡ log.sent ++ e ∷ [])
unfolding append
total_appended-step a e log = ground (arith, persist_keeps a e (push e log), push_lem e log)
