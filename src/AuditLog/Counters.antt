-- ===== src/AuditLog/Counters.antt =====
-- The counters of the buffer over a run of appends.
use native.Mathlib.Nat.{mod-add-mod, mod-mod}
use ao2_control_plane.Base.{
  ℕ, ◌+◌, ◌-◌, ◌⊎◌, inl, inr, ◌%◌, ◌^◌, ◌≤◌, ◌<◌, ◌≡◌, refl, ap, ◌∙◌, sym, List, [], ◌∷◌, ◌++◌, map,
  append_assoc, append-nil, Option, arith, length, length-append, nat_eq,
}
use ao2_control_plane.AuditLog.{
  AuditEntry, AuditLog, Answers, with_persistence, push, pop_front, append, run,
}
use ao2_control_plane.AuditLog.Ring.{entry_of, persist_keeps, total_appended-step}

length-pop_front : (xs : List AuditEntry) → length (pop_front xs) ≡ length xs - 1
length-pop_front [] = refl
length-pop_front (x ∷ xs) = omega arith

-- One append makes room by a counted eviction, or takes a free place.
append_counts :
    (a : Answers) (e : AuditEntry) (log : AuditLog)
    → 0 < log.capacity
    → length log.entries ≤ log.capacity
    → ((append a e log).capacity ≡ log.capacity)
      × (((length log.entries ≡ log.capacity)
            × (length (append a e log).entries ≡ log.capacity)
            × ((append a e log).total_dropped ≡ (log.total_dropped + 1) % 2 ^ 64))
          ⊎ ((length log.entries < log.capacity)
              × (length (append a e log).entries ≡ length log.entries + 1)
              × ((append a e log).total_dropped ≡ log.total_dropped)))
unfolding append push
append_counts a e log pos h = ground (
  arith,
  persist_keeps a e (push e log),
  length-append {0} (pop_front log.entries) (e ∷ []),
  length-append {0} log.entries (e ∷ []),
  length-pop_front log.entries,
)

dropped-run :
    (steps : List (Answers × AuditEntry)) (log : AuditLog)
    → 0 < log.capacity
    → length log.entries ≤ log.capacity
    → log.total_dropped % 2 ^ 64 ≡ log.total_dropped
    → (run steps log).total_dropped
      ≡ (log.total_dropped + (length log.entries + length steps - log.capacity)) % 2 ^ 64
unfolding run
dropped-run [] log pos h small = omega arith
dropped-run ((a, e) ∷ steps) log pos h small =
    let next = append a e log in
    let (cap, cases) = append_counts a e log pos h in
    elim cases [
      | inl (full, es, d) ↦
          let rest =
            dropped-run steps next (omega arith) (omega arith)
              (ap (λ n. n % 2 ^ 64) d ∙ mod-mod (log.total_dropped + 1) (2 ^ 64) ∙ sym d) in
          rest
          ∙ ap (λ n. (n + (length next.entries + length steps - next.capacity)) % 2 ^ 64) d
          ∙ mod-add-mod (log.total_dropped + 1) (2 ^ 64)
              (length next.entries + length steps - next.capacity)
          ∙ ap (λ n. n % 2 ^ 64) (omega arith)
      | inr (room, es, d) ↦
          let rest =
            dropped-run steps next (omega arith) (omega arith)
              (ap (λ n. n % 2 ^ 64) d ∙ small ∙ sym d) in
          rest ∙ ap (λ n. n % 2 ^ 64) (omega arith)
    ]

appended-run :
    (steps : List (Answers × AuditEntry)) (log : AuditLog)
    → log.total_appended % 2 ^ 64 ≡ log.total_appended
    → ((run steps log).total_appended ≡ (log.total_appended + length steps) % 2 ^ 64)
      × ((run steps log).sent ≡ log.sent ++ map entry_of steps)
unfolding run
appended-run [] log small = (omega arith, sym (append-nil log.sent))
appended-run ((a, e) ∷ steps) log small =
    let (t, s) = total_appended-step a e log in
    let next = append a e log in
    let (ts, ss) =
      appended-run steps next
        (ap (λ n. n % 2 ^ 64) t ∙ mod-mod (log.total_appended + 1) (2 ^ 64) ∙ sym t) in
    (
      ts
          ∙ ap (λ n. (n + length steps) % 2 ^ 64) t
          ∙ mod-add-mod (log.total_appended + 1) (2 ^ 64) (length steps)
          ∙ ap (λ n. n % 2 ^ 64) (omega arith),
      ss
          ∙ ap (λ xs. xs ++ map entry_of steps) s
          ∙ append_assoc log.sent (e ∷ []) (map entry_of steps),
    )

-- After any appends to a new log with a mirror file and a capacity above 0, whatever the file
-- system answers, the appended counter is the number of the appends and the dropped counter the
-- number of those that the buffer has no room for, both modulo 2 ^ 64, and every entry went to the
-- broadcast in order.
pub counters-run :
    (capacity bytes : ℕ) (live : List AuditEntry) (max_bytes : Option ℕ)
    (steps : List (Answers × AuditEntry))
    → 0 < capacity
    → let log = run steps (with_persistence capacity live bytes max_bytes) in
      (log.total_appended ≡ length steps % 2 ^ 64)
      × (log.total_dropped ≡ (length steps - capacity) % 2 ^ 64)
      × (log.sent ≡ map entry_of steps)
unfolding with_persistence
counters-run capacity bytes live max_bytes steps pos =
    let start : AuditLog =
      unfold with_persistence in with_persistence capacity live bytes max_bytes in
    let (t, s) = appended-run steps start refl in
    (
      t ∙ ap (λ n. n % 2 ^ 64) (omega arith),
      dropped-run steps start pos (omega arith) refl ∙ ap (λ n. n % 2 ^ 64) (omega arith),
      s,
    )
