-- ===== src/Readiness/Complete.antt =====
-- When a readiness artifact completes the provider pilot.
use ao2_control_plane.Base.{
  ℕ, ◌≡◌, ◌↔◌, sym, refl, ap, String, Bool, true, false, ◌||◌, List, [], ◌∷◌, ◌++◌, filter, length,
  string_eq, ◌==◌, arith, Bool-cases, ltb, All, inl, inr,
}
use mathlib.Core.Path.{subst}
use ao2_control_plane.Base.Text.{codes, string_eq_iff}
use ao2_control_plane.Json.{Value}
use ao2_control_plane.Readiness.{
  classified, blocker_if, listed_blockers, readiness_status, provider_phase1_status,
  provider_phase1_blockers, provider_phase1_dashboard_blockers, is_blocked,
  required_live_provider_pilot, artifact_status,
}

blocked_ne : ◌≡◌ {A = String} "blocked" "pilot_complete" → ⊥
blocked_ne h = let e : ◌≡◌ {A = ℕ} 7 14 = ap (λ s. length (codes s)) h in absurd (omega arith)

failed_ne : ◌≡◌ {A = String} "failed" "pilot_complete" → ⊥
failed_ne h = let e : ◌≡◌ {A = ℕ} 6 14 = ap (λ s. length (codes s)) h in absurd (omega arith)

ready_ne : ◌≡◌ {A = String} "ready" "pilot_complete" → ⊥
ready_ne h = let e : ◌≡◌ {A = ℕ} 5 14 = ap (λ s. length (codes s)) h in absurd (omega arith)

listed_ne : (x : String) (xs : List String) → x ∷ xs ≡ [] → ⊥
listed_ne x xs h = cc

agree_by :
    (p g w r q : Bool)
    → (r ≡ true → w ≡ false)
    → ((classified p g w r q).0 ≡ "pilot_complete") ↔ (listed_blockers p g r q ≡ [])
agree_by false g w r q n = (λ h. absurd (failed_ne h), λ h. absurd (listed_ne _ _ h))
agree_by true false w r q n = (λ h. absurd (blocked_ne h), λ h. absurd (listed_ne _ _ h))
agree_by true true true false q n = (λ h. absurd (blocked_ne h), λ h. absurd (listed_ne _ _ h))
agree_by true true true true q n = let e = n refl in cc
agree_by true true false false q n = (λ h. absurd (blocked_ne h), λ h. absurd (listed_ne _ _ h))
agree_by true true false true false n = (λ h. absurd (ready_ne h), λ h. absurd (listed_ne _ _ h))
agree_by true true false true true n = (λ h. refl, λ h. refl)

ready_excludes :
    (pilot : String)
    → (pilot == "ready") ≡ true
    → (pilot == "blocked" || pilot == "not_ready") ≡ false
unfolding string_eq
ready_excludes pilot h =
    subst (λ (t : String). (t == "blocked" || t == "not_ready") ≡ false)
      (sym ((string_eq_iff pilot "ready").0 h)) refl

-- The status of a readiness artifact says that the pilot is complete exactly when the list of its
-- blockers is empty.
pub pilot_complete_iff_unblocked :
    (readiness : Value)
    → ((provider_phase1_status readiness).state ≡ "pilot_complete")
      ↔ (provider_phase1_blockers readiness ≡ [])
unfolding provider_phase1_status provider_phase1_blockers
pilot_complete_iff_unblocked readiness =
    let pilot = readiness_status readiness "codex_pilot" in
    agree_by (artifact_status readiness == "passed")
      (readiness_status readiness "codex_gate" == "ready")
      (pilot == "blocked" || pilot == "not_ready") (pilot == "ready")
      (required_live_provider_pilot readiness) (ready_excludes pilot)

-- There is a latest artifact, which says that the pilot is complete, and no older one says that it is
-- blocked.
abbrev pub IsUnblocked : List (String × Value) → Type 0
IsUnblocked [] = ⊥
IsUnblocked (latest ∷ older) =
    ((provider_phase1_status latest.1).state ≡ "pilot_complete")
    × All (λ (p : String × Value). is_blocked p.1 ≡ false) older

empty_parts : (xs ys : List String) → (xs ++ ys ≡ []) ↔ ((xs ≡ []) × (ys ≡ []))
empty_parts [] ys = (λ h. (refl, h), λ h. h.1)
empty_parts (x ∷ xs) ys = (λ h. absurd (listed_ne x (xs ++ ys) h), λ h. absurd (listed_ne x xs h.0))

abbrev history : List (String × Value) → ℕ
history older = length (filter (λ (p : String × Value). is_blocked p.1) older)

none_blocked :
    (older : List (String × Value))
    → (history older ≡ 0) ↔ All (λ (p : String × Value). is_blocked p.1 ≡ false) older
none_blocked [] = (λ h. tt, λ h. refl)
none_blocked (p ∷ older) = elim (Bool-cases (is_blocked p.1)) [
  | inl e ↦ rw e (λ h. absurd (omega (arith, h)), λ h. cc (h.0))
  | inr e ↦ let (to, from) = none_blocked older in rw e (λ h. (refl, to h), λ h. from h.1)
]

no_blocker : (n : ℕ) (text : String) → (blocker_if (ltb 0 n) text ≡ []) ↔ (n ≡ 0)
no_blocker n text = elim (Bool-cases (ltb 0 n)) [
  | inl e ↦ rw e (λ h. absurd (listed_ne _ _ h), λ h. absurd (ground arith))
  | inr e ↦ rw e (λ h. ground arith, λ h. refl)
]

-- The dashboard lists no blocker exactly when there is a latest artifact whose status says that the pilot
-- is complete, and the status of no older one says that it is blocked.
pub dashboard-IsUnblocked_iff :
    (items : List (String × Value))
    → (provider_phase1_dashboard_blockers items ≡ []) ↔ IsUnblocked items
unfolding provider_phase1_dashboard_blockers
dashboard-IsUnblocked_iff [] = (λ h. absurd (listed_ne _ _ h), λ h. absurd h)
dashboard-IsUnblocked_iff ((sha, latest) ∷ older) =
    let (split, join) = empty_parts (provider_phase1_blockers latest) _ in
    let (unblocked, complete) = pilot_complete_iff_unblocked latest in
    let (counted, uncounted) = no_blocker (history older) _ in
    let (each, count) = none_blocked older in
    (
      λ h. let (a, b) = split h in (complete a, each (counted b)),
      λ h. join (unblocked h.0, uncounted (count h.1)),
    )
