-- ===== src/Promotion/Gaps/Actionable.antt =====
-- Some open gap can always be worked on.
use ao2_control_plane.Base.{
  ℕ, zero, suc, ◌+◌, ◌<◌, ◌≤◌, ◌≡◌, ◌↔◌, ◌⊎◌, inl, inr, refl, ap, String, Bool, true, false, List,
  [], ◌∷◌, ◌++◌, map, string_eq, bool_eq, nat_eq, ◌==◌, if◌then◌else◌, length, filter, contains,
  sort_by-perm, sort_by-IsOrdered, IsOrdered, All, Perm, arith, Bool-cases,
}
use ao2_control_plane.Promotion.Gaps.{
  Phase1GapInputs, Phase1Gap, OperatorAction, GapReport, blocking_gap, gap_if, gate_gaps,
  candidate_gaps, collecting_gaps, open_gaps, phase1_gap_dependencies, is_empty, queue_from,
  operator_action_queue, not_after, report_of, phase1_gap_report,
}

abbrev pub ids : List Phase1Gap → List String
ids = map (λ g. g.id)

-- There is nothing to do, or something that can start.
abbrev pub CanStart : List Phase1Gap → Type 0
CanStart gaps =
    (gaps ≡ []) ⊎ (0 < length (filter (λ a. a.ready_to_start) (operator_action_queue gaps)))

gate-CanStart :
    (b : Bool) (e n e' n' : String)
    → CanStart (blocking_gap "release_gate" e n ∷ gap_if b (blocking_gap "three_os_smoke" e' n'))
unfolding operator_action_queue string_eq
gate-CanStart true e n e' n' = inr (omega arith)
gate-CanStart false e n e' n' = inr (omega arith)

candidate-CanStart : (e n : String) → CanStart (blocking_gap "signed_promotion_decision" e n ∷ [])
unfolding operator_action_queue string_eq
candidate-CanStart e n = inr (omega arith)

collecting-CanStart :
    (b c d : Bool) (e n e' n' e'' n'' : String)
    → CanStart (
        gap_if b (blocking_gap "provider_readiness" e n)
        ++ (gap_if c (blocking_gap "live_provider_acceptance" e' n')
            ++ gap_if d (blocking_gap "phase1_promotion_checklist" e'' n'')))
unfolding operator_action_queue string_eq
collecting-CanStart true true true e n e' n' e'' n'' = inr (omega arith)
collecting-CanStart true true false e n e' n' e'' n'' = inr (omega arith)
collecting-CanStart true false true e n e' n' e'' n'' = inr (omega arith)
collecting-CanStart true false false e n e' n' e'' n'' = inr (omega arith)
collecting-CanStart false true true e n e' n' e'' n'' = inr (omega arith)
collecting-CanStart false true false e n e' n' e'' n'' = inr (omega arith)
collecting-CanStart false false true e n e' n' e'' n'' = inr (omega arith)
collecting-CanStart false false false e n e' n' e'' n'' = inl refl

choose-CanStart :
    (b : Bool) (xs ys : List Phase1Gap)
    → CanStart xs
    → CanStart ys
    → CanStart (if b then xs else ys)
choose-CanStart true xs ys p q = p
choose-CanStart false xs ys p q = q

open_gaps-CanStart : (i : Phase1GapInputs) → CanStart (open_gaps i)
unfolding open_gaps gate_gaps candidate_gaps collecting_gaps
open_gaps-CanStart i =
    choose-CanStart (i.state == "release_gate_ready") _ _ (gate-CanStart _ _ _ _ _) (
      choose-CanStart (i.state == "release_candidate_observed") _ _ (candidate-CanStart _ _) (
        choose-CanStart (i.state == "promotion_decision_observed") _ _ (inl refl)
          (collecting-CanStart _ _ _ _ _ _ _ _ _)))

abbrev pub one_to : ℕ → ℕ → List ℕ
one_to start zero = []
one_to start (suc n) = (start + 1) ∷ one_to (start + 1) n

-- An action can start exactly when nothing that it depends on is an open gap.
abbrev pub StartsWhenFree : List String → OperatorAction → Type 0
StartsWhenFree open_ids a =
    (a.ready_to_start ≡ true) ↔ All (λ d. contains open_ids d ≡ false) a.depends_on

free_iff :
    (open_ids ds : List String)
    → (is_empty (filter (contains open_ids) ds) ≡ true) ↔ All (λ d. contains open_ids d ≡ false) ds
free_iff open_ids [] = (λ h. tt, λ h. refl)
free_iff open_ids (d ∷ ds) = elim (Bool-cases (contains open_ids d)) [
  | inl there ↦ rw there (λ h. cc, λ h. cc (h.0))
  | inr free ↦ let (to, from) = free_iff open_ids ds in rw free (λ h. (refl, to h), λ h. from h.1)
]

module _ (open_ids : List String) where
  queue-ids :
      (index : ℕ) (gaps : List Phase1Gap)
      → map (λ a. a.id) (queue_from open_ids index gaps) ≡ ids gaps
  unfolding queue_from
  queue-ids index [] = refl
  queue-ids index (g ∷ gaps) = ap (λ l. g.id ∷ l) (queue-ids (index + 1) gaps)

  queue-orders :
      (index : ℕ) (gaps : List Phase1Gap)
      → map (λ a. a.action_order) (queue_from open_ids index gaps) ≡ one_to index (length gaps)
  unfolding queue_from
  queue-orders index [] = refl
  queue-orders index (g ∷ gaps) = ap (λ l. (index + 1) ∷ l) (queue-orders (index + 1) gaps)

  queue-StartsWhenFree :
      (index : ℕ) (gaps : List Phase1Gap)
      → All (StartsWhenFree open_ids) (queue_from open_ids index gaps)
  unfolding queue_from
  queue-StartsWhenFree index [] = tt
  queue-StartsWhenFree index (g ∷ gaps) =
      (free_iff open_ids (phase1_gap_dependencies g.id), queue-StartsWhenFree (index + 1) gaps)

abbrev pub rank : OperatorAction → ℕ
rank a = if a.ready_to_start then 0 else 1

-- What can start stands before what cannot.
abbrev pub NotLater : OperatorAction → OperatorAction → Type 0
NotLater a b = rank a ≤ rank b

not_after-NotLater : (a b : OperatorAction) → not_after a b ≡ true → NotLater a b
unfolding not_after
not_after-NotLater a b h = ground arith

after-NotLater : (a b : OperatorAction) → not_after a b ≡ false → NotLater b a
unfolding not_after
after-NotLater a b h = ground arith

-- What the report says to the operator.
pub record IsActionable (r : GapReport) : Type 0 where
  pub total : r.total_open_gaps ≡ length r.blocking_gaps
  pub queue : map (λ a. a.id) r.operator_action_queue ≡ ids r.blocking_gaps
  pub numbered : map (λ a. a.action_order) r.operator_action_queue ≡ one_to 0 r.total_open_gaps
  pub free : All (StartsWhenFree (ids r.blocking_gaps)) r.operator_action_queue
  pub path : Perm r.critical_path r.operator_action_queue
  pub ready_first : IsOrdered NotLater r.critical_path
  pub can_start : (r.total_open_gaps ≡ 0) ⊎ (0 < r.ready_to_start_actions)

CanStart-report :
    (i : Phase1GapInputs) (gaps : List Phase1Gap)
    → CanStart gaps
    → ((report_of i gaps (operator_action_queue gaps)).total_open_gaps ≡ 0)
      ⊎ (0 < (report_of i gaps (operator_action_queue gaps)).ready_to_start_actions)
CanStart-report i gaps (inl none') = inl (ap length none')
CanStart-report i gaps (inr some') = inr some'

-- The queue of a gap report has one action for each open gap, numbered from 1 in the order of the
-- gaps; an action can start exactly when nothing that it depends on is an open gap, and some
-- action can start unless no gap is open. The critical path is a rearrangement of the queue in which
-- what can start comes before what cannot.
pub phase1_gap_report-IsActionable : (i : Phase1GapInputs) → IsActionable (phase1_gap_report i)
unfolding phase1_gap_report
phase1_gap_report-IsActionable i =
    let gaps = open_gaps i in
    let open_ids = ids gaps in
    record {
      total = refl;
      queue = unfold operator_action_queue in queue-ids open_ids 0 gaps;
      numbered = unfold operator_action_queue in queue-orders open_ids 0 gaps;
      free = unfold operator_action_queue in queue-StartsWhenFree open_ids 0 gaps;
      path = sort_by-perm not_after (operator_action_queue gaps);
      ready_first =
          sort_by-IsOrdered not_after NotLater (λ a b c p q. omega arith) not_after-NotLater
            after-NotLater (operator_action_queue gaps);
      can_start = CanStart-report i gaps (open_gaps-CanStart i);
    }
