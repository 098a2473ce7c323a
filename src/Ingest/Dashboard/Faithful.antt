-- ===== src/Ingest/Dashboard/Faithful.antt =====
-- What the dashboard of the acceptances says of its list and of phase 1.
use ao2_control_plane.Base.{
  ℕ, ◌≤◌, ◌≡◌, ◌↔◌, refl, ap, min, String, Bool, true, false, ◌&&◌, List, map, Option, none, some,
  Result, ok, err, continue, string_eq, ◌==◌, if◌then◌else◌, length, filter, find?, take, drop,
  sort_by, arith,
}
use mathlib.Core.Path.{subst}
use ao2_control_plane.Base.Text.{string_eq_iff}
use ao2_control_plane.Index.State.{IndexEntry, Storage}
use ao2_control_plane.Index.{read_all}
use ao2_control_plane.Server.AppError.{AppError}
use ao2_control_plane.Ingest.{Outside, Method, on_index}
use ao2_control_plane.Ingest.Acceptance.{ListQuery, selected, latest_first}
use ao2_control_plane.Ingest.Dashboard.{
  Summary, Tally, no_tally, scores, live_acceptance_ready, provider_acceptance_phase1_status,
  AcceptanceDashboard, dashboard_of, tally_entries, acceptance_dashboard_value,
}
use ao2_control_plane.Ingest.Dashboard.Counts.{
  is_of, IsTally, digests, TallyAnswer, tally_entries-IsTally, no_tally-IsTally,
}

abbrev pub Reaches : Option ℕ → Option ℕ → Type 0
Reaches none minimum = ⊥
Reaches (some score) none = 90 ≤ score
Reaches (some score) (some minimum) = minimum ≤ score

-- An acceptance that passed live, with a score that reaches its minimum, or 90 if it states none.
abbrev pub IsLive : Option Summary → Type 0
IsLive none = ⊥
IsLive (some s) =
    (s.status ≡ "passed") × (s.source_class ≡ "live") × Reaches s.score s.minimum_score

scores-Reaches : (score minimum : Option ℕ) → (scores score minimum ≡ true) ↔ Reaches score minimum
scores-Reaches none minimum = ground arith
scores-Reaches (some score) none = ground arith
scores-Reaches (some score) (some minimum) = ground arith

live_acceptance_ready-IsLive : (m : Option Summary) → (live_acceptance_ready m ≡ true) ↔ IsLive m
unfolding live_acceptance_ready
live_acceptance_ready-IsLive none = ground arith
live_acceptance_ready-IsLive (some s) =
    let r = scores-Reaches s.score s.minimum_score in
    let passed = string_eq_iff s.status "passed" in
    let live = string_eq_iff s.source_class "live" in
    (
      λ h. (passed.0 (ground arith), live.0 (ground arith), r.0 (ground arith)),
      λ h. ground (arith, passed.1 h.0, live.1 h.1, r.1 h.2),
    )

abbrev state_of : Bool → String
state_of b = if b then "live_acceptance_complete" else "blocked"

-- The state says whether both are ready.
state-ready : (b : Bool) → (state_of b ≡ "live_acceptance_complete") ↔ (b ≡ true)
unfolding string_eq
state-ready true = (λ h. refl, λ h. refl)
state-ready false = (λ h. ap (λ (s : String). s == "live_acceptance_complete") h, λ h. ground arith)

both : (a b : Bool) → ((a && b) ≡ true) ↔ ((a ≡ true) × (b ≡ true))
both a b = ground arith

status-IsLive :
    (codex claude antigravity : Option Summary)
    → ((provider_acceptance_phase1_status codex claude antigravity).state
        ≡ "live_acceptance_complete")
      ↔ (IsLive codex × IsLive claude)
unfolding provider_acceptance_phase1_status
status-IsLive codex claude antigravity =
    let s = state-ready (live_acceptance_ready codex && live_acceptance_ready claude) in
    let j = both (live_acceptance_ready codex) (live_acceptance_ready claude) in
    let x = live_acceptance_ready-IsLive codex in
    let y = live_acceptance_ready-IsLive claude in
    (λ h. (x.0 (j.0 (s.0 h)).0, y.0 (j.0 (s.0 h)).1), λ h. s.1 (j.1 (x.1 h.0, y.1 h.1)))

-- What the dashboard says of its list: the tally is right, and the state is complete exactly when the
-- first entries of Codex and of Claude in the list are live.
pub record IsFaithful (d : AcceptanceDashboard) : Type 0 where
  pub tally : IsTally d.tally
  pub complete : (d.phase1_acceptance.state ≡ "live_acceptance_complete") ↔ (
      IsLive (find? (is_of "codex") d.tally.entries)
      × IsLive (find? (is_of "claude") d.tally.entries))

dashboard_of-IsFaithful :
    (total : ℕ) (q : ListQuery) (t : Tally) → IsTally t → IsFaithful (dashboard_of total q t)
dashboard_of-IsFaithful total q t h = record {
  tally = h;
  complete =
      subst
        (λ (x : Option Summary).
          ((dashboard_of total q t).phase1_acceptance.state ≡ "live_acceptance_complete")
          ↔ (IsLive x × IsLive (find? (is_of "claude") t.entries)))
        h.latest_codex
        (subst
          (λ (x : Option Summary).
            ((dashboard_of total q t).phase1_acceptance.state ≡ "live_acceptance_complete")
            ↔ (IsLive t.latest_codex × IsLive x))
          h.latest_claude (status-IsLive t.latest_codex t.latest_claude t.latest_antigravity));
}

-- The page of the query, of the entries that the index gave.
abbrev pub page : ListQuery → List IndexEntry → List IndexEntry
page q all = take (min q.limit 500) (drop q.offset (sort_by latest_first (filter (selected q) all)))

-- The list is the page, entry for entry, and the total counts all that the query selects.
abbrev pub Lists : ListQuery → Result AppError (List IndexEntry) → AcceptanceDashboard → Type 0
Lists q (ok all) d =
    (d.total_count ≡ length (filter (selected q) all))
    × (digests d.tally.entries ≡ map (λ e. e.sha256) (page q all))
Lists q (err e) d = ⊥

abbrev pub FaithfulAnswer :
    ListQuery → Result AppError (List IndexEntry) → Result AppError AcceptanceDashboard → Type 0
FaithfulAnswer q read (ok d) = IsFaithful d × Lists q read d
FaithfulAnswer q read (err e) = Unit

after_tally :
    (all : List IndexEntry) (q : ListQuery) (r : Result AppError Tally) (s : Storage)
    → TallyAnswer (page q all) no_tally r
    → FaithfulAnswer q
        (ok all)
        (continue r (λ t u. (ok (dashboard_of (length (filter (selected q) all)) q t), u)) s).0
after_tally all q (ok t) s h =
    (dashboard_of-IsFaithful (length (filter (selected q) all)) q t h.0, (refl, h.1))
after_tally all q (err e) s h = tt

after_entries :
    (q : ListQuery) (r : Result AppError (List IndexEntry))
    (f : List IndexEntry → Method AcceptanceDashboard) (s : Storage)
    → ((es : List IndexEntry) (t : Storage) → FaithfulAnswer q (ok es) (f es t).0)
    → FaithfulAnswer q r (continue r f s).0
after_entries q (ok es) f s each = each es s
after_entries q (err e) f s each = tt

-- A dashboard that the server answers with lists, entry for entry, the page of what the query selects
-- in the index, counts all of it, and counts each listed entry for one source class; the counts by
-- provider and of what passed are those of the list, the latest entry of a provider is its first one in
-- the list, and the phase 1 acceptance is complete exactly when those of Codex and of Claude are there,
-- passed, live, and score at least their minimum, or 90 if they state none.
pub acceptance_dashboard-IsFaithful :
    (o : Outside) (q : ListQuery) (s : Storage)
    → FaithfulAnswer q (on_index o (read_all o.codec) s).0 (acceptance_dashboard_value o q s).0
unfolding acceptance_dashboard_value
acceptance_dashboard-IsFaithful o q s =
    let (r, t) = on_index o (read_all o.codec) s in
    after_entries q r _ t (λ all u.
      let (m, v) = tally_entries o (page q all) no_tally u in
      after_tally all q m v (tally_entries-IsTally o (page q all) no_tally u no_tally-IsTally))
