-- ===== src/Ingest/Dashboard/Counts.antt =====
-- The loop of the dashboard counts its list, which has the entries that it is given, in their order.
use ao2_control_plane.Base.{
  ℕ, ◌+◌, ◌≡◌, refl, sym, ap, ◌∙◌, String, Bool, List, [], ◌∷◌, ◌++◌, map, append-nil, append_assoc,
  Result, ok, err, continue, string_eq, ◌==◌, length, length-append, filter, find?, arith,
}
use ao2_control_plane.Index.State.{IndexEntry, Storage}
use ao2_control_plane.Json.{Value}
use ao2_control_plane.Server.AppError.{AppError}
use ao2_control_plane.Ingest.{Outside, Method}
use ao2_control_plane.Ingest.Dashboard.{
  Summary, Tally, no_tally, summary_of, one_if, or_first, counted, read_acceptance_value,
  tally_entries,
}

abbrev pub is_of : String → Summary → Bool
is_of provider s = s.provider == provider

abbrev pub count : (Summary → Bool) → List Summary → ℕ
count p xs = length (filter p xs)

-- What the tally says of its list.
pub record IsTally (t : Tally) : Type 0 where
  pub sources : t.live_count + t.fixture_count + t.unknown_source_count ≡ length t.entries
  pub codex : t.codex_count ≡ count (is_of "codex") t.entries
  pub claude : t.claude_count ≡ count (is_of "claude") t.entries
  pub antigravity : t.antigravity_count ≡ count (is_of "antigravity") t.entries
  pub passed : t.passed_count ≡ count (λ s. s.status == "passed") t.entries
  pub latest_codex : t.latest_codex ≡ find? (is_of "codex") t.entries
  pub latest_claude : t.latest_claude ≡ find? (is_of "claude") t.entries
  pub latest_antigravity : t.latest_antigravity ≡ find? (is_of "antigravity") t.entries

count-append_one :
    (p : Summary → Bool) (xs : List Summary) (s : Summary)
    → count p (xs ++ s ∷ []) ≡ count p xs + one_if (p s)
count-append_one p [] s = ground arith
count-append_one p (x ∷ xs) s = ground (arith, count-append_one p xs s)

find-append_one :
    (p : Summary → Bool) (xs : List Summary) (s : Summary)
    → find? p (xs ++ s ∷ []) ≡ or_first (find? p xs) (p s) s
find-append_one p [] s = ground arith
find-append_one p (x ∷ xs) s = ground (arith, find-append_one p xs s)

counted-IsTally : (s : Summary) (t : Tally) → IsTally t → IsTally (counted s t)
unfolding counted
counted-IsTally s t h = record {
  sources = ground (arith, h.sources, length-append t.entries (s ∷ []));
  codex =
      ap (λ n. n + one_if (is_of "codex" s)) h.codex
      ∙ sym (count-append_one (is_of "codex") t.entries s);
  claude =
      ap (λ n. n + one_if (is_of "claude" s)) h.claude
      ∙ sym (count-append_one (is_of "claude") t.entries s);
  antigravity =
      ap (λ n. n + one_if (is_of "antigravity" s)) h.antigravity
      ∙ sym (count-append_one (is_of "antigravity") t.entries s);
  passed =
      ap (λ n. n + one_if (s.status == "passed")) h.passed
      ∙ sym (count-append_one (λ x. x.status == "passed") t.entries s);
  latest_codex =
      ap (λ o. or_first o (is_of "codex" s) s) h.latest_codex
      ∙ sym (find-append_one (is_of "codex") t.entries s);
  latest_claude =
      ap (λ o. or_first o (is_of "claude" s) s) h.latest_claude
      ∙ sym (find-append_one (is_of "claude") t.entries s);
  latest_antigravity =
      ap (λ o. or_first o (is_of "antigravity" s) s) h.latest_antigravity
      ∙ sym (find-append_one (is_of "antigravity") t.entries s);
}

abbrev pub digests : List Summary → List String
digests = map (λ s. s.sha256)

-- A tally of what was there and of the entries, one for one.
abbrev pub TallyAnswer : List IndexEntry → Tally → Result AppError Tally → Type 0
TallyAnswer es before (ok t) =
    IsTally t × (digests t.entries ≡ digests before.entries ++ map (λ e. e.sha256) es)
TallyAnswer es before (err e) = Unit

digests-append_one :
    (xs : List Summary) (s : Summary) → digests (xs ++ s ∷ []) ≡ digests xs ++ s.sha256 ∷ []
digests-append_one [] s = refl
digests-append_one (x ∷ xs) s = ap (λ l. x.sha256 ∷ l) (digests-append_one xs s)

TallyAnswer-cons :
    (e : IndexEntry) (es : List IndexEntry) (v : Value) (t : Tally) (r : Result AppError Tally)
    → TallyAnswer es (counted (summary_of e v) t) r
    → TallyAnswer (e ∷ es) t r
unfolding counted summary_of
TallyAnswer-cons e es v t (ok u) h = (
  h.0,
  h.1
      ∙ ap (λ l. l ++ map (λ x. x.sha256) es) (digests-append_one t.entries (summary_of e v))
      ∙ append_assoc (digests t.entries) (e.sha256 ∷ []) (map (λ x. x.sha256) es),
)
TallyAnswer-cons e es v t (err x) h = tt

after_read :
    (es : List IndexEntry) (before : Tally) (r : Result AppError Value) (f : Value → Method Tally)
    (s : Storage)
    → ((v : Value) (t : Storage) → TallyAnswer es before (f v t).0)
    → TallyAnswer es before (continue r f s).0
after_read es before (ok v) f s each = each v s
after_read es before (err e) f s each = tt

pub tally_entries-IsTally :
    (o : Outside) (es : List IndexEntry) (t : Tally) (s : Storage)
    → IsTally t
    → TallyAnswer es t (tally_entries o es t s).0
unfolding tally_entries
tally_entries-IsTally o [] t s h = (h, sym (append-nil (digests t.entries)))
tally_entries-IsTally o (e ∷ es) t s h =
    let (r, s') = read_acceptance_value o e.sha256 s in
    after_read (e ∷ es) t r (λ bundle. tally_entries o es (counted (summary_of e bundle) t)) s'
      (λ bundle u.
        TallyAnswer-cons e es bundle t (tally_entries o es (counted (summary_of e bundle) t) u).0 (
          tally_entries-IsTally o es (counted (summary_of e bundle) t) u
            (counted-IsTally (summary_of e bundle) t h)))

pub no_tally-IsTally : IsTally no_tally
no_tally-IsTally = record {
  sources = refl;
  codex = refl;
  claude = refl;
  antigravity = refl;
  passed = refl;
  latest_codex = refl;
  latest_claude = refl;
  latest_antigravity = refl;
}
