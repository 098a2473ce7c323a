-- ===== src/Ingest/Pages.antt =====
-- The pages of the listings.
use ao2_control_plane.Base.{
  ◌≤◌, ◌-◌, ◌≡◌, refl, sym, ◌∙◌, min, String, true, false, List, map, length, take, drop, filter,
  sort_by, sort_by-perm, length-sort_by, length-take, length-drop, length-map, IsOrdered, Perm,
  take_all, take-IsOrdered, drop-IsOrdered, map-IsOrdered, sort_by-IsOrdered, string_eq, ◌==◌,
  arith, if◌then◌else◌,
}
use native.Mathlib.Nat.{le_trans}
use mathlib.Core.List.Perm
use mathlib.Core.Path.{subst}
use ao2_control_plane.Index.State.{IndexEntry}
use ao2_control_plane.Schema.Responses.{BundleListEntry, BundleListResponse}
use ao2_control_plane.Ingest.Acceptance.{passes_since, latest_first}
use ao2_control_plane.Ingest.ControlPlane.{ListQuery, bundle_page, listed}

abbrev NotBefore : IndexEntry → IndexEntry → Type 0
NotBefore x y = y.ingested_at ≤ x.ingested_at

latest_first-true : (x y : IndexEntry) → latest_first x y ≡ true → NotBefore x y
latest_first-true x y h = ground arith

latest_first-false : (x y : IndexEntry) → latest_first x y ≡ false → NotBefore y x
latest_first-false x y h = ground arith

-- The entries of one schema, from an instant on.
abbrev pub wanted : String → ListQuery → List IndexEntry → List IndexEntry
wanted schema q =
    filter (λ (e : IndexEntry). if e.schema == schema then passes_since q.since e else false)

-- What a page shows of the index.
pub record IsPage (schema : String) (q : ListQuery) (all : List IndexEntry) (p : BundleListResponse)
    : Type 0 where
  pub total : p.total_count ≡ length (wanted schema q all)
  pub size : length p.entries ≡ min (min q.limit 500) (p.total_count - q.offset)
  pub bounded : length p.entries ≤ 500
  pub newest_first : IsOrdered (λ (x y : BundleListEntry). y.ingested_at ≤ x.ingested_at) p.entries
  pub complete :
      length (wanted schema q all) ≤ 500
      → Perm
          (bundle_page "" schema (record q { limit = 500; offset = 0 }) all).entries
          (map listed (wanted schema q all))

-- The page of memory exports or of bundles counts the entries of the schema from the instant that was
-- asked for, is as long as the limit and the offset leave, never longer than 500, and stands newest
-- first; at most 500 entries are all shown by the request for them.
pub bundle_page-IsPage :
    (name schema : String) (q : ListQuery) (all : List IndexEntry)
    → IsPage schema q all (bundle_page name schema q all)
unfolding bundle_page
bundle_page-IsPage name schema q all =
    let found = wanted schema q all in
    let sorted = sort_by latest_first found in
    let limit = min q.limit 500 in
    let shown = take limit (drop q.offset sorted) in
    let size : length (map listed shown) ≡ min limit (length sorted - q.offset) =
      length-map listed shown ∙ rw (length-take, length-drop) refl in
    record {
      total = length-sort_by latest_first found;
      size = size;
      bounded = omega (arith, size);
      newest_first =
          map-IsOrdered listed (λ (x y : BundleListEntry). y.ingested_at ≤ x.ingested_at) shown
            (take-IsOrdered NotBefore limit (drop q.offset sorted) (
              drop-IsOrdered NotBefore q.offset sorted (
                sort_by-IsOrdered latest_first NotBefore (λ x y z p q. le_trans q p)
                  latest_first-true latest_first-false found)));
      complete = λ few.
          subst (λ (xs : List IndexEntry). Perm (map listed xs) (map listed found))
            (sym (take_all 500 sorted (omega (arith, few, length-sort_by latest_first found))))
            (Perm.map listed (sort_by-perm latest_first found));
    }
