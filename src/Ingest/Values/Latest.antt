-- ===== src/Ingest/Values/Latest.antt =====
-- Which document `latest_entry_value` finds.
use ao2_control_plane.Base.{
  ◌≡◌, ◌≤◌, refl, sym, ap, ◌∙◌, String, List, [], ◌∷◌, Option, none, some, Result, ok, err,
  continue, continue-ok, ok_injective, filter, string_eq, ◌==◌, All, Perm, IsOrdered, length, arith,
  sort_by, sort_by-perm, sort_by-IsOrdered, length-sort_by,
}
use mathlib.Core.Path.{subst}
use ao2_control_plane.Bundle.Kind.{BundleKind}
use ao2_control_plane.Index.State.{IndexEntry, Storage}
use ao2_control_plane.Index.{read_all}
use ao2_control_plane.Index.Page.{NotBefore}
use ao2_control_plane.Json.{Value}
use ao2_control_plane.Ingest.{Outside, on_index}
use ao2_control_plane.Ingest.Acceptance.{latest_first}
use ao2_control_plane.Ingest.Values.{
  first, entries_of, read_value, value_of_first, latest_entry_value,
}

-- No entry of the schema, or one of them such that all others were taken in no later.
abbrev pub IsNewest : String → List IndexEntry → Option IndexEntry → Type 0
IsNewest schema all none = filter (λ (x : IndexEntry). x.schema == schema) all ≡ []
IsNewest schema all (some e) =
    (others : List IndexEntry) × Perm (e ∷ others)
      (filter (λ (x : IndexEntry). x.schema == schema) all)
    × All (λ x. x.ingested_at ≤ e.ingested_at) others

empty_of_length : (xs : List IndexEntry) → length {A = IndexEntry} [] ≡ length xs → xs ≡ []
empty_of_length [] h = refl
empty_of_length (x ∷ xs) h = absurd (omega arith)

first-IsNewest :
    (schema : String) (all es : List IndexEntry)
    → Perm es (filter (λ (x : IndexEntry). x.schema == schema) all)
    → length es ≡ length (filter (λ (x : IndexEntry). x.schema == schema) all)
    → IsOrdered NotBefore es
    → IsNewest schema all (first es)
first-IsNewest schema all [] same long ordered = empty_of_length _ long
first-IsNewest schema all (e ∷ es) same long ordered = (es, same, ordered.0)

sorted-IsNewest :
    (schema : String) (all : List IndexEntry)
    → IsNewest schema all
        (first (sort_by latest_first (filter (λ (x : IndexEntry). x.schema == schema) all)))
sorted-IsNewest schema all =
    let those = filter (λ (x : IndexEntry). x.schema == schema) all in
    first-IsNewest schema all (sort_by latest_first those) (sort_by-perm latest_first those)
      (length-sort_by latest_first those)
      (sort_by-IsOrdered latest_first NotBefore (λ x y z p q. omega arith) (λ x y h. ground arith)
        (λ x y h. ground arith) those)

module _ {E A B : Type 0} where
  continue-state :
      (r : Result E A) (g : A → Result E B) (s : Storage) → (continue r (λ a t. (g a, t)) s).1 ≡ s
  continue-state (ok a) g s = refl
  continue-state (err e) g s = refl

module _ (o : Outside) (kind : BundleKind) (schema : String) where
  -- The newest entry of the schema in the index, and the JSON of its bundle.
  abbrev pub IsLatest : Storage → Option (IndexEntry × Value) → Type 0
  IsLatest s none =
      (all : List IndexEntry) × ((on_index o (read_all o.codec) s).0 ≡ ok all)
      × IsNewest schema all none
  IsLatest s (some (e, v)) =
      (all : List IndexEntry) × ((on_index o (read_all o.codec) s).0 ≡ ok all)
      × IsNewest schema all (some e)
      × ((read_value o kind e.sha256 (on_index o (read_all o.codec) s).1).0 ≡ ok v)

  value-IsLatest :
      (s : Storage) (all : List IndexEntry) (m : Option IndexEntry)
      (found : Option (IndexEntry × Value))
      → (on_index o (read_all o.codec) s).0 ≡ ok all
      → IsNewest schema all m
      → (value_of_first o kind m (on_index o (read_all o.codec) s).1).0 ≡ ok found
      → IsLatest s found
  value-IsLatest s all none found is_all newest h =
      subst (IsLatest s) (ok_injective none found h) (all, is_all, newest)
  value-IsLatest s all (some e) found is_all newest h =
      let t = (on_index o (read_all o.codec) s).1 in
      let (v, reads, h₁) =
        continue-ok (read_value o kind e.sha256 t).0 _ (read_value o kind e.sha256 t).1 found h in
      subst (IsLatest s) (ok_injective (some (e, v)) found h₁) (all, is_all, newest, reads)

  pub latest_entry_value-IsLatest :
      (s : Storage) (found : Option (IndexEntry × Value))
      → (latest_entry_value o kind schema s).0 ≡ ok found
      → IsLatest s found
  unfolding latest_entry_value entries_of
  latest_entry_value-IsLatest s found h =
      let (m, t) = on_index o (read_all o.codec) s in
      let sorted : List IndexEntry → List IndexEntry =
        λ all. sort_by latest_first (filter (λ (x : IndexEntry). x.schema == schema) all) in
      let (es, e₁, h₁) =
        continue-ok (continue m (λ all u. (ok (sorted all), u)) t).0
          (λ es. value_of_first o kind (first es)) (continue m (λ all u. (ok (sorted all), u)) t).1
          found h in
      let (all, is_all, e₂) = continue-ok m (λ all u. (ok (sorted all), u)) t es e₁ in
      value-IsLatest s all (first (sorted all)) found is_all (sorted-IsNewest schema all) (
        ap (λ (xs : List IndexEntry). (value_of_first o kind (first xs) t).0)
          (ok_injective (sorted all) es e₂)
        ∙ ap (λ (u : Storage). (value_of_first o kind (first es) u).0)
            (sym (continue-state m (λ all. ok (sorted all)) t))
        ∙ h₁)
