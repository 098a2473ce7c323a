-- ===== src/Retention/Keeps.antt =====
-- Which entries a pruning keeps: of each kind the latest, as many as the policy says.
use mathlib.Core.List.Perm
use mathlib.Core.Path.{subst, ap₂}
use ao2_control_plane.Base.{
  ◌≡◌, ◌≢◌, refl, ap, ◌∙◌, sym, String, Bool, true, false, not, List, [], ◌∷◌, ◌++◌, map, contains,
  string_eq, filter, any, take, drop, All, arith, Perm, filter-append, filter-filter,
  filter-eq_self, filter-eq-nil, take-append-drop, sort_by-All, take-All, All-map, append-nil, leb,
  IsOrdered, sort_by-IsOrdered, sort_by-perm,
}
use ao2_control_plane.Disk.{Host}
use ao2_control_plane.Bundle.Kind.{BundleKind, kind_eq, all_prunable_primary_kinds}
use ao2_control_plane.Index.State.{IndexEntry}
use ao2_control_plane.Index.Coherence.{shas}
use ao2_control_plane.Index.Page.{NotBefore}
use ao2_control_plane.Retention.{
  RetentionPolicy, RetentionCandidate, is_kind, latest_of, candidate, candidates_for, gather,
  retention_candidates, retained,
}
use ao2_control_plane.Retention.Digests.{
  IsDistinct, contains-append, contains-sort_by, sort_by-IsDistinct, filter-sort_by,
  filter-IsDistinct, Absent, append-Absent, filter-Absent, contains-drop_of_false, contains_self,
  sha_of,
}

abbrev key : RetentionCandidate → String
key c = c.sha256

map-append-key : (cs ds : List RetentionCandidate) → map key (cs ++ ds) ≡ map key cs ++ map key ds
map-append-key [] ds = refl
map-append-key (c ∷ cs) ds = ap (λ (l : List String). c.sha256 ∷ l) (map-append-key cs ds)

digests-candidates_for :
    (kind : BundleKind) (es : List IndexEntry) (h : Host)
    → map key (candidates_for kind es h).0 ≡ shas es
unfolding candidates_for candidate
digests-candidates_for kind [] h = refl
digests-candidates_for kind (e ∷ es) h =
    ap (λ (l : List String). e.sha256 ∷ l) (digests-candidates_for kind es (candidate kind e h).1)

module _ (entries : List IndexEntry) (policy : RetentionPolicy) where
  -- The entries of a kind that are not among its latest.
  abbrev pub surplus : BundleKind → List IndexEntry
  surplus kind = drop policy.keep_latest (latest_of kind entries)

  contains-gather :
      (kinds : List BundleKind) (h : Host) (s : String)
      → contains (map key (gather kinds entries policy h).0) s
        ≡ any (λ kind. contains (shas (surplus kind)) s) kinds
  unfolding gather
  contains-gather [] h s = refl
  contains-gather (kind ∷ kinds) h s =
      let (cs, h₁) = candidates_for kind (surplus kind) h in
      rw (
        map-append-key cs (gather kinds entries policy h₁).0,
        contains-append (map key cs),
        digests-candidates_for kind (surplus kind) h,
        contains-gather kinds h₁ s,
      )

  -- A digest is that of a candidate exactly if it is that of a surplus entry of some kind.
  pub contains-retention_candidates :
      (h : Host) (s : String)
      → contains (map key (retention_candidates entries policy h).0) s
        ≡ any (λ kind. contains (shas (surplus kind)) s) all_prunable_primary_kinds
  unfolding retention_candidates
  contains-retention_candidates h s =
      contains-sort_by key (λ a b. leb a.ingested_at b.ingested_at)
        (gather all_prunable_primary_kinds entries policy h).0 s
      ∙ contains-gather all_prunable_primary_kinds h s

any_of_contains :
    (f : BundleKind → Bool) (kinds : List BundleKind) (kind : BundleKind)
    → contains kinds kind ≡ true
    → f kind ≡ true
    → any f kinds ≡ true
any_of_contains f [] kind h t = h
any_of_contains f (k ∷ kinds) kind h t = ground (arith, any_of_contains f kinds kind)

is_kind_apart :
    (j k : BundleKind) → j ≢ k → (e : IndexEntry) → is_kind j e ≡ true → is_kind k e ≡ false
unfolding is_kind
is_kind_apart j k ne e h = ground arith

module _ (entries : List IndexEntry) (policy : RetentionPolicy)
    (distinct : IsDistinct (shas entries)) (kind : BundleKind) where
  abbrev kept : List IndexEntry
  kept = take policy.keep_latest (latest_of kind entries)

  latest_of-IsDistinct : (k : BundleKind) → IsDistinct (shas (latest_of k entries))
  unfolding latest_of
  latest_of-IsDistinct k =
      sort_by-IsDistinct _ (filter (is_kind k) entries)
        (filter-IsDistinct (is_kind k) entries distinct)

  kept-Absent_self : All (Absent (surplus entries policy kind)) kept
  kept-Absent_self = append-Absent kept (surplus entries policy kind) (
      rw (take-append-drop policy.keep_latest (latest_of kind entries)) (latest_of-IsDistinct kind))

  kept-Absent_other : (k : BundleKind) → kind ≢ k → All (Absent (surplus entries policy k)) kept
  unfolding latest_of
  kept-Absent_other k ne =
      let apart =
        filter-Absent (is_kind kind) (is_kind k) entries (is_kind_apart kind k ne) distinct in
      take-All (Absent (surplus entries policy k)) policy.keep_latest (latest_of kind entries) (
        sort_by-All _ (Absent (surplus entries policy k)) (filter (is_kind kind) entries) (
          All-map (filter (is_kind kind) entries)
            (λ x h.
              contains-drop_of_false policy.keep_latest (latest_of k entries) x.sha256
                (contains-sort_by sha_of _ (filter (is_kind k) entries) x.sha256 ∙ h))
            apart))

  kept-Absent : (k : BundleKind) → All (Absent (surplus entries policy k)) kept
  kept-Absent k = elim (kind_eq.dec kind k) [
    | yes same ↦
        subst (λ (j : BundleKind). All (Absent (surplus entries policy j)) kept) same
          kept-Absent_self
    | no other ↦ kept-Absent_other k other
  ]

  kept_unpruned :
      (kinds : List BundleKind)
      → All (λ x. any (λ k. contains (shas (surplus entries policy k)) x.sha256) kinds ≡ false) kept
  kept_unpruned [] = All-map kept (λ x h. refl) (kept-Absent kind)
  kept_unpruned (k ∷ kinds) = both kept (kept-Absent k) (kept_unpruned kinds)
    where
      both :
          (xs : List IndexEntry)
          → All (Absent (surplus entries policy k)) xs
          → All
              (λ x. any (λ j. contains (shas (surplus entries policy j)) x.sha256) kinds ≡ false)
              xs
          → All
              (λ x.
                any (λ j. contains (shas (surplus entries policy j)) x.sha256) (k ∷ kinds) ≡ false)
              xs
      both [] p q = tt
      both (x ∷ xs) p q = (ground arith, both xs p.1 q.1)

-- What is retained of a kind.
retained-latest_of :
    (entries : List IndexEntry) (policy : RetentionPolicy) (kind : BundleKind) (h : Host)
    → IsDistinct (shas entries)
    → contains all_prunable_primary_kinds kind ≡ true
    → Perm
        (filter (is_kind kind) (retained (retention_candidates entries policy h).0 entries))
        (take policy.keep_latest (latest_of kind entries))
unfolding retained
retained-latest_of entries policy kind h distinct prunable =
    let cs = (retention_candidates entries policy h).0 in
    let unpruned = λ (e : IndexEntry). not (contains (map key cs) e.sha256) in
    let kept' = take policy.keep_latest (latest_of kind entries) in
    let rest = surplus entries policy kind in
    let stays : filter unpruned kept' ≡ kept' = filter-eq_self unpruned kept' (
      All-map kept' (λ x e. ap not (contains-retention_candidates entries policy h x.sha256 ∙ e))
        (kept_unpruned entries policy distinct kind all_prunable_primary_kinds)) in
    let goes : filter unpruned rest ≡ [] = filter-eq-nil unpruned rest (
      All-map rest
        (λ x e. ap not (
          contains-retention_candidates entries policy h x.sha256
          ∙ any_of_contains (λ k. contains (shas (surplus entries policy k)) x.sha256)
              all_prunable_primary_kinds kind prunable e))
        (contains_self rest)) in
    let split : filter unpruned (latest_of kind entries) ≡ kept' =
      ap (filter unpruned) (sym (take-append-drop policy.keep_latest (latest_of kind entries)))
      ∙ filter-append unpruned kept' rest
      ∙ ap₂ (λ (a b : List IndexEntry). a ++ b) stays goes
      ∙ append-nil kept' in
    rw (filter-filter (is_kind kind) unpruned entries, ← split)
      (Perm.symm (unfold latest_of in filter-sort_by _ unpruned (filter (is_kind kind) entries)))

latest_of-IsOrdered :
    (kind : BundleKind) (entries : List IndexEntry) → IsOrdered NotBefore (latest_of kind entries)
unfolding latest_of
latest_of-IsOrdered kind entries =
    sort_by-IsOrdered (λ a b. leb b.ingested_at a.ingested_at) NotBefore (λ x y z p q. omega arith)
      (λ x y h. ground arith) (λ x y h. ground arith) (filter (is_kind kind) entries)

pub kept_latest :
    (entries : List IndexEntry) (policy : RetentionPolicy) (kind : BundleKind) (h : Host)
    → IsDistinct (shas entries)
    → contains all_prunable_primary_kinds kind ≡ true
    → Perm
        (filter (is_kind kind) (retained (retention_candidates entries policy h).0 entries))
        (take policy.keep_latest (latest_of kind entries))
      × IsOrdered NotBefore (latest_of kind entries)
      × Perm (latest_of kind entries) (filter (is_kind kind) entries)
kept_latest entries policy kind h distinct prunable = (
  retained-latest_of entries policy kind h distinct prunable,
  latest_of-IsOrdered kind entries,
  unfold latest_of in sort_by-perm _ (filter (is_kind kind) entries),
)
