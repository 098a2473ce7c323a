-- ===== src/Retention/Digests.antt =====
-- Digests of entries that are filtered, sorted, or cut in two.
use ao2_control_plane.Base.{
  ℕ, zero, suc, drop, ◌≡◌, refl, ap, ◌∙◌, sym, String, Bool, true, false, ◌||◌, List, [], ◌∷◌, ◌++◌,
  map, contains, string_eq, ◌==◌, if◌then◌else◌, filter, sort_by, insert_by, All, arith, Bool-cases,
  inl, inr, Perm,
}
use mathlib.Core.List.Perm
use mathlib.Core.Path.{subst}
use ao2_control_plane.Index.State.{IndexEntry}
use ao2_control_plane.Index.Coherence.{shas}

-- No digest stands twice.
abbrev pub IsDistinct : List String → Type 0
IsDistinct [] = Unit
IsDistinct (s ∷ ss) = (contains ss s ≡ false) × IsDistinct ss

pub contains-append :
    (xs ys : List String) (s : String) → contains (xs ++ ys) s ≡ (contains xs s || contains ys s)
contains-append [] ys s = refl
contains-append (x ∷ xs) ys s = ground (arith, contains-append xs ys s)

pub shas-append : (xs ys : List IndexEntry) → shas (xs ++ ys) ≡ shas xs ++ shas ys
shas-append [] ys = refl
shas-append (x ∷ xs) ys = ap (λ (l : List String). x.sha256 ∷ l) (shas-append xs ys)

-- An item that is kept or not, beside another such item or alone.
pass_by :
    (px py : Bool) (x y : IndexEntry) {rs : List IndexEntry} (ss : List IndexEntry)
    → Perm rs (if px then x ∷ ss else ss)
    → Perm
        (if py then y ∷ rs else rs)
        (if px then x ∷ (if py then y ∷ ss else ss) else (if py then y ∷ ss else ss))
pass_by true true x y ss h = Perm.trans (Perm.cons y h) (Perm.swap x y ss)
pass_by true false x y ss h = h
pass_by false true x y ss h = Perm.cons y h
pass_by false false x y ss h = h

keep :
    (px : Bool) (x : IndexEntry) {rs ss : List IndexEntry}
    → Perm rs ss
    → Perm (if px then x ∷ rs else rs) (if px then x ∷ ss else ss)
keep true x h = Perm.cons x h
keep false x h = h

module _ {ℓ} {A : Type ℓ} (key : A → String) (le : A → A → Bool) where
  pub contains-insert_by :
      (x : A) (ys : List A) (s : String)
      → contains (map key (insert_by le x ys)) s ≡ (key x == s || contains (map key ys) s)
  unfolding insert_by
  contains-insert_by x [] s = refl
  contains-insert_by x (y ∷ ys) s = ground (arith, contains-insert_by x ys s)

  pub contains-sort_by :
      (xs : List A) (s : String) → contains (map key (sort_by le xs)) s ≡ contains (map key xs) s
  unfolding sort_by
  contains-sort_by [] s = refl
  contains-sort_by (x ∷ xs) s =
      ground (arith, contains-insert_by x (sort_by le xs) s, contains-sort_by xs s)

abbrev pub sha_of : IndexEntry → String
sha_of e = e.sha256

module _ (le : IndexEntry → IndexEntry → Bool) where
  insert_by-IsDistinct :
      (x : IndexEntry) (ys : List IndexEntry)
      → contains (shas ys) x.sha256 ≡ false
      → IsDistinct (shas ys)
      → IsDistinct (shas (insert_by le x ys))
  unfolding insert_by
  insert_by-IsDistinct x [] new d = (refl, tt)
  insert_by-IsDistinct x (y ∷ ys) new d =
      ground (arith, contains-insert_by sha_of le x ys y.sha256, insert_by-IsDistinct x ys)

  pub sort_by-IsDistinct :
      (xs : List IndexEntry) → IsDistinct (shas xs) → IsDistinct (shas (sort_by le xs))
  unfolding sort_by
  sort_by-IsDistinct [] d = tt
  sort_by-IsDistinct (x ∷ xs) d =
      insert_by-IsDistinct x (sort_by le xs) (contains-sort_by sha_of le xs x.sha256 ∙ d.0)
        (sort_by-IsDistinct xs d.1)

  insert_by-filter :
      (p : IndexEntry → Bool) (x : IndexEntry) (ys : List IndexEntry)
      → Perm (filter p (insert_by le x ys)) (filter p (x ∷ ys))
  unfolding insert_by
  insert_by-filter p x [] = Perm.refl _
  insert_by-filter p x (y ∷ ys) = elim (Bool-cases (le x y)) [
    | inl e ↦ rw e (Perm.refl _)
    | inr e ↦ rw e (pass_by (p x) (p y) x y (filter p ys) (insert_by-filter p x ys))
  ]

  -- Sorting and filtering give the same entries in either order.
  pub filter-sort_by :
      (p : IndexEntry → Bool) (xs : List IndexEntry) → Perm (filter p (sort_by le xs)) (filter p xs)
  unfolding sort_by
  filter-sort_by p [] = Perm.refl []
  filter-sort_by p (x ∷ xs) =
      Perm.trans (insert_by-filter p x (sort_by le xs)) (keep (p x) x (filter-sort_by p xs))

module _ (p : IndexEntry → Bool) where
  pub contains-filter_of_false :
      (xs : List IndexEntry) (s : String)
      → contains (shas xs) s ≡ false
      → contains (shas (filter p xs)) s ≡ false
  contains-filter_of_false [] s h = refl
  contains-filter_of_false (x ∷ xs) s h = ground (arith, contains-filter_of_false xs s)

  pub filter-IsDistinct :
      (xs : List IndexEntry) → IsDistinct (shas xs) → IsDistinct (shas (filter p xs))
  filter-IsDistinct [] d = tt
  filter-IsDistinct (x ∷ xs) d =
      ground (arith, filter-IsDistinct xs d.1, contains-filter_of_false xs x.sha256 d.0)

abbrev pub Absent : List IndexEntry → IndexEntry → Type 0
Absent ys x = contains (shas ys) x.sha256 ≡ false

-- Of two halves of a list of distinct digests, the first has none of the second.
pub append-Absent :
    (xs ys : List IndexEntry)
    → IsDistinct (shas (xs ++ ys))
    → All (λ x. contains (shas ys) x.sha256 ≡ false) xs
append-Absent [] ys d = tt
append-Absent (x ∷ xs) ys d = (
  ground (arith, shas-append xs ys, contains-append (shas xs) (shas ys) x.sha256),
  append-Absent xs ys d.1,
)

All-both :
    (xs : List IndexEntry) (s : String) (ys : List IndexEntry)
    → All (λ x. (s == x.sha256) ≡ false) xs
    → All (λ x. contains (shas ys) x.sha256 ≡ false) xs
    → All (λ x. (s == x.sha256 || contains (shas ys) x.sha256) ≡ false) xs
All-both [] s ys h k = tt
All-both (x ∷ xs) s ys h k = (ground arith, All-both xs s ys h.1 k.1)

ne_of_absent :
    (p : IndexEntry → Bool) (xs : List IndexEntry) (s : String)
    → contains (shas xs) s ≡ false
    → All (λ x. (s == x.sha256) ≡ false) (filter p xs)
ne_of_absent p [] s h = tt
ne_of_absent p (x ∷ xs) s h = elim (Bool-cases (p x)) [
  | inl e ↦ rw e (ground arith, ne_of_absent p xs s (ground arith))
  | inr e ↦ rw e (ne_of_absent p xs s (ground arith))
]

-- With distinct digests, what one test selects has none of the digests that another selects, if
-- no entry passes both.
pub filter-Absent :
    (p q : IndexEntry → Bool) (xs : List IndexEntry)
    → ((x : IndexEntry) → p x ≡ true → q x ≡ false)
    → IsDistinct (shas xs)
    → All (λ x. contains (shas (filter q xs)) x.sha256 ≡ false) (filter p xs)
filter-Absent p q [] apart d = tt
filter-Absent p q (x ∷ xs) apart d = elim (Bool-cases (p x)) [
  | inl e ↦
      let same : filter q (x ∷ xs) ≡ filter q xs = rw (apart x e) in
      rw e (
        subst (λ (ys : List IndexEntry). All (Absent ys) (x ∷ filter p xs)) (sym same)
          (contains-filter_of_false q xs x.sha256 d.0, filter-Absent p q xs apart d.1))
  | inr e ↦ rw e (elim (Bool-cases (q x)) [
    | inl f ↦
        let more : filter q (x ∷ xs) ≡ x ∷ filter q xs = rw f in
        subst (λ (ys : List IndexEntry). All (Absent ys) (filter p xs)) (sym more)
          (All-both (filter p xs) x.sha256 (filter q xs) (ne_of_absent p xs x.sha256 d.0)
            (filter-Absent p q xs apart d.1))
    | inr f ↦
        let same : filter q (x ∷ xs) ≡ filter q xs = rw f in
        subst (λ (ys : List IndexEntry). All (Absent ys) (filter p xs)) (sym same)
          (filter-Absent p q xs apart d.1)
  ])
]

pub contains-drop_of_false :
    (n : ℕ) (xs : List IndexEntry) (s : String)
    → contains (shas xs) s ≡ false
    → contains (shas (drop n xs)) s ≡ false
contains-drop_of_false zero xs s h = h
contains-drop_of_false (suc n) [] s h = refl
contains-drop_of_false (suc n) (x ∷ xs) s h = contains-drop_of_false n xs s (ground arith)

contains_more :
    (x : IndexEntry) (xs ys : List IndexEntry)
    → All (λ y. contains (shas xs) y.sha256 ≡ true) ys
    → All (λ y. contains (shas (x ∷ xs)) y.sha256 ≡ true) ys
contains_more x xs [] h = tt
contains_more x xs (y ∷ ys) h = (ground arith, contains_more x xs ys h.1)

pub contains_self : (xs : List IndexEntry) → All (λ x. contains (shas xs) x.sha256 ≡ true) xs
contains_self [] = tt
contains_self (x ∷ xs) = (ground arith, contains_more x xs xs (contains_self xs))
