-- ===== src/Base/Sort.antt =====
-- `slice::sort_by`: a stable sort by a Boolean order. The result keeps the items and stands in order.
use Prim.Native.Nat.{ℕ, zero, suc}
use mathlib.Core.Path.{◌≡◌, refl, ap, ◌∙◌}
use mathlib.Core.Bool.{Bool, true, false}
use mathlib.Core.List.{List, [], ◌∷◌, map, Perm}
use mathlib.Core.List.Perm
use native.Mathlib.Omega.{arith}
use ao2_control_plane.Base.Equality.{if◌then◌else◌, Bool-cases}
use mathlib.Core.Logic.{inl, inr}
use ao2_control_plane.Base.Lists.{length, take, drop, All, All-map, take-All}

module _ {ℓ} {A : Type ℓ} (le : A → A → Bool) where
  unfoldable pub insert_by : A → List A → List A
  insert_by x [] = x ∷ []
  insert_by x (y ∷ ys) = let rest = insert_by x ys in if le x y then x ∷ y ∷ ys else y ∷ rest

  -- An item comes before those that are equal to it and stood behind it.
  unfoldable pub sort_by : List A → List A
  unfolding insert_by
  sort_by [] = []
  sort_by (x ∷ xs) = insert_by x (sort_by xs)

  insert_by-perm : (x : A) (ys : List A) → Perm (insert_by x ys) (x ∷ ys)
  unfolding insert_by
  insert_by-perm x [] = Perm.refl (x ∷ [])
  insert_by-perm x (y ∷ ys) = elim (Bool-cases (le x y)) [
    | inl e ↦ rw e (Perm.refl (x ∷ y ∷ ys))
    | inr e ↦ rw e (Perm.trans (Perm.cons y (insert_by-perm x ys)) (Perm.swap x y ys))
  ]

  pub sort_by-perm : (xs : List A) → Perm (sort_by xs) xs
  unfolding sort_by
  sort_by-perm [] = Perm.refl []
  sort_by-perm (x ∷ xs) = Perm.trans (insert_by-perm x (sort_by xs)) (Perm.cons x (sort_by-perm xs))

  length-insert_by : (x : A) (ys : List A) → length (insert_by x ys) ≡ suc (length ys)
  unfolding insert_by
  length-insert_by x [] = refl
  length-insert_by x (y ∷ ys) = ground (arith, length-insert_by x ys)

  pub length-sort_by : (xs : List A) → length (sort_by xs) ≡ length xs
  unfolding sort_by
  length-sort_by [] = refl
  length-sort_by (x ∷ xs) = length-insert_by x (sort_by xs) ∙ ap suc (length-sort_by xs)

  module _ {κ} (P : A → Type κ) where
    insert_by-All : (x : A) (ys : List A) → P x → All P ys → All P (insert_by x ys)
    unfolding insert_by
    insert_by-All x [] p ps = (p, tt)
    insert_by-All x (y ∷ ys) p ps = elim (Bool-cases (le x y)) [
      | inl e ↦ rw e (p, ps)
      | inr e ↦ rw e (ps.0, insert_by-All x ys p ps.1)
    ]

    pub sort_by-All : (xs : List A) → All P xs → All P (sort_by xs)
    unfolding sort_by
    sort_by-All [] ps = ps
    sort_by-All (x ∷ xs) ps = insert_by-All x (sort_by xs) ps.0 (sort_by-All xs ps.1)

-- Every item stands in the relation to all behind it.
abbrev pub IsOrdered {ℓ κ} : {A : Type ℓ} → (A → A → Type κ) → List A → Type κ
IsOrdered R [] = Unit
IsOrdered R (x ∷ xs) = All (R x) xs × IsOrdered R xs

-- Any transitive relation that the tests decide for both of their outcomes.
module _ {ℓ κ} {A : Type ℓ} (le : A → A → Bool) (R : A → A → Type κ)
    (trans : (x y z : A) → R x y → R y z → R x z) (holds : (x y : A) → le x y ≡ true → R x y)
    (fails : (x y : A) → le x y ≡ false → R y x) where
  insert_by-IsOrdered : (x : A) (ys : List A) → IsOrdered R ys → IsOrdered R (insert_by le x ys)
  unfolding insert_by
  insert_by-IsOrdered x [] o = (tt, tt)
  insert_by-IsOrdered x (y ∷ ys) o = elim (Bool-cases (le x y)) [
    | inl e ↦ rw e ((holds x y e, All-map ys (λ z. trans x y z (holds x y e)) o.0), o)
    | inr e ↦ rw e (insert_by-All le (R y) x ys (fails x y e) o.0, insert_by-IsOrdered x ys o.1)
  ]

  pub sort_by-IsOrdered : (xs : List A) → IsOrdered R (sort_by le xs)
  unfolding sort_by
  sort_by-IsOrdered [] = tt
  sort_by-IsOrdered (x ∷ xs) = insert_by-IsOrdered x (sort_by le xs) (sort_by-IsOrdered xs)

module _ {ℓ} {A : Type ℓ} where
  pub take-IsOrdered {κ} :
      (R : A → A → Type κ) (n : ℕ) (xs : List A) → IsOrdered R xs → IsOrdered R (take n xs)
  take-IsOrdered R zero xs o = tt
  take-IsOrdered R (suc n) [] o = tt
  take-IsOrdered R (suc n) (x ∷ xs) o = (take-All (R x) n xs o.0, take-IsOrdered R n xs o.1)

  pub drop-IsOrdered {κ} :
      (R : A → A → Type κ) (n : ℕ) (xs : List A) → IsOrdered R xs → IsOrdered R (drop n xs)
  drop-IsOrdered R zero xs o = o
  drop-IsOrdered R (suc n) [] o = tt
  drop-IsOrdered R (suc n) (x ∷ xs) o = drop-IsOrdered R n xs o.1

module _ {ℓ κ μ} {A : Type ℓ} {B : Type κ} (f : A → B) where
  map-All : (P : B → Type μ) (xs : List A) → All (λ x. P (f x)) xs → All P (map f xs)
  map-All P [] h = tt
  map-All P (x ∷ xs) h = (h.0, map-All P xs h.1)

  pub map-IsOrdered :
      (R : B → B → Type μ) (xs : List A)
      → IsOrdered (λ x y. R (f x) (f y)) xs
      → IsOrdered R (map f xs)
  map-IsOrdered R [] o = tt
  map-IsOrdered R (x ∷ xs) o = (map-All (R (f x)) xs o.0, map-IsOrdered R xs o.1)
