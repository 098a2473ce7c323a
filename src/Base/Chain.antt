-- ===== src/Base/Chain.antt =====
-- Chains of `?` that touch no state, and what their success says of each step.
use mathlib.Core.Path.{◌≡◌, refl, ap}
use mathlib.Core.Bool.{Bool, true, false}
use native.Mathlib.Omega.{arith}
use ao2_control_plane.Base.Equality.{if◌then◌else◌}
use ao2_control_plane.Base.Outcome.{Result, ok, err, Exec, continue, ◌>>◌, pure}

-- `error` unless the test holds.
abbrev pub require {ℓ} : {E : Type ℓ} → Bool → E → Result E (Unit {0})
require test error = if test then ok tt else err error

module _ {E A B : Type 0} where
  unfoldable pub then_do : Result E A → (A → Result E B) → Result E B
  then_do (ok a) f = f a
  then_do (err e) f = err e

  pub then_do-ok :
      (r : Result E A) (f : A → Result E B) (b : B)
      → then_do r f ≡ ok b
      → (a : A) × (r ≡ ok a) × (f a ≡ ok b)
  unfolding then_do
  then_do-ok (ok a) f b h = (a, refl, h)
  then_do-ok (err e) f b h = ground arith

pub require-ok : {E : Type 0} (test : Bool) (e : E) → require test e ≡ ok tt → test ≡ true
require-ok true e h = refl
require-ok false e h = ground arith

pub ok_injective : {E A : Type 0} (a b : A) → ◌≡◌ {A = Result E A} (ok a) (ok b) → a ≡ b
ok_injective a b h = ap (λ r. elim r [ ok x ↦ x | err e ↦ a ]) h

module _ {S E A B : Type 0} where
  -- A step that was well, and what followed it.
  pub continue-ok :
      (r : Result E A) (f : A → Exec S E B) (s : S) (b : B)
      → (continue r f s).0 ≡ ok b
      → (a : A) × (r ≡ ok a) × ((f a s).0 ≡ ok b)
  continue-ok (ok a) f s b h = (a, refl, h)
  continue-ok (err e) f s b h = ground arith

  -- What each step that is reached leaves, all of them leave.
  pub continue-Leaves :
      (r : Result E A) (f : A → Exec S E B) (t : S) (b : B) (P : S → Type 0)
      → (continue r f t).0 ≡ ok b
      → ((a : A) → r ≡ ok a → (f a t).0 ≡ ok b → P (f a t).1)
      → P (continue r f t).1
  continue-Leaves (ok a) f t b P h each = each a refl h
  continue-Leaves (err e) f t b P h each = ground arith

module _ {S E A : Type 0} where
  -- The answer that ends three steps.
  pub answer_of_three :
      (f g h : Exec S E (Unit {0})) (a b : A) (s : S)
      → ((f >> (g >> (h >> pure a))) s).0 ≡ ok b
      → a ≡ b
  answer_of_three f g h a b s e =
      let (u, p, e₁) = continue-ok (f s).0 (λ x. g >> (h >> pure a)) (f s).1 b e in
      let t = (f s).1 in
      let (v, q, e₂) = continue-ok (g t).0 (λ x. h >> pure a) (g t).1 b e₁ in
      let w = (g t).1 in
      let (x, r, e₃) = continue-ok (h w).0 (λ x. pure a) (h w).1 b e₂ in ok_injective a b e₃
