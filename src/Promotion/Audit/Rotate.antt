-- ===== src/Promotion/Audit/Rotate.antt =====
-- What a rotation of the log keeps.
use ao2_control_plane.Base.{
  ℕ, max, ◌+◌, ◌≤◌, ◌<◌, ◌≡◌, refl, sym, ap, ◌∙◌, ◌⊎◌, inl, inr, List, [], ◌∷◌, ◌++◌, ltb, length,
  length-append, Bool-cases, arith,
}
use mathlib.Core.List.{reverse, reverse-cons, reverse-append, reverse-reverse}
use ao2_control_plane.Disk.{Bytes}
use ao2_control_plane.Promotion.Audit.{rotate_target_bytes, kept_lines, joined, old_lines, rotated}

-- The bytes that lines take in the file.
abbrev size : List Bytes → ℕ
size lines = length (joined lines)

size_cons : (x : Bytes) (xs : List Bytes) → size (x ∷ xs) ≡ length x + 1 + size xs
size_cons x xs = omega (arith, length-append x (b'\n' ∷ joined xs))

size_append : (xs ys : List Bytes) → size (xs ++ ys) ≡ size xs + size ys
size_append [] ys = omega arith
size_append (x ∷ xs) ys = omega (arith, size_cons x (xs ++ ys), size_cons x xs, size_append xs ys)

size_reverse : (xs : List Bytes) → size (reverse xs) ≡ size xs
size_reverse [] = refl
size_reverse (x ∷ xs) =
    ap size (reverse-cons x xs)
    ∙ omega
        (arith, size_append (reverse xs) (x ∷ []), size_cons x [], size_cons x xs, size_reverse xs)

-- The lines fall into those that are kept and the rest, and those that are kept fit.
abbrev Fits : ℕ → ℕ → List Bytes → List Bytes → Type 0
Fits target used lines kept =
    (rest : List Bytes) × (lines ≡ kept ++ rest)
    × (used + size kept ≤ target)
    × ((rest ≡ [])
        ⊎ ((line : Bytes) × (older : List Bytes) × (rest ≡ line ∷ older)
            × (target < used + size kept + (length line + 1))))

kept_lines-Fits :
    (target used : ℕ) (lines : List Bytes)
    → used ≤ target
    → Fits target used lines (kept_lines target used lines)
unfolding kept_lines
kept_lines-Fits target used [] h = ([], refl, omega (arith, h), inl refl)
kept_lines-Fits target used (line ∷ older) h =
    let n = used + (length line + 1) in
    elim (Bool-cases (ltb target n)) [
      | inl over ↦
          rw over (line ∷ older, refl, omega (arith, h), inr (line, older, refl, ground arith))
      | inr fits ↦
          let (rest, e, bound, stops) = kept_lines-Fits target n older (ground arith) in
          let s = size_cons line (kept_lines target n older) in
          rw fits (
            rest,
            ap (λ l. line ∷ l) e,
            omega (arith, bound, s),
            elim stops [
              | inl all ↦ inl all
              | inr (next, more, e', over) ↦ inr (next, more, e', omega (arith, over, s))
            ],
          )
    ]

abbrev room : Bytes → ℕ
room line = max rotate_target_bytes (length line)

-- What a rotation leaves of a file: the new line after the latest old lines that are not blank, as many
-- as there is room for.
pub record IsRotated (existing line new : Bytes) : Type 0 where
  pub older : List Bytes
  pub kept : List Bytes
  pub split : old_lines existing ≡ older ++ kept
  pub content : new ≡ joined kept ++ line
  pub bounded : length new ≤ room line
  pub latest :
      (older ≡ [])
      ⊎ ((next : Bytes) × (before : List Bytes) × (older ≡ before ++ next ∷ [])
          × (room line < length new + (length next + 1)))

pub rotated-IsRotated : (existing line : Bytes) → IsRotated existing line (rotated existing line)
unfolding rotated
rotated-IsRotated existing line =
    let lines = old_lines existing in
    let newest = kept_lines (room line) (length line) (reverse lines) in
    let (rest, e, bound, stops) =
      kept_lines-Fits (room line) (length line) (reverse lines) (omega arith) in
    let total : length (rotated existing line) ≡ length line + size newest =
      (unfold rotated in
        omega (arith, length-append (joined (reverse newest)) line, size_reverse newest)) in
    record {
      older = reverse rest;
      kept = reverse newest;
      split = sym (reverse-reverse lines) ∙ ap reverse e ∙ reverse-append newest rest;
      content = refl;
      bounded = omega (arith, total, bound);
      latest = elim stops [
        | inl all ↦ inl (ap reverse all)
        | inr (next, more, e', over) ↦
            inr (
              next,
              reverse more,
              ap reverse e' ∙ reverse-cons next more,
              omega (arith, total, over),
            )
      ];
    }
