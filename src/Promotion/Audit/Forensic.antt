-- ===== src/Promotion/Audit/Forensic.antt =====
-- What the log of refused reports holds after a line was appended to it.
use ao2_control_plane.Base.{
  ℕ, max, ◌+◌, ◌≤◌, ◌<◌, ◌≡◌, refl, sym, ap, ◌∙◌, ◌⊎◌, inl, inr, Bool, true, false, [], ◌++◌,
  Option, none, some, Result, ok, err, leb, if◌then◌else◌, length, length-append, Bool-cases,
  Option-cases, arith,
}
use mathlib.Core.Path.{subst}
use ao2_control_plane.Disk.{
  Bytes, Host, File, IoError, path_eq, lookup, metadata, open_append, write_all, create, read_file,
}
use ao2_control_plane.Disk.Laws.{lookup-insert}
use ao2_control_plane.Disk.Calm.{opened_file, open_append_calm, write_all_calm}
use ao2_control_plane.Promotion.Audit.{
  rotated, max_bytes, audit_path, size_or_zero, text_or_empty, write_opened, append_line,
}
use ao2_control_plane.Promotion.Audit.Rotate.{IsRotated, rotated-IsRotated}

-- The content of a file, which is empty if it is missing.
abbrev pub content_of : Option File → Bytes
content_of none = []
content_of (some f) = f.content

-- As much of it as reads as a text.
abbrev pub text_of : (Bytes → Bool) → Bytes → Bytes
text_of is_utf8 bytes = if is_utf8 bytes then bytes else []

abbrev pub logged : Host → Option File
logged h = lookup audit_path h.files

metadata_calm :
    (h : Host)
    → h.faults ≡ []
    → (size_or_zero (metadata audit_path h).0 ≡ length (content_of (logged h)))
      × ((metadata audit_path h).1 ≡ h)
unfolding metadata
metadata_calm h calm = elim (Option-cases (logged h)) [
  | inl missing ↦ ground arith
  | inr (f, there) ↦ ground arith
]

read_file_calm :
    (is_utf8 : Bytes → Bool) (h : Host)
    → h.faults ≡ []
    → (text_or_empty is_utf8 (read_file audit_path h).0 ≡ text_of is_utf8 (content_of (logged h)))
      × ((read_file audit_path h).1 ≡ h)
unfolding read_file
read_file_calm is_utf8 h calm = elim (Option-cases (logged h)) [
  | inl missing ↦ ground arith
  | inr (f, there) ↦ ground arith
]

create_calm :
    (h : Host)
    → h.faults ≡ []
    → ((create audit_path h).0 ≡ ok tt)
      × ((create audit_path h).1.faults ≡ [])
      × ((create audit_path h).1.stored ≡ false)
      × (logged (create audit_path h).1 ≡ some (record { content = []; modified = h.now }))
unfolding create
create_calm h calm =
    ground (
      arith,
      lookup-insert audit_path audit_path (record { content = []; modified = h.now }) h.files,
    )

write_opened-ok :
    (bytes : Bytes) (r : Result IoError (Unit {0}) × Host)
    → r.0 ≡ ok tt
    → write_opened bytes r ≡ (write_all audit_path bytes r.1).1
write_opened-ok bytes (ok u, h) e = refl
write_opened-ok bytes (err x, h) e = ground arith

-- The file after a write at the end of what was opened.
written :
    (bytes : Bytes) (r : Result IoError (Unit {0}) × Host) (f : File)
    → r.0 ≡ ok tt
    → r.1.faults ≡ []
    → r.1.stored ≡ false
    → logged r.1 ≡ some f
    → (g : File) × (logged (write_opened bytes r) ≡ some g) × (g.content ≡ f.content ++ bytes)
written bytes r f e calm fresh there =
    let (a, b, c, d, at) = write_all_calm audit_path bytes r.1 f calm fresh there in
    (
      record { content = f.content ++ bytes; modified = r.1.now },
      ap logged (write_opened-ok bytes r e) ∙ at,
      refl,
    )

content-opened : (m : Option File) (now : Option ℕ) → (opened_file m now).content ≡ content_of m
content-opened none now = refl
content-opened (some f) now = refl

-- The log after a line was appended to it: the old one and the line, or what a rotation leaves.
abbrev pub Logged : (Bytes → Bool) → Bytes → Bytes → Host → Type 0
Logged is_utf8 old line h =
    (f : File) × (logged h ≡ some f)
    × (length f.content ≤ max max_bytes (length line))
    × ((f.content ≡ old ++ line)
        ⊎ ((max_bytes < length old + length line) × IsRotated (text_of is_utf8 old) line f.content))

fitting : (a b c l : ℕ) → a ≡ b → c ≡ b → leb (a + l) max_bytes ≡ true → c + l ≤ max_bytes
fitting a b c l p q h = ground arith

overflowing : (a b l : ℕ) → a ≡ b → leb (a + l) max_bytes ≡ false → max_bytes < b + l
overflowing a b l p h = ground arith

module _ (is_utf8 : Bytes → Bool) (line : Bytes) where
  appended-Logged :
      (h : Host)
      → h.faults ≡ []
      → length (content_of (logged h)) + length line ≤ max_bytes
      → Logged is_utf8 (content_of (logged h)) line (write_opened line (open_append audit_path h))
  appended-Logged h calm fits =
      let (a, b, c, d, there) = open_append_calm audit_path h calm in
      let (g, at, is) = written line (open_append audit_path h) _ a b d there in
      let content : g.content ≡ content_of (logged h) ++ line =
        is ∙ ap (λ bytes. bytes ++ line) (content-opened (logged h) h.now) in
      (
        g,
        at,
        omega (arith, fits, ap length content, length-append (content_of (logged h)) line),
        inl content,
      )

  rotated-Logged :
      (existing : Bytes) (h : Host)
      → h.faults ≡ []
      → (old : Bytes) → existing ≡ text_of is_utf8 old
      → max_bytes < length old + length line
      → Logged is_utf8 old line (write_opened (rotated existing line) (create audit_path h))
  rotated-Logged existing h calm old same over =
      let (a, b, d, there) = create_calm h calm in
      let (g, at, is) = written (rotated existing line) (create audit_path h) _ a b d there in
      let turned =
        subst (λ (new : Bytes). IsRotated existing line new) (sym is)
          (rotated-IsRotated existing line) in
      (
        g,
        at,
        omega (arith, turned.bounded),
        inr (over, subst (λ (text : Bytes). IsRotated text line g.content) same turned),
      )

  pub append_line-Logged :
      (h : Host)
      → h.faults ≡ []
      → Logged is_utf8 (content_of (logged h)) line (append_line is_utf8 line h)
  unfolding append_line
  append_line-Logged h calm =
      let (counted, same) = metadata_calm h calm in
      let h₁ = (metadata audit_path h).1 in
      let calm₁ : h₁.faults ≡ [] = ap (λ (g : Host). g.faults) same ∙ calm in
      let old₁ : content_of (logged h₁) ≡ content_of (logged h) =
        ap (λ (g : Host). content_of (logged g)) same in
      let (read, same₂) = read_file_calm is_utf8 h₁ calm₁ in
      elim (Bool-cases (leb (size_or_zero (metadata audit_path h).0 + length line) max_bytes)) [
        | inl fits ↦ rw fits (
            subst
              (λ (old : Bytes).
                Logged is_utf8 old line (write_opened line (open_append audit_path h₁)))
              old₁ (appended-Logged h₁ calm₁ (fitting _ _ _ _ counted (ap length old₁) fits)))
        | inr over ↦ rw over (
            rotated-Logged _ (read_file audit_path h₁).1 (ap (λ (g : Host). g.faults) same₂ ∙ calm₁)
              (content_of (logged h)) (read ∙ ap (text_of is_utf8) old₁)
              (overflowing _ _ _ counted over))
      ]
