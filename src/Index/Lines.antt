-- ===== src/Index/Lines.antt =====
-- Appending a line to the bytes of the ledger appends its entry to what a load keeps.
use native.Mathlib.Decide.{ℕ_discrete}
use ao2_control_plane.Base.{
  ℕ, ◌≡◌, refl, ◌∙◌, ap, Bool, true, ◌&&◌, List, [], ◌∷◌, ◌++◌, append-nil, append_assoc, Option,
  none, some, nat_eq, ◌==◌, all, leb, arith,
}
use ao2_control_plane.Disk.{Bytes}
use ao2_control_plane.Index.State.{IndexEntry, Codec, Prints, is_valid_sha256_hex}
use ao2_control_plane.Index.Load.{
  strip_cr, lines_from, entry, line_kind, Loaded, nothing, step, then_load, load_lines,
}

-- Every line of the bytes is finished by a line feed.
unfoldable pub ends_line : Bytes → Bool
unfolding nat_eq
ends_line [] = true
ends_line (b ∷ []) = b == 10
ends_line (b ∷ c ∷ bs) = ends_line (c ∷ bs)

-- A line without control bytes is read as it is written.
strip_cr_clean : (line : Bytes) → all (leb 32) line ≡ true → strip_cr line ≡ line
unfolding strip_cr
strip_cr_clean [] h = refl
strip_cr_clean (b ∷ []) h = ground arith
strip_cr_clean (b ∷ c ∷ bs) h = ap (λ (l : Bytes). b ∷ l) (strip_cr_clean (c ∷ bs) (ground arith))

pub all-append : (p : ℕ → Bool) (xs ys : Bytes) → all p (xs ++ ys) ≡ (all p xs && all p ys)
all-append p [] ys = refl
all-append p (x ∷ xs) ys = ground (arith, all-append p xs ys)

pub lines_from-clean :
    (line done rest : Bytes)
    → all (leb 32) line ≡ true
    → all (leb 32) done ≡ true
    → lines_from done (line ++ 10 ∷ rest) ≡ (done ++ line) ∷ lines_from [] rest
unfolding lines_from ℕ_discrete
lines_from-clean [] done rest h k = rw (strip_cr_clean done k, append-nil)
lines_from-clean (b ∷ line) done rest h k = ground (
  arith,
  append_assoc done (b ∷ []) line,
  all-append (leb 32) done (b ∷ []),
  lines_from-clean line (done ++ b ∷ []) rest,
)

lines_from-append_cons :
    (b : ℕ) (bs line rest : Bytes)
    → ends_line (b ∷ bs) ≡ true
    → lines_from line (b ∷ bs ++ rest) ≡ lines_from line (b ∷ bs) ++ lines_from [] rest
unfolding lines_from ends_line
lines_from-append_cons b [] line rest h = ground arith
lines_from-append_cons b (c ∷ bs) line rest h = ground (
  arith,
  lines_from-append_cons c bs [] rest h,
  lines_from-append_cons c bs (line ++ b ∷ []) rest h,
)

-- The lines of finished bytes and of what follows them are read apart.
pub lines_from-append :
    (bs rest : Bytes)
    → ends_line bs ≡ true
    → lines_from [] (bs ++ rest) ≡ lines_from [] bs ++ lines_from [] rest
unfolding lines_from
lines_from-append [] rest h = refl
lines_from-append (b ∷ bs) rest h = lines_from-append_cons b bs [] rest h

pub ends_line-append : (bs line : Bytes) → ends_line (bs ++ (line ++ 10 ∷ [])) ≡ true
unfolding ends_line ℕ_discrete
ends_line-append [] [] = refl
ends_line-append [] (b ∷ []) = refl
ends_line-append [] (b ∷ c ∷ line) = ends_line-append [] (c ∷ line)
ends_line-append (b ∷ []) [] = refl
ends_line-append (b ∷ []) (c ∷ line) = ends_line-append [] (c ∷ line)
ends_line-append (b ∷ c ∷ bs) line = ends_line-append (c ∷ bs) line

pub then_load_cong :
    (o : Option Loaded) (f g : Loaded → Option Loaded)
    → ((l : Loaded) → f l ≡ g l)
    → then_load o f ≡ then_load o g
then_load_cong none f g h = refl
then_load_cong (some l) f g h = h l

then_load_assoc :
    (o : Option Loaded) (f g : Loaded → Option Loaded)
    → then_load o (λ l. then_load (f l) g) ≡ then_load (then_load o f) g
then_load_assoc none f g = refl
then_load_assoc (some l) f g = refl

pub load_lines-append :
    (c : Codec) (xs ys : List Bytes) (l : Loaded)
    → load_lines c (xs ++ ys) l ≡ then_load (load_lines c xs l) (load_lines c ys)
unfolding load_lines
load_lines-append c [] ys l = refl
load_lines-append c (x ∷ xs) ys l =
    then_load_cong (step (line_kind c x) l) (load_lines c (xs ++ ys))
      (λ m. then_load (load_lines c xs m) (load_lines c ys)) (load_lines-append c xs ys)
    ∙ then_load_assoc (step (line_kind c x) l) (load_lines c xs) (load_lines c ys)

abbrev pub with_entry : IndexEntry → Loaded → Loaded
with_entry e l = record l { entries = l.entries ++ e ∷ [] }

line_kind-print :
    (c : Codec) (e : IndexEntry)
    → Prints c e
    → is_valid_sha256_hex e.sha256 ≡ true
    → line_kind c (c.print e) ≡ entry e
unfolding line_kind
line_kind-print c e laws valid = rw (laws.utf8, laws.visible, laws.parse-print, valid)

-- A load of finished bytes with one more printed entry keeps one more entry.
pub load_lines-print :
    (c : Codec) (bs : Bytes) (e : IndexEntry)
    → Prints c e
    → ends_line bs ≡ true
    → is_valid_sha256_hex e.sha256 ≡ true
    → load_lines c (lines_from [] (bs ++ (c.print e ++ 10 ∷ []))) nothing
      ≡ then_load (load_lines c (lines_from [] bs) nothing) (λ l. some (with_entry e l))
unfolding load_lines step
load_lines-print c bs e laws finished valid =
    rw
      (
        lines_from-append bs (c.print e ++ 10 ∷ []) finished,
        lines_from-clean (c.print e) [] [] (laws.no_control) refl,
        load_lines-append c (lines_from [] bs) (c.print e ∷ lines_from [] []) nothing,
      )
      (then_load_cong (load_lines c (lines_from [] bs) nothing) _ _
        (λ l. rw (line_kind-print c e laws valid) (unfold lines_from in refl)))
