-- ===== src/Index/Page.antt =====
-- `read_page`: the entries that match a request, newest first, and one page of them.
use Prim.Native.Nat.{Ordering}
use Prim.Native.Nat.add
use Prim.Native.String.{compare}
use text.Mathlib.Text.{starts_with}
use native.Mathlib.Nat.{le_trans}
use ao2_control_plane.Base.{
  take_all, take-IsOrdered, drop-IsOrdered, ℕ, zero, suc, ◌+◌, ◌-◌, ◌≤◌, ◌≡◌, sym, Bool, true,
  false, ◌&&◌, ◌||◌, String, List, [], ◌∷◌, ◌++◌, Option, none, some, ok, ◌>>◌, string_eq, nat_eq,
  option_eq, ◌==◌, ltb, length, take, drop, filter, sort_by, sort_by-perm, length-take, length-drop,
  length-filter-le, sort_by-IsOrdered, length-sort_by, IsOrdered, Perm, arith, min,
}
use ao2_control_plane.Index.State.{IndexEntry, Codec}
use ao2_control_plane.Index.{Method, ensure_loaded}

pub record IndexPageRequest : Type 0 where
  pub offset : ℕ
  pub limit : ℕ
  pub schema_prefix : Option String
  pub provider : Option String
  pub status : Option String

-- Without the name of its schema.
pub record IndexPage : Type 0 where
  pub offset : ℕ
  pub limit : ℕ
  pub total_entries : ℕ
  pub entries : List IndexEntry

-- `is_none_or`
abbrev is_none_or : Option String → (String → Bool) → Bool
is_none_or none p = true
is_none_or (some s) p = p s

unfoldable pub matches : IndexPageRequest → IndexEntry → Bool
unfolding option_eq string_eq
matches r e =
    is_none_or r.schema_prefix (λ prefix. starts_with e.schema prefix)
    && is_none_or r.provider (λ provider. e.provider == some provider)
    && is_none_or r.status (λ status. e.status == some status)

abbrev digest_le : String → String → Bool
digest_le s t = elim (compare s t) [ Ordering.gt ↦ false | _ ↦ true ]

-- The later entry first, and by digest those of one instant.
unfoldable pub newest_first : IndexEntry → IndexEntry → Bool
unfolding nat_eq
newest_first left right =
    ltb right.ingested_at left.ingested_at
    || right.ingested_at == left.ingested_at && digest_le left.sha256 right.sha256

unfoldable pub page_of : IndexPageRequest → List IndexEntry → IndexPage
unfolding matches newest_first sort_by
page_of r entries =
    let sorted = sort_by newest_first (filter (matches r) entries) in
    record {
      offset = r.offset;
      limit = r.limit;
      total_entries = length sorted;
      entries = take r.limit (drop r.offset sorted);
    }

unfoldable pub read_page : Codec → IndexPageRequest → Method IndexPage
unfolding page_of
read_page c r = do ensure_loaded c; λ s. (ok (page_of r s.index.entries), s)

module _ {ℓ} {A : Type ℓ} where
  drop-drop : (m n : ℕ) (xs : List A) → drop n (drop m xs) ≡ drop (m + n) xs
  drop-drop zero n xs = rw add.zero
  drop-drop (suc m) zero [] = rw add.suc
  drop-drop (suc m) (suc n) [] = rw add.suc
  drop-drop (suc m) n (x ∷ xs) = rw add.suc (drop-drop m n xs)

  take-append-take : (a b : ℕ) (xs : List A) → take a xs ++ take b (drop a xs) ≡ take (a + b) xs
  take-append-take zero b xs = rw add.zero
  take-append-take (suc a) zero [] = rw add.suc
  take-append-take (suc a) (suc b) [] = rw add.suc
  take-append-take (suc a) b (x ∷ xs) = rw (add.suc, take-append-take a b xs)

-- Two pages that follow one another are the one page of their joint length.
pub pages_join :
    (r : IndexPageRequest) (more : ℕ) (entries : List IndexEntry)
    → (page_of r entries).entries
        ++ (page_of (record r { offset = r.offset + r.limit; limit = more }) entries).entries
      ≡ (page_of (record r { limit = r.limit + more }) entries).entries
unfolding page_of matches
pages_join r more entries =
    let sorted = sort_by newest_first (filter (matches r) entries) in
    rw (sym (drop-drop r.offset r.limit sorted))
      (take-append-take r.limit more (drop r.offset sorted))

abbrev pub NotBefore : IndexEntry → IndexEntry → Type 0
NotBefore x y = y.ingested_at ≤ x.ingested_at

newest_first-NotBefore : (x y : IndexEntry) → newest_first x y ≡ true → NotBefore x y
unfolding newest_first
newest_first-NotBefore x y h = ground arith

newest_first-false : (x y : IndexEntry) → newest_first x y ≡ false → NotBefore y x
unfolding newest_first
newest_first-false x y h = ground arith

-- What a page shows of the entries.
pub record IsPage (r : IndexPageRequest) (entries : List IndexEntry) (p : IndexPage) : Type 0 where
  pub total : p.total_entries ≡ length (filter (matches r) entries)
  pub size : length p.entries ≡ min r.limit (p.total_entries - r.offset)
  pub order : IsOrdered NotBefore p.entries
  pub complete :
      Perm
        (page_of (record r { offset = 0; limit = length entries }) entries).entries
        (filter (matches r) entries)

-- A page is at most as long as was asked for and as is left behind its offset, it stands newest
-- first, its total is the number of all entries that match, and the request for everything
-- returns exactly those.
pub page_of-IsPage :
    (r : IndexPageRequest) (entries : List IndexEntry) → IsPage r entries (page_of r entries)
unfolding page_of matches
page_of-IsPage r entries =
    let found = filter (matches r) entries in
    let sorted = sort_by newest_first found in
    record {
      total = length-sort_by newest_first found;
      size = rw (length-take, length-drop);
      order = take-IsOrdered NotBefore r.limit (drop r.offset sorted) (
          drop-IsOrdered NotBefore r.offset sorted (
            sort_by-IsOrdered newest_first NotBefore (λ x y z p q. le_trans q p)
              newest_first-NotBefore newest_first-false found));
      complete =
          rw
            (take_all (length entries) sorted (
              omega
                (arith, length-sort_by newest_first found, length-filter-le (matches r) entries)))
            (sort_by-perm newest_first found);
    }
