-- ===== src/Server/Caching/Revalidate.antt =====
-- A client that sends a tag back.
use ao2_control_plane.Base.{
  ℕ, ◌≡◌, ap, ◌∙◌, sym, Bool, true, false, not, List, [], ◌∷◌, ◌++◌, append_assoc, append-nil, some,
  arith, all, nat_eq, ◌==◌, ok, Bool-cases, inl, inr,
}
use ao2_control_plane.Base.Text.{codes_eq, trim, trim_start, is_whitespace}
use ao2_control_plane.Server.Caching.{
  is_ascii_hexdigit, validate_sha, format_etag, split_from, etag_matches, not_modified_response,
  check_if_none_match,
}
use mathlib.Core.List.{reverse, reverse-cons, reverse-append, reverse-reverse}

no_comma : (c : ℕ) → is_ascii_hexdigit c ≡ true → (c == b',') ≡ false
unfolding nat_eq
no_comma c h = ground arith

abbrev is_commaless : List ℕ → Bool
is_commaless = all (λ c. not (c == b','))

-- A text of no commas is one piece.
split_from-commaless :
    (piece s : List ℕ) → is_commaless s ≡ true → split_from piece s ≡ (piece ++ s) ∷ []
split_from-commaless piece [] h = ap (λ p. p ∷ []) (sym (append-nil piece))
split_from-commaless piece (c ∷ cs) h = elim (Bool-cases (c == b',')) [
  | inl comma ↦ ground arith
  | inr other ↦
      let rest = split_from-commaless (piece ++ c ∷ []) cs (ground arith) in
      rw other (rest ∙ ap (λ p. p ∷ []) (append_assoc piece (c ∷ []) cs))
]

hex-commaless :
    (sha : List ℕ) → all is_ascii_hexdigit sha ≡ true → is_commaless (sha ++ b'"' ∷ []) ≡ true
unfolding nat_eq
hex-commaless [] h = ground arith
hex-commaless (c ∷ cs) h = ground (arith, no_comma c, hex-commaless cs)

trim_start-quote : (s : List ℕ) → trim_start (b'"' ∷ s) ≡ b'"' ∷ s
unfolding trim_start is_whitespace nat_eq
trim_start-quote s = ground arith

reverse-quoted : (s : List ℕ) → reverse (format_etag s) ≡ b'"' ∷ reverse s ++ b'"' ∷ []
reverse-quoted s =
    reverse-cons b'"' (s ++ b'"' ∷ []) ∙ ap (λ t. t ++ b'"' ∷ []) (reverse-append s (b'"' ∷ []))

-- A quoted text has no white space around it.
trim-quoted : (s : List ℕ) → trim (format_etag s) ≡ format_etag s
unfolding trim
trim-quoted s =
    ap (λ t. reverse (trim_start (reverse t))) (trim_start-quote (s ++ b'"' ∷ []))
    ∙ ap (λ t. reverse (trim_start t)) (reverse-quoted s)
    ∙ ap reverse (trim_start-quote (reverse s ++ b'"' ∷ []))
    ∙ ap reverse (sym (reverse-quoted s))
    ∙ reverse-reverse (format_etag s)

own_etag-matches :
    (sha : List ℕ)
    → all is_ascii_hexdigit sha ≡ true
    → etag_matches (some (some (format_etag sha))) (format_etag sha) ≡ true
unfolding etag_matches native.Mathlib.Decide.ℕ_discrete
own_etag-matches sha hex =
    let quoted : is_commaless (format_etag sha) ≡ true = hex-commaless sha hex in
    rw (split_from-commaless [] (format_etag sha) quoted, trim-quoted sha) (ground arith)

-- A request for an accepted digest that sends back the tag of the digest, alone, is answered by
-- 304 and that tag, without a body.
pub check_if_none_match-own_etag :
    (sha : List ℕ)
    → validate_sha sha ≡ ok tt
    → check_if_none_match sha (some (some (format_etag sha)))
      ≡ ok (some (not_modified_response (format_etag sha)))
unfolding check_if_none_match validate_sha
check_if_none_match-own_etag sha valid =
    let hex : all is_ascii_hexdigit sha ≡ true = ground arith in
    ground (arith, own_etag-matches sha hex)
