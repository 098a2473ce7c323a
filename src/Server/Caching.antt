-- ===== src/Server/Caching.antt =====
-- crates/ao2-cp-server/src/handlers/caching.rs: conditional answers to reads of content that its
-- digest names. Texts are lists of code points.
pub mod Revalidate
use ao2_control_plane.Base.{
  ℕ, ◌≡◌, String, Bool, true, false, not, ◌&&◌, ◌||◌, List, [], ◌∷◌, ◌++◌, map, Option, none, some,
  length, any, all, leb, nat_eq, ◌==◌, if◌then◌else◌, Result, ok, err,
}
use ao2_control_plane.Base.Text.{codes, codes_eq, trim}
use ao2_control_plane.Server.AppError.{AppError, bad_request}

-- An answer by its status, its `ETag` and its body; the other headers are the same in all.
pub record Cached : Type 0 where
  pub status : ℕ
  pub etag : List ℕ
  pub body : List ℕ

-- `char::is_ascii_hexdigit`
abbrev pub is_ascii_hexdigit : ℕ → Bool
is_ascii_hexdigit c =
    leb b'0' c && leb c b'9' || leb b'a' c && leb c b'f' || leb b'A' c && leb c b'F'

-- A text of hexadecimal digits has as many bytes as characters.
unfoldable pub validate_sha : List ℕ → Result AppError (Unit {0})
unfolding nat_eq
validate_sha sha =
    if not (length sha == 64) || not (all is_ascii_hexdigit sha)
    then err (AppError.bad_request "invalid sha256")
    else ok tt

abbrev pub format_etag : List ℕ → List ℕ
format_etag sha = b'"' ∷ sha ++ b'"' ∷ []

-- `str::split(',')`: the piece under way and the text after it.
abbrev pub split_from : List ℕ → List ℕ → List (List ℕ)
split_from piece [] = piece ∷ []
split_from piece (c ∷ cs) =
    let here = split_from (piece ++ c ∷ []) cs in
    let next = split_from [] cs in if c == b',' then piece ∷ next else here

-- The header is absent, is not a text (`some none`), or is one.
unfoldable pub etag_matches : Option (Option (List ℕ)) → List ℕ → Bool
unfolding trim codes_eq nat_eq
etag_matches none etag = false
etag_matches (some none) etag = false
etag_matches (some (some value)) etag =
    any (λ piece. trim piece == etag || trim piece == codes "*") (split_from [] value)

abbrev pub not_modified_response : List ℕ → Cached
not_modified_response etag = record { status = 304; etag = etag; body = [] }

abbrev pub cacheable_json_response : List ℕ → List ℕ → Cached
cacheable_json_response etag bytes = record { status = 200; etag = etag; body = bytes }

abbrev pub cacheable_head_response : List ℕ → Cached
cacheable_head_response etag = record { status = 200; etag = etag; body = [] }

unfoldable pub check_if_none_match :
    List ℕ → Option (Option (List ℕ)) → Result AppError (Option Cached)
unfolding validate_sha etag_matches
check_if_none_match sha header = elim (validate_sha sha) [
  | err e ↦ err e
  | ok u ↦
      if etag_matches header (format_etag sha)
      then ok (some (not_modified_response (format_etag sha)))
      else ok none
]
