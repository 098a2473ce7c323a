-- ===== src/Server/Auth.antt =====
-- crates/ao2-cp-server/src/auth.rs: which requests pass `require_token`. Texts are lists of code
-- points, and the digest, SHA-256 in the source, is a parameter.
use ao2_control_plane.Base.{
  ℕ, ◌≡◌, Bool, true, List, Option, none, some, ◌⊎◌, inl, inr, length, drop, ◌==◌, if◌then◌else◌,
  arith, Result, ok, err, Option-cases,
}
use ao2_control_plane.Base.Text.{codes, codes_eq, starts_with_codes}
use ao2_control_plane.Server.AppError.{AppError}
use mathlib.Core.List.{reverse}

-- `authorization` is the header's value, `some none` where `to_str` fails on it, and `token` the one
-- of the query.
pub record Request : Type 0 where
  pub authorization : Option (Option (List ℕ))
  pub path : List ℕ
  pub token : Option (List ℕ)

abbrev pub strip_prefix : List ℕ → List ℕ → Option (List ℕ)
strip_prefix p s = if starts_with_codes s p then some (drop (length p) s) else none

abbrev pub ends_with : List ℕ → List ℕ → Bool
ends_with s p = starts_with_codes (reverse s) (reverse p)

-- The token of the header, if there is one, it is a text and it starts with the scheme.
unfoldable pub header_token : Request → Option (List ℕ)
unfolding starts_with_codes
header_token req = elim req.authorization [
  | none ↦ none
  | some none ↦ none
  | some (some s) ↦ strip_prefix (codes "Bearer ") s
]

unfoldable pub is_sse_stream : Request → Bool
unfolding starts_with_codes
is_sse_stream req = ends_with req.path (codes "/stream")

unfoldable pub provided : Request → Option (List ℕ)
unfolding header_token is_sse_stream
provided req = elim (header_token req) [
  | some t ↦ some t
  | none ↦ if is_sse_stream req then req.token else none
]

module _ (digest : List ℕ → List ℕ) where
  unfoldable pub tokens_match : List ℕ → List ℕ → Bool
  unfolding codes_eq
  tokens_match given expected = digest given == digest expected

  -- `next` is the answer of the handlers behind.
  unfoldable pub require_token {ℓ} :
      {A : Type ℓ} → List ℕ → (Request → A) → Request → Result AppError A
  unfolding provided tokens_match
  require_token api_token next req = elim (provided req) [
    | none ↦ err AppError.unauthorized
    | some t ↦ if tokens_match t api_token then ok (next req) else err AppError.unauthorized
  ]

-- What the request must show: the token in the header, or without a usable header and on a stream
-- only, the token in the query.
abbrev pub Shows : List ℕ → Request → Type 0
Shows api_token req =
    (header_token req ≡ some api_token)
    ⊎ ((header_token req ≡ none) × (is_sse_stream req ≡ true) × (req.token ≡ some api_token))

module _ (digest : List ℕ → List ℕ) {A : Type 0} (api_token : List ℕ) (next : Request → A)
    (req : Request) where
  -- If no other text has the digest of the token, a request that shows the token in the header, or
  -- without a usable header on a stream in the query, is answered by the handlers, and any other
  -- request with `Unauthorized`.
  pub require_token_lem :
      ((t : List ℕ) → digest t ≡ digest api_token → t ≡ api_token)
      → ((require_token digest api_token next req ≡ ok (next req)) × Shows api_token req)
        ⊎ ((require_token digest api_token next req ≡ err AppError.unauthorized)
            × ¬ Shows api_token req)
  unfolding require_token provided tokens_match codes_eq
  require_token_lem no_collision = elim (Option-cases (header_token req)) [
    | inl none_there ↦ elim (Option-cases req.token) [
      | inl no_token ↦ ground arith
      | inr (t, there) ↦ ground (arith, no_collision t)
    ]
    | inr (t, there) ↦ ground (arith, no_collision t)
  ]
