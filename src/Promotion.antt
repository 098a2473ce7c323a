-- ===== src/Promotion.antt =====
-- crates/ao2-cp-server/src/handlers/phase1_promotion.rs: the evidence of a promotion, the gaps that are
-- left, and the panel of the operator.
pub mod Smoke
pub mod Validate
pub mod Handlers
pub mod Decision
pub mod Provenance
pub mod Immutable
pub mod Evidence
pub mod Audit
pub mod Dashboard
pub mod Panel
pub mod Gaps
pub mod Summary
use ao2_control_plane.Base.{
  String, ◌<>◌, Bool, true, false, not, List, [], ◌∷◌, Option, none, some, Result, ok, err,
  string_eq, ◌==◌, if◌then◌else◌, require, then_do,
}
use ao2_control_plane.Base.Text.{codes, codes_eq, trim}
use ao2_control_plane.Json.{Value, get, as_str, as_bool}
use ao2_control_plane.Server.AppError.{AppError}
use ao2_control_plane.Ingest.Dashboard.Source.{and_then, json_str}

abbrev pub or_else {ℓ} : {A : Type ℓ} → Option A → A → A
or_else none otherwise = otherwise
or_else (some a) otherwise = a

-- `Option::or`
abbrev pub first_of {ℓ} : {A : Type ℓ} → Option A → Option A → Option A
first_of none b = b
first_of (some a) b = some a

abbrev pub is_some {ℓ} : {A : Type ℓ} → Option A → Bool
is_some none = false
is_some (some a) = true

unfoldable pub schema_of : Value → String
unfolding get as_str
schema_of v = or_else (and_then (first_of (get "schema" v) (get "schema_version" v)) as_str) ""

abbrev pub bool_at : String → Value → Option Bool
bool_at key v = and_then (get key v) as_bool

-- `filter(|value| !value.trim().is_empty())`
unfoldable pub not_blank : Option String → Option String
unfolding trim codes_eq
not_blank none = none
not_blank (some s) = if trim (codes s) == [] then none else some s

-- The loop over keys that must have texts, with the first part of its error.
unfoldable pub require_texts : String → List String → Value → Result AppError (Unit {0})
unfolding json_str not_blank
require_texts missing [] v = ok tt
require_texts missing (key ∷ keys) v =
    then_do
      (require (is_some (not_blank (json_str v key))) (AppError.schema_invalid (missing <> key)))
      (λ u. require_texts missing keys v)

unfoldable pub require_schema : String → Value → Result AppError (Unit {0})
unfolding schema_of string_eq
require_schema schema v =
    require (schema_of v == schema)
      (AppError.schema_unknown ("expected schema " <> schema <> ", got " <> schema_of v))
