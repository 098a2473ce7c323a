-- ===== src/Ingest/Dashboard/Source.antt =====
-- What the dashboard of the acceptances reads off a bundle.
use ao2_control_plane.Base.{
  ℕ, ◌+◌, ◌-◌, ◌*◌, ◌^◌, String, Bool, false, not, ◌&&◌, ◌||◌, List, [], ◌∷◌, map, Option, none,
  some, leb, ltb, nat_eq, string_eq, option_eq, ◌==◌, if◌then◌else◌, any,
}
use ao2_control_plane.Base.Text.{codes, contains_codes}
use ao2_control_plane.Json.{Value, Items, number, array, no_items, item, get, as_str}

abbrev pub and_then {ℓ κ} : {A : Type ℓ} {B : Type κ} → Option A → (A → Option B) → Option B
and_then none f = none
and_then (some a) f = f a

unfoldable pub json_str : Value → String → Option String
unfolding get as_str
json_str value key = and_then (get key value) as_str

abbrev digits_from : ℕ → List ℕ → Option ℕ
digits_from sum [] = some sum
digits_from sum (c ∷ cs) =
    let rest = digits_from (sum * 10 + (c - b'0')) cs in
    if leb b'0' c && leb c b'9' then rest else none

abbrev in_u64 : Option ℕ → Option ℕ
in_u64 none = none
in_u64 (some n) = if ltb n (2 ^ 64) then some n else none

-- Of the numbers only the integers from 0 on are printed as digits alone.
unfoldable pub as_u64 : Value → Option ℕ
as_u64 (number []) = none
as_u64 (number (c ∷ cs)) = in_u64 (digits_from 0 (c ∷ cs))
as_u64 _ = none

unfoldable pub as_array : Value → Option Items
as_array (array items) = some items
as_array _ = none

abbrev find_item : (Value → Bool) → Items → Option Value
find_item p no_items = none
find_item p (item v rest) = if p v then some v else find_item p rest

-- `replace('\\', "/")`
abbrev with_slashes : List ℕ → List ℕ
with_slashes = map (λ c. if c == b'\\' then b'/' else c)

unfoldable pub provider_acceptance_path : String → Bool
unfolding nat_eq contains_codes
provider_acceptance_path value =
    contains_codes (with_slashes (codes value)) (codes "/target/provider-pilot-acceptance/")

unfoldable pub fixture_path : String → Bool
unfolding nat_eq contains_codes
fixture_path value = contains_codes (with_slashes (codes value)) (codes "/tests/fixtures/")

abbrev is_redacted : List ℕ → Bool
is_redacted [] = false
is_redacted (c ∷ cs) = c == b'<'

abbrev or_empty : Option String → String
or_empty none = ""
or_empty (some s) = s

unfoldable pub acceptance_source_class : Value → String
unfolding json_str string_eq nat_eq provider_acceptance_path fixture_path
acceptance_source_class bundle =
    let paths =
      or_empty (json_str bundle "root")
      ∷ or_empty (json_str bundle "target")
      ∷ or_empty (json_str bundle "evidence_pack")
      ∷ [] in
    elim (json_str bundle "source_class") [
      | some source_class ↦
          if source_class == "live"
          then "live"
          else if source_class == "fixture"
          then "fixture"
          else "unknown"
      | none ↦
          if any provider_acceptance_path paths && not (any (λ s. is_redacted (codes s)) paths)
          then "live"
          else if any (λ s. is_redacted (codes s) || fixture_path s) paths
          then "fixture"
          else "unknown"
    ]

-- The score of the bundle's own provider in its smoke test.
unfoldable pub acceptance_score : Value → Option ℕ
unfolding json_str get as_array as_u64 option_eq string_eq
acceptance_score bundle =
    and_then (and_then (and_then (get "smoke" bundle) (get "providers")) as_array) (λ providers.
      and_then (json_str bundle "provider") (λ provider.
        and_then
          (and_then (find_item (λ (i : Value). json_str i "provider" == some provider) providers)
            (get "score"))
          as_u64))
