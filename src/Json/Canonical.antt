-- ===== src/Json/Canonical.antt =====
-- `canonical_json`. What the writer pushes is the list of the code points.
use ao2_control_plane.Base.{
  ℕ, ◌+◌, ◌-◌, ◌/◌, ◌%◌, String, Bool, true, false, ◌&&◌, ◌||◌, List, [], ◌∷◌, ◌++◌, nat_eq, ◌==◌,
  ltb, if◌then◌else◌, sort_by,
}
use ao2_control_plane.Base.Text.{codes}
use ao2_control_plane.Json.{
  Value, Items, Members, null, bool, number, string, array, object, no_items, item, no_members,
  member,
}

unfoldable pub hex_digit : ℕ → ℕ
hex_digit n = if ltb n 10 then b'0' + n else b'a' + (n - 10)

-- One character of a string literal.
unfoldable pub escape : ℕ → List ℕ
unfolding nat_eq hex_digit
escape c =
    if c == b'"'
    then b'\\' ∷ b'"' ∷ []
    else if c == b'\\'
    then b'\\' ∷ b'\\' ∷ []
    else if c == 10
    then b'\\' ∷ b'n' ∷ []
    else if c == 13
    then b'\\' ∷ b'r' ∷ []
    else if c == 9
    then b'\\' ∷ b't' ∷ []
    else if c == 8
    then b'\\' ∷ b'b' ∷ []
    else if c == 12
    then b'\\' ∷ b'f' ∷ []
    else if ltb c 32
    then b'\\' ∷ b'u' ∷ b'0' ∷ b'0' ∷ hex_digit (c / 16) ∷ hex_digit (c % 16) ∷ []
    else c ∷ []

unfoldable pub escape_all : List ℕ → List ℕ
unfolding escape
escape_all [] = []
escape_all (c ∷ cs) = escape c ++ escape_all cs

unfoldable pub write_string : List ℕ → List ℕ
unfolding escape_all
write_string s = b'"' ∷ escape_all s ++ b'"' ∷ []

-- The order of `String`, by bytes, which is that by code points.
unfoldable pub codes_le : List ℕ → List ℕ → Bool
unfolding nat_eq
codes_le [] ds = true
codes_le (c ∷ cs) [] = false
codes_le (c ∷ cs) (d ∷ ds) = ltb c d || c == d && codes_le cs ds

abbrev pub key_le : List ℕ × List ℕ → List ℕ × List ℕ → Bool
key_le a b = codes_le a.0 b.0

-- The members that are written, behind a comma but for the first.
abbrev pub join : Bool → List (List ℕ × List ℕ) → List ℕ
join first [] = []
join first ((k, text) ∷ rest) =
    (if first then [] else b',' ∷ []) ++ (write_string k ++ b':' ∷ (text ++ join false rest))

-- Each value is written where it stands, and the members are put in order by their keys then.
unfoldable mutual
  unfolding write_string sort_by codes_le

  pub write_value : Value → List ℕ
  write_value null = codes "null"
  write_value (bool b) = if b then codes "true" else codes "false"
  write_value (number text) = text
  write_value (string s) = write_string (codes s)
  write_value (array items) = b'[' ∷ (write_items true items ++ b']' ∷ [])
  write_value (object members) =
      b'{' ∷ (join true (sort_by key_le (write_members members)) ++ b'}' ∷ [])

  pub write_items : Bool → Items → List ℕ
  write_items first no_items = []
  write_items first (item v rest) =
      (if first then [] else b',' ∷ []) ++ (write_value v ++ write_items false rest)

  pub write_members : Members → List (List ℕ × List ℕ)
  write_members no_members = []
  write_members (member k v rest) = (codes k, write_value v) ∷ write_members rest

abbrev pub canonical_json : Value → List ℕ
canonical_json = write_value

-- `sha256_of_canonical`, by the hash that the program takes from `sha2`.
abbrev pub sha256_of_canonical : (List ℕ → String) → Value → String
sha256_of_canonical sha256_hex v = sha256_hex (canonical_json v)
