-- ===== src/Json.antt =====
-- Values of `serde_json::Value`, the readers of them that the program uses, and the canonical form of
-- crates/ao2-cp-schema/src/canonical.rs.
pub mod Canonical
pub mod Order
pub mod Literal
use ao2_control_plane.Base.{
  ℕ, ◌≡◌, String, Bool, true, false, List, [], ◌∷◌, Option, none, some, string_eq, ◌==◌,
  if◌then◌else◌, arith,
}

-- A number is kept as the text that `to_string` prints for it, by its code points. The members of an
-- object have distinct keys; their order is that of the map.
mutual
  pub data Value : Type 0 where
    null : Value
    bool : Bool → Value
    number : List ℕ → Value
    string : String → Value
    array : Items → Value
    object : Members → Value

  pub data Items : Type 0 where
    no_items : Items
    item : Value → Items → Items

  pub data Members : Type 0 where
    no_members : Members
    member : String → Value → Members → Members

unfoldable pub find_member : String → Members → Option Value
unfolding string_eq
find_member key no_members = none
find_member key (member k v rest) = if k == key then some v else find_member key rest

-- `get` of a value, which only an object answers.
unfoldable pub get : String → Value → Option Value
unfolding find_member
get key (object members) = find_member key members
get key _ = none

unfoldable pub as_str : Value → Option String
as_str (string s) = some s
as_str _ = none

unfoldable pub as_bool : Value → Option Bool
as_bool (bool b) = some b
as_bool _ = none

unfoldable pub as_object : Value → Option Members
as_object (object members) = some members
as_object _ = none

-- `insert` of a map: a value of the key is replaced where it stands.
unfoldable pub insert_member : String → Value → Members → Members
unfolding string_eq
insert_member key v no_members = member key v no_members
insert_member key v (member k w rest) =
    if k == key then member key v rest else member k w (insert_member key v rest)

-- `value[key] = v` of an object, or of `null`, which becomes one. Any other value panics.
unfoldable pub set : String → Value → Value → Option Value
unfolding insert_member
set key v (object members) = some (object (insert_member key v members))
set key v null = some (object (member key v no_members))
set key v _ = none

pub find_member-insert_member :
    (key k : String) (v : Value) (members : Members)
    → find_member k (insert_member key v members)
      ≡ (if key == k then some v else find_member k members)
unfolding find_member insert_member
find_member-insert_member key k v no_members = ground arith
find_member-insert_member key k v (member j w rest) =
    ground (arith, find_member-insert_member key k v rest)
