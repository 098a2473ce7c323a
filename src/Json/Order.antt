-- ===== src/Json/Order.antt =====
-- The canonical form does not depend on the order of the members.
use ao2_control_plane.Base.{
  ℕ, ◌≡◌, ◌≢◌, refl, ap, ◌∙◌, String, Bool, true, false, List, [], ◌∷◌, ◌++◌, nat_eq, if◌then◌else◌,
  arith, sort_by, insert_by,
}
use mathlib.Core.Path.{ap₂}
use ao2_control_plane.Base.Text.{codes}
use ao2_control_plane.Json.{
  Value, Items, Members, array, object, no_items, item, no_members, member,
}
use ao2_control_plane.Json.Canonical.{
  codes_le, key_le, join, write_value, write_items, write_members, canonical_json,
}

codes_le-total : (s t : List ℕ) → codes_le s t ≡ false → codes_le t s ≡ true
unfolding codes_le nat_eq
codes_le-total [] t h = ground arith
codes_le-total (c ∷ cs) [] h = refl
codes_le-total (c ∷ cs) (d ∷ ds) h = ground (arith, codes_le-total cs ds)

codes_le_trans : (s t u : List ℕ) → codes_le s t ≡ true → codes_le t u ≡ true → codes_le s u ≡ true
unfolding codes_le nat_eq
codes_le_trans [] t u h k = refl
codes_le_trans (c ∷ cs) [] u h k = ground arith
codes_le_trans (c ∷ cs) (d ∷ ds) [] h k = ground arith
codes_le_trans (c ∷ cs) (d ∷ ds) (e ∷ es) h k = ground (arith, codes_le_trans cs ds es)

codes_le-antisym : (s t : List ℕ) → codes_le s t ≡ true → codes_le t s ≡ true → s ≡ t
unfolding codes_le nat_eq
codes_le-antisym [] [] h k = refl
codes_le-antisym [] (d ∷ ds) h k = ground arith
codes_le-antisym (c ∷ cs) [] h k = ground arith
codes_le-antisym (c ∷ cs) (d ∷ ds) h k = ground (arith, codes_le-antisym cs ds)

-- A member as it is sorted.
abbrev Written : Type 0
Written = List ℕ × List ℕ

-- Two members of different keys go to their places in either order.
insert_by_comm :
    (x y : Written) (zs : List Written)
    → x.0 ≢ y.0
    → insert_by key_le x (insert_by key_le y zs) ≡ insert_by key_le y (insert_by key_le x zs)
unfolding insert_by
insert_by_comm x y [] ne = ground (arith, codes_le-total x.0 y.0, codes_le-antisym x.0 y.0)
insert_by_comm x y (z ∷ zs) ne = ground (
  arith,
  codes_le-total x.0 y.0,
  codes_le-antisym x.0 y.0,
  codes_le-total x.0 z.0,
  codes_le-total y.0 z.0,
  codes_le_trans x.0 y.0 z.0,
  codes_le_trans y.0 x.0 z.0,
  codes_le_trans y.0 z.0 x.0,
  codes_le_trans x.0 z.0 y.0,
  insert_by_comm x y zs ne,
)

-- Two values that differ only by the order of members, at any depth.
mutual
  pub data Reordered : Value → Value → Type 0 where
    same : (v : Value) → Reordered v v
    in_array : {xs ys : Items} → ReorderedItems xs ys → Reordered (array xs) (array ys)
    in_object : {ms ns : Members} → ReorderedMembers ms ns → Reordered (object ms) (object ns)

  pub data ReorderedItems : Items → Items → Type 0 where
    no_more : ReorderedItems no_items no_items
    each :
        {v w : Value} {xs ys : Items}
        → Reordered v w
        → ReorderedItems xs ys
        → ReorderedItems (item v xs) (item w ys)

  pub data ReorderedMembers : Members → Members → Type 0 where
    finished : ReorderedMembers no_members no_members
    below :
        {k : String} {v w : Value} {ms ns : Members}
        → Reordered v w
        → ReorderedMembers ms ns
        → ReorderedMembers (member k v ms) (member k w ns)
    swapped :
        {j k : String} {v w : Value} {ms : Members}
        → codes j ≢ codes k
        → ReorderedMembers (member j v (member k w ms)) (member k w (member j v ms))
    after :
        {ms ns os : Members}
        → ReorderedMembers ms ns
        → ReorderedMembers ns os
        → ReorderedMembers ms os

-- The members as they are sorted.
unfoldable sorted : Members → List Written
unfolding sort_by
sorted ms = sort_by key_le (write_members ms)

mutual
  unfolding write_value sorted

  canonical-Reordered : {v w : Value} → Reordered v w → write_value v ≡ write_value w
  canonical-Reordered (same v) = refl
  canonical-Reordered (in_array r) = ap (λ t. b'[' ∷ (t ++ b']' ∷ [])) (items-Reordered true r)
  canonical-Reordered (in_object r) =
      ap (λ l. b'{' ∷ (join true l ++ b'}' ∷ [])) (members-Reordered r)

  items-Reordered :
      (first : Bool) {xs ys : Items}
      → ReorderedItems xs ys
      → write_items first xs ≡ write_items first ys
  items-Reordered first no_more = refl
  items-Reordered first (each r rs) =
      ap₂ (λ s t. (if first then [] else b',' ∷ []) ++ (s ++ t)) (canonical-Reordered r)
        (items-Reordered false rs)

  members-Reordered : {ms ns : Members} → ReorderedMembers ms ns → sorted ms ≡ sorted ns
  members-Reordered finished = refl
  members-Reordered (below {k = k} r rs) =
      ap₂ (λ t l. insert_by key_le (codes k, t) l) (canonical-Reordered r) (members-Reordered rs)
  members-Reordered (swapped {j = j} {k = k} {v = v} {w = w} {ms = ms} ne) =
      insert_by_comm (codes j, write_value v) (codes k, write_value w) (sorted ms) ne
  members-Reordered (after r rs) = members-Reordered r ∙ members-Reordered rs

-- Values that differ only by the order of the members of their objects, at any depth, have one
-- canonical text, so one digest.
pub canonical_json-Reordered : {v w : Value} → Reordered v w → canonical_json v ≡ canonical_json w
canonical_json-Reordered r = canonical-Reordered r
