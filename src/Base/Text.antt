-- ===== src/Base/Text.antt =====
-- The methods of `str` that walk over its characters, on the list of their code points.
use Prim.Native.Char.{code}
use Prim.Native.Nat.{ℕ, ◌+◌, ◌-◌}
use Prim.Native.String.{String}
use mathlib.Core.Bool.{Bool, true, false, ◌&&◌, ◌||◌}
use mathlib.Core.List.{List, [], ◌∷◌, map, reverse}
use native.Mathlib.Decide.{ℕ_discrete}
use mathlib.Core.Path.{◌≡◌}
use mathlib.Core.Logic.{◌↔◌}
use native.Mathlib.Omega.{arith}
use ao2_control_plane.Base.Equality.{if◌then◌else◌, Eq, ◌==◌, nat_eq, string_eq}
use ao2_control_plane.Base.Lists.{leb}

abbrev pub codes : String → List ℕ
codes String.[] = []
codes (String.◌∷◌ c s) = code c ∷ codes s

unfoldable pub List_ℕ-discrete : Discrete (List ℕ)
List_ℕ-discrete = hlevel ℕ_discrete

instance unfoldable pub codes_eq : Eq (List ℕ)
unfolding List_ℕ-discrete
codes_eq = record { dec = List_ℕ-discrete }

-- `char::is_whitespace`
unfoldable pub is_whitespace : ℕ → Bool
unfolding nat_eq
is_whitespace c =
    leb 9 c && leb c 13
    || c == 32
    || c == 0x85
    || c == 0xa0
    || c == 0x1680
    || leb 0x2000 c && leb c 0x200a
    || c == 0x2028
    || c == 0x2029
    || c == 0x202f
    || c == 0x205f
    || c == 0x3000

unfoldable pub trim_start : List ℕ → List ℕ
unfolding is_whitespace
trim_start [] = []
trim_start (c ∷ cs) = let rest = trim_start cs in if is_whitespace c then rest else c ∷ cs

-- `str::trim`
unfoldable pub trim : List ℕ → List ℕ
unfolding trim_start
trim cs = reverse (trim_start (reverse (trim_start cs)))

unfoldable pub ascii_lower : ℕ → ℕ
ascii_lower c = if leb b'A' c && leb c b'Z' then c + 32 else c

unfoldable pub ascii_upper : ℕ → ℕ
ascii_upper c = if leb b'a' c && leb c b'z' then c - 32 else c

unfoldable pub to_ascii_lowercase : List ℕ → List ℕ
unfolding ascii_lower
to_ascii_lowercase = map ascii_lower

unfoldable pub to_ascii_uppercase : List ℕ → List ℕ
unfolding ascii_upper
to_ascii_uppercase = map ascii_upper

unfoldable pub starts_with_codes : List ℕ → List ℕ → Bool
unfolding nat_eq
starts_with_codes cs [] = true
starts_with_codes [] (p ∷ ps) = false
starts_with_codes (c ∷ cs) (p ∷ ps) = c == p && starts_with_codes cs ps

-- `str::contains` of a text.
unfoldable pub contains_codes : List ℕ → List ℕ → Bool
unfolding starts_with_codes
contains_codes [] ps = starts_with_codes [] ps
contains_codes (c ∷ cs) ps = starts_with_codes (c ∷ cs) ps || contains_codes cs ps

-- The test for equality of texts.
pub string_eq_iff : (s t : String) → ((s == t) ≡ true) ↔ (s ≡ t)
string_eq_iff s t = (λ same. ground arith, λ same. ground arith)
