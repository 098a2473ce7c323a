-- ===== src/Json/Literal.antt =====
-- A string literal can be read back, whatever follows it.
use ao2_control_plane.Base.{
  ℕ, zero, suc, ◌+◌, ◌*◌, ◌-◌, ◌/◌, ◌%◌, ◌<◌, ◌≡◌, ap, ◌∙◌, List, [], ◌∷◌, ◌++◌, append_assoc,
  Option, none, some, nat_eq, ◌==◌, leb, if◌then◌else◌, arith,
}
use ao2_control_plane.Json.Canonical.{hex_digit, escape, escape_all, write_string}

-- The value of a hexadecimal digit in lower case.
hex_value : ℕ → ℕ
hex_value c = if leb c b'9' then c - b'0' else c - b'a' + 10

-- A character before the rest of a literal that is read.
abbrev before : ℕ → Option (List ℕ × List ℕ) → Option (List ℕ × List ℕ)
before c none = none
before c (some (s, rest)) = some (c ∷ s, rest)

-- The character that a letter behind a backslash stands for.
abbrev letter : ℕ → ℕ
letter c =
    if c == b'n'
    then 10
    else if c == b'r'
    then 13
    else if c == b't'
    then 9
    else if c == b'b'
    then 8
    else if c == b'f'
    then 12
    else c

-- Where the reader stands: between characters, behind a backslash, or so many digits before the end
-- of a number.
data Mode : Type 0 where
  plain escaped : Mode
  digits : ℕ → ℕ → Mode

-- What a JSON reader takes a text for that stands behind the opening quote: the characters up to the
-- closing one, and the rest of the text.
read_from : Mode → List ℕ → Option (List ℕ × List ℕ)
unfolding hex_value nat_eq
read_from m [] = none
read_from plain (c ∷ rest) =
    let literal = read_from escaped rest in
    let more = before c (read_from plain rest) in
    if c == b'"' then some ([], rest) else if c == b'\\' then literal else more
read_from escaped (c ∷ rest) =
    let number = read_from (digits 3 0) rest in
    let more = before (letter c) (read_from plain rest) in if c == b'u' then number else more
read_from (digits zero v) (c ∷ rest) = before (v * 16 + hex_value c) (read_from plain rest)
read_from (digits (suc n) v) (c ∷ rest) = read_from (digits n (v * 16 + hex_value c)) rest

-- A whole literal, and what follows it.
pub read_literal : List ℕ → Option (List ℕ × List ℕ)
unfolding read_from nat_eq
read_literal [] = none
read_literal (c ∷ rest) = let literal = read_from plain rest in if c == b'"' then literal else none

hex_value-hex_digit : (n : ℕ) → n < 16 → hex_value (hex_digit n) ≡ n
unfolding hex_value hex_digit
hex_value-hex_digit n h = ground arith

read_from-escape :
    (c : ℕ) (rest : List ℕ) → read_from plain (escape c ++ rest) ≡ before c (read_from plain rest)
unfolding read_from escape nat_eq
read_from-escape c rest = ground (arith, hex_value-hex_digit (c / 16), hex_value-hex_digit (c % 16))

read_from-escape_all :
    (s rest : List ℕ) → read_from plain (escape_all s ++ b'"' ∷ rest) ≡ some (s, rest)
unfolding read_from escape_all nat_eq
read_from-escape_all [] rest = ground arith
read_from-escape_all (c ∷ s) rest =
    ap (read_from plain) (append_assoc (escape c) (escape_all s) (b'"' ∷ rest))
    ∙ read_from-escape c (escape_all s ++ b'"' ∷ rest)
    ∙ ap (before c) (read_from-escape_all s rest)

-- A JSON reader takes the literal that is written for a text back to that text, and leaves what
-- follows it: no text ends its literal early, and two texts never have one literal.
pub read_literal-write_string :
    (s rest : List ℕ) → read_literal (write_string s ++ rest) ≡ some (s, rest)
unfolding read_literal write_string nat_eq
read_literal-write_string s rest =
    let body : read_from plain ((escape_all s ++ b'"' ∷ []) ++ rest) ≡ some (s, rest) =
      ap (read_from plain) (append_assoc (escape_all s) (b'"' ∷ []) rest)
      ∙ read_from-escape_all s rest in
    ground arith
