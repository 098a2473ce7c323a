-- ===== src/Index/Load.antt =====
-- `load_from_disk`: the lines of the ledger, and what the loop over them keeps.
use ao2_control_plane.Base.{
  ℕ, ◌+◌, List, [], ◌∷◌, ◌++◌, Option, none, some, nat_eq, ◌==◌, if◌then◌else◌,
}
use ao2_control_plane.Disk.{Bytes, File}
use ao2_control_plane.Index.State.{IndexEntry, Codec, is_blank, is_valid_sha256_hex}

-- A line that ends in a line feed loses a carriage return before it.
unfoldable pub strip_cr : Bytes → Bytes
unfolding nat_eq
strip_cr [] = []
strip_cr (b ∷ []) = if b == 13 then [] else b ∷ []
strip_cr (b ∷ c ∷ bs) = b ∷ strip_cr (c ∷ bs)

-- What follows the last line feed is a line if it is not empty.
abbrev pub last_line : Bytes → List Bytes
last_line [] = []
last_line (a ∷ line) = (a ∷ line) ∷ []

-- `AsyncBufReadExt::lines`, with the bytes of the current line read so far.
unfoldable pub lines_from : Bytes → Bytes → List Bytes
unfolding strip_cr nat_eq
lines_from line [] = last_line line
lines_from line (b ∷ bs) =
    let next = lines_from [] bs in
    let more = lines_from (line ++ b ∷ []) bs in if b == 10 then strip_cr line ∷ next else more

-- What one line is to the loop.
pub data LineKind : Type 0 where
  blank malformed invalid_digest not_utf8 : LineKind
  entry : IndexEntry → LineKind

abbrev pub parsed : Option IndexEntry → LineKind
parsed none = malformed
parsed (some e) = if is_valid_sha256_hex e.sha256 then entry e else invalid_digest

unfoldable pub line_kind : Codec → Bytes → LineKind
line_kind c line =
    if c.is_utf8 line then (if is_blank line then blank else parsed (c.parse line)) else not_utf8

-- The lists and counters of `IndexLoad` that the loop fills.
pub record Loaded : Type 0 where
  pub entries : List IndexEntry
  pub malformed_lines_skipped : ℕ
  pub invalid_sha256_lines_skipped : ℕ

abbrev pub nothing : Loaded
nothing = record { entries = []; malformed_lines_skipped = 0; invalid_sha256_lines_skipped = 0 }

-- One turn of the loop; a line that is no UTF-8 ends it with an error.
unfoldable pub step : LineKind → Loaded → Option Loaded
step blank l = some l
step malformed l = some (record l { malformed_lines_skipped = l.malformed_lines_skipped + 1 })
step invalid_digest l =
    some (record l { invalid_sha256_lines_skipped = l.invalid_sha256_lines_skipped + 1 })
step not_utf8 l = none
step (entry e) l = some (record l { entries = l.entries ++ e ∷ [] })

abbrev pub then_load : Option Loaded → (Loaded → Option Loaded) → Option Loaded
then_load none f = none
then_load (some l) f = f l

unfoldable pub load_lines : Codec → List Bytes → Loaded → Option Loaded
unfolding line_kind step
load_lines c [] l = some l
load_lines c (line ∷ rest) l = then_load (step (line_kind c line) l) (load_lines c rest)

-- What a load reads from the file, or from no file.
unfoldable pub load_file : Codec → Option File → Option Loaded
unfolding load_lines lines_from
load_file c none = some nothing
load_file c (some f) = load_lines c (lines_from [] f.content) nothing
