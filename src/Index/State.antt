-- ===== src/Index/State.antt =====
-- The data of crates/ao2-cp-storage/src/index.rs, and the codec that `serde_json` is to it.
use Prim.Native.String.{len}
use ao2_control_plane.Base.{
  ℕ, ◌≡◌, Bool, true, false, ◌&&◌, ◌||◌, String, List, [], ◌∷◌, Option, none, some, all, leb,
  if◌then◌else◌, string_eq, nat_eq, ◌==◌,
}
use ao2_control_plane.Base.Text.{codes}
use ao2_control_plane.Disk.{Host, Bytes, IoError}

-- An instant is the number of nanoseconds since the earliest one that `DateTime<Utc>` has.
pub record IndexEntry : Type 0 where
  pub ingested_at : ℕ
  pub schema : String
  pub provider : Option String
  pub sha256 : String
  pub status : Option String
  pub size_bytes : ℕ

-- `digest_index`, a hash set, is a list without repetition.
pub record IndexState : Type 0 where
  pub loaded : Bool
  pub entries : List IndexEntry
  pub digest_index : List String
  pub jsonl_bytes : ℕ
  pub jsonl_modified_unix_nanos : Option ℕ
  pub malformed_lines_skipped : ℕ
  pub invalid_sha256_lines_skipped : ℕ

abbrev pub initial_state : IndexState
initial_state = record {
  loaded = false;
  entries = [];
  digest_index = [];
  jsonl_bytes = 0;
  jsonl_modified_unix_nanos = none;
  malformed_lines_skipped = 0;
  invalid_sha256_lines_skipped = 0;
}

-- `Storage`: the data directory, and the resident state that the mutex of the index guards.
pub record Storage : Type 0 where
  pub host : Host
  pub index : IndexState

pub data IndexStoreError : Type 0 where
  io : IoError → IndexStoreError
  invalid_sha256 : String → IndexStoreError

-- `serde_json::to_string` and `from_str` at an `IndexEntry`, and the test for UTF-8 that reading a
-- line makes.
pub record Codec : Type 0 where
  pub print : IndexEntry → Bytes
  pub parse : Bytes → Option IndexEntry
  pub is_utf8 : Bytes → Bool

-- One byte of `str::trim`'s white space, and the rest of the line; the multibyte ones in UTF-8.
abbrev is_ascii_space : ℕ → Bool
is_ascii_space b = leb 9 b && leb b 13 || b == 32

abbrev space₂ : ℕ → ℕ → Bool
space₂ a b = a == 0xc2 && (b == 0x85 || b == 0xa0)

abbrev space₃ : ℕ → ℕ → ℕ → Bool
space₃ a b c =
    a == 0xe1 && b == 0x9a && c == 0x80
    || a == 0xe2
      && (b == 0x80 && (leb 0x80 c && leb c 0x8a || c == 0xa8 || c == 0xa9 || c == 0xaf)
          || b == 0x81 && c == 0x9f)
    || a == 0xe3 && b == 0x80 && c == 0x80

-- `line.trim().is_empty()`
unfoldable pub is_blank : Bytes → Bool
unfolding nat_eq
is_blank [] = true
is_blank (a ∷ []) = is_ascii_space a
is_blank (a ∷ b ∷ []) = is_ascii_space a && is_ascii_space b || space₂ a b
is_blank (a ∷ b ∷ c ∷ rest) =
    let one = is_blank (b ∷ c ∷ rest) in
    let two = is_blank (c ∷ rest) in
    let three = is_blank rest in
    if is_ascii_space a
    then one
    else if space₂ a b
    then two
    else if space₃ a b c
    then three
    else false

-- What the index relies on of `serde_json` at an entry: it is printed as one line of visible text
-- that parses back to it.
pub record Prints (c : Codec) (e : IndexEntry) : Type 0 where
  pub parse-print : c.parse (c.print e) ≡ some e
  pub utf8 : c.is_utf8 (c.print e) ≡ true
  pub no_control : all (leb 32) (c.print e) ≡ true
  pub visible : is_blank (c.print e) ≡ false

-- `u8::is_ascii_hexdigit`
abbrev is_ascii_hexdigit : ℕ → Bool
is_ascii_hexdigit c =
    leb b'0' c && leb c b'9' || leb b'a' c && leb c b'f' || leb b'A' c && leb c b'F'

-- A byte above 127 is no hexadecimal digit, nor is the character that it belongs to.
unfoldable pub is_valid_sha256_hex : String → Bool
unfolding nat_eq
is_valid_sha256_hex value = len value == 64 && all is_ascii_hexdigit (codes value)
