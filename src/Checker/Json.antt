-- ===== src/Checker/Json.antt =====
-- `print_json_string` of Ksnap-engine/src/checker.c, and a reader of JSON strings as RFC 8259
-- describes them, for the escapes that a single byte can need.
pub mod Read
pub mod Utf8
pub mod Value
pub mod Parse
pub mod Shape
pub mod OneLine
pub mod RoundTrip
use ksnap.Base.{ℕ, ◌+◌, ◌-◌, ◌/◌, ◌%◌, List, [], ◌∷◌, ◌++◌, ltb, ◌==◌, if◌then◌else◌}
use ksnap.Base.Text.{Bytes, codes}

-- A digit of `%x`.
abbrev pub hex_char : ℕ → ℕ
hex_char d = if ltb d 10 then d + b'0' else d - 10 + b'a'

-- `printf("\\u%04x", c)` of a character below 0x20
abbrev pub unicode_escape : ℕ → Bytes
unicode_escape c = b'\\' ∷ b'u' ∷ b'0' ∷ b'0' ∷ hex_char (c / 16) ∷ hex_char (c % 16) ∷ []

abbrev pub escape : ℕ → Bytes
escape letter = b'\\' ∷ letter ∷ []

-- The `switch` on one character.
unfoldable pub json_char : ℕ → Bytes
json_char c =
    if c == b'"'
    then escape b'"'
    else if c == b'\\'
    then escape b'\\'
    else if c == 10
    then escape b'n'
    else if c == 13
    then escape b'r'
    else if c == 9
    then escape b't'
    else if ltb c 32
    then unicode_escape c
    else c ∷ []

unfoldable pub json_chars : Bytes → Bytes
json_chars [] = []
json_chars (c ∷ s) = json_char c ++ json_chars s

unfoldable pub print_json_string : Bytes → Bytes
unfolding json_chars json_char
print_json_string value = b'"' ∷ (json_chars value ++ (b'"' ∷ []))
