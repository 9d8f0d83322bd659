-- ===== src/Checker/Json/Read.antt =====
-- A reader of JSON strings, and that it reads back what `print_json_string` writes.
use mathlib.Core.List.{append_assoc}
use ksnap.Base.{
  ℕ, ◌+◌, ◌-◌, ◌*◌, ◌/◌, ◌%◌, ◌<◌, ◌≡◌, refl, true, ◌∙◌, ap, false, ◌&&◌, Option, none, some, [],
  ◌∷◌, ◌++◌, arith, ltb, leb, ◌==◌, if◌then◌else◌,
}
use ksnap.Base.Text.{Bytes}
use ksnap.Checker.Json.Utf8.{is_utf8, print_json_string-is_utf8}
use ksnap.Checker.Json.{hex_char, unicode_escape, escape, json_char, json_chars, print_json_string}

-- The value of a hexadecimal digit, in either case; no other character has one.
abbrev hex_value : ℕ → Option ℕ
hex_value c =
    if leb b'0' c && leb c b'9'
    then some (c - b'0')
    else if leb b'a' c && leb c b'f'
    then some (c + 10 - b'a')
    else if leb b'A' c && leb c b'F'
    then some (c + 10 - b'A')
    else none

abbrev cons_to : ℕ → Option (Bytes × Bytes) → Option (Bytes × Bytes)
cons_to c none = none
cons_to c (some (s, rest)) = some (c ∷ s, rest)

-- The character that the letter behind a backslash stands for.
abbrev unescaped : ℕ → Option ℕ
unescaped letter =
    if letter == b'"'
    then some b'"'
    else if letter == b'\\'
    then some b'\\'
    else if letter == b'n'
    then some 10
    else if letter == b'r'
    then some 13
    else if letter == b't'
    then some 9
    else none

-- Where the reader is: between characters, behind a backslash, or behind `\u` with the number that
-- the digits read so far give and the count of those still missing.
pub data Place : Type 0 where
  plain : Place
  behind_backslash : Place
  behind_u : ℕ → ℕ → Place

-- The characters up to the closing quote, and what follows it.
unfoldable pub read_chars : Place → Bytes → Option (Bytes × Bytes)
read_chars place [] = none
read_chars plain (c ∷ s) =
    let escaped = read_chars behind_backslash s in
    let more = read_chars plain s in
    if c == b'"'
    then some ([], s)
    else if c == b'\\'
    then escaped
    else if ltb c 32
    then none
    else cons_to c more
read_chars behind_backslash (c ∷ s) =
    let unicode = read_chars (behind_u 4 0) s in
    let more = read_chars plain s in
    if c == b'u' then unicode else elim (unescaped c) [ none ↦ none | some a ↦ cons_to a more ]
read_chars (behind_u missing value) (c ∷ s) =
    let more = read_chars plain s in
    elim (hex_value c) [
      | none ↦ none
      | some digit ↦
          let next = read_chars (behind_u (missing - 1) (value * 16 + digit)) s in
          if missing == 1 then cons_to (value * 16 + digit) more else next
    ]

unfoldable pub read_json_string : Bytes → Option (Bytes × Bytes)
unfolding read_chars
read_json_string [] = none
read_json_string (c ∷ s) = if c == b'"' then read_chars plain s else none

hex_value-hex_char : (d : ℕ) → d < 16 → hex_value (hex_char d) ≡ some d
hex_value-hex_char d h = ground arith

read_chars-unicode_escape :
    (c : ℕ) (s : Bytes)
    → c < 32
    → read_chars plain (unicode_escape c ++ s) ≡ cons_to c (read_chars plain s)
unfolding read_chars
read_chars-unicode_escape c s h =
    rw (hex_value-hex_char (c / 16) (omega arith), hex_value-hex_char (c % 16) (omega arith))
      (ap (λ v. cons_to v (read_chars plain s)) (omega arith))

read_chars-escape :
    (c letter : ℕ) (s : Bytes)
    → unescaped letter ≡ some c
    → (letter == b'u') ≡ false
    → read_chars plain (escape letter ++ s) ≡ cons_to c (read_chars plain s)
unfolding read_chars
read_chars-escape c letter s h k = ground (arith, h, k)

read_chars-char :
    (c : ℕ) (s : Bytes)
    → (c == b'"') ≡ false
    → (c == b'\\') ≡ false
    → ltb c 32 ≡ false
    → read_chars plain (c ∷ s) ≡ cons_to c (read_chars plain s)
unfolding read_chars
read_chars-char c s h k m = ground (arith, h, k, m)

-- The escape of each character reads as that character.
read_chars-json_char :
    (c : ℕ) (s : Bytes) → read_chars plain (json_char c ++ s) ≡ cons_to c (read_chars plain s)
unfolding json_char
read_chars-json_char c s = ground (
  arith,
  read_chars-escape c b'"' s,
  read_chars-escape c b'\\' s,
  read_chars-escape c b'n' s,
  read_chars-escape c b'r' s,
  read_chars-escape c b't' s,
  read_chars-unicode_escape c s,
  read_chars-char c s,
)

read_chars-json_chars :
    (value rest : Bytes) → read_chars plain (json_chars value ++ (b'"' ∷ rest)) ≡ some (value, rest)
unfolding json_chars read_chars
read_chars-json_chars [] rest = refl
read_chars-json_chars (c ∷ value) rest =
    rw (append_assoc (json_char c) (json_chars value) (b'"' ∷ rest)) (
      read_chars-json_char c (json_chars value ++ (b'"' ∷ rest))
      ∙ ap (cons_to c) (read_chars-json_chars value rest))

-- The reader takes the printed form, and stops behind it.
pub read_json_string-printed :
    (value rest : Bytes) → read_json_string (print_json_string value ++ rest) ≡ some (value, rest)
unfolding read_json_string print_json_string
read_json_string-printed value rest =
    rw (append_assoc (json_chars value) (b'"' ∷ []) rest) (read_chars-json_chars value rest)

-- The printed form of any text is a JSON string for a reader that wants four hexadecimal digits
-- behind `\u` and refuses unescaped characters below 0x20: it finds the end, and the same bytes.
-- If the text is in UTF-8, so is its printed form.
pub read_json_string-print_json_string :
    (value rest : Bytes)
    → (read_json_string (print_json_string value ++ rest) ≡ some (value, rest))
      × (is_utf8 value ≡ true → is_utf8 (print_json_string value) ≡ true)
read_json_string-print_json_string value rest =
    (read_json_string-printed value rest, print_json_string-is_utf8 value)
