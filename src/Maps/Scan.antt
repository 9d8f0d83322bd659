-- ===== src/Maps/Scan.antt =====
-- `parse_maps_line` of Ksnap-engine/src/maps.c, with what its call of `sscanf` does.
use ksnap.Base.{
  ℕ, zero, suc, ◌+◌, ◌-◌, ◌*◌, ◌%◌, ◌^◌, Bool, not, ◌&&◌, ◌||◌, Option, none, some, [], ◌∷◌, length,
  ltb, leb, ◌==◌, if◌then◌else◌,
}
use ksnap.Base.Text.{Bytes, is_digit}
use ksnap.Maps.{MapsLine}

-- `isspace`
abbrev pub is_space : ℕ → Bool
is_space c = c == 32 || leb 9 c && leb c 13

unfoldable pub skip_spaces : Bytes → Bytes
skip_spaces [] = []
skip_spaces (c ∷ s) = if is_space c then skip_spaces s else c ∷ s

-- The value of a hexadecimal digit.
unfoldable pub hex_digit : ℕ → Option ℕ
hex_digit c =
    if is_digit c
    then some (c - b'0')
    else if leb b'a' c && leb c b'f'
    then some (c - b'a' + 10)
    else if leb b'A' c && leb c b'F'
    then some (c - b'A' + 10)
    else none

-- The digits in front, read behind `acc`, and what follows them.
unfoldable pub hex_digits : ℕ → Bytes → ℕ × Bytes
hex_digits acc [] = (acc, [])
hex_digits acc (c ∷ s) = elim (hex_digit c) [
  | none ↦ (acc, c ∷ s)
  | some d ↦ hex_digits (acc * 16 + d) s
]

-- An unsigned long that overflows is the largest.
abbrev pub saturate : ℕ → ℕ
saturate n = if ltb n (2 ^ 64) then n else 2 ^ 64 - 1

-- At least one digit.
unfoldable pub hex_number : Bytes → Option (ℕ × Bytes)
unfolding hex_digits hex_digit
hex_number [] = none
hex_number (c ∷ s) = elim (hex_digit c) [
  | none ↦ none
  | some d ↦ let (n, rest) = hex_digits d s in some (saturate n, rest)
]

-- An optional `0x` in front; without digits behind it, the `0` is the number.
unfoldable pub hex_prefixed : Bytes → Option (ℕ × Bytes)
unfolding hex_number
hex_prefixed (z ∷ x ∷ s) =
    if z == b'0' && (x == b'x' || x == b'X')
    then elim (hex_number s) [ none ↦ some (0, x ∷ s) | some r ↦ some r ]
    else hex_number (z ∷ x ∷ s)
hex_prefixed s = hex_number s

-- `%lx`: spaces, an optional sign, digits.
unfoldable pub scan_hex : Bytes → Option (ℕ × Bytes)
unfolding skip_spaces hex_prefixed
scan_hex s = elim (skip_spaces s) [
  | [] ↦ none
  | c ∷ rest ↦
      if c == b'-'
      then elim (hex_prefixed rest) [
        | none ↦ none
        | some (n, more) ↦ some ((2 ^ 64 - n) % 2 ^ 64, more)
      ]
      else if c == b'+'
      then hex_prefixed rest
      else hex_prefixed (c ∷ rest)
]

-- The characters in front that are no space, at most as many as the width, and what follows them.
unfoldable pub word_front : ℕ → Bytes → Bytes × Bytes
word_front zero s = ([], s)
word_front (suc w) [] = ([], [])
word_front (suc w) (c ∷ s) =
    let (front, rest) = word_front w s in if is_space c then ([], c ∷ s) else (c ∷ front, rest)

-- `%<width>s`: spaces, and at least one character.
unfoldable pub scan_word : ℕ → Bytes → Option (Bytes × Bytes)
unfolding skip_spaces word_front
scan_word width s = elim (skip_spaces s) [
  | [] ↦ none
  | c ∷ rest ↦ some (word_front width (c ∷ rest))
]

-- `%*s`, a word of any length
abbrev pub skip_word : Bytes → Option (Bytes × Bytes)
skip_word s = scan_word (length s) s

-- `%*s %*s %4095s`: the device, the inode, and the path, which stays empty where a word is missing.
unfoldable pub scan_path : Bytes → Bytes
unfolding scan_word
scan_path s = elim (skip_word s) [
  | none ↦ []
  | some (_, inode) ↦ elim (skip_word inode) [
    | none ↦ []
    | some (_, rest) ↦ elim (scan_word 4095 rest) [ none ↦ [] | some (path, _) ↦ path ]
  ]
]

-- A literal `-` of the format.
unfoldable pub expect_dash : Bytes → Option Bytes
expect_dash [] = none
expect_dash (c ∷ s) = if c == b'-' then some s else none

infixl 5 ◌>>=◌
abbrev ◌>>=◌ : {A B : Type 0} → Option A → (A → Option B) → Option B
o >>= next = elim o [ none ↦ none | some a ↦ next a ]

-- The tests behind the call.
unfoldable pub checked_line : MapsLine → Option MapsLine
checked_line m =
    if not (length m.privileges == 4) then none else if leb m.end m.start then none else some m

unfoldable pub parse_maps_line : Bytes → Option MapsLine
unfolding scan_hex expect_dash scan_word scan_path checked_line
parse_maps_line line = do
  (start, r1) ← scan_hex line
  r2 ← expect_dash r1
  (end, r3) ← scan_hex r2
  (privileges, r4) ← scan_word 4 r3
  (file_offset, r5) ← scan_hex r4
  checked_line (record {
    start = start;
    end = end;
    file_offset = file_offset;
    privileges = privileges;
    path = scan_path r5;
  })
