-- ===== src/Checker/Json/Utf8.antt =====
-- UTF-8 as RFC 3629 has it, and that `print_json_string` keeps it.
use mathlib.Core.List.{append_assoc}
use ksnap.Base.{
  ◌/◌, ◌%◌, ℕ, zero, suc, ◌≤◌, ◌<◌, ◌≡◌, refl, sym, ap, ◌∙◌, inl, inr, Bool, true, false, ◌&&◌,
  Option, none, some, [], ◌∷◌, ◌++◌, arith, ltb, leb, ◌==◌, if◌then◌else◌, Bool-cases, Option-cases,
}
use ksnap.Base.Text.{Bytes}
use ksnap.Checker.Json.{hex_char, escape, unicode_escape, json_char, json_chars, print_json_string}

-- How many bytes are missing from a character, and the bounds of the next one.
pub record Missing : Type 0 where
  pub count : ℕ
  pub low : ℕ
  pub high : ℕ

-- What a first byte from 0x80 on asks for.
abbrev pub lead : ℕ → Option Missing
lead c =
    if ltb c 0xC2
    then none
    else if ltb c 0xE0
    then some (record { count = 1; low = 0x80; high = 0xBF })
    else if c == 0xE0
    then some (record { count = 2; low = 0xA0; high = 0xBF })
    else if c == 0xED
    then some (record { count = 2; low = 0x80; high = 0x9F })
    else if ltb c 0xF0
    then some (record { count = 2; low = 0x80; high = 0xBF })
    else if c == 0xF0
    then some (record { count = 3; low = 0x90; high = 0xBF })
    else if ltb c 0xF4
    then some (record { count = 3; low = 0x80; high = 0xBF })
    else if c == 0xF4
    then some (record { count = 3; low = 0x80; high = 0x8F })
    else none

-- Whether the bytes end the character that is begun and go on as UTF-8.
unfoldable pub continues_utf8 : ℕ → ℕ → ℕ → Bytes → Bool
continues_utf8 zero low high [] = true
continues_utf8 (suc n) low high [] = false
continues_utf8 zero low high (c ∷ s) =
    let plain = continues_utf8 0 0 0 s in
    if ltb c 0x80
    then plain
    else elim (lead c) [ none ↦ false | some m ↦ continues_utf8 m.count m.low m.high s ]
continues_utf8 (suc n) low high (c ∷ s) = leb low c && leb c high && continues_utf8 n 0x80 0xBF s

abbrev pub is_utf8 : Bytes → Bool
is_utf8 s = continues_utf8 0 0 0 s

lead-low : (c : ℕ) (m : Missing) → lead c ≡ some m → 0x80 ≤ m.low
lead-low c m h = ground (arith, h)

-- A byte from 0x80 on is printed as it is.
json_char-high : (c : ℕ) → 0x80 ≤ c → json_char c ≡ c ∷ []
unfolding json_char
json_char-high c h = ground (arith, h)

-- Between characters the bounds do not matter.
between : (low high : ℕ) (s : Bytes) → continues_utf8 0 low high s ≡ is_utf8 s
unfolding continues_utf8
between low high [] = refl
between low high (c ∷ s) = refl

high_byte :
    (c : ℕ) (m : Missing) (s : Bytes)
    → 0x80 ≤ c
    → lead c ≡ some m
    → is_utf8 (c ∷ s) ≡ continues_utf8 m.count m.low m.high s
unfolding continues_utf8
high_byte c m s h is = ground (arith, h, is)

no_lead : (c : ℕ) (s : Bytes) → 0x80 ≤ c → lead c ≡ none → is_utf8 (c ∷ s) ≡ false
unfolding continues_utf8
no_lead c s h is = ground (arith, h, is)

low_byte : (c : ℕ) (s : Bytes) → c < 0x80 → is_utf8 (c ∷ s) ≡ is_utf8 s
unfolding continues_utf8
low_byte c s h = ground (arith, h)

escape-is_utf8 : (letter : ℕ) (s : Bytes) → letter < 0x80 → is_utf8 (escape letter ++ s) ≡ is_utf8 s
escape-is_utf8 letter s h = low_byte b'\\' (letter ∷ s) (omega arith) ∙ low_byte letter s h

hex_char-lt : (d : ℕ) → d < 16 → hex_char d < 0x80
hex_char-lt d h = ground arith

unicode_escape-is_utf8 : (c : ℕ) (s : Bytes) → c < 32 → is_utf8 (unicode_escape c ++ s) ≡ is_utf8 s
unicode_escape-is_utf8 c s h =
    let digits = hex_char (c / 16) ∷ hex_char (c % 16) ∷ s in
    low_byte b'\\' (b'u' ∷ b'0' ∷ b'0' ∷ digits) (omega arith)
    ∙ low_byte b'u' (b'0' ∷ b'0' ∷ digits) (omega arith)
    ∙ low_byte b'0' (b'0' ∷ digits) (omega arith)
    ∙ low_byte b'0' digits (omega arith)
    ∙ low_byte (hex_char (c / 16)) (hex_char (c % 16) ∷ s) (hex_char-lt (c / 16) (omega arith))
    ∙ low_byte (hex_char (c % 16)) s (hex_char-lt (c % 16) (omega arith))

-- A character below 0x80 is printed in such characters.
json_char-low : (c : ℕ) (s : Bytes) → c < 0x80 → is_utf8 (json_char c ++ s) ≡ is_utf8 s
unfolding json_char
json_char-low c s h = ground (
  arith,
  escape-is_utf8 b'"' s (omega arith),
  escape-is_utf8 b'\\' s (omega arith),
  escape-is_utf8 b'n' s (omega arith),
  escape-is_utf8 b'r' s (omega arith),
  escape-is_utf8 b't' s (omega arith),
  unicode_escape-is_utf8 c s,
  low_byte c s h,
)

inner_byte :
    (n low high c : ℕ) (s : Bytes)
    → continues_utf8 (suc n) low high (c ∷ s) ≡ true
    → (low ≤ c) × (c ≤ high) × (continues_utf8 n 0x80 0xBF s ≡ true)
unfolding continues_utf8
inner_byte n low high c s h = (ground (arith, h), ground (arith, h), ground (arith, h))

inner_byte_back :
    (n low high c : ℕ) (s : Bytes)
    → low ≤ c
    → c ≤ high
    → continues_utf8 n 0x80 0xBF s ≡ true
    → continues_utf8 (suc n) low high (c ∷ s) ≡ true
unfolding continues_utf8
inner_byte_back n low high c s above below h = ground (arith, above, below, h)

continues_utf8-json_chars :
    (n low high : ℕ) (value rest : Bytes)
    → 0x80 ≤ low
    → is_utf8 rest ≡ true
    → continues_utf8 n low high value ≡ true
    → continues_utf8 n low high (json_chars value ++ rest) ≡ true
unfolding json_chars
continues_utf8-json_chars zero low high [] rest bound after h = between low high rest ∙ after
continues_utf8-json_chars (suc n) low high [] rest bound after h =
    absurd (unfold continues_utf8 in cc)
continues_utf8-json_chars zero low high (c ∷ value) rest bound after h =
    let more = json_chars value ++ rest in
    let here = sym (between low high (c ∷ value)) ∙ h in
    rw (append_assoc (json_char c) (json_chars value) rest) (
      between low high (json_char c ++ more) ∙ elim (Bool-cases (ltb c 0x80)) [
        | inl below ↦
            let small : c < 0x80 = ground (arith, below) in
            let tail = between low high value ∙ sym (low_byte c value small) ∙ here in
            json_char-low c more small
            ∙ sym (between low high more)
            ∙ continues_utf8-json_chars zero low high value rest bound after tail
        | inr above ↦
            let large : 0x80 ≤ c = ground (arith, above) in
            elim (Option-cases (lead c)) [
              | inl none_is ↦ absurd (cc (no_lead c value large none_is, here))
              | inr (m, is) ↦
                  ap (λ (p : Bytes). is_utf8 (p ++ more)) (json_char-high c large)
                  ∙ high_byte c m more large is
                  ∙ continues_utf8-json_chars m.count m.low m.high value rest (lead-low c m is)
                      after (sym (high_byte c m value large is) ∙ here)
            ]
      ])
continues_utf8-json_chars (suc n) low high (c ∷ value) rest bound after h =
    let (above, below, tail) = inner_byte n low high c value h in
    let more = json_chars value ++ rest in
    let kept = continues_utf8-json_chars n 0x80 0xBF value rest (omega arith) after tail in
    rw (append_assoc (json_char c) (json_chars value) rest) (
      ap (λ (p : Bytes). continues_utf8 (suc n) low high (p ++ more))
        (json_char-high c (omega (arith, above, bound)))
      ∙ inner_byte_back n low high c more above below kept)

empty_text : is_utf8 [] ≡ true
unfolding continues_utf8
empty_text = refl

-- The printed form of a text in UTF-8 is in UTF-8.
pub print_json_string-is_utf8 :
    (value : Bytes) → is_utf8 value ≡ true → is_utf8 (print_json_string value) ≡ true
unfolding print_json_string
print_json_string-is_utf8 value h =
    low_byte b'"' (json_chars value ++ (b'"' ∷ [])) (omega arith)
    ∙ sym (between 0x80 0 (json_chars value ++ (b'"' ∷ [])))
    ∙ continues_utf8-json_chars 0 0x80 0 value (b'"' ∷ []) (omega arith)
        (low_byte b'"' [] (omega arith) ∙ empty_text) (between 0x80 0 value ∙ h)
