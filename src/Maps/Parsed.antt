-- ===== src/Maps/Parsed.antt =====
-- What holds of every line that `parse_maps_line` accepts: its numbers are those of an unsigned
-- long, and its range is not empty.
use mathlib.Core.Path.{subst}
use ksnap.Base.{
  ℕ, ◌-◌, ◌%◌, ◌^◌, ◌<◌, ◌≡◌, Option, none, some, [], ◌∷◌, arith, length, ◌&&◌, ◌||◌, OfSome,
  OfSome-some, either_OfSome, Option-cases, sym, inl, inr, ◌==◌, if◌then◌else◌,
}
use ksnap.Base.Text.{Bytes}
use ksnap.Maps.{MapsLine}
use ksnap.Maps.Scan.{
  skip_spaces, hex_digit, hex_digits, saturate, hex_number, hex_prefixed, scan_hex, expect_dash,
  scan_word, checked_line, parse_maps_line,
}

pub record IsLine (m : MapsLine) : Type 0 where
  pub start_lt : m.start < m.end
  pub end64 : m.end < 2 ^ 64
  pub offset64 : m.file_offset < 2 ^ 64
  pub privileges_length : length m.privileges ≡ 4

abbrev IsSmall : ℕ × Bytes → Type 0
IsSmall r = r.0 < 2 ^ 64

abbrev Small : Option (ℕ × Bytes) → Type 0
Small = OfSome IsSmall

saturate-lt : (n : ℕ) → saturate n < 2 ^ 64
saturate-lt n = ground arith

hex_number-Small : (s : Bytes) → Small (hex_number s)
unfolding hex_number
hex_number-Small [] = tt
hex_number-Small (c ∷ s) =
    elim (hex_digit c)
      as (λ d. Small (elim d [
        | none ↦ none
        | some d ↦ let (n, rest) = hex_digits d s in some (saturate n, rest)
      ])) [ none ↦ tt | some d ↦ saturate-lt (hex_digits d s).0 ]

abbrev zero_before : Bytes → Option (ℕ × Bytes) → Option (ℕ × Bytes)
zero_before s o = elim o [ none ↦ some (0, s) | some r ↦ some r ]

zero_before-Small : (s : Bytes) (o : Option (ℕ × Bytes)) → Small o → Small (zero_before s o)
zero_before-Small s none h = omega arith
zero_before-Small s (some r) h = h

hex_prefixed-Small : (s : Bytes) → Small (hex_prefixed s)
unfolding hex_prefixed
hex_prefixed-Small [] = hex_number-Small []
hex_prefixed-Small (c ∷ []) = hex_number-Small (c ∷ [])
hex_prefixed-Small (z ∷ x ∷ s) =
    either_OfSome IsSmall (z == b'0' && (x == b'x' || x == b'X'))
      (zero_before (x ∷ s) (hex_number s)) (hex_number (z ∷ x ∷ s))
      (zero_before-Small (x ∷ s) (hex_number s) (hex_number-Small s)) (hex_number-Small (z ∷ x ∷ s))

abbrev negative : Option (ℕ × Bytes) → Option (ℕ × Bytes)
negative o = elim o [ none ↦ none | some (n, more) ↦ some ((2 ^ 64 - n) % 2 ^ 64, more) ]

negative-Small : (o : Option (ℕ × Bytes)) → Small (negative o)
negative-Small none = tt
negative-Small (some (n, more)) = omega arith

-- A number behind its sign.
abbrev signed : Bytes → Option (ℕ × Bytes)
signed s = elim s [
  | [] ↦ none
  | c ∷ rest ↦
      if c == b'-'
      then negative (hex_prefixed rest)
      else if c == b'+'
      then hex_prefixed rest
      else hex_prefixed (c ∷ rest)
]

signed-Small : (s : Bytes) → Small (signed s)
signed-Small [] = tt
signed-Small (c ∷ rest) =
    either_OfSome IsSmall (c == b'-') (negative (hex_prefixed rest)) _
      (negative-Small (hex_prefixed rest))
      (either_OfSome IsSmall (c == b'+') (hex_prefixed rest) (hex_prefixed (c ∷ rest))
        (hex_prefixed-Small rest) (hex_prefixed-Small (c ∷ rest)))

scan_hex-Small : (s : Bytes) → Small (scan_hex s)
unfolding scan_hex
scan_hex-Small s = signed-Small (skip_spaces s)

-- A chain of calls keeps to the property of its last one.
anything : {A : Type 0} (o : Option A) → OfSome (λ a. Unit {0}) o
anything none = tt
anything (some a) = tt

bind-OfSome {κ μ} :
    {A B : Type 0} (P : A → Type κ) (Q : B → Type μ) (o : Option A) (next : A → Option B)
    → OfSome P o
    → ((a : A) → P a → OfSome Q (next a))
    → OfSome Q (elim o [ none ↦ none | some a ↦ next a ])
bind-OfSome P Q none next h k = tt
bind-OfSome P Q (some a) next h k = k a h

checked_line-some :
    (m : MapsLine) {m' : MapsLine}
    → checked_line m ≡ some m'
    → m.start < 2 ^ 64
    → m.end < 2 ^ 64
    → m.file_offset < 2 ^ 64
    → IsLine m'
unfolding checked_line
checked_line-some m {m'} is h k f =
    let same : m ≡ m' = ground arith in
    subst IsLine same (record {
      start_lt = ground arith;
      end64 = k;
      offset64 = f;
      privileges_length = ground arith;
    })

checked_line-IsLine :
    (m : MapsLine)
    → m.start < 2 ^ 64
    → m.end < 2 ^ 64
    → m.file_offset < 2 ^ 64
    → OfSome IsLine (checked_line m)
checked_line-IsLine m h k f = elim (Option-cases (checked_line m)) [
  | inl none' ↦ subst (OfSome IsLine) (sym none') tt
  | inr (m', is) ↦ subst (OfSome IsLine) (sym is) (checked_line-some m is h k f)
]

parse_maps_line-OfSome : (line : Bytes) → OfSome IsLine (parse_maps_line line)
unfolding parse_maps_line
parse_maps_line-OfSome line =
    bind-OfSome IsSmall IsLine (scan_hex line) _ (scan_hex-Small line) λ (start, r1) start64.
      bind-OfSome (λ r. Unit {0}) IsLine (expect_dash r1) _ (anything (expect_dash r1))
        λ r2 _. bind-OfSome IsSmall IsLine (scan_hex r2) _ (scan_hex-Small r2) λ (end, r3) end64.
          bind-OfSome (λ r. Unit {0}) IsLine (scan_word 4 r3) _ (anything (scan_word 4 r3))
            λ (privileges, r4) _.
              bind-OfSome IsSmall IsLine (scan_hex r4) _ (scan_hex-Small r4)
                λ (file_offset, r5) offset64. checked_line-IsLine _ start64 end64 offset64

-- An accepted line has numbers below 2 ^ 64, a range that is not empty, and four permissions.
pub parse_maps_line-IsLine :
    (line : Bytes) {m : MapsLine} → parse_maps_line line ≡ some m → IsLine m
parse_maps_line-IsLine line e =
    OfSome-some IsLine (parse_maps_line line) (parse_maps_line-OfSome line) e
