-- ===== src/Base/Decimal.antt =====
-- Numbers in decimal, as `printf` writes them for `%u` and `%d`, and a reader of the integers of
-- JSON, which admit no leading zeros.
use Prim.Native.Nat.{ℕ, zero, suc, ◌+◌, ◌-◌, ◌*◌, ◌/◌, ◌%◌, ◌≤◌, ◌<◌}
use mathlib.Core.Path.{◌≡◌, refl, ap, ◌∙◌}
use mathlib.Core.Bool.{true, false, ◌||◌}
use mathlib.Core.List.{[], ◌∷◌, ◌++◌}
use mathlib.Core.Option.{Option, none, some}
use native.Mathlib.Omega.{arith}
use ksnap.Base.Tests.{◌==◌, if◌then◌else◌}
use ksnap.Base.Lists.{All}
use ksnap.Base.Int.{ℤ, pos, negsuc}
use ksnap.Base.Text.{Bytes, is_digit}

-- The digits of `n` in front of `out`; a round for each digit, so `n` rounds are enough.
decimal_onto : ℕ → ℕ → Bytes → Bytes
decimal_onto zero n out = out
decimal_onto (suc fuel) n out =
    let more = decimal_onto fuel (n / 10) ((b'0' + n % 10) ∷ out) in if n == 0 then out else more

-- `%u`
unfoldable pub print_decimal : ℕ → Bytes
unfolding decimal_onto
print_decimal n = if n == 0 then b'0' ∷ [] else decimal_onto n n []

-- `%d`
unfoldable pub print_integer : ℤ → Bytes
unfolding print_decimal
print_integer (pos n) = print_decimal n
print_integer (negsuc n) = b'-' ∷ print_decimal (suc n)

-- The digits in front, read behind `acc`, and what follows them.
unfoldable pub read_digits : ℕ → Bytes → ℕ × Bytes
read_digits acc [] = (acc, [])
read_digits acc (c ∷ s) =
    let rest = read_digits (acc * 10 + (c - b'0')) s in if is_digit c then rest else (acc, c ∷ s)

-- `0`, or digits of which the first is not `0`.
unfoldable pub read_natural : Bytes → Option (ℕ × Bytes)
unfolding read_digits
read_natural [] = none
read_natural (c ∷ s) =
    if c == b'0' then some (0, s) else if is_digit c then some (read_digits 0 (c ∷ s)) else none

abbrev negative : Option (ℕ × Bytes) → Option (ℤ × Bytes)
negative none = none
negative (some (zero, s)) = some (pos 0, s)
negative (some (suc n, s)) = some (negsuc n, s)

abbrev positive : Option (ℕ × Bytes) → Option (ℤ × Bytes)
positive none = none
positive (some (n, s)) = some (pos n, s)

unfoldable pub read_integer : Bytes → Option (ℤ × Bytes)
unfolding read_natural
read_integer [] = none
read_integer (c ∷ s) =
    if c == b'-' then negative (read_natural s) else positive (read_natural (c ∷ s))

-- What follows a number does not begin with a digit.
abbrev pub Ends : Bytes → Type 0
Ends [] = Unit
Ends (c ∷ s) = is_digit c ≡ false

-- The text begins with one of the digits 1 to 9.
abbrev Leads : Bytes → Type 0
Leads [] = ⊥
Leads (c ∷ s) = (b'1' ≤ c) × (c ≤ b'9')

decimal_onto-append :
    (fuel n : ℕ) (out rest : Bytes)
    → decimal_onto fuel n out ++ rest ≡ decimal_onto fuel n (out ++ rest)
unfolding decimal_onto
decimal_onto-append zero n out rest = refl
decimal_onto-append (suc fuel) n out rest =
    ground (arith, decimal_onto-append fuel (n / 10) ((b'0' + n % 10) ∷ out) rest)

decimal_onto-Leads : (fuel n : ℕ) (out : Bytes) → 0 < n → n ≤ fuel → Leads (decimal_onto fuel n out)
unfolding decimal_onto
decimal_onto-Leads zero n out h k = absurd (omega arith)
decimal_onto-Leads (suc zero) n out h k = ground arith
decimal_onto-Leads (suc (suc fuel)) n out h k =
    let next = decimal_onto-Leads (suc fuel) (n / 10) ((b'0' + n % 10) ∷ out) in
    ground (arith, next)

read_digits-decimal_onto :
    (fuel n : ℕ) (out : Bytes)
    → n ≤ fuel
    → read_digits 0 (decimal_onto fuel n out) ≡ read_digits n out
unfolding decimal_onto read_digits
read_digits-decimal_onto zero n out k = ground arith
read_digits-decimal_onto (suc fuel) n out k =
    ground (arith, read_digits-decimal_onto fuel (n / 10) ((b'0' + n % 10) ∷ out))

read_digits-end : (n : ℕ) (rest : Bytes) → Ends rest → read_digits n rest ≡ (n, rest)
unfolding read_digits
read_digits-end n [] h = refl
read_digits-end n (c ∷ rest) h = rw h refl

read_natural-Leads : (s : Bytes) → Leads s → read_natural s ≡ some (read_digits 0 s)
unfolding read_natural
read_natural-Leads [] h = absurd h
read_natural-Leads (c ∷ s) h = ground arith

print_decimal-suc :
    (n : ℕ) (rest : Bytes) → print_decimal (suc n) ++ rest ≡ decimal_onto (suc n) (suc n) rest
unfolding print_decimal
print_decimal-suc n rest = ground (arith, decimal_onto-append (suc n) (suc n) [] rest)

print_decimal-Leads : (n : ℕ) (rest : Bytes) → Leads (print_decimal (suc n) ++ rest)
print_decimal-Leads n rest =
    rw (print_decimal-suc n rest)
      (decimal_onto-Leads (suc n) (suc n) rest (omega arith) (omega arith))

read_natural-print_decimal :
    (n : ℕ) (rest : Bytes) → Ends rest → read_natural (print_decimal n ++ rest) ≡ some (n, rest)
read_natural-print_decimal zero rest h = unfold read_natural print_decimal in refl
read_natural-print_decimal (suc n) rest h =
    read_natural-Leads _ (print_decimal-Leads n rest)
    ∙ ap some (
        ap (read_digits 0) (print_decimal-suc n rest)
        ∙ read_digits-decimal_onto (suc n) (suc n) rest (omega arith)
        ∙ read_digits-end (suc n) rest h)

-- A text that begins with a digit.
abbrev pub BeginsNumber : Bytes → Type 0
BeginsNumber [] = ⊥
BeginsNumber (c ∷ s) = is_digit c ≡ true

begins_digit : (s : Bytes) → Leads s → BeginsNumber s
begins_digit [] h = h
begins_digit (c ∷ s) h = ground arith

print_decimal-BeginsNumber : (n : ℕ) (rest : Bytes) → BeginsNumber (print_decimal n ++ rest)
print_decimal-BeginsNumber zero rest = unfold print_decimal in refl
print_decimal-BeginsNumber (suc n) rest = begins_digit _ (print_decimal-Leads n rest)

read_integer-natural : (s : Bytes) → BeginsNumber s → read_integer s ≡ positive (read_natural s)
unfolding read_integer
read_integer-natural [] h = absurd h
read_integer-natural (c ∷ s) h = ground (arith, h)

-- A printed integer reads back, if no digit follows it.
pub read_integer-print_integer :
    (z : ℤ) (rest : Bytes) → Ends rest → read_integer (print_integer z ++ rest) ≡ some (z, rest)
unfolding print_integer
read_integer-print_integer (pos n) rest h =
    read_integer-natural _ (print_decimal-BeginsNumber n rest)
    ∙ ap positive (read_natural-print_decimal n rest h)
read_integer-print_integer (negsuc n) rest h =
    unfold read_integer in ap negative (read_natural-print_decimal (suc n) rest h)

-- A text that begins as a number does, with a digit or a minus.
abbrev pub BeginsInteger : Bytes → Type 0
BeginsInteger [] = ⊥
BeginsInteger (c ∷ s) = (c == b'-' || is_digit c) ≡ true

natural-integer : (s : Bytes) → BeginsNumber s → BeginsInteger s
natural-integer [] h = h
natural-integer (c ∷ s) h = ground (arith, h)

pub print_integer-BeginsInteger : (z : ℤ) (rest : Bytes) → BeginsInteger (print_integer z ++ rest)
unfolding print_integer
print_integer-BeginsInteger (pos n) rest = natural-integer _ (print_decimal-BeginsNumber n rest)
print_integer-BeginsInteger (negsuc n) rest = refl

decimal_onto-All :
    (fuel n : ℕ) (out : Bytes)
    → All (λ c. b'-' ≤ c) out
    → All (λ c. b'-' ≤ c) (decimal_onto fuel n out)
unfolding decimal_onto
decimal_onto-All zero n out h = h
decimal_onto-All (suc fuel) n out h =
    ground (arith, decimal_onto-All fuel (n / 10) ((b'0' + n % 10) ∷ out) (omega arith, h))

print_decimal-All : (n : ℕ) → All (λ c. b'-' ≤ c) (print_decimal n)
unfolding print_decimal
print_decimal-All n = ground (arith, decimal_onto-All n n [])

-- No byte of a number stands before the minus.
pub print_integer-All : (z : ℤ) → All (λ c. b'-' ≤ c) (print_integer z)
unfolding print_integer
print_integer-All (pos n) = print_decimal-All n
print_integer-All (negsuc n) = (omega arith, print_decimal-All (suc n))
