-- ===== src/Base/Int.antt =====
-- Signed integers over the native numbers, under the library's names (its ℤ stands on another ℕ),
-- and the 32-bit pattern that an `int32_t` has in memory.
use Prim.Native.Nat.{ℕ, suc, ◌+◌, ◌-◌, ◌%◌, ◌^◌, ◌≤◌, ◌<◌}
use mathlib.Core.Path.{◌≡◌}
use mathlib.Core.Bool.{Bool, true}
use mathlib.Core.Logic.{◌↔◌}
use native.Mathlib.Omega.{arith}
use ksnap.Base.Tests.{ltb, leb, ◌==◌, if◌then◌else◌}

-- `negsuc n` is -(n + 1).
pub data ℤ : Type 0 where
  pos : ℕ → ℤ
  negsuc : ℕ → ℤ

abbrev pub minus_one : ℤ
minus_one = negsuc 0

abbrev pub pos_part : ℤ → ℕ
pos_part (pos n) = n
pos_part (negsuc n) = 0

abbrev pub neg_part : ℤ → ℕ
neg_part (pos n) = 0
neg_part (negsuc n) = suc n

infix 50 ◌≤ℤ◌ ◌<ℤ◌
abbrev pub ◌≤ℤ◌ : ℤ → ℤ → Type 0
a ≤ℤ b = pos_part a + neg_part b ≤ pos_part b + neg_part a

abbrev pub ◌<ℤ◌ : ℤ → ℤ → Type 0
a <ℤ b = pos_part a + neg_part b < pos_part b + neg_part a

abbrev pub leb_ℤ : ℤ → ℤ → Bool
leb_ℤ a b = leb (pos_part a + neg_part b) (pos_part b + neg_part a)

abbrev pub eqb_ℤ : ℤ → ℤ → Bool
eqb_ℤ a b = (pos_part a + neg_part b) == (pos_part b + neg_part a)

pub eqb_ℤ_iff : (a b : ℤ) → (eqb_ℤ a b ≡ true) ↔ (a ≡ b)
eqb_ℤ_iff a b = ground arith

-- The bits of an `int32_t`, and the `int32_t` of 32 bits.
unfoldable pub to_bits32 : ℤ → ℕ
to_bits32 (pos n) = n % 2 ^ 32
to_bits32 (negsuc n) = 2 ^ 32 - 1 - n % 2 ^ 32

unfoldable pub of_bits32 : ℕ → ℤ
of_bits32 w = if ltb w (2 ^ 31) then pos w else negsuc (2 ^ 32 - 1 - w)

-- `(unsigned long long)` of an `int32_t`
abbrev pub to_bits64 : ℤ → ℕ
to_bits64 (pos n) = n
to_bits64 (negsuc n) = 2 ^ 64 - 1 - n

-- The values that an `int32_t` can hold.
abbrev pub IsInt32 : ℤ → Type 0
IsInt32 (pos n) = n < 2 ^ 31
IsInt32 (negsuc n) = n < 2 ^ 31

pub of_bits32-to_bits32 : (a : ℤ) → IsInt32 a → of_bits32 (to_bits32 a) ≡ a
unfolding of_bits32 to_bits32
of_bits32-to_bits32 (pos n) h = ground arith
of_bits32-to_bits32 (negsuc n) h = ground arith

pub to_bits32-lt : (a : ℤ) → to_bits32 a < 2 ^ 32
unfolding to_bits32
to_bits32-lt (pos n) = omega arith
to_bits32-lt (negsuc n) = omega arith
