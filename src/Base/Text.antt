-- ===== src/Base/Text.antt =====
-- C strings as lists of bytes: the characters before the terminator. `codes` gives the bytes of an
-- ASCII literal.
use Prim.Native.Char.{code}
use Prim.Native.String.{String}
use Prim.Native.Nat.{ℕ}
use mathlib.Core.Path.{◌≡◌, refl}
use mathlib.Core.Bool.{Bool, true, false, ◌&&◌}
use mathlib.Core.Logic.{◌↔◌}
use mathlib.Core.List.{List, [], ◌∷◌}
use native.Mathlib.Omega.{arith}
use ksnap.Base.Tests.{leb, ◌==◌, if◌then◌else◌}
use ksnap.Base.Lists.{take}

abbrev pub Bytes : Type 0
Bytes = List ℕ

abbrev pub codes : String → Bytes
codes String.[] = []
codes (String.◌∷◌ c s) = code c ∷ codes s

-- `!strcmp(a, b)`
unfoldable pub same_text : Bytes → Bytes → Bool
same_text [] [] = true
same_text (a ∷ s) (b ∷ t) = a == b && same_text s t
same_text _ _ = false

-- `!strncmp(a, b, n)`
unfoldable pub same_prefix : Bytes → Bytes → ℕ → Bool
unfolding same_text
same_prefix a b n = same_text (take n a) (take n b)

-- `strchr(a, c) != NULL` and `memchr(a, c, n) != NULL` over the bytes given
unfoldable pub contains : Bytes → ℕ → Bool
contains [] c = false
contains (a ∷ s) c = if a == c then true else contains s c

-- `isdigit(c)`
abbrev pub is_digit : ℕ → Bool
is_digit c = leb b'0' c && leb c b'9'

pub same_text_iff : (a b : Bytes) → (same_text a b ≡ true) ↔ (a ≡ b)
unfolding same_text
same_text_iff [] [] = ground arith
same_text_iff (a ∷ s) (b ∷ t) = ground (arith, same_text_iff s t)
same_text_iff [] (b ∷ t) = ground arith
same_text_iff (a ∷ s) [] = ground arith

pub same_text_refl : (a : Bytes) → same_text a a ≡ true
same_text_refl a = (same_text_iff a a).1 refl
