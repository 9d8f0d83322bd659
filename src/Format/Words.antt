-- ===== src/Format/Words.antt =====
-- The words of a structure, little-endian as on x86-64.
use mathlib.Core.Option
use native.Mathlib.Nat.{pow-succ'}
use ksnap.Base.{ℕ, zero, suc, ◌+◌, ◌*◌, ◌/◌, ◌%◌, ◌^◌, ◌<◌, ◌≡◌, refl, ap, [], ◌∷◌, arith, length}
use ksnap.Base.Int.{ℤ, IsInt32, to_bits32, of_bits32, of_bits32-to_bits32, to_bits32-lt}
use ksnap.Base.Text.{Bytes}
use ksnap.Format.Codec.{Codec, IsLawful, raw, raw-IsLawful}

-- The `k` low bytes of a number, lowest first, and the number that bytes stand for.
unfoldable pub to_le : ℕ → ℕ → Bytes
to_le zero n = []
to_le (suc k) n = (n % 256) ∷ to_le k (n / 256)

unfoldable pub of_le : Bytes → ℕ
of_le [] = 0
of_le (b ∷ bs) = b + 256 * of_le bs

of_le-to_le : (k n : ℕ) → n < 256 ^ k → of_le (to_le k n) ≡ n
unfolding of_le to_le
of_le-to_le zero n h = omega arith
of_le-to_le (suc k) n h =
    omega (arith, pow-succ' 256 k, of_le-to_le k (n / 256) (omega (arith, pow-succ' 256 k)))

pub length-to_le : (k n : ℕ) → length (to_le k n) ≡ k
unfolding to_le
length-to_le zero n = refl
length-to_le (suc k) n = ap suc (length-to_le k (n / 256))

abbrev word : ℕ → Codec ℕ
word k = record {
  Fits = λ n. n < 256 ^ k;
  size = k;
  put = to_le k;
  take = λ bs. Option.map (λ (c, rest). (of_le c, rest)) ((raw k).take bs);
}

word-IsLawful : (k : ℕ) → IsLawful (word k)
word-IsLawful k = record {
  take-put = λ n rest h.
      rw ((raw-IsLawful k).take-put (to_le k n) rest (length-to_le k n)) (rw (of_le-to_le k n h));
  length-put = λ n h. length-to_le k n;
}

abbrev pub u32 : Codec ℕ
u32 = word 4

abbrev pub u64 : Codec ℕ
u64 = word 8

pub u32-IsLawful : IsLawful u32
u32-IsLawful = word-IsLawful 4

pub u64-IsLawful : IsLawful u64
u64-IsLawful = word-IsLawful 8

abbrev pub i32 : Codec ℤ
i32 = record {
  Fits = IsInt32;
  size = 4;
  put = λ n. to_le 4 (to_bits32 n);
  take = λ bs. Option.map (λ (w, rest). (of_bits32 w, rest)) (u32.take bs);
}

pub i32-IsLawful : IsLawful i32
i32-IsLawful = record {
  take-put = λ n rest h.
      rw (u32-IsLawful.take-put (to_bits32 n) rest (to_bits32-lt n)) (rw (of_bits32-to_bits32 n h));
  length-put = λ n h. length-to_le 4 (to_bits32 n);
}
