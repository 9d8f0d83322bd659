-- ===== src/Format/Codec.antt =====
-- How a value lies in memory: a codec writes it to a fixed number of bytes and reads it back, and
-- structures and arrays are codecs made of codecs.
use mathlib.Core.Option
use mathlib.Core.List.{append_assoc}
use ksnap.Base.{
  ℕ, zero, suc, ◌+◌, ◌*◌, ◌≡◌, refl, ◌∙◌, Option, none, some, List, [], ◌∷◌, ◌++◌, arith, length,
  length-append, All,
}
use ksnap.Base.Text.{Bytes}

-- `fread` of `n` bytes: `none` where the file ends before.
unfoldable pub get : ℕ → Bytes → Option (Bytes × Bytes)
get zero bs = some ([], bs)
get (suc n) [] = none
get (suc n) (b ∷ bs) = Option.map (λ (c, rest). (b ∷ c, rest)) (get n bs)

pub get-append : (xs rest : Bytes) → get (length xs) (xs ++ rest) ≡ some (xs, rest)
unfolding get
get-append [] rest = refl
get-append (x ∷ xs) rest = rw (get-append xs rest)

pub record Codec (A : Type 0) : Type 1 where
  pub Fits : A → Type 0
  pub size : ℕ
  pub put : A → Bytes
  pub take : Bytes → Option (A × Bytes)

pub record IsLawful {A : Type 0} (c : Codec A) : Type 0 where
  pub take-put : (a : A) (rest : Bytes) → c.Fits a → c.take (c.put a ++ rest) ≡ some (a, rest)
  pub length-put : (a : A) → c.Fits a → length (c.put a) ≡ c.size

-- An array of bytes.
abbrev pub raw : ℕ → Codec Bytes
raw n = record { Fits = λ a. length a ≡ n; size = n; put = λ a. a; take = get n }

pub raw-IsLawful : (n : ℕ) → IsLawful (raw n)
raw-IsLawful n = record {
  take-put = λ a rest h. rw (← h) (get-append a rest);
  length-put = λ a h. h;
}

-- One field behind another.
module _ {A B : Type 0} (c : Codec A) (d : Codec B) where
  abbrev take_both : Bytes → Option ((A × B) × Bytes)
  take_both bs = elim (c.take bs) [
    | none ↦ none
    | some (a, more) ↦ elim (d.take more) [ none ↦ none | some (b, rest) ↦ some ((a, b), rest) ]
  ]

  abbrev pub both : Codec (A × B)
  both = record {
    Fits = λ (a, b). c.Fits a × d.Fits b;
    size = c.size + d.size;
    put = λ (a, b). c.put a ++ d.put b;
    take = take_both;
  }

  take_both-put :
      IsLawful c
      → IsLawful d
      → (p : A × B) (rest : Bytes) → c.Fits p.0 × d.Fits p.1
      → take_both ((c.put p.0 ++ d.put p.1) ++ rest) ≡ some (p, rest)
  take_both-put lc ld p rest h =
      rw (append_assoc, lc.take-put p.0 (d.put p.1 ++ rest) h.0, take_both)
        (rw (ld.take-put p.1 rest h.1, take_both))

  pub both-IsLawful : IsLawful c → IsLawful d → IsLawful both
  both-IsLawful lc ld = record {
    take-put = take_both-put lc ld;
    length-put = λ p h.
        length-append (c.put p.0) (d.put p.1)
        ∙ omega (arith, lc.length-put p.0 h.0, ld.length-put p.1 h.1);
  }

-- A structure is its fields in order.
module _ {A B : Type 0} (c : Codec A) (make : A → B) (parts : B → A) where
  abbrev pub struct : Codec B
  struct = record {
    Fits = λ b. c.Fits (parts b);
    size = c.size;
    put = λ b. c.put (parts b);
    take = λ bs. Option.map (λ (a, rest). (make a, rest)) (c.take bs);
  }

  pub struct-IsLawful : IsLawful c → ((b : B) → make (parts b) ≡ b) → IsLawful struct
  struct-IsLawful lc back = record {
    take-put = λ b rest h. rw (lc.take-put (parts b) rest h) (rw (back b));
    length-put = λ b h. lc.length-put (parts b) h;
  }

-- An array of `n` elements.
module _ {A : Type 0} (c : Codec A) where
  unfoldable pub put_all : List A → Bytes
  put_all [] = []
  put_all (a ∷ as') = c.put a ++ put_all as'

  unfoldable pub take_all : ℕ → Bytes → Option (List A × Bytes)
  take_all zero bs = some ([], bs)
  take_all (suc n) bs = elim (c.take bs) [
    | none ↦ none
    | some (a, more) ↦ Option.map (λ (l, rest). (a ∷ l, rest)) (take_all n more)
  ]

  abbrev pub array : ℕ → Codec (List A)
  array n = record {
    Fits = λ l. (length l ≡ n) × All c.Fits l;
    size = n * c.size;
    put = put_all;
    take = take_all n;
  }

  pub take_all-put_all :
      IsLawful c
      → (l : List A) (rest : Bytes) → All c.Fits l
      → take_all (length l) (put_all l ++ rest) ≡ some (l, rest)
  unfolding put_all take_all
  take_all-put_all lc [] rest h = refl
  take_all-put_all lc (a ∷ l) rest h =
      rw (append_assoc, lc.take-put a (put_all l ++ rest) h.0, take_all)
        (rw (take_all-put_all lc l rest h.1))

  pub length-put_all :
      IsLawful c → (l : List A) → All c.Fits l → length (put_all l) ≡ length l * c.size
  unfolding put_all
  length-put_all lc [] h = omega arith
  length-put_all lc (a ∷ l) h =
      length-append (c.put a) (put_all l)
      ∙ omega (arith, lc.length-put a h.0, length-put_all lc l h.1)

  pub array-IsLawful : IsLawful c → (n : ℕ) → IsLawful (array n)
  array-IsLawful lc n = record {
    take-put = λ l rest h. rw (← h.0) (take_all-put_all lc l rest h.1);
    length-put = λ l h. rw (← h.0) (length-put_all lc l h.1);
  }
