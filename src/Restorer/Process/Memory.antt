-- ===== src/Restorer/Process/Memory.antt =====
-- Writing over a memory and reading it back.
use ksnap.Base.{
  ℕ, zero, suc, ◌+◌, ◌≤◌, ◌<◌, ◌≡◌, refl, inl, inr, ap, some, [], ◌∷◌, ◌++◌, length, arith,
  Option-cases, Bool-cases, ltb,
}
use ksnap.Base.Text.{Bytes}
use ksnap.Format.Codec.{get}
use ksnap.Format.Words.{to_le, of_le}
use ksnap.Dumper.Payload.{read_memory}
use ksnap.Restorer.Process.{overlay}

-- A write changes nothing in front of it.
pub overlay-below : (a : ℕ) (bs : Bytes) (f : ℕ → ℕ) (x : ℕ) → x < a → overlay a bs f x ≡ f x
overlay-below a [] f x h = refl
overlay-below a (b ∷ bs) f x h = ground (arith, overlay-below (a + 1) bs f x)

pub overlay-above :
    (a : ℕ) (bs : Bytes) (f : ℕ → ℕ) (x : ℕ) → a + length bs ≤ x → overlay a bs f x ≡ f x
overlay-above a [] f x h = refl
overlay-above a (b ∷ bs) f x h = ground (arith, overlay-above (a + 1) bs f x)

-- A write changes nothing outside it.
pub overlay-outside :
    (a n : ℕ) (bs : Bytes) (f : ℕ → ℕ) (x : ℕ)
    → length bs ≤ n
    → ¬ ((a ≤ x) × (x < a + n))
    → overlay a bs f x ≡ f x
overlay-outside a n bs f x long out = elim (Bool-cases (ltb x a)) [
  | inl below ↦ overlay-below a bs f x (ground arith)
  | inr not_below ↦ overlay-above a bs f x (ground (arith, out))
]

pub overlay-inside :
    (a : ℕ) (bs : Bytes) (f g : ℕ → ℕ) (x : ℕ)
    → a ≤ x
    → x < a + length bs
    → overlay a bs f x ≡ overlay a bs g x
overlay-inside a [] f g x h k = absurd (omega arith)
overlay-inside a (b ∷ bs) f g x h k = ground (arith, overlay-inside (a + 1) bs f g x)

-- At one address, a write depends on the memory at that address only.
pub overlay-at :
    (a : ℕ) (bs : Bytes) (f g : ℕ → ℕ) (x : ℕ) → f x ≡ g x → overlay a bs f x ≡ overlay a bs g x
overlay-at a [] f g x h = h
overlay-at a (b ∷ bs) f g x h = ground (arith, overlay-at (a + 1) bs f g x)

-- Two writes in a row are one.
pub overlay-append :
    (a : ℕ) (bs cs : Bytes) (f : ℕ → ℕ) (x : ℕ)
    → overlay (a + length bs) cs (overlay a bs f) x ≡ overlay a (bs ++ cs) f x
overlay-append a [] cs f x = ap (λ b. overlay b cs f x) (omega arith)
overlay-append a (b ∷ bs) cs f x = ground (
  arith,
  overlay-below (a + suc (length bs)) cs (overlay a (b ∷ bs) f) x,
  overlay-at (a + suc (length bs)) cs (overlay a (b ∷ bs) f) (overlay (a + 1) bs f) x,
  ap (λ c. overlay c cs (overlay (a + 1) bs f) x) (next a (length bs)),
  overlay-append (a + 1) bs cs f x,
)
  where
    next : (a n : ℕ) → a + suc n ≡ a + 1 + n
    next a n = omega arith

pub read_memory-ext :
    (f g : ℕ → ℕ) (a n : ℕ)
    → ((x : ℕ) → a ≤ x → x < a + n → f x ≡ g x)
    → read_memory f a n ≡ read_memory g a n
unfolding read_memory
read_memory-ext f g a zero h = refl
read_memory-ext f g a (suc n) h =
    ground (arith, h a, read_memory-ext f g (a + 1) n (λ x l u. h x (omega arith) (omega arith)))

-- What was written is read back.
pub read_memory-overlay :
    (a : ℕ) (bs : Bytes) (f : ℕ → ℕ) → read_memory (overlay a bs f) a (length bs) ≡ bs
unfolding read_memory
read_memory-overlay a [] f = refl
read_memory-overlay a (b ∷ bs) f =
    let rest =
      read_memory-ext (overlay a (b ∷ bs) f) (overlay (a + 1) bs f) (a + 1) (length bs)
        (λ x l u. ground arith) in
    ground (arith, rest, read_memory-overlay (a + 1) bs f)

-- A word that was read puts back the bytes it was read from.
pub overlay-word :
    (k a : ℕ) (f g : ℕ → ℕ) (x : ℕ)
    → ((y : ℕ) → g y < 256)
    → a ≤ x
    → x < a + k
    → overlay a (to_le k (of_le (read_memory g a k))) f x ≡ g x
unfolding to_le of_le read_memory
overlay-word zero a f g x small h k = absurd (omega arith)
overlay-word (suc n) a f g x small h k = ground (arith, small a, overlay-word n (a + 1) f g x small)

-- What `fread` reads is the front of the stream.
pub get-eq-some :
    (n : ℕ) (bs : Bytes) {front rest : Bytes}
    → get n bs ≡ some (front, rest)
    → (bs ≡ front ++ rest) × (length front ≡ n)
unfolding get
get-eq-some zero bs h = (cc, ground arith)
get-eq-some (suc n) [] h = cc
get-eq-some (suc n) (b ∷ bs) h = elim (Option-cases (get n bs)) [
  | inl short ↦ ground (arith, short)
  | inr ((c, more), full) ↦
      let (same, long) = get-eq-some n bs full in
      (ground (arith, full, same), ground (arith, full, long))
]
