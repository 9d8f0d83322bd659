-- ===== src/Fds/Fitting.antt =====
-- What `read_fd_state` gives fits the fields of a descriptor: a position of 64 bits, flags of 32.
use ksnap.Base.{
  ℕ, ◌+◌, ◌^◌, ◌%◌, ◌<◌, ◌≡◌, ◌&&◌, Option, none, some, List, [], ◌∷◌, length, drop, arith, ltb,
  leb, ◌==◌, OfSome, either_OfSome,
}
use ksnap.Base.Text.{Bytes, codes}
use ksnap.Maps.Scan.{skip_spaces, saturate}
use ksnap.Fds.{
  digits, number, negate_some, signed_number, starts_with, scan_labelled, FdState, read_state_line,
  read_state_lines, both_known, read_fd_state,
}

abbrev Fits64 : Option ℕ → Type 0
Fits64 = OfSome (λ n. n < 2 ^ 64)

number-Fits64 : (base : ℕ) (s : Bytes) → Fits64 (number base s)
number-Fits64 base [] = tt
number-Fits64 base (c ∷ s) =
    either_OfSome (λ n. n < 2 ^ 64) (leb b'0' c && ltb c (b'0' + base))
      (some (saturate (digits base 0 (c ∷ s)))) none (saturated (digits base 0 (c ∷ s))) tt
  where
    saturated : (n : ℕ) → saturate n < 2 ^ 64
    saturated n = ground arith

negate_some-Fits64 : (o : Option ℕ) → Fits64 (negate_some o)
negate_some-Fits64 none = tt
negate_some-Fits64 (some n) = omega arith

signed_number-Fits64 : (base : ℕ) (s : Bytes) → Fits64 (signed_number base s)
signed_number-Fits64 base [] = tt
signed_number-Fits64 base (c ∷ s) =
    either_OfSome (λ n. n < 2 ^ 64) (c == b'-') (negate_some (number base s)) _
      (negate_some-Fits64 (number base s))
      (either_OfSome (λ n. n < 2 ^ 64) (c == b'+') (number base s) (number base (c ∷ s))
        (number-Fits64 base s) (number-Fits64 base (c ∷ s)))

scan_labelled-Fits64 :
    (label : Bytes) (base : ℕ) (line : Bytes) → Fits64 (scan_labelled label base line)
unfolding scan_labelled
scan_labelled-Fits64 label base line =
    either_OfSome (λ n. n < 2 ^ 64) (starts_with line label)
      (signed_number base (skip_spaces (drop (length label) line))) none
      (signed_number-Fits64 base (skip_spaces (drop (length label) line))) tt

-- What is known of a state fits.
abbrev FitsState : FdState → Type 0
FitsState s = Fits64 s.0 × OfSome (λ n. n < 2 ^ 32) s.1

read_state_line-FitsState :
    (s : FdState) (line : Bytes) → FitsState s → FitsState (read_state_line s line)
unfolding read_state_line
read_state_line-FitsState s line h =
    with (scan_labelled (codes "pos:") 10 line) (scan_labelled (codes "flags:") 8 line)
      (scan_labelled-Fits64 (codes "pos:") 10 line)
  where
    with :
        (position flags : Option ℕ)
        → Fits64 position
        → FitsState (elim position [
          | some position ↦ (some position, s.1)
          | none ↦ elim flags [ some flags ↦ (s.0, some (flags % 2 ^ 32)) | none ↦ s ]
        ])
    with (some p) flags k = (k, h.1)
    with none (some f) k = (h.0, omega arith)
    with none none k = h

read_state_lines-FitsState :
    (s : FdState) (lines : List Bytes) → FitsState s → FitsState (read_state_lines s lines)
unfolding read_state_lines
read_state_lines-FitsState s [] h = h
read_state_lines-FitsState s (line ∷ lines) h =
    read_state_lines-FitsState (read_state_line s line) lines (read_state_line-FitsState s line h)

both_known-fits :
    (s : FdState) {position flags : ℕ}
    → FitsState s
    → both_known s ≡ some (position, flags)
    → (position < 2 ^ 64) × (flags < 2 ^ 32)
both_known-fits (some p, some f) h e = ground (arith, h, e)
both_known-fits (some p, none) h e = cc
both_known-fits (none, f) h e = cc

-- The position that is read is one of 64 bits, and the flags are of 32.
pub read_fd_state-fits :
    (info : Option (List Bytes)) {position flags : ℕ}
    → read_fd_state info ≡ some (position, flags)
    → (position < 2 ^ 64) × (flags < 2 ^ 32)
unfolding read_fd_state
read_fd_state-fits none e = cc
read_fd_state-fits (some lines) e =
    both_known-fits (read_state_lines (none, none) lines)
      (read_state_lines-FitsState (none, none) lines (tt, tt)) e
