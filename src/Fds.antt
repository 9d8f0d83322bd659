-- ===== src/Fds.antt =====
-- Ksnap-engine/src/fds.c and include/fds.h: what the engine does with an open descriptor, and the
-- state that its fdinfo file shows.
pub mod Classes
pub mod Fitting
use ksnap.Base.{
  ℕ, ◌+◌, ◌-◌, ◌*◌, ◌%◌, ◌^◌, Bool, true, false, not, ◌&&◌, ◌||◌, Option, none, some, List, [], ◌∷◌,
  length, drop, ltb, leb, ◌==◌, if◌then◌else◌,
}
use ksnap.Base.Int.{ℤ, pos, leb_ℤ}
use ksnap.Base.Text.{Bytes, codes, same_text, same_prefix}
use ksnap.Maps.Scan.{skip_spaces, saturate}

-- `fd_class_t`
pub data FdClass : Type 0 where
  fd_dump fd_skip_stdio fd_skip_volatile fd_skip_unreachable fd_skip_other fd_unreadable : FdClass

-- What `stat` tells of a file.
pub record FileStat : Type 0 where
  pub is_regular : Bool
  pub device : ℕ
  pub inode : ℕ

-- The link of a descriptor in /proc: its text, cut to 4095 bytes, and what `stat` tells of the file
-- behind it and of the file at the path.
pub record FdLink : Type 0 where
  pub text : Option Bytes
  pub open_file : Option FileStat
  pub by_path : Option FileStat

abbrev starts_with : Bytes → Bytes → Bool
starts_with text prefix = same_prefix text prefix (length prefix)

abbrev pub deleted_suffix : Bytes
deleted_suffix = codes " (deleted)"

unfoldable pub is_deleted : Bytes → Bool
is_deleted path =
    ltb (length deleted_suffix) (length path)
    && same_text (drop (length path - length deleted_suffix) path) deleted_suffix

abbrev same_file : FileStat → FileStat → Bool
same_file a b = a.device == b.device && a.inode == b.inode

unfoldable pub reaches : Option FileStat → FileStat → Bool
reaches none open_file = false
reaches (some by_path) open_file = same_file by_path open_file

unfoldable pub is_volatile : Bytes → Bool
is_volatile path =
    starts_with path (codes "socket:")
    || starts_with path (codes "pipe:")
    || starts_with path (codes "anon_inode:")

-- The verdict on the file itself.
unfoldable pub classify_file : Bytes → Option FileStat → FileStat → FdClass
unfolding is_deleted reaches
classify_file path by_path open_file =
    if not open_file.is_regular
    then fd_skip_other
    else if is_deleted path
    then fd_skip_unreachable
    else if reaches by_path open_file
    then fd_dump
    else fd_skip_unreachable

unfoldable pub classify_link : Bytes → FdLink → FdClass
unfolding is_volatile classify_file
classify_link path l = if is_volatile path then fd_skip_volatile else elim (l.open_file) [
  | none ↦ fd_unreadable
  | some open_file ↦ classify_file path l.by_path open_file
]

-- The class, and the path as the caller finds it.
unfoldable pub classify_fd : ℤ → FdLink → FdClass × Bytes
unfolding classify_link
classify_fd fd l =
    if leb_ℤ fd (pos 2)
    then (fd_skip_stdio, [])
    else elim (l.text) [ none ↦ (fd_unreadable, []) | some path ↦ (classify_link path l, path) ]

-- The digits in front of a text in a base up to 10, read behind `acc`.
unfoldable pub digits : ℕ → ℕ → Bytes → ℕ
digits base acc [] = acc
digits base acc (c ∷ s) =
    let rest = digits base (acc * base + (c - b'0')) s in
    if leb b'0' c && ltb c (b'0' + base) then rest else acc

-- A number with at least one digit.
abbrev number : ℕ → Bytes → Option ℕ
number base [] = none
number base (c ∷ s) =
    if leb b'0' c && ltb c (b'0' + base) then some (saturate (digits base 0 (c ∷ s))) else none

abbrev negated : ℕ → ℕ
negated n = (2 ^ 64 - n) % 2 ^ 64

abbrev negate_some : Option ℕ → Option ℕ
negate_some none = none
negate_some (some n) = some (negated n)

abbrev signed_number : ℕ → Bytes → Option ℕ
signed_number base [] = none
signed_number base (c ∷ s) =
    if c == b'-'
    then negate_some (number base s)
    else if c == b'+'
    then number base s
    else number base (c ∷ s)

-- `sscanf` with a label, spaces and a number.
unfoldable pub scan_labelled : Bytes → ℕ → Bytes → Option ℕ
unfolding digits
scan_labelled label base line =
    if starts_with line label
    then signed_number base (skip_spaces (drop (length label) line))
    else none

-- What is known of the state: the position and the flags.
abbrev pub FdState : Type 0
FdState = Option ℕ × Option ℕ

-- One turn of the loop; the flags are stored in 32 bits.
unfoldable pub read_state_line : FdState → Bytes → FdState
read_state_line s line = elim (scan_labelled (codes "pos:") 10 line) [
  | some position ↦ (some position, s.1)
  | none ↦ elim (scan_labelled (codes "flags:") 8 line) [
    | some flags ↦ (s.0, some (flags % 2 ^ 32))
    | none ↦ s
  ]
]

unfoldable pub read_state_lines : FdState → List Bytes → FdState
unfolding read_state_line
read_state_lines s [] = s
read_state_lines s (line ∷ lines) = read_state_lines (read_state_line s line) lines

abbrev both_known : FdState → Option (ℕ × ℕ)
both_known (some position, some flags) = some (position, flags)
both_known _ = none

-- `none` for a file that cannot be opened, or does not hold both.
unfoldable pub read_fd_state : Option (List Bytes) → Option (ℕ × ℕ)
unfolding read_state_lines
read_fd_state none = none
read_fd_state (some lines) = both_known (read_state_lines (none, none) lines)
