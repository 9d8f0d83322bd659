-- ===== src/Maps.antt =====
-- Ksnap-engine/src/maps.c and include/maps.h: the lines of /proc/<pid>/maps and what the engine
-- does with each mapping.
pub mod Scan
pub mod Find
pub mod Classes
pub mod Select
pub mod Parsed
use ksnap.Base.{
  ℕ, ◌+◌, Bool, true, false, not, ◌&&◌, ◌||◌, List, [], ◌∷◌, get_or, ◌==◌, if◌then◌else◌,
}
use ksnap.Base.Text.{Bytes, codes, same_text, same_prefix}

-- `maps_line_t`; a string is its characters before the terminator.
pub record MapsLine : Type 0 where
  pub start : ℕ
  pub end : ℕ
  pub file_offset : ℕ
  pub privileges : Bytes
  pub path : Bytes

-- `vma_class_t`
pub data VmaClass : Type 0 where
  vma_dump vma_kernel vma_skip_unreadable vma_skip_shared vma_skip_pseudo : VmaClass

-- The character of a string at an index, 0 at its terminator.
abbrev pub char_at : Bytes → ℕ → ℕ
char_at s i = get_or s i 0

unfoldable pub is_kernel_map : Bytes → Bool
is_kernel_map path = same_text path (codes "[vdso]") || same_prefix path (codes "[vvar") 5

unfoldable pub is_dumpable_path : Bytes → Bool
is_dumpable_path path =
    if not (char_at path 0 == b'[')
    then true
    else same_text path (codes "[heap]") || same_text path (codes "[stack]")

unfoldable pub classify_maps_line : MapsLine → VmaClass
classify_maps_line m =
    if is_kernel_map m.path
    then vma_kernel
    else if not (char_at m.privileges 0 == b'r')
    then vma_skip_unreadable
    else if not (char_at m.privileges 3 == b'p')
    then vma_skip_shared
    else if not (is_dumpable_path m.path)
    then vma_skip_pseudo
    else vma_dump

abbrev pub prot_read : ℕ
prot_read = 1

abbrev pub prot_write : ℕ
prot_write = 2

abbrev pub prot_exec : ℕ
prot_exec = 4

-- The bits are distinct, so `|=` of a bit that is not set adds it.
unfoldable pub perms_to_prot : Bytes → ℕ
perms_to_prot p =
    (if char_at p 0 == b'r' then prot_read else 0)
    + (if char_at p 1 == b'w' then prot_write else 0)
    + (if char_at p 2 == b'x' then prot_exec else 0)

abbrev pub map_shared : ℕ
map_shared = 1

abbrev pub map_private : ℕ
map_private = 2

unfoldable pub perms_to_map_flags : Bytes → ℕ
perms_to_map_flags p = if char_at p 3 == b'p' then map_private else map_shared

-- Why a file of /proc cannot be opened: no permission (`EACCES` or `EPERM`), or any other reason.
pub data OpenError : Type 0 where
  denied gone : OpenError

-- /proc/<pid>/maps as `fopen`, `fgets` and `ferror` give it: the lines, and whether reading failed
-- after them.
pub data MapsFile : Type 0 where
  not_opened : OpenError → MapsFile
  opened : List Bytes → Bool → MapsFile
