-- ===== src/Dumper/Dump/Documented.antt =====
-- What the kernel and the C library document of the answers that a dump gets.
use ksnap.Base.{◌+◌, ◌^◌, ◌≤◌, ◌<◌, ◌≡◌, Bool, some, List, [], ◌∷◌, length, All}
use ksnap.Base.Text.{Bytes}
use ksnap.Format.{path_max, regs_size}
use ksnap.Maps.{opened}
use ksnap.Maps.Select.{dumped, spans}
use ksnap.Dumper.Vmas.Ranges.{Range, line_ranges}
use ksnap.Dumper.Fds.Listing.{IsDirectory}
use ksnap.Dumper.Fds.Ordered.{IsSort}
use ksnap.Dumper.Dump.{Target}
use ksnap.Restorer.Process.{page_up}

-- Each range ends before the later ones begin, its last page included.
abbrev pub InOrder : List Range → Type 0
InOrder [] = Unit
InOrder (r ∷ rs) = All (λ (s : Range). r.0 + page_up r.1 ≤ s.0) rs × InOrder rs

-- A maps file lists whole pages of a user address space of 47 bits, by address.
pub record IsMapsFile (lines : List Bytes) : Type 0 where
  pub count32 : length (dumped lines) < 2 ^ 32
  pub span47 : spans (dumped lines) ≤ 2 ^ 47
  pub in_order : InOrder (line_ranges (dumped lines))

-- What is documented of the answers of the system: PTRACE_GETREGS fills a `user_regs_struct`,
-- `readlink` gives at most the bytes it was asked for, and the maps file, the directory of
-- descriptors and `qsort` are as they are documented.
pub record IsDocumented (t : Target) : Type 0 where
  pub regs_filled : {regs : Bytes} → t.regs ≡ some regs → length regs ≡ regs_size
  pub exe_short : {path : Bytes} → t.exe ≡ some path → length path < path_max
  pub maps_file :
      {lines : List Bytes} {failed : Bool} → t.maps ≡ opened lines failed → IsMapsFile lines
  pub fd_directory : IsDirectory t.directory
  pub sorts : IsSort t.qsort
