-- ===== src/Checker/Fds.antt =====
-- `scan_fds` of Ksnap-engine/src/checker.c. A process has fewer descriptors than an `int` counts.
pub mod Agreement
use ksnap.Base.{ℕ, ◌+◌, Option, none, some, List, [], ◌∷◌, if◌then◌else◌}
use ksnap.Base.Int.{pos}
use ksnap.Base.Text.{Bytes}
use ksnap.Fds.{
  FdClass, fd_dump, fd_skip_stdio, fd_skip_volatile, fd_skip_unreachable, fd_skip_other,
  fd_unreadable, classify_fd, digits,
}
use ksnap.Dumper.Fds.{FdDirectory, first_is_digit}
use ksnap.Checker.{CheckReport}

abbrev pub one_open : CheckReport → CheckReport
one_open r = record r { open_fds = r.open_fds + 1 }

-- The counts that one descriptor adds to.
abbrev pub count_fd : FdClass → CheckReport → CheckReport
count_fd fd_skip_stdio r = r
count_fd fd_skip_volatile r = record (one_open r) { volatile_fds = r.volatile_fds + 1 }
count_fd fd_dump r = record (one_open r) { dumpable_fds = r.dumpable_fds + 1 }
count_fd fd_skip_unreachable r = one_open r
count_fd fd_skip_other r = one_open r
count_fd fd_unreadable r = one_open r

module _ (d : FdDirectory) where
  -- `atoi` of the name of an entry, as in the dump.
  unfoldable pub scan_name : CheckReport → Bytes → CheckReport
  scan_name r name =
      let fd = pos (digits 10 0 name) in
      if first_is_digit name then count_fd (classify_fd fd (d.link fd)).0 r else r

  unfoldable pub scan_names : CheckReport → List Bytes → CheckReport
  unfolding scan_name
  scan_names r [] = r
  scan_names r (name ∷ names) = scan_names (scan_name r name) names

  unfoldable pub scan_fds : CheckReport → CheckReport
  unfolding scan_names
  scan_fds r = elim (d.names) [ none ↦ r | some names ↦ scan_names r names ]
