-- ===== src/Tests/Children.antt =====
-- The descriptors of the sample process, reopened in a child.
use ksnap.Base.{
  ℕ, ◌≡◌, ◌<◌, refl, inl, inr, none, some, List, [], ◌∷◌, arith, ok, Option, if◌then◌else◌,
}
use ksnap.Base.Int.{ℤ, pos, eqb_ℤ}
use ksnap.Format.{FdDescriptor}
use ksnap.Restorer.FdTable.Spec.{IsFdTable}
use ksnap.Restorer.KernelMaps.{text_of}
use ksnap.Restorer.Child.{
  seek_opened, move_opened, open_file, open_entry, open_entries, open_snapshot_fds,
}
use ksnap.Restorer.Child.Placed.{HoldsTable, open_snapshot_fds-HoldsTable}
use ksnap.Tests.Snapshots.{parts, log_fd}
use ksnap.Tests.Desk.{Desk, table, desk, desk-IsFiles, find_free}

-- A shared descriptor beside the one of the log.
abbrev two_fds : List FdDescriptor
two_fds = log_fd ∷ record log_fd { fd = pos 7; dup_of = pos 3 } ∷ []

two_fds-IsFdTable : IsFdTable parts.pool [] two_fds
two_fds-IsFdTable = (
  record {
    above_stdio = omega arith;
    ascending = tt;
    shares = inl refl;
    creates_nothing = refl;
    path_some = omega arith;
    path_short = omega arith;
    path_inside = omega arith;
    path_text = record { terminated = refl; no_terminator = omega arith };
  },
  (
    record {
      above_stdio = omega arith;
      ascending = (omega arith, tt);
      shares = inr (inl refl);
      creates_nothing = refl;
      path_some = omega arith;
      path_short = omega arith;
      path_inside = omega arith;
      path_text = record { terminated = refl; no_terminator = omega arith };
    },
    tt,
  ),
)

-- The engine's own descriptors: standard output, and the snapshot at number 4.
abbrev inherited : ℤ → Option ℕ
inherited n = if eqb_ℤ n (pos 1) then some 0 else (if eqb_ℤ n (pos 4) then some 1 else none)

inherited-old : (m : ℤ) (j : ℕ) → inherited m ≡ some j → j < 2
inherited-old m j h = ground (arith, h)

abbrev engine : Desk
engine = record {
  table = record { at = inherited; file = λ id. record { path = []; flags = 0; position = 0 } };
  next = 2;
  old = inherited-old;
}

reopened : (d : Desk) × (open_snapshot_fds desk two_fds parts.pool engine ≡ ok d)
unfolding open_snapshot_fds open_entries open_entry open_file seek_opened move_opened text_of
    find_free
reopened = (_, refl)

open_snapshot_fds-HoldsTable_example : HoldsTable parts.pool (table reopened.0) two_fds
open_snapshot_fds-HoldsTable_example =
    open_snapshot_fds-HoldsTable desk table desk-IsFiles two_fds parts.pool engine two_fds-IsFdTable
      reopened.1
