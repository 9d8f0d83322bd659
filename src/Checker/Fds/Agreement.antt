-- ===== src/Checker/Fds/Agreement.antt =====
-- The check counts the descriptors that the dump carries over.
use ksnap.Base.{
  ℕ, ◌+◌, ◌≡◌, ap, inl, inr, Bool, List, [], ◌∷◌, length, length-append, arith, ok, >>=-eq-ok,
  Bool-cases, Option-cases, Result-cases,
}
use ksnap.Base.Int.{ℤ, pos}
use ksnap.Base.Text.{Bytes}
use ksnap.Format.{FdDescriptor}
use ksnap.Fds.{
  FdClass, fd_dump, fd_skip_stdio, fd_skip_volatile, fd_skip_unreachable, fd_skip_other,
  fd_unreadable, classify_fd, digits,
}
use ksnap.Dumper.Pool.{PathPool}
use ksnap.Dumper.Fds.{
  FdTable, FdDirectory, first_is_digit, add_fd, collect_fd, collect_name, collect_names, sorted,
  collect_fds,
}
use ksnap.Dumper.Fds.Added.{new_fd, new_table, add_fd-eq-ok}
use ksnap.Dumper.Fds.Shared.{length-find_shared_files}
use ksnap.Checker.{CheckReport}
use ksnap.Checker.Fds.{count_fd, scan_name, scan_names, scan_fds}

module _ (alloc : ℕ → Bool) (qsort : List FdDescriptor → List FdDescriptor) (d : FdDirectory) where
  length-add_fd :
      (t : FdTable) (fd : ℤ) (path : Bytes) {t' : FdTable}
      → add_fd alloc qsort d t fd path ≡ ok t'
      → length t'.fds ≡ length t.fds + 1
  unfolding new_table
  length-add_fd t fd path {t'} e =
      let (n, position, flags, r, is, appended, made) = add_fd-eq-ok alloc qsort d t fd path e in
      omega (
        arith,
        ap (λ (u : FdTable). length u.fds) made,
        length-append t.fds (new_fd alloc qsort d t fd path position flags r.0 ∷ []),
      )

  -- One descriptor adds to the count of the check what it adds to the table of the dump.
  collect_fd-count_fd :
      (c : FdClass) (t : FdTable) (fd : ℤ) (path : Bytes) (r : CheckReport) {t' : FdTable}
      → collect_fd alloc qsort d c t fd path ≡ ok t'
      → (count_fd c r).dumpable_fds + length t.fds ≡ r.dumpable_fds + length t'.fds
  collect_fd-count_fd fd_skip_stdio t fd path r e = ground (arith, e)
  collect_fd-count_fd fd_skip_volatile t fd path r e = ground (arith, e)
  collect_fd-count_fd fd_skip_unreachable t fd path r e = ground (arith, e)
  collect_fd-count_fd fd_skip_other t fd path r e = ground (arith, e)
  collect_fd-count_fd fd_unreadable t fd path r e = cc
  collect_fd-count_fd fd_dump t fd path r e = omega (arith, length-add_fd t fd path e)

  collect_name-scan_name :
      (t : FdTable) (name : Bytes) (r : CheckReport) {t' : FdTable}
      → collect_name alloc qsort d t name ≡ ok t'
      → (scan_name d r name).dumpable_fds + length t.fds ≡ r.dumpable_fds + length t'.fds
  unfolding collect_name scan_name
  collect_name-scan_name t name r {t'} e =
      let fd = pos (digits 10 0 name) in
      let (c, path) = classify_fd fd (d.link fd) in
      elim (Bool-cases (first_is_digit name)) [
        | inl is ↦
            ground
              (arith, e, is, collect_fd-count_fd c t fd path r {t' = t'} (ground (arith, e, is)))
        | inr is_not ↦ ground (arith, e, is_not)
      ]

  collect_names-scan_names :
      (t : FdTable) (names : List Bytes) (r : CheckReport) {t' : FdTable}
      → collect_names alloc qsort d t names ≡ ok t'
      → (scan_names d r names).dumpable_fds + length t.fds ≡ r.dumpable_fds + length t'.fds
  unfolding collect_names scan_names
  collect_names-scan_names t [] r e = ground (arith, e)
  collect_names-scan_names t (name ∷ names) r e =
      let (u, h, k) =
        >>=-eq-ok (collect_name alloc qsort d t name) (λ u. collect_names alloc qsort d u names)
          e in
      omega (
        arith,
        collect_name-scan_name t name r h,
        collect_names-scan_names u names (scan_name d r name) k,
      )

  -- Where a dump collects the descriptors, with a sorting routine that keeps their number, a check
  -- from a report that has counted none counts as many as the dump carries over.
  pub scan_fds-collect_fds :
      (pool : PathPool) (r : CheckReport) {fds : List FdDescriptor} {pool' : PathPool}
      → ((l : List FdDescriptor) → length (qsort l) ≡ length l)
      → r.dumpable_fds ≡ 0
      → collect_fds alloc qsort d pool ≡ ok (fds, pool')
      → (scan_fds d r).dumpable_fds ≡ length fds
  unfolding collect_fds scan_fds
  scan_fds-collect_fds pool r {fds} {pool'} keeps fresh e = elim (Option-cases d.names) [
    | inl closed ↦ ground (arith, e, closed)
    | inr (names, listed) ↦
        let start : FdTable = record { fds = []; capacity = 0; pool = pool } in
        elim (Result-cases (collect_names alloc qsort d start names)) [
          | inl (x, stops) ↦ ground (arith, e, listed, stops)
          | inr (t, h) ↦
              let s = sorted alloc qsort d t.fds in
              ground (
                arith,
                e,
                listed,
                h,
                fresh,
                keeps t.fds,
                collect_names-scan_names start names r h,
                length-find_shared_files d.kcmp t.pool.content [] s,
              )
        ]
  ]
