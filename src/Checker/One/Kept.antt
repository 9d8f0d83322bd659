-- ===== src/Checker/One/Kept.antt =====
-- The steps of a check that keep the reasons and the state of the process in the report.
use ksnap.Base.{
  ℕ, ◌≡◌, refl, ap, ◌∙◌, inl, inr, Option, none, some, List, [], ◌∷◌, arith, Option-cases,
}
use ksnap.Base.Int.{pos}
use ksnap.Base.Text.{Bytes}
use ksnap.Maps.{
  MapsLine, VmaClass, vma_dump, vma_kernel, vma_skip_unreadable, vma_skip_shared, vma_skip_pseudo,
  classify_maps_line,
}
use ksnap.Maps.Scan.{parse_maps_line}
use ksnap.Fds.{
  digits, FdClass, fd_dump, fd_skip_stdio, fd_skip_volatile, fd_skip_unreachable, fd_skip_other,
  fd_unreadable, classify_fd,
}
use ksnap.Dumper.Fds.{FdDirectory}
use ksnap.Checker.{CheckReport, Reason}
use ksnap.Checker.Maps.{
  ScanState, count_shared, count_kernel, count_device, count_dumpable, scan_as, scan_lines,
}
use ksnap.Checker.Fds.{count_fd, scan_name, scan_names, scan_fds}
use ksnap.Checker.One.{
  set_comm, set_uid, set_threads, set_tracer_pid, set_rss_kb, read_cmdline_argc, count_children,
}

-- What those steps keep.
abbrev pub kept : CheckReport → List Reason × ℕ
kept r = (r.reasons, r.state)

pub kept-reasons : {k k' : List Reason × ℕ} → k ≡ k' → k.0 ≡ k'.0
kept-reasons h = ap (λ k. k.0) h

pub kept-state : {k k' : List Reason × ℕ} → k ≡ k' → k.1 ≡ k'.1
kept-state h = ap (λ k. k.1) h

scan_as-kept :
    (c : VmaClass) (s : ScanState) (m : MapsLine) → kept (scan_as c s m).report ≡ kept s.report
unfolding count_shared count_kernel count_device count_dumpable
scan_as-kept vma_dump s m = ground arith
scan_as-kept vma_kernel s m = refl
scan_as-kept vma_skip_unreadable s m = refl
scan_as-kept vma_skip_shared s m = refl
scan_as-kept vma_skip_pseudo s m = refl

pub scan_lines-kept :
    (s : ScanState) (lines : List Bytes) → kept (scan_lines s lines).report ≡ kept s.report
unfolding scan_lines
scan_lines-kept s [] = refl
scan_lines-kept s (line ∷ lines) = elim (Option-cases (parse_maps_line line)) [
  | inl skip ↦ rw (scan_lines, skip) (scan_lines-kept s lines)
  | inr (m, is) ↦
      rw (scan_lines, is)
        (scan_lines-kept (scan_as (classify_maps_line m) s m) lines
          ∙ scan_as-kept (classify_maps_line m) s m)
]

count_fd-kept : (c : FdClass) (r : CheckReport) → kept (count_fd c r) ≡ kept r
count_fd-kept fd_dump r = refl
count_fd-kept fd_skip_stdio r = refl
count_fd-kept fd_skip_volatile r = refl
count_fd-kept fd_skip_unreachable r = refl
count_fd-kept fd_skip_other r = refl
count_fd-kept fd_unreadable r = refl

scan_name-kept :
    (d : FdDirectory) (r : CheckReport) (name : Bytes) → kept (scan_name d r name) ≡ kept r
unfolding scan_name
scan_name-kept d r name =
    let fd = pos (digits 10 0 name) in
    ground (arith, count_fd-kept (classify_fd fd (d.link fd)).0 r)

scan_names-kept :
    (d : FdDirectory) (r : CheckReport) (names : List Bytes) → kept (scan_names d r names) ≡ kept r
unfolding scan_names
scan_names-kept d r [] = refl
scan_names-kept d r (name ∷ names) =
    scan_names-kept d (scan_name d r name) names ∙ scan_name-kept d r name

pub scan_fds-kept : (d : FdDirectory) (r : CheckReport) → kept (scan_fds d r) ≡ kept r
unfolding scan_fds
scan_fds-kept d r = elim (Option-cases (d.names)) [
  | inl closed ↦ rw (scan_fds, closed) refl
  | inr (names, is) ↦ rw (scan_fds, is) (scan_names-kept d r names)
]

pub count_children-kept : (n : Option ℕ) (r : CheckReport) → kept (count_children n r) ≡ kept r
unfolding count_children
count_children-kept none r = refl
count_children-kept (some n) r = refl

pub read_cmdline_argc-kept :
    (c : Option Bytes) (r : CheckReport) → kept (read_cmdline_argc c r) ≡ kept r
unfolding read_cmdline_argc
read_cmdline_argc-kept none r = refl
read_cmdline_argc-kept (some c) r = refl

pub set_comm-kept : (s : Bytes) (r : CheckReport) → kept (set_comm s r) ≡ kept r
set_comm-kept [] r = refl
set_comm-kept (c ∷ s) r = refl

pub set_uid-kept : (n : Option ℕ) (r : CheckReport) → kept (set_uid n r) ≡ kept r
set_uid-kept none r = refl
set_uid-kept (some n) r = refl

pub set_threads-kept : (n : Option ℕ) (r : CheckReport) → kept (set_threads n r) ≡ kept r
set_threads-kept none r = refl
set_threads-kept (some n) r = refl

pub set_tracer_pid-kept : (n : Option ℕ) (r : CheckReport) → kept (set_tracer_pid n r) ≡ kept r
set_tracer_pid-kept none r = refl
set_tracer_pid-kept (some n) r = refl

pub set_rss_kb-kept : (n : Option ℕ) (r : CheckReport) → kept (set_rss_kb n r) ≡ kept r
set_rss_kb-kept none r = refl
set_rss_kb-kept (some n) r = refl
