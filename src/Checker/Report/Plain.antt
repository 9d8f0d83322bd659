-- ===== src/Checker/Report/Plain.antt =====
-- The state that a report of `check_one` shows needs no escape, which is what a document takes.
use ksnap.Base.{◌≡◌, ◌∙◌, Bool, true, List, [], ◌∷◌, arith, if◌then◌else◌, take, drop, All}
use ksnap.Base.Int.{ℤ}
use ksnap.Base.Text.{Bytes, codes, same_prefix}
use ksnap.Fds.{scan_labelled}
use ksnap.Maps.Scan.{skip_spaces}
use ksnap.Checker.{CheckReport, not_inspectable, gone_meanwhile, add_reason}
use ksnap.Checker.One.{
  StatusFile, no_status, status_lines, Subject, empty_report, set_state, read_status_line,
  read_status_lines, to_newline, read_status_fields, read_cmdline_argc, judge_status, inspect,
  check_one,
}
use ksnap.Checker.Report.Document.{Plain}
use ksnap.Checker.Report.State.{
  add_reason-state, probe_ptrace-state, judge_status-state, inspect-state,
}
use ksnap.Checker.One.Kept.{
  kept-state, read_cmdline_argc-kept, set_comm-kept, set_uid-kept, set_threads-kept,
  set_tracer_pid-kept, set_rss_kb-kept,
}

-- The first character is one that needs no escape.
abbrev pub FirstPlain : Bytes → Type 0
FirstPlain [] = Unit
FirstPlain (c ∷ s) = Plain c

-- The line with the state shows such a character.
abbrev pub PlainLine : Bytes → Type 0
PlainLine line = same_prefix line (codes "State:") 6 ≡ true → FirstPlain (skip_spaces (drop 6 line))

abbrev pub PlainStatus : StatusFile → Type 0
PlainStatus (no_status refused) = Unit
PlainStatus (status_lines lines) = All PlainLine lines

same-Plain : (r r' : CheckReport) → r'.state ≡ r.state → Plain r.state → Plain r'.state
same-Plain r r' same h = rw same h

set_state-Plain :
    (s : Bytes) (r : CheckReport) → FirstPlain s → Plain r.state → Plain (set_state s r).state
set_state-Plain [] r first h = h
set_state-Plain (c ∷ s) r first h = first

read_status_line-Plain :
    (r : CheckReport) (line : Bytes)
    → Plain r.state
    → PlainLine line
    → Plain (read_status_line r line).state
unfolding read_status_line
read_status_line-Plain r line h plain = ground (
  arith,
  h,
  plain,
  kept-state (set_comm-kept (take 63 (to_newline (skip_spaces (drop 5 line)))) r),
  set_state-Plain (skip_spaces (drop 6 line)) r,
  kept-state (set_uid-kept (scan_labelled (codes "Uid:") 10 line) r),
  kept-state (set_threads-kept (scan_labelled (codes "Threads:") 10 line) r),
  kept-state (set_tracer_pid-kept (scan_labelled (codes "TracerPid:") 10 line) r),
  kept-state (set_rss_kb-kept (scan_labelled (codes "VmRSS:") 10 line) r),
)

read_status_lines-Plain :
    (r : CheckReport) (lines : List Bytes)
    → Plain r.state
    → All PlainLine lines
    → Plain (read_status_lines r lines).state
unfolding read_status_lines
read_status_lines-Plain r [] h k = h
read_status_lines-Plain r (line ∷ lines) h k =
    read_status_lines-Plain (read_status_line r line) lines (read_status_line-Plain r line h k.0)
      k.1

read_status_fields-Plain :
    (file : StatusFile) (r : CheckReport)
    → Plain r.state
    → PlainStatus file
    → Plain (read_status_fields file r).0.state
unfolding read_status_fields
read_status_fields-Plain (no_status refused) r h k =
    let reason = if refused then not_inspectable (codes "status") else gone_meanwhile in
    same-Plain r (add_reason r reason) (add_reason-state r reason) h
read_status_fields-Plain (status_lines lines) r h k = read_status_lines-Plain r lines h k

-- The state that a check reports is a character that needs no escape, if the status file shows such
-- a one.
pub check_one-Plain :
    (pid : ℤ) (probe : Bool) (s : Subject)
    → PlainStatus s.status
    → Plain (check_one pid probe s).0.state
unfolding check_one
check_one-Plain pid probe s h =
    let r1 = (read_status_fields s.status (empty_report pid)).0 in
    let plain1 =
      read_status_fields-Plain s.status (empty_report pid) (omega arith, omega arith, omega arith)
        h in
    let r2 = judge_status (read_cmdline_argc s.cmdline r1) in
    let same2 =
      judge_status-state (read_cmdline_argc s.cmdline r1)
      ∙ kept-state (read_cmdline_argc-kept s.cmdline r1) in
    let same3 = inspect-state s r2 in
    let same4 = probe_ptrace-state s.probe (inspect s r2) in
    ground (arith, plain1, same2, same3, same4)
