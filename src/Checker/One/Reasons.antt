-- ===== src/Checker/One/Reasons.antt =====
-- The lines of /proc/<pid>/status add no reason to the report.
use ksnap.Base.{◌≡◌, refl, ◌∙◌, List, [], ◌∷◌, arith, take, drop}
use ksnap.Base.Text.{Bytes, codes}
use ksnap.Maps.Scan.{skip_spaces}
use ksnap.Fds.{scan_labelled}
use ksnap.Checker.{CheckReport}
use ksnap.Checker.One.{to_newline, set_state, read_status_line, read_status_lines}
use ksnap.Checker.One.Kept.{
  kept-reasons, set_comm-kept, set_uid-kept, set_threads-kept, set_tracer_pid-kept, set_rss_kb-kept,
}

set_state-reasons : (s : Bytes) (r : CheckReport) → (set_state s r).reasons ≡ r.reasons
set_state-reasons [] r = refl
set_state-reasons (c ∷ s) r = refl

read_status_line-reasons :
    (r : CheckReport) (line : Bytes) → (read_status_line r line).reasons ≡ r.reasons
unfolding read_status_line
read_status_line-reasons r line = ground (
  arith,
  kept-reasons (set_comm-kept (take 63 (to_newline (skip_spaces (drop 5 line)))) r),
  set_state-reasons (skip_spaces (drop 6 line)) r,
  kept-reasons (set_uid-kept (scan_labelled (codes "Uid:") 10 line) r),
  kept-reasons (set_threads-kept (scan_labelled (codes "Threads:") 10 line) r),
  kept-reasons (set_tracer_pid-kept (scan_labelled (codes "TracerPid:") 10 line) r),
  kept-reasons (set_rss_kb-kept (scan_labelled (codes "VmRSS:") 10 line) r),
)

pub read_status_lines-reasons :
    (r : CheckReport) (lines : List Bytes) → (read_status_lines r lines).reasons ≡ r.reasons
unfolding read_status_lines
read_status_lines-reasons r [] = refl
read_status_lines-reasons r (line ∷ lines) =
    read_status_lines-reasons (read_status_line r line) lines ∙ read_status_line-reasons r line
