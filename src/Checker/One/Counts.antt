-- ===== src/Checker/One/Counts.antt =====
-- The steps of a check that leave the counters of the mappings as they are.
use ksnap.Base.{
  ℕ, ◌≡◌, refl, ◌∙◌, Bool, true, false, not, Option, none, some, List, [], ◌∷◌, arith, ◌==◌,
  if◌then◌else◌, take, drop, ◌||◌,
}
use ksnap.Base.Int.{pos, leb_ℤ, eqb_ℤ}
use ksnap.Base.Text.{Bytes, codes, same_prefix}
use ksnap.Maps.Scan.{skip_spaces}
use ksnap.Fds.{scan_labelled}
use ksnap.Checker.Maps.{add_reason_if}
use ksnap.Checker.{
  CheckReport, Reason, not_inspectable, gone_meanwhile, multi_threaded, zombie, already_traced,
  kernel_thread, add_reason,
}
use ksnap.Checker.One.{
  StatusFile, no_status, status_lines, to_newline, set_comm, set_state, set_uid, set_threads,
  set_tracer_pid, set_rss_kb, read_status_line, read_status_lines, read_status_fields,
  read_cmdline_argc, judge_status,
}

-- The counters of the mappings are those of another report.
pub record SameCounts (r r' : CheckReport) : Type 0 where
  pub vmas : r'.dumpable_vmas ≡ r.dumpable_vmas
  pub bytes : r'.snapshot_bytes ≡ r.snapshot_bytes
  pub kernel : r'.kernel_maps ≡ r.kernel_maps

same : (r : CheckReport) → SameCounts r r
same r = record { vmas = refl; bytes = refl; kernel = refl }

pub then_same : {r r1 r2 : CheckReport} → SameCounts r r1 → SameCounts r1 r2 → SameCounts r r2
then_same a b = record {
  vmas = b.vmas ∙ a.vmas;
  bytes = b.bytes ∙ a.bytes;
  kernel = b.kernel ∙ a.kernel;
}

add_reason-same : (r : CheckReport) (x : Reason) → SameCounts r (add_reason r x)
unfolding add_reason
add_reason-same r x = record { vmas = ground arith; bytes = ground arith; kernel = ground arith }

add_reason_if-same : (b : Bool) (x : Reason) (r : CheckReport) → SameCounts r (add_reason_if b x r)
add_reason_if-same true x r = add_reason-same r x
add_reason_if-same false x r = same r

pub judge_status-same : (r : CheckReport) → SameCounts r (judge_status r)
unfolding judge_status
judge_status-same r =
    let threads = not (leb_ℤ r.threads (pos 1)) in
    let r1 = add_reason_if threads (multi_threaded r.threads) r in
    let dead = r.state == b'Z' || r.state == b'X' in
    let r2 = add_reason_if dead zombie r1 in
    let traced = not (eqb_ℤ r.tracer_pid (pos 0)) in
    let r3 = add_reason_if traced (already_traced r.tracer_pid) r2 in
    then_same
      (then_same
        (then_same (add_reason_if-same threads (multi_threaded r.threads) r)
          (add_reason_if-same dead zombie r1))
        (add_reason_if-same traced (already_traced r.tracer_pid) r2))
      (add_reason_if-same (r.argc == 0) kernel_thread r3)

set_comm-same : (s : Bytes) (r : CheckReport) → SameCounts r (set_comm s r)
set_comm-same [] r = same r
set_comm-same (c ∷ s) r = record { vmas = refl; bytes = refl; kernel = refl }

set_state-same : (s : Bytes) (r : CheckReport) → SameCounts r (set_state s r)
set_state-same [] r = same r
set_state-same (c ∷ s) r = record { vmas = refl; bytes = refl; kernel = refl }

set_uid-same : (n : Option ℕ) (r : CheckReport) → SameCounts r (set_uid n r)
set_uid-same none r = same r
set_uid-same (some n) r = record { vmas = refl; bytes = refl; kernel = refl }

set_threads-same : (n : Option ℕ) (r : CheckReport) → SameCounts r (set_threads n r)
set_threads-same none r = same r
set_threads-same (some n) r = record { vmas = refl; bytes = refl; kernel = refl }

set_tracer_pid-same : (n : Option ℕ) (r : CheckReport) → SameCounts r (set_tracer_pid n r)
set_tracer_pid-same none r = same r
set_tracer_pid-same (some n) r = record { vmas = refl; bytes = refl; kernel = refl }

set_rss_kb-same : (n : Option ℕ) (r : CheckReport) → SameCounts r (set_rss_kb n r)
set_rss_kb-same none r = same r
set_rss_kb-same (some n) r = record { vmas = refl; bytes = refl; kernel = refl }

either_same :
    (b : Bool) {r x y : CheckReport}
    → SameCounts r x
    → SameCounts r y
    → SameCounts r (if b then x else y)
either_same true a b = a
either_same false a b = b

read_status_line-same : (r : CheckReport) (line : Bytes) → SameCounts r (read_status_line r line)
unfolding read_status_line
read_status_line-same r line =
    either_same (same_prefix line (codes "Name:") 5)
      (set_comm-same (take 63 (to_newline (skip_spaces (drop 5 line)))) r)
      (either_same (same_prefix line (codes "State:") 6)
        (set_state-same (skip_spaces (drop 6 line)) r)
        (either_same (same_prefix line (codes "Uid:") 4)
          (set_uid-same (scan_labelled (codes "Uid:") 10 line) r)
          (either_same (same_prefix line (codes "Threads:") 8)
            (set_threads-same (scan_labelled (codes "Threads:") 10 line) r)
            (either_same (same_prefix line (codes "TracerPid:") 10)
              (set_tracer_pid-same (scan_labelled (codes "TracerPid:") 10 line) r)
              (either_same (same_prefix line (codes "VmRSS:") 6)
                (set_rss_kb-same (scan_labelled (codes "VmRSS:") 10 line) r) (same r))))))

read_status_lines-same :
    (r : CheckReport) (lines : List Bytes) → SameCounts r (read_status_lines r lines)
unfolding read_status_lines
read_status_lines-same r [] = same r
read_status_lines-same r (line ∷ lines) =
    then_same (read_status_line-same r line)
      (read_status_lines-same (read_status_line r line) lines)

pub read_status_fields-same :
    (file : StatusFile) (r : CheckReport) → SameCounts r (read_status_fields file r).0
unfolding read_status_fields
read_status_fields-same (no_status true) r = add_reason-same r (not_inspectable (codes "status"))
read_status_fields-same (no_status false) r = add_reason-same r gone_meanwhile
read_status_fields-same (status_lines lines) r = read_status_lines-same r lines

pub read_cmdline_argc-same :
    (c : Option Bytes) (r : CheckReport) → SameCounts r (read_cmdline_argc c r)
unfolding read_cmdline_argc
read_cmdline_argc-same none r = same r
read_cmdline_argc-same (some c) r = record { vmas = refl; bytes = refl; kernel = refl }
