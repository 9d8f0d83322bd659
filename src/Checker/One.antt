-- ===== src/Checker/One.antt =====
-- `check_one`, `read_status_fields`, `read_cmdline_argc`, `probe_exe` and `count_children` of
-- Ksnap-engine/src/checker.c: one process, up to the printing of its report.
pub mod Kept
pub mod Reasons
pub mod Few
pub mod Counts
pub mod Quiet
pub mod Verdict
use ksnap.Base.{
  ℕ, suc, ◌+◌, ◌-◌, ◌%◌, ◌^◌, Bool, true, false, not, ◌&&◌, ◌||◌, Option, none, some, List, [], ◌∷◌,
  ◌++◌, length, take, drop, ltb, leb, ◌==◌, if◌then◌else◌,
}
use ksnap.Base.Int.{ℤ, pos, eqb_ℤ, leb_ℤ, of_bits32}
use ksnap.Base.Text.{Bytes, codes, same_text, same_prefix}
use ksnap.Maps.{MapsFile}
use ksnap.Maps.Scan.{skip_spaces}
use ksnap.Fds.{scan_labelled, deleted_suffix, is_deleted}
use ksnap.Dumper.Fds.{FdDirectory}
use ksnap.Checker.{
  CheckReport, Reason, multi_threaded, zombie, already_traced, kernel_thread, not_inspectable,
  gone_meanwhile, exe_unreadable, exe_empty, exe_deleted, exe_not_executable, add_reason,
}
use ksnap.Checker.Maps.{add_reason_if, scan_maps}
use ksnap.Checker.Fds.{scan_fds}
use ksnap.Checker.Probe.{Probe, probe_ptrace}

-- The lines of /proc/<pid>/status that `fgets` gives, or whether the file was denied.
pub data StatusFile : Type 0 where
  no_status : Bool → StatusFile
  status_lines : List Bytes → StatusFile

-- What `readlink` gives for /proc/<pid>/exe, or whether it was denied, with the error number.
pub data ExeLink : Type 0 where
  no_link : Bool → ℕ → ExeLink
  linked : Bytes → ExeLink

-- Everything the system may answer about one process. `access` is the error number of `access`, if
-- it fails, and `children` how many numbers /proc/<pid>/task/<pid>/children holds.
pub record Subject : Type 0 where
  pub status : StatusFile
  pub cmdline : Option Bytes
  pub exe : ExeLink
  pub access : Option ℕ
  pub maps : MapsFile
  pub directory : FdDirectory
  pub children : Option ℕ
  pub probe : Probe

-- `memset`, `pid` and `state`
abbrev pub empty_report : ℤ → CheckReport
empty_report pid = record {
  pid = pid;
  comm = [];
  state = b'?';
  threads = pos 0;
  tracer_pid = pos 0;
  argc = 0;
  open_fds = 0;
  volatile_fds = 0;
  dumpable_fds = 0;
  children = 0;
  uid = 0;
  rss_kb = 0;
  exe_path = [];
  dumpable_vmas = 0;
  kernel_maps = 0;
  shared_vmas = 0;
  device_vmas = 0;
  snapshot_bytes = 0;
  ptrace_probed = false;
  ptrace_ok = false;
  reasons = [];
}

-- `%[^\n]`
unfoldable pub to_newline : Bytes → Bytes
to_newline [] = []
to_newline (c ∷ s) = if c == 10 then [] else c ∷ to_newline s

-- The fields stay as they are where the conversion fails.
abbrev pub set_comm : Bytes → CheckReport → CheckReport
set_comm [] r = r
set_comm (c ∷ s) r = record r { comm = c ∷ s }

abbrev pub set_state : Bytes → CheckReport → CheckReport
set_state [] r = r
set_state (c ∷ s) r = record r { state = c }

abbrev pub set_uid : Option ℕ → CheckReport → CheckReport
set_uid none r = r
set_uid (some n) r = record r { uid = n % 2 ^ 32 }

abbrev pub set_threads : Option ℕ → CheckReport → CheckReport
set_threads none r = r
set_threads (some n) r = record r { threads = of_bits32 (n % 2 ^ 32) }

abbrev pub set_tracer_pid : Option ℕ → CheckReport → CheckReport
set_tracer_pid none r = r
set_tracer_pid (some n) r = record r { tracer_pid = of_bits32 (n % 2 ^ 32) }

abbrev pub set_rss_kb : Option ℕ → CheckReport → CheckReport
set_rss_kb none r = r
set_rss_kb (some n) r = record r { rss_kb = n }

unfoldable pub read_status_line : CheckReport → Bytes → CheckReport
read_status_line r line =
    if same_prefix line (codes "Name:") 5
    then set_comm (take 63 (to_newline (skip_spaces (drop 5 line)))) r
    else if same_prefix line (codes "State:") 6
    then set_state (skip_spaces (drop 6 line)) r
    else if same_prefix line (codes "Uid:") 4
    then set_uid (scan_labelled (codes "Uid:") 10 line) r
    else if same_prefix line (codes "Threads:") 8
    then set_threads (scan_labelled (codes "Threads:") 10 line) r
    else if same_prefix line (codes "TracerPid:") 10
    then set_tracer_pid (scan_labelled (codes "TracerPid:") 10 line) r
    else if same_prefix line (codes "VmRSS:") 6
    then set_rss_kb (scan_labelled (codes "VmRSS:") 10 line) r
    else r

unfoldable pub read_status_lines : CheckReport → List Bytes → CheckReport
unfolding read_status_line
read_status_lines r [] = r
read_status_lines r (line ∷ lines) = read_status_lines (read_status_line r line) lines

-- The report, and whether the file could be read.
unfoldable pub read_status_fields : StatusFile → CheckReport → CheckReport × Bool
unfolding read_status_lines
read_status_fields (no_status denied) r =
    (add_reason r (if denied then not_inspectable (codes "status") else gone_meanwhile), false)
read_status_fields (status_lines lines) r = (read_status_lines r lines, true)

-- The arguments that are not empty; `pending` says whether one has begun.
unfoldable pub count_arguments : Bool → Bytes → ℕ
count_arguments pending [] = if pending then 1 else 0
count_arguments pending (c ∷ s) =
    let ended = count_arguments false s in
    let going = count_arguments true s in
    if c == 0 then (if pending then suc ended else ended) else going

unfoldable pub read_cmdline_argc : Option Bytes → CheckReport → CheckReport
read_cmdline_argc none r = r
read_cmdline_argc (some cmdline) r = record r { argc = count_arguments false cmdline }

abbrev pub judge_access : Option ℕ → CheckReport → CheckReport
judge_access none r = r
judge_access (some errno) r = add_reason r (exe_not_executable errno)

unfoldable pub probe_exe : ExeLink → Option ℕ → CheckReport → CheckReport
unfolding is_deleted
probe_exe (no_link denied errno) access r =
    add_reason r (if denied then not_inspectable (codes "exe") else exe_unreadable errno)
probe_exe (linked path) access r =
    if length path == 0
    then add_reason (record r { exe_path = path }) exe_empty
    else if is_deleted path
    then add_reason (record r { exe_path = take (length path - length deleted_suffix) path })
        exe_deleted
    else judge_access access (record r { exe_path = path })

unfoldable pub count_children : Option ℕ → CheckReport → CheckReport
count_children none r = r
count_children (some n) r = record r { children = r.children + n }

-- The verdicts that come first.
unfoldable pub judge_status : CheckReport → CheckReport
judge_status r = add_reason_if (r.argc == 0) kernel_thread (
    add_reason_if (not (eqb_ℤ r.tracer_pid (pos 0))) (already_traced r.tracer_pid) (
      add_reason_if (r.state == b'Z' || r.state == b'X') zombie
        (add_reason_if (not (leb_ℤ r.threads (pos 1))) (multi_threaded r.threads) r)))

abbrev pub has_reasons : CheckReport → Bool
has_reasons r = not (length r.reasons == 0)

abbrev pub exit_dumpable : ℕ
exit_dumpable = 0

abbrev pub exit_blocked : ℕ
exit_blocked = 11

-- The walks over the files of the process.
unfoldable pub inspect : Subject → CheckReport → CheckReport
inspect s r =
    count_children s.children (scan_fds s.directory (scan_maps s.maps (probe_exe s.exe s.access r)))

-- The report that is printed, and the exit status.
unfoldable pub check_one : ℤ → Bool → Subject → CheckReport × ℕ
unfolding read_status_fields inspect
check_one pid probe s =
    let (r1, readable) = read_status_fields s.status (empty_report pid) in
    let r2 = judge_status (read_cmdline_argc s.cmdline r1) in
    let r3 = inspect s r2 in
    let r4 = if probe && not (has_reasons r3) then (probe_ptrace s.probe r3).1 else r3 in
    if not readable
    then (r1, exit_blocked)
    else if has_reasons r2
    then (r2, exit_blocked)
    else (r4, if has_reasons r4 then exit_blocked else exit_dumpable)
