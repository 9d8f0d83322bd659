-- ===== src/Checker/One/Few.antt =====
-- The report of a check has room for its reasons.
use ksnap.Base.{
  ℕ, ◌≤◌, ◌≡◌, ap, ◌∙◌, Bool, true, false, not, ◌||◌, ◌-◌, take, Option, none, some, [], ◌∷◌,
  length, length-append, arith, ltb, ◌==◌,
}
use ksnap.Base.Int.{ℤ, pos, leb_ℤ, eqb_ℤ}
use ksnap.Dumper.Dump.{stopped}
use ksnap.Base.Text.{codes}
use ksnap.Maps.{MapsFile, not_opened, opened, denied, gone}
use ksnap.Fds.{deleted_suffix}
use ksnap.Checker.{
  CheckReport, Reason, not_inspectable, gone_meanwhile, exe_unreadable, exe_empty, exe_deleted,
  exe_not_executable, gone_halfway, shared_mapping, device_mapping, too_many_kernel_maps,
  no_dumpable_mapping, multi_threaded, zombie, already_traced, kernel_thread, cannot_seize,
  cannot_interrupt, did_not_stop, cannot_detach, max_reasons, add_reason,
}
use ksnap.Format.{max_kernel_maps}
use ksnap.Checker.Maps.{ScanState, scan_lines, add_reason_if, judge_maps, scan_maps}
use ksnap.Checker.Fds.{scan_fds}
use ksnap.Checker.Probe.{Probe, note_stop, note_detach, attempt, probe_ptrace}
use ksnap.Checker.One.{
  StatusFile, no_status, status_lines, ExeLink, no_link, linked, Subject, empty_report,
  read_status_lines, read_status_fields, read_cmdline_argc, judge_access, probe_exe, count_children,
  judge_status, inspect, check_one,
}
use ksnap.Checker.One.Reasons.{read_status_lines-reasons}
use ksnap.Checker.One.Kept.{
  kept-reasons, scan_lines-kept, scan_fds-kept, count_children-kept, read_cmdline_argc-kept,
}

-- The report has room for its reasons.
abbrev pub Few : CheckReport → Type 0
Few r = length r.reasons ≤ max_reasons

add_reason-Few : (r : CheckReport) (x : Reason) → Few r → Few (add_reason r x)
unfolding add_reason
add_reason-Few r x few = ground (arith, length-append r.reasons (x ∷ []))

add_reason_if-Few : (b : Bool) (x : Reason) (r : CheckReport) → Few r → Few (add_reason_if b x r)
add_reason_if-Few true x r few = add_reason-Few r x few
add_reason_if-Few false x r few = few

judge_maps-Few : (s : ScanState) (failed : Bool) → Few s.report → Few (judge_maps s failed)
unfolding judge_maps
judge_maps-Few s failed few =
    let r = s.report in
    let r1 = add_reason_if failed gone_halfway r in
    let shared = ltb 0 r.shared_vmas in
    let r2 = add_reason_if shared (shared_mapping r.shared_vmas s.first_shared) r1 in
    let devices = ltb 0 r.device_vmas in
    let r3 = add_reason_if devices (device_mapping s.first_device) r2 in
    let kernel = ltb max_kernel_maps r.kernel_maps in
    let r4 = add_reason_if kernel (too_many_kernel_maps r.kernel_maps) r3 in
    let few1 = add_reason_if-Few failed gone_halfway r few in
    let few2 = add_reason_if-Few shared (shared_mapping r.shared_vmas s.first_shared) r1 few1 in
    let few3 = add_reason_if-Few devices (device_mapping s.first_device) r2 few2 in
    let few4 = add_reason_if-Few kernel (too_many_kernel_maps r.kernel_maps) r3 few3 in
    add_reason_if-Few (r.dumpable_vmas == 0) no_dumpable_mapping r4 few4

scan_maps-Few : (file : MapsFile) (r : CheckReport) → Few r → Few (scan_maps file r)
unfolding scan_maps
scan_maps-Few (not_opened denied) r few = add_reason-Few r (not_inspectable (codes "maps")) few
scan_maps-Few (not_opened gone) r few = add_reason-Few r gone_meanwhile few
scan_maps-Few (opened lines failed) r few =
    let start : ScanState = record { report = r; first_shared = []; first_device = [] } in
    judge_maps-Few (scan_lines start lines) failed
      (omega (arith, ap (λ l. length l) (kept-reasons (scan_lines-kept start lines)), few))

note_stop-Few : (b : Bool) (r : CheckReport) → Few r → Few (note_stop b r)
note_stop-Few true r few = few
note_stop-Few false r few = add_reason-Few r did_not_stop few

note_detach-Few : (b : Bool) (errno : ℕ) (r : CheckReport) → Few r → Few (note_detach b errno r)
note_detach-Few true errno r few = few
note_detach-Few false errno r few = add_reason-Few r (cannot_detach errno) few

attempt-Few :
    (p : Probe) (r : CheckReport) (seizes interrupts stops detaches : Bool)
    → Few r
    → Few (attempt p r seizes interrupts stops detaches).1
attempt-Few p r false i s d few = add_reason-Few r (cannot_seize p.seize_errno) few
attempt-Few p r true false s d few = add_reason-Few r (cannot_interrupt p.interrupt_errno) few
attempt-Few p r true true s d few =
    note_detach-Few d p.detach_errno (note_stop s r) (note_stop-Few s r few)

probe_ptrace-Few : (p : Probe) (r : CheckReport) → Few r → Few (probe_ptrace p r).1
unfolding probe_ptrace
probe_ptrace-Few p r few =
    attempt-Few p (record r { ptrace_probed = true }) p.seizes p.interrupts (stopped p.stops)
      p.detaches few

same-Few : (r r' : CheckReport) → r'.reasons ≡ r.reasons → Few r → Few r'
same-Few r r' same few = omega (arith, ap (λ l. length l) same, few)

read_status_fields-Few :
    (file : StatusFile) (r : CheckReport) → Few r → Few (read_status_fields file r).0
unfolding read_status_fields
read_status_fields-Few (no_status true) r few =
    add_reason-Few r (not_inspectable (codes "status")) few
read_status_fields-Few (no_status false) r few = add_reason-Few r gone_meanwhile few
read_status_fields-Few (status_lines lines) r few =
    same-Few r (read_status_lines r lines) (read_status_lines-reasons r lines) few

judge_status-Few : (r : CheckReport) → Few r → Few (judge_status r)
unfolding judge_status
judge_status-Few r few =
    let threads = not (leb_ℤ r.threads (pos 1)) in
    let r1 = add_reason_if threads (multi_threaded r.threads) r in
    let dead = r.state == b'Z' || r.state == b'X' in
    let r2 = add_reason_if dead zombie r1 in
    let traced = not (eqb_ℤ r.tracer_pid (pos 0)) in
    let r3 = add_reason_if traced (already_traced r.tracer_pid) r2 in
    let few1 = add_reason_if-Few threads (multi_threaded r.threads) r few in
    let few2 = add_reason_if-Few dead zombie r1 few1 in
    let few3 = add_reason_if-Few traced (already_traced r.tracer_pid) r2 few2 in
    add_reason_if-Few (r.argc == 0) kernel_thread r3 few3

judge_access-Few : (a : Option ℕ) (r : CheckReport) → Few r → Few (judge_access a r)
judge_access-Few none r few = few
judge_access-Few (some errno) r few = add_reason-Few r (exe_not_executable errno) few

probe_exe-Few : (l : ExeLink) (a : Option ℕ) (r : CheckReport) → Few r → Few (probe_exe l a r)
unfolding probe_exe
probe_exe-Few (no_link true errno) a r few = add_reason-Few r (not_inspectable (codes "exe")) few
probe_exe-Few (no_link false errno) a r few = add_reason-Few r (exe_unreadable errno) few
probe_exe-Few (linked path) a r few = ground (
  arith,
  add_reason-Few (record r { exe_path = path }) exe_empty few,
  add_reason-Few (record r { exe_path = take (length path - length deleted_suffix) path })
      exe_deleted few,
  judge_access-Few a (record r { exe_path = path }) few,
)

inspect-Few : (s : Subject) (r : CheckReport) → Few r → Few (inspect s r)
unfolding inspect
inspect-Few s r few =
    let r1 = probe_exe s.exe s.access r in
    let r2 = scan_maps s.maps r1 in
    let few2 = scan_maps-Few s.maps r1 (probe_exe-Few s.exe s.access r few) in
    same-Few r2 (count_children s.children (scan_fds s.directory r2))
      (kept-reasons
        (count_children-kept s.children (scan_fds s.directory r2) ∙ scan_fds-kept s.directory r2))
      few2

-- However the system answers, the report that a check prints has at most eight reasons, as many as
-- its array holds.
pub check_one-Few : (pid : ℤ) (probe : Bool) (s : Subject) → Few (check_one pid probe s).0
unfolding check_one
check_one-Few pid probe s =
    let start : Few (empty_report pid) = omega arith in
    let r1 = (read_status_fields s.status (empty_report pid)).0 in
    let few1 = read_status_fields-Few s.status (empty_report pid) start in
    let r2 = judge_status (read_cmdline_argc s.cmdline r1) in
    let few2 = judge_status-Few (read_cmdline_argc s.cmdline r1) (
      same-Few r1 (read_cmdline_argc s.cmdline r1)
        (kept-reasons (read_cmdline_argc-kept s.cmdline r1)) few1) in
    let few3 = inspect-Few s r2 few2 in
    ground (arith, few1, few2, few3, probe_ptrace-Few s.probe (inspect s r2) few3)
