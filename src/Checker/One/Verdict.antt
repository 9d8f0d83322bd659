-- ===== src/Checker/One/Verdict.antt =====
-- What the verdict of a check promises.
use ksnap.Base.{
  ℕ, ◌+◌, ◌^◌, ◌<◌, ◌≡◌, refl, ap, sym, ◌∙◌, Bool, true, false, not, ◌&&◌, none, List, [], length,
  All, arith, if◌then◌else◌, ok,
}
use ksnap.Base.Int.{ℤ}
use ksnap.Base.Text.{Bytes}
use ksnap.Maps.{opened}
use ksnap.Maps.Select.{dumped, kernel_owned}
use ksnap.Fds.{is_deleted}
use ksnap.Dumper.Pool.{PathPool}
use ksnap.Dumper.Pool.Laws.{IsPool}
use ksnap.Dumper.Vmas.{VmaTable, collect_vmas}
use ksnap.Dumper.Vmas.Works.{path_bytes, IsShortName}
use ksnap.Checker.Maps.{scan_maps}
use ksnap.Checker.Maps.Promise.{IsFresh}
use ksnap.Checker.Maps.Quiet.{scan_maps-collect_vmas-works}
use ksnap.Checker.Fds.{scan_fds}
use ksnap.Checker.Probe.{probe_ptrace}
use ksnap.Checker.One.Kept.{kept-reasons, scan_fds-kept, count_children-kept}
use ksnap.Checker.{CheckReport}
use ksnap.Checker.One.{
  Subject, linked, probe_exe, empty_report, read_status_fields, read_cmdline_argc, judge_status,
  inspect, has_reasons, check_one, exit_dumpable, exit_blocked,
}
use ksnap.Checker.One.Counts.{
  then_same, judge_status-same, read_status_fields-same, read_cmdline_argc-same,
}
use ksnap.Checker.One.Quiet.{
  has_reasons_iff, scan_maps-quiet, probe_exe-IsRunnable, Attaches, probe_ptrace-Attaches,
}

-- The end of `check_one`, for any reports of its stages.
abbrev end_of :
    Bool → Bool → CheckReport → CheckReport → CheckReport → CheckReport → CheckReport × ℕ
end_of readable probe r1 r2 r3 probed =
    let r4 = if probe && not (has_reasons r3) then probed else r3 in
    if not readable
    then (r1, exit_blocked)
    else if has_reasons r2
    then (r2, exit_blocked)
    else (r4, if has_reasons r4 then exit_blocked else exit_dumpable)

end_of-quiet :
    (readable probe : Bool) (r1 r2 r3 probed : CheckReport)
    → (end_of readable probe r1 r2 r3 probed).1 ≡ exit_dumpable
    → (has_reasons r3 ≡ false) × (probe ≡ true → has_reasons probed ≡ false)
end_of-quiet readable probe r1 r2 r3 probed h =
    (ground (arith, h), λ probes. ground (arith, h, probes))

-- The three stages that a verdict without a reason has passed.
record Passed (probe : Bool) (s : Subject) (r : CheckReport) : Type 0 where
  pub quiet : (inspect s r).reasons ≡ []
  pub probed : probe ≡ true → (probe_ptrace s.probe (inspect s r)).1.reasons ≡ []
  pub fresh : IsFresh r

check_one-Passed :
    (pid : ℤ) (probe : Bool) (s : Subject)
    → (check_one pid probe s).1 ≡ exit_dumpable
    → (r : CheckReport) × Passed probe s r
unfolding check_one
check_one-Passed pid probe s dumpable =
    let r0 = empty_report pid in
    let r1 = (read_status_fields s.status r0).0 in
    let r2 = judge_status (read_cmdline_argc s.cmdline r1) in
    let r3 = inspect s r2 in
    let counts =
      then_same
        (then_same (read_status_fields-same s.status r0) (read_cmdline_argc-same s.cmdline r1))
        (judge_status-same (read_cmdline_argc s.cmdline r1)) in
    let probed = (probe_ptrace s.probe r3).1 in
    let (quiet, probe_quiet) =
      end_of-quiet (read_status_fields s.status r0).1 probe r1 r2 r3 probed dumpable in
    (
      r2,
      record {
        quiet = (has_reasons_iff r3).0 quiet;
        probed = λ probes. (has_reasons_iff probed).0 (probe_quiet probes);
        fresh = (counts.vmas, counts.bytes, counts.kernel);
      },
    )

-- What a dump of the process can count on.
pub record IsDumpable (alloc : ℕ → Bool) (s : Subject) (pool : PathPool) : Type 0 where
  pub exe_path : Bytes
  pub exe_link : s.exe ≡ linked exe_path
  pub exe_some : 0 < length exe_path
  pub exe_exists : is_deleted exe_path ≡ false
  pub exe_allowed : s.access ≡ none
  pub attaches : Attaches s.probe
  pub table : VmaTable
  pub collects : collect_vmas alloc s.maps pool ≡ ok table

-- Where a check with the probe ends with the status of a dumpable process, the executable has a
-- path that is not empty, not marked as deleted and can be run, the process could be seized,
-- stopped and released, and a dump of the same maps file collects the mappings; for the last, memory
-- does not run out, the maps file has fewer than 2 ^ 32 lines, the names of the kernel mappings are
-- shorter than their field, and the paths fit the pool of 32-bit offsets.
pub check_one-IsDumpable :
    (alloc : ℕ → Bool) (pid : ℤ) (s : Subject) (lines : List Bytes) (failed : Bool)
    (pool : PathPool)
    → ((n : ℕ) → alloc n ≡ true)
    → s.maps ≡ opened lines failed
    → length lines < 2 ^ 32
    → All IsShortName (kernel_owned lines)
    → IsPool pool
    → pool.size + path_bytes (dumped lines) < 2 ^ 32
    → (check_one pid true s).1 ≡ exit_dumpable
    → IsDumpable alloc s pool
unfolding inspect
check_one-IsDumpable alloc pid s lines failed pool room is few short v fit dumpable =
    let (r, p) = check_one-Passed pid true s dumpable in
    let r1 = probe_exe s.exe s.access r in
    let r2 = scan_maps s.maps r1 in
    let r3 = scan_fds s.directory r2 in
    let maps_quiet =
      sym (kept-reasons (count_children-kept s.children r3 ∙ scan_fds-kept s.directory r2))
      ∙ p.quiet in
    let exe = probe_exe-IsRunnable s.exe s.access r (scan_maps-quiet s.maps r1 maps_quiet) in
    let (vmas, bytes, kernel) = p.fresh in
    let (table, collects) =
      scan_maps-collect_vmas-works alloc lines failed pool r1 room
        (exe.counts.vmas ∙ vmas, exe.counts.bytes ∙ bytes, exe.counts.kernel ∙ kernel)
        (ap (λ m. (scan_maps m r1).reasons) (sym is) ∙ maps_quiet) few short v fit in
    record {
      exe_path = exe.path;
      exe_link = exe.link;
      exe_some = exe.not_empty;
      exe_exists = exe.exists;
      exe_allowed = exe.allowed;
      attaches = probe_ptrace-Attaches s.probe (inspect s r) (p.probed refl);
      table = table;
      collects = ap (λ m. collect_vmas alloc m pool) is ∙ collects;
    }
