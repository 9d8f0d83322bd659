-- ===== src/Tests/Checks.antt =====
-- A check of the sample process.
use ksnap.Base.{◌≡◌, refl, true, false, none, some, [], ◌∷◌, ◌++◌, arith}
use ksnap.Base.Int.{pos, of_bits32}
use ksnap.Base.Text.{codes, same_prefix, same_text}
use ksnap.Maps.{opened, is_kernel_map, is_dumpable_path, classify_maps_line}
use ksnap.Maps.Scan.{skip_spaces, parse_maps_line}
use ksnap.Maps.Select.{select}
use ksnap.Fds.{scan_labelled, classify_fd, digits, is_deleted}
use ksnap.Dumper.Pool.{empty_pool}
use ksnap.Dumper.Pool.Laws.{empty_pool-IsPool}
use ksnap.Checker.{add_reason}
use ksnap.Checker.Maps.{
  count_shared, count_kernel, count_device, count_dumpable, scan_lines, judge_maps, scan_maps,
}
use ksnap.Checker.Fds.{scan_name, scan_names, scan_fds}
use ksnap.Checker.Probe.{Probe, probe_ptrace}
use ksnap.Checker.One.{
  Subject, status_lines, linked, to_newline, read_status_line, read_status_lines,
  read_status_fields, count_arguments, read_cmdline_argc, probe_exe, count_children, judge_status,
  inspect, check_one, exit_dumpable,
}
use ksnap.Checker.One.Few.{Few, check_one-Few}
use ksnap.Checker.One.Verdict.{IsDumpable, check_one-IsDumpable}
use ksnap.Tests.Processes.{plenty, text_bytes}
use ksnap.Tests.Runs.{directory}

abbrev willing : Probe
willing = record {
  seizes = true;
  seize_errno = 0;
  interrupts = true;
  interrupt_errno = 0;
  stops = some true;
  detaches = true;
  detach_errno = 0;
}

abbrev pub sample : Subject
sample = record {
  status = status_lines (
      codes "Name:\ta"
      ∷ codes "State:\tS (sleeping)"
      ∷ codes "Threads:\t1"
      ∷ codes "TracerPid:\t0"
      ∷ []);
  cmdline = some (codes "a" ++ 0 ∷ []);
  exe = linked (codes "/bin/a");
  access = none;
  maps = opened (text_bytes ∷ []) false;
  directory = directory;
  children = some 0;
  probe = willing;
}

pub dumpable : (check_one (pos 7) true sample).1 ≡ exit_dumpable
unfolding check_one read_status_fields read_status_lines read_status_line same_prefix same_text
    to_newline skip_spaces scan_labelled digits of_bits32 read_cmdline_argc count_arguments
    judge_status add_reason inspect count_children scan_fds scan_names scan_name classify_fd
    scan_maps scan_lines judge_maps parse_maps_line classify_maps_line is_kernel_map
    is_dumpable_path count_shared count_kernel count_device count_dumpable probe_exe is_deleted
    probe_ptrace
dumpable = refl

check_one-IsDumpable_example : IsDumpable plenty sample empty_pool
unfolding parse_maps_line select classify_maps_line is_kernel_map same_text same_prefix
    is_dumpable_path
check_one-IsDumpable_example =
    check_one-IsDumpable plenty (pos 7) sample (text_bytes ∷ []) false empty_pool (λ n. refl) refl
      (omega arith) tt empty_pool-IsPool (omega arith) dumpable

check_one-Few_example : Few (check_one (pos 7) true sample).0
check_one-Few_example = check_one-Few (pos 7) true sample
