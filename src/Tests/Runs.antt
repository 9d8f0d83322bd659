-- ===== src/Tests/Runs.antt =====
-- A dump of the sample process, and command lines that lead to one.
use ksnap.Base.{length, ◌≡◌, refl, true, false, none, some, List, [], ◌∷◌, ◌++◌, ok}
use ksnap.Base.Int.{ℤ, pos}
use ksnap.Base.Text.{codes, same_prefix}
use ksnap.Args.{
  Mode, Config, Opt, mode_opt, pid_opt, kill_opt, parse_arg, mode_to_string, build_snapshot_path,
}
use ksnap.Args.Accepted.{IsAccepted, parse_arg-IsAccepted}
use ksnap.Program.{Operations, expected, main, main-runs}
use ksnap.Restorer.FdTable.Spec.{IsFdTable}
use ksnap.Restorer.Metadata.{read_snapshot_metadata}
use ksnap.Dumper.Image.{front, placed}
use ksnap.Dumper.Payload.Copy.{contents}
use ksnap.Dumper.Fds.{Compared, different, FdDirectory, add_fd, collect_fds, find_shared_files}
use ksnap.Dumper.Fds.Shared.{find_shared_files-IsFdTable}
use ksnap.Dumper.Dump.{
  Target, collect_parts, take_snapshot, snapshot_if_stopped, dump_seized, is_some, dump,
}
use ksnap.Dumper.Dump.Lifecycle.{Hold, free, Steps, IsLeft, dump-IsLeft}
use ksnap.Checker.Fds.{scan_fds}
use ksnap.Checker.Fds.Agreement.{scan_fds-collect_fds}
use ksnap.Checker.Probe.{Probe, probe_ptrace}
use ksnap.Checker.Probe.Lifecycle.{IsProbed, probe_ptrace-IsProbed}
use ksnap.RoundTrip.Whole.{snapshot_of}
use ksnap.RoundTrip.Dumped.{read_snapshot_metadata-dump}
use ksnap.Tests.Sorting.{sort}
use ksnap.Tests.Snapshots.{
  log_table, parts, parts-IsWritable, working_disk, memory, short_reads, written,
}
use ksnap.Fds.{classify_fd, digits, read_fd_state, scan_labelled}
use ksnap.Maps.Scan.{skip_spaces}
use ksnap.Dumper.Pool.{PathPool, pool_append}
use ksnap.Dumper.Vmas.{grow_table}
use ksnap.Tests.Processes.{fresh, one_path, collects, maps, plenty, text_link}

abbrev dump_line : List Opt
dump_line = mode_opt (codes "Dump") ∷ pid_opt (codes "42") ∷ kill_opt ∷ []

abbrev pub dump_config : Config
dump_config = record {
  mode = some (codes "DUMP");
  pid = pos 42;
  file_name = none;
  output_dir = none;
  kill_after_dump = true;
}

accepts_dump_line : parse_arg dump_line ≡ ok dump_config
unfolding parse_arg same_prefix
accepts_dump_line = refl

parse_arg-IsAccepted_example : IsAccepted dump_config
parse_arg-IsAccepted_example = parse_arg-IsAccepted dump_line accepts_dump_line

abbrev operations : Operations
operations = record { dump = λ c. true; restorer = λ c. false; check = λ c. 11 }

main-runs_example :
    (mode : Mode) × (dump_config.mode ≡ some (mode_to_string mode))
    × (main operations dump_line ≡ expected operations dump_config mode)
main-runs_example = main-runs operations dump_line accepts_dump_line

abbrev pub apart : ℤ → ℤ → Compared
apart a b = different

find_shared_files-IsFdTable_example :
    IsFdTable parts.pool [] (find_shared_files apart parts.pool [] parts.fds)
find_shared_files-IsFdTable_example =
    find_shared_files-IsFdTable apart parts.pool [] parts.fds log_table

abbrev pub directory : FdDirectory
directory = record {
  names = some (codes "3" ∷ codes "." ∷ []);
  link = λ fd. text_link;
  info = λ fd. some (codes "pos:   7" ∷ codes "flags: 0" ∷ []);
  kcmp = apart;
}

abbrev pub target : Target
target = record {
  seizes = true;
  interrupts = true;
  stops = some true;
  regs = some parts.regs;
  xstate = some parts.xstate;
  exe = some parts.exe_path;
  maps = maps;
  directory = directory;
  disk = working_disk;
  memory = memory;
  turns = short_reads;
  kills = true;
  detaches = true;
  alloc = plenty;
  qsort = sort;
}

dump-IsLeft_example :
    (h : Hold) × Steps free (dump dump_config target).calls h
    × IsLeft true (is_some (dump dump_config target).saved) (dump dump_config target).status h
dump-IsLeft_example = dump-IsLeft dump_config target

abbrev full_pool : PathPool
full_pool = record { content = parts.pool; size = 6; capacity = 4096 }

collects_fds : collect_fds plenty (λ fds. fds) directory one_path ≡ ok (parts.fds, full_pool)
unfolding collect_fds classify_fd same_prefix digits add_fd pool_append grow_table read_fd_state
    scan_labelled skip_spaces
collects_fds = refl

collects_sorted_fds : collect_fds plenty sort directory one_path ≡ ok (parts.fds, full_pool)
unfolding collect_fds classify_fd same_prefix digits add_fd pool_append grow_table read_fd_state
    scan_labelled skip_spaces
collects_sorted_fds = refl

pub collects_parts : collect_parts target ≡ ok parts
unfolding collect_parts
collects_parts = rw (collects, collects_sorted_fds) refl

pub saves : (dump dump_config target).saved ≡ some (front parts ++ contents memory (placed parts))
unfolding dump dump_seized snapshot_if_stopped take_snapshot build_snapshot_path
saves = rw (collects_parts, written.1) refl

read_snapshot_metadata-dump_example :
    read_snapshot_metadata plenty true (front parts ++ contents memory (placed parts))
    ≡ ok (snapshot_of parts)
read_snapshot_metadata-dump_example =
    read_snapshot_metadata-dump plenty dump_config target (λ n. refl) collects_parts
      parts-IsWritable saves

abbrev deaf : Probe
deaf = record {
  seizes = true;
  seize_errno = 0;
  interrupts = true;
  interrupt_errno = 0;
  stops = none;
  detaches = true;
  detach_errno = 0;
}

probe_ptrace-IsProbed_example :
    (h : Hold) × Steps free (probe_ptrace deaf fresh).0 h × IsProbed h (probe_ptrace deaf fresh).1
probe_ptrace-IsProbed_example = probe_ptrace-IsProbed deaf fresh refl refl

scan_fds-collect_fds_example : (scan_fds directory fresh).dumpable_fds ≡ length parts.fds
scan_fds-collect_fds_example =
    scan_fds-collect_fds plenty (λ fds. fds) directory one_path fresh (λ l. refl) refl collects_fds
