-- ===== src/Tests/Promised.antt =====
-- The sample process is checked, and then dumped.
use mathlib.Core.Path.{subst}
use ksnap.Base.{
  ◌+◌, ◌*◌, ◌^◌, ◌<◌, ◌≡◌, refl, sym, ◌∙◌, false, some, [], ◌∷◌, ◌++◌, arith, ok, ok-injective,
}
use ksnap.Base.Int.{pos}
use ksnap.Base.Text.{codes, same_prefix, same_text}
use ksnap.Args.{build_snapshot_path}
use ksnap.Format.{path_max}
use ksnap.Fds.{classify_fd, digits}
use ksnap.Maps.{is_kernel_map, is_dumpable_path, classify_maps_line}
use ksnap.Maps.Scan.{parse_maps_line}
use ksnap.Maps.Select.{select}
use ksnap.Dumper.{SnapshotParts}
use ksnap.Dumper.Image.{placed, front, total_size}
use ksnap.Dumper.Payload.Copy.{contents}
use ksnap.Dumper.Payload.Progress.{Progress}
use ksnap.Dumper.Pool.{empty_pool}
use ksnap.Dumper.Vmas.{VmaTable, collect_vmas}
use ksnap.Dumper.Dump.{collect_parts, dump}
use ksnap.Dumper.Dump.Works.{IsWilling, IsSupplied, dump-saves}
use ksnap.Dumper.Fds.Works.{IsReadable, AllReadable}
use ksnap.RoundTrip.Promised.{IsUnchanged, dump-check_one}
use ksnap.Tests.Checks.{sample, dumpable}
use ksnap.Tests.Documented.{target-IsDocumented, reads_state}
use ksnap.Tests.Processes.{maps, plenty, table, text_bytes, collects}
use ksnap.Tests.Runs.{directory, target, dump_config}
use ksnap.Tests.Snapshots.{parts, memory, short_reads, working_disk-IsWorking}

target-IsWilling : IsWilling target
target-IsWilling = record {
  seizes = refl;
  interrupts = refl;
  stops = refl;
  exe = parts.exe_path;
  exe_is = refl;
  exe_some = omega arith;
  table = table;
  collects = collects;
}

third-IsReadable : IsReadable directory (pos 3)
unfolding classify_fd same_prefix
third-IsReadable = record {
  classified = λ same. cc;
  state = (7, 0);
  state_is = reads_state (pos 3);
}

directory-AllReadable : AllReadable directory (codes "3" ∷ codes "." ∷ [])
unfolding digits
directory-AllReadable = ((λ is. third-IsReadable), ((λ no. cc), tt))

collects-same : {t : VmaTable} → collect_vmas plenty maps empty_pool ≡ ok t → table ≡ t
collects-same e = ok-injective (sym collects ∙ e)

target-IsSupplied : IsSupplied target
target-IsSupplied = record {
  room = λ n. refl;
  regs = parts.regs;
  regs_are = refl;
  xstate = parts.xstate;
  xstate_is = refl;
  xstate_min = omega arith;
  xstate_max = omega arith;
  names = codes "3" ∷ codes "." ∷ [];
  names_are = refl;
  readable = directory-AllReadable;
  paths_fit = λ {table = t} e.
      subst (λ (t : VmaTable). t.pool.size + 2 * path_max < 2 ^ 32) (collects-same e) (omega arith);
  reads = λ {table = t} e.
      subst (λ (t : VmaTable). Progress short_reads (total_size t.vmas)) (collects-same e)
        (omega arith);
  disk = working_disk-IsWorking;
}

dump-saves_example :
    (p : SnapshotParts) × (collect_parts target ≡ ok p)
    × ((dump dump_config target).saved ≡ some (front p ++ contents memory (placed p)))
unfolding build_snapshot_path
dump-saves_example =
    dump-saves target target-IsWilling target-IsSupplied dump_config target-IsDocumented refl

sample-IsUnchanged : IsUnchanged sample target
sample-IsUnchanged = record {
  seizes = refl;
  interrupts = refl;
  stops = refl;
  maps = refl;
  exe = λ {path} e. cc;
}

dump-check_one_example :
    (p : SnapshotParts) × (collect_parts target ≡ ok p)
    × ((dump dump_config target).saved ≡ some (front p ++ contents memory (placed p)))
unfolding build_snapshot_path parse_maps_line select classify_maps_line is_kernel_map same_text
    same_prefix is_dumpable_path
dump-check_one_example =
    dump-check_one dump_config (pos 7) sample target (text_bytes ∷ []) false dumpable
      sample-IsUnchanged refl (omega arith) tt (omega arith) target-IsDocumented target-IsSupplied
      refl
