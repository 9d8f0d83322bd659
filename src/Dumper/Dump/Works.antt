-- ===== src/Dumper/Dump/Works.antt =====
-- When `dump` of Ksnap-engine/src/dumper.c saves a snapshot.
use ksnap.Base.{ℕ, ◌+◌, ◌*◌, ◌^◌, ◌≤◌, ◌<◌, ◌≡◌, refl, true, some, List, ◌++◌, length, arith, ok}
use ksnap.Base.Text.{Bytes}
use ksnap.Args.{Config, build_snapshot_path}
use ksnap.Format.{path_max, xstate_min_size, xstate_max_size}
use ksnap.Dumper.{SnapshotParts}
use ksnap.Dumper.Image.{placed, front, total_size}
use ksnap.Dumper.Payload.Copy.{contents}
use ksnap.Dumper.Payload.Progress.{Progress}
use ksnap.Dumper.Pool.{empty_pool}
use ksnap.Dumper.Vmas.{VmaTable, collect_vmas}
use ksnap.Dumper.Fds.Works.{AllReadable, collect_fds-works}
use ksnap.Dumper.Write.{write_snapshot}
use ksnap.Dumper.Write.Total.{IsWorking, write_snapshot-ends}
use ksnap.Dumper.Dump.{
  Target, stopped, read_regs, read_xstate, read_exe_path, collect_parts, take_snapshot,
  snapshot_if_stopped, dump_seized, dump,
}
use ksnap.Dumper.Dump.Documented.{IsDocumented}
use ksnap.Dumper.Dump.Writable.{parts_of, collect_vmas-IsMappings, collect_parts-IsWritable}

-- The process can be seized and stopped, its executable named, and its mappings collected.
pub record IsWilling (t : Target) : Type 0 where
  pub seizes : t.seizes ≡ true
  pub interrupts : t.interrupts ≡ true
  pub stops : stopped t.stops ≡ true
  pub exe : Bytes
  pub exe_is : t.exe ≡ some exe
  pub exe_some : 1 ≤ length exe
  pub table : VmaTable
  pub collects : collect_vmas t.alloc t.maps empty_pool ≡ ok table

-- Everything else that a dump asks for is given: memory, the registers, the extended state, every
-- descriptor, room in the pool, the reads of the memory of the process, and a disk that works.
pub record IsSupplied (t : Target) : Type 0 where
  pub room : (n : ℕ) → t.alloc n ≡ true
  pub regs : Bytes
  pub regs_are : t.regs ≡ some regs
  pub xstate : Bytes
  pub xstate_is : t.xstate ≡ some xstate
  pub xstate_min : xstate_min_size ≤ length xstate
  pub xstate_max : length xstate < xstate_max_size
  pub names : List Bytes
  pub names_are : t.directory.names ≡ some names
  pub readable : AllReadable t.directory names
  pub paths_fit :
      {table : VmaTable}
      → collect_vmas t.alloc t.maps empty_pool ≡ ok table
      → table.pool.size + length names * path_max < 2 ^ 32
  pub reads :
      {table : VmaTable}
      → collect_vmas t.alloc t.maps empty_pool ≡ ok table
      → Progress t.turns (total_size table.vmas)
  pub disk : IsWorking t.disk

module _ (t : Target) (w : IsWilling t) (s : IsSupplied t) where
  read_regs-works : read_regs t ≡ ok s.regs
  unfolding read_regs
  read_regs-works = rw s.regs_are refl

  read_exe_path-works : read_exe_path t ≡ ok w.exe
  unfolding read_exe_path
  read_exe_path-works = ground (arith, w.exe_is, w.exe_some)

  read_xstate-works : read_xstate t ≡ ok s.xstate
  unfolding read_xstate
  read_xstate-works =
      ground (arith, s.xstate_is, s.xstate_min, s.xstate_max, s.room xstate_max_size)

  collect_parts-works :
      IsDocumented t
      → (parts : SnapshotParts) × (collect_parts t ≡ ok parts) × (parts.vmas ≡ w.table.vmas)
  unfolding collect_parts
  collect_parts-works doc =
      let pool = (collect_vmas-IsMappings t doc w.collects).table_valid.pool in
      let (r, e) =
        collect_fds-works t.alloc t.qsort t.directory s.room doc.fd_directory s.names w.table.pool
          s.names_are s.readable pool (s.paths_fit w.collects) in
      (
        parts_of s.regs s.xstate w.exe w.table r.0 r.1,
        rw (read_regs-works, read_xstate-works, read_exe_path-works, w.collects, e) refl,
        refl,
      )

  take_snapshot-written :
      (parts : SnapshotParts)
      → collect_parts t ≡ ok parts
      → {r : _} → write_snapshot t.disk t.memory t.turns parts ≡ ok r
      → take_snapshot t ≡ ok r.0
  unfolding take_snapshot
  take_snapshot-written parts e k = rw (e, k) refl

  dump-taken :
      (c : Config) {path file : Bytes}
      → build_snapshot_path c ≡ some path
      → take_snapshot t ≡ ok file
      → (dump c t).saved ≡ some file
  unfolding dump dump_seized snapshot_if_stopped
  dump-taken c {path} {file} is e = ground (arith, is, w.seizes, w.interrupts, w.stops, e)

  -- Where the path of the snapshot fits, the process can be seized and stopped, its executable
  -- named and its mappings collected, everything else is given that a dump asks for, and the system
  -- is as documented, `dump` saves a snapshot: the header, the tables and the pool of the parts it
  -- collected, and after them the contents of the mappings.
  pub dump-saves :
      (c : Config) {path : Bytes}
      → IsDocumented t
      → build_snapshot_path c ≡ some path
      → (parts : SnapshotParts) × (collect_parts t ≡ ok parts)
        × ((dump c t).saved ≡ some (front parts ++ contents t.memory (placed parts)))
  dump-saves c doc is =
      let (parts, e, same) = collect_parts-works doc in
      let (fits, apart) = collect_parts-IsWritable t doc e in
      let (left, k) =
        write_snapshot-ends t.disk s.disk t.memory t.turns parts fits
          (rw same (s.reads w.collects)) in
      (parts, e, dump-taken c is (take_snapshot-written parts e k))
