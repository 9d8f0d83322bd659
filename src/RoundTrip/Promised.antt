-- ===== src/RoundTrip/Promised.antt =====
-- What the verdict of Ksnap-engine/src/checker.c is worth to a dump by Ksnap-engine/src/dumper.c of
-- the same process.
use ksnap.Base.{◌^◌, ◌<◌, ◌≡◌, ap, ◌∙◌, Bool, true, some, List, length, All, arith, ok, ◌++◌}
use ksnap.Base.Int.{ℤ}
use ksnap.Base.Text.{Bytes}
use ksnap.Args.{Config, build_snapshot_path}
use ksnap.Maps.{opened}
use ksnap.Maps.Select.{dumped, kernel_owned}
use ksnap.Dumper.{SnapshotParts}
use ksnap.Dumper.Image.{placed, front}
use ksnap.Dumper.Payload.Copy.{contents}
use ksnap.Dumper.Pool.{empty_pool}
use ksnap.Dumper.Pool.Laws.{empty_pool-IsPool}
use ksnap.Dumper.Vmas.{collect_vmas}
use ksnap.Dumper.Vmas.Works.{path_bytes, IsShortName}
use ksnap.Dumper.Dump.{Target, stopped, collect_parts, dump}
use ksnap.Dumper.Dump.Documented.{IsDocumented}
use ksnap.Dumper.Dump.Works.{IsWilling, IsSupplied, dump-saves}
use ksnap.Checker.One.{Subject, linked, check_one, exit_dumpable}
use ksnap.Checker.One.Verdict.{IsDumpable, check_one-IsDumpable}

-- The process answers the dump as it answered the check before.
pub record IsUnchanged (s : Subject) (t : Target) : Type 0 where
  pub seizes : t.seizes ≡ s.probe.seizes
  pub interrupts : t.interrupts ≡ s.probe.interrupts
  pub stops : t.stops ≡ s.probe.stops
  pub maps : t.maps ≡ s.maps
  pub exe : {path : Bytes} → s.exe ≡ linked path → t.exe ≡ some path

dumpable-IsWilling :
    (s : Subject) (t : Target) → IsUnchanged s t → IsDumpable t.alloc s empty_pool → IsWilling t
dumpable-IsWilling s t same d = record {
  seizes = same.seizes ∙ d.attaches.seizes;
  interrupts = same.interrupts ∙ d.attaches.interrupts;
  stops = ap stopped same.stops ∙ d.attaches.stops;
  exe = d.exe_path;
  exe_is = same.exe d.exe_link;
  exe_some = d.exe_some;
  table = d.table;
  collects = ap (λ m. collect_vmas t.alloc m empty_pool) same.maps ∙ d.collects;
}

-- Where a check with the probe ends with the status of a dumpable process, a dump of the process,
-- if that still answers in the same way, saves the snapshot of what it collects. For this, the maps
-- file has fewer than 2 ^ 32 lines, the names of the kernel mappings are shorter than their field,
-- and the paths of the mappings fit the pool; the path of the snapshot fits; the system is as
-- documented; and what the check does not look at is given: memory, the registers, the extended
-- state, every descriptor, room in the pool, the reads of the memory of the process and a disk that
-- works.
pub dump-check_one :
    (c : Config) (pid : ℤ) (s : Subject) (t : Target) {path : Bytes} (lines : List Bytes)
    (failed : Bool)
    → (check_one pid true s).1 ≡ exit_dumpable
    → IsUnchanged s t
    → s.maps ≡ opened lines failed
    → length lines < 2 ^ 32
    → All IsShortName (kernel_owned lines)
    → path_bytes (dumped lines) < 2 ^ 32
    → IsDocumented t
    → IsSupplied t
    → build_snapshot_path c ≡ some path
    → (parts : SnapshotParts) × (collect_parts t ≡ ok parts)
      × ((dump c t).saved ≡ some (front parts ++ contents t.memory (placed parts)))
dump-check_one c pid s t lines failed dumpable same is few short fit doc given path_is =
    let promised =
      check_one-IsDumpable t.alloc pid s lines failed empty_pool given.room is few short
        empty_pool-IsPool (omega (arith, fit)) dumpable in
    dump-saves t (dumpable-IsWilling s t same promised) given c doc path_is
