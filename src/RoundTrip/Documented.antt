-- ===== src/RoundTrip/Documented.antt =====
-- The round trips under what is documented of the system: that the parts are well formed is no
-- hypothesis here.
use ksnap.Base.{ℕ, ◌≡◌, Bool, true, some, inl, inr, arith, ok, Result-cases}
use ksnap.Base.Text.{Bytes}
use ksnap.Args.{Config}
use ksnap.Dumper.{SnapshotParts}
use ksnap.Dumper.Dump.{Target, to_option, collect_parts, take_snapshot, dump}
use ksnap.Dumper.Dump.Documented.{IsDocumented}
use ksnap.Dumper.Dump.Writable.{collect_parts-IsWritable}
use ksnap.Restorer.Metadata.{read_snapshot_metadata}
use ksnap.Restorer.Process.{Tracer, View, IsTracer, IsUndisturbed}
use ksnap.Restorer.Restore.{Host, stopped, restorer}
use ksnap.Restorer.Restore.Rebuilt.{HasSite}
use ksnap.RoundTrip.Whole.{snapshot_of}
use ksnap.RoundTrip.Dumped.{dump-saved, read_snapshot_metadata-dump}
use ksnap.RoundTrip.Restored.{IsSame, restorer-dump}

-- A dump that saved a file has collected its parts.
take_snapshot-collected :
    (t : Target) {file : Bytes}
    → to_option (take_snapshot t) ≡ some file
    → (parts : SnapshotParts) × (collect_parts t ≡ ok parts)
unfolding take_snapshot
take_snapshot-collected t h = elim (Result-cases (collect_parts t)) [
  | inl (x, is) ↦ ground (arith, h, is)
  | inr (parts, is) ↦ (parts, is)
]

-- Under the documented behaviour of the kernel and of `qsort`, and given memory for the reading, the
-- restore accepts every snapshot that a dump saves, and reads from it exactly what the dump
-- collected.
pub read_snapshot_metadata-dump_documented :
    (alloc : ℕ → Bool) (c : Config) (t : Target) {file : Bytes}
    → ((n : ℕ) → alloc n ≡ true)
    → IsDocumented t
    → (dump c t).saved ≡ some file
    → (parts : SnapshotParts) × (collect_parts t ≡ ok parts)
      × (read_snapshot_metadata alloc true file ≡ ok (snapshot_of parts))
read_snapshot_metadata-dump_documented alloc c t room doc saved =
    let (parts, collected) = take_snapshot-collected t (dump-saved c t saved) in
    let (writable, apart) = collect_parts-IsWritable t doc collected in
    (parts, collected, read_snapshot_metadata-dump alloc c t room collected writable saved)

-- Under the documented behaviour of the kernel and of `qsort`, during the dump and during the
-- restore, where every PTRACE_POKETEXT succeeds, no signal ends a step, and given memory and a
-- working `fstat`: a restore that succeeds on a file that a dump saved releases a process with the
-- memory, the protections, the registers and the extended state that the dump collected. For this,
-- where the restore begins to lay the mappings, the instruction at the instruction pointer may be
-- executed, and a mapping with a byte of it on its pages has the whole of it.
pub restorer-dump_documented :
    (t : Tracer) (view : t.State → View)
    → IsTracer t view
    → ((a w : ℕ) (s : t.State) → (s' : t.State) × (t.poketext a w s ≡ some s'))
    → IsUndisturbed t view
    → (c c' : Config) (target : Target) (h : Host t) {file : Bytes} → IsDocumented target
    → (dump c target).saved ≡ some file
    → h.file ≡ some file
    → ((n : ℕ) → h.alloc n ≡ true)
    → h.stats ≡ true
    → ((parts : SnapshotParts)
        → collect_parts target ≡ ok parts
        → (s : t.State) → h.found ≡ stopped s
        → HasSite t view (snapshot_of parts) s)
    → (restorer t c' h).status ≡ true
    → (parts : SnapshotParts) × (collect_parts target ≡ ok parts)
      × ((s' : t.State) × ((restorer t c' h).left ≡ some s')
          × IsSame h.regs_of target.memory parts (view s'))
restorer-dump_documented t view laws pokes quiet c c' target h doc saved opens room stats site
      done =
    let (parts, collected) = take_snapshot-collected target (dump-saved c target saved) in
    let (writable, apart) = collect_parts-IsWritable target doc collected in
    (
      parts,
      collected,
      restorer-dump t view laws pokes quiet c c' target h collected writable apart saved opens room
          stats (site parts collected) done,
    )
