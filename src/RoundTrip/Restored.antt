-- ===== src/RoundTrip/Restored.antt =====
-- The whole of a dump followed by the whole of a restore.
use mathlib.Core.List.{append_assoc}
use ksnap.Base.{
  ℕ, ◌+◌, ◌<◌, ◌^◌, ◌≡◌, sym, ap, ◌∙◌, true, some, List, [], ◌∷◌, ◌++◌, length, length-append, take,
  drop, take-append, drop-append, All, arith, ok,
}
use ksnap.Base.Text.{Bytes}
use ksnap.Base.Word.{add64, add64_exact}
use ksnap.Args.{Config}
use ksnap.Format.{VmaDescriptor}
use ksnap.Dumper.{SnapshotParts}
use ksnap.Dumper.Image.{build_header, place_payloads, placed, front, total_size}
use ksnap.Dumper.WellFormed.{IsWritable, length-front, placed-InAddressSpace, offsets}
use ksnap.Dumper.Payload.{read_memory}
use ksnap.Dumper.Payload.Copy.{contents, length-read_memory}
use ksnap.Dumper.Write.Layout.{write_snapshot-bytes}
use ksnap.Dumper.Dump.{Target, collect_parts, dump}
use ksnap.Restorer.Process.{Regs, View, Tracer, IsTracer, IsUndisturbed}
use ksnap.Restorer.Rebuild.Memory.{Apart, AreApart}
use ksnap.Restorer.Rebuild.Rights.{Rights, own}
use ksnap.Restorer.Restore.{Host, stopped, restorer}
use ksnap.Restorer.Restore.Rebuilt.{HasPayload, HasSite, IsRebuilt}
use ksnap.Restorer.Restore.Released.{restorer-IsRebuilt}
use ksnap.RoundTrip.Whole.{snapshot_of}
use ksnap.RoundTrip.Dumped.{take_snapshot-file, dump-saved, read_snapshot_metadata-dump}

-- The payload of each mapping stands where its descriptor says.
payloads :
    (mem : ℕ → ℕ) (file before : Bytes) (offset : ℕ) (vmas : List VmaDescriptor)
    → length before ≡ offset
    → offset + total_size vmas < 2 ^ 64
    → file ≡ before ++ contents mem (place_payloads offset vmas)
    → All
        (λ (v : VmaDescriptor).
          take v.size (drop v.data_offset file) ≡ read_memory mem v.start_address v.size)
        (place_payloads offset vmas)
unfolding place_payloads
payloads mem file before offset [] at small is = tt
payloads mem file before offset (v ∷ vmas) at small is =
    let here = read_memory mem v.start_address v.size in
    let long = length-read_memory mem v.start_address v.size in
    let next = add64_exact offset v.size (omega arith) in
    let later = contents mem (place_payloads (add64 offset v.size) vmas) in
    (
      ap (λ f. take v.size (drop offset f)) is
          ∙ ap (λ n. take v.size (drop n (before ++ (here ++ later)))) (sym at)
          ∙ ap (take v.size) (drop-append before (here ++ later))
          ∙ ap (λ n. take n (here ++ later)) (sym long)
          ∙ take-append here later,
      payloads mem file (before ++ here) (add64 offset v.size) vmas
          (length-append before here ∙ omega (arith, at, long, next)) (omega (arith, next))
          (is ∙ sym (append_assoc before here later)),
    )

-- On the pages of a mapping, the process has the memory `mem` and the protection of the mapping.
abbrev pub HasMemory : (ℕ → ℕ) → View → VmaDescriptor → Type 0
HasMemory mem w v =
    (read_memory w.byte v.start_address v.size ≡ read_memory mem v.start_address v.size)
    × Rights own w v

All-place_payloads :
    (mem : ℕ → ℕ) (file : Bytes) (w : View) (offset : ℕ) (vmas : List VmaDescriptor)
    → All
        (λ (v : VmaDescriptor).
          take v.size (drop v.data_offset file) ≡ read_memory mem v.start_address v.size)
        (place_payloads offset vmas)
    → All (HasPayload file w) (place_payloads offset vmas)
    → All (Rights own w) (place_payloads offset vmas)
    → All (HasMemory mem w) vmas
unfolding place_payloads
All-place_payloads mem file w offset [] saved held rights = tt
All-place_payloads mem file w offset (v ∷ vmas) (s, saved) (h, held) (r, rights) =
    ((h ∙ s, r), All-place_payloads mem file w (add64 offset v.size) vmas saved held rights)

All-Apart-place_payloads :
    (v : VmaDescriptor) (offset offset' : ℕ) (vmas : List VmaDescriptor)
    → All (Apart v) vmas
    → All (Apart (record v { data_offset = offset })) (place_payloads offset' vmas)
unfolding place_payloads
All-Apart-place_payloads v offset offset' [] apart = tt
All-Apart-place_payloads v offset offset' (u ∷ vmas) (one, apart) =
    (one, All-Apart-place_payloads v offset (add64 offset' u.size) vmas apart)

AreApart-place_payloads :
    (offset : ℕ) (vmas : List VmaDescriptor) → AreApart vmas → AreApart (place_payloads offset vmas)
unfolding place_payloads
AreApart-place_payloads offset [] apart = tt
AreApart-place_payloads offset (v ∷ vmas) (one, apart) = (
  All-Apart-place_payloads v offset (add64 offset v.size) vmas one,
  AreApart-place_payloads (add64 offset v.size) vmas apart,
)

-- The process is the one that was dumped, as far as a snapshot goes.
pub record IsSame (regs_of : Bytes → Regs) (mem : ℕ → ℕ) (p : SnapshotParts) (w : View)
    : Type 0 where
  pub memory : All (HasMemory mem w) p.vmas
  pub regs : w.regs ≡ regs_of p.regs
  pub xstate : w.xstate ≡ p.xstate

module _ (p : SnapshotParts) (w : IsWritable p) where
  payloads-file :
      (mem : ℕ → ℕ) {file : Bytes}
      → file ≡ front p ++ contents mem (placed p)
      → All
          (λ (v : VmaDescriptor).
            take v.size (drop v.data_offset file) ≡ read_memory mem v.start_address v.size)
          (placed p)
  payloads-file mem {file} is =
      payloads mem file (front p) (build_header p).data_offset p.vmas (length-front p w)
        (omega (arith, w.file_small, (offsets p w).payloads)) is

  IsRebuilt-IsSame :
      (regs_of : Bytes → Regs) (mem : ℕ → ℕ) (file : Bytes) (view : View)
      → file ≡ front p ++ contents mem (placed p)
      → IsRebuilt regs_of file (snapshot_of p) view
      → IsSame regs_of mem p view
  unfolding build_header
  IsRebuilt-IsSame regs_of mem file view is r = record {
    memory =
        All-place_payloads mem file view (build_header p).data_offset p.vmas (payloads-file mem is)
          r.memory r.rights;
    regs = r.regs;
    xstate = r.xstate;
  }

-- Under the documented laws of the kernel, where every PTRACE_POKETEXT succeeds and no signal ends a
-- step: where a dump saved a snapshot of well-formed parts, whose mappings share no page, a restore
-- of that file which succeeds (given memory and a working `fstat`) releases a process that has, on
-- each mapping, the memory that was dumped and the mapping's protection, and the registers and the
-- extended state that were dumped. For this, where the restore begins to lay the mappings, the
-- instruction at the instruction pointer may be executed, and a mapping with a byte of it on its
-- pages has the whole of it.
pub restorer-dump :
    (t : Tracer) (view : t.State → View)
    → IsTracer t view
    → ((a w : ℕ) (s : t.State) → (s' : t.State) × (t.poketext a w s ≡ some s'))
    → IsUndisturbed t view
    → (c c' : Config) (target : Target) (h : Host t) {parts : SnapshotParts} {file : Bytes}
    → collect_parts target ≡ ok parts
    → IsWritable parts
    → AreApart parts.vmas
    → (dump c target).saved ≡ some file
    → h.file ≡ some file
    → ((n : ℕ) → h.alloc n ≡ true)
    → h.stats ≡ true
    → ((s : t.State) → h.found ≡ stopped s → HasSite t view (snapshot_of parts) s)
    → (restorer t c' h).status ≡ true
    → (s' : t.State) × ((restorer t c' h).left ≡ some s')
      × IsSame h.regs_of target.memory parts (view s')
restorer-dump t view laws pokes quiet c c' target h {parts} {file} collected w apart saved opens
      room stats site done =
    let (left, written) = take_snapshot-file target collected (dump-saved c target saved) in
    let (bytes, _) =
      write_snapshot-bytes target.disk target.memory target.turns parts
        (placed-InAddressSpace parts w) written in
    let accepted = read_snapshot_metadata-dump h.alloc c target room collected w saved in
    let (s', leaves, rebuilt) =
      restorer-IsRebuilt t view laws pokes quiet c' h opens (rw stats accepted)
        (placed-InAddressSpace parts w)
        (AreApart-place_payloads (build_header parts).data_offset parts.vmas apart) site done in
    (s', leaves, IsRebuilt-IsSame parts w h.regs_of target.memory file (view s') bytes rebuilt)
