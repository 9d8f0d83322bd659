-- ===== src/Tests/Restores.antt =====
-- Restores of the sample process.
use mathlib.Core.Path.{subst}
use ksnap.Base.{
  ◌∙◌, ok-injective, ◌⊎◌, inl, inr, ◌≡◌, refl, true, some, List, [], ◌∷◌, ◌++◌, All, arith, ok,
  replicate,
}
use ksnap.Base.Text.{Bytes, codes}
use ksnap.Format.{VmaDescriptor, KernelMap, Header}
use ksnap.Dumper.Image.{build_header, front, placed}
use ksnap.Dumper.Payload.Copy.{contents}
use ksnap.Restorer.Process.{Regs, IsExecutable}
use ksnap.Restorer.Rebuild.Site.{HoldsWhole}
use ksnap.Restorer.Inject.{
  mmap_call, inject_syscall, inject_mmap_syscall, inject_mprotect_syscall, work_regs, with_syscall,
}
use ksnap.Restorer.Inject.Transparent.{Ran, inject_syscall-Ran}
use ksnap.Restorer.Rebuild.{
  write_chunks, restore_vma, restore_vmas, protect, protect_others, protect_site,
  restore_protections,
}
use ksnap.Restorer.Rebuild.Memory.{In, Restored, KeptBut, restore_vmas-Restored}
use ksnap.Restorer.Rebuild.Rights.{Rights, own, SameBut}
use ksnap.Restorer.Rebuild.Protections.{restore_protections-All}
use ksnap.Format.Words.{to_le, of_le}
use ksnap.Format.Codec.{get, put_all}
use ksnap.Dumper.Payload.{read_memory}
use ksnap.Base.Text.{same_text}
use ksnap.Maps.Find.{find_in_lines, find_named_map}
use ksnap.Maps.Scan.{parse_maps_line}
use ksnap.Dumper.Image.{place_payloads}
use ksnap.Dumper.WellFormed.{placed-InAddressSpace}
use ksnap.Restorer.Metadata.{read_snapshot_metadata}
use ksnap.Restorer.KernelMaps.{
  find_hulls, widen, text_of, move_kernel_map, move_kernel_maps, restore_kernel_maps,
}
use ksnap.Restorer.KernelMaps.Disjoint.{
  Movable, IsElsewhere, restore_kernel_maps-Movable, restore_kernel_maps-IsElsewhere,
}
use ksnap.Restorer.Rebuild.{restore_fd_flags, set_final_regs, set_final_xstate}
use ksnap.Restorer.Restore.{Host, stopped, rebuild, restore_child, restore_snapshot, restorer}
use ksnap.Restorer.Restore.Rebuilt.{HasSite, IsRebuilt}
use ksnap.Restorer.Restore.Released.{Released, restorer-IsRebuilt}
use ksnap.RoundTrip.Whole.{snapshot_of}
use ksnap.RoundTrip.Dumped.{read_snapshot_metadata-dump}
use ksnap.RoundTrip.Restored.{IsSame, restorer-dump}
use ksnap.Tests.Snapshots.{parts, parts-IsWritable, memory}
use ksnap.Tests.Processes.{plenty}
use ksnap.Tests.Runs.{dump_config, target, collects_parts, saves}
use ksnap.Args.{build_snapshot_path}
use ksnap.Tests.Machine.{
  Machine, view, machine, machine-pokes, machine-quiet, machine-IsTracer, small_bytes,
}

abbrev pub start_regs : Regs
start_regs = record {
  rax = 0;
  rdi = 0;
  rsi = 0;
  rdx = 0;
  r10 = 0;
  r8 = 0;
  r9 = 0;
  rip = 4096;
  others = [];
}

abbrev fresh : Machine
fresh = record {
  regs = start_regs;
  byte = λ x. 0x90;
  small = λ x. omega arith;
  prot = λ x. 5;
  xstate = [];
}

abbrev pub data_vma : VmaDescriptor
data_vma = record {
  start_address = 4096;
  size = 2;
  file_offset = 0;
  data_offset = 1;
  prot = 3;
  map_flags = 2;
  path_offset = 0;
  path_len = 0;
}

abbrev pub small_file : Bytes
small_file = 9 ∷ 7 ∷ 8 ∷ []

mapped : (m : Machine) × (inject_syscall (machine []) (mmap_call data_vma) fresh ≡ ok (4096, m))
unfolding inject_syscall work_regs with_syscall to_le of_le read_memory
mapped = (_, refl)

inject_syscall-Ran_example : Ran (machine []) view (mmap_call data_vma) fresh mapped.0 4096
inject_syscall-Ran_example =
    inject_syscall-Ran (machine []) view (machine-IsTracer []) (machine-pokes [])
      (mmap_call data_vma) fresh mapped.1

filled : (m : Machine) × (restore_vmas (machine []) small_file (data_vma ∷ []) fresh ≡ ok m)
unfolding restore_vmas restore_vma inject_mmap_syscall inject_syscall work_regs with_syscall to_le
    of_le read_memory write_chunks get small_bytes
filled = (_, refl)

restore_vmas-Restored_example :
    All (Restored small_file (view filled.0)) (data_vma ∷ [])
    × KeptBut (data_vma ∷ []) (view fresh) (view filled.0)
    × IsExecutable (view filled.0)
restore_vmas-Restored_example =
    restore_vmas-Restored (machine []) view (machine-IsTracer []) (machine-pokes [])
      (machine-quiet []) small_file (data_vma ∷ []) fresh (omega arith, tt) (tt, tt) (refl, refl)
      filled.1

abbrev later_vma : VmaDescriptor
later_vma = record data_vma { start_address = 8192; size = 4096; prot = 1 }

not_there : ¬ (In later_vma 4096 ⊎ In later_vma 4097)
not_there (inl (low, high)) = omega (arith, low)
not_there (inr (low, high)) = omega (arith, low)

abbrev open_machine : Machine
open_machine = record fresh { prot = λ x. 7 }

protected :
    (m : Machine) × (restore_protections (machine []) (data_vma ∷ later_vma ∷ []) open_machine
      ≡ ok m)
unfolding restore_protections protect_others protect_site protect inject_mprotect_syscall
    inject_syscall work_regs with_syscall to_le of_le read_memory
protected = (_, refl)

restore_protections-All_example :
    All (Rights own (view protected.0)) (data_vma ∷ later_vma ∷ [])
    × SameBut (data_vma ∷ later_vma ∷ []) (view open_machine) (view protected.0)
restore_protections-All_example =
    restore_protections-All (machine []) view (machine-IsTracer []) (machine-pokes [])
      (machine-quiet []) (data_vma ∷ later_vma ∷ []) open_machine
      ((inl (omega arith), tt), (tt, tt)) (refl, refl)
      (λ inside. (omega arith, omega arith, omega arith), (λ inside. absurd (not_there inside), tt))
      (λ x inside. refl, (λ x inside. refl, tt)) protected.1

abbrev pub vdso_lines : List Bytes
vdso_lines = codes "7000-9000 r-xp 00000000 00:00 0   [vdso]" ∷ []

abbrev pub vdso : KernelMap
vdso = record { start_address = 0xA000; size = 0x2000; name = codes "[vdso]" ++ replicate 26 0 }

abbrev pub vdso_header : Header
vdso_header = record (build_header parts) { kernel_map_count = 1; kernel_maps = vdso ∷ [] }

moved : (m : Machine) × (restore_kernel_maps (machine vdso_lines) vdso_header fresh ≡ ok m)
unfolding restore_kernel_maps find_hulls widen text_of find_named_map find_in_lines parse_maps_line
    same_text move_kernel_maps move_kernel_map inject_syscall work_regs with_syscall to_le of_le
    read_memory
moved = (_, refl)

restore_kernel_maps-Movable_example : All (Movable (some vdso_lines) (vdso ∷ [])) (vdso ∷ [])
restore_kernel_maps-Movable_example =
    restore_kernel_maps-Movable (machine vdso_lines) vdso_header fresh moved.1

restore_kernel_maps-IsElsewhere_example : All (IsElsewhere (some vdso_lines)) (vdso ∷ [])
restore_kernel_maps-IsElsewhere_example =
    restore_kernel_maps-IsElsewhere (machine vdso_lines) vdso_header fresh
      ((omega arith, omega arith), tt) moved.1

abbrev pub sample_file : Bytes
sample_file = front parts ++ contents memory (placed parts)

abbrev pub host : Host (machine [])
host = record {
  file = some sample_file;
  alloc = plenty;
  stats = true;
  forks = true;
  found = stopped fresh;
  opens_mem = true;
  detaches = true;
  kills = true;
  regs_of = λ bytes. start_regs;
}

accepted : read_snapshot_metadata plenty true sample_file ≡ ok (snapshot_of parts)
accepted =
    read_snapshot_metadata-dump plenty dump_config target (λ n. refl) collects_parts
      parts-IsWritable saves

rebuilt :
    (m : Machine) × (rebuild
        (machine [])
        (λ bytes. start_regs)
        sample_file
        (snapshot_of parts)
        fresh
      ≡ ok m)
unfolding rebuild build_header restore_fd_flags restore_kernel_maps place_payloads restore_vmas
    restore_vma inject_mmap_syscall inject_syscall work_regs with_syscall to_le of_le read_memory
    write_chunks get small_bytes restore_protections protect_others protect_site protect
    inject_mprotect_syscall set_final_regs set_final_xstate put_all
rebuilt = (_, refl)

rebuilds_sample : (restore_snapshot (machine []) host sample_file).status ≡ true
unfolding restore_snapshot restore_child
rebuilds_sample = rw (restore_snapshot, accepted, rebuilt.1) refl

pub succeeds : (restorer (machine []) dump_config host).status ≡ true
unfolding restorer build_snapshot_path
succeeds = rebuilds_sample

sample-HasSite : HasSite (machine []) view (snapshot_of parts) fresh
unfolding restore_fd_flags restore_kernel_maps build_header place_payloads
sample-HasSite = record {
  executable = λ {s1} {s2} flags moves.
      let same : fresh ≡ s2 = ok-injective flags ∙ ok-injective moves in
      subst (λ u. IsExecutable (view u)) same (refl, refl);
  whole = λ {s1} {s2} flags moves.
      let same : fresh ≡ s2 = ok-injective flags ∙ ok-injective moves in
      subst (λ (u : Machine). All (HoldsWhole u.regs.rip) (snapshot_of parts).vmas) same
        (λ inside. (omega arith, omega arith, omega arith), tt);
}

stopped-injective : {A : Type 0} {a b : A} → stopped a ≡ stopped b → a ≡ b
stopped-injective h = cc

pub has_site :
    (s : Machine) → host.found ≡ stopped s → HasSite (machine []) view (snapshot_of parts) s
has_site s is =
    subst (HasSite (machine []) view (snapshot_of parts)) (stopped-injective is) sample-HasSite

restorer-IsRebuilt_example :
    (m : Machine) × ((restorer (machine []) dump_config host).left ≡ some m)
    × IsRebuilt (λ bytes. start_regs) sample_file (snapshot_of parts) (view m)
unfolding place_payloads
restorer-IsRebuilt_example =
    restorer-IsRebuilt (machine []) view (machine-IsTracer []) (machine-pokes []) (machine-quiet [])
      dump_config host refl accepted (placed-InAddressSpace parts parts-IsWritable) (tt, tt)
      has_site succeeds

restorer-dump_example :
    (m : Machine) × ((restorer (machine []) dump_config host).left ≡ some m)
    × IsSame (λ bytes. start_regs) memory parts (view m)
restorer-dump_example =
    restorer-dump (machine []) view (machine-IsTracer []) (machine-pokes []) (machine-quiet [])
      dump_config dump_config target host collects_parts parts-IsWritable (tt, tt) saves refl
      (λ n. refl) refl has_site succeeds
