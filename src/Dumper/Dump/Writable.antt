-- ===== src/Dumper/Dump/Writable.antt =====
-- Under what the kernel and the C library document, a dump collects parts that fit a snapshot file
-- and that a restore accepts.
use mathlib.Core.Path.{subst}
use ksnap.Base.{
  ℕ, ◌+◌, ◌*◌, ◌^◌, ◌≤◌, ◌<◌, ◌≡◌, sym, Bool, List, length, arith, ok, ok-injective, >>=-eq-ok,
}
use ksnap.Base.Text.{Bytes}
use ksnap.Format.{
  FdDescriptor, header_size, vma_size, fd_size, path_max, max_kernel_maps, regs_size,
  xstate_min_size, xstate_max_size,
}
use ksnap.Maps.{opened}
use ksnap.Dumper.{SnapshotParts}
use ksnap.Dumper.WellFormed.{IsWritable}
use ksnap.Dumper.Image.{total_size}
use ksnap.Dumper.Pool.{PathPool, empty_pool}
use ksnap.Dumper.Pool.Laws.{empty_pool-IsPool}
use ksnap.Dumper.Vmas.{VmaTable, collect_vmas}
use ksnap.Dumper.Vmas.Collected.{collect_vmas-totals}
use ksnap.Dumper.Vmas.Ranges.{collect_vmas-ranges}
use ksnap.Dumper.Vmas.Valid.{IsTable, collect_vmas-IsTable}
use ksnap.Dumper.Fds.{collect_fds}
use ksnap.Dumper.Dump.{Target, read_regs, read_xstate, read_exe_path, of_collect, collect_parts}
use ksnap.Restorer.Rebuild.Memory.{AreApart}
use ksnap.Dumper.Dump.Documented.{InOrder, IsMapsFile, IsDocumented}
use ksnap.Dumper.Dump.Collected.{
  IsFds, read_regs-eq-ok, read_exe_path-eq-ok, read_xstate-eq-ok, of_collect-eq-ok,
  collect_vmas-opened, InOrder-AreApart, collect_fds-IsFds,
}

abbrev pub parts_of :
    Bytes → Bytes → Bytes → VmaTable → List FdDescriptor → PathPool → SnapshotParts
parts_of regs xstate exe table fds pool = record {
  regs = regs;
  xstate = xstate;
  exe_path = exe;
  vmas = table.vmas;
  fds = fds;
  pool = pool.content;
  kernel_maps = table.kernel_maps;
}

-- What the mappings come to.
pub record IsMappings (t : VmaTable) : Type 0 where
  pub some_vma : 1 ≤ length t.vmas
  pub count32 : length t.vmas < 2 ^ 32
  pub bytes47 : total_size t.vmas ≤ 2 ^ 47
  pub few : length t.kernel_maps ≤ max_kernel_maps
  pub table_valid : IsTable t
  pub apart : AreApart t.vmas

opened-IsMappings :
    (alloc : ℕ → Bool) (lines : List Bytes) (failed : Bool) {table : VmaTable}
    → IsMapsFile lines
    → collect_vmas alloc (opened lines failed) empty_pool ≡ ok table
    → IsMappings table
opened-IsMappings alloc lines failed {table} file e =
    let (read, some_vma, count, bytes, kernel, few) =
      collect_vmas-totals alloc lines failed empty_pool e in
    let ordered =
      subst InOrder (sym (collect_vmas-ranges alloc lines failed empty_pool e)) file.in_order in
    record {
      some_vma = some_vma;
      count32 = subst (λ n. n < 2 ^ 32) (sym count) file.count32;
      bytes47 = subst (λ n. n ≤ 2 ^ 47) (sym bytes) file.span47;
      few = few;
      table_valid = collect_vmas-IsTable alloc lines failed empty_pool empty_pool-IsPool e;
      apart = InOrder-AreApart table.vmas ordered;
    }

pub collect_vmas-IsMappings :
    (t : Target)
    → IsDocumented t
    → {table : VmaTable} → collect_vmas t.alloc t.maps empty_pool ≡ ok table
    → IsMappings table
collect_vmas-IsMappings t doc {table} e =
    let (lines, failed, is) = collect_vmas-opened t.alloc t.maps empty_pool e in
    opened-IsMappings t.alloc lines failed (doc.maps_file is)
      (subst (λ f. collect_vmas t.alloc f empty_pool ≡ ok table) is e)

small_file :
    (vmas fds pool xstate bytes : ℕ)
    → vmas < 2 ^ 32
    → fds < 2 ^ 32
    → pool < 2 ^ 32
    → xstate < xstate_max_size
    → bytes ≤ 2 ^ 47
    → header_size + vmas * vma_size + fds * fd_size + pool + xstate + bytes < 2 ^ 63
small_file vmas fds pool xstate bytes a b c d e = omega arith

-- Parts put together from what each step gave.
parts-IsWritable :
    (regs xstate exe : Bytes) (table : VmaTable) (fds : List FdDescriptor) (pool : PathPool)
    → length regs ≡ regs_size
    → (xstate_min_size ≤ length xstate) × (length xstate < xstate_max_size)
    → (1 ≤ length exe) × (length exe < path_max)
    → IsMappings table
    → IsFds fds pool
    → IsWritable (parts_of regs xstate exe table fds pool)
parts-IsWritable regs xstate exe table fds pool filled (xmin, xmax) (some_byte, short) m f =
    let pool32 = subst (λ n. n < 2 ^ 32) (sym f.pool_valid.size_is) f.pool_valid.small in
    record {
      regs_length = filled;
      xstate_min = xmin;
      xstate_max = xmax;
      exe_path_some = some_byte;
      exe_path_short = short;
      vmas_some = m.some_vma;
      vmas_count = m.count32;
      vmas_valid = m.table_valid.vmas;
      fds_count = f.count32;
      fds_fit = f.fit;
      fds_valid = f.valid;
      kernel_maps_few = m.few;
      kernel_maps_fit = m.table_valid.kernel_maps;
      file_small =
          small_file (length table.vmas) (length fds) (length pool.content) (length xstate)
            (total_size table.vmas) m.count32 f.count32 pool32 xmax m.bytes47;
    }

-- Under the documented behaviour of the kernel and of `qsort`, the parts that a dump collects are
-- well formed: every number fits its field of the snapshot file, the table of descriptors is one
-- that the restore accepts, the whole file is shorter than 2 ^ 63 bytes, and the mappings share no
-- page.
pub collect_parts-IsWritable :
    (t : Target)
    → IsDocumented t
    → {parts : SnapshotParts} → collect_parts t ≡ ok parts
    → IsWritable parts × AreApart parts.vmas
unfolding collect_parts
collect_parts-IsWritable t doc {parts} e =
    let (regs, e1, k1) = >>=-eq-ok (read_regs t) _ e in
    let (xstate, e2, k2) = >>=-eq-ok (read_xstate t) _ k1 in
    let (exe, e3, k3) = >>=-eq-ok (read_exe_path t) _ k2 in
    let (table, e4, k4) = >>=-eq-ok (of_collect (collect_vmas t.alloc t.maps empty_pool)) _ k3 in
    let ((fds, pool), e5, k5) =
      >>=-eq-ok (of_collect (collect_fds t.alloc t.qsort t.directory table.pool)) _ k4 in
    let m =
      collect_vmas-IsMappings t doc
        (of_collect-eq-ok (collect_vmas t.alloc t.maps empty_pool) e4) in
    let f =
      collect_fds-IsFds t doc table.pool m.table_valid.pool
        (of_collect-eq-ok (collect_fds t.alloc t.qsort t.directory table.pool) e5) in
    let (exe_is, exe_some) = read_exe_path-eq-ok t e3 in
    let writable =
      parts-IsWritable regs xstate exe table fds pool (doc.regs_filled (read_regs-eq-ok t e1))
        (read_xstate-eq-ok t e2) (exe_some, doc.exe_short exe_is) m f in
    subst (λ (p : SnapshotParts). IsWritable p × AreApart p.vmas) (ok-injective k5)
      (writable, m.apart)
