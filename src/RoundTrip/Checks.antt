-- ===== src/RoundTrip/Checks.antt =====
-- Every test of the restorer passes on a file that was written.
use Prim.Native.Nat.{bit_and}
use ksnap.Base.{
  ℕ, zero, suc, ◌+◌, ◌^◌, ◌≤◌, ◌<◌, ◌≡◌, refl, Bool, true, ◌&&◌, List, [], ◌∷◌, length, All, arith,
  ok,
}
use ksnap.Base.Text.{Bytes, same_text_refl}
use ksnap.Base.Word.{add64, mul64}
use ksnap.Format.{Header, VmaDescriptor, FdDescriptor, fd_size, magic_bytes}
use ksnap.Dumper.{SnapshotParts}
use ksnap.Dumper.Image.{build_header, place_payloads, placed, total_size}
use ksnap.Dumper.Image.Placing.{IsVma}
use ksnap.Dumper.WellFormed.{IsWritable, offsets}
use ksnap.Restorer.{path_pool_read}
use ksnap.Restorer.FdTable.{fits_in_file, read_fds_at, read_bytes_at, read_fd_table}
use ksnap.Restorer.FdTable.Spec.{IsFdTable, IsFdTable-check_fds}
use ksnap.Restorer.Metadata.{check_header, check_extents, check_vma, check_vmas, unknown_prot_bits}

-- Read, write and execute in any combination set no unknown bit.
known_prot-bits : (prot : ℕ) → prot < 8 → bit_and prot unknown_prot_bits ≡ 0
known_prot-bits zero h = refl
known_prot-bits (suc zero) h = refl
known_prot-bits (suc (suc zero)) h = refl
known_prot-bits (suc (suc (suc zero))) h = refl
known_prot-bits (suc (suc (suc (suc zero)))) h = refl
known_prot-bits (suc (suc (suc (suc (suc zero))))) h = refl
known_prot-bits (suc (suc (suc (suc (suc (suc zero)))))) h = refl
known_prot-bits (suc (suc (suc (suc (suc (suc (suc zero))))))) h = refl
known_prot-bits (suc (suc (suc (suc (suc (suc (suc (suc prot)))))))) h = absurd (omega arith)

check_vmas-place_payloads :
    (n offset : ℕ) (vmas : List VmaDescriptor)
    → offset + total_size vmas ≤ n
    → n < 2 ^ 63
    → All IsVma vmas
    → check_vmas n (place_payloads offset vmas) ≡ ok tt
unfolding check_vmas place_payloads
check_vmas-place_payloads n offset [] h small all = refl
check_vmas-place_payloads n offset (v ∷ vmas) h small (valid, all) =
    rw (passes, check_vmas)
      (check_vmas-place_payloads n (add64 offset v.size) vmas (omega arith) small all)
  where
    passes : check_vma n (record v { data_offset = offset }) ≡ ok tt
    passes = unfold check_vma in ground (arith, known_prot-bits v.prot valid.known_prot)

-- The pool is not read where no descriptor needs it.
abbrev pub pool_read : List FdDescriptor → Bytes → Bytes
pool_read [] pool = []
pool_read (e ∷ fds) pool = pool

module _ (p : SnapshotParts) (w : IsWritable p) where
  pub check_header-passes : check_header (build_header p) ≡ ok tt
  unfolding check_header build_header
  check_header-passes = ground (
    arith,
    same_text_refl magic_bytes,
    w.vmas_some,
    w.kernel_maps_few,
    w.exe_path_some,
    w.exe_path_short,
  )

  module _ (n : ℕ) (size : n ≡ (build_header p).data_offset + total_size p.vmas) where
    small : n < 2 ^ 63
    small = omega (arith, w.file_small, (offsets p w).payloads)

    pub check_extents-passes : check_extents (build_header p) n ≡ ok tt
    unfolding check_extents build_header
    check_extents-passes =
        ground (arith, w.file_small, w.xstate_min, w.xstate_max, w.vmas_count, w.fds_count)

    pub check_vmas-passes : check_vmas n (placed p) ≡ ok tt
    check_vmas-passes = check_vmas-place_payloads n _ p.vmas (omega arith) small w.vmas_valid

    pub tables_fit :
        (fits_in_file (build_header p).fd_table_offset (mul64 (length p.fds) fd_size) n
          && fits_in_file (build_header p).path_pool_offset (length p.pool) n)
        ≡ true
    unfolding fits_in_file
    tables_fit = ground (
      arith,
      w.file_small,
      w.fds_count,
      (offsets p w).fd_table,
      (offsets p w).path_pool,
      (offsets p w).payloads,
    )

pool_some :
    (pool : Bytes) (e : FdDescriptor) (fds earlier : List FdDescriptor)
    → IsFdTable pool earlier (e ∷ fds)
    → 0 < length pool
pool_some pool e fds earlier (f, t) = omega (arith, f.path_inside)

module _ (alloc : ℕ → Bool) (room : (n : ℕ) → alloc n ≡ true) where
  pub read_fd_table-reads :
      (file : Bytes) (h : Header) (fds : List FdDescriptor) (pool : Bytes)
      → h.fd_count ≡ length fds
      → h.path_pool_size ≡ length pool
      → (fits_in_file h.fd_table_offset (mul64 h.fd_count fd_size) (length file)
          && fits_in_file h.path_pool_offset h.path_pool_size (length file))
        ≡ true
      → read_fds_at file h.fd_table_offset h.fd_count ≡ ok fds
      → read_bytes_at path_pool_read file h.path_pool_offset h.path_pool_size ≡ ok pool
      → IsFdTable pool [] fds
      → read_fd_table alloc file h ≡ ok (fds, pool_read fds pool)
  unfolding read_fd_table
  read_fd_table-reads file h [] pool count size fit read_f read_p table = ground arith
  read_fd_table-reads file h (e ∷ fds) pool count size fit read_f read_p table = ground (
    arith,
    pool_some pool e fds [] table,
    room (mul64 h.fd_count fd_size),
    room h.path_pool_size,
    IsFdTable-check_fds pool [] (e ∷ fds) table,
  )
