-- ===== src/Dumper/WellFormed.antt =====
-- What `dump` collects fits a snapshot file: every number its field, and every offset a `long`.
use ksnap.Base.{
  ℕ, zero, suc, ◌+◌, ◌-◌, ◌*◌, ◌^◌, ◌≤◌, ◌<◌, ◌≡◌, refl, ◌∙◌, List, [], ◌∷◌, ◌++◌, length,
  length-append, length-replicate, replicate, All, arith,
}
use ksnap.Base.Text.{Bytes}
use ksnap.Base.Word.{IsU32}
use ksnap.Format.{
  KernelMap, VmaDescriptor, header_size, vma_size, fd_size, path_max, max_kernel_maps,
  xstate_min_size, xstate_max_size, regs_size,
}
use ksnap.Format.Codec.{length-put_all}
use ksnap.Format.Structs.{
  kernel_map_codec, vma_codec, fd_codec, header_codec, header_codec-IsLawful, vma_codec-IsLawful,
  fd_codec-IsLawful,
}
use ksnap.Dumper.{SnapshotParts}
use ksnap.Dumper.Image.{
  padded, empty_kernel_map, build_header, placed, header_bytes, vma_bytes, fd_bytes, front,
  total_size,
}
use ksnap.Dumper.Image.Placing.{
  IsVma, place_payloads-Fits, length-place_payloads, total_size-place_payloads,
  place_payloads-InAddressSpace,
}
use ksnap.Restorer.FdTable.Spec.{IsFdTable}

pub record IsWritable (p : SnapshotParts) : Type 0 where
  pub regs_length : length p.regs ≡ regs_size
  pub xstate_min : xstate_min_size ≤ length p.xstate
  pub xstate_max : length p.xstate < xstate_max_size
  pub exe_path_some : 1 ≤ length p.exe_path
  pub exe_path_short : length p.exe_path < path_max
  pub vmas_some : 1 ≤ length p.vmas
  pub vmas_count : IsU32 (length p.vmas)
  pub vmas_valid : All IsVma p.vmas
  pub fds_count : IsU32 (length p.fds)
  pub fds_fit : All fd_codec.Fits p.fds
  pub fds_valid : IsFdTable p.pool [] p.fds
  pub kernel_maps_few : length p.kernel_maps ≤ max_kernel_maps
  pub kernel_maps_fit : All kernel_map_codec.Fits p.kernel_maps
  pub file_small :
      header_size
        + length p.vmas * vma_size
        + length p.fds * fd_size
        + length p.pool
        + length p.xstate
        + total_size p.vmas
      < 2 ^ 63

length-five :
    (a b c d e : Bytes)
    → length (a ++ (b ++ (c ++ (d ++ e))))
      ≡ length a + (length b + (length c + (length d + length e)))
length-five a b c d e = omega (
  arith,
  length-append a (b ++ (c ++ (d ++ e))),
  length-append b (c ++ (d ++ e)),
  length-append c (d ++ e),
  length-append d e,
)

length-padded : {A : Type 0} (n : ℕ) (z : A) (l : List A) → length l ≤ n → length (padded n z l) ≡ n
length-padded n z l h = length-append l _ ∙ omega (arith, length-replicate (n - length l) z)

-- The elements of a padded array: those given, and zeros.
All-padded :
    {A : Type 0} (P : A → Type 0) (z : A) (l : List A) (k : ℕ)
    → P z
    → All P l
    → All P (l ++ replicate k z)
All-padded P z [] zero hz h = tt
All-padded P z [] (suc k) hz h = (hz, All-padded P z [] k hz tt)
All-padded P z (a ∷ l) k hz (ha, h) = (ha, All-padded P z l k hz h)

kernel_maps-Fits :
    (l : List KernelMap)
    → length l ≤ max_kernel_maps
    → All kernel_map_codec.Fits l
    → (length (padded max_kernel_maps empty_kernel_map l) ≡ max_kernel_maps)
      × All kernel_map_codec.Fits (padded max_kernel_maps empty_kernel_map l)
kernel_maps-Fits l few h = (
  length-padded max_kernel_maps empty_kernel_map l few,
  All-padded kernel_map_codec.Fits empty_kernel_map l _
      (omega arith, (omega arith, length-replicate {A = ℕ} 32 0)) h,
)

module _ (p : SnapshotParts) (w : IsWritable p) where
  -- No offset of the header wraps.
  pub record Offsets : Type 0 where
    pub fd_table : (build_header p).fd_table_offset ≡ header_size + length p.vmas * vma_size
    pub path_pool :
        (build_header p).path_pool_offset
        ≡ header_size + length p.vmas * vma_size + length p.fds * fd_size
    pub xstate :
        (build_header p).xstate_offset
        ≡ header_size + length p.vmas * vma_size + length p.fds * fd_size + length p.pool
    pub payloads :
        (build_header p).data_offset
        ≡ header_size
          + length p.vmas * vma_size
          + length p.fds * fd_size
          + length p.pool
          + length p.xstate

  pub offsets : Offsets
  unfolding build_header
  offsets = omega (arith, w.file_small)

  pub header-Fits : header_codec.Fits (build_header p)
  unfolding build_header
  header-Fits =
      let o = offsets in
      (
        (
          refl,
          (
            omega arith,
            (
              w.vmas_count,
              (
                omega arith,
                (
                  omega (arith, w.file_small, o.path_pool),
                  (
                    omega (arith, w.file_small),
                    (
                      omega (arith, w.file_small, o.payloads),
                      (
                        omega (arith, w.exe_path_short),
                        length-padded path_max 0 p.exe_path (omega (arith, w.exe_path_short)),
                      ),
                    ),
                  ),
                ),
              ),
            ),
          ),
        ),
        (
          (
            omega (arith, w.kernel_maps_few),
            (kernel_maps-Fits p.kernel_maps w.kernel_maps_few w.kernel_maps_fit, w.regs_length),
          ),
          (
            omega (arith, w.file_small, o.xstate),
            (
              omega (arith, w.xstate_max),
              (omega arith, (omega (arith, w.file_small, o.fd_table), (w.fds_count, omega arith))),
            ),
          ),
        ),
      )

  pub vmas-Fits : All vma_codec.Fits (placed p)
  vmas-Fits =
      place_payloads-Fits (build_header p).data_offset p.vmas
        (omega (arith, w.file_small, offsets.payloads)) w.vmas_valid

  pub length-header : length (header_codec.put (build_header p)) ≡ header_size
  length-header = header_codec-IsLawful.length-put (build_header p) header-Fits

  pub length-vmas : length (placed p) ≡ length p.vmas
  length-vmas = length-place_payloads (build_header p).data_offset p.vmas

  -- The bytes in front of the payloads are as many as the header says.
  pub length-front : length (front p) ≡ (build_header p).data_offset
  length-front =
      length-five (header_bytes p) (vma_bytes p) (fd_bytes p) p.pool p.xstate
      ∙ omega (
        arith,
        length-header,
        length-put_all vma_codec vma_codec-IsLawful (placed p) vmas-Fits,
        length-vmas,
        length-put_all fd_codec fd_codec-IsLawful p.fds w.fds_fit,
        offsets.payloads,
      )

  pub total_size-placed : total_size (placed p) ≡ total_size p.vmas
  total_size-placed = total_size-place_payloads (build_header p).data_offset p.vmas

  pub placed-InAddressSpace :
      All (λ (v : VmaDescriptor). v.start_address + v.size ≤ 2 ^ 64) (placed p)
  placed-InAddressSpace =
      place_payloads-InAddressSpace (build_header p).data_offset p.vmas w.vmas_valid
