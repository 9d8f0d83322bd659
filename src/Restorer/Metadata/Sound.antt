-- ===== src/Restorer/Metadata/Sound.antt =====
-- What the restore knows of any file that it accepts, a hostile one included.
use Prim.Native.Nat.{bit_and}
use ksnap.Base.{
  ok-injective, ℕ, ◌+◌, ◌^◌, ◌≤◌, ◌<◌, ◌≡◌, inl, inr, Bool, not, ◌&&◌, List, [], ◌∷◌, length, All,
  arith, ◌==◌, ok, >>=-eq-ok, guard->>-eq-ok, Bool-cases,
}
use ksnap.Base.Text.{Bytes, same_text_iff}
use ksnap.Base.Word.{add64, mul64}
use ksnap.Format.{
  Header, VmaDescriptor, FdDescriptor, magic_bytes, format_version, max_kernel_maps, path_max,
  xstate_min_size, xstate_max_size, vma_size, fd_size,
}
use ksnap.Format.Structs.{header_codec}
use ksnap.Restorer.{
  fd_table_truncated, no_path_pool, Snapshot, path_pool_read, xstate_read, out_of_memory,
  cannot_stat, too_short,
}
use ksnap.Restorer.FdTable.{
  fits_in_file, of_option, read_fds_at, read_bytes_at, read_fd_table, read_fd_entries, check_fds,
}
use ksnap.Restorer.FdTable.Spec.{IsFdTable, check_fds_iff}
use ksnap.Restorer.Metadata.Lengths.{length-read_bytes_at, length-read_vmas_at, length-read_fds_at}
use ksnap.Restorer.Metadata.{
  terminate, check_header, check_extents, check_vma, check_vmas, read_vmas_at, read_tables,
  read_snapshot_metadata, unknown_prot_bits,
}

-- A protection of read, write and execute alone, and a payload whose end, as a `uint64_t`, is
-- inside the file.
pub record IsCheckedVma (file_size : ℕ) (v : VmaDescriptor) : Type 0 where
  pub known_prot : bit_and v.prot unknown_prot_bits ≡ 0
  pub ends_inside : add64 v.data_offset v.size ≤ file_size

pub record IsChecked (file_size : ℕ) (s : Snapshot) : Type 0 where
  pub magic : s.header.magic ≡ magic_bytes
  pub version : s.header.version ≡ format_version
  pub kernel_maps_few : s.header.kernel_map_count ≤ max_kernel_maps
  pub exe_path_some : 1 ≤ s.header.exe_path_len
  pub exe_path_short : s.header.exe_path_len < path_max
  pub vma_count : length s.vmas ≡ s.header.vma_count
  pub vmas_some : 1 ≤ length s.vmas
  pub vmas_checked : All (IsCheckedVma file_size) s.vmas
  pub xstate_size : length s.xstate ≡ s.header.xstate_size
  pub xstate_min : xstate_min_size ≤ length s.xstate
  pub xstate_max : length s.xstate < xstate_max_size
  pub fd_count : length s.fds ≡ s.header.fd_count
  pub fds_checked : IsFdTable s.pool [] s.fds

check_vmas-checked :
    (n : ℕ) (vmas : List VmaDescriptor) → check_vmas n vmas ≡ ok tt → All (IsCheckedVma n) vmas
unfolding check_vmas check_vma
check_vmas-checked n [] h = tt
check_vmas-checked n (v ∷ vmas) h = (
  record { known_prot = ground arith; ends_inside = ground arith },
  check_vmas-checked n vmas (ground arith),
)

read_fd_entries-checked :
    (alloc : ℕ → Bool) (file : Bytes) (h : Header) {r : List FdDescriptor × Bytes}
    → read_fd_entries alloc file h ≡ ok r
    → (length r.0 ≡ h.fd_count) × IsFdTable r.1 [] r.0
unfolding read_fd_entries
read_fd_entries-checked alloc file h {r} e =
    let fit =
      fits_in_file h.fd_table_offset (mul64 h.fd_count fd_size) (length file)
      && fits_in_file h.path_pool_offset h.path_pool_size (length file) in
    let (t1, k1) = guard->>-eq-ok fit fd_table_truncated _ e in
    let (t2, k2) = guard->>-eq-ok (not (h.path_pool_size == 0)) no_path_pool _ k1 in
    let (t3, k3) =
      guard->>-eq-ok (alloc (mul64 h.fd_count fd_size) && alloc h.path_pool_size) out_of_memory _
        k2 in
    let (fds, h4, k4) = >>=-eq-ok (read_fds_at file h.fd_table_offset h.fd_count) _ k3 in
    let (pool, h5, k5) =
      >>=-eq-ok (read_bytes_at path_pool_read file h.path_pool_offset h.path_pool_size) _ k4 in
    let (_, h6, k6) = >>=-eq-ok (check_fds pool [] fds) _ k5 in
    let out = ok-injective k6 in
    rw (← out) (length-read_fds_at file _ _ h4, (check_fds_iff pool fds).0 h6)

read_fd_table-checked :
    (alloc : ℕ → Bool) (file : Bytes) (h : Header) {r : List FdDescriptor × Bytes}
    → read_fd_table alloc file h ≡ ok r
    → (length r.0 ≡ h.fd_count) × IsFdTable r.1 [] r.0
unfolding read_fd_table
read_fd_table-checked alloc file h {r} e = elim (Bool-cases (h.fd_count == 0)) [
  | inl none' ↦
      let none : List FdDescriptor × Bytes = ([], []) in
      let out : none ≡ r = ground arith in rw (← out) (ground arith, tt)
  | inr some' ↦ read_fd_entries-checked alloc file h (ground arith)
]

check_header-checked :
    (h : Header)
    → check_header h ≡ ok tt
    → (h.magic ≡ magic_bytes)
      × (h.version ≡ format_version)
      × (1 ≤ h.vma_count)
      × (h.kernel_map_count ≤ max_kernel_maps)
      × (1 ≤ h.exe_path_len)
      × (h.exe_path_len < path_max)
unfolding check_header
check_header-checked h e = (
  (same_text_iff h.magic magic_bytes).0 (ground arith),
  ground arith,
  ground arith,
  ground arith,
  ground arith,
  ground arith,
)

check_extents-xstate :
    (h : Header) (n : ℕ)
    → check_extents h n ≡ ok tt
    → (xstate_min_size ≤ h.xstate_size) × (h.xstate_size < xstate_max_size)
unfolding check_extents
check_extents-xstate h n e = (ground arith, ground arith)

module _ (alloc : ℕ → Bool) (stats : Bool) (file : Bytes) where
  vma_count_some :
      (h : Header) (vmas : List VmaDescriptor)
      → length vmas ≡ (terminate h).vma_count
      → 1 ≤ h.vma_count
      → 1 ≤ length vmas
  unfolding terminate
  vma_count_some h vmas count some' = omega arith

  read_tables-IsChecked :
      (h : Header) {s : Snapshot}
      → check_header h ≡ ok tt
      → read_tables alloc stats file (terminate h) ≡ ok s
      → IsChecked (length file) s
  unfolding read_tables terminate
  read_tables-IsChecked h {s} c e =
      let g = terminate h in
      let (t1, k1) = guard->>-eq-ok stats cannot_stat _ e in
      let (_, h2, k2) = >>=-eq-ok (check_extents g (length file)) _ k1 in
      let (t3, k3) = guard->>-eq-ok (alloc (mul64 g.vma_count vma_size)) out_of_memory _ k2 in
      let (vmas, h4, k4) = >>=-eq-ok (read_vmas_at file g.vma_table_offset g.vma_count) _ k3 in
      let (_, h5, k5) = >>=-eq-ok (check_vmas (length file) vmas) _ k4 in
      let (t6, k6) = guard->>-eq-ok (alloc g.xstate_size) out_of_memory _ k5 in
      let (xstate, h7, k7) =
        >>=-eq-ok (read_bytes_at xstate_read file g.xstate_offset g.xstate_size) _ k6 in
      let (r, h8, k8) = >>=-eq-ok (read_fd_table alloc file g) _ k7 in
      let out = ok-injective k8 in
      let head = check_header-checked h c in
      let (lo, hi) = check_extents-xstate g (length file) h2 in
      let count = length-read_vmas_at file g.vma_table_offset g.vma_count h4 in
      let area = length-read_bytes_at xstate_read file g.xstate_offset g.xstate_size h7 in
      let (fd_count, table) = read_fd_table-checked alloc file g h8 in
      rw (← out) (record {
        magic = head.0;
        version = head.1;
        kernel_maps_few = head.3;
        exe_path_some = head.4;
        exe_path_short = head.5;
        vma_count = count;
        vmas_some = vma_count_some h vmas count head.2;
        vmas_checked = check_vmas-checked (length file) vmas h5;
        xstate_size = area;
        xstate_min = omega (arith, lo, area);
        xstate_max = omega (arith, hi, area);
        fd_count = fd_count;
        fds_checked = table;
      })

  -- A snapshot that is accepted has the magic bytes and the version of this format, at most four
  -- kernel mappings, an executable path of 1 to 4095 bytes, as many mappings, descriptors and bytes of extended state as
  -- its header says, at least one mapping, known protections, payloads whose end as a `uint64_t` is inside the file, and
  -- a table of descriptors that can be reopened safely.
  pub read_snapshot_metadata-IsChecked :
      {s : Snapshot} → read_snapshot_metadata alloc stats file ≡ ok s → IsChecked (length file) s
  unfolding read_snapshot_metadata
  read_snapshot_metadata-IsChecked {s} e =
      let (r, h1, k1) = >>=-eq-ok (of_option too_short (header_codec.take file)) _ e in
      let (_, h2, k2) = >>=-eq-ok (check_header r.0) _ k1 in read_tables-IsChecked r.0 h2 k2

-- The sum of offset and size wraps: a payload that begins past the end of the file passes the test
-- if its end, past 2 ^ 64, comes round to a place inside.
pub check_vma-wraps :
    (file_size : ℕ) (v : VmaDescriptor)
    → bit_and v.prot unknown_prot_bits ≡ 0
    → file_size < v.data_offset
    → 2 ^ 64 ≤ v.data_offset + v.size
    → v.data_offset + v.size ≤ 2 ^ 64 + file_size
    → file_size < 2 ^ 63
    → check_vma file_size v ≡ ok tt
unfolding check_vma
check_vma-wraps file_size v known past wraps inside small = ground arith
