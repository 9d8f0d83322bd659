-- ===== src/Restorer/Metadata.antt =====
-- `read_snapshot_metadata` of Ksnap-engine/src/restorer.c.
pub mod Lengths
pub mod Sound
use Prim.Native.Nat.{bit_and}
use ksnap.Base.{
  ℕ, ◌+◌, ◌-◌, Bool, true, false, not, ◌&&◌, ◌||◌, Option, none, some, List, [], ◌∷◌, ◌++◌, length,
  drop, take, ltb, leb, ◌==◌, if◌then◌else◌, Result, ok, err, ◌>>=◌, ◌>>◌, guard,
}
use ksnap.Base.Text.{Bytes, same_text}
use ksnap.Base.Word.{add64, mul64}
use ksnap.Format.{
  Header, VmaDescriptor, magic_bytes, format_version, vma_size, path_max, max_kernel_maps,
  xstate_min_size, xstate_max_size,
}
use ksnap.Format.Codec.{take_all}
use ksnap.Format.Structs.{header_codec, vma_codec}
use ksnap.Restorer.{
  MetadataError, too_short, not_a_snapshot, wrong_version, no_mapping, too_many_kernel_maps,
  impossible_exe_path, cannot_stat, impossible_xstate_size, xstate_truncated, table_truncated,
  out_of_memory, vma_table_read, unknown_protection, payload_past_end, xstate_read, Snapshot, seek,
}
use ksnap.Restorer.FdTable.{of_option, read_bytes_at, read_fd_table}

-- `header->exe_path[header->exe_path_len] = '\0'`
unfoldable pub terminate : Header → Header
terminate h = record h {
  exe_path = take h.exe_path_len h.exe_path ++ 0 ∷ drop (h.exe_path_len + 1) h.exe_path;
}

-- The tests on the header alone, up to the call of `fstat`.
unfoldable pub check_header : Header → Result MetadataError (Unit {0})
check_header h = do
  guard (same_text h.magic magic_bytes) not_a_snapshot
  guard (h.version == format_version) wrong_version
  guard (not (h.vma_count == 0)) no_mapping
  guard (leb h.kernel_map_count max_kernel_maps) too_many_kernel_maps
  guard (not (h.exe_path_len == 0 || leb path_max h.exe_path_len)) impossible_exe_path

-- The tests of the header against the size of the file. The sums are those of `uint64_t`.
unfoldable pub check_extents : Header → ℕ → Result MetadataError (Unit {0})
check_extents h file_size = do
  guard (not (ltb h.xstate_size xstate_min_size || leb xstate_max_size h.xstate_size))
      impossible_xstate_size
  guard (leb (add64 h.xstate_offset h.xstate_size) file_size) xstate_truncated
  guard
      (leb (add64 h.vma_table_offset (mul64 h.vma_count vma_size)) file_size
        && leb h.data_offset file_size)
      table_truncated

-- `~(uint32_t)(PROT_READ | PROT_WRITE | PROT_EXEC)`
abbrev pub unknown_prot_bits : ℕ
unknown_prot_bits = 0xffff_fff8

unfoldable pub check_vma : ℕ → VmaDescriptor → Result MetadataError (Unit {0})
check_vma file_size v = do
  guard (bit_and v.prot unknown_prot_bits == 0) unknown_protection
  guard (leb (add64 v.data_offset v.size) file_size) payload_past_end

unfoldable pub check_vmas : ℕ → List VmaDescriptor → Result MetadataError (Unit {0})
check_vmas file_size [] = ok tt
check_vmas file_size (v ∷ vmas) = elim (check_vma file_size v) [
  | err x ↦ err x
  | ok _ ↦ check_vmas file_size vmas
]

unfoldable pub read_vmas_at : Bytes → ℕ → ℕ → Result MetadataError (List VmaDescriptor)
unfolding of_option
read_vmas_at file offset count = do
  at ← of_option vma_table_read (seek file offset)
  (vmas, _) ← of_option vma_table_read (take_all vma_codec count at)
  ok vmas

-- `alloc n` says whether `malloc(n)` succeeds, and `stats` whether `fstat` does.
module _ (alloc : ℕ → Bool) (stats : Bool) where
  -- What follows the reading of the header. `fstat` gives the length of the file.
  unfoldable pub read_tables : Bytes → Header → Result MetadataError Snapshot
  read_tables file h = do
    guard stats cannot_stat
    check_extents h (length file)
    guard (alloc (mul64 h.vma_count vma_size)) out_of_memory
    vmas ← read_vmas_at file h.vma_table_offset h.vma_count
    check_vmas (length file) vmas
    guard (alloc h.xstate_size) out_of_memory
    xstate ← read_bytes_at xstate_read file h.xstate_offset h.xstate_size
    (fds, pool) ← read_fd_table alloc file h
    ok (record { header = h; vmas = vmas; xstate = xstate; fds = fds; pool = pool })

  unfoldable pub read_snapshot_metadata : Bytes → Result MetadataError Snapshot
  unfolding of_option
  read_snapshot_metadata file = do
    (h, _) ← of_option too_short (header_codec.take file)
    check_header h
    read_tables file (terminate h)
