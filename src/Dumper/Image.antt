-- ===== src/Dumper/Image.antt =====
-- `write_snapshot` of Ksnap-engine/src/dumper.c: the header and the offsets of the payloads, and
-- the bytes in front of the payloads.
pub mod Placing
use ksnap.Base.{ℕ, ◌+◌, ◌-◌, List, [], ◌∷◌, ◌++◌, length, replicate}
use ksnap.Base.Text.{Bytes}
use ksnap.Base.Word.{add64, mul64}
use ksnap.Format.{
  KernelMap, Header, VmaDescriptor, magic_bytes, format_version, header_size, vma_size, fd_size,
  path_max, max_kernel_maps, kernel_map_name_len,
}
use ksnap.Format.Codec.{put_all}
use ksnap.Format.Structs.{header_codec, vma_codec, fd_codec}
use ksnap.Dumper.{SnapshotParts}

-- `memcpy` of the first elements into an array of `n` that holds `z` everywhere.
abbrev pub padded {ℓ} : {A : Type ℓ} → ℕ → A → List A → List A
padded n z l = l ++ replicate (n - length l) z

abbrev pub empty_kernel_map : KernelMap
empty_kernel_map = record { start_address = 0; size = 0; name = replicate kernel_map_name_len 0 }

unfoldable pub build_header : SnapshotParts → Header
build_header p =
    let vma_count = length p.vmas in
    let fd_count = length p.fds in
    let pool_size = length p.pool in
    let xstate_size = length p.xstate in
    let fd_table_offset = add64 header_size (mul64 vma_count vma_size) in
    let path_pool_offset = add64 fd_table_offset (mul64 fd_count fd_size) in
    let xstate_offset = add64 path_pool_offset pool_size in
    record {
      magic = magic_bytes;
      version = format_version;
      vma_count = vma_count;
      vma_table_offset = header_size;
      path_pool_offset = path_pool_offset;
      path_pool_size = pool_size;
      data_offset = add64 xstate_offset xstate_size;
      exe_path_len = length p.exe_path;
      exe_path = padded path_max 0 p.exe_path;
      kernel_map_count = length p.kernel_maps;
      kernel_maps = padded max_kernel_maps empty_kernel_map p.kernel_maps;
      regs = p.regs;
      xstate_offset = xstate_offset;
      xstate_size = xstate_size;
      xstate_reserved = 0;
      fd_table_offset = fd_table_offset;
      fd_count = fd_count;
      fd_reserved = 0;
    }

-- The loop that assigns `data_offset`, payloads following one another in table order.
unfoldable pub place_payloads : ℕ → List VmaDescriptor → List VmaDescriptor
place_payloads offset [] = []
place_payloads offset (v ∷ vmas) =
    record v { data_offset = offset } ∷ place_payloads (add64 offset v.size) vmas

-- The table as it is written.
abbrev pub placed : SnapshotParts → List VmaDescriptor
placed p = place_payloads (build_header p).data_offset p.vmas

-- The bytes of the five `fwrite` calls in front of the payloads.
abbrev pub header_bytes : SnapshotParts → Bytes
header_bytes p = header_codec.put (build_header p)

abbrev pub vma_bytes : SnapshotParts → Bytes
vma_bytes p = put_all vma_codec (placed p)

abbrev pub fd_bytes : SnapshotParts → Bytes
fd_bytes p = put_all fd_codec p.fds

-- All that stands in front of the payloads.
abbrev pub front : SnapshotParts → Bytes
front p = header_bytes p ++ (vma_bytes p ++ (fd_bytes p ++ (p.pool ++ p.xstate)))

-- The number of bytes in the payloads.
abbrev pub total_size : List VmaDescriptor → ℕ
total_size [] = 0
total_size (v ∷ vmas) = v.size + total_size vmas
