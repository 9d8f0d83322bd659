-- ===== src/Format.antt =====
-- Ksnap-engine/include/dump_format.h: the structures of a snapshot file and their sizes. The
-- children hold how a structure is laid out in bytes.
pub mod Codec
pub mod Words
pub mod Structs
use ksnap.Base.{ℕ, List, ◌^◌}
use ksnap.Base.Int.{ℤ}
use ksnap.Base.Text.{Bytes, codes}

-- `KSNAP_MAGIC`, with no terminator
abbrev pub magic_bytes : Bytes
magic_bytes = codes "KSNAPDMP"

abbrev pub format_version : ℕ
format_version = 4

abbrev pub path_max : ℕ
path_max = 4096

abbrev pub name_max : ℕ
name_max = 255

abbrev pub max_kernel_maps : ℕ
max_kernel_maps = 4

abbrev pub kernel_map_name_len : ℕ
kernel_map_name_len = 32

abbrev pub xstate_min_size : ℕ
xstate_min_size = 576

abbrev pub xstate_max_size : ℕ
xstate_max_size = 65536

-- `sizeof(struct user_regs_struct)` on x86-64: 27 words of 8 bytes, carried as they are
abbrev pub regs_size : ℕ
regs_size = 216

-- `kernel_map_t`; `name` is the whole array of 32 bytes
pub record KernelMap : Type 0 where
  pub start_address : ℕ
  pub size : ℕ
  pub name : Bytes

-- `ksnap_dump_header_t`; `exe_path` is the whole array of 4096 bytes, and `kernel_maps` the whole
-- array of 4
pub record Header : Type 0 where
  pub magic : Bytes
  pub version : ℕ
  pub vma_count : ℕ
  pub vma_table_offset : ℕ
  pub path_pool_offset : ℕ
  pub path_pool_size : ℕ
  pub data_offset : ℕ
  pub exe_path_len : ℕ
  pub exe_path : Bytes
  pub kernel_map_count : ℕ
  pub kernel_maps : List KernelMap
  pub regs : Bytes
  pub xstate_offset : ℕ
  pub xstate_size : ℕ
  pub xstate_reserved : ℕ
  pub fd_table_offset : ℕ
  pub fd_count : ℕ
  pub fd_reserved : ℕ

-- `vma_descriptor_t`
pub record VmaDescriptor : Type 0 where
  pub start_address : ℕ
  pub size : ℕ
  pub file_offset : ℕ
  pub data_offset : ℕ
  pub prot : ℕ
  pub map_flags : ℕ
  pub path_offset : ℕ
  pub path_len : ℕ

-- `fd_descriptor_t`
pub record FdDescriptor : Type 0 where
  pub fd : ℤ
  pub dup_of : ℤ
  pub flags : ℕ
  pub path_offset : ℕ
  pub path_len : ℕ
  pub reserved : ℕ
  pub position : ℕ

-- The sizes that the static assertions of the header fix.
abbrev pub header_size : ℕ
header_size = 4592

abbrev pub vma_size : ℕ
vma_size = 48

abbrev pub fd_size : ℕ
fd_size = 32
