-- ===== src/Restorer.antt =====
-- Ksnap-engine/src/restorer.c: a snapshot is read and checked before anything is started.
pub mod FdTable
pub mod Metadata
pub mod Process
pub mod Inject
pub mod Rebuild
pub mod KernelMaps
pub mod Restore
pub mod Child
use ksnap.Base.{ℕ, List, Bool, ◌^◌, Option, none, some, ltb, if◌then◌else◌, drop}
use ksnap.Base.Text.{Bytes}
use ksnap.Format.{Header, VmaDescriptor, FdDescriptor}

-- The messages of `read_snapshot_metadata` and `read_fd_table`.
pub data MetadataError : Type 0 where
  too_short not_a_snapshot wrong_version no_mapping too_many_kernel_maps : MetadataError
  impossible_exe_path cannot_stat impossible_xstate_size : MetadataError
  xstate_truncated table_truncated out_of_memory vma_table_read : MetadataError
  unknown_protection payload_past_end xstate_read : MetadataError
  fd_table_truncated no_path_pool fd_table_read path_pool_read : MetadataError
  stdio_descriptor not_ascending dup_of_unknown forbidden_flags : MetadataError
  path_outside_pool malformed_path : MetadataError

-- What `read_snapshot_metadata` hands to `restorer`.
pub record Snapshot : Type 0 where
  pub header : Header
  pub vmas : List VmaDescriptor
  pub xstate : Bytes
  pub fds : List FdDescriptor
  pub pool : Bytes

-- `fseek(file, (long)offset, SEEK_SET)`: the rest of the file, or a failure for what is negative as
-- a `long`.
abbrev pub seek : Bytes → ℕ → Option Bytes
seek file offset = if ltb offset (2 ^ 63) then some (drop offset file) else none
