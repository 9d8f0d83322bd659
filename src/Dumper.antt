-- ===== src/Dumper.antt =====
-- Ksnap-engine/src/dumper.c: the path pool, the tables of a snapshot and the file they go to.
pub mod Errors
pub mod Image
pub mod Pool
pub mod Payload
pub mod Vmas
pub mod Fds
pub mod WellFormed
pub mod Write
pub mod Dump
use ksnap.Base.{List}
use ksnap.Base.Text.{Bytes}
use ksnap.Format.{KernelMap, VmaDescriptor, FdDescriptor}

-- What `dump` hands to `write_snapshot`. Each count of the source is the length of its list, and
-- `pool` holds the bytes of the path pool in use.
pub record SnapshotParts : Type 0 where
  pub regs : Bytes
  pub xstate : Bytes
  pub exe_path : Bytes
  pub vmas : List VmaDescriptor
  pub fds : List FdDescriptor
  pub pool : Bytes
  pub kernel_maps : List KernelMap
