-- ===== src/Dumper/Errors.antt =====
-- The messages with which `collect_vmas`, `collect_fds` and `pool_append` of
-- Ksnap-engine/src/dumper.c give up.
pub data CollectError : Type 0 where
  pool_too_large pool_out_of_memory : CollectError
  maps_not_opened too_many_kernel_maps kernel_name_too_long : CollectError
  vma_table_out_of_memory maps_read_failed no_mapping : CollectError
  fd_dir_not_opened descriptor_unreadable fd_table_out_of_memory : CollectError
  fd_state_unreadable : CollectError
