-- ===== src/Dumper/Vmas.antt =====
-- `collect_vmas` of Ksnap-engine/src/dumper.c.
pub mod Collected
pub mod Works
pub mod Valid
pub mod Ranges
pub mod Paths
use ksnap.Base.{
  ℕ, ◌+◌, ◌-◌, ◌*◌, ◌%◌, ◌^◌, Bool, true, false, Option, none, some, List, [], ◌∷◌, ◌++◌, length,
  ltb, leb, ◌==◌, if◌then◌else◌, Result, ok, err, ◌>>=◌, ◌>>◌, guard,
}
use ksnap.Base.Word.{sub64}
use ksnap.Base.Text.{Bytes}
use ksnap.Format.{KernelMap, VmaDescriptor, max_kernel_maps, kernel_map_name_len, vma_size}
use ksnap.Maps.{
  MapsLine, MapsFile, not_opened, opened, VmaClass, vma_dump, vma_kernel, vma_skip_unreadable,
  vma_skip_shared, vma_skip_pseudo, classify_maps_line, perms_to_prot, perms_to_map_flags,
}
use ksnap.Maps.Scan.{parse_maps_line}
use ksnap.Dumper.Errors.{
  CollectError, maps_not_opened, too_many_kernel_maps, kernel_name_too_long,
  vma_table_out_of_memory, maps_read_failed, no_mapping,
}
use ksnap.Dumper.Image.{padded}
use ksnap.Dumper.Pool.{PathPool, pool_append}

-- The tables so far; each count of the source is the length of its list.
pub record VmaTable : Type 0 where
  pub vmas : List VmaDescriptor
  pub capacity : ℕ
  pub pool : PathPool
  pub kernel_maps : List KernelMap

abbrev pub vma_table_initial_capacity : ℕ
vma_table_initial_capacity = 64

-- `memset` and `memcpy` of the name with its terminator
unfoldable pub kernel_map_of : MapsLine → KernelMap
kernel_map_of m = record {
  start_address = m.start;
  size = sub64 m.end m.start;
  name = padded kernel_map_name_len 0 m.path;
}

unfoldable pub vma_of : MapsLine → ℕ → VmaDescriptor
vma_of m path_offset = record {
  start_address = m.start;
  size = sub64 m.end m.start;
  file_offset = m.file_offset;
  data_offset = 0;
  prot = perms_to_prot m.privileges;
  map_flags = perms_to_map_flags m.privileges;
  path_offset = path_offset;
  path_len = length m.path % 2 ^ 32;
}

unfoldable pub add_kernel_map : VmaTable → MapsLine → Result CollectError VmaTable
add_kernel_map t m =
    if length t.kernel_maps == max_kernel_maps
    then err too_many_kernel_maps
    else if leb kernel_map_name_len (length m.path)
    then err kernel_name_too_long
    else ok (record t { kernel_maps = t.kernel_maps ++ (kernel_map_of m ∷ []) })

-- `alloc n` says whether `realloc` to `n` bytes succeeds.
module _ (alloc : ℕ → Bool) where
  -- Room for one more entry: the new capacity.
  unfoldable pub grow_table : CollectError → ℕ → ℕ → ℕ → ℕ → Result CollectError ℕ
  grow_table e count capacity initial entry_size =
      let new_capacity = if capacity == 0 then initial else (capacity * 2) % 2 ^ 32 in
      if count == capacity
      then (if alloc (new_capacity * entry_size) then ok new_capacity else err e)
      else ok capacity

  -- An anonymous mapping has no path in the pool.
  unfoldable pub append_path : PathPool → Bytes → Result CollectError (ℕ × PathPool)
  append_path pool path = if ltb 0 (length path) then pool_append alloc pool path else ok (0, pool)

  unfoldable pub add_vma : VmaTable → MapsLine → Result CollectError VmaTable
  add_vma t m = do
    capacity ←
        grow_table vma_table_out_of_memory (length t.vmas) t.capacity vma_table_initial_capacity
          vma_size
    (path_offset, pool) ← append_path t.pool m.path
    ok (record t { vmas = t.vmas ++ (vma_of m path_offset ∷ []); capacity = capacity; pool = pool })

  -- The `switch` on the class of the line.
  abbrev pub collect_as : VmaClass → VmaTable → MapsLine → Result CollectError VmaTable
  collect_as vma_skip_unreadable t m = ok t
  collect_as vma_skip_shared t m = ok t
  collect_as vma_skip_pseudo t m = ok t
  collect_as vma_kernel t m = add_kernel_map t m
  collect_as vma_dump t m = add_vma t m

  -- The loop: an unparsable line is skipped.
  unfoldable pub collect_lines : VmaTable → List Bytes → Result CollectError VmaTable
  collect_lines t [] = ok t
  collect_lines t (line ∷ lines) = elim (parse_maps_line line) [
    | none ↦ collect_lines t lines
    | some m ↦ elim (collect_as (classify_maps_line m) t m) [
      | err e ↦ err e
      | ok t' ↦ collect_lines t' lines
    ]
  ]

  unfoldable pub collect_vmas : MapsFile → PathPool → Result CollectError VmaTable
  collect_vmas (not_opened e) pool = err maps_not_opened
  collect_vmas (opened lines failed) pool = do
    t ← collect_lines (record { vmas = []; capacity = 0; pool = pool; kernel_maps = [] }) lines
    guard (if failed then false else true) maps_read_failed
    guard (ltb 0 (length t.vmas)) no_mapping
    ok t
