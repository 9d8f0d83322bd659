-- ===== src/Dumper/Vmas/Works.antt =====
-- When `collect_vmas` succeeds.
use ksnap.Base.{
  ℕ, ◌+◌, ◌*◌, ◌%◌, ◌^◌, ◌≤◌, ◌<◌, ◌≡◌, refl, ap, ◌∙◌, inl, inr, Bool, true, false, none, some,
  List, [], ◌∷◌, ◌++◌, length, length-append, All, arith, ◌==◌, ok, Option-cases, if◌then◌else◌,
}
use ksnap.Base.Text.{Bytes}
use ksnap.Format.{KernelMap, max_kernel_maps, kernel_map_name_len, vma_size}
use ksnap.Maps.{
  MapsLine, opened, VmaClass, vma_dump, vma_kernel, vma_skip_unreadable, vma_skip_shared,
  vma_skip_pseudo, classify_maps_line,
}
use ksnap.Maps.Scan.{parse_maps_line}
use ksnap.Maps.Select.{select-skip, select-keep, keep_dumped, keep_kernel, dumped, kernel_owned}
use ksnap.Dumper.Errors.{CollectError, vma_table_out_of_memory}
use ksnap.Dumper.Pool.{PathPool}
use ksnap.Dumper.Pool.Laws.{IsPool, pool_append-content, pool_append-works}
use ksnap.Dumper.Vmas.{
  VmaTable, kernel_map_of, vma_table_initial_capacity, vma_of, add_kernel_map, grow_table,
  append_path, add_vma, collect_as, collect_lines, collect_vmas,
}
use ksnap.Dumper.Vmas.Collected.{collect_lines-Grown}

-- The bytes that the paths of these mappings take in the pool, at most.
abbrev pub path_bytes : List MapsLine → ℕ
path_bytes [] = 0
path_bytes (m ∷ ms) = length m.path + 1 + path_bytes ms

abbrev pub IsShortName : MapsLine → Type 0
IsShortName m = length m.path < kernel_map_name_len

-- The table has room for the mappings still to come.
pub record HasRoom (t : VmaTable) (vmas kernel_maps : List MapsLine) : Type 0 where
  pub pool : IsPool t.pool
  pub paths_fit : t.pool.size + path_bytes vmas < 2 ^ 32
  pub few : length t.kernel_maps + length kernel_maps ≤ max_kernel_maps
  pub short : All IsShortName kernel_maps

module _ (alloc : ℕ → Bool) (room : (n : ℕ) → alloc n ≡ true) where
  pub grow_table-works :
      (e : CollectError) (count capacity initial entry_size : ℕ)
      → (n : ℕ) × (grow_table alloc e count capacity initial entry_size ≡ ok n)
  unfolding grow_table
  grow_table-works e count capacity initial entry_size =
      let new_capacity = if capacity == 0 then initial else (capacity * 2) % 2 ^ 32 in
      (
        (if count == capacity then new_capacity else capacity),
        ground (arith, room (new_capacity * entry_size)),
      )

  append_path-works :
      (pool : PathPool) (path : Bytes)
      → IsPool pool
      → pool.size + length path + 1 < 2 ^ 32
      → (r : ℕ × PathPool) × (append_path alloc pool path ≡ ok r)
        × IsPool r.1
        × (r.1.size ≤ pool.size + length path + 1)
  unfolding append_path
  append_path-works pool [] v h = ((0, pool), refl, v, omega arith)
  append_path-works pool (c ∷ path) v h =
      let (r, e) = pool_append-works alloc pool (c ∷ path) room h in
      let (at, content, small, w) = pool_append-content alloc pool (c ∷ path) v e in
      (
        r,
        ground (arith, e),
        w,
        omega (
          arith,
          w.size_is,
          v.size_is,
          ap (length {A = ℕ}) content,
          length-append pool.content (c ∷ path ++ 0 ∷ []),
          length-append (c ∷ path) (0 ∷ []),
        ),
      )

  collect_as-works :
      (c : VmaClass) (t : VmaTable) (m : MapsLine) (vmas kernel_maps : List MapsLine)
      → HasRoom t (keep_dumped c vmas m) (keep_kernel c kernel_maps m)
      → (u : VmaTable) × (collect_as alloc c t m ≡ ok u) × HasRoom u vmas kernel_maps
  unfolding add_kernel_map add_vma
  collect_as-works vma_skip_unreadable t m vmas ks h = (t, refl, h)
  collect_as-works vma_skip_shared t m vmas ks h = (t, refl, h)
  collect_as-works vma_skip_pseudo t m vmas ks h = (t, refl, h)
  collect_as-works vma_kernel t m vmas ks h =
      let new : List KernelMap = kernel_map_of m ∷ [] in
      (
        record t { kernel_maps = t.kernel_maps ++ new },
        ground (arith, h.few, h.short.0),
        record {
          pool = h.pool;
          paths_fit = h.paths_fit;
          few = omega (arith, h.few, length-append t.kernel_maps new);
          short = h.short.1;
        },
      )
  collect_as-works vma_dump t m vmas ks h =
      let (n, grows) =
        grow_table-works vma_table_out_of_memory (length t.vmas) t.capacity
          vma_table_initial_capacity vma_size in
      let (r, appends, pool, small) =
        append_path-works t.pool m.path h.pool (omega (arith, h.paths_fit)) in
      (
        record t { vmas = t.vmas ++ (vma_of m r.0 ∷ []); capacity = n; pool = r.1 },
        rw (grows, appends) refl,
        record {
          pool = pool;
          paths_fit = omega (arith, h.paths_fit, small);
          few = h.few;
          short = h.short;
        },
      )

  collect_lines-step :
      (t u : VmaTable) (m : MapsLine) (line : Bytes) (lines : List Bytes) {v : VmaTable}
      → parse_maps_line line ≡ some m
      → collect_as alloc (classify_maps_line m) t m ≡ ok u
      → collect_lines alloc u lines ≡ ok v
      → collect_lines alloc t (line ∷ lines) ≡ ok v
  unfolding collect_lines
  collect_lines-step t u m line lines h k l = ground (arith, h, k, l)

  collect_lines-skip :
      (t : VmaTable) (line : Bytes) (lines : List Bytes)
      → parse_maps_line line ≡ none
      → collect_lines alloc t (line ∷ lines) ≡ collect_lines alloc t lines
  unfolding collect_lines
  collect_lines-skip t line lines h = ground (arith, h)

  collect_lines-works :
      (t : VmaTable) (lines : List Bytes)
      → HasRoom t (dumped lines) (kernel_owned lines)
      → (u : VmaTable) × (collect_lines alloc t lines ≡ ok u)
  unfolding collect_lines
  collect_lines-works t [] h = (t, refl)
  collect_lines-works t (line ∷ lines) h = elim (Option-cases (parse_maps_line line)) [
    | inl skip ↦
        let h' : HasRoom t (dumped lines) (kernel_owned lines) =
          rw (← select-skip keep_dumped line lines skip, ← select-skip keep_kernel line lines skip)
            h in
        let (u, e) = collect_lines-works t lines h' in (u, collect_lines-skip t line lines skip ∙ e)
    | inr (m, is) ↦
        let c = classify_maps_line m in
        let h' : HasRoom t (keep_dumped c (dumped lines) m) (keep_kernel c (kernel_owned lines) m) =
          rw (← select-keep keep_dumped line lines is, ← select-keep keep_kernel line lines is) h in
        let (u, e, h1) = collect_as-works c t m (dumped lines) (kernel_owned lines) h' in
        let (v, e') = collect_lines-works u lines h1 in
        (v, collect_lines-step t u m line lines is e e')
  ]

  -- Where memory does not run out, the kernel mappings are few and have short names, and the paths
  -- fit the pool, a maps file that can be read to its end and holds a mapping to be copied is
  -- collected.
  pub collect_vmas-works :
      (lines : List Bytes) (pool : PathPool)
      → HasRoom
          (record { vmas = []; capacity = 0; pool = pool; kernel_maps = [] })
          (dumped lines)
          (kernel_owned lines)
      → 0 < length (dumped lines)
      → (t : VmaTable) × (collect_vmas alloc (opened lines false) pool ≡ ok t)
  unfolding collect_vmas
  collect_vmas-works lines pool h some_vma =
      let start : VmaTable = record { vmas = []; capacity = 0; pool = pool; kernel_maps = [] } in
      let (t, e) = collect_lines-works start lines h in
      let g = collect_lines-Grown alloc start lines e in (t, ground (arith, e, g.vmas_more))
