-- ===== src/Dumper/Vmas/Valid.antt =====
-- What `collect_vmas` collects is valid: each mapping fits its fields and the address space, each
-- kernel mapping its fields, and the pool of paths is well formed.
use mathlib.Core.Path.{subst}
use ksnap.Base.{
  ℕ, ◌^◌, ◌<◌, ◌≡◌, inl, inr, Bool, List, [], ◌∷◌, ◌++◌, length, length-append, length-replicate,
  ◌-◌, true, false, if◌then◌else◌, All, All-append, arith, ok, Option-cases, >>=-eq-ok,
  guard->>-eq-ok, ltb,
}
use ksnap.Base.Text.{Bytes}
use ksnap.Format.{kernel_map_name_len, vma_size}
use ksnap.Format.Structs.{kernel_map_codec}
use ksnap.Maps.{
  MapsLine, opened, VmaClass, vma_dump, vma_kernel, vma_skip_unreadable, vma_skip_shared,
  vma_skip_pseudo, classify_maps_line, perms_to_prot, perms_to_map_flags,
}
use ksnap.Maps.Scan.{parse_maps_line}
use ksnap.Maps.Parsed.{IsLine, parse_maps_line-IsLine}
use ksnap.Dumper.Errors.{vma_table_out_of_memory, maps_read_failed, no_mapping}
use ksnap.Dumper.Pool.{PathPool, pool_append}
use ksnap.Dumper.Pool.Laws.{IsPool, pool_append-content}
use ksnap.Dumper.Vmas.{
  VmaTable, kernel_map_of, vma_table_initial_capacity, vma_of, add_kernel_map, grow_table,
  append_path, add_vma, collect_as, collect_lines, collect_vmas,
}
use ksnap.Dumper.Vmas.Collected.{collect_lines-some, unchanged}
use ksnap.Dumper.Image.Placing.{IsVma}

pub record IsTable (t : VmaTable) : Type 0 where
  pub vmas : All IsVma t.vmas
  pub kernel_maps : All kernel_map_codec.Fits t.kernel_maps
  pub pool : IsPool t.pool

perms_to_prot-lt : (p : Bytes) → perms_to_prot p < 8
unfolding perms_to_prot
perms_to_prot-lt p = ground arith

perms_to_map_flags-lt : (p : Bytes) → perms_to_map_flags p < 3
unfolding perms_to_map_flags
perms_to_map_flags-lt p = ground arith

vma_of-IsVma : (m : MapsLine) (offset : ℕ) → IsLine m → offset < 2 ^ 32 → IsVma (vma_of m offset)
unfolding vma_of
vma_of-IsVma m offset line h =
    let prot = perms_to_prot-lt m.privileges in
    let flags = perms_to_map_flags-lt m.privileges in
    let start = line.start_lt in
    let end64 = line.end64 in
    let offset64 = line.offset64 in
    record { fits = omega arith; in_address_space = omega arith; known_prot = prot }

kernel_map_of-Fits :
    (m : MapsLine)
    → IsLine m
    → length m.path < kernel_map_name_len
    → kernel_map_codec.Fits (kernel_map_of m)
unfolding kernel_map_of
kernel_map_of-Fits m line h =
    let start = line.start_lt in
    let end64 = line.end64 in
    (
      omega arith,
      (
        omega arith,
        omega (
          arith,
          length-append m.path _,
          length-replicate {A = ℕ} (kernel_map_name_len - length m.path) 0,
        ),
      ),
    )

add_kernel_map-IsTable :
    (t : VmaTable) (m : MapsLine) {t' : VmaTable}
    → IsLine m
    → IsTable t
    → add_kernel_map t m ≡ ok t'
    → IsTable t'
unfolding add_kernel_map
add_kernel_map-IsTable t m {t'} line v e =
    let short : length m.path < kernel_map_name_len = ground arith in
    let same : record t { kernel_maps = t.kernel_maps ++ (kernel_map_of m ∷ []) } ≡ t' =
      ground arith in
    subst IsTable same (record {
      vmas = v.vmas;
      kernel_maps =
          All-append kernel_map_codec.Fits t.kernel_maps _ v.kernel_maps
            (kernel_map_of-Fits m line short, tt);
      pool = v.pool;
    })

module _ (alloc : ℕ → Bool) where
  append_path-IsPool :
      (pool : PathPool) (path : Bytes) {r : ℕ × PathPool}
      → IsPool pool
      → append_path alloc pool path ≡ ok r
      → (r.0 < 2 ^ 32) × IsPool r.1
  unfolding append_path
  append_path-IsPool pool [] {r} v e =
      let same : (0, pool) ≡ r = cc in
      subst (λ r. (r.0 < 2 ^ 32) × IsPool r.1) same (omega arith, v)
  append_path-IsPool pool (c ∷ path) {r} v e =
      let appended : pool_append alloc pool (c ∷ path) ≡ ok r = ground (arith, e) in
      let (at, content, small, v') = pool_append-content alloc pool (c ∷ path) v appended in
      (small, v')

  add_vma-IsTable :
      (t : VmaTable) (m : MapsLine) {t' : VmaTable}
      → IsLine m
      → IsTable t
      → add_vma alloc t m ≡ ok t'
      → IsTable t'
  unfolding add_vma
  add_vma-IsTable t m {t'} line v e =
      let (capacity, h1, k1) =
        >>=-eq-ok
          (grow_table alloc vma_table_out_of_memory (length t.vmas) t.capacity
            vma_table_initial_capacity vma_size)
          _ e in
      let ((offset, pool), h2, k2) = >>=-eq-ok (append_path alloc t.pool m.path) _ k1 in
      let (small, v') = append_path-IsPool t.pool m.path v.pool h2 in
      subst IsTable (unchanged k2) (record {
        vmas = All-append IsVma t.vmas _ v.vmas (vma_of-IsVma m offset line small, tt);
        kernel_maps = v.kernel_maps;
        pool = v';
      })

  collect_as-IsTable :
      (c : VmaClass) (t : VmaTable) (m : MapsLine) {t' : VmaTable}
      → IsLine m
      → IsTable t
      → collect_as alloc c t m ≡ ok t'
      → IsTable t'
  collect_as-IsTable vma_skip_unreadable t m line v e = subst IsTable (unchanged e) v
  collect_as-IsTable vma_skip_shared t m line v e = subst IsTable (unchanged e) v
  collect_as-IsTable vma_skip_pseudo t m line v e = subst IsTable (unchanged e) v
  collect_as-IsTable vma_kernel t m line v e = add_kernel_map-IsTable t m line v e
  collect_as-IsTable vma_dump t m line v e = add_vma-IsTable t m line v e

  collect_lines-IsTable :
      (t : VmaTable) (lines : List Bytes) {t' : VmaTable}
      → IsTable t
      → collect_lines alloc t lines ≡ ok t'
      → IsTable t'
  unfolding collect_lines
  collect_lines-IsTable t [] v e = subst IsTable (unchanged e) v
  collect_lines-IsTable t (line ∷ lines) v e = elim (Option-cases (parse_maps_line line)) [
    | inl h ↦ collect_lines-IsTable t lines v cc
    | inr (m, h) ↦
        let (u, e1, e2) = collect_lines-some alloc t m line lines h e in
        collect_lines-IsTable u lines
          (collect_as-IsTable (classify_maps_line m) t m (parse_maps_line-IsLine line h) v e1) e2
  ]

  -- What a collection that succeeds gives is valid.
  pub collect_vmas-IsTable :
      (lines : List Bytes) (failed : Bool) (pool : PathPool) {t : VmaTable}
      → IsPool pool
      → collect_vmas alloc (opened lines failed) pool ≡ ok t
      → IsTable t
  unfolding collect_vmas
  collect_vmas-IsTable lines failed pool {t} v e =
      let start : VmaTable = record { vmas = []; capacity = 0; pool = pool; kernel_maps = [] } in
      let (u, h, rest) = >>=-eq-ok (collect_lines alloc start lines) _ e in
      let (read, rest') = guard->>-eq-ok (if failed then false else true) maps_read_failed _ rest in
      let (some_vma, done) = guard->>-eq-ok (ltb 0 (length u.vmas)) no_mapping _ rest' in
      subst IsTable (unchanged done)
        (collect_lines-IsTable start lines (record { vmas = tt; kernel_maps = tt; pool = v }) h)
