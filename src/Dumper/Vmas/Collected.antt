-- ===== src/Dumper/Vmas/Collected.antt =====
-- What `collect_vmas` has collected at its end.
use ksnap.Base.{
  ℕ, ◌+◌, ◌≤◌, ◌<◌, ◌≡◌, inl, inr, Bool, true, false, some, List, [], ◌∷◌, ◌++◌, length,
  length-append, arith, ltb, Result, ok, Option-cases, >>=-eq-ok, guard->>-eq-ok, if◌then◌else◌,
}
use ksnap.Base.Word.{sub64}
use ksnap.Base.Text.{Bytes}
use ksnap.Format.{KernelMap, VmaDescriptor, max_kernel_maps, vma_size}
use ksnap.Maps.{
  MapsLine, opened, VmaClass, vma_dump, vma_kernel, vma_skip_unreadable, vma_skip_shared,
  vma_skip_pseudo, classify_maps_line,
}
use ksnap.Maps.Scan.{parse_maps_line}
use ksnap.Maps.Select.{
  select-skip, select-keep, select, keep_dumped, keep_kernel, dumped, kernel_owned, spans,
}
use ksnap.Dumper.Errors.{CollectError, vma_table_out_of_memory, maps_read_failed, no_mapping}
use ksnap.Dumper.Image.{total_size}
use ksnap.Dumper.Pool.{PathPool}
use ksnap.Dumper.Vmas.{
  VmaTable, kernel_map_of, vma_table_initial_capacity, vma_of, add_kernel_map, grow_table,
  append_path, add_vma, collect_as, collect_lines, collect_vmas,
}

total_size-append :
    (xs ys : List VmaDescriptor) → total_size (xs ++ ys) ≡ total_size xs + total_size ys
total_size-append [] ys = omega arith
total_size-append (v ∷ xs) ys = omega (arith, total_size-append xs ys)

-- `t'` has these many more mappings, bytes and kernel mappings than `t`.
pub record Grown (t t' : VmaTable) (vmas bytes kernel_maps : ℕ) : Type 0 where
  pub vmas_more : length t'.vmas ≡ length t.vmas + vmas
  pub bytes_more : total_size t'.vmas ≡ total_size t.vmas + bytes
  pub kernel_maps_more : length t'.kernel_maps ≡ length t.kernel_maps + kernel_maps
  pub kernel_maps_few :
      length t.kernel_maps ≤ max_kernel_maps → length t'.kernel_maps ≤ max_kernel_maps

Grown-same : (t : VmaTable) → Grown t t 0 0 0
Grown-same t = omega arith

Grown-trans :
    (t u v : VmaTable) {a b c a' b' c' x y z : ℕ}
    → Grown t u a b c
    → Grown u v a' b' c'
    → x ≡ a + a'
    → y ≡ b + b'
    → z ≡ c + c'
    → Grown t v x y z
Grown-trans t u v g h e1 e2 e3 = record {
  vmas_more = omega (arith, g.vmas_more, h.vmas_more);
  bytes_more = omega (arith, g.bytes_more, h.bytes_more);
  kernel_maps_more = omega (arith, g.kernel_maps_more, h.kernel_maps_more);
  kernel_maps_few = λ few. h.kernel_maps_few (g.kernel_maps_few few);
}

pub unchanged : {t t' : VmaTable} → Path (Result CollectError VmaTable) (ok t) (ok t') → t ≡ t'
unchanged e = cc

module _ (alloc : ℕ → Bool) where
  add_vma-Grown :
      (t : VmaTable) (m : MapsLine) {t' : VmaTable}
      → add_vma alloc t m ≡ ok t'
      → Grown t t' 1 (sub64 m.end m.start) 0
  unfolding add_vma vma_of
  add_vma-Grown t m {t'} e =
      let (capacity, h1, k1) =
        >>=-eq-ok
          (grow_table alloc vma_table_out_of_memory (length t.vmas) t.capacity
            vma_table_initial_capacity vma_size)
          _ e in
      let (r, h2, k2) = >>=-eq-ok (append_path alloc t.pool m.path) _ k1 in
      let new : List VmaDescriptor = vma_of m r.0 ∷ [] in
      record {
        vmas_more = ground (arith, length-append t.vmas new);
        bytes_more = ground (arith, total_size-append t.vmas new);
        kernel_maps_more = ground arith;
        kernel_maps_few = λ few. ground arith;
      }

  add_kernel_map-Grown :
      (t : VmaTable) (m : MapsLine) {t' : VmaTable} → add_kernel_map t m ≡ ok t' → Grown t t' 0 0 1
  unfolding add_kernel_map
  add_kernel_map-Grown t m {t'} e =
      let new : List KernelMap = kernel_map_of m ∷ [] in
      record {
        vmas_more = ground arith;
        bytes_more = ground arith;
        kernel_maps_more = ground (arith, length-append t.kernel_maps new);
        kernel_maps_few = λ few. ground (arith, length-append t.kernel_maps new);
      }

  -- What one line does, followed by what the lines behind it do.
  collect_as-Grown :
      (c : VmaClass) (t : VmaTable) (m : MapsLine) (rest : List Bytes) {t' v : VmaTable}
      → collect_as alloc c t m ≡ ok t'
      → Grown t' v (length (dumped rest)) (spans (dumped rest)) (length (kernel_owned rest))
      → Grown t v
          (length (keep_dumped c (dumped rest) m))
          (spans (keep_dumped c (dumped rest) m))
          (length (keep_kernel c (kernel_owned rest) m))
  collect_as-Grown vma_skip_unreadable t m rest {t'} {v} e g = rw (unchanged e) g
  collect_as-Grown vma_skip_shared t m rest {t'} {v} e g = rw (unchanged e) g
  collect_as-Grown vma_skip_pseudo t m rest {t'} {v} e g = rw (unchanged e) g
  collect_as-Grown vma_kernel t m rest {t'} {v} e g =
      Grown-trans t t' v (add_kernel_map-Grown t m e) g (omega arith) (omega arith) (omega arith)
  collect_as-Grown vma_dump t m rest {t'} {v} e g =
      Grown-trans t t' v (add_vma-Grown t m e) g (omega arith) (omega arith) (omega arith)

  pub collect_lines-some :
      (t : VmaTable) (m : MapsLine) (line : Bytes) (lines : List Bytes) {t' : VmaTable}
      → parse_maps_line line ≡ some m
      → collect_lines alloc t (line ∷ lines) ≡ ok t'
      → (u : VmaTable) × (collect_as alloc (classify_maps_line m) t m ≡ ok u)
        × (collect_lines alloc u lines ≡ ok t')
  unfolding collect_lines
  collect_lines-some t m line lines h e =
      >>=-eq-ok (collect_as alloc (classify_maps_line m) t m) (λ u. collect_lines alloc u lines) cc

  -- The tables grow by the mappings of the file in the two classes that are kept.
  pub collect_lines-Grown :
      (t : VmaTable) (lines : List Bytes) {t' : VmaTable}
      → collect_lines alloc t lines ≡ ok t'
      → Grown t t' (length (dumped lines)) (spans (dumped lines)) (length (kernel_owned lines))
  unfolding collect_lines select
  collect_lines-Grown t [] {t'} e = rw (unchanged e) (Grown-same t')
  collect_lines-Grown t (line ∷ lines) {t'} e = elim (Option-cases (parse_maps_line line)) [
    | inl h ↦
        rw (select-skip keep_dumped line lines h, select-skip keep_kernel line lines h)
          (collect_lines-Grown t lines cc)
    | inr (m, h) ↦
        let (t1, e1, e2) = collect_lines-some t m line lines h e in
        rw (select-keep keep_dumped line lines h, select-keep keep_kernel line lines h)
          (collect_as-Grown (classify_maps_line m) t m lines e1 (collect_lines-Grown t1 lines e2))
  ]

  -- A collection that succeeds has read the file to its end, and holds as many mappings as the
  -- file has to be copied, at least one, spanning as many bytes, and as many kernel mappings as
  -- the file has, at most `max_kernel_maps`.
  pub collect_vmas-totals :
      (lines : List Bytes) (failed : Bool) (pool : PathPool) {t : VmaTable}
      → collect_vmas alloc (opened lines failed) pool ≡ ok t
      → (failed ≡ false)
        × (0 < length t.vmas)
        × (length t.vmas ≡ length (dumped lines))
        × (total_size t.vmas ≡ spans (dumped lines))
        × (length t.kernel_maps ≡ length (kernel_owned lines))
        × (length t.kernel_maps ≤ max_kernel_maps)
  unfolding collect_vmas
  collect_vmas-totals lines failed pool {t} e =
      let start : VmaTable = record { vmas = []; capacity = 0; pool = pool; kernel_maps = [] } in
      let (u, h, rest) = >>=-eq-ok (collect_lines alloc start lines) _ e in
      let (read, rest') = guard->>-eq-ok (if failed then false else true) maps_read_failed _ rest in
      let (some_vma, done) = guard->>-eq-ok (ltb 0 (length u.vmas)) no_mapping _ rest' in
      let same : u ≡ t = unchanged done in
      let g = collect_lines-Grown start lines {t' = t} cc in
      (
        ground arith,
        ground (arith, same),
        ground (arith, g.vmas_more),
        ground (arith, g.bytes_more),
        ground (arith, g.kernel_maps_more),
        g.kernel_maps_few (omega arith),
      )
