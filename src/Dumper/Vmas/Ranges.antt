-- ===== src/Dumper/Vmas/Ranges.antt =====
-- The mappings that `collect_vmas` stores are those of the file, in its order.
use mathlib.Core.List.{append_assoc, append-nil}
use ksnap.Base.{
  ℕ, ◌%◌, ◌^◌, ◌<◌, ◌≤◌, ◌≡◌, refl, sym, ap, ◌∙◌, inl, inr, Bool, true, false, List, [], ◌∷◌, ◌++◌,
  length, arith, ok, Option-cases, >>=-eq-ok, guard->>-eq-ok, ltb, if◌then◌else◌,
}
use ksnap.Base.Word.{sub64}
use ksnap.Base.Text.{Bytes}
use ksnap.Format.{KernelMap, VmaDescriptor, max_kernel_maps, kernel_map_name_len, vma_size}
use ksnap.Maps.{
  MapsLine, opened, VmaClass, vma_dump, vma_kernel, vma_skip_unreadable, vma_skip_shared,
  vma_skip_pseudo, classify_maps_line, perms_to_prot, perms_to_map_flags,
}
use ksnap.Maps.Scan.{parse_maps_line}
use ksnap.Maps.Select.{
  select-skip, select-keep, select, keep_dumped, keep_kernel, dumped, kernel_owned,
}
use ksnap.Dumper.Errors.{vma_table_out_of_memory, maps_read_failed, no_mapping}
use ksnap.Dumper.Image.{padded}
use ksnap.Dumper.Pool.{PathPool}
use ksnap.Dumper.Vmas.{
  VmaTable, vma_table_initial_capacity, vma_of, kernel_map_of, add_kernel_map, grow_table,
  append_path, add_vma, collect_as, collect_lines, collect_vmas,
}
use ksnap.Dumper.Vmas.Collected.{collect_lines-some, unchanged, collect_vmas-totals}

abbrev pub images {ℓ ℓ'} : {A : Type ℓ} → {B : Type ℓ'} → (A → B) → List A → List B
images f [] = []
images f (x ∷ xs) = f x ∷ images f xs

-- Where a mapping starts, and its size.
abbrev pub Range : Type 0
Range = ℕ × ℕ

abbrev pub range : VmaDescriptor → Range
range v = (v.start_address, v.size)

abbrev pub line_range : MapsLine → Range
line_range m = (m.start, sub64 m.end m.start)

abbrev pub ranges : List VmaDescriptor → List Range
ranges vmas = images range vmas

abbrev pub line_ranges : List MapsLine → List Range
line_ranges ms = images line_range ms

-- Range, offset in the file, protection, flags, and length of the path.
abbrev pub Facts : Type 0
Facts = Range × ℕ × ℕ × ℕ × ℕ

abbrev pub facts : VmaDescriptor → Facts
facts v = (range v, v.file_offset, v.prot, v.map_flags, v.path_len)

abbrev pub line_facts : MapsLine → Facts
line_facts m = (
  line_range m,
  m.file_offset,
  perms_to_prot m.privileges,
  perms_to_map_flags m.privileges,
  length m.path % 2 ^ 32,
)

-- Range and name of a kernel mapping; the name fills its array with zeros.
abbrev pub kernel_facts : KernelMap → Range × Bytes
kernel_facts k = ((k.start_address, k.size), k.name)

abbrev pub line_kernel_facts : MapsLine → Range × Bytes
line_kernel_facts m = (line_range m, padded kernel_map_name_len 0 m.path)

images-append {ℓ ℓ'} :
    {A : Type ℓ} {B : Type ℓ'} (f : A → B) (xs ys : List A)
    → images f (xs ++ ys) ≡ images f xs ++ images f ys
images-append f [] ys = refl
images-append f (x ∷ xs) ys = ap (λ rs. f x ∷ rs) (images-append f xs ys)

facts-ranges :
    (vmas : List VmaDescriptor) → images (λ (p : Facts). p.0) (images facts vmas) ≡ ranges vmas
facts-ranges [] = refl
facts-ranges (v ∷ vmas) = ap (λ rs. range v ∷ rs) (facts-ranges vmas)

line_facts-ranges :
    (ms : List MapsLine) → images (λ (p : Facts). p.0) (images line_facts ms) ≡ line_ranges ms
line_facts-ranges [] = refl
line_facts-ranges (m ∷ ms) = ap (λ rs. line_range m ∷ rs) (line_facts-ranges ms)

-- Each table has the mappings of the one before, and these behind them.
record Extends (t t' : VmaTable) (ms ks : List MapsLine) : Type 0 where
  pub vmas_are : images facts t'.vmas ≡ images facts t.vmas ++ images line_facts ms
  pub kernel_are :
      images kernel_facts t'.kernel_maps
      ≡ images kernel_facts t.kernel_maps ++ images line_kernel_facts ks

Extends-refl : (t : VmaTable) → Extends t t [] []
Extends-refl t = record {
  vmas_are = sym (append-nil (images facts t.vmas));
  kernel_are = sym (append-nil (images kernel_facts t.kernel_maps));
}

-- What a mapping that is taken up adds is followed by the rest.
Extends-vma :
    (t t' v : VmaTable) (m : MapsLine) (ms ks : List MapsLine)
    → images facts t'.vmas ≡ images facts t.vmas ++ (line_facts m ∷ [])
    → t'.kernel_maps ≡ t.kernel_maps
    → Extends t' v ms ks
    → Extends t v (m ∷ ms) ks
Extends-vma t t' v m ms ks added same g = record {
  vmas_are =
      g.vmas_are
      ∙ ap (λ rs. rs ++ images line_facts ms) added
      ∙ append_assoc (images facts t.vmas) (line_facts m ∷ []) (images line_facts ms);
  kernel_are = g.kernel_are ∙ ap (λ l. images kernel_facts l ++ images line_kernel_facts ks) same;
}

Extends-kernel :
    (t t' v : VmaTable) (m : MapsLine) (ms ks : List MapsLine)
    → images kernel_facts t'.kernel_maps
      ≡ images kernel_facts t.kernel_maps ++ (line_kernel_facts m ∷ [])
    → t'.vmas ≡ t.vmas
    → Extends t' v ms ks
    → Extends t v ms (m ∷ ks)
Extends-kernel t t' v m ms ks added same g = record {
  vmas_are = g.vmas_are ∙ ap (λ l. images facts l ++ images line_facts ms) same;
  kernel_are =
      g.kernel_are
      ∙ ap (λ rs. rs ++ images line_kernel_facts ks) added
      ∙ append_assoc (images kernel_facts t.kernel_maps) (line_kernel_facts m ∷ [])
          (images line_kernel_facts ks);
}

module _ (alloc : ℕ → Bool) where
  add_vma-facts :
      (t : VmaTable) (m : MapsLine) {t' : VmaTable}
      → add_vma alloc t m ≡ ok t'
      → (images facts t'.vmas ≡ images facts t.vmas ++ (line_facts m ∷ []))
        × (t'.kernel_maps ≡ t.kernel_maps)
  unfolding add_vma vma_of
  add_vma-facts t m {t'} e =
      let (capacity, h1, k1) =
        >>=-eq-ok
          (grow_table alloc vma_table_out_of_memory (length t.vmas) t.capacity
            vma_table_initial_capacity vma_size)
          _ e in
      let (r, h2, k2) = >>=-eq-ok (append_path alloc t.pool m.path) _ k1 in
      let new : List VmaDescriptor = vma_of m r.0 ∷ [] in
      let made = sym (unchanged k2) in
      (
        ap (λ (u : VmaTable). images facts u.vmas) made ∙ images-append facts t.vmas new,
        ap (λ (u : VmaTable). u.kernel_maps) made,
      )

  add_kernel_map-facts :
      (t : VmaTable) (m : MapsLine) {t' : VmaTable}
      → add_kernel_map t m ≡ ok t'
      → (images kernel_facts t'.kernel_maps
          ≡ images kernel_facts t.kernel_maps ++ (line_kernel_facts m ∷ []))
        × (t'.vmas ≡ t.vmas)
  unfolding add_kernel_map kernel_map_of
  add_kernel_map-facts t m e =
      let new : List KernelMap = kernel_map_of m ∷ [] in
      (ground (arith, e, images-append kernel_facts t.kernel_maps new), ground (arith, e))

  -- What one line does, followed by what the lines behind it do.
  collect_as-Extends :
      (c : VmaClass) (t : VmaTable) (m : MapsLine) (rest : List Bytes) (v : VmaTable)
      {t' : VmaTable}
      → collect_as alloc c t m ≡ ok t'
      → Extends t' v (dumped rest) (kernel_owned rest)
      → Extends t v (keep_dumped c (dumped rest) m) (keep_kernel c (kernel_owned rest) m)
  collect_as-Extends vma_skip_unreadable t m rest v {t'} e g = rw (unchanged e) g
  collect_as-Extends vma_skip_shared t m rest v {t'} e g = rw (unchanged e) g
  collect_as-Extends vma_skip_pseudo t m rest v {t'} e g = rw (unchanged e) g
  collect_as-Extends vma_kernel t m rest v {t'} e g =
      let (added, same) = add_kernel_map-facts t m e in
      Extends-kernel t t' v m (dumped rest) (kernel_owned rest) added same g
  collect_as-Extends vma_dump t m rest v {t'} e g =
      let (added, same) = add_vma-facts t m e in
      Extends-vma t t' v m (dumped rest) (kernel_owned rest) added same g

  collect_lines-Extends :
      (t : VmaTable) (lines : List Bytes) {t' : VmaTable}
      → collect_lines alloc t lines ≡ ok t'
      → Extends t t' (dumped lines) (kernel_owned lines)
  unfolding collect_lines select
  collect_lines-Extends t [] {t'} e = rw (unchanged e) (Extends-refl t')
  collect_lines-Extends t (line ∷ lines) {t'} e = elim (Option-cases (parse_maps_line line)) [
    | inl h ↦
        rw (select-skip keep_dumped line lines h, select-skip keep_kernel line lines h)
          (collect_lines-Extends t lines {t' = t'} cc)
    | inr (m, h) ↦
        let (t1, e1, e2) = collect_lines-some alloc t m line lines h e in
        rw (select-keep keep_dumped line lines h, select-keep keep_kernel line lines h)
          (collect_as-Extends (classify_maps_line m) t m lines t' e1
            (collect_lines-Extends t1 lines e2))
  ]

  -- The fields of what is collected, but for the places of the paths.
  pub collect_vmas-facts :
      (lines : List Bytes) (failed : Bool) (pool : PathPool) {t : VmaTable}
      → collect_vmas alloc (opened lines failed) pool ≡ ok t
      → (failed ≡ false)
        × (0 < length t.vmas)
        × (images facts t.vmas ≡ images line_facts (dumped lines))
        × (images kernel_facts t.kernel_maps ≡ images line_kernel_facts (kernel_owned lines))
        × (length t.kernel_maps ≤ max_kernel_maps)
  unfolding collect_vmas
  collect_vmas-facts lines failed pool {t} e =
      let start : VmaTable = record { vmas = []; capacity = 0; pool = pool; kernel_maps = [] } in
      let (u, h, rest) = >>=-eq-ok (collect_lines alloc start lines) _ e in
      let (read, rest') = guard->>-eq-ok (if failed then false else true) maps_read_failed _ rest in
      let (some_vma, done) = guard->>-eq-ok (ltb 0 (length u.vmas)) no_mapping _ rest' in
      let g = collect_lines-Extends start lines h in
      let made = sym (unchanged done) in
      let totals = collect_vmas-totals alloc lines failed pool e in
      (
        totals.0,
        totals.1,
        ap (λ (u : VmaTable). images facts u.vmas) made ∙ g.vmas_are,
        ap (λ (u : VmaTable). images kernel_facts u.kernel_maps) made ∙ g.kernel_are,
        totals.5,
      )

  -- A collection that succeeds has the ranges of the mappings to be copied, in their order.
  pub collect_vmas-ranges :
      (lines : List Bytes) (failed : Bool) (pool : PathPool) {t : VmaTable}
      → collect_vmas alloc (opened lines failed) pool ≡ ok t
      → ranges t.vmas ≡ line_ranges (dumped lines)
  collect_vmas-ranges lines failed pool {t} e =
      sym (facts-ranges t.vmas)
      ∙ ap (images (λ (p : Facts). p.0)) (collect_vmas-facts lines failed pool e).2
      ∙ line_facts-ranges (dumped lines)
