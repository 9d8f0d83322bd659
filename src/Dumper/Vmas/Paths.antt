-- ===== src/Dumper/Vmas/Paths.antt =====
-- The paths of the mappings that `collect_vmas` stores, and all that it holds.
use mathlib.Core.Path.{subst}
use ksnap.Base.{
  ℕ, ◌<◌, ◌≤◌, ◌≡◌, refl, sym, ◌⊎◌, inl, inr, Bool, true, false, List, [], ◌∷◌, ◌++◌, length, arith,
  ok, Option-cases, >>=-eq-ok, guard->>-eq-ok, ltb, if◌then◌else◌,
}
use mathlib.Core.List.{append_assoc, append-nil}
use ksnap.Base.Text.{Bytes}
use ksnap.Format.{VmaDescriptor, max_kernel_maps, vma_size}
use ksnap.Maps.{
  MapsLine, opened, VmaClass, vma_dump, vma_kernel, vma_skip_unreadable, vma_skip_shared,
  vma_skip_pseudo, classify_maps_line,
}
use ksnap.Maps.Scan.{parse_maps_line}
use ksnap.Maps.Select.{select-skip, select-keep, select, keep_dumped, dumped, kernel_owned}
use ksnap.Dumper.Errors.{vma_table_out_of_memory, maps_read_failed, no_mapping}
use ksnap.Dumper.Pool.{PathPool, pool_append}
use ksnap.Dumper.Pool.Laws.{IsPool, pool_append-content}
use ksnap.Dumper.Fds.Entries.{Stored, Stored-append}
use ksnap.Dumper.Vmas.{
  VmaTable, vma_table_initial_capacity, vma_of, add_kernel_map, grow_table, append_path, add_vma,
  collect_as, collect_lines, collect_vmas,
}
use ksnap.Dumper.Vmas.Collected.{collect_lines-some, unchanged}
use ksnap.Dumper.Vmas.Ranges.{
  images, facts, line_facts, kernel_facts, line_kernel_facts, collect_vmas-facts,
}

-- The path of the line stands in the pool at the offset; an anonymous mapping has none, and offset 0.
abbrev pub HasPath : Bytes → MapsLine → VmaDescriptor → Type 0
HasPath content m v = ((m.path ≡ []) × (v.path_offset ≡ 0)) ⊎ Stored content v.path_offset m.path

abbrev pub HavePaths : Bytes → List MapsLine → List VmaDescriptor → Type 0
HavePaths content [] [] = Unit
HavePaths content [] (v ∷ vmas) = ⊥
HavePaths content (m ∷ ms) [] = ⊥
HavePaths content (m ∷ ms) (v ∷ vmas) = HasPath content m v × HavePaths content ms vmas

HasPath-append :
    (content more : Bytes) (m : MapsLine) (v : VmaDescriptor)
    → HasPath content m v
    → HasPath (content ++ more) m v
HasPath-append content more m v (inl none_at) = inl none_at
HasPath-append content more m v (inr stored) =
    inr (Stored-append content more v.path_offset m.path stored)

HavePaths-append :
    (content more : Bytes) (ms : List MapsLine) (vmas : List VmaDescriptor) (m : MapsLine)
    (v : VmaDescriptor)
    → HavePaths content ms vmas
    → HasPath (content ++ more) m v
    → HavePaths (content ++ more) (ms ++ (m ∷ [])) (vmas ++ (v ∷ []))
HavePaths-append content more [] [] m v h last = (last, tt)
HavePaths-append content more [] (u ∷ vmas) m v h last = absurd h
HavePaths-append content more (k ∷ ms) [] m v h last = absurd h
HavePaths-append content more (k ∷ ms) (u ∷ vmas) m v (here, h) last =
    (HasPath-append content more k u here, HavePaths-append content more ms vmas m v h last)

-- A table whose mappings are those of these lines, by their paths.
record Filled (t : VmaTable) (ms : List MapsLine) : Type 0 where
  pub pool : IsPool t.pool
  pub paths : HavePaths t.pool.content ms t.vmas

-- What a collection that succeeds holds of the maps file.
pub record HoldsFile (lines : List Bytes) (t : VmaTable) : Type 0 where
  pub some_vma : 0 < length t.vmas
  pub vmas_are : images facts t.vmas ≡ images line_facts (dumped lines)
  pub paths_are : HavePaths t.pool.content (dumped lines) t.vmas
  pub kernel_are : images kernel_facts t.kernel_maps ≡ images line_kernel_facts (kernel_owned lines)
  pub few : length t.kernel_maps ≤ max_kernel_maps

module _ (alloc : ℕ → Bool) where
  -- What an append gives: a valid pool that has grown, with the path at the offset.
  record Appended (pool : PathPool) (path : Bytes) (r : ℕ × PathPool) : Type 0 where
    pub valid : IsPool r.1
    pub more : Bytes
    pub grown : r.1.content ≡ pool.content ++ more
    pub at : ((path ≡ []) × (r.0 ≡ 0)) ⊎ Stored (pool.content ++ more) r.0 path

  append_path-Appended :
      (pool : PathPool) (path : Bytes) {r : ℕ × PathPool}
      → IsPool pool
      → append_path alloc pool path ≡ ok r
      → Appended pool path r
  unfolding append_path
  append_path-Appended pool [] {r} v e =
      let same : (0, pool) ≡ r = cc in
      subst (Appended pool []) same (record {
        valid = v;
        more = [];
        grown = sym (append-nil pool.content);
        at = inl (refl, refl);
      })
  append_path-Appended pool (c ∷ path) {r} v e =
      let appended : pool_append alloc pool (c ∷ path) ≡ ok r = ground (arith, e) in
      let (at, content, small, v') = pool_append-content alloc pool (c ∷ path) v appended in
      record {
        valid = v';
        more = c ∷ path ++ 0 ∷ [];
        grown = content;
        at = inr (record { before = pool.content; after = []; pool_is = refl; offset_is = at });
      }

  add_vma-Filled :
      (t : VmaTable) (m : MapsLine) (ms : List MapsLine) {t' : VmaTable}
      → Filled t ms
      → add_vma alloc t m ≡ ok t'
      → Filled t' (ms ++ (m ∷ []))
  unfolding add_vma vma_of
  add_vma-Filled t m ms {t'} f e =
      let (capacity, h1, k1) =
        >>=-eq-ok
          (grow_table alloc vma_table_out_of_memory (length t.vmas) t.capacity
            vma_table_initial_capacity vma_size)
          _ e in
      let ((offset, pool), h2, k2) = >>=-eq-ok (append_path alloc t.pool m.path) _ k1 in
      let a = append_path-Appended t.pool m.path f.pool h2 in
      subst (λ u. Filled u (ms ++ (m ∷ []))) (unchanged k2)
        (record {
          pool = a.valid;
          paths =
              subst (λ c. HavePaths c (ms ++ (m ∷ [])) (t.vmas ++ (vma_of m offset ∷ [])))
                (sym a.grown)
                (HavePaths-append t.pool.content a.more ms t.vmas m (vma_of m offset) f.paths a.at);
        })

  add_kernel_map-Filled :
      (t : VmaTable) (m : MapsLine) (ms : List MapsLine) {t' : VmaTable}
      → Filled t ms
      → add_kernel_map t m ≡ ok t'
      → Filled t' ms
  unfolding add_kernel_map
  add_kernel_map-Filled t m ms {t'} f e =
      let same_vmas : t'.vmas ≡ t.vmas = ground (arith, e) in
      let same_pool : t'.pool ≡ t.pool = ground (arith, e) in
      record {
        pool = subst IsPool (sym same_pool) f.pool;
        paths = rw (same_vmas, same_pool) f.paths;
      }

  -- What one line adds to the list of those taken up.
  collect_as-Filled :
      (c : VmaClass) (t : VmaTable) (m : MapsLine) (ms rest : List MapsLine) {t' : VmaTable}
      → Filled t ms
      → collect_as alloc c t m ≡ ok t'
      → (ms' : List MapsLine) × Filled t' ms' × (ms' ++ rest ≡ ms ++ keep_dumped c rest m)
  collect_as-Filled vma_skip_unreadable t m ms rest {t'} f e =
      (ms, subst (λ u. Filled u ms) (unchanged e) f, refl)
  collect_as-Filled vma_skip_shared t m ms rest {t'} f e =
      (ms, subst (λ u. Filled u ms) (unchanged e) f, refl)
  collect_as-Filled vma_skip_pseudo t m ms rest {t'} f e =
      (ms, subst (λ u. Filled u ms) (unchanged e) f, refl)
  collect_as-Filled vma_kernel t m ms rest f e = (ms, add_kernel_map-Filled t m ms f e, refl)
  collect_as-Filled vma_dump t m ms rest f e =
      (ms ++ (m ∷ []), add_vma-Filled t m ms f e, append_assoc ms (m ∷ []) rest)

  collect_lines-Filled :
      (t : VmaTable) (lines : List Bytes) (ms : List MapsLine) {t' : VmaTable}
      → Filled t ms
      → collect_lines alloc t lines ≡ ok t'
      → Filled t' (ms ++ dumped lines)
  unfolding collect_lines select
  collect_lines-Filled t [] ms {t'} f e =
      subst (λ u. Filled u (ms ++ [])) (unchanged e) (rw append-nil f)
  collect_lines-Filled t (line ∷ lines) ms {t'} f e = elim (Option-cases (parse_maps_line line)) [
    | inl h ↦
        rw (select-skip keep_dumped line lines h) (collect_lines-Filled t lines ms {t' = t'} f cc)
    | inr (m, h) ↦
        let (t1, e1, e2) = collect_lines-some alloc t m line lines h e in
        let (ms', f1, joined) =
          collect_as-Filled (classify_maps_line m) t m ms (dumped lines) f e1 in
        rw (select-keep keep_dumped line lines h)
          (subst (Filled t') joined (collect_lines-Filled t1 lines ms' f1 e2))
  ]

  -- A collection that succeeds, from a pool in order, has read the maps file to its end. It holds,
  -- in the order of the file, exactly the mappings to be copied, at least one, each with the start,
  -- the size, the offset in the file, the protection, the flags and the length of the path of its
  -- line, and with that path in the pool at its offset; and exactly the kernel mappings, at most
  -- `max_kernel_maps`, each with the start, the size and the name of its line.
  pub collect_vmas-HoldsFile :
      (lines : List Bytes) (failed : Bool) (pool : PathPool) {t : VmaTable}
      → IsPool pool
      → collect_vmas alloc (opened lines failed) pool ≡ ok t
      → (failed ≡ false) × HoldsFile lines t
  unfolding collect_vmas
  collect_vmas-HoldsFile lines failed pool {t} v e =
      let start : VmaTable = record { vmas = []; capacity = 0; pool = pool; kernel_maps = [] } in
      let (u, h, rest) = >>=-eq-ok (collect_lines alloc start lines) _ e in
      let (read, rest') = guard->>-eq-ok (if failed then false else true) maps_read_failed _ rest in
      let (some_vma, done) = guard->>-eq-ok (ltb 0 (length u.vmas)) no_mapping _ rest' in
      let f = collect_lines-Filled start lines [] (record { pool = v; paths = tt }) h in
      let (whole, some_one, same, same_kernel, few) =
        collect_vmas-facts alloc lines failed pool e in
      (
        whole,
        record {
          some_vma = some_one;
          vmas_are = same;
          paths_are =
              subst (λ (w : VmaTable). HavePaths w.pool.content (dumped lines) w.vmas)
                (unchanged done) f.paths;
          kernel_are = same_kernel;
          few = few;
        },
      )
