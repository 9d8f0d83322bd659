-- ===== src/Checker/Maps/Quiet.antt =====
-- A check of the mappings that finds no reason, and the collection of the same mappings.
use ksnap.Base.{
  ℕ, suc, ◌+◌, ◌^◌, ◌≤◌, ◌<◌, ◌≡◌, refl, inl, inr, Bool, true, false, List, [], ◌∷◌, length, All,
  arith, ltb, ◌==◌, Option-cases, ok,
}
use ksnap.Base.Text.{Bytes}
use ksnap.Format.{max_kernel_maps}
use ksnap.Maps.{
  MapsLine, opened, VmaClass, vma_dump, vma_kernel, vma_skip_unreadable, vma_skip_shared,
  vma_skip_pseudo, classify_maps_line,
}
use ksnap.Maps.Scan.{parse_maps_line}
use ksnap.Maps.Select.{
  select-skip, select-keep, select, keep_dumped, keep_kernel, dumped, kernel_owned,
}
use ksnap.Dumper.Pool.{PathPool}
use ksnap.Dumper.Pool.Laws.{IsPool}
use ksnap.Dumper.Vmas.{VmaTable, collect_vmas}
use ksnap.Dumper.Vmas.Works.{path_bytes, IsShortName, HasRoom, collect_vmas-works}
use ksnap.Checker.{
  CheckReport, Reason, gone_halfway, shared_mapping, device_mapping, too_many_kernel_maps,
  no_dumpable_mapping, add_reason,
}
use ksnap.Checker.Maps.{ScanState, scan_lines, add_reason_if, judge_maps, scan_maps}
use ksnap.Checker.Maps.Counted.{IsCount, scan_lines-Counted}
use ksnap.Checker.Maps.Promise.{IsFresh}

no_reason :
    (test : Bool) (reason : Reason) (r : CheckReport)
    → (add_reason_if test reason r).reasons ≡ []
    → (test ≡ false) × (r.reasons ≡ [])
unfolding add_reason
no_reason false reason r h = (refl, h)
no_reason true reason r h = by_reasons r.reasons refl
  where
    by_reasons : (l : List Reason) → r.reasons ≡ l → (true ≡ false) × (r.reasons ≡ [])
    by_reasons [] e = ground (arith, e, h)
    by_reasons (x ∷ l) e = ground (arith, e, h)

pub judge_maps-quiet :
    (s : ScanState) (failed : Bool)
    → (judge_maps s failed).reasons ≡ []
    → (failed ≡ false)
      × (s.report.kernel_maps ≤ max_kernel_maps)
      × (0 < s.report.dumpable_vmas)
      × (s.report.reasons ≡ [])
unfolding judge_maps
judge_maps-quiet s failed h =
    let r = s.report in
    let (vmas, h4) = no_reason (r.dumpable_vmas == 0) no_dumpable_mapping _ h in
    let (kernel, h3) =
      no_reason (ltb max_kernel_maps r.kernel_maps) (too_many_kernel_maps r.kernel_maps) _ h4 in
    let (devices, h2) = no_reason (ltb 0 r.device_vmas) (device_mapping s.first_device) _ h3 in
    let (shared, h1) =
      no_reason (ltb 0 r.shared_vmas) (shared_mapping r.shared_vmas s.first_shared) _ h2 in
    let (read, h0) = no_reason failed gone_halfway r h1 in
    (read, ground (arith, kernel), ground (arith, vmas), h0)

length-keep_dumped-le :
    (c : VmaClass) (l : List MapsLine) (m : MapsLine) → length (keep_dumped c l m) ≤ suc (length l)
length-keep_dumped-le vma_dump l m = omega arith
length-keep_dumped-le vma_kernel l m = omega arith
length-keep_dumped-le vma_skip_unreadable l m = omega arith
length-keep_dumped-le vma_skip_shared l m = omega arith
length-keep_dumped-le vma_skip_pseudo l m = omega arith

length-keep_kernel-le :
    (c : VmaClass) (l : List MapsLine) (m : MapsLine) → length (keep_kernel c l m) ≤ suc (length l)
length-keep_kernel-le vma_dump l m = omega arith
length-keep_kernel-le vma_kernel l m = omega arith
length-keep_kernel-le vma_skip_unreadable l m = omega arith
length-keep_kernel-le vma_skip_shared l m = omega arith
length-keep_kernel-le vma_skip_pseudo l m = omega arith

length-select-le :
    (keep : VmaClass → List MapsLine → MapsLine → List MapsLine)
    → ((c : VmaClass) (l : List MapsLine) (m : MapsLine) → length (keep c l m) ≤ suc (length l))
    → (lines : List Bytes) → length (select keep lines) ≤ length lines
unfolding select
length-select-le keep more [] = omega arith
length-select-le keep more (line ∷ lines) = elim (Option-cases (parse_maps_line line)) [
  | inl skip ↦
      rw (select-skip keep line lines skip) (omega (arith, length-select-le keep more lines))
  | inr (m, is) ↦ rw (select-keep keep line lines is) (
      omega (
        arith,
        more (classify_maps_line m) (select keep lines) m,
        length-select-le keep more lines,
      ))
]

-- Where a check of the mappings leaves the report without a reason, a dump of the same file
-- collects them, provided that memory does not run out, the names of the kernel mappings are
-- shorter than their field, and the paths fit the pool of 32-bit offsets.
pub scan_maps-collect_vmas-works :
    (alloc : ℕ → Bool) (lines : List Bytes) (failed : Bool) (pool : PathPool) (r : CheckReport)
    → ((n : ℕ) → alloc n ≡ true)
    → IsFresh r
    → (scan_maps (opened lines failed) r).reasons ≡ []
    → length lines < 2 ^ 32
    → All IsShortName (kernel_owned lines)
    → IsPool pool
    → pool.size + path_bytes (dumped lines) < 2 ^ 32
    → (t : VmaTable) × (collect_vmas alloc (opened lines failed) pool ≡ ok t)
unfolding scan_maps
scan_maps-collect_vmas-works alloc lines failed pool r room fresh quiet few short v fit =
    let start : ScanState = record { report = r; first_shared = []; first_device = [] } in
    let w : IsCount r = record {
      vmas32 = omega arith;
      bytes64 = omega arith;
      kernel_maps32 = omega arith;
    } in
    let g = scan_lines-Counted start lines w in
    let (read, kernel, vmas, _) = judge_maps-quiet (scan_lines start lines) failed quiet in
    let dumped_few = length-select-le keep_dumped length-keep_dumped-le lines in
    let kernel_few = length-select-le keep_kernel length-keep_kernel-le lines in
    let h : HasRoom (record { vmas = []; capacity = 0; pool = pool; kernel_maps = [] })
        (dumped lines) (kernel_owned lines) =
      record {
        pool = v;
        paths_fit = fit;
        few = omega (arith, g.kernel_maps_more);
        short = short;
      } in
    rw read (collect_vmas-works alloc room lines pool h (omega (arith, g.vmas_more)))
