-- ===== src/Checker/Maps/Promise.antt =====
-- What a check of the mappings promises about the dump of the same file.
use ksnap.Base.{ℕ, ◌%◌, ◌^◌, ◌≡◌, ◌∙◌, Bool, List, [], length, arith, ltb, ◌==◌, ok}
use ksnap.Base.Text.{Bytes}
use ksnap.Format.{max_kernel_maps}
use ksnap.Maps.{opened}
use ksnap.Dumper.Image.{total_size}
use ksnap.Dumper.Pool.{PathPool}
use ksnap.Dumper.Vmas.{VmaTable, collect_vmas}
use ksnap.Dumper.Vmas.Collected.{collect_vmas-totals}
use ksnap.Checker.{
  CheckReport, Reason, gone_halfway, shared_mapping, device_mapping, too_many_kernel_maps,
  no_dumpable_mapping, add_reason,
}
use ksnap.Checker.Maps.{ScanState, scan_lines, add_reason_if, judge_maps, scan_maps}
use ksnap.Checker.Maps.Counted.{IsCount, scan_lines-Counted}

-- A verdict changes no count.
abbrev SameCounts : CheckReport → CheckReport → Type 0
SameCounts r q =
    (q.dumpable_vmas ≡ r.dumpable_vmas)
    × (q.snapshot_bytes ≡ r.snapshot_bytes)
    × (q.kernel_maps ≡ r.kernel_maps)

add_reason_if-counts :
    (test : Bool) (reason : Reason) (r : CheckReport) → SameCounts r (add_reason_if test reason r)
unfolding add_reason
add_reason_if-counts test reason r = (ground arith, ground arith, ground arith)

judge_maps-counts : (s : ScanState) (failed : Bool) → SameCounts s.report (judge_maps s failed)
unfolding judge_maps
judge_maps-counts s failed =
    let r0 = s.report in
    let r1 = add_reason_if failed gone_halfway r0 in
    let r2 =
      add_reason_if (ltb 0 r0.shared_vmas) (shared_mapping r0.shared_vmas s.first_shared) r1 in
    let r3 = add_reason_if (ltb 0 r0.device_vmas) (device_mapping s.first_device) r2 in
    let r4 =
      add_reason_if (ltb max_kernel_maps r0.kernel_maps) (too_many_kernel_maps r0.kernel_maps) r3 in
    let c0 = add_reason_if-counts failed gone_halfway r0 in
    let c1 =
      add_reason_if-counts (ltb 0 r0.shared_vmas) (shared_mapping r0.shared_vmas s.first_shared)
        r1 in
    let c2 = add_reason_if-counts (ltb 0 r0.device_vmas) (device_mapping s.first_device) r2 in
    let c3 =
      add_reason_if-counts (ltb max_kernel_maps r0.kernel_maps)
        (too_many_kernel_maps r0.kernel_maps) r3 in
    let c4 = add_reason_if-counts (r0.dumpable_vmas == 0) no_dumpable_mapping r4 in
    (
      c4.0 ∙ c3.0 ∙ c2.0 ∙ c1.0 ∙ c0.0,
      c4.1 ∙ c3.1 ∙ c2.1 ∙ c1.1 ∙ c0.1,
      c4.2 ∙ c3.2 ∙ c2.2 ∙ c1.2 ∙ c0.2,
    )

-- A report whose counts are still 0.
abbrev pub IsFresh : CheckReport → Type 0
IsFresh r = (r.dumpable_vmas ≡ 0) × (r.snapshot_bytes ≡ 0) × (r.kernel_maps ≡ 0)

-- Where a dump collects the mappings of a file, a check of the same file from a fresh report
-- counts as many mappings to be copied, on 32 bits, as many bytes, on 64 bits, and as many kernel
-- mappings as the dump has collected.
pub scan_maps-collect_vmas :
    (alloc : ℕ → Bool) (lines : List Bytes) (failed : Bool) (pool : PathPool) (r : CheckReport)
    {t : VmaTable}
    → IsFresh r
    → collect_vmas alloc (opened lines failed) pool ≡ ok t
    → ((scan_maps (opened lines failed) r).dumpable_vmas ≡ length t.vmas % 2 ^ 32)
      × ((scan_maps (opened lines failed) r).snapshot_bytes ≡ total_size t.vmas % 2 ^ 64)
      × ((scan_maps (opened lines failed) r).kernel_maps ≡ length t.kernel_maps)
unfolding scan_maps
scan_maps-collect_vmas alloc lines failed pool r {t} fresh e =
    let start : ScanState = record { report = r; first_shared = []; first_device = [] } in
    let s = scan_lines start lines in
    let w : IsCount r = record {
      vmas32 = omega arith;
      bytes64 = omega arith;
      kernel_maps32 = omega arith;
    } in
    let g = scan_lines-Counted start lines w in
    let j = judge_maps-counts s failed in
    let c = collect_vmas-totals alloc lines failed pool e in
    (
      omega (arith, g.vmas_more, j.0, c.2),
      omega (arith, g.bytes_more, j.1, c.3),
      omega (arith, g.kernel_maps_more, j.2, c.4, c.5),
    )
