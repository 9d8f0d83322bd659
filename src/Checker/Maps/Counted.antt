-- ===== src/Checker/Maps/Counted.antt =====
-- What the walk of `scan_maps` has counted at its end.
use ksnap.Base.{
  ℕ, ◌+◌, ◌%◌, ◌^◌, ◌<◌, ◌≡◌, refl, inl, inr, none, some, List, [], ◌∷◌, length, arith,
  Option-cases,
}
use ksnap.Base.Text.{Bytes}
use ksnap.Base.Word.{sub64}
use ksnap.Maps.{
  MapsLine, VmaClass, vma_dump, vma_kernel, vma_skip_unreadable, vma_skip_shared, vma_skip_pseudo,
  classify_maps_line,
}
use ksnap.Maps.Scan.{parse_maps_line}
use ksnap.Maps.Select.{
  select-skip, select-keep, select, keep_dumped, keep_kernel, dumped, kernel_owned, spans,
}
use ksnap.Checker.{CheckReport}
use ksnap.Checker.Maps.{
  ScanState, count_shared, count_kernel, count_device, count_dumpable, scan_as, scan_lines,
}

-- The counts behind the walk are those before it and these more, on 32 and on 64 bits.
pub record Counted (s s' : ScanState) (vmas bytes kernel_maps : ℕ) : Type 0 where
  pub vmas_more : s'.report.dumpable_vmas ≡ (s.report.dumpable_vmas + vmas) % 2 ^ 32
  pub bytes_more : s'.report.snapshot_bytes ≡ (s.report.snapshot_bytes + bytes) % 2 ^ 64
  pub kernel_maps_more : s'.report.kernel_maps ≡ (s.report.kernel_maps + kernel_maps) % 2 ^ 32

Counted-trans :
    (s t u : ScanState) {a b c a' b' c' x y z : ℕ}
    → Counted s t a b c
    → Counted t u a' b' c'
    → x ≡ a + a'
    → y ≡ b + b'
    → z ≡ c + c'
    → Counted s u x y z
Counted-trans s t u g h e1 e2 e3 = record {
  vmas_more = omega (arith, g.vmas_more, h.vmas_more);
  bytes_more = omega (arith, g.bytes_more, h.bytes_more);
  kernel_maps_more = omega (arith, g.kernel_maps_more, h.kernel_maps_more);
}

-- Every count is a value of its type.
pub record IsCount (r : CheckReport) : Type 0 where
  pub vmas32 : r.dumpable_vmas < 2 ^ 32
  pub bytes64 : r.snapshot_bytes < 2 ^ 64
  pub kernel_maps32 : r.kernel_maps < 2 ^ 32

Counted-same : (s : ScanState) → IsCount s.report → Counted s s 0 0 0
Counted-same s v = record {
  vmas_more = omega (arith, v.vmas32);
  bytes_more = omega (arith, v.bytes64);
  kernel_maps_more = omega (arith, v.kernel_maps32);
}

count_device-Counted :
    (s : ScanState) (m : MapsLine) → IsCount s.report → Counted s (count_device s m) 0 0 0
unfolding count_device
count_device-Counted s m w = record {
  vmas_more = ground arith;
  bytes_more = ground arith;
  kernel_maps_more = ground arith;
}

count_dumpable-Counted :
    (s : ScanState) (m : MapsLine)
    → IsCount s.report
    → Counted s (count_dumpable s m) 1 (sub64 m.end m.start) 0
unfolding count_dumpable
count_dumpable-Counted s m w =
    let d = count_device-Counted s m w in
    record {
      vmas_more = omega (arith, d.vmas_more);
      bytes_more = omega (arith, d.bytes_more);
      kernel_maps_more = omega (arith, d.kernel_maps_more);
    }

count_kernel-Counted : (s : ScanState) → IsCount s.report → Counted s (count_kernel s) 0 0 1
unfolding count_kernel
count_kernel-Counted s w = record {
  vmas_more = omega (arith, w.vmas32);
  bytes_more = omega (arith, w.bytes64);
  kernel_maps_more = refl;
}

count_shared-Counted :
    (s : ScanState) (m : MapsLine) → IsCount s.report → Counted s (count_shared s m) 0 0 0
unfolding count_shared
count_shared-Counted s m w = record {
  vmas_more = omega (arith, w.vmas32);
  bytes_more = omega (arith, w.bytes64);
  kernel_maps_more = omega (arith, w.kernel_maps32);
}

Counted-IsCount : (s t : ScanState) {a b c : ℕ} → Counted s t a b c → IsCount t.report
Counted-IsCount s t g = record {
  vmas32 = omega (arith, g.vmas_more);
  bytes64 = omega (arith, g.bytes_more);
  kernel_maps32 = omega (arith, g.kernel_maps_more);
}

scan_as-Counted :
    (c : VmaClass) (s : ScanState) (m : MapsLine) (rest : List Bytes) {v : ScanState}
    → IsCount s.report
    → Counted
        (scan_as c s m)
        v
        (length (dumped rest))
        (spans (dumped rest))
        (length (kernel_owned rest))
    → Counted s v
        (length (keep_dumped c (dumped rest) m))
        (spans (keep_dumped c (dumped rest) m))
        (length (keep_kernel c (kernel_owned rest) m))
scan_as-Counted vma_skip_unreadable s m rest w g = g
scan_as-Counted vma_skip_pseudo s m rest w g = g
scan_as-Counted vma_skip_shared s m rest {v} w g =
    Counted-trans s (count_shared s m) v (count_shared-Counted s m w) g (omega arith) (omega arith)
      (omega arith)
scan_as-Counted vma_kernel s m rest {v} w g =
    Counted-trans s (count_kernel s) v (count_kernel-Counted s w) g (omega arith) (omega arith)
      (omega arith)
scan_as-Counted vma_dump s m rest {v} w g =
    Counted-trans s (count_dumpable s m) v (count_dumpable-Counted s m w) g (omega arith)
      (omega arith) (omega arith)

scan_as-IsCount :
    (c : VmaClass) (s : ScanState) (m : MapsLine)
    → IsCount s.report
    → IsCount (scan_as c s m).report
scan_as-IsCount vma_skip_unreadable s m w = w
scan_as-IsCount vma_skip_pseudo s m w = w
scan_as-IsCount vma_skip_shared s m w = Counted-IsCount s _ (count_shared-Counted s m w)
scan_as-IsCount vma_kernel s m w = Counted-IsCount s _ (count_kernel-Counted s w)
scan_as-IsCount vma_dump s m w = Counted-IsCount s _ (count_dumpable-Counted s m w)

scan_lines-none :
    (s : ScanState) (line : Bytes) (lines : List Bytes)
    → parse_maps_line line ≡ none
    → scan_lines s (line ∷ lines) ≡ scan_lines s lines
unfolding scan_lines
scan_lines-none s line lines h = ground arith

scan_lines-some :
    (s : ScanState) (m : MapsLine) (line : Bytes) (lines : List Bytes)
    → parse_maps_line line ≡ some m
    → scan_lines s (line ∷ lines) ≡ scan_lines (scan_as (classify_maps_line m) s m) lines
unfolding scan_lines
scan_lines-some s m line lines h = ground arith

-- The walk counts the mappings of both classes that the engine keeps.
pub scan_lines-Counted :
    (s : ScanState) (lines : List Bytes)
    → IsCount s.report
    → Counted s
        (scan_lines s lines)
        (length (dumped lines))
        (spans (dumped lines))
        (length (kernel_owned lines))
unfolding scan_lines select
scan_lines-Counted s [] w = Counted-same s w
scan_lines-Counted s (line ∷ lines) w = elim (Option-cases (parse_maps_line line)) [
  | inl h ↦
      rw
        (
          select-skip keep_dumped line lines h,
          select-skip keep_kernel line lines h,
          scan_lines-none s line lines h,
        )
        (scan_lines-Counted s lines w)
  | inr (m, h) ↦
      let c = classify_maps_line m in
      let t = scan_as c s m in
      rw
        (
          select-keep keep_dumped line lines h,
          select-keep keep_kernel line lines h,
          scan_lines-some s m line lines h,
        )
        (scan_as-Counted c s m lines w (scan_lines-Counted t lines (scan_as-IsCount c s m w)))
]
