-- ===== src/Checker/Maps.antt =====
-- `scan_maps` of Ksnap-engine/src/checker.c.
pub mod Counted
pub mod Promise
pub mod Quiet
use ksnap.Base.{
  ℕ, ◌+◌, ◌-◌, ◌%◌, ◌^◌, Bool, true, false, Option, none, some, List, [], ◌∷◌, ltb, ◌==◌,
  if◌then◌else◌,
}
use ksnap.Base.Text.{Bytes, codes, same_prefix}
use ksnap.Base.Word.{add64, sub64}
use ksnap.Format.{max_kernel_maps}
use ksnap.Maps.{
  MapsLine, MapsFile, not_opened, opened, denied, gone, VmaClass, vma_dump, vma_kernel,
  vma_skip_unreadable, vma_skip_shared, vma_skip_pseudo, classify_maps_line,
}
use ksnap.Maps.Scan.{parse_maps_line}
use ksnap.Checker.{
  CheckReport, Reason, not_inspectable, gone_meanwhile, gone_halfway, shared_mapping,
  device_mapping, too_many_kernel_maps, no_dumpable_mapping, add_reason,
}

-- The report, and the two names for the details.
pub record ScanState : Type 0 where
  pub report : CheckReport
  pub first_shared : Bytes
  pub first_device : Bytes

-- `x++` on a `uint32_t`
abbrev pub next32 : ℕ → ℕ
next32 n = (n + 1) % 2 ^ 32

-- The name kept is the first that is not empty.
abbrev pub first_of_names : Bytes → Bytes → Bytes
first_of_names [] new = new
first_of_names (c ∷ old) new = c ∷ old

abbrev pub shared_name : Bytes → Bytes
shared_name [] = codes "an anonymous mapping"
shared_name (c ∷ path) = c ∷ path

unfoldable pub count_shared : ScanState → MapsLine → ScanState
count_shared s m = record s {
  report = record (s.report) { shared_vmas = next32 s.report.shared_vmas };
  first_shared = first_of_names s.first_shared (shared_name m.path);
}

unfoldable pub count_kernel : ScanState → ScanState
count_kernel s = record s {
  report = record (s.report) { kernel_maps = next32 s.report.kernel_maps };
}

unfoldable pub count_device : ScanState → MapsLine → ScanState
count_device s m =
    if same_prefix m.path (codes "/dev/") 5
    then record s {
      report = record (s.report) { device_vmas = next32 s.report.device_vmas };
      first_device = first_of_names s.first_device m.path;
    }
    else s

unfoldable pub count_dumpable : ScanState → MapsLine → ScanState
count_dumpable s0 m =
    let s = count_device s0 m in
    record s {
      report = record (s.report) {
        dumpable_vmas = next32 s.report.dumpable_vmas;
        snapshot_bytes = add64 s.report.snapshot_bytes (sub64 m.end m.start);
      };
    }

-- The `switch` on the class of the line.
abbrev pub scan_as : VmaClass → ScanState → MapsLine → ScanState
scan_as vma_kernel s m = count_kernel s
scan_as vma_skip_shared s m = count_shared s m
scan_as vma_dump s m = count_dumpable s m
scan_as vma_skip_unreadable s m = s
scan_as vma_skip_pseudo s m = s

unfoldable pub scan_lines : ScanState → List Bytes → ScanState
scan_lines s [] = s
scan_lines s (line ∷ lines) = elim (parse_maps_line line) [
  | none ↦ scan_lines s lines
  | some m ↦ scan_lines (scan_as (classify_maps_line m) s m) lines
]

abbrev pub add_reason_if : Bool → Reason → CheckReport → CheckReport
add_reason_if test reason r = if test then add_reason r reason else r

-- The verdicts behind the loop.
unfoldable pub judge_maps : ScanState → Bool → CheckReport
judge_maps s failed =
    let r = s.report in
    add_reason_if (r.dumpable_vmas == 0) no_dumpable_mapping (
      add_reason_if (ltb max_kernel_maps r.kernel_maps) (too_many_kernel_maps r.kernel_maps) (
        add_reason_if (ltb 0 r.device_vmas) (device_mapping s.first_device) (
          add_reason_if (ltb 0 r.shared_vmas) (shared_mapping r.shared_vmas s.first_shared)
            (add_reason_if failed gone_halfway r))))

unfoldable pub scan_maps : MapsFile → CheckReport → CheckReport
scan_maps (not_opened denied) r = add_reason r (not_inspectable (codes "maps"))
scan_maps (not_opened gone) r = add_reason r gone_meanwhile
scan_maps (opened lines failed) r =
    judge_maps (scan_lines (record { report = r; first_shared = []; first_device = [] }) lines)
      failed
