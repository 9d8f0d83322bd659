-- ===== src/Tests/Reports.antt =====
-- The printed reports of the sample process, as the web panel reads them.
use ksnap.Base.{ℕ, ◌≡◌, refl, false, none, some, [], ◌∷◌, ◌++◌, ok, arith, map, ◌==◌, if◌then◌else◌}
use ksnap.Base.Int.{pos, minus_one}
use ksnap.Base.Text.{Bytes, codes}
use ksnap.Base.Decimal.{print_decimal, print_integer}
use ksnap.Maps.Scan.{skip_spaces}
use ksnap.Args.{Config}
use ksnap.Checker.{CheckReport, multi_threaded, shared_mapping}
use ksnap.Checker.Json.{print_json_string}
use ksnap.Checker.Json.Parse.{read_json}
use ksnap.Checker.One.{empty_report}
use ksnap.Checker.All.{check}
use ksnap.Checker.Report.{
  code_of, detail_text, detail_of, print_reasons, print_report, print_reports,
}
use ksnap.Checker.Report.Document.{report_json}
use ksnap.Checker.Report.Lines.{lines}
use ksnap.Checker.Report.Plain.{PlainStatus}
use ksnap.Checker.Report.Sweep.{lines-check}
use ksnap.Tests.Checks.{sample}

abbrev strerror : ℕ → Bytes
strerror errno = if errno == 1 then codes "Operation not permitted" else codes "No such process"

abbrev sweep : Config
sweep = record {
  mode = some (codes "CHECK");
  pid = minus_one;
  file_name = none;
  output_dir = none;
  kill_after_dump = false;
}

abbrev threaded : CheckReport
threaded = record (empty_report (pos 42)) {
  comm = codes "a\"b";
  reasons = multi_threaded (pos 3) ∷ [];
}

prints_threaded :
    print_report strerror threaded
    ≡ codes
        "{\"pid\":42,\"dumpable\":false,\"reasons\":[{\"code\":\"multi_threaded\",\"detail\":\"the dump seizes the main thread only, this process has 3\"}],\"facts\":{\"comm\":\"a\\\"b\",\"state\":\"?\",\"threads\":0,\"tracer_pid\":0,\"uid\":0,\"rss_kb\":0,\"argc\":0,\"exe\":\"\",\"open_fds\":0,\"volatile_fds\":0,\"dumpable_fds\":0,\"children\":0,\"dumpable_vmas\":0,\"kernel_maps\":0,\"shared_vmas\":0,\"device_vmas\":0,\"snapshot_bytes\":0,\"ptrace_probed\":false,\"ptrace_ok\":false}}"
      ++ 10 ∷ []
unfolding print_report print_reasons code_of detail_of detail_text print_decimal print_integer
    print_json_string
prints_threaded = refl

details_shared :
    detail_of strerror (pos 42) (shared_mapping 2 (codes "/m"))
    ≡ codes "2 shared mappings would be dropped silently, first /m"
unfolding detail_of detail_text print_decimal
details_shared = refl

sample-PlainStatus : PlainStatus sample.status
unfolding skip_spaces
sample-PlainStatus = ground arith

lines-check_example :
    map read_json (
      lines
        (print_reports strerror (check (λ pid. sample) (pos 1) (some (codes "7" ∷ [])) sweep).0))
    ≡ map
        (λ r. ok (report_json strerror r, []))
        (check (λ pid. sample) (pos 1) (some (codes "7" ∷ [])) sweep).0
lines-check_example =
    lines-check strerror (λ pid. sample) (pos 1) (λ pid. sample-PlainStatus) (some (codes "7" ∷ []))
      sweep
