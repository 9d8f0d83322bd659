-- ===== src/Checker/Report/Sweep.antt =====
-- What `check` writes for one process or for all of them, read as the web panel reads it: line by
-- line, each line a JSON document.
use ksnap.Base.{ℕ, ◌≡◌, true, false, Option, none, some, List, [], ◌∷◌, ok, arith, All, map}
use ksnap.Base.Int.{ℤ}
use ksnap.Base.Text.{Bytes}
use ksnap.Args.{Config}
use ksnap.Checker.{CheckReport}
use ksnap.Checker.One.{Subject}
use ksnap.Checker.All.{pid_of_name, check_names, check_all, check}
use ksnap.Checker.Json.Parse.{read_json}
use ksnap.Checker.Report.{print_reports}
use ksnap.Checker.Report.Document.{Plain, report_json}
use ksnap.Checker.Report.Lines.{lines, lines-print_reports}
use ksnap.Checker.Report.Plain.{PlainStatus, check_one-Plain}

abbrev AllPlain : List CheckReport → Type 0
AllPlain rs = All (λ r. Plain r.state) rs

module _ (strerror : ℕ → Bytes) (subject : ℤ → Subject) (self : ℤ)
    (plain : (pid : ℤ) → PlainStatus (subject pid).status) where
  check_names-AllPlain : (names : List Bytes) → AllPlain (check_names subject self names)
  unfolding check_names
  check_names-AllPlain [] = tt
  check_names-AllPlain (name ∷ names) =
      let pid = pid_of_name name in
      let later = check_names-AllPlain names in
      let first = check_one-Plain pid false (subject pid) (plain pid) in
      ground (arith, later, first)

  check-AllPlain :
      (proc : Option (List Bytes)) (c : Config) → AllPlain (check subject self proc c).0
  unfolding check check_all
  check-AllPlain none c = ground (arith, check_one-Plain c.pid true (subject c.pid) (plain c.pid))
  check-AllPlain (some names) c =
      ground (
        arith,
        check_one-Plain c.pid true (subject c.pid) (plain c.pid),
        check_names-AllPlain names,
      )

  -- What a check writes, of one process or of all, is one line for each report, in their order, and
  -- each line is a JSON document but for its encoding, of which nothing is said: a reader that takes
  -- the bytes from 0x80 on as they are takes it whole, with the facts and the reasons of that report,
  -- where the status file of every process shows a state that needs no escape.
  pub lines-check :
      (proc : Option (List Bytes)) (c : Config)
      → map read_json (lines (print_reports strerror (check subject self proc c).0))
        ≡ map (λ r. ok (report_json strerror r, [])) (check subject self proc c).0
  lines-check proc c = lines-print_reports strerror _ (check-AllPlain proc c)
