-- ===== src/Checker/All.antt =====
-- `check` and `check_all` of Ksnap-engine/src/checker.c. A sweep gives
-- the reports in the order in which they are printed; Checker/Report.antt prints them.
use ksnap.Base.{ℕ, ◌%◌, ◌^◌, true, false, ◌||◌, Option, none, some, List, [], ◌∷◌, if◌then◌else◌}
use ksnap.Base.Int.{ℤ, pos, minus_one, leb_ℤ, eqb_ℤ, of_bits32}
use ksnap.Base.Text.{Bytes}
use ksnap.Args.{Config}
use ksnap.Fds.{digits}
use ksnap.Dumper.Fds.{first_is_digit}
use ksnap.Checker.{CheckReport}
use ksnap.Checker.One.{Subject, check_one, exit_dumpable}

abbrev pub exit_error : ℕ
exit_error = 1

-- `(pid_t)strtol(name, NULL, 10)`
abbrev pub pid_of_name : Bytes → ℤ
pid_of_name name = of_bits32 (digits 10 0 name % 2 ^ 32)

-- What each process answers, and the process of the engine itself.
module _ (subject : ℤ → Subject) (self : ℤ) where
  -- The loop over the names in /proc.
  unfoldable pub check_names : List Bytes → List CheckReport
  check_names [] = []
  check_names (name ∷ names) =
      let pid = pid_of_name name in
      let later = check_names names in
      let reported = (check_one pid false (subject pid)).0 ∷ later in
      if first_is_digit name
      then (if leb_ℤ pid (pos 0) || eqb_ℤ pid self then later else reported)
      else later

  -- The names in /proc, if it can be opened.
  unfoldable pub check_all : Option (List Bytes) → List CheckReport × ℕ
  check_all none = ([], exit_error)
  check_all (some names) = (check_names names, exit_dumpable)

  unfoldable pub check : Option (List Bytes) → Config → List CheckReport × ℕ
  unfolding check_all
  check proc c =
      let one = check_one c.pid true (subject c.pid) in
      if eqb_ℤ c.pid minus_one then check_all proc else (one.0 ∷ [], one.1)
