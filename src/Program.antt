-- ===== src/Program.antt =====
-- `main` of Ksnap-engine/src/main.c, over the three operations it calls.
use ksnap.Base.{ℕ, [], ◌≡◌, Bool, none, some, List, if◌then◌else◌, ok, err, arith}
use ksnap.Base.Text.{Bytes, codes, same_text}
use ksnap.Args.{
  Mode, dump_mode, restore_mode, check_mode, Config, Opt, usage_shown, refused, parse_arg,
  mode_to_string,
}
use ksnap.Args.Accepted.{parse_arg-IsAccepted}

-- The operation `main` has run, if any, and the status it ends with.
pub data Ran : Type 0 where
  ran_dump ran_restore ran_check nothing : Ran

pub record Operations : Type 0 where
  pub dump : Config → Bool
  pub restorer : Config → Bool
  pub check : Config → ℕ

abbrev pub exit_success : ℕ
exit_success = 0

abbrev pub exit_failure : ℕ
exit_failure = 1

abbrev exit_of : Bool → ℕ
exit_of done = if done then exit_success else exit_failure

abbrev mode_name : Config → Bytes
mode_name c = elim (c.mode) [ none ↦ [] | some name ↦ name ]

unfoldable pub dispatch : Operations → Config → Ran × ℕ
dispatch o c =
    if same_text (mode_name c) (codes "DUMP")
    then (ran_dump, exit_of (o.dump c))
    else if same_text (mode_name c) (codes "RESTORE")
    then (ran_restore, exit_of (o.restorer c))
    else if same_text (mode_name c) (codes "CHECK")
    then (ran_check, o.check c)
    else (nothing, exit_success)

-- With -h the process has ended in the parser.
unfoldable pub main : Operations → List Opt → Ran × ℕ
unfolding dispatch
main o opts = elim (parse_arg opts) [
  | err usage_shown ↦ (nothing, exit_success)
  | err (refused status) ↦ (nothing, exit_failure)
  | ok c ↦ dispatch o c
]

-- What `main` should do with an accepted command line.
abbrev pub expected : Operations → Config → Mode → Ran × ℕ
expected o c dump_mode = (ran_dump, exit_of (o.dump c))
expected o c restore_mode = (ran_restore, exit_of (o.restorer c))
expected o c check_mode = (ran_check, o.check c)

dispatch-mode :
    (o : Operations) (c : Config) (mode : Mode)
    → c.mode ≡ some (mode_to_string mode)
    → dispatch o c ≡ expected o c mode
unfolding dispatch same_text
dispatch-mode o c dump_mode h = ground (arith, h)
dispatch-mode o c restore_mode h = ground (arith, h)
dispatch-mode o c check_mode h = ground (arith, h)

-- An accepted command line always runs the operation that its mode names, with the accepted
-- configuration, and the process ends with the status of that operation.
pub main-runs :
    (o : Operations) (opts : List Opt) {c : Config}
    → parse_arg opts ≡ ok c
    → (mode : Mode) × (c.mode ≡ some (mode_to_string mode)) × (main o opts ≡ expected o c mode)
unfolding main
main-runs o opts {c} e =
    let a = parse_arg-IsAccepted opts e in
    (a.mode, a.mode_is, ground (arith, e, dispatch-mode o c a.mode a.mode_is))
