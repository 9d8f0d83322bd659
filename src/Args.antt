-- ===== src/Args.antt =====
-- The command line: Ksnap-engine/include/parser.h and include/config.h. What `getopt` finds is a
-- list of options; `other` stands for its '?'.
pub mod Safe
pub mod Accepted
use ksnap.Base.{
  ℕ, suc, ◌+◌, ◌-◌, ◌*◌, Bool, true, false, not, ◌&&◌, ◌||◌, Option, none, some, List, [], ◌∷◌,
  ◌++◌, length, ltb, leb, ◌==◌, if◌then◌else◌, Result, ok, err, ◌>>=◌, ◌>>◌, guard,
}
use ksnap.Base.Int.{ℤ, pos, minus_one, eqb_ℤ}
use ksnap.Base.Text.{Bytes, codes, same_text, same_prefix, contains, is_digit}
use ksnap.Format.{path_max}

-- `ksnap_status_t` without its KSNAP_OK, which is `ok` here
pub data Status : Type 0 where
  invalid_pid invalid_mode no_mode_specified no_pid_specified invalid_name : Status
  missing_args too_much_args invalid_args kill_without_dump : Status

-- `modes_t`
pub data Mode : Type 0 where
  dump_mode restore_mode check_mode : Mode

abbrev pub mode_to_string : Mode → Bytes
mode_to_string dump_mode = codes "DUMP"
mode_to_string restore_mode = codes "RESTORE"
mode_to_string check_mode = codes "CHECK"

-- `ksnap_config_t`; a null pointer is `none`.
pub record Config : Type 0 where
  pub mode : Option Bytes
  pub pid : ℤ
  pub file_name : Option Bytes
  pub output_dir : Option Bytes
  pub kill_after_dump : Bool

pub data Opt : Type 0 where
  mode_opt pid_opt name_opt dir_opt : Bytes → Opt
  help_opt kill_opt other_opt : Opt

-- Why the parser gives no configuration: the usage was shown and the process has ended, or an
-- error.
pub data Stop : Type 0 where
  usage_shown : Stop
  refused : Status → Stop

abbrev pub name_max : ℕ
name_max = 255

abbrev is_mode : Bytes → Bytes → ℕ → Bool
is_mode arg name n = same_prefix arg name n && length arg == n

unfoldable pub validate_mode : Bytes → Result Stop Mode
validate_mode arg =
    if is_mode arg (codes "Dump") 4
    then ok dump_mode
    else if is_mode arg (codes "Restore") 7
    then ok restore_mode
    else if is_mode arg (codes "Check") 5
    then ok check_mode
    else err (refused invalid_mode)

-- The loop of `validate_pid`.
unfoldable pub all_digits : Bytes → Bool
all_digits [] = true
all_digits (c ∷ s) = is_digit c && all_digits s

unfoldable pub validate_pid : Bytes → Result Stop (Unit {0})
unfolding all_digits
validate_pid arg = guard (leb (length arg) 7 && all_digits arg) (refused invalid_pid)

-- `atoi` of a string of digits, which `validate_pid` keeps far below 2 ^ 31
unfoldable pub atoi_from : ℕ → Bytes → ℕ
atoi_from n [] = n
atoi_from n (c ∷ s) = atoi_from (n * 10 + (c - b'0')) s

unfoldable pub validate_name : Bytes → Result Stop (Unit {0})
validate_name arg = do
  guard (not (length arg == 0) && leb (length arg) name_max) (refused invalid_name)
  guard (not (contains arg b'/')) (refused invalid_name)
  guard (not (same_text arg (codes ".") || same_text arg (codes ".."))) (refused invalid_name)
  ok tt

unfoldable pub validate_dir : Bytes → Result Stop (Unit {0})
validate_dir arg =
    guard (not (length arg == 0) && leb (length arg) (path_max - name_max - 2))
      (refused invalid_args)

abbrev pub is_dump : Bytes → Bool
is_dump mode = same_prefix mode (codes "DUMP") 4

unfoldable pub validate_mandatory_args : Config → Result Stop (Unit {0})
validate_mandatory_args c = elim (c.mode) [
  | none ↦ err (refused no_mode_specified)
  | some mode ↦
      if is_dump mode && eqb_ℤ c.pid minus_one
      then err (refused no_pid_specified)
      else if c.kill_after_dump && not (is_dump mode)
      then err (refused kill_without_dump)
      else ok tt
]

-- One turn of the loop over the options.
unfoldable pub parse_opt : Config → Opt → Result Stop Config
unfolding validate_mode validate_pid atoi_from validate_name validate_dir
parse_opt c (mode_opt arg) = do
  mode ← validate_mode arg
  ok (record c { mode = some (mode_to_string mode) })
parse_opt c (pid_opt arg) = do validate_pid arg; ok (record c { pid = pos (atoi_from 0 arg) })
parse_opt c (name_opt arg) = do validate_name arg; ok (record c { file_name = some arg })
parse_opt c (dir_opt arg) = do validate_dir arg; ok (record c { output_dir = some arg })
parse_opt c help_opt = err usage_shown
parse_opt c kill_opt = ok (record c { kill_after_dump = true })
parse_opt c other_opt = err (refused invalid_args)

unfoldable pub parse_opts : Config → List Opt → Result Stop Config
unfolding parse_opt
parse_opts c [] = ok c
parse_opts c (opt ∷ opts) = elim (parse_opt c opt) [ err e ↦ err e | ok c' ↦ parse_opts c' opts ]

abbrev pub initial_config : Config
initial_config = record {
  mode = none;
  pid = minus_one;
  file_name = none;
  output_dir = none;
  kill_after_dump = false;
}

unfoldable pub parse_arg : List Opt → Result Stop Config
unfolding parse_opts validate_mandatory_args
parse_arg opts = do c ← parse_opts initial_config opts; validate_mandatory_args c; ok c

abbrev pub or_default : Option Bytes → Bytes → Bytes
or_default none d = d
or_default (some s) d = s

abbrev pub snapshot_dir : Config → Bytes
snapshot_dir c = or_default c.output_dir (codes "../save")

abbrev pub snapshot_name : Config → Bytes
snapshot_name c = or_default c.file_name (codes "snapshot.ksnap")

-- `none` for a path that is too long
unfoldable pub build_snapshot_path : Config → Option Bytes
build_snapshot_path c =
    let path = snapshot_dir c ++ (b'/' ∷ snapshot_name c) in
    if leb path_max (length path) then none else some path
