-- ===== src/Args/Accepted.antt =====
-- What a command line that is accepted guarantees to the operations.
use ksnap.Base.{
  ℕ, ◌-◌, ◌^◌, ◌≤◌, ◌<◌, ◌≡◌, refl, ◌≢◌, inl, inr, true, false, Option, none, some, List, ◌∷◌, ◌++◌,
  length, length-append, arith, ok, >>=-eq-ok, >>-eq-ok,
}
use ksnap.Base.Int.{ℤ, pos, minus_one, eqb_ℤ_iff}
use ksnap.Base.Text.{Bytes, codes, same_prefix}
use ksnap.Format.{path_max}
use ksnap.Args.{
  Mode, dump_mode, restore_mode, check_mode, mode_to_string, Config, Opt, name_max,
  validate_mandatory_args, parse_opts, initial_config, parse_arg, snapshot_dir, snapshot_name,
  or_default, is_dump, build_snapshot_path,
}
use ksnap.Args.Safe.{IsPid, IsName, IsDir, IsMode, IsSafe, ok_eq, parse_opts-IsSafe}

initial_config-IsSafe : IsSafe initial_config
initial_config-IsSafe = record { mode_is = tt; pid_is = inl refl; name_is = tt; dir_is = tt }

-- What the operations may rely on.
pub record IsAccepted (c : Config) : Type 0 where
  pub mode : Mode
  pub mode_is : c.mode ≡ some (mode_to_string mode)
  pub safe : IsSafe c
  pub dump_has_pid : mode ≡ dump_mode → (n : ℕ) × (c.pid ≡ pos n) × (n < 10 ^ 7)
  pub kill_is_dump : c.kill_after_dump ≡ true → mode ≡ dump_mode
  pub path_fits : build_snapshot_path c ≡ some (snapshot_dir c ++ (b'/' ∷ snapshot_name c))

snapshot_dir-short : (c : Config) → IsSafe c → length (snapshot_dir c) ≤ path_max - name_max - 2
snapshot_dir-short c v = short c.output_dir v.dir_is
  where
    short : (o : Option Bytes) → IsDir o → length (or_default o (codes "../save")) ≤ 3839
    short none h = omega arith
    short (some s) h = omega (arith, h.1)

snapshot_name-short : (c : Config) → IsSafe c → length (snapshot_name c) ≤ name_max
snapshot_name-short c v = short c.file_name v.name_is
  where
    short : (o : Option Bytes) → IsName o → length (or_default o (codes "snapshot.ksnap")) ≤ 255
    short none h = omega arith
    short (some s) h = omega (arith, h.1)

build_snapshot_path-fits :
    (c : Config)
    → IsSafe c
    → build_snapshot_path c ≡ some (snapshot_dir c ++ (b'/' ∷ snapshot_name c))
unfolding build_snapshot_path
build_snapshot_path-fits c v = ground (
  arith,
  length-append (snapshot_dir c) (b'/' ∷ snapshot_name c),
  snapshot_dir-short c v,
  snapshot_name-short c v,
)

dump_is_dump : is_dump (mode_to_string dump_mode) ≡ true
unfolding same_prefix
dump_is_dump = refl

restore_is_not_dump : is_dump (mode_to_string restore_mode) ≡ false
unfolding same_prefix
restore_is_not_dump = refl

check_is_not_dump : is_dump (mode_to_string check_mode) ≡ false
unfolding same_prefix
check_is_not_dump = refl

-- What `validate_mandatory_args` adds.
record Checks (c : Config) (mode : Mode) : Type 0 where
  pub mode_is : c.mode ≡ some (mode_to_string mode)
  pub dump_has_pid : mode ≡ dump_mode → c.pid ≢ minus_one
  pub kill_is_dump : c.kill_after_dump ≡ true → mode ≡ dump_mode

module _ (c : Config) (e : validate_mandatory_args c ≡ ok tt) where
  of_mode : (mode : Mode) → c.mode ≡ some (mode_to_string mode) → Checks c mode
  unfolding validate_mandatory_args
  of_mode dump_mode h = record {
    mode_is = h;
    dump_has_pid = λ _ same. ground (arith, e, h, (eqb_ℤ_iff c.pid minus_one).1 same, dump_is_dump);
    kill_is_dump = λ _. refl;
  }
  of_mode restore_mode h = record {
    mode_is = h;
    dump_has_pid = λ same. cc;
    kill_is_dump = λ kill. ground (arith, e, h, restore_is_not_dump);
  }
  of_mode check_mode h = record {
    mode_is = h;
    dump_has_pid = λ same. cc;
    kill_is_dump = λ kill. ground (arith, e, h, check_is_not_dump);
  }

  by_mode : (o : Option Bytes) → c.mode ≡ o → IsMode o → (mode : Mode) × Checks c mode
  unfolding validate_mandatory_args
  by_mode none h m = ground (arith, e, h)
  by_mode (some s) h (mode, m) = (mode, of_mode mode cc)

has_pid : (p : ℤ) → IsPid p → p ≢ minus_one → (n : ℕ) × (p ≡ pos n) × (n < 10 ^ 7)
has_pid p (inl none_given) given = elim (given none_given) [ ]
has_pid p (inr n) given = n

-- A command line that is accepted names a mode; a dump has a process number below 10 ^ 7; only a
-- dump may kill; a name that is given is a single file of 1 to 255 bytes that is neither directory
-- link; and the path of the snapshot fits `PATH_MAX`.
pub parse_arg-IsAccepted : (opts : List Opt) {c : Config} → parse_arg opts ≡ ok c → IsAccepted c
unfolding parse_arg
parse_arg-IsAccepted opts {c} e =
    let (c1, h, k) = >>=-eq-ok (parse_opts initial_config opts) _ e in
    let (valid, done) = >>-eq-ok (validate_mandatory_args c1) (ok c1) k in
    let same : c1 ≡ c = ok_eq done in
    let v : IsSafe c = parse_opts-IsSafe initial_config opts initial_config-IsSafe cc in
    let (mode, m) = by_mode c (cc) c.mode refl v.mode_is in
    record {
      mode = mode;
      mode_is = m.mode_is;
      safe = v;
      dump_has_pid = λ dumps. has_pid c.pid v.pid_is (m.dump_has_pid dumps);
      kill_is_dump = m.kill_is_dump;
      path_fits = build_snapshot_path-fits c v;
    }
