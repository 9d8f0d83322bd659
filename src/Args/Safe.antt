-- ===== src/Args/Safe.antt =====
-- What every accepted option leaves true of the configuration.
use ksnap.Base.{
  ℕ, zero, suc, ◌+◌, ◌-◌, ◌*◌, ◌^◌, ◌≤◌, ◌<◌, ◌≡◌, refl, ◌≢◌, ◌⊎◌, inr, true, false, Option, none,
  some, List, [], ◌∷◌, length, arith, Result, ok, >>=-eq-ok, >>-eq-ok,
}
use ksnap.Base.Int.{ℤ, pos, minus_one}
use ksnap.Base.Text.{Bytes, codes, same_text_iff, contains}
use ksnap.Format.{path_max}
use ksnap.Args.{
  Mode, mode_to_string, Config, Opt, mode_opt, pid_opt, name_opt, dir_opt, help_opt, kill_opt,
  other_opt, Stop, name_max, validate_mode, all_digits, validate_pid, atoi_from, validate_name,
  validate_dir, parse_opt, parse_opts,
}

-- A number that `-p` gave, or none.
abbrev pub IsPid : ℤ → Type 0
IsPid p = (p ≡ minus_one) ⊎ ((n : ℕ) × (p ≡ pos n) × (n < 10 ^ 7))

-- A single file in the directory.
abbrev pub IsName : Option Bytes → Type 0
IsName none = Unit
IsName (some s) =
    (1 ≤ length s)
    × (length s ≤ name_max)
    × (contains s b'/' ≡ false)
    × (s ≢ codes ".")
    × (s ≢ codes "..")

abbrev pub IsDir : Option Bytes → Type 0
IsDir none = Unit
IsDir (some s) = (1 ≤ length s) × (length s ≤ path_max - name_max - 2)

abbrev pub IsMode : Option Bytes → Type 0
IsMode none = Unit
IsMode (some s) = (mode : Mode) × (s ≡ mode_to_string mode)

-- What every option keeps.
pub record IsSafe (c : Config) : Type 0 where
  pub mode_is : IsMode c.mode
  pub pid_is : IsPid c.pid
  pub name_is : IsName c.file_name
  pub dir_is : IsDir c.output_dir

pub ok_eq : {a b : Config} → Path (Result Stop Config) (ok a) (ok b) → a ≡ b
ok_eq e = cc

validate_name-IsName : (s : Bytes) → validate_name s ≡ ok tt → IsName (some s)
unfolding validate_name
validate_name-IsName s e =
    let dot = same_text_iff s (codes ".") in
    let dots = same_text_iff s (codes "..") in
    (
      ground arith,
      ground arith,
      ground arith,
      λ h. ground (arith, dot.1),
      λ h. ground (arith, dots.1),
    )

validate_dir-IsDir : (s : Bytes) → validate_dir s ≡ ok tt → IsDir (some s)
unfolding validate_dir
validate_dir-IsDir s e = (ground arith, ground arith)

-- `p` with `k` digits behind it.
shifted : ℕ → ℕ → ℕ
shifted zero p = p
shifted (suc k) p = shifted k (p * 10)

shifted-le : (k j p q : ℕ) → k ≤ j → p ≤ q → shifted k p ≤ shifted j q
unfolding shifted
shifted-le zero zero p q h h' = h'
shifted-le zero (suc j) p q h h' = shifted-le zero j p (q * 10) (omega arith) (omega arith)
shifted-le (suc k) zero p q h h' = omega arith
shifted-le (suc k) (suc j) p q h h' = shifted-le k j (p * 10) (q * 10) (omega arith) (omega arith)

atoi_from-lt :
    (n p : ℕ) (s : Bytes) → all_digits s ≡ true → n < p → atoi_from n s < shifted (length s) p
unfolding all_digits atoi_from shifted
atoi_from-lt n p [] d h = h
atoi_from-lt n p (c ∷ s) d h =
    atoi_from-lt (n * 10 + (c - b'0')) (p * 10) s (ground arith) (ground arith)

validate_pid-IsPid : (s : Bytes) → validate_pid s ≡ ok tt → IsPid (pos (atoi_from 0 s))
unfolding validate_pid shifted
validate_pid-IsPid s e =
    let d : all_digits s ≡ true = ground arith in
    let short : length s ≤ 7 = ground arith in
    inr (
      atoi_from 0 s,
      refl,
      omega (
        arith,
        atoi_from-lt 0 1 s d (omega arith),
        shifted-le (length s) 7 1 1 short (omega arith),
      ),
    )

-- An option that is accepted keeps what is safe, and changes nothing but its own field.
parse_opt-IsSafe :
    (c : Config) (o : Opt) {c' : Config} → IsSafe c → parse_opt c o ≡ ok c' → IsSafe c'
unfolding parse_opt
parse_opt-IsSafe c (mode_opt s) v e =
    let (mode, h, k) = >>=-eq-ok (validate_mode s) _ e in
    rw (← ok_eq k)
      (record { mode_is = (mode, refl); pid_is = v.pid_is; name_is = v.name_is; dir_is = v.dir_is })
parse_opt-IsSafe c (pid_opt s) v e =
    let (h, k) = >>-eq-ok (validate_pid s) _ e in
    rw (← ok_eq k) (record {
      mode_is = v.mode_is;
      pid_is = validate_pid-IsPid s h;
      name_is = v.name_is;
      dir_is = v.dir_is;
    })
parse_opt-IsSafe c (name_opt s) v e =
    let (h, k) = >>-eq-ok (validate_name s) _ e in
    rw (← ok_eq k) (record {
      mode_is = v.mode_is;
      pid_is = v.pid_is;
      name_is = validate_name-IsName s h;
      dir_is = v.dir_is;
    })
parse_opt-IsSafe c (dir_opt s) v e =
    let (h, k) = >>-eq-ok (validate_dir s) _ e in
    rw (← ok_eq k) (record {
      mode_is = v.mode_is;
      pid_is = v.pid_is;
      name_is = v.name_is;
      dir_is = validate_dir-IsDir s h;
    })
parse_opt-IsSafe c help_opt v e = cc
parse_opt-IsSafe c kill_opt v e =
    rw (← ok_eq e)
      (record { mode_is = v.mode_is; pid_is = v.pid_is; name_is = v.name_is; dir_is = v.dir_is })
parse_opt-IsSafe c other_opt v e = cc

pub parse_opts-IsSafe :
    (c : Config) (opts : List Opt) {c' : Config} → IsSafe c → parse_opts c opts ≡ ok c' → IsSafe c'
unfolding parse_opts
parse_opts-IsSafe c [] v e = rw (← ok_eq e) v
parse_opts-IsSafe c (o ∷ opts) v e =
    let (c1, h, k) = >>=-eq-ok (parse_opt c o) (λ u. parse_opts u opts) e in
    parse_opts-IsSafe c1 opts (parse_opt-IsSafe c o v h) k
