-- ===== src/Restorer/FdTable/Spec.antt =====
-- What a table of descriptors has to be, and that `check_fds` accepts such tables and no others.
use Prim.Native.Nat.{bit_and}
use ksnap.Base.{
  ℕ, zero, suc, ◌+◌, ◌≤◌, ◌<◌, ◌≡◌, refl, ◌≢◌, ◌⊎◌, ◌↔◌, true, false, List, [], ◌∷◌, length, drop,
  take, get_or, All, arith, ok,
}
use ksnap.Base.Int.{ℤ, pos, minus_one, ◌≤ℤ◌, ◌<ℤ◌, eqb_ℤ_iff}
use ksnap.Base.Text.{Bytes, contains}
use ksnap.Format.{FdDescriptor, path_max}
use ksnap.Restorer.FdTable.{
  fd_forbidden_flags, bsearch_fd, not_above, path_in_pool, path_well_formed, check_fd, check_fds,
}

-- Some entry has this number.
abbrev pub Numbered : ℤ → List FdDescriptor → Type 0
Numbered key [] = ⊥
Numbered key (e ∷ fds) = (e.fd ≡ key) ⊎ Numbered key fds

-- The `len` bytes at `offset` are a string with no terminator inside, and one behind it.
pub record PathAt (pool : Bytes) (offset len : ℕ) : Type 0 where
  pub terminated : get_or (drop offset pool) len 0 ≡ 0
  pub no_terminator : All (λ (c : ℕ). c ≢ 0) (take len (drop offset pool))

pub record IsFdEntry (pool : Bytes) (earlier : List FdDescriptor) (e : FdDescriptor) : Type 0 where
  pub above_stdio : pos 3 ≤ℤ e.fd
  pub ascending : All (λ (x : FdDescriptor). x.fd <ℤ e.fd) earlier
  pub shares : (e.dup_of ≡ minus_one) ⊎ Numbered e.dup_of earlier
  pub creates_nothing : bit_and e.flags fd_forbidden_flags ≡ 0
  pub path_some : 1 ≤ e.path_len
  pub path_short : e.path_len < path_max
  pub path_inside : e.path_offset + e.path_len < length pool
  pub path_text : PathAt pool e.path_offset e.path_len

abbrev pub IsFdTable : Bytes → List FdDescriptor → List FdDescriptor → Type 0
IsFdTable pool earlier [] = Unit
IsFdTable pool earlier (e ∷ fds) = IsFdEntry pool earlier e × IsFdTable pool (e ∷ earlier) fds

bsearch_fd_iff : (key : ℤ) (l : List FdDescriptor) → (bsearch_fd key l ≡ true) ↔ Numbered key l
unfolding bsearch_fd
bsearch_fd_iff key [] = (λ h. cc, λ h. absurd h)
bsearch_fd_iff key (e ∷ l) =
    let (found, listed) = bsearch_fd_iff key l in
    (
      λ h. ground (arith, eqb_ℤ_iff e.fd key, found),
      λ h. ground (arith, eqb_ℤ_iff e.fd key, listed),
    )

contains_zero_iff : (s : Bytes) → (contains s 0 ≡ false) ↔ All (λ (c : ℕ). c ≢ 0) s
unfolding contains
contains_zero_iff [] = (λ h. tt, λ h. refl)
contains_zero_iff (zero ∷ s) = (λ h. cc, λ h. absurd (h.0 refl))
contains_zero_iff (suc c ∷ s) =
    let (none', all') = contains_zero_iff s in
    (λ h. ((λ e. omega arith), none' (ground arith)), λ h. ground (arith, all' h.1))

path_in_pool_iff :
    (e : FdDescriptor) (n : ℕ)
    → (path_in_pool e n ≡ true)
      ↔ ((1 ≤ e.path_len) × (e.path_len < path_max) × (e.path_offset + e.path_len < n))
unfolding path_in_pool
path_in_pool_iff e n = (λ h. ground arith, λ h. ground arith)

path_well_formed_iff :
    (e : FdDescriptor) (pool : Bytes)
    → (path_well_formed e pool ≡ true) ↔ PathAt pool e.path_offset e.path_len
unfolding path_well_formed
path_well_formed_iff e pool =
    let (some', all') = contains_zero_iff (take e.path_len (drop e.path_offset pool)) in
    (
      λ h. record { terminated = ground arith; no_terminator = some' (ground arith) },
      λ h. ground (arith, all' h.no_terminator, h.terminated),
    )

-- The entries before, latest first, are below the latest.
abbrev BelowHead : List FdDescriptor → Type 0
BelowHead [] = Unit
BelowHead (e ∷ l) = All (λ (x : FdDescriptor). x.fd <ℤ e.fd) l

All-below_trans :
    (a b : ℤ) (l : List FdDescriptor)
    → a <ℤ b
    → All (λ (x : FdDescriptor). x.fd <ℤ a) l
    → All (λ (x : FdDescriptor). x.fd <ℤ b) l
All-below_trans a b [] h t = tt
All-below_trans a b (x ∷ l) h (first, t) = (omega arith, All-below_trans a b l h t)

not_above-ascending :
    (e : FdDescriptor) (earlier : List FdDescriptor)
    → BelowHead earlier
    → not_above e earlier ≡ false
    → All (λ (x : FdDescriptor). x.fd <ℤ e.fd) earlier
unfolding not_above
not_above-ascending e [] b h = tt
not_above-ascending e (x ∷ l) b h =
    let below : x.fd <ℤ e.fd = ground arith in (below, All-below_trans x.fd e.fd l below b)

ascending-not_above :
    (e : FdDescriptor) (earlier : List FdDescriptor)
    → All (λ (x : FdDescriptor). x.fd <ℤ e.fd) earlier
    → not_above e earlier ≡ false
unfolding not_above
ascending-not_above e [] h = refl
ascending-not_above e (x ∷ l) h = ground arith

check_fd-IsFdEntry :
    (pool : Bytes) (earlier : List FdDescriptor) (e : FdDescriptor)
    → BelowHead earlier
    → check_fd pool earlier e ≡ ok tt
    → IsFdEntry pool earlier e
unfolding check_fd
check_fd-IsFdEntry pool earlier e b h =
    let inside = (path_in_pool_iff e (length pool)).0 (ground arith) in
    record {
      above_stdio = ground arith;
      ascending = not_above-ascending e earlier b (ground arith);
      shares =
          ground (arith, (eqb_ℤ_iff e.dup_of minus_one).0, (bsearch_fd_iff e.dup_of earlier).0);
      creates_nothing = ground arith;
      path_some = inside.0;
      path_short = inside.1;
      path_inside = inside.2;
      path_text = (path_well_formed_iff e pool).0 (ground arith);
    }

IsFdEntry-check_fd :
    (pool : Bytes) (earlier : List FdDescriptor) (e : FdDescriptor)
    → IsFdEntry pool earlier e
    → check_fd pool earlier e ≡ ok tt
unfolding check_fd
IsFdEntry-check_fd pool earlier e f = ground (
  arith,
  ascending-not_above e earlier f.ascending,
  (eqb_ℤ_iff e.dup_of minus_one).1,
  (bsearch_fd_iff e.dup_of earlier).1,
  (path_in_pool_iff e (length pool)).1 (f.path_some, f.path_short, f.path_inside),
  (path_well_formed_iff e pool).1 f.path_text,
)

check_fds-cons :
    (pool : Bytes) (earlier : List FdDescriptor) (e : FdDescriptor) (fds : List FdDescriptor)
    → check_fds pool earlier (e ∷ fds) ≡ ok tt
    → (check_fd pool earlier e ≡ ok tt) × (check_fds pool (e ∷ earlier) fds ≡ ok tt)
unfolding check_fds
check_fds-cons pool earlier e fds h = (ground arith, ground arith)

check_fds-IsFdTable_from :
    (pool : Bytes) (earlier fds : List FdDescriptor)
    → BelowHead earlier
    → check_fds pool earlier fds ≡ ok tt
    → IsFdTable pool earlier fds
unfolding check_fds
check_fds-IsFdTable_from pool earlier [] b h = tt
check_fds-IsFdTable_from pool earlier (e ∷ fds) b h =
    let (head, rest) = check_fds-cons pool earlier e fds h in
    let f = check_fd-IsFdEntry pool earlier e b head in
    (f, check_fds-IsFdTable_from pool (e ∷ earlier) fds f.ascending rest)

pub IsFdTable-check_fds :
    (pool : Bytes) (earlier fds : List FdDescriptor)
    → IsFdTable pool earlier fds
    → check_fds pool earlier fds ≡ ok tt
unfolding check_fds
IsFdTable-check_fds pool earlier [] t = refl
IsFdTable-check_fds pool earlier (e ∷ fds) (f, t) =
    rw (IsFdEntry-check_fd pool earlier e f, check_fds)
      (IsFdTable-check_fds pool (e ∷ earlier) fds t)

-- The table is accepted exactly if every descriptor is above the standard ones and above those
-- before it, shares the open file of none or of one before it, would create or truncate nothing,
-- and names a path of 1 to 4095 bytes that ends inside the pool.
pub check_fds_iff :
    (pool : Bytes) (fds : List FdDescriptor)
    → (check_fds pool [] fds ≡ ok tt) ↔ IsFdTable pool [] fds
check_fds_iff pool fds = (check_fds-IsFdTable_from pool [] fds tt, IsFdTable-check_fds pool [] fds)
