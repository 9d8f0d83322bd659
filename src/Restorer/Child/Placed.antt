-- ===== src/Restorer/Child/Placed.antt =====
-- The descriptors that the child holds before its exec are those of the snapshot.
use ksnap.Base.{
  ◌≡◌, ◌≢◌, sym, ◌∙◌, inl, inr, none, List, [], ◌∷◌, All, arith, ok, >>=-eq-ok, ok-injective,
}
use mathlib.Core.Path.{subst}
use ksnap.Base.Int.{ℤ, pos, ◌≤ℤ◌, ◌<ℤ◌}
use ksnap.Base.Text.{Bytes}
use ksnap.Format.{FdDescriptor}
use ksnap.Restorer.FdTable.Spec.{IsFdTable}
use ksnap.Restorer.Child.{
  Table, Files, IsFiles, not_closed, or_exit, open_entry, open_entries, open_snapshot_fds,
}
use ksnap.Restorer.Child.Sought.{IsWanted, or_exit-eq-ok}
use ksnap.Restorer.Child.Effect.{Placed, Effect, lt_ne, open_entry-Effect}

-- No entry has this number.
abbrev Unnumbered : ℤ → List FdDescriptor → Type 0
Unnumbered m fds = All (λ (x : FdDescriptor). x.fd ≢ m) fds

-- An entry for a higher number leaves a descriptor in its place.
Placed-Effect :
    (pool : Bytes) (x e : FdDescriptor) (v v' : Table)
    → x.fd <ℤ e.fd
    → Effect pool e v v'
    → Placed pool v x
    → Placed pool v' x
Placed-Effect pool x e v v' below f (inl (own, id, at, wanted)) = inl (
  own,
  id,
  f.others x.fd (lt_ne x.fd e.fd below) ∙ at,
  subst (IsWanted pool x) (sym (f.files_kept x.fd id at)) wanted,
)
Placed-Effect pool x e v v' below f (inr (lower, id, at, at_original)) = inr (
  lower,
  id,
  f.others x.fd (lt_ne x.fd e.fd below) ∙ at,
  f.others x.dup_of (lt_ne x.dup_of e.fd (lt_trans x.dup_of x.fd e.fd lower below)) ∙ at_original,
)
  where
    lt_trans : (a b c : ℤ) → a <ℤ b → b <ℤ c → a <ℤ c
    lt_trans a b c h g = omega arith

All-Placed-Effect :
    (pool : Bytes) (earlier : List FdDescriptor) (e : FdDescriptor) (v v' : Table)
    → All (λ (x : FdDescriptor). x.fd <ℤ e.fd) earlier
    → Effect pool e v v'
    → All (Placed pool v) earlier
    → All (Placed pool v') earlier
All-Placed-Effect pool [] e v v' below f placed = tt
All-Placed-Effect pool (x ∷ earlier) e v v' (lower, below) f (p, placed) =
    (Placed-Effect pool x e v v' lower f p, All-Placed-Effect pool earlier e v v' below f placed)

-- The table of the child above the standard streams: every entry in its place, and nothing else.
pub record HoldsTable (pool : Bytes) (v : Table) (fds : List FdDescriptor) : Type 0 where
  pub placed : All (Placed pool v) fds
  pub no_more : (m : ℤ) → pos 3 ≤ℤ m → Unnumbered m fds → v.at m ≡ none

module _ (k : Files) (table : k.State → Table) (laws : IsFiles k table) where
  -- Behind the entries that remain, those before and those that remained are in place.
  record Both (pool : Bytes) (v : Table) (earlier fds : List FdDescriptor) : Type 0 where
    pub before : All (Placed pool v) earlier
    pub behind : All (Placed pool v) fds
    pub no_more : (m : ℤ) → pos 3 ≤ℤ m → Unnumbered m earlier → Unnumbered m fds → v.at m ≡ none

  open_entries-Both :
      (pool : Bytes) (earlier fds : List FdDescriptor) (s : k.State) {s' : k.State}
      → IsFdTable pool earlier fds
      → HoldsTable pool (table s) earlier
      → open_entries k pool fds s ≡ ok s'
      → Both pool (table s') earlier fds
  unfolding open_entries
  open_entries-Both pool earlier [] s {s'} valid held h =
      subst (λ u. Both pool (table u) earlier []) {x = s} {y = s'} (ok-injective h)
        (record {
          before = held.placed;
          behind = tt;
          no_more = λ m above out _. held.no_more m above out;
        })
  open_entries-Both pool earlier (e ∷ fds) s {s'} (valid, valids) held h =
      let (s1, h1, k1) = >>=-eq-ok (open_entry k pool e s) _ h in
      let f = open_entry-Effect k table laws pool earlier e s valid h1 in
      let b =
        open_entries-Both pool (e ∷ earlier) fds s1 {s' = s'} valids
          (record {
            placed = (
              f.placed,
              All-Placed-Effect pool earlier e (table s) (table s1) valid.ascending f held.placed,
            );
            no_more = λ m above (differs, outs).
                f.others m (λ same. differs (sym same)) ∙ held.no_more m above outs;
          })
          k1 in
      record {
        before = b.before.1;
        behind = (b.before.0, b.behind);
        no_more = λ m above out (differs, outs). b.no_more m above (differs, out) outs;
      }

  -- Under the documented laws of the calls, and for a table that the check of the snapshot accepts,
  -- open_snapshot_fds, if it succeeds, leaves each descriptor of the table in its place: open on the
  -- file of its path, with its flags but O_CLOEXEC and, unless it is an O_PATH descriptor, at its
  -- position, or, for a dup, on the very file of the lower descriptor it shares; no other descriptor
  -- from 3 on is open.
  pub open_snapshot_fds-HoldsTable :
      (fds : List FdDescriptor) (pool : Bytes) (s : k.State) {s' : k.State}
      → IsFdTable pool [] fds
      → open_snapshot_fds k fds pool s ≡ ok s'
      → HoldsTable pool (table s') fds
  unfolding open_snapshot_fds
  open_snapshot_fds-HoldsTable fds pool s valid h =
      let (s1, h1, k1) = >>=-eq-ok (or_exit not_closed (k.close_range s)) _ h in
      let closed = laws.close_range_closes s (or_exit-eq-ok not_closed (k.close_range s) h1) in
      let b =
        open_entries-Both pool [] fds s1 valid
          (record { placed = tt; no_more = λ m above _. closed m above }) k1 in
      record { placed = b.behind; no_more = λ m above out. b.no_more m above tt out }
