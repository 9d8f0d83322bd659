-- ===== src/Dumper/Dump/Collected.antt =====
-- What each step of `collect_parts` gives where it succeeds.
use mathlib.Core.Path.{subst}
use ksnap.Base.{
  ℕ, ◌+◌, ◌^◌, ◌≤◌, ◌<◌, ◌≡◌, refl, ap, ◌∙◌, inl, inr, Bool, if◌then◌else◌, ltb, some, List, [],
  ◌∷◌, length, All, arith, Result, ok, err, ok-injective, >>=-eq-ok, Option-cases,
}
use ksnap.Base.Text.{Bytes}
use ksnap.Format.{FdDescriptor, VmaDescriptor, xstate_min_size, xstate_max_size}
use ksnap.Format.Structs.{fd_codec}
use ksnap.Maps.{MapsFile, not_opened, opened}
use ksnap.Dumper.Errors.{CollectError}
use ksnap.Dumper.Pool.{PathPool}
use ksnap.Dumper.Pool.Laws.{IsPool}
use ksnap.Dumper.Vmas.{VmaTable, collect_vmas}
use ksnap.Dumper.Vmas.Ranges.{Range, ranges}
use ksnap.Dumper.Fds.{FdTable, find_shared_files, collect_names, collect_fds}
use ksnap.Dumper.Fds.Gathered.{collect_names-IsGathered, length-collect_names}
use ksnap.Dumper.Fds.Ordered.{gathered-IsFdTable}
use ksnap.Dumper.Dump.{Target, read_regs, read_xstate, read_exe_path, of_collect}
use ksnap.Restorer.FdTable.Spec.{IsFdTable}
use ksnap.Restorer.Process.{page_up}
use ksnap.Restorer.Rebuild.Memory.{Apart, AreApart}
use ksnap.Dumper.Dump.Documented.{InOrder, IsDocumented}

pub read_regs-eq-ok : (t : Target) {b : Bytes} → read_regs t ≡ ok b → t.regs ≡ some b
unfolding read_regs
read_regs-eq-ok t {b} e = elim (Option-cases t.regs) [
  | inl is ↦ ground (arith, e, is)
  | inr (regs, is) ↦ let same : regs ≡ b = ground (arith, e, is) in is ∙ ap some same
]

pub read_exe_path-eq-ok :
    (t : Target) {b : Bytes} → read_exe_path t ≡ ok b → (t.exe ≡ some b) × (1 ≤ length b)
unfolding read_exe_path
read_exe_path-eq-ok t {b} e = elim (Option-cases t.exe) [
  | inl is ↦ ground (arith, e, is)
  | inr (path, is) ↦
      let same : path ≡ b = ground (arith, e, is) in
      (is ∙ ap some same, ground (arith, e, is, same))
]

pub read_xstate-eq-ok :
    (t : Target) {b : Bytes}
    → read_xstate t ≡ ok b
    → (xstate_min_size ≤ length b) × (length b < xstate_max_size)
unfolding read_xstate
read_xstate-eq-ok t {b} e = elim (Option-cases t.xstate) [
  | inl is ↦ ground (arith, e, is)
  | inr (area, is) ↦ let same : area ≡ b = ground (arith, e, is) in ground (arith, e, is, same)
]

pub of_collect-eq-ok :
    {A : Type 0} (r : Result CollectError A) {a : A} → of_collect r ≡ ok a → r ≡ ok a
of_collect-eq-ok (err e) h = cc
of_collect-eq-ok (ok b) h = cc

-- Only a maps file that was opened gives mappings.
pub collect_vmas-opened :
    (alloc : ℕ → Bool) (file : MapsFile) (pool : PathPool) {table : VmaTable}
    → collect_vmas alloc file pool ≡ ok table
    → (lines : List Bytes) × (failed : Bool) × (file ≡ opened lines failed)
unfolding collect_vmas
collect_vmas-opened alloc (not_opened e) pool h = cc
collect_vmas-opened alloc (opened lines failed) pool h = (lines, failed, refl)

InOrder-All :
    (v : VmaDescriptor) (vmas : List VmaDescriptor)
    → All (λ (s : Range). v.start_address + page_up v.size ≤ s.0) (ranges vmas)
    → All (Apart v) vmas
InOrder-All v [] h = tt
InOrder-All v (w ∷ vmas) h = (inl h.0, InOrder-All v vmas h.1)

pub InOrder-AreApart : (vmas : List VmaDescriptor) → InOrder (ranges vmas) → AreApart vmas
InOrder-AreApart [] h = tt
InOrder-AreApart (v ∷ vmas) h = (InOrder-All v vmas h.0, InOrder-AreApart vmas h.1)

-- What the descriptors come to.
pub record IsFds (fds : List FdDescriptor) (pool : PathPool) : Type 0 where
  pub valid : IsFdTable pool.content [] fds
  pub fit : All fd_codec.Fits fds
  pub count32 : length fds < 2 ^ 32
  pub pool_valid : IsPool pool

pub collect_fds-IsFds :
    (t : Target)
    → IsDocumented t
    → (pool : PathPool) {fds : List FdDescriptor} {pool' : PathPool} → IsPool pool
    → collect_fds t.alloc t.qsort t.directory pool ≡ ok (fds, pool')
    → IsFds fds pool'
unfolding collect_fds
collect_fds-IsFds t doc pool {fds} {pool'} v e = elim (Option-cases t.directory.names) [
  | inl is ↦ ground (arith, e, is)
  | inr (names, is) ↦
      let start : FdTable = record { fds = []; capacity = 0; pool = pool } in
      let finish : FdTable → Result CollectError (List FdDescriptor × PathPool) = λ u. ok (
        find_shared_files t.directory.kcmp u.pool.content []
            (if ltb 1 (length u.fds) then t.qsort u.fds else u.fds),
        u.pool,
      ) in
      let (u, h, k) =
        >>=-eq-ok (collect_names t.alloc t.qsort t.directory start names) finish
          {out = (fds, pool')} (ground (arith, is, e)) in
      let listing = doc.fd_directory.listing is in
      let g =
        collect_names-IsGathered t.alloc t.qsort t.directory doc.fd_directory names start
          listing.numbers31 listing.distinct
          (record { entries = tt; pool = v; distinct = tt; unlisted = tt }) h in
      let (valid, fit, same_length) =
        gathered-IsFdTable t.qsort doc.sorts t.directory.kcmp u.pool.content u.fds g.entries
          g.distinct in
      let few = length-collect_names t.alloc t.qsort t.directory names start h in
      subst (λ r. IsFds r.0 r.1) (ok-injective k)
        (record {
          valid = valid;
          fit = fit;
          count32 = omega (arith, same_length, few, listing.count32);
          pool_valid = g.pool;
        })
]
