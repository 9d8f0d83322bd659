-- ===== src/Restorer/Restore/Released.antt =====
-- The way of a restore that succeeds, and the process that it releases.
use mathlib.Core.Option.{some-injective}
use ksnap.Base.{
  ℕ, ◌≡◌, refl, ap, sym, ◌∙◌, ◌⊎◌, inl, inr, Bool, true, false, Option, some, All, arith, Result,
  ok, err, ok-injective, Option-cases, Result-cases,
}
use ksnap.Base.Text.{Bytes}
use ksnap.Args.{Config, build_snapshot_path}
use ksnap.Dumper.Payload.Copy.{InAddressSpace}
use ksnap.Restorer.{Snapshot}
use ksnap.Restorer.Metadata.{read_snapshot_metadata}
use ksnap.Restorer.Process.{View, Tracer, IsTracer, IsUndisturbed}
use ksnap.Restorer.Inject.{RestoreError}
use ksnap.Restorer.Rebuild.Memory.{AreApart}
use ksnap.Restorer.Restore.{
  Found, stopped, exited, signalled, still_running, Host, rebuild, conclude, restore_child,
  restore_snapshot, restorer,
}
use ksnap.Restorer.Restore.Rebuilt.{HasSite, IsRebuilt, rebuild-IsRebuilt}

-- How a restore that succeeded went.
pub record Released (t : Tracer) (h : Host t) (left : Option t.State) : Type 0 where
  pub file : Bytes
  pub snapshot : Snapshot
  pub s0 : t.State
  pub s' : t.State
  pub opens : h.file ≡ some file
  pub reads : read_snapshot_metadata h.alloc h.stats file ≡ ok snapshot
  pub stops : h.found ≡ stopped s0
  pub rebuilds : rebuild t h.regs_of file snapshot s0 ≡ ok s'
  pub leaves : left ≡ some s'

Found-cases :
    {A : Type 0} (f : Found A)
    → ((a : A) × (f ≡ stopped a)) ⊎ (f ≡ exited) ⊎ (f ≡ signalled) ⊎ (f ≡ still_running)
Found-cases (stopped a) = inl (a, refl)
Found-cases exited = inr (inl refl)
Found-cases signalled = inr (inr (inl refl))
Found-cases still_running = inr (inr (inr refl))

conclude-Released :
    (t : Tracer) (h : Host t) (b : Bool) (rebuilt : Result RestoreError t.State)
    → (conclude t h b rebuilt).status ≡ true
    → (s' : t.State) × (rebuilt ≡ ok s') × ((conclude t h b rebuilt).left ≡ some s')
conclude-Released t h true (ok s) done = (s, refl, refl)
conclude-Released t h true (err e) done = cc
conclude-Released t h false rebuilt done = cc

pub restorer-Released :
    (t : Tracer) (c : Config) (h : Host t)
    → (restorer t c h).status ≡ true
    → Released t h (restorer t c h).left
unfolding restorer restore_snapshot restore_child
restorer-Released t c h done = elim (Option-cases (build_snapshot_path c)) [
  | inl no_path ↦ absurd (ground (arith, no_path))
  | inr (path, is_path) ↦ elim (Option-cases h.file) [
    | inl no_file ↦ absurd (ground (arith, is_path, no_file))
    | inr (file, is_file) ↦ elim (Result-cases (read_snapshot_metadata h.alloc h.stats file)) [
      | inl (e, refused) ↦ absurd (ground (arith, is_path, is_file, refused))
      | inr (snapshot, accepted) ↦ elim (Found-cases h.found) [
        | inl (s0, is_stopped) ↦
            let (s', works, left) =
              conclude-Released t h h.opens_mem (rebuild t h.regs_of file snapshot s0)
                (ground (arith, done, is_path, is_file, accepted, is_stopped)) in
            record {
              file = file;
              snapshot = snapshot;
              s0 = s0;
              s' = s';
              opens = is_file;
              reads = accepted;
              stops = is_stopped;
              rebuilds = works;
              leaves = ground (arith, done, is_path, is_file, accepted, is_stopped, left);
            }
        | inr (inl ended) ↦ absurd (ground (arith, is_path, is_file, accepted, ended))
        | inr (inr (inl ended)) ↦ absurd (ground (arith, is_path, is_file, accepted, ended))
        | inr (inr (inr running)) ↦ absurd (ground (arith, is_path, is_file, accepted, running))
      ]
    ]
  ]
]

module _ (t : Tracer) (view : t.State → View) (laws : IsTracer t view)
    (pokes : (a w : ℕ) (s : t.State) → (s' : t.State) × (t.poketext a w s ≡ some s'))
    (quiet : IsUndisturbed t view) where
  -- Under the documented laws of the kernel, where every PTRACE_POKETEXT succeeds, no signal ends a
  -- step, the snapshot is accepted, its mappings share no page and end in the address space, and,
  -- where these begin to be laid, the instruction at the instruction pointer may be executed and a
  -- mapping with a byte of it on its pages has the whole of it: a restore that succeeds releases a
  -- process whose memory and protections are, on each mapping, those of the snapshot, and whose
  -- registers and extended state are those of the snapshot.
  pub restorer-IsRebuilt :
      (c : Config) (h : Host t) {file : Bytes} {snapshot : Snapshot}
      → h.file ≡ some file
      → read_snapshot_metadata h.alloc h.stats file ≡ ok snapshot
      → All InAddressSpace snapshot.vmas
      → AreApart snapshot.vmas
      → ((s : t.State) → h.found ≡ stopped s → HasSite t view snapshot s)
      → (restorer t c h).status ≡ true
      → (s' : t.State) × ((restorer t c h).left ≡ some s')
        × IsRebuilt h.regs_of file snapshot (view s')
  restorer-IsRebuilt c h {file} {snapshot} is_file accepted spaces apart site done =
      let r = restorer-Released t c h done in
      let same_file : r.file ≡ file = some-injective r.file file (sym r.opens ∙ is_file) in
      let same : r.snapshot ≡ snapshot =
        ok-injective
          (sym r.reads ∙ ap (read_snapshot_metadata h.alloc h.stats) same_file ∙ accepted) in
      (
        r.s',
        r.leaves,
        rebuild-IsRebuilt t view laws pokes quiet h.regs_of file snapshot r.s0 spaces apart
            (site r.s0 r.stops) (rw (← same_file, ← same) r.rebuilds),
      )
