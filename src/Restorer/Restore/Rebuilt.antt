-- ===== src/Restorer/Restore/Rebuilt.antt =====
-- What a process holds that a restore released.
use mathlib.Core.Path.{subst}
use ksnap.Base.{ℕ, ◌≡◌, refl, sym, ◌∙◌, some, List, [], ◌∷◌, take, drop, All, ok, >>=-eq-ok}
use ksnap.Base.Text.{Bytes}
use ksnap.Format.{VmaDescriptor}
use ksnap.Dumper.Payload.{read_memory}
use ksnap.Dumper.Payload.Copy.{InAddressSpace}
use ksnap.Restorer.{Snapshot}
use ksnap.Restorer.Process.{Regs, View, Tracer, IsTracer, IsExecutable, IsUndisturbed}
use ksnap.Restorer.Rebuild.Site.{HoldsWhole}
use ksnap.Restorer.Process.Memory.{read_memory-ext}
use ksnap.Restorer.Inject.Calls.{or_error-eq-ok}
use ksnap.Restorer.Inject.{final_regs, final_xstate}
use ksnap.Restorer.KernelMaps.{restore_kernel_maps}
use ksnap.Restorer.Rebuild.{
  restore_vmas, restore_protections, restore_fd_flags, set_final_regs, set_final_xstate,
}
use ksnap.Restorer.Rebuild.Memory.{AreApart, Restored, restore_vmas-Restored}
use ksnap.Restorer.Rebuild.Rights.{Rights, own, all_rights}
use ksnap.Restorer.Rebuild.Protections.{restore_protections-All}
use ksnap.Restorer.Restore.{rebuild}

-- The memory of a mapping is its payload in the snapshot.
abbrev pub HasPayload : Bytes → View → VmaDescriptor → Type 0
HasPayload file w v =
    read_memory w.byte v.start_address v.size ≡ take v.size (drop v.data_offset file)

-- The process is the one of the snapshot: memory, protections, registers and extended state.
pub record IsRebuilt (regs_of : Bytes → Regs) (file : Bytes) (snapshot : Snapshot) (w : View)
    : Type 0 where
  pub memory : All (HasPayload file w) snapshot.vmas
  pub rights : All (Rights own w) snapshot.vmas
  pub regs : w.regs ≡ regs_of snapshot.header.regs
  pub xstate : w.xstate ≡ snapshot.xstate

Restored-all_rights :
    (file : Bytes) (w : View) (vmas : List VmaDescriptor)
    → All (Restored file w) vmas
    → All (Rights all_rights w) vmas
Restored-all_rights file w [] h = tt
Restored-all_rights file w (v ∷ vmas) ((_, rights), h) = (rights, Restored-all_rights file w vmas h)

Restored-HasPayload :
    (file : Bytes) (w w' : View) (vmas : List VmaDescriptor)
    → ((x : ℕ) → w'.byte x ≡ w.byte x)
    → All (Restored file w) vmas
    → All (HasPayload file w') vmas
Restored-HasPayload file w w' [] same h = tt
Restored-HasPayload file w w' (v ∷ vmas) same ((bytes, _), h) = (
  read_memory-ext w'.byte w.byte v.start_address v.size (λ x _ _. same x) ∙ bytes,
  Restored-HasPayload file w w' vmas same h,
)

-- The view does not depend on what the last two calls set.
Rights-prot :
    (w w' : View) (vmas : List VmaDescriptor)
    → ((x : ℕ) → w'.prot x ≡ w.prot x)
    → All (Rights own w) vmas
    → All (Rights own w') vmas
Rights-prot w w' [] same h = tt
Rights-prot w w' (v ∷ vmas) same (rights, h) =
    (λ x inside. same x ∙ rights x inside, Rights-prot w w' vmas same h)

-- Where the mappings begin to be laid, the instruction at the instruction pointer may be executed,
-- and a mapping of the snapshot with a byte of it on its pages has the whole of it.
pub record HasSite (t : Tracer) (view : t.State → View) (snapshot : Snapshot) (s : t.State)
    : Type 0 where
  pub executable :
      {s1 s2 : t.State}
      → restore_fd_flags t snapshot.fds s ≡ ok s1
      → restore_kernel_maps t snapshot.header s1 ≡ ok s2
      → IsExecutable (view s2)
  pub whole :
      {s1 s2 : t.State}
      → restore_fd_flags t snapshot.fds s ≡ ok s1
      → restore_kernel_maps t snapshot.header s1 ≡ ok s2
      → All (HoldsWhole (view s2).regs.rip) snapshot.vmas

-- The calls of a rebuilding that succeeded.
record Stages (t : Tracer) (regs_of : Bytes → Regs) (file : Bytes) (snapshot : Snapshot)
    (s s' : t.State) : Type 0 where
  pub s1 : t.State
  pub s2 : t.State
  pub s3 : t.State
  pub s4 : t.State
  pub s5 : t.State
  pub flags : restore_fd_flags t snapshot.fds s ≡ ok s1
  pub moves : restore_kernel_maps t snapshot.header s1 ≡ ok s2
  pub fills : restore_vmas t file snapshot.vmas s2 ≡ ok s3
  pub protects : restore_protections t snapshot.vmas s3 ≡ ok s4
  pub sets : t.setregs (regs_of snapshot.header.regs) s4 ≡ some s5
  pub ends : t.setxstate snapshot.xstate s5 ≡ some s'

rebuild-Stages :
    (t : Tracer) (regs_of : Bytes → Regs) (file : Bytes) (snapshot : Snapshot) (s : t.State)
    {s' : t.State}
    → rebuild t regs_of file snapshot s ≡ ok s'
    → Stages t regs_of file snapshot s s'
unfolding rebuild set_final_regs set_final_xstate
rebuild-Stages t regs_of file snapshot s {s'} h =
    let (s1, h1, k1) = >>=-eq-ok (restore_fd_flags t snapshot.fds s) _ h in
    let (s2, h2, k2) = >>=-eq-ok (restore_kernel_maps t snapshot.header s1) _ k1 in
    let (s3, h3, k3) = >>=-eq-ok (restore_vmas t file snapshot.vmas s2) _ k2 in
    let (s4, h4, k4) = >>=-eq-ok (restore_protections t snapshot.vmas s3) _ k3 in
    let (s5, h5, k5) = >>=-eq-ok (set_final_regs t (regs_of snapshot.header.regs) s4) _ k4 in
    record {
      s1 = s1;
      s2 = s2;
      s3 = s3;
      s4 = s4;
      s5 = s5;
      flags = h1;
      moves = h2;
      fills = h3;
      protects = h4;
      sets = or_error-eq-ok final_regs (t.setregs (regs_of snapshot.header.regs) s4) h5;
      ends = or_error-eq-ok final_xstate (t.setxstate snapshot.xstate s5) k5;
    }

module _ (t : Tracer) (view : t.State → View) (laws : IsTracer t view)
    (pokes : (a w : ℕ) (s : t.State) → (s' : t.State) × (t.poketext a w s ≡ some s'))
    (quiet : IsUndisturbed t view) where
  pub rebuild-IsRebuilt :
      (regs_of : Bytes → Regs) (file : Bytes) (snapshot : Snapshot) (s : t.State) {s' : t.State}
      → All InAddressSpace snapshot.vmas
      → AreApart snapshot.vmas
      → HasSite t view snapshot s
      → rebuild t regs_of file snapshot s ≡ ok s'
      → IsRebuilt regs_of file snapshot (view s')
  rebuild-IsRebuilt regs_of file snapshot s {s'} spaces apart site h =
      let g = rebuild-Stages t regs_of file snapshot s h in
      let (filled, filling, runs) =
        restore_vmas-Restored t view laws pokes quiet file snapshot.vmas g.s2 spaces apart
          (site.executable g.flags g.moves) g.fills in
      let whole =
        subst (λ (r : Regs). All (HoldsWhole r.rip) snapshot.vmas) (sym filling.regs_kept)
          (site.whole g.flags g.moves) in
      let (rights, kept) =
        restore_protections-All t view laws pokes quiet snapshot.vmas g.s3 apart runs whole
          (Restored-all_rights file (view g.s3) snapshot.vmas filled) g.protects in
      let set = laws.setregs_sets (regs_of snapshot.header.regs) g.s4 g.sets in
      let last = laws.setxstate_sets snapshot.xstate g.s5 g.ends in
      let bytes : (x : ℕ) → (view s').byte x ≡ (view g.s3).byte x =
        λ x. rw (last, set) (kept.bytes_kept x) in
      record {
        memory = Restored-HasPayload file (view g.s3) (view s') snapshot.vmas bytes filled;
        rights = Rights-prot (view g.s4) (view s') snapshot.vmas (λ x. rw (last, set) refl) rights;
        regs = rw (last, set) refl;
        xstate = rw last refl;
      }
