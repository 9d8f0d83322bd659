-- ===== src/Restorer/Restore/Works.antt =====
-- The rebuilding under a kernel that refuses nothing.
use Prim.Native.Nat.{bit_and, min}
use ksnap.Base.{
  ℕ, zero, suc, ◌+◌, ◌-◌, ◌^◌, ◌≤◌, ◌<◌, ◌≡◌, refl, ◌∙◌, inl, inr, Bool, true, false, not, ◌&&◌,
  some, List, [], ◌∷◌, length, take, drop, All, arith, ltb, ◌==◌, ok, Bool-cases,
}
use ksnap.Base.Text.{Bytes}
use ksnap.Base.Word.{add64}
use ksnap.Format.{VmaDescriptor, FdDescriptor}
use ksnap.Format.Codec.{get}
use ksnap.Restorer.{Snapshot, seek}
use ksnap.Restorer.Process.{Regs, Tracer}
use ksnap.Restorer.Inject.{mmap_call, mprotect_call, inject_mmap_syscall, inject_mprotect_syscall}
use ksnap.Restorer.Rebuild.{
  o_cloexec, rwx, holds_site, write_chunks, restore_vma, restore_vmas, protect, protect_others,
  protect_site, restore_protections, cloexec_call, set_cloexec, restore_fd_flags, set_final_regs,
  set_final_xstate,
}
use ksnap.Restorer.Restore.{rebuild}
use ksnap.Restorer.Inject.Obliging.{IsObliging, Succeeds, inject_syscall-Succeeds}
use ksnap.Restorer.KernelMaps.Works.{IsNamed, CanMove, restore_kernel_maps-Succeeds}

-- The payload of the mapping is in the file, at an offset that `fseek` takes.
abbrev pub HasData : Bytes → VmaDescriptor → Type 0
HasData file v = (v.data_offset < 2 ^ 63) × (v.data_offset + v.size ≤ length file)

get-works :
    (n : ℕ) (bs : Bytes)
    → n ≤ length bs
    → (front : Bytes) × (rest : Bytes) × (get n bs ≡ some (front, rest))
      × (length front ≡ n)
      × (length rest ≡ length bs - n)
unfolding get
get-works zero bs h = ([], bs, refl, refl, omega arith)
get-works (suc n) [] h = absurd (omega arith)
get-works (suc n) (b ∷ bs) h =
    let (front, rest, is, long, left) = get-works n bs (omega arith) in
    (b ∷ front, rest, rw is refl, omega (arith, long), omega (arith, left))

length-drop : (n : ℕ) (bs : Bytes) → length (drop n bs) ≡ length bs - n
length-drop zero bs = omega arith
length-drop (suc n) [] = omega arith
length-drop (suc n) (b ∷ bs) = length-drop n bs ∙ omega arith

module _ (t : Tracer) (o : IsObliging t) where
  inject_mmap_syscall-Succeeds :
      (v : VmaDescriptor) (s : t.State) → Succeeds t (inject_mmap_syscall t v s)
  unfolding inject_mmap_syscall
  inject_mmap_syscall-Succeeds v s =
      let (result, s', is, fine) = inject_syscall-Succeeds t o (mmap_call v) s in
      (s', rw (inject_mmap_syscall, is, fine) refl)

  inject_mprotect_syscall-Succeeds :
      (v : VmaDescriptor) (s : t.State) → Succeeds t (inject_mprotect_syscall t v s)
  unfolding inject_mprotect_syscall
  inject_mprotect_syscall-Succeeds v s =
      let (result, s', is, fine) = inject_syscall-Succeeds t o (mprotect_call v) s in
      (s', rw (inject_mprotect_syscall, is, fine) refl)

  write_chunks-Succeeds :
      (v : VmaDescriptor) (rounds curr : ℕ) (rest : Bytes) (s : t.State)
      → v.size - curr ≤ length rest
      → Succeeds t (write_chunks t v rounds curr rest s)
  unfolding write_chunks
  write_chunks-Succeeds v zero curr rest s enough = (s, refl)
  write_chunks-Succeeds v (suc rounds) curr rest s enough = elim (Bool-cases (ltb curr v.size)) [
    | inl less ↦
        let now = min (v.size - curr) 4096 in
        let (chunk, more, is, long, left) = get-works now rest (omega arith) in
        let (s1, h1) = o.writes chunk (add64 v.start_address curr) s in
        let (s', h2) = write_chunks-Succeeds v rounds (curr + now) more s1 (omega (arith, left)) in
        (s', rw (write_chunks, less, is, h1, same_count (length chunk) now long, h2) refl)
    | inr done ↦ (s, rw (write_chunks, done) refl)
  ]
    where
      same_count : (a b : ℕ) → a ≡ b → (a == b) ≡ true
      same_count a b h = ground (arith, h)

  restore_vma-Succeeds :
      (file : Bytes) (v : VmaDescriptor) (s : t.State)
      → HasData file v
      → Succeeds t (restore_vma t file v s)
  unfolding restore_vma
  restore_vma-Succeeds file v s (low, inside) =
      let (s1, h1) = inject_mmap_syscall-Succeeds v s in
      let found : seek file v.data_offset ≡ some (drop v.data_offset file) = ground (arith, low) in
      let (s', h2) =
        write_chunks-Succeeds v v.size 0 (drop v.data_offset file) s1
          (omega (arith, length-drop v.data_offset file)) in
      (s', rw (restore_vma, h1, found, h2) refl)

  restore_vmas-Succeeds :
      (file : Bytes) (vmas : List VmaDescriptor) (s : t.State)
      → All (HasData file) vmas
      → Succeeds t (restore_vmas t file vmas s)
  unfolding restore_vmas
  restore_vmas-Succeeds file [] s all = (s, refl)
  restore_vmas-Succeeds file (v ∷ vmas) s (data_in, all) =
      let (s1, h1) = restore_vma-Succeeds file v s data_in in
      let (s', h2) = restore_vmas-Succeeds file vmas s1 all in (s', rw (restore_vmas, h1, h2) refl)

  protect-Succeeds : (v : VmaDescriptor) (s : t.State) → Succeeds t (protect t v s)
  unfolding protect
  protect-Succeeds v s = elim (Bool-cases (v.prot == rwx)) [
    | inl same ↦ (s, rw (protect, same) refl)
    | inr other ↦
        let (s', is) = inject_mprotect_syscall-Succeeds v s in (s', rw (protect, other, is) refl)
  ]

  protect_others-Succeeds :
      (rip : ℕ) (found : Bool) (vmas : List VmaDescriptor) (s : t.State)
      → Succeeds t (protect_others t rip found vmas s)
  unfolding protect_others
  protect_others-Succeeds rip found [] s = (s, refl)
  protect_others-Succeeds rip found (v ∷ vmas) s =
      elim (Bool-cases (not found && holds_site rip v)) [
        | inl here ↦
            let (s', is) = protect_others-Succeeds rip true vmas s in
            (s', rw (protect_others, here, is) refl)
        | inr elsewhere ↦
            let (s1, h1) = protect-Succeeds v s in
            let (s', h2) = protect_others-Succeeds rip found vmas s1 in
            (s', rw (protect_others, elsewhere, h1, h2) refl)
      ]

  protect_site-Succeeds :
      (rip : ℕ) (vmas : List VmaDescriptor) (s : t.State) → Succeeds t (protect_site t rip vmas s)
  unfolding protect_site
  protect_site-Succeeds rip [] s = (s, refl)
  protect_site-Succeeds rip (v ∷ vmas) s = elim (Bool-cases (holds_site rip v)) [
    | inl here ↦ let (s', is) = protect-Succeeds v s in (s', rw (protect_site, here, is) refl)
    | inr elsewhere ↦
        let (s', is) = protect_site-Succeeds rip vmas s in
        (s', rw (protect_site, elsewhere, is) refl)
  ]

  restore_protections-Succeeds :
      (vmas : List VmaDescriptor) (s : t.State) → Succeeds t (restore_protections t vmas s)
  unfolding restore_protections
  restore_protections-Succeeds vmas s =
      let (regs, h0) = o.gets s in
      let (s1, h1) = protect_others-Succeeds regs.rip false vmas s in
      let (s', h2) = protect_site-Succeeds regs.rip vmas s1 in
      (s', rw (restore_protections, h0, h1, h2) refl)

  set_cloexec-Succeeds : (e : FdDescriptor) (s : t.State) → Succeeds t (set_cloexec t e s)
  unfolding set_cloexec
  set_cloexec-Succeeds e s =
      let (result, s', is, fine) = inject_syscall-Succeeds t o (cloexec_call e) s in
      (s', rw (set_cloexec, is, fine) refl)

  restore_fd_flags-Succeeds :
      (fds : List FdDescriptor) (s : t.State) → Succeeds t (restore_fd_flags t fds s)
  unfolding restore_fd_flags
  restore_fd_flags-Succeeds [] s = (s, refl)
  restore_fd_flags-Succeeds (e ∷ fds) s = elim (Bool-cases (bit_and e.flags o_cloexec == 0)) [
    | inl unset ↦
        let (s', is) = restore_fd_flags-Succeeds fds s in
        (s', rw (restore_fd_flags, unset, is) refl)
    | inr set ↦
        let (s1, h1) = set_cloexec-Succeeds e s in
        let (s', h2) = restore_fd_flags-Succeeds fds s1 in
        (s', rw (restore_fd_flags, set, h1, h2) refl)
  ]

  -- Under a kernel that refuses no call of the restore: where the process has, at any time, a
  -- mapping under each name of a kernel mapping of the snapshot, where behind the flags of the
  -- descriptors these have the sizes of the snapshot and pass the overlap test, and where the file
  -- holds the payload of every mapping, the rebuilding of the process succeeds.
  pub rebuild-Succeeds :
      (regs_of : Bytes → Regs) (file : Bytes) (snapshot : Snapshot) (s : t.State)
      → ((u : t.State)
          → All (IsNamed t u) (take snapshot.header.kernel_map_count snapshot.header.kernel_maps))
      → ((s1 : t.State) → restore_fd_flags t snapshot.fds s ≡ ok s1 → CanMove t snapshot.header s1)
      → All (HasData file) snapshot.vmas
      → (s' : t.State) × (rebuild t regs_of file snapshot s ≡ ok s')
  unfolding rebuild set_final_regs set_final_xstate
  rebuild-Succeeds regs_of file snapshot s named can_move all =
      let (s1, h1) = restore_fd_flags-Succeeds snapshot.fds s in
      let (s2, h2) = restore_kernel_maps-Succeeds t o snapshot.header s1 (can_move s1 h1) named in
      let (s3, h3) = restore_vmas-Succeeds file snapshot.vmas s2 all in
      let (s4, h4) = restore_protections-Succeeds snapshot.vmas s3 in
      let (s5, h5) = o.sets (regs_of snapshot.header.regs) s4 in
      let (s', h6) = o.sets_xstate snapshot.xstate s5 in
      (s', rw (rebuild, h1, h2, h3, h4, h5, h6) refl)
