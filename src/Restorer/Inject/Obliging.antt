-- ===== src/Restorer/Inject/Obliging.antt =====
-- A kernel that refuses nothing, and the injected call under it.
use ksnap.Base.{ℕ, ◌≡◌, refl, false, some, length, Result, ok}
use ksnap.Base.Text.{Bytes}
use ksnap.Restorer.Process.{Regs, Tracer, syscall_failed}
use ksnap.Restorer.Inject.{RestoreError, Syscall, work_regs, with_syscall, or_same, inject_syscall}

-- Every call succeeds, a step that was waited for leaves no error in rax, and `pwrite` writes all.
pub record IsObliging (t : Tracer) : Type 0 where
  pub gets : (s : t.State) → (r : Regs) × (t.getregs s ≡ some r)
  pub sets : (r : Regs) (s : t.State) → (s' : t.State) × (t.setregs r s ≡ some s')
  pub sets_xstate : (x : Bytes) (s : t.State) → (s' : t.State) × (t.setxstate x s ≡ some s')
  pub peeks : (a : ℕ) (s : t.State) → (w : ℕ) × (t.peektext a s ≡ some w)
  pub pokes : (a w : ℕ) (s : t.State) → (s' : t.State) × (t.poketext a w s ≡ some s')
  pub steps :
      (s : t.State)
      → (s1 : t.State) × (s2 : t.State) × (r : Regs) × (t.singlestep s ≡ some s1)
        × (t.wait s1 ≡ some s2)
        × (t.getregs s2 ≡ some r)
        × (syscall_failed r.rax ≡ false)
  pub writes :
      (bs : Bytes) (a : ℕ) (s : t.State) → (s' : t.State) × (t.pwrite bs a s ≡ some (length bs, s'))

abbrev pub Succeeds : (t : Tracer) → Result RestoreError t.State → Type 0
Succeeds t r = (s' : t.State) × (r ≡ ok s')

module _ (t : Tracer) (o : IsObliging t) where
  pub inject_syscall-Succeeds :
      (c : Syscall) (s : t.State)
      → (result : ℕ) × (s' : t.State) × (inject_syscall t c s ≡ ok (result, s'))
        × (syscall_failed result ≡ false)
  unfolding inject_syscall
  inject_syscall-Succeeds c s =
      let (saved, h0) = o.gets s in
      let (s1, h1) = o.sets (work_regs saved c) s in
      let (code, h2) = o.peeks saved.rip s1 in
      let (s2, h3) = o.pokes saved.rip (with_syscall code) s1 in
      let (s3, s4, after, h4, h5, h6, fine) = o.steps s2 in
      let (s6, h7) = o.sets saved (or_same s4 (t.poketext saved.rip code s4)) in
      (after.rax, s6, rw (inject_syscall, h0, h1, h2, h3, h4, h5, h6, h7) refl, fine)
