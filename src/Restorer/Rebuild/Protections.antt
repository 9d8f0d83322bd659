-- ===== src/Restorer/Rebuild/Protections.antt =====
-- `restore_protections`: each mapping gets its own protection, and nothing else changes.
use mathlib.Core.Path.{subst}
use ksnap.Base.{
  ℕ, ◌≡◌, ap, sym, ◌∙◌, ◌⊎◌, inl, inr, Bool, true, false, not, ◌&&◌, some, List, [], ◌∷◌, All,
  arith, ◌==◌, ==_iff, ok, >>=-eq-ok, guard->>-eq-ok, ok-injective, Bool-cases, not-eq-true,
}
use ksnap.Format.{VmaDescriptor}
use ksnap.Restorer.Process.{
  Regs, View, Tracer, IsTracer, syscall_failed, IsExecutable, IsUndisturbed,
}
use ksnap.Restorer.Inject.Calls.{or_error-eq-ok}
use ksnap.Restorer.Rebuild.Site.{
  Away, HoldsWhole, Cleared, Cleared-Away, site-Cleared, Away-IsExecutable,
}
use ksnap.Restorer.Inject.{
  RestoreError, regs_unreadable, mprotect_failed, or_error, work_regs, mprotect_call,
  inject_syscall, inject_mprotect_syscall,
}
use ksnap.Restorer.Inject.Transparent.{Ran, Ran-byte, Ran-HasRun, inject_syscall-Ran}
use ksnap.Restorer.Rebuild.{
  rwx, holds_site, protect, protect_others, protect_site, restore_protections,
}
use ksnap.Restorer.Rebuild.Memory.{AreApart}
use ksnap.Restorer.Rebuild.Rights.{
  Rights, own, all_rights, SameBut, SameBut-refl, SameBut-append, SameBut-more, SameBut-fewer,
  SameBut-twice, Rights-SameBut, All-Rights-SameBut,
}

-- What the loop over the others leaves: the first mapping that holds the site, unless it was found
-- before, has all rights still, and the others have their own.
abbrev ButSite : ℕ → Bool → View → List VmaDescriptor → Type 0
ButSite rip found w [] = Unit
ButSite rip found w (v ∷ vmas) =
    ((not found && holds_site rip v ≡ true) × Rights all_rights w v × ButSite rip true w vmas)
    ⊎ ((not found && holds_site rip v ≡ false) × Rights own w v × ButSite rip found w vmas)

ButSite-All :
    (rip : ℕ) (w : View) (vmas : List VmaDescriptor)
    → ButSite rip true w vmas
    → All (Rights own w) vmas
ButSite-All rip w [] b = tt
ButSite-All rip w (v ∷ vmas) (inl (h, _, _)) = cc
ButSite-All rip w (v ∷ vmas) (inr (h, rights, b)) = (rights, ButSite-All rip w vmas b)

module _ (t : Tracer) (view : t.State → View) (laws : IsTracer t view)
    (pokes : (a w : ℕ) (s : t.State) → (s' : t.State) × (t.poketext a w s ≡ some s'))
    (quiet : IsUndisturbed t view) where
  abbrev Protected : VmaDescriptor → t.State → t.State → Type 0
  Protected v s s' = Rights own (view s') v × SameBut (v ∷ []) (view s) (view s')

  Ran-Protected :
      (v : VmaDescriptor) (s : t.State) {result : ℕ} {s' : t.State}
      → IsExecutable (view s)
      → Ran t view (mprotect_call v) s s' result
      → syscall_failed result ≡ false
      → Protected v s s'
  unfolding work_regs
  Ran-Protected v s {result} {s'} runs r works =
      let start = ap (λ u. u.rdi) r.regs_in in
      let long = ap (λ u. u.rsi) r.regs_in in
      let number = ap (λ u. u.rax) r.regs_in in
      let done = ap syscall_failed (sym r.result_is) ∙ works in
      let changed =
        laws.mprotect_protects r.from r.stepped r.at_syscall number
          (Ran-HasRun t view (mprotect_call v) s s' quiet runs r) done in
      (
        λ x inside.
            r.prot_out x ∙ changed.inside x (rw (start, long) inside) ∙ ap (λ u. u.rdx) r.regs_in,
        record {
          regs_kept = r.regs_out;
          bytes_kept = λ x.
              Ran-byte t view (mprotect_call v) s s' r x
                (laws.mprotect_keeps r.from r.stepped r.at_syscall number x);
          prot_kept =
              λ x (out, _). r.prot_out x ∙ changed.outside x (rw (start, long) out) ∙ r.prot_in x;
        },
      )

  inject_mprotect_syscall-Protected :
      (v : VmaDescriptor) (s : t.State) {s' : t.State}
      → IsExecutable (view s)
      → inject_mprotect_syscall t v s ≡ ok s'
      → Protected v s s'
  unfolding inject_mprotect_syscall
  inject_mprotect_syscall-Protected v s {s'} runs h =
      let ((result, mid), h1, k1) = >>=-eq-ok (inject_syscall t (mprotect_call v) s) _ h in
      let (works, same) = guard->>-eq-ok (not (syscall_failed result)) mprotect_failed _ k1 in
      subst (Protected v s) (ok-injective same) (
        Ran-Protected v s runs (inject_syscall-Ran t view laws pokes (mprotect_call v) s h1)
          (not-eq-true works))

  protect-Protected :
      (v : VmaDescriptor) (s : t.State) {s' : t.State}
      → IsExecutable (view s)
      → Rights all_rights (view s) v
      → protect t v s ≡ ok s'
      → Protected v s s'
  unfolding protect
  protect-Protected v s {s'} runs rights h = elim (Bool-cases (v.prot == rwx)) [
    | inl same ↦
        let is = (==_iff v.prot rwx).0 same in
        subst (Protected v s) {x = s} {y = s'} (ok-injective {E = RestoreError} (ground (arith, h)))
          (λ x inside. rights x inside ∙ sym is, SameBut-refl (v ∷ []) (view s))
    | inr other ↦ inject_mprotect_syscall-Protected v s runs (ground (arith, h))
  ]

  protect_others-ButSite :
      (rip : ℕ) (found : Bool) (vmas : List VmaDescriptor) (s : t.State) {s' : t.State}
      → rip ≡ (view s).regs.rip
      → AreApart vmas
      → All (Cleared rip found) vmas
      → IsExecutable (view s)
      → All (Rights all_rights (view s)) vmas
      → protect_others t rip found vmas s ≡ ok s'
      → ButSite rip found (view s') vmas × SameBut vmas (view s) (view s') × IsExecutable (view s')
  unfolding protect_others
  protect_others-ButSite rip found [] s {s'} at apart clear runs rights h = (
    tt,
    subst (λ u. SameBut [] (view s) (view u)) {x = s} (ok-injective h) (SameBut-refl [] (view s)),
    subst (λ u. IsExecutable (view u)) {x = s} {y = s'} (ok-injective h) runs,
  )
  protect_others-ButSite rip found (v ∷ vmas) s {s'} at (apart, aparts) (away, clear) runs
        (mine, others) h =
      elim (Bool-cases (not found && holds_site rip v)) [
        | inl here ↦
            let (rest, kept, runs') =
              protect_others-ButSite rip true vmas s {s' = s'} at aparts
                (site-Cleared rip found v vmas here away apart) runs others (ground (arith, h)) in
            (
              inl (here, Rights-SameBut all_rights v vmas apart kept mine, rest),
              SameBut-more v vmas kept,
              runs',
            )
        | inr elsewhere ↦
            let (s1, h1, k1) =
              >>=-eq-ok (protect t v s) (λ u. protect_others t rip found vmas u) {out = s'}
                (ground (arith, h)) in
            let (done, kept) = protect-Protected v s runs mine h1 in
            let still =
              Away-IsExecutable v (view s) (view s1)
                (subst (λ r. Away r v) at (Cleared-Away rip found v away elsewhere)) kept runs in
            let at1 = at ∙ ap (λ (r : Regs). r.rip) (sym kept.regs_kept) in
            let (rest, kept', runs') =
              protect_others-ButSite rip found vmas s1 {s' = s'} at1 aparts clear still
                (All-Rights-SameBut all_rights v vmas apart kept others) k1 in
            (
              inr (elsewhere, Rights-SameBut own v vmas apart kept' done, rest),
              SameBut-append v vmas kept kept',
              runs',
            )
      ]

  protect_site-All :
      (rip : ℕ) (vmas : List VmaDescriptor) (s : t.State) {s' : t.State}
      → AreApart vmas
      → IsExecutable (view s)
      → ButSite rip false (view s) vmas
      → protect_site t rip vmas s ≡ ok s'
      → All (Rights own (view s')) vmas × SameBut vmas (view s) (view s')
  unfolding protect_site
  protect_site-All rip [] s apart runs b h = (
    tt,
    subst (λ u. SameBut [] (view s) (view u)) {x = s} (ok-injective h) (SameBut-refl [] (view s)),
  )
  protect_site-All rip (v ∷ vmas) s {s'} (apart, aparts) runs (inl (here, mine, b)) h =
      let (done, kept) = protect-Protected v s {s' = s'} runs mine (ground (arith, h, here)) in
      (
        (done, All-Rights-SameBut own v vmas apart kept (ButSite-All rip (view s) vmas b)),
        SameBut-fewer v vmas kept,
      )
  protect_site-All rip (v ∷ vmas) s {s'} (apart, aparts) runs (inr (elsewhere, mine, b)) h =
      let (rest, kept) =
        protect_site-All rip vmas s {s' = s'} aparts runs b (ground (arith, h, elsewhere)) in
      ((Rights-SameBut own v vmas apart kept mine, rest), SameBut-more v vmas kept)

  -- Under the documented laws of the kernel, where every PTRACE_POKETEXT succeeds, no signal ends a
  -- step, the instruction at the instruction pointer may be executed, a mapping with a byte of it on
  -- its pages has the whole of it, and the mappings share no page and have all three rights,
  -- restore_protections, if it succeeds, leaves each of them with the protection of its descriptor,
  -- that of the instruction itself included, even where that takes away the right to execute; the
  -- registers, every byte of memory and the protection of all else are as before.
  pub restore_protections-All :
      (vmas : List VmaDescriptor) (s : t.State) {s' : t.State}
      → AreApart vmas
      → IsExecutable (view s)
      → All (HoldsWhole (view s).regs.rip) vmas
      → All (Rights all_rights (view s)) vmas
      → restore_protections t vmas s ≡ ok s'
      → All (Rights own (view s')) vmas × SameBut vmas (view s) (view s')
  unfolding restore_protections
  restore_protections-All vmas s {s'} apart runs whole rights h =
      let (regs, h1, k1) = >>=-eq-ok (or_error regs_unreadable (t.getregs s)) _ h in
      let (s1, h2, k2) = >>=-eq-ok (protect_others t regs.rip false vmas s) _ k1 in
      let at =
        ap (λ (r : Regs). r.rip)
          (laws.getregs_gives s (or_error-eq-ok regs_unreadable (t.getregs s) h1)) in
      let (but_site, kept, runs') =
        protect_others-ButSite regs.rip false vmas s at apart
          (subst (λ r. All (HoldsWhole r) vmas) (sym at) whole) runs rights h2 in
      let (done, kept') = protect_site-All regs.rip vmas s1 apart runs' but_site k2 in
      (done, SameBut-twice vmas kept kept')
