-- ===== src/Restorer/Inject/Calls.antt =====
-- The calls that a successful `inject_syscall` makes, in their order.
use ksnap.Base.{ℕ, ◌≡◌, ap, sym, ◌∙◌, Option, none, some, Result, ok, >>=-eq-ok}
use ksnap.Restorer.Process.{Regs, Tracer}
use ksnap.Restorer.Inject.{
  RestoreError, regs_unreadable, syscall_not_set_up, code_unreadable, opcode_not_planted,
  step_failed, wait_failed, result_unreadable, regs_not_put_back, Syscall, work_regs, with_syscall,
  or_error, or_same, inject_syscall,
}

pub or_error-eq-ok {ℓ} :
    {A : Type ℓ} (e : RestoreError) (o : Option A) {a : A} → or_error e o ≡ ok a → o ≡ some a
or_error-eq-ok e none h = cc
or_error-eq-ok e (some b) h = cc

ok_pair :
    {A : Type 0} {a b : ℕ} {s s' : A}
    → Path (Result RestoreError (ℕ × A)) (ok (a, s)) (ok (b, s'))
    → (a ≡ b) × (s ≡ s')
ok_pair h = (cc, cc)

-- The calls of a successful injection, with what they gave.
pub record Calls (t : Tracer) (c : Syscall) (s s' : t.State) (result : ℕ) : Type 0 where
  pub saved : Regs
  pub s1 : t.State
  pub code : ℕ
  pub s2 : t.State
  pub s3 : t.State
  pub s4 : t.State
  pub after : Regs
  pub saves : t.getregs s ≡ some saved
  pub sets_up : t.setregs (work_regs saved c) s ≡ some s1
  pub peeks : t.peektext saved.rip s1 ≡ some code
  pub plants : t.poketext saved.rip (with_syscall code) s1 ≡ some s2
  pub steps : t.singlestep s2 ≡ some s3
  pub waits : t.wait s3 ≡ some s4
  pub reads : t.getregs s4 ≡ some after
  pub puts_back : t.setregs saved (or_same s4 (t.poketext saved.rip code s4)) ≡ some s'
  pub result_is : result ≡ after.rax

pub inject_syscall-Calls :
    (t : Tracer) (c : Syscall) (s : t.State) {result : ℕ} {s' : t.State}
    → inject_syscall t c s ≡ ok (result, s')
    → Calls t c s s' result
unfolding inject_syscall
inject_syscall-Calls t c s {result} {s'} h =
    let (saved, h1, k1) = >>=-eq-ok (or_error regs_unreadable (t.getregs s)) _ h in
    let (s1, h2, k2) =
      >>=-eq-ok (or_error syscall_not_set_up (t.setregs (work_regs saved c) s)) _ k1 in
    let (code, h3, k3) = >>=-eq-ok (or_error code_unreadable (t.peektext saved.rip s1)) _ k2 in
    let (s2, h4, k4) =
      >>=-eq-ok (or_error opcode_not_planted (t.poketext saved.rip (with_syscall code) s1)) _ k3 in
    let (s3, h5, k5) = >>=-eq-ok (or_error step_failed (t.singlestep s2)) _ k4 in
    let (s4, h6, k6) = >>=-eq-ok (or_error wait_failed (t.wait s3)) _ k5 in
    let (after, h7, k7) = >>=-eq-ok (or_error result_unreadable (t.getregs s4)) _ k6 in
    let (s6, h8, k8) =
      >>=-eq-ok
        (or_error regs_not_put_back (t.setregs saved (or_same s4 (t.poketext saved.rip code s4)))) _
        k7 in
    let (same_result, same_state) = ok_pair k8 in
    record {
      saved = saved;
      s1 = s1;
      code = code;
      s2 = s2;
      s3 = s3;
      s4 = s4;
      after = after;
      saves = or_error-eq-ok regs_unreadable (t.getregs s) h1;
      sets_up = or_error-eq-ok syscall_not_set_up (t.setregs (work_regs saved c) s) h2;
      peeks = or_error-eq-ok code_unreadable (t.peektext saved.rip s1) h3;
      plants = or_error-eq-ok opcode_not_planted (t.poketext saved.rip (with_syscall code) s1) h4;
      steps = or_error-eq-ok step_failed (t.singlestep s2) h5;
      waits = or_error-eq-ok wait_failed (t.wait s3) h6;
      reads = or_error-eq-ok result_unreadable (t.getregs s4) h7;
      puts_back =
          or_error-eq-ok regs_not_put_back
            (t.setregs saved (or_same s4 (t.poketext saved.rip code s4))) h8
          ∙ ap some same_state;
      result_is = sym same_result;
    }
