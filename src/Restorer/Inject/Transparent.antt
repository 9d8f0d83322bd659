-- ===== src/Restorer/Inject/Transparent.antt =====
-- An injected call runs exactly as asked, and leaves no trace but its own.
use Prim.Native.Nat.{bit_and}
use ksnap.Base.{
  ℕ, ◌+◌, ◌≤◌, ◌<◌, ◌≡◌, refl, ap, ◌∙◌, ◌⊎◌, inl, inr, some, [], ◌∷◌, arith, ok, Bool-cases, ltb,
}
use ksnap.Format.Words.{to_le, of_le, length-to_le}
use ksnap.Dumper.Payload.{read_memory}
use ksnap.Restorer.Process.{
  View, Tracer, IsTracer, overlay, AtSyscall, exec_right, IsExecutable, HasRun, IsUndisturbed,
}
use ksnap.Restorer.Process.Memory.{overlay-below, overlay-above, overlay-word}
use ksnap.Restorer.Inject.{Syscall, work_regs, with_syscall, or_same, inject_syscall}
use ksnap.Restorer.Inject.Calls.{Calls, inject_syscall-Calls}

-- The eight bytes at the instruction pointer.
abbrev pub InWindow : ℕ → ℕ → Type 0
InWindow rip x = (rip ≤ x) × (x < rip + 8)

-- How the call ran: in `from`, where it had the registers and the instruction of the call, it was
-- stepped to `to`.
pub record Ran (t : Tracer) (view : t.State → View) (c : Syscall) (s s' : t.State) (result : ℕ)
    : Type 0 where
  pub from : t.State
  pub to : t.State
  pub stepped : t.singlestep from ≡ some to
  pub at_syscall : AtSyscall (view from)
  pub regs_in : (view from).regs ≡ work_regs (view s).regs c
  pub bytes_in : (x : ℕ) → ¬ InWindow (view s).regs.rip x → (view from).byte x ≡ (view s).byte x
  pub prot_in : (x : ℕ) → (view from).prot x ≡ (view s).prot x
  pub result_is : result ≡ (view to).regs.rax
  pub regs_out : (view s').regs ≡ (view s).regs
  pub bytes_out : (x : ℕ) → ¬ InWindow (view s).regs.rip x → (view s').byte x ≡ (view to).byte x
  pub bytes_back : (x : ℕ) → InWindow (view s).regs.rip x → (view s').byte x ≡ (view s).byte x
  pub prot_out : (x : ℕ) → (view s').prot x ≡ (view to).prot x

InWindow-cases : (rip x : ℕ) → InWindow rip x ⊎ ¬ InWindow rip x
InWindow-cases rip x = elim (Bool-cases (ltb x rip)) [
  | inl below ↦ inr (λ (low, high). ground arith)
  | inr not_below ↦ elim (Bool-cases (ltb x (rip + 8))) [
    | inl inside ↦ inl (ground arith, ground arith)
    | inr above ↦ inr (λ (low, high). ground arith)
  ]
]

-- A byte that the step of the call keeps is kept by the whole injection.
pub Ran-byte :
    (t : Tracer) (view : t.State → View) (c : Syscall) (s s' : t.State) {result : ℕ}
    → (r : Ran t view c s s' result) → (x : ℕ) → (view r.to).byte x ≡ (view r.from).byte x
    → (view s').byte x ≡ (view s).byte x
Ran-byte t view c s s' r x kept = elim (InWindow-cases (view s).regs.rip x) [
  | inl inside ↦ r.bytes_back x inside
  | inr outside ↦ r.bytes_out x outside ∙ kept ∙ r.bytes_in x outside
]

-- Where the instruction may be executed and no signal comes in between, the call has run.
pub Ran-HasRun :
    (t : Tracer) (view : t.State → View) (c : Syscall) (s s' : t.State) {result : ℕ}
    → IsUndisturbed t view
    → IsExecutable (view s)
    → (r : Ran t view c s s' result) → HasRun (view r.from) (view r.to)
unfolding work_regs
Ran-HasRun t view c s s' quiet (first, second) r =
    let rip = ap (λ u. u.rip) r.regs_in in
    quiet r.from r.to r.stepped r.at_syscall (
      ap (λ n. bit_and n exec_right) (ap (view r.from).prot rip ∙ r.prot_in _) ∙ first,
      ap (λ n. bit_and n exec_right) (ap (λ a. (view r.from).prot (a + 1)) rip ∙ r.prot_in _)
          ∙ second,
    )

-- The planted word holds the instruction.
with_syscall-AtSyscall :
    (a code : ℕ) (f : ℕ → ℕ)
    → read_memory (overlay a (to_le 8 (with_syscall code)) f) a 2 ≡ 0x0F ∷ 0x05 ∷ []
unfolding read_memory to_le with_syscall
with_syscall-AtSyscall a code f = ground arith

overlay-word_outside :
    (a w : ℕ) (f : ℕ → ℕ) (x : ℕ) → ¬ InWindow a x → overlay a (to_le 8 w) f x ≡ f x
overlay-word_outside a w f x out =
    ground (
      arith,
      length-to_le 8 w,
      out,
      overlay-below a (to_le 8 w) f x,
      overlay-above a (to_le 8 w) f x,
    )

module _ (t : Tracer) (view : t.State → View) (laws : IsTracer t view)
    (pokes : (a w : ℕ) (s : t.State) → (s' : t.State) × (t.poketext a w s ≡ some s')) where
  or_same-pokes : (a w : ℕ) (s : t.State) → t.poketext a w s ≡ some (or_same s (t.poketext a w s))
  or_same-pokes a w s = ground (arith, (pokes a w s).1)

  module _ (c : Syscall) (s : t.State) {result : ℕ} {s' : t.State} (k : Calls t c s s' result) where
    saved_is : k.saved ≡ (view s).regs
    saved_is = laws.getregs_gives s k.saves

    view_s1 : view k.s1 ≡ record (view s) { regs = work_regs k.saved c }
    view_s1 = laws.setregs_sets (work_regs k.saved c) s k.sets_up

    view_s2 : view k.s2 ≡ record (view k.s1) {
      byte = overlay k.saved.rip (to_le 8 (with_syscall k.code)) (view k.s1).byte;
    }
    view_s2 = laws.poketext_writes k.saved.rip (with_syscall k.code) k.s1 k.plants

    view_s4 : view k.s4 ≡ view k.s3
    view_s4 = laws.wait_keeps k.s3 k.waits

    same_rip : k.saved.rip ≡ (view s).regs.rip
    same_rip = ap (λ r. r.rip) saved_is

    planted : AtSyscall (view k.s2)
    unfolding work_regs
    planted = rw (view_s2, view_s1) (with_syscall-AtSyscall k.saved.rip k.code _)

    bytes_planted : (x : ℕ) → ¬ InWindow (view s).regs.rip x → (view k.s2).byte x ≡ (view s).byte x
    bytes_planted x out =
        rw (view_s2, view_s1)
          (overlay-word_outside k.saved.rip (with_syscall k.code) (view s).byte x (rw same_rip out))

    code_is : k.code ≡ of_le (read_memory (view s).byte (view s).regs.rip 8)
    code_is = laws.peektext_gives k.saved.rip k.s1 k.peeks ∙ rw (view_s1, same_rip) refl

    view_s' : view s' ≡ record (view k.s3) {
      regs = k.saved;
      byte = overlay k.saved.rip (to_le 8 k.code) (view k.s3).byte;
    }
    view_s' =
        laws.setregs_sets k.saved (or_same k.s4 (t.poketext k.saved.rip k.code k.s4)) k.puts_back
        ∙ rw
            (
              laws.poketext_writes k.saved.rip k.code k.s4 (or_same-pokes k.saved.rip k.code k.s4),
              view_s4,
            )
            refl

    bytes_after : (x : ℕ) → ¬ InWindow (view s).regs.rip x → (view s').byte x ≡ (view k.s3).byte x
    bytes_after x out =
        rw view_s' (overlay-word_outside k.saved.rip k.code (view k.s3).byte x (rw same_rip out))

    bytes_put_back : (x : ℕ) → InWindow (view s).regs.rip x → (view s').byte x ≡ (view s).byte x
    bytes_put_back x (low, high) =
        rw (view_s', same_rip, code_is)
          (overlay-word 8 (view s).regs.rip (view k.s3).byte (view s).byte x (laws.is_byte s) low
            high)

    Calls-Ran : Ran t view c s s' result
    Calls-Ran = record {
      from = k.s2;
      to = k.s3;
      stepped = k.steps;
      at_syscall = planted;
      regs_in = rw (view_s2, view_s1, saved_is) refl;
      bytes_in = bytes_planted;
      prot_in = λ x. rw (view_s2, view_s1) refl;
      result_is = k.result_is ∙ ap (λ r. r.rax) (laws.getregs_gives k.s4 k.reads) ∙ rw view_s4 refl;
      regs_out = rw (view_s', saved_is) refl;
      bytes_out = bytes_after;
      bytes_back = bytes_put_back;
      prot_out = λ x. rw view_s' refl;
    }

  -- Under the documented laws of the kernel, and where every PTRACE_POKETEXT succeeds, a call that
  -- is injected with success is stepped with its number and arguments in the registers
  -- and the syscall instruction at the instruction pointer, from an otherwise unchanged process, and
  -- gives the result of that step; behind it the registers are those before, and so is the code at
  -- the instruction pointer, and all else is as the step left it.
  pub inject_syscall-Ran :
      (c : Syscall) (s : t.State) {result : ℕ} {s' : t.State}
      → inject_syscall t c s ≡ ok (result, s')
      → Ran t view c s s' result
  inject_syscall-Ran c s h = Calls-Ran c s (inject_syscall-Calls t c s h)
