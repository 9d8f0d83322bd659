-- ===== src/Restorer/Inject.antt =====
-- `inject_syscall`, `inject_mmap_syscall` and `inject_mprotect_syscall` of
-- Ksnap-engine/src/restorer.c: a system call run inside the stopped process.
pub mod Calls
pub mod Transparent
pub mod Obliging
use ksnap.Base.{
  ℕ, ◌+◌, ◌-◌, ◌*◌, ◌/◌, ◌^◌, Bool, true, false, not, Option, none, some, Result, ok, err, ◌>>=◌,
  ◌>>◌, guard,
}
use ksnap.Format.{VmaDescriptor}
use ksnap.Restorer.Process.{Regs, Tracer, syscall_failed, sys_mmap, sys_mprotect, map_fixed}

-- The messages of the functions that rebuild the process.
pub data RestoreError : Type 0 where
  regs_unreadable syscall_not_set_up code_unreadable opcode_not_planted : RestoreError
  step_failed wait_failed result_unreadable regs_not_put_back : RestoreError
  mmap_failed mprotect_failed : RestoreError
  no_payload payload_read payload_write : RestoreError
  cloexec_failed : RestoreError
  no_kernel_map kernel_map_size kernel_maps_overlap kernel_map_not_moved : RestoreError
  final_regs final_xstate : RestoreError

pub record Syscall : Type 0 where
  pub number : ℕ
  pub arg1 : ℕ
  pub arg2 : ℕ
  pub arg3 : ℕ
  pub arg4 : ℕ
  pub arg5 : ℕ
  pub arg6 : ℕ

unfoldable pub work_regs : Regs → Syscall → Regs
work_regs saved c = record saved {
  rax = c.number;
  rdi = c.arg1;
  rsi = c.arg2;
  rdx = c.arg3;
  r10 = c.arg4;
  r8 = c.arg5;
  r9 = c.arg6;
}

-- `(original_code & 0xFFFFFFFFFFFF0000) | 0x050F`
unfoldable pub with_syscall : ℕ → ℕ
with_syscall code = code / 2 ^ 16 * 2 ^ 16 + 0x050F

-- A call that failed ends the function with a message.
abbrev pub or_error {ℓ} : {A : Type ℓ} → RestoreError → Option A → Result RestoreError A
or_error e none = err e
or_error e (some a) = ok a

-- A call whose failure the source ignores.
abbrev pub or_same {ℓ} : {A : Type ℓ} → A → Option A → A
or_same a none = a
or_same a (some b) = b

abbrev pub mmap_call : VmaDescriptor → Syscall
mmap_call v = record {
  number = sys_mmap;
  arg1 = v.start_address;
  arg2 = v.size;
  arg3 = 7;
  arg4 = map_fixed;
  arg5 = 2 ^ 64 - 1;
  arg6 = 0;
}

abbrev pub mprotect_call : VmaDescriptor → Syscall
mprotect_call v = record {
  number = sys_mprotect;
  arg1 = v.start_address;
  arg2 = v.size;
  arg3 = v.prot;
  arg4 = 0;
  arg5 = 0;
  arg6 = 0;
}

module _ (t : Tracer) where
  -- The result of the call, and the process behind it.
  unfoldable pub inject_syscall : Syscall → t.State → Result RestoreError (ℕ × t.State)
  inject_syscall c s = do
    saved ← or_error regs_unreadable (t.getregs s)
    s1 ← or_error syscall_not_set_up (t.setregs (work_regs saved c) s)
    code ← or_error code_unreadable (t.peektext saved.rip s1)
    s2 ← or_error opcode_not_planted (t.poketext saved.rip (with_syscall code) s1)
    s3 ← or_error step_failed (t.singlestep s2)
    s4 ← or_error wait_failed (t.wait s3)
    after ← or_error result_unreadable (t.getregs s4)
    let s5 = or_same s4 (t.poketext saved.rip code s4)
    s6 ← or_error regs_not_put_back (t.setregs saved s5)
    ok (after.rax, s6)

  -- Each area starts readable, writable and executable.
  unfoldable pub inject_mmap_syscall : VmaDescriptor → t.State → Result RestoreError t.State
  inject_mmap_syscall v s = do
    (result, s') ← inject_syscall (mmap_call v) s
    guard (not (syscall_failed result)) mmap_failed
    ok s'

  unfoldable pub inject_mprotect_syscall : VmaDescriptor → t.State → Result RestoreError t.State
  inject_mprotect_syscall v s = do
    (result, s') ← inject_syscall (mprotect_call v) s
    guard (not (syscall_failed result)) mprotect_failed
    ok s'
