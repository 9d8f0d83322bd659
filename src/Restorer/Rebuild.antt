-- ===== src/Restorer/Rebuild.antt =====
-- `restore_vma`, `restore_protections`, `restore_fd_flags`, `set_final_regs` and `set_final_xstate`
-- of Ksnap-engine/src/restorer.c.
pub mod Payload
pub mod Memory
pub mod Rights
pub mod Site
pub mod Protections
use Prim.Native.Nat.{bit_and, min}
use ksnap.Base.{
  ℕ, zero, suc, ◌+◌, ◌-◌, ◌^◌, Bool, true, false, not, ◌&&◌, ◌||◌, Option, none, some, List, [],
  ◌∷◌, length, ltb, leb, ◌==◌, if◌then◌else◌, Result, ok, err, ◌>>=◌, ◌>>◌, guard,
}
use ksnap.Base.Int.{ℤ, to_bits64}
use ksnap.Base.Text.{Bytes}
use ksnap.Base.Word.{add64}
use ksnap.Format.{VmaDescriptor, FdDescriptor}
use ksnap.Format.Codec.{get}
use ksnap.Restorer.{seek}
use ksnap.Restorer.Process.{Regs, Tracer, syscall_failed}
use ksnap.Restorer.Inject.{
  RestoreError, regs_unreadable, no_payload, payload_read, payload_write, cloexec_failed,
  final_regs, final_xstate, Syscall, or_error, inject_syscall, inject_mmap_syscall,
  inject_mprotect_syscall,
}

abbrev pub o_cloexec : ℕ
o_cloexec = 0o2000000

abbrev pub rwx : ℕ
rwx = 7

-- `regs.rip >= start && regs.rip < start + size`, with the sum of `uint64_t`
abbrev pub holds_site : ℕ → VmaDescriptor → Bool
holds_site rip v = leb v.start_address rip && ltb rip (add64 v.start_address v.size)

-- `fcntl(fd, F_SETFD, FD_CLOEXEC)`
abbrev pub cloexec_call : FdDescriptor → Syscall
cloexec_call e = record {
  number = 72;
  arg1 = to_bits64 e.fd;
  arg2 = 2;
  arg3 = 1;
  arg4 = 0;
  arg5 = 0;
  arg6 = 0;
}

module _ (t : Tracer) where
  -- The loop of `restore_vma`, from `curr` bytes sent on. `rest` is the stream behind what was read.
  -- Each round sends a byte at least, so as many rounds as bytes are enough.
  unfoldable pub write_chunks :
      VmaDescriptor → ℕ → ℕ → Bytes → t.State → Result RestoreError t.State
  write_chunks v zero curr rest s = ok s
  write_chunks v (suc rounds) curr rest s =
      let now = min (v.size - curr) 4096 in
      let step = do
        (chunk, more) ← or_error payload_read (get now rest)
        (written, s') ← or_error payload_write (t.pwrite chunk (add64 v.start_address curr) s)
        guard (written == now) payload_write
        write_chunks v rounds (curr + now) more s'
      in if ltb curr v.size then step else ok s

  unfoldable pub restore_vma : Bytes → VmaDescriptor → t.State → Result RestoreError t.State
  restore_vma file v s = do
    s' ← inject_mmap_syscall t v s
    rest ← or_error no_payload (seek file v.data_offset)
    write_chunks v v.size 0 rest s'

  -- The loop of `restorer` over the mappings.
  unfoldable pub restore_vmas : Bytes → List VmaDescriptor → t.State → Result RestoreError t.State
  restore_vmas file [] s = ok s
  restore_vmas file (v ∷ vmas) s = do s' ← restore_vma file v s; restore_vmas file vmas s'

  -- Areas that keep all three rights need no call.
  unfoldable pub protect : VmaDescriptor → t.State → Result RestoreError t.State
  protect v s = if v.prot == rwx then ok s else inject_mprotect_syscall t v s

  -- The two loops, which look for the area of the injection site and protect all others, and the
  -- call behind them. `found` says that the site is found.
  unfoldable pub protect_others :
      ℕ → Bool → List VmaDescriptor → t.State → Result RestoreError t.State
  unfolding protect
  protect_others rip found [] s = ok s
  protect_others rip found (v ∷ vmas) s =
      let here = not found && holds_site rip v in
      let skipped = protect_others rip true vmas s in
      let next = (do s' ← protect v s; protect_others rip found vmas s') in
      if here then skipped else next

  unfoldable pub protect_site : ℕ → List VmaDescriptor → t.State → Result RestoreError t.State
  unfolding protect
  protect_site rip [] s = ok s
  protect_site rip (v ∷ vmas) s =
      let later = protect_site rip vmas s in if holds_site rip v then protect v s else later

  unfoldable pub restore_protections : List VmaDescriptor → t.State → Result RestoreError t.State
  restore_protections vmas s = do
    regs ← or_error regs_unreadable (t.getregs s)
    s' ← protect_others regs.rip false vmas s
    protect_site regs.rip vmas s'

  unfoldable pub set_cloexec : FdDescriptor → t.State → Result RestoreError t.State
  set_cloexec e s = do
    (result, s') ← inject_syscall t (cloexec_call e) s
    guard (not (syscall_failed result)) cloexec_failed
    ok s'

  unfoldable pub restore_fd_flags : List FdDescriptor → t.State → Result RestoreError t.State
  unfolding set_cloexec
  restore_fd_flags [] s = ok s
  restore_fd_flags (e ∷ fds) s =
      let unchanged = restore_fd_flags fds s in
      let changed = (do s' ← set_cloexec e s; restore_fd_flags fds s') in
      if bit_and e.flags o_cloexec == 0 then unchanged else changed

  unfoldable pub set_final_regs : Regs → t.State → Result RestoreError t.State
  set_final_regs r s = or_error final_regs (t.setregs r s)

  unfoldable pub set_final_xstate : Bytes → t.State → Result RestoreError t.State
  set_final_xstate x s = or_error final_xstate (t.setxstate x s)
