-- ===== src/Restorer/Process.antt =====
-- What Ksnap-engine/src/restorer.c asks of the kernel about the process it rebuilds: the calls of
-- ptrace, `waitpid`, the file /proc/<pid>/mem opened for writing and /proc/<pid>/maps. The kernel is
-- a parameter; what is documented of these calls is a record of laws over a view of the process.
pub mod Memory
use Prim.Native.Nat.{bit_and}
use ksnap.Base.{
  ℕ, suc, ◌+◌, ◌*◌, ◌/◌, ◌-◌, ◌^◌, ◌≤◌, ◌<◌, ◌≡◌, Bool, true, false, Option, none, some, List, [],
  ◌∷◌, length, leb, ◌==◌, if◌then◌else◌,
}
use ksnap.Base.Text.{Bytes}
use ksnap.Format.Words.{to_le, of_le}
use ksnap.Dumper.Payload.{read_memory}

-- `struct user_regs_struct`: the registers that the engine names, and the others.
pub record Regs : Type 0 where
  pub rax : ℕ
  pub rdi : ℕ
  pub rsi : ℕ
  pub rdx : ℕ
  pub r10 : ℕ
  pub r8 : ℕ
  pub r9 : ℕ
  pub rip : ℕ
  pub others : List ℕ

-- The process as far as the engine restores it: its registers, the byte and the protection at each
-- address, and the extended state.
pub record View : Type 0 where
  pub regs : Regs
  pub byte : ℕ → ℕ
  pub prot : ℕ → ℕ
  pub xstate : Bytes

-- The calls; `none` is a failure. `pwrite` gives the number of bytes written.
pub record Tracer : Type 1 where
  pub State : Type 0
  pub getregs : State → Option Regs
  pub setregs : Regs → State → Option State
  pub setxstate : Bytes → State → Option State
  pub peektext : ℕ → State → Option ℕ
  pub poketext : ℕ → ℕ → State → Option State
  pub singlestep : State → Option State
  pub wait : State → Option State
  pub pwrite : Bytes → ℕ → State → Option (ℕ × State)
  pub maps : State → Option (List Bytes)

-- Bytes written over a memory from an address on.
abbrev pub overlay : ℕ → Bytes → (ℕ → ℕ) → ℕ → ℕ
overlay a [] f x = f x
overlay a (b ∷ bs) f x = if x == a then b else overlay (a + 1) bs f x

-- The kernel maps whole pages.
abbrev pub page_up : ℕ → ℕ
page_up n = (n + 4095) / 4096 * 4096

-- An address in the pages of the area of this start and size.
abbrev pub InPages : ℕ → ℕ → ℕ → Type 0
InPages start size x = (start ≤ x) × (x < start + page_up size)

-- The process is about to run a syscall instruction.
abbrev pub AtSyscall : View → Type 0
AtSyscall v = read_memory v.byte v.regs.rip 2 ≡ 0x0F ∷ 0x05 ∷ []

-- `PROT_EXEC`
abbrev pub exec_right : ℕ
exec_right = 4

-- Both bytes of the instruction at the instruction pointer may be executed.
abbrev pub IsExecutable : View → Type 0
IsExecutable v =
    (bit_and (v.prot v.regs.rip) exec_right ≡ exec_right)
    × (bit_and (v.prot (v.regs.rip + 1)) exec_right ≡ exec_right)

-- A step that ran the instruction leaves the instruction pointer behind it. A step that a signal
-- ended before, that of a page that may not be executed included, leaves it where it was.
abbrev pub HasRun : View → View → Type 0
HasRun v v' = v'.regs.rip ≡ v.regs.rip + 2

-- The kernel reports a failure as -errno in rax.
abbrev pub syscall_failed : ℕ → Bool
syscall_failed result = leb (2 ^ 64 - 4095) result

abbrev pub sys_mmap : ℕ
sys_mmap = 9

abbrev pub sys_mprotect : ℕ
sys_mprotect = 10

-- `MAP_PRIVATE | MAP_ANONYMOUS | MAP_FIXED`
abbrev pub map_fixed : ℕ
map_fixed = 0x32

-- What an area's new protection changes.
pub record Reprotected (v v' : View) (start size prot : ℕ) : Type 0 where
  pub inside : (x : ℕ) → InPages start size x → v'.prot x ≡ prot
  pub outside : (x : ℕ) → ¬ InPages start size x → v'.prot x ≡ v.prot x

-- What is documented of the calls, in ptrace(2), mmap(2) and mprotect(2).
pub record IsTracer (t : Tracer) (view : t.State → View) : Type 0 where
  pub getregs_gives : (s : t.State) {r : Regs} → t.getregs s ≡ some r → r ≡ (view s).regs
  pub setregs_sets :
      (r : Regs) (s : t.State) {s' : t.State}
      → t.setregs r s ≡ some s'
      → view s' ≡ record (view s) { regs = r }
  pub setxstate_sets :
      (x : Bytes) (s : t.State) {s' : t.State}
      → t.setxstate x s ≡ some s'
      → view s' ≡ record (view s) { xstate = x }
  pub peektext_gives :
      (a : ℕ) (s : t.State) {w : ℕ}
      → t.peektext a s ≡ some w
      → w ≡ of_le (read_memory (view s).byte a 8)
  pub poketext_writes :
      (a w : ℕ) (s : t.State) {s' : t.State}
      → t.poketext a w s ≡ some s'
      → view s' ≡ record (view s) { byte = overlay a (to_le 8 w) (view s).byte }
  pub pwrite_writes :
      (bs : Bytes) (a : ℕ) (s : t.State) {s' : t.State}
      → t.pwrite bs a s ≡ some (length bs, s')
      → view s' ≡ record (view s) { byte = overlay a bs (view s).byte }
  pub wait_keeps : (s : t.State) {s' : t.State} → t.wait s ≡ some s' → view s' ≡ view s
  pub is_byte : (s : t.State) (x : ℕ) → (view s).byte x < 256
  -- A fixed mapping that succeeds touches no page but its own.
  pub mmap_keeps :
      (s : t.State) {s' : t.State}
      → t.singlestep s ≡ some s'
      → AtSyscall (view s)
      → (view s).regs.rax ≡ sys_mmap
      → (view s).regs.r10 ≡ map_fixed
      → syscall_failed (view s').regs.rax ≡ false
      → (x : ℕ) → ¬ InPages (view s).regs.rdi (view s).regs.rsi x
      → (view s').byte x ≡ (view s).byte x
  pub mmap_protects :
      (s : t.State) {s' : t.State}
      → t.singlestep s ≡ some s'
      → AtSyscall (view s)
      → (view s).regs.rax ≡ sys_mmap
      → (view s).regs.r10 ≡ map_fixed
      → HasRun (view s) (view s')
      → syscall_failed (view s').regs.rax ≡ false
      → Reprotected (view s) (view s') (view s).regs.rdi (view s).regs.rsi (view s).regs.rdx
  -- A change of protection writes nothing.
  pub mprotect_keeps :
      (s : t.State) {s' : t.State}
      → t.singlestep s ≡ some s'
      → AtSyscall (view s)
      → (view s).regs.rax ≡ sys_mprotect
      → (x : ℕ) → (view s').byte x ≡ (view s).byte x
  pub mprotect_protects :
      (s : t.State) {s' : t.State}
      → t.singlestep s ≡ some s'
      → AtSyscall (view s)
      → (view s).regs.rax ≡ sys_mprotect
      → HasRun (view s) (view s')
      → syscall_failed (view s').regs.rax ≡ false
      → Reprotected (view s) (view s') (view s).regs.rdi (view s).regs.rsi (view s).regs.rdx

-- No signal ends a step before it ran the syscall instruction; the source takes this for granted,
-- since it does not look at the status that `waitpid` gives. Of a page that may not be executed
-- nothing is said.
abbrev pub IsUndisturbed : (t : Tracer) → (t.State → View) → Type 0
IsUndisturbed t view =
    (s s' : t.State)
    → t.singlestep s ≡ some s'
    → AtSyscall (view s)
    → IsExecutable (view s)
    → HasRun (view s) (view s')
