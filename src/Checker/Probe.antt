-- ===== src/Checker/Probe.antt =====
-- `probe_ptrace` of Ksnap-engine/src/checker.c: the report, and the calls it makes on the process.
pub mod Lifecycle
use ksnap.Base.{ℕ, Bool, true, false, Option, none, some, List, [], ◌∷◌, ◌++◌, if◌then◌else◌}
use ksnap.Dumper.Dump.{Call, seize, interrupt, wait_stop, detach, stopped}
use ksnap.Checker.{
  CheckReport, cannot_seize, cannot_interrupt, did_not_stop, cannot_detach, add_reason,
}

-- What the system answers: whether each call succeeds, with the error number if it does not, and
-- how `waitpid` ends, as in `dump`.
pub record Probe : Type 0 where
  pub seizes : Bool
  pub seize_errno : ℕ
  pub interrupts : Bool
  pub interrupt_errno : ℕ
  pub stops : Option Bool
  pub detaches : Bool
  pub detach_errno : ℕ

-- Whether the process stopped.
abbrev pub note_stop : Bool → CheckReport → CheckReport
note_stop true r = record r { ptrace_ok = true }
note_stop false r = add_reason r did_not_stop

abbrev pub note_detach : Bool → ℕ → CheckReport → CheckReport
note_detach true errno r = r
note_detach false errno r = record (add_reason r (cannot_detach errno)) { ptrace_ok = false }

-- The calls by their answers: of the seizing, the interrupt, the wait and the detaching.
abbrev pub attempt : Probe → CheckReport → Bool → Bool → Bool → Bool → List Call × CheckReport
attempt p r false _ _ _ = (seize false ∷ [], add_reason r (cannot_seize p.seize_errno))
attempt p r true false _ d = (
  seize true ∷ interrupt false ∷ detach d ∷ [],
  add_reason r (cannot_interrupt p.interrupt_errno),
)
attempt p r true true s d = (
  seize true ∷ interrupt true ∷ wait_stop s ∷ detach d ∷ [],
  note_detach d p.detach_errno (note_stop s r),
)

unfoldable pub probe_ptrace : Probe → CheckReport → List Call × CheckReport
probe_ptrace p r =
    attempt p (record r { ptrace_probed = true }) p.seizes p.interrupts (stopped p.stops) p.detaches
