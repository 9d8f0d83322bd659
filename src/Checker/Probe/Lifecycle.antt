-- ===== src/Checker/Probe/Lifecycle.antt =====
-- The process during the probe, as the state machine of a dump.
use ksnap.Base.{◌≡◌, refl, ◌≢◌, Bool, true, false, List, [], ◌∷◌, arith}
use ksnap.Dumper.Dump.{Call, seize, interrupt, wait_stop, detach, stopped}
use ksnap.Dumper.Dump.Lifecycle.{
  Hold, free, held, dying, ended, stuck, Steps, then_call, done, seized, not_seized, interrupts,
  waits, after_detach, detach-Steps,
}
use ksnap.Checker.{CheckReport, Reason, cannot_seize, cannot_interrupt, did_not_stop, add_reason}
use ksnap.Checker.Probe.{Probe, attempt, probe_ptrace}

-- How a probe may leave the process: alive and not seized, or stuck in a detach that failed, and
-- then the probe does not report success. Success adds no reason, and anything else adds one.
pub record IsProbed (h : Hold) (r : CheckReport) : Type 0 where
  pub not_held : h ≢ held
  pub not_dying : h ≢ dying
  pub not_ended : h ≢ ended
  pub success : r.ptrace_ok ≡ true → (h ≡ free) × (r.reasons ≡ [])
  pub failure : r.ptrace_ok ≡ false → r.reasons ≢ []

-- The calls, the report, and the state they lead to.
abbrev ProbeLeft : List Call × CheckReport → Type 0
ProbeLeft run = (h : Hold) × Steps free run.0 h × IsProbed h run.1

module _ (r : CheckReport) (fresh : r.reasons ≡ []) (unproved : r.ptrace_ok ≡ false) where
  add_reason-some : (reason : Reason) → (add_reason r reason).reasons ≢ []
  unfolding add_reason
  add_reason-some reason e = ground (arith, e, fresh)

  add_reason-ptrace_ok : (reason : Reason) → (add_reason r reason).ptrace_ok ≡ false
  unfolding add_reason
  add_reason-ptrace_ok reason = ground (arith, unproved)

refused_probe :
    (r : CheckReport) (reason : Reason) (calls : List Call) (h : Hold)
    → r.reasons ≡ []
    → r.ptrace_ok ≡ false
    → Steps free calls h
    → h ≢ held
    → h ≢ dying
    → h ≢ ended
    → ProbeLeft (calls, add_reason r reason)
refused_probe r reason calls h fresh unproved s a b c =
    let some_reason = add_reason-some r fresh unproved reason in
    let still = add_reason-ptrace_ok r fresh unproved reason in
    (
      h,
      s,
      record {
        not_held = a;
        not_dying = b;
        not_ended = c;
        success = λ e. ground (arith, e, still);
        failure = λ e. some_reason;
      },
    )

after_detach-released :
    (d : Bool) → (after_detach d ≢ held) × (after_detach d ≢ dying) × (after_detach d ≢ ended)
after_detach-released true = (λ e. cc, λ e. cc, λ e. cc)
after_detach-released false = (λ e. cc, λ e. cc, λ e. cc)

stopped-Steps :
    (s d : Bool)
    → Steps free (seize true ∷ interrupt true ∷ wait_stop s ∷ detach d ∷ []) (after_detach d)
stopped-Steps s d =
    then_call seized (then_call (interrupts true) (then_call (waits s) (detach-Steps d)))

attempt-Left :
    (p : Probe) (r : CheckReport) (a b s d : Bool)
    → r.reasons ≡ []
    → r.ptrace_ok ≡ false
    → ProbeLeft (attempt p r a b s d)
unfolding add_reason
attempt-Left p r false b s d fresh unproved =
    refused_probe r (cannot_seize p.seize_errno) (seize false ∷ []) free fresh unproved
      (then_call not_seized done) (λ e. cc) (λ e. cc) (λ e. cc)
attempt-Left p r true false s d fresh unproved =
    let (x, y, z) = after_detach-released d in
    refused_probe r (cannot_interrupt p.interrupt_errno)
      (seize true ∷ interrupt false ∷ detach d ∷ []) (after_detach d) fresh unproved
      (then_call seized (then_call (interrupts false) (detach-Steps d))) x y z
attempt-Left p r true true true true fresh unproved = (
  free,
  stopped-Steps true true,
  record {
    not_held = λ e. cc;
    not_dying = λ e. cc;
    not_ended = λ e. cc;
    success = λ e. (refl, fresh);
    failure = λ e. cc;
  },
)
attempt-Left p r true true true false fresh unproved = (
  stuck,
  stopped-Steps true false,
  record {
    not_held = λ e. cc;
    not_dying = λ e. cc;
    not_ended = λ e. cc;
    success = λ e. cc;
    failure = λ e h. ground (arith, h, fresh);
  },
)
attempt-Left p r true true false true fresh unproved =
    refused_probe r did_not_stop (seize true ∷ interrupt true ∷ wait_stop false ∷ detach true ∷ [])
      free fresh unproved (stopped-Steps false true) (λ e. cc) (λ e. cc) (λ e. cc)
attempt-Left p r true true false false fresh unproved = (
  stuck,
  stopped-Steps false false,
  record {
    not_held = λ e. cc;
    not_dying = λ e. cc;
    not_ended = λ e. cc;
    success = λ e. cc;
    failure = λ e h. ground (arith, h, fresh);
  },
)

-- A probe from a report without reasons never leaves the process seized, half killed or ended.
-- It reports success only with the process free and no reason added, and gives a reason otherwise.
pub probe_ptrace-IsProbed :
    (p : Probe) (r : CheckReport)
    → r.reasons ≡ []
    → r.ptrace_ok ≡ false
    → (h : Hold) × Steps free (probe_ptrace p r).0 h × IsProbed h (probe_ptrace p r).1
unfolding probe_ptrace
probe_ptrace-IsProbed p r fresh unproved =
    attempt-Left p (record r { ptrace_probed = true }) p.seizes p.interrupts (stopped p.stops)
      p.detaches fresh unproved
