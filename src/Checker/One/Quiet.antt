-- ===== src/Checker/One/Quiet.antt =====
-- The steps of a check that add no reason, and what they have found.
use ksnap.Base.{
  ℕ, ◌<◌, ◌≡◌, ◌≢◌, ◌↔◌, refl, sym, ◌∙◌, inl, inr, Bool, true, false, Option, none, List, [], ◌∷◌,
  length, arith, ◌==◌, take, ◌-◌, Bool-cases, Option-cases,
}
use ksnap.Base.Text.{Bytes, codes}
use ksnap.Maps.{MapsFile, not_opened, opened, denied, gone}
use ksnap.Fds.{deleted_suffix, is_deleted}
use ksnap.Dumper.Dump.{stopped}
use ksnap.Checker.Maps.{ScanState, scan_lines, scan_maps}
use ksnap.Checker.Maps.Quiet.{judge_maps-quiet}
use ksnap.Checker.Probe.{Probe, note_stop, attempt, probe_ptrace}
use ksnap.Checker.One.Kept.{kept-reasons, scan_lines-kept}
use ksnap.Checker.{
  CheckReport, Reason, not_inspectable, gone_meanwhile, exe_unreadable, exe_empty, exe_deleted,
  exe_not_executable, cannot_seize, cannot_interrupt, did_not_stop, cannot_detach, add_reason,
}
use ksnap.Checker.One.{ExeLink, no_link, linked, probe_exe, has_reasons}
use ksnap.Checker.One.Counts.{SameCounts}

pub add_reason-some : (r : CheckReport) (x : Reason) → (add_reason r x).reasons ≢ []
unfolding add_reason
add_reason-some r x none_left = by_reasons r.reasons refl
  where
    by_reasons : (l : List Reason) → r.reasons ≡ l → ⊥
    by_reasons [] e = ground (arith, e, none_left)
    by_reasons (y ∷ l) e = ground (arith, e, none_left)

pub has_reasons_iff : (r : CheckReport) → (has_reasons r ≡ false) ↔ (r.reasons ≡ [])
has_reasons_iff r = by_reasons r.reasons refl
  where
    by_reasons : (l : List Reason) → r.reasons ≡ l → (has_reasons r ≡ false) ↔ (r.reasons ≡ [])
    by_reasons [] e = (λ h. e, λ h. ground (arith, e))
    by_reasons (y ∷ l) e = (λ h. absurd (ground (arith, e, h)), λ h. absurd (ground (arith, e, h)))

pub scan_maps-quiet :
    (file : MapsFile) (r : CheckReport) → (scan_maps file r).reasons ≡ [] → r.reasons ≡ []
unfolding scan_maps
scan_maps-quiet (not_opened denied) r quiet =
    absurd (add_reason-some r (not_inspectable (codes "maps")) quiet)
scan_maps-quiet (not_opened gone) r quiet = absurd (add_reason-some r gone_meanwhile quiet)
scan_maps-quiet (opened lines failed) r quiet =
    let start : ScanState = record { report = r; first_shared = []; first_device = [] } in
    let (_, _, _, before) = judge_maps-quiet (scan_lines start lines) failed quiet in
    sym (kept-reasons (scan_lines-kept start lines)) ∙ before

-- What a probe of the executable without a reason has found.
pub record IsRunnable (l : ExeLink) (access : Option ℕ) (r r' : CheckReport) : Type 0 where
  pub path : Bytes
  pub link : l ≡ linked path
  pub not_empty : 0 < length path
  pub exists : is_deleted path ≡ false
  pub allowed : access ≡ none
  pub counts : SameCounts r r'

linked-IsRunnable :
    (path : Bytes) (access : Option ℕ) (r : CheckReport)
    → (probe_exe (linked path) access r).reasons ≡ []
    → IsRunnable (linked path) access r (probe_exe (linked path) access r)
unfolding probe_exe
linked-IsRunnable path access r quiet = elim (Bool-cases (length path == 0)) [
  | inl empty ↦
      absurd
        (add_reason-some (record r { exe_path = path }) exe_empty (ground (arith, empty, quiet)))
  | inr not_empty ↦ elim (Bool-cases (is_deleted path)) [
    | inl deleted ↦ absurd (
        add_reason-some (record r { exe_path = take (length path - length deleted_suffix) path })
          exe_deleted (ground (arith, not_empty, deleted, quiet)))
    | inr exists ↦ elim (Option-cases access) [
      | inl allowed ↦ record {
        path = path;
        link = refl;
        not_empty = ground (arith, not_empty);
        exists = exists;
        allowed = allowed;
        counts = record {
          vmas = ground (arith, not_empty, exists, allowed);
          bytes = ground (arith, not_empty, exists, allowed);
          kernel = ground (arith, not_empty, exists, allowed);
        };
      }
      | inr (errno, fails) ↦ absurd (
          add_reason-some (record r { exe_path = path }) (exe_not_executable errno)
            (ground (arith, not_empty, exists, fails, quiet)))
    ]
  ]
]

pub probe_exe-IsRunnable :
    (l : ExeLink) (access : Option ℕ) (r : CheckReport)
    → (probe_exe l access r).reasons ≡ []
    → IsRunnable l access r (probe_exe l access r)
unfolding probe_exe
probe_exe-IsRunnable (no_link true errno) access r quiet =
    absurd (add_reason-some r (not_inspectable (codes "exe")) quiet)
probe_exe-IsRunnable (no_link false errno) access r quiet =
    absurd (add_reason-some r (exe_unreadable errno) quiet)
probe_exe-IsRunnable (linked path) access r quiet = linked-IsRunnable path access r quiet

-- A probe that adds no reason has seized, stopped and released the process.
pub record Attaches (p : Probe) : Type 0 where
  pub seizes : p.seizes ≡ true
  pub interrupts : p.interrupts ≡ true
  pub stops : stopped p.stops ≡ true
  pub detaches : p.detaches ≡ true

attempt-Attaches :
    (p : Probe) (r : CheckReport) (seizes interrupts stops detaches : Bool)
    → (attempt p r seizes interrupts stops detaches).1.reasons ≡ []
    → (seizes ≡ true) × (interrupts ≡ true) × (stops ≡ true) × (detaches ≡ true)
attempt-Attaches p r false i s d quiet =
    absurd (add_reason-some r (cannot_seize p.seize_errno) quiet)
attempt-Attaches p r true false s d quiet =
    absurd (add_reason-some r (cannot_interrupt p.interrupt_errno) quiet)
attempt-Attaches p r true true s false quiet =
    absurd (add_reason-some (note_stop s r) (cannot_detach p.detach_errno) quiet)
attempt-Attaches p r true true false true quiet = absurd (add_reason-some r did_not_stop quiet)
attempt-Attaches p r true true true true quiet = (refl, refl, refl, refl)

pub probe_ptrace-Attaches :
    (p : Probe) (r : CheckReport) → (probe_ptrace p r).1.reasons ≡ [] → Attaches p
unfolding probe_ptrace
probe_ptrace-Attaches p r quiet =
    let (a, b, c, d) =
      attempt-Attaches p (record r { ptrace_probed = true }) p.seizes p.interrupts (stopped p.stops)
        p.detaches quiet in
    record { seizes = a; interrupts = b; stops = c; detaches = d }
