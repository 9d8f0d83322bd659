-- ===== src/Checker/Report/State.antt =====
-- The state in a report is the one that /proc/<pid>/status shows: no other step changes it.
use ksnap.Base.{ℕ, ◌≡◌, refl, ◌∙◌, Bool, true, false, Option, none, some, arith}
use ksnap.Maps.{MapsFile, not_opened, opened, denied, gone}
use ksnap.Checker.{CheckReport, Reason, add_reason}
use ksnap.Checker.Maps.{ScanState, scan_lines, add_reason_if, judge_maps, scan_maps}
use ksnap.Checker.Probe.{Probe, attempt, probe_ptrace}
use ksnap.Checker.One.Kept.{kept-state, scan_lines-kept, scan_fds-kept, count_children-kept}
use ksnap.Checker.One.{
  ExeLink, no_link, linked, Subject, judge_access, probe_exe, judge_status, inspect,
}

pub add_reason-state : (r : CheckReport) (x : Reason) → (add_reason r x).state ≡ r.state
unfolding add_reason
add_reason-state r x = ground arith

add_reason_if-state :
    (b : Bool) (x : Reason) (r : CheckReport) → (add_reason_if b x r).state ≡ r.state
add_reason_if-state true x r = add_reason-state r x
add_reason_if-state false x r = refl

judge_maps-state : (s : ScanState) (failed : Bool) → (judge_maps s failed).state ≡ s.report.state
unfolding judge_maps
judge_maps-state s failed = simp add_reason_if-state

scan_maps-state : (file : MapsFile) (r : CheckReport) → (scan_maps file r).state ≡ r.state
unfolding scan_maps
scan_maps-state (not_opened denied) r = add_reason-state r _
scan_maps-state (not_opened gone) r = add_reason-state r _
scan_maps-state (opened lines failed) r =
    judge_maps-state (scan_lines _ lines) failed ∙ kept-state (scan_lines-kept _ lines)

judge_access-state : (a : Option ℕ) (r : CheckReport) → (judge_access a r).state ≡ r.state
judge_access-state none r = refl
judge_access-state (some errno) r = add_reason-state r _

probe_exe-state : (l : ExeLink) (a : Option ℕ) (r : CheckReport) → (probe_exe l a r).state ≡ r.state
unfolding probe_exe
probe_exe-state (no_link d e) a r = add_reason-state r _
probe_exe-state (linked path) a r = grind (arith, add_reason-state, judge_access-state)

attempt-state :
    (p : Probe) (r : CheckReport) (seizes interrupts stops detaches : Bool)
    → (attempt p r seizes interrupts stops detaches).1.state ≡ r.state
attempt-state p r false i s d = add_reason-state r _
attempt-state p r true false s d = add_reason-state r _
attempt-state p r true true true true = refl
attempt-state p r true true true false = add_reason-state _ _
attempt-state p r true true false true = add_reason-state r _
attempt-state p r true true false false = add_reason-state _ _ ∙ add_reason-state r _

pub probe_ptrace-state : (p : Probe) (r : CheckReport) → (probe_ptrace p r).1.state ≡ r.state
unfolding probe_ptrace
probe_ptrace-state p r = attempt-state p (record r { ptrace_probed = true }) _ _ _ _

pub judge_status-state : (r : CheckReport) → (judge_status r).state ≡ r.state
unfolding judge_status
judge_status-state r = simp add_reason_if-state

pub inspect-state : (s : Subject) (r : CheckReport) → (inspect s r).state ≡ r.state
unfolding inspect
inspect-state s r =
    kept-state (count_children-kept s.children _)
    ∙ kept-state (scan_fds-kept s.directory _)
    ∙ scan_maps-state s.maps _
    ∙ probe_exe-state s.exe s.access r
