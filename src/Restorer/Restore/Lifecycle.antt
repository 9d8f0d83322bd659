-- ===== src/Restorer/Restore/Lifecycle.antt =====
-- The new process during a restore, as a state machine that the calls of the restore drive.
use ksnap.Base.{◌≡◌, ◌≢◌, ◌⊎◌, Bool, true, false, List, [], ◌∷◌, if◌then◌else◌}
use ksnap.Restorer.Process.{Tracer}
use ksnap.Restorer.Restore.Released.{Released}
use ksnap.Restorer.Restore.{
  Call, fork, open_mem, kill, detach, wait_stop, wait_exit, wait_none, reap, RestoreRun, Host,
}

-- No process; forked; stopped and half restored; killed, but not waited for; killed or ended
-- before its release; released; ended after its release; out of reach, because the kernel refused
-- to kill or to release it.
pub data Hold : Type 0 where
  absent started held dying buried freed finished lost : Hold

-- What a call does to the process. Only `held` leads to `freed`.
pub data Step : Hold → Call → Hold → Type 0 where
  forked : Step absent (fork true) started
  not_forked : Step absent (fork false) absent
  stops : Step started wait_stop held
  ends : Step started wait_exit buried
  runs_on : Step started wait_none started
  opens : (b : Bool) → Step held (open_mem b) held
  killed_held : Step held (kill true) dying
  killed_started : Step started (kill true) dying
  not_killed_held : Step held (kill false) lost
  not_killed_started : Step started (kill false) lost
  detached : Step held (detach true) freed
  not_detached : Step held (detach false) lost
  reaped : Step dying reap buried
  ran : Step freed reap finished
  nothing_to_reap : Step lost reap lost

pub data Steps : Hold → List Call → Hold → Type 0 where
  done : {h : Hold} → Steps h [] h
  then_call :
      {h h' h'' : Hold} {c : Call} {cs : List Call}
      → Step h c h'
      → Steps h' cs h''
      → Steps h (c ∷ cs) h''

-- How a restore may leave the process: never stopped, half restored or unreaped, released only with
-- success, and lost only where the kernel refused.
pub record IsLeft (kills detaches status : Bool) (h : Hold) : Type 0 where
  pub not_started : h ≢ started
  pub not_held : h ≢ held
  pub not_dying : h ≢ dying
  pub finished_only : h ≡ finished → status ≡ true
  pub success : status ≡ true → h ≡ (if detaches then finished else lost)
  pub lost_only : h ≡ lost → (kills ≡ false) ⊎ (detaches ≡ false)

-- The calls of a run lead from no process to one that is left well.
abbrev RestoreLeft : {A : Type 0} → Bool → Bool → RestoreRun A → Type 0
RestoreLeft kills detaches r =
    (h : Hold) × Steps absent r.calls h × IsLeft kills detaches r.status h

module _ (t : Tracer) (h : Host t) where
  abbrev Left : RestoreRun t.State → Type 0
  Left r = RestoreLeft h.kills h.detaches r
