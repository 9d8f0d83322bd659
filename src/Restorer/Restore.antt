-- ===== src/Restorer/Restore.antt =====
-- `restorer` of Ksnap-engine/src/restorer.c: the parent's side, with the calls that it makes on the
-- new process.
pub mod Rebuilt
pub mod Released
pub mod Lifecycle
pub mod Works
use ksnap.Base.{
  ℕ, Bool, true, false, Option, none, some, List, [], ◌∷◌, ◌++◌, if◌then◌else◌, Result, ok, err,
  ◌>>=◌,
}
use ksnap.Base.Text.{Bytes}
use ksnap.Args.{Config, build_snapshot_path}
use ksnap.Restorer.{Snapshot}
use ksnap.Restorer.Metadata.{read_snapshot_metadata}
use ksnap.Restorer.Process.{Regs, Tracer}
use ksnap.Restorer.Inject.{RestoreError}
use ksnap.Restorer.KernelMaps.{restore_kernel_maps}
use ksnap.Restorer.Rebuild.{
  restore_vmas, restore_protections, restore_fd_flags, set_final_regs, set_final_xstate,
}

-- How the first `waitpid` finds the new process: stopped by its exec, at an end of its own, or
-- neither.
pub data Found (State : Type 0) : Type 0 where
  stopped : State → Found State
  exited signalled : Found State
  still_running : Found State

-- A call on the new process, with its answer; `wait_stop` says whether the process is stopped, at
-- an end or neither.
pub data Call : Type 0 where
  fork open_mem kill detach : Bool → Call
  wait_stop wait_exit wait_none : Call
  reap : Call

-- What a restore did: the calls in their order, the process that it released, and its status.
pub record RestoreRun (State : Type 0) : Type 0 where
  pub calls : List Call
  pub left : Option State
  pub status : Bool

module _ (t : Tracer) where
  -- Everything the system may answer during a restore. `file` is the snapshot, if it can be opened,
  -- and `regs_of` reads the registers from their bytes in the header.
  pub record Host : Type 0 where
    pub file : Option Bytes
    pub alloc : ℕ → Bool
    pub stats : Bool
    pub forks : Bool
    pub found : Found t.State
    pub opens_mem : Bool
    pub detaches : Bool
    pub kills : Bool
    pub regs_of : Bytes → Regs

  -- All that is done to the stopped process, in the order of the source.
  unfoldable pub rebuild : (Bytes → Regs) → Bytes → Snapshot → t.State → Result RestoreError t.State
  rebuild regs_of file snapshot s = do
    s1 ← restore_fd_flags t snapshot.fds s
    s2 ← restore_kernel_maps t snapshot.header s1
    s3 ← restore_vmas t file snapshot.vmas s2
    s4 ← restore_protections t snapshot.vmas s3
    s5 ← set_final_regs t (regs_of snapshot.header.regs) s4
    set_final_xstate t snapshot.xstate s5

  -- The end of a process that cannot be restored.
  abbrev pub killed : Host → List Call → RestoreRun t.State
  killed h calls = record { calls = calls ++ kill h.kills ∷ reap ∷ []; left = none; status = false }

  -- How the parent ends, from whether it could open the memory of the stopped process and what the
  -- rebuilding gave.
  abbrev pub conclude : Host → Bool → Result RestoreError t.State → RestoreRun t.State
  conclude h false rebuilt = killed h (fork true ∷ wait_stop ∷ open_mem false ∷ [])
  conclude h true (err e) = killed h (fork true ∷ wait_stop ∷ open_mem true ∷ [])
  conclude h true (ok s) = record {
    calls = fork true ∷ wait_stop ∷ open_mem true ∷ detach h.detaches ∷ reap ∷ [];
    left = some s;
    status = true;
  }

  -- The parent, by what the first `waitpid` found.
  unfoldable pub restore_child : Host → Bytes → Snapshot → Found t.State → RestoreRun t.State
  restore_child h file snapshot (stopped s) =
      conclude h h.opens_mem (rebuild h.regs_of file snapshot s)
  restore_child h file snapshot exited = record {
    calls = fork true ∷ wait_exit ∷ [];
    left = none;
    status = false;
  }
  restore_child h file snapshot signalled = record {
    calls = fork true ∷ wait_exit ∷ [];
    left = none;
    status = false;
  }
  restore_child h file snapshot still_running = killed h (fork true ∷ wait_none ∷ [])

  unfoldable pub restore_snapshot : Host → Bytes → RestoreRun t.State
  unfolding restore_child
  restore_snapshot h file = elim (read_snapshot_metadata h.alloc h.stats file) [
    | err e ↦ record { calls = []; left = none; status = false }
    | ok snapshot ↦
        if h.forks
        then restore_child h file snapshot h.found
        else record { calls = fork false ∷ []; left = none; status = false }
  ]

  unfoldable pub restorer : Config → Host → RestoreRun t.State
  unfolding restore_snapshot
  restorer c h = elim (build_snapshot_path c) [
    | none ↦ record { calls = []; left = none; status = false }
    | some path ↦ elim (h.file) [
      | none ↦ record { calls = []; left = none; status = false }
      | some file ↦ restore_snapshot h file
    ]
  ]
