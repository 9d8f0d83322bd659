-- ===== src/Dumper/Dump.antt =====
-- `dump`, `read_regs`, `read_xstate` and `read_exe_path` of Ksnap-engine/src/dumper.c, with the
-- calls that `dump` makes on the process.
pub mod Lifecycle
pub mod Documented
pub mod Collected
pub mod Writable
pub mod Works
use ksnap.Base.{
  ℕ, Bool, true, false, not, ◌&&◌, ◌||◌, Option, none, some, List, [], ◌∷◌, ◌++◌, length, ltb, leb,
  ◌==◌, if◌then◌else◌, Result, ok, err, ◌>>=◌, ◌>>◌, guard,
}
use ksnap.Base.Text.{Bytes}
use ksnap.Args.{Config, build_snapshot_path}
use ksnap.Format.{FdDescriptor, xstate_min_size, xstate_max_size}
use ksnap.Maps.{MapsFile}
use ksnap.Dumper.{SnapshotParts}
use ksnap.Dumper.Errors.{CollectError}
use ksnap.Dumper.Payload.{Turn, WriteError}
use ksnap.Dumper.Pool.{empty_pool}
use ksnap.Dumper.Vmas.{collect_vmas}
use ksnap.Dumper.Fds.{FdDirectory, collect_fds}
use ksnap.Dumper.Write.{Disk, write_snapshot}

pub data DumpError : Type 0 where
  no_regs no_xstate_memory no_xstate bad_xstate_size no_exe empty_exe : DumpError
  collecting : CollectError → DumpError
  writing : WriteError → DumpError

-- Everything the system may answer during a dump. `regs`, `xstate` and `exe` are what the call
-- gives, if it succeeds; `stops` is how `waitpid` ends: a failure, or whether the process stopped.
pub record Target : Type 0 where
  pub seizes : Bool
  pub interrupts : Bool
  pub stops : Option Bool
  pub regs : Option Bytes
  pub xstate : Option Bytes
  pub exe : Option Bytes
  pub maps : MapsFile
  pub directory : FdDirectory
  pub disk : Disk
  pub memory : ℕ → ℕ
  pub turns : List Turn
  pub kills : Bool
  pub detaches : Bool
  pub alloc : ℕ → Bool
  pub qsort : List FdDescriptor → List FdDescriptor

unfoldable pub read_regs : Target → Result DumpError Bytes
read_regs t = elim (t.regs) [ none ↦ err no_regs | some regs ↦ ok regs ]

unfoldable pub read_xstate : Target → Result DumpError Bytes
read_xstate t =
    if t.alloc xstate_max_size
    then elim (t.xstate) [
      | none ↦ err no_xstate
      | some area ↦
          if ltb (length area) xstate_min_size || leb xstate_max_size (length area)
          then err bad_xstate_size
          else ok area
    ]
    else err no_xstate_memory

unfoldable pub read_exe_path : Target → Result DumpError Bytes
read_exe_path t = elim (t.exe) [
  | none ↦ err no_exe
  | some path ↦ if length path == 0 then err empty_exe else ok path
]

abbrev of_collect {ℓ} : {A : Type ℓ} → Result CollectError A → Result DumpError A
of_collect (err e) = err (collecting e)
of_collect (ok a) = ok a

abbrev of_write : Result WriteError (Bytes × List Turn) → Result DumpError Bytes
of_write (err e) = err (writing e)
of_write (ok r) = ok r.0

-- Steps 1 to 3b: what is collected while the process is stopped.
unfoldable pub collect_parts : Target → Result DumpError SnapshotParts
unfolding read_regs read_xstate read_exe_path
collect_parts t = do
  regs ← read_regs t
  xstate ← read_xstate t
  exe_path ← read_exe_path t
  table ← of_collect (collect_vmas t.alloc t.maps empty_pool)
  (fds, pool) ← of_collect (collect_fds t.alloc t.qsort t.directory table.pool)
  ok (record {
    regs = regs;
    xstate = xstate;
    exe_path = exe_path;
    vmas = table.vmas;
    fds = fds;
    pool = pool.content;
    kernel_maps = table.kernel_maps;
  })

-- Steps 1 to 4: the bytes of the snapshot.
unfoldable pub take_snapshot : Target → Result DumpError Bytes
unfolding collect_parts
take_snapshot t = do
  parts ← collect_parts t
  of_write (write_snapshot t.disk t.memory t.turns parts)

-- A call on the process, with its answer.
pub data Call : Type 0 where
  seize interrupt wait_stop kill detach : Bool → Call
  reap : Call

-- What a dump did: the calls in their order, the snapshot if it is complete, and its status.
pub record DumpRun : Type 0 where
  pub calls : List Call
  pub saved : Option Bytes
  pub status : Bool

abbrev pub stopped : Option Bool → Bool
stopped none = false
stopped (some b) = b

-- The calls that stop the process.
unfoldable pub stop_calls : Target → List Call
stop_calls t =
    if t.interrupts then interrupt true ∷ wait_stop (stopped t.stops) ∷ [] else interrupt false ∷ []

abbrev pub to_option : Result DumpError Bytes → Option Bytes
to_option (err e) = none
to_option (ok file) = some file

unfoldable pub snapshot_if_stopped : Target → Option Bytes
snapshot_if_stopped t =
    if t.interrupts && stopped t.stops then to_option (take_snapshot t) else none

abbrev pub is_some : Option Bytes → Bool
is_some none = false
is_some (some file) = true

-- From the label `detach` on: the calls, and the status. The arguments are whether a kill is wanted
-- and whether the snapshot is saved, and then the answers of `kill` and of the detaching.
abbrev pub release : Bool → Bool → Bool → Bool → List Call × Bool
release wanted saved kills detaches =
    if saved && wanted
    then (if kills
        then (kill true ∷ reap ∷ [], true)
        else (kill false ∷ detach detaches ∷ [], false))
    else (detach detaches ∷ [], saved && detaches)

unfoldable pub dump_seized : Config → Target → DumpRun
unfolding stop_calls snapshot_if_stopped
dump_seized c t =
    let saved = snapshot_if_stopped t in
    let (calls, status) = release c.kill_after_dump (is_some saved) t.kills t.detaches in
    record { calls = seize true ∷ (stop_calls t ++ calls); saved = saved; status = status }

unfoldable pub dump : Config → Target → DumpRun
unfolding dump_seized
dump c t = elim (build_snapshot_path c) [
  | none ↦ record { calls = []; saved = none; status = false }
  | some path ↦
      if t.seizes
      then dump_seized c t
      else record { calls = seize false ∷ []; saved = none; status = false }
]
