-- ===== src/Checker.antt =====
-- Ksnap-engine/src/checker.c: the report on one process and the walks that fill it. A reason
-- carries its code as its constructor and, as arguments, what its detail text is made of.
pub mod Maps
pub mod Json
pub mod Fds
pub mod Probe
pub mod One
pub mod Report
pub mod All
use ksnap.Base.{ℕ, Bool, List, [], ◌∷◌, ◌++◌, length, ◌==◌, if◌then◌else◌}
use ksnap.Base.Int.{ℤ}
use ksnap.Base.Text.{Bytes}

-- `check_reason_t`; `strerror` texts are the number of the error.
pub data Reason : Type 0 where
  multi_threaded : ℤ → Reason
  zombie : Reason
  already_traced : ℤ → Reason
  kernel_thread : Reason
  not_inspectable : Bytes → Reason
  gone_meanwhile gone_halfway : Reason
  exe_unreadable : ℕ → Reason
  exe_empty exe_deleted : Reason
  exe_not_executable : ℕ → Reason
  shared_mapping : ℕ → Bytes → Reason
  device_mapping : Bytes → Reason
  too_many_kernel_maps : ℕ → Reason
  no_dumpable_mapping : Reason
  cannot_seize cannot_interrupt : ℕ → Reason
  did_not_stop : Reason
  cannot_detach : ℕ → Reason

abbrev pub max_reasons : ℕ
max_reasons = 8

-- `check_report_t`; `reason_count` is the length of `reasons`. The counters, an `int` in the source,
-- are numbers without a bound: a process has fewer descriptors, children and arguments than 2 ^ 31.
pub record CheckReport : Type 0 where
  pub pid : ℤ
  pub comm : Bytes
  pub state : ℕ
  pub threads : ℤ
  pub tracer_pid : ℤ
  pub argc : ℕ
  pub open_fds : ℕ
  pub volatile_fds : ℕ
  pub dumpable_fds : ℕ
  pub children : ℕ
  pub uid : ℕ
  pub rss_kb : ℕ
  pub exe_path : Bytes
  pub dumpable_vmas : ℕ
  pub kernel_maps : ℕ
  pub shared_vmas : ℕ
  pub device_vmas : ℕ
  pub snapshot_bytes : ℕ
  pub ptrace_probed : Bool
  pub ptrace_ok : Bool
  pub reasons : List Reason

unfoldable pub add_reason : CheckReport → Reason → CheckReport
add_reason r reason =
    if length r.reasons == max_reasons then r else record r { reasons = r.reasons ++ (reason ∷ []) }
