-- ===== src/Checker/Report.antt =====
-- `print_report` of Ksnap-engine/src/checker.c, with the codes and the texts that its calls of
-- `add_reason` give. What `strerror` writes for a number of an error is a parameter.
pub mod Document
pub mod Lines
pub mod State
pub mod Plain
pub mod Sweep
use ksnap.Base.{ℕ, Bool, true, false, List, [], ◌∷◌, ◌++◌, ◌-◌, length, take, ◌==◌, if◌then◌else◌}
use ksnap.Base.Int.{ℤ}
use ksnap.Base.Text.{Bytes, codes}
use ksnap.Base.Decimal.{print_decimal, print_integer}
use ksnap.Format.{max_kernel_maps}
use ksnap.Checker.{
  CheckReport, Reason, multi_threaded, zombie, already_traced, kernel_thread, not_inspectable,
  gone_meanwhile, gone_halfway, exe_unreadable, exe_empty, exe_deleted, exe_not_executable,
  shared_mapping, device_mapping, too_many_kernel_maps, no_dumpable_mapping, cannot_seize,
  cannot_interrupt, did_not_stop, cannot_detach,
}
use ksnap.Checker.Json.{print_json_string}

-- The `code` of each call of `add_reason`.
unfoldable pub code_of : Reason → Bytes
code_of (multi_threaded n) = codes "multi_threaded"
code_of zombie = codes "zombie"
code_of (already_traced tracer) = codes "already_traced"
code_of kernel_thread = codes "kernel_thread"
code_of (not_inspectable file) = codes "not_inspectable"
code_of gone_meanwhile = codes "gone"
code_of gone_halfway = codes "gone"
code_of (exe_unreadable errno) = codes "exe_unreadable"
code_of exe_empty = codes "exe_unreadable"
code_of exe_deleted = codes "exe_deleted"
code_of (exe_not_executable errno) = codes "exe_not_executable"
code_of (shared_mapping n first) = codes "shared_mapping"
code_of (device_mapping first) = codes "device_mapping"
code_of (too_many_kernel_maps n) = codes "too_many_kernel_maps"
code_of no_dumpable_mapping = codes "no_dumpable_mapping"
code_of (cannot_seize errno) = codes "ptrace_refused"
code_of (cannot_interrupt errno) = codes "ptrace_refused"
code_of did_not_stop = codes "ptrace_refused"
code_of (cannot_detach errno) = codes "ptrace_refused"

-- `DETAIL_LEN`; `vsnprintf` leaves a byte for the terminator.
abbrev pub detail_len : ℕ
detail_len = 160

abbrev print_bool : Bool → Bytes
print_bool b = if b then codes "true" else codes "false"

module _ (strerror : ℕ → Bytes) where
  -- The text that the format of each call of `add_reason` gives, before it is cut.
  unfoldable pub detail_text : ℤ → Reason → Bytes
  detail_text pid (multi_threaded n) =
      codes "the dump seizes the main thread only, this process has " ++ print_integer n
  detail_text pid zombie = codes "the process is dead, there is no address space to copy"
  detail_text pid (already_traced tracer) =
      codes "process " ++ print_integer tracer ++ codes " is tracing it, ptrace allows one tracer"
  detail_text pid kernel_thread = codes "kernel threads own no memory that could be snapshotted"
  detail_text pid (not_inspectable file) =
      codes "/proc/"
      ++ print_integer pid
      ++ codes "/"
      ++ file
      ++ codes " cannot be read, run the engine as root"
  detail_text pid gone_meanwhile = codes "the process disappeared while it was inspected"
  detail_text pid gone_halfway = codes "reading the mappings failed halfway"
  detail_text pid (exe_unreadable errno) =
      codes "the executable path cannot be resolved: " ++ strerror errno
  detail_text pid exe_empty = codes "the executable path is empty"
  detail_text pid exe_deleted =
      codes "the executable no longer exists, the restore could not exec it"
  detail_text pid (exe_not_executable errno) =
      codes "the executable cannot be run by the engine: " ++ strerror errno
  detail_text pid (shared_mapping n first) =
      print_decimal n
      ++ codes " shared "
      ++ (if n == 1 then codes "mapping" else codes "mappings")
      ++ codes " would be dropped silently, first "
      ++ first
  detail_text pid (device_mapping first) =
      first ++ codes " cannot be read through /proc/" ++ print_integer pid ++ codes "/mem"
  detail_text pid (too_many_kernel_maps n) =
      codes "the snapshot format holds "
      ++ print_decimal max_kernel_maps
      ++ codes " kernel mappings, found "
      ++ print_decimal n
  detail_text pid no_dumpable_mapping = codes "no mapping the engine would copy"
  detail_text pid (cannot_seize errno) = codes "cannot seize the process: " ++ strerror errno
  detail_text pid (cannot_interrupt errno) =
      codes "cannot interrupt the process: " ++ strerror errno
  detail_text pid did_not_stop = codes "the process did not stop for the engine"
  detail_text pid (cannot_detach errno) = codes "cannot detach again: " ++ strerror errno

  -- The `detail` that `add_reason` keeps.
  unfoldable pub detail_of : ℤ → Reason → Bytes
  detail_of pid reason = take (detail_len - 1) (detail_text pid reason)

  -- The loop over the reasons; `first` is `i == 0`.
  unfoldable pub print_reasons : ℤ → Bool → List Reason → Bytes
  print_reasons pid first [] = []
  print_reasons pid first (reason ∷ reasons) =
      (if first then [] else codes ",")
      ++ codes "{\"code\":\""
      ++ code_of reason
      ++ codes "\",\"detail\":"
      ++ print_json_string (detail_of pid reason)
      ++ codes "}"
      ++ print_reasons pid false reasons

  unfoldable pub print_report : CheckReport → Bytes
  unfolding print_reasons
  print_report r =
      codes "{\"pid\":"
      ++ print_integer r.pid
      ++ codes ",\"dumpable\":"
      ++ print_bool (length r.reasons == 0)
      ++ codes ",\"reasons\":["
      ++ print_reasons r.pid true r.reasons
      ++ codes "],\"facts\":{\"comm\":"
      ++ print_json_string r.comm
      ++ codes ",\"state\":\""
      ++ r.state ∷ codes "\""
      ++ codes ",\"threads\":"
      ++ print_integer r.threads
      ++ codes ",\"tracer_pid\":"
      ++ print_integer r.tracer_pid
      ++ codes ",\"uid\":"
      ++ print_decimal r.uid
      ++ codes ",\"rss_kb\":"
      ++ print_decimal r.rss_kb
      ++ codes ",\"argc\":"
      ++ print_decimal r.argc
      ++ codes ",\"exe\":"
      ++ print_json_string r.exe_path
      ++ codes ",\"open_fds\":"
      ++ print_decimal r.open_fds
      ++ codes ",\"volatile_fds\":"
      ++ print_decimal r.volatile_fds
      ++ codes ",\"dumpable_fds\":"
      ++ print_decimal r.dumpable_fds
      ++ codes ",\"children\":"
      ++ print_decimal r.children
      ++ codes ",\"dumpable_vmas\":"
      ++ print_decimal r.dumpable_vmas
      ++ codes ",\"kernel_maps\":"
      ++ print_decimal r.kernel_maps
      ++ codes ",\"shared_vmas\":"
      ++ print_decimal r.shared_vmas
      ++ codes ",\"device_vmas\":"
      ++ print_decimal r.device_vmas
      ++ codes ",\"snapshot_bytes\":"
      ++ print_decimal r.snapshot_bytes
      ++ codes ",\"ptrace_probed\":"
      ++ print_bool r.ptrace_probed
      ++ codes ",\"ptrace_ok\":"
      ++ print_bool r.ptrace_ok
      ++ codes "}}"
      ++ 10 ∷ []

  -- What a sweep writes: the reports one after the other.
  unfoldable pub print_reports : List CheckReport → Bytes
  unfolding print_report
  print_reports [] = []
  print_reports (r ∷ rs) = print_report r ++ print_reports rs
