-- ===== src/Dumper/Write.antt =====
-- `write_snapshot` of Ksnap-engine/src/dumper.c: the whole function, over a file system that may
-- refuse each step.
pub mod Layout
pub mod Total
use ksnap.Base.{
  ℕ, Bool, true, false, ◌&&◌, ◌||◌, List, [], ◌∷◌, ◌++◌, length, ltb, ◌==◌, if◌then◌else◌, Result,
  ok, err, ◌>>=◌, ◌>>◌, guard,
}
use ksnap.Base.Text.{Bytes}
use ksnap.Dumper.{SnapshotParts}
use ksnap.Dumper.Image.{build_header, placed, header_bytes, vma_bytes, fd_bytes}
use ksnap.Dumper.Payload.{
  Turn, WriteError, cannot_open_mem, cannot_open_snapshot, header_write, vma_table_write,
  fd_table_write, path_pool_write, xstate_write, layout_mismatch, flush_failed, close_failed,
  write_payloads,
}

-- The file system and the memory of the process. `accepts` says whether the file can hold the
-- given bytes so far, and each Boolean whether the call of that name succeeds.
pub record Disk : Type 0 where
  pub mem_opens : Bool
  pub snapshot_opens : Bool
  pub accepts : Bytes → Bool
  pub tells : Bool
  pub flushes : Bool
  pub syncs : Bool
  pub closes : Bool

module _ (d : Disk) (mem : ℕ → ℕ) (turns : List Turn) where
  -- One `fwrite` behind what the file holds.
  abbrev append : WriteError → Bytes → Bytes → Result WriteError Bytes
  append e file chunk = if d.accepts (file ++ chunk) then ok (file ++ chunk) else err e

  -- An `fwrite` that is made only if there is something to write.
  abbrev append_if : Bool → WriteError → Bytes → Bytes → Result WriteError Bytes
  append_if wanted e file chunk = if wanted then append e file chunk else ok file

  -- From the opened file to the label `cleanup`.
  unfoldable pub write_body : SnapshotParts → Result WriteError (Bytes × List Turn)
  write_body p = do
    f1 ← append header_write [] (header_bytes p)
    f2 ← append vma_table_write f1 (vma_bytes p)
    f3 ← append_if (ltb 0 (length p.fds)) fd_table_write f2 (fd_bytes p)
    f4 ← append_if (ltb 0 (length p.pool)) path_pool_write f3 p.pool
    f5 ← append xstate_write f4 p.xstate
    guard (d.tells && length f5 == (build_header p).data_offset) layout_mismatch
    write_payloads mem d.accepts turns (placed p) f5

  -- A failed flush is reported, and then a failed close in its place.
  abbrev close_file : Result WriteError (Bytes × List Turn) → Result WriteError (Bytes × List Turn)
  close_file (err e) = if d.closes then err e else err close_failed
  close_file (ok r) =
      if d.closes
      then (if d.flushes && d.syncs then ok r else err flush_failed)
      else err close_failed

  unfoldable pub write_snapshot : SnapshotParts → Result WriteError (Bytes × List Turn)
  unfolding write_body
  write_snapshot p = do
    guard d.mem_opens cannot_open_mem
    guard d.snapshot_opens cannot_open_snapshot
    close_file (write_body p)
