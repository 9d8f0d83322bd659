-- ===== src/Dumper/Payload.antt =====
-- `write_vma_payload` of Ksnap-engine/src/dumper.c. What `pread` answers is the kernel's choice: a
-- list with one turn for each call, over the memory of the stopped process.
pub mod Copy
pub mod Progress
use Prim.Native.Nat.{min}
use ksnap.Base.{
  ℕ, zero, suc, ◌+◌, ◌-◌, Bool, List, [], ◌∷◌, ◌++◌, ltb, ◌==◌, if◌then◌else◌, Result, ok, err,
}
use ksnap.Base.Text.{Bytes}
use ksnap.Base.Word.{add64}
use ksnap.Format.{VmaDescriptor}

abbrev pub page_size : ℕ
page_size = 4096

-- One call of `pread`: it transfers at most that many bytes of those asked for, is interrupted
-- (`EINTR`), or fails otherwise.
pub data Turn : Type 0 where
  reads : ℕ → Turn
  interrupted : Turn
  failed : Turn

-- The messages of `write_snapshot` and its helpers. `waiting` has no counterpart in the program:
-- the turns ran out while it still had bytes to read.
pub data WriteError : Type 0 where
  cannot_open_mem cannot_open_snapshot : WriteError
  header_write vma_table_write fd_table_write path_pool_write xstate_write : WriteError
  layout_mismatch : WriteError
  memory_read memory_end payload_write : WriteError
  flush_failed close_failed : WriteError
  waiting : WriteError

-- The memory of the process from an address on.
unfoldable pub read_memory : (ℕ → ℕ) → ℕ → ℕ → Bytes
read_memory mem a zero = []
read_memory mem a (suc n) = mem a ∷ read_memory mem (a + 1) n

module _ (mem : ℕ → ℕ) (accepts : Bytes → Bool) where
  -- The loop, from `curr` bytes sent on: the file so far and the turns left.
  unfoldable pub write_payload :
      List Turn → VmaDescriptor → ℕ → Bytes → Result WriteError (Bytes × List Turn)
  write_payload [] v curr file = if ltb curr v.size then err waiting else ok (file, [])
  write_payload (interrupted ∷ turns) v curr file =
      let again = write_payload turns v curr file in
      if ltb curr v.size then again else ok (file, interrupted ∷ turns)
  write_payload (failed ∷ turns) v curr file =
      if ltb curr v.size then err memory_read else ok (file, failed ∷ turns)
  write_payload (reads k ∷ turns) v curr file =
      let bytes_read = min k (min (v.size - curr) page_size) in
      let file' = file ++ read_memory mem (add64 v.start_address curr) bytes_read in
      let next = write_payload turns v (curr + bytes_read) file' in
      if ltb curr v.size
      then (if bytes_read == 0
          then err memory_end
          else if accepts file'
          then next
          else err payload_write)
      else ok (file, reads k ∷ turns)

  -- The loop over the table.
  unfoldable pub write_payloads :
      List Turn → List VmaDescriptor → Bytes → Result WriteError (Bytes × List Turn)
  write_payloads turns [] file = ok (file, turns)
  write_payloads turns (v ∷ vmas) file = elim (write_payload turns v 0 file) [
    | err e ↦ err e
    | ok (file', turns') ↦ write_payloads turns' vmas file'
  ]
