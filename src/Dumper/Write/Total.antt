-- ===== src/Dumper/Write/Total.antt =====
-- `write_snapshot` succeeds on a working disk: its own layout check never refuses.
use mathlib.Core.List.{append-nil}
use ksnap.Base.{
  ℕ, ◌≡◌, refl, ◌∙◌, ap, Bool, true, false, ◌&&◌, List, [], ◌++◌, length, arith, ltb, ◌==◌, ok,
}
use ksnap.Base.Text.{Bytes}
use ksnap.Dumper.{SnapshotParts}
use ksnap.Dumper.Image.{build_header, placed, header_bytes, vma_bytes, fd_bytes, front, total_size}
use ksnap.Dumper.Payload.{
  Turn, WriteError, header_write, vma_table_write, fd_table_write, path_pool_write, xstate_write,
  write_payloads,
}
use ksnap.Dumper.Payload.Copy.{contents, write_payloads-contents}
use ksnap.Dumper.Payload.Progress.{Progress, write_payloads-ends}
use ksnap.Dumper.WellFormed.{IsWritable, length-front, total_size-placed, placed-InAddressSpace}
use ksnap.Dumper.Write.{Disk, append, append_if, write_body, write_snapshot}
use ksnap.Dumper.Write.Layout.{regroup, no_fd_bytes, nothing_of_empty}

-- Every call of the file system succeeds.
pub record IsWorking (d : Disk) : Type 0 where
  pub mem_opens : d.mem_opens ≡ true
  pub snapshot_opens : d.snapshot_opens ≡ true
  pub accepts : (file : Bytes) → d.accepts file ≡ true
  pub tells : d.tells ≡ true
  pub flushes : d.flushes ≡ true
  pub syncs : d.syncs ≡ true
  pub closes : d.closes ≡ true

module _ (d : Disk) (working : IsWorking d) (mem : ℕ → ℕ) (turns : List Turn) where
  append-works :
      (e : WriteError) (file chunk : Bytes) → append d mem turns e file chunk ≡ ok (file ++ chunk)
  append-works e file chunk = rw (working.accepts (file ++ chunk))

  append_if-works :
      (wanted : Bool) (e : WriteError) (file chunk : Bytes)
      → (wanted ≡ false → chunk ≡ [])
      → append_if d mem turns wanted e file chunk ≡ ok (file ++ chunk)
  append_if-works true e file chunk nothing = append-works e file chunk
  append_if-works false e file chunk nothing = rw (nothing refl, append-nil)

  layout_agrees :
      (p : SnapshotParts)
      → IsWritable p
      → (d.tells && length (front p) == (build_header p).data_offset) ≡ true
  layout_agrees p w = ground (arith, length-front p w, working.tells)

  write_body-write_payloads :
      (p : SnapshotParts)
      → IsWritable p
      → write_body d mem turns p ≡ write_payloads mem d.accepts turns (placed p) (front p)
  unfolding write_body
  write_body-write_payloads p w =
      let whole =
        regroup d mem turns (header_bytes p) (vma_bytes p) (fd_bytes p) p.pool p.xstate refl refl
          refl refl refl in
      rw (append-works header_write [] (header_bytes p)) (
        rw (append-works vma_table_write (header_bytes p) (vma_bytes p)) (
          rw
            (append_if-works (ltb 0 (length p.fds)) fd_table_write _ (fd_bytes p)
              (no_fd_bytes d mem turns p))
            (rw
              (append_if-works (ltb 0 (length p.pool)) path_pool_write _ p.pool
                (nothing_of_empty d mem turns p.pool))
              (rw (append-works xstate_write _ p.xstate) (rw (whole, layout_agrees p w) refl)))))

  write_snapshot-close :
      (p : SnapshotParts) (r : Bytes × List Turn)
      → write_body d mem turns p ≡ ok r
      → write_snapshot d mem turns p ≡ ok r
  unfolding write_snapshot
  write_snapshot-close p r h = ground (
    arith, working.mem_opens, working.snapshot_opens, working.flushes, working.syncs,
    working.closes,
  )

  -- On a working disk, with reads that suffice for all payloads, a snapshot that fits is written.
  pub write_snapshot-ends :
      (p : SnapshotParts)
      → IsWritable p
      → Progress turns (total_size p.vmas)
      → (left : List Turn) × (write_snapshot d mem turns p
          ≡ ok (front p ++ contents mem (placed p), left))
  write_snapshot-ends p w progress =
      let enough : Progress turns (total_size (placed p)) = rw (total_size-placed p w) progress in
      let (r, e) =
        write_payloads-ends mem d.accepts working.accepts turns (placed p) (front p) enough in
      let all =
        write_payloads-contents mem d.accepts turns (placed p) (front p) {file' = r.0} {left = r.1}
          (placed-InAddressSpace p w) e in
      (
        r.1,
        write_snapshot-close p _
            (write_body-write_payloads p w ∙ e ∙ ap (λ (f : Bytes). ok (f, r.1)) all),
      )
