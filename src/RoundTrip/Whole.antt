-- ===== src/RoundTrip/Whole.antt =====
-- The round trip: what a dump wrote is what a restore reads.
use ksnap.Base.{ℕ, ◌+◌, ◌≡◌, refl, ◌∙◌, Bool, true, List, [], ◌∷◌, length, length-append, arith, ok}
use ksnap.Base.Text.{Bytes}
use ksnap.Base.Word.{mul64}
use ksnap.Format.{VmaDescriptor, vma_size}
use ksnap.Dumper.{SnapshotParts}
use ksnap.Dumper.Image.{build_header, placed, front, total_size}
use ksnap.Dumper.WellFormed.{IsWritable, length-front, total_size-placed, placed-InAddressSpace}
use ksnap.Dumper.Payload.{Turn}
use ksnap.Dumper.Payload.Copy.{contents, length-read_memory}
use ksnap.Dumper.Write.{Disk, write_snapshot}
use ksnap.Dumper.Write.Layout.{write_snapshot-bytes}
use ksnap.Restorer.{Snapshot, path_pool_read, xstate_read}
use ksnap.Restorer.FdTable.{read_bytes_at, read_fd_table}
use ksnap.Restorer.Metadata.{
  check_extents, check_vmas, read_vmas_at, read_tables, read_snapshot_metadata,
}
use ksnap.RoundTrip.Places.{
  file_of, take-header, terminate-build_header, read_vmas, read_fds, read_pool, read_xstate,
}
use ksnap.RoundTrip.Checks.{
  pool_read, check_header-passes, check_extents-passes, check_vmas-passes, tables_fit,
  read_fd_table-reads,
}

-- What a restore knows of the snapshot.
abbrev pub snapshot_of : SnapshotParts → Snapshot
snapshot_of p = record {
  header = build_header p;
  vmas = placed p;
  xstate = p.xstate;
  fds = p.fds;
  pool = pool_read p.fds p.pool;
}

module _ (alloc : ℕ → Bool) (room : (n : ℕ) → alloc n ≡ true) where
  read_tables-reads :
      (file : Bytes) (s : Snapshot)
      → check_extents s.header (length file) ≡ ok tt
      → read_vmas_at file s.header.vma_table_offset s.header.vma_count ≡ ok s.vmas
      → check_vmas (length file) s.vmas ≡ ok tt
      → read_bytes_at xstate_read file s.header.xstate_offset s.header.xstate_size ≡ ok s.xstate
      → read_fd_table alloc file s.header ≡ ok (s.fds, s.pool)
      → read_tables alloc true file s.header ≡ ok s
  unfolding read_tables
  read_tables-reads file s extents vmas checked xstate fds =
      rw (extents, room (mul64 s.header.vma_count vma_size))
        (rw vmas (rw (checked, room s.header.xstate_size) (rw xstate (rw fds))))

module _ (alloc : ℕ → Bool) (room : (n : ℕ) → alloc n ≡ true) (p : SnapshotParts)
    (w : IsWritable p) where
  module _ (payload : Bytes) (whole : length payload ≡ total_size p.vmas) where
    size : length (file_of p w payload) ≡ (build_header p).data_offset + total_size p.vmas
    size = length-append (front p) payload ∙ omega (arith, length-front p w)

    read_tables-file :
        read_tables alloc true (file_of p w payload) (build_header p) ≡ ok (snapshot_of p)
    unfolding build_header
    read_tables-file =
        let file = file_of p w payload in
        read_tables-reads alloc room file (snapshot_of p)
          (check_extents-passes p w (length file) size) (read_vmas p w payload)
          (check_vmas-passes p w (length file) size) (read_xstate p w payload xstate_read)
          (read_fd_table-reads alloc room file (build_header p) p.fds p.pool refl refl
            (tables_fit p w (length file) size) (read_fds p w payload)
            (read_pool p w payload path_pool_read) w.fds_valid)

    read_snapshot_metadata-file :
        read_snapshot_metadata alloc true (file_of p w payload) ≡ ok (snapshot_of p)
    unfolding read_snapshot_metadata
    read_snapshot_metadata-file =
        rw (take-header p w payload)
          (rw (check_header-passes p w) (rw (terminate-build_header p w payload) read_tables-file))

  length-contents :
      (mem : ℕ → ℕ) (vmas : List VmaDescriptor) → length (contents mem vmas) ≡ total_size vmas
  length-contents mem [] = refl
  length-contents mem (v ∷ vmas) =
      length-append _ (contents mem vmas)
      ∙ omega (arith, length-read_memory mem v.start_address v.size, length-contents mem vmas)

  -- A snapshot that was written, of whatever process and through whatever reads, is accepted by the
  -- restore (given memory and a working `fstat`), which gets the header, the tables, the extended
  -- state and, if there are descriptors, the path pool, all as they were collected.
  pub read_snapshot_metadata-write_snapshot :
      (d : Disk) (mem : ℕ → ℕ) (turns : List Turn) {file : Bytes} {left : List Turn}
      → write_snapshot d mem turns p ≡ ok (file, left)
      → read_snapshot_metadata alloc true file ≡ ok (snapshot_of p)
  read_snapshot_metadata-write_snapshot d mem turns h =
      let (bytes, start) = write_snapshot-bytes d mem turns p (placed-InAddressSpace p w) h in
      rw bytes (
        read_snapshot_metadata-file (contents mem (placed p))
          (length-contents mem (placed p) ∙ total_size-placed p w))
