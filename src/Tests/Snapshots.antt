-- ===== src/Tests/Snapshots.antt =====
-- A snapshot of a process with one mapping of three bytes and one open file.
use ksnap.Base.{
  ℕ, ◌-◌, ◌%◌, ◌≡◌, refl, ◌↔◌, ◌^◌, inl, true, List, [], ◌∷◌, ◌++◌, length, replicate, arith, ok,
}
use ksnap.Base.Int.{pos, minus_one}
use ksnap.Base.Text.{codes}
use ksnap.Format.{VmaDescriptor, FdDescriptor}
use ksnap.Dumper.{SnapshotParts}
use ksnap.Dumper.Image.{build_header, placed, front}
use ksnap.Dumper.Payload.{Turn, reads, interrupted}
use ksnap.Dumper.Payload.Copy.{contents}
use ksnap.Dumper.WellFormed.{IsWritable, placed-InAddressSpace}
use ksnap.Dumper.Write.{Disk, write_snapshot}
use ksnap.Dumper.Write.Layout.{write_snapshot-bytes}
use ksnap.Dumper.Write.Total.{IsWorking, write_snapshot-ends}
use ksnap.Restorer.FdTable.{check_fds}
use ksnap.Restorer.FdTable.Spec.{IsFdTable, check_fds_iff}
use ksnap.Restorer.Metadata.{read_snapshot_metadata, check_vma}
use ksnap.Restorer.Metadata.Sound.{IsChecked, read_snapshot_metadata-IsChecked, check_vma-wraps}
use ksnap.RoundTrip.Whole.{snapshot_of, read_snapshot_metadata-write_snapshot}

abbrev pub text_vma : VmaDescriptor
text_vma = record {
  start_address = 4096;
  size = 3;
  file_offset = 0;
  data_offset = 0;
  prot = 5;
  map_flags = 2;
  path_offset = 0;
  path_len = 2;
}

abbrev pub log_fd : FdDescriptor
log_fd = record {
  fd = pos 3;
  dup_of = minus_one;
  flags = 0;
  path_offset = 3;
  path_len = 2;
  reserved = 0;
  position = 7;
}

abbrev pub parts : SnapshotParts
parts = record {
  regs = replicate 216 1;
  xstate = replicate 576 2;
  exe_path = codes "/bin/a";
  vmas = text_vma ∷ [];
  fds = log_fd ∷ [];
  pool = codes "/f" ++ (0 ∷ (codes "/f" ++ 0 ∷ []));
  kernel_maps = [];
}

abbrev pub working_disk : Disk
working_disk = record {
  mem_opens = true;
  snapshot_opens = true;
  accepts = λ file. true;
  tells = true;
  flushes = true;
  syncs = true;
  closes = true;
}

pub working_disk-IsWorking : IsWorking working_disk
working_disk-IsWorking = record {
  mem_opens = refl;
  snapshot_opens = refl;
  accepts = λ file. refl;
  tells = refl;
  flushes = refl;
  syncs = refl;
  closes = refl;
}

pub log_table : IsFdTable parts.pool [] parts.fds
log_table = (
  record {
    above_stdio = omega arith;
    ascending = tt;
    shares = inl refl;
    creates_nothing = refl;
    path_some = omega arith;
    path_short = omega arith;
    path_inside = omega arith;
    path_text = record { terminated = refl; no_terminator = omega arith };
  },
  tt,
)

pub parts-IsWritable : IsWritable parts
parts-IsWritable = record {
  regs_length = refl;
  xstate_min = omega arith;
  xstate_max = omega arith;
  exe_path_some = omega arith;
  exe_path_short = omega arith;
  vmas_some = omega arith;
  vmas_count = omega arith;
  vmas_valid =
      (record { fits = omega arith; in_address_space = omega arith; known_prot = omega arith }, tt);
  fds_count = omega arith;
  fds_fit = omega arith;
  fds_valid = log_table;
  kernel_maps_few = omega arith;
  kernel_maps_fit = tt;
  file_small = omega arith;
}

abbrev pub short_reads : List Turn
short_reads = reads 2 ∷ interrupted ∷ reads 9 ∷ reads 9 ∷ []

abbrev pub memory : ℕ → ℕ
memory a = a % 256

pub written :
    (left : List Turn) × (write_snapshot working_disk memory short_reads parts
      ≡ ok (front parts ++ contents memory (placed parts), left))
written =
    write_snapshot-ends working_disk working_disk-IsWorking memory short_reads parts
      parts-IsWritable (omega arith)

write_snapshot-ends_example :
    (left : List Turn) × (write_snapshot working_disk memory short_reads parts
      ≡ ok (front parts ++ contents memory (placed parts), left))
write_snapshot-ends_example =
    write_snapshot-ends working_disk working_disk-IsWorking memory short_reads parts
      parts-IsWritable (omega arith)

write_snapshot-bytes_example :
    (front parts ++ contents memory (placed parts) ≡ front parts ++ contents memory (placed parts))
    × (length (front parts) ≡ (build_header parts).data_offset)
write_snapshot-bytes_example =
    write_snapshot-bytes working_disk memory short_reads parts
      (placed-InAddressSpace parts parts-IsWritable) written.1

accepted :
    read_snapshot_metadata (λ n. true) true (front parts ++ contents memory (placed parts))
    ≡ ok (snapshot_of parts)
accepted =
    read_snapshot_metadata-write_snapshot (λ n. true) (λ n. refl) parts parts-IsWritable
      working_disk memory short_reads written.1

read_snapshot_metadata-write_snapshot_example :
    read_snapshot_metadata (λ n. true) true (front parts ++ contents memory (placed parts))
    ≡ ok (snapshot_of parts)
read_snapshot_metadata-write_snapshot_example =
    read_snapshot_metadata-write_snapshot (λ n. true) (λ n. refl) parts parts-IsWritable
      working_disk memory short_reads written.1

read_snapshot_metadata-IsChecked_example :
    IsChecked (length (front parts ++ contents memory (placed parts))) (snapshot_of parts)
read_snapshot_metadata-IsChecked_example =
    read_snapshot_metadata-IsChecked (λ n. true) true
      (front parts ++ contents memory (placed parts)) accepted

check_fds_iff_example :
    (check_fds parts.pool [] parts.fds ≡ ok tt) ↔ IsFdTable parts.pool [] parts.fds
check_fds_iff_example = check_fds_iff parts.pool parts.fds

check_vma-wraps_example :
    check_vma 5000 (record text_vma { data_offset = 2 ^ 64 - 1; size = 4096 }) ≡ ok tt
check_vma-wraps_example =
    check_vma-wraps 5000 (record text_vma { data_offset = 2 ^ 64 - 1; size = 4096 }) refl
      (omega arith) (omega arith) (omega arith) (omega arith)
