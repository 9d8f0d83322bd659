-- ===== src/RoundTrip/Dumped.antt =====
-- The whole of a dump followed by the reading of its snapshot.
use ksnap.Base.{
  ℕ, ◌≡◌, Bool, true, some, List, arith, ok, Option-cases, Result-cases, ◌∙◌, inl, inr,
}
use ksnap.Base.Text.{Bytes}
use ksnap.Args.{Config, build_snapshot_path}
use ksnap.Dumper.{SnapshotParts}
use ksnap.Dumper.WellFormed.{IsWritable}
use ksnap.Dumper.Payload.{Turn}
use ksnap.Dumper.Write.{write_snapshot}
use ksnap.Dumper.Dump.{
  Target, to_option, collect_parts, take_snapshot, snapshot_if_stopped, dump_seized, dump,
}
use ksnap.Restorer.Metadata.{read_snapshot_metadata}
use ksnap.RoundTrip.Whole.{snapshot_of, read_snapshot_metadata-write_snapshot}

pub take_snapshot-file :
    (t : Target) {parts : SnapshotParts} {file : Bytes}
    → collect_parts t ≡ ok parts
    → to_option (take_snapshot t) ≡ some file
    → (left : List Turn) × (write_snapshot t.disk t.memory t.turns parts ≡ ok (file, left))
unfolding take_snapshot
take_snapshot-file t {parts} {file} e h =
    elim (Result-cases (write_snapshot t.disk t.memory t.turns parts)) [
      | inl (x, is_err) ↦ ground (arith, e, is_err)
      | inr ((bytes, left), is) ↦ let same : bytes ≡ file = ground (arith, e, is) in (left, is ∙ cc)
    ]

pub dump-saved :
    (c : Config) (t : Target) {file : Bytes}
    → (dump c t).saved ≡ some file
    → to_option (take_snapshot t) ≡ some file
unfolding dump dump_seized snapshot_if_stopped
dump-saved c t h = elim (Option-cases (build_snapshot_path c)) [
  | inl is_none ↦ ground (arith, is_none)
  | inr (path, is) ↦ ground (arith, is)
]

-- Where a dump saves a snapshot of well-formed parts, the restore accepts the file, and reads from
-- it exactly what the dump collected.
pub read_snapshot_metadata-dump :
    (alloc : ℕ → Bool) (c : Config) (t : Target) {parts : SnapshotParts} {file : Bytes}
    → ((n : ℕ) → alloc n ≡ true)
    → collect_parts t ≡ ok parts
    → IsWritable parts
    → (dump c t).saved ≡ some file
    → read_snapshot_metadata alloc true file ≡ ok (snapshot_of parts)
read_snapshot_metadata-dump alloc c t {parts} room e w h =
    let (left, written) = take_snapshot-file t e (dump-saved c t h) in
    read_snapshot_metadata-write_snapshot alloc room parts w t.disk t.memory t.turns written
