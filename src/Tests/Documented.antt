-- ===== src/Tests/Documented.antt =====
-- The sample process answers as the system documents it, and its round trip.
use Prim.Native.Nat.{bit_and}
use mathlib.Core.Path.{subst}
use ksnap.Base.{sym, ◌∙◌, ok-injective, true, ◌≡◌, ◌<◌, length, refl, some, [], ◌∷◌, arith, ok}
use ksnap.Base.Int.{ℤ}
use ksnap.Restorer.FdTable.{fd_forbidden_flags}
use ksnap.Base.Text.{codes, same_prefix, same_text}
use ksnap.Format.{regs_size, path_max}
use ksnap.Fds.{digits, read_fd_state, scan_labelled}
use ksnap.Maps.{classify_maps_line, is_kernel_map, is_dumpable_path}
use ksnap.Maps.Scan.{parse_maps_line, skip_spaces}
use ksnap.Maps.Select.{select}
use ksnap.Dumper.{SnapshotParts}
use ksnap.Dumper.WellFormed.{IsWritable}
use ksnap.Dumper.Dump.{collect_parts}
use ksnap.Dumper.Dump.Documented.{IsMapsFile, IsDocumented}
use ksnap.Dumper.Dump.Writable.{collect_parts-IsWritable}
use ksnap.Dumper.Fds.Entries.{IsLinkText}
use ksnap.Dumper.Fds.Listing.{IsListing, IsDirectory}
use ksnap.Restorer.Metadata.{read_snapshot_metadata}
use ksnap.Restorer.Rebuild.Memory.{AreApart}
use ksnap.Restorer.Restore.{stopped, restorer}
use ksnap.Restorer.Restore.Rebuilt.{HasSite}
use ksnap.RoundTrip.Whole.{snapshot_of}
use ksnap.RoundTrip.Restored.{IsSame}
use ksnap.RoundTrip.Documented.{read_snapshot_metadata-dump_documented, restorer-dump_documented}
use ksnap.Tests.Machine.{Machine, view, machine, machine-IsTracer, machine-pokes, machine-quiet}
use ksnap.Tests.Processes.{plenty, text_bytes}
use ksnap.Tests.Runs.{directory, target, dump_config, collects_parts, saves}
use ksnap.Tests.Restores.{start_regs, sample_file, host, has_site, succeeds}
use ksnap.Tests.Snapshots.{parts, memory}
use ksnap.Tests.Sorting.{sort-IsSort}

sample_path-IsLinkText : IsLinkText (codes "/f")
sample_path-IsLinkText = record {
  some_byte = omega arith;
  short = omega arith;
  no_terminator = omega arith;
}

sample_names-IsListing : IsListing (codes "3" ∷ codes "." ∷ [])
unfolding digits
sample_names-IsListing = record {
  count32 = omega arith;
  numbers31 = omega arith;
  distinct = ((λ _. ((λ no _. cc), tt)), ((λ _. tt), tt));
}

pub reads_state : (fd : ℤ) → read_fd_state (directory.info fd) ≡ some (7, 0)
unfolding read_fd_state scan_labelled digits same_prefix same_text skip_spaces
reads_state fd = refl

directory-IsDirectory : IsDirectory directory
directory-IsDirectory = record {
  link_text = λ fd {path} e.
      let same : codes "/f" ≡ path = cc in subst IsLinkText same sample_path-IsLinkText;
  opened = λ fd {position} {flags} e.
      let same : 0 ≡ flags = cc (reads_state fd) in
      subst (λ n. bit_and n fd_forbidden_flags ≡ 0) same refl;
  listing = λ {names} e.
      let same : (codes "3" ∷ codes "." ∷ []) ≡ names = cc in
      subst IsListing same sample_names-IsListing;
}

maps-IsMapsFile : IsMapsFile (text_bytes ∷ [])
unfolding select parse_maps_line classify_maps_line is_kernel_map same_text same_prefix
    is_dumpable_path
maps-IsMapsFile = record { count32 = omega arith; span47 = omega arith; in_order = (tt, tt) }

pub target-IsDocumented : IsDocumented target
target-IsDocumented = record {
  regs_filled =
      λ {regs} e. let same : parts.regs ≡ regs = cc in subst (λ b. length b ≡ regs_size) same refl;
  exe_short = λ {path} e.
      let same : parts.exe_path ≡ path = cc in subst (λ b. length b < path_max) same (omega arith);
  maps_file = λ {lines} {failed} e.
      let same : (text_bytes ∷ []) ≡ lines = cc in subst IsMapsFile same maps-IsMapsFile;
  fd_directory = directory-IsDirectory;
  sorts = sort-IsSort;
}

collect_parts-IsWritable_example : IsWritable parts × AreApart parts.vmas
collect_parts-IsWritable_example =
    collect_parts-IsWritable target target-IsDocumented collects_parts

read_snapshot_metadata-dump_documented_example :
    (p : SnapshotParts) × (collect_parts target ≡ ok p)
    × (read_snapshot_metadata plenty true sample_file ≡ ok (snapshot_of p))
read_snapshot_metadata-dump_documented_example =
    read_snapshot_metadata-dump_documented plenty dump_config target (λ n. refl) target-IsDocumented
      saves

documented_site :
    (p : SnapshotParts)
    → collect_parts target ≡ ok p
    → (s : Machine) → host.found ≡ stopped s
    → HasSite (machine []) view (snapshot_of p) s
documented_site p e s is =
    subst (λ q. HasSite (machine []) view (snapshot_of q) s) (ok-injective (sym collects_parts ∙ e))
      (has_site s is)

restorer-dump_documented_example :
    (p : SnapshotParts) × (collect_parts target ≡ ok p)
    × ((m : Machine) × ((restorer (machine []) dump_config host).left ≡ some m)
        × IsSame (λ bytes. start_regs) memory p (view m))
restorer-dump_documented_example =
    restorer-dump_documented (machine []) view (machine-IsTracer []) (machine-pokes [])
      (machine-quiet []) dump_config dump_config target host target-IsDocumented saves refl
      (λ n. refl) refl documented_site succeeds
