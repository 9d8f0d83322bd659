-- ===== src/Tests/Processes.antt =====
-- A process with one readable mapping and one open file, and runs of the walks over its /proc files.
use ksnap.Base.{
  ℕ, ◌%◌, ◌^◌, ◌<◌, ◌≡◌, refl, ◌↔◌, Bool, true, false, some, [], ◌∷◌, ◌++◌, length, arith, ok,
}
use ksnap.Base.Int.{pos, ◌≤ℤ◌}
use ksnap.Base.Text.{Bytes, codes, same_text, same_prefix}
use ksnap.Maps.{
  MapsLine, MapsFile, opened, vma_dump, char_at, is_kernel_map, is_dumpable_path, perms_to_prot,
  perms_to_map_flags, classify_maps_line,
}
use ksnap.Maps.Classes.{HasState, classify_maps_line-vma_dump}
use ksnap.Maps.Scan.{parse_maps_line}
use ksnap.Maps.Select.{select, dumped, kernel_owned}
use ksnap.Fds.{FileStat, FdLink, fd_dump, classify_fd}
use ksnap.Fds.Classes.{IsReachable, classify_fd-fd_dump}
use ksnap.Dumper.Image.{total_size}
use ksnap.Dumper.Pool.{PathPool, empty_pool, grow_capacity, pool_append}
use ksnap.Dumper.Pool.Laws.{IsPool, empty_pool-IsPool, pool_append-content, pool_append-works}
use ksnap.Dumper.Vmas.{
  VmaTable, vma_of, grow_table, append_path, add_vma, collect_lines, collect_vmas,
}
use ksnap.Dumper.Vmas.Paths.{HoldsFile, collect_vmas-HoldsFile}
use ksnap.Checker.{CheckReport}
use ksnap.Checker.Maps.{count_device, count_dumpable, scan_lines, judge_maps, scan_maps}
use ksnap.Checker.Maps.Quiet.{scan_maps-collect_vmas-works}
use ksnap.Checker.Maps.Promise.{scan_maps-collect_vmas}
use ksnap.Checker.Json.{print_json_string}
use ksnap.Checker.Json.Utf8.{is_utf8}
use ksnap.Checker.Json.Read.{read_json_string, read_json_string-print_json_string}
use ksnap.Tests.Snapshots.{text_vma}

abbrev text_line : MapsLine
text_line = record {
  start = 4096;
  end = 4099;
  file_offset = 0;
  privileges = codes "r-xp";
  path = codes "/f";
}

abbrev pub text_bytes : Bytes
text_bytes = codes "1000-1003 r-xp 00000000 08:01 12   /f"

parses : parse_maps_line text_bytes ≡ some text_line
unfolding parse_maps_line
parses = refl

abbrev vdso_bytes : Bytes
vdso_bytes = codes "7fff0000-7fff2000 r-xp 00000000 00:00 0   [vdso]"

abbrev pub maps : MapsFile
maps = opened (text_bytes ∷ []) false

abbrev pub plenty : ℕ → Bool
plenty n = true

abbrev pub one_path : PathPool
one_path = record { content = codes "/f" ++ 0 ∷ []; size = 3; capacity = 4096 }

abbrev two_paths : PathPool
two_paths = record {
  content = codes "/f" ++ (0 ∷ (codes "/g" ++ 0 ∷ []));
  size = 6;
  capacity = 4096;
}

one_path-IsPool : IsPool one_path
one_path-IsPool = record { size_is = refl; within = omega arith; small = omega arith }

classify_maps_line-vma_dump_example : (classify_maps_line text_line ≡ vma_dump) ↔ (
    (is_kernel_map text_line.path ≡ false)
    × (char_at text_line.privileges 0 ≡ b'r')
    × (char_at text_line.privileges 3 ≡ b'p')
    × HasState text_line.path)
classify_maps_line-vma_dump_example = classify_maps_line-vma_dump text_line

pool_append-content_example :
    (3 ≡ length one_path.content)
    × (two_paths.content ≡ one_path.content ++ (codes "/g" ++ 0 ∷ []))
    × (3 < 2 ^ 32)
    × IsPool two_paths
unfolding pool_append
pool_append-content_example = pool_append-content plenty one_path (codes "/g") one_path-IsPool refl

pool_append-works_example : (r : ℕ × PathPool) × (pool_append plenty one_path (codes "/g") ≡ ok r)
pool_append-works_example = pool_append-works plenty one_path (codes "/g") (λ n. refl) (omega arith)

abbrev pub table : VmaTable
table = record { vmas = text_vma ∷ []; capacity = 64; pool = one_path; kernel_maps = [] }

pub collects : collect_vmas plenty (opened (text_bytes ∷ []) false) empty_pool ≡ ok table
unfolding collect_vmas collect_lines parse_maps_line classify_maps_line is_kernel_map same_text
    same_prefix is_dumpable_path add_vma grow_table append_path pool_append vma_of grow_capacity
    perms_to_prot perms_to_map_flags
collects = refl

collect_vmas-HoldsFile_example : (false ≡ false) × HoldsFile (text_bytes ∷ []) table
collect_vmas-HoldsFile_example =
    collect_vmas-HoldsFile plenty (text_bytes ∷ []) false empty_pool empty_pool-IsPool collects

abbrev pub fresh : CheckReport
fresh = record {
  pid = pos 7;
  comm = codes "a";
  state = b'S';
  threads = pos 1;
  tracer_pid = pos 0;
  argc = 1;
  open_fds = 0;
  volatile_fds = 0;
  dumpable_fds = 0;
  children = 0;
  uid = 0;
  rss_kb = 4;
  exe_path = codes "/f";
  dumpable_vmas = 0;
  kernel_maps = 0;
  shared_vmas = 0;
  device_vmas = 0;
  snapshot_bytes = 0;
  ptrace_probed = false;
  ptrace_ok = false;
  reasons = [];
}

scan_maps-collect_vmas_example :
    ((scan_maps (opened (text_bytes ∷ []) false) fresh).dumpable_vmas ≡ length table.vmas % 2 ^ 32)
    × ((scan_maps (opened (text_bytes ∷ []) false) fresh).snapshot_bytes
        ≡ total_size table.vmas % 2 ^ 64)
    × ((scan_maps (opened (text_bytes ∷ []) false) fresh).kernel_maps ≡ length table.kernel_maps)
scan_maps-collect_vmas_example =
    scan_maps-collect_vmas plenty (text_bytes ∷ []) false empty_pool fresh (refl, refl, refl)
      collects

abbrev text_stat : FileStat
text_stat = record { is_regular = true; device = 8; inode = 12 }

abbrev pub text_link : FdLink
text_link = record {
  text = some (codes "/f");
  open_file = some text_stat;
  by_path = some text_stat;
}

classify_fd-fd_dump_example :
    (classify_fd (pos 3) text_link ≡ (fd_dump, codes "/f"))
    ↔ ((pos 3 ≤ℤ pos 3) × IsReachable text_link (codes "/f"))
classify_fd-fd_dump_example = classify_fd-fd_dump (pos 3) text_link (codes "/f")

read_json_string-print_json_string_example :
    (read_json_string (print_json_string (codes "a") ++ codes ",") ≡ some (codes "a", codes ","))
    × (is_utf8 (codes "a") ≡ true → is_utf8 (print_json_string (codes "a")) ≡ true)
read_json_string-print_json_string_example =
    read_json_string-print_json_string (codes "a") (codes ",")

dumped_text : dumped (text_bytes ∷ []) ≡ text_line ∷ []
unfolding select parse_maps_line classify_maps_line is_kernel_map same_text same_prefix
    is_dumpable_path
dumped_text = refl

owned_text : kernel_owned (text_bytes ∷ []) ≡ []
unfolding select parse_maps_line classify_maps_line is_kernel_map same_text same_prefix
    is_dumpable_path
owned_text = refl

fresh-quiet : (scan_maps (opened (text_bytes ∷ []) false) fresh).reasons ≡ []
unfolding scan_maps scan_lines judge_maps parse_maps_line classify_maps_line is_kernel_map same_text
    same_prefix is_dumpable_path count_dumpable count_device
fresh-quiet = refl

scan_maps-collect_vmas-works_example :
    (t : VmaTable) × (collect_vmas plenty (opened (text_bytes ∷ []) false) empty_pool ≡ ok t)
scan_maps-collect_vmas-works_example =
    scan_maps-collect_vmas-works plenty (text_bytes ∷ []) false empty_pool fresh (λ n. refl)
      (refl, refl, refl) fresh-quiet (omega arith) (rw owned_text tt) empty_pool-IsPool
      (rw dumped_text (omega arith))
