-- ===== src/Lib.antt =====
-- Ksnap, a checkpoint and restore engine for Linux processes. This library models the engine,
-- Ksnap-engine, which is written in C. Its three operations share one snapshot format and one way
-- to read /proc:
--
--   Dump     stops a process, collects its registers, its FPU state, its mappings and its open
--            files, writes them to one file, and lets the process go or kills it;
--   Restore  reads the file, checks it, and rebuilds the process from it;
--   Check    reports, without a snapshot, whether a process could be dumped.
--
-- The parts, and the files of this library that model them:
--
--   Base      what all share: a result type with chains of calls, lists and text over the native
--             numbers, signed integers and their decimals, and the arithmetic of 32 and 64 bit words.
--   Format    Ksnap-engine/include/dump_format.h: the structs as records, and their bytes as codecs
--             (Codec, Words, Structs), whose sizes are those of the static assertions.
--   Maps      Ksnap-engine/src/maps.c: `parse_maps_line` with the call of `sscanf` it makes (Scan),
--             `classify_maps_line`, the protection bits, `find_named_map` (Find). Classes and Select
--             describe the classes and the mappings in them independently.
--   Fds       Ksnap-engine/src/fds.c: `classify_fd` over what readlink and stat answer, and
--             `read_fd_state` over the lines of fdinfo.
--   Args      Ksnap-engine/include/parser.h and include/config.h: `parse_arg` over the options that
--             `getopt` gives, `build_snapshot_path`.
--   Program   Ksnap-engine/src/main.c, over the three operations as parameters.
--   Dumper    Ksnap-engine/src/dumper.c: `dump` with its calls of ptrace, kill and waitpid (Dump),
--             `collect_vmas` (Vmas), `collect_fds` and `find_shared_files` (Fds), `pool_append`
--             (Pool), the layout of the file (Image), `write_snapshot` (Write) and
--             `write_vma_payload` (Payload).
--   Restorer  Ksnap-engine/src/restorer.c: `read_snapshot_metadata` (Metadata), `read_fd_table`
--             (FdTable), `inject_syscall` and the two calls made through it (Inject), `restore_vma`,
--             `restore_protections`, `restore_fd_flags` and the final registers (Rebuild),
--             `restore_kernel_maps` (KernelMaps) and the parent's side of `restorer` (Restore).
--             Process is the interface to the kernel that they share. Child holds
--             `open_snapshot_fds` and `spawn_traced_child`, the child's side before its exec.
--   RoundTrip the dumper and the restorer together, and the checker and the dumper (Promised).
--   Checker   Ksnap-engine/src/checker.c: the report and `add_reason`, `scan_maps` (Maps),
--             `scan_fds` (Fds), `probe_ptrace` (Probe), `print_json_string` (Json), `check_one` with
--             the steps that read status, cmdline, exe and children (One), `check` and `check_all`
--             (All), `print_report` with the texts of the reasons (Report).
--   Tests     the theorems at concrete data.
--
-- How the model stands to the code. A function that prints a message and returns ERROR gives an
-- `err` with a constructor for the message; the texts on stderr are not modelled. A count that the
-- source keeps beside an array is the length of a list. Memory that is freed or leaked is not
-- modelled. What the kernel and the C library decide is a parameter: whether an allocation or a
-- call of the file system succeeds, what /proc shows, how many bytes each `pread` gives (a list of
-- turns, one for each call), how `kcmp` compares, how `qsort` sorts. Sums and differences on
-- `uint64_t` and `uint32_t` wrap as they do in C.
--
-- Bounds and fuel. The capacity of the path pool is doubled at most 32 times, which is enough since
-- a needed size is below 2 ^ 32. The loop of `write_vma_payload` is recursion on the list of turns;
-- a list that ends early gives the error `waiting`, which no run of the program has, and the
-- theorem on `write_snapshot` says how many turns are enough.
--
-- The loop of `restore_vma` is recursion on the size of the mapping, as each round writes a byte at
-- least.
--
-- The kernel under the restore. Process is a record of the calls that the restore makes on the new
-- process, and a record of laws, which say what ptrace(2), mmap(2) and mprotect(2) document about
-- the registers, the bytes and the protections; nothing is said of the result of any other system
-- call. A single step is known to change a mapping or a protection only if the instruction has run,
-- which shows in the instruction pointer; that it runs is known only where its page may be executed
-- and no signal ends the step. The source does not look at the status that `waitpid` gives, so that
-- no signal comes is a hypothesis of the theorems (Restorer/Process, IsUndisturbed); that the
-- instruction stays executable until its own mapping is protected last is proved
-- (Restorer/Rebuild/Site). The theorems hold for every kernel that obeys the laws; Tests/Machine is
-- one, on which a step on a page that may not be executed does nothing.
-- The layout of the registers in the header is a parameter.
--
-- Child has a record of calls and one of laws of its own, for the calls on descriptors; Tests/Desk
-- is a kernel that obeys them. Nothing is said of what the exec keeps of the descriptors.
--
-- Dumper/Dump/Documented says what is documented of the answers that a dump gets: the sizes that
-- ptrace and readlink give, the order and the extent of the mappings, the listing of descriptors,
-- and `qsort`. Tests/Documented has a process that answers so. `printf` and `vsnprintf` are modelled
-- for the formats that the checker uses; what `strerror` writes is a parameter.
--
-- A report is read back by a reader of JSON (Checker/Json/Parse) that takes texts with no space in
-- them, and integers for numbers. It takes the bytes from 0x80 on as they are, and so nothing is said
-- of the encoding of a whole report; of one string, Checker/Json/Utf8 does. Its fuel is the
-- length of the text, which is enough since each value takes a character.
--
-- Not modelled: the texts on stderr and the usage text; the web panel in Ksnap-web, which is written
-- in other languages; the test programs and scripts.
pub mod Base
pub mod Format
pub mod Maps
pub mod Args
pub mod Fds
pub mod Program
pub mod Dumper
pub mod Restorer
pub mod RoundTrip
pub mod Checker
mod Tests
