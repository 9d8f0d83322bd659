-- ===== src/Dumper/Fds.antt =====
-- `collect_fds` and `find_shared_files` of Ksnap-engine/src/dumper.c.
pub mod Shared
pub mod Entries
pub mod Listing
pub mod Added
pub mod Gathered
pub mod Ordered
pub mod Works
use ksnap.Base.{
  ℕ, ◌+◌, ◌*◌, ◌%◌, ◌^◌, Bool, true, false, not, ◌&&◌, ◌||◌, Option, none, some, List, [], ◌∷◌,
  ◌++◌, length, drop, ltb, ◌==◌, if◌then◌else◌, Result, ok, err, ◌>>=◌, ◌>>◌, guard,
}
use ksnap.Base.Int.{ℤ, pos, minus_one, eqb_ℤ}
use ksnap.Base.Text.{Bytes, same_text, is_digit}
use ksnap.Format.{FdDescriptor, fd_size}
use ksnap.Fds.{
  FdClass, fd_dump, fd_skip_stdio, fd_skip_volatile, fd_skip_unreachable, fd_skip_other,
  fd_unreadable, FdLink, classify_fd, digits, read_fd_state,
}
use ksnap.Dumper.Errors.{
  CollectError, fd_dir_not_opened, descriptor_unreadable, fd_table_out_of_memory,
  fd_state_unreadable,
}
use ksnap.Dumper.Pool.{PathPool, pool_append}
use ksnap.Dumper.Vmas.{grow_table}

-- What `kcmp` tells of two descriptors.
pub data Compared : Type 0 where
  compare_failed same_open_file different : Compared

-- What the inner loop over the earlier entries comes to.
pub data Search : Type 0 where
  search_failed no_original : Search
  original : ℤ → Search

-- The C string at an offset of the pool.
abbrev pub text_at : Bytes → Bytes
text_at [] = []
text_at (c ∷ s) = let rest = text_at s in if c == 0 then [] else c ∷ rest

abbrev of_compared : Compared → ℤ → Search
of_compared compare_failed fd = search_failed
of_compared same_open_file fd = original fd
of_compared different fd = no_original

abbrev pub marked : FdDescriptor → ℤ → FdDescriptor
marked e fd = record e { dup_of = fd }

module _ (kcmp : ℤ → ℤ → Compared) (pool : Bytes) where
  unfoldable pub try_original : FdDescriptor → FdDescriptor → Search
  try_original earlier e =
      if not (eqb_ℤ earlier.dup_of minus_one)
        || not (
            same_text (text_at (drop e.path_offset pool)) (text_at (drop earlier.path_offset pool)))
      then no_original
      else of_compared (kcmp earlier.fd e.fd) earlier.fd

  -- The inner loop. The earlier entries are given latest first, and looked at from the first one.
  unfoldable pub find_original : List FdDescriptor → FdDescriptor → Search
  find_original [] e = no_original
  find_original (x ∷ earlier) e = elim (find_original earlier e) [
    | search_failed ↦ search_failed
    | original fd ↦ original fd
    | no_original ↦ try_original x e
  ]

  unfoldable pub find_shared_files : List FdDescriptor → List FdDescriptor → List FdDescriptor
  unfolding find_original
  find_shared_files earlier [] = []
  find_shared_files earlier (e ∷ fds) = elim (find_original earlier e) [
    | search_failed ↦ e ∷ fds
    | no_original ↦ e ∷ find_shared_files (e ∷ earlier) fds
    | original fd ↦ marked e fd ∷ find_shared_files (marked e fd ∷ earlier) fds
  ]

-- The table so far.
pub record FdTable : Type 0 where
  pub fds : List FdDescriptor
  pub capacity : ℕ
  pub pool : PathPool

abbrev pub fd_table_initial_capacity : ℕ
fd_table_initial_capacity = 16

-- What the system tells of the descriptors of the process. `names` is what `readdir` gives, or
-- `none` where the directory cannot be opened.
pub record FdDirectory : Type 0 where
  pub names : Option (List Bytes)
  pub link : ℤ → FdLink
  pub info : ℤ → Option (List Bytes)
  pub kcmp : ℤ → ℤ → Compared

abbrev pub first_is_digit : Bytes → Bool
first_is_digit [] = false
first_is_digit (c ∷ s) = is_digit c

-- `qsort` is the sorting routine of the C library.
module _ (alloc : ℕ → Bool) (qsort : List FdDescriptor → List FdDescriptor) (d : FdDirectory) where
  unfoldable pub add_fd : FdTable → ℤ → Bytes → Result CollectError FdTable
  add_fd t fd path = do
    capacity ←
        grow_table alloc fd_table_out_of_memory (length t.fds) t.capacity fd_table_initial_capacity
          fd_size
    (position, flags) ← elim (read_fd_state (d.info fd)) [
      | none ↦ err fd_state_unreadable
      | some state ↦ ok state
    ]
    (path_offset, pool) ← pool_append alloc t.pool path
    ok (record {
      fds =
          t.fds
          ++ (record {
            fd = fd;
            dup_of = minus_one;
            flags = flags;
            path_offset = path_offset;
            path_len = length path % 2 ^ 32;
            reserved = 0;
            position = position;
          }
              ∷ []);
      capacity = capacity;
      pool = pool;
    })

  -- The tests on the class of a descriptor.
  abbrev pub collect_fd : FdClass → FdTable → ℤ → Bytes → Result CollectError FdTable
  collect_fd fd_skip_stdio t fd path = ok t
  collect_fd fd_unreadable t fd path = err descriptor_unreadable
  collect_fd fd_skip_volatile t fd path = ok t
  collect_fd fd_skip_unreachable t fd path = ok t
  collect_fd fd_skip_other t fd path = ok t
  collect_fd fd_dump t fd path = add_fd t fd path

  -- `atoi` of the name of an entry; the kernel numbers descriptors below 2 ^ 31, where it is exact.
  unfoldable pub collect_name : FdTable → Bytes → Result CollectError FdTable
  collect_name t name =
      let fd = pos (digits 10 0 name) in
      let (fd_class, path) = classify_fd fd (d.link fd) in
      if first_is_digit name then collect_fd fd_class t fd path else ok t

  unfoldable pub collect_names : FdTable → List Bytes → Result CollectError FdTable
  unfolding collect_name
  collect_names t [] = ok t
  collect_names t (name ∷ names) = elim (collect_name t name) [
    | err e ↦ err e
    | ok t' ↦ collect_names t' names
  ]

  abbrev pub sorted : List FdDescriptor → List FdDescriptor
  sorted fds = if ltb 1 (length fds) then qsort fds else fds

  unfoldable pub collect_fds : PathPool → Result CollectError (List FdDescriptor × PathPool)
  unfolding collect_names find_shared_files
  collect_fds pool = elim (d.names) [
    | none ↦ err fd_dir_not_opened
    | some names ↦ elim (collect_names (record { fds = []; capacity = 0; pool = pool }) names) [
      | err e ↦ err e
      | ok t ↦ ok (find_shared_files d.kcmp t.pool.content [] (sorted t.fds), t.pool)
    ]
  ]
