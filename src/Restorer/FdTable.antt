-- ===== src/Restorer/FdTable.antt =====
-- `fits_in_file`, `compare_fd_number` and `read_fd_table` of Ksnap-engine/src/restorer.c.
pub mod Spec
use Prim.Native.Nat.{bit_and}
use ksnap.Base.{
  ℕ, ◌-◌, Bool, true, false, not, ◌&&◌, ◌||◌, Option, none, some, List, [], ◌∷◌, length, drop, take,
  get_or, ltb, leb, ◌==◌, if◌then◌else◌, Result, ok, err, ◌>>=◌, ◌>>◌, guard,
}
use ksnap.Base.Int.{ℤ, pos, minus_one, leb_ℤ, eqb_ℤ}
use ksnap.Base.Text.{Bytes, contains}
use ksnap.Base.Word.{mul64}
use ksnap.Format.{Header, FdDescriptor, fd_size, path_max}
use ksnap.Format.Codec.{get, take_all}
use ksnap.Format.Structs.{fd_codec}
use ksnap.Restorer.{
  MetadataError, out_of_memory, fd_table_truncated, no_path_pool, fd_table_read, path_pool_read,
  stdio_descriptor, not_ascending, dup_of_unknown, forbidden_flags, path_outside_pool,
  malformed_path, seek,
}

-- `O_CREAT | O_EXCL | O_TRUNC | (O_TMPFILE & ~O_DIRECTORY)` on x86-64
abbrev pub fd_forbidden_flags : ℕ
fd_forbidden_flags = 0o20001300

unfoldable pub fits_in_file : ℕ → ℕ → ℕ → Bool
fits_in_file offset size file_size = leb size file_size && leb offset (file_size - size)

-- `bsearch` by `compare_fd_number` in the entries before this one, which are sorted: whether one of
-- them compares equal.
unfoldable pub bsearch_fd : ℤ → List FdDescriptor → Bool
bsearch_fd key [] = false
bsearch_fd key (e ∷ earlier) = if eqb_ℤ e.fd key then true else bsearch_fd key earlier

-- `entry->fd <= fds[i - 1].fd`, with the entries before this one latest first
unfoldable pub not_above : FdDescriptor → List FdDescriptor → Bool
not_above entry [] = false
not_above entry (e ∷ earlier) = leb_ℤ entry.fd e.fd

-- The path is inside the pool with its terminator.
unfoldable pub path_in_pool : FdDescriptor → ℕ → Bool
path_in_pool e pool_size = not (
    e.path_len == 0
    || leb path_max e.path_len
    || leb pool_size e.path_offset
    || leb (pool_size - e.path_offset) e.path_len)

-- The terminator is where the length says, and there is none before.
unfoldable pub path_well_formed : FdDescriptor → Bytes → Bool
path_well_formed e pool =
    let path = drop e.path_offset pool in
    not (not (get_or path e.path_len 0 == 0) || contains (take e.path_len path) 0)

-- The body of the loop, in the order of the source.
unfoldable pub check_fd : Bytes → List FdDescriptor → FdDescriptor → Result MetadataError (Unit {0})
check_fd pool earlier e = do
  guard (not (leb_ℤ e.fd (pos 2))) stdio_descriptor
  guard (not (not_above e earlier)) not_ascending
  guard (not (not (eqb_ℤ e.dup_of minus_one) && not (bsearch_fd e.dup_of earlier))) dup_of_unknown
  guard (bit_and e.flags fd_forbidden_flags == 0) forbidden_flags
  guard (path_in_pool e (length pool)) path_outside_pool
  guard (path_well_formed e pool) malformed_path

unfoldable pub check_fds :
    Bytes → List FdDescriptor → List FdDescriptor → Result MetadataError (Unit {0})
check_fds pool earlier [] = ok tt
check_fds pool earlier (e ∷ fds) = elim (check_fd pool earlier e) [
  | err x ↦ err x
  | ok _ ↦ check_fds pool (e ∷ earlier) fds
]

unfoldable pub of_option {ℓ} : {A : Type ℓ} → MetadataError → Option A → Result MetadataError A
of_option e none = err e
of_option e (some a) = ok a

-- `fread` of a table or of bytes at an offset.
unfoldable pub read_fds_at : Bytes → ℕ → ℕ → Result MetadataError (List FdDescriptor)
unfolding of_option
read_fds_at file offset count = do
  at ← of_option fd_table_read (seek file offset)
  (fds, _) ← of_option fd_table_read (take_all fd_codec count at)
  ok fds

unfoldable pub read_bytes_at : MetadataError → Bytes → ℕ → ℕ → Result MetadataError Bytes
unfolding of_option
read_bytes_at e file offset count = do
  at ← of_option e (seek file offset)
  (bytes, _) ← of_option e (get count at)
  ok bytes

-- `alloc n` says whether `malloc(n)` succeeds. The pool is as long as its size in the header says,
-- so the loop takes the length for `header->path_pool_size`.
module _ (alloc : ℕ → Bool) where
  unfoldable pub read_fd_entries : Bytes → Header → Result MetadataError (List FdDescriptor × Bytes)
  read_fd_entries file h = do
    let table_size = mul64 h.fd_count fd_size
    guard
        (fits_in_file h.fd_table_offset table_size (length file)
          && fits_in_file h.path_pool_offset h.path_pool_size (length file))
        fd_table_truncated
    guard (not (h.path_pool_size == 0)) no_path_pool
    guard (alloc table_size && alloc h.path_pool_size) out_of_memory
    fds ← read_fds_at file h.fd_table_offset h.fd_count
    pool ← read_bytes_at path_pool_read file h.path_pool_offset h.path_pool_size
    check_fds pool [] fds
    ok (fds, pool)

  unfoldable pub read_fd_table : Bytes → Header → Result MetadataError (List FdDescriptor × Bytes)
  unfolding read_fd_entries
  read_fd_table file h =
      let entries = read_fd_entries file h in if h.fd_count == 0 then ok ([], []) else entries
