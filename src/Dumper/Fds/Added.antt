-- ===== src/Dumper/Fds/Added.antt =====
-- What `collect_fds` adds to its table for one descriptor.
use Prim.Native.Nat.{bit_and}
use mathlib.Core.Path.{subst}
use ksnap.Base.{
  ℕ, ◌%◌, ◌^◌, ◌<◌, ◌≡◌, refl, inl, inr, Bool, some, List, [], ◌∷◌, ◌++◌, length, arith, Result, ok,
  ok-injective, >>=-eq-ok, Option-cases,
}
use ksnap.Base.Int.{ℤ, pos, minus_one, ◌≤ℤ◌, IsInt32}
use ksnap.Base.Text.{Bytes}
use ksnap.Format.{FdDescriptor, fd_size}
use ksnap.Fds.{read_fd_state}
use ksnap.Fds.Fitting.{read_fd_state-fits}
use ksnap.Restorer.FdTable.{fd_forbidden_flags}
use ksnap.Dumper.Errors.{CollectError, fd_table_out_of_memory}
use ksnap.Dumper.Pool.{PathPool, pool_append}
use ksnap.Dumper.Pool.Laws.{IsPool, pool_append-content}
use ksnap.Dumper.Vmas.{grow_table}
use ksnap.Dumper.Fds.{FdTable, FdDirectory, fd_table_initial_capacity, add_fd}
use ksnap.Dumper.Fds.Entries.{IsLinkText, Stored, IsEntry}
use ksnap.Dumper.Fds.Listing.{IsDirectory}

module _ (alloc : ℕ → Bool) (qsort : List FdDescriptor → List FdDescriptor) (d : FdDirectory) where
  -- A successful `add_fd` appends one entry for the descriptor, with its path in the pool.
  pub record Added (t t' : FdTable) (fd : ℤ) : Type 0 where
    pub entry : FdDescriptor
    pub fds_are : t'.fds ≡ t.fds ++ (entry ∷ [])
    pub fd_is : entry.fd ≡ fd
    pub more : Bytes
    pub content_is : t'.pool.content ≡ t.pool.content ++ more
    pub valid : IsEntry t'.pool.content entry
    pub pool : IsPool t'.pool

  module _ (t : FdTable) (fd : ℤ) (path : Bytes) where
    unfoldable pub new_fd : ℕ → ℕ → ℕ → FdDescriptor
    new_fd position flags offset = record {
      fd = fd;
      dup_of = minus_one;
      flags = flags;
      path_offset = offset;
      path_len = length path % 2 ^ 32;
      reserved = 0;
      position = position;
    }

    unfoldable pub new_table : ℕ → ℕ → ℕ → ℕ × PathPool → FdTable
    new_table n position flags r = record {
      fds = t.fds ++ (new_fd position flags r.0 ∷ []);
      capacity = n;
      pool = r.1;
    }

    -- What a successful `add_fd` has read and written.
    pub add_fd-eq-ok :
        {t' : FdTable}
        → add_fd alloc qsort d t fd path ≡ ok t'
        → (n position flags : ℕ) × (r : ℕ × PathPool) × (read_fd_state (d.info fd)
            ≡ some (position, flags))
          × (pool_append alloc t.pool path ≡ ok r)
          × (new_table n position flags r ≡ t')
    unfolding add_fd new_table new_fd
    add_fd-eq-ok {t'} e = elim (Option-cases (read_fd_state (d.info fd))) [
      | inl unread ↦ let (n, h, k) = >>=-eq-ok grows _ e in ground (arith, unread, k)
      | inr ((position, flags), is) ↦
          let (n, h, k) = >>=-eq-ok grows _ e in
          let (r, h', k') =
            >>=-eq-ok (pool_append alloc t.pool path) (λ r. ok (new_table n position flags r))
              {out = t'} (ground (arith, is, k)) in
          (n, position, flags, r, is, h', ok-injective k')
    ]
      where
        grows : Result CollectError ℕ
        grows =
            grow_table alloc fd_table_out_of_memory (length t.fds) t.capacity
              fd_table_initial_capacity fd_size

    new_fd-IsEntry :
        (position flags offset : ℕ) (content : Bytes)
        → pos 3 ≤ℤ fd
        → IsInt32 fd
        → IsLinkText path
        → bit_and flags fd_forbidden_flags ≡ 0
        → position < 2 ^ 64
        → flags < 2 ^ 32
        → offset < 2 ^ 32
        → Stored content offset path
        → IsEntry content (new_fd position flags offset)
    unfolding new_fd
    new_fd-IsEntry position flags offset content above int text plain p f o stored =
        let short = text.short in
        record {
          above_stdio = above;
          alone = refl;
          creates_nothing = plain;
          path = path;
          text = text;
          path_len_is = omega arith;
          stored = stored;
          fits = (int, (omega arith, (f, (o, (omega arith, (omega arith, p))))));
        }

    pub add_fd-Added :
        {t' : FdTable}
        → IsDirectory d
        → IsPool t.pool
        → pos 3 ≤ℤ fd
        → IsInt32 fd
        → IsLinkText path
        → add_fd alloc qsort d t fd path ≡ ok t'
        → Added t t' fd
    add_fd-Added {t'} dir v above int text e =
        let (n, position, flags, r, is, appended, made) = add_fd-eq-ok e in
        let (at, content, small, v') = pool_append-content alloc t.pool path v appended in
        let (p, f) = read_fd_state-fits (d.info fd) is in
        let stored : Stored r.1.content r.0 path = record {
          before = t.pool.content;
          after = [];
          pool_is = content;
          offset_is = at;
        } in
        let entry =
          new_fd-IsEntry position flags r.0 r.1.content above int text (dir.opened fd is) p f small
            stored in
        subst (λ u. Added t u fd) made
          (unfold new_table new_fd in
            record {
              entry = new_fd position flags r.0;
              fds_are = refl;
              fd_is = refl;
              more = path ++ 0 ∷ [];
              content_is = content;
              valid = entry;
              pool = v';
            })
