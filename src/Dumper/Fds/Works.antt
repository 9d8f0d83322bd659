-- ===== src/Dumper/Fds/Works.antt =====
-- When `collect_fds` succeeds.
use ksnap.Base.{
  ℕ, ◌+◌, ◌*◌, ◌^◌, ◌<◌, ◌≡◌, ◌≢◌, refl, sym, ap, ◌∙◌, inl, inr, Bool, true, some, List, [], ◌∷◌,
  ◌++◌, length, length-append, All, arith, ok, ltb, if◌then◌else◌, Bool-cases,
}
use ksnap.Base.Int.{ℤ}
use ksnap.Base.Text.{Bytes}
use ksnap.Format.{FdDescriptor, fd_size, path_max}
use ksnap.Fds.{
  FdClass, fd_dump, fd_skip_stdio, fd_skip_volatile, fd_skip_unreachable, fd_skip_other,
  fd_unreadable, classify_fd, read_fd_state,
}
use ksnap.Fds.Classes.{classify_fd-fd_dump}
use ksnap.Dumper.Errors.{fd_table_out_of_memory}
use ksnap.Dumper.Pool.{PathPool, pool_append}
use ksnap.Dumper.Pool.Laws.{IsPool, pool_append-content, pool_append-works}
use ksnap.Dumper.Vmas.Works.{grow_table-works}
use ksnap.Dumper.Fds.{
  FdTable, FdDirectory, first_is_digit, fd_table_initial_capacity, add_fd, collect_fd, collect_name,
  collect_names, find_shared_files, collect_fds,
}
use ksnap.Dumper.Fds.Entries.{IsLinkText}
use ksnap.Dumper.Fds.Added.{new_fd, new_table}
use ksnap.Dumper.Fds.Listing.{number_of, IsDirectory}

-- The descriptor can be looked at, and its state can be read.
pub record IsReadable (d : FdDirectory) (fd : ℤ) : Type 0 where
  pub classified : (classify_fd fd (d.link fd)).0 ≢ fd_unreadable
  pub state : ℕ × ℕ
  pub state_is : read_fd_state (d.info fd) ≡ some state

abbrev pub AllReadable : FdDirectory → List Bytes → Type 0
AllReadable d names = All (λ name. first_is_digit name ≡ true → IsReadable d (number_of name)) names

-- A pool with room for `n` more paths of the greatest length.
record HasSpace (n : ℕ) (pool : PathPool) : Type 0 where
  valid : IsPool pool
  space : pool.size + n * path_max < 2 ^ 32

less_space : (n : ℕ) (pool : PathPool) → HasSpace (n + 1) pool → HasSpace n pool
less_space n pool h = record { valid = h.valid; space = omega (arith, h.space) }

module _ (alloc : ℕ → Bool) (qsort : List FdDescriptor → List FdDescriptor) (d : FdDirectory)
    (room : (n : ℕ) → alloc n ≡ true) (dir : IsDirectory d) where
  append-HasSpace :
      (n : ℕ) (pool : PathPool) (path : Bytes)
      → IsLinkText path
      → HasSpace (n + 1) pool
      → (r : ℕ × PathPool) × (pool_append alloc pool path ≡ ok r) × HasSpace n r.1
  append-HasSpace n pool path text h =
      let short = text.short in
      let space = h.space in
      let (r, appends) = pool_append-works alloc pool path room (omega (arith, short, space)) in
      let (at, content, small, valid) = pool_append-content alloc pool path h.valid appends in
      let grown : r.1.size ≡ pool.size + length path + 1 =
        sym valid.size_is
        ∙ ap (λ c. length c) content
        ∙ length-append pool.content (path ++ 0 ∷ [])
        ∙ omega (arith, h.valid.size_is, length-append path (0 ∷ [])) in
      (r, appends, record { valid = valid; space = omega (arith, grown, short, space) })

  add_fd-works :
      (n : ℕ) (t : FdTable) (fd : ℤ) (path : Bytes)
      → IsReadable d fd
      → IsLinkText path
      → HasSpace (n + 1) t.pool
      → (u : FdTable) × (add_fd alloc qsort d t fd path ≡ ok u) × HasSpace n u.pool
  unfolding add_fd new_table new_fd
  add_fd-works n t fd path readable text h =
      let (capacity, grows) =
        grow_table-works alloc room fd_table_out_of_memory (length t.fds) t.capacity
          fd_table_initial_capacity fd_size in
      let (r, appends, space) = append-HasSpace n t.pool path text h in
      let (position, flags) = readable.state in
      (
        new_table alloc qsort d t fd path capacity position flags r,
        rw (grows, readable.state_is, appends) refl,
        space,
      )

  collect_fd-works :
      (n : ℕ) (c : FdClass) (t : FdTable) (fd : ℤ) (path : Bytes)
      → IsReadable d fd
      → classify_fd fd (d.link fd) ≡ (c, path)
      → HasSpace (n + 1) t.pool
      → (u : FdTable) × (collect_fd alloc qsort d c t fd path ≡ ok u) × HasSpace n u.pool
  collect_fd-works n fd_skip_stdio t fd path readable is h = (t, refl, less_space n t.pool h)
  collect_fd-works n fd_skip_volatile t fd path readable is h = (t, refl, less_space n t.pool h)
  collect_fd-works n fd_skip_unreachable t fd path readable is h = (t, refl, less_space n t.pool h)
  collect_fd-works n fd_skip_other t fd path readable is h = (t, refl, less_space n t.pool h)
  collect_fd-works n fd_unreadable t fd path readable is h =
      absurd (readable.classified (ap (λ (r : FdClass × Bytes). r.0) is))
  collect_fd-works n fd_dump t fd path readable is h =
      let (above, reachable) = (classify_fd-fd_dump fd (d.link fd) path).0 is in
      add_fd-works n t fd path readable (dir.link_text fd reachable.text_is) h

  collect_name-works :
      (n : ℕ) (t : FdTable) (name : Bytes)
      → (first_is_digit name ≡ true → IsReadable d (number_of name))
      → HasSpace (n + 1) t.pool
      → (u : FdTable) × (collect_name alloc qsort d t name ≡ ok u) × HasSpace n u.pool
  collect_name-works n t name readable h = elim (Bool-cases (first_is_digit name)) [
    | inl is ↦
        let (c, path) = classify_fd (number_of name) (d.link (number_of name)) in
        let (u, e, space) = collect_fd-works n c t (number_of name) path (readable is) refl h in
        (u, (unfold collect_name in ground (arith, is, e)), space)
    | inr is_not ↦ (t, (unfold collect_name in ground (arith, is_not)), less_space n t.pool h)
  ]

  collect_names-step :
      (t u : FdTable) (name : Bytes) (names : List Bytes) {v : FdTable}
      → collect_name alloc qsort d t name ≡ ok u
      → collect_names alloc qsort d u names ≡ ok v
      → collect_names alloc qsort d t (name ∷ names) ≡ ok v
  unfolding collect_names
  collect_names-step t u name names e k = rw (e, collect_names) k

  -- Where every descriptor can be read, and the pool has room for the paths, the loop ends well.
  collect_names-works :
      (names : List Bytes) (t : FdTable)
      → AllReadable d names
      → HasSpace (length names) t.pool
      → (u : FdTable) × (collect_names alloc qsort d t names ≡ ok u)
  collect_names-works [] t readable h = (t, unfold collect_names in refl)
  collect_names-works (name ∷ names) t readable h =
      let (u, e, space) =
        collect_name-works (length names) t name readable.0
          (record { valid = h.valid; space = omega (arith, h.space) }) in
      let (v, k) = collect_names-works names u readable.1 space in
      (v, collect_names-step t u name names e k)

  collected : FdTable → List FdDescriptor × PathPool
  collected u = (
    find_shared_files d.kcmp u.pool.content []
        (if ltb 1 (length u.fds) then qsort u.fds else u.fds),
    u.pool,
  )

  collect_fds-collected :
      (names : List Bytes) (pool : PathPool) (u : FdTable)
      → d.names ≡ some names
      → collect_names alloc qsort d (record { fds = []; capacity = 0; pool = pool }) names ≡ ok u
      → collect_fds alloc qsort d pool ≡ ok (collected u)
  unfolding collect_fds collected
  collect_fds-collected names pool u is e = ground (arith, is, e)

  -- Where memory does not run out, every descriptor of the process can be read, and the pool has room
  -- for that many paths, the descriptors are collected.
  pub collect_fds-works :
      (names : List Bytes) (pool : PathPool)
      → d.names ≡ some names
      → AllReadable d names
      → IsPool pool
      → pool.size + length names * path_max < 2 ^ 32
      → (r : List FdDescriptor × PathPool) × (collect_fds alloc qsort d pool ≡ ok r)
  collect_fds-works names pool is readable valid space =
      let (u, e) =
        collect_names-works names (record { fds = []; capacity = 0; pool = pool }) readable
          (record { valid = valid; space = space }) in
      (collected u, collect_fds-collected names pool u is e)
