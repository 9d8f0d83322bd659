-- ===== src/Restorer/Child.antt =====
-- `open_snapshot_fds` and `spawn_traced_child` of Ksnap-engine/src/restorer.c: the child's side of a
-- restore, before its exec. The calls on descriptors are a parameter, with what open(2), lseek(2),
-- dup2(2), close(2) and close_range(2) document as a record of laws.
pub mod Sought
pub mod Effect
pub mod Placed
use Prim.Native.Nat.{bit_and}
use ksnap.Base.{
  ℕ, ◌-◌, ◌≡◌, ◌≢◌, Bool, true, false, Option, none, some, List, [], ◌∷◌, drop, take, ◌==◌,
  if◌then◌else◌, Result, ok, err, ◌>>=◌,
}
use ksnap.Base.Int.{ℤ, pos, minus_one, ◌≤ℤ◌, eqb_ℤ}
use ksnap.Base.Text.{Bytes}
use ksnap.Format.{FdDescriptor, path_max}
use ksnap.Restorer.KernelMaps.{text_of}
use ksnap.Restorer.Rebuild.{o_cloexec}

abbrev pub o_path : ℕ
o_path = 0o10000000

-- An open file, as the descriptors that share it see it.
pub record OpenFile : Type 0 where
  pub path : Bytes
  pub flags : ℕ
  pub position : ℕ

-- The descriptors of a process: the open file that each stands for, if it is open, and the open
-- files.
pub record Table : Type 0 where
  pub at : ℤ → Option ℕ
  pub file : ℕ → OpenFile

-- The calls; `none` is a failure. The results of `close`, `personality` and `ptrace` are ignored.
pub record Files : Type 1 where
  pub State : Type 0
  pub close_range : State → Option State
  pub open_path : Bytes → ℕ → State → Option (ℤ × State)
  pub lseek : ℤ → ℕ → State → Option State
  pub dup2 : ℤ → ℤ → State → Option State
  pub close : ℤ → State → State
  pub personality : State → State
  pub traceme : State → State
  pub execv : Bytes → State → Option State

-- The descriptor `n` was free, and stands for a new open file.
pub record Opened (v v' : Table) (path : Bytes) (flags : ℕ) (n : ℤ) : Type 0 where
  pub id : ℕ
  pub was_free : v.at n ≡ none
  pub stands_for : v'.at n ≡ some id
  pub fresh : (m : ℤ) → v.at m ≢ some id
  pub file_is : v'.file id ≡ record { path = path; flags = flags; position = 0 }
  pub others : (m : ℤ) → m ≢ n → v'.at m ≡ v.at m
  pub files_kept : (j : ℕ) → j ≢ id → v'.file j ≡ v.file j

-- What is documented of the calls.
pub record IsFiles (k : Files) (table : k.State → Table) : Type 0 where
  pub close_range_closes :
      (s : k.State) {s' : k.State}
      → k.close_range s ≡ some s'
      → (n : ℤ) → pos 3 ≤ℤ n
      → (table s').at n ≡ none
  pub open_opens :
      (path : Bytes) (flags : ℕ) (s : k.State) {n : ℤ} {s' : k.State}
      → k.open_path path flags s ≡ some (n, s')
      → Opened (table s) (table s') path flags n
  pub lseek_at :
      (n : ℤ) (p : ℕ) (s : k.State) {s' : k.State}
      → k.lseek n p s ≡ some s'
      → (m : ℤ) → (table s').at m ≡ (table s).at m
  pub lseek_moves :
      (n : ℤ) (p : ℕ) (s : k.State) {id : ℕ} {s' : k.State}
      → k.lseek n p s ≡ some s'
      → (table s).at n ≡ some id
      → (table s').file id ≡ record ((table s).file id) { position = p }
  pub lseek_keeps :
      (n : ℤ) (p : ℕ) (s : k.State) {id : ℕ} {s' : k.State}
      → k.lseek n p s ≡ some s'
      → (table s).at n ≡ some id
      → (j : ℕ) → j ≢ id
      → (table s').file j ≡ (table s).file j
  pub dup2_open :
      (old new : ℤ) (s : k.State) {s' : k.State}
      → k.dup2 old new s ≡ some s'
      → (id : ℕ) × ((table s).at old ≡ some id)
  pub dup2_shares :
      (old new : ℤ) (s : k.State) {s' : k.State}
      → k.dup2 old new s ≡ some s'
      → (table s').at new ≡ (table s).at old
  pub dup2_others :
      (old new : ℤ) (s : k.State) {s' : k.State}
      → k.dup2 old new s ≡ some s'
      → (m : ℤ) → m ≢ new
      → (table s').at m ≡ (table s).at m
  pub dup2_files :
      (old new : ℤ) (s : k.State) {s' : k.State}
      → k.dup2 old new s ≡ some s'
      → (j : ℕ) → (table s').file j ≡ (table s).file j
  pub close_frees : (n : ℤ) (s : k.State) → (table (k.close n s)).at n ≡ none
  pub close_others :
      (n : ℤ) (s : k.State) (m : ℤ) → m ≢ n → (table (k.close n s)).at m ≡ (table s).at m
  pub close_files : (n : ℤ) (s : k.State) (j : ℕ) → (table (k.close n s)).file j ≡ (table s).file j

-- The messages of the child. Each ends it, so that the descriptors behind an error do not matter.
pub data ChildError : Type 0 where
  not_closed not_duplicated not_reopened not_sought not_moved exec_failed : ChildError

abbrev pub or_exit {ℓ} : {A : Type ℓ} → ChildError → Option A → Result ChildError A
or_exit e none = err e
or_exit e (some a) = ok a

-- `pool + entry->path_offset`, up to its terminator
abbrev pub path_of : Bytes → FdDescriptor → Bytes
path_of pool e = text_of (drop e.path_offset pool)

-- `entry->flags & ~O_CLOEXEC`
abbrev pub without_cloexec : ℕ → ℕ
without_cloexec flags = flags - bit_and flags o_cloexec

module _ (k : Files) where
  unfoldable pub seek_opened : FdDescriptor → ℤ → k.State → Result ChildError k.State
  seek_opened e opened s =
      if bit_and e.flags o_path == 0 then or_exit not_sought (k.lseek opened e.position s) else ok s

  unfoldable pub move_opened : FdDescriptor → ℤ → k.State → Result ChildError k.State
  move_opened e opened s =
      let moved = (do s' ← or_exit not_moved (k.dup2 opened e.fd s); ok (k.close opened s')) in
      if eqb_ℤ opened e.fd then ok s else moved

  unfoldable pub open_file : Bytes → FdDescriptor → k.State → Result ChildError k.State
  open_file pool e s = do
    (opened, s1) ← or_exit not_reopened (k.open_path (path_of pool e) (without_cloexec e.flags) s)
    s2 ← seek_opened e opened s1
    move_opened e opened s2

  unfoldable pub open_entry : Bytes → FdDescriptor → k.State → Result ChildError k.State
  open_entry pool e s =
      if eqb_ℤ e.dup_of minus_one
      then open_file pool e s
      else or_exit not_duplicated (k.dup2 e.dup_of e.fd s)

  unfoldable pub open_entries : Bytes → List FdDescriptor → k.State → Result ChildError k.State
  open_entries pool [] s = ok s
  open_entries pool (e ∷ fds) s = do s' ← open_entry pool e s; open_entries pool fds s'

  unfoldable pub open_snapshot_fds : List FdDescriptor → Bytes → k.State → Result ChildError k.State
  open_snapshot_fds fds pool s = do
    s' ← or_exit not_closed (k.close_range s)
    open_entries pool fds s'

  -- The child up to its exec, which it survives only by leaving this program; an error is its exit.
  unfoldable pub spawn_traced_child :
      Bytes → List FdDescriptor → Bytes → k.State → Result ChildError k.State
  spawn_traced_child exe_path fds pool s = do
    s' ← open_snapshot_fds fds pool s
    or_exit exec_failed
        (k.execv (take (path_max - 1) (text_of exe_path)) (k.traceme (k.personality s')))
