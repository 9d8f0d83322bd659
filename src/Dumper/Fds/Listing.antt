-- ===== src/Dumper/Fds/Listing.antt =====
-- What the kernel documents of a directory of descriptors, and what holds of the table while
-- `collect_fds` goes through it.
use Prim.Native.Nat.{bit_and}
use ksnap.Base.{ℕ, ◌^◌, ◌<◌, ◌≡◌, ◌≢◌, true, some, List, [], ◌∷◌, ◌++◌, length, All, All-append}
use ksnap.Base.Int.{ℤ, pos}
use ksnap.Base.Text.{Bytes}
use ksnap.Format.{FdDescriptor}
use ksnap.Fds.{digits, read_fd_state}
use ksnap.Restorer.FdTable.{fd_forbidden_flags}
use ksnap.Dumper.Pool.Laws.{IsPool}
use ksnap.Dumper.Fds.{FdTable, FdDirectory, first_is_digit}
use ksnap.Dumper.Fds.Entries.{IsLinkText, IsEntry}

abbrev pub number_of : Bytes → ℤ
number_of name = pos (digits 10 0 name)

-- No name of a descriptor has this number.
abbrev pub Unlisted : ℤ → List Bytes → Type 0
Unlisted fd [] = Unit
Unlisted fd (name ∷ names) = (first_is_digit name ≡ true → fd ≢ number_of name) × Unlisted fd names

-- The names of descriptors have different numbers.
abbrev pub DistinctNames : List Bytes → Type 0
DistinctNames [] = Unit
DistinctNames (name ∷ names) =
    (first_is_digit name ≡ true → Unlisted (number_of name) names) × DistinctNames names

pub record IsListing (names : List Bytes) : Type 0 where
  pub count32 : length names < 2 ^ 32
  pub numbers31 : All (λ name. digits 10 0 name < 2 ^ 31) names
  pub distinct : DistinctNames names

-- What the kernel documents of /proc/<pid>/fd and fdinfo: the texts of links are paths, the flags
-- are those of an open file, which has no creation flags, and each descriptor is listed once.
pub record IsDirectory (d : FdDirectory) : Type 0 where
  pub link_text : (fd : ℤ) {path : Bytes} → (d.link fd).text ≡ some path → IsLinkText path
  pub opened :
      (fd : ℤ) {position flags : ℕ}
      → read_fd_state (d.info fd) ≡ some (position, flags)
      → bit_and flags fd_forbidden_flags ≡ 0
  pub listing : {names : List Bytes} → d.names ≡ some names → IsListing names

-- No two entries have the same number.
abbrev pub Distinct : List FdDescriptor → Type 0
Distinct [] = Unit
Distinct (e ∷ fds) = All (λ (x : FdDescriptor). e.fd ≢ x.fd) fds × Distinct fds

-- The table is valid, and none of its numbers is among the names that are left.
pub record IsGathered (names : List Bytes) (t : FdTable) : Type 0 where
  pub entries : All (IsEntry t.pool.content) t.fds
  pub pool : IsPool t.pool
  pub distinct : Distinct t.fds
  pub unlisted : All (λ (e : FdDescriptor). Unlisted e.fd names) t.fds

pub Distinct-append :
    (fds : List FdDescriptor) (e : FdDescriptor)
    → Distinct fds
    → All (λ (x : FdDescriptor). x.fd ≢ e.fd) fds
    → Distinct (fds ++ (e ∷ []))
Distinct-append [] e h k = (tt, tt)
Distinct-append (x ∷ fds) e h k = (
  All-append (λ (y : FdDescriptor). x.fd ≢ y.fd) fds (e ∷ []) h.0 (k.0, tt),
  Distinct-append fds e h.1 k.1,
)

-- The name that is looked at is no longer among those that are left.
pub Unlisted-rest :
    (name : Bytes) (names : List Bytes) (fds : List FdDescriptor)
    → All (λ (e : FdDescriptor). Unlisted e.fd (name ∷ names)) fds
    → All (λ (e : FdDescriptor). Unlisted e.fd names) fds
Unlisted-rest name names [] h = tt
Unlisted-rest name names (e ∷ fds) h = (h.0.1, Unlisted-rest name names fds h.1)

pub Unlisted-first :
    (name : Bytes) (names : List Bytes) (fds : List FdDescriptor)
    → first_is_digit name ≡ true
    → All (λ (e : FdDescriptor). Unlisted e.fd (name ∷ names)) fds
    → All (λ (e : FdDescriptor). e.fd ≢ number_of name) fds
Unlisted-first name names [] is h = tt
Unlisted-first name names (e ∷ fds) is h = (h.0.0 is, Unlisted-first name names fds is h.1)

pub IsGathered-rest :
    (name : Bytes) (names : List Bytes) (t : FdTable)
    → IsGathered (name ∷ names) t
    → IsGathered names t
IsGathered-rest name names t g = record {
  entries = g.entries;
  pool = g.pool;
  distinct = g.distinct;
  unlisted = Unlisted-rest name names t.fds g.unlisted;
}
