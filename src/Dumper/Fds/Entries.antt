-- ===== src/Dumper/Fds/Entries.antt =====
-- What `collect_fds` stores for each descriptor, before the table is sorted.
use Prim.Native.Nat.{bit_and}
use mathlib.Core.List.{append_assoc}
use mathlib.Core.Path.{subst}
use ksnap.Base.{
  ℕ, ◌+◌, ◌≤◌, ◌<◌, ◌≡◌, ◌≢◌, refl, sym, ap, ◌∙◌, List, [], ◌∷◌, ◌++◌, length, length-append, drop,
  take, get_or, drop-append, take-append, All, arith,
}
use ksnap.Base.Int.{pos, minus_one, ◌≤ℤ◌}
use ksnap.Base.Text.{Bytes}
use ksnap.Format.{FdDescriptor, path_max}
use ksnap.Format.Structs.{fd_codec}
use ksnap.Restorer.FdTable.{fd_forbidden_flags}
use ksnap.Restorer.FdTable.Spec.{PathAt}

-- The text of a link in /proc, as `readlink` gives it into a buffer of `path_max` bytes.
pub record IsLinkText (path : Bytes) : Type 0 where
  pub some_byte : 1 ≤ length path
  pub short : length path < path_max
  pub no_terminator : All (λ (c : ℕ). c ≢ 0) path

-- Where the terminated path stands in a pool.
pub record Stored (pool : Bytes) (offset : ℕ) (path : Bytes) : Type 0 where
  pub before : Bytes
  pub after : Bytes
  pub pool_is : pool ≡ before ++ (path ++ 0 ∷ after)
  pub offset_is : offset ≡ length before

pub record IsEntry (pool : Bytes) (e : FdDescriptor) : Type 0 where
  pub above_stdio : pos 3 ≤ℤ e.fd
  pub alone : e.dup_of ≡ minus_one
  pub creates_nothing : bit_and e.flags fd_forbidden_flags ≡ 0
  pub path : Bytes
  pub text : IsLinkText path
  pub path_len_is : e.path_len ≡ length path
  pub stored : Stored pool e.path_offset path
  pub fits : fd_codec.Fits e

-- A pool that grows keeps what is stored.
pub Stored-append :
    (pool more : Bytes) (offset : ℕ) (path : Bytes)
    → Stored pool offset path
    → Stored (pool ++ more) offset path
Stored-append pool more offset path s = record {
  before = s.before;
  after = s.after ++ more;
  pool_is =
      ap (λ p. p ++ more) s.pool_is
      ∙ append_assoc s.before (path ++ 0 ∷ s.after) more
      ∙ ap (λ tail. s.before ++ tail) (append_assoc path (0 ∷ s.after) more);
  offset_is = s.offset_is;
}

IsEntry-append : (pool more : Bytes) (e : FdDescriptor) → IsEntry pool e → IsEntry (pool ++ more) e
IsEntry-append pool more e v = record {
  above_stdio = v.above_stdio;
  alone = v.alone;
  creates_nothing = v.creates_nothing;
  path = v.path;
  text = v.text;
  path_len_is = v.path_len_is;
  stored = Stored-append pool more e.path_offset v.path v.stored;
  fits = v.fits;
}

pub All-IsEntry-append :
    (pool more : Bytes) (fds : List FdDescriptor)
    → All (IsEntry pool) fds
    → All (IsEntry (pool ++ more)) fds
All-IsEntry-append pool more [] h = tt
All-IsEntry-append pool more (e ∷ fds) h =
    (IsEntry-append pool more e h.0, All-IsEntry-append pool more fds h.1)

get_or-length : (path after : Bytes) → get_or (path ++ 0 ∷ after) (length path) 0 ≡ 0
get_or-length [] after = refl
get_or-length (c ∷ path) after = get_or-length path after

-- A stored path is a string of the pool as the restore wants it.
pub Stored-PathAt :
    (pool : Bytes) (offset : ℕ) (path : Bytes)
    → Stored pool offset path
    → All (λ (c : ℕ). c ≢ 0) path
    → PathAt pool offset (length path)
Stored-PathAt pool offset path s h =
    let at : drop offset pool ≡ path ++ 0 ∷ s.after =
      ap (λ o. drop o pool) s.offset_is
      ∙ ap (drop (length s.before)) s.pool_is
      ∙ drop-append s.before (path ++ 0 ∷ s.after) in
    record {
      terminated = ap (λ t. get_or t (length path) 0) at ∙ get_or-length path s.after;
      no_terminator =
          subst (λ t. All (λ (c : ℕ). c ≢ 0) t)
            (sym (ap (take (length path)) at ∙ take-append path (0 ∷ s.after))) h;
    }

pub Stored-inside :
    (pool : Bytes) (offset : ℕ) (path : Bytes)
    → Stored pool offset path
    → offset + length path < length pool
Stored-inside pool offset path s =
    rw (s.pool_is, s.offset_is)
      (omega
        (arith, length-append s.before (path ++ 0 ∷ s.after), length-append path (0 ∷ s.after)))
