-- ===== src/Dumper/Fds/Gathered.antt =====
-- The loop of `collect_fds` over a directory as the kernel gives it.
use mathlib.Core.Path.{subst}
use ksnap.Base.{
  ℕ, ◌+◌, ◌^◌, ◌≤◌, ◌<◌, ◌≡◌, ◌≢◌, refl, sym, ap, inl, inr, Bool, true, List, [], ◌∷◌, length,
  length-append, All, All-append, arith, ok, ok-injective, >>=-eq-ok, Bool-cases,
}
use ksnap.Base.Int.{ℤ}
use ksnap.Base.Text.{Bytes}
use ksnap.Format.{FdDescriptor}
use ksnap.Fds.{
  FdClass, fd_dump, fd_skip_stdio, fd_skip_volatile, fd_skip_unreachable, fd_skip_other,
  fd_unreadable, classify_fd, digits,
}
use ksnap.Fds.Classes.{classify_fd-fd_dump}
use ksnap.Dumper.Fds.{FdTable, FdDirectory, first_is_digit, collect_fd, collect_name, collect_names}
use ksnap.Dumper.Fds.Entries.{IsEntry, All-IsEntry-append}
use ksnap.Dumper.Fds.Listing.{
  number_of, Unlisted, DistinctNames, IsDirectory, Distinct, IsGathered, Distinct-append,
  Unlisted-rest, Unlisted-first, IsGathered-rest,
}
use ksnap.Dumper.Fds.Added.{Added, new_fd, new_table, add_fd-eq-ok, add_fd-Added}

module _ (alloc : ℕ → Bool) (qsort : List FdDescriptor → List FdDescriptor) (d : FdDirectory) where
  Added-IsGathered :
      (name : Bytes) (names : List Bytes) (t t' : FdTable)
      → first_is_digit name ≡ true
      → Unlisted (number_of name) names
      → IsGathered (name ∷ names) t
      → Added alloc qsort d t t' (number_of name)
      → IsGathered names t'
  Added-IsGathered name names t t' is later g a =
      let kept =
        subst (λ c. All (IsEntry c) t.fds) (sym a.content_is)
          (All-IsEntry-append t.pool.content a.more t.fds g.entries) in
      let others =
        subst (λ n. All (λ (x : FdDescriptor). x.fd ≢ n) t.fds) (sym a.fd_is)
          (Unlisted-first name names t.fds is g.unlisted) in
      record {
        entries =
            subst (All (IsEntry t'.pool.content)) (sym a.fds_are)
              (All-append (IsEntry t'.pool.content) t.fds (a.entry ∷ []) kept (a.valid, tt));
        pool = a.pool;
        distinct = subst Distinct (sym a.fds_are) (Distinct-append t.fds a.entry g.distinct others);
        unlisted = subst (All (λ (e : FdDescriptor). Unlisted e.fd names)) (sym a.fds_are) (
            All-append (λ (e : FdDescriptor). Unlisted e.fd names) t.fds (a.entry ∷ [])
              (Unlisted-rest name names t.fds g.unlisted)
              (subst (λ n. Unlisted n names) (sym a.fd_is) later, tt));
      }

  collect_fd-IsGathered :
      IsDirectory d
      → (c : FdClass) (name : Bytes) (names : List Bytes) (t : FdTable) (path : Bytes)
        {t' : FdTable}
      → classify_fd (number_of name) (d.link (number_of name)) ≡ (c, path)
      → first_is_digit name ≡ true
      → digits 10 0 name < 2 ^ 31
      → Unlisted (number_of name) names
      → IsGathered (name ∷ names) t
      → collect_fd alloc qsort d c t (number_of name) path ≡ ok t'
      → IsGathered names t'
  collect_fd-IsGathered dir fd_skip_stdio name names t path k is int later g e =
      subst (IsGathered names) (ok-injective e) (IsGathered-rest name names t g)
  collect_fd-IsGathered dir fd_skip_volatile name names t path k is int later g e =
      subst (IsGathered names) (ok-injective e) (IsGathered-rest name names t g)
  collect_fd-IsGathered dir fd_skip_unreachable name names t path k is int later g e =
      subst (IsGathered names) (ok-injective e) (IsGathered-rest name names t g)
  collect_fd-IsGathered dir fd_skip_other name names t path k is int later g e =
      subst (IsGathered names) (ok-injective e) (IsGathered-rest name names t g)
  collect_fd-IsGathered dir fd_unreadable name names t path k is int later g e = cc
  collect_fd-IsGathered dir fd_dump name names t path {t'} k is int later g e =
      let fd = number_of name in
      let (above, reachable) = (classify_fd-fd_dump fd (d.link fd) path).0 k in
      Added-IsGathered name names t t' is later g (
        add_fd-Added alloc qsort d t fd path dir g.pool above int
          (dir.link_text fd reachable.text_is) e)

  pub collect_names-IsGathered :
      IsDirectory d
      → (names : List Bytes) (t : FdTable) {t' : FdTable}
      → All (λ name. digits 10 0 name < 2 ^ 31) names
      → DistinctNames names
      → IsGathered names t
      → collect_names alloc qsort d t names ≡ ok t'
      → IsGathered [] t'
  unfolding collect_names
  collect_names-IsGathered dir [] t ints distinct g e = subst (IsGathered []) (ok-injective e) g
  collect_names-IsGathered dir (name ∷ names) t ints distinct g e =
      let (u, h, k) =
        >>=-eq-ok (collect_name alloc qsort d t name) (λ u. collect_names alloc qsort d u names)
          e in
      let next : IsGathered names u = elim (Bool-cases (first_is_digit name)) [
        | inl is ↦
            let (c, path) = classify_fd (number_of name) (d.link (number_of name)) in
            collect_fd-IsGathered dir c name names t path refl is ints.0 (distinct.0 is) g
              (unfold collect_name in ground (arith, h, is))
        | inr is_not ↦
            subst (IsGathered names) (unfold collect_name in ground (arith, h, is_not))
              (IsGathered-rest name names t g)
      ] in
      collect_names-IsGathered dir names u ints.1 distinct.1 next k

  length-collect_fd :
      (c : FdClass) (t : FdTable) (fd : ℤ) (path : Bytes) {t' : FdTable}
      → collect_fd alloc qsort d c t fd path ≡ ok t'
      → length t'.fds ≤ length t.fds + 1
  unfolding new_table
  length-collect_fd fd_skip_stdio t fd path e = ground (arith, e)
  length-collect_fd fd_skip_volatile t fd path e = ground (arith, e)
  length-collect_fd fd_skip_unreachable t fd path e = ground (arith, e)
  length-collect_fd fd_skip_other t fd path e = ground (arith, e)
  length-collect_fd fd_unreadable t fd path e = cc
  length-collect_fd fd_dump t fd path {t'} e =
      let (n, position, flags, r, is, appended, made) = add_fd-eq-ok alloc qsort d t fd path e in
      let entry = new_fd alloc qsort d t fd path position flags r.0 in
      omega (arith, ap (λ (u : FdTable). length u.fds) (sym made), length-append t.fds (entry ∷ []))

  pub length-collect_names :
      (names : List Bytes) (t : FdTable) {t' : FdTable}
      → collect_names alloc qsort d t names ≡ ok t'
      → length t'.fds ≤ length t.fds + length names
  unfolding collect_names
  length-collect_names [] t e = ground (arith, e)
  length-collect_names (name ∷ names) t e =
      let (u, h, k) =
        >>=-eq-ok (collect_name alloc qsort d t name) (λ u. collect_names alloc qsort d u names)
          e in
      let (c, path) = classify_fd (number_of name) (d.link (number_of name)) in
      let one : length u.fds ≤ length t.fds + 1 = elim (Bool-cases (first_is_digit name)) [
        | inl is ↦
            length-collect_fd c t (number_of name) path {t' = u}
              (unfold collect_name in ground (arith, h, is))
        | inr is_not ↦ unfold collect_name in ground (arith, h, is_not)
      ] in
      omega (arith, one, length-collect_names names u k)
