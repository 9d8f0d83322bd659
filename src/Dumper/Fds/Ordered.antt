-- ===== src/Dumper/Fds/Ordered.antt =====
-- The table of descriptors behind `qsort` and `find_shared_files`: one that the restore accepts and
-- whose numbers fit their fields.
use mathlib.Core.List.{Permᴰ}
use mathlib.Core.List.Permᴰ as Permᴰ
use mathlib.Core.Path.{subst}
use ksnap.Base.{
  suc, ◌≡◌, ◌≢◌, refl, sym, ap, ◌∙◌, inl, inr, Bool, true, false, ltb, if◌then◌else◌, List, [], ◌∷◌,
  length, All, arith,
}
use ksnap.Base.Int.{ℤ, ◌≤ℤ◌, ◌<ℤ◌, IsInt32}
use ksnap.Base.Text.{Bytes}
use ksnap.Format.{FdDescriptor}
use ksnap.Format.Structs.{fd_codec}
use ksnap.Restorer.FdTable.Spec.{Numbered, IsFdEntry, IsFdTable}
use ksnap.Dumper.Fds.{Compared, find_original, marked, find_shared_files}
use ksnap.Dumper.Fds.Shared.{
  Search-cases, length-find_shared_files, find_shared_files-IsFdTable, find_original-Numbered,
  find_shared_files-failed, find_shared_files-alone, find_shared_files-marked,
}
use ksnap.Dumper.Fds.Entries.{IsEntry, Stored-PathAt, Stored-inside}
use ksnap.Dumper.Fds.Listing.{Distinct}

-- In the order of `compare_fd_descriptors`.
abbrev pub Ascending : List FdDescriptor → Type 0
Ascending [] = Unit
Ascending (e ∷ fds) = All (λ (x : FdDescriptor). e.fd ≤ℤ x.fd) fds × Ascending fds

-- What the C library documents of `qsort`: the same entries, in order.
pub record IsSort (qsort : List FdDescriptor → List FdDescriptor) : Type 0 where
  pub permutes : (fds : List FdDescriptor) → Permᴰ (qsort fds) fds
  pub ascends : (fds : List FdDescriptor) → Ascending (qsort fds)

All-permuted :
    (P : FdDescriptor → Type 0) {xs ys : List FdDescriptor} → Permᴰ xs ys → All P ys → All P xs
All-permuted P Permᴰ.nil h = tt
All-permuted P (Permᴰ.cons e p) h = (subst P (sym e) h.0, All-permuted P p h.1)
All-permuted P (Permᴰ.swap e f) h = (subst P (sym e) h.1.0, (subst P (sym f) h.0, h.1.1))
All-permuted P (Permᴰ.trans p q) h = All-permuted P p (All-permuted P q h)

length-permuted : {xs ys : List FdDescriptor} → Permᴰ xs ys → length xs ≡ length ys
length-permuted Permᴰ.nil = refl
length-permuted (Permᴰ.cons e p) = ap suc (length-permuted p)
length-permuted (Permᴰ.swap e f) = refl
length-permuted (Permᴰ.trans p q) = length-permuted p ∙ length-permuted q

Distinct-permuted : {xs ys : List FdDescriptor} → Permᴰ xs ys → Distinct ys → Distinct xs
Distinct-permuted Permᴰ.nil h = tt
Distinct-permuted (Permᴰ.cons {a = a} {b = b} {l₁ = xs} e p) h = (
  subst (λ c. All (λ (x : FdDescriptor). c.fd ≢ x.fd) xs) (sym e)
      (All-permuted (λ (x : FdDescriptor). b.fd ≢ x.fd) p h.0),
  Distinct-permuted p h.1,
)
Distinct-permuted (Permᴰ.swap {b = b} {b' = b'} {l = l} e f) ((other, first), (second, rest)) =
    subst (λ c. Distinct (c ∷ b ∷ l)) (sym e)
      (subst (λ c. Distinct (b' ∷ c ∷ l)) (sym f)
        (((λ same. other (sym same)), second), (first, rest)))
Distinct-permuted (Permᴰ.trans p q) h = Distinct-permuted p (Distinct-permuted q h)

abbrev Strict : List FdDescriptor → Type 0
Strict [] = Unit
Strict (e ∷ fds) = All (λ (x : FdDescriptor). e.fd <ℤ x.fd) fds × Strict fds

strictly : (a b : ℤ) → a ≤ℤ b → a ≢ b → a <ℤ b
strictly a b h k = ground (arith, h, k)

All-strictly :
    (n : ℤ) (fds : List FdDescriptor)
    → All (λ (x : FdDescriptor). n ≤ℤ x.fd) fds
    → All (λ (x : FdDescriptor). n ≢ x.fd) fds
    → All (λ (x : FdDescriptor). n <ℤ x.fd) fds
All-strictly n [] h k = tt
All-strictly n (x ∷ fds) h k = (strictly n x.fd h.0 k.0, All-strictly n fds h.1 k.1)

Ascending-Strict : (fds : List FdDescriptor) → Ascending fds → Distinct fds → Strict fds
Ascending-Strict [] h k = tt
Ascending-Strict (e ∷ fds) h k = (All-strictly e.fd fds h.0 k.0, Ascending-Strict fds h.1 k.1)

-- Every entry is above all the earlier ones.
abbrev Above : List FdDescriptor → List FdDescriptor → Type 0
Above earlier fds = All (λ (e : FdDescriptor). All (λ (x : FdDescriptor). x.fd <ℤ e.fd) earlier) fds

Above-cons :
    (e : FdDescriptor) (earlier fds : List FdDescriptor)
    → All (λ (x : FdDescriptor). e.fd <ℤ x.fd) fds
    → Above earlier fds
    → Above (e ∷ earlier) fds
Above-cons e earlier [] h k = tt
Above-cons e earlier (x ∷ fds) h k = ((h.0, k.0), Above-cons e earlier fds h.1 k.1)

IsEntry-IsFdEntry :
    (pool : Bytes) (earlier : List FdDescriptor) (e : FdDescriptor)
    → IsEntry pool e
    → All (λ (x : FdDescriptor). x.fd <ℤ e.fd) earlier
    → IsFdEntry pool earlier e
IsEntry-IsFdEntry pool earlier e v below =
    let len = v.path_len_is in
    let inside = Stored-inside pool e.path_offset v.path v.stored in
    record {
      above_stdio = v.above_stdio;
      ascending = below;
      shares = inl v.alone;
      creates_nothing = v.creates_nothing;
      path_some = rw len v.text.some_byte;
      path_short = rw len v.text.short;
      path_inside = rw len inside;
      path_text = rw len (Stored-PathAt pool e.path_offset v.path v.stored v.text.no_terminator);
    }

Strict-IsFdTable :
    (pool : Bytes) (earlier fds : List FdDescriptor)
    → All (IsEntry pool) fds
    → Strict fds
    → Above earlier fds
    → IsFdTable pool earlier fds
Strict-IsFdTable pool earlier [] v s a = tt
Strict-IsFdTable pool earlier (e ∷ fds) v s a = (
  IsEntry-IsFdEntry pool earlier e v.0 a.0,
  Strict-IsFdTable pool (e ∷ earlier) fds v.1 s.1 (Above-cons e earlier fds s.0 a.1),
)

-- The numbers of the entries are those of an int.
fd_of-Fits :
    (key : ℤ) (fds : List FdDescriptor) → All fd_codec.Fits fds → Numbered key fds → IsInt32 key
fd_of-Fits key [] h n = absurd n
fd_of-Fits key (e ∷ fds) h (inl same) = subst IsInt32 same h.0.0
fd_of-Fits key (e ∷ fds) h (inr later) = fd_of-Fits key fds h.1 later

-- Marking shared files keeps the numbers fitting.
pub find_shared_files-Fits :
    (kcmp : ℤ → ℤ → Compared) (pool : Bytes) (earlier fds : List FdDescriptor)
    → All fd_codec.Fits earlier
    → All fd_codec.Fits fds
    → All fd_codec.Fits (find_shared_files kcmp pool earlier fds)
unfolding find_shared_files
find_shared_files-Fits kcmp pool earlier [] h k = tt
find_shared_files-Fits kcmp pool earlier (e ∷ fds) h k =
    elim (Search-cases (find_original kcmp pool earlier e)) [
      | inl s ↦ rw (find_shared_files-failed kcmp pool earlier e fds s) k
      | inr (inl s) ↦
          rw (find_shared_files-alone kcmp pool earlier e fds s)
            (k.0, find_shared_files-Fits kcmp pool (e ∷ earlier) fds (k.0, h) k.1)
      | inr (inr (n, s)) ↦
          let fits : fd_codec.Fits (marked e n) = (
            k.0.0,
            (fd_of-Fits n earlier h (find_original-Numbered kcmp pool earlier e s), k.0.1.1),
          ) in
          rw (find_shared_files-marked kcmp pool earlier e fds s)
            (fits, find_shared_files-Fits kcmp pool (marked e n ∷ earlier) fds (fits, h) k.1)
    ]

All-Fits : (pool : Bytes) (fds : List FdDescriptor) → All (IsEntry pool) fds → All fd_codec.Fits fds
All-Fits pool [] h = tt
All-Fits pool (e ∷ fds) h = (h.0.fits, All-Fits pool fds h.1)

nothing-Above : (fds : List FdDescriptor) → Above [] fds
nothing-Above [] = tt
nothing-Above (e ∷ fds) = (tt, nothing-Above fds)

-- What the call of `qsort` leaves, which is made only where there is something to sort.
record IsSorted (fds sorted_fds : List FdDescriptor) : Type 0 where
  same_entries : Permᴰ sorted_fds fds
  in_order : Ascending sorted_fds

if-IsSorted :
    (qsort : List FdDescriptor → List FdDescriptor)
    → IsSort qsort
    → (fds : List FdDescriptor) (many : Bool) → (many ≡ false → Ascending fds)
    → IsSorted fds (if many then qsort fds else fds)
if-IsSorted qsort sort fds true few = record {
  same_entries = sort.permutes fds;
  in_order = sort.ascends fds;
}
if-IsSorted qsort sort fds false few = record { same_entries = Permᴰ.refl fds; in_order = few refl }

few-Ascending : (fds : List FdDescriptor) → ltb 1 (length fds) ≡ false → Ascending fds
few-Ascending [] h = tt
few-Ascending (e ∷ []) h = (tt, tt)
few-Ascending (e ∷ f ∷ fds) h = absurd (ground (arith, h))

-- The table that `collect_fds` makes of what it gathered.
pub gathered-IsFdTable :
    (qsort : List FdDescriptor → List FdDescriptor)
    → IsSort qsort
    → (kcmp : ℤ → ℤ → Compared) (pool : Bytes) (fds : List FdDescriptor) → All (IsEntry pool) fds
    → Distinct fds
    → let sorted_fds = if ltb 1 (length fds) then qsort fds else fds in
      let marked_fds = find_shared_files kcmp pool [] sorted_fds in
      IsFdTable pool [] marked_fds × All fd_codec.Fits marked_fds × (length marked_fds ≡ length fds)
gathered-IsFdTable qsort sort kcmp pool fds entries distinct =
    let sorted_fds = if ltb 1 (length fds) then qsort fds else fds in
    let s = if-IsSorted qsort sort fds (ltb 1 (length fds)) (few-Ascending fds) in
    let entries' = All-permuted (IsEntry pool) s.same_entries entries in
    let strict =
      Ascending-Strict sorted_fds s.in_order (Distinct-permuted s.same_entries distinct) in
    (
      find_shared_files-IsFdTable kcmp pool [] sorted_fds
          (Strict-IsFdTable pool [] sorted_fds entries' strict (nothing-Above sorted_fds)),
      find_shared_files-Fits kcmp pool [] sorted_fds tt (All-Fits pool sorted_fds entries'),
      length-find_shared_files kcmp pool [] sorted_fds ∙ length-permuted s.same_entries,
    )
