-- ===== src/Tests/Sorting.antt =====
-- A sorting routine as the C library documents `qsort`.
use mathlib.Core.List.{Permᴰ}
use mathlib.Core.List.Permᴰ as Permᴰ
use ksnap.Base.{
  refl, inl, inr, Bool, true, false, List, [], ◌∷◌, All, arith, Bool-cases, if◌then◌else◌,
}
use ksnap.Base.Int.{ℤ, ◌≤ℤ◌, leb_ℤ}
use ksnap.Format.{FdDescriptor}
use ksnap.Dumper.Fds.Ordered.{Ascending, IsSort}

insert : FdDescriptor → List FdDescriptor → List FdDescriptor
insert e [] = e ∷ []
insert e (x ∷ fds) = let later = insert e fds in if leb_ℤ e.fd x.fd then e ∷ x ∷ fds else x ∷ later

unfoldable pub sort : List FdDescriptor → List FdDescriptor
unfolding insert
sort [] = []
sort (e ∷ fds) = insert e (sort fds)

insert_permutes : (e : FdDescriptor) (fds : List FdDescriptor) → Permᴰ (insert e fds) (e ∷ fds)
unfolding insert
insert_permutes e [] = Permᴰ.refl (e ∷ [])
insert_permutes e (x ∷ fds) =
    either (leb_ℤ e.fd x.fd) (Permᴰ.refl (e ∷ x ∷ fds))
      (Permᴰ.trans (Permᴰ.cons refl (insert_permutes e fds)) (Permᴰ.swap refl refl))
  where
    either :
        (b : Bool) {l m n : List FdDescriptor}
        → Permᴰ l n
        → Permᴰ m n
        → Permᴰ (if b then l else m) n
    either true p q = p
    either false p q = q

sort_permutes : (fds : List FdDescriptor) → Permᴰ (sort fds) fds
unfolding sort
sort_permutes [] = Permᴰ.nil
sort_permutes (e ∷ fds) =
    Permᴰ.trans (insert_permutes e (sort fds)) (Permᴰ.cons refl (sort_permutes fds))

-- The first entry of a sorted list is the least.
le_trans :
    (a b : ℤ) (fds : List FdDescriptor)
    → a ≤ℤ b
    → All (λ (x : FdDescriptor). b ≤ℤ x.fd) fds
    → All (λ (x : FdDescriptor). a ≤ℤ x.fd) fds
le_trans a b [] h k = tt
le_trans a b (x ∷ fds) h k = (omega (arith, h, k.0), le_trans a b fds h k.1)

insert_above :
    (n : ℤ) (e : FdDescriptor) (fds : List FdDescriptor)
    → n ≤ℤ e.fd
    → All (λ (x : FdDescriptor). n ≤ℤ x.fd) fds
    → All (λ (x : FdDescriptor). n ≤ℤ x.fd) (insert e fds)
unfolding insert
insert_above n e [] h k = (h, tt)
insert_above n e (x ∷ fds) h k = elim (Bool-cases (leb_ℤ e.fd x.fd)) [
  | inl is ↦ rw (insert, is) (h, k)
  | inr is ↦ rw (insert, is) (k.0, insert_above n e fds h k.1)
]

insert_ascends :
    (e : FdDescriptor) (fds : List FdDescriptor) → Ascending fds → Ascending (insert e fds)
unfolding insert
insert_ascends e [] h = (tt, tt)
insert_ascends e (x ∷ fds) h = elim (Bool-cases (leb_ℤ e.fd x.fd)) [
  | inl is ↦
      let below : e.fd ≤ℤ x.fd = ground (arith, is) in
      rw (insert, is) ((below, le_trans e.fd x.fd fds below h.0), h)
  | inr is ↦
      let above : x.fd ≤ℤ e.fd = ground (arith, is) in
      rw (insert, is) (insert_above x.fd e fds above h.0, insert_ascends e fds h.1)
]

sort_ascends : (fds : List FdDescriptor) → Ascending (sort fds)
unfolding sort
sort_ascends [] = tt
sort_ascends (e ∷ fds) = insert_ascends e (sort fds) (sort_ascends fds)

pub sort-IsSort : IsSort sort
sort-IsSort = record { permutes = sort_permutes; ascends = sort_ascends }
