-- ===== src/Restorer/Metadata/Lengths.antt =====
-- What the restore reads at once is as long as it asked for.
use ksnap.Base.{
  ℕ, zero, suc, ◌≡◌, inl, inr, Option, none, some, List, [], ◌∷◌, length, arith, ok, >>=-eq-ok,
  Option-cases,
}
use ksnap.Base.Text.{Bytes}
use ksnap.Format.{VmaDescriptor, FdDescriptor}
use ksnap.Format.Codec.{Codec, get, take_all}
use ksnap.Format.Structs.{vma_codec, fd_codec}
use ksnap.Restorer.{vma_table_read, fd_table_read, MetadataError, seek}
use ksnap.Restorer.FdTable.{of_option, read_fds_at, read_bytes_at}
use ksnap.Restorer.Metadata.{read_vmas_at}

length-get : (n : ℕ) (bs : Bytes) {r : Bytes × Bytes} → get n bs ≡ some r → length r.0 ≡ n
unfolding get
length-get zero bs h = ground arith
length-get (suc n) [] h = cc
length-get (suc n) (b ∷ bs) {r} h = elim (Option-cases (get n bs)) [
  | inl e ↦ ground arith
  | inr (q, e) ↦ ground (arith, length-get n bs {r = q} e)
]

length-take_all :
    {A : Type 0} (c : Codec A) (n : ℕ) (bs : Bytes) {r : List A × Bytes}
    → take_all c n bs ≡ some r
    → length r.0 ≡ n
unfolding take_all
length-take_all c zero bs h = ground arith
length-take_all c (suc n) bs {r} h = elim (Option-cases (c.take bs)) [
  | inl e ↦ ground arith
  | inr (q, e) ↦ elim (Option-cases (take_all c n q.1)) [
    | inl e' ↦ ground arith
    | inr (q', e') ↦ ground (arith, length-take_all c n q.1 {r = q'} e')
  ]
]

pub of_option-eq-ok {ℓ} :
    {A : Type ℓ} (e : MetadataError) (o : Option A) {a : A} → of_option e o ≡ ok a → o ≡ some a
unfolding of_option
of_option-eq-ok e none h = cc
of_option-eq-ok e (some a) h = cc

pub length-read_bytes_at :
    (e : MetadataError) (file : Bytes) (offset n : ℕ) {b : Bytes}
    → read_bytes_at e file offset n ≡ ok b
    → length b ≡ n
unfolding read_bytes_at
length-read_bytes_at e file offset n {b} h =
    let (at, h1, k1) = >>=-eq-ok (of_option e (seek file offset)) _ h in
    let (r, h2, k2) = >>=-eq-ok (of_option e (get n at)) _ k1 in
    let len = length-get n at {r = r} (of_option-eq-ok e (get n at) h2) in ground arith

pub length-read_vmas_at :
    (file : Bytes) (offset n : ℕ) {l : List VmaDescriptor}
    → read_vmas_at file offset n ≡ ok l
    → length l ≡ n
unfolding read_vmas_at
length-read_vmas_at file offset n {l} h =
    let (at, h1, k1) = >>=-eq-ok (of_option vma_table_read (seek file offset)) _ h in
    let (r, h2, k2) = >>=-eq-ok (of_option vma_table_read (take_all vma_codec n at)) _ k1 in
    let len =
      length-take_all vma_codec n at {r = r} (of_option-eq-ok _ (take_all vma_codec n at) h2) in
    ground arith

pub length-read_fds_at :
    (file : Bytes) (offset n : ℕ) {l : List FdDescriptor}
    → read_fds_at file offset n ≡ ok l
    → length l ≡ n
unfolding read_fds_at
length-read_fds_at file offset n {l} h =
    let (at, h1, k1) = >>=-eq-ok (of_option fd_table_read (seek file offset)) _ h in
    let (r, h2, k2) = >>=-eq-ok (of_option fd_table_read (take_all fd_codec n at)) _ k1 in
    let len =
      length-take_all fd_codec n at {r = r} (of_option-eq-ok _ (take_all fd_codec n at) h2) in
    ground arith
