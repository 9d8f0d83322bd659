-- ===== src/RoundTrip/Places.antt =====
-- Where each part of a written file is found again.
use mathlib.Core.List.{append_assoc}
use ksnap.Base.{
  ℕ, suc, ◌+◌, ◌-◌, ◌*◌, ◌^◌, ◌<◌, ◌≡◌, refl, sym, ◌∙◌, ap, some, List, [], ◌∷◌, ◌++◌, length,
  length-append, drop, drop-append, take, replicate, All, arith, lt→ltb, ok,
}
use ksnap.Base.Text.{Bytes}
use ksnap.Format.{VmaDescriptor, FdDescriptor, header_size, vma_size, fd_size, path_max}
use ksnap.Format.Codec.{get-append, put_all, take_all-put_all, length-put_all}
use ksnap.Format.Structs.{
  vma_codec, fd_codec, header_codec, vma_codec-IsLawful, fd_codec-IsLawful, header_codec-IsLawful,
}
use ksnap.Dumper.{SnapshotParts}
use ksnap.Dumper.Image.{build_header, padded, placed, header_bytes, vma_bytes, fd_bytes, front}
use ksnap.Dumper.WellFormed.{
  IsWritable, offsets, header-Fits, vmas-Fits, length-header, length-vmas,
}
use ksnap.Restorer.{MetadataError, seek}
use ksnap.Restorer.FdTable.{read_fds_at, read_bytes_at}
use ksnap.Restorer.Metadata.{terminate, read_vmas_at}

seek-append :
    (file a b : Bytes) (n : ℕ) → file ≡ a ++ b → length a ≡ n → n < 2 ^ 63 → seek file n ≡ some b
seek-append file a b n split len small =
    rw (lt→ltb n (2 ^ 63) small, split, ← len) (ap some (drop-append a b))

read_bytes_at-append :
    (e : MetadataError) (file b c : Bytes) (n m : ℕ)
    → seek file n ≡ some (b ++ c)
    → length b ≡ m
    → read_bytes_at e file n m ≡ ok b
unfolding read_bytes_at
read_bytes_at-append e file b c n m s len = rw (s, ← len) (rw (get-append b c))

terminate_padded :
    (e : Bytes) (k : ℕ)
    → take (length e) (e ++ replicate (suc k) 0)
        ++ 0 ∷ drop (suc (length e)) (e ++ replicate (suc k) 0)
      ≡ e ++ replicate (suc k) 0
terminate_padded [] k = refl
terminate_padded (x ∷ e) k = ap (◌∷◌ x) (terminate_padded e k)

read_vmas_at-append :
    (file c : Bytes) (n m : ℕ) (l : List VmaDescriptor)
    → seek file n ≡ some (put_all vma_codec l ++ c)
    → length l ≡ m
    → All vma_codec.Fits l
    → read_vmas_at file n m ≡ ok l
unfolding read_vmas_at
read_vmas_at-append file c n m l s len fits =
    rw (s, ← len) (rw (take_all-put_all vma_codec vma_codec-IsLawful l c fits))

read_fds_at-append :
    (file c : Bytes) (n : ℕ) (l : List FdDescriptor)
    → seek file n ≡ some (put_all fd_codec l ++ c)
    → All fd_codec.Fits l
    → read_fds_at file n (length l) ≡ ok l
unfolding read_fds_at
read_fds_at-append file c n l s fits =
    rw s (rw (take_all-put_all fd_codec fd_codec-IsLawful l c fits))

module _ (h v f o x y : Bytes) where
  abbrev six : Bytes
  six = (h ++ (v ++ (f ++ (o ++ x)))) ++ y

  split_after_header : six ≡ h ++ (v ++ (f ++ (o ++ (x ++ y))))
  split_after_header = simp append_assoc

  split_after_vmas : six ≡ (h ++ v) ++ (f ++ (o ++ (x ++ y)))
  split_after_vmas = simp append_assoc

  split_after_fds : six ≡ (h ++ (v ++ f)) ++ (o ++ (x ++ y))
  split_after_fds = simp append_assoc

  split_after_pool : six ≡ (h ++ (v ++ (f ++ o))) ++ (x ++ y)
  split_after_pool = simp append_assoc

  length_front :
      (a b c d : ℕ)
      → length h ≡ a
      → length v ≡ b
      → length f ≡ c
      → length o ≡ d
      → (length (h ++ v) ≡ a + b)
        × (length (h ++ (v ++ f)) ≡ a + b + c)
        × (length (h ++ (v ++ (f ++ o))) ≡ a + b + c + d)
  length_front a b c d ha hb hc hd = (
    length-append h v ∙ omega arith,
    length-append h (v ++ f) ∙ omega (arith, length-append v f),
    length-append h (v ++ (f ++ o)) ∙ omega (arith, length-append v (f ++ o), length-append f o),
  )

module _ (p : SnapshotParts) (w : IsWritable p) (payload : Bytes) where
  abbrev pub file_of : Bytes
  file_of = front p ++ payload

  pub take-header :
      header_codec.take file_of
      ≡ some (build_header p, (vma_bytes p ++ (fd_bytes p ++ (p.pool ++ p.xstate))) ++ payload)
  take-header =
      rw append_assoc (header_codec-IsLawful.take-put (build_header p) _ (header-Fits p w))

  pub terminate-build_header : terminate (build_header p) ≡ build_header p
  unfolding terminate build_header
  terminate-build_header =
      ap (λ (path : Bytes). record (build_header p) { exe_path = path }) terminated
    where
      terminated :
          take (length p.exe_path) (padded path_max 0 p.exe_path)
            ++ 0 ∷ drop (length p.exe_path + 1) (padded path_max 0 p.exe_path)
          ≡ padded path_max 0 p.exe_path
      terminated =
          let zeros : path_max - length p.exe_path ≡ suc (path_max - length p.exe_path - 1) =
            omega (arith, w.exe_path_short) in
          let next : length p.exe_path + 1 ≡ suc (length p.exe_path) = omega arith in
          rw (zeros, next) (terminate_padded p.exe_path _)

  places :
      (length (header_bytes p ++ vma_bytes p) ≡ header_size + length p.vmas * vma_size)
      × (length (header_bytes p ++ (vma_bytes p ++ fd_bytes p))
          ≡ header_size + length p.vmas * vma_size + length p.fds * fd_size)
      × (length (header_bytes p ++ (vma_bytes p ++ (fd_bytes p ++ p.pool)))
          ≡ header_size + length p.vmas * vma_size + length p.fds * fd_size + length p.pool)
  places =
      length_front (header_bytes p) (vma_bytes p) (fd_bytes p) p.pool p.xstate payload _ _ _ _
        (length-header p w)
        (length-put_all vma_codec vma_codec-IsLawful (placed p) (vmas-Fits p w)
          ∙ ap (λ (n : ℕ). n * vma_size) (length-vmas p w))
        (length-put_all fd_codec fd_codec-IsLawful p.fds w.fds_fit) refl

  pub read_vmas : read_vmas_at file_of header_size (length p.vmas) ≡ ok (placed p)
  read_vmas =
      read_vmas_at-append file_of _ header_size (length p.vmas) (placed p)
        (seek-append file_of (header_bytes p) _ header_size
          (split_after_header (header_bytes p) (vma_bytes p) (fd_bytes p) p.pool p.xstate payload)
          (length-header p w) (omega arith))
        (length-vmas p w) (vmas-Fits p w)

  pub read_fds : read_fds_at file_of (build_header p).fd_table_offset (length p.fds) ≡ ok p.fds
  read_fds =
      let o = (offsets p w).fd_table in
      read_fds_at-append file_of _ _ p.fds
        (seek-append file_of (header_bytes p ++ vma_bytes p) _ _
          (split_after_vmas (header_bytes p) (vma_bytes p) (fd_bytes p) p.pool p.xstate payload)
          (places.0 ∙ sym o) (omega (arith, w.file_small, o)))
        w.fds_fit

  pub read_pool :
      (e : MetadataError)
      → read_bytes_at e file_of (build_header p).path_pool_offset (length p.pool) ≡ ok p.pool
  read_pool e =
      let o = (offsets p w).path_pool in
      read_bytes_at-append e file_of p.pool (p.xstate ++ payload) _ _
        (seek-append file_of (header_bytes p ++ (vma_bytes p ++ fd_bytes p)) _ _
          (split_after_fds (header_bytes p) (vma_bytes p) (fd_bytes p) p.pool p.xstate payload)
          (places.1 ∙ sym o) (omega (arith, w.file_small, o)))
        refl

  pub read_xstate :
      (e : MetadataError)
      → read_bytes_at e file_of (build_header p).xstate_offset (length p.xstate) ≡ ok p.xstate
  read_xstate e =
      let o = (offsets p w).xstate in
      read_bytes_at-append e file_of p.xstate payload _ _
        (seek-append file_of (header_bytes p ++ (vma_bytes p ++ (fd_bytes p ++ p.pool))) _ _
          (split_after_pool (header_bytes p) (vma_bytes p) (fd_bytes p) p.pool p.xstate payload)
          (places.2 ∙ sym o) (omega (arith, w.file_small, o)))
        refl
