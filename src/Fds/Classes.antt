-- ===== src/Fds/Classes.antt =====
-- Which descriptors fall in which class.
use ksnap.Base.{◌≡◌, refl, inl, inr, ◌↔◌, true, false, Option, none, some, arith, Option-cases}
use ksnap.Base.Int.{ℤ, pos, ◌≤ℤ◌}
use ksnap.Base.Text.{Bytes}
use ksnap.Fds.{
  fd_dump, FileStat, FdLink, is_deleted, reaches, is_volatile, classify_file, classify_link,
  classify_fd,
}

-- What the dump needs to carry a descriptor over: a link that can be read, an open regular file
-- that is not marked as deleted, and a path that still leads to that very file.
pub record IsReachable (l : FdLink) (path : Bytes) : Type 0 where
  pub text_is : l.text ≡ some path
  pub not_volatile : is_volatile path ≡ false
  pub file : FileStat
  pub file_is : l.open_file ≡ some file
  pub regular : file.is_regular ≡ true
  pub not_deleted : is_deleted path ≡ false
  pub found : FileStat
  pub found_is : l.by_path ≡ some found
  pub same_device : found.device ≡ file.device
  pub same_inode : found.inode ≡ file.inode

reaches_iff :
    (o : Option FileStat) (file : FileStat)
    → (reaches o file ≡ true) ↔ (
        (found : FileStat) × (o ≡ some found)
        × (found.device ≡ file.device)
        × (found.inode ≡ file.inode))
unfolding reaches
reaches_iff none file = (λ h. cc, λ (found, h, k, m). ground (arith, h))
reaches_iff (some f) file =
    (λ h. (f, refl, ground arith, ground arith), λ (found, h, k, m). ground (arith, h, k, m))

classify_file-fd_dump :
    (path : Bytes) (o : Option FileStat) (file : FileStat)
    → classify_file path o file ≡ fd_dump
    → (file.is_regular ≡ true) × (is_deleted path ≡ false) × (reaches o file ≡ true)
unfolding classify_file
classify_file-fd_dump path o file h = (ground arith, ground arith, ground arith)

classify_link-fd_dump :
    (path : Bytes) (l : FdLink)
    → l.text ≡ some path
    → classify_link path l ≡ fd_dump
    → IsReachable l path
unfolding classify_link
classify_link-fd_dump path l t h = elim (Option-cases l.open_file) [
  | inl gone ↦ ground (arith, gone)
  | inr (file, there) ↦
      let calm : is_volatile path ≡ false = ground arith in
      let (regular, kept, reached) =
        classify_file-fd_dump path l.by_path file (ground (arith, there)) in
      let (found, is, device, inode) = (reaches_iff l.by_path file).0 reached in
      record {
        text_is = t;
        not_volatile = calm;
        file = file;
        file_is = there;
        regular = regular;
        not_deleted = kept;
        found = found;
        found_is = is;
        same_device = device;
        same_inode = inode;
      }
]

-- A descriptor is carried over under a path exactly if it is above the standard ones, its link
-- reads as that path, which names no socket, pipe or anonymous inode and does not end in the mark
-- " (deleted)", whether the file is deleted or not, and the path leads to the very file that is
-- open, a regular one.
pub classify_fd-fd_dump :
    (fd : ℤ) (l : FdLink) (path : Bytes)
    → (classify_fd fd l ≡ (fd_dump, path)) ↔ ((pos 3 ≤ℤ fd) × IsReachable l path)
unfolding classify_fd classify_link classify_file
classify_fd-fd_dump fd l path = (
  λ h. elim (Option-cases l.text) [
    | inl none_read ↦ ground (arith, none_read)
    | inr (text, read) ↦
        (ground arith, classify_link-fd_dump path l (ground (arith, read)) (ground (arith, read)))
  ],
  λ (above, r). ground (
    arith,
    r.text_is,
    r.not_volatile,
    r.file_is,
    r.regular,
    r.not_deleted,
    (reaches_iff l.by_path r.file).1 (r.found, r.found_is, r.same_device, r.same_inode),
  ),
)
