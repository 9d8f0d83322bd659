-- ===== src/Dumper/Write/Layout.antt =====
-- The bytes of a snapshot file that was written, and that writing ends.
use mathlib.Core.List.{append-nil, append_assoc}
use ksnap.Base.{
  ℕ, ◌≡◌, refl, Bool, true, false, ◌&&◌, List, [], ◌∷◌, ◌++◌, length, All, arith, ltb, ◌==◌, ok,
  guard->>-eq-ok, >>=-eq-ok,
}
use ksnap.Base.Text.{Bytes}
use ksnap.Format.{FdDescriptor}
use ksnap.Format.Codec.{put_all}
use ksnap.Format.Structs.{fd_codec}
use ksnap.Dumper.{SnapshotParts}
use ksnap.Dumper.Image.{build_header, placed, header_bytes, vma_bytes, fd_bytes, front}
use ksnap.Dumper.Payload.{
  Turn, WriteError, header_write, vma_table_write, fd_table_write, path_pool_write, xstate_write,
  layout_mismatch, write_payloads,
}
use ksnap.Dumper.Payload.Copy.{contents, InAddressSpace, write_payloads-contents}
use ksnap.Dumper.Write.{Disk, append, append_if, write_body, write_snapshot}

module _ (d : Disk) (mem : ℕ → ℕ) (turns : List Turn) where
  append-eq-ok :
      (e : WriteError) (file chunk : Bytes) {g : Bytes}
      → append d mem turns e file chunk ≡ ok g
      → g ≡ file ++ chunk
  append-eq-ok e file chunk h = ground arith

  append_if-eq-ok :
      (wanted : Bool) (e : WriteError) (file chunk : Bytes) {g : Bytes}
      → (wanted ≡ false → chunk ≡ [])
      → append_if d mem turns wanted e file chunk ≡ ok g
      → g ≡ file ++ chunk
  append_if-eq-ok true e file chunk nothing h = append-eq-ok e file chunk h
  append_if-eq-ok false e file chunk nothing h = rw (nothing refl) (ground (arith, append-nil file))

  pub nothing_of_empty : (l : Bytes) → ltb 0 (length l) ≡ false → l ≡ []
  nothing_of_empty [] h = refl
  nothing_of_empty (x ∷ l) h = ground arith

  pub no_fd_bytes : (p : SnapshotParts) → ltb 0 (length p.fds) ≡ false → fd_bytes p ≡ []
  no_fd_bytes p = go p.fds
    where
      go : (l : List FdDescriptor) → ltb 0 (length l) ≡ false → put_all fd_codec l ≡ []
      go [] h = unfold put_all in refl
      go (x ∷ l) h = absurd (ground arith)

  pub regroup :
      (h v f p x : Bytes) {f1 f2 f3 f4 f5 : Bytes}
      → f1 ≡ h
      → f2 ≡ f1 ++ v
      → f3 ≡ f2 ++ f
      → f4 ≡ f3 ++ p
      → f5 ≡ f4 ++ x
      → f5 ≡ h ++ (v ++ (f ++ (p ++ x)))
  regroup h v f p x e1 e2 e3 e4 e5 = rw (e5, e4, e3, e2, e1) (simp append_assoc)

  layout_test : (tells : Bool) (a b : ℕ) → (tells && a == b) ≡ true → a ≡ b
  layout_test tells a b h = ground arith

  write_body-front :
      (p : SnapshotParts) {r : Bytes × List Turn}
      → write_body d mem turns p ≡ ok r
      → (write_payloads mem d.accepts turns (placed p) (front p) ≡ ok r)
        × (length (front p) ≡ (build_header p).data_offset)
  unfolding write_body
  write_body-front p {r} h =
      let (f1, h1, k1) = >>=-eq-ok (append d mem turns header_write [] (header_bytes p)) _ h in
      let (f2, h2, k2) = >>=-eq-ok (append d mem turns vma_table_write f1 (vma_bytes p)) _ k1 in
      let (f3, h3, k3) =
        >>=-eq-ok (append_if d mem turns (ltb 0 (length p.fds)) fd_table_write f2 (fd_bytes p)) _
          k2 in
      let (f4, h4, k4) =
        >>=-eq-ok (append_if d mem turns (ltb 0 (length p.pool)) path_pool_write f3 p.pool) _ k3 in
      let (f5, h5, k5) = >>=-eq-ok (append d mem turns xstate_write f4 p.xstate) _ k4 in
      let (test, k6) = guard->>-eq-ok _ layout_mismatch _ k5 in
      let whole =
        regroup _ _ _ _ _ (append-eq-ok header_write [] (header_bytes p) h1)
          (append-eq-ok vma_table_write f1 (vma_bytes p) h2)
          (append_if-eq-ok _ fd_table_write f2 (fd_bytes p) (no_fd_bytes p) h3)
          (append_if-eq-ok _ path_pool_write f3 p.pool (nothing_of_empty p.pool) h4)
          (append-eq-ok xstate_write f4 p.xstate h5) in
      rw (← whole) (k6, layout_test d.tells _ _ test)

  write_snapshot-write_body :
      (p : SnapshotParts) {r : Bytes × List Turn}
      → write_snapshot d mem turns p ≡ ok r
      → write_body d mem turns p ≡ ok r
  unfolding write_snapshot
  write_snapshot-write_body p h = ground arith

  -- A snapshot that was written is the header, the two tables, the path pool and the extended
  -- state, and behind them the memory of each mapping in table order; the payloads start where the
  -- header says.
  pub write_snapshot-bytes :
      (p : SnapshotParts) {file : Bytes} {left : List Turn}
      → All InAddressSpace (placed p)
      → write_snapshot d mem turns p ≡ ok (file, left)
      → (file ≡ front p ++ contents mem (placed p))
        × (length (front p) ≡ (build_header p).data_offset)
  write_snapshot-bytes p inside h =
      let (payloads, start) = write_body-front p (write_snapshot-write_body p h) in
      (write_payloads-contents mem d.accepts turns (placed p) (front p) inside payloads, start)
