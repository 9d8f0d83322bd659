-- ===== src/Dumper/Payload/Copy.antt =====
-- A payload that was written is the memory of the mapping, however the reads were cut.
use Prim.Native.Nat.{min}
use mathlib.Core.List.{append-nil, append_assoc}
use ksnap.Base.{
  ℕ, zero, suc, ◌+◌, ◌-◌, ◌^◌, ◌≤◌, ◌<◌, ◌≡◌, refl, sym, ◌∙◌, ap, Bool, List, [], ◌∷◌, ◌++◌, length,
  All, arith, Result, ok, err,
}
use ksnap.Base.Text.{Bytes}
use ksnap.Base.Word.{add64}
use ksnap.Format.{VmaDescriptor}
use ksnap.Dumper.Payload.{
  Turn, reads, interrupted, failed, page_size, read_memory, WriteError, write_payload,
  write_payloads,
}

pub length-read_memory : (mem : ℕ → ℕ) (a n : ℕ) → length (read_memory mem a n) ≡ n
unfolding read_memory
length-read_memory mem a zero = refl
length-read_memory mem a (suc n) = ap suc (length-read_memory mem (a + 1) n)

read_memory-append :
    (mem : ℕ → ℕ) (a n m b k : ℕ)
    → a + n ≡ b
    → n + m ≡ k
    → read_memory mem a n ++ read_memory mem b m ≡ read_memory mem a k
unfolding read_memory
read_memory-append mem a zero m b k e f =
    let e' : b ≡ a = omega arith in let f' : k ≡ m = omega arith in rw (e', f')
read_memory-append mem a (suc n) m b zero e f = absurd (omega arith)
read_memory-append mem a (suc n) m b (suc k) e f =
    ap (◌∷◌ (mem a)) (read_memory-append mem (a + 1) n m b k (omega arith) (omega arith))

-- The memory of a mapping.
abbrev pub content : (ℕ → ℕ) → VmaDescriptor → Bytes
content mem v = read_memory mem v.start_address v.size

abbrev pub contents : (ℕ → ℕ) → List VmaDescriptor → Bytes
contents mem [] = []
contents mem (v ∷ vmas) = content mem v ++ contents mem vmas

-- A mapping ends within the address space.
abbrev pub InAddressSpace : VmaDescriptor → Type 0
InAddressSpace v = v.start_address + v.size ≤ 2 ^ 64

module _ (mem : ℕ → ℕ) (accepts : Bytes → Bool) where
  abbrev rest_of : VmaDescriptor → ℕ → Bytes
  rest_of v curr = read_memory mem (v.start_address + curr) (v.size - curr)

  finished :
      (v : VmaDescriptor) (curr : ℕ) (file : Bytes) → v.size ≤ curr → file ≡ file ++ rest_of v curr
  finished v curr file h =
      let none' : v.size - curr ≡ 0 = omega arith in
      rw none' (unfold read_memory in sym (append-nil file))

  one_read :
      (v : VmaDescriptor) (curr n : ℕ) (file : Bytes)
      → curr + n ≤ v.size
      → InAddressSpace v
      → 0 < n
      → (file ++ read_memory mem (add64 v.start_address curr) n) ++ rest_of v (curr + n)
        ≡ file ++ rest_of v curr
  one_read v curr n file h a p =
      let at : add64 v.start_address curr ≡ v.start_address + curr = omega arith in
      append_assoc file _ _
      ∙ ap (◌++◌ file) (
          rw at
            (read_memory-append mem (v.start_address + curr) n _ _ _ (omega arith) (omega arith)))

  write_payload-content :
      (turns : List Turn) (v : VmaDescriptor) (curr : ℕ) (file : Bytes) {file' : Bytes}
      {left : List Turn}
      → InAddressSpace v
      → curr ≤ v.size
      → write_payload mem accepts turns v curr file ≡ ok (file', left)
      → file' ≡ file ++ rest_of v curr
  unfolding write_payload
  write_payload-content [] v curr file a h e = ground (arith, finished v curr file)
  write_payload-content (interrupted ∷ turns) v curr file {file' = file'} {left = left} a h e =
      ground (
        arith,
        finished v curr file,
        write_payload-content turns v curr file {file' = file'} {left = left} a h,
      )
  write_payload-content (failed ∷ turns) v curr file a h e = ground (arith, finished v curr file)
  write_payload-content (reads k ∷ turns) v curr file {file' = file'} {left = left} a h e =
      let n = min k (min (v.size - curr) page_size) in
      let sent = file ++ read_memory mem (add64 v.start_address curr) n in
      ground (
        arith,
        finished v curr file,
        one_read v curr n file,
        write_payload-content turns v (curr + n) sent {file' = file'} {left = left} a,
      )

  rest_of_zero : (v : VmaDescriptor) (file : Bytes) → file ++ rest_of v 0 ≡ file ++ content mem v
  rest_of_zero v file =
      let at : v.start_address + 0 ≡ v.start_address = omega arith in
      let len : v.size - 0 ≡ v.size = omega arith in rw (at, len)

  write_payloads-cons :
      (turns : List Turn) (v : VmaDescriptor) (vmas : List VmaDescriptor) (file : Bytes)
      {r : Bytes × List Turn}
      → write_payloads mem accepts turns (v ∷ vmas) file ≡ ok r
      → (mid : Bytes × List Turn) × (write_payload mem accepts turns v 0 file ≡ ok mid)
        × (write_payloads mem accepts mid.1 vmas mid.0 ≡ ok r)
  unfolding write_payloads
  write_payloads-cons turns v vmas file {r} = go (write_payload mem accepts turns v 0 file) refl
    where
      go :
          (w : Result WriteError (Bytes × List Turn))
          → write_payload mem accepts turns v 0 file ≡ w
          → write_payloads mem accepts turns (v ∷ vmas) file ≡ ok r
          → (mid : Bytes × List Turn) × (write_payload mem accepts turns v 0 file ≡ ok mid)
            × (write_payloads mem accepts mid.1 vmas mid.0 ≡ ok r)
      go (ok mid) w h = (mid, w, rw (w, write_payloads) at h)
      go (err x) w h = absurd (cc (rw (w, write_payloads) at h))

  -- What was appended is the memory of the mappings, in table order.
  pub write_payloads-contents :
      (turns : List Turn) (vmas : List VmaDescriptor) (file : Bytes) {file' : Bytes}
      {left : List Turn}
      → All InAddressSpace vmas
      → write_payloads mem accepts turns vmas file ≡ ok (file', left)
      → file' ≡ file ++ contents mem vmas
  unfolding write_payloads
  write_payloads-contents turns [] file a e = ground (arith, append-nil file)
  write_payloads-contents turns (v ∷ vmas) file {file'} {left} (here, a) e =
      let (mid, one, more) = write_payloads-cons turns v vmas file e in
      write_payloads-contents mid.1 vmas mid.0 a more
      ∙ ap (λ (f : Bytes). f ++ contents mem vmas)
          (write_payload-content turns v 0 file {file' = mid.0} {left = mid.1} here (omega arith)
              one
            ∙ rest_of_zero v file)
      ∙ append_assoc file (content mem v) (contents mem vmas)
