-- ===== src/Dumper/Payload/Progress.antt =====
-- The loops of `write_vma_payload` end: enough reads that transfer something give the payload.
use Prim.Native.Nat.{min}
use native.Mathlib.Decide.{dec_lt}
use ksnap.Base.{
  ℕ, zero, suc, ◌+◌, ◌-◌, ◌≤◌, ◌<◌, ◌≡◌, refl, Bool, true, List, [], ◌∷◌, ◌++◌, arith, ok,
}
use ksnap.Base.Text.{Bytes}
use ksnap.Base.Word.{add64}
use ksnap.Format.{VmaDescriptor}
use ksnap.Dumper.Image.{total_size}
use ksnap.Dumper.Payload.{
  Turn, reads, interrupted, failed, page_size, read_memory, write_payload, write_payloads,
}

-- At least `n` reads that transfer something come before any failure, and interruptions between.
abbrev pub Progress : List Turn → ℕ → Type 0
Progress [] zero = Unit
Progress [] (suc n) = ⊥
Progress (interrupted ∷ turns) n = Progress turns n
Progress (failed ∷ turns) zero = Unit
Progress (failed ∷ turns) (suc n) = ⊥
Progress (reads k ∷ turns) zero = Unit
Progress (reads k ∷ turns) (suc n) = (1 ≤ k) × Progress turns n

Progress-le : (turns : List Turn) (m n : ℕ) → m ≤ n → Progress turns n → Progress turns m
Progress-le [] zero n h p = tt
Progress-le [] (suc m) zero h p = absurd (omega arith)
Progress-le [] (suc m) (suc n) h p = absurd p
Progress-le (interrupted ∷ turns) m n h p = Progress-le turns m n h p
Progress-le (failed ∷ turns) zero n h p = tt
Progress-le (failed ∷ turns) (suc m) zero h p = absurd (omega arith)
Progress-le (failed ∷ turns) (suc m) (suc n) h p = absurd p
Progress-le (reads k ∷ turns) zero n h p = tt
Progress-le (reads k ∷ turns) (suc m) zero h p = absurd (omega arith)
Progress-le (reads k ∷ turns) (suc m) (suc n) h (pos', p) =
    (pos', Progress-le turns m n (omega arith) p)

module _ (mem : ℕ → ℕ) (accepts : Bytes → Bool) (room : (file : Bytes) → accepts file ≡ true) where
  write_payload_done :
      (turns : List Turn) (v : VmaDescriptor) (curr : ℕ) (file : Bytes)
      → v.size ≤ curr
      → write_payload mem accepts turns v curr file ≡ ok (file, turns)
  unfolding write_payload
  write_payload_done [] v curr file h = ground arith
  write_payload_done (interrupted ∷ turns) v curr file h = ground arith
  write_payload_done (failed ∷ turns) v curr file h = ground arith
  write_payload_done (reads k ∷ turns) v curr file h = ground arith

  write_payload-interrupted :
      (turns : List Turn) (v : VmaDescriptor) (curr : ℕ) (file : Bytes)
      → curr < v.size
      → write_payload mem accepts (interrupted ∷ turns) v curr file
        ≡ write_payload mem accepts turns v curr file
  unfolding write_payload
  write_payload-interrupted turns v curr file h = ground arith

  -- The number of bytes of one read.
  abbrev bytes_read : ℕ → VmaDescriptor → ℕ → ℕ
  bytes_read k v curr = min k (min (v.size - curr) page_size)

  abbrev sent : ℕ → VmaDescriptor → ℕ → Bytes → Bytes
  sent k v curr file = file ++ read_memory mem (add64 v.start_address curr) (bytes_read k v curr)

  write_payload-reads :
      (k : ℕ) (turns : List Turn) (v : VmaDescriptor) (curr : ℕ) (file : Bytes)
      → curr < v.size
      → 1 ≤ k
      → write_payload mem accepts (reads k ∷ turns) v curr file
        ≡ write_payload mem accepts turns v (curr + bytes_read k v curr) (sent k v curr file)
  unfolding write_payload
  write_payload-reads k turns v curr file h p = ground (arith, room (sent k v curr file))

  -- `m` is what later payloads still need.
  abbrev Ends : List Turn → VmaDescriptor → ℕ → ℕ → Bytes → Type 0
  Ends turns v curr m file =
      (r : Bytes × List Turn) × (write_payload mem accepts turns v curr file ≡ ok r)
      × Progress r.1 m

  write_payload-Ends_done :
      (turns : List Turn) (v : VmaDescriptor) (curr m n : ℕ) (file : Bytes)
      → v.size ≤ curr
      → n ≡ v.size - curr + m
      → Progress turns n
      → Ends turns v curr m file
  write_payload-Ends_done turns v curr m n file h e p =
      ((file, turns), write_payload_done turns v curr file h, Progress-le turns m n (omega arith) p)

  write_payload-Ends :
      (turns : List Turn) (v : VmaDescriptor) (curr m n : ℕ) (file : Bytes)
      → n ≡ v.size - curr + m
      → Progress turns n
      → Ends turns v curr m file
  write_payload-Ends [] v curr m n file e p = elim (dec_lt curr v.size) [
    | yes h ↦ absurd (no_turns n (omega arith) p)
    | no h ↦ write_payload-Ends_done [] v curr m n file (omega arith) e p
  ]
    where
      no_turns : (n : ℕ) → 0 < n → Progress [] n → ⊥
      no_turns zero h p = omega arith
      no_turns (suc n) h p = p
  write_payload-Ends (interrupted ∷ turns) v curr m n file e p = elim (dec_lt curr v.size) [
    | yes h ↦
        rw (write_payload-interrupted turns v curr file h)
          (write_payload-Ends turns v curr m n file e p)
    | no h ↦ write_payload-Ends_done (interrupted ∷ turns) v curr m n file (omega arith) e p
  ]
  write_payload-Ends (failed ∷ turns) v curr m zero file e p =
      write_payload-Ends_done (failed ∷ turns) v curr m zero file (omega arith) e p
  write_payload-Ends (failed ∷ turns) v curr m (suc n) file e p = absurd p
  write_payload-Ends (reads k ∷ turns) v curr m zero file e p =
      write_payload-Ends_done (reads k ∷ turns) v curr m zero file (omega arith) e p
  write_payload-Ends (reads k ∷ turns) v curr m (suc n) file e p = elim (dec_lt curr v.size) [
    | yes h ↦
        let step = bytes_read k v curr in
        rw (write_payload-reads k turns v curr file h p.0) (
          write_payload-Ends turns v (curr + step) m (v.size - (curr + step) + m)
            (sent k v curr file) refl (Progress-le turns _ n (omega arith) p.1))
    | no h ↦ write_payload-Ends_done (reads k ∷ turns) v curr m (suc n) file (omega arith) e p
  ]

  -- The whole table is written, if the reads suffice for all of it.
  pub write_payloads-ends :
      (turns : List Turn) (vmas : List VmaDescriptor) (file : Bytes)
      → Progress turns (total_size vmas)
      → (r : Bytes × List Turn) × (write_payloads mem accepts turns vmas file ≡ ok r)
  unfolding write_payloads
  write_payloads-ends turns [] file p = ((file, turns), refl)
  write_payloads-ends turns (v ∷ vmas) file p =
      let (mid, one, left) =
        write_payload-Ends turns v 0 (total_size vmas) (v.size + total_size vmas) file (omega arith)
          p in
      let (r, more) = write_payloads-ends mid.1 vmas mid.0 left in
      (r, rw (one, write_payloads) more)
