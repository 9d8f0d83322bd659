-- ===== src/Dumper/Pool/Laws.antt =====
-- The path pool keeps its invariant, and what was appended is found at its offset.
use native.Mathlib.Nat.{mul_assoc, pow-succ'}
use ksnap.Base.{
  ℕ, zero, suc, ◌+◌, ◌*◌, ◌^◌, ◌≤◌, ◌<◌, ◌≡◌, refl, Bool, true, [], ◌∷◌, ◌++◌, length,
  length-append, arith, ltb, if◌then◌else◌, ok,
}
use ksnap.Base.Text.{Bytes}
use ksnap.Dumper.Pool.{PathPool, empty_pool, grow_capacity, grown, pool_append}

-- The size is that of the content, has room in the buffer, and fits 32 bits.
pub record IsPool (pool : PathPool) : Type 0 where
  pub size_is : length pool.content ≡ pool.size
  pub within : pool.size ≤ pool.capacity
  pub small : pool.size < 2 ^ 32

pub empty_pool-IsPool : IsPool empty_pool
empty_pool-IsPool = record { size_is = refl; within = omega arith; small = omega arith }

grow_capacity-ge :
    (rounds capacity needed : ℕ)
    → needed ≤ capacity * 2 ^ rounds
    → needed ≤ grow_capacity rounds capacity needed
unfolding grow_capacity
grow_capacity-ge zero capacity needed h = omega arith
grow_capacity-ge (suc rounds) capacity needed h =
    ground (arith, grow_capacity-ge rounds (capacity * 2) needed (doubled capacity rounds needed h))
  where
    doubled : (c r n : ℕ) → n ≤ c * 2 ^ suc r → n ≤ c * 2 * 2 ^ r
    doubled c r n h = rw (mul_assoc c 2 (2 ^ r), ← pow-succ' 2 r) h

grown-ge : (capacity needed : ℕ) → needed < 2 ^ 32 → needed ≤ grown capacity needed
grown-ge capacity needed h =
    ground (arith, grow_capacity-ge 32 4096 needed, grow_capacity-ge 32 (capacity * 2) needed)

module _ (alloc : ℕ → Bool) where
  length-terminated :
      (content path : Bytes)
      → length (content ++ (path ++ 0 ∷ [])) ≡ length content + length path + 1
  length-terminated content path =
      omega (arith, length-append content (path ++ 0 ∷ []), length-append path (0 ∷ []))

  -- An append gives the offset at which the path starts in the new content, a number of 32 bits,
  -- puts a terminator behind it, leaves what was there, and keeps the pool well formed.
  pub pool_append-content :
      (pool : PathPool) (path : Bytes) {offset : ℕ} {pool' : PathPool}
      → IsPool pool
      → pool_append alloc pool path ≡ ok (offset, pool')
      → (offset ≡ length pool.content)
        × (pool'.content ≡ pool.content ++ (path ++ 0 ∷ []))
        × (offset < 2 ^ 32)
        × IsPool pool'
  unfolding pool_append
  pool_append-content pool path {offset} {pool'} v e =
      let big = grown-ge pool.capacity (pool.size + length path + 1) in
      let size' : pool'.size ≡ pool.size + length path + 1 = ground arith in
      let content' : pool'.content ≡ pool.content ++ (path ++ 0 ∷ []) = ground arith in
      let within' : pool.size + length path + 1 ≤ pool'.capacity = ground (arith, big) in
      let small' : pool.size + length path + 1 < 2 ^ 32 = ground arith in
      (
        ground arith,
        content',
        ground arith,
        record {
          size_is = rw content' (omega (arith, length-terminated pool.content path));
          within = omega arith;
          small = omega arith;
        },
      )

  -- Where memory does not run out and the pool with the path and its terminator stays below 2 ^ 32
  -- bytes, an append succeeds.
  pub pool_append-works :
      (pool : PathPool) (path : Bytes)
      → ((n : ℕ) → alloc n ≡ true)
      → pool.size + length path + 1 < 2 ^ 32
      → (r : ℕ × PathPool) × (pool_append alloc pool path ≡ ok r)
  unfolding pool_append
  pool_append-works pool path room h =
      let needed = pool.size + length path + 1 in
      let capacity =
        if ltb pool.capacity needed then grown pool.capacity needed else pool.capacity in
      (
        (
          pool.size,
          record { content = pool.content ++ (path ++ 0 ∷ []); size = needed; capacity = capacity },
        ),
        ground (arith, room (grown pool.capacity needed)),
      )
