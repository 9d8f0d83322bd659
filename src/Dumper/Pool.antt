-- ===== src/Dumper/Pool.antt =====
-- `path_pool_t` and `pool_append` of Ksnap-engine/src/dumper.c.
pub mod Laws
use ksnap.Base.{
  ℕ, zero, suc, ◌+◌, ◌-◌, ◌*◌, ◌^◌, Bool, List, [], ◌∷◌, ◌++◌, length, ltb, ◌==◌, if◌then◌else◌,
  Result, ok, err,
}
use ksnap.Base.Text.{Bytes}
use ksnap.Dumper.Errors.{CollectError, pool_too_large, pool_out_of_memory}

-- `content` is the part of the buffer in use.
pub record PathPool : Type 0 where
  pub content : Bytes
  pub size : ℕ
  pub capacity : ℕ

abbrev pub empty_pool : PathPool
empty_pool = record { content = []; size = 0; capacity = 0 }

abbrev pub initial_capacity : ℕ
initial_capacity = 4096

-- `while (new_capacity < needed) new_capacity *= 2;` A needed size is below 2 ^ 32, so 32 rounds
-- are enough.
unfoldable pub grow_capacity : ℕ → ℕ → ℕ → ℕ
grow_capacity zero capacity needed = capacity
grow_capacity (suc rounds) capacity needed =
    let more = grow_capacity rounds (capacity * 2) needed in
    if ltb capacity needed then more else capacity

abbrev pub grown : ℕ → ℕ → ℕ
grown capacity needed =
    grow_capacity 32 (if capacity == 0 then initial_capacity else capacity * 2) needed

-- `alloc n` says whether `realloc` to `n` bytes succeeds. The result is the offset of the path.
module _ (alloc : ℕ → Bool) where
  unfoldable pub pool_append : PathPool → Bytes → Result CollectError (ℕ × PathPool)
  pool_append pool path =
      let needed = pool.size + length path + 1 in
      let new_capacity = grown pool.capacity needed in
      let content = pool.content ++ (path ++ 0 ∷ []) in
      if ltb (2 ^ 32 - 1) needed
      then err pool_too_large
      else if ltb pool.capacity needed
      then (if alloc new_capacity
          then ok (pool.size, record { content = content; size = needed; capacity = new_capacity })
          else err pool_out_of_memory)
      else ok (pool.size, record { content = content; size = needed; capacity = pool.capacity })
