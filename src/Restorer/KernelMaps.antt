-- ===== src/Restorer/KernelMaps.antt =====
-- `restore_kernel_maps` of Ksnap-engine/src/restorer.c: [vdso] and its neighbours are moved to the
-- addresses of the snapshot.
pub mod Enclosing
pub mod Disjoint
pub mod Works
use Prim.Native.Nat.{min, max}
use ksnap.Base.{
  ℕ, zero, suc, ◌-◌, ◌^◌, Bool, true, false, not, ◌&&◌, Option, none, some, List, [], ◌∷◌, take,
  ltb, ◌==◌, if◌then◌else◌, Result, ok, err, ◌>>=◌, ◌>>◌, guard,
}
use ksnap.Base.Text.{Bytes}
use ksnap.Base.Word.{add64}
use ksnap.Format.{KernelMap, Header}
use ksnap.Maps.Find.{find_named_map}
use ksnap.Restorer.Process.{Tracer, syscall_failed}
use ksnap.Restorer.Inject.{
  RestoreError, no_kernel_map, kernel_map_size, kernel_maps_overlap, kernel_map_not_moved, Syscall,
  or_error, inject_syscall,
}

-- The characters of an array before its terminator. The array of a snapshot that the engine wrote
-- has one.
unfoldable pub text_of : Bytes → Bytes
text_of [] = []
text_of (c ∷ name) = if c == 0 then [] else c ∷ text_of name

-- The hulls of the mappings of the child and of their targets.
pub record Hulls : Type 0 where
  pub child_lowest : ℕ
  pub child_highest : ℕ
  pub wanted_lowest : ℕ
  pub wanted_highest : ℕ

-- `ULONG_MAX` and 0
abbrev pub no_hulls : Hulls
no_hulls = record {
  child_lowest = 2 ^ 64 - 1;
  child_highest = 0;
  wanted_lowest = 2 ^ 64 - 1;
  wanted_highest = 0;
}

-- One more mapping of the child, with its target.
unfoldable pub widen : Hulls → ℕ → ℕ → KernelMap → Hulls
widen h child_start child_size wanted = record {
  child_lowest = min child_start h.child_lowest;
  child_highest = max (add64 child_start child_size) h.child_highest;
  wanted_lowest = min wanted.start_address h.wanted_lowest;
  wanted_highest = max (add64 wanted.start_address wanted.size) h.wanted_highest;
}

-- The first loop, over the lines of /proc/<pid>/maps.
unfoldable pub find_hulls : Option (List Bytes) → List KernelMap → Hulls → Result RestoreError Hulls
unfolding text_of
find_hulls lines [] h = ok h
find_hulls lines (wanted ∷ maps) h = do
  (child_start, child_size) ← or_error no_kernel_map (find_named_map lines (text_of wanted.name))
  guard (child_size == wanted.size) kernel_map_size
  find_hulls lines maps (widen h child_start child_size wanted)

abbrev pub overlap : Hulls → Bool
overlap h = ltb h.child_lowest h.wanted_highest && ltb h.wanted_lowest h.child_highest

-- mremap with `MREMAP_MAYMOVE | MREMAP_FIXED`
abbrev pub mremap_call : ℕ → ℕ → KernelMap → Syscall
mremap_call child_start child_size wanted = record {
  number = 25;
  arg1 = child_start;
  arg2 = child_size;
  arg3 = wanted.size;
  arg4 = 3;
  arg5 = wanted.start_address;
  arg6 = 0;
}

module _ (t : Tracer) where
  unfoldable pub move_kernel_map : ℕ → ℕ → KernelMap → t.State → Result RestoreError t.State
  move_kernel_map child_start child_size wanted s = do
    (result, s') ← inject_syscall t (mremap_call child_start child_size wanted) s
    guard (not (syscall_failed result)) kernel_map_not_moved
    ok s'

  -- The second loop. A mapping that is in place already is passed over.
  unfoldable pub move_kernel_maps : List KernelMap → t.State → Result RestoreError t.State
  unfolding move_kernel_map text_of
  move_kernel_maps [] s = ok s
  move_kernel_maps (wanted ∷ maps) s = do
    (child_start, child_size) ←
        or_error no_kernel_map (find_named_map (t.maps s) (text_of wanted.name))
    s' ←
        (if child_start == wanted.start_address
          then ok s
          else move_kernel_map child_start child_size wanted s)
    move_kernel_maps maps s'

  unfoldable pub restore_kernel_maps : Header → t.State → Result RestoreError t.State
  restore_kernel_maps h s =
      let maps = take h.kernel_map_count h.kernel_maps in
      let moved = do
        hulls ← find_hulls (t.maps s) maps no_hulls
        guard (not (overlap hulls)) kernel_maps_overlap
        move_kernel_maps maps s
      in if h.kernel_map_count == 0 then ok s else moved
