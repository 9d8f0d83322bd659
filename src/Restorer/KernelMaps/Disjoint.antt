-- ===== src/Restorer/KernelMaps/Disjoint.antt =====
-- What the overlap test of `restore_kernel_maps` guarantees, and what it refuses.
use ksnap.Base.{
  ℕ, ◌+◌, ◌≤◌, ◌<◌, ◌≡◌, ◌≢◌, refl, ◌⊎◌, inl, inr, ◌^◌, false, not, Option, some, List, [], ◌∷◌,
  take, All, arith, ◌==◌, ==_iff, ok, ◌>>◌, guard, >>=-eq-ok, guard->>-eq-ok, Bool-cases,
  not-eq-true,
}
use ksnap.Base.Text.{Bytes}
use ksnap.Base.Word.{add64}
use ksnap.Format.{KernelMap, Header}
use ksnap.Maps.Find.{find_named_map}
use ksnap.Restorer.Process.{Tracer}
use ksnap.Restorer.Inject.{kernel_maps_overlap}
use ksnap.Restorer.KernelMaps.Enclosing.{Found, find_hulls-Wider}
use ksnap.Restorer.KernelMaps.{
  Hulls, no_hulls, find_hulls, overlap, text_of, move_kernel_maps, restore_kernel_maps,
}

-- The two areas share no address, their ends taken as the source takes them.
abbrev pub ApartFrom : ℕ → ℕ → KernelMap → Type 0
ApartFrom start size other =
    (add64 start size ≤ other.start_address) ⊎ (add64 other.start_address other.size ≤ start)

-- The mapping of the child that is to be moved has the size of its target, and shares no address
-- with any of the targets.
abbrev pub Movable : Option (List Bytes) → List KernelMap → KernelMap → Type 0
Movable lines maps wanted =
    (start : ℕ) × (find_named_map lines (text_of wanted.name) ≡ some (start, wanted.size))
    × All (ApartFrom start wanted.size) maps

Found-ApartFrom :
    (lines : Option (List Bytes)) (h : Hulls) (maps : List KernelMap) (wanted : KernelMap)
    → overlap h ≡ false
    → All (Found lines h) maps
    → (f : Found lines h wanted) → All (ApartFrom f.start wanted.size) maps
Found-ApartFrom lines h [] wanted free founds f = tt
Found-ApartFrom lines h (other ∷ maps) wanted free (g, founds) f = (
  elim (no_overlap h free) [
    | inl above ↦ inr (omega (arith, above, g.wanted_high, f.child_low))
    | inr below ↦ inl (omega (arith, below, f.child_high, g.wanted_low))
  ],
  Found-ApartFrom lines h maps wanted free founds f,
)
  where
    no_overlap :
        (h : Hulls)
        → overlap h ≡ false
        → (h.wanted_highest ≤ h.child_lowest) ⊎ (h.child_highest ≤ h.wanted_lowest)
    no_overlap h free = ground arith

All-Found-Movable :
    (lines : Option (List Bytes)) (h : Hulls) (targets maps : List KernelMap)
    → overlap h ≡ false
    → All (Found lines h) targets
    → All (Found lines h) maps
    → All (Movable lines targets) maps
All-Found-Movable lines h targets [] free all founds = tt
All-Found-Movable lines h targets (wanted ∷ maps) free all (f, founds) = (
  (f.start, f.found, Found-ApartFrom lines h targets wanted free all f),
  All-Found-Movable lines h targets maps free all founds,
)

restore_kernel_maps-Found :
    (t : Tracer) (h : Header) (s : t.State) {s' : t.State}
    → restore_kernel_maps t h s ≡ ok s'
    → (hulls : Hulls) × (overlap hulls ≡ false)
      × All (Found (t.maps s) hulls) (take h.kernel_map_count h.kernel_maps)
unfolding restore_kernel_maps
restore_kernel_maps-Found t h s {s'} e = elim (Bool-cases (h.kernel_map_count == 0)) [
  | inl no_maps ↦ let is = (==_iff h.kernel_map_count 0).0 no_maps in (no_hulls, refl, rw is tt)
  | inr some_maps ↦
      let maps = take h.kernel_map_count h.kernel_maps in
      let (hulls, h1, k1) =
        >>=-eq-ok (find_hulls (t.maps s) maps no_hulls)
          (λ u. guard (not (overlap u)) kernel_maps_overlap >> move_kernel_maps t maps s) {out = s'}
          (ground (arith, e)) in
      let (free, _) = guard->>-eq-ok (not (overlap hulls)) kernel_maps_overlap _ k1 in
      (hulls, not-eq-true free, (find_hulls-Wider (t.maps s) maps no_hulls h1).1)
]

-- Where restore_kernel_maps succeeds, the child has a mapping under each name of the snapshot, of
-- the size that the snapshot says, and none of these mappings shares an address with the target of
-- any of them, the ends of all taken modulo 2 ^ 64.
pub restore_kernel_maps-Movable :
    (t : Tracer) (h : Header) (s : t.State) {s' : t.State}
    → restore_kernel_maps t h s ≡ ok s'
    → All
        (Movable (t.maps s) (take h.kernel_map_count h.kernel_maps))
        (take h.kernel_map_count h.kernel_maps)
restore_kernel_maps-Movable t h s e =
    let (hulls, free, founds) = restore_kernel_maps-Found t h s e in
    let maps = take h.kernel_map_count h.kernel_maps in
    All-Found-Movable (t.maps s) hulls maps maps free founds founds

-- A target that is an area of the address space.
abbrev pub IsArea : KernelMap → Type 0
IsArea k = (0 < k.size) × (k.start_address + k.size < 2 ^ 64)

-- The mapping of the child under this name is not where the snapshot wants it.
abbrev pub IsElsewhere : Option (List Bytes) → KernelMap → Type 0
IsElsewhere lines k = find_named_map lines (text_of k.name) ≢ some (k.start_address, k.size)

Movable-IsElsewhere :
    (lines : Option (List Bytes)) (wanted : KernelMap) (start : ℕ)
    → find_named_map lines (text_of wanted.name) ≡ some (start, wanted.size)
    → ApartFrom start wanted.size wanted
    → IsArea wanted
    → IsElsewhere lines wanted
Movable-IsElsewhere lines wanted start found apart (long, inside) in_place =
    let same : start ≡ wanted.start_address = cc in
    elim apart [ inl below ↦ omega arith | inr above ↦ omega arith ]

All-IsElsewhere :
    (lines : Option (List Bytes)) (h : Hulls) (maps : List KernelMap)
    → overlap h ≡ false
    → All (Found lines h) maps
    → All IsArea maps
    → All (IsElsewhere lines) maps
All-IsElsewhere lines h [] free founds areas = tt
All-IsElsewhere lines h (k ∷ maps) free (f, founds) (area, areas) =
    let (apart, _) = Found-ApartFrom lines h (k ∷ []) k free (f, tt) f in
    (
      Movable-IsElsewhere lines k f.start f.found apart area,
      All-IsElsewhere lines h maps free founds areas,
    )

-- Where the targets are areas of the address space, restore_kernel_maps succeeds only if none of
-- the mappings is in place already, although the source passes over a mapping that is.
pub restore_kernel_maps-IsElsewhere :
    (t : Tracer) (h : Header) (s : t.State) {s' : t.State}
    → All IsArea (take h.kernel_map_count h.kernel_maps)
    → restore_kernel_maps t h s ≡ ok s'
    → All (IsElsewhere (t.maps s)) (take h.kernel_map_count h.kernel_maps)
restore_kernel_maps-IsElsewhere t h s areas e =
    let (hulls, free, founds) = restore_kernel_maps-Found t h s e in
    All-IsElsewhere (t.maps s) hulls (take h.kernel_map_count h.kernel_maps) free founds areas
