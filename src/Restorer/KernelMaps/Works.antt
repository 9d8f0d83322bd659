-- ===== src/Restorer/KernelMaps/Works.antt =====
-- When `restore_kernel_maps` succeeds.
use ksnap.Base.{ℕ, ◌≡◌, refl, inl, inr, false, some, List, [], ◌∷◌, take, All, ◌==◌, ok, Bool-cases}
use ksnap.Format.{KernelMap, Header}
use ksnap.Restorer.Process.{Tracer}
use ksnap.Maps.Find.{find_named_map}
use ksnap.Restorer.KernelMaps.{
  Hulls, no_hulls, find_hulls, overlap, text_of, mremap_call, move_kernel_map, move_kernel_maps,
  restore_kernel_maps,
}
use ksnap.Restorer.Inject.Obliging.{IsObliging, Succeeds, inject_syscall-Succeeds}

-- The process has a mapping of this name.
abbrev pub IsNamed : (t : Tracer) → t.State → KernelMap → Type 0
IsNamed t u k = (r : ℕ × ℕ) × (find_named_map (t.maps u) (text_of k.name) ≡ some r)

-- The kernel mappings have the sizes of the snapshot, and lie apart from where it wants them.
abbrev pub CanMove : (t : Tracer) → Header → t.State → Type 0
CanMove t h s =
    (hulls : Hulls) × (find_hulls (t.maps s) (take h.kernel_map_count h.kernel_maps) no_hulls
      ≡ ok hulls)
    × (overlap hulls ≡ false)

module _ (t : Tracer) (o : IsObliging t) where
  move_kernel_map-Succeeds :
      (child_start child_size : ℕ) (wanted : KernelMap) (s : t.State)
      → Succeeds t (move_kernel_map t child_start child_size wanted s)
  unfolding move_kernel_map
  move_kernel_map-Succeeds child_start child_size wanted s =
      let (result, s', is, fine) =
        inject_syscall-Succeeds t o (mremap_call child_start child_size wanted) s in
      (s', rw (move_kernel_map, is, fine) refl)

  move_kernel_maps-Succeeds :
      (maps : List KernelMap) (s : t.State)
      → ((u : t.State) → All (IsNamed t u) maps)
      → Succeeds t (move_kernel_maps t maps s)
  unfolding move_kernel_maps
  move_kernel_maps-Succeeds [] s named = (s, refl)
  move_kernel_maps-Succeeds (wanted ∷ maps) s named =
      let ((start, size), is) = (named s).0 in
      let rest : (u : t.State) → All (IsNamed t u) maps = λ u. (named u).1 in
      elim (Bool-cases (start == wanted.start_address)) [
        | inl in_place ↦
            let (s', moved) = move_kernel_maps-Succeeds maps s rest in
            (s', rw (move_kernel_maps, is, in_place, moved) refl)
        | inr elsewhere ↦
            let (s1, h1) = move_kernel_map-Succeeds start size wanted s in
            let (s', moved) = move_kernel_maps-Succeeds maps s1 rest in
            (s', rw (move_kernel_maps, is, elsewhere, h1, moved) refl)
      ]

  pub restore_kernel_maps-Succeeds :
      (h : Header) (s : t.State)
      → CanMove t h s
      → ((u : t.State) → All (IsNamed t u) (take h.kernel_map_count h.kernel_maps))
      → Succeeds t (restore_kernel_maps t h s)
  unfolding restore_kernel_maps
  restore_kernel_maps-Succeeds h s (hulls, found, apart) named =
      elim (Bool-cases (h.kernel_map_count == 0)) [
        | inl no_maps ↦ (s, rw (restore_kernel_maps, no_maps) refl)
        | inr some_maps ↦
            let (s', moved) =
              move_kernel_maps-Succeeds (take h.kernel_map_count h.kernel_maps) s named in
            (s', rw (restore_kernel_maps, some_maps, found, apart, moved) refl)
      ]
