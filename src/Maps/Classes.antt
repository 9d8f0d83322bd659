-- ===== src/Maps/Classes.antt =====
-- Which mappings fall in which class.
use ksnap.Base.{◌≡◌, ◌≢◌, ◌⊎◌, ◌↔◌, true, false, arith}
use ksnap.Base.Text.{Bytes, codes, same_text_iff}
use ksnap.Maps.{MapsLine, vma_dump, char_at, is_kernel_map, is_dumpable_path, classify_maps_line}

-- The heap, the stack, or a path that no bracket opens.
abbrev pub HasState : Bytes → Type 0
HasState path = (char_at path 0 ≢ b'[') ⊎ ((path ≡ codes "[heap]") ⊎ (path ≡ codes "[stack]"))

is_dumpable_path_iff : (path : Bytes) → (is_dumpable_path path ≡ true) ↔ HasState path
unfolding is_dumpable_path
is_dumpable_path_iff path =
    let heap = same_text_iff path (codes "[heap]") in
    let stack = same_text_iff path (codes "[stack]") in
    (λ h. ground (arith, heap.0, stack.0), λ h. ground (arith, heap.1, stack.1))

-- A mapping is copied exactly if it is readable, private, no kernel mapping, and the heap, the
-- stack, anonymous or a file.
pub classify_maps_line-vma_dump :
    (m : MapsLine)
    → (classify_maps_line m ≡ vma_dump) ↔ (
        (is_kernel_map m.path ≡ false)
        × (char_at m.privileges 0 ≡ b'r')
        × (char_at m.privileges 3 ≡ b'p')
        × HasState m.path)
unfolding classify_maps_line
classify_maps_line-vma_dump m =
    let state = is_dumpable_path_iff m.path in
    (
      λ h. (ground arith, ground arith, ground arith, state.0 (ground arith)),
      λ h. ground (arith, state.1 h.3),
    )
