-- ===== src/Maps/Select.antt =====
-- The mappings of a maps file by class, as an independent description of both walks over it.
use ksnap.Base.{ℕ, ◌+◌, ◌≡◌, none, some, List, [], ◌∷◌, arith}
use ksnap.Base.Word.{sub64}
use ksnap.Base.Text.{Bytes}
use ksnap.Maps.{MapsLine, VmaClass, vma_dump, vma_kernel, classify_maps_line}
use ksnap.Maps.Scan.{parse_maps_line}

unfoldable pub select :
    (VmaClass → List MapsLine → MapsLine → List MapsLine) → List Bytes → List MapsLine
select keep [] = []
select keep (line ∷ lines) = elim (parse_maps_line line) [
  | none ↦ select keep lines
  | some m ↦ keep (classify_maps_line m) (select keep lines) m
]

abbrev pub keep_dumped : VmaClass → List MapsLine → MapsLine → List MapsLine
keep_dumped vma_dump rest m = m ∷ rest
keep_dumped _ rest m = rest

abbrev pub keep_kernel : VmaClass → List MapsLine → MapsLine → List MapsLine
keep_kernel vma_kernel rest m = m ∷ rest
keep_kernel _ rest m = rest

-- The mappings to be copied, and those of the kernel, in the order of the file.
abbrev pub dumped : List Bytes → List MapsLine
dumped = select keep_dumped

abbrev pub kernel_owned : List Bytes → List MapsLine
kernel_owned = select keep_kernel

-- The number of bytes that the mappings span.
abbrev pub spans : List MapsLine → ℕ
spans [] = 0
spans (m ∷ ms) = sub64 m.end m.start + spans ms

module _ (keep : VmaClass → List MapsLine → MapsLine → List MapsLine) (line : Bytes)
    (lines : List Bytes) where
  pub select-skip : parse_maps_line line ≡ none → select keep (line ∷ lines) ≡ select keep lines
  unfolding select
  select-skip h = ground arith

  pub select-keep :
      {m : MapsLine}
      → parse_maps_line line ≡ some m
      → select keep (line ∷ lines) ≡ keep (classify_maps_line m) (select keep lines) m
  unfolding select
  select-keep h = ground arith
