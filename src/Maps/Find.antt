-- ===== src/Maps/Find.antt =====
-- `find_named_map` of Ksnap-engine/src/maps.c, over the lines that `fgets` gives; `none` is a file
-- that cannot be opened.
use ksnap.Base.{ℕ, Option, none, some, List, [], ◌∷◌, if◌then◌else◌}
use ksnap.Base.Word.{sub64}
use ksnap.Base.Text.{Bytes, same_text}
use ksnap.Maps.Scan.{parse_maps_line}

-- Where the mapping starts, and its size.
unfoldable pub find_in_lines : Bytes → List Bytes → Option (ℕ × ℕ)
find_in_lines name [] = none
find_in_lines name (line ∷ lines) =
    let later = find_in_lines name lines in
    elim (parse_maps_line line) [
      | none ↦ later
      | some m ↦ if same_text m.path name then some (m.start, sub64 m.end m.start) else later
    ]

unfoldable pub find_named_map : Option (List Bytes) → Bytes → Option (ℕ × ℕ)
unfolding find_in_lines
find_named_map none name = none
find_named_map (some lines) name = find_in_lines name lines
