-- ===== src/Checker/Json/Value.antt =====
-- JSON values, and their text with no space in it.
use ksnap.Base.{Bool, true, false, ◌∷◌, ◌++◌, if◌then◌else◌}
use ksnap.Base.Int.{ℤ}
use ksnap.Base.Text.{Bytes, codes}
use ksnap.Base.Decimal.{print_integer}
use ksnap.Checker.Json.{print_json_string}

-- `Items` and `Members` are the lists inside an array and an object; numbers are integers.
mutual
  pub data Json : Type 0 where
    null : Json
    flag : Bool → Json
    number : ℤ → Json
    text : Bytes → Json
    array : Items → Json
    object : Members → Json

  pub data Items : Type 0 where
    no_items : Items
    item : Json → Items → Items

  pub data Members : Type 0 where
    no_members : Members
    member : Bytes → Json → Members → Members

-- The comma in front of every item but the first.
abbrev pub comma : Bool → Bytes → Bytes
comma first rest = if first then rest else b',' ∷ rest

abbrev pub word : Bool → Bytes
word b = if b then codes "true" else codes "false"

-- The text of a value in front of `rest`.
unfoldable mutual
  pub render : Json → Bytes → Bytes
  render null rest = codes "null" ++ rest
  render (flag b) rest = word b ++ rest
  render (number z) rest = print_integer z ++ rest
  render (text s) rest = print_json_string s ++ rest
  render (array xs) rest = b'[' ∷ render_items true xs rest
  render (object ms) rest = b'{' ∷ render_members true ms rest

  pub render_items : Bool → Items → Bytes → Bytes
  render_items first no_items rest = b']' ∷ rest
  render_items first (item v xs) rest = comma first (render v (render_items false xs rest))

  pub render_members : Bool → Members → Bytes → Bytes
  render_members first no_members rest = b'}' ∷ rest
  render_members first (member key v ms) rest =
      comma first (print_json_string key ++ b':' ∷ render v (render_members false ms rest))
