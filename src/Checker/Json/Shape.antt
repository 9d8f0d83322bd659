-- ===== src/Checker/Json/Shape.antt =====
-- How the text of a JSON value begins, what stands behind it, and how long it is.
use mathlib.Core.List.{append-nil}
use ksnap.Base.{◌≤◌, ◌<◌, ◌≡◌, refl, Bool, true, false, [], ◌∷◌, ◌++◌, arith, length, length-append}
use ksnap.Base.Int.{ℤ}
use ksnap.Base.Text.{Bytes}
use ksnap.Base.Decimal.{Ends, BeginsInteger, print_integer-BeginsInteger, print_integer}
use ksnap.Checker.Json.{print_json_string}
use ksnap.Checker.Json.Value.{
  Json, Items, Members, null, flag, number, text, array, object, no_items, item, no_members, member,
  comma, render, render_items, render_members,
}
use ksnap.Checker.Json.Parse.{start, starts, begins_number}

-- What follows a value inside an array or an object.
pub render_items-Ends : (xs : Items) (rest : Bytes) → Ends (render_items false xs rest)
unfolding render_items
render_items-Ends no_items rest = refl
render_items-Ends (item v xs) rest = refl

pub render_members-Ends : (ms : Members) (rest : Bytes) → Ends (render_members false ms rest)
unfolding render_members
render_members-Ends no_members rest = refl
render_members-Ends (member key v ms) rest = refl

pub start-number : (s : Bytes) → BeginsInteger s → start s ≡ begins_number
unfolding start
start-number [] h = absurd h
start-number (c ∷ s) h = ground (arith, h)

bracket-number : (s : Bytes) → BeginsInteger s → starts b']' s ≡ false
unfolding starts
bracket-number [] h = refl
bracket-number (c ∷ s) h = ground (arith, h)

positive-number : (s : Bytes) → BeginsInteger s → 0 < length s
positive-number [] h = absurd h
positive-number (c ∷ s) h = omega arith

-- A value never begins like the end of an array.
pub starts-render : (v : Json) (rest : Bytes) → starts b']' (render v rest) ≡ false
unfolding render print_json_string starts
starts-render (flag true) rest = refl
starts-render (flag false) rest = refl
starts-render (number z) rest = bracket-number _ (print_integer-BeginsInteger z rest)
starts-render _ rest = refl

length-behind : (s rest : Bytes) → 0 < length s → length rest < length (s ++ rest)
length-behind s rest h = omega (arith, length-append s rest)

pub length-print_json_string : (s rest : Bytes) → length rest < length (print_json_string s ++ rest)
unfolding print_json_string
length-print_json_string s rest = length-behind (print_json_string s) rest (omega arith)

length-print_integer : (z : ℤ) (rest : Bytes) → length rest < length (print_integer z ++ rest)
length-print_integer z rest =
    length-behind _ rest
      (rw (append-nil (print_integer z)) at (positive-number _ (print_integer-BeginsInteger z [])))

pub length-comma : (first : Bool) (s : Bytes) → length s ≤ length (comma first s)
length-comma true s = omega arith
length-comma false s = omega arith

-- Each value, and the end of each list, takes at least a character.
mutual
  unfolding render

  pub length-render : (v : Json) (rest : Bytes) → length rest < length (render v rest)
  length-render null rest = omega arith
  length-render (flag true) rest = omega arith
  length-render (flag false) rest = omega arith
  length-render (number z) rest = length-print_integer z rest
  length-render (text s) rest = length-print_json_string s rest
  length-render (array xs) rest = omega (arith, length-render_items true xs rest)
  length-render (object ms) rest = omega (arith, length-render_members true ms rest)

  pub length-render_items :
      (first : Bool) (xs : Items) (rest : Bytes) → length rest < length (render_items first xs rest)
  length-render_items first no_items rest = omega arith
  length-render_items first (item v xs) rest = omega (
    arith,
    length-comma first (render v (render_items false xs rest)),
    length-render v (render_items false xs rest),
    length-render_items false xs rest,
  )

  pub length-render_members :
      (first : Bool) (ms : Members) (rest : Bytes)
      → length rest < length (render_members first ms rest)
  length-render_members first no_members rest = omega arith
  length-render_members first (member key v ms) rest = omega (
    arith,
    length-comma first (print_json_string key ++ b':' ∷ render v (render_members false ms rest)),
    length-print_json_string key (b':' ∷ render v (render_members false ms rest)),
    length-render v (render_members false ms rest),
    length-render_members false ms rest,
  )
