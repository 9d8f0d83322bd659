-- ===== src/Checker/Json/OneLine.antt =====
-- The text of a JSON value holds no newline, and what stands behind it is only appended.
use mathlib.Core.List.{append_assoc}
use ksnap.Base.{
  ℕ, ◌/◌, ◌%◌, ◌≤◌, ◌≡◌, ◌≢◌, refl, sym, ap, ◌∙◌, Bool, true, false, [], ◌∷◌, ◌++◌, arith, All,
}
use ksnap.Base.Text.{Bytes}
use ksnap.Base.Decimal.{print_integer, print_integer-All}
use ksnap.Checker.Json.{json_char, json_chars, print_json_string, hex_char}
use ksnap.Checker.Json.Value.{
  Json, Items, Members, null, flag, number, text, array, object, no_items, item, no_members, member,
  comma, render, render_items, render_members,
}

-- No byte is a newline.
abbrev pub OneLine : Bytes → Type 0
OneLine s = All (λ c. c ≢ 10) s

OneLine-append : (s t : Bytes) → OneLine s → OneLine t → OneLine (s ++ t)
OneLine-append [] t h k = k
OneLine-append (c ∷ s) t h k = (h.0, OneLine-append s t h.1 k)

hex_char-ne : (d : ℕ) → hex_char d ≢ 10
hex_char-ne d = ground arith

json_char-OneLine : (c : ℕ) → OneLine (json_char c)
unfolding json_char
json_char-OneLine c = ground (arith, hex_char-ne (c / 16), hex_char-ne (c % 16))

json_chars-OneLine : (s : Bytes) → OneLine (json_chars s)
unfolding json_chars
json_chars-OneLine [] = tt
json_chars-OneLine (c ∷ s) =
    OneLine-append (json_char c) (json_chars s) (json_char-OneLine c) (json_chars-OneLine s)

printed-OneLine : (s : Bytes) → OneLine (print_json_string s)
unfolding print_json_string
printed-OneLine s = (
  omega arith,
  OneLine-append (json_chars s) (b'"' ∷ []) (json_chars-OneLine s) (omega arith, tt),
)

text-OneLine : (s rest : Bytes) → OneLine rest → OneLine (print_json_string s ++ rest)
text-OneLine s rest h = OneLine-append _ rest (printed-OneLine s) h

weaken : (s : Bytes) → All (λ c. b'-' ≤ c) s → OneLine s
weaken [] h = tt
weaken (c ∷ s) h = (omega (arith, h.0), weaken s h.1)

comma-OneLine : (first : Bool) (s : Bytes) → OneLine s → OneLine (comma first s)
comma-OneLine true s h = h
comma-OneLine false s h = (omega arith, h)

mutual
  unfolding render

  render-OneLine : (v : Json) (rest : Bytes) → OneLine rest → OneLine (render v rest)
  render-OneLine null rest h = ground (arith, h)
  render-OneLine (flag true) rest h = ground (arith, h)
  render-OneLine (flag false) rest h = ground (arith, h)
  render-OneLine (number z) rest h =
      OneLine-append (print_integer z) rest (weaken _ (print_integer-All z)) h
  render-OneLine (text s) rest h = text-OneLine s rest h
  render-OneLine (array xs) rest h = (omega arith, render_items-OneLine true xs rest h)
  render-OneLine (object ms) rest h = (omega arith, render_members-OneLine true ms rest h)

  render_items-OneLine :
      (first : Bool) (xs : Items) (rest : Bytes)
      → OneLine rest
      → OneLine (render_items first xs rest)
  render_items-OneLine first no_items rest h = (omega arith, h)
  render_items-OneLine first (item v xs) rest h =
      comma-OneLine first _ (render-OneLine v _ (render_items-OneLine false xs rest h))

  render_members-OneLine :
      (first : Bool) (ms : Members) (rest : Bytes)
      → OneLine rest
      → OneLine (render_members first ms rest)
  render_members-OneLine first no_members rest h = (omega arith, h)
  render_members-OneLine first (member key v ms) rest h = comma-OneLine first _ (
      text-OneLine key _ (omega arith, render-OneLine v _ (render_members-OneLine false ms rest h)))

-- The text of a value is one line.
pub rendered-OneLine : (v : Json) → OneLine (render v [])
rendered-OneLine v = render-OneLine v [] tt

comma-append : (first : Bool) (s t : Bytes) → comma first s ++ t ≡ comma first (s ++ t)
comma-append true s t = refl
comma-append false s t = refl

mutual
  unfolding render

  render-append : (v : Json) (s t : Bytes) → render v s ++ t ≡ render v (s ++ t)
  render-append null s t = refl
  render-append (flag true) s t = refl
  render-append (flag false) s t = refl
  render-append (number z) s t = append_assoc (print_integer z) s t
  render-append (text a) s t = append_assoc (print_json_string a) s t
  render-append (array xs) s t = ap (λ tail. b'[' ∷ tail) (render_items-append true xs s t)
  render-append (object ms) s t = ap (λ tail. b'{' ∷ tail) (render_members-append true ms s t)

  render_items-append :
      (first : Bool) (xs : Items) (s t : Bytes)
      → render_items first xs s ++ t ≡ render_items first xs (s ++ t)
  render_items-append first no_items s t = refl
  render_items-append first (item v xs) s t =
      comma-append first (render v (render_items false xs s)) t
      ∙ ap (comma first) (
          render-append v (render_items false xs s) t
          ∙ ap (render v) (render_items-append false xs s t))

  render_members-append :
      (first : Bool) (ms : Members) (s t : Bytes)
      → render_members first ms s ++ t ≡ render_members first ms (s ++ t)
  render_members-append first no_members s t = refl
  render_members-append first (member key v ms) s t =
      comma-append first _ t
      ∙ ap (comma first) (
          append_assoc (print_json_string key) _ t
          ∙ ap (λ tail. print_json_string key ++ b':' ∷ tail)
              (render-append v (render_members false ms s) t
                ∙ ap (render v) (render_members-append false ms s t)))

-- What stands behind a value is appended to its text.
pub render-behind : (v : Json) (rest : Bytes) → render v rest ≡ render v [] ++ rest
render-behind v rest = sym (render-append v [] rest)
