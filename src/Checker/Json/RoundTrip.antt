-- ===== src/Checker/Json/RoundTrip.antt =====
-- The reader of JSON values takes back what `render` writes.
use ksnap.Base.{
  ℕ, zero, suc, ◌+◌, ◌<◌, ◌≡◌, refl, Bool, true, false, ◌∷◌, ◌++◌, ok, ◌>>=◌, some, arith, length,
}
use ksnap.Base.Int.{ℤ}
use ksnap.Base.Text.{Bytes, same_text}
use ksnap.Base.Decimal.{Ends, read_integer, read_integer-print_integer, print_integer-BeginsInteger}
use ksnap.Checker.Json.{print_json_string}
use ksnap.Checker.Json.Read.{read_json_string, read_json_string-printed}
use ksnap.Checker.Json.Value.{
  Json, Items, Members, null, flag, number, text, array, object, no_items, item, no_members, member,
  render, render_items, render_members,
}
use ksnap.Checker.Json.Parse.{
  Parsed, lifted, start, starts, expect, begins_number, read_word, read_value, read_items,
  read_members, read_json,
}
use ksnap.Checker.Json.Shape.{
  render_items-Ends, render_members-Ends, start-number, starts-render, length-render,
  length-render_items, length-render_members, length-print_json_string,
}

-- With fuel above what the text of the value takes, a reader gives the value and what follows it.
abbrev ReadsValue : Json → Type 0
ReadsValue v =
    (f : ℕ) (rest : Bytes)
    → Ends rest
    → length (render v rest) < f + length rest
    → read_value f (render v rest) ≡ ok (v, rest)

abbrev ReadsItems : Items → Type 0
ReadsItems xs =
    (first : Bool) (f : ℕ) (rest : Bytes)
    → length (render_items first xs rest) < f + length rest
    → read_items f first (render_items first xs rest) ≡ ok (xs, rest)

abbrev ReadsMembers : Members → Type 0
ReadsMembers ms =
    (first : Bool) (f : ℕ) (rest : Bytes)
    → length (render_members first ms rest) < f + length rest
    → read_members f first (render_members first ms rest) ≡ ok (ms, rest)

-- A simple value needs a unit of fuel.
null-Reads : ReadsValue null
unfolding read_value render read_word same_text start
null-Reads zero rest e h = absurd (omega arith)
null-Reads (suc f) rest e h = refl

flag-Reads : (b : Bool) → ReadsValue (flag b)
unfolding read_value render read_word same_text start
flag-Reads true zero rest e h = absurd (omega arith)
flag-Reads true (suc f) rest e h = refl
flag-Reads false zero rest e h = absurd (omega arith)
flag-Reads false (suc f) rest e h = refl

read_value-number :
    (f : ℕ) (s : Bytes) {z : ℤ} {rest : Bytes}
    → start s ≡ begins_number
    → read_integer s ≡ some (z, rest)
    → read_value (suc f) s ≡ ok (number z, rest)
unfolding read_value
read_value-number f s h k = rw (h, read_value) (rw k refl)

number-Reads : (z : ℤ) → ReadsValue (number z)
unfolding render
number-Reads z zero rest e h = absurd (omega (arith, length-render (number z) rest))
number-Reads z (suc f) rest e h =
    read_value-number f _ (start-number _ (print_integer-BeginsInteger z rest))
      (read_integer-print_integer z rest e)

text-Reads : (s : Bytes) → ReadsValue (text s)
unfolding read_value render print_json_string start
text-Reads s zero rest e h = absurd (omega (arith, length-render (text s) rest))
text-Reads s (suc f) rest e h = rw (read_json_string-printed s rest) refl

array-Reads : (xs : Items) → ReadsItems xs → ReadsValue (array xs)
unfolding read_value render start
array-Reads xs reads zero rest e h = absurd (omega (arith, length-render (array xs) rest))
array-Reads xs reads (suc f) rest e h = rw (reads true f rest (omega arith)) refl

object-Reads : (ms : Members) → ReadsMembers ms → ReadsValue (object ms)
unfolding read_value render start
object-Reads ms reads zero rest e h = absurd (omega (arith, length-render (object ms) rest))
object-Reads ms reads (suc f) rest e h = rw (reads true f rest (omega arith)) refl

no_items-Reads : ReadsItems no_items
unfolding read_items render_items starts
no_items-Reads first zero rest h = absurd (omega arith)
no_items-Reads first (suc f) rest h = refl

no_members-Reads : ReadsMembers no_members
unfolding read_members render_members starts
no_members-Reads first zero rest h = absurd (omega arith)
no_members-Reads first (suc f) rest h = refl

-- An item, behind the comma: its value and the items behind it are read with the same fuel.
module _ (v : Json) (xs : Items) (reads_v : ReadsValue v) (reads_xs : ReadsItems xs) where
  more_items : ℕ → Bytes → Parsed Items
  more_items f s =
      read_value f s >>= λ (w, s2). read_items f false s2 >>= λ (ws, s3). ok (item w ws, s3)

  more_items-Reads :
      (f : ℕ) (rest : Bytes)
      → length (render v (render_items false xs rest)) < suc f + length rest
      → more_items f (render v (render_items false xs rest)) ≡ ok (item v xs, rest)
  unfolding more_items
  more_items-Reads f rest h =
      rw
        (reads_v f (render_items false xs rest) (render_items-Ends xs rest)
          (omega (arith, length-render_items false xs rest)))
        (rw (reads_xs false f rest (omega (arith, length-render v (render_items false xs rest))))
          refl)

  item-Reads : ReadsItems (item v xs)
  unfolding read_items render_items more_items
  item-Reads first zero rest h = absurd (omega (arith, length-render_items first (item v xs) rest))
  item-Reads true (suc f) rest h =
      rw (starts-render v (render_items false xs rest), read_items, render_items)
        (more_items-Reads f rest h)
  item-Reads false (suc f) rest h = unfold starts in more_items-Reads f rest (omega arith)

module _ (key : Bytes) (v : Json) (ms : Members) (reads_v : ReadsValue v)
    (reads_ms : ReadsMembers ms) where
  more_members : ℕ → Bytes → Parsed Members
  more_members f s = lifted (read_json_string s) >>= λ (k, s1). expect b':' s1 >>= λ s2.
      read_value f s2 >>= λ (w, s3). read_members f false s3 >>= λ (ws, s4). ok (member k w ws, s4)

  more_members-Reads :
      (f : ℕ) (rest : Bytes)
      → length (render v (render_members false ms rest)) < f + length rest
      → more_members f (print_json_string key ++ b':' ∷ render v (render_members false ms rest))
        ≡ ok (member key v ms, rest)
  unfolding more_members
  more_members-Reads f rest h =
      rw (read_json_string-printed key (b':' ∷ render v (render_members false ms rest))) (
        unfold starts in
        rw
          (reads_v f (render_members false ms rest) (render_members-Ends ms rest)
            (omega (arith, length-render_members false ms rest)))
          (rw
            (reads_ms false f rest (omega (arith, length-render v (render_members false ms rest))))
            refl))

  member-Reads : ReadsMembers (member key v ms)
  unfolding read_members render_members more_members print_json_string
  member-Reads first zero rest h =
      absurd (omega (arith, length-render_members first (member key v ms) rest))
  member-Reads true (suc f) rest h =
      unfold starts in
      more_members-Reads f rest (
        omega
          (arith, length-print_json_string key (b':' ∷ render v (render_members false ms rest))))
  member-Reads false (suc f) rest h =
      unfold starts in
      more_members-Reads f rest (
        omega
          (arith, length-print_json_string key (b':' ∷ render v (render_members false ms rest))))

mutual
  read_value-Reads : (v : Json) → ReadsValue v
  read_value-Reads null = null-Reads
  read_value-Reads (flag b) = flag-Reads b
  read_value-Reads (number z) = number-Reads z
  read_value-Reads (text s) = text-Reads s
  read_value-Reads (array xs) = array-Reads xs (read_items-Reads xs)
  read_value-Reads (object ms) = object-Reads ms (read_members-Reads ms)

  read_items-Reads : (xs : Items) → ReadsItems xs
  read_items-Reads no_items = no_items-Reads
  read_items-Reads (item v xs) = item-Reads v xs (read_value-Reads v) (read_items-Reads xs)

  read_members-Reads : (ms : Members) → ReadsMembers ms
  read_members-Reads no_members = no_members-Reads
  read_members-Reads (member key v ms) =
      member-Reads key v ms (read_value-Reads v) (read_members-Reads ms)

-- Reading the text of a value gives that value and what follows it, whatever that is, unless it
-- begins with a digit.
pub read_json-render :
    (v : Json) (rest : Bytes) → Ends rest → read_json (render v rest) ≡ ok (v, rest)
unfolding read_json
read_json-render v rest e = read_value-Reads v _ rest e (omega arith)
