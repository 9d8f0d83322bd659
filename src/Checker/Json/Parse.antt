-- ===== src/Checker/Json/Parse.antt =====
-- A reader of JSON texts with no space in them and integers for numbers, by recursive descent.
use ksnap.Base.{
  ℕ, zero, suc, ◌+◌, Bool, true, false, ◌||◌, Option, none, some, [], ◌∷◌, Result, ok, err, ◌>>=◌,
  length, drop, ◌==◌, if◌then◌else◌,
}
use ksnap.Base.Text.{Bytes, codes, is_digit, same_prefix}
use ksnap.Base.Decimal.{read_integer}
use ksnap.Checker.Json.Read.{read_json_string}
use ksnap.Checker.Json.Value.{
  Json, Items, Members, null, flag, number, text, array, object, no_items, item, no_members, member,
}

pub data Refusal : Type 0 where
  not_json out_of_fuel : Refusal

-- What was read, and what follows it.
abbrev pub Parsed : Type 0 → Type 0
Parsed A = Result Refusal (A × Bytes)

pub data Start : Type 0 where
  begins_text begins_array begins_object begins_number begins_word : Start

-- What a value is, by its first character.
unfoldable pub start_of : ℕ → Start
start_of c =
    if c == b'"'
    then begins_text
    else if c == b'['
    then begins_array
    else if c == b'{'
    then begins_object
    else if c == b'-' || is_digit c
    then begins_number
    else begins_word

unfoldable pub start : Bytes → Start
unfolding start_of
start [] = begins_word
start (c ∷ s) = start_of c

unfoldable pub starts : ℕ → Bytes → Bool
starts a [] = false
starts a (c ∷ s) = c == a

abbrev pub lifted : {A : Type 0} → Option A → Result Refusal A
lifted none = err not_json
lifted (some a) = ok a

abbrev pub expect : ℕ → Bytes → Result Refusal Bytes
expect a s = if starts a s then ok (drop 1 s) else err not_json

abbrev pub expect_comma : Bool → Bytes → Result Refusal Bytes
expect_comma first s = if first then ok s else expect b',' s

abbrev pub begins : Bytes → Bytes → Bool
begins w s = same_prefix s w (length w)

unfoldable pub read_word : Bytes → Parsed Json
unfolding same_prefix
read_word s =
    if begins (codes "true") s
    then ok (flag true, drop 4 s)
    else if begins (codes "false") s
    then ok (flag false, drop 5 s)
    else if begins (codes "null") s
    then ok (null, drop 4 s)
    else err not_json

-- Each call costs a unit of fuel.
unfoldable mutual
  pub read_value : ℕ → Bytes → Parsed Json
  read_value zero s = err out_of_fuel
  read_value (suc f) s = elim (start s) [
    | begins_text ↦ lifted (read_json_string s) >>= λ (t, s1). ok (text t, s1)
    | begins_array ↦ read_items f true (drop 1 s) >>= λ (xs, s1). ok (array xs, s1)
    | begins_object ↦ read_members f true (drop 1 s) >>= λ (ms, s1). ok (object ms, s1)
    | begins_number ↦ lifted (read_integer s) >>= λ (z, s1). ok (number z, s1)
    | begins_word ↦ read_word s
  ]

  pub read_items : ℕ → Bool → Bytes → Parsed Items
  read_items zero first s = err out_of_fuel
  read_items (suc f) first s = elim (starts b']' s) [
    | true ↦ ok (no_items, drop 1 s)
    | false ↦ do
      s1 ← expect_comma first s
      (v, s2) ← read_value f s1
      (xs, s3) ← read_items f false s2
      ok (item v xs, s3)
  ]

  pub read_members : ℕ → Bool → Bytes → Parsed Members
  read_members zero first s = err out_of_fuel
  read_members (suc f) first s = elim (starts b'}' s) [
    | true ↦ ok (no_members, drop 1 s)
    | false ↦ do
      s1 ← expect_comma first s
      (key, s2) ← lifted (read_json_string s1)
      s3 ← expect b':' s2
      (v, s4) ← read_value f s3
      (ms, s5) ← read_members f false s4
      ok (member key v ms, s5)
  ]

-- A text holds no more values than characters, so its length is fuel enough.
unfoldable pub read_json : Bytes → Parsed Json
unfolding read_value
read_json s = read_value (length s + 1) s
