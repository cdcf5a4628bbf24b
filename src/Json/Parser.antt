-- ===== src/Json/Parser.antt =====
-- The recursive descent of src/json.c.
use heluna_language.Common.{
  ℕ, zero, suc, ◌+◌, ◌-◌, ◌*◌, Bool, true, false, ◌||◌, [], ◌∷◌, ◌==◌, if◌then◌else◌, Bytes, length,
  take, codes, Option, none, some,
}
use heluna_language.Value.{
  Doubles, HVal, HFields, HVals, val_integer, val_float, val_string, val_boolean, val_nothing,
  val_record, val_list, no_fields, field, no_items, item,
}
use heluna_language.Json.Numbers.{is_digit, strtoll}
use heluna_language.Json.Strings.{parse_string}

-- The errors, each with the text that was left.
pub data JsonError : Type 0 where
  expected_char : ℕ → Bytes → JsonError
  expected_key : Bytes → JsonError
  unexpected : ℕ → Bytes → JsonError

pub data Outcome (A : Type 0) : Type 0 where
  parsed : A → Bytes → Outcome A
  failed : JsonError → Outcome A
  out_of_fuel : Outcome A

infixl 5 ◌>>=◌
abbrev pub ◌>>=◌ : {A B : Type 0} → Outcome A → (A → Bytes → Outcome B) → Outcome B
parsed a s >>= f = f a s
failed e >>= f = failed e
out_of_fuel >>= f = out_of_fuel

abbrev pub head_or_nul : Bytes → ℕ
head_or_nul [] = 0
head_or_nul (c ∷ _) = c

abbrev pub next : Bytes → Bytes
next [] = []
next (_ ∷ cs) = cs

unfoldable pub skip_ws : Bytes → Bytes
skip_ws [] = []
skip_ws (c ∷ cs) =
    let rest = skip_ws cs in
    if c == b' ' || c == b'\t' || c == b'\n' || c == b'\r' then rest else c ∷ cs

-- `peek` skips the white space for good and shows the byte behind it.
abbrev pub peek : Bytes → ℕ
peek s = head_or_nul (skip_ws s)

unfoldable pub expect_char : ℕ → Bytes → Outcome (Unit {0})
expect_char c s =
    if head_or_nul (skip_ws s) == c
    then parsed tt (next (skip_ws s))
    else failed (expected_char c (skip_ws s))

-- `strncmp(p->src + p->pos, s, len) == 0`, and the step over the word.
unfoldable pub match_str : Bytes → Bytes → Option Bytes
match_str [] s = some s
match_str (w ∷ ws) [] = none
match_str (w ∷ ws) (c ∷ cs) = if w == c then match_str ws cs else none

unfoldable pub skip_digits : Bytes → Bytes
skip_digits [] = []
skip_digits (c ∷ cs) = let rest = skip_digits cs in if is_digit c then rest else c ∷ cs

abbrev pub skip_sign : Bytes → Bytes
skip_sign s = if head_or_nul s == b'+' || head_or_nul s == b'-' then next s else s

unfoldable pub fraction : Bytes → Bool × Bytes
fraction s = if head_or_nul s == b'.' then (true, skip_digits (next s)) else (false, s)

unfoldable pub exponent : Bytes → Bool × Bytes
exponent s =
    if head_or_nul s == b'e' || head_or_nul s == b'E'
    then (true, skip_digits (skip_sign (next s)))
    else (false, s)

-- The sign and the digits before the point.
unfoldable pub skip_whole : Bytes → Bytes
skip_whole s = skip_digits (if head_or_nul s == b'-' then next s else s)

unfoldable pub parse_number : Doubles → Bytes → Outcome HVal
parse_number dbl s =
    let (has_point, s₁) = fraction (skip_whole s) in
    let (has_exponent, s₂) = exponent s₁ in
    let numstr = take (length s - length s₂) s in
    if has_point || has_exponent
    then parsed (val_float (dbl.strtod numstr)) s₂
    else parsed (val_integer (strtoll numstr)) s₂

unfoldable pub parse_word : Bytes → Outcome HVal
parse_word s = elim (match_str (codes "true") s) [
  | some rest ↦ parsed (val_boolean true) rest
  | none ↦ elim (match_str (codes "false") s) [
    | some rest ↦ parsed (val_boolean false) rest
    | none ↦ elim (match_str (codes "null") s) [
      | some rest ↦ parsed val_nothing rest
      | none ↦ failed (unexpected (head_or_nul s) s)
    ]
  ]
]

-- The key of a field and its colon. The text stands behind white space.
unfoldable pub parse_key : Bytes → Outcome Bytes
parse_key s =
    if head_or_nul s == b'"'
    then (let (key, rest) = parse_string (next s) in
        expect_char b':' rest >>= λ _ after. parsed key after)
    else failed (expected_key s)

-- `parse_items` and `parse_fields` are the loops of `parse_array` and `parse_object`.
unfoldable mutual
  pub parse_value : ℕ → Doubles → Bytes → Outcome HVal
  parse_value zero dbl s = out_of_fuel
  parse_value (suc f) dbl s =
      let at = skip_ws s in
      let object = parse_object f dbl (next at) in
      let array = parse_array f dbl (next at) in
      if head_or_nul at == b'"'
      then (let (text, rest) = parse_string (next at) in parsed (val_string text) rest)
      else if head_or_nul at == b'{'
      then object
      else if head_or_nul at == b'['
      then array
      else if head_or_nul at == b'-' || is_digit (head_or_nul at)
      then parse_number dbl at
      else parse_word at

  pub parse_array : ℕ → Doubles → Bytes → Outcome HVal
  parse_array zero dbl s = out_of_fuel
  parse_array (suc f) dbl s =
      let full = parse_items f dbl (skip_ws s) >>= λ vs rest.
      expect_char b']' rest >>= λ _ after. parsed (val_list vs) after in
      if peek s == b']' then parsed (val_list no_items) (next (skip_ws s)) else full

  pub parse_items : ℕ → Doubles → Bytes → Outcome HVals
  parse_items zero dbl s = out_of_fuel
  parse_items (suc f) dbl s = parse_value f dbl s >>= λ v rest.
      let more = parse_items f dbl (next (skip_ws rest)) >>= λ vs after. parsed (item v vs) after in
      if peek rest == b',' then more else parsed (item v no_items) (skip_ws rest)

  pub parse_object : ℕ → Doubles → Bytes → Outcome HVal
  parse_object zero dbl s = out_of_fuel
  parse_object (suc f) dbl s =
      let full = parse_fields f dbl (skip_ws s) >>= λ fs rest.
      expect_char b'}' rest >>= λ _ after. parsed (val_record fs) after in
      if peek s == b'}' then parsed (val_record no_fields) (next (skip_ws s)) else full

  pub parse_fields : ℕ → Doubles → Bytes → Outcome HFields
  parse_fields zero dbl s = out_of_fuel
  parse_fields (suc f) dbl s = parse_key (skip_ws s) >>= λ key s₁.
      parse_value f dbl s₁ >>= λ v rest.
      let more =
        parse_fields f dbl (next (skip_ws rest)) >>= λ fs after. parsed (field key v fs) after in
      if peek rest == b',' then more else parsed (field key v no_fields) (skip_ws rest)

-- What follows the value is not looked at.
unfoldable pub json_parse : Doubles → Bytes → Outcome HVal
json_parse dbl input = parse_value (3 * length input + 3) dbl input
