-- ===== src/Json/Fuel.antt =====
-- The fuel of `parse_value` and its loops in src/json.c is enough for every text.
use heluna_language.Common.{
  ℕ, zero, suc, ◌+◌, ◌*◌, ◌≤◌, ◌≡◌, true, ◌||◌, ◌==◌, if◌then◌else◌, Bytes, length, arith,
}
use heluna_language.Value.{Doubles, HVal, val_list, val_record, val_string}
use heluna_language.Json.Strings.{parse_string}
use heluna_language.Json.Numbers.{is_digit}
use heluna_language.Json.Parser.{
  Outcome, parsed, next, skip_ws, peek, parse_number, parse_word, parse_key, parse_value,
  parse_array, parse_items, parse_object, parse_fields, json_parse,
}
use heluna_language.Json.Settles.{
  Settles, Settles-weaken, Settles-bind, Settles-if, length-skip_ws, length-next, after_ws,
  length-parse_string, parse_number-Settles, parse_word-Settles, parse_key-Settles, closing-Settles,
}

-- The first byte behind white space decides how a value is read.
value_by_head :
    (dbl : Doubles) (s : Bytes) (object array : Outcome HVal)
    → ((peek s == b'{') ≡ true → Settles (length s) object)
    → ((peek s == b'[') ≡ true → Settles (length s) array)
    → Settles (length s) (
        if peek s == b'"'
        then parsed
            (val_string (parse_string (next (skip_ws s))).0)
            (parse_string (next (skip_ws s))).1
        else if peek s == b'{'
        then object
        else if peek s == b'['
        then array
        else if peek s == b'-' || is_digit (peek s)
        then parse_number dbl (skip_ws s)
        else parse_word (skip_ws s))
value_by_head dbl s object array o a =
    let at = skip_ws s in
    let n = length s in
    Settles-if n (peek s == b'"') _ _
      (λ _. omega (arith, length-parse_string (next at), length-next at, length-skip_ws s))
      λ _. Settles-if n (peek s == b'{') object _ o λ _.
        Settles-if n (peek s == b'[') array _ a λ _.
          Settles-if n (peek s == b'-' || is_digit (peek s)) (parse_number dbl at) (parse_word at)
            (λ _.
              Settles-weaken (parse_number dbl at) (length-skip_ws s) (parse_number-Settles dbl at))
            (λ _. Settles-weaken (parse_word at) (length-skip_ws s) (parse_word-Settles at))

mutual
  unfolding parse_value

  value-Settles :
      (f : ℕ) (dbl : Doubles) (s : Bytes)
      → 3 * length s + 1 ≤ f
      → Settles (length s) (parse_value f dbl s)
  value-Settles zero dbl s h = absurd (omega arith)
  value-Settles (suc f) dbl s h =
      let inner = next (skip_ws s) in
      value_by_head dbl s (parse_object f dbl inner) (parse_array f dbl inner)
        (λ e.
          let k = after_ws s b'{' (omega arith) e in
          Settles-weaken (parse_object f dbl inner) (omega arith)
            (object-Settles f dbl inner (omega arith)))
        (λ e.
          let k = after_ws s b'[' (omega arith) e in
          Settles-weaken (parse_array f dbl inner) (omega arith)
            (array-Settles f dbl inner (omega arith)))

  array-Settles :
      (f : ℕ) (dbl : Doubles) (s : Bytes)
      → 3 * length s + 3 ≤ f
      → Settles (length s) (parse_array f dbl s)
  array-Settles zero dbl s h = absurd (omega arith)
  array-Settles (suc f) dbl s h =
      let at = skip_ws s in
      let k = length-skip_ws s in
      Settles-if (length s) (peek s == b']') _ _ (λ _. omega (arith, length-next at))
        λ _.
          closing-Settles (length s) b']' (parse_items f dbl at) val_list (omega arith)
            (Settles-weaken (parse_items f dbl at) k (items-Settles f dbl at (omega arith)))

  items-Settles :
      (f : ℕ) (dbl : Doubles) (s : Bytes)
      → 3 * length s + 2 ≤ f
      → Settles (length s) (parse_items f dbl s)
  items-Settles zero dbl s h = absurd (omega arith)
  items-Settles (suc f) dbl s h =
      Settles-bind (length s) (parse_value f dbl s) _ (value-Settles f dbl s (omega arith))
        λ v rest k.
          Settles-if (length s) (peek rest == b',') _ _
            (λ e.
              let inner = next (skip_ws rest) in
              let j = after_ws rest b',' (omega arith) e in
              Settles-bind (length s) (parse_items f dbl inner) _
                (Settles-weaken (parse_items f dbl inner) (omega arith)
                  (items-Settles f dbl inner (omega arith)))
                λ vs after i. i)
            (λ _. omega (arith, length-skip_ws rest))

  object-Settles :
      (f : ℕ) (dbl : Doubles) (s : Bytes)
      → 3 * length s + 3 ≤ f
      → Settles (length s) (parse_object f dbl s)
  object-Settles zero dbl s h = absurd (omega arith)
  object-Settles (suc f) dbl s h =
      let at = skip_ws s in
      let k = length-skip_ws s in
      Settles-if (length s) (peek s == b'}') _ _ (λ _. omega (arith, length-next at))
        λ _.
          closing-Settles (length s) b'}' (parse_fields f dbl at) val_record (omega arith)
            (Settles-weaken (parse_fields f dbl at) k (fields-Settles f dbl at (omega arith)))

  fields-Settles :
      (f : ℕ) (dbl : Doubles) (s : Bytes)
      → 3 * length s + 2 ≤ f
      → Settles (length s) (parse_fields f dbl s)
  fields-Settles zero dbl s h = absurd (omega arith)
  fields-Settles (suc f) dbl s h =
      let at = skip_ws s in
      Settles-bind (length s) (parse_key at) _
        (Settles-weaken (parse_key at) (length-skip_ws s) (parse_key-Settles at))
        λ key s₁ k₁.
          Settles-bind (length s) (parse_value f dbl s₁) _
            (Settles-weaken (parse_value f dbl s₁) k₁ (value-Settles f dbl s₁ (omega arith)))
            λ v rest k.
              Settles-if (length s) (peek rest == b',') _ _
                (λ e.
                  let inner = next (skip_ws rest) in
                  let j = after_ws rest b',' (omega arith) e in
                  Settles-bind (length s) (parse_fields f dbl inner) _
                    (Settles-weaken (parse_fields f dbl inner) (omega arith)
                      (fields-Settles f dbl inner (omega arith)))
                    λ fs after i. i)
                (λ _. omega (arith, length-skip_ws rest))

-- On every text `json_parse` ends, with its fuel, with a value, behind which at most the text's length is left, or
-- with an error.
pub json_parse-Settles : (dbl : Doubles) (s : Bytes) → Settles (length s) (json_parse dbl s)
unfolding json_parse
json_parse-Settles dbl s = value-Settles (3 * length s + 3) dbl s (omega arith)
