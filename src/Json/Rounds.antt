-- ===== src/Json/Rounds.antt =====
-- The readers of src/json.c on emitted text, one round of each loop at a time.
use heluna_language.Common.{
  ℕ, suc, ◌+◌, ◌≤◌, ◌≡◌, refl, Bool, true, false, ◌||◌, [], ◌∷◌, ◌++◌, ◌==◌, Bytes, arith,
  append_assoc, append-nil, ◌∙◌, ap, length, length-append,
}
use heluna_language.Common.Int.{ℤ, InRange}
use heluna_language.Value.{
  Doubles, HVal, HFields, HVals, val_integer, val_string, val_boolean, val_nothing, val_record,
  val_list, no_fields, field, no_items, item,
}
use heluna_language.Json.Numbers.{print_int}
use heluna_language.Json.Strings.{emit_string, emit_bytes, parse_string}
use heluna_language.Json.Escapes.{Printable, parse_string-emit_string, Printable-read_back_all}
use heluna_language.Json.Emitter.{json_emit, emit_items, emit_fields}
use heluna_language.Json.Safe.{
  IsSafe, Opening, stops, starts_number, print_int-cons, json_emit-Opening, parse_number-print_int,
}
use heluna_language.Json.Parser.{
  parsed, head_or_nul, skip_ws, expect_char, parse_number, parse_word, parse_key, parse_value,
  parse_items, parse_fields, match_str,
}

pub skip_ws-Opening : (s r : Bytes) → Opening s → skip_ws (s ++ r) ≡ s ++ r
unfolding skip_ws
skip_ws-Opening s r (c, cs, q, o) =
    let blank : (c == b' ' || c == b'\t' || c == b'\n' || c == b'\r') ≡ false = ground arith in
    rw q (rw blank)

pub head-Opening :
    (s r : Bytes)
    → Opening s
    → ((head_or_nul (s ++ r) == b']') ≡ false)
      × ((head_or_nul (s ++ r) == b'}') ≡ false)
      × ((head_or_nul (s ++ r) == b',') ≡ false)
head-Opening s r (c, cs, q, o) = rw q (ground arith, ground arith, ground arith)

-- The key or the string in its quotes.
pub quoted : (t s : Bytes) → emit_string t ++ s ≡ b'"' ∷ (emit_bytes t ++ b'"' ∷ s)
unfolding emit_string
quoted t s = ap (λ u. b'"' ∷ u) (append_assoc (emit_bytes t) (b'"' ∷ []) s)

pub parse_string-Printable :
    (t s : Bytes) → Printable t → parse_string (emit_bytes t ++ b'"' ∷ s) ≡ (t, s)
parse_string-Printable t s h =
    parse_string-emit_string t s ∙ ap (λ u. (u, s)) (Printable-read_back_all t h)

pub parse_key-emit :
    (t s : Bytes) → Printable t → parse_key (emit_string t ++ b':' ∷ s) ≡ parsed t s
unfolding parse_key expect_char skip_ws
parse_key-emit t s h = rw (quoted t (b':' ∷ s), parse_string-Printable t (b':' ∷ s) h)

pub number_dispatch :
    (dbl : Doubles) (f c : ℕ) (cs : Bytes)
    → starts_number c ≡ true
    → parse_value (suc f) dbl (c ∷ cs) ≡ parse_number dbl (c ∷ cs)
unfolding parse_value skip_ws
number_dispatch dbl f c cs h =
    let blank : (c == b' ' || c == b'\t' || c == b'\n' || c == b'\r') ≡ false = ground arith in
    let quote : (c == b'"') ≡ false = ground arith in
    let brace : (c == b'{') ≡ false = ground arith in
    let bracket : (c == b'[') ≡ false = ground arith in rw (blank, quote, brace, bracket, h)

pub integer-Reads :
    (dbl : Doubles) (f : ℕ) (n : ℤ) (s : Bytes)
    → InRange n
    → stops s ≡ true
    → parse_value (suc f) dbl (print_int n ++ s) ≡ parsed (val_integer n) s
integer-Reads dbl f n s h e =
    let (c, cs, q, o) = print_int-cons n in
    let number = parse_number-print_int dbl n s h e in
    rw q (number_dispatch dbl f c (cs ++ s) o ∙ (rw q at number))

pub string-Reads :
    (dbl : Doubles) (f : ℕ) (t s : Bytes)
    → Printable t
    → parse_value (suc f) dbl (emit_string t ++ s) ≡ parsed (val_string t) s
unfolding parse_value skip_ws
string-Reads dbl f t s h = rw (quoted t s, parse_string-Printable t s h)

pub array_body :
    (dbl : Doubles) (vs : HVals) (f : ℕ) (text s : Bytes)
    → Opening text
    → parse_items f dbl (text ++ b']' ∷ s) ≡ parsed vs (b']' ∷ s)
    → parse_value (suc (suc f)) dbl (b'[' ∷ ((text ++ b']' ∷ []) ++ s)) ≡ parsed (val_list vs) s
unfolding parse_value skip_ws expect_char
array_body dbl vs f text s o ih =
    let blank = skip_ws-Opening text (b']' ∷ s) o in
    let first = (head-Opening text (b']' ∷ s) o).0 in rw append_assoc (rw blank (rw (first, ih)))

pub object_body :
    (dbl : Doubles) (fs : HFields) (f : ℕ) (text s : Bytes)
    → Opening text
    → parse_fields f dbl (text ++ b'}' ∷ s) ≡ parsed fs (b'}' ∷ s)
    → parse_value (suc (suc f)) dbl (b'{' ∷ ((text ++ b'}' ∷ []) ++ s)) ≡ parsed (val_record fs) s
unfolding parse_value skip_ws expect_char
object_body dbl fs f text s o ih =
    let blank = skip_ws-Opening text (b'}' ∷ s) o in
    let first = (head-Opening text (b'}' ∷ s) o).1 in rw append_assoc (rw blank (rw (first, ih)))

pub Opening-append : (s t : Bytes) → Opening s → Opening (s ++ t)
Opening-append s t (c, cs, q, o) = (c, cs ++ t, ap (λ u. u ++ t) q, o)

pub key_read :
    (t s : Bytes) → Printable t → parse_key (skip_ws (emit_string t ++ b':' ∷ s)) ≡ parsed t s
unfolding emit_string
key_read t s h =
    ap parse_key (skip_ws-Opening (emit_string t) (b':' ∷ s) (b'"', _, refl, refl))
    ∙ parse_key-emit t s h

-- One round of the loop of `parse_array`, at the last item and at any other.
pub last_item :
    (dbl : Doubles) (v : HVal) (f : ℕ) (text s : Bytes)
    → parse_value f dbl (text ++ b']' ∷ s) ≡ parsed v (b']' ∷ s)
    → parse_items (suc f) dbl ((text ++ []) ++ b']' ∷ s) ≡ parsed (item v no_items) (b']' ∷ s)
unfolding parse_value skip_ws
last_item dbl v f text s ih = rw (append-nil, ih)

pub more_items :
    (dbl : Doubles) (v : HVal) (vs : HVals) (f : ℕ) (text others s : Bytes)
    → parse_value f dbl (text ++ b',' ∷ (others ++ b']' ∷ s))
      ≡ parsed v (b',' ∷ (others ++ b']' ∷ s))
    → parse_items f dbl (others ++ b']' ∷ s) ≡ parsed vs (b']' ∷ s)
    → parse_items (suc f) dbl ((text ++ b',' ∷ others) ++ b']' ∷ s) ≡ parsed (item v vs) (b']' ∷ s)
unfolding parse_value skip_ws
more_items dbl v vs f text others s ih ihs = rw (append_assoc, ih, ihs)

pub last_field :
    (dbl : Doubles) (name : Bytes) (v : HVal) (f : ℕ) (text s : Bytes)
    → Printable name
    → parse_value f dbl (text ++ b'}' ∷ s) ≡ parsed v (b'}' ∷ s)
    → parse_fields (suc f) dbl ((emit_string name ++ b':' ∷ (text ++ [])) ++ b'}' ∷ s)
      ≡ parsed (field name v no_fields) (b'}' ∷ s)
unfolding parse_value skip_ws
last_field dbl name v f text s h ih =
    rw (append-nil text, append_assoc (emit_string name) (b':' ∷ text) (b'}' ∷ s))
      (rw (key_read name (text ++ b'}' ∷ s) h, ih))

pub more_fields :
    (dbl : Doubles) (name : Bytes) (v : HVal) (fs : HFields) (f : ℕ) (text others s : Bytes)
    → Printable name
    → parse_value f dbl (text ++ b',' ∷ (others ++ b'}' ∷ s))
      ≡ parsed v (b',' ∷ (others ++ b'}' ∷ s))
    → parse_fields f dbl (others ++ b'}' ∷ s) ≡ parsed fs (b'}' ∷ s)
    → parse_fields (suc f) dbl ((emit_string name ++ b':' ∷ (text ++ b',' ∷ others)) ++ b'}' ∷ s)
      ≡ parsed (field name v fs) (b'}' ∷ s)
unfolding parse_value skip_ws
more_fields dbl name v fs f text others s h ih ihs =
    rw
      (
        append_assoc (emit_string name) (b':' ∷ (text ++ b',' ∷ others)) (b'}' ∷ s),
        append_assoc text (b',' ∷ others) (b'}' ∷ s),
      )
      (rw (key_read name (text ++ b',' ∷ (others ++ b'}' ∷ s)) h, ih, ihs))

pub boolean-Reads :
    (dbl : Doubles) (c : Bool) (f : ℕ) (s : Bytes)
    → parse_value (suc f) dbl (json_emit dbl (val_boolean c) ++ s) ≡ parsed (val_boolean c) s
unfolding parse_value json_emit skip_ws parse_word match_str
boolean-Reads dbl true f s = refl
boolean-Reads dbl false f s = refl

pub nothing-Reads :
    (dbl : Doubles) (f : ℕ) (s : Bytes)
    → parse_value (suc f) dbl (json_emit dbl val_nothing ++ s) ≡ parsed val_nothing s
unfolding parse_value json_emit skip_ws parse_word match_str
nothing-Reads dbl f s = refl

pub empty_list-Reads :
    (dbl : Doubles) (f : ℕ) (s : Bytes)
    → parse_value (suc (suc f)) dbl (json_emit dbl (val_list no_items) ++ s)
      ≡ parsed (val_list no_items) s
unfolding parse_value json_emit skip_ws
empty_list-Reads dbl f s = refl

pub empty_record-Reads :
    (dbl : Doubles) (f : ℕ) (s : Bytes)
    → parse_value (suc (suc f)) dbl (json_emit dbl (val_record no_fields) ++ s)
      ≡ parsed (val_record no_fields) s
unfolding parse_value json_emit skip_ws
empty_record-Reads dbl f s = refl

-- The lengths of the texts, for the fuel.
pub length-list :
    (dbl : Doubles) (vs : HVals)
    → length (json_emit dbl (val_list vs)) ≡ length (emit_items dbl vs true) + 2
unfolding json_emit
length-list dbl vs = omega (arith, length-append (emit_items dbl vs true) (b']' ∷ []))

pub length-record :
    (dbl : Doubles) (fs : HFields)
    → length (json_emit dbl (val_record fs)) ≡ length (emit_fields dbl fs true) + 2
unfolding json_emit
length-record dbl fs = omega (arith, length-append (emit_fields dbl fs true) (b'}' ∷ []))

pub length-last_item :
    (dbl : Doubles) (v : HVal)
    → length (json_emit dbl v) ≤ length (emit_items dbl (item v no_items) true)
unfolding json_emit
length-last_item dbl v = omega (arith, length-append (json_emit dbl v) [])

pub length-items :
    (dbl : Doubles) (v w : HVal) (ws : HVals)
    → length (emit_items dbl (item v (item w ws)) true)
      ≡ length (json_emit dbl v) + 1 + length (emit_items dbl (item w ws) true)
unfolding json_emit
length-items dbl v w ws =
    omega (arith, length-append (json_emit dbl v) (b',' ∷ emit_items dbl (item w ws) true))

pub length-last_field :
    (dbl : Doubles) (n : Bytes) (v : HVal)
    → length (json_emit dbl v) ≤ length (emit_fields dbl (field n v no_fields) true)
unfolding json_emit
length-last_field dbl n v = omega (
  arith,
  length-append (emit_string n) (b':' ∷ (json_emit dbl v ++ [])),
  length-append (json_emit dbl v) [],
)

pub length-fields :
    (dbl : Doubles) (n m : Bytes) (v w : HVal) (ws : HFields)
    → length (json_emit dbl v) + 1 + length (emit_fields dbl (field m w ws) true)
      ≤ length (emit_fields dbl (field n v (field m w ws)) true)
unfolding json_emit
length-fields dbl n m v w ws =
    let others = emit_fields dbl (field m w ws) true in
    omega (
      arith,
      length-append (emit_string n) (b':' ∷ (json_emit dbl v ++ b',' ∷ others)),
      length-append (json_emit dbl v) (b',' ∷ others),
    )

pub fields-Opening :
    (dbl : Doubles) (n : Bytes) (v : HVal) (fs : HFields)
    → Opening (emit_fields dbl (field n v fs) true)
unfolding json_emit emit_string
fields-Opening dbl n v fs = (b'"', _, refl, refl)

pub items-Opening :
    (dbl : Doubles) (v : HVal) (vs : HVals) → IsSafe v → Opening (emit_items dbl (item v vs) true)
unfolding json_emit
items-Opening dbl v vs h =
    Opening-append (json_emit dbl v) (emit_items dbl vs false) (json_emit-Opening dbl v h)
