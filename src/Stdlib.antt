-- ===== src/Stdlib.antt =====
-- src/stdlib.c: the library functions of the evaluator.
--
-- A function gets one argument, mostly a record, and returns a value or sets the error. Where the
-- code reads an integer or a double out of a value of another kind, or converts a double that no
-- `long long` holds, or overflows one, C leaves the outcome undefined. `isspace`, `tolower` and
-- `toupper` are those of the C locale.
pub mod Folds
pub mod Texts
use heluna_language.Common.{
  ℕ, zero, suc, ◌+◌, ◌-◌, ◌*◌, Bool, true, false, not, ◌&&◌, ◌||◌, Option, none, some, List, [],
  ◌∷◌, ◌++◌, leb, ◌==◌, if◌then◌else◌, length, Bytes, codes, str_eq,
}
use mathlib.Core.List.{map}
use heluna_language.Common.Int.{ℤ, pos, fits, ◌+ℤ◌, ◌*ℤ◌}
use heluna_language.Value.{
  Double, Doubles, HVal, HFields, HVals, val_integer, val_float, val_string, val_boolean,
  val_nothing, val_record, val_list, no_fields, field, no_items, item, record_get, count_items,
}
use heluna_language.Json.Numbers.{print_int, strtoll, is_space}

pub data Called : Type 0 where
  value : HVal → Called
  error : Bytes → Called
  undefined : Called

-- `get_field`: NULL on a value that is no record, as `record_get`.
abbrev pub get_field : HVal → Bytes → Option HVal
get_field = record_get

abbrev on_field : Option HVal → Bytes → (HVal → Called) → Called
on_field none text f = error text
on_field (some v) text f = f v

abbrev pub has_point : Bytes → Bool
has_point [] = false
has_point (c ∷ cs) = c == b'.' || c == b'e' || c == b'E' || has_point cs

-- The text of a float: at most 255 bytes of it fit.
float_text : Doubles → Double → Bytes
float_text dbl d =
    let text = dbl.print_g d in
    if has_point text then text else if leb 254 (length text) then text else text ++ codes ".0"

abbrev wrap : HVal → Called
wrap v = value (val_record (field (codes "value") v no_fields))

to_string_of : Doubles → HVal → Called
unfolding float_text
to_string_of dbl (val_integer n) = wrap (val_string (print_int n))
to_string_of dbl (val_float d) = wrap (val_string (float_text dbl d))
to_string_of dbl (val_string s) = wrap (val_string s)
to_string_of dbl (val_boolean b) = wrap (val_string (if b then codes "true" else codes "false"))
to_string_of dbl val_nothing = wrap (val_string (codes "nothing"))
to_string_of dbl _ = error (codes "to-string: unsupported value type")

unfoldable pub fn_to_string : Doubles → HVal → Called
unfolding to_string_of
fn_to_string dbl arg =
    on_field (get_field arg (codes "value")) (codes "to-string: missing 'value' field")
      (to_string_of dbl)

to_float_of : Doubles → HVal → Called
to_float_of dbl (val_integer n) = value (val_float (dbl.of_int n))
to_float_of dbl (val_float d) = value (val_float d)
to_float_of dbl (val_string s) = value (val_float (dbl.strtod s))
to_float_of dbl _ = error (codes "to-float: cannot convert value to float")

unfoldable pub fn_to_float : Doubles → HVal → Called
unfolding to_float_of
fn_to_float dbl arg =
    on_field (get_field arg (codes "value")) (codes "to-float: missing 'value' field")
      (to_float_of dbl)

abbrev truncated : Option ℤ → Called
truncated none = undefined
truncated (some n) = value (val_integer n)

to_integer_of : Doubles → HVal → Called
to_integer_of dbl (val_integer n) = value (val_integer n)
to_integer_of dbl (val_float d) = truncated (dbl.to_int d)
to_integer_of dbl (val_string s) = value (val_integer (strtoll s))
to_integer_of dbl _ = error (codes "to-integer: cannot convert value to integer")

unfoldable pub fn_to_integer : Doubles → HVal → Called
unfolding to_integer_of
fn_to_integer dbl arg =
    on_field (get_field arg (codes "value")) (codes "to-integer: missing 'value' field")
      (to_integer_of dbl)

length_of_text : Option HVal → Called
length_of_text (some (val_string s)) = value (val_integer (pos (length s)))
length_of_text _ = error (codes "length: missing 'list' field")

length_of : Option HVal → Option HVal → Called
length_of none text = length_of_text text
length_of (some (val_list vs)) text = value (val_integer (pos (count_items vs)))
length_of (some _) text = error (codes "length: 'list' field is not a list")

unfoldable pub fn_length : HVal → Called
unfolding length_of length_of_text
fn_length arg = length_of (get_field arg (codes "list")) (get_field arg (codes "value"))

-- The number that `fold` reads out of a value for float arithmetic. It tests for a float only, so
-- that the bytes of any other kind are read as an integer.
abbrev fold_number : Doubles → HVal → Option Double
fold_number dbl (val_float d) = some d
fold_number dbl (val_integer n) = some (dbl.of_int n)
fold_number dbl _ = none

abbrev checked : ℤ → Option HVal
checked n = if fits n then some (val_integer n) else none

abbrev both : (Double → Double → Double) → Option Double → Option Double → Option HVal
both op (some a) (some b) = some (val_float (op a b))
both op _ _ = none

-- One round of the loop for `add` and for `multiply`; `none` is undefined.
unfoldable pub fold_step :
    Doubles → (ℤ → ℤ → ℤ) → (Double → Double → Double) → HVal → HVal → Option HVal
fold_step dbl on_ints on_floats (val_integer a) (val_integer b) = checked (on_ints a b)
fold_step dbl on_ints on_floats acc v = both on_floats (fold_number dbl acc) (fold_number dbl v)

unfoldable pub fold_loop : (HVal → HVal → Option HVal) → HVal → HVals → Called
fold_loop step acc no_items = value acc
fold_loop step acc (item v vs) = elim (step acc v) [
  | some next ↦ fold_loop step next vs
  | none ↦ undefined
]

-- The name of the function is looked at in each round, so over an empty list any name will do.
unfoldable pub fold_over : Doubles → Bytes → HVal → HVals → Called
fold_over dbl name initial no_items = value initial
fold_over dbl name initial (item v vs) =
    if str_eq name (codes "add")
    then fold_loop (fold_step dbl ◌+ℤ◌ dbl.add) initial (item v vs)
    else if str_eq name (codes "multiply")
    then fold_loop (fold_step dbl ◌*ℤ◌ dbl.mul) initial (item v vs)
    else error (codes "fold: unsupported fn '" ++ name ++ codes "'")

fold_checked : Doubles → HVal → HVal → HVal → Called
fold_checked dbl (val_list vs) initial (val_string name) = fold_over dbl name initial vs
fold_checked dbl (val_list vs) initial _ = error (codes "fold: 'fn' must be a string")
fold_checked dbl _ initial _ = error (codes "fold: 'list' is not a list")

unfoldable pub fn_fold : Doubles → HVal → Called
unfolding fold_checked
fn_fold dbl arg =
    let missing = codes "fold: missing required fields (list, initial, fn)" in
    on_field (get_field arg (codes "list")) missing λ list.
      on_field (get_field arg (codes "initial")) missing λ initial.
        on_field (get_field arg (codes "fn")) missing λ fn. fold_checked dbl list initial fn

unfoldable pub drop_spaces : Bytes → Bytes
drop_spaces [] = []
drop_spaces (c ∷ cs) = let rest = drop_spaces cs in if is_space c then rest else c ∷ cs

-- The loop from the end: the text up to its last byte that is no space.
unfoldable pub drop_end_spaces : Bytes → Bytes
drop_end_spaces [] = []
drop_end_spaces (c ∷ cs) =
    let rest = drop_end_spaces cs in
    elim rest [ [] ↦ if is_space c then [] else c ∷ [] | d ∷ ds ↦ c ∷ d ∷ ds ]

unfoldable pub trim : Bytes → Bytes
trim s = drop_end_spaces (drop_spaces s)

unfoldable pub to_lower : ℕ → ℕ
to_lower c = if leb b'A' c && leb c b'Z' then c + 32 else c

unfoldable pub to_upper : ℕ → ℕ
to_upper c = if leb b'a' c && leb c b'z' then c - 32 else c

on_text : (Bytes → Bytes) → Bytes → Option HVal → Called
on_text f text (some (val_string s)) = value (val_string (f s))
on_text f text _ = error text

unfoldable pub fn_trim : HVal → Called
unfolding on_text
fn_trim arg =
    on_text trim (codes "trim: missing or non-string 'value' field") (get_field arg (codes "value"))

unfoldable pub fn_lower : HVal → Called
unfolding on_text
fn_lower arg =
    on_text (map to_lower) (codes "lower: missing or non-string 'value' field")
      (get_field arg (codes "value"))

unfoldable pub fn_upper : HVal → Called
unfolding on_text
fn_upper arg =
    on_text (map to_upper) (codes "upper: missing or non-string 'value' field")
      (get_field arg (codes "value"))

abbrev stdlib_table : List (Bytes × (Doubles → HVal → Called))
stdlib_table =
    (codes "to-string", fn_to_string)
    ∷ (codes "to-float", fn_to_float)
    ∷ (codes "to-integer", fn_to_integer)
    ∷ (codes "length", λ _. fn_length)
    ∷ (codes "fold", fn_fold)
    ∷ (codes "trim", λ _. fn_trim)
    ∷ (codes "lower", λ _. fn_lower)
    ∷ (codes "upper", λ _. fn_upper)
    ∷ []

dispatch : List (Bytes × (Doubles → HVal → Called)) → Doubles → Bytes → HVal → Called
dispatch [] dbl name arg = error (codes "function '" ++ name ++ codes "' is not yet implemented")
dispatch ((entry, fn) ∷ rest) dbl name arg =
    if str_eq entry name then fn dbl arg else dispatch rest dbl name arg

unfoldable pub stdlib_call : Doubles → Bytes → HVal → Called
unfolding dispatch
stdlib_call = dispatch stdlib_table
