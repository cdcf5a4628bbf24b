-- ===== src/Vm/Conversions.antt =====
-- Texts, type tests, conversions and parts of values in the instructions of src/vm.c, with `val_to_str`,
-- `record_get_field` and `list_length`. An operand is NULL where it is `none`.
use heluna_language.Common.{
  ℕ, zero, suc, ◌+◌, ◌-◌, ◌%◌, ◌^◌, Bool, true, false, not, Option, none, some, [], ◌∷◌, ◌++◌, ltb,
  ◌==◌, if◌then◌else◌, Bytes, codes, length, take,
}
use heluna_language.Common.Int.{ℤ, pos, negsuc, nat_abs}
use heluna_language.Value.{
  Double, Doubles, HVal, HVals, val_integer, val_float, val_string, val_boolean, val_nothing,
  val_record, val_list, no_items, item, record_get, count_items,
}
use heluna_language.Stdlib.{has_point}
use heluna_language.Json.Numbers.{print_int, strtoll}
use heluna_language.Vm.Values.{null_operand}
use heluna_language.Vm.{
  Outcome, done, failed, undefined, HValKind, kind_string, kind_integer, kind_float, kind_boolean,
  kind_nothing, kind_list, kind_record,
}

-- The text of a float in a buffer of 64 bytes.
float_text : Doubles → Double → Bytes
float_text dbl d =
    let text = take 63 (dbl.print_g d) in
    if has_point text then text else if ltb (length text + 2) 64 then text ++ codes ".0" else text

unfoldable pub val_to_str : Doubles → Option HVal → Bytes
unfolding float_text
val_to_str dbl none = codes "nothing"
val_to_str dbl (some (val_string s)) = s
val_to_str dbl (some (val_integer n)) = print_int n
val_to_str dbl (some (val_float d)) = float_text dbl d
val_to_str dbl (some (val_boolean b)) = if b then codes "true" else codes "false"
val_to_str dbl (some val_nothing) = codes "nothing"
val_to_str dbl (some _) = codes "<value>"

abbrev pub kind_of : HVal → HValKind
kind_of (val_string _) = kind_string
kind_of (val_integer _) = kind_integer
kind_of (val_float _) = kind_float
kind_of (val_boolean _) = kind_boolean
kind_of val_nothing = kind_nothing
kind_of (val_list _) = kind_list
kind_of (val_record _) = kind_record

abbrev same_kind : HValKind → HValKind → Bool
same_kind kind_string kind_string = true
same_kind kind_integer kind_integer = true
same_kind kind_float kind_float = true
same_kind kind_boolean kind_boolean = true
same_kind kind_nothing kind_nothing = true
same_kind kind_list kind_list = true
same_kind kind_record kind_record = true
same_kind _ _ = false

-- NULL is of the kind nothing.
unfoldable pub is_of_kind : HValKind → Option HVal → Bool
is_of_kind k none = same_kind k kind_nothing
is_of_kind k (some a) = same_kind k (kind_of a)

abbrev pub cast : Option ℤ → Outcome HVal
cast none = undefined
cast (some n) = done (val_integer n)

unfoldable pub vm_to_int : Doubles → Option HVal → Outcome HVal
vm_to_int dbl none = null_operand (codes "TO_INT")
vm_to_int dbl (some (val_integer n)) = done (val_integer n)
vm_to_int dbl (some (val_float d)) = cast (dbl.to_int d)
vm_to_int dbl (some (val_string s)) = done (val_integer (strtoll s))
vm_to_int dbl (some (val_boolean b)) = done (val_integer (pos (if b then 1 else 0)))
vm_to_int dbl (some _) = failed (codes "TO_INT: cannot convert")

unfoldable pub vm_to_float : Doubles → Option HVal → Outcome HVal
vm_to_float dbl none = null_operand (codes "TO_FLOAT")
vm_to_float dbl (some (val_integer n)) = done (val_float (dbl.of_int n))
vm_to_float dbl (some (val_float d)) = done (val_float d)
vm_to_float dbl (some (val_string s)) = done (val_float (dbl.strtod s))
vm_to_float dbl (some _) = failed (codes "TO_FLOAT: cannot convert")

abbrev is_filled : Bytes → Bool
is_filled [] = false
is_filled (_ ∷ _) = true

unfoldable pub vm_to_bool : Doubles → Option HVal → Bool
vm_to_bool dbl none = false
vm_to_bool dbl (some (val_integer n)) = not (nat_abs n == 0)
vm_to_bool dbl (some (val_float d)) = not (dbl.eqb d dbl.zero)
vm_to_bool dbl (some (val_string s)) = is_filled s
vm_to_bool dbl (some (val_boolean b)) = b
vm_to_bool dbl (some val_nothing) = false
vm_to_bool dbl (some _) = true

-- RECORD_GET on its two operands: the field's value.
unfoldable pub record_get_field : Option HVal → Option HVal → Option HVal
record_get_field (some rec) (some (val_string key)) = record_get rec key
record_get_field _ _ = none

-- `(int)n`, which keeps the low 32 bits as a signed number.
abbrev low_word : ℤ → ℕ
low_word (pos k) = k % 2 ^ 32
low_word (negsuc k) = 2 ^ 32 - 1 - k % 2 ^ 32

abbrev signed_word : ℕ → ℤ
signed_word w = if ltb w (2 ^ 31) then pos w else negsuc (2 ^ 32 - 1 - w)

unfoldable pub to_int32 : ℤ → ℤ
to_int32 n = signed_word (low_word n)

-- The loop of LIST_GET, which a negative index does not enter.
unfoldable pub nth : HVals → ℕ → Option HVal
nth no_items i = none
nth (item v vs) zero = some v
nth (item v vs) (suc i) = nth vs i

abbrev index : ℤ → ℕ
index (pos n) = n
index (negsuc _) = 0

unfoldable pub vm_list_get : Option HVal → Option HVal → Outcome (Option HVal)
unfolding to_int32 nth
vm_list_get (some (val_list vs)) (some (val_integer i)) = done (nth vs (index (to_int32 i)))
vm_list_get _ _ = failed (codes "LIST_GET: invalid operands")

-- The count is an `int`.
abbrev pub list_length : HVals → Outcome HVal
list_length vs =
    let n = count_items vs in if ltb n (2 ^ 31) then done (val_integer (pos n)) else undefined

unfoldable pub vm_list_length : Option HVal → Outcome HVal
vm_list_length (some (val_list vs)) = list_length vs
vm_list_length _ = done (val_integer (pos 0))

unfoldable pub append_item : HVals → HVal → HVals
append_item no_items v = item v no_items
append_item (item w ws) v = item w (append_item ws v)

abbrev pub or_nothing : Option HVal → HVal
or_nothing none = val_nothing
or_nothing (some v) = v
