-- ===== src/VmStdlib/Fields.antt =====
-- The access to parameters in src/vm_stdlib.c.
use heluna_language.Common.{Option, none, some, Bytes}
use heluna_language.Common.Int.{ℤ}
use heluna_language.Value.{
  HVal, HFields, HVals, val_integer, val_string, val_record, val_list, record_get,
}
use heluna_language.Stdlib.{Called, error}

abbrev pub get_field : HVal → Bytes → Option HVal
get_field = record_get

abbrev pub as_string : Option HVal → Option Bytes
as_string (some (val_string s)) = some s
as_string _ = none

unfoldable pub get_string : HVal → Bytes → Option Bytes
get_string rec name = as_string (get_field rec name)

abbrev pub as_integer : Option HVal → Option ℤ
as_integer (some (val_integer n)) = some n
as_integer _ = none

unfoldable pub get_integer : HVal → Bytes → Option ℤ
get_integer rec name = as_integer (get_field rec name)

abbrev pub as_list : Option HVal → Option HVals
as_list (some (val_list vs)) = some vs
as_list _ = none

abbrev pub as_record : Option HVal → Option HFields
as_record (some (val_record fs)) = some fs
as_record _ = none

-- A parameter that must be there.
abbrev pub needs : {A : Type 0} → Bytes → Option A → (A → Called) → Called
needs text none f = error text
needs text (some a) f = f a
