-- ===== src/VmStdlib/Records.antt =====
-- The record functions of src/vm_stdlib.c. A field's value is never NULL here.
use heluna_language.Common.{
  Bool, false, ◌||◌, Option, none, some, if◌then◌else◌, Bytes, codes, str_eq,
}
use heluna_language.Value.{
  HVal, HFields, HVals, val_string, val_record, val_list, no_fields, field, no_items, item,
  field_get,
}
use heluna_language.Stdlib.{Called, value}
use heluna_language.VmStdlib.Fields.{get_field, as_list, as_record, needs}

unfoldable pub keys : HFields → HVals
keys no_fields = no_items
keys (field n v fs) = item (val_string n) (keys fs)

unfoldable pub fn_keys : HVal → Called
fn_keys arg =
    needs (codes "keys: missing or non-record 'record'")
      (as_record (get_field arg (codes "record"))) λ fs. value (val_list (keys fs))

unfoldable pub values : HFields → HVals
values no_fields = no_items
values (field n v fs) = item v (values fs)

unfoldable pub fn_values : HVal → Called
fn_values arg =
    needs (codes "values: missing or non-record 'record'")
      (as_record (get_field arg (codes "record"))) λ fs. value (val_list (values fs))

-- The first field of that name takes the value, or a new one at the end.
unfoldable pub set_field : HFields → Bytes → HVal → HFields
set_field no_fields n v = field n v no_fields
set_field (field m w fs) n v =
    let rest = field m w (set_field fs n v) in if str_eq m n then field m v fs else rest

unfoldable pub merge : HFields → HFields → HFields
merge head no_fields = head
merge head (field n v fs) = merge (set_field head n v) fs

unfoldable pub fn_merge : HVal → Called
fn_merge arg =
    let missing = codes "merge: missing or non-record fields" in
    needs missing (as_record (get_field arg (codes "a"))) λ ra.
      needs missing (as_record (get_field arg (codes "b"))) λ rb. value (val_record (merge ra rb))

-- The first field of that name, in front of others.
abbrev pub picked : Bytes → Option HVal → HFields → HFields
picked n none fs = fs
picked n (some v) fs = field n v fs

-- A member of the list that is no string is passed over.
unfoldable pub pick : HFields → HVals → HFields
pick fs no_items = no_fields
pick fs (item (val_string s) names) = picked s (field_get fs s) (pick fs names)
pick fs (item _ names) = pick fs names

unfoldable pub fn_pick : HVal → Called
fn_pick arg =
    let missing = codes "pick: missing fields" in
    needs missing (as_record (get_field arg (codes "record"))) λ fs.
      needs missing (as_list (get_field arg (codes "fields")))
        λ names. value (val_record (pick fs names))

unfoldable pub is_named : HVals → Bytes → Bool
is_named no_items n = false
is_named (item (val_string s) names) n = str_eq n s || is_named names n
is_named (item _ names) n = is_named names n

unfoldable pub omit : HFields → HVals → HFields
omit no_fields names = no_fields
omit (field n v fs) names =
    let rest = omit fs names in if is_named names n then rest else field n v rest

unfoldable pub fn_omit : HVal → Called
fn_omit arg =
    let missing = codes "omit: missing fields" in
    needs missing (as_record (get_field arg (codes "record"))) λ fs.
      needs missing (as_list (get_field arg (codes "fields")))
        λ names. value (val_record (omit fs names))
