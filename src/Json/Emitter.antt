-- ===== src/Json/Emitter.antt =====
-- `json_emit` of src/json.c.
use heluna_language.Common.{Bool, true, false, [], ◌∷◌, ◌++◌, if◌then◌else◌, Bytes, codes}
use heluna_language.Value.{
  Doubles, HVal, HFields, HVals, val_integer, val_float, val_string, val_boolean, val_nothing,
  val_record, val_list, no_fields, field, no_items, item,
}
use heluna_language.Json.Numbers.{print_int}
use heluna_language.Json.Strings.{emit_string}

abbrev pub comma : Bool → Bytes
comma first = if first then [] else b',' ∷ []

unfoldable mutual
  pub json_emit : Doubles → HVal → Bytes
  json_emit dbl (val_integer n) = print_int n
  json_emit dbl (val_float d) = dbl.print_17g d
  json_emit dbl (val_string s) = emit_string s
  json_emit dbl (val_boolean b) = if b then codes "true" else codes "false"
  json_emit dbl val_nothing = codes "null"
  json_emit dbl (val_record fs) = b'{' ∷ (emit_fields dbl fs true ++ b'}' ∷ [])
  json_emit dbl (val_list vs) = b'[' ∷ (emit_items dbl vs true ++ b']' ∷ [])

  pub emit_fields : Doubles → HFields → Bool → Bytes
  emit_fields dbl no_fields first = []
  emit_fields dbl (field name v fs) first =
      comma first ++ (emit_string name ++ b':' ∷ (json_emit dbl v ++ emit_fields dbl fs false))

  pub emit_items : Doubles → HVals → Bool → Bytes
  emit_items dbl no_items first = []
  emit_items dbl (item v vs) first = comma first ++ (json_emit dbl v ++ emit_items dbl vs false)
