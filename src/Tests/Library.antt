-- ===== src/Tests/Library.antt =====
-- The theorems on the machine's library at concrete inputs.
use heluna_language.Common.{
  ◌%◌, ◌≤◌, ◌≡◌, ◌↔◌, refl, some, [], ◌∷◌, Bytes, codes, arith, length, str_eq,
}
use heluna_language.Common.Int.{pos}
use heluna_language.Value.{
  HVal, HFields, HVals, val_integer, val_string, val_record, val_list, no_fields, field, field_get,
  record_get,
}
use heluna_language.Stdlib.{value}
use heluna_language.VmStdlib.Fields.{get_integer, get_string}
use heluna_language.VmStdlib.Texts.{
  fn_join, fn_split, fn_replace, split, strings, replace, fn_pad_left, pad_left, padding,
}
use heluna_language.VmStdlib.Splitting.{fn_join-fn_split, fn_replace-fn_join}
use heluna_language.VmStdlib.Encoding.{
  base64_encode, base64_decode, fn_base64_encode, fn_base64_decode, b64_out_len, url_encode,
  fn_url_encode, fn_url_decode, b64_decode_char,
}
use heluna_language.VmStdlib.Decoding.{
  fn_base64_decode-fn_base64_encode, fn_url_decode-fn_url_encode, base64_decode-le_iff,
}
use heluna_language.VmStdlib.Records.{merge, fn_merge, pick, fn_pick, omit, fn_omit, is_named}
use heluna_language.VmStdlib.Lookups.{
  fn_merge_lem, fn_pick-fn_omit, or_else, last_field, only, all_but,
}
use heluna_language.VmStdlib.Dispatch.{called_fn, c_name, called_fn-stdlib_lookup}
use heluna_language.Compiler.{stdlib_lookup, find_name}
use heluna_language.Packet.Reads.{until_nul}

abbrev with_text : Bytes → HFields → HFields
with_text s fs = field (codes "value") (val_string s) fs

abbrev csv : Bytes
csv = codes "a,,b"

abbrev split_arg : HVal
split_arg =
    val_record (with_text csv (field (codes "delimiter") (val_string (codes ",")) no_fields))

abbrev join_arg : Bytes → HVal
join_arg delim = val_record (
    field (codes "list") (val_list (strings (split csv (codes ","))))
      (field (codes "delimiter") (val_string delim) no_fields))

abbrev replace_arg : HVal
replace_arg = val_record (
    with_text csv (
      field (codes "find") (val_string (codes ","))
        (field (codes "replacement") (val_string (codes "--")) no_fields)))

fn_join-fn_split_example :
    (fn_split split_arg ≡ value (val_list (strings (split csv (codes ",")))))
    × (fn_join (join_arg (codes ",")) ≡ value (val_string csv))
unfolding get_string record_get field_get str_eq
fn_join-fn_split_example =
    fn_join-fn_split split_arg (join_arg (codes ",")) csv (codes ",") refl refl refl refl

fn_replace-fn_join_example :
    (fn_replace replace_arg ≡ value (val_string (replace csv (codes ",") (codes "--"))))
    × (fn_join (join_arg (codes "--")) ≡ fn_replace replace_arg)
unfolding get_string record_get field_get str_eq
fn_replace-fn_join_example =
    fn_replace-fn_join replace_arg (join_arg (codes "--")) csv (codes ",") (codes "--") (λ e. cc)
      refl refl refl refl refl

abbrev value_arg : Bytes → HVal
value_arg s = val_record (with_text s no_fields)

fn_base64_decode-fn_base64_encode_example :
    (fn_base64_encode (value_arg csv) ≡ value (val_string (base64_encode csv)))
    × (fn_base64_decode (value_arg (base64_encode csv)) ≡ value (val_string csv))
unfolding get_string record_get field_get str_eq
fn_base64_decode-fn_base64_encode_example =
    fn_base64_decode-fn_base64_encode (value_arg csv) (value_arg (base64_encode csv)) csv
      (ground arith) (ground arith) refl refl

fn_url_decode-fn_url_encode_example :
    (fn_url_encode (value_arg csv) ≡ value (val_string (url_encode csv)))
    × (fn_url_decode (value_arg (url_encode csv)) ≡ value (val_string csv))
unfolding get_string record_get field_get str_eq
fn_url_decode-fn_url_encode_example =
    fn_url_decode-fn_url_encode (value_arg csv) (value_arg (url_encode csv)) csv (ground arith)
      (ground arith) refl refl

-- Two bytes are written where the buffer has room for the terminator only.
base64_decode-le_iff_example :
    (length (base64_decode (codes "QUI")) ≤ b64_out_len (codes "QUI"))
    ↔ (length (codes "QUI") % 4 ≡ 0)
unfolding b64_decode_char
base64_decode-le_iff_example =
    base64_decode-le_iff (codes "QUI") ((16, refl), ((20, refl), ((8, refl), tt)))

-- An empty fill text ends the text before it begins.
fn_pad_left_empty :
    fn_pad_left (
      val_record (
        with_text (codes "ab") (
          field
            (codes "fill")
            (val_string [])
            (field (codes "width") (val_integer (pos 5)) no_fields))))
    ≡ value (val_string [])
unfolding fn_pad_left pad_left padding get_integer get_string record_get field_get str_eq until_nul
fn_pad_left_empty = refl

abbrev two_texts : HVals
two_texts = strings (codes "x" ∷ codes "y" ∷ [])

abbrev left_record : HFields
left_record =
    field (codes "x") (val_integer (pos 1)) (field (codes "y") (val_integer (pos 2)) no_fields)

abbrev right_record : HFields
right_record = field (codes "y") (val_integer (pos 3)) no_fields

abbrev merge_arg : HVal
merge_arg = val_record (
    field (codes "a") (val_record left_record)
      (field (codes "b") (val_record right_record) no_fields))

fn_merge_lem_example :
    (fn_merge merge_arg ≡ value (val_record (merge left_record right_record)))
    × (field_get (merge left_record right_record) (codes "y")
        ≡ or_else (last_field right_record (codes "y")) (field_get left_record (codes "y")))
unfolding record_get field_get str_eq
fn_merge_lem_example = fn_merge_lem merge_arg left_record right_record (codes "y") refl refl

abbrev pick_arg : HVal
pick_arg = val_record (
    field (codes "record") (val_record left_record)
      (field (codes "fields") (val_list two_texts) no_fields))

fn_pick-fn_omit_example :
    (fn_pick pick_arg ≡ value (val_record (pick left_record two_texts)))
    × (fn_omit pick_arg ≡ value (val_record (omit left_record two_texts)))
    × (field_get (pick left_record two_texts) (codes "y")
        ≡ only (is_named two_texts (codes "y")) (field_get left_record (codes "y")))
    × (field_get (omit left_record two_texts) (codes "y")
        ≡ all_but (is_named two_texts (codes "y")) (field_get left_record (codes "y")))
unfolding record_get field_get str_eq
fn_pick-fn_omit_example = fn_pick-fn_omit pick_arg left_record two_texts (codes "y") refl refl

called_fn-stdlib_lookup_example : called_fn 100 ≡ some (c_name (codes "json-encode"))
unfolding stdlib_lookup find_name str_eq
called_fn-stdlib_lookup_example = called_fn-stdlib_lookup (codes "json-encode") 100 refl
