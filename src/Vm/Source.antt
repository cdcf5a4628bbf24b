-- ===== src/Vm/Source.antt =====
-- src/vm_source.c: the values that a packet's sources give, without HELUNA_CURL.
--
-- What a file holds is a parameter: the bytes up to a NUL, or `none` where the file cannot be opened
-- or the memory for it is refused. An empty `keyed_by` is the packet's NULL; of an empty `config_json`
-- the JSON parser makes as little as of NULL.
use heluna_language.Common.{
  ℕ, Option, none, some, List, [], ◌∷◌, if◌then◌else◌, Bytes, codes, str_eq, get_elem?, set,
}
use heluna_language.Value.{
  Doubles, HVal, HFields, HVals, val_string, val_record, val_list, val_nothing, no_fields, field,
  no_items, item, field_get,
}
use heluna_language.Compiler.{CompilerSource}
use heluna_language.Json.Parser.{Outcome, parsed, json_parse}

abbrev pub Files : Type 0
Files = Bytes → Option Bytes

abbrev pub Cache : Type 0
Cache = List (Option HVal)

abbrev string_or : HVal → Option Bytes → Option Bytes
string_or (val_string s) later = some s
string_or _ later = later

-- The loop of `config_get_string` and of `record_string`: the first field of that name that is a
-- string.
unfoldable pub string_field : HFields → Bytes → Option Bytes
string_field no_fields key = none
string_field (field n v fs) key =
    let later = string_field fs key in if str_eq n key then string_or v later else later

unfoldable pub config_get_string : HVal → Bytes → Option Bytes
unfolding string_field
config_get_string (val_record fs) key = string_field fs key
config_get_string _ key = none

unfoldable pub record_string : Option HVal → Bytes → Option Bytes
unfolding string_field
record_string (some (val_record fs)) name = string_field fs name
record_string _ name = none

abbrev pub value_of : Outcome HVal → Option HVal
value_of (parsed v _) = some v
value_of _ = none

abbrev pub found_or {ℓ} : {A : Type ℓ} → Option A → A → A
found_or none a = a
found_or (some b) a = b

abbrev text_at : Files → Option Bytes → Option Bytes
text_at files none = none
text_at files (some path) = files path

abbrev json_value : Doubles → Option Bytes → Option HVal
json_value dbl none = none
json_value dbl (some text) = value_of (json_parse dbl text)

-- What is in the file that the configuration names.
unfoldable pub file_value : Doubles → Files → HVal → Option HVal
unfolding config_get_string
file_value dbl files config =
    json_value dbl (text_at files (config_get_string config (codes "path")))

abbrev pub keep : Cache → ℕ → Option HVal → Cache × Option HVal
keep cache idx none = (cache, none)
keep cache idx (some v) = (set cache idx (some v), some v)

abbrev pub cached : Cache → ℕ → Option HVal
cached cache idx = elim (get_elem? cache idx) [ none ↦ none | some entry ↦ entry ]

unfoldable pub cached_or : Doubles → Files → Cache → ℕ → HVal → Option HVal → Cache × Option HVal
unfolding file_value
cached_or dbl files cache idx config (some v) = (cache, some v)
cached_or dbl files cache idx config none = keep cache idx (file_value dbl files config)

-- The data of a file source: read once, and from then on taken from the cache.
unfoldable pub read_source : Doubles → Files → Cache → ℕ → HVal → Cache × Option HVal
unfolding cached_or
read_source dbl files cache idx config = cached_or dbl files cache idx config (cached cache idx)

-- The collection that the configuration names, where the data is a record with that field.
unfoldable pub collection : HVal → HVal → HVal
unfolding config_get_string
collection config (val_record fs) = elim (config_get_string config (codes "collection")) [
  | none ↦ val_record fs
  | some name ↦ found_or (field_get fs name) (val_record fs)
]
collection config v = v

abbrev or_matched : Option Bytes → Bytes → HVal → Option HVal → Option HVal
or_matched none wanted v later = later
or_matched (some found) wanted v later = if str_eq found wanted then some v else later

-- The first member of the list whose key field is that text.
unfoldable pub find_keyed : Bytes → Bytes → HVals → Option HVal
unfolding record_string
find_keyed key_field wanted no_items = none
find_keyed key_field wanted (item v vs) =
    or_matched (record_string (some v) key_field) wanted v (find_keyed key_field wanted vs)

unfoldable pub find_value : Bytes → Option HVal → HVal → Option HVal
unfolding find_keyed record_string
find_value key_field keys (val_list vs) = elim (record_string keys key_field) [
  | none ↦ none
  | some wanted ↦ find_keyed key_field wanted vs
]
find_value key_field keys _ = none

-- `keyed_by` is looked at when the data is known to be a list.
abbrev pub keyed : Bytes → Option HVal → HVal → Option HVal
keyed [] keys v = none
keyed (c ∷ cs) keys v = find_value (c ∷ cs) keys v

abbrev pub in_data : HVal → Bytes → Option HVal → Cache × Option HVal → Cache × Option HVal
in_data config key_field keys (cache, none) = (cache, none)
in_data config key_field keys (cache, some v) = (cache, keyed key_field keys (collection config v))

unfoldable pub resolve_file :
    Doubles → Files → Cache → ℕ → Bytes → HVal → Option HVal → Cache × Option HVal
unfolding read_source collection find_value
resolve_file dbl files cache idx key_field config keys =
    in_data config key_field keys (read_source dbl files cache idx config)

unfoldable pub by_type :
    Doubles → Files → Cache → ℕ → Bytes → HVal → Option HVal → Option Bytes → Cache × Option HVal
unfolding resolve_file
by_type dbl files cache idx key_field config keys none = (cache, none)
by_type dbl files cache idx key_field config keys (some type) =
    if str_eq type (codes "file")
    then resolve_file dbl files cache idx key_field config keys
    else (cache, some val_nothing)

unfoldable pub by_config :
    Doubles → Files → Cache → ℕ → Bytes → Option HVal → Option HVal → Cache × Option HVal
unfolding by_type
by_config dbl files cache idx key_field keys none = (cache, none)
by_config dbl files cache idx key_field keys (some config) =
    by_type dbl files cache idx key_field config keys (config_get_string config (codes "type"))

unfoldable pub by_source :
    Doubles → Files → Cache → ℕ → Option HVal → Option CompilerSource → Cache × Option HVal
unfolding by_config
by_source dbl files cache idx keys none = (cache, none)
by_source dbl files cache idx keys (some src) =
    by_config dbl files cache idx src.keyed_by keys (value_of (json_parse dbl src.config_json))

-- The cache behind the call, and what it returns.
unfoldable pub vm_source_resolve :
    Doubles → Files → List CompilerSource → Cache → ℕ → Option HVal → Cache × Option HVal
unfolding by_source
vm_source_resolve dbl files sources cache idx keys =
    by_source dbl files cache idx keys (get_elem? sources idx)
