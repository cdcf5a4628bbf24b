-- ===== src/Vm/Caches.antt =====
-- The cache of src/vm_source.c over a call of `vm_source_resolve`.
use heluna_language.Common.{
  ℕ, ◌≡◌, refl, Option, none, some, List, Bytes, codes, str_eq, get_elem?, length, length-set,
  Bool-cases, inl, inr, ap, ◌∙◌,
}
use heluna_language.Value.{Doubles, HVal}
use heluna_language.Compiler.{CompilerSource}
use heluna_language.Vm.Source.{
  Files, Cache, keep, cached, in_data, file_value, read_source, cached_or, resolve_file, by_type,
  by_config, by_source, vm_source_resolve,
}

length-keep :
    (cache : Cache) (idx : ℕ) (v : Option HVal) → length (keep cache idx v).0 ≡ length cache
length-keep cache idx none = refl
length-keep cache idx (some v) = length-set cache idx (some v)

length-cached_or :
    (dbl : Doubles) (files : Files) (cache : Cache) (idx : ℕ) (config : HVal) (v : Option HVal)
    → length (cached_or dbl files cache idx config v).0 ≡ length cache
unfolding cached_or
length-cached_or dbl files cache idx config none =
    length-keep cache idx (file_value dbl files config)
length-cached_or dbl files cache idx config (some v) = refl

in_data_keeps :
    (config : HVal) (key_field : Bytes) (keys : Option HVal) (r : Cache × Option HVal)
    → (in_data config key_field keys r).0 ≡ r.0
in_data_keeps config key_field keys (cache, none) = refl
in_data_keeps config key_field keys (cache, some v) = refl

length-resolve_file :
    (dbl : Doubles) (files : Files) (cache : Cache) (idx : ℕ) (key_field : Bytes) (config : HVal)
    → (keys : Option HVal)
    → length (resolve_file dbl files cache idx key_field config keys).0 ≡ length cache
unfolding resolve_file read_source
length-resolve_file dbl files cache idx key_field config keys =
    ap length (
      in_data_keeps config key_field keys (cached_or dbl files cache idx config (cached cache idx)))
    ∙ length-cached_or dbl files cache idx config (cached cache idx)

length-by_type :
    (dbl : Doubles) (files : Files) (cache : Cache) (idx : ℕ) (key_field : Bytes) (config : HVal)
    → (keys : Option HVal) (type : Option Bytes)
    → length (by_type dbl files cache idx key_field config keys type).0 ≡ length cache
unfolding by_type
length-by_type dbl files cache idx key_field config keys none = refl
length-by_type dbl files cache idx key_field config keys (some type) =
    elim (Bool-cases (str_eq type (codes "file"))) [
      | inl e ↦ rw e (length-resolve_file dbl files cache idx key_field config keys)
      | inr e ↦ rw e refl
    ]

length-by_config :
    (dbl : Doubles) (files : Files) (cache : Cache) (idx : ℕ) (key_field : Bytes)
    → (keys config : Option HVal)
    → length (by_config dbl files cache idx key_field keys config).0 ≡ length cache
unfolding by_config
length-by_config dbl files cache idx key_field keys none = refl
length-by_config dbl files cache idx key_field keys (some config) =
    length-by_type dbl files cache idx key_field config keys _

length-by_source :
    (dbl : Doubles) (files : Files) (cache : Cache) (idx : ℕ) (keys : Option HVal)
    → (source : Option CompilerSource)
    → length (by_source dbl files cache idx keys source).0 ≡ length cache
unfolding by_source
length-by_source dbl files cache idx keys none = refl
length-by_source dbl files cache idx keys (some src) =
    length-by_config dbl files cache idx src.keyed_by keys _

-- The cache keeps its length over every call.
pub length-vm_source_resolve :
    (dbl : Doubles) (files : Files) (sources : List CompilerSource) (cache : Cache) (idx : ℕ)
    → (keys : Option HVal)
    → length (vm_source_resolve dbl files sources cache idx keys).0 ≡ length cache
unfolding vm_source_resolve
length-vm_source_resolve dbl files sources cache idx keys =
    length-by_source dbl files cache idx keys (get_elem? sources idx)
