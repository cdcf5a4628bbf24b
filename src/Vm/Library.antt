-- ===== src/Vm/Library.antt =====
-- `vm_stdlib_call` of src/vm_stdlib.c: the functions of the machine's library under their ids.
use heluna_language.Common.{
  ℕ, ◌+◌, ◌-◌, ◌/◌, ◌%◌, Option, none, some, List, [], ◌∷◌, ◌++◌, ltb, ◌==◌, if◌then◌else◌, Bytes,
  codes,
}
use heluna_language.Value.{HVal}
use heluna_language.Stdlib.{Called, error}
use heluna_language.Evaluator.Equal.{Host}
use heluna_language.VmStdlib.Numbers.{
  Rounding, fn_abs, fn_ceil, fn_floor, fn_round, fn_min, fn_max, fn_clamp,
}
use heluna_language.VmStdlib.Lists.{fn_reverse, fn_unique, fn_flatten, fn_zip, fn_range, fn_slice}
use heluna_language.VmStdlib.Records.{fn_keys, fn_values, fn_merge, fn_pick, fn_omit}
use heluna_language.VmStdlib.Encoding.{
  fn_base64_encode, fn_base64_decode, fn_url_encode, fn_url_decode,
}
use heluna_language.VmStdlib.Texts.{
  fn_upper, fn_lower, fn_trim, fn_trim_start, fn_trim_end, fn_substring, fn_replace, fn_split,
  fn_join, fn_starts_with, fn_ends_with, fn_contains, fn_length, fn_pad_left, fn_pad_right,
}

-- What the functions take from outside. `others` stands for those that are not modelled: regular
-- expressions, sorting, dates, JSON, hashes, `uuid`, the conversions and `fold`; it gives none for
-- an id that no function has.
pub record Surroundings : Type 0 where
  pub host : Host
  pub rounding : Rounding
  pub others : ℕ → Option (HVal → Called)

abbrev functions : Surroundings → List (ℕ × (HVal → Called))
functions m =
    (0x0001, fn_upper)
    ∷ (0x0002, fn_lower)
    ∷ (0x0003, fn_trim)
    ∷ (0x0004, fn_trim_start)
    ∷ (0x0005, fn_trim_end)
    ∷ (0x0006, fn_substring)
    ∷ (0x0007, fn_replace)
    ∷ (0x0008, fn_split)
    ∷ (0x0009, fn_join)
    ∷ (0x000A, fn_starts_with)
    ∷ (0x000B, fn_ends_with)
    ∷ (0x000C, fn_contains)
    ∷ (0x000D, fn_length)
    ∷ (0x000E, fn_pad_left)
    ∷ (0x000F, fn_pad_right)
    ∷ (0x0020, fn_abs m.host.doubles)
    ∷ (0x0021, fn_ceil m.host.doubles m.rounding)
    ∷ (0x0022, fn_floor m.host.doubles m.rounding)
    ∷ (0x0023, fn_round m.host.doubles m.rounding)
    ∷ (0x0024, fn_min m.host.doubles)
    ∷ (0x0025, fn_max m.host.doubles)
    ∷ (0x0026, fn_clamp m.host.doubles)
    ∷ (0x0032, fn_reverse)
    ∷ (0x0033, fn_unique m.host)
    ∷ (0x0034, fn_flatten)
    ∷ (0x0035, fn_zip)
    ∷ (0x0036, fn_range)
    ∷ (0x0037, fn_slice)
    ∷ (0x0040, fn_keys)
    ∷ (0x0041, fn_values)
    ∷ (0x0042, fn_merge)
    ∷ (0x0043, fn_pick)
    ∷ (0x0044, fn_omit)
    ∷ (0x0060, fn_base64_encode)
    ∷ (0x0061, fn_base64_decode)
    ∷ (0x0062, fn_url_encode)
    ∷ (0x0063, fn_url_decode)
    ∷ []

unfoldable pub find_function {ℓ} : {A : Type ℓ} → List (ℕ × A) → ℕ → Option A → Option A
find_function [] id default = default
find_function ((k, f) ∷ rest) id default = if k == id then some f else find_function rest id default

-- `%X` of one digit.
abbrev pub hex_digit : ℕ → ℕ
hex_digit n = if ltb n 10 then b'0' + n else b'A' + (n - 10)

abbrev pub hex_byte : ℕ → Bytes
hex_byte n = hex_digit (n / 16 % 16) ∷ hex_digit (n % 16) ∷ []

call : ℕ → Option (HVal → Called) → HVal → Called
call id none arg =
    error (codes "unknown stdlib function ID 0x" ++ (hex_byte (id / 256) ++ hex_byte id))
call id (some f) arg = f arg

unfoldable pub vm_stdlib_call : Surroundings → ℕ → HVal → Called
unfolding find_function call
vm_stdlib_call m id arg = call id (find_function (functions m) id (m.others id)) arg
