-- ===== src/VmStdlib/Texts.antt =====
-- The text functions of src/vm_stdlib.c.
use heluna_language.Common.{
  ℕ, zero, suc, ◌-◌, ◌%◌, Bool, true, false, Option, none, some, List, [], ◌∷◌, ◌++◌, ltb, ◌==◌,
  if◌then◌else◌, length, take, drop, Bytes, codes, str_eq,
}
use mathlib.Core.List.{map}
use heluna_language.Common.Int.{ℤ, pos, negsuc, leb_ℤ}
use heluna_language.Value.{
  HVal, HVals, val_integer, val_string, val_boolean, val_list, no_items, item, count_items,
}
use heluna_language.Stdlib.{
  Called, value, error, trim, drop_spaces, drop_end_spaces, to_lower, to_upper,
}
use heluna_language.Packet.Reads.{until_nul}
use heluna_language.VmStdlib.Fields.{get_field, get_string, get_integer, as_list, needs}

abbrev text : Bytes → Called
text s = value (val_string s)

abbrev on_value : Bytes → HVal → (Bytes → Bytes) → Called
on_value missing arg f = needs missing (get_string arg (codes "value")) λ s. text (f s)

unfoldable pub fn_upper : HVal → Called
fn_upper arg = on_value (codes "upper: missing or non-string 'value'") arg (map to_upper)

unfoldable pub fn_lower : HVal → Called
fn_lower arg = on_value (codes "lower: missing or non-string 'value'") arg (map to_lower)

unfoldable pub fn_trim : HVal → Called
fn_trim arg = on_value (codes "trim: missing or non-string 'value'") arg trim

unfoldable pub fn_trim_start : HVal → Called
fn_trim_start arg = on_value (codes "trim-start: missing or non-string 'value'") arg drop_spaces

unfoldable pub fn_trim_end : HVal → Called
fn_trim_end arg = on_value (codes "trim-end: missing or non-string 'value'") arg drop_end_spaces

-- The end is compared as a `size_t`, so that a negative one is behind the text.
abbrev substring_end : ℕ → ℤ → ℕ
substring_end len (pos e) = if ltb len e then len else e
substring_end len (negsuc _) = len

abbrev substring_start : ℤ → ℕ
substring_start (pos n) = n
substring_start (negsuc _) = 0

unfoldable pub substring : Bytes → ℤ → ℤ → Bytes
substring s start_val end_val =
    let last = substring_end (length s) end_val in
    let first = if ltb last (substring_start start_val) then last else substring_start start_val in
    take (last - first) (drop first s)

unfoldable pub fn_substring : HVal → Called
fn_substring arg =
    let missing = codes "substring: missing fields" in
    needs missing (get_string arg (codes "value")) λ s.
      needs missing (get_integer arg (codes "start"))
        λ a. needs missing (get_integer arg (codes "end")) λ b. text (substring s a b)

-- What follows the prefix.
unfoldable pub prefix_rest : Bytes → Bytes → Option Bytes
prefix_rest [] s = some s
prefix_rest (_ ∷ _) [] = none
prefix_rest (d ∷ ds) (c ∷ cs) = let rest = prefix_rest ds cs in if c == d then rest else none

abbrev pub behind_byte : ℕ → Option (Bytes × Bytes) → Option (Bytes × Bytes)
behind_byte c none = none
behind_byte c (some (before, behind)) = some (c ∷ before, behind)

abbrev pub here_or : Option Bytes → Option (Bytes × Bytes) → Option (Bytes × Bytes)
here_or (some behind) later = some ([], behind)
here_or none later = later

-- The first occurrence: what stands before it and what stands behind it.
unfoldable pub strstr : Bytes → Bytes → Option (Bytes × Bytes)
strstr find [] = here_or (prefix_rest find []) none
strstr find (c ∷ cs) = here_or (prefix_rest find (c ∷ cs)) (behind_byte c (strstr find cs))

-- The loop of `replace`, for a text to find that is not empty. Each round but the last passes over a
-- byte, so that a unit of fuel more than the bytes is enough.
unfoldable pub replace_all : ℕ → Bytes → Bytes → Bytes → Bytes
replace_all zero find repl p = []
replace_all (suc f) find repl [] = []
replace_all (suc f) find repl (c ∷ cs) = elim (strstr find (c ∷ cs)) [
  | none ↦ c ∷ cs
  | some (before, behind) ↦ before ++ (repl ++ replace_all f find repl behind)
]

unfoldable pub replace : Bytes → Bytes → Bytes → Bytes
replace s [] repl = s
replace s (d ∷ ds) repl = replace_all (suc (length s)) (d ∷ ds) repl s

unfoldable pub fn_replace : HVal → Called
fn_replace arg =
    let missing = codes "replace: missing fields" in
    needs missing (get_string arg (codes "value")) λ s.
      needs missing (get_string arg (codes "find")) λ find.
        needs missing (get_string arg (codes "replacement")) λ repl. text (replace s find repl)

-- The loop of `split`, on the same fuel.
unfoldable pub split_all : ℕ → Bytes → Bytes → List Bytes
split_all zero delim p = []
split_all (suc f) delim p = elim (strstr delim p) [
  | none ↦ p ∷ []
  | some (before, behind) ↦ before ∷ split_all f delim behind
]

unfoldable pub split : Bytes → Bytes → List Bytes
split s [] = map (λ c. c ∷ []) s
split s (d ∷ ds) = split_all (suc (length s)) (d ∷ ds) s

unfoldable pub strings : List Bytes → HVals
strings [] = no_items
strings (s ∷ ss) = item (val_string s) (strings ss)

unfoldable pub fn_split : HVal → Called
fn_split arg =
    let missing = codes "split: missing fields" in
    needs missing (get_string arg (codes "value")) λ s.
      needs missing (get_string arg (codes "delimiter"))
        λ delim. value (val_list (strings (split s delim)))

-- A member that is no string adds nothing but its delimiter.
abbrev pub text_of : HVal → Bytes
text_of (val_string s) = s
text_of _ = []

unfoldable pub join_rest : Bytes → HVals → Bytes
join_rest delim no_items = []
join_rest delim (item v vs) = delim ++ (text_of v ++ join_rest delim vs)

unfoldable pub join : Bytes → HVals → Bytes
join delim no_items = []
join delim (item v vs) = text_of v ++ join_rest delim vs

unfoldable pub fn_join : HVal → Called
fn_join arg =
    let missing = codes "join: missing fields" in
    needs missing (as_list (get_field arg (codes "list")))
      λ vs. needs missing (get_string arg (codes "delimiter")) λ delim. text (join delim vs)

abbrev pub is_some : {A : Type 0} → Option A → Bool
is_some none = false
is_some (some _) = true

unfoldable pub starts_with : Bytes → Bytes → Bool
starts_with s prefix = is_some (prefix_rest prefix s)

unfoldable pub fn_starts_with : HVal → Called
fn_starts_with arg =
    let missing = codes "starts-with: missing fields" in
    needs missing (get_string arg (codes "value")) λ s.
      needs missing (get_string arg (codes "prefix")) λ p. value (val_boolean (starts_with s p))

unfoldable pub ends_with : Bytes → Bytes → Bool
ends_with s suffix =
    if ltb (length s) (length suffix)
    then false
    else str_eq (drop (length s - length suffix) s) suffix

unfoldable pub fn_ends_with : HVal → Called
fn_ends_with arg =
    let missing = codes "ends-with: missing fields" in
    needs missing (get_string arg (codes "value"))
      λ s. needs missing (get_string arg (codes "suffix")) λ x. value (val_boolean (ends_with s x))

unfoldable pub contains : Bytes → Bytes → Bool
contains s sub = is_some (strstr sub s)

unfoldable pub fn_contains : HVal → Called
fn_contains arg =
    let missing = codes "contains: missing fields" in
    needs missing (get_string arg (codes "value")) λ s.
      needs missing (get_string arg (codes "substring")) λ x. value (val_boolean (contains s x))

abbrev length_or : Option HVals → Option Bytes → Called
length_or (some vs) s = value (val_integer (pos (count_items vs)))
length_or none (some s) = value (val_integer (pos (length s)))
length_or none none = error (codes "length: missing 'list' or string 'value'")

unfoldable pub fn_length : HVal → Called
fn_length arg = length_or (as_list (get_field arg (codes "list"))) (get_string arg (codes "value"))

-- `fill[i % flen]`, where an empty text has its terminator only.
abbrev fill_at : Bytes → ℕ → ℕ
fill_at [] i = 0
fill_at (c ∷ cs) zero = c
fill_at (c ∷ cs) (suc i) = fill_at cs i

abbrev at_least_one : ℕ → ℕ
at_least_one n = if n == 0 then 1 else n

unfoldable pub padding : Bytes → ℕ → ℕ → Bytes
padding fill i zero = []
padding fill i (suc n) = fill_at fill (i % at_least_one (length fill)) ∷ padding fill (suc i) n

-- The buffer is read as a C string.
abbrev wide_enough : Bytes → ℤ → Bool
wide_enough s width = leb_ℤ width (pos (length s))

abbrev missing_bytes : Bytes → ℤ → ℕ
missing_bytes s (pos w) = w - length s
missing_bytes s (negsuc _) = 0

unfoldable pub pad_left : Bytes → ℤ → Bytes → Bytes
pad_left s width fill =
    if wide_enough s width then s else until_nul (padding fill 0 (missing_bytes s width) ++ s)

unfoldable pub pad_right : Bytes → ℤ → Bytes → Bytes
pad_right s width fill =
    if wide_enough s width then s else until_nul (s ++ padding fill 0 (missing_bytes s width))

abbrev pad : Bytes → (Bytes → ℤ → Bytes → Bytes) → HVal → Called
pad missing f arg = needs missing (get_string arg (codes "value")) λ s.
    needs missing (get_string arg (codes "fill"))
      λ fill. needs missing (get_integer arg (codes "width")) λ width. text (f s width fill)

unfoldable pub fn_pad_left : HVal → Called
fn_pad_left = pad (codes "pad-left: missing fields") pad_left

unfoldable pub fn_pad_right : HVal → Called
fn_pad_right = pad (codes "pad-right: missing fields") pad_right
