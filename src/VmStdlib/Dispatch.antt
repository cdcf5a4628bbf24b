-- ===== src/VmStdlib/Dispatch.antt =====
-- The dispatch table of src/vm_stdlib.c, against the library table of src/compiler.c. A function is
-- given by its name in the C source.
use heluna_language.Common.{
  ℕ, ◌≡◌, refl, Bool, true, false, ◌&&◌, Option, none, some, List, [], ◌∷◌, ◌++◌, ltb, ◌==◌,
  if◌then◌else◌, Bytes, codes, str_eq, str_eq-eq, arith, ap, sym, ◌∙◌, Bool-cases, inl, inr,
}
use mathlib.Core.List.{map}
use heluna_language.Compiler.{stdlib_table, find_name, stdlib_lookup}

abbrev pub vm_stdlib_table : List (ℕ × Bytes)
vm_stdlib_table =
    (0x0001, codes "fn_upper")
    ∷ (0x0002, codes "fn_lower")
    ∷ (0x0003, codes "fn_trim")
    ∷ (0x0004, codes "fn_trim_start")
    ∷ (0x0005, codes "fn_trim_end")
    ∷ (0x0006, codes "fn_substring")
    ∷ (0x0007, codes "fn_replace")
    ∷ (0x0008, codes "fn_split")
    ∷ (0x0009, codes "fn_join")
    ∷ (0x000A, codes "fn_starts_with")
    ∷ (0x000B, codes "fn_ends_with")
    ∷ (0x000C, codes "fn_contains")
    ∷ (0x000D, codes "fn_length")
    ∷ (0x000E, codes "fn_pad_left")
    ∷ (0x000F, codes "fn_pad_right")
    ∷ (0x0010, codes "fn_regex_match")
    ∷ (0x0011, codes "fn_regex_replace")
    ∷ (0x0020, codes "fn_abs")
    ∷ (0x0021, codes "fn_ceil")
    ∷ (0x0022, codes "fn_floor")
    ∷ (0x0023, codes "fn_round")
    ∷ (0x0024, codes "fn_min")
    ∷ (0x0025, codes "fn_max")
    ∷ (0x0026, codes "fn_clamp")
    ∷ (0x0030, codes "fn_sort")
    ∷ (0x0031, codes "fn_sort_by")
    ∷ (0x0032, codes "fn_reverse")
    ∷ (0x0033, codes "fn_unique")
    ∷ (0x0034, codes "fn_flatten")
    ∷ (0x0035, codes "fn_zip")
    ∷ (0x0036, codes "fn_range")
    ∷ (0x0037, codes "fn_slice")
    ∷ (0x0040, codes "fn_keys")
    ∷ (0x0041, codes "fn_values")
    ∷ (0x0042, codes "fn_merge")
    ∷ (0x0043, codes "fn_pick")
    ∷ (0x0044, codes "fn_omit")
    ∷ (0x0050, codes "fn_parse_date")
    ∷ (0x0051, codes "fn_format_date")
    ∷ (0x0052, codes "fn_date_diff")
    ∷ (0x0053, codes "fn_date_add")
    ∷ (0x0054, codes "fn_now_date")
    ∷ (0x0060, codes "fn_base64_encode")
    ∷ (0x0061, codes "fn_base64_decode")
    ∷ (0x0062, codes "fn_url_encode")
    ∷ (0x0063, codes "fn_url_decode")
    ∷ (0x0064, codes "fn_json_encode")
    ∷ (0x0065, codes "fn_json_parse_fn")
    ∷ (0x0070, codes "fn_sha256")
    ∷ (0x0071, codes "fn_hmac_sha256")
    ∷ (0x0072, codes "fn_uuid")
    ∷ (0x00F0, codes "fn_to_string")
    ∷ (0x00F1, codes "fn_to_float")
    ∷ (0x00F2, codes "fn_to_integer")
    ∷ (0x00F3, codes "fn_fold")
    ∷ []

abbrev dispatch_size : ℕ
dispatch_size = 244

abbrev Dispatch : Type 0
Dispatch = ℕ → Option Bytes

abbrev with_entry : Dispatch → ℕ → Bytes → Dispatch
with_entry d func_id fn i = if i == func_id then some fn else d i

-- The loop over the table: an id within the array gets its function.
unfoldable pub init_dispatch : Dispatch → List (ℕ × Bytes) → Dispatch
init_dispatch d [] = d
init_dispatch d ((func_id, fn) ∷ rest) =
    init_dispatch (if ltb func_id dispatch_size then with_entry d func_id fn else d) rest

unfoldable pub stdlib_dispatch : Dispatch
unfolding init_dispatch
stdlib_dispatch = init_dispatch (λ i. none) vm_stdlib_table

-- The function that `vm_stdlib_call` calls; `none` is the error for an unknown id.
unfoldable pub called_fn : ℕ → Option Bytes
called_fn func_id = if ltb func_id dispatch_size then stdlib_dispatch func_id else none

-- The C name of a function of the language.
abbrev dash_out : ℕ → ℕ
dash_out c = if c == b'-' then b'_' else c

abbrev pub c_name : Bytes → Bytes
c_name name =
    codes "fn_"
    ++ (map dash_out name ++ (if str_eq name (codes "json-parse") then codes "_fn" else []))

abbrev is_called : Option Bytes → Bytes → Bool
is_called none fn = false
is_called (some g) fn = str_eq g fn

all_called : List (Bytes × ℕ) → Bool
all_called [] = true
all_called ((name, id) ∷ rest) = is_called (called_fn id) (c_name name) && all_called rest

table_called : all_called stdlib_table ≡ true
unfolding all_called called_fn stdlib_dispatch init_dispatch str_eq
table_called = refl

is_called-eq : (o : Option Bytes) (fn : Bytes) → is_called o fn ≡ true → o ≡ some fn
is_called-eq none fn h = cc
is_called-eq (some g) fn h = ap some (str_eq-eq g fn h)

both : (a b : Bool) → (a && b) ≡ true → (a ≡ true) × (b ≡ true)
both true b h = (refl, h)
both false b h = cc

find_name-called_fn :
    (table : List (Bytes × ℕ)) (name : Bytes) (id : ℕ)
    → all_called table ≡ true
    → find_name table name ≡ some id
    → called_fn id ≡ some (c_name name)
unfolding all_called find_name
find_name-called_fn [] name id h e = cc
find_name-called_fn ((n, k) ∷ rest) name id h e = elim (Bool-cases (str_eq n name)) [
  | inl q ↦
      let found : some k ≡ some id = rw q at e in
      let same : k ≡ id = ground (arith, found) in
      ap called_fn (sym same)
      ∙ is_called-eq (called_fn k) (c_name n)
          (both (is_called (called_fn k) (c_name n)) (all_called rest) h).0
      ∙ ap (λ t. some (c_name t)) (str_eq-eq n name q)
  | inr q ↦
      find_name-called_fn rest name id
        (both (is_called (called_fn k) (c_name n)) (all_called rest) h).1 (rw q at e)
]

-- Every function of the compiler's library table is dispatched by the machine, under the id that the
-- compiler gives it, to the C function of its name.
pub called_fn-stdlib_lookup :
    (name : Bytes) (id : ℕ) → stdlib_lookup name ≡ some id → called_fn id ≡ some (c_name name)
unfolding stdlib_lookup
called_fn-stdlib_lookup name id e = find_name-called_fn stdlib_table name id table_called e
