-- ===== src/Compiler/Pool.antt =====
-- The constant pool of src/compiler.c (`add_const_*`).
--
-- `const_data` is one run of bytes that the entries point into. A constant that the pool holds already
-- is not added again. Lengths, offsets and the count are `int`s in C: a pool with more data than an
-- `int` holds stands for none of the program's. A number's bytes are copied by `memcpy` in the host's
-- order, which is taken to be little-endian, as the packet's is.
use heluna_language.Common.{
  ℕ, suc, ◌%◌, ◌^◌, ◌<◌, ◌≡◌, Bool, ◌&&◌, Option, none, some, List, [], ◌∷◌, ◌++◌, ◌==◌,
  if◌then◌else◌, Bytes, length, take, drop, str_eq, All,
}
use mathlib.Core.List.{map}
use heluna_language.Compiler.{ConstEntry, ConstPool}
use heluna_language.Packet.Words.{le_bytes, le_value}

abbrev pub entry_bytes : ConstPool → ConstEntry → Bytes
entry_bytes p e = take e.len (drop e.offset p.const_data)

-- The number of the first entry that passes the test.
unfoldable pub find_const : (ConstEntry → Bool) → List ConstEntry → Option ℕ
find_const test [] = none
find_const test (e ∷ es) =
    if test e then some 0 else elim (find_const test es) [ none ↦ none | some i ↦ some (suc i) ]

unfoldable pub append_const : ConstPool → ℕ → Bytes → ConstPool
append_const p tid bs = record {
  entries =
      p.entries ++ record { type_id = tid; offset = length p.const_data; len = length bs } ∷ [];
  const_data = p.const_data ++ bs;
}

abbrev pub found_or_added : ConstPool → ℕ → Bytes → Option ℕ → ConstPool × ℕ
found_or_added p tid bs (some i) = (p, i % 2 ^ 16)
found_or_added p tid bs none = (append_const p tid bs, length p.entries % 2 ^ 16)

-- The pool behind the call, and the number that is returned as a `uint16_t`.
unfoldable pub add_const : ConstPool → (ConstEntry → Bool) → ℕ → Bytes → ConstPool × ℕ
add_const p test tid bs = found_or_added p tid bs (find_const test p.entries)

-- `memcmp` of the entry's bytes.
unfoldable pub is_const : ConstPool → ℕ → Bytes → ConstEntry → Bool
is_const p tid bs e = e.type_id == tid && e.len == length bs && str_eq (entry_bytes p e) bs

unfoldable pub add_const_string : ConstPool → Bytes → ConstPool × ℕ
add_const_string p str = add_const p (is_const p 1 str) 1 str

-- The integer as its 64-bit pattern, in the bytes of a little-endian host: two integers are equal where the patterns are.
unfoldable pub add_const_integer : ConstPool → ℕ → ConstPool × ℕ
add_const_integer p word = add_const p (is_const p 2 (le_bytes 8 word)) 2 (le_bytes 8 word)

-- Doubles, as 64-bit patterns, are compared by `same`, which stands for `==` on doubles.
unfoldable pub is_float : (ℕ → ℕ → Bool) → ConstPool → ℕ → ConstEntry → Bool
is_float same p word e = e.type_id == 3 && e.len == 8 && same (le_value (entry_bytes p e)) word

unfoldable pub add_const_float : (ℕ → ℕ → Bool) → ConstPool → ℕ → ConstPool × ℕ
add_const_float same p word = add_const p (is_float same p word) 3 (le_bytes 8 word)

abbrev pub bool_byte : Bool → Bytes
bool_byte b = (if b then 1 else 0) ∷ []

unfoldable pub add_const_boolean : ConstPool → Bool → ConstPool × ℕ
add_const_boolean p b = add_const p (is_const p 4 (bool_byte b)) 4 (bool_byte b)

-- A type and a length that a packet holds, and bytes that lie in the pool's data.
abbrev pub IsEntry : ConstPool → ConstEntry → Type 0
IsEntry p e = (e.type_id < 256) × (e.len < 2 ^ 32) × (length (entry_bytes p e) ≡ e.len)

abbrev pub IsPool : ConstPool → Type 0
IsPool p = All (IsEntry p) p.entries

-- The constants of the pool: types and bytes.
abbrev pub constants_of : ConstPool → List (ℕ × Bytes)
constants_of p = map (λ e. (e.type_id, entry_bytes p e)) p.entries
