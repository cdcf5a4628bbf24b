-- ===== src/Packet/Sections.antt =====
-- The other sections: `serialize_constants`, `serialize_stdlib_deps`, `serialize_bytecode` and
-- `serialize_sources` of src/compiler.c, and the parts of `vm_load_packet` in src/vm.c that read them.
use heluna_language.Common.{
  ℕ, zero, suc, ◌-◌, ◌/◌, ◌^◌, true, false, ◌&&◌, Option, none, some, List, [], ◌∷◌, ◌++◌, leb, ltb,
  ◌==◌, if◌then◌else◌, Bytes, length, take,
}
use heluna_language.Common.Int.{ℤ, pos, negsuc}
use heluna_language.Value.{HVal, val_integer, val_float, val_string, val_boolean, val_nothing}
use heluna_language.Compiler.{Compiler, ConstEntry, ConstPool, Instruction, CompilerSource}
use heluna_language.Compiler.Pool.{entry_bytes}
use heluna_language.Packet.Words.{le_value}
use heluna_language.Packet.Writes.{Write, w_u8, w_u16, w_u32, w_bytes}
use heluna_language.Packet.Reads.{
  Cursor, Outcome, done, overread, no_fuel, Read, pure, ◌>>=◌, skip, read_u8, read_u16_le,
  read_u32_le, read_name, read_many, name_writes, each, until_nul,
}

unfoldable pub write_constant : ConstPool → ConstEntry → List Write
write_constant p e = w_u8 e.type_id ∷ w_u32 e.len ∷ w_bytes (entry_bytes p e) ∷ []

unfoldable pub serialize_constants : Compiler → List Write
serialize_constants c = each (write_constant c.pool) c.pool.entries

unfoldable pub write_dep : ℕ → List Write
write_dep id = w_u16 id ∷ []

unfoldable pub serialize_stdlib_deps : Compiler → List Write
serialize_stdlib_deps c = w_u16 (length c.stdlib_deps) ∷ each write_dep c.stdlib_deps

unfoldable pub write_instruction : Instruction → List Write
write_instruction i =
    w_u8 i.opcode ∷ w_u8 i.flags ∷ w_u16 i.dest ∷ w_u16 i.operand1 ∷ w_u16 i.operand2 ∷ []

unfoldable pub serialize_bytecode : Compiler → List Write
serialize_bytecode c = each write_instruction c.instructions

-- The writer leaves out the call for an empty text, which would append nothing.
unfoldable pub write_source : CompilerSource → List Write
write_source s = name_writes s.name ++ (name_writes s.config_json ++ name_writes s.keyed_by)

unfoldable pub serialize_sources : Compiler → List Write
serialize_sources c = w_u16 (length c.sources) ∷ each write_source c.sources

-- The 64-bit pattern as a `long long`.
unfoldable pub signed64 : ℕ → ℤ
signed64 w = if ltb w (2 ^ 63) then pos w else negsuc (2 ^ 64 - 1 - w)

-- `(int64_t)c.data[c.pos + b] << (b * 8)`, eight bytes of which are read without a test.
abbrev pub word_of : Bytes → Option ℕ
word_of bs = if leb 8 (length bs) then some (le_value (take 8 bs)) else none

abbrev pub on_word : ℕ → Bytes → (ℕ → HVal) → Option HVal
on_word dlen bs f =
    if leb 8 dlen then elim (word_of bs) [ none ↦ none | some w ↦ some (f w) ] else some (f 0)

abbrev pub byte_true : Bytes → Option HVal
byte_true [] = none
byte_true (b ∷ _) = some (val_boolean (if b == 0 then false else true))

-- The value of a constant of that type and length, whose data begin these bytes; `none` where
-- bytes behind the packet are read.
unfoldable pub constant_value : ℕ → ℕ → Bytes → Option HVal
constant_value tid dlen bs =
    if tid == 1
    then if leb dlen (length bs) then some (val_string (until_nul (take dlen bs))) else none
    else if tid == 2
    then on_word dlen bs (λ w. val_integer (signed64 w))
    else if tid == 3
    then on_word dlen bs val_float
    else if tid == 4
    then if dlen == 0 then some (val_boolean false) else byte_true bs
    else some val_nothing

pub record VmConstant : Type 0 where
  pub type_id : ℕ
  pub value : HVal

abbrev pub constant_at : ℕ → ℕ → Option HVal → Read VmConstant
constant_at tid dlen none c = overread
constant_at tid dlen (some v) c = done (record { type_id = tid; value = v }) (skip dlen c)

-- One round of the second pass.
unfoldable pub read_constant : Read VmConstant
read_constant = read_u8 >>= λ tid.
    read_u32_le >>= λ dlen c. constant_at tid dlen (constant_value tid dlen c.rest) c

-- The type and the length of a constant; the length is given.
abbrev pub read_header : Read ℕ
read_header = read_u8 >>= λ tid. read_u32_le

abbrev pub next_count : Option ℕ → Option ℕ
next_count none = none
next_count (some n) = some (suc n)

-- What is counted behind a constant's data.
abbrev pub count_behind : (Cursor → Option ℕ) → Outcome ℕ → Option ℕ
count_behind count (done dlen c) = next_count (count (skip dlen c))
count_behind count _ = none

-- The first pass counts, up to the section's end. Each round takes five bytes, so that a unit of
-- fuel more than the bytes left is enough.
unfoldable pub count_constants : ℕ → ℕ → Cursor → Option ℕ
count_constants zero end c = none
count_constants (suc f) end c =
    let more = count_behind (count_constants f end) (read_header c) in
    if ltb c.pos end && leb 5 (length c.rest) then more else some 0

abbrev pub counted : {A : Type 0} → Option ℕ → (ℕ → Outcome A) → Outcome A
counted none f = no_fuel
counted (some n) f = f n

unfoldable pub read_constants : ℕ → Read (List VmConstant)
read_constants end c =
    counted (count_constants (suc (length c.rest)) end c) λ n. read_many n read_constant c

unfoldable pub read_deps : Read (List ℕ)
read_deps = do n ← read_u16_le; read_many n read_u16_le

unfoldable pub read_instruction : Read Instruction
read_instruction = do
  opcode ← read_u8
  flags ← read_u8
  dest ← read_u16_le
  operand1 ← read_u16_le
  operand2 ← read_u16_le
  pure (record {
    opcode = opcode;
    flags = flags;
    dest = dest;
    operand1 = operand1;
    operand2 = operand2;
  })

-- The count is the section's length by `INSTRUCTION_SIZE`.
unfoldable pub read_bytecode : ℕ → Read (List Instruction)
read_bytecode len = read_many (len / 8) read_instruction

-- A text of length 0 is NULL, which is the empty text here.
unfoldable pub read_source : Read CompilerSource
read_source = do
  name ← read_name
  config_json ← read_name
  keyed_by ← read_name
  pure (record { name = name; config_json = config_json; keyed_by = keyed_by })

unfoldable pub read_sources : Read (List CompilerSource)
read_sources = do n ← read_u16_le; read_many n read_source
