-- ===== src/Packet/Assembly.antt =====
-- The whole packet: `assemble_packet` of src/compiler.c, and `vm_load_packet` of src/vm.c, which finds
-- the sections by the directory and reads them.
use heluna_language.Common.{
  ℕ, ◌+◌, ◌*◌, ◌%◌, ◌^◌, Bool, true, false, Option, none, some, List, [], ◌∷◌, ◌++◌, ltb, ◌==◌,
  if◌then◌else◌, Bytes, length, drop,
}
use heluna_language.Compiler.{Compiler, Instruction, CompilerSource}
use heluna_language.Packet.Writes.{
  Write, w_u16, w_u32, w_u64, w_bytes, w_zeros, buf_init, run_writes,
}
use heluna_language.Packet.Reads.{
  Cursor, at, Outcome, done, overread, no_fuel, Read, pure, ◌>>=◌, read_u16_le, read_u32_le,
  read_many,
}
use heluna_language.Packet.Types.{advance}
use heluna_language.Packet.Contract.{serialize_contract, VmContract, read_contract}
use heluna_language.Packet.Sections.{
  serialize_constants, serialize_stdlib_deps, serialize_bytecode, serialize_sources, VmConstant,
  read_constants, read_deps, read_bytecode, read_sources,
}

-- A section as it is assembled: its type and its buffer's data.
pub record Section : Type 0 where
  pub type : ℕ
  pub body : Bytes

-- What a fresh buffer holds after these writes.
abbrev pub built : List Write → Bytes
built ws = (run_writes ws buf_init).bytes

abbrev pub section : ℕ → List Write → Section
section type ws = record { type = type; body = built ws }

-- The section of the sources, where there are any.
unfoldable pub source_section : Compiler → List CompilerSource → List Section
source_section c [] = []
source_section c (_ ∷ _) = section 5 (serialize_sources c) ∷ []

unfoldable pub sections : Compiler → List Section
sections c =
    section 1 (serialize_contract c)
    ∷ section 2 (serialize_constants c)
    ∷ section 3 (serialize_stdlib_deps c)
    ∷ section 4 (serialize_bytecode c)
    ∷ source_section c c.sources

unfoldable pub body_sizes : List Section → ℕ
body_sizes [] = 0
body_sizes (s ∷ ss) = length s.body + body_sizes ss

-- `PACKET_HEADER_SIZE` is 88 and `SECTION_DIR_ENTRY` is 10.
abbrev pub first_offset : List Section → ℕ
first_offset ss = 88 + length ss * 10

unfoldable pub total_size : List Section → ℕ
total_size ss = first_offset ss + body_sizes ss

unfoldable pub write_header : List Section → List Write
write_header ss =
    w_u32 0x484C4E41
    ∷ w_u16 1
    ∷ w_u16 1
    ∷ w_u32 (total_size ss)
    ∷ w_u16 (length ss)
    ∷ w_u16 0
    ∷ w_u64 0
    ∷ w_zeros 64
    ∷ []

-- One entry for each section, the offset moved on behind each.
unfoldable pub write_directory : ℕ → List Section → List Write
write_directory offset [] = []
write_directory offset (s ∷ ss) =
    w_u16 s.type
    ∷ w_u32 offset
    ∷ w_u32 (length s.body)
    ∷ write_directory (offset + length s.body) ss

unfoldable pub write_bodies : List Section → List Write
write_bodies [] = []
write_bodies (s ∷ ss) = w_bytes s.body ∷ write_bodies ss

unfoldable pub packet_writes : List Section → List Write
packet_writes ss = write_header ss ++ (write_directory (first_offset ss) ss ++ write_bodies ss)

unfoldable pub assemble_packet : Compiler → Bytes
assemble_packet c = built (packet_writes (sections c))

pub record SectionEntry : Type 0 where
  pub type : ℕ
  pub offset : ℕ
  pub len : ℕ

pub record VmPacket : Type 0 where
  pub contract : VmContract
  pub constants : List VmConstant
  pub stdlib_deps : List ℕ
  pub instructions : List Instruction
  pub sources : List CompilerSource

-- What comes of a packet: the machine's form of it, one of the errors that are reported, or a read
-- behind the data. A missing section is given by its place among the four that are required.
pub data Loaded : Type 0 where
  loaded : VmPacket → Loaded
  too_small bad_magic size_exceeds : Loaded
  missing_section : ℕ → Loaded
  load_overread load_no_fuel : Loaded

unfoldable pub read_entry : Read SectionEntry
read_entry = do
  type ← read_u16_le
  offset ← read_u32_le
  n ← read_u32_le
  pure (record { type = type; offset = offset; len = n })

abbrev or_this : Option SectionEntry → Bool → SectionEntry → Option SectionEntry
or_this (some later) is_type e = some later
or_this none is_type e = if is_type then some e else none

-- The loop over the entries keeps the last of each type.
unfoldable pub find_section : ℕ → List SectionEntry → Option SectionEntry
find_section type [] = none
find_section type (e ∷ es) = or_this (find_section type es) (e.type == type) e

abbrev pub required : ℕ → Option SectionEntry → (SectionEntry → Loaded) → Loaded
required i none f = missing_section i
required i (some e) f = f e

abbrev pub parsed : {A : Type 0} → Outcome A → (A → Loaded) → Loaded
parsed (done a c) f = f a
parsed overread f = load_overread
parsed no_fuel f = load_no_fuel

-- A cursor at the section's offset.
abbrev pub begin : Bytes → SectionEntry → Cursor
begin packet e = at (drop e.offset packet) e.offset

abbrev pub load_sources : Bytes → Option SectionEntry → Outcome (List CompilerSource)
load_sources packet none = done [] (at packet 0)
load_sources packet (some e) = read_sources (begin packet e)

-- The end of the constants is the sum of two `uint32_t`.
unfoldable pub load_bodies :
    Bytes → SectionEntry → SectionEntry → SectionEntry → SectionEntry → Option SectionEntry → Loaded
load_bodies packet contract constants deps bytecode sources =
    parsed (read_contract (begin packet contract)) λ ct.
      parsed (read_constants ((constants.offset + constants.len) % 2 ^ 32) (begin packet constants))
        λ cs. parsed (read_deps (begin packet deps)) λ ds.
          parsed (read_bytecode bytecode.len (begin packet bytecode)) λ is.
            parsed (load_sources packet sources) λ ss. loaded (record {
              contract = ct;
              constants = cs;
              stdlib_deps = ds;
              instructions = is;
              sources = ss;
            })

unfoldable pub load_sections : Bytes → List SectionEntry → Loaded
load_sections packet es = required 0 (find_section 1 es) λ contract.
    required 1 (find_section 2 es) λ constants. required 2 (find_section 3 es) λ deps.
      required 3 (find_section 4 es)
        λ bytecode. load_bodies packet contract constants deps bytecode (find_section 5 es)

-- The rest of the directory, unless the total size exceeds the data.
unfoldable pub directory_behind : Bytes → Bool → Read Loaded
directory_behind packet true = pure size_exceeds
directory_behind packet false = do
  section_count ← read_u16_le
  flags ← read_u16_le
  a ← advance 72
  es ← read_many section_count read_entry
  pure (load_sections packet es)

-- The header behind the magic number, and the directory. The two versions and the flags are read and
-- not used; the fingerprint and the signature, 72 bytes, are passed over.
unfoldable pub load_directory : Bytes → Read Loaded
load_directory packet = do
  format_ver ← read_u16_le
  min_spec ← read_u16_le
  total ← read_u32_le
  directory_behind packet (ltb (length packet) total)

unfoldable pub load_header : Bytes → Read Loaded
load_header packet =
    read_u32_le >>= λ magic. if magic == 0x484C4E41 then load_directory packet else pure bad_magic

unfoldable pub vm_load_packet : Bytes → Loaded
vm_load_packet packet =
    if ltb (length packet) 88 then too_small else parsed (load_header packet (at packet 0)) (λ l. l)
