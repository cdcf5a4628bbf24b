-- ===== src/Tests/Packets.antt =====
-- The theorems on the packet at concrete inputs.
use heluna_language.Common.{
  List, ◌+◌, ◌^◌, ◌≤◌, inr, ◌≡◌, refl, false, some, [], ◌∷◌, ◌++◌, codes, arith, str_eq,
}
use heluna_language.Ast.Contract.{
  type_string, type_integer, type_list, type_maybe, type_record, no_decls, decl, count_decls,
  rule_require, rule_forbid_tagged,
}
use heluna_language.Compiler.{
  Compiler, ConstPool, stdlib_lookup, find_name, compute_tag_bits, or_tags, tag_bit_index, tag_bit,
}
use heluna_language.Compiler.Pool.{
  IsPool, add_const_string, add_const_integer, add_const_boolean, bool_byte,
}
use heluna_language.Compiler.PoolLaws.{Adds, add_const_lem}
use heluna_language.Packet.Words.{le_bytes, u8_bytes, u16_bytes, u32_bytes, u64_bytes}
use heluna_language.Packet.Writes.{
  PacketBuf, IsValid, buf_init, buf_write, buf_grow, doubled, bytes_of, zeros, w_u16, w_bytes,
  run_writes, encode, run_writes-encode, IsCapacity, Write, size, w_zeros, length-zeros, memcpy,
  write_at,
}
use heluna_language.Packet.Reads.{each}
use heluna_language.Packet.Assembly.{
  assemble_packet, vm_load_packet, loaded, sections, total_size, source_section, body_sizes,
}
use heluna_language.Packet.RoundTrip.{IsPacket, packet_image, vm_load_packet-assemble_packet}
use heluna_language.Packet.Contract.{
  numbered, slotted, serialize_contract, write_tag, write_field, write_sanitizer, write_rule,
}
use heluna_language.Packet.Types.{serialize_type, ast_type_to_ftype}
use heluna_language.Packet.Sections.{
  serialize_constants, write_constant, serialize_stdlib_deps, write_dep, serialize_bytecode,
  write_instruction, serialize_sources, write_source,
}

abbrev two_bytes : PacketBuf
two_bytes = record { bytes = 7 ∷ 8 ∷ []; len = 2; cap = 4096 }

-- The second write does not fit in what is allocated.
abbrev long_writes : List Write
long_writes = w_u16 513 ∷ w_zeros 4093 ∷ w_bytes (codes "ab") ∷ []

long_writes-size : 2 + size long_writes ≤ 2 ^ 30
unfolding size bytes_of u16_bytes
long_writes-size = omega (arith, length-zeros 4093)

run_writes-encode_example :
    ((run_writes long_writes two_bytes).bytes ≡ 7 ∷ 8 ∷ encode long_writes [])
    × IsValid (run_writes long_writes two_bytes)
    × IsCapacity (run_writes long_writes two_bytes).cap
run_writes-encode_example =
    run_writes-encode long_writes two_bytes (refl, omega arith) (inr (0, refl, omega arith))
      long_writes-size

-- "hi" and `true`.
abbrev small_pool : ConstPool
small_pool = record {
  entries =
      record { type_id = 1; offset = 0; len = 2 }
      ∷ record { type_id = 4; offset = 2; len = 1 }
      ∷ [];
  const_data = codes "hi" ++ 1 ∷ [];
}

small_pool-IsPool : IsPool small_pool
small_pool-IsPool = ((omega arith, omega arith, refl), ((omega arith, omega arith, refl), tt))

add_const_lem_example :
    Adds small_pool 1 (codes "hi") (add_const_string small_pool (codes "hi"))
    × Adds small_pool 2 (le_bytes 8 42) (add_const_integer small_pool 42)
    × Adds small_pool 4 (bool_byte false) (add_const_boolean small_pool false)
add_const_lem_example =
    add_const_lem small_pool (codes "hi") 42 false small_pool-IsPool (omega arith) (omega arith)

-- A contract with a tag, fields of compound types, a sanitizer and rules; code, constants and a source.
abbrev small_compiler : Compiler
small_compiler = record {
  contract = record {
    name = codes "f";
    tags = record { name = codes "pii"; description = some (codes "private") } ∷ [];
    sanitizers = record { name = codes "sha256"; stripped_tags = codes "pii" ∷ [] } ∷ [];
    input =
        decl (codes "a") (type_list (type_maybe type_integer)) (codes "pii" ∷ [])
          (decl (codes "b") (type_record (decl (codes "c") type_string [] no_decls)) [] no_decls);
    output = decl (codes "d") type_string [] no_decls;
    rules =
        rule_forbid_tagged (codes "pii")
        ∷ rule_require (some (record { is_output = false; accessors = codes "a" ∷ [] }))
            (some (codes "no a"))
        ∷ [];
  };
  instructions =
      record { opcode = 1; flags = 0; dest = 2; operand1 = 0; operand2 = 0 }
      ∷ record { opcode = 2; flags = 8; dest = 3; operand1 = 1; operand2 = 0 }
      ∷ [];
  pool = small_pool;
  scratch_next = 4;
  stdlib_deps = 112 ∷ [];
  tag_map = (codes "pii", 0) ∷ [];
  sources = record { name = codes "s"; config_json = codes "1"; keyed_by = [] } ∷ [];
}

small_total : total_size (sections small_compiler) ≡ 309
unfolding total_size sections source_section body_sizes run_writes buf_write buf_init buf_grow
    doubled memcpy write_at bytes_of zeros serialize_contract write_tag write_field write_sanitizer
    write_rule serialize_type ast_type_to_ftype serialize_constants write_constant
    serialize_stdlib_deps write_dep serialize_bytecode write_instruction serialize_sources
    write_source each count_decls numbered slotted u8_bytes u16_bytes u32_bytes u64_bytes
    stdlib_lookup find_name str_eq compute_tag_bits or_tags tag_bit_index tag_bit
small_total = refl

small_compiler-IsPacket : IsPacket small_compiler
unfolding count_decls numbered slotted
small_compiler-IsPacket = record {
  contract = record {
    name = ground arith;
    scratch = ground arith;
    inputs = ground arith;
    outputs = ground arith;
    tag_count = ground arith;
    sanitizer_count = ground arith;
    rule_count = ground arith;
    tags = ground arith;
    input = ground arith;
    output = ground arith;
    sanitizers = ground arith;
    rules = ground arith;
  };
  entries = small_pool-IsPool;
  dep_count = ground arith;
  deps = ground arith;
  instructions = ground arith;
  source_count = ground arith;
  sources = ground arith;
  total = omega (arith, small_total);
  tag_bits = (omega arith, tt);
}

vm_load_packet-assemble_packet_example :
    vm_load_packet (assemble_packet small_compiler) ≡ loaded (packet_image small_compiler)
vm_load_packet-assemble_packet_example =
    vm_load_packet-assemble_packet small_compiler small_compiler-IsPacket
