-- ===== src/Packet/RoundTrip.antt =====
-- The machine loads what the compiler assembles.
use heluna_language.Common.{
  ℕ, ◌+◌, ◌%◌, ◌^◌, ◌≤◌, ◌<◌, ◌≡◌, refl, false, Option, none, some, List, [], ◌∷◌, ◌++◌, ltb, Bytes,
  length, drop, arith, All, ap, sym, ◌∙◌,
}
use mathlib.Core.List.{map}
use heluna_language.Compiler.{Compiler, CompilerSource}
use heluna_language.Packet.Writes.{Write, bytes_of, encode, size, encode_front}
use heluna_language.Packet.Reads.{Cursor, at, Outcome, done, Read, Reads}
use heluna_language.Packet.Contract.{serialize_contract}
use heluna_language.Packet.ContractReads.{IsSerializable, contract_image, contract-Reads}
use heluna_language.Packet.Sections.{
  serialize_constants, serialize_stdlib_deps, serialize_bytecode, serialize_sources, read_constants,
  read_bytecode,
}
use heluna_language.Compiler.Pool.{IsPool}
use heluna_language.Packet.SectionReads.{
  constant_image, constants-Reads, deps-Reads, IsInstruction, bytecode-Reads, IsSource,
  sources-Reads,
}
use heluna_language.Packet.Assembly.{
  Section, built, section, source_section, sections, body_sizes, first_offset, total_size,
  write_bodies, assemble_packet, SectionEntry, VmPacket, Loaded, loaded, find_section, parsed,
  load_sources, load_bodies, load_sections, vm_load_packet,
}
use heluna_language.Packet.Layout.{
  built-encode, entries_of, IsKind, header-Reads, packed, built-packet_writes, length-packed, Stand,
  packed-Stand, next-Stand, length-built,
}

-- The compiler's state fits in the words of a packet; the packet is no larger than a gibibyte, up to
-- which its buffers grow within `int`, and no tag has a number that the shift of a 64-bit word by it
-- does not take.
pub record IsPacket (c : Compiler) : Type 0 where
  pub contract : IsSerializable c
  pub entries : IsPool c.pool
  pub dep_count : length c.stdlib_deps < 2 ^ 16
  pub deps : All (λ id. id < 2 ^ 16) c.stdlib_deps
  pub instructions : All IsInstruction c.instructions
  pub source_count : length c.sources < 2 ^ 16
  pub sources : All IsSource c.sources
  pub total : total_size (sections c) ≤ 2 ^ 30
  pub tag_bits : All (λ (t : Bytes × ℕ). t.1 < 64) c.tag_map

-- The compiler's state as the machine sees it.
unfoldable pub packet_image : Compiler → VmPacket
packet_image c = record {
  contract = contract_image c;
  constants = map (constant_image c.pool) c.pool.entries;
  stdlib_deps = c.stdlib_deps;
  instructions = c.instructions;
  sources = c.sources;
}

parsed_done :
    {A : Type 0} {o : Outcome A} {a : A} {c : Cursor} (f : A → Loaded) {r : Loaded}
    → o ≡ done a c
    → f a ≡ r
    → parsed o f ≡ r
parsed_done f h k = ap (λ o. parsed o f) h ∙ k

-- What is read at the offset of a section.
section_read :
    {A : Type 0} {p : Read A} {ws : List Write} {a : A} (packet : Bytes) (offset kind : ℕ)
    (ss : List Section)
    → Reads p ws a
    → Stand packet offset (section kind ws ∷ ss)
    → p (at (drop offset packet) offset)
      ≡ done a (at (encode (write_bodies ss) []) (offset + size ws))
unfolding write_bodies encode bytes_of
section_read {p = p} {ws} packet offset kind ss r h =
    let rest = encode (write_bodies ss) [] in
    ap (λ bs. p (at bs offset))
      (h ∙ ap (λ b. b ++ rest) (built-encode ws) ∙ sym (encode_front ws rest))
    ∙ r.run rest offset

abbrev entry : ℕ → ℕ → List Write → SectionEntry
entry kind offset ws = record { type = kind; offset = offset; len = length (built ws) }

constants_read :
    (c : Compiler) (packet : Bytes) (offset : ℕ) (ss : List Section)
    → IsPool c.pool
    → offset + length (built (serialize_constants c)) < 2 ^ 32
    → Stand packet offset (section 2 (serialize_constants c) ∷ ss)
    → read_constants
        ((offset + length (built (serialize_constants c))) % 2 ^ 32)
        (at (drop offset packet) offset)
      ≡ done
          (map (constant_image c.pool) c.pool.entries)
          (at (encode (write_bodies ss) []) (offset + size (serialize_constants c)))
unfolding write_bodies encode bytes_of
constants_read c packet offset ss e b h =
    let ws = serialize_constants c in
    let rest = encode (write_bodies ss) [] in
    let here : drop offset packet ≡ encode ws rest =
      h ∙ ap (λ b. b ++ rest) (built-encode ws) ∙ sym (encode_front ws rest) in
    let end : (offset + length (built ws)) % 2 ^ 32 ≡ offset + size ws =
      omega (arith, b, length-built ws) in
    rw (here, end) (constants-Reads c rest offset e)

-- The four sections that are always there, before others.
load_four :
    (c : Compiler) (packet : Bytes) (offset : ℕ) (ss : List Section) (sources : Option SectionEntry)
    (cur : Cursor)
    → IsPacket c
    → (let k₂ = offset + length (built (serialize_contract c)) in
        let k₃ = k₂ + length (built (serialize_constants c)) in
        let k₄ = k₃ + length (built (serialize_stdlib_deps c)) in
        k₃ < 2 ^ 32
        → Stand packet offset (
            section 1 (serialize_contract c)
            ∷ section 2 (serialize_constants c)
            ∷ section 3 (serialize_stdlib_deps c)
            ∷ section 4 (serialize_bytecode c)
            ∷ ss)
        → load_sources packet sources ≡ done c.sources cur
        → load_bodies packet
            (entry 1 offset (serialize_contract c))
            (entry 2 k₂ (serialize_constants c))
            (entry 3 k₃ (serialize_stdlib_deps c))
            (entry 4 k₄ (serialize_bytecode c))
            sources
          ≡ loaded (packet_image c))
unfolding load_bodies packet_image
load_four c packet offset ss sources cur w b h r =
    let s₁ = section 1 (serialize_contract c) in
    let s₂ = section 2 (serialize_constants c) in
    let s₃ = section 3 (serialize_stdlib_deps c) in
    let s₄ = section 4 (serialize_bytecode c) in
    let k₂ = offset + length s₁.body in
    let k₃ = k₂ + length s₂.body in
    let k₄ = k₃ + length s₃.body in
    let h₂ = next-Stand packet offset s₁ (s₂ ∷ s₃ ∷ s₄ ∷ ss) h in
    let h₃ = next-Stand packet k₂ s₂ (s₃ ∷ s₄ ∷ ss) h₂ in
    let h₄ = next-Stand packet k₃ s₃ (s₄ ∷ ss) h₃ in
    let code : Reads (read_bytecode (length s₄.body)) (serialize_bytecode c) c.instructions =
      rw (length-built (serialize_bytecode c)) (bytecode-Reads c w.instructions) in
    parsed_done _ (section_read packet offset 1 (s₂ ∷ s₃ ∷ s₄ ∷ ss) (contract-Reads c w.contract) h)
      (parsed_done _ (constants_read c packet k₂ (s₃ ∷ s₄ ∷ ss) w.entries b h₂) (
        parsed_done _ (section_read packet k₃ 3 (s₄ ∷ ss) (deps-Reads c w.dep_count w.deps) h₃)
          (parsed_done _ (section_read packet k₄ 4 ss code h₄) (parsed_done _ r refl))))

load_sections-image :
    (c : Compiler) (packet : Bytes) (offset : ℕ)
    → IsPacket c
    → offset + body_sizes (sections c) < 2 ^ 32
    → Stand packet offset (sections c)
    → load_sections packet (entries_of offset (sections c)) ≡ loaded (packet_image c)
unfolding load_sections entries_of find_section sections source_section body_sizes
load_sections-image c packet offset w b = by_sources c.sources refl
  where
    s₁ : Section
    s₁ = section 1 (serialize_contract c)

    s₂ : Section
    s₂ = section 2 (serialize_constants c)

    s₃ : Section
    s₃ = section 3 (serialize_stdlib_deps c)

    s₄ : Section
    s₄ = section 4 (serialize_bytecode c)

    s₅ : Section
    s₅ = section 5 (serialize_sources c)

    k₂ : ℕ
    k₂ = offset + length s₁.body

    k₃ : ℕ
    k₃ = k₂ + length s₂.body

    k₄ : ℕ
    k₄ = k₃ + length s₃.body

    by_sources :
        (xs : List CompilerSource)
        → c.sources ≡ xs
        → Stand packet offset (s₁ ∷ s₂ ∷ s₃ ∷ s₄ ∷ source_section c xs)
        → load_sections packet (entries_of offset (s₁ ∷ s₂ ∷ s₃ ∷ s₄ ∷ source_section c xs))
          ≡ loaded (packet_image c)
    by_sources [] e h =
        load_four c packet offset [] none (at packet 0) w (omega (arith, b)) h
          (ap (λ l. done l (at packet 0)) (sym e))
    by_sources (x ∷ xs) e h =
        let h₂ = next-Stand packet offset s₁ (s₂ ∷ s₃ ∷ s₄ ∷ s₅ ∷ []) h in
        let h₃ = next-Stand packet k₂ s₂ (s₃ ∷ s₄ ∷ s₅ ∷ []) h₂ in
        let h₄ = next-Stand packet k₃ s₃ (s₄ ∷ s₅ ∷ []) h₃ in
        let h₅ = next-Stand packet k₄ s₄ (s₅ ∷ []) h₄ in
        let k₅ = k₄ + length s₄.body in
        load_four c packet offset (s₅ ∷ []) (some (entry 5 k₅ (serialize_sources c))) _ w
          (omega (arith, b)) h
          (section_read packet k₅ 5 [] (sources-Reads c w.source_count w.sources) h₅)

-- The four sections before those.
abbrev behind_four : Compiler → List Section → List Section
behind_four c ss =
    section 1 (serialize_contract c)
    ∷ section 2 (serialize_constants c)
    ∷ section 3 (serialize_stdlib_deps c)
    ∷ section 4 (serialize_bytecode c)
    ∷ ss

few_sections : (c : Compiler) → (length (sections c) < 2 ^ 16) × All IsKind (sections c)
unfolding sections source_section
few_sections c = by_sources c.sources
  where
    kinds : (ss : List Section) → All IsKind ss → All IsKind (behind_four c ss)
    kinds ss h = (omega arith, (omega arith, (omega arith, (omega arith, h))))

    by_sources :
        (xs : List CompilerSource)
        → (length (behind_four c (source_section c xs)) < 2 ^ 16)
          × All IsKind (behind_four c (source_section c xs))
    by_sources [] = (omega arith, kinds [] tt)
    by_sources (x ∷ xs) =
        (omega arith, kinds (section 5 (serialize_sources c) ∷ []) (omega arith, tt))

large : (ss : List Section) → ltb (length (packed ss)) 88 ≡ false
unfolding total_size
large ss = ground (arith, length-packed ss)

bodies_small :
    (ss : List Section) → total_size ss ≤ 2 ^ 30 → first_offset ss + body_sizes ss < 2 ^ 32
unfolding total_size
bodies_small ss h = omega (arith, h)

-- Where the counts, texts and numbers of the compiler's state fit in the packet's words, no text holds
-- a zero byte, every constant lies in the pool's data, the tags are numbered below 64 and the packet
-- has at most 2 ^ 30 bytes,
-- vm_load_packet loads what assemble_packet gives, as the image of that state: the contract with its
-- tags, fields, sanitizers and rules, the constants, library functions, instructions and sources.
pub vm_load_packet-assemble_packet :
    (c : Compiler) → IsPacket c → vm_load_packet (assemble_packet c) ≡ loaded (packet_image c)
unfolding assemble_packet vm_load_packet
vm_load_packet-assemble_packet c w =
    let ss = sections c in
    let bodies = encode (write_bodies ss) [] in
    let (few, kinds) = few_sections c in
    let n = length-packed ss in
    let fits : ltb (length (packed ss)) (total_size ss) ≡ false = ground (arith, n) in
    let big : ltb (length (packed ss)) 88 ≡ false = large ss in
    let header = header-Reads (packed ss) ss fits kinds few w.total in
    rw (built-packet_writes ss, big)
      (parsed_done (λ l. l) (header.run bodies 0)
        (load_sections-image c (packed ss) (first_offset ss) w (bodies_small ss w.total)
          (packed-Stand ss)))
