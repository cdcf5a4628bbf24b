-- ===== src/Packet/ContractReads.antt =====
-- The machine reads from the contract section what the compiler wrote there.
use heluna_language.Common.{
  ℕ, suc, ◌^◌, ◌<◌, ◌≡◌, refl, Option, none, some, List, [], ◌∷◌, if◌then◌else◌, Bytes, length,
  arith, All, ap, subst,
}
use mathlib.Core.List.{map}
use heluna_language.Ast.Contract.{
  AstFieldDecls, no_decls, decl, count_decls, AstTagDef, AstSanitizerDef, AstFieldRef, AstRule,
  rule_forbid_field, rule_forbid_tagged, rule_require, rule_match,
}
use heluna_language.Compiler.{Compiler, compute_tag_bits, tag_bit_index, tag_bit, stdlib_lookup}
use heluna_language.Packet.Writes.{Write}
use heluna_language.Packet.Reads.{
  Read, read_many, each, Reads, bind-Reads, map-Reads, read_u8-Reads, read_u16_le-Reads,
  read_u64_le-Reads, read_name-Reads, read_many-Reads, IsName,
}
use heluna_language.Packet.Types.{ast_type_to_ftype, IsSmall}
use heluna_language.Packet.Contract.{
  numbered, Field, slotted, write_tag, write_field, write_sanitizer, ref_name, ref_output,
  write_rule, serialize_contract, or_zero, bit_of, VmTagDef, VmFieldDecl, VmSanitizer, VmRule,
  vm_forbid_field, vm_forbid_tagged, vm_require, vm_match, VmContract, read_tag, read_field,
  read_sanitizer, rule_of, read_rule, read_contract,
}
use heluna_language.Packet.PartReads.{
  or_empty, IsOptionalName, optional-Reads, read_type-Reads, stdlib_lookup-small,
  compute_tag_bits-bound,
}

-- What the machine is to keep of each declaration.
abbrev pub tag_image : ℕ × AstTagDef → VmTagDef
tag_image (idx, t) = record { name = t.name; bit_index = idx; description = or_empty t.description }

abbrev pub IsTag : ℕ × AstTagDef → Type 0
IsTag (idx, t) = (idx < 256) × IsName t.name × IsOptionalName t.description

tag-Reads : (t : ℕ × AstTagDef) → IsTag t → Reads read_tag (write_tag t) (tag_image t)
unfolding read_tag write_tag
tag-Reads (idx, t) (b, n, d) = bind-Reads _ (read_u8-Reads idx b) (
    bind-Reads _ (read_name-Reads t.name n) (
      map-Reads (λ desc. record { name = t.name; bit_index = idx; description = desc })
        (optional-Reads t.description d)))

abbrev pub field_image : Compiler → Field → VmFieldDecl
field_image c f = record {
  name = f.name;
  type_id = ast_type_to_ftype f.type;
  tag_bits = compute_tag_bits c f.tags;
  scratchpad_offset = f.slot;
}

abbrev pub IsField : Field → Type 0
IsField f = IsName f.name × IsSmall f.type × (f.slot < 2 ^ 16)

field-Reads :
    (c : Compiler) (f : Field) → IsField f → Reads read_field (write_field c f) (field_image c f)
unfolding read_field write_field
field-Reads c f (n, t, b) = bind-Reads _ (read_name-Reads f.name n) (
    bind-Reads _ (read_type-Reads f.type t) (
      bind-Reads _ (read_u64_le-Reads (compute_tag_bits c f.tags) (compute_tag_bits-bound c f.tags))
        (map-Reads
          (λ slot. record {
            name = f.name;
            type_id = ast_type_to_ftype f.type;
            tag_bits = compute_tag_bits c f.tags;
            scratchpad_offset = slot;
          })
          (read_u16_le-Reads f.slot b))))

abbrev pub sanitizer_image : Compiler → AstSanitizerDef → VmSanitizer
sanitizer_image c s = record {
  name = s.name;
  func_id = or_zero (stdlib_lookup s.name);
  strips_tags = compute_tag_bits c s.stripped_tags;
}

sanitizer-Reads :
    (c : Compiler) (s : AstSanitizerDef)
    → IsName s.name
    → Reads read_sanitizer (write_sanitizer c s) (sanitizer_image c s)
unfolding read_sanitizer write_sanitizer
sanitizer-Reads c s n = bind-Reads _ (read_name-Reads s.name n) (
    bind-Reads _ (read_u16_le-Reads _ (stdlib_lookup-small s.name)) (
      map-Reads
        (λ bits. record {
          name = s.name;
          func_id = or_zero (stdlib_lookup s.name);
          strips_tags = bits;
        })
        (read_u64_le-Reads (compute_tag_bits c s.stripped_tags)
          (compute_tag_bits-bound c s.stripped_tags))))

abbrev pub rule_image : Compiler → AstRule → VmRule
rule_image c (rule_forbid_field r) = vm_forbid_field (or_empty (ref_name r)) (ref_output r)
rule_image c (rule_forbid_tagged tag) = vm_forbid_tagged (bit_of (tag_bit_index c tag)) 1
rule_image c (rule_require r msg) = vm_require (or_empty (ref_name r)) (or_empty msg)
rule_image c (rule_match r msg) = vm_match (or_empty (ref_name r)) (or_empty msg)

abbrev pub IsRule : AstRule → Type 0
IsRule (rule_forbid_field r) = IsOptionalName (ref_name r)
IsRule (rule_forbid_tagged tag) = Unit
IsRule (rule_require r msg) = IsOptionalName (ref_name r) × IsOptionalName msg
IsRule (rule_match r msg) = IsOptionalName (ref_name r) × IsOptionalName msg

bit_of-bound : (o : Option ℕ) → bit_of o < 2 ^ 64
unfolding tag_bit
bit_of-bound none = omega arith
bit_of-bound (some idx) = omega arith

ref_output-bound : (r : Option AstFieldRef) → ref_output r < 256
ref_output-bound none = omega arith
ref_output-bound (some r) = go r.accessors
  where
    go : (l : List Bytes) → (elim l [ [] ↦ 0 | _ ∷ _ ↦ if r.is_output then 1 else 0 ]) < 256
    go [] = omega arith
    go (_ ∷ _) = ground arith

rule-Reads :
    (c : Compiler) (r : AstRule) → IsRule r → Reads read_rule (write_rule c r) (rule_image c r)
unfolding read_rule rule_of write_rule
rule-Reads c (rule_forbid_field r) h = bind-Reads rule_of (read_u8-Reads 1 (omega arith)) (
    bind-Reads _ (optional-Reads (ref_name r) h) (
      map-Reads (vm_forbid_field (or_empty (ref_name r)))
        (read_u8-Reads (ref_output r) (ref_output-bound r))))
rule-Reads c (rule_forbid_tagged tag) h = bind-Reads rule_of (read_u8-Reads 2 (omega arith)) (
    bind-Reads _
      (read_u64_le-Reads (bit_of (tag_bit_index c tag)) (bit_of-bound (tag_bit_index c tag)))
      (map-Reads (vm_forbid_tagged (bit_of (tag_bit_index c tag))) (read_u8-Reads 1 (omega arith))))
rule-Reads c (rule_require r msg) h = bind-Reads rule_of (read_u8-Reads 3 (omega arith)) (
    bind-Reads _ (optional-Reads (ref_name r) h.0)
      (map-Reads (vm_require (or_empty (ref_name r))) (optional-Reads msg h.1)))
rule-Reads c (rule_match r msg) h = bind-Reads rule_of (read_u8-Reads 4 (omega arith)) (
    bind-Reads _ (optional-Reads (ref_name r) h.0)
      (map-Reads (vm_match (or_empty (ref_name r))) (optional-Reads msg h.1)))

length-numbered : {X : Type 0} (k : ℕ) (xs : List X) → length (numbered k xs) ≡ length xs
unfolding numbered
length-numbered k [] = refl
length-numbered k (x ∷ xs) = ap suc (length-numbered (suc k) xs)

length-slotted : (k : ℕ) (fs : AstFieldDecls) → length (slotted k fs) ≡ count_decls fs
unfolding slotted count_decls
length-slotted k no_decls = refl
length-slotted k (decl name t tags rest) = ap suc (length-slotted (suc k) rest)

-- A contract whose counts, texts and numbers fit in the words of the packet.
pub record IsSerializable (c : Compiler) : Type 0 where
  pub name : IsName c.contract.name
  pub scratch : c.scratch_next < 2 ^ 16
  pub inputs : count_decls c.contract.input < 2 ^ 16
  pub outputs : count_decls c.contract.output < 2 ^ 16
  pub tag_count : length c.contract.tags < 2 ^ 16
  pub sanitizer_count : length c.contract.sanitizers < 2 ^ 16
  pub rule_count : length c.contract.rules < 2 ^ 16
  pub tags : All IsTag (numbered 0 c.contract.tags)
  pub input : All IsField (slotted 0 c.contract.input)
  pub output : All IsField (slotted (count_decls c.contract.input) c.contract.output)
  pub sanitizers : All (λ (s : AstSanitizerDef). IsName s.name) c.contract.sanitizers
  pub rules : All IsRule c.contract.rules

abbrev pub contract_image : Compiler → VmContract
contract_image c = record {
  name = c.contract.name;
  scratchpad_size = c.scratch_next;
  tag_defs = map tag_image (numbered 0 c.contract.tags);
  input_fields = map (field_image c) (slotted 0 c.contract.input);
  output_fields = map (field_image c) (slotted (count_decls c.contract.input) c.contract.output);
  sanitizers = map (sanitizer_image c) c.contract.sanitizers;
  rules = map (rule_image c) c.contract.rules;
}

All-map :
    {X : Type 0} {P Q : X → Type 0} (xs : List X) → ((x : X) → P x → Q x) → All P xs → All Q xs
All-map [] f h = tt
All-map (x ∷ xs) f h = (f x h.0, All-map xs f h.1)

-- As many rounds as a count says.
counted-Reads :
    {X A : Type 0} (p : Read A) (write : X → List Write) (image : X → A) (n : ℕ) (xs : List X)
    → length xs ≡ n
    → All (λ x. Reads p (write x) (image x)) xs
    → Reads (read_many n p) (each write xs) (map image xs)
counted-Reads p write image n xs e h =
    subst (λ m. Reads (read_many m p) (each write xs) (map image xs)) e
      (read_many-Reads p write image xs h)

pub contract-Reads :
    (c : Compiler)
    → IsSerializable c
    → Reads read_contract (serialize_contract c) (contract_image c)
unfolding read_contract serialize_contract
contract-Reads c w =
    let ct = c.contract in
    let ins = slotted 0 ct.input in
    let outs = slotted (count_decls ct.input) ct.output in
    bind-Reads _ (read_name-Reads ct.name w.name) (
      bind-Reads _ (read_u16_le-Reads c.scratch_next w.scratch) (
        bind-Reads _ (read_u16_le-Reads (count_decls ct.input) w.inputs) (
          bind-Reads _ (read_u16_le-Reads (count_decls ct.output) w.outputs) (
            bind-Reads _ (read_u16_le-Reads (length ct.tags) w.tag_count) (
              bind-Reads _ (read_u16_le-Reads (length ct.sanitizers) w.sanitizer_count) (
                bind-Reads _ (read_u16_le-Reads (length ct.rules) w.rule_count) (
                  bind-Reads _
                    (counted-Reads read_tag write_tag tag_image (length ct.tags)
                      (numbered 0 ct.tags) (length-numbered 0 ct.tags)
                      (All-map (numbered 0 ct.tags) tag-Reads w.tags))
                    (bind-Reads _
                      (counted-Reads read_field (write_field c) (field_image c)
                        (count_decls ct.input) ins (length-slotted 0 ct.input)
                        (All-map ins (field-Reads c) w.input))
                      (bind-Reads _
                        (counted-Reads read_field (write_field c) (field_image c)
                          (count_decls ct.output) outs
                          (length-slotted (count_decls ct.input) ct.output)
                          (All-map outs (field-Reads c) w.output))
                        (bind-Reads _
                          (counted-Reads read_sanitizer (write_sanitizer c) (sanitizer_image c)
                            (length ct.sanitizers) ct.sanitizers refl
                            (All-map ct.sanitizers (sanitizer-Reads c) w.sanitizers))
                          (map-Reads
                            (λ rules. record {
                              name = ct.name;
                              scratchpad_size = c.scratch_next;
                              tag_defs = map tag_image (numbered 0 ct.tags);
                              input_fields = map (field_image c) ins;
                              output_fields = map (field_image c) outs;
                              sanitizers = map (sanitizer_image c) ct.sanitizers;
                              rules = rules;
                            })
                            (counted-Reads read_rule (write_rule c) (rule_image c) (length ct.rules)
                              ct.rules refl (All-map ct.rules (rule-Reads c) w.rules)))))))))))))
