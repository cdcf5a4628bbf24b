-- ===== src/Packet/Contract.antt =====
-- The contract section: `serialize_contract` of src/compiler.c, and the part of `vm_load_packet` in
-- src/vm.c that reads it.
--
-- A loop with a counter goes over the numbered list. Where the reader takes an empty text for a
-- length of 0 without a copy, the copy of no bytes gives it as well.
use heluna_language.Common.{
  ℕ, suc, ◌||◌, Option, none, some, List, [], ◌∷◌, ◌++◌, ◌==◌, if◌then◌else◌, Bytes, length,
}
use heluna_language.Ast.Contract.{
  AstType, AstFieldDecls, no_decls, decl, count_decls, AstTagDef, AstSanitizerDef, AstFieldRef,
  AstRule, rule_forbid_field, rule_forbid_tagged, rule_require, rule_match,
}
use heluna_language.Compiler.{Compiler, compute_tag_bits, tag_bit_index, tag_bit, stdlib_lookup}
use heluna_language.Packet.Writes.{Write, w_u8, w_u16, w_u64}
use heluna_language.Packet.Reads.{
  Read, pure, ◌>>=◌, read_u8, read_u16_le, read_u64_le, read_name, read_many, name_writes, each,
}
use heluna_language.Packet.Types.{serialize_type, skip_type, skip_each}

unfoldable pub numbered : {X : Type 0} → ℕ → List X → List (ℕ × X)
numbered k [] = []
numbered k (x ∷ xs) = (k, x) ∷ numbered (suc k) xs

-- A field of the contract's input or output with its slot.
pub record Field : Type 0 where
  pub name : Bytes
  pub type : AstType
  pub tags : List Bytes
  pub slot : ℕ

unfoldable pub slotted : ℕ → AstFieldDecls → List Field
slotted k no_decls = []
slotted k (decl name t tags rest) =
    record { name = name; type = t; tags = tags; slot = k } ∷ slotted (suc k) rest

abbrev pub optional_writes : Option Bytes → List Write
optional_writes none = w_u16 0 ∷ []
optional_writes (some t) = name_writes t

unfoldable pub write_tag : ℕ × AstTagDef → List Write
write_tag (idx, t) = w_u8 idx ∷ (name_writes t.name ++ optional_writes t.description)

unfoldable pub write_field : Compiler → Field → List Write
write_field c f =
    name_writes f.name
    ++ (serialize_type f.type ++ w_u64 (compute_tag_bits c f.tags) ∷ w_u16 f.slot ∷ [])

abbrev pub or_zero : Option ℕ → ℕ
or_zero none = 0
or_zero (some n) = n

unfoldable pub write_sanitizer : Compiler → AstSanitizerDef → List Write
write_sanitizer c s =
    name_writes s.name
    ++ w_u16 (or_zero (stdlib_lookup s.name)) ∷ w_u64 (compute_tag_bits c s.stripped_tags) ∷ []

-- The first accessor, if there is one.
abbrev first_of : List Bytes → Option Bytes
first_of [] = none
first_of (a ∷ _) = some a

abbrev pub ref_name : Option AstFieldRef → Option Bytes
ref_name none = none
ref_name (some r) = first_of r.accessors

-- Whether the reference is to the output, where it has an accessor.
abbrev pub ref_output : Option AstFieldRef → ℕ
ref_output none = 0
ref_output (some r) = elim r.accessors [ [] ↦ 0 | _ ∷ _ ↦ if r.is_output then 1 else 0 ]

abbrev pub bit_of : Option ℕ → ℕ
bit_of none = 0
bit_of (some idx) = tag_bit idx

unfoldable pub write_rule : Compiler → AstRule → List Write
write_rule c (rule_forbid_field r) =
    w_u8 1 ∷ (optional_writes (ref_name r) ++ w_u8 (ref_output r) ∷ [])
write_rule c (rule_forbid_tagged tag) = w_u8 2 ∷ w_u64 (bit_of (tag_bit_index c tag)) ∷ w_u8 1 ∷ []
write_rule c (rule_require r msg) = w_u8 3 ∷ (optional_writes (ref_name r) ++ optional_writes msg)
write_rule c (rule_match r msg) = w_u8 4 ∷ (optional_writes (ref_name r) ++ optional_writes msg)

unfoldable pub serialize_contract : Compiler → List Write
serialize_contract c =
    let ct = c.contract in
    name_writes ct.name
    ++ w_u16 c.scratch_next
      ∷ w_u16 (count_decls ct.input)
      ∷ w_u16 (count_decls ct.output)
      ∷ w_u16 (length ct.tags)
      ∷ w_u16 (length ct.sanitizers)
      ∷ w_u16 (length ct.rules)
      ∷ (each write_tag (numbered 0 ct.tags)
          ++ (each (write_field c) (slotted 0 ct.input)
              ++ (each (write_field c) (slotted (count_decls ct.input) ct.output)
                  ++ (each (write_sanitizer c) ct.sanitizers ++ each (write_rule c) ct.rules))))

-- What the machine keeps of the contract (include/heluna/vm.h).
pub record VmTagDef : Type 0 where
  pub name : Bytes
  pub bit_index : ℕ
  pub description : Bytes

pub record VmFieldDecl : Type 0 where
  pub name : Bytes
  pub type_id : ℕ
  pub tag_bits : ℕ
  pub scratchpad_offset : ℕ

pub record VmSanitizer : Type 0 where
  pub name : Bytes
  pub func_id : ℕ
  pub strips_tags : ℕ

-- A rule of another kind is kept by its kind; its other fields are not set.
pub data VmRule : Type 0 where
  vm_forbid_field : Bytes → ℕ → VmRule
  vm_forbid_tagged : ℕ → ℕ → VmRule
  vm_require vm_match : Bytes → Bytes → VmRule
  vm_other : ℕ → VmRule

pub record VmContract : Type 0 where
  pub name : Bytes
  pub scratchpad_size : ℕ
  pub tag_defs : List VmTagDef
  pub input_fields : List VmFieldDecl
  pub output_fields : List VmFieldDecl
  pub sanitizers : List VmSanitizer
  pub rules : List VmRule

unfoldable pub read_tag : Read VmTagDef
read_tag = do
  idx ← read_u8
  name ← read_name
  description ← read_name
  pure (record { name = name; bit_index = idx; description = description })

-- With a unit of fuel more than the bytes that are left.
abbrev pub with_fuel : {A : Type 0} → (ℕ → Read A) → Read A
with_fuel p c = p (suc (length c.rest)) c

unfoldable pub skip_detail : ℕ → Read (Unit {0})
skip_detail tid =
    if tid == 6 || tid == 7
    then with_fuel skip_type
    else if tid == 8
    then with_fuel (λ f. read_u16_le >>= skip_each (skip_type f))
    else pure tt

unfoldable pub read_type : Read ℕ
read_type = do tid ← read_u8; a ← skip_detail tid; pure tid

unfoldable pub read_field : Read VmFieldDecl
unfolding read_type
read_field = do
  name ← read_name
  tid ← read_type
  bits ← read_u64_le
  slot ← read_u16_le
  pure (record { name = name; type_id = tid; tag_bits = bits; scratchpad_offset = slot })

unfoldable pub read_sanitizer : Read VmSanitizer
read_sanitizer = do
  name ← read_name
  id ← read_u16_le
  strips ← read_u64_le
  pure (record { name = name; func_id = id; strips_tags = strips })

unfoldable pub rule_of : ℕ → Read VmRule
rule_of kind =
    if kind == 1
    then (read_name >>= λ name. read_u8 >>= λ out. pure (vm_forbid_field name out))
    else if kind == 2
    then (read_u64_le >>= λ bits. read_u8 >>= λ out. pure (vm_forbid_tagged bits out))
    else if kind == 3
    then (read_name >>= λ name. read_name >>= λ msg. pure (vm_require name msg))
    else if kind == 4
    then (read_name >>= λ name. read_name >>= λ msg. pure (vm_match name msg))
    else pure (vm_other kind)

unfoldable pub read_rule : Read VmRule
read_rule = read_u8 >>= rule_of

unfoldable pub read_contract : Read VmContract
read_contract = do
  name ← read_name
  scratch ← read_u16_le
  inputs ← read_u16_le
  outputs ← read_u16_le
  tags ← read_u16_le
  sanitizers ← read_u16_le
  rules ← read_u16_le
  tag_defs ← read_many tags read_tag
  input_fields ← read_many inputs read_field
  output_fields ← read_many outputs read_field
  sanitizer_list ← read_many sanitizers read_sanitizer
  rule_list ← read_many rules read_rule
  pure (record {
    name = name;
    scratchpad_size = scratch;
    tag_defs = tag_defs;
    input_fields = input_fields;
    output_fields = output_fields;
    sanitizers = sanitizer_list;
    rules = rule_list;
  })
