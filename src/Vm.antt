-- ===== src/Vm.antt =====
-- include/heluna/vm.h: the machine's state; its opcodes (include/heluna/compiler.h); `vm_init` and the
-- slots of src/vm.c.
--
-- A slot holds a pointer to a value, `none` where it is NULL, and the model holds the value itself. An
-- instruction changes a record or a list in place only in its own slot; `owned` says that the slot's
-- value was made there and that no other slot, value or frame has a pointer to it. Where another has
-- one, the change would show there, and the model stops (`beyond`).
pub mod Values
pub mod Conversions
pub mod Source
pub mod Library
pub mod Iteration
pub mod Containers
pub mod Step
pub mod Caches
pub mod Moves
pub mod Parts
pub mod Performs
pub mod Invariant
pub mod Soundness
pub mod Execute
pub mod Runs
pub mod Rounds
pub mod Frames
pub mod Termination
pub mod Kinds
pub mod Agreement
pub mod Pairs
pub mod Fusion
use heluna_language.Common.{
  ℕ, ◌+◌, ◌-◌, ◌^◌, Bool, true, false, Option, none, some, List, [], ◌∷◌, ltb, ◌==◌, if◌then◌else◌,
  Bytes, get_elem?, set,
}
use heluna_language.Common.Int.{ℤ, pos, negsuc}
use heluna_language.Value.{HVal, HVals, Double}
use heluna_language.Compiler.{Instruction}
use heluna_language.Packet.Assembly.{VmPacket}

pub record VmSlot : Type 0 where
  pub value : Option HVal
  pub tags : ℕ
  pub owned : Bool

-- The two mode bits of ITER_SETUP; the fourth pattern has no name in the source.
pub data IterMode : Type 0 where
  iter_map iter_filter iter_fold iter_other : IterMode

-- `rest` is the list from `next_elem` on, `result` the list between `result_head` and `result_tail`.
pub record VmIterFrame : Type 0 where
  pub mode : IterMode
  pub rest : HVals
  pub elem_slot : ℕ
  pub source_slot : ℕ
  pub body_start : ℕ
  pub collect_pc : ℕ
  pub result_dest : ℕ
  pub slot_a : ℕ
  pub slot_b : ℕ
  pub result : HVals
  pub acc : Option HVal

-- The frames in use, the top first; `result_slot` and `pc` are variables of `vm_execute`.
pub record Vm : Type 0 where
  pub scratchpad : List VmSlot
  pub iter_stack : List VmIterFrame
  pub source_cache : List (Option HVal)
  pub result_slot : ℕ
  pub pc : ℕ

-- What comes of a part of the machine's work: a result, an error with its message, an access that C
-- leaves undefined, or a change of a shared object, which the model does not follow.
pub data Outcome {ℓ} (A : Type ℓ) : Type ℓ where
  done : A → Outcome A
  failed : Bytes → Outcome A
  undefined beyond : Outcome A

infixl 5 ◌>>=◌
abbrev pub ◌>>=◌ {ℓ κ} : {A : Type ℓ} {B : Type κ} → Outcome A → (A → Outcome B) → Outcome B
done a >>= f = f a
failed text >>= f = failed text
undefined >>= f = undefined
beyond >>= f = beyond

pub data ArithOp : Type 0 where
  op_add op_sub op_mul op_div op_mod : ArithOp

pub data CompareOp : Type 0 where
  op_eq op_neq op_lt op_gt op_lte op_gte : CompareOp

pub data LogicOp : Type 0 where
  op_and op_or : LogicOp

pub data HValKind : Type 0 where
  kind_string kind_integer kind_float kind_boolean kind_nothing kind_list kind_record : HValKind

pub data Opcode : Type 0 where
  load_const load_field load_nothing copy negate op_not str_concat : Opcode
  arithmetic : ArithOp → Opcode
  compare : CompareOp → Opcode
  logic : LogicOp → Opcode
  is_kind : HValKind → Opcode
  to_string to_int to_float to_bool : Opcode
  record_new record_set record_get record_has : Opcode
  list_new list_append list_get list_length : Opcode
  jump jump_if jump_if_not coalesce iter_setup iter_collect : Opcode
  stdlib_call tag_set tag_check source_lookup : Opcode
  record_get_c record_set_c record_new_set_c stdlib_call_1 is_nothing_jump : Opcode
  cmp_jump : CompareOp → Opcode

abbrev opcodes : List (ℕ × Opcode)
opcodes =
    (0x01, load_const)
    ∷ (0x02, load_field)
    ∷ (0x03, load_nothing)
    ∷ (0x04, copy)
    ∷ (0x10, arithmetic op_add)
    ∷ (0x11, arithmetic op_sub)
    ∷ (0x12, arithmetic op_mul)
    ∷ (0x13, arithmetic op_div)
    ∷ (0x14, arithmetic op_mod)
    ∷ (0x15, negate)
    ∷ (0x20, compare op_eq)
    ∷ (0x21, compare op_neq)
    ∷ (0x22, compare op_lt)
    ∷ (0x23, compare op_gt)
    ∷ (0x24, compare op_lte)
    ∷ (0x25, compare op_gte)
    ∷ (0x30, logic op_and)
    ∷ (0x31, logic op_or)
    ∷ (0x32, op_not)
    ∷ (0x40, str_concat)
    ∷ (0x50, is_kind kind_string)
    ∷ (0x51, is_kind kind_integer)
    ∷ (0x52, is_kind kind_float)
    ∷ (0x53, is_kind kind_boolean)
    ∷ (0x54, is_kind kind_nothing)
    ∷ (0x55, is_kind kind_list)
    ∷ (0x56, is_kind kind_record)
    ∷ (0x58, to_string)
    ∷ (0x59, to_int)
    ∷ (0x5A, to_float)
    ∷ (0x5B, to_bool)
    ∷ (0x60, record_new)
    ∷ (0x61, record_set)
    ∷ (0x62, record_get)
    ∷ (0x63, record_has)
    ∷ (0x70, list_new)
    ∷ (0x71, list_append)
    ∷ (0x72, list_get)
    ∷ (0x73, list_length)
    ∷ (0x80, jump)
    ∷ (0x81, jump_if)
    ∷ (0x82, jump_if_not)
    ∷ (0x85, coalesce)
    ∷ (0x90, iter_setup)
    ∷ (0x91, iter_collect)
    ∷ (0xA0, stdlib_call)
    ∷ (0xB0, tag_set)
    ∷ (0xB1, tag_check)
    ∷ (0xC0, source_lookup)
    ∷ (0xC1, record_get_c)
    ∷ (0xC2, record_set_c)
    ∷ (0xC3, record_new_set_c)
    ∷ (0xC4, stdlib_call_1)
    ∷ (0xC5, cmp_jump op_eq)
    ∷ (0xC6, cmp_jump op_neq)
    ∷ (0xC7, cmp_jump op_lt)
    ∷ (0xC8, cmp_jump op_gt)
    ∷ (0xC9, cmp_jump op_lte)
    ∷ (0xCA, cmp_jump op_gte)
    ∷ (0xCB, is_nothing_jump)
    ∷ []

unfoldable pub find_opcode : List (ℕ × Opcode) → ℕ → Option Opcode
find_opcode [] code = none
find_opcode ((c, op) ∷ rest) code = if c == code then some op else find_opcode rest code

-- The cases of the switch.
unfoldable pub decode : ℕ → Option Opcode
unfolding find_opcode
decode = find_opcode opcodes

abbrev pub empty_caches {ℓ} : {A : Type ℓ} → List A → List (Option HVal)
empty_caches [] = []
empty_caches (_ ∷ xs) = none ∷ empty_caches xs

-- `vm_init`: no scratchpad yet, and nothing read for any of the sources.
unfoldable pub vm_init : VmPacket → Vm
vm_init p = record {
  scratchpad = [];
  iter_stack = [];
  source_cache = empty_caches p.sources;
  result_slot = 0;
  pc = 0;
}

abbrev some_or_undefined {ℓ} : {A : Type ℓ} → Option A → Outcome A
some_or_undefined none = undefined
some_or_undefined (some a) = done a

-- `vm->scratchpad[i]` as a read and as a write.
unfoldable pub slot : Vm → ℕ → Outcome VmSlot
slot vm i = some_or_undefined (get_elem? vm.scratchpad i)

unfoldable pub put : Vm → ℕ → VmSlot → Outcome Vm
unfolding slot
put vm i s = slot vm i >>= λ _. done (record vm { scratchpad = set vm.scratchpad i s })

-- From here on another slot, value or frame may have a pointer to the slot's value.
unfoldable pub lend : Vm → ℕ → Outcome Vm
unfolding slot put
lend vm i = slot vm i >>= λ s. put vm i (record s { owned = false })

abbrev pub next : Vm → Vm
next vm = record vm { pc = vm.pc + 1 }

-- The end of most instructions: the slot, `result_slot` and the next instruction.
unfoldable pub assign_slot : Vm → ℕ → VmSlot → Outcome Vm
unfolding put
assign_slot vm d s = put vm d s >>= λ vm'. done (next (record vm' { result_slot = d }))

unfoldable pub assign : Vm → ℕ → Option HVal → ℕ → Outcome Vm
unfolding assign_slot
assign vm d v tags = assign_slot vm d (record { value = v; tags = tags; owned = false })

-- `(uint64_t)n` on a `long long`.
unfoldable pub to_word : ℤ → ℕ
to_word (pos n) = n
to_word (negsuc n) = 2 ^ 64 - 1 - n
