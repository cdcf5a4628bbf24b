-- ===== src/Vm/Step.antt =====
-- The switch of `vm_execute` in src/vm.c, with `propagate_tags`.
use Prim.Native.Nat.{bit_and, bit_or}
use heluna_language.Common.{
  ℕ, ◌/◌, ◌%◌, ◌^◌, Bool, true, false, not, Option, none, some, List, ◌++◌, ltb, ◌==◌,
  if◌then◌else◌, codes, length, get_elem?,
}
use heluna_language.Common.Int.{pos}
use heluna_language.Value.{
  Double, Doubles, HVal, val_integer, val_string, val_boolean, val_nothing, val_record, val_list,
  no_fields, field, no_items,
}
use heluna_language.Compiler.{Instruction}
use heluna_language.Json.Numbers.{print_int}
use heluna_language.Packet.Assembly.{VmPacket}
use heluna_language.Stdlib.{Called, value, error}
use heluna_language.Vm.{
  Vm, VmSlot, Outcome, done, failed, undefined, ◌>>=◌, Opcode, load_const, load_field, load_nothing,
  copy, negate, op_not, str_concat, arithmetic, compare, logic, is_kind, kind_nothing, to_string,
  to_int, to_float, to_bool, record_new, record_set, record_get, record_has, list_new, list_append,
  list_get, list_length, jump, jump_if, jump_if_not, coalesce, iter_setup, iter_collect,
  stdlib_call, tag_set, tag_check, source_lookup, record_get_c, record_set_c, record_new_set_c,
  stdlib_call_1, is_nothing_jump, cmp_jump, decode, slot, lend, assign_slot, assign, next, to_word,
}
use heluna_language.Vm.Library.{Surroundings, vm_stdlib_call, hex_byte}
use heluna_language.Vm.Source.{Files, vm_source_resolve}
use heluna_language.Vm.Values.{
  vm_arith, vm_negate, vm_compare, fused_compare, vm_logic, vm_not, holds,
}
use heluna_language.Vm.Conversions.{
  val_to_str, is_of_kind, vm_to_int, vm_to_float, vm_to_bool, record_get_field, vm_list_get,
  vm_list_length, or_nothing,
}
use heluna_language.Vm.Containers.{assign_part, get_ins, set_ins, new_set_ins, append_ins}
use heluna_language.Vm.Iteration.{share, iter_setup_ins, iter_collect_ins}

-- What the machine runs on: its library's surroundings, the C library's `fmod`, and the files.
pub record Machine : Type 0 where
  pub surroundings : Surroundings
  pub fmod : Double → Double → Double
  pub files : Files

abbrev pub doubles : Machine → Doubles
doubles m = m.surroundings.host.doubles

-- The constant of that index, where an index beyond the pool, whose count is cut to 16 bits, is NULL.
unfoldable pub constant : VmPacket → ℕ → Option HVal
constant p i =
    if ltb i (length p.constants % 2 ^ 16)
    then elim (get_elem? p.constants i) [ none ↦ none | some c ↦ some c.value ]
    else none

abbrev word_or : ℕ → Option HVal → ℕ
word_or bits (some (val_integer n)) = to_word n
word_or bits _ = bits

-- The tags of a slot whose tags are `bits` before.
unfoldable pub propagate_tags : VmPacket → Instruction → ℕ → ℕ → ℕ
unfolding constant to_word
propagate_tags p ins bits operand_tags =
    let mode = ins.flags / 8 % 4 in
    if mode == 0
    then bit_or bits operand_tags
    else if mode == 1
    then 0
    else if mode == 2
    then word_or bits (constant p ins.operand2)
    else bits

abbrev flag : Bool → Option HVal
flag b = some (val_boolean b)

-- A pointer is copied from one slot to another with its tags.
unfoldable pub copy_slot : Vm → ℕ → ℕ → Outcome Vm
unfolding slot lend assign
copy_slot vm d o = slot vm o >>= λ s. share vm o λ vm' v. assign vm' d v s.tags

-- One operand, and a result without tags or with those of the operand.
abbrev pub unary : Vm → ℕ → ℕ → (Option HVal → Outcome Bool) → Outcome Vm
unary vm d o f = do s ← slot vm o; b ← f s.value; assign vm d (flag b) 0

abbrev pub converted : Vm → ℕ → ℕ → (Option HVal → Outcome HVal) → Outcome Vm
converted vm d o f = do s ← slot vm o; v ← f s.value; assign vm d (some v) s.tags

-- Two operands.
abbrev pub operands {ℓ} :
    {A : Type ℓ} → Vm → Instruction → (VmSlot → VmSlot → Outcome A) → Outcome A
operands vm ins f = do a ← slot vm ins.operand1; b ← slot vm ins.operand2; f a b

abbrev pub tested : Vm → Instruction → (Option HVal → Option HVal → Outcome Bool) → Outcome Vm
tested vm ins f = do b ← operands vm ins (λ a b. f a.value b.value); assign vm ins.dest (flag b) 0

-- A result that carries its operands' tags as the instruction's flags say.
abbrev pub computed :
    VmPacket → Vm → Instruction → (Option HVal → Option HVal → Outcome HVal) → Outcome Vm
computed p vm ins f = operands vm ins λ a b. do
  v ← f a.value b.value
  assign vm ins.dest (some v) (propagate_tags p ins 0 (bit_or a.tags b.tags))

-- A test behind which the machine goes on, or else jumps.
abbrev pub go_on_if : Vm → ℕ → Bool → Outcome Vm
go_on_if vm d true = done (next vm)
go_on_if vm d false = done (record vm { pc = d })

abbrev stored_call : VmPacket → Vm → Instruction → Option HVal → ℕ → Outcome Vm
stored_call p vm ins v tags =
    assign vm ins.dest (some (or_nothing v))
      (propagate_tags p ins 0 (if ins.dest == ins.operand2 then 0 else tags))

abbrev pub called : Called → (Option HVal → Outcome Vm) → Outcome Vm
called (value v) f = f (some v)
called (error text) f = failed text
called Called.undefined f = undefined

-- STDLIB_CALL and STDLIB_CALL_1: `arg` makes the argument of the operand. The destination's tags are
-- cleared before the operand's are read. No function tells a NULL argument from one without fields.
unfoldable pub call_ins : Machine → VmPacket → (Option HVal → HVal) → Instruction → Vm → Outcome Vm
unfolding slot assign lend
call_ins m p arg ins vm = slot vm ins.operand2 >>= λ s. share vm ins.operand2 λ vm' v.
    if ins.operand1 == 0
    then stored_call p vm' ins v s.tags
    else called (vm_stdlib_call m.surroundings ins.operand1 (arg v))
        (λ result. stored_call p vm' ins result s.tags)

abbrev value_record : Option HVal → HVal
value_record none = val_record no_fields
value_record (some v) = val_record (field (codes "value") v no_fields)

-- The bits of a constant that is an integer, and else none.
abbrev pub constant_bits : VmPacket → ℕ → ℕ
constant_bits p i = word_or 0 (constant p i)

abbrev pub sourced : Vm → ℕ → List (Option HVal) × Option HVal → Outcome Vm
sourced vm d (cache, v) = assign (record vm { source_cache = cache }) d (some (or_nothing v)) 0

index_error : ℕ → Outcome Vm
index_error i = failed (codes "constant index " ++ (print_int (pos i) ++ codes " out of range"))

unfoldable pub load_value : Instruction → Vm → Option HVal → Outcome Vm
unfolding assign index_error
load_value ins vm none = index_error ins.operand1
load_value ins vm (some v) = assign vm ins.dest (some v) 0

-- LOAD_CONST.
unfoldable pub load_ins : VmPacket → Instruction → Vm → Outcome Vm
unfolding constant load_value
load_ins p ins vm = load_value ins vm (constant p ins.operand1)

abbrev owned_new : HVal → VmSlot
owned_new v = record { value = some v; tags = 0; owned = true }

unfoldable pub perform : Machine → VmPacket → Opcode → Instruction → Vm → Outcome Vm
unfolding slot assign assign_slot
perform m p load_const ins vm = load_ins p ins vm
perform m p load_field ins vm = copy_slot vm ins.dest ins.operand1
perform m p load_nothing ins vm = assign vm ins.dest (some val_nothing) 0
perform m p copy ins vm = copy_slot vm ins.dest ins.operand1
perform m p (arithmetic op) ins vm = computed p vm ins (vm_arith (doubles m) m.fmod op)
perform m p negate ins vm = converted vm ins.dest ins.operand1 (vm_negate (doubles m))
perform m p (compare op) ins vm = tested vm ins (vm_compare m.surroundings.host op)
perform m p (logic op) ins vm = tested vm ins (vm_logic op)
perform m p op_not ins vm = unary vm ins.dest ins.operand1 vm_not
perform m p str_concat ins vm =
    computed p vm ins
      λ a b. done (val_string (val_to_str (doubles m) a ++ val_to_str (doubles m) b))
perform m p (is_kind k) ins vm = unary vm ins.dest ins.operand1 (λ a. done (is_of_kind k a))
perform m p to_string ins vm =
    converted vm ins.dest ins.operand1 λ a. done (val_string (val_to_str (doubles m) a))
perform m p to_int ins vm = converted vm ins.dest ins.operand1 (vm_to_int (doubles m))
perform m p to_float ins vm = converted vm ins.dest ins.operand1 (vm_to_float (doubles m))
perform m p to_bool ins vm = unary vm ins.dest ins.operand1 λ a. done (vm_to_bool (doubles m) a)
perform m p record_new ins vm = assign_slot vm ins.dest (owned_new (val_record no_fields))
perform m p record_set ins vm = do
  rec ← slot vm ins.dest
  key ← slot vm ins.operand1
  set_ins (codes "RECORD_SET") vm ins.dest rec ins.operand2 key.value
perform m p record_get ins vm = operands vm ins λ rec key. get_ins vm ins.dest rec key.value
perform m p record_has ins vm =
    tested vm ins λ rec key. done (elim (record_get_field rec key) [ none ↦ false | some _ ↦ true ])
perform m p list_new ins vm = assign_slot vm ins.dest (owned_new (val_list no_items))
perform m p list_append ins vm = do
  list ← slot vm ins.dest
  v ← slot vm ins.operand1
  append_ins vm list v ins.dest ins.operand1
perform m p list_get ins vm =
    operands vm ins λ a b. do v ← vm_list_get a.value b.value; assign_part vm ins.dest a.tags v
perform m p list_length ins vm = do
  s ← slot vm ins.operand1
  n ← vm_list_length s.value
  assign vm ins.dest (some n) 0
perform m p jump ins vm = done (record vm { pc = ins.dest })
perform m p jump_if ins vm =
    slot vm ins.operand1 >>= λ s. go_on_if vm ins.dest (not (holds s.value))
perform m p jump_if_not ins vm = slot vm ins.operand1 >>= λ s. go_on_if vm ins.dest (holds s.value)
perform m p coalesce ins vm = slot vm ins.operand1 >>= λ a.
    copy_slot vm ins.dest (if is_of_kind kind_nothing a.value then ins.operand2 else ins.operand1)
perform m p iter_setup ins vm = iter_setup_ins p.instructions ins vm
perform m p iter_collect ins vm = iter_collect_ins vm
perform m p stdlib_call ins vm = call_ins m p or_nothing ins vm
perform m p tag_set ins vm = slot vm ins.dest >>= λ s.
    assign_slot vm ins.dest (record s { tags = bit_or s.tags (constant_bits p ins.operand1) })
perform m p tag_check ins vm = slot vm ins.operand1 >>= λ s.
    let bits = constant_bits p ins.operand2 in
    assign vm ins.dest (flag (bit_and s.tags bits == bits)) 0
perform m p source_lookup ins vm = slot vm ins.operand2 >>= λ keys.
    sourced vm ins.dest
      (vm_source_resolve (doubles m) m.files p.sources vm.source_cache ins.operand1 keys.value)
perform m p record_get_c ins vm =
    slot vm ins.operand1 >>= λ rec. get_ins vm ins.dest rec (constant p ins.operand2)
perform m p record_set_c ins vm = slot vm ins.dest >>= λ rec.
    set_ins (codes "RECORD_SET_C") vm ins.dest rec ins.operand2 (constant p ins.operand1)
perform m p record_new_set_c ins vm = new_set_ins vm ins.dest ins.operand2 (constant p ins.operand1)
perform m p stdlib_call_1 ins vm = call_ins m p value_record ins vm
perform m p (cmp_jump op) ins vm = do
  b ← operands vm ins (λ a b. fused_compare m.surroundings.host op a.value b.value)
  go_on_if vm ins.dest b
perform m p is_nothing_jump ins vm =
    slot vm ins.operand1 >>= λ s. go_on_if vm ins.dest (not (is_of_kind kind_nothing s.value))

unknown_opcode : Instruction → Vm → Outcome Vm
unknown_opcode ins vm = failed (
    codes "unknown opcode 0x"
    ++ (hex_byte ins.opcode ++ (codes " at PC=" ++ print_int (pos vm.pc))))

unfoldable pub perform_known : Machine → VmPacket → Option Opcode → Instruction → Vm → Outcome Vm
unfolding perform unknown_opcode
perform_known m p none ins vm = unknown_opcode ins vm
perform_known m p (some op) ins vm = perform m p op ins vm

-- One round of the loop.
unfoldable pub step : Machine → VmPacket → Instruction → Vm → Outcome Vm
unfolding perform_known decode
step m p ins vm = perform_known m p (decode ins.opcode) ins vm
