-- ===== src/Vm/Execute.antt =====
-- `vm_execute` of src/vm.c around its switch: the scratchpad, the input, the loop and the result.
use heluna_language.Common.{
  ℕ, zero, suc, ◌+◌, false, Option, none, some, List, [], ◌∷◌, ltb, if◌then◌else◌, length,
  get_elem?,
}
use heluna_language.Value.{HVal, HFields, val_nothing, val_record, field_get}
use heluna_language.Compiler.{Instruction}
use heluna_language.Packet.Contract.{VmFieldDecl, VmContract}
use heluna_language.Packet.Assembly.{VmPacket}
use heluna_language.Vm.{Vm, VmSlot, Outcome, done, failed, undefined, beyond}
use heluna_language.Vm.Conversions.{or_nothing}
use heluna_language.Vm.Step.{Machine, step}

abbrev at_least : ℕ → ℕ → ℕ
at_least low n = if ltb n low then low else n

-- At least the slots of the input and the output fields, and one.
unfoldable pub sp_size : VmContract → ℕ
sp_size c = at_least 1 (at_least (length c.input_fields + length c.output_fields) c.scratchpad_size)

abbrev empty_slot : VmSlot
empty_slot = record { value = none; tags = 0; owned = false }

unfoldable pub empty_slots : ℕ → List VmSlot
empty_slots zero = []
empty_slots (suc n) = empty_slot ∷ empty_slots n

-- The input's field, or nothing, with the tags that the contract gives it.
abbrev input_slot : HFields → VmFieldDecl → VmSlot
input_slot fs f = record {
  value = some (or_nothing (field_get fs f.name));
  tags = f.tag_bits;
  owned = false;
}

-- The loop over the input fields, on the first slots.
unfoldable pub map_input : HFields → List VmFieldDecl → List VmSlot → List VmSlot
map_input fs [] slots = slots
map_input fs (f ∷ rest) [] = []
map_input fs (f ∷ rest) (_ ∷ slots) = input_slot fs f ∷ map_input fs rest slots

abbrev pub mapped : Option HVal → List VmFieldDecl → List VmSlot → List VmSlot
mapped (some (val_record fs)) fields slots = map_input fs fields slots
mapped _ fields slots = slots

-- The state in front of the loop.
unfoldable pub start : VmPacket → Vm → Option HVal → Vm
unfolding sp_size empty_slots map_input
start p vm input = record vm {
  scratchpad = mapped input p.contract.input_fields (empty_slots (sp_size p.contract));
  iter_stack = [];
  result_slot = 0;
  pc = 0;
}

-- Behind the last instruction the loop ends.
abbrev pub at_instruction :
    Option Instruction → Vm → (Instruction → Option (Outcome Vm)) → Option (Outcome Vm)
at_instruction none vm f = some (done vm)
at_instruction (some ins) vm f = f ins

-- A round that is not done ends it, too.
abbrev pub behind_round : Outcome Vm → (Vm → Option (Outcome Vm)) → Option (Outcome Vm)
behind_round (done vm) f = f vm
behind_round (failed text) f = some (failed text)
behind_round undefined f = some undefined
behind_round beyond f = some beyond

-- The loop, with fuel for so many rounds; `none` means that the fuel ran out.
unfoldable pub run : ℕ → Machine → VmPacket → Vm → Option (Outcome Vm)
unfolding step
run zero m p vm = none
run (suc fuel) m p vm =
    at_instruction (get_elem? p.instructions vm.pc) vm
      λ ins. behind_round (step m p ins vm) (run fuel m p)

-- The value of the result slot, or nothing.
unfoldable pub result : Vm → HVal
result vm = elim (get_elem? vm.scratchpad vm.result_slot) [
  | none ↦ val_nothing
  | some s ↦ or_nothing s.value
]

abbrev pub returned : Outcome Vm → Outcome HVal
returned (done vm) = done (result vm)
returned (failed text) = failed text
returned undefined = undefined
returned beyond = beyond

abbrev pub with_result : Option (Outcome Vm) → Option (Outcome HVal)
with_result none = none
with_result (some o) = some (returned o)

unfoldable pub vm_execute : ℕ → Machine → VmPacket → Vm → Option HVal → Option (Outcome HVal)
unfolding run start result
vm_execute fuel m p vm input = with_result (run fuel m p (start p vm input))
