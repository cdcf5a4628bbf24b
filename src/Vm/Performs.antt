-- ===== src/Vm/Performs.antt =====
-- Every instruction of src/vm.c but ITER_SETUP and ITER_COLLECT keeps the machine's shape.
use heluna_language.Common.{◌≡◌, ◌++◌, refl, Bool, true, false, not, inr, some}
use heluna_language.Value.{val_string}
use heluna_language.Compiler.{Instruction}
use heluna_language.Packet.Assembly.{VmPacket}
use heluna_language.Vm.{
  Vm, done, Opcode, load_const, load_field, load_nothing, copy, negate, op_not, str_concat,
  arithmetic, compare, logic, is_kind, to_string, to_int, to_float, to_bool, record_new, record_set,
  record_get, record_has, list_new, list_append, list_get, list_length, jump, jump_if, jump_if_not,
  coalesce, iter_setup, iter_collect, stdlib_call, tag_set, tag_check, source_lookup, record_get_c,
  record_set_c, record_new_set_c, stdlib_call_1, is_nothing_jump, cmp_jump,
}
use heluna_language.Vm.Values.{holds}
use heluna_language.Vm.Conversions.{
  or_nothing, vm_list_get, vm_list_length, val_to_str, is_of_kind, vm_to_bool,
}
use heluna_language.Vm.Caches.{length-vm_source_resolve}
use heluna_language.Vm.Source.{vm_source_resolve}
use heluna_language.Vm.Step.{Machine, perform, load_ins, constant, go_on_if, doubles}
use heluna_language.Vm.Containers.{get_ins, append_ins}
use heluna_language.Vm.Parts.{
  copy_slot-Moved, assign_part-Moved, set_ins-Moved, new_set_ins-Moved, append_value-Moved,
  call_ins-Moved, load_value-Moved, operands-Moved, unary-Moved, converted-Moved, tested-Moved,
  computed-Moved, go_on_if-Moved, sourced-Moved,
}
use heluna_language.Vm.Moves.{After, Moved, assign_slot-Moved, assign-Moved, read-Moved, bind-Moved}

-- The instructions that may go on elsewhere.
abbrev pub jumps : Opcode → Bool
jumps jump = true
jumps jump_if = true
jumps jump_if_not = true
jumps (cmp_jump _) = true
jumps is_nothing_jump = true
jumps _ = false

abbrev pub iterates : Opcode → Bool
iterates iter_setup = true
iterates iter_collect = true
iterates _ = false

-- Every instruction but the two of an iteration keeps the number of slots and of cached sources and
-- the frames, and goes to the next instruction or, if it jumps, to its destination.
pub perform-Moved :
    (m : Machine) (p : VmPacket) (op : Opcode) (ins : Instruction) (vm : Vm)
    → iterates op ≡ false
    → After (Moved (jumps op) ins.dest vm) (perform m p op ins vm)
unfolding perform get_ins load_ins append_ins
perform-Moved m p load_const ins vm h = load_value-Moved false ins.dest ins vm _
perform-Moved m p load_field ins vm h = copy_slot-Moved false ins.dest vm ins.dest ins.operand1
perform-Moved m p load_nothing ins vm h = assign-Moved false ins.dest vm ins.dest _ _
perform-Moved m p copy ins vm h = copy_slot-Moved false ins.dest vm ins.dest ins.operand1
perform-Moved m p (arithmetic op) ins vm h = computed-Moved false ins.dest p vm ins _
perform-Moved m p negate ins vm h = converted-Moved false ins.dest vm ins.dest ins.operand1 _
perform-Moved m p (compare op) ins vm h = tested-Moved false ins.dest vm ins _
perform-Moved m p (logic op) ins vm h = tested-Moved false ins.dest vm ins _
perform-Moved m p op_not ins vm h = unary-Moved false ins.dest vm ins.dest ins.operand1 _
perform-Moved m p str_concat ins vm h =
    computed-Moved false ins.dest p vm ins
      λ a b. done (val_string (val_to_str (doubles m) a ++ val_to_str (doubles m) b))
perform-Moved m p (is_kind k) ins vm h =
    unary-Moved false ins.dest vm ins.dest ins.operand1 λ a. done (is_of_kind k a)
perform-Moved m p to_string ins vm h =
    converted-Moved false ins.dest vm ins.dest ins.operand1
      λ a. done (val_string (val_to_str (doubles m) a))
perform-Moved m p to_int ins vm h = converted-Moved false ins.dest vm ins.dest ins.operand1 _
perform-Moved m p to_float ins vm h = converted-Moved false ins.dest vm ins.dest ins.operand1 _
perform-Moved m p to_bool ins vm h =
    unary-Moved false ins.dest vm ins.dest ins.operand1 λ a. done (vm_to_bool (doubles m) a)
perform-Moved m p record_new ins vm h = assign_slot-Moved false ins.dest vm ins.dest _
perform-Moved m p record_set ins vm h = read-Moved false ins.dest vm ins.dest _ λ rec.
    read-Moved false ins.dest vm ins.operand1 _
      λ key. set_ins-Moved false ins.dest _ vm ins.dest rec ins.operand2 key.value
perform-Moved m p record_get ins vm h =
    operands-Moved false ins.dest vm ins _
      λ rec key. assign_part-Moved false ins.dest vm ins.dest rec.tags _
perform-Moved m p record_has ins vm h = tested-Moved false ins.dest vm ins _
perform-Moved m p list_new ins vm h = assign_slot-Moved false ins.dest vm ins.dest _
perform-Moved m p list_append ins vm h = read-Moved false ins.dest vm ins.dest _ λ list.
    read-Moved false ins.dest vm ins.operand1 _
      λ v. append_value-Moved false ins.dest vm ins.dest list ins.operand1 v list.value
perform-Moved m p list_get ins vm h = operands-Moved false ins.dest vm ins _ λ a b.
    bind-Moved false ins.dest vm (vm_list_get a.value b.value) _
      λ v. assign_part-Moved false ins.dest vm ins.dest a.tags v
perform-Moved m p list_length ins vm h = read-Moved false ins.dest vm ins.operand1 _ λ s.
    bind-Moved false ins.dest vm (vm_list_length s.value) _
      λ n. assign-Moved false ins.dest vm ins.dest (some n) 0
perform-Moved m p jump ins vm h = record {
  slots = refl;
  frames = refl;
  sources = refl;
  pc_moves = inr (refl, refl);
}
perform-Moved m p jump_if ins vm h =
    read-Moved true ins.dest vm ins.operand1 _ λ s. go_on_if-Moved ins.dest vm (not (holds s.value))
perform-Moved m p jump_if_not ins vm h =
    read-Moved true ins.dest vm ins.operand1 _ λ s. go_on_if-Moved ins.dest vm (holds s.value)
perform-Moved m p coalesce ins vm h =
    read-Moved false ins.dest vm ins.operand1 _ λ a. copy_slot-Moved false ins.dest vm ins.dest _
perform-Moved m p iter_setup ins vm h = cc
perform-Moved m p iter_collect ins vm h = cc
perform-Moved m p stdlib_call ins vm h = call_ins-Moved false ins.dest m p or_nothing ins vm
perform-Moved m p tag_set ins vm h =
    read-Moved false ins.dest vm ins.dest _ λ s. assign_slot-Moved false ins.dest vm ins.dest _
perform-Moved m p tag_check ins vm h =
    read-Moved false ins.dest vm ins.operand1 _ λ s. assign-Moved false ins.dest vm ins.dest _ _
perform-Moved m p source_lookup ins vm h = read-Moved false ins.dest vm ins.operand2 _ λ keys.
    sourced-Moved false ins.dest vm ins.dest
      (vm_source_resolve (doubles m) m.files p.sources vm.source_cache ins.operand1 keys.value)
      (length-vm_source_resolve (doubles m) m.files p.sources vm.source_cache ins.operand1
        keys.value)
perform-Moved m p record_get_c ins vm h =
    read-Moved false ins.dest vm ins.operand1 _
      λ rec. assign_part-Moved false ins.dest vm ins.dest rec.tags _
perform-Moved m p record_set_c ins vm h =
    read-Moved false ins.dest vm ins.dest _
      λ rec. set_ins-Moved false ins.dest _ vm ins.dest rec ins.operand2 (constant p ins.operand1)
perform-Moved m p record_new_set_c ins vm h =
    new_set_ins-Moved false ins.dest vm ins.dest ins.operand2 (constant p ins.operand1)
perform-Moved m p stdlib_call_1 ins vm h = call_ins-Moved false ins.dest m p _ ins vm
perform-Moved m p (cmp_jump op) ins vm h =
    bind-Moved true ins.dest vm _ (go_on_if vm ins.dest) λ b. go_on_if-Moved ins.dest vm b
perform-Moved m p is_nothing_jump ins vm h =
    read-Moved true ins.dest vm ins.operand1 _ λ s. go_on_if-Moved ins.dest vm _
