-- ===== src/Tests/Machine.antt =====
-- The theorems on the machine's execution at concrete inputs, and runs of programs.
use heluna_language.Common.{
  true, ℕ, ◌+◌, ◌-◌, ◌*◌, ◌/◌, ◌%◌, ◌≡◌, refl, false, none, some, [], ◌∷◌, arith, ltb, leb, ◌==◌,
  codes, length, get_elem?, str_eq,
}
use heluna_language.Common.Int.{pos, nat_abs}
use heluna_language.Json.Numbers.{digits, read_digits}
use heluna_language.Value.{
  Doubles, HVal, val_integer, val_record, val_list, no_fields, field, no_items, item, field_get,
  val_boolean,
}
use heluna_language.Compiler.{Instruction}
use heluna_language.Compiler.Peephole.{fuse_compare, fuse_nothing, is_jump_target, is_jump}
use heluna_language.Evaluator.Equal.{Host}
use heluna_language.Evaluator.State.{EvalState}
use heluna_language.Evaluator.Operators.{binary_op}
use heluna_language.Ast.{bin_div, bin_lt}
use heluna_language.Packet.Contract.{VmContract}
use heluna_language.Packet.Assembly.{VmPacket}
use heluna_language.Vm.{Vm, VmSlot, iter_map, done, ◌>>=◌, op_div, op_lt, decode, vm_init, compare}
use heluna_language.Vm.Values.{vm_arith, vm_compare}
use heluna_language.Vm.Step.{Machine, step}
use heluna_language.Vm.Iteration.{iter_setup_ins}
use heluna_language.Vm.Execute.{start, sp_size}
use heluna_language.Vm.Invariant.{IsSound}
use heluna_language.Vm.Runs.{at_start, round, Reaches-IsSound}
use heluna_language.Vm.Agreement.{Agrees, boolean, vm_arith-binary_op, vm_compare-binary_op}
use heluna_language.Vm.Pairs.{Simulates}
use heluna_language.Vm.Kinds.{result_kinds, Gives, step-Gives}
use heluna_language.Vm.Fusion.{fuse_compare-Simulates, fuse_nothing-Simulates}

abbrev naturals : Doubles
naturals = record {
  add = λ a b. a + b;
  sub = λ a b. a - b;
  mul = λ a b. a * b;
  div = λ a b. a / b;
  neg = λ a. a;
  fabs = λ a. a;
  fmax = λ a b. a + b;
  eqb = λ a b. a == b;
  ltb = λ a b. ltb a b;
  leb = λ a b. leb a b;
  zero = 0;
  tolerance = 0;
  of_int = nat_abs;
  to_int = λ a. some (pos a);
  strtod = read_digits 0;
  print_g = λ a. digits (a + 1) a;
  print_17g = λ a. digits (a + 1) a;
}

abbrev host : Host
host = record { doubles = naturals; same_object = λ a b. false }

abbrev machine : Machine
machine = record {
  surroundings = record {
    host = host;
    rounding = record { ceil = λ a. a; floor = λ a. a; round = λ a. a };
    others = λ id. none;
  };
  fmod = λ a b. a % b;
  files = λ path. none;
}

abbrev ins : ℕ → ℕ → ℕ → ℕ → ℕ → Instruction
ins opcode flags dest operand1 operand2 = record {
  opcode = opcode;
  flags = flags;
  dest = dest;
  operand1 = operand1;
  operand2 = operand2;
}

abbrev contract : VmContract
contract = record {
  name = codes "doubled";
  scratchpad_size = 4;
  tag_defs = [];
  input_fields =
      record { name = codes "xs"; type_id = 5; tag_bits = 2; scratchpad_offset = 0 } ∷ [];
  output_fields = [];
  sanitizers = [];
  rules = [];
}

-- map xs as x do x + x, with the list in slot 0, x in slot 1 and the result in slot 3.
abbrev doubled : VmPacket
doubled = record {
  contract = contract;
  constants = [];
  stdlib_deps = [];
  instructions = ins 0x90 0 1 0 1 ∷ ins 0x10 0 2 1 1 ∷ ins 0x91 0 3 2 0 ∷ [];
  sources = [];
}

abbrev numbers : HVal
numbers = val_list (item (val_integer (pos 3)) (item (val_integer (pos 4)) no_items))

abbrev input : HVal
input = val_record (field (codes "xs") numbers no_fields)

-- The state behind ITER_SETUP.
abbrev element : ℕ → HVal
element n = val_integer (pos n)

abbrev filled : HVal → ℕ → VmSlot
filled v tags = record { value = some v; tags = tags; owned = false }

abbrev empty : VmSlot
empty = record { value = none; tags = 0; owned = false }

abbrev inside : Vm
inside = record {
  scratchpad = filled numbers 2 ∷ filled (element 3) 2 ∷ empty ∷ empty ∷ [];
  iter_stack =
      record {
        mode = iter_map;
        rest = item (element 4) no_items;
        elem_slot = 1;
        source_slot = 0;
        body_start = 1;
        collect_pc = 2;
        result_dest = 3;
        slot_a = 2;
        slot_b = 0;
        result = no_items;
        acc = none;
      }
      ∷ [];
  source_cache = [];
  result_slot = 0;
  pc = 1;
}

inside_reached :
    step machine doubled (ins 0x90 0 1 0 1) (start doubled (vm_init doubled) (some input))
    ≡ done inside
unfolding step start vm_init iter_setup_ins field_get str_eq
inside_reached = refl

Reaches-IsSound_example :
    IsSound doubled.instructions (sp_size doubled.contract) (length doubled.sources) inside
unfolding start vm_init
Reaches-IsSound_example =
    Reaches-IsSound machine doubled (some input)
      (round at_start (ins 0x90 0 1 0 1) refl inside_reached)

-- LT of slots 0 and 1 into slot 2, and JUMP_IF_NOT on slot 2.
abbrev less : Instruction
less = ins 0x22 0 2 0 1

abbrev unless : Instruction
unless = ins 0x82 0 7 2 0

abbrev compares : Vm
compares = record inside {
  scratchpad = filled (element 3) 0 ∷ filled (element 4) 0 ∷ empty ∷ [];
  iter_stack = [];
}

fuse_compare-Simulates_example :
    (f : Instruction) × (get_elem? (fuse_compare (less ∷ unless ∷ []) 0) 0 ≡ some f)
    × Simulates compares 2 7 false
        (step machine doubled less compares >>= step machine doubled unless)
        (step machine doubled f compares)
unfolding is_jump_target is_jump
fuse_compare-Simulates_example =
    fuse_compare-Simulates machine doubled (less ∷ unless ∷ []) 0 op_lt less unless compares refl
      refl refl refl refl refl (omega arith)

-- IS_NOTHING of slot 0 into slot 2, and JUMP_IF on slot 2.
abbrev missing : Instruction
missing = ins 0x54 0 2 0 0

abbrev when : Instruction
when = ins 0x81 0 7 2 0

fuse_nothing-Simulates_example :
    (f : Instruction) × (get_elem? (fuse_nothing (missing ∷ when ∷ []) 0) 0 ≡ some f)
    × Simulates compares 2 7 true
        (step machine doubled missing compares >>= step machine doubled when)
        (step machine doubled f compares)
unfolding is_jump_target is_jump
fuse_nothing-Simulates_example =
    fuse_nothing-Simulates machine doubled (missing ∷ when ∷ []) 0 missing when compares refl refl
      refl refl refl refl (omega arith)

abbrev idle : EvalState
idle = record { env = []; env_capacity = 0; input_record = none; had_error = false; error = [] }

vm_arith-binary_op_example :
    Agrees
      (binary_op host bin_div (element 7) (element 2) idle)
      (vm_arith naturals machine.fmod op_div (some (element 7)) (some (element 2)))
vm_arith-binary_op_example =
    vm_arith-binary_op host machine.fmod op_div (element 7) (element 2) idle (λ n. refl) refl

vm_compare-binary_op_example :
    Agrees
      (binary_op host bin_lt (element 7) (element 9) idle)
      (boolean (vm_compare host op_lt (some (element 7)) (some (element 9))))
vm_compare-binary_op_example =
    vm_compare-binary_op host op_lt (element 7) (element 9) idle (refl, refl, refl, refl)

-- Behind LT.
abbrev less_done : Vm
less_done = record compares {
  scratchpad = filled (element 3) 0 ∷ filled (element 4) 0 ∷ filled (val_boolean true) 0 ∷ [];
  result_slot = 2;
  pc = 2;
}

less_runs : step machine doubled less compares ≡ done less_done
unfolding step vm_compare
less_runs = refl

step-Gives_example : Gives (result_kinds (compare op_lt)) 2 less_done
unfolding decode
step-Gives_example =
    step-Gives machine doubled (compare op_lt) less compares less_done refl less_runs
