-- ===== src/Vm/Iteration.antt =====
-- ITER_SETUP and ITER_COLLECT of `vm_execute` in src/vm.c.
use heluna_language.Common.{
  ℕ, suc, ◌+◌, ◌%◌, Bool, Option, none, some, List, [], ◌∷◌, leb, ◌==◌, if◌then◌else◌, codes,
  length, get_elem?,
}
use heluna_language.Value.{HVal, HVals, val_list, no_items, item}
use heluna_language.Compiler.{Instruction}
use heluna_language.Vm.{
  Vm, VmIterFrame, IterMode, iter_map, iter_filter, iter_fold, iter_other, Outcome, done, failed,
  ◌>>=◌, slot, put, lend, assign, next,
}
use heluna_language.Vm.Values.{holds}
use heluna_language.Vm.Conversions.{or_nothing, append_item}

abbrev pub vm_max_iter_depth : ℕ
vm_max_iter_depth = 8

abbrev pub iter_mode : ℕ → IterMode
iter_mode flags =
    if flags % 4 == 0
    then iter_map
    else if flags % 4 == 1
    then iter_filter
    else if flags % 4 == 2
    then iter_fold
    else iter_other

-- The value of slot `i`, to which something else has a pointer from here on.
abbrev pub share : Vm → ℕ → (Vm → Option HVal → Outcome Vm) → Outcome Vm
share vm i f = do s ← slot vm i; vm' ← lend vm i; f vm' s.value

-- Over an empty list the result is stored at once, and the machine goes on behind ITER_COLLECT.
unfoldable pub finish_at : ℕ → ℕ → Vm → Option HVal → Outcome Vm
unfolding assign
finish_at collect_pc d vm v = do vm' ← assign vm d v 0; done (record vm' { pc = suc collect_pc })

unfoldable pub iter_empty : IterMode → ℕ → Instruction → Vm → Outcome Vm
unfolding finish_at
iter_empty iter_fold collect_pc collect vm =
    share vm collect.operand1 (finish_at collect_pc collect.dest)
iter_empty _ collect_pc collect vm = finish_at collect_pc collect.dest vm (some (val_list no_items))

-- The first accumulator, which only a fold has.
abbrev pub first_acc : IterMode → Instruction → Vm → (Vm → Option HVal → Outcome Vm) → Outcome Vm
first_acc iter_fold collect vm f = share vm collect.operand1 f
first_acc _ collect vm f = f vm none

-- The frame is pushed, and its first element placed.
unfoldable pub iter_push :
    IterMode → Instruction → ℕ → Instruction → ℕ → HVal → HVals → Vm → Option HVal → Outcome Vm
unfolding put
iter_push mode ins collect_pc collect tags v vs vm acc = do
  vm' ← put vm ins.dest (record { value = some v; tags = tags; owned = Bool.false })
  done (record vm' {
    iter_stack =
        record {
          mode = mode;
          rest = vs;
          elem_slot = ins.dest;
          source_slot = ins.operand1;
          body_start = suc vm.pc;
          collect_pc = collect_pc;
          result_dest = collect.dest;
          slot_a = collect.operand1;
          slot_b = collect.operand2;
          result = no_items;
          acc = acc;
        }
        ∷ vm.iter_stack;
    pc = suc vm.pc;
  })

unfoldable pub iter_begin : Instruction → ℕ → Instruction → ℕ → Vm → HVals → Outcome Vm
unfolding iter_empty iter_push
iter_begin ins collect_pc collect tags vm no_items =
    iter_empty (iter_mode ins.flags) collect_pc collect vm
iter_begin ins collect_pc collect tags vm (item v vs) =
    if leb vm_max_iter_depth (length vm.iter_stack)
    then failed (codes "ITER_SETUP: iteration nesting too deep")
    else first_acc (iter_mode ins.flags) collect vm
        (iter_push (iter_mode ins.flags) ins collect_pc collect tags v vs)

-- The list of the source slot, and the ITER_COLLECT behind the body.
abbrev pub the_list : Option HVal → (HVals → Outcome Vm) → Outcome Vm
the_list (some (val_list vs)) f = f vs
the_list _ f = failed (codes "ITER_SETUP: source is not a list")

abbrev pub missing_collect : Outcome Vm
missing_collect = failed (codes "ITER_SETUP: missing ITER_COLLECT")

abbrev pub if_collect : Option Instruction → (Instruction → Outcome Vm) → Outcome Vm
if_collect none f = missing_collect
if_collect (some collect) f = if collect.opcode == 0x91 then f collect else missing_collect

abbrev pub the_collect : List Instruction → ℕ → (Instruction → Outcome Vm) → Outcome Vm
the_collect code collect_pc f = if_collect (get_elem? code collect_pc) f

unfoldable pub iter_setup_ins : List Instruction → Instruction → Vm → Outcome Vm
unfolding iter_begin slot lend
iter_setup_ins code ins vm = do
  source ← slot vm ins.operand1
  the_list source.value λ vs. the_collect code (suc vm.pc + ins.operand2) λ collect.
      lend vm ins.operand1 >>= λ vm'.
      iter_begin ins (suc vm.pc + ins.operand2) collect source.tags vm' vs

abbrev pub with_top : Vm → VmIterFrame → List VmIterFrame → Vm
with_top vm frame frames = record vm { iter_stack = frame ∷ frames }

abbrev pub collected : Vm → VmIterFrame → List VmIterFrame → Option HVal → Outcome Vm
collected vm frame frames v =
    done (with_top vm (record frame { result = append_item frame.result (or_nothing v) }) frames)

-- The result of the body goes into the frame.
unfoldable pub iter_gather : IterMode → Vm → VmIterFrame → List VmIterFrame → Outcome Vm
unfolding append_item
iter_gather iter_map vm frame frames = share vm frame.slot_a (λ vm' v. collected vm' frame frames v)
iter_gather iter_filter vm frame frames = do
  cond ← slot vm frame.slot_a
  if holds cond.value
      then share vm frame.slot_b (λ vm' v. collected vm' frame frames v)
      else done vm
iter_gather iter_fold vm frame frames =
    share vm frame.slot_a (λ vm' v. done (with_top vm' (record frame { acc = v }) frames))
iter_gather iter_other vm frame frames = done vm

-- The frame is popped, and its result stored.
unfoldable pub iter_finish : IterMode → Vm → VmIterFrame → Outcome Vm
unfolding assign
iter_finish iter_fold vm frame = assign vm frame.result_dest (some (or_nothing frame.acc)) 0
iter_finish iter_other vm frame = done (next (record vm { result_slot = frame.result_dest }))
iter_finish _ vm frame = assign vm frame.result_dest (some (val_list frame.result)) 0

unfoldable pub iter_advance : HVals → Vm → VmIterFrame → List VmIterFrame → Outcome Vm
unfolding iter_finish put
iter_advance no_items vm frame frames =
    iter_finish frame.mode (record vm { iter_stack = frames }) frame
iter_advance (item v vs) vm frame frames = do
  source ← slot vm frame.source_slot
  vm' ← put vm frame.elem_slot (record { value = some v; tags = source.tags; owned = Bool.false })
  done (record vm' { iter_stack = record frame { rest = vs } ∷ frames; pc = frame.body_start })

abbrev pub advance_top : Vm → List VmIterFrame → Outcome Vm
advance_top vm [] = done (next vm)
advance_top vm (frame ∷ frames) = iter_advance frame.rest vm frame frames

unfoldable pub gather_top : Vm → List VmIterFrame → Outcome Vm
unfolding iter_gather iter_advance
gather_top vm [] = done (next vm)
gather_top vm (frame ∷ frames) = do
  vm' ← iter_gather frame.mode vm frame frames
  advance_top vm' vm'.iter_stack

-- Outside an iteration ITER_COLLECT does nothing.
unfoldable pub iter_collect_ins : Vm → Outcome Vm
unfolding gather_top
iter_collect_ins vm = gather_top vm vm.iter_stack
