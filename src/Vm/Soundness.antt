-- ===== src/Vm/Soundness.antt =====
-- The loop of `vm_execute` in src/vm.c over its rounds: ITER_SETUP, the switch, and runs of rounds.
use heluna_language.Common.{
  ℕ, suc, ◌+◌, ◌≤◌, ◌<◌, ◌≡◌, refl, ◌∙◌, false, ◌==◌, Option, none, some, List, length, get_elem?,
  arith, leb, ◌⊎◌, Bool-cases, inl, inr,
}
use heluna_language.Value.{HVal, HVals, val_list, no_items, item}
use heluna_language.Compiler.{Instruction}
use heluna_language.Packet.Assembly.{VmPacket}
use heluna_language.Vm.{
  Vm, IterMode, iter_map, iter_filter, iter_fold, iter_other, Outcome, slot, put, lend, assign,
  Opcode, iter_setup, iter_collect, decode,
}
use heluna_language.Vm.Moves.{
  After, After-done, After-bind, After-map, Moved, lend-Still, After-Still,
}
use heluna_language.Vm.Iteration.{
  iter_mode, iter_setup_ins, iter_begin, iter_push, iter_empty, finish_at, first_acc, the_list,
  the_collect, if_collect, vm_max_iter_depth,
}
use heluna_language.Vm.Invariant.{
  IsSound, Written, put-Written, slot-lt_length, Still-IsSound, share-IsSound, assign-IsSound,
  Moved-IsSound, iter_collect_ins-IsSound,
}
use heluna_language.Vm.Performs.{perform-Moved, jumps, iterates}
use heluna_language.Vm.Step.{Machine, perform, perform_known, step}

module _ (code : List Instruction) (n k : ℕ) where
  finish_at-IsSound :
      (collect_pc d : ℕ) (vm : Vm) (v : Option HVal)
      → IsSound code n k vm
      → After (IsSound code n k) (finish_at collect_pc d vm v)
  unfolding finish_at
  finish_at-IsSound collect_pc d vm v sound = After-bind _ (assign vm d v 0) _ λ vm' e.
      let sound' = After-done (IsSound code n k) _ e (assign-IsSound code n k vm d v 0 sound) in
      record {
        slots = sound'.slots;
        sources = sound'.sources;
        depth = sound'.depth;
        frames = sound'.frames;
      }

  iter_empty-IsSound :
      (mode : IterMode) (collect_pc : ℕ) (collect : Instruction) (vm : Vm)
      → IsSound code n k vm
      → After (IsSound code n k) (iter_empty mode collect_pc collect vm)
  unfolding iter_empty
  iter_empty-IsSound iter_fold collect_pc collect vm sound =
      share-IsSound code n k vm collect.operand1 _ sound
        λ vm' v still sound'. finish_at-IsSound collect_pc collect.dest vm' v sound'
  iter_empty-IsSound iter_map collect_pc collect vm sound =
      finish_at-IsSound collect_pc collect.dest vm _ sound
  iter_empty-IsSound iter_filter collect_pc collect vm sound =
      finish_at-IsSound collect_pc collect.dest vm _ sound
  iter_empty-IsSound iter_other collect_pc collect vm sound =
      finish_at-IsSound collect_pc collect.dest vm _ sound

  first_acc-IsSound :
      (mode : IterMode) (collect : Instruction) (vm : Vm) (f : Vm → Option HVal → Outcome Vm)
      → IsSound code n k vm
      → ((vm' : Vm) (v : Option HVal)
          → vm'.pc ≡ vm.pc
          → vm'.iter_stack ≡ vm.iter_stack
          → IsSound code n k vm'
          → After (IsSound code n k) (f vm' v))
      → After (IsSound code n k) (first_acc mode collect vm f)
  first_acc-IsSound iter_fold collect vm f sound h =
      share-IsSound code n k vm collect.operand1 f sound
        λ vm' v still sound'. h vm' v still.same_pc still.frames sound'
  first_acc-IsSound iter_map collect vm f sound h = h vm none refl refl sound
  first_acc-IsSound iter_filter collect vm f sound h = h vm none refl refl sound
  first_acc-IsSound iter_other collect vm f sound h = h vm none refl refl sound

  iter_push-IsSound :
      (mode : IterMode) (ins : Instruction) (collect_pc : ℕ) (collect : Instruction) (tags : ℕ)
      → (v : HVal) (vs : HVals) (vm : Vm) (acc : Option HVal) → IsSound code n k vm
      → get_elem? code collect_pc ≡ some collect
      → collect.opcode ≡ 0x91
      → suc vm.pc ≤ collect_pc
      → ins.operand1 < n
      → length vm.iter_stack < vm_max_iter_depth
      → After (IsSound code n k) (iter_push mode ins collect_pc collect tags v vs vm acc)
  unfolding iter_push
  iter_push-IsSound mode ins collect_pc collect tags v vs vm acc sound found is before inside room =
      After-bind (IsSound code n k) (put vm ins.dest _) _ λ vm' e.
        let (there, still) = After-done (Written vm ins.dest) _ e (put-Written vm ins.dest _) in
        record {
          slots = still.slots ∙ sound.slots;
          sources = still.sources ∙ sound.sources;
          depth = omega (arith, room);
          frames = (
            record {
              collect = collect;
              at_collect = found;
              is_collect = is;
              body_before = before;
              elem_inside = omega (arith, there, sound.slots);
              source_inside = inside;
            },
            sound.frames,
          );
        }

  iter_begin-IsSound :
      (ins : Instruction) (collect_pc : ℕ) (collect : Instruction) (tags : ℕ) (vm : Vm) (vs : HVals)
      → IsSound code n k vm
      → get_elem? code collect_pc ≡ some collect
      → collect.opcode ≡ 0x91
      → suc vm.pc ≤ collect_pc
      → ins.operand1 < n
      → After (IsSound code n k) (iter_begin ins collect_pc collect tags vm vs)
  unfolding iter_begin
  iter_begin-IsSound ins collect_pc collect tags vm no_items sound found is before inside =
      iter_empty-IsSound (iter_mode ins.flags) collect_pc collect vm sound
  iter_begin-IsSound ins collect_pc collect tags vm (item v vs) sound found is before inside =
      elim (Bool-cases (leb vm_max_iter_depth (length vm.iter_stack))) [
        | inl deep ↦ rw deep tt
        | inr room ↦ rw room (
            first_acc-IsSound (iter_mode ins.flags) collect vm _ sound λ vm' acc pc frames sound'.
              iter_push-IsSound (iter_mode ins.flags) ins collect_pc collect tags v vs vm' acc
                sound' found is (omega (arith, pc)) inside (rw frames (ground arith)))
      ]

  the_list-After :
      (v : Option HVal) (f : HVals → Outcome Vm)
      → ((vs : HVals) → After (IsSound code n k) (f vs))
      → After (IsSound code n k) (the_list v f)
  the_list-After (some (val_list vs)) f h = h vs
  the_list-After _ f h = tt

  if_collect-After :
      (o : Option Instruction) (f : Instruction → Outcome Vm)
      → ((collect : Instruction)
          → o ≡ some collect
          → collect.opcode ≡ 0x91
          → After (IsSound code n k) (f collect))
      → After (IsSound code n k) (if_collect o f)
  if_collect-After none f h = tt
  if_collect-After (some collect) f h = elim (Bool-cases (collect.opcode == 0x91)) [
    | inl is ↦ rw is (h collect refl (ground arith))
    | inr other ↦ rw other tt
  ]

  the_collect-After :
      (collect_pc : ℕ) (f : Instruction → Outcome Vm)
      → ((collect : Instruction)
          → get_elem? code collect_pc ≡ some collect
          → collect.opcode ≡ 0x91
          → After (IsSound code n k) (f collect))
      → After (IsSound code n k) (the_collect code collect_pc f)
  the_collect-After collect_pc f h =
      if_collect-After (get_elem? code collect_pc) f (λ collect e is. h collect e is)

  pub iter_setup_ins-IsSound :
      (ins : Instruction) (vm : Vm)
      → IsSound code n k vm
      → After (IsSound code n k) (iter_setup_ins code ins vm)
  unfolding iter_setup_ins
  iter_setup_ins-IsSound ins vm sound = After-bind _ (slot vm ins.operand1) _ λ source there.
      the_list-After source.value _ λ vs.
        the_collect-After (suc vm.pc + ins.operand2) _ λ collect found is.
          After-bind _ (lend vm ins.operand1) _ λ vm' e.
            let still = After-Still _ (lend-Still vm ins.operand1) e in
            iter_begin-IsSound ins (suc vm.pc + ins.operand2) collect source.tags vm' vs
              (Still-IsSound code n k still sound) found is (omega (arith, still.same_pc))
              (omega (arith, slot-lt_length vm ins.operand1 source there, sound.slots))

pub iterates-cases :
    (op : Opcode) → (op ≡ iter_setup) ⊎ ((op ≡ iter_collect) ⊎ (iterates op ≡ false))
iterates-cases iter_setup = inl refl
iterates-cases iter_collect = inr (inl refl)
iterates-cases _ = inr (inr refl)

perform-IsSound :
    (m : Machine) (p : VmPacket) (n k : ℕ) (op : Opcode) (ins : Instruction) (vm : Vm)
    → IsSound p.instructions n k vm
    → After (IsSound p.instructions n k) (perform m p op ins vm)
unfolding perform
perform-IsSound m p n k op ins vm sound = elim (iterates-cases op) [
  | inl e ↦ rw e (iter_setup_ins-IsSound p.instructions n k ins vm sound)
  | inr (inl e) ↦ rw e (iter_collect_ins-IsSound p.instructions n k vm sound)
  | inr (inr e) ↦
      After-map (Moved (jumps op) ins.dest vm) (IsSound p.instructions n k) (perform m p op ins vm)
        (λ vm' moved. Moved-IsSound p.instructions n k moved sound) (perform-Moved m p op ins vm e)
]

perform_known-IsSound :
    (m : Machine) (p : VmPacket) (n k : ℕ) (op : Option Opcode) (ins : Instruction) (vm : Vm)
    → IsSound p.instructions n k vm
    → After (IsSound p.instructions n k) (perform_known m p op ins vm)
unfolding perform_known
perform_known-IsSound m p n k none ins vm sound = tt
perform_known-IsSound m p n k (some op) ins vm sound = perform-IsSound m p n k op ins vm sound

-- Every round keeps a machine sound, whatever its instruction.
pub step-IsSound :
    (m : Machine) (p : VmPacket) (n k : ℕ) (ins : Instruction) (vm : Vm)
    → IsSound p.instructions n k vm
    → After (IsSound p.instructions n k) (step m p ins vm)
unfolding step
step-IsSound m p n k ins vm sound = perform_known-IsSound m p n k (decode ins.opcode) ins vm sound
