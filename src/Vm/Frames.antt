-- ===== src/Vm/Frames.antt =====
-- Where ITER_SETUP and ITER_COLLECT of src/vm.c go, and what they make of the iteration frames.
use heluna_language.Common.{
  ℕ, suc, ◌+◌, ◌<◌, ◌≡◌, refl, sym, ap, subst, ◌∙◌, false, inl, inr, Option, none, some, List, [],
  ◌∷◌, length, get_elem?, leb, arith, Bool-cases, ◌==◌,
}
use mathlib.Core.List.{map}
use heluna_language.Value.{HVal, HVals, val_list, no_items, item, count_items}
use heluna_language.Compiler.{Instruction}
use heluna_language.Vm.{
  Vm, VmIterFrame, IterMode, iter_map, iter_filter, iter_fold, iter_other, Outcome, slot, put, lend,
  assign,
}
use heluna_language.Vm.Values.{holds}
use heluna_language.Vm.Moves.{
  After, After-done, After-if, After-bind, After-map, Still, Moved, lend-Still, After-Still,
  share-After, assign-Moved,
}
use heluna_language.Vm.Iteration.{
  iter_mode, iter_setup_ins, iter_collect_ins, iter_begin, iter_push, iter_empty, iter_gather,
  iter_advance, iter_finish, gather_top, advance_top, finish_at, first_acc, the_list, if_collect,
  vm_max_iter_depth, missing_collect, share,
}
use heluna_language.Vm.Rounds.{Shape, Round, go_on, enter, again, leave}

abbrev pub shape : List VmIterFrame → Shape
shape = map (λ f. (f.body_start, count_items f.rest))

length-shape : (frames : List VmIterFrame) → length (shape frames) ≡ length frames
length-shape [] = refl
length-shape (f ∷ frames) = ap suc (length-shape frames)

-- A round, by what it makes of the frames and of `pc`.
abbrev pub Goes : Vm → Vm → Type 0
Goes vm vm' = Round (shape vm.iter_stack) vm.pc (shape vm'.iter_stack) vm'.pc

Goes-from :
    (vm vm' : Vm)
    → shape vm'.iter_stack ≡ shape vm.iter_stack
    → vm'.pc ≡ vm.pc
    → (vm'' : Vm) → Goes vm' vm''
    → Goes vm vm''
Goes-from vm vm' frames same vm'' goes =
    subst (λ t. Round t vm.pc (shape vm''.iter_stack) vm''.pc) frames
      (subst (λ t. Round (shape vm'.iter_stack) t (shape vm''.iter_stack) vm''.pc) same goes)

Still-Goes : {vm vm' : Vm} → Still vm vm' → (vm'' : Vm) → Goes vm' vm'' → Goes vm vm''
Still-Goes {vm} {vm'} still = Goes-from vm vm' (ap shape still.frames) still.same_pc

share-Goes :
    (vm : Vm) (i : ℕ) (f : Vm → Option HVal → Outcome Vm)
    → ((vm' : Vm) (v : Option HVal) → Still vm vm' → After (Goes vm') (f vm' v))
    → After (Goes vm) (share vm i f)
share-Goes vm i f h =
    share-After (Goes vm) vm i f
      λ vm' v still. After-map (Goes vm') (Goes vm) (f vm' v) (Still-Goes still) (h vm' v still)

finish_at-Goes :
    (collect_pc d : ℕ) (vm : Vm) (v : Option HVal)
    → vm.pc < collect_pc
    → After (Goes vm) (finish_at collect_pc d vm v)
unfolding finish_at
finish_at-Goes collect_pc d vm v lt = After-bind (Goes vm) (assign vm d v 0) _ λ vm' e.
    let moved = After-done (Moved false 0 vm) _ e (assign-Moved false 0 vm d v 0) in
    go_on (ap shape moved.frames) (omega (arith, lt))

iter_empty-Goes :
    (mode : IterMode) (collect_pc : ℕ) (collect : Instruction) (vm : Vm)
    → vm.pc < collect_pc
    → After (Goes vm) (iter_empty mode collect_pc collect vm)
unfolding iter_empty
iter_empty-Goes iter_fold collect_pc collect vm lt =
    share-Goes vm collect.operand1 _
      λ vm' v still. finish_at-Goes collect_pc collect.dest vm' v (omega (arith, still.same_pc))
iter_empty-Goes iter_map collect_pc collect vm lt = finish_at-Goes collect_pc collect.dest vm _ lt
iter_empty-Goes iter_filter collect_pc collect vm lt =
    finish_at-Goes collect_pc collect.dest vm _ lt
iter_empty-Goes iter_other collect_pc collect vm lt = finish_at-Goes collect_pc collect.dest vm _ lt

iter_push-Goes :
    (mode : IterMode) (ins : Instruction) (collect_pc : ℕ) (collect : Instruction) (tags : ℕ)
    → (v : HVal) (vs : HVals) (vm : Vm) (acc : Option HVal) → length vm.iter_stack < 8
    → After (Goes vm) (iter_push mode ins collect_pc collect tags v vs vm acc)
unfolding iter_push
iter_push-Goes mode ins collect_pc collect tags v vs vm acc room =
    After-bind (Goes vm) (put vm ins.dest _) _
      λ vm' _. enter (count_items vs) (omega (arith, length-shape vm.iter_stack)) refl refl

first_acc-Goes :
    (mode : IterMode) (collect : Instruction) (vm : Vm) (f : Vm → Option HVal → Outcome Vm)
    → ((vm' : Vm) (v : Option HVal) → vm'.iter_stack ≡ vm.iter_stack → After (Goes vm') (f vm' v))
    → After (Goes vm) (first_acc mode collect vm f)
first_acc-Goes iter_fold collect vm f h =
    share-Goes vm collect.operand1 f λ vm' v still. h vm' v still.frames
first_acc-Goes iter_map collect vm f h = h vm none refl
first_acc-Goes iter_filter collect vm f h = h vm none refl
first_acc-Goes iter_other collect vm f h = h vm none refl

iter_begin-Goes :
    (ins : Instruction) (collect_pc : ℕ) (collect : Instruction) (tags : ℕ) (vm : Vm) (vs : HVals)
    → vm.pc < collect_pc
    → After (Goes vm) (iter_begin ins collect_pc collect tags vm vs)
unfolding iter_begin
iter_begin-Goes ins collect_pc collect tags vm no_items lt =
    iter_empty-Goes (iter_mode ins.flags) collect_pc collect vm lt
iter_begin-Goes ins collect_pc collect tags vm (item v vs) lt =
    elim (Bool-cases (leb vm_max_iter_depth (length vm.iter_stack))) [
      | inl deep ↦ rw deep tt
      | inr room ↦ rw room (
          first_acc-Goes (iter_mode ins.flags) collect vm _ λ vm' acc frames.
            iter_push-Goes (iter_mode ins.flags) ins collect_pc collect tags v vs vm' acc
              (rw frames (ground arith)))
    ]

the_list-Goes :
    (vm : Vm) (v : Option HVal) (f : HVals → Outcome Vm)
    → ((vs : HVals) → After (Goes vm) (f vs))
    → After (Goes vm) (the_list v f)
the_list-Goes vm (some (val_list vs)) f h = h vs
the_list-Goes vm _ f h = tt

if_collect-Goes :
    (vm : Vm) (o : Option Instruction) (f : Instruction → Outcome Vm)
    → ((collect : Instruction) → After (Goes vm) (f collect))
    → After (Goes vm) (if_collect o f)
if_collect-Goes vm none f h = tt
if_collect-Goes vm (some collect) f h =
    After-if (Goes vm) (collect.opcode == 0x91) _ missing_collect (h collect) tt

pub iter_setup_ins-Goes :
    (code : List Instruction) (ins : Instruction) (vm : Vm)
    → After (Goes vm) (iter_setup_ins code ins vm)
unfolding iter_setup_ins
iter_setup_ins-Goes code ins vm = After-bind (Goes vm) (slot vm ins.operand1) _ λ source _.
    the_list-Goes vm source.value _ λ vs.
      if_collect-Goes vm (get_elem? code (suc vm.pc + ins.operand2)) _ λ collect.
        After-bind (Goes vm) (lend vm ins.operand1) _ λ vm' e.
          let still = After-Still _ (lend-Still vm ins.operand1) e in
          After-map (Goes vm') (Goes vm) _ (Still-Goes still) (
            iter_begin-Goes ins (suc vm.pc + ins.operand2) collect source.tags vm' vs
              (omega (arith, still.same_pc)))

-- What the body's result does to a frame leaves its way through the code.
Gathered : Vm → VmIterFrame → List VmIterFrame → Vm → Type 0
Gathered vm f frames vm' = (shape vm'.iter_stack ≡ shape (f ∷ frames)) × (vm'.pc ≡ vm.pc)

iter_gather-Gathered :
    (mode : IterMode) (vm : Vm) (f : VmIterFrame) (frames : List VmIterFrame)
    → vm.iter_stack ≡ f ∷ frames
    → After (Gathered vm f frames) (iter_gather mode vm f frames)
unfolding iter_gather Gathered
iter_gather-Gathered iter_map vm f frames e =
    share-After (Gathered vm f frames) vm f.slot_a _ λ vm' v still. (refl, still.same_pc)
iter_gather-Gathered iter_filter vm f frames e =
    After-bind (Gathered vm f frames) (slot vm f.slot_a) _ λ cond _.
      After-if (Gathered vm f frames) (holds cond.value) _ _
        (share-After (Gathered vm f frames) vm f.slot_b _ λ vm' v still. (refl, still.same_pc))
        (ap shape e, refl)
iter_gather-Gathered iter_fold vm f frames e =
    share-After (Gathered vm f frames) vm f.slot_a _ λ vm' v still. (refl, still.same_pc)
iter_gather-Gathered iter_other vm f frames e = (ap shape e, refl)

iter_finish-Moved :
    (mode : IterMode) (vm : Vm) (f : VmIterFrame) → After (Moved false 0 vm) (iter_finish mode vm f)
unfolding iter_finish
iter_finish-Moved iter_map vm f = assign-Moved false 0 vm f.result_dest _ 0
iter_finish-Moved iter_filter vm f = assign-Moved false 0 vm f.result_dest _ 0
iter_finish-Moved iter_fold vm f = assign-Moved false 0 vm f.result_dest _ 0
iter_finish-Moved iter_other vm f = record {
  slots = refl;
  frames = refl;
  sources = refl;
  pc_moves = inl (omega arith);
}

iter_advance-Goes :
    (vs : HVals) (vm : Vm) (f : VmIterFrame) (frames : List VmIterFrame)
    → f.rest ≡ vs
    → vm.iter_stack ≡ f ∷ frames
    → After (Goes vm) (iter_advance vs vm f frames)
unfolding iter_advance count_items
iter_advance-Goes no_items vm f frames e stack =
    let vm0 : Vm = record vm { iter_stack = frames } in
    After-map (Moved false 0 vm0) (Goes vm) (iter_finish f.mode vm0 f)
      (λ vm' moved.
        leave f.body_start (shape frames)
          (ap shape stack ∙ ap (λ t. (f.body_start, count_items t) ∷ shape frames) e)
          (ap shape moved.frames) (ground (arith, moved.pc_moves)))
      (iter_finish-Moved f.mode vm0 f)
iter_advance-Goes (item v vs) vm f frames e stack =
    After-bind (Goes vm) (slot vm f.source_slot) _ λ source _.
      After-bind (Goes vm) (put vm f.elem_slot _) _ λ vm' _.
        again f.body_start (count_items vs) (shape frames)
          (ap shape stack ∙ ap (λ t. (f.body_start, count_items t) ∷ shape frames) e) refl refl

-- Outside all iterations the machine just goes on.
advance_top-Goes :
    (vm : Vm) (stack : List VmIterFrame)
    → vm.iter_stack ≡ stack
    → After (Goes vm) (advance_top vm stack)
advance_top-Goes vm [] e = go_on refl (omega arith)
advance_top-Goes vm (f ∷ frames) e = iter_advance-Goes f.rest vm f frames refl e

gather_top-Goes :
    (vm : Vm) (stack : List VmIterFrame)
    → vm.iter_stack ≡ stack
    → After (Goes vm) (gather_top vm stack)
unfolding gather_top Gathered
gather_top-Goes vm [] e = go_on refl (omega arith)
gather_top-Goes vm (f ∷ frames) e =
    After-bind (Goes vm) (iter_gather f.mode vm f frames) _ λ vm' e'.
      let (same, at) =
        After-done (Gathered vm f frames) _ e' (iter_gather-Gathered f.mode vm f frames e) in
      After-map (Goes vm') (Goes vm) _ (Goes-from vm vm' (same ∙ ap shape (sym e)) at)
        (advance_top-Goes vm' vm'.iter_stack refl)

pub iter_collect_ins-Goes : (vm : Vm) → After (Goes vm) (iter_collect_ins vm)
unfolding iter_collect_ins
iter_collect_ins-Goes vm = gather_top-Goes vm vm.iter_stack refl
