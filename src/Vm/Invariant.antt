-- ===== src/Vm/Invariant.antt =====
-- The machine's state between two rounds of the loop of `vm_execute` in src/vm.c.
use heluna_language.Common.{
  ℕ, zero, suc, ◌≤◌, ◌<◌, ◌≡◌, refl, ap, ◌∙◌, Bool, false, Option, some, List, [], ◌∷◌, length,
  get_elem?, arith, All,
}
use heluna_language.Value.{HVal, HVals, no_items, item}
use heluna_language.Compiler.{Instruction}
use heluna_language.Vm.{
  Vm, VmSlot, VmIterFrame, IterMode, iter_map, iter_filter, iter_fold, iter_other, Outcome, done,
  slot, put, assign, some_or_undefined,
}
use heluna_language.Vm.Values.{holds}
use heluna_language.Vm.Moves.{
  After, After-done, After-if, After-bind, After-map, Still, Moved, share-After, put-After,
  put-Still, After-Still, assign-Moved,
}
use heluna_language.Vm.Iteration.{
  iter_collect_ins, iter_gather, iter_advance, iter_finish, gather_top, advance_top, with_top,
  share, vm_max_iter_depth,
}

-- A frame whose body, in the code, lies in front of its ITER_COLLECT, and whose two slots are among
-- the `n` of the scratchpad.
pub record IsFrame (code : List Instruction) (n : ℕ) (f : VmIterFrame) : Type 0 where
  pub collect : Instruction
  pub at_collect : get_elem? code f.collect_pc ≡ some collect
  pub is_collect : collect.opcode ≡ 0x91
  pub body_before : f.body_start ≤ f.collect_pc
  pub elem_inside : f.elem_slot < n
  pub source_inside : f.source_slot < n

-- The scratchpad has `n` slots and the cache `k` entries, at most VM_MAX_ITER_DEPTH frames are in
-- use, and each of them is sound.
pub record IsSound (code : List Instruction) (n k : ℕ) (vm : Vm) : Type 0 where
  pub slots : length vm.scratchpad ≡ n
  pub sources : length vm.source_cache ≡ k
  pub depth : length vm.iter_stack ≤ vm_max_iter_depth
  pub frames : All (IsFrame code n) vm.iter_stack

get_elem?-lt_length :
    (xs : List VmSlot) (i : ℕ) (s : VmSlot)
    → some_or_undefined (get_elem? xs i) ≡ done s
    → i < length xs
get_elem?-lt_length [] i s h = cc
get_elem?-lt_length (x ∷ xs) zero s h = omega arith
get_elem?-lt_length (x ∷ xs) (suc i) s h = omega (arith, get_elem?-lt_length xs i s h)

pub slot-lt_length : (vm : Vm) (i : ℕ) (s : VmSlot) → slot vm i ≡ done s → i < length vm.scratchpad
unfolding slot
slot-lt_length vm i s e = get_elem?-lt_length vm.scratchpad i s e

-- A write that is done was to a slot of the scratchpad.
abbrev pub Written : Vm → ℕ → Vm → Type 0
Written vm i vm' = (i < length vm.scratchpad) × Still vm vm'

pub put-Written : (vm : Vm) (i : ℕ) (s : VmSlot) → After (Written vm i) (put vm i s)
put-Written vm i s =
    put-After (Written vm i) vm i s (λ vm' old e still. (slot-lt_length vm i old e, still))

module _ (code : List Instruction) (n k : ℕ) where
  -- A frame is sound by these four of its fields.
  IsFrame-same :
      (f g : VmIterFrame)
      → IsFrame code n f
      → g.collect_pc ≡ f.collect_pc
      → g.body_start ≡ f.body_start
      → g.elem_slot ≡ f.elem_slot
      → g.source_slot ≡ f.source_slot
      → IsFrame code n g
  IsFrame-same f g frame a b c d = record {
    collect = frame.collect;
    at_collect = ap (get_elem? code) a ∙ frame.at_collect;
    is_collect = frame.is_collect;
    body_before = omega (arith, frame.body_before);
    elem_inside = omega (arith, frame.elem_inside);
    source_inside = omega (arith, frame.source_inside);
  }

  pub Still-IsSound : {vm vm' : Vm} → Still vm vm' → IsSound code n k vm → IsSound code n k vm'
  Still-IsSound still sound = record {
    slots = still.slots ∙ sound.slots;
    sources = still.sources ∙ sound.sources;
    depth = rw still.frames sound.depth;
    frames = rw still.frames sound.frames;
  }

  pub Moved-IsSound :
      {j : Bool} {d : ℕ} {vm vm' : Vm}
      → Moved j d vm vm'
      → IsSound code n k vm
      → IsSound code n k vm'
  Moved-IsSound moved sound = record {
    slots = moved.slots ∙ sound.slots;
    sources = moved.sources ∙ sound.sources;
    depth = rw moved.frames sound.depth;
    frames = rw moved.frames sound.frames;
  }

  pub share-IsSound :
      (vm : Vm) (i : ℕ) (f : Vm → Option HVal → Outcome Vm)
      → IsSound code n k vm
      → ((vm' : Vm) (v : Option HVal)
          → Still vm vm'
          → IsSound code n k vm'
          → After (IsSound code n k) (f vm' v))
      → After (IsSound code n k) (share vm i f)
  share-IsSound vm i f sound h =
      share-After (IsSound code n k) vm i f λ vm' v still. h vm' v still (Still-IsSound still sound)

  pub assign-IsSound :
      (vm : Vm) (i : ℕ) (v : Option HVal) (tags : ℕ)
      → IsSound code n k vm
      → After (IsSound code n k) (assign vm i v tags)
  assign-IsSound vm i v tags sound =
      After-map (Moved false 0 vm) (IsSound code n k) (assign vm i v tags)
        (λ vm' m. Moved-IsSound m sound) (assign-Moved false 0 vm i v tags)

  -- ITER_COLLECT takes the elements of a sound frame, and drops it when they are used up.
  iter_finish-IsSound :
      (mode : IterMode) (vm : Vm) (f : VmIterFrame)
      → IsSound code n k vm
      → After (IsSound code n k) (iter_finish mode vm f)
  unfolding iter_finish
  iter_finish-IsSound iter_map vm f sound = assign-IsSound vm f.result_dest _ 0 sound
  iter_finish-IsSound iter_filter vm f sound = assign-IsSound vm f.result_dest _ 0 sound
  iter_finish-IsSound iter_fold vm f sound = assign-IsSound vm f.result_dest _ 0 sound
  iter_finish-IsSound iter_other vm f sound = record {
    slots = sound.slots;
    sources = sound.sources;
    depth = sound.depth;
    frames = sound.frames;
  }

  with_top-IsSound :
      (vm : Vm) (f : VmIterFrame) (frames : List VmIterFrame)
      → IsSound code n k vm
      → suc (length frames) ≤ vm_max_iter_depth
      → IsFrame code n f
      → All (IsFrame code n) frames
      → IsSound code n k (with_top vm f frames)
  with_top-IsSound vm f frames sound d top below = record {
    slots = sound.slots;
    sources = sound.sources;
    depth = d;
    frames = (top, below);
  }

  iter_gather-IsSound :
      (mode : IterMode) (vm : Vm) (f : VmIterFrame) (frames : List VmIterFrame)
      → IsSound code n k vm
      → suc (length frames) ≤ vm_max_iter_depth
      → IsFrame code n f
      → All (IsFrame code n) frames
      → After (IsSound code n k) (iter_gather mode vm f frames)
  unfolding iter_gather
  iter_gather-IsSound iter_map vm f frames sound d top below =
      share-IsSound vm f.slot_a _ sound λ vm' v still sound'.
        with_top-IsSound vm' _ frames sound' d (IsFrame-same f _ top refl refl refl refl) below
  iter_gather-IsSound iter_filter vm f frames sound d top below =
      After-bind _ (slot vm f.slot_a) _ λ cond _.
        After-if (IsSound code n k) (holds cond.value) _ _
          (share-IsSound vm f.slot_b _ sound λ vm' v still sound'.
            with_top-IsSound vm' _ frames sound' d (IsFrame-same f _ top refl refl refl refl) below)
          sound
  iter_gather-IsSound iter_fold vm f frames sound d top below =
      share-IsSound vm f.slot_a _ sound λ vm' v still sound'.
        with_top-IsSound vm' _ frames sound' d (IsFrame-same f _ top refl refl refl refl) below
  iter_gather-IsSound iter_other vm f frames sound d top below = sound

  iter_advance-IsSound :
      (vs : HVals) (vm : Vm) (f : VmIterFrame) (frames : List VmIterFrame)
      → IsSound code n k vm
      → suc (length frames) ≤ vm_max_iter_depth
      → IsFrame code n f
      → All (IsFrame code n) frames
      → After (IsSound code n k) (iter_advance vs vm f frames)
  unfolding iter_advance
  iter_advance-IsSound no_items vm f frames sound d top below =
      iter_finish-IsSound f.mode (record vm { iter_stack = frames }) f
        (record {
          slots = sound.slots;
          sources = sound.sources;
          depth = omega (arith, d);
          frames = below;
        })
  iter_advance-IsSound (item v vs) vm f frames sound d top below =
      After-bind _ (slot vm f.source_slot) _ λ source _.
        After-bind _ (put vm f.elem_slot _) _ λ vm' e.
          let still = After-Still _ (put-Still vm f.elem_slot _) e in
          record {
            slots = still.slots ∙ sound.slots;
            sources = still.sources ∙ sound.sources;
            depth = d;
            frames = (IsFrame-same f _ top refl refl refl refl, below);
          }

  -- The frames of a sound machine.
  stack_parts :
      (vm : Vm) (f : VmIterFrame) (frames : List VmIterFrame)
      → vm.iter_stack ≡ f ∷ frames
      → IsSound code n k vm
      → (suc (length frames) ≤ vm_max_iter_depth) × IsFrame code n f × All (IsFrame code n) frames
  stack_parts vm f frames e sound =
      let both : All (IsFrame code n) (f ∷ frames) = rw e at sound.frames in
      (rw e at sound.depth, both.0, both.1)

  advance_top-IsSound :
      (vm : Vm) (stack : List VmIterFrame)
      → vm.iter_stack ≡ stack
      → IsSound code n k vm
      → After (IsSound code n k) (advance_top vm stack)
  advance_top-IsSound vm [] e sound = record {
    slots = sound.slots;
    sources = sound.sources;
    depth = sound.depth;
    frames = sound.frames;
  }
  advance_top-IsSound vm (f ∷ frames) e sound =
      let (d, top, below) = stack_parts vm f frames e sound in
      iter_advance-IsSound f.rest vm f frames sound d top below

  gather_top-IsSound :
      (vm : Vm) (stack : List VmIterFrame)
      → vm.iter_stack ≡ stack
      → IsSound code n k vm
      → After (IsSound code n k) (gather_top vm stack)
  unfolding gather_top
  gather_top-IsSound vm [] e sound = record {
    slots = sound.slots;
    sources = sound.sources;
    depth = sound.depth;
    frames = sound.frames;
  }
  gather_top-IsSound vm (f ∷ frames) e sound =
      let (d, top, below) = stack_parts vm f frames e sound in
      After-bind _ (iter_gather f.mode vm f frames) _ λ vm' e'.
        advance_top-IsSound vm' vm'.iter_stack refl (
          After-done (IsSound code n k) _ e'
            (iter_gather-IsSound f.mode vm f frames sound d top below))

  pub iter_collect_ins-IsSound :
      (vm : Vm) → IsSound code n k vm → After (IsSound code n k) (iter_collect_ins vm)
  unfolding iter_collect_ins
  iter_collect_ins-IsSound vm sound = gather_top-IsSound vm vm.iter_stack refl sound
