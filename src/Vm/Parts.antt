-- ===== src/Vm/Parts.antt =====
-- What the parts of an instruction of src/vm.c outside the iterations leave as it is.
use Prim.Native.Nat.{bit_or}
use heluna_language.Common.{
  ℕ, ◌≡◌, ◌∙◌, refl, List, length, Bool, true, false, ◌==◌, inl, inr, Option, none, some, arith,
  Bytes,
}
use heluna_language.Value.{
  HVal, HFields, HVals, val_string, val_boolean, val_nothing, val_record, val_list,
}
use heluna_language.Compiler.{Instruction}
use heluna_language.Packet.Assembly.{VmPacket}
use heluna_language.Stdlib.{Called, value, error}
use heluna_language.Vm.{Vm, VmSlot, Outcome, beyond, assign}
use heluna_language.Vm.Conversions.{or_nothing}
use heluna_language.Vm.Library.{vm_stdlib_call}
use heluna_language.Vm.Step.{
  Machine, copy_slot, call_ins, propagate_tags, called, go_on_if, sourced, load_value, operands,
  unary, converted, tested, computed,
}
use heluna_language.Vm.Containers.{
  set_ins, new_set_ins, set_in_record, set_key, set_value, the_key, append_in_list, append_value,
  the_value, assign_part,
}
use heluna_language.Vm.Moves.{
  After, Moved, assign_slot-Moved, assign-Moved, read-Moved, share-Moved, bind-Moved, if-Moved,
  After-map,
}

module _ (j : Bool) (d : ℕ) where
  pub copy_slot-Moved : (vm : Vm) (i o : ℕ) → After (Moved j d vm) (copy_slot vm i o)
  unfolding copy_slot
  copy_slot-Moved vm i o =
      read-Moved j d vm o _ λ s. share-Moved j d vm o _ λ vm' v. assign-Moved j d vm' i v s.tags

  pub assign_part-Moved :
      (vm : Vm) (i tags : ℕ) (v : Option HVal) → After (Moved j d vm) (assign_part vm i tags v)
  unfolding assign_part
  assign_part-Moved vm i tags none = assign-Moved j d vm i (some val_nothing) 0
  assign_part-Moved vm i tags (some v) = assign-Moved j d vm i (some v) tags

  pub the_value-Moved :
      (vm : Vm) (v : Option HVal) (f : HVal → Outcome Vm)
      → ((x : HVal) → After (Moved j d vm) (f x))
      → After (Moved j d vm) (the_value v f)
  the_value-Moved vm none f h = tt
  the_value-Moved vm (some x) f h = h x

  pub set_in_record-Moved :
      (vm : Vm) (i : ℕ) (rec : VmSlot) (o : ℕ) (v : VmSlot) (fs : HFields) (key : Bytes)
      → After (Moved j d vm) (set_in_record vm i rec o v fs key)
  unfolding set_in_record
  set_in_record-Moved vm i rec o v fs key =
      if-Moved j d vm rec.owned _ beyond
        (if-Moved j d vm (i == o) beyond _ tt (
          share-Moved j d vm o _
            λ vm' w. the_value-Moved vm' w _ λ x. assign_slot-Moved j d vm' i _))
        tt

  pub set_key-Moved :
      (name : Bytes) (vm : Vm) (i : ℕ) (rec : VmSlot) (o : ℕ) (v : VmSlot) (fs : HFields)
      → (key : Option HVal) → After (Moved j d vm) (set_key name vm i rec o v fs key)
  unfolding set_key
  set_key-Moved name vm i rec o v fs (some (val_string key)) =
      set_in_record-Moved vm i rec o v fs key
  set_key-Moved name vm i rec o v fs _ = tt

  pub set_value-Moved :
      (name : Bytes) (vm : Vm) (i : ℕ) (rec : VmSlot) (o : ℕ) (v : VmSlot) (key r : Option HVal)
      → After (Moved j d vm) (set_value name vm i rec o v key r)
  unfolding set_value
  set_value-Moved name vm i rec o v key (some (val_record fs)) =
      set_key-Moved name vm i rec o v fs key
  set_value-Moved name vm i rec o v key _ = tt

  pub set_ins-Moved :
      (name : Bytes) (vm : Vm) (i : ℕ) (rec : VmSlot) (o : ℕ) (key : Option HVal)
      → After (Moved j d vm) (set_ins name vm i rec o key)
  unfolding set_ins
  set_ins-Moved name vm i rec o key =
      read-Moved j d vm o _ λ v. set_value-Moved name vm i rec o v key rec.value

  pub the_key-Moved :
      (vm : Vm) (key : Option HVal) (f : Bytes → Outcome Vm)
      → ((k : Bytes) → After (Moved j d vm) (f k))
      → After (Moved j d vm) (the_key key f)
  unfolding the_key
  the_key-Moved vm (some (val_string k)) f h = h k
  the_key-Moved vm _ f h = tt

  pub new_set_ins-Moved :
      (vm : Vm) (i o : ℕ) (key : Option HVal) → After (Moved j d vm) (new_set_ins vm i o key)
  unfolding new_set_ins
  new_set_ins-Moved vm i o key = read-Moved j d vm o _ λ s. the_key-Moved vm key _ λ k.
      share-Moved j d vm o _ λ vm' w. the_value-Moved vm' w _ λ x. assign_slot-Moved j d vm' i _

  pub append_in_list-Moved :
      (vm : Vm) (i : ℕ) (list : VmSlot) (o : ℕ) (v : VmSlot) (vs : HVals)
      → After (Moved j d vm) (append_in_list vm i list o v vs)
  unfolding append_in_list
  append_in_list-Moved vm i list o v vs =
      if-Moved j d vm list.owned _ beyond
        (if-Moved j d vm (i == o) beyond _ tt
          (share-Moved j d vm o _ λ vm' w. assign_slot-Moved j d vm' i _))
        tt

  pub append_value-Moved :
      (vm : Vm) (i : ℕ) (list : VmSlot) (o : ℕ) (v : VmSlot) (l : Option HVal)
      → After (Moved j d vm) (append_value vm i list o v l)
  unfolding append_value
  append_value-Moved vm i list o v (some (val_list vs)) = append_in_list-Moved vm i list o v vs
  append_value-Moved vm i list o v _ = tt

  pub called-Moved :
      (vm : Vm) (c : Called) (f : Option HVal → Outcome Vm)
      → ((v : Option HVal) → After (Moved j d vm) (f v))
      → After (Moved j d vm) (called c f)
  called-Moved vm (value v) f h = h (some v)
  called-Moved vm (error text) f h = tt
  called-Moved vm Called.undefined f h = tt

  pub call_ins-Moved :
      (m : Machine) (p : VmPacket) (arg : Option HVal → HVal) (ins : Instruction) (vm : Vm)
      → After (Moved j d vm) (call_ins m p arg ins vm)
  unfolding call_ins
  call_ins-Moved m p arg ins vm = read-Moved j d vm ins.operand2 _ λ s.
      share-Moved j d vm ins.operand2 _ λ vm' v.
        if-Moved j d vm' (ins.operand1 == 0) _ _ (assign-Moved j d vm' ins.dest _ _) (
          called-Moved vm' (vm_stdlib_call m.surroundings ins.operand1 (arg v)) _
            λ result. assign-Moved j d vm' ins.dest _ _)

  pub load_value-Moved :
      (ins : Instruction) (vm : Vm) (v : Option HVal) → After (Moved j d vm) (load_value ins vm v)
  unfolding load_value
  load_value-Moved ins vm none = tt
  load_value-Moved ins vm (some v) = assign-Moved j d vm ins.dest (some v) 0

  pub operands-Moved :
      (vm : Vm) (ins : Instruction) (f : VmSlot → VmSlot → Outcome Vm)
      → ((a b : VmSlot) → After (Moved j d vm) (f a b))
      → After (Moved j d vm) (operands vm ins f)
  operands-Moved vm ins f h =
      read-Moved j d vm ins.operand1 _ λ a. read-Moved j d vm ins.operand2 _ λ b. h a b

  pub unary-Moved :
      (vm : Vm) (i o : ℕ) (f : Option HVal → Outcome Bool) → After (Moved j d vm) (unary vm i o f)
  unary-Moved vm i o f =
      read-Moved j d vm o _
        λ s. bind-Moved j d vm (f s.value) _ λ b. assign-Moved j d vm i (some (val_boolean b)) 0

  pub converted-Moved :
      (vm : Vm) (i o : ℕ) (f : Option HVal → Outcome HVal)
      → After (Moved j d vm) (converted vm i o f)
  converted-Moved vm i o f =
      read-Moved j d vm o _
        λ s. bind-Moved j d vm (f s.value) _ λ v. assign-Moved j d vm i (some v) s.tags

  pub tested-Moved :
      (vm : Vm) (ins : Instruction) (f : Option HVal → Option HVal → Outcome Bool)
      → After (Moved j d vm) (tested vm ins f)
  tested-Moved vm ins f =
      bind-Moved j d vm (operands vm ins (λ a b. f a.value b.value)) _
        λ b. assign-Moved j d vm ins.dest (some (val_boolean b)) 0

  pub computed-Moved :
      (p : VmPacket) (vm : Vm) (ins : Instruction) (f : Option HVal → Option HVal → Outcome HVal)
      → After (Moved j d vm) (computed p vm ins f)
  computed-Moved p vm ins f = operands-Moved vm ins _ λ a b.
      bind-Moved j d vm (f a.value b.value) _
        λ v. assign-Moved j d vm ins.dest (some v) (propagate_tags p ins 0 (bit_or a.tags b.tags))

-- A test behind which the machine goes on, or else jumps to the destination.
pub go_on_if-Moved : (d : ℕ) (vm : Vm) (b : Bool) → After (Moved true d vm) (go_on_if vm d b)
go_on_if-Moved d vm true = record {
  slots = refl;
  frames = refl;
  sources = refl;
  pc_moves = inl (omega arith);
}
go_on_if-Moved d vm false = record {
  slots = refl;
  frames = refl;
  sources = refl;
  pc_moves = inr (refl, refl);
}

-- The source's answer goes into the slot, and into the cache of the same length.
pub sourced-Moved :
    (j : Bool) (d : ℕ) (vm : Vm) (i : ℕ) (r : List (Option HVal) × Option HVal)
    → length r.0 ≡ length vm.source_cache
    → After (Moved j d vm) (sourced vm i r)
sourced-Moved j d vm i (cache, v) e =
    After-map (Moved j d (record vm { source_cache = cache })) (Moved j d vm)
      (assign (record vm { source_cache = cache }) i (some (or_nothing v)) 0)
      (λ vm' m. record {
        slots = m.slots;
        frames = m.frames;
        sources = m.sources ∙ e;
        pc_moves = m.pc_moves;
      })
      (assign-Moved j d (record vm { source_cache = cache }) i (some (or_nothing v)) 0)
