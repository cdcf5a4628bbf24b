-- ===== src/Vm/Kinds.antt =====
-- The kinds of the values that the instructions of src/vm.c store.
use heluna_language.Common.{
  ℕ, ◌^◌, ltb, ◌≡◌, refl, sym, ◌∙◌, Bool, false, ◌==◌, if◌then◌else◌, Option, none, some, List, [],
  ◌∷◌, ◌⊎◌, inl, inr, get_elem?, get_elem?-set_self,
}
use heluna_language.Common.Int.{fits, ℤ, quot_ℤ, rem_ℤ, neg_ℤ, nat_abs, ◌+ℤ◌, ◌-ℤ◌, ◌*ℤ◌}
use heluna_language.Value.{
  HVal, Doubles, Double, val_integer, val_float, val_string, val_boolean, val_nothing, val_record,
  val_list, count_items,
}
use heluna_language.Compiler.{Instruction}
use heluna_language.Packet.Assembly.{VmPacket}
use heluna_language.Vm.{
  Vm, VmSlot, Outcome, done, failed, undefined, beyond, ◌>>=◌, ArithOp, op_add, op_sub, op_mul,
  op_div, op_mod, HValKind, kind_string, kind_integer, kind_float, kind_boolean, kind_nothing,
  kind_list, kind_record, Opcode, load_nothing, negate, op_not, str_concat, arithmetic, compare,
  logic, is_kind, to_string, to_int, to_float, to_bool, record_new, record_has, list_new,
  list_length, tag_check, decode, slot, put, assign, assign_slot,
}
use heluna_language.Vm.Values.{
  vm_arith, arith_values, number_arith, int_arith, is_zero_divisor, vm_negate, vm_not,
}
use heluna_language.Vm.Conversions.{kind_of, cast, vm_to_int, vm_to_float, vm_list_length}
use heluna_language.Vm.Moves.{After, After-bind, After-done, After-if}
use heluna_language.Vm.Invariant.{slot-lt_length}
use heluna_language.Vm.Pairs.{step_known}
use heluna_language.Vm.Step.{Machine, perform, step, operands, doubles}

-- The kinds that an instruction's result may have, for the instructions whose own doing it is.
abbrev pub result_kinds : Opcode → Option (List HValKind)
result_kinds (arithmetic _) = some (kind_integer ∷ kind_float ∷ [])
result_kinds negate = some (kind_integer ∷ kind_float ∷ [])
result_kinds (compare _) = some (kind_boolean ∷ [])
result_kinds (logic _) = some (kind_boolean ∷ [])
result_kinds op_not = some (kind_boolean ∷ [])
result_kinds (is_kind _) = some (kind_boolean ∷ [])
result_kinds to_bool = some (kind_boolean ∷ [])
result_kinds record_has = some (kind_boolean ∷ [])
result_kinds tag_check = some (kind_boolean ∷ [])
result_kinds str_concat = some (kind_string ∷ [])
result_kinds to_string = some (kind_string ∷ [])
result_kinds to_int = some (kind_integer ∷ [])
result_kinds to_float = some (kind_float ∷ [])
result_kinds list_length = some (kind_integer ∷ [])
result_kinds load_nothing = some (kind_nothing ∷ [])
result_kinds record_new = some (kind_record ∷ [])
result_kinds list_new = some (kind_list ∷ [])
result_kinds _ = none

abbrev pub IsOneOf : List HValKind → HVal → Type 0
IsOneOf [] v = ⊥
IsOneOf (k ∷ ks) v = (kind_of v ≡ k) ⊎ IsOneOf ks v

-- The slot `d` is the result slot, and holds a value of one of the kinds.
abbrev pub Gives : Option (List HValKind) → ℕ → Vm → Type 0
Gives none d vm = Unit
Gives (some ks) d vm =
    (vm.result_slot ≡ d)
    × ((s : VmSlot) × (v : HVal) × (get_elem? vm.scratchpad d ≡ some s)
        × (s.value ≡ some v)
        × IsOneOf ks v)

After-Unit {ℓ} : {A : Type ℓ} (o : Outcome A) → After (λ _. Unit {0}) o
After-Unit (done a) = tt
After-Unit (failed text) = tt
After-Unit undefined = tt
After-Unit beyond = tt

abbrev Holds : ℕ → VmSlot → Vm → Type 0
Holds d s vm = get_elem? vm.scratchpad d ≡ some s

put-Holds : (vm : Vm) (d : ℕ) (s : VmSlot) → After (Holds d s) (put vm d s)
unfolding put
put-Holds vm d s =
    After-bind (Holds d s) (slot vm d) _
      λ old there. get_elem?-set_self vm.scratchpad d s (slot-lt_length vm d old there)

module _ (ks : List HValKind) (vm : Vm) (d : ℕ) where
  assign_slot-Gives :
      (s : VmSlot) (v : HVal)
      → s.value ≡ some v
      → IsOneOf ks v
      → After (Gives (some ks) d) (assign_slot vm d s)
  unfolding assign_slot
  assign_slot-Gives s v e h =
      After-bind (Gives (some ks) d) (put vm d s) _
        λ vm' written. (refl, (s, v, After-done (Holds d s) _ written (put-Holds vm d s), e, h))

  assign-Gives :
      (v : HVal) (tags : ℕ) → IsOneOf ks v → After (Gives (some ks) d) (assign vm d (some v) tags)
  unfolding assign
  assign-Gives v tags h =
      assign_slot-Gives (record { value = some v; tags = tags; owned = false }) v refl h

  -- Behind a value that is of one of the kinds where there is one.
  value-Gives :
      (m : Outcome HVal) (tags : ℕ)
      → After (IsOneOf ks) m
      → After (Gives (some ks) d) (m >>= λ v. assign vm d (some v) tags)
  value-Gives (done v) tags h = assign-Gives v tags h
  value-Gives (failed text) tags h = tt
  value-Gives undefined tags h = tt
  value-Gives beyond tags h = tt

booleans :
    (vm : Vm) (d : ℕ) (m : Outcome Bool)
    → After (Gives (some (kind_boolean ∷ [])) d) (m >>= λ b. assign vm d (some (val_boolean b)) 0)
booleans vm d m =
    After-bind (Gives (some (kind_boolean ∷ [])) d) m _
      λ b _. assign-Gives (kind_boolean ∷ []) vm d (val_boolean b) 0 (inl refl)

-- Behind one slot that is read, and behind two.
read1 {ℓ} :
    (P : Vm → Type ℓ) (vm : Vm) (i : ℕ) (f : VmSlot → Outcome Vm)
    → ((s : VmSlot) → After P (f s))
    → After P (slot vm i >>= f)
read1 P vm i f h = After-bind P (slot vm i) f λ s _. h s

read2 {ℓ} :
    (P : Vm → Type ℓ) (vm : Vm) (ins : Instruction) (f : VmSlot → VmSlot → Outcome Vm)
    → ((a b : VmSlot) → After P (f a b))
    → After P (operands vm ins f)
read2 P vm ins f h = read1 P vm ins.operand1 _ λ a. read1 P vm ins.operand2 _ λ b. h a b

stores_boolean :
    (vm : Vm) (d : ℕ) (b : Bool)
    → After (Gives (some (kind_boolean ∷ [])) d) (assign vm d (some (val_boolean b)) 0)
stores_boolean vm d b = assign-Gives (kind_boolean ∷ []) vm d (val_boolean b) 0 (inl refl)

abbrev Number : HVal → Type 0
Number = IsOneOf (kind_integer ∷ kind_float ∷ [])

checked-Number : (n m : ℤ) → After Number (if fits n then done (val_integer m) else undefined)
checked-Number n m = After-if Number (fits n) (done (val_integer m)) undefined (inl refl) tt

int_arith-Number : (op : ArithOp) (a b : ℤ) → After Number (int_arith op a b)
unfolding int_arith
int_arith-Number op_add a b = checked-Number (a +ℤ b) (a +ℤ b)
int_arith-Number op_sub a b = checked-Number (a -ℤ b) (a -ℤ b)
int_arith-Number op_mul a b = checked-Number (a *ℤ b) (a *ℤ b)
int_arith-Number op_div a b = checked-Number (quot_ℤ a b) (quot_ℤ a b)
int_arith-Number op_mod a b =
    After-if Number (nat_abs b == 0) _ _ tt (checked-Number (quot_ℤ a b) (rem_ℤ a b))

number_arith-Number :
    (dbl : Doubles) (fmod : Double → Double → Double) (op : ArithOp) (a b : HVal)
    → After Number (number_arith dbl fmod op a b)
unfolding number_arith
number_arith-Number dbl fmod op (val_integer a) (val_integer b) = int_arith-Number op a b
number_arith-Number dbl fmod op (val_integer a) (val_float b) = inr (inl refl)
number_arith-Number dbl fmod op (val_float a) (val_integer b) = inr (inl refl)
number_arith-Number dbl fmod op (val_float a) (val_float b) = inr (inl refl)
number_arith-Number dbl fmod op _ _ = tt

vm_arith-Number :
    (dbl : Doubles) (fmod : Double → Double → Double) (op : ArithOp) (a b : Option HVal)
    → After Number (vm_arith dbl fmod op a b)
unfolding vm_arith arith_values
vm_arith-Number dbl fmod op none b = tt
vm_arith-Number dbl fmod op (some a) none = tt
vm_arith-Number dbl fmod op (some a) (some b) =
    After-if Number (is_zero_divisor dbl op b) _ _ tt (number_arith-Number dbl fmod op a b)

vm_negate-Number : (dbl : Doubles) (a : Option HVal) → After Number (vm_negate dbl a)
unfolding vm_negate
vm_negate-Number dbl none = tt
vm_negate-Number dbl (some (val_integer n)) = checked-Number (neg_ℤ n) (neg_ℤ n)
vm_negate-Number dbl (some (val_float d)) = inr (inl refl)
vm_negate-Number dbl (some _) = tt

cast-integer : (o : Option ℤ) → After (IsOneOf (kind_integer ∷ [])) (cast o)
cast-integer none = tt
cast-integer (some n) = inl refl

vm_to_int-integer :
    (dbl : Doubles) (a : Option HVal) → After (IsOneOf (kind_integer ∷ [])) (vm_to_int dbl a)
unfolding vm_to_int
vm_to_int-integer dbl none = tt
vm_to_int-integer dbl (some (val_integer n)) = inl refl
vm_to_int-integer dbl (some (val_float d)) = cast-integer (dbl.to_int d)
vm_to_int-integer dbl (some (val_string s)) = inl refl
vm_to_int-integer dbl (some (val_boolean b)) = inl refl
vm_to_int-integer dbl (some _) = tt

vm_to_float-float :
    (dbl : Doubles) (a : Option HVal) → After (IsOneOf (kind_float ∷ [])) (vm_to_float dbl a)
unfolding vm_to_float
vm_to_float-float dbl none = tt
vm_to_float-float dbl (some (val_integer n)) = inl refl
vm_to_float-float dbl (some (val_float d)) = inl refl
vm_to_float-float dbl (some (val_string s)) = inl refl
vm_to_float-float dbl (some _) = tt

vm_list_length-integer : (a : Option HVal) → After (IsOneOf (kind_integer ∷ [])) (vm_list_length a)
unfolding vm_list_length
vm_list_length-integer (some (val_list vs)) =
    After-if (IsOneOf (kind_integer ∷ [])) (ltb (count_items vs) (2 ^ 31)) _ undefined (inl refl) tt
vm_list_length-integer none = inl refl
vm_list_length-integer _ = inl refl

-- What an instruction of the table stores by its own doing is of the kinds there.
perform-Gives :
    (m : Machine) (p : VmPacket) (op : Opcode) (ins : Instruction) (vm : Vm)
    → After (Gives (result_kinds op) ins.dest) (perform m p op ins vm)
unfolding perform
perform-Gives m p (arithmetic op) ins vm = read2 _ vm ins _ λ a b.
    value-Gives (kind_integer ∷ kind_float ∷ []) vm ins.dest
      (vm_arith (doubles m) m.fmod op a.value b.value) _
      (vm_arith-Number (doubles m) m.fmod op a.value b.value)
perform-Gives m p negate ins vm = read1 _ vm ins.operand1 _ λ s.
    value-Gives (kind_integer ∷ kind_float ∷ []) vm ins.dest (vm_negate (doubles m) s.value) s.tags
      (vm_negate-Number (doubles m) s.value)
perform-Gives m p (compare op) ins vm = booleans vm ins.dest (operands vm ins _)
perform-Gives m p (logic op) ins vm = booleans vm ins.dest (operands vm ins _)
perform-Gives m p op_not ins vm =
    read1 _ vm ins.operand1 _ λ s. booleans vm ins.dest (vm_not s.value)
perform-Gives m p (is_kind k) ins vm = read1 _ vm ins.operand1 _ λ s. stores_boolean vm ins.dest _
perform-Gives m p to_bool ins vm = read1 _ vm ins.operand1 _ λ s. stores_boolean vm ins.dest _
perform-Gives m p record_has ins vm = booleans vm ins.dest (operands vm ins _)
perform-Gives m p tag_check ins vm = read1 _ vm ins.operand1 _ λ s. stores_boolean vm ins.dest _
perform-Gives m p str_concat ins vm =
    read2 _ vm ins _ λ a b. assign-Gives (kind_string ∷ []) vm ins.dest (val_string _) _ (inl refl)
perform-Gives m p to_string ins vm =
    read1 _ vm ins.operand1 _
      λ s. assign-Gives (kind_string ∷ []) vm ins.dest (val_string _) s.tags (inl refl)
perform-Gives m p to_int ins vm = read1 _ vm ins.operand1 _ λ s.
    value-Gives (kind_integer ∷ []) vm ins.dest (vm_to_int (doubles m) s.value) s.tags
      (vm_to_int-integer (doubles m) s.value)
perform-Gives m p to_float ins vm = read1 _ vm ins.operand1 _ λ s.
    value-Gives (kind_float ∷ []) vm ins.dest (vm_to_float (doubles m) s.value) s.tags
      (vm_to_float-float (doubles m) s.value)
perform-Gives m p list_length ins vm = read1 _ vm ins.operand1 _ λ s.
    value-Gives (kind_integer ∷ []) vm ins.dest (vm_list_length s.value) 0
      (vm_list_length-integer s.value)
perform-Gives m p load_nothing ins vm =
    assign-Gives (kind_nothing ∷ []) vm ins.dest val_nothing 0 (inl refl)
perform-Gives m p record_new ins vm =
    assign_slot-Gives (kind_record ∷ []) vm ins.dest _ (val_record _) refl (inl refl)
perform-Gives m p list_new ins vm =
    assign_slot-Gives (kind_list ∷ []) vm ins.dest _ (val_list _) refl (inl refl)
perform-Gives m p op ins vm = After-Unit (perform m p op ins vm)

-- When an instruction is done that computes a value itself, its destination is the result slot, and
-- holds a value of the kinds that the table gives for its opcode: arithmetic a number; comparisons,
-- logic and tests a boolean; concatenation and TO_STRING a text; conversions and LIST_LENGTH their
-- own kind; LOAD_NOTHING, RECORD_NEW and LIST_NEW nothing, a record and a list.
pub step-Gives :
    (m : Machine) (p : VmPacket) (op : Opcode) (ins : Instruction) (vm vm' : Vm)
    → decode ins.opcode ≡ some op
    → step m p ins vm ≡ done vm'
    → Gives (result_kinds op) ins.dest vm'
step-Gives m p op ins vm vm' known e =
    After-done (Gives (result_kinds op) ins.dest) (perform m p op ins vm)
      (sym (step_known m p op ins vm known) ∙ e) (perform-Gives m p op ins vm)
