-- ===== src/Vm/Pairs.antt =====
-- A test of src/vm.c with a jump on its result, against one jump that makes the test.
use heluna_language.Common.{
  ℕ, ◌+◌, ◌<◌, ◌≡◌, ◌≢◌, refl, ap, ◌∙◌, Bool, true, false, not, Option, none, some, ◌++◌,
  if◌then◌else◌, Bytes, codes, length, get_elem?, set, get_elem?-set_self, get_elem?_of_lt, arith,
}
use heluna_language.Value.{Doubles, HVal, val_string, val_boolean}
use heluna_language.Compiler.{Instruction}
use heluna_language.Evaluator.Equal.{Host}
use heluna_language.Packet.Assembly.{VmPacket}
use heluna_language.Vm.{
  Vm, VmSlot, Outcome, done, failed, undefined, beyond, ◌>>=◌, CompareOp, op_eq, op_neq, op_lt,
  op_gt, op_lte, op_gte, Opcode, jump_if, jump_if_not, kind_nothing, decode, slot, put, assign,
  assign_slot, some_or_undefined,
}
use heluna_language.Vm.Values.{holds, vm_compare, fused_compare, order_values, both_there}
use heluna_language.Vm.Conversions.{is_of_kind}
use heluna_language.Vm.Step.{Machine, perform, perform_known, step, operands, go_on_if}

abbrev pub compare_code : CompareOp → ℕ
compare_code op_eq = 0x20
compare_code op_neq = 0x21
compare_code op_lt = 0x22
compare_code op_gt = 0x23
compare_code op_lte = 0x24
compare_code op_gte = 0x25

abbrev pub same : Bool → Bool → Bool
same true b = b
same false b = not b

-- An error of the fused jump names the jump.
abbrev pub renamed {ℓ} : {A : Type ℓ} → Outcome A → Outcome A
renamed (failed text) = failed (codes "CMP_JUMP_" ++ text)
renamed o = o

order_values-renamed :
    (dbl : Doubles) (name : Bytes) (op : CompareOp) (a b : HVal)
    → order_values dbl (codes "CMP_JUMP_" ++ name) op a b ≡ renamed (order_values dbl name op a b)
unfolding order_values
order_values-renamed dbl name op (val_string a) (val_string b) = refl
order_values-renamed dbl name op _ _ = ground arith

both_there-renamed :
    (name : Bytes) (a b : Option HVal) (f g : HVal → HVal → Outcome Bool)
    → ((x y : HVal) → f x y ≡ renamed (g x y))
    → both_there (codes "CMP_JUMP_" ++ name) a b f ≡ renamed (both_there name a b g)
both_there-renamed name (some x) (some y) f g h = h x y
both_there-renamed name (some x) none f g h = refl
both_there-renamed name none _ f g h = refl

-- The test of a fused jump is the comparison's.
fused_compare-renamed :
    (h : Host) (op : CompareOp) (a b : Option HVal)
    → fused_compare h op a b ≡ renamed (vm_compare h op a b)
unfolding fused_compare vm_compare
fused_compare-renamed h op_eq a b = refl
fused_compare-renamed h op_neq a b = refl
fused_compare-renamed h op_lt a b =
    both_there-renamed (codes "LT") a b _ _ (order_values-renamed h.doubles (codes "LT") op_lt)
fused_compare-renamed h op_gt a b =
    both_there-renamed (codes "GT") a b _ _ (order_values-renamed h.doubles (codes "GT") op_gt)
fused_compare-renamed h op_lte a b =
    both_there-renamed (codes "LTE") a b _ _ (order_values-renamed h.doubles (codes "LTE") op_lte)
fused_compare-renamed h op_gte a b =
    both_there-renamed (codes "GTE") a b _ _ (order_values-renamed h.doubles (codes "GTE") op_gte)

operands_read :
    (x y : Option VmSlot) (h : Host) (op : CompareOp)
    → (some_or_undefined x >>= λ a. some_or_undefined y >>= λ b. fused_compare h op a.value b.value)
      ≡ renamed (
          some_or_undefined x >>= λ a. some_or_undefined y >>= λ b. vm_compare h op a.value b.value)
operands_read none y h op = refl
operands_read (some a) none h op = refl
operands_read (some a) (some b) h op = fused_compare-renamed h op a.value b.value

pub operands-renamed :
    (vm : Vm) (ins : Instruction) (h : Host) (op : CompareOp)
    → operands vm ins (λ a b. fused_compare h op a.value b.value)
      ≡ renamed (operands vm ins (λ a b. vm_compare h op a.value b.value))
unfolding slot
operands-renamed vm ins h op =
    operands_read (get_elem? vm.scratchpad ins.operand1) (get_elem? vm.scratchpad ins.operand2) h op

-- What a pair of a test into slot `d` and a jump on that slot to `dest` does, and what the one jump
-- in its place: they fail alike, or else go on alike; the slot of the test is not written.
abbrev pub Simulates : Vm → ℕ → ℕ → Bool → Outcome Vm → Outcome Vm → Type 0
Simulates vm d dest jumps_if (failed text) (failed text') = text' ≡ codes "CMP_JUMP_" ++ text
Simulates vm d dest jumps_if undefined undefined = Unit
Simulates vm d dest jumps_if beyond beyond = Unit
Simulates vm d dest jumps_if (done two) (done one) =
    (c : Bool) × (two ≡ record vm {
      scratchpad =
          set vm.scratchpad d (record { value = some (val_boolean c); tags = 0; owned = false });
      result_slot = d;
      pc = if same c jumps_if then dest else vm.pc + 1 + 1;
    })
    × (one ≡ record vm { pc = if same c jumps_if then dest else vm.pc + 1 })
Simulates vm d dest jumps_if _ _ = ⊥

pub assign_lem :
    (vm : Vm) (d : ℕ) (v : Option HVal) (tags : ℕ)
    → d < length vm.scratchpad
    → assign vm d v tags
      ≡ done (record vm {
        scratchpad = set vm.scratchpad d (record { value = v; tags = tags; owned = false });
        result_slot = d;
        pc = vm.pc + 1;
      })
unfolding assign assign_slot put slot
assign_lem vm d v tags h = let (old, e) = get_elem?_of_lt vm.scratchpad d h in rw e refl

pub step_known :
    (m : Machine) (p : VmPacket) (op : Opcode) (ins : Instruction) (vm : Vm)
    → decode ins.opcode ≡ some op
    → step m p ins vm ≡ perform m p op ins vm
unfolding step perform_known
step_known m p op ins vm e = ap (λ o. perform_known m p o ins vm) e

-- The machine behind a test.
abbrev pub tested_vm : Vm → ℕ → Bool → Vm
tested_vm vm d c = record vm {
  scratchpad =
      set vm.scratchpad d (record { value = some (val_boolean c); tags = 0; owned = false });
  result_slot = d;
  pc = vm.pc + 1;
}

slot-tested_vm :
    (vm : Vm) (d i : ℕ) (c : Bool)
    → d < length vm.scratchpad
    → i ≡ d
    → slot (tested_vm vm d c) i
      ≡ done (record { value = some (val_boolean c); tags = 0; owned = false })
unfolding slot
slot-tested_vm vm d i c h e = rw (e, get_elem?-set_self vm.scratchpad d _ h) refl

pub jumped :
    (vm : Vm) (d dest : ℕ) (c : Bool)
    → Simulates vm d dest false (go_on_if (tested_vm vm d c) dest c) (go_on_if vm dest c)
jumped vm d dest true = (true, refl, refl)
jumped vm d dest false = (false, refl, refl)

pub jumped_not :
    (vm : Vm) (d dest : ℕ) (c : Bool)
    → Simulates vm d dest true (go_on_if (tested_vm vm d c) dest (not c)) (go_on_if vm dest (not c))
jumped_not vm d dest true = (true, refl, refl)
jumped_not vm d dest false = (false, refl, refl)

module _ (m : Machine) (p : VmPacket) (b : Instruction) (vm : Vm) (d : ℕ)
    (there : d < length vm.scratchpad) (reads : b.operand1 ≡ d) where
  pub step-jump_if_not :
      (c : Bool)
      → decode b.opcode ≡ some jump_if_not
      → step m p b (tested_vm vm d c) ≡ go_on_if (tested_vm vm d c) b.dest c
  unfolding perform
  step-jump_if_not c e =
      step_known m p jump_if_not b (tested_vm vm d c) e
      ∙ ap (λ s. s >>= λ s. go_on_if (tested_vm vm d c) b.dest (holds s.value))
          (slot-tested_vm vm d b.operand1 c there reads)

  pub step-jump_if :
      (c : Bool)
      → decode b.opcode ≡ some jump_if
      → step m p b (tested_vm vm d c) ≡ go_on_if (tested_vm vm d c) b.dest (not c)
  unfolding perform
  step-jump_if c e =
      step_known m p jump_if b (tested_vm vm d c) e
      ∙ ap (λ s. s >>= λ s. go_on_if (tested_vm vm d c) b.dest (not (holds s.value)))
          (slot-tested_vm vm d b.operand1 c there reads)

  -- Behind the reading of the operands.
  pub Simulates-compare :
      (r : Outcome Bool)
      → decode b.opcode ≡ some jump_if_not
      → Simulates vm d b.dest false
          ((r >>= λ c. assign vm d (some (val_boolean c)) 0) >>= step m p b)
          (renamed r >>= go_on_if vm b.dest)
  Simulates-compare (done c) e =
      rw (assign_lem vm d (some (val_boolean c)) 0 there, step-jump_if_not c e)
        (jumped vm d b.dest c)
  Simulates-compare (failed text) e = refl
  Simulates-compare undefined e = tt
  Simulates-compare beyond e = tt

  -- Behind the reading of IS_NOTHING's operand.
  pub Simulates-nothing :
      (s : Outcome VmSlot)
      → decode b.opcode ≡ some jump_if
      → ((text : Bytes) → s ≢ failed text)
      → Simulates vm d b.dest true
          ((s >>= λ a. assign vm d (some (val_boolean (is_of_kind kind_nothing a.value))) 0)
            >>= step m p b)
          (s >>= λ a. go_on_if vm b.dest (not (is_of_kind kind_nothing a.value)))
  Simulates-nothing (done a) e h =
      let c = is_of_kind kind_nothing a.value in
      rw (assign_lem vm d (some (val_boolean c)) 0 there, step-jump_if c e)
        (jumped_not vm d b.dest c)
  Simulates-nothing (failed text) e h = absurd (h text refl)
  Simulates-nothing undefined e h = tt
  Simulates-nothing beyond e h = tt

found-ne-failed : (o : Option VmSlot) (text : Bytes) → some_or_undefined o ≢ failed text
found-ne-failed none text = λ e. cc
found-ne-failed (some s) text = λ e. cc

pub slot-ne-failed : (vm : Vm) (i : ℕ) (text : Bytes) → slot vm i ≢ failed text
unfolding slot
slot-ne-failed vm i text = found-ne-failed (get_elem? vm.scratchpad i) text
