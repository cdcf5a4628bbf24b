-- ===== src/Vm/Fusion.antt =====
-- The superinstructions of src/vm.c against the pairs that `peephole_optimize` of src/compiler.c makes
-- them from.
use heluna_language.Common.{
  ℕ, zero, suc, ◌+◌, ◌-◌, ◌%◌, ◌<◌, ◌≡◌, refl, sym, ap, ◌∙◌, true, false, not, ◌&&◌, some, List, [],
  ◌∷◌, ◌==◌, length, get_elem?, arith,
}
use heluna_language.Compiler.{Instruction}
use heluna_language.Compiler.Peephole.{
  fuse_compare, fuse_nothing, set_elem, is_jump_target, between,
}
use heluna_language.Packet.Assembly.{VmPacket}
use heluna_language.Vm.{
  Vm, ◌>>=◌, CompareOp, op_eq, op_neq, op_lt, op_gt, op_lte, op_gte, compare, cmp_jump, jump_if,
  jump_if_not, is_kind, is_nothing_jump, kind_nothing, decode, slot,
}
use heluna_language.Vm.Values.{vm_compare}
use heluna_language.Vm.Step.{Machine, perform, step, operands}
use heluna_language.Vm.Pairs.{
  compare_code, Simulates, operands-renamed, step_known, Simulates-compare, Simulates-nothing,
  slot-ne-failed,
}

get_elem?-set_elem :
    (code : List Instruction) (i : ℕ) (x y : Instruction) {a : Instruction}
    → get_elem? code i ≡ some a
    → get_elem? (set_elem (set_elem code i x) (suc i) y) i ≡ some x
unfolding set_elem
get_elem?-set_elem [] i x y e = cc
get_elem?-set_elem (z ∷ rest) zero x y e = refl
get_elem?-set_elem (z ∷ rest) (suc i) x y e = get_elem?-set_elem rest i x y e

decode-compare_code : (op : CompareOp) → decode (compare_code op) ≡ some (compare op)
unfolding decode
decode-compare_code op_eq = refl
decode-compare_code op_neq = refl
decode-compare_code op_lt = refl
decode-compare_code op_gt = refl
decode-compare_code op_lte = refl
decode-compare_code op_gte = refl

-- The superinstruction's code, as the pass computes it.
abbrev fused_code : ℕ → ℕ
fused_code op = (0xC5 + (op - 0x20)) % 256

decode-fused_code : (op : CompareOp) → decode (fused_code (compare_code op)) ≡ some (cmp_jump op)
unfolding decode
decode-fused_code op_eq = refl
decode-fused_code op_neq = refl
decode-fused_code op_lt = refl
decode-fused_code op_gt = refl
decode-fused_code op_lte = refl
decode-fused_code op_gte = refl

decode_jump_if_not : decode 0x82 ≡ some jump_if_not
unfolding decode
decode_jump_if_not = refl

compare_code_bounds : (op : CompareOp) → between 0x20 0x25 (compare_code op) ≡ true
compare_code_bounds op_eq = refl
compare_code_bounds op_neq = refl
compare_code_bounds op_lt = refl
compare_code_bounds op_gt = refl
compare_code_bounds op_lte = refl
compare_code_bounds op_gte = refl

fuse_compare_at :
    (code : List Instruction) (i : ℕ) (a b : Instruction)
    → get_elem? code i ≡ some a
    → get_elem? code (suc i) ≡ some b
    → b.opcode ≡ 0x82
    → between 0x20 0x25 a.opcode ≡ true
    → a.dest ≡ b.operand1
    → is_jump_target code (suc i) ≡ false
    → get_elem? (fuse_compare code i) i
      ≡ some (record a { opcode = fused_code a.opcode; dest = b.dest })
unfolding fuse_compare
fuse_compare_at code i a b e e' jumps compares reads aimed =
    let fuses : (b.opcode == 0x82
          && between 0x20 0x25 a.opcode
          && a.dest == b.operand1
          && not (is_jump_target code (suc i)))
        ≡ true =
      ground arith in
    rw (e, e', fuses) (get_elem?-set_elem code i _ _ e)

-- The pass puts one instruction in the place of a comparison with a JUMP_IF_NOT on its slot behind
-- it, which is no jump's target. In every machine whose scratchpad has the comparison's slot, that
-- instruction does what the pair does: it jumps to the same place, or goes on, or fails with the
-- same error under the jump's name, and leaves all else as it was, where the pair writes the
-- comparison's slot and makes it the result slot.
pub fuse_compare-Simulates :
    (m : Machine) (p : VmPacket) (code : List Instruction) (i : ℕ) (op : CompareOp)
    → (a b : Instruction) (vm : Vm) → get_elem? code i ≡ some a
    → get_elem? code (suc i) ≡ some b
    → a.opcode ≡ compare_code op
    → b.opcode ≡ 0x82
    → a.dest ≡ b.operand1
    → is_jump_target code (suc i) ≡ false
    → a.dest < length vm.scratchpad
    → (f : Instruction) × (get_elem? (fuse_compare code i) i ≡ some f)
      × Simulates vm a.dest b.dest false (step m p a vm >>= step m p b) (step m p f vm)
unfolding perform
fuse_compare-Simulates m p code i op a b vm e e' compares jumps reads aimed there =
    let f : Instruction = record a { opcode = fused_code a.opcode; dest = b.dest } in
    let is_compare : decode a.opcode ≡ some (compare op) =
      ap decode compares ∙ decode-compare_code op in
    let is_fused : decode f.opcode ≡ some (cmp_jump op) =
      ap (λ o. decode (fused_code o)) compares ∙ decode-fused_code op in
    let is_jump : decode b.opcode ≡ some jump_if_not = ap decode jumps ∙ decode_jump_if_not in
    let h = m.surroundings.host in
    (
      f,
      fuse_compare_at code i a b e e' jumps
          (ap (between 0x20 0x25) compares ∙ compare_code_bounds op) reads aimed,
      rw
          (
            step_known m p (compare op) a vm is_compare,
            step_known m p (cmp_jump op) f vm is_fused,
            operands-renamed vm f h op,
          )
          (Simulates-compare m p b vm a.dest there (sym reads)
            (operands vm a (λ x y. vm_compare h op x.value y.value)) is_jump),
    )

fuse_nothing_at :
    (code : List Instruction) (i : ℕ) (a b : Instruction)
    → get_elem? code i ≡ some a
    → get_elem? code (suc i) ≡ some b
    → a.opcode ≡ 0x54
    → b.opcode ≡ 0x81
    → a.dest ≡ b.operand1
    → is_jump_target code (suc i) ≡ false
    → get_elem? (fuse_nothing code i) i ≡ some (record a { opcode = 0xCB; dest = b.dest })
unfolding fuse_nothing
fuse_nothing_at code i a b e e' tests jumps reads aimed =
    let fuses : (a.opcode == 0x54
          && b.opcode == 0x81
          && a.dest == b.operand1
          && not (is_jump_target code (suc i)))
        ≡ true =
      ground arith in
    rw (e, e', fuses) (get_elem?-set_elem code i _ _ e)

decode_jump_if : decode 0x81 ≡ some jump_if
unfolding decode
decode_jump_if = refl

decode_is_nothing : decode 0x54 ≡ some (is_kind kind_nothing)
unfolding decode
decode_is_nothing = refl

decode_is_nothing_jump : decode 0xCB ≡ some is_nothing_jump
unfolding decode
decode_is_nothing_jump = refl

-- Of IS_NOTHING with a JUMP_IF on its slot behind it, which is no jump's target, the pass makes one
-- instruction that does in every machine whose scratchpad has that slot what the pair does, but for
-- the write of the slot and the result slot.
pub fuse_nothing-Simulates :
    (m : Machine) (p : VmPacket) (code : List Instruction) (i : ℕ) (a b : Instruction) (vm : Vm)
    → get_elem? code i ≡ some a
    → get_elem? code (suc i) ≡ some b
    → a.opcode ≡ 0x54
    → b.opcode ≡ 0x81
    → a.dest ≡ b.operand1
    → is_jump_target code (suc i) ≡ false
    → a.dest < length vm.scratchpad
    → (f : Instruction) × (get_elem? (fuse_nothing code i) i ≡ some f)
      × Simulates vm a.dest b.dest true (step m p a vm >>= step m p b) (step m p f vm)
unfolding perform
fuse_nothing-Simulates m p code i a b vm e e' tests jumps reads aimed there =
    let f : Instruction = record a { opcode = 0xCB; dest = b.dest } in
    (
      f,
      fuse_nothing_at code i a b e e' tests jumps reads aimed,
      rw
          (
            step_known m p (is_kind kind_nothing) a vm (ap decode tests ∙ decode_is_nothing),
            step_known m p is_nothing_jump f vm decode_is_nothing_jump,
          )
          (Simulates-nothing m p b vm a.dest there (sym reads) (slot vm a.operand1)
            (ap decode jumps ∙ decode_jump_if) (slot-ne-failed vm a.operand1)),
    )
