-- ===== src/Tests/Passes.antt =====
-- The theorem on the peephole pass at a concrete input, and runs of the pass.
use heluna_language.Common.{ℕ, ◌≡◌, refl, some, List, [], ◌∷◌, arith, get_elem?}
use heluna_language.Compiler.{Instruction}
use heluna_language.Compiler.Peephole.{
  is_jump, count_real, squeeze, peephole_optimize, fuse_from, fuse_compare, fuse_nothing,
  is_jump_target, set_elem, remap_from, remap_jump, remap_one, remap_all, compact,
}
use heluna_language.Compiler.Squeeze.{bodies_inside, IsMoved, squeeze_lem}

abbrev instruction : ℕ → ℕ → ℕ → ℕ → Instruction
instruction opcode dest operand1 operand2 = record {
  opcode = opcode;
  flags = 0;
  dest = dest;
  operand1 = operand1;
  operand2 = operand2;
}

-- EQ into slot 5 and JUMP_IF_NOT on slot 5 to the third instruction, a COPY.
abbrev compare_code : List Instruction
compare_code = instruction 0x20 5 1 2 ∷ instruction 0x82 2 5 0 ∷ instruction 0x04 6 1 0 ∷ []

-- Fused, the jump goes to the second instruction.
peephole_compare :
    peephole_optimize compare_code ≡ some (instruction 0xC5 1 1 2 ∷ instruction 0x04 6 1 0 ∷ [])
unfolding peephole_optimize squeeze fuse_from fuse_compare fuse_nothing is_jump is_jump_target
    set_elem remap_from remap_jump remap_one remap_all compact count_real
peephole_compare = refl

abbrev fused_code : List Instruction
fused_code = instruction 0xC5 2 1 2 ∷ instruction 0x00 2 5 0 ∷ instruction 0x04 6 1 0 ∷ []

squeeze_lem_example :
    (new : List Instruction) × (squeeze fused_code ≡ some new)
    × ((a : Instruction) × (get_elem? new (count_real fused_code 0) ≡ some a)
        × IsMoved fused_code (instruction 0xC5 2 1 2) a)
unfolding bodies_inside
squeeze_lem_example = squeeze_lem fused_code 0 (instruction 0xC5 2 1 2) (omega arith) refl refl refl
