-- ===== src/Compiler/Peephole.antt =====
-- The peephole pass of src/compiler.c: `is_jump_target` and `peephole_optimize`.
--
-- The code is a list; a round of the first pass replaces two neighbours in it.
use heluna_language.Common.{
  ℕ, zero, suc, ◌+◌, ◌-◌, ◌%◌, ◌^◌, Bool, false, not, ◌&&◌, ◌||◌, Option, none, some, List, [], ◌∷◌,
  leb, ltb, ◌==◌, if◌then◌else◌, length, get_elem?,
}
use heluna_language.Compiler.{Instruction}

abbrev pub is_nop : Instruction → Bool
is_nop ins = ins.opcode == 0x00

abbrev pub between : ℕ → ℕ → ℕ → Bool
between low high c = leb low c && leb c high

-- JUMP, JUMP_IF, JUMP_IF_NOT, the six CMP_JUMP_xx and IS_NOTHING_JUMP.
unfoldable pub is_jump : ℕ → Bool
is_jump op = between 0x80 0x82 op || between 0xC5 0xCA op || op == 0xCB

unfoldable pub is_jump_target : List Instruction → ℕ → Bool
is_jump_target [] target = false
is_jump_target (ins ∷ rest) target =
    is_jump ins.opcode && ins.dest == target % 2 ^ 16 || is_jump_target rest target

unfoldable pub set_elem : List Instruction → ℕ → Instruction → List Instruction
set_elem [] i ins = []
set_elem (_ ∷ rest) zero ins = ins ∷ rest
set_elem (x ∷ rest) (suc i) ins = x ∷ set_elem rest i ins

-- A comparison with a jump behind it, both taking the jump's target.
abbrev pub fuse : List Instruction → ℕ → ℕ → Instruction → Instruction → List Instruction
fuse code i op a b =
    set_elem (set_elem code i (record a { opcode = op; dest = b.dest })) (suc i)
      (record b { opcode = 0x00 })

abbrev pub pair_of :
    Option Instruction
    → Option Instruction
    → List Instruction
    → (Instruction → Instruction → List Instruction)
    → List Instruction
pair_of (some a) (some b) code f = f a b
pair_of (some a) none code f = code
pair_of none _ code f = code

abbrev pub pair_at :
    List Instruction → ℕ → (Instruction → Instruction → List Instruction) → List Instruction
pair_at code i f = pair_of (get_elem? code i) (get_elem? code (suc i)) code f

-- CMP and JUMP_IF_NOT become CMP_JUMP_xx.
unfoldable pub fuse_compare : List Instruction → ℕ → List Instruction
fuse_compare code i = pair_at code i λ a b.
    if b.opcode == 0x82
      && between 0x20 0x25 a.opcode
      && a.dest == b.operand1
      && not (is_jump_target code (suc i))
    then fuse code i ((0xC5 + (a.opcode - 0x20)) % 256) a b
    else code

-- IS_NOTHING and JUMP_IF become IS_NOTHING_JUMP.
unfoldable pub fuse_nothing : List Instruction → ℕ → List Instruction
fuse_nothing code i = pair_at code i λ a b.
    if a.opcode == 0x54
      && b.opcode == 0x81
      && a.dest == b.operand1
      && not (is_jump_target code (suc i))
    then fuse code i 0xCB a b
    else code

-- So many rounds from `i` on.
unfoldable pub fuse_from : ℕ → ℕ → List Instruction → List Instruction
fuse_from zero i code = code
fuse_from (suc n) i code = fuse_from n (suc i) (fuse_nothing (fuse_compare code i) i)

-- The second pass: the new place of each instruction, from `new_count` on.
unfoldable pub remap_from : ℕ → List Instruction → List ℕ
remap_from new_count [] = []
remap_from new_count (ins ∷ rest) =
    new_count ∷ remap_from (if is_nop ins then new_count else suc new_count) rest

-- How many of the first `i` are no NOP.
unfoldable pub count_real : List Instruction → ℕ → ℕ
count_real [] i = 0
count_real (_ ∷ _) zero = 0
count_real (ins ∷ rest) (suc i) = (if is_nop ins then 0 else 1) + count_real rest i

abbrev pub on_entry : Option ℕ → (ℕ → Option Instruction) → Option Instruction
on_entry none f = none
on_entry (some n) f = f n

-- The third pass on one instruction; `none` is a read behind the table.
unfoldable pub remap_jump : List ℕ → ℕ → Instruction → Option Instruction
remap_jump table count ins =
    if ltb ins.dest (count % 2 ^ 16)
    then on_entry (get_elem? table ins.dest) (λ d. some (record ins { dest = d % 2 ^ 16 }))
    else some ins

unfoldable pub remap_iter : List ℕ → ℕ → ℕ → Instruction → Option Instruction
remap_iter table count i ins =
    let body_end = i + 1 + ins.operand2 in
    if leb body_end count
    then on_entry (get_elem? table body_end) (λ e.
      on_entry (get_elem? table (i + 1)) (λ s. some (record ins { operand2 = (e - s) % 2 ^ 16 })))
    else some ins

unfoldable pub remap_one : List ℕ → ℕ → ℕ → Instruction → Option Instruction
remap_one table count i ins =
    if is_nop ins
    then some ins
    else if is_jump ins.opcode
    then remap_jump table count ins
    else if ins.opcode == 0x90
    then remap_iter table count i ins
    else some ins

abbrev pub both_some : Option Instruction → Option (List Instruction) → Option (List Instruction)
both_some (some a) (some rest) = some (a ∷ rest)
both_some _ _ = none

unfoldable pub remap_all : List ℕ → ℕ → ℕ → List Instruction → Option (List Instruction)
remap_all table count i [] = some []
remap_all table count i (ins ∷ rest) =
    both_some (remap_one table count i ins) (remap_all table count (suc i) rest)

-- The fourth pass.
unfoldable pub compact : List Instruction → List Instruction
compact [] = []
compact (ins ∷ rest) = let more = compact rest in if is_nop ins then more else ins ∷ more

abbrev pub compacted : Option (List Instruction) → Option (List Instruction)
compacted none = none
compacted (some code) = some (compact code)

-- All but the first pass.
unfoldable pub squeeze : List Instruction → Option (List Instruction)
squeeze code =
    if count_real code (length code) == length code
    then some code
    else compacted (remap_all (remap_from 0 code) (length code) 0 code)

unfoldable pub peephole_optimize : List Instruction → Option (List Instruction)
peephole_optimize code = squeeze (fuse_from (length code - 1) 0 code)
