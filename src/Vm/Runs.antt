-- ===== src/Vm/Runs.antt =====
-- Runs of the loop of `vm_execute` in src/vm.c: the states it reaches.
use heluna_language.Common.{
  ℕ, zero, suc, ◌≡◌, refl, ap, ◌∙◌, Option, none, some, List, [], ◌∷◌, length, get_elem?, arith,
}
use heluna_language.Value.{HVal, HFields, val_record}
use heluna_language.Compiler.{Instruction, CompilerSource}
use heluna_language.Packet.Contract.{VmFieldDecl}
use heluna_language.Packet.Assembly.{VmPacket}
use heluna_language.Vm.{Vm, VmSlot, done, vm_init, empty_caches}
use heluna_language.Vm.Moves.{After-done}
use heluna_language.Vm.Invariant.{IsSound}
use heluna_language.Vm.Soundness.{step-IsSound}
use heluna_language.Vm.Step.{Machine, step}
use heluna_language.Vm.Execute.{start, sp_size, empty_slots, map_input, mapped}

-- The states at the head of the loop, from a first one on.
pub data Reaches (m : Machine) (p : VmPacket) (first : Vm) : Vm → Type 0 where
  at_start : Reaches m p first first
  round :
      {vm vm' : Vm}
      → Reaches m p first vm
      → (ins : Instruction) → get_elem? p.instructions vm.pc ≡ some ins
      → step m p ins vm ≡ done vm'
      → Reaches m p first vm'

length-empty_slots : (n : ℕ) → length (empty_slots n) ≡ n
unfolding empty_slots
length-empty_slots zero = refl
length-empty_slots (suc n) = ap suc (length-empty_slots n)

length-map_input :
    (fs : HFields) (fields : List VmFieldDecl) (slots : List VmSlot)
    → length (map_input fs fields slots) ≡ length slots
unfolding map_input
length-map_input fs [] slots = refl
length-map_input fs (f ∷ rest) [] = refl
length-map_input fs (f ∷ rest) (s ∷ slots) = ap suc (length-map_input fs rest slots)

length-mapped :
    (input : Option HVal) (fields : List VmFieldDecl) (slots : List VmSlot)
    → length (mapped input fields slots) ≡ length slots
length-mapped (some (val_record fs)) fields slots = length-map_input fs fields slots
length-mapped none fields slots = refl
length-mapped _ fields slots = refl

length-empty_caches :
    (sources : List CompilerSource) → length (empty_caches sources) ≡ length sources
length-empty_caches [] = refl
length-empty_caches (_ ∷ xs) = ap suc (length-empty_caches xs)

start-IsSound :
    (p : VmPacket) (input : Option HVal)
    → IsSound p.instructions (sp_size p.contract) (length p.sources) (start p (vm_init p) input)
unfolding start vm_init
start-IsSound p input = record {
  slots =
      length-mapped input p.contract.input_fields (empty_slots (sp_size p.contract))
      ∙ length-empty_slots (sp_size p.contract);
  sources = length-empty_caches p.sources;
  depth = omega arith;
  frames = tt;
}

-- Whatever a packet holds and whatever input it gets: as long as the machine runs on it from its
-- start, its scratchpad and its cache keep their sizes, at most eight frames are in use, and every
-- frame has its body in front of an ITER_COLLECT of the code and its element and its source in
-- slots of the scratchpad.
pub Reaches-IsSound :
    (m : Machine) (p : VmPacket) (input : Option HVal) {vm : Vm}
    → Reaches m p (start p (vm_init p) input) vm
    → IsSound p.instructions (sp_size p.contract) (length p.sources) vm
Reaches-IsSound m p input at_start = start-IsSound p input
Reaches-IsSound m p input (round {vm} r ins at e) =
    let n = sp_size p.contract in
    let k = length p.sources in
    After-done (IsSound p.instructions n k) _ e
      (step-IsSound m p n k ins vm (Reaches-IsSound m p input r))
