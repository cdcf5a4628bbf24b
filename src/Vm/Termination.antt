-- ===== src/Vm/Termination.antt =====
-- The loop of `vm_execute` in src/vm.c ends on code that jumps forward only.
use heluna_language.Common.{
  ℕ, zero, suc, ◌≡◌, refl, subst, Bool, true, false, not, ◌&&◌, ◌||◌, Option, none, some, List, [],
  ◌∷◌, get_elem?, ltb, arith,
}
use heluna_language.Value.{HVal}
use heluna_language.Compiler.{Instruction}
use heluna_language.Packet.Assembly.{VmPacket}
use heluna_language.Vm.{Vm, Outcome, done, failed, undefined, beyond, Opcode, decode, vm_init}
use heluna_language.Vm.Performs.{jumps}
use heluna_language.Vm.Rounds.{Shape}
use heluna_language.Vm.Frames.{shape}
use heluna_language.Vm.Step.{Machine, step}
use heluna_language.Vm.Execute.{start, run, with_result, vm_execute, behind_round, at_instruction}

abbrev jumps_known : Option Opcode → Bool
jumps_known none = false
jumps_known (some op) = jumps op

-- Every instruction that may jump has its destination behind itself; the first is at `i`.
unfoldable pub jumps_forward : ℕ → List Instruction → Bool
jumps_forward i [] = true
jumps_forward i (ins ∷ rest) =
    (not (jumps_known (decode ins.opcode)) || ltb i ins.dest) && jumps_forward (suc i) rest

-- The machine's loop ends, with enough fuel.
abbrev Ends : Machine → VmPacket → Vm → Type 0
Ends m p vm = (fuel : ℕ) × (o : Outcome Vm) × (run fuel m p vm ≡ some o)

module _ (m : Machine) (p : VmPacket) (forward : jumps_forward 0 p.instructions ≡ true) where
  -- Every machine at that place of the control flow ends.
  AllEnd : Shape → ℕ → Type 0
  AllEnd s pc = (vm : Vm) → shape vm.iter_stack ≡ s → vm.pc ≡ pc → Ends m p vm

abbrev Alike : Option (Outcome Vm) → Option (Outcome Vm) → Type 0
Alike r r' = (o o' : Outcome Vm) → r ≡ some o → r' ≡ some o' → o ≡ o'

behind_round-Alike :
    (f g : Vm → Option (Outcome Vm)) (x : Outcome Vm)
    → ((vm : Vm) → Alike (f vm) (g vm))
    → Alike (behind_round x f) (behind_round x g)
behind_round-Alike f g (done vm) same o o' h k = same vm o o' h k
behind_round-Alike f g (failed text) same o o' h k = ground arith
behind_round-Alike f g undefined same o o' h k = ground arith
behind_round-Alike f g beyond same o o' h k = ground arith

at_instruction-Alike :
    (f g : Instruction → Option (Outcome Vm)) (vm : Vm) (i : Option Instruction)
    → ((ins : Instruction) → Alike (f ins) (g ins))
    → Alike (at_instruction i vm f) (at_instruction i vm g)
at_instruction-Alike f g vm none same o o' h k = ground arith
at_instruction-Alike f g vm (some ins) same o o' h k = same ins o o' h k

-- Two runs from a state that both end, end alike.
run_same : (m : Machine) (p : VmPacket) (a b : ℕ) (vm : Vm) → Alike (run a m p vm) (run b m p vm)
unfolding run
run_same m p zero b vm = λ o o' h k. cc
run_same m p (suc a) zero vm = λ o o' h k. cc
run_same m p (suc a) (suc b) vm =
    at_instruction-Alike _ _ vm (get_elem? p.instructions vm.pc)
      λ ins. behind_round-Alike (run a m p) (run b m p) (step m p ins vm) (run_same m p a b)

-- An outcome that the model follows: neither a write into a list or record that may be shared, nor
-- an access outside the tables.
abbrev pub IsFollowed : {A : Type 0} → Option (Outcome A) → Type 0
IsFollowed (some beyond) = ⊥
IsFollowed (some undefined) = ⊥
IsFollowed _ = Unit

with_result-done :
    (o : Option (Outcome Vm)) (v : HVal)
    → with_result o ≡ some (done v)
    → (vm : Vm) × (o ≡ some (done vm))
with_result-done none v h = cc
with_result-done (some (done vm)) v h = (vm, refl)
with_result-done (some (failed text)) v h = cc
with_result-done (some undefined) v h = cc
with_result-done (some beyond) v h = cc

-- A run that returns a value comes to nothing else with other fuel.
pub done-IsFollowed :
    (m : Machine) (p : VmPacket) (input : Option HVal) (v : HVal) (enough : ℕ)
    → vm_execute enough m p (vm_init p) input ≡ some (done v)
    → (fuel : ℕ) → IsFollowed (vm_execute fuel m p (vm_init p) input)
unfolding vm_execute
done-IsFollowed m p input v enough h fuel =
    let first = start p (vm_init p) input in
    let (vm, e) = with_result-done (run enough m p first) v h in
    by_run vm e (run fuel m p first) refl
  where
    by_run :
        (vm : Vm)
        → run enough m p (start p (vm_init p) input) ≡ some (done vm)
        → (o : Option (Outcome Vm)) → run fuel m p (start p (vm_init p) input) ≡ o
        → IsFollowed (with_result o)
    by_run vm e none k = tt
    by_run vm e (some o) k =
        subst (λ o. IsFollowed (with_result (some o)))
          (run_same m p enough fuel (start p (vm_init p) input) (done vm) o e k) tt
