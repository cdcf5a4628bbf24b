-- ===== src/Vm/Agreement.antt =====
-- The operators of src/vm.c against `eval_binary` of src/evaluator.c.
use heluna_language.Common.{
  ◌≡◌, refl, Bool, true, false, ◌&&◌, some, ◌==◌, if◌then◌else◌, Bool-cases, inl, inr, Bytes, ap,
  sym,
}
use heluna_language.Common.Int.{ℤ, fits, nat_abs, quot_ℤ, ltb_ℤ, leb_ℤ}
use heluna_language.Value.{Double, Doubles, HVal, val_integer, val_float, val_string, val_boolean}
use heluna_language.Ast.{
  AstBinOp, bin_add, bin_sub, bin_mul, bin_div, bin_mod, bin_eq, bin_neq, bin_lt, bin_gt, bin_lte,
  bin_gte,
}
use heluna_language.Evaluator.State.{EvalState, Result, returned, null, eval_error, pure}
use heluna_language.Evaluator.Equal.{Host}
use heluna_language.Evaluator.Operators.{
  binary_op, add_op, ordered_op, int_op, float_op, string_op, is_zero,
}
use heluna_language.Evaluator.Operators
use heluna_language.Vm.{
  Outcome, done, failed, undefined, beyond, ArithOp, op_add, op_sub, op_mul, op_div, op_mod,
  CompareOp, op_eq, op_neq, op_lt, op_gt, op_lte, op_gte,
}
use heluna_language.Vm.Values.{
  is_number, to_double, vm_arith, arith_values, number_arith, int_arith, float_arith,
  is_zero_divisor, vm_compare, order_values, float_order, text_order, pointers_equal,
}

-- The evaluator's operator, which the compiler writes as this instruction.
abbrev pub arith_bin : ArithOp → AstBinOp
arith_bin op_add = bin_add
arith_bin op_sub = bin_sub
arith_bin op_mul = bin_mul
arith_bin op_div = bin_div
arith_bin op_mod = bin_mod

abbrev pub compare_bin : CompareOp → AstBinOp
compare_bin op_eq = bin_eq
compare_bin op_neq = bin_neq
compare_bin op_lt = bin_lt
compare_bin op_gt = bin_gt
compare_bin op_lte = bin_lte
compare_bin op_gte = bin_gte

-- The same value, or an error in both, or undefined in both.
abbrev pub Agrees : Result HVal → Outcome HVal → Type 0
Agrees (returned v s) (done w) = v ≡ w
Agrees (null s) (failed text) = Unit
Agrees Result.undefined undefined = Unit
Agrees _ _ = ⊥

-- Numbers, and for `mod` integers only.
abbrev pub in_both : ArithOp → HVal → HVal → Bool
in_both op_mod (val_integer _) (val_integer _) = true
in_both op_mod _ _ = false
in_both _ l r = is_number l && is_number r

checked-Agrees :
    (n : ℤ) (s : EvalState)
    → Agrees (Operators.checked n s) (if fits n then done (val_integer n) else undefined)
unfolding Operators.checked
checked-Agrees n s = elim (Bool-cases (fits n)) [ inl e ↦ rw e refl | inr e ↦ rw e tt ]

-- A division by a number that one tests for zero as an integer or as a double.
by_zero-Agrees :
    (b : Bool) (d : Double) (s : EvalState) (text text' : Bytes)
    → Agrees
        ((if b then eval_error text else pure (val_float d)) s)
        (if b then failed text' else done (val_float d))
unfolding eval_error
by_zero-Agrees true d s text text' = tt
by_zero-Agrees false d s text text' = refl

-- An integer is zero exactly if it is zero as a double.
abbrev pub ZeroIsZero : Doubles → Type 0
ZeroIsZero dbl = (n : ℤ) → dbl.eqb (dbl.of_int n) dbl.zero ≡ (nat_abs n == 0)

int_div-Agrees :
    (a b : ℤ) (s : EvalState) (text text' : Bytes)
    → Agrees ((if is_zero b then eval_error text else Operators.checked (quot_ℤ a b)) s) (
        if nat_abs b == 0
        then failed text'
        else if fits (quot_ℤ a b)
        then done (val_integer (quot_ℤ a b))
        else undefined)
unfolding is_zero eval_error
int_div-Agrees a b s text text' = elim (Bool-cases (nat_abs b == 0)) [
  | inl e ↦ rw e tt
  | inr e ↦ rw e (checked-Agrees (quot_ℤ a b) s)
]

int_mod-Agrees : (a b : ℤ) (s : EvalState) → Agrees (int_op bin_mod a b s) (int_arith op_mod a b)
unfolding int_op int_arith is_zero eval_error
int_mod-Agrees a b s = elim (Bool-cases (nat_abs b == 0)) [
  | inl e ↦ rw e tt
  | inr e ↦ elim (Bool-cases (fits (quot_ℤ a b))) [ inl f ↦ rw (e, f) refl | inr f ↦ rw (e, f) tt ]
]

-- On numbers, and on integers for `mod`, the machine's arithmetic gives the evaluator's value, is an
-- error where that is one, and undefined where that is; where an integer is zero exactly if it is
-- zero as a double.
pub vm_arith-binary_op :
    (h : Host) (fmod : Double → Double → Double) (op : ArithOp) (l r : HVal) (s : EvalState)
    → ZeroIsZero h.doubles
    → in_both op l r ≡ true
    → Agrees (binary_op h (arith_bin op) l r s) (vm_arith h.doubles fmod op (some l) (some r))
unfolding binary_op add_op ordered_op int_op float_op vm_arith arith_values number_arith int_arith
    float_arith is_zero_divisor to_double
vm_arith-binary_op h fmod op_add (val_integer a) (val_integer b) s z e = checked-Agrees _ s
vm_arith-binary_op h fmod op_add (val_integer a) (val_float b) s z e = refl
vm_arith-binary_op h fmod op_add (val_float a) (val_integer b) s z e = refl
vm_arith-binary_op h fmod op_add (val_float a) (val_float b) s z e = refl
vm_arith-binary_op h fmod op_sub (val_integer a) (val_integer b) s z e = checked-Agrees _ s
vm_arith-binary_op h fmod op_sub (val_integer a) (val_float b) s z e = refl
vm_arith-binary_op h fmod op_sub (val_float a) (val_integer b) s z e = refl
vm_arith-binary_op h fmod op_sub (val_float a) (val_float b) s z e = refl
vm_arith-binary_op h fmod op_mul (val_integer a) (val_integer b) s z e = checked-Agrees _ s
vm_arith-binary_op h fmod op_mul (val_integer a) (val_float b) s z e = refl
vm_arith-binary_op h fmod op_mul (val_float a) (val_integer b) s z e = refl
vm_arith-binary_op h fmod op_mul (val_float a) (val_float b) s z e = refl
vm_arith-binary_op h fmod op_div (val_integer a) (val_integer b) s z e = int_div-Agrees a b s _ _
vm_arith-binary_op h fmod op_div (val_integer a) (val_float b) s z e = by_zero-Agrees _ _ s _ _
vm_arith-binary_op h fmod op_div (val_float a) (val_integer b) s z e =
    rw (z b) (by_zero-Agrees (nat_abs b == 0) _ s _ _)
vm_arith-binary_op h fmod op_div (val_float a) (val_float b) s z e = by_zero-Agrees _ _ s _ _
vm_arith-binary_op h fmod op_mod (val_integer a) (val_integer b) s z e = int_mod-Agrees a b s
vm_arith-binary_op h fmod _ _ _ s z e = cc

-- Two integers are ordered as doubles as they are as integers, as all below 2^53 are.
abbrev pub OrderedAlike : Doubles → HVal → HVal → Type 0
OrderedAlike dbl (val_integer a) (val_integer b) =
    (dbl.ltb (dbl.of_int a) (dbl.of_int b) ≡ ltb_ℤ a b)
    × (dbl.ltb (dbl.of_int b) (dbl.of_int a) ≡ ltb_ℤ b a)
    × (dbl.leb (dbl.of_int a) (dbl.of_int b) ≡ leb_ℤ a b)
    × (dbl.leb (dbl.of_int b) (dbl.of_int a) ≡ leb_ℤ b a)
OrderedAlike dbl _ _ = Unit

abbrev pub boolean : Outcome Bool → Outcome HVal
boolean (done b) = done (val_boolean b)
boolean (failed text) = failed text
boolean undefined = undefined
boolean beyond = beyond

-- The machine compares any two values as the evaluator does, and is an error where that is one; where
-- two integers are ordered as doubles as they are as integers.
pub vm_compare-binary_op :
    (h : Host) (op : CompareOp) (l r : HVal) (s : EvalState)
    → OrderedAlike h.doubles l r
    → Agrees (binary_op h (compare_bin op) l r s) (boolean (vm_compare h op (some l) (some r)))
unfolding binary_op ordered_op int_op float_op string_op eval_error vm_compare order_values
    float_order text_order pointers_equal to_double
vm_compare-binary_op h op_eq l r s o = refl
vm_compare-binary_op h op_neq l r s o = refl
vm_compare-binary_op h op_lt (val_integer a) (val_integer b) s o = ap val_boolean (sym o.0)
vm_compare-binary_op h op_lt (val_integer a) (val_float b) s o = refl
vm_compare-binary_op h op_lt (val_float a) (val_integer b) s o = refl
vm_compare-binary_op h op_lt (val_float a) (val_float b) s o = refl
vm_compare-binary_op h op_lt (val_string a) (val_string b) s o = refl
vm_compare-binary_op h op_lt _ _ s o = tt
vm_compare-binary_op h op_gt (val_integer a) (val_integer b) s o = ap val_boolean (sym o.1)
vm_compare-binary_op h op_gt (val_integer a) (val_float b) s o = refl
vm_compare-binary_op h op_gt (val_float a) (val_integer b) s o = refl
vm_compare-binary_op h op_gt (val_float a) (val_float b) s o = refl
vm_compare-binary_op h op_gt (val_string a) (val_string b) s o = refl
vm_compare-binary_op h op_gt _ _ s o = tt
vm_compare-binary_op h op_lte (val_integer a) (val_integer b) s o = ap val_boolean (sym o.2)
vm_compare-binary_op h op_lte (val_integer a) (val_float b) s o = refl
vm_compare-binary_op h op_lte (val_float a) (val_integer b) s o = refl
vm_compare-binary_op h op_lte (val_float a) (val_float b) s o = refl
vm_compare-binary_op h op_lte (val_string a) (val_string b) s o = refl
vm_compare-binary_op h op_lte _ _ s o = tt
vm_compare-binary_op h op_gte (val_integer a) (val_integer b) s o = ap val_boolean (sym o.3)
vm_compare-binary_op h op_gte (val_integer a) (val_float b) s o = refl
vm_compare-binary_op h op_gte (val_float a) (val_integer b) s o = refl
vm_compare-binary_op h op_gte (val_float a) (val_float b) s o = refl
vm_compare-binary_op h op_gte (val_string a) (val_string b) s o = refl
vm_compare-binary_op h op_gte _ _ s o = tt
