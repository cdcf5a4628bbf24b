-- ===== src/Vm/Values.antt =====
-- What the instructions of src/vm.c compute from values: the cases of `vm_execute` for arithmetic,
-- comparison and logic, with `to_double`. An operand is NULL where it is `none`.
use heluna_language.Common.{
  Bool, true, false, not, ◌&&◌, ◌||◌, Option, none, some, ◌++◌, ◌==◌, if◌then◌else◌, Bytes, codes,
}
use heluna_language.Common.Int.{ℤ, fits, ◌+ℤ◌, ◌-ℤ◌, ◌*ℤ◌, neg_ℤ, quot_ℤ, rem_ℤ, nat_abs}
use heluna_language.Value.{Double, Doubles, HVal, val_integer, val_float, val_string, val_boolean}
use heluna_language.Evaluator.Equal.{Host, hval_equal}
use heluna_language.Evaluator.Operators.{str_lt}
use heluna_language.Vm.{
  Outcome, done, failed, undefined, ArithOp, op_add, op_sub, op_mul, op_div, op_mod, CompareOp,
  op_eq, op_neq, op_lt, op_gt, op_lte, op_gte, LogicOp, op_and, op_or,
}

abbrev arith_name : ArithOp → Bytes
arith_name op_add = codes "ADD"
arith_name op_sub = codes "SUB"
arith_name op_mul = codes "MUL"
arith_name op_div = codes "DIV"
arith_name op_mod = codes "MOD"

abbrev pub is_number : HVal → Bool
is_number (val_integer _) = true
is_number (val_float _) = true
is_number _ = false

unfoldable pub to_double : Doubles → HVal → Double
to_double dbl (val_float d) = d
to_double dbl (val_integer n) = dbl.of_int n
to_double dbl _ = dbl.zero

-- A `long long` result; signed overflow is undefined.
abbrev checked : ℤ → Outcome HVal
checked n = if fits n then done (val_integer n) else undefined

abbrev by_zero : ArithOp → Outcome HVal
by_zero op = failed (arith_name op ++ codes ": division by zero")

unfoldable pub int_arith : ArithOp → ℤ → ℤ → Outcome HVal
int_arith op_add a b = checked (a +ℤ b)
int_arith op_sub a b = checked (a -ℤ b)
int_arith op_mul a b = checked (a *ℤ b)
int_arith op_div a b = checked (quot_ℤ a b)
int_arith op_mod a b =
    if nat_abs b == 0
    then by_zero op_mod
    else if fits (quot_ℤ a b)
    then done (val_integer (rem_ℤ a b))
    else undefined

-- `fmod` is the C library's.
unfoldable pub float_arith :
    Doubles → (Double → Double → Double) → ArithOp → Double → Double → Double
float_arith dbl fmod op_add = dbl.add
float_arith dbl fmod op_sub = dbl.sub
float_arith dbl fmod op_mul = dbl.mul
float_arith dbl fmod op_div = dbl.div
float_arith dbl fmod op_mod = fmod

unfoldable pub number_arith :
    Doubles → (Double → Double → Double) → ArithOp → HVal → HVal → Outcome HVal
unfolding to_double int_arith float_arith
number_arith dbl fmod op (val_integer a) (val_integer b) = int_arith op a b
number_arith dbl fmod op a b =
    if is_number a && is_number b
    then done (val_float (float_arith dbl fmod op (to_double dbl a) (to_double dbl b)))
    else failed (arith_name op ++ codes ": non-numeric operands")

-- The divisors that DIV refuses, whatever is divided.
unfoldable pub is_zero_divisor : Doubles → ArithOp → HVal → Bool
is_zero_divisor dbl op_div (val_integer n) = nat_abs n == 0
is_zero_divisor dbl op_div (val_float d) = dbl.eqb d dbl.zero
is_zero_divisor dbl _ b = false

unfoldable pub arith_values :
    Doubles → (Double → Double → Double) → ArithOp → HVal → HVal → Outcome HVal
unfolding number_arith is_zero_divisor
arith_values dbl fmod op a b =
    if is_zero_divisor dbl op b then by_zero op else number_arith dbl fmod op a b

abbrev pub null_operand {ℓ} : {A : Type ℓ} → Bytes → Outcome A
null_operand name = failed (name ++ codes ": null operand")

abbrev pub both_there {ℓ} :
    {A : Type ℓ} → Bytes → Option HVal → Option HVal → (HVal → HVal → Outcome A) → Outcome A
both_there name (some a) (some b) f = f a b
both_there name _ _ f = null_operand name

unfoldable pub vm_arith :
    Doubles → (Double → Double → Double) → ArithOp → Option HVal → Option HVal → Outcome HVal
unfolding arith_values
vm_arith dbl fmod op a b = both_there (arith_name op) a b (arith_values dbl fmod op)

negate_value : Doubles → HVal → Outcome HVal
negate_value dbl (val_integer n) = checked (neg_ℤ n)
negate_value dbl (val_float d) = done (val_float (dbl.neg d))
negate_value dbl _ = failed (codes "NEGATE: non-numeric operand")

unfoldable pub vm_negate : Doubles → Option HVal → Outcome HVal
unfolding negate_value
vm_negate dbl none = null_operand (codes "NEGATE")
vm_negate dbl (some a) = negate_value dbl a

-- `hval_equal` on pointers that may be NULL.
unfoldable pub pointers_equal : Host → Option HVal → Option HVal → Bool
pointers_equal h none none = true
pointers_equal h (some a) (some b) = hval_equal h a b
pointers_equal h _ _ = false

abbrev pub compare_name : CompareOp → Bytes
compare_name op_eq = codes "EQ"
compare_name op_neq = codes "NEQ"
compare_name op_lt = codes "LT"
compare_name op_gt = codes "GT"
compare_name op_lte = codes "LTE"
compare_name op_gte = codes "GTE"

-- The four orders; EQ and NEQ do not come here.
unfoldable pub float_order : Doubles → CompareOp → Double → Double → Bool
float_order dbl op_lt a b = dbl.ltb a b
float_order dbl op_gt a b = dbl.ltb b a
float_order dbl op_lte a b = dbl.leb a b
float_order dbl op_gte a b = dbl.leb b a
float_order dbl _ a b = false

unfoldable pub text_order : CompareOp → Bytes → Bytes → Bool
text_order op_lt a b = str_lt a b
text_order op_gt a b = str_lt b a
text_order op_lte a b = not (str_lt b a)
text_order op_gte a b = not (str_lt a b)
text_order _ a b = false

-- The name in front of the message: the comparison's, or the fused jump's.
unfoldable pub order_values : Doubles → Bytes → CompareOp → HVal → HVal → Outcome Bool
unfolding float_order text_order to_double
order_values dbl name op (val_string a) (val_string b) = done (text_order op a b)
order_values dbl name op a b =
    if is_number a && is_number b
    then done (float_order dbl op (to_double dbl a) (to_double dbl b))
    else failed (name ++ codes ": incompatible types")

unfoldable pub compare_named : Host → Bytes → CompareOp → Option HVal → Option HVal → Outcome Bool
unfolding pointers_equal order_values
compare_named h name op_eq a b = done (pointers_equal h a b)
compare_named h name op_neq a b = done (not (pointers_equal h a b))
compare_named h name op a b = both_there name a b (order_values h.doubles name op)

unfoldable pub vm_compare : Host → CompareOp → Option HVal → Option HVal → Outcome Bool
unfolding compare_named
vm_compare h op = compare_named h (compare_name op) op

-- The test of CMP_JUMP_xx.
unfoldable pub fused_compare : Host → CompareOp → Option HVal → Option HVal → Outcome Bool
unfolding compare_named
fused_compare h op = compare_named h (codes "CMP_JUMP_" ++ compare_name op) op

-- `cond && cond->kind == VAL_BOOLEAN && cond->as.boolean_val`.
abbrev pub holds : Option HVal → Bool
holds (some (val_boolean b)) = b
holds _ = false

abbrev logic_error : LogicOp → Outcome Bool
logic_error op_and = failed (codes "AND: non-boolean operands")
logic_error op_or = failed (codes "OR: non-boolean operands")

abbrev logic_values : LogicOp → Bool → Bool → Bool
logic_values op_and a b = a && b
logic_values op_or a b = a || b

unfoldable pub vm_logic : LogicOp → Option HVal → Option HVal → Outcome Bool
vm_logic op (some (val_boolean a)) (some (val_boolean b)) = done (logic_values op a b)
vm_logic op _ _ = logic_error op

unfoldable pub vm_not : Option HVal → Outcome Bool
vm_not (some (val_boolean a)) = done (not a)
vm_not _ = failed (codes "NOT: non-boolean operand")
