-- ===== src/Evaluator/Operators.antt =====
-- `eval_binary` of src/evaluator.c behind the evaluation of its operands, negation, `is` tests, and
-- the call of a library function.
use heluna_language.Common.{
  Bool, true, false, not, ◌&&◌, ◌||◌, [], ◌∷◌, ◌++◌, ltb, ◌==◌, if◌then◌else◌, Bytes, codes, str_eq,
  String,
}
use heluna_language.Common.Int.{
  ℤ, fits, ◌+ℤ◌, ◌-ℤ◌, ◌*ℤ◌, neg_ℤ, quot_ℤ, rem_ℤ, ltb_ℤ, leb_ℤ, nat_abs,
}
use heluna_language.Value.{
  Double, Doubles, HVal, val_integer, val_float, val_string, val_boolean, val_nothing, val_record,
  val_list, field,
}
use heluna_language.Ast.{
  AstBinOp, bin_add, bin_sub, bin_mul, bin_div, bin_mod, bin_eq, bin_neq, bin_lt, bin_gt, bin_lte,
  bin_gte, bin_and, bin_or,
}
use heluna_language.Stdlib.{Called, value, error}
use heluna_language.Evaluator.State.{M, pure, null, undefined, eval_error, error_set}
use heluna_language.Evaluator.Equal.{Host, hval_equal}

-- A `long long` result; signed overflow is undefined.
unfoldable pub checked : ℤ → M HVal
checked n = if fits n then pure (val_integer n) else λ s. undefined

abbrev boolean : Bool → M HVal
boolean b = pure (val_boolean b)

abbrev unsupported : M HVal
unsupported = eval_error (codes "unsupported operand types for binary operator")

unfoldable pub is_zero : ℤ → Bool
is_zero n = nat_abs n == 0

unfoldable pub int_op : AstBinOp → ℤ → ℤ → M HVal
unfolding is_zero
int_op bin_add a b = checked (a +ℤ b)
int_op bin_sub a b = checked (a -ℤ b)
int_op bin_mul a b = checked (a *ℤ b)
int_op bin_div a b =
    if is_zero b then eval_error (codes "division by zero") else checked (quot_ℤ a b)
-- In C the remainder is undefined where the quotient is not representable.
int_op bin_mod a b =
    if is_zero b
    then eval_error (codes "modulo by zero")
    else if fits (quot_ℤ a b)
    then pure (val_integer (rem_ℤ a b))
    else λ s. undefined
int_op bin_lt a b = boolean (ltb_ℤ a b)
int_op bin_gt a b = boolean (ltb_ℤ b a)
int_op bin_lte a b = boolean (leb_ℤ a b)
int_op bin_gte a b = boolean (leb_ℤ b a)
int_op _ a b = unsupported

unfoldable pub float_op : Doubles → AstBinOp → Double → Double → M HVal
float_op dbl bin_add a b = pure (val_float (dbl.add a b))
float_op dbl bin_sub a b = pure (val_float (dbl.sub a b))
float_op dbl bin_mul a b = pure (val_float (dbl.mul a b))
float_op dbl bin_div a b =
    if dbl.eqb b dbl.zero
    then eval_error (codes "division by zero")
    else pure (val_float (dbl.div a b))
float_op dbl bin_mod a b = eval_error (codes "modulo on float values")
float_op dbl bin_lt a b = boolean (dbl.ltb a b)
float_op dbl bin_gt a b = boolean (dbl.ltb b a)
float_op dbl bin_lte a b = boolean (dbl.leb a b)
float_op dbl bin_gte a b = boolean (dbl.leb b a)
float_op dbl _ a b = unsupported

-- `strcmp(a, b) < 0`.
unfoldable pub str_lt : Bytes → Bytes → Bool
str_lt [] [] = false
str_lt [] (_ ∷ _) = true
str_lt (_ ∷ _) [] = false
str_lt (x ∷ xs) (y ∷ ys) = if x == y then str_lt xs ys else ltb x y

unfoldable pub string_op : AstBinOp → Bytes → Bytes → M HVal
string_op bin_lt a b = boolean (str_lt a b)
string_op bin_gt a b = boolean (str_lt b a)
string_op bin_lte a b = boolean (not (str_lt b a))
string_op bin_gte a b = boolean (not (str_lt a b))
string_op _ a b = unsupported

unfoldable pub ordered_op : Doubles → AstBinOp → HVal → HVal → M HVal
ordered_op dbl op (val_integer a) (val_integer b) = int_op op a b
ordered_op dbl op (val_integer a) (val_float b) = float_op dbl op (dbl.of_int a) b
ordered_op dbl op (val_float a) (val_integer b) = float_op dbl op a (dbl.of_int b)
ordered_op dbl op (val_float a) (val_float b) = float_op dbl op a b
ordered_op dbl op (val_string a) (val_string b) = string_op op a b
ordered_op dbl op _ _ = unsupported

-- `string_concat` where both operands of `+` are strings.
unfoldable pub add_op : Doubles → HVal → HVal → M HVal
add_op dbl (val_string a) (val_string b) = pure (val_string (a ++ b))
add_op dbl l r = ordered_op dbl bin_add l r

unfoldable pub and_op : HVal → HVal → M HVal
and_op (val_boolean a) (val_boolean b) = boolean (a && b)
and_op _ _ = eval_error (codes "'and' requires boolean operands")

unfoldable pub or_op : HVal → HVal → M HVal
or_op (val_boolean a) (val_boolean b) = boolean (a || b)
or_op _ _ = eval_error (codes "'or' requires boolean operands")

unfoldable pub binary_op : Host → AstBinOp → HVal → HVal → M HVal
binary_op h bin_add l r = add_op h.doubles l r
binary_op h bin_and l r = and_op l r
binary_op h bin_or l r = or_op l r
binary_op h bin_eq l r = boolean (hval_equal h l r)
binary_op h bin_neq l r = boolean (not (hval_equal h l r))
binary_op h op l r = ordered_op h.doubles op l r

unfoldable pub negate : Doubles → HVal → M HVal
negate dbl (val_integer n) = checked (neg_ℤ n)
negate dbl (val_float d) = pure (val_float (dbl.neg d))
negate dbl _ = eval_error (codes "cannot negate non-numeric value")

unfoldable pub invert : HVal → M HVal
invert (val_boolean b) = boolean (not b)
invert _ = eval_error (codes "'not' requires boolean operand")

abbrev pub is_true : HVal → Bool
is_true (val_boolean b) = b
is_true _ = false

-- The name of a value's kind, as an `is` test spells it.
abbrev kind_name : HVal → String
kind_name (val_string _) = "string"
kind_name (val_integer _) = "integer"
kind_name (val_float _) = "float"
kind_name (val_boolean _) = "boolean"
kind_name val_nothing = "nothing"
kind_name (val_list _) = "list"
kind_name (val_record _) = "record"

unfoldable pub is_type : HVal → Bytes → Bool
is_type v name = str_eq name (codes (kind_name v))

-- `EXPR_CALL` marks an error of the library function; `eval_through` hands on its NULL and leaves
-- `had_error` as it is.
unfoldable pub call_result : Called → M HVal
call_result (value v) s = pure v s
call_result (error text) s = null (record (error_set text s) { had_error = true })
call_result Called.undefined s = undefined

unfoldable pub through_result : Called → M HVal
through_result (value v) s = pure v s
through_result (error text) s = null (error_set text s)
through_result Called.undefined s = undefined

unfoldable pub inject_value : HVal → HVal → HVal
inject_value left (val_record fs) = val_record (field (codes "value") left fs)
inject_value left arg = arg
