-- ===== src/Evaluator/Steady.antt =====
-- The operators of the evaluator keep the environment.
use heluna_language.Common.{refl, Bool, true, false, Option, none, some, [], if◌then◌else◌, Bytes}
use heluna_language.Common.Int.{ℤ, fits, quot_ℤ}
use heluna_language.Value.{
  Double, Doubles, HVal, val_integer, val_float, val_string, val_boolean, val_nothing, val_record,
}
use heluna_language.Ast.{
  AstBinOp, bin_add, bin_sub, bin_mul, bin_div, bin_mod, bin_eq, bin_neq, bin_lt, bin_gt, bin_lte,
  bin_gte, bin_and, bin_or,
}
use heluna_language.Evaluator.State.{M, eval_error, error_set, env_lookup}
use heluna_language.Stdlib.{Called, value, error}
use heluna_language.Evaluator.Equal.{Host}
use heluna_language.Evaluator.Operators.{
  checked, int_op, float_op, string_op, ordered_op, add_op, and_op, or_op, binary_op, negate,
  invert, call_result, through_result, is_zero,
}
use heluna_language.Evaluator.Parts.{ident, input_ref, input_field, access, found, or_else}
use heluna_language.Evaluator.Scopes.{KeepsEnv, pure-KeepsEnv, eval_error-KeepsEnv}

fails : (text : Bytes) → KeepsEnv (eval_error {A = HVal} text)
fails text = eval_error-KeepsEnv HVal text

if-KeepsEnv : (b : Bool) (x y : M HVal) → KeepsEnv x → KeepsEnv y → KeepsEnv (if b then x else y)
if-KeepsEnv true x y h k = h
if-KeepsEnv false x y h k = k

checked-KeepsEnv : (n : ℤ) → KeepsEnv (checked n)
unfolding checked
checked-KeepsEnv n = if-KeepsEnv (fits n) _ _ (λ s. refl) (λ s. tt)

int_op-KeepsEnv : (op : AstBinOp) (a b : ℤ) → KeepsEnv (int_op op a b)
unfolding int_op
int_op-KeepsEnv bin_add a b = checked-KeepsEnv _
int_op-KeepsEnv bin_sub a b = checked-KeepsEnv _
int_op-KeepsEnv bin_mul a b = checked-KeepsEnv _
int_op-KeepsEnv bin_div a b = if-KeepsEnv (is_zero b) _ _ (fails _) (checked-KeepsEnv _)
int_op-KeepsEnv bin_mod a b =
    if-KeepsEnv (is_zero b) _ _ (fails _)
      (if-KeepsEnv (fits (quot_ℤ a b)) _ _ (λ s. refl) (λ s. tt))
int_op-KeepsEnv bin_lt a b = λ s. refl
int_op-KeepsEnv bin_gt a b = λ s. refl
int_op-KeepsEnv bin_lte a b = λ s. refl
int_op-KeepsEnv bin_gte a b = λ s. refl
int_op-KeepsEnv _ a b = fails _

float_op-KeepsEnv : (dbl : Doubles) (op : AstBinOp) (a b : Double) → KeepsEnv (float_op dbl op a b)
unfolding float_op
float_op-KeepsEnv dbl bin_add a b = λ s. refl
float_op-KeepsEnv dbl bin_sub a b = λ s. refl
float_op-KeepsEnv dbl bin_mul a b = λ s. refl
float_op-KeepsEnv dbl bin_div a b = if-KeepsEnv (dbl.eqb b dbl.zero) _ _ (fails _) (λ s. refl)
float_op-KeepsEnv dbl bin_lt a b = λ s. refl
float_op-KeepsEnv dbl bin_gt a b = λ s. refl
float_op-KeepsEnv dbl bin_lte a b = λ s. refl
float_op-KeepsEnv dbl bin_gte a b = λ s. refl
float_op-KeepsEnv dbl _ a b = fails _

string_op-KeepsEnv : (op : AstBinOp) (a b : Bytes) → KeepsEnv (string_op op a b)
unfolding string_op
string_op-KeepsEnv bin_lt a b = λ s. refl
string_op-KeepsEnv bin_gt a b = λ s. refl
string_op-KeepsEnv bin_lte a b = λ s. refl
string_op-KeepsEnv bin_gte a b = λ s. refl
string_op-KeepsEnv _ a b = fails _

ordered_op-KeepsEnv :
    (dbl : Doubles) (op : AstBinOp) (l r : HVal) → KeepsEnv (ordered_op dbl op l r)
unfolding ordered_op
ordered_op-KeepsEnv dbl op (val_integer a) (val_integer b) = int_op-KeepsEnv op a b
ordered_op-KeepsEnv dbl op (val_integer a) (val_float b) = float_op-KeepsEnv dbl op _ b
ordered_op-KeepsEnv dbl op (val_float a) (val_integer b) = float_op-KeepsEnv dbl op a _
ordered_op-KeepsEnv dbl op (val_float a) (val_float b) = float_op-KeepsEnv dbl op a b
ordered_op-KeepsEnv dbl op (val_string a) (val_string b) = string_op-KeepsEnv op a b
ordered_op-KeepsEnv dbl op _ _ = fails _

add_op-KeepsEnv : (dbl : Doubles) (l r : HVal) → KeepsEnv (add_op dbl l r)
unfolding add_op
add_op-KeepsEnv dbl (val_string a) (val_string b) = λ s. refl
add_op-KeepsEnv dbl l r = ordered_op-KeepsEnv dbl bin_add l r

and_op-KeepsEnv : (l r : HVal) → KeepsEnv (and_op l r)
unfolding and_op
and_op-KeepsEnv (val_boolean a) (val_boolean b) = λ s. refl
and_op-KeepsEnv _ _ = fails _

or_op-KeepsEnv : (l r : HVal) → KeepsEnv (or_op l r)
unfolding or_op
or_op-KeepsEnv (val_boolean a) (val_boolean b) = λ s. refl
or_op-KeepsEnv _ _ = fails _

pub binary_op-KeepsEnv : (h : Host) (op : AstBinOp) (l r : HVal) → KeepsEnv (binary_op h op l r)
unfolding binary_op
binary_op-KeepsEnv h bin_add l r = add_op-KeepsEnv h.doubles l r
binary_op-KeepsEnv h bin_and l r = and_op-KeepsEnv l r
binary_op-KeepsEnv h bin_or l r = or_op-KeepsEnv l r
binary_op-KeepsEnv h bin_eq l r = λ s. refl
binary_op-KeepsEnv h bin_neq l r = λ s. refl
binary_op-KeepsEnv h op l r = ordered_op-KeepsEnv h.doubles op l r

pub negate-KeepsEnv : (dbl : Doubles) (v : HVal) → KeepsEnv (negate dbl v)
unfolding negate
negate-KeepsEnv dbl (val_integer n) = checked-KeepsEnv _
negate-KeepsEnv dbl (val_float d) = λ s. refl
negate-KeepsEnv dbl _ = fails _

pub invert-KeepsEnv : (v : HVal) → KeepsEnv (invert v)
unfolding invert
invert-KeepsEnv (val_boolean b) = λ s. refl
invert-KeepsEnv _ = fails _

found-KeepsEnv : (o : Option HVal) (text : Bytes) → KeepsEnv (found o text)
found-KeepsEnv (some v) text = pure-KeepsEnv v
found-KeepsEnv none text = fails text

pub ident-KeepsEnv : (name : Bytes) → KeepsEnv (ident name)
unfolding ident
ident-KeepsEnv name s = found-KeepsEnv (env_lookup s name) _ s

pub input_ref-KeepsEnv : (name : Bytes) → KeepsEnv (input_ref name)
unfolding input_ref
input_ref-KeepsEnv name s = of_input s.input_record s
  where
    of_input : (o : Option HVal) → KeepsEnv (input_field o name)
    of_input (some (val_record fs)) = found-KeepsEnv _ _
    of_input _ = fails _

pub access-KeepsEnv : (v : HVal) (name : Bytes) → KeepsEnv (access v name)
unfolding access
access-KeepsEnv (val_record fs) name = found-KeepsEnv _ _
access-KeepsEnv _ name = fails _

pub call_result-KeepsEnv : (c : Called) → KeepsEnv (call_result c)
unfolding call_result error_set
call_result-KeepsEnv (value v) s = refl
call_result-KeepsEnv (error text) s = ([], refl)
call_result-KeepsEnv Called.undefined s = tt

pub through_result-KeepsEnv : (c : Called) → KeepsEnv (through_result c)
unfolding through_result error_set
through_result-KeepsEnv (value v) s = refl
through_result-KeepsEnv (error text) s = ([], refl)
through_result-KeepsEnv Called.undefined s = tt

pub or_else-KeepsEnv :
    (v : HVal) (fallback : M HVal) → KeepsEnv fallback → KeepsEnv (or_else v fallback)
or_else-KeepsEnv val_nothing fallback h = h
or_else-KeepsEnv v fallback h = pure-KeepsEnv v
