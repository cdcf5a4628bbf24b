-- ===== src/Evaluator/Equal.antt =====
-- `hval_equal` of src/evaluator.c.
use heluna_language.Common.{Bool, true, false, ◌&&◌, ◌||◌, Option, none, some, ◌==◌, Bytes, str_eq}
use heluna_language.Common.Int.{ℤ, eqb_ℤ}
use heluna_language.Value.{
  Double, Doubles, HVal, HFields, HVals, val_integer, val_float, val_string, val_boolean,
  val_nothing, val_record, val_list, no_fields, field, no_items, item, field_get, count_fields,
}

-- The machine that the evaluator runs on: doubles, and whether two values are the same object.
-- The values of the model have no addresses, so the test `a == b` on pointers is a parameter.
pub record Host : Type 0 where
  pub doubles : Doubles
  pub same_object : HVal → HVal → Bool

unfoldable pub floats_equal : Doubles → Double → Double → Bool
floats_equal dbl a b =
    dbl.eqb a b
    || dbl.leb (dbl.fabs (dbl.sub a b)) (dbl.mul (dbl.fmax (dbl.fabs a) (dbl.fabs b)) dbl.tolerance)

abbrev bools_equal : Bool → Bool → Bool
bools_equal true b = b
bools_equal false true = false
bools_equal false false = true

-- The comparison of two values that are known to be different objects, where the kind of the
-- first decides what the second has to be.
abbrev is_integer : ℤ → HVal → Bool
is_integer m (val_integer n) = eqb_ℤ m n
is_integer m _ = false

abbrev is_float : Doubles → Double → HVal → Bool
is_float dbl d (val_float e) = floats_equal dbl d e
is_float dbl d _ = false

abbrev is_string : Bytes → HVal → Bool
is_string s (val_string t) = str_eq s t
is_string s _ = false

abbrev is_boolean : Bool → HVal → Bool
is_boolean a (val_boolean b) = bools_equal a b
is_boolean a _ = false

abbrev is_nothing : HVal → Bool
is_nothing val_nothing = true
is_nothing _ = false

abbrev on_record : (HFields → Bool) → HVal → Bool
on_record test (val_record gs) = test gs
on_record test _ = false

abbrev on_list : (HVals → Bool) → HVal → Bool
on_list test (val_list ws) = test ws
on_list test _ = false

abbrev on_some : (HVal → Bool) → Option HVal → Bool
on_some test none = false
on_some test (some v) = test v

unfoldable mutual
  pub hval_equal : Host → HVal → HVal → Bool
  hval_equal h (val_integer m) b = h.same_object (val_integer m) b || is_integer m b
  hval_equal h (val_float d) b = h.same_object (val_float d) b || is_float h.doubles d b
  hval_equal h (val_string s) b = h.same_object (val_string s) b || is_string s b
  hval_equal h (val_boolean c) b = h.same_object (val_boolean c) b || is_boolean c b
  hval_equal h val_nothing b = h.same_object val_nothing b || is_nothing b
  hval_equal h (val_record fs) b =
      h.same_object (val_record fs) b
      || on_record (λ gs. count_fields fs == count_fields gs && fields_equal h fs gs) b
  hval_equal h (val_list vs) b =
      h.same_object (val_list vs) b || on_list (λ ws. items_equal h vs ws) b

  pub fields_equal : Host → HFields → HFields → Bool
  fields_equal h no_fields gs = true
  fields_equal h (field name v fs) gs =
      on_some (λ w. hval_equal h v w) (field_get gs name) && fields_equal h fs gs

  pub items_equal : Host → HVals → HVals → Bool
  items_equal h no_items no_items = true
  items_equal h no_items (item _ _) = false
  items_equal h (item _ _) no_items = false
  items_equal h (item v vs) (item w ws) = hval_equal h v w && items_equal h vs ws
