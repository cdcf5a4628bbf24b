-- ===== src/Value.antt =====
-- The values of include/heluna/evaluator.h (`HVal`, `HField`), with the field lookup of
-- src/evaluator.c (`record_get`), and `double` as a parameter.
--
-- A `long long` is an integer; that it lies in the range of 64 bits is said where it matters. A
-- `double` is its bit pattern, and what the hardware and the C library do with it is the record
-- `Doubles`. A string is its bytes before the terminator. The `next` link of a list member is the
-- list. Values are never changed once they are built, so that sharing them does not show.
use heluna_language.Common.{ℕ, suc, Bool, Option, none, some, Bytes, str_eq, if◌then◌else◌}
use heluna_language.Common.Int.{ℤ}

abbrev pub Double : Type 0
Double = ℕ

-- What the program takes from the hardware and the C library.
pub record Doubles : Type 0 where
  pub add : Double → Double → Double
  pub sub : Double → Double → Double
  pub mul : Double → Double → Double
  pub div : Double → Double → Double
  pub neg : Double → Double
  pub fabs : Double → Double
  pub fmax : Double → Double → Double
  pub eqb : Double → Double → Bool
  pub ltb : Double → Double → Bool
  pub leb : Double → Double → Bool
  pub zero : Double
  -- the constant 1e-9
  pub tolerance : Double
  -- `(double)n`
  pub of_int : ℤ → Double
  -- `(long long)d`; `none` where the value does not fit, which C leaves undefined
  pub to_int : Double → Option ℤ
  -- `strtod(s, NULL)`
  pub strtod : Bytes → Double
  -- `%g` and `%.17g`
  pub print_g : Double → Bytes
  pub print_17g : Double → Bytes

mutual
  pub data HVal : Type 0 where
    val_integer : ℤ → HVal
    val_float : Double → HVal
    val_string : Bytes → HVal
    val_boolean : Bool → HVal
    val_nothing : HVal
    val_record : HFields → HVal
    val_list : HVals → HVal

  pub data HFields : Type 0 where
    no_fields : HFields
    field : Bytes → HVal → HFields → HFields

  pub data HVals : Type 0 where
    no_items : HVals
    item : HVal → HVals → HVals

-- The loop of `record_get`: the first field of that name.
unfoldable pub field_get : HFields → Bytes → Option HVal
field_get no_fields name = none
field_get (field n v fs) name = if str_eq n name then some v else field_get fs name

unfoldable pub record_get : HVal → Bytes → Option HVal
unfolding field_get
record_get (val_record fs) name = field_get fs name
record_get _ name = none

unfoldable pub count_fields : HFields → ℕ
count_fields no_fields = 0
count_fields (field _ _ fs) = suc (count_fields fs)

unfoldable pub count_items : HVals → ℕ
count_items no_items = 0
count_items (item _ vs) = suc (count_items vs)
