-- ===== src/VmStdlib/Numbers.antt =====
-- The number functions of src/vm_stdlib.c.
--
-- `min`, `max` and `clamp` test for a float only, so that the bytes of a value of any other kind are
-- read as an integer, which C leaves undefined where it is none.
use heluna_language.Common.{Bool, true, false, Option, none, some, if◌then◌else◌, Bytes, codes}
use heluna_language.Common.Int.{ℤ, pos, negsuc, neg_ℤ, fits}
use heluna_language.Value.{Double, Doubles, HVal, val_integer, val_float}
use heluna_language.Stdlib.{Called, value, error, undefined}
use heluna_language.VmStdlib.Fields.{get_field, needs}

-- `ceil`, `floor` and `round` of the C library.
pub record Rounding : Type 0 where
  pub ceil : Double → Double
  pub floor : Double → Double
  pub round : Double → Double

abbrev integer : ℤ → Called
integer n = if fits n then value (val_integer n) else undefined

abbrev absolute : ℤ → Called
absolute (pos n) = integer (pos n)
absolute (negsuc n) = integer (neg_ℤ (negsuc n))

unfoldable pub abs_of : Doubles → HVal → Called
abs_of dbl (val_integer n) = absolute n
abs_of dbl (val_float d) = value (val_float (dbl.fabs d))
abs_of dbl _ = error (codes "abs: non-numeric value")

unfoldable pub fn_abs : Doubles → HVal → Called
fn_abs dbl arg = needs (codes "abs: missing 'value'") (get_field arg (codes "value")) (abs_of dbl)

abbrev converted : Option ℤ → Called
converted none = undefined
converted (some n) = value (val_integer n)

-- An integer is its own result; a float is rounded and converted.
unfoldable pub rounded_of : Doubles → (Double → Double) → Bytes → HVal → Called
rounded_of dbl f text (val_integer n) = value (val_integer n)
rounded_of dbl f text (val_float d) = converted (dbl.to_int (f d))
rounded_of dbl f text _ = error text

unfoldable pub fn_ceil : Doubles → Rounding → HVal → Called
fn_ceil dbl r arg =
    needs (codes "ceil: missing 'value'") (get_field arg (codes "value"))
      (rounded_of dbl r.ceil (codes "ceil: non-numeric value"))

unfoldable pub fn_floor : Doubles → Rounding → HVal → Called
fn_floor dbl r arg =
    needs (codes "floor: missing 'value'") (get_field arg (codes "value"))
      (rounded_of dbl r.floor (codes "floor: non-numeric value"))

unfoldable pub fn_round : Doubles → Rounding → HVal → Called
fn_round dbl r arg =
    needs (codes "round: missing 'value'") (get_field arg (codes "value"))
      (rounded_of dbl r.round (codes "round: non-numeric value"))

abbrev number : Doubles → HVal → Option Double
number dbl (val_float d) = some d
number dbl (val_integer n) = some (dbl.of_int n)
number dbl _ = none

abbrev with_numbers : Option Double → Option Double → (Double → Double → Called) → Called
with_numbers (some a) (some b) f = f a b
with_numbers _ _ f = undefined

unfoldable pub fn_min : Doubles → HVal → Called
fn_min dbl arg =
    let missing = codes "min: missing fields" in
    needs missing (get_field arg (codes "a")) λ va. needs missing (get_field arg (codes "b")) λ vb.
      with_numbers (number dbl va) (number dbl vb) λ da db. value (if dbl.leb da db then va else vb)

unfoldable pub fn_max : Doubles → HVal → Called
fn_max dbl arg =
    let missing = codes "max: missing fields" in
    needs missing (get_field arg (codes "a")) λ va. needs missing (get_field arg (codes "b")) λ vb.
      with_numbers (number dbl va) (number dbl vb) λ da db. value (if dbl.leb db da then va else vb)

-- Raised to the lower bound, then lowered to the upper one.
abbrev clamped : Doubles → Double → Double → Double → Double
clamped dbl dv dl dh =
    let raised = if dbl.ltb dv dl then dl else dv in if dbl.ltb dh raised then dh else raised

-- Whether all three are integers, in which case the result is converted back.
abbrev all_integers : HVal → HVal → HVal → Bool
all_integers (val_integer _) (val_integer _) (val_integer _) = true
all_integers _ _ _ = false

abbrev clamp_numbers : Doubles → Bool → Option Double → Option Double → Option Double → Called
clamp_numbers dbl whole (some dv) (some dl) (some dh) =
    if whole
    then converted (dbl.to_int (clamped dbl dv dl dh))
    else value (val_float (clamped dbl dv dl dh))
clamp_numbers dbl whole _ _ _ = undefined

unfoldable pub fn_clamp : Doubles → HVal → Called
fn_clamp dbl arg =
    let missing = codes "clamp: missing fields" in
    needs missing (get_field arg (codes "value")) λ val.
      needs missing (get_field arg (codes "min")) λ lo.
        needs missing (get_field arg (codes "max")) λ hi.
          clamp_numbers dbl (all_integers val lo hi) (number dbl val) (number dbl lo)
            (number dbl hi)
