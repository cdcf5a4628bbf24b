-- ===== src/Evaluator/Reflexive.antt =====
-- `hval_equal` of src/evaluator.c on one value.
use heluna_language.Common.{
  ◌≡◌, refl, Bool, true, false, ◌||◌, ◌&&◌, none, some, Bytes, arith, Bool-cases, inl, inr, str_eq,
  str_eq-eq, str_eq_refl, ap, ==_refl,
}
use heluna_language.Common.Int.{eqb_ℤ_refl}
use heluna_language.Value.{
  HVal, HFields, HVals, val_integer, val_float, val_string, val_boolean, val_nothing, val_record,
  val_list, no_fields, field, no_items, item, field_get, count_fields,
}
use heluna_language.Evaluator.Equal.{Host, hval_equal, fields_equal, items_equal, floats_equal}

-- Every float in the value equals itself, which only a NaN does not, and no record has two fields of
-- one name.
unfoldable mutual
  pub IsRegular : Host → HVal → Type 0
  IsRegular h (val_float d) = h.doubles.eqb d d ≡ true
  IsRegular h (val_record fs) = AreRegularFields h fs
  IsRegular h (val_list vs) = AreRegular h vs
  IsRegular h _ = Unit

  pub AreRegularFields : Host → HFields → Type 0
  AreRegularFields h no_fields = Unit
  AreRegularFields h (field name v fs) =
      (field_get fs name ≡ none) × IsRegular h v × AreRegularFields h fs

  pub AreRegular : Host → HVals → Type 0
  AreRegular h no_items = Unit
  AreRegular h (item v vs) = IsRegular h v × AreRegular h vs

-- Each field of the first record is found in the second.
abbrev Found : HFields → HFields → Type 0
Found no_fields gs = Unit
Found (field name v fs) gs = (field_get gs name ≡ some v) × Found fs gs

field_get-other :
    (name n : Bytes) (v w : HVal) (fs : HFields)
    → field_get (field n w fs) name ≡ none
    → (str_eq name n ≡ false) × (field_get fs name ≡ none)
unfolding field_get
field_get-other name n v w fs h = elim (Bool-cases (str_eq n name)) [
  | inl e ↦ absurd (ground arith)
  | inr e ↦ (
    elim (Bool-cases (str_eq name n)) [
      | inl q ↦ absurd (ground (arith, e, str_eq_refl n, ap (λ t. str_eq n t) (str_eq-eq name n q)))
      | inr q ↦ q
    ],
    rw e at h,
  )
]

Found-field :
    (name : Bytes) (v : HVal) (fs gs : HFields)
    → field_get fs name ≡ none
    → Found fs gs
    → Found fs (field name v gs)
unfolding field_get
Found-field name v no_fields gs h f = tt
Found-field name v (field n w fs) gs h f =
    let (e, rest) = field_get-other name n v w fs h in (rw e f.0, Found-field name v fs gs rest f.1)

Found-self : (h : Host) (fs : HFields) → AreRegularFields h fs → Found fs fs
unfolding field_get IsRegular
Found-self h no_fields r = tt
Found-self h (field name v fs) r =
    (rw (str_eq_refl name) refl, Found-field name v fs fs r.0 (Found-self h fs r.2))

or_true : (a : Bool) {b : Bool} → b ≡ true → a || b ≡ true
or_true true h = refl
or_true false h = h

and_true : {a b : Bool} → a ≡ true → b ≡ true → a && b ≡ true
and_true h k = rw h k

mutual
  unfolding hval_equal IsRegular floats_equal

  hval_equal_self : (h : Host) (v : HVal) → IsRegular h v → hval_equal h v v ≡ true
  hval_equal_self h (val_integer n) r = or_true _ (eqb_ℤ_refl n)
  hval_equal_self h (val_float d) r = or_true _ {b = floats_equal h.doubles d d} (rw r refl)
  hval_equal_self h (val_string s) r = or_true _ (str_eq_refl s)
  hval_equal_self h (val_boolean true) r = or_true _ refl
  hval_equal_self h (val_boolean false) r = or_true _ refl
  hval_equal_self h val_nothing r = or_true _ refl
  hval_equal_self h (val_record fs) r =
      or_true _
        (and_true (==_refl (count_fields fs)) (fields_equal-Found h fs fs r (Found-self h fs r)))
  hval_equal_self h (val_list vs) r = or_true _ (items_equal_self h vs r)

  fields_equal-Found :
      (h : Host) (fs gs : HFields)
      → AreRegularFields h fs
      → Found fs gs
      → fields_equal h fs gs ≡ true
  fields_equal-Found h no_fields gs r f = refl
  fields_equal-Found h (field name v fs) gs r f =
      and_true (rw f.0 (hval_equal_self h v r.1)) (fields_equal-Found h fs gs r.2 f.1)

  items_equal_self : (h : Host) (vs : HVals) → AreRegular h vs → items_equal h vs vs ≡ true
  items_equal_self h no_items r = refl
  items_equal_self h (item v vs) r = and_true (hval_equal_self h v r.0) (items_equal_self h vs r.1)

-- A value in which every float equals itself and no record has two fields of one name is equal to
-- itself, also where the two are different objects.
pub hval_equal_refl : (h : Host) (v : HVal) → IsRegular h v → hval_equal h v v ≡ true
hval_equal_refl = hval_equal_self
