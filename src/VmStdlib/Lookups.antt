-- ===== src/VmStdlib/Lookups.antt =====
-- What the fields of the records are that `merge`, `pick` and `omit` of src/vm_stdlib.c give.
use heluna_language.Common.{
  ◌≡◌, refl, Bool, true, false, ◌||◌, Option, none, some, if◌then◌else◌, Bytes, codes, str_eq,
  str_eq-eq, str_eq_refl, ap, sym, ◌∙◌, Bool-cases, inl, inr, subst,
}
use heluna_language.Value.{
  HVal, HFields, HVals, val_integer, val_float, val_boolean, val_nothing, val_string, val_record,
  val_list, no_fields, field, no_items, item, field_get,
}
use heluna_language.Stdlib.{value}
use heluna_language.VmStdlib.Fields.{get_field, as_list, as_record}
use heluna_language.VmStdlib.Records.{
  set_field, merge, fn_merge, picked, pick, fn_pick, is_named, omit, fn_omit,
}

abbrev pub or_else : Option HVal → Option HVal → Option HVal
or_else none other = other
or_else (some v) other = some v

-- The last field of that name.
unfoldable pub last_field : HFields → Bytes → Option HVal
last_field no_fields m = none
last_field (field n v fs) m = or_else (last_field fs m) (if str_eq n m then some v else none)

same_name : (a b c : Bytes) → str_eq a c ≡ true → str_eq b c ≡ true → str_eq a b ≡ true
same_name a b c h k = ap (λ t. str_eq a t) (str_eq-eq b c k ∙ sym (str_eq-eq a c h)) ∙ str_eq_refl a

str_eq_sym : (a b : Bytes) → str_eq a b ≡ str_eq b a
str_eq_sym a b = go (str_eq a b) (str_eq b a) refl refl
  where
    go : (p q : Bool) → str_eq a b ≡ p → str_eq b a ≡ q → p ≡ q
    go true true h k = refl
    go false false h k = refl
    go true false h k = sym (same_name b a b (str_eq_refl b) h) ∙ k
    go false true h k = sym h ∙ same_name a b a (str_eq_refl a) k

abbrev first_if : Bool → HVal → Option HVal → Option HVal
first_if b v other = if b then some v else other

again : (b : Bool) (v w : HVal) (o : Option HVal) → first_if b v o ≡ first_if b v (first_if b w o)
again true v w o = refl
again false v w o = refl

swapped :
    (k n m : Bytes) (p q : Bool) (v w : HVal) (o : Option HVal)
    → str_eq k n ≡ false
    → str_eq k m ≡ p
    → str_eq n m ≡ q
    → first_if p w (first_if q v o) ≡ first_if q v (first_if p w o)
swapped k n m true true v w o e hp hq = let both = same_name k n m hp hq in cc
swapped k n m true false v w o e hp hq = refl
swapped k n m false true v w o e hp hq = refl
swapped k n m false false v w o e hp hq = refl

field_get-set_field :
    (fs : HFields) (n : Bytes) (v : HVal) (m : Bytes)
    → field_get (set_field fs n v) m ≡ first_if (str_eq n m) v (field_get fs m)
unfolding field_get set_field
field_get-set_field no_fields n v m = refl
field_get-set_field (field k w fs) n v m = elim (Bool-cases (str_eq k n)) [
  | inl e ↦ rw (e, str_eq-eq k n e) (again (str_eq n m) v w (field_get fs m))
  | inr e ↦
      rw (e, field_get-set_field fs n v m)
        (swapped k n m (str_eq k m) (str_eq n m) v w (field_get fs m) e refl refl)
]

field_get-merge :
    (a b : HFields) (m : Bytes) → field_get (merge a b) m ≡ or_else (last_field b m) (field_get a m)
unfolding merge last_field
field_get-merge a no_fields m = refl
field_get-merge a (field n v fs) m =
    field_get-merge (set_field a n v) fs m
    ∙ ap (or_else (last_field fs m)) (field_get-set_field a n v m)
    ∙ assoc (last_field fs m) (str_eq n m)
  where
    assoc :
        (o : Option HVal) (b : Bool)
        → or_else o (if b then some v else field_get a m)
          ≡ or_else (or_else o (if b then some v else none)) (field_get a m)
    assoc none true = refl
    assoc none false = refl
    assoc (some w) b = refl

-- Only what is named, and all but that.
abbrev pub only : Bool → Option HVal → Option HVal
only b o = if b then o else none

abbrev pub all_but : Bool → Option HVal → Option HVal
all_but b o = if b then none else o

only-none : (b : Bool) → none ≡ only b none
only-none true = refl
only-none false = refl

field_get-picked :
    (fs rest : HFields) (s n : Bytes) (b : Bool) (o : Option HVal)
    → field_get fs s ≡ o
    → field_get rest n ≡ only b (field_get fs n)
    → field_get (picked s o rest) n ≡ only (str_eq n s || b) (field_get fs n)
unfolding field_get
field_get-picked fs rest s n b o h r = elim (Bool-cases (str_eq n s)) [
  | inl e ↦ named o h (str_eq-eq n s e)
  | inr e ↦ other o e
]
  where
    named :
        (o : Option HVal)
        → field_get fs s ≡ o
        → n ≡ s
        → field_get (picked s o rest) n ≡ only (str_eq n s || b) (field_get fs n)
    named none h e =
        rw (e, str_eq_refl s, h)
          (subst (λ t. field_get rest t ≡ none) e
            (r ∙ ap (only b) (ap (field_get fs) e ∙ h) ∙ sym (only-none b)))
    named (some v) h e = rw (e, str_eq_refl s, h)

    other :
        (o : Option HVal)
        → str_eq n s ≡ false
        → field_get (picked s o rest) n ≡ only (str_eq n s || b) (field_get fs n)
    other none e = rw e r
    other (some v) e = rw (str_eq_sym s n, e) r

none_but : (b : Bool) → none ≡ all_but b none
none_but true = refl
none_but false = refl

omit_step :
    (p q r : Bool) (v : HVal) (o rest : Option HVal)
    → (p ≡ true → q ≡ r)
    → rest ≡ all_but r o
    → (if q then rest else first_if p v rest) ≡ all_but r (first_if p v o)
omit_step true true true v o rest s h = h
omit_step true false false v o rest s h = refl
omit_step true true false v o rest s h = let no = s refl in cc
omit_step true false true v o rest s h = let no = s refl in cc
omit_step false true r v o rest s h = h
omit_step false false r v o rest s h = h

field_get-omit :
    (fs : HFields) (names : HVals) (n : Bytes)
    → field_get (omit fs names) n ≡ all_but (is_named names n) (field_get fs n)
unfolding omit field_get
field_get-omit no_fields names n = none_but (is_named names n)
field_get-omit (field m v fs) names n =
    under (is_named names m)
    ∙ omit_step (str_eq m n) (is_named names m) (is_named names n) v (field_get fs n)
        (field_get (omit fs names) n) (λ e. ap (is_named names) (str_eq-eq m n e))
        (field_get-omit fs names n)
  where
    under :
        (b : Bool)
        → field_get (if b then omit fs names else field m v (omit fs names)) n ≡ (
            if b
            then field_get (omit fs names) n
            else first_if (str_eq m n) v (field_get (omit fs names) n))
    under true = refl
    under false = refl

field_get-pick :
    (fs : HFields) (names : HVals) (n : Bytes)
    → field_get (pick fs names) n ≡ only (is_named names n) (field_get fs n)
unfolding pick is_named field_get
field_get-pick fs no_items n = refl
field_get-pick fs (item (val_string s) names) n =
    field_get-picked fs (pick fs names) s n (is_named names n) (field_get fs s) refl
      (field_get-pick fs names n)
field_get-pick fs (item (val_integer _) names) n = field_get-pick fs names n
field_get-pick fs (item (val_float _) names) n = field_get-pick fs names n
field_get-pick fs (item (val_boolean _) names) n = field_get-pick fs names n
field_get-pick fs (item val_nothing names) n = field_get-pick fs names n
field_get-pick fs (item (val_record _) names) n = field_get-pick fs names n
field_get-pick fs (item (val_list _) names) n = field_get-pick fs names n

-- merge returns a record in which every name has the value of the last field of that name in `b`,
-- and where `b` has none, the value that it has in `a`.
pub fn_merge_lem :
    (arg : HVal) (a b : HFields) (n : Bytes)
    → as_record (get_field arg (codes "a")) ≡ some a
    → as_record (get_field arg (codes "b")) ≡ some b
    → (fn_merge arg ≡ value (val_record (merge a b)))
      × (field_get (merge a b) n ≡ or_else (last_field b n) (field_get a n))
unfolding fn_merge
fn_merge_lem arg a b n h k = (rw (h, k), field_get-merge a b n)

-- pick and omit on one record and one list of names return two records: a name that is a string of the
-- list has its value from the record in what pick returns and no value in what omit returns, and
-- every other name the other way round.
pub fn_pick-fn_omit :
    (arg : HVal) (fs : HFields) (names : HVals) (n : Bytes)
    → as_record (get_field arg (codes "record")) ≡ some fs
    → as_list (get_field arg (codes "fields")) ≡ some names
    → (fn_pick arg ≡ value (val_record (pick fs names)))
      × (fn_omit arg ≡ value (val_record (omit fs names)))
      × (field_get (pick fs names) n ≡ only (is_named names n) (field_get fs n))
      × (field_get (omit fs names) n ≡ all_but (is_named names n) (field_get fs n))
unfolding fn_pick fn_omit
fn_pick-fn_omit arg fs names n h k =
    (rw (h, k), rw (h, k), field_get-pick fs names n, field_get-omit fs names n)
