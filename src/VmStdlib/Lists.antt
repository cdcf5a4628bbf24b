-- ===== src/VmStdlib/Lists.antt =====
-- The list functions of src/vm_stdlib.c but `sort` and `sort-by`.
use heluna_language.Common.{
  ℕ, zero, suc, ◌-◌, ◌^◌, Bool, false, ◌&&◌, ◌||◌, if◌then◌else◌, Bytes, codes,
}
use heluna_language.Common.Int.{ℤ, pos, negsuc, ◌+ℤ◌, ◌-ℤ◌, nat_abs, leb_ℤ, ltb_ℤ, eqb_ℤ}
use heluna_language.Value.{
  HVal, HVals, val_integer, val_record, val_list, no_fields, field, no_items, item,
}
use heluna_language.Stdlib.{Called, value, undefined}
use heluna_language.Evaluator.Equal.{hval_equal}
use heluna_language.Evaluator.Equal.{Host}
use heluna_language.VmStdlib.Fields.{get_field, get_integer, as_list, needs}

abbrev on_list : Bytes → HVal → (HVals → HVals) → Called
on_list missing arg f =
    needs missing (as_list (get_field arg (codes "list"))) λ vs. value (val_list (f vs))

-- Each member is put in front of those before it.
unfoldable pub reverse_onto : HVals → HVals → HVals
reverse_onto head no_items = head
reverse_onto head (item v vs) = reverse_onto (item v head) vs

unfoldable pub reverse : HVals → HVals
reverse = reverse_onto no_items

unfoldable pub fn_reverse : HVal → Called
fn_reverse arg = on_list (codes "reverse: missing or non-list 'list'") arg reverse

unfoldable pub append_items : HVals → HVals → HVals
append_items no_items ws = ws
append_items (item v vs) ws = item v (append_items vs ws)

unfoldable pub has_item : Host → HVals → HVal → Bool
has_item host no_items v = false
has_item host (item u us) v = hval_equal host u v || has_item host us v

-- `head` is the list built so far.
unfoldable pub unique_loop : Host → HVals → HVals → HVals
unique_loop host head no_items = head
unique_loop host head (item v vs) =
    unique_loop host (if has_item host head v then head else append_items head (item v no_items)) vs

unfoldable pub fn_unique : Host → HVal → Called
fn_unique host arg =
    on_list (codes "unique: missing or non-list 'list'") arg (unique_loop host no_items)

abbrev members : HVal → HVals
members (val_list subs) = subs
members v = item v no_items

unfoldable pub flatten : HVals → HVals
flatten no_items = no_items
flatten (item v vs) = append_items (members v) (flatten vs)

unfoldable pub fn_flatten : HVal → Called
fn_flatten arg = on_list (codes "flatten: missing or non-list 'list'") arg flatten

unfoldable pub zip : HVals → HVals → HVals
zip no_items bs = no_items
zip (item a as_) no_items = no_items
zip (item a as_) (item b bs) =
    item (val_record (field (codes "a") a (field (codes "b") b no_fields))) (zip as_ bs)

unfoldable pub fn_zip : HVal → Called
fn_zip arg =
    let missing = codes "zip: missing or non-list fields" in
    needs missing (as_list (get_field arg (codes "a")))
      λ la. needs missing (as_list (get_field arg (codes "b"))) λ lb. value (val_list (zip la lb))

-- So many integers from the first on, by the step.
unfoldable pub range_items : ℕ → ℤ → ℤ → HVals
range_items zero i step = no_items
range_items (suc n) i step = item (val_integer i) (range_items n (i +ℤ step) step)

-- The step behind the last round overflows where the end is the last `long long` in its direction.
unfoldable pub range : ℤ → ℤ → Called
range start last =
    let n = suc (nat_abs (last -ℤ start)) in
    if leb_ℤ start last
    then if eqb_ℤ last (pos (2 ^ 63 - 1))
      then undefined
      else value (val_list (range_items n start (pos 1)))
    else if eqb_ℤ last (negsuc (2 ^ 63 - 1))
    then undefined
    else value (val_list (range_items n start (negsuc 0)))

unfoldable pub fn_range : HVal → Called
fn_range arg =
    let missing = codes "range: missing 'start' or 'end'" in
    needs missing (get_integer arg (codes "start"))
      λ start. needs missing (get_integer arg (codes "end")) λ last. range start last

unfoldable pub slice_from : ℕ → ℤ → ℤ → HVals → HVals
slice_from i start last no_items = no_items
slice_from i start last (item v vs) =
    let rest = slice_from (suc i) start last vs in
    if leb_ℤ start (pos i) && ltb_ℤ (pos i) last then item v rest else rest

unfoldable pub fn_slice : HVal → Called
fn_slice arg =
    let missing = codes "slice: missing fields" in
    needs missing (as_list (get_field arg (codes "list"))) λ vs.
      needs missing (get_integer arg (codes "start")) λ start.
        needs missing (get_integer arg (codes "end"))
          λ last. value (val_list (slice_from 0 start last vs))
