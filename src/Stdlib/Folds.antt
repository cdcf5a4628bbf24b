-- ===== src/Stdlib/Folds.antt =====
-- `fn_fold` of src/stdlib.c against the sum of the list.
use heluna_language.Common.{
  ℕ, ◌+◌, ◌^◌, ◌<◌, ◌≤◌, ◌≡◌, true, List, [], ◌∷◌, arith, codes, ◌∙◌, ap, sym, if◌then◌else◌, some,
  none, Option, str_eq,
}
use heluna_language.Common.Int.{ℤ, pos, negsuc, ◌+ℤ◌, fits, nat_abs}
use heluna_language.Value.{Doubles, HVal, HVals, val_integer, no_items, item}
use heluna_language.Stdlib.{value, fold_step, fold_loop, fold_over}

abbrev pub integers : List ℤ → HVals
integers [] = no_items
integers (n ∷ ns) = item (val_integer n) (integers ns)

abbrev pub sum : List ℤ → ℤ
sum [] = pos 0
sum (n ∷ ns) = n +ℤ sum ns

abbrev pub magnitude : List ℤ → ℕ
magnitude [] = 0
magnitude (n ∷ ns) = nat_abs n + magnitude ns

+ℤ-assoc : (a b c : ℤ) → (a +ℤ b) +ℤ c ≡ a +ℤ (b +ℤ c)
+ℤ-assoc (pos a) (pos b) (pos c) = ground arith
+ℤ-assoc (pos a) (pos b) (negsuc c) = ground arith
+ℤ-assoc (pos a) (negsuc b) (pos c) = ground arith
+ℤ-assoc (pos a) (negsuc b) (negsuc c) = ground arith
+ℤ-assoc (negsuc a) (pos b) (pos c) = ground arith
+ℤ-assoc (negsuc a) (pos b) (negsuc c) = ground arith
+ℤ-assoc (negsuc a) (negsuc b) (pos c) = ground arith
+ℤ-assoc (negsuc a) (negsuc b) (negsuc c) = ground arith

+ℤ-zero : (a : ℤ) → a +ℤ pos 0 ≡ a
+ℤ-zero (pos a) = ground arith
+ℤ-zero (negsuc a) = ground arith

nat_abs-+ℤ : (a b : ℤ) → nat_abs (a +ℤ b) ≤ nat_abs a + nat_abs b
nat_abs-+ℤ (pos a) (pos b) = ground arith
nat_abs-+ℤ (pos a) (negsuc b) = ground arith
nat_abs-+ℤ (negsuc a) (pos b) = ground arith
nat_abs-+ℤ (negsuc a) (negsuc b) = ground arith

fits_small : (a : ℤ) → nat_abs a < 2 ^ 63 → fits a ≡ true
fits_small (pos n) h = ground arith
fits_small (negsuc n) h = ground arith

fold_loop-item :
    (step : HVal → HVal → Option HVal) (acc v next : HVal) (vs : HVals)
    → step acc v ≡ some next
    → fold_loop step acc (item v vs) ≡ fold_loop step next vs
unfolding fold_loop
fold_loop-item step acc v next vs h = rw (h, fold_loop)

fold_loop-sum :
    (dbl : Doubles) (a : ℤ) (ns : List ℤ)
    → nat_abs a + magnitude ns < 2 ^ 63
    → fold_loop (fold_step dbl ◌+ℤ◌ dbl.add) (val_integer a) (integers ns)
      ≡ value (val_integer (a +ℤ sum ns))
unfolding fold_loop fold_step
fold_loop-sum dbl a [] h = ap (λ n. value (val_integer n)) (sym (+ℤ-zero a))
fold_loop-sum dbl a (n ∷ ns) h =
    let small = fits_small (a +ℤ n) (omega (arith, nat_abs-+ℤ a n)) in
    fold_loop-item (fold_step dbl ◌+ℤ◌ dbl.add) (val_integer a) (val_integer n)
      (val_integer (a +ℤ n)) (integers ns)
      (ap (λ b. if b then some (val_integer (a +ℤ n)) else none) small)
    ∙ fold_loop-sum dbl (a +ℤ n) ns (omega (arith, nat_abs-+ℤ a n))
    ∙ ap (λ m. value (val_integer m)) (+ℤ-assoc a n (sum ns))

-- `fold` with "add" over a list of integers whose magnitudes, with that of the initial value, sum to
-- less than 2^63, is the initial value plus the sum of the list.
pub fold_over-sum :
    (dbl : Doubles) (a : ℤ) (ns : List ℤ)
    → nat_abs a + magnitude ns < 2 ^ 63
    → fold_over dbl (codes "add") (val_integer a) (integers ns) ≡ value (val_integer (a +ℤ sum ns))
unfolding fold_over fold_loop str_eq
fold_over-sum dbl a [] h = ap (λ n. value (val_integer n)) (sym (+ℤ-zero a))
fold_over-sum dbl a (n ∷ ns) h = fold_loop-sum dbl a (n ∷ ns) h
