-- ===== src/Evaluator/Division.antt =====
-- Integer `/` and `mod` of `eval_binary` in src/evaluator.c.
use heluna_language.Common.{
  ◌⊎◌, Bytes, ℕ, zero, suc, ◌+◌, ◌*◌, ◌/◌, ◌%◌, ◌<◌, ◌≡◌, ◌≢◌, refl, Bool, true, false, arith,
  Bool-cases, inl, inr, ◌==◌, if◌then◌else◌, subst, sym,
}
use heluna_language.Common.Int.{ℤ, pos, negsuc, sub_ℕ, ◌+ℤ◌, ◌*ℤ◌, nat_abs, quot_ℤ, rem_ℤ, fits}
use heluna_language.Value.{HVal, val_integer}
use heluna_language.Ast.{bin_div, bin_mod}
use heluna_language.Evaluator.State.{
  EvalState, Result, returned, null, undefined, eval_error, message,
}
use heluna_language.Evaluator.Equal.{Host}
use heluna_language.Evaluator.Operators.{binary_op, ordered_op, int_op, checked, is_zero}

abbrev Division : ℤ → ℤ → ℤ → ℤ → Type 0
Division a b q r = ((q *ℤ b) +ℤ r ≡ a) × (nat_abs r < nat_abs b)

from_pos : (q m r : ℕ) → r < m → Division (pos (q * m + r)) (pos m) (pos q) (pos r)
from_pos q m r h = (ground arith, ground arith)

pos_by_neg : (q b r : ℕ) → r < suc b → Division (pos (q * suc b + r)) (negsuc b) (sub_ℕ 0 q) (pos r)
pos_by_neg zero b r h = (ground arith, ground arith)
pos_by_neg (suc q) b r h = (ground arith, ground arith)

neg_by_pos :
    (q m r a : ℕ) → r < m → suc a ≡ q * m + r → Division (negsuc a) (pos m) (sub_ℕ 0 q) (sub_ℕ 0 r)
neg_by_pos zero m r a h e = (ground arith, ground arith)
neg_by_pos (suc q) m zero a h e = (ground arith, ground arith)
neg_by_pos (suc q) m (suc r) a h e = (ground arith, ground arith)

neg_by_neg :
    (q b r a : ℕ)
    → r < suc b
    → suc a ≡ q * suc b + r
    → Division (negsuc a) (negsuc b) (pos q) (sub_ℕ 0 r)
neg_by_neg q b zero a h e = (ground arith, ground arith)
neg_by_neg q b (suc r) a h e = (ground arith, ground arith)

-- The divisor's magnitude, as the remainder is taken by it.
by_magnitude :
    (a b q : ℤ) (f : ℕ → ℤ) {m : ℕ}
    → nat_abs b ≡ m
    → Division a b q (f m)
    → Division a b q (f (nat_abs b))
by_magnitude a b q f e d = subst (λ n. Division a b q (f n)) (sym e) d

quot_ℤ-rem_ℤ : (a b : ℤ) → nat_abs b ≢ 0 → Division a b (quot_ℤ a b) (rem_ℤ a b)
quot_ℤ-rem_ℤ (pos a) (pos b) h =
    by_magnitude (pos a) (pos b) (pos (a / b)) (λ m. pos (a % m)) {m = b} (omega arith)
      (subst (λ n. Division (pos n) (pos b) (pos (a / b)) (pos (a % b))) {x = a / b * b + a % b}
        {y = a} (omega arith) (from_pos (a / b) b (a % b) (omega arith)))
quot_ℤ-rem_ℤ (pos a) (negsuc b) h =
    by_magnitude (pos a) (negsuc b) (sub_ℕ 0 (a / suc b)) (λ m. pos (a % m)) {m = suc b}
      (omega arith)
      (subst (λ n. Division (pos n) (negsuc b) (sub_ℕ 0 (a / suc b)) (pos (a % suc b)))
        {x = a / suc b * suc b + a % suc b} {y = a} (omega arith)
        (pos_by_neg (a / suc b) b (a % suc b) (omega arith)))
quot_ℤ-rem_ℤ (negsuc a) (pos b) h =
    by_magnitude (negsuc a) (pos b) (sub_ℕ 0 (suc a / b)) (λ m. sub_ℕ 0 (suc a % m)) {m = b}
      (omega arith) (neg_by_pos (suc a / b) b (suc a % b) a (omega arith) (omega arith))
quot_ℤ-rem_ℤ (negsuc a) (negsuc b) h =
    by_magnitude (negsuc a) (negsuc b) (pos (suc a / suc b)) (λ m. sub_ℕ 0 (suc a % m)) {m = suc b}
      (omega arith) (neg_by_neg (suc a / suc b) b (suc a % suc b) a (omega arith) (omega arith))

-- NULL, with the error marked.
abbrev pub Fails : Result HVal → Type 0
Fails r = (t : EvalState) × (r ≡ null t) × (t.had_error ≡ true)

eval_error-Fails : (text : Bytes) (s : EvalState) → Fails (eval_error text s)
unfolding eval_error
eval_error-Fails text s = (_, refl, marked s.had_error refl)
  where
    marked :
        (b : Bool)
        → s.had_error ≡ b
        → (if b then s else record s { had_error = true; error = message text }).had_error ≡ true
    marked true e = e
    marked false e = refl

-- What `/` and `mod` do on two integers.
abbrev pub DivMod : ℤ → ℤ → EvalState → Result HVal → Result HVal → Type 0
DivMod a b s d m =
    ((nat_abs b ≡ 0) × Fails d × Fails m)
    ⊎ (((fits (quot_ℤ a b) ≡ false) × (d ≡ undefined) × (m ≡ undefined))
        ⊎ ((q : ℤ) × (r : ℤ) × (d ≡ returned (val_integer q) s)
            × (m ≡ returned (val_integer r) s)
            × ((q *ℤ b) +ℤ r ≡ a)
            × (nat_abs r < nat_abs b)))

-- On two integers `/` and `mod` both fail with an error and the divisor is zero; or the quotient
-- does not fit in 64 bits and both are undefined; or both return, with the state unchanged, the
-- quotient times the divisor plus the remainder is the dividend, and the remainder's magnitude is
-- below the divisor's.
pub binary_op-DivMod :
    (h : Host) (a b : ℤ) (s : EvalState)
    → DivMod a b s
        (binary_op h bin_div (val_integer a) (val_integer b) s)
        (binary_op h bin_mod (val_integer a) (val_integer b) s)
unfolding binary_op ordered_op int_op checked is_zero
binary_op-DivMod h a b s = elim (Bool-cases (nat_abs b == 0)) [
  | inl z ↦ inl (ground arith, rw z (eval_error-Fails _ s), rw z (eval_error-Fails _ s))
  | inr z ↦ elim (Bool-cases (fits (quot_ℤ a b))) [
    | inl f ↦
        let (law, bound) = quot_ℤ-rem_ℤ a b (ground arith) in
        inr (inr (quot_ℤ a b, rem_ℤ a b, rw z (rw f refl), rw z (rw f refl), law, bound))
    | inr f ↦ inr (inl (f, rw z (rw f refl), rw z (rw f refl)))
  ]
]
