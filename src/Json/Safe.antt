-- ===== src/Json/Safe.antt =====
-- The values that survive the way through JSON text, and how their text begins and ends.
use heluna_language.Common.{
  ℕ, suc, ◌-◌, ◌<◌, ◌≡◌, refl, Bool, true, false, not, ◌||◌, [], ◌∷◌, ◌++◌, ◌==◌, Bytes, arith, All,
  length, length-append, take, take-append,
}
use heluna_language.Common.Int.{ℤ, pos, negsuc, InRange}
use heluna_language.Value.{
  Doubles, HVal, HFields, HVals, val_integer, val_float, val_string, val_boolean, val_nothing,
  val_record, val_list, no_fields, field, no_items, item,
}
use heluna_language.Json.Numbers.{is_digit, print_int, digits, digits-cons, strtoll-print_int}
use heluna_language.Json.Strings.{emit_string}
use heluna_language.Json.Escapes.{Printable}
use heluna_language.Json.Emitter.{json_emit}
use heluna_language.Json.Parser.{
  head_or_nul, skip_digits, skip_whole, fraction, exponent, parse_number, parsed,
}

-- Integers of 64 bits, no floats, and no control bytes but those with a short escape, in strings
-- and in field names.
unfoldable mutual
  pub IsSafe : HVal → Type 0
  IsSafe (val_integer n) = InRange n
  IsSafe (val_float d) = ⊥
  IsSafe (val_string s) = Printable s
  IsSafe (val_boolean b) = Unit
  IsSafe val_nothing = Unit
  IsSafe (val_record fs) = AreSafeFields fs
  IsSafe (val_list vs) = AreSafe vs

  pub AreSafe : HVals → Type 0
  AreSafe no_items = Unit
  AreSafe (item v vs) = IsSafe v × AreSafe vs

  pub AreSafeFields : HFields → Type 0
  AreSafeFields no_fields = Unit
  AreSafeFields (field name v fs) = Printable name × IsSafe v × AreSafeFields fs

-- The first byte of an emitted value.
abbrev pub opens : ℕ → Bool
opens c =
    c == b'"'
    || c == b'{'
    || c == b'['
    || c == b'-'
    || is_digit c
    || c == b't'
    || c == b'f'
    || c == b'n'

abbrev pub Opening : Bytes → Type 0
Opening s = (c : ℕ) × (cs : Bytes) × (s ≡ c ∷ cs) × (opens c ≡ true)

-- A number ends before this text.
abbrev pub stops : Bytes → Bool
stops s = not (
    is_digit (head_or_nul s)
    || head_or_nul s == b'.'
    || head_or_nul s == b'e'
    || head_or_nul s == b'E')

abbrev pub starts_number : ℕ → Bool
starts_number c = c == b'-' || is_digit c

pub print_int-cons :
    (a : ℤ) → (c : ℕ) × (cs : Bytes) × (print_int a ≡ c ∷ cs) × (starts_number c ≡ true)
unfolding print_int
print_int-cons (pos n) =
    let (c, cs, q, d, _) = digits-cons (suc n) n (omega arith) in (c, cs, q, ground arith)
print_int-cons (negsuc n) = (b'-', digits (suc (suc n)) (suc n), refl, refl)

print_int-Opening : (a : ℤ) → Opening (print_int a)
print_int-Opening a = let (c, cs, q, d) = print_int-cons a in (c, cs, q, ground arith)

pub json_emit-Opening : (dbl : Doubles) (v : HVal) → IsSafe v → Opening (json_emit dbl v)
unfolding json_emit emit_string IsSafe
json_emit-Opening dbl (val_integer n) h = print_int-Opening n
json_emit-Opening dbl (val_float d) h = absurd h
json_emit-Opening dbl (val_string s) h = (_, _, refl, refl)
json_emit-Opening dbl (val_boolean true) h = (_, _, refl, refl)
json_emit-Opening dbl (val_boolean false) h = (_, _, refl, refl)
json_emit-Opening dbl val_nothing h = (_, _, refl, refl)
json_emit-Opening dbl (val_record fs) h = (_, _, refl, refl)
json_emit-Opening dbl (val_list vs) h = (_, _, refl, refl)

skip_digits-stop : (s : Bytes) → is_digit (head_or_nul s) ≡ false → skip_digits s ≡ s
unfolding skip_digits
skip_digits-stop [] h = refl
skip_digits-stop (c ∷ cs) h = rw h

skip_digits-digits :
    (ds s : Bytes)
    → All (λ d. is_digit d ≡ true) ds
    → is_digit (head_or_nul s) ≡ false
    → skip_digits (ds ++ s) ≡ s
unfolding skip_digits
skip_digits-digits [] s a h = skip_digits-stop s h
skip_digits-digits (d ∷ ds) s a h = rw a.0 (skip_digits-digits ds s a.1 h)

text_taken : (ds s : Bytes) → take (length (ds ++ s) - length s) (ds ++ s) ≡ ds
text_taken ds s =
    let e : length (ds ++ s) - length s ≡ length ds = omega (arith, length-append ds s) in
    rw e (take-append ds s)

number_ends : (s : Bytes) → stops s ≡ true → (fraction s ≡ (false, s)) × (exponent s ≡ (false, s))
unfolding fraction exponent
number_ends s h = (ground arith, ground arith)

skip_whole-digits :
    (f n : ℕ) (s : Bytes)
    → n < f
    → is_digit (head_or_nul s) ≡ false
    → (skip_whole (digits f n ++ s) ≡ s) × (skip_whole (b'-' ∷ (digits f n ++ s)) ≡ s)
unfolding skip_whole
skip_whole-digits f n s b h =
    let (c, cs, q, d, a) = digits-cons f n b in
    let minus : (c == b'-') ≡ false = ground arith in
    let all = skip_digits-digits (c ∷ cs) s (d, a) h in rw q ((rw minus all), all)

skip_whole-print_int : (a : ℤ) (s : Bytes) → stops s ≡ true → skip_whole (print_int a ++ s) ≡ s
unfolding print_int
skip_whole-print_int (pos n) s h = (skip_whole-digits (suc n) n s (omega arith) (ground arith)).0
skip_whole-print_int (negsuc n) s h =
    (skip_whole-digits (suc (suc n)) (suc n) s (omega arith) (ground arith)).1

-- The number reader takes a printed integer off the text.
pub parse_number-print_int :
    (dbl : Doubles) (a : ℤ) (s : Bytes)
    → InRange a
    → stops s ≡ true
    → parse_number dbl (print_int a ++ s) ≡ parsed (val_integer a) s
unfolding parse_number
parse_number-print_int dbl a s r h = rw (
  skip_whole-print_int a s h,
  (number_ends s h).0,
  (number_ends s h).1,
  text_taken (print_int a) s,
  strtoll-print_int a r,
)
