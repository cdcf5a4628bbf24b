-- ===== src/Json/Numbers.antt =====
-- Decimal numbers: the `%lld` of the C library's printf, its `strtoll` in base 10, and what
-- `parse_number` of src/json.c reads.
use heluna_language.Common.{
  ℕ, zero, suc, ◌+◌, ◌-◌, ◌*◌, ◌/◌, ◌%◌, ◌^◌, ◌<◌, ◌≡◌, Bool, true, false, ◌&&◌, ◌||◌, List, [],
  ◌∷◌, ◌++◌, leb, ltb, ◌==◌, if◌then◌else◌, Bytes, arith, append_assoc, All, lt→ltb, Bool-cases,
  inl, inr, ◌∙◌, ap, sym, append-nil,
}
use heluna_language.Common.Int.{ℤ, pos, negsuc, InRange}

abbrev pub is_digit : ℕ → Bool
is_digit c = leb b'0' c && leb c b'9'

abbrev pub is_space : ℕ → Bool
is_space c = c == b' ' || (leb 9 c && leb c 13)

-- The digits of a number, by fuel above the number.
unfoldable pub digits : ℕ → ℕ → Bytes
digits zero n = []
digits (suc f) n =
    let more = digits f (n / 10) ++ (b'0' + n % 10) ∷ [] in
    if ltb n 10 then (b'0' + n) ∷ [] else more

-- `%lld`.
unfoldable pub print_int : ℤ → Bytes
print_int (pos n) = digits (suc n) n
print_int (negsuc n) = b'-' ∷ digits (suc (suc n)) (suc n)

-- The value of the digits at the front, on top of those read before.
unfoldable pub read_digits : ℕ → Bytes → ℕ
read_digits acc [] = acc
read_digits acc (c ∷ cs) =
    let more = read_digits (acc * 10 + (c - b'0')) cs in if is_digit c then more else acc

-- A value beyond the range is cut to the nearest end of it.
abbrev clamp : Bool → ℕ → ℤ
clamp true zero = pos 0
clamp true (suc n) = if ltb n (2 ^ 63) then negsuc n else negsuc (2 ^ 63 - 1)
clamp false n = if ltb n (2 ^ 63) then pos n else pos (2 ^ 63 - 1)

unfoldable pub signed : Bytes → ℤ
signed [] = pos 0
signed (c ∷ cs) =
    if c == b'-'
    then clamp true (read_digits 0 cs)
    else if c == b'+'
    then clamp false (read_digits 0 cs)
    else clamp false (read_digits 0 (c ∷ cs))

-- `strtoll(s, NULL, 10)`.
unfoldable pub strtoll : Bytes → ℤ
strtoll [] = pos 0
strtoll (c ∷ cs) = let rest = strtoll cs in if is_space c then rest else signed (c ∷ cs)

digit-is_digit : (d : ℕ) → d < 10 → is_digit (b'0' + d) ≡ true
digit-is_digit d h = ground arith

read_digits-digits :
    (f n : ℕ) (rest : Bytes) → n < f → read_digits 0 (digits f n ++ rest) ≡ read_digits n rest
unfolding digits read_digits
read_digits-digits zero n rest h = absurd (omega arith)
read_digits-digits (suc f) n rest h = elim (Bool-cases (ltb n 10)) [
  | inl e ↦ ground arith
  | inr e ↦
      let last : n / 10 * 10 + (b'0' + n % 10 - b'0') ≡ n = omega arith in
      rw (e, append_assoc)
        (read_digits-digits f (n / 10) ((b'0' + n % 10) ∷ rest) (ground arith)
          ∙ rw (digit-is_digit (n % 10) (omega arith)) (ap (λ m. read_digits m rest) last))
]

read_digits_whole : (f n : ℕ) → n < f → read_digits 0 (digits f n) ≡ n
unfolding read_digits
read_digits_whole f n h =
    ap (read_digits 0) (sym (append-nil (digits f n))) ∙ read_digits-digits f n [] h

pub AreDigits : Bytes → Type 0
AreDigits = All (λ c. is_digit c ≡ true)

All-append {ℓ κ} :
    {A : Type ℓ} (P : A → Type κ) (xs ys : List A) → All P xs → All P ys → All P (xs ++ ys)
All-append P [] ys h k = k
All-append P (x ∷ xs) ys h k = (h.0, All-append P xs ys h.1 k)

-- The printed digits, the first one apart.
pub digits-cons :
    (f n : ℕ)
    → n < f
    → (c : ℕ) × (cs : Bytes) × (digits f n ≡ c ∷ cs)
      × (is_digit c ≡ true)
      × All (λ d. is_digit d ≡ true) cs
unfolding digits
digits-cons zero n h = absurd (omega arith)
digits-cons (suc f) n h = elim (Bool-cases (ltb n 10)) [
  | inl e ↦ (b'0' + n, [], rw e, digit-is_digit n (ground arith), tt)
  | inr e ↦
      let (c, cs, q, d, a) = digits-cons f (n / 10) (ground arith) in
      (
        c,
        cs ++ (b'0' + n % 10) ∷ [],
        rw (e, q),
        d,
        All-append (λ x. is_digit x ≡ true) cs ((b'0' + n % 10) ∷ []) a
            (digit-is_digit (n % 10) (omega arith), tt),
      )
]

sign_free :
    (c : ℕ)
    → is_digit c ≡ true
    → (is_space c ≡ false) × ((c == b'-') ≡ false) × ((c == b'+') ≡ false)
sign_free c d = (ground arith, ground arith, ground arith)

signed_digits :
    (c : ℕ) (cs : Bytes) (n : ℕ)
    → is_digit c ≡ true
    → read_digits 0 (c ∷ cs) ≡ n
    → n < 2 ^ 63
    → strtoll (c ∷ cs) ≡ pos n
unfolding strtoll signed
signed_digits c cs n d e h = let (a, b, k) = sign_free c d in rw (a, b, k, e, lt→ltb n (2 ^ 63) h)

-- Reading back a printed integer in range gives that integer.
pub strtoll-print_int : (a : ℤ) → InRange a → strtoll (print_int a) ≡ a
unfolding print_int strtoll signed
strtoll-print_int (pos n) h =
    let (c, cs, q, d, _) = digits-cons (suc n) n (omega arith) in
    q_subst c cs q (signed_digits c cs n d (rw q at (read_digits_whole (suc n) n (omega arith))) h)
  where
    q_subst :
        (c : ℕ) (cs : Bytes)
        → digits (suc n) n ≡ c ∷ cs
        → strtoll (c ∷ cs) ≡ pos n
        → strtoll (digits (suc n) n) ≡ pos n
    q_subst c cs q r = ap strtoll q ∙ r
strtoll-print_int (negsuc n) h =
    rw (read_digits_whole (suc (suc n)) (suc n) (omega arith), lt→ltb n (2 ^ 63) h)
