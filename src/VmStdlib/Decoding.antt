-- ===== src/VmStdlib/Decoding.antt =====
-- What src/vm_stdlib.c encodes it decodes again, and how much base64-decode writes.
use heluna_language.Common.{
  ℕ, zero, suc, ◌+◌, ◌*◌, ◌/◌, ◌%◌, ◌^◌, ◌≤◌, ◌<◌, ◌≡◌, ◌↔◌, refl, Bool, true, false, ◌&&◌, Option,
  none, some, [], ◌∷◌, ◌++◌, ◌==◌, if◌then◌else◌, length, All, Bytes, codes, arith, ap, sym, ◌∙◌,
  Bool-cases, inl, inr,
}
use heluna_language.Value.{HVal, val_string}
use heluna_language.Stdlib.{value, to_upper}
use heluna_language.Packet.Reads.{NoNul, until_nul-NoNul}
use heluna_language.VmStdlib.Fields.{get_string}
use heluna_language.VmStdlib.Encoding.{
  b64_char, sextet, base64_encode, fn_base64_encode, b64_decode_char, unless_padding, b64_group,
  base64_decode, b64_out_len, fn_base64_decode, is_unreserved, hex_char, url_encode_byte,
  url_encode, fn_url_encode, is_xdigit, hex_value, url_decode, fn_url_decode,
}

-- A test of all numbers below one.
all_below : ℕ → (ℕ → Bool) → Bool
all_below zero test = true
all_below (suc n) test = test n && all_below n test

all_below_lem : (n : ℕ) (test : ℕ → Bool) (k : ℕ) → all_below n test ≡ true → k < n → test k ≡ true
unfolding all_below
all_below_lem zero test k h l = absurd (omega (arith, l))
all_below_lem (suc n) test k h l = elim (Bool-cases (k == n)) [
  | inl e ↦
      let same : n ≡ k = ground (arith, e) in
      ap test (sym same) ∙ both_0 (test n) (all_below n test) h
  | inr e ↦ all_below_lem n test k (both_1 (test n) (all_below n test) h) (ground (arith, e, l))
]
  where
    both_0 : (a b : Bool) → (a && b) ≡ true → a ≡ true
    both_0 true b h = refl
    both_0 false b h = cc

    both_1 : (a b : Bool) → (a && b) ≡ true → b ≡ true
    both_1 true b h = h
    both_1 false b h = cc

abbrev is_digit_of : ℕ → Option ℕ → Bool
is_digit_of k none = false
is_digit_of k (some n) = n == k

alphabet : all_below 64 (λ k. is_digit_of k (unless_padding (b64_char k))) ≡ true
unfolding all_below b64_char b64_decode_char
alphabet = refl

alphabet_read : all_below 64 (λ k. is_digit_of k (b64_decode_char (b64_char k))) ≡ true
unfolding all_below b64_char b64_decode_char
alphabet_read = refl

digit_lem : (k : ℕ) (o : Option ℕ) → is_digit_of k o ≡ true → o ≡ some k
digit_lem k none h = cc
digit_lem k (some n) h = ap some (ground (arith, h))

-- A sextet is read back, also where padding may stand.
b64_decode_char-b64_char :
    (k : ℕ)
    → k < 64
    → (b64_decode_char (b64_char k) ≡ some k) × (unless_padding (b64_char k) ≡ some k)
b64_decode_char-b64_char k h = (
  digit_lem k _ (all_below_lem 64 _ k alphabet_read h),
  digit_lem k _ (all_below_lem 64 _ k alphabet h),
)

abbrev IsByte : ℕ → Type 0
IsByte c = c < 256

char_read : (n d : ℕ) → b64_decode_char (sextet n d) ≡ some (n / d % 64)
char_read n d = (b64_decode_char-b64_char (n / d % 64) (omega arith)).0

padded_read : (n d : ℕ) → unless_padding (sextet n d) ≡ some (n / d % 64)
padded_read n d = (b64_decode_char-b64_char (n / d % 64) (omega arith)).1

-- The upper sextets of a group, put together.
abbrev upper : ℕ → ℕ
upper n = n / 262144 % 64 * 262144 + n / 4096 % 64 * 4096

first_byte : (n : ℕ) → n < 2 ^ 24 → upper n / 65536 % 256 ≡ n / 65536
first_byte n h = omega (arith, h)

second_byte : (n : ℕ) → n < 2 ^ 24 → (upper n + n / 64 % 64 * 64) / 256 % 256 ≡ n / 256 % 256
second_byte n h = omega (arith, h)

third_byte : (n : ℕ) → n < 2 ^ 24 → (upper n + n / 64 % 64 * 64 + n / 1 % 64 * 1) % 256 ≡ n % 256
third_byte n h = omega (arith, h)

base64_decode-base64_encode : (s : Bytes) → All IsByte s → base64_decode (base64_encode s) ≡ s
unfolding base64_encode base64_decode b64_group
base64_decode-base64_encode [] h = refl
base64_decode-base64_encode (a ∷ []) h =
    let n = a * 65536 in
    rw (char_read n 262144, char_read n 4096, first_byte n (omega (arith, h.0)))
      (ap (λ x. x ∷ []) {x = n / 65536} {y = a} (omega arith))
base64_decode-base64_encode (a ∷ b ∷ []) h =
    let n = a * 65536 + b * 256 in
    let small : n < 2 ^ 24 = omega (arith, h.0, h.1.0) in
    rw
      (
        char_read n 262144,
        char_read n 4096,
        padded_read n 64,
        first_byte n small,
        second_byte n small,
      )
      (ap (λ x. x ∷ n / 256 % 256 ∷ []) {x = n / 65536} {y = a} (omega (arith, h.1.0))
        ∙ ap (λ x. a ∷ x ∷ []) {x = n / 256 % 256} {y = b} (omega (arith, h.1.0)))
base64_decode-base64_encode (a ∷ b ∷ c ∷ rest) h =
    let n = a * 65536 + b * 256 + c in
    let small : n < 2 ^ 24 = omega (arith, h.0, h.1.0, h.1.1.0) in
    rw
      (
        char_read n 262144,
        char_read n 4096,
        padded_read n 64,
        padded_read n 1,
        first_byte n small,
        second_byte n small,
        third_byte n small,
        base64_decode-base64_encode rest h.1.1.1,
      )
      (ap (λ x. x ∷ n / 256 % 256 ∷ n % 256 ∷ rest) {x = n / 65536} {y = a}
          (omega (arith, h.1.0, h.1.1.0))
        ∙ ap (λ x. a ∷ x ∷ n % 256 ∷ rest) {x = n / 256 % 256} {y = b}
            (omega (arith, h.1.0, h.1.1.0))
        ∙ ap (λ x. a ∷ b ∷ x ∷ rest) {x = n % 256} {y = c} (omega (arith, h.1.1.0)))

-- The escape of a byte, read back.
hex_round : all_below 16 (λ k. is_digit_of k (some (hex_value (hex_char k)))) ≡ true
unfolding all_below hex_value hex_char to_upper
hex_round = refl

hex_digits : all_below 16 (λ k. is_xdigit (hex_char k)) ≡ true
unfolding all_below is_xdigit hex_char
hex_digits = refl

hex_value-hex_char : (k : ℕ) → k < 16 → hex_value (hex_char k) ≡ k
hex_value-hex_char k h = some_inj (digit_lem k _ (all_below_lem 16 _ k hex_round h))
  where
    some_inj : {n m : ℕ} → some n ≡ some m → n ≡ m
    some_inj e = ground arith

-- A byte that is no percent sign and no plus sign stands for itself.
url_decode-plain :
    (c : ℕ) (t : Bytes)
    → (c == b'%') ≡ false
    → (c == b'+') ≡ false
    → url_decode (c ∷ t) ≡ c ∷ url_decode t
unfolding url_decode
url_decode-plain c [] p q = rw q
url_decode-plain c (a ∷ []) p q = rw q
url_decode-plain c (a ∷ b ∷ r) p q = rw (p, q)

url_decode-url_encode_byte :
    (c : ℕ) (t : Bytes) → c < 256 → url_decode (url_encode_byte c ++ t) ≡ c ∷ url_decode t
unfolding url_encode_byte url_decode
url_decode-url_encode_byte c t h = elim (Bool-cases (is_unreserved c)) [
  | inl e ↦ rw e (url_decode-plain c t (ground (arith, e)) (ground (arith, e)))
  | inr e ↦
      let high = all_below_lem 16 _ (c / 16) hex_digits (omega (arith, h)) in
      let low = all_below_lem 16 _ (c % 16) hex_digits (omega arith) in
      let value_high = hex_value-hex_char (c / 16) (omega (arith, h)) in
      let value_low = hex_value-hex_char (c % 16) (omega arith) in
      rw (e, high, low, value_high, value_low)
        (ap (λ x. x ∷ url_decode t) {x = c / 16 * 16 + c % 16} {y = c} (omega arith))
]

url_decode-url_encode : (s : Bytes) → All IsByte s → url_decode (url_encode s) ≡ s
unfolding url_encode url_decode
url_decode-url_encode [] h = refl
url_decode-url_encode (c ∷ cs) h =
    url_decode-url_encode_byte c (url_encode cs) h.0
    ∙ ap (λ t. c ∷ t) (url_decode-url_encode cs h.1)

-- On a text of bytes other than zero base64-encode gives a text which base64-decode gives back as the
-- first text; both return.
pub fn_base64_decode-fn_base64_encode :
    (arg coded : HVal) (s : Bytes)
    → All IsByte s
    → NoNul s
    → get_string arg (codes "value") ≡ some s
    → get_string coded (codes "value") ≡ some (base64_encode s)
    → (fn_base64_encode arg ≡ value (val_string (base64_encode s)))
      × (fn_base64_decode coded ≡ value (val_string s))
unfolding fn_base64_encode fn_base64_decode
fn_base64_decode-fn_base64_encode arg coded s b z h k =
    (rw h, rw (k, base64_decode-base64_encode s b, until_nul-NoNul s z))

-- On a text of bytes other than zero url-encode gives a text which url-decode gives back as the
-- first text; both return.
pub fn_url_decode-fn_url_encode :
    (arg coded : HVal) (s : Bytes)
    → All IsByte s
    → NoNul s
    → get_string arg (codes "value") ≡ some s
    → get_string coded (codes "value") ≡ some (url_encode s)
    → (fn_url_encode arg ≡ value (val_string (url_encode s)))
      × (fn_url_decode coded ≡ value (val_string s))
unfolding fn_url_encode fn_url_decode
fn_url_decode-fn_url_encode arg coded s b z h k =
    (rw h, rw (k, url_decode-url_encode s b, until_nul-NoNul s z))

-- Of the alphabet of base 64.
abbrev pub IsSextet : ℕ → Type 0
IsSextet c = (k : ℕ) × (b64_decode_char c ≡ some k)

unless_padding-IsSextet : (c k : ℕ) → b64_decode_char c ≡ some k → unless_padding c ≡ some k
unfolding b64_decode_char
unless_padding-IsSextet c k h = ground arith

abbrev extra : ℕ → ℕ
extra r = if r == 0 then 0 else if r == 3 then 2 else 1

length-base64_decode :
    (s : Bytes)
    → All IsSextet s
    → length (base64_decode s) ≡ length s / 4 * 3 + extra (length s % 4)
unfolding base64_decode b64_group
length-base64_decode [] h = refl
length-base64_decode (a ∷ []) ((_, p), _) = rw p
length-base64_decode (a ∷ b ∷ []) ((_, p), ((_, q), _)) = rw (p, q)
length-base64_decode (a ∷ b ∷ c ∷ []) ((_, p), ((_, q), ((k, r), _))) =
    rw (p, q, unless_padding-IsSextet c k r)
length-base64_decode (a ∷ b ∷ c ∷ d ∷ rest) ((_, p), ((_, q), ((k, r), ((l, u), h)))) =
    rw (p, q, unless_padding-IsSextet c k r, unless_padding-IsSextet d l u)
      (omega (
        arith,
        length-base64_decode rest h,
        ap extra {x = suc (suc (suc (suc (length rest)))) % 4} {y = length rest % 4} (omega arith),
      ))

-- On a text of characters of the alphabet, base64-decode stays within its buffer exactly where the
-- text's length is a multiple of 4.
pub base64_decode-le_iff :
    (s : Bytes) → All IsSextet s → (length (base64_decode s) ≤ b64_out_len s) ↔ (length s % 4 ≡ 0)
unfolding b64_out_len
base64_decode-le_iff s h = ground (arith, length-base64_decode s h)
