-- ===== src/Json/Settles.antt =====
-- The parser of src/json.c ends on every text: the fuel that it is given is enough.
use heluna_language.Common.{
  ℕ, ◌≤◌, ◌<◌, ◌≡◌, refl, Bool, true, false, ◌||◌, Option, none, some, [], ◌∷◌, ◌==◌, if◌then◌else◌,
  Bytes, length, codes, arith, Bool-cases, inl, inr,
}
use heluna_language.Value.{Doubles, HVal, val_boolean, val_nothing}
use heluna_language.Json.Strings.{scan_text, parse_string, drop_quote}
use heluna_language.Json.Parser.{
  Outcome, parsed, failed, out_of_fuel, ◌>>=◌, head_or_nul, next, skip_ws, peek, expect_char,
  match_str, skip_digits, skip_sign, skip_whole, fraction, exponent, parse_number, parse_word,
  parse_key,
}

-- A result or an error, with at most `n` bytes left behind a result.
abbrev pub Settles : {A : Type 0} → ℕ → Outcome A → Type 0
Settles n (parsed a rest) = length rest ≤ n
Settles n (failed e) = Unit
Settles n out_of_fuel = ⊥

pub Settles-weaken : {A : Type 0} {m n : ℕ} (o : Outcome A) → m ≤ n → Settles m o → Settles n o
Settles-weaken (parsed a rest) h s = omega arith
Settles-weaken (failed e) h s = tt
Settles-weaken out_of_fuel h s = s

pub Settles-bind :
    {A B : Type 0} (n : ℕ) (o : Outcome A) (f : A → Bytes → Outcome B)
    → Settles n o
    → ((a : A) (rest : Bytes) → length rest ≤ n → Settles n (f a rest))
    → Settles n (o >>= f)
Settles-bind n (parsed a rest) f s k = k a rest s
Settles-bind n (failed e) f s k = tt
Settles-bind n out_of_fuel f s k = s

pub Settles-if :
    {A : Type 0} (n : ℕ) (b : Bool) (x y : Outcome A)
    → (b ≡ true → Settles n x)
    → (b ≡ false → Settles n y)
    → Settles n (if b then x else y)
Settles-if n true x y h k = h refl
Settles-if n false x y h k = k refl

pub length-skip_ws : (s : Bytes) → length (skip_ws s) ≤ length s
unfolding skip_ws
length-skip_ws [] = omega arith
length-skip_ws (c ∷ cs) = elim (Bool-cases (c == b' ' || c == b'\t' || c == b'\n' || c == b'\r')) [
  | inl e ↦ rw e (omega (arith, length-skip_ws cs))
  | inr e ↦ rw e (omega arith)
]

pub length-next : (s : Bytes) → length (next s) ≤ length s
length-next [] = omega arith
length-next (c ∷ cs) = omega arith

pub next_shrinks :
    (s : Bytes) (c : ℕ) → 0 < c → (head_or_nul s == c) ≡ true → length (next s) < length s
next_shrinks [] c p h = ground arith
next_shrinks (d ∷ ds) c p h = omega arith

-- The same behind white space.
pub after_ws :
    (s : Bytes) (c : ℕ) → 0 < c → (peek s == c) ≡ true → length (next (skip_ws s)) < length s
after_ws s c p h = omega (arith, length-skip_ws s, next_shrinks (skip_ws s) c p h)

length-scan_text : (s : Bytes) → length (scan_text s).rest ≤ length s
unfolding scan_text
length-scan_text [] = omega arith
length-scan_text (c ∷ []) = ground arith
length-scan_text (c ∷ d ∷ ds) = ground (arith, length-scan_text ds, length-scan_text (d ∷ ds))

length-drop_quote : (s : Bytes) → length (drop_quote s) ≤ length s
length-drop_quote [] = omega arith
length-drop_quote (c ∷ cs) = ground arith

pub length-parse_string : (s : Bytes) → length (parse_string s).1 ≤ length s
unfolding parse_string
length-parse_string s = omega (arith, length-drop_quote (scan_text s).rest, length-scan_text s)

length-skip_digits : (s : Bytes) → length (skip_digits s) ≤ length s
unfolding skip_digits
length-skip_digits [] = omega arith
length-skip_digits (c ∷ cs) = ground (arith, length-skip_digits cs)

length-skip_sign : (s : Bytes) → length (skip_sign s) ≤ length s
length-skip_sign s = ground (arith, length-next s)

length-skip_whole : (s : Bytes) → length (skip_whole s) ≤ length s
unfolding skip_whole
length-skip_whole s = elim (Bool-cases (head_or_nul s == b'-')) [
  | inl e ↦ rw e (omega (arith, length-skip_digits (next s), length-next s))
  | inr e ↦ rw e (omega (arith, length-skip_digits s))
]

length-fraction : (s : Bytes) → length (fraction s).1 ≤ length s
unfolding fraction
length-fraction s = elim (Bool-cases (head_or_nul s == b'.')) [
  | inl e ↦ rw e (omega (arith, length-skip_digits (next s), length-next s))
  | inr e ↦ rw e (omega arith)
]

length-exponent : (s : Bytes) → length (exponent s).1 ≤ length s
unfolding exponent
length-exponent s = elim (Bool-cases (head_or_nul s == b'e' || head_or_nul s == b'E')) [
  | inl e ↦ rw e (
      omega
        (arith, length-skip_digits (skip_sign (next s)), length-skip_sign (next s), length-next s))
  | inr e ↦ rw e (omega arith)
]

pub parse_number-Settles : (dbl : Doubles) (s : Bytes) → Settles (length s) (parse_number dbl s)
unfolding parse_number
parse_number-Settles dbl s =
    let s₁ = fraction (skip_whole s) in
    elim (Bool-cases (s₁.0 || (exponent s₁.1).0)) [ inl e ↦ rw e short | inr e ↦ rw e short ]
  where
    short : length (exponent (fraction (skip_whole s)).1).1 ≤ length s
    short = omega (
      arith,
      length-exponent (fraction (skip_whole s)).1,
      length-fraction (skip_whole s),
      length-skip_whole s,
    )

match_str-length : (w s rest : Bytes) → match_str w s ≡ some rest → length rest ≤ length s
unfolding match_str
match_str-length [] s rest h = ground arith
match_str-length (w ∷ ws) [] rest h = cc
match_str-length (w ∷ ws) (c ∷ cs) rest h = elim (Bool-cases (w == c)) [
  | inl e ↦ omega (arith, match_str-length ws cs rest (rw e at h))
  | inr e ↦ absurd (ground arith)
]

-- One test for a word.
word-Settles :
    (w s : Bytes) (v : HVal) (x : Outcome HVal) (o : Option Bytes)
    → match_str w s ≡ o
    → Settles (length s) x
    → Settles (length s) (elim o [ some rest ↦ parsed v rest | none ↦ x ])
word-Settles w s v x (some rest) e h = match_str-length w s rest e
word-Settles w s v x none e h = h

pub parse_word-Settles : (s : Bytes) → Settles (length s) (parse_word s)
unfolding parse_word
parse_word-Settles s =
    word-Settles (codes "true") s (val_boolean true) _ (match_str (codes "true") s) refl (
      word-Settles (codes "false") s (val_boolean false) _ (match_str (codes "false") s) refl
        (word-Settles (codes "null") s val_nothing _ (match_str (codes "null") s) refl tt))

expect_char-Settles : (c : ℕ) (s : Bytes) → 0 < c → Settles (length s) (expect_char c s)
unfolding expect_char
expect_char-Settles c s p = elim (Bool-cases (head_or_nul (skip_ws s) == c)) [
  | inl e ↦ rw e (omega (arith, after_ws s c p e))
  | inr e ↦ rw e tt
]

pub closing-Settles :
    {A B : Type 0} (n c : ℕ) (o : Outcome A) (f : A → B)
    → 0 < c
    → Settles n o
    → Settles n (o >>= λ a rest. expect_char c rest >>= λ _ after. parsed (f a) after)
closing-Settles n c o f p s = Settles-bind n o _ s λ a rest h.
    Settles-bind n (expect_char c rest) _
      (Settles-weaken (expect_char c rest) h (expect_char-Settles c rest p)) λ _ after k. k

pub parse_key-Settles : (s : Bytes) → Settles (length s) (parse_key s)
unfolding parse_key
parse_key-Settles s = elim (Bool-cases (head_or_nul s == b'"')) [
  | inl e ↦
      let (key, rest) = parse_string (next s) in
      let h : length (parse_string (next s)).1 ≤ length s =
        omega (arith, length-parse_string (next s), length-next s) in
      rw e (
        Settles-bind (length s) (expect_char b':' (parse_string (next s)).1) _
          (Settles-weaken (expect_char b':' (parse_string (next s)).1) h
            (expect_char-Settles b':' (parse_string (next s)).1 (omega arith)))
          λ _ after k. k)
  | inr e ↦ rw e tt
]
