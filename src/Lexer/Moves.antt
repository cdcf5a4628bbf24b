-- ===== src/Lexer/Moves.antt =====
-- What a scan passes over: each scanning function moves the read pointer forward over a piece
-- of the source, with line and column kept.
use heluna_language.Common.{
  ℕ, ◌+◌, ◌^◌, ◌≤◌, ◌<◌, ◌≡◌, refl, Bool, true, ◌&&◌, ◌||◌, some, [], ◌∷◌, ◌++◌, ◌==◌,
  if◌then◌else◌, length, Bytes, arith, append_assoc, length-append, ap, sym, ◌∙◌, All, Bool-cases,
  inl, inr, subst,
}
use mathlib.Core.Option.{some-injective}
use heluna_language.Lexer.Cursor.{Cursor, peek, step, step_in, skip, over, advance_while, is_digit}
use heluna_language.Lexer.Scan.{string_body, fraction, sign, exponent}

-- The line after a text that begins on line `n`, and the column after it.
abbrev pub line_after : Bytes → ℕ → ℕ
line_after [] n = n
line_after (c ∷ cs) n = line_after cs (if c == b'\n' then n + 1 else n)

abbrev pub col_after : Bytes → ℕ → ℕ
col_after [] n = n
col_after (c ∷ cs) n = col_after cs (if c == b'\n' then 1 else n + 1)

-- The pointer `k'` stands behind the text `t` that begins at `k`.
pub record Consumes (k : Cursor) (t : Bytes) (k' : Cursor) : Type 0 where
  pub text : k.rest ≡ t ++ k'.rest
  pub offset : k'.offset ≡ k.offset + length t
  pub line : k'.line ≡ line_after t k.line
  pub col : k'.col ≡ col_after t k.col

line_after-le : (t : Bytes) (n : ℕ) → line_after t n ≤ n + length t
line_after-le [] n = omega arith
line_after-le (c ∷ cs) n = elim (Bool-cases (c == b'\n')) [
  | inl e ↦ rw e (omega (arith, line_after-le cs (n + 1)))
  | inr e ↦ rw e (omega (arith, line_after-le cs n))
]

col_after-le : (t : Bytes) (n : ℕ) → 0 < n → col_after t n ≤ n + length t
col_after-le [] n h = omega arith
col_after-le (c ∷ cs) n h = elim (Bool-cases (c == b'\n')) [
  | inl e ↦ rw e (omega (arith, col_after-le cs 1 (omega arith)))
  | inr e ↦ rw e (omega (arith, col_after-le cs (n + 1) (omega arith)))
]

-- The text that is left is so short that line, column and length of anything in it are below 2 ^ 31;
-- columns are counted from 1.
abbrev pub IntSized : Cursor → Type 0
IntSized k = (k.line + length k.rest < 2 ^ 31) × (k.col + length k.rest < 2 ^ 31) × (0 < k.col)

col_after-positive : (t : Bytes) (n : ℕ) → 0 < n → 0 < col_after t n
col_after-positive [] n h = h
col_after-positive (c ∷ cs) n h = elim (Bool-cases (c == b'\n')) [
  | inl e ↦ rw e (col_after-positive cs 1 (omega arith))
  | inr e ↦ rw e (col_after-positive cs (n + 1) (omega arith))
]

pub Consumes-IntSized : (k k' : Cursor) (t : Bytes) → Consumes k t k' → IntSized k → IntSized k'
Consumes-IntSized k k' t m (line, col, from) = (
  omega (arith, m.line, line_after-le t k.line, line, total k k' t m),
  omega (arith, m.col, col_after-le t k.col from, col, total k k' t m),
  rw m.col (col_after-positive t k.col from),
)
  where
    total :
        (k k' : Cursor) (t : Bytes) → Consumes k t k' → length k.rest ≡ length t + length k'.rest
    total k k' t m = omega (arith, ap length m.text, length-append t k'.rest)

pub Consumes-refl : (k : Cursor) → Consumes k [] k
Consumes-refl k = record { text = refl; offset = omega arith; line = refl; col = refl }

pub Consumes-over :
    (c : ℕ) (cs : Bytes) (k : Cursor) (t : Bytes) {k' : Cursor}
    → k.rest ≡ c ∷ cs
    → Consumes (over c cs k) t k'
    → Consumes k (c ∷ t) k'
unfolding over
Consumes-over c cs k t e m = record {
  text = e ∙ ap (λ u. c ∷ u) m.text;
  offset = omega (arith, m.offset);
  line = m.line;
  col = m.col;
}

line_after-append : (t u : Bytes) (n : ℕ) → line_after (t ++ u) n ≡ line_after u (line_after t n)
line_after-append [] u n = refl
line_after-append (c ∷ t) u n = line_after-append t u _

col_after-append : (t u : Bytes) (n : ℕ) → col_after (t ++ u) n ≡ col_after u (col_after t n)
col_after-append [] u n = refl
col_after-append (c ∷ t) u n = col_after-append t u _

pub Consumes-trans :
    {k k₁ k₂ : Cursor} (t u : Bytes) → Consumes k t k₁ → Consumes k₁ u k₂ → Consumes k (t ++ u) k₂
Consumes-trans {k} {k₁} {k₂} t u m n = record {
  text = m.text ∙ ap (λ v. t ++ v) n.text ∙ sym (append_assoc t u k₂.rest);
  offset = omega (arith, m.offset, n.offset, length-append t u);
  line = n.line ∙ ap (line_after u) m.line ∙ sym (line_after-append t u k.line);
  col = n.col ∙ ap (col_after u) m.col ∙ sym (col_after-append t u k.col);
}

abbrev pub Forward : Cursor → Cursor → Type 0
Forward k k' = (t : Bytes) × Consumes k t k'

pub Forward-refl : (k : Cursor) → Forward k k
Forward-refl k = ([], Consumes-refl k)

pub Forward-trans : {k k₁ k₂ : Cursor} → Forward k k₁ → Forward k₁ k₂ → Forward k k₂
Forward-trans (t, m) (u, n) = (t ++ u, Consumes-trans t u m n)

pub Forward-over :
    (c : ℕ) (cs : Bytes) (k : Cursor) {k' : Cursor}
    → k.rest ≡ c ∷ cs
    → Forward (over c cs k) k'
    → Forward k k'
Forward-over c cs k e (t, m) = (c ∷ t, Consumes-over c cs k t e m)

pub over-rest : (c : ℕ) (cs : Bytes) (k : Cursor) → (over c cs k).rest ≡ cs
unfolding over
over-rest c cs k = refl

pub step-Forward : (k : Cursor) → Forward k (step k)
step-Forward k = go k.rest refl
  where
    go : (r : Bytes) → k.rest ≡ r → Forward k (step_in r k)
    go [] e = Forward-refl k
    go (c ∷ cs) e = Forward-over c cs k e (Forward-refl _)

-- The bytes that a loop passes satisfy its test, and it stops at one that does not.
pub advance_while-Consumes :
    (test : ℕ → Bool) (r : Bytes) (k : Cursor)
    → k.rest ≡ r
    → (t : Bytes) × Consumes k t (advance_while test r k) × All (λ c. test c ≡ true) t
unfolding advance_while
advance_while-Consumes test [] k e = ([], Consumes-refl k, tt)
advance_while-Consumes test (c ∷ cs) k e = elim (Bool-cases (test c)) [
  | inl h ↦
      (let (t, m, a) = advance_while-Consumes test cs (over c cs k) (over-rest c cs k) in
        rw (h, advance_while) (c ∷ t, Consumes-over c cs k t e m, (h, a)))
  | inr h ↦ rw (h, advance_while) ([], Consumes-refl k, tt)
]

pub skip-Forward : (test : ℕ → Bool) (k : Cursor) → Forward k (skip test k)
skip-Forward test k = let (t, m, _) = advance_while-Consumes test k.rest k refl in (t, m)

pub string_body-Forward :
    (r : Bytes) (k : Cursor) {k' : Cursor} → k.rest ≡ r → string_body r k ≡ some k' → Forward k k'
unfolding string_body
string_body-Forward [] k e h = subst (Forward k) (some-injective _ _ h) (Forward-refl k)
string_body-Forward (c ∷ []) k {k'} e h = elim (Bool-cases (c == b'"')) [
  | inl q ↦ subst (Forward k) (ground arith) (Forward-refl k)
  | inr q ↦ elim (Bool-cases (c == b'\\')) [
    | inl b ↦ absurd (ground arith)
    | inr b ↦
        subst (Forward k) (some-injective _ _ (rw (q, b) at h))
          (Forward-over c [] k e (Forward-refl (over c [] k)))
  ]
]
string_body-Forward (c ∷ d ∷ ds) k {k'} e h =
    let k₁ = over c (d ∷ ds) k in
    let k₂ = over d ds k₁ in
    elim (Bool-cases (c == b'"')) [
      | inl q ↦ subst (Forward k) (ground arith) (Forward-refl k)
      | inr q ↦ elim (Bool-cases (c == b'\\')) [
        | inl b ↦ Forward-over c _ k e (
            Forward-over d ds k₁ (over-rest c _ k)
              (string_body-Forward ds k₂ (over-rest d ds k₁) (rw (q, b) at h)))
        | inr b ↦
            Forward-over c _ k e
              (string_body-Forward (d ∷ ds) k₁ (over-rest c _ k) (rw (q, b) at h))
      ]
    ]

pub fraction-Forward : (k : Cursor) → Forward k (fraction k).1
unfolding fraction
fraction-Forward k = elim (Bool-cases (peek k == b'.' && is_digit (peek (step k)))) [
  | inl h ↦ rw (h, fraction) (Forward-trans (step-Forward k) (skip-Forward is_digit (step k)))
  | inr h ↦ rw (h, fraction) (Forward-refl k)
]

sign-Forward : (k : Cursor) → Forward k (sign k)
unfolding sign
sign-Forward k = elim (Bool-cases (peek k == b'+' || peek k == b'-')) [
  | inl h ↦ rw (h, sign) (step-Forward k)
  | inr h ↦ rw (h, sign) (Forward-refl k)
]

pub exponent-Forward : (k : Cursor) → Forward k (exponent k).1
unfolding exponent
exponent-Forward k = elim (Bool-cases (peek k == b'e' || peek k == b'E')) [
  | inl h ↦
      rw (h, exponent)
        (Forward-trans (step-Forward k)
          (Forward-trans (sign-Forward (step k)) (skip-Forward is_digit (sign (step k)))))
  | inr h ↦ rw (h, exponent) (Forward-refl k)
]
