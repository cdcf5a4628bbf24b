-- ===== src/Lexer/Lexemes.antt =====
-- Each scanning function yields one lexeme: where its token lies and what it passes over.
use heluna_language.Common.{
  ℕ, ◌%◌, ◌^◌, ◌≡◌, ◌≢◌, refl, Bool, true, not, ◌&&◌, Option, none, some, List, [], ◌∷◌, ◌==◌,
  >>=-eq-some, length, Bytes, str_eq, String, arith, ap, Bool-cases, inl, inr, subst,
}
use mathlib.Core.Option.{some-injective}
use heluna_language.Token.{
  is_eof, TokenKind, SrcLoc, tok_error, tok_eof, tok_string, tok_comment, tok_dollar, tok_input_ref,
}
use heluna_language.Lexer.Cursor.{
  Cursor, peek, step, skip, over, is_digit, is_alpha, is_word, in_comment,
}
use heluna_language.Lexer.Keywords.{lookup_keyword, lookup_in, keywords, Keyword}
use heluna_language.Lexer.Scan.{
  Scanned, lexeme, string_body, scan_string, scan_number, scan_identifier, scan_comment,
  scan_dollar, pair_of, single_of, scan_pair, scan_single, scan_symbol, symbol_of, kind_or_error,
  scan_from, make_token, error_token,
}
use heluna_language.Lexer.Moves.{
  Consumes, Consumes-over, Forward, Forward-refl, Forward-trans, step-Forward, skip-Forward,
  fraction-Forward, exponent-Forward, string_body-Forward,
}

single_of-ne_eof : (c : ℕ) (kind : TokenKind) → single_of c ≡ some kind → kind ≢ tok_eof
unfolding single_of
single_of-ne_eof c kind h = ground arith

abbrev PairNeEof : ℕ × TokenKind × Option TokenKind → Type 0
PairNeEof (second, both, alone) =
    (both ≢ tok_eof) × ((kind : TokenKind) → alone ≡ some kind → kind ≢ tok_eof)

pair_of-ne_eof : (c : ℕ) {p : ℕ × TokenKind × Option TokenKind} → pair_of c ≡ some p → PairNeEof p
unfolding pair_of
pair_of-ne_eof c h = (ground arith, λ kind e. ground arith)

abbrev no_eof : List Keyword → Bool
no_eof [] = true
no_eof ((_, k) ∷ rest) = not (is_eof k) && no_eof rest

lookup_in-ne_eof : (t : List Keyword) (w : Bytes) → no_eof t ≡ true → lookup_in t w ≢ tok_eof
unfolding lookup_in
lookup_in-ne_eof [] w h = cc
lookup_in-ne_eof ((v, k) ∷ rest) w h = elim (Bool-cases (str_eq v w)) [
  | inl e ↦ rw e (λ q. ground (arith, ap is_eof q))
  | inr e ↦ rw e (lookup_in-ne_eof rest w (ground arith))
]

lookup_keyword-ne_eof : (w : Bytes) → lookup_keyword w ≢ tok_eof
unfolding lookup_keyword
lookup_keyword-ne_eof w = lookup_in-ne_eof keywords w refl

-- The token of a scan that began at `start`: it is no end of file, at least one byte is passed,
-- and unless it is an error its place is that of the bytes passed and its length theirs as an `int`.
pub record IsLexeme (start : Cursor) (s : Scanned) : Type 0 where
  pub first : ℕ
  pub others : Bytes
  pub consumed : Consumes start (first ∷ others) s.1
  pub placed :
      s.0.kind ≢ tok_error
      → (s.0.start ≡ start.offset) × (s.0.length ≡ length (first ∷ others) % 2 ^ 32)
  pub not_eof : s.0.kind ≢ tok_eof

module _ (c : ℕ) (cs : Bytes) (start : Cursor) (at : start.rest ≡ c ∷ cs) where
  abbrev behind : Cursor
  behind = over c cs start

  lexeme-IsLexeme :
      (kind : TokenKind) (k : Cursor) (loc : SrcLoc)
      → kind ≢ tok_eof
      → Forward behind k
      → IsLexeme start (lexeme kind start k loc)
  unfolding make_token
  lexeme-IsLexeme kind k loc h (t, m) =
      let whole = Consumes-over c cs start t at m in
      record {
        first = c;
        others = t;
        consumed = whole;
        placed = λ _. (refl, omega (arith, whole.offset));
        not_eof = h;
      }

  error-IsLexeme :
      (msg : String) (k : Cursor) (loc : SrcLoc)
      → Forward behind k
      → IsLexeme start (error_token msg loc, k)
  unfolding error_token
  error-IsLexeme msg k loc (t, m) = record {
    first = c;
    others = t;
    consumed = Consumes-over c cs start t at m;
    placed = λ h. absurd (h refl);
    not_eof = cc;
  }

  scan_number-IsLexeme : (loc : SrcLoc) → IsLexeme start (scan_number start behind loc)
  unfolding scan_number
  scan_number-IsLexeme loc = lexeme-IsLexeme _ _ loc (ground arith) (
      Forward-trans (skip-Forward is_digit behind)
        (Forward-trans (fraction-Forward _) (exponent-Forward _)))

  scan_string-IsLexeme :
      (loc : SrcLoc) {s : Scanned} → scan_string start behind loc ≡ some s → IsLexeme start s
  unfolding scan_string
  scan_string-IsLexeme loc {s} h =
      let (k', e, f) = >>=-eq-some (string_body behind.rest behind) _ h in
      let forward = string_body-Forward behind.rest behind refl e in
      elim (Bool-cases (peek k' == 0)) [
        | inl z ↦
            subst (IsLexeme start) (some-injective _ _ (rw z at f))
              (error-IsLexeme "unterminated string" k' loc forward)
        | inr z ↦ subst (IsLexeme start) (some-injective _ _ (rw z at f)) (
            lexeme-IsLexeme tok_string (step k') loc (cc) (Forward-trans forward (step-Forward k')))
      ]

  scan_identifier-IsLexeme : (loc : SrcLoc) → IsLexeme start (scan_identifier start behind loc)
  unfolding scan_identifier
  scan_identifier-IsLexeme loc =
      lexeme-IsLexeme _ (skip is_word behind) loc (lookup_keyword-ne_eof _)
        (skip-Forward is_word behind)

  scan_comment-IsLexeme : (loc : SrcLoc) → IsLexeme start (scan_comment start behind loc)
  unfolding scan_comment
  scan_comment-IsLexeme loc =
      lexeme-IsLexeme tok_comment _ loc (cc) (skip-Forward in_comment behind)

  scan_dollar-IsLexeme : (loc : SrcLoc) → IsLexeme start (scan_dollar start behind loc)
  unfolding scan_dollar
  scan_dollar-IsLexeme loc = elim (Bool-cases (is_alpha (peek behind))) [
    | inl h ↦
        rw (h, scan_dollar)
          (lexeme-IsLexeme tok_input_ref _ loc (cc)
            (Forward-trans (step-Forward behind) (skip-Forward is_word (step behind))))
    | inr h ↦ rw (h, scan_dollar) (lexeme-IsLexeme tok_dollar _ loc (cc) (Forward-refl behind))
  ]

  kind_or_error-IsLexeme :
      (o : Option TokenKind) (msg : String) (loc : SrcLoc)
      → ((kind : TokenKind) → o ≡ some kind → kind ≢ tok_eof)
      → IsLexeme start (kind_or_error o msg start behind loc)
  unfolding kind_or_error
  kind_or_error-IsLexeme none msg loc h = error-IsLexeme msg behind loc (Forward-refl behind)
  kind_or_error-IsLexeme (some kind) msg loc h =
      lexeme-IsLexeme kind behind loc (h kind refl) (Forward-refl behind)

  scan_pair-IsLexeme :
      (second : ℕ) (both : TokenKind) (alone : Option TokenKind) (loc : SrcLoc)
      → both ≢ tok_eof
      → ((kind : TokenKind) → alone ≡ some kind → kind ≢ tok_eof)
      → IsLexeme start (scan_pair (second, both, alone) start behind loc)
  unfolding scan_pair
  scan_pair-IsLexeme second both alone loc h k = elim (Bool-cases (peek behind == second)) [
    | inl e ↦ rw (e, scan_pair) (lexeme-IsLexeme both (step behind) loc h (step-Forward behind))
    | inr e ↦ rw (e, scan_pair) (kind_or_error-IsLexeme alone "unexpected '!'" loc k)
  ]

  scan_single-IsLexeme : (loc : SrcLoc) → IsLexeme start (scan_single c start behind loc)
  unfolding scan_single
  scan_single-IsLexeme loc = elim (Bool-cases (c == b'-' && is_digit (peek behind))) [
    | inl e ↦ rw (e, scan_single) (scan_number-IsLexeme loc)
    | inr e ↦
        rw (e, scan_single)
          (kind_or_error-IsLexeme (single_of c) "unexpected character" loc (single_of-ne_eof c))
  ]

  scan_symbol-IsLexeme : (loc : SrcLoc) → IsLexeme start (scan_symbol c start behind loc)
  unfolding scan_symbol
  scan_symbol-IsLexeme loc = go (pair_of c) refl
    where
      go :
          (o : Option (ℕ × TokenKind × Option TokenKind))
          → pair_of c ≡ o
          → IsLexeme start (symbol_of o c start behind loc)
      go none e = scan_single-IsLexeme loc
      go (some (second, both, alone)) e =
          scan_pair-IsLexeme second both alone loc (pair_of-ne_eof c e).0 (pair_of-ne_eof c e).1

  pub scan_from-IsLexeme :
      (loc : SrcLoc) {s : Scanned} → scan_from c start behind loc ≡ some s → IsLexeme start s
  unfolding scan_from
  scan_from-IsLexeme loc {s} h = elim (Bool-cases (c == b'#')) [
    | inl e ↦ rw (some-injective _ _ (rw e at h)) at (scan_comment-IsLexeme loc)
    | inr n₁ ↦ elim (Bool-cases (c == b'"')) [
      | inl e ↦ scan_string-IsLexeme loc (rw (n₁, e) at h)
      | inr n₂ ↦ elim (Bool-cases (is_digit c)) [
        | inl e ↦ rw (some-injective _ _ (rw (n₁, n₂, e) at h)) at (scan_number-IsLexeme loc)
        | inr n₃ ↦ elim (Bool-cases (is_alpha c)) [
          | inl e ↦
              rw (some-injective _ _ (rw (n₁, n₂, n₃, e) at h)) at (scan_identifier-IsLexeme loc)
          | inr n₄ ↦ elim (Bool-cases (c == b'$')) [
            | inl e ↦
                rw (some-injective _ _ (rw (n₁, n₂, n₃, n₄, e) at h)) at (scan_dollar-IsLexeme loc)
            | inr n₅ ↦
                rw (some-injective _ _ (rw (n₁, n₂, n₃, n₄, n₅) at h)) at (scan_symbol-IsLexeme loc)
          ]
        ]
      ]
    ]
  ]
