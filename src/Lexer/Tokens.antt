-- ===== src/Lexer/Tokens.antt =====
-- `lexer_next` as a whole: the source splits into white space, a lexeme and what is left, and the
-- loop over it ends.
use heluna_language.Common.{
  ◌+◌, ◌%◌, ◌^◌, ◌<◌, ◌≡◌, ◌≢◌, refl, true, some, [], ◌∷◌, ◌++◌, >>=-eq-some, length, Bytes, arith,
  ◌∙◌, All, ap, length-append, ◌⊎◌, inl, inr, subst,
}
use mathlib.Core.Option.{some-injective}
use heluna_language.Token.{SrcLoc, Token, tok_error, tok_eof}
use heluna_language.Lexer.Cursor.{Cursor, Lexer, skip, is_space}
use heluna_language.Lexer.Scan.{Scanned, next_in, make_token, lexer_next}
use heluna_language.Lexer.Moves.{
  Consumes, Consumes-refl, Consumes-trans, advance_while-Consumes, IntSized, Consumes-IntSized,
}
use heluna_language.Lexer.Lexemes.{scan_from-IsLexeme}

-- What one call of `lexer_next` does to the text at the read pointer.
pub record Split (lex : Lexer) (tok : Token) (after : Lexer) : Type 0 where
  pub blank : Bytes
  pub text : Bytes
  pub consumed : Consumes lex.current (blank ++ text) after.current
  pub blank_is_space : All (λ c. is_space c ≡ true) blank
  pub placed :
      tok.kind ≢ tok_error
      → (tok.start ≡ lex.current.offset + length blank) × (tok.length ≡ length text % 2 ^ 32)
  pub ending :
      ((tok.kind ≡ tok_eof) × (text ≡ []) × (after.current.rest ≡ []))
      ⊎ ((tok.kind ≢ tok_eof) × (0 < length text))
  pub same_source : after.source ≡ lex.source

module _ (lex : Lexer) where
  abbrev start : Cursor
  start = skip is_space lex.current

  abbrev loc : SrcLoc
  loc = record { filename = lex.filename; line = start.line; col = start.col }

  next_in-Split :
      (r : Bytes) (s : Scanned)
      → start.rest ≡ r
      → next_in r start loc ≡ some s
      → Split lex s.0 (record lex { current = s.1 })
  unfolding next_in make_token
  next_in-Split [] s e h =
      let (blank, m, a) = advance_while-Consumes is_space lex.current.rest lex.current refl in
      subst (λ (t : Scanned). Split lex t.0 (record lex { current = t.1 })) (some-injective _ _ h)
        (record {
          blank = blank;
          text = [];
          consumed = Consumes-trans blank [] m (Consumes-refl start);
          blank_is_space = a;
          placed = λ _. (m.offset, refl);
          ending = inl (refl, refl, e);
          same_source = refl;
        })
  next_in-Split (c ∷ cs) s e h =
      let (blank, m, a) = advance_while-Consumes is_space lex.current.rest lex.current refl in
      let l = scan_from-IsLexeme c cs start e loc h in
      record {
        blank = blank;
        text = l.first ∷ l.others;
        consumed = Consumes-trans blank (l.first ∷ l.others) m l.consumed;
        blank_is_space = a;
        placed = λ k. ((l.placed k).0 ∙ m.offset, (l.placed k).1);
        ending = inr (l.not_eof, omega arith);
        same_source = refl;
      }

pub lexer_next-Split_any :
    (lex : Lexer) {tok : Token} {after : Lexer}
    → lexer_next lex ≡ some (tok, after)
    → Split lex tok after
unfolding lexer_next
lexer_next-Split_any lex {tok} {after} h =
    let k = skip is_space lex.current in
    let (s, e, f) = >>=-eq-some (next_in k.rest k (loc lex)) _ h in
    subst (λ (t : Token × Lexer). Split lex t.0 t.1) (some-injective _ _ f)
      (next_in-Split lex k.rest s refl e)

-- Whenever `lexer_next` returns from a read pointer whose line and column, counted from 1, both stay
-- below 2 ^ 31 with the number of bytes left added, so that lines, columns and lengths are `int`s, the
-- text at the read pointer is white space, then the lexeme, then what is left; offset, line and
-- column move on over both pieces, and line and column are again such ones; unless the token is an
-- error, its place and length are those of the lexeme; and the lexeme is empty only for the end of
-- file, which is returned only where nothing is left.
pub lexer_next-Split :
    (lex : Lexer) {tok : Token} {after : Lexer}
    → IntSized lex.current
    → lexer_next lex ≡ some (tok, after)
    → (s : Split lex tok after) × (tok.kind ≢ tok_error → tok.length ≡ length s.text)
      × IntSized after.current
lexer_next-Split lex {tok} {after} small h =
    let s = lexer_next-Split_any lex h in
    let total = length-append (s.blank ++ s.text) after.current.rest in
    (
      s,
      λ k. omega (
        arith,
        (s.placed k).1,
        small,
        ap length s.consumed.text,
        total,
        length-append s.blank s.text,
      ),
      Consumes-IntSized lex.current after.current (s.blank ++ s.text) s.consumed small,
    )
