-- ===== src/Lexer/Peeking.antt =====
-- `lexer_peek` of src/lexer.c against `lexer_next`.
use heluna_language.Common.{◌≡◌, refl, sym, ap, ◌∙◌, some, >>=-eq-some, subst, ◌↔◌}
use mathlib.Core.Option.{some-injective}
use heluna_language.Token.{SrcLoc, Token}
use heluna_language.Lexer.Cursor.{Lexer, skip, is_space}
use heluna_language.Lexer.Scan.{next_in, lexer_next, lexer_peek}

-- Only the read pointer changes.
lexer_next_frame :
    (lex : Lexer) {tok : Token} {after : Lexer}
    → lexer_next lex ≡ some (tok, after)
    → record after { current = lex.current } ≡ lex
unfolding lexer_next
lexer_next_frame lex h =
    let k = skip is_space lex.current in
    let loc : SrcLoc = record { filename = lex.filename; line = k.line; col = k.col } in
    let (s, e, f) = >>=-eq-some (next_in k.rest k loc) _ h in
    subst (λ (t : Token × Lexer). record t.1 { current = lex.current } ≡ lex) (some-injective _ _ f)
      refl

-- `lexer_peek` returns a token and a lexer exactly where the lexer is the one that it was called on
-- and `lexer_next` returns that token.
pub lexer_peek-eq_iff :
    (lex after : Lexer) (tok : Token)
    → (lexer_peek lex ≡ some (tok, after))
      ↔ ((after ≡ lex) × ((next : Lexer) × (lexer_next lex ≡ some (tok, next))))
unfolding lexer_peek
lexer_peek-eq_iff lex after tok = (to, from)
  where
    to :
        lexer_peek lex ≡ some (tok, after)
        → (after ≡ lex) × ((next : Lexer) × (lexer_next lex ≡ some (tok, next)))
    to h =
        let ((t, n), e, f) = >>=-eq-some (lexer_next lex) _ h in
        let q = some-injective _ _ f in
        (
          sym (ap (λ (p : Token × Lexer). p.1) q) ∙ lexer_next_frame lex e,
          (n, e ∙ ap (λ (p : Token × Lexer). some (p.0, n)) q),
        )

    from :
        (after ≡ lex) × ((next : Lexer) × (lexer_next lex ≡ some (tok, next)))
        → lexer_peek lex ≡ some (tok, after)
    from (a, (n, e)) = rw e (ap (λ l. some (tok, l)) (lexer_next_frame lex e ∙ sym a))
