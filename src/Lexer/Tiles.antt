-- ===== src/Lexer/Tiles.antt =====
-- The tokens of a whole source against its text.
use heluna_language.Common.{
  ℕ, zero, suc, ◌+◌, ◌≡◌, ◌≢◌, true, some, List, [], ◌∷◌, ◌++◌, >>=-eq-some, length, Bytes, All,
  Bool-cases, inl, inr, subst,
}
use mathlib.Core.Option.{some-injective}
use heluna_language.Token.{is_eof, Token, tok_error}
use heluna_language.Lexer.Cursor.{Lexer, is_space}
use heluna_language.Lexer.Scan.{lexer_next, tokens}
use heluna_language.Lexer.Moves.{IntSized}
use heluna_language.Lexer.Tokens.{Split, lexer_next-Split}
use heluna_language.Lexer.Faults.{is_eof-eq}

-- The text, whose first byte is at this offset, is for each token white space and then a lexeme, and
-- nothing is left behind the last. A token that is no error has the place and the length of its
-- lexeme.
abbrev pub Tiles : ℕ → Bytes → List Token → Type 0
Tiles o r [] = r ≡ []
Tiles o r (t ∷ ts) =
    (blank : Bytes) × (text : Bytes) × (rest : Bytes) × (r ≡ (blank ++ text) ++ rest)
    × All (λ c. is_space c ≡ true) blank
    × (t.kind ≢ tok_error → (t.start ≡ o + length blank) × (t.length ≡ length text))
    × Tiles (o + length (blank ++ text)) rest ts

Tiles-cons :
    (lex : Lexer) (tok : Token) (after : Lexer) (ts : List Token)
    → (s : Split lex tok after) → (tok.kind ≢ tok_error → tok.length ≡ length s.text)
    → Tiles after.current.offset after.current.rest ts
    → Tiles lex.current.offset lex.current.rest (tok ∷ ts)
Tiles-cons lex tok after ts s long t = (
  s.blank,
  s.text,
  after.current.rest,
  s.consumed.text,
  s.blank_is_space,
  λ k. ((s.placed k).0, long k),
  subst (λ o. Tiles o after.current.rest ts) s.consumed.offset t,
)

eof_ends :
    {lex : Lexer} {tok : Token} {after : Lexer}
    → Split lex tok after
    → is_eof tok.kind ≡ true
    → after.current.rest ≡ []
eof_ends {tok = tok} s z = elim s.ending [
  | inl e ↦ e.2
  | inr e ↦ absurd (e.0 (is_eof-eq tok.kind z))
]

-- Where the loop over `lexer_next` gives tokens from a read pointer whose line and column, counted
-- from 1, both stay below 2 ^ 31 with the number of bytes left added, their lexemes and the white space
-- before each are the whole text from the read pointer on, and each token that is no error has the
-- place and the length of its lexeme.
pub tokens-Tiles :
    (fuel : ℕ) (lex : Lexer) (ts : List Token)
    → IntSized lex.current
    → tokens fuel lex ≡ some ts
    → Tiles lex.current.offset lex.current.rest ts
unfolding tokens
tokens-Tiles zero lex ts small h = cc
tokens-Tiles (suc fuel) lex ts small h =
    let ((tok, after), e, f) = >>=-eq-some (lexer_next lex) _ h in
    let (s, long, left) = lexer_next-Split lex small e in
    elim (Bool-cases (is_eof tok.kind)) [
      | inl z ↦
          subst (Tiles lex.current.offset lex.current.rest) (some-injective _ _ (rw z at f))
            (Tiles-cons lex tok after [] s long (eof_ends s z))
      | inr z ↦
          let (us, g, k) = >>=-eq-some (tokens fuel after) _ (rw z at f) in
          subst (Tiles lex.current.offset lex.current.rest) (some-injective _ _ k)
            (Tiles-cons lex tok after us s long (tokens-Tiles fuel after us left g))
    ]
