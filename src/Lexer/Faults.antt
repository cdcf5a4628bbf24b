-- ===== src/Lexer/Faults.antt =====
-- Where the scanner reads past the terminator, and where its loop ends.
use heluna_language.Common.{
  DanglingEscape, lone, plain, escaped, ℕ, zero, suc, ◌<◌, ◌≡◌, ◌≢◌, refl, true, false, none, some,
  List, [], ◌∷◌, ◌++◌, ◌==◌, none_of, ◌↔◌, length, Bytes, arith, length-append, ap, Bool-cases,
  Option-cases, ◌⊎◌, inl, inr,
}
use heluna_language.Token.{is_eof, TokenKind, SrcLoc, Token, tok_eof}
use heluna_language.Lexer.Cursor.{Cursor, Lexer, skip, over, is_space}
use heluna_language.Lexer.Scan.{string_body, scan_string, scan_from, next_in, lexer_next, tokens}
use heluna_language.Lexer.Tokens.{Split, lexer_next-Split_any}

string_body-none : (r : Bytes) (k : Cursor) → string_body r k ≡ none → DanglingEscape r
unfolding string_body
string_body-none [] k h = absurd (ground arith)
string_body-none (c ∷ []) k h = lone c (ground arith)
string_body-none (c ∷ d ∷ ds) k h = elim (Bool-cases (c == b'"')) [
  | inl q ↦ absurd (ground arith)
  | inr q ↦ elim (Bool-cases (c == b'\\')) [
    | inl b ↦ escaped c d (ground arith) (string_body-none ds _ (rw (q, b) at h))
    | inr b ↦ plain c (ground arith) (ground arith) (string_body-none (d ∷ ds) _ (rw (q, b) at h))
  ]
]

DanglingEscape-string_body : {r : Bytes} (k : Cursor) → DanglingEscape r → string_body r k ≡ none
unfolding string_body
DanglingEscape-string_body k (lone c e) = ground arith
DanglingEscape-string_body k (plain c {cs = []} p q d) = elim d [ ]
DanglingEscape-string_body k (plain c {cs = x ∷ xs} p q d) =
    ground (arith, DanglingEscape-string_body (over c (x ∷ xs) k) d)
DanglingEscape-string_body k (escaped c x {cs} e d) =
    ground (arith, DanglingEscape-string_body (over x cs (over c (x ∷ cs) k)) d)

-- An unclosed string that ends in a dangling escape stands next, behind white space.
pub record ReadsPast (lex : Lexer) : Type 0 where
  pub body : Bytes
  pub next_is : (skip is_space lex.current).rest ≡ b'"' ∷ body
  pub dangling : DanglingEscape body

scan_from-none :
    (c : ℕ) (cs : Bytes) (start : Cursor) (loc : SrcLoc)
    → scan_from c start (over c cs start) loc ≡ none
    → (c ≡ b'"') × DanglingEscape cs
unfolding scan_from scan_string over
scan_from-none c cs start loc h = elim (Bool-cases (c == b'"')) [
  | inl q ↦ (ground arith, string_body-none cs (over c cs start) (ground arith))
  | inr q ↦ absurd (ground arith)
]

scan_from_dangling :
    (cs : Bytes) (start : Cursor) (loc : SrcLoc)
    → DanglingEscape cs
    → scan_from b'"' start (over b'"' cs start) loc ≡ none
unfolding scan_from scan_string over
scan_from_dangling cs start loc d = rw (DanglingEscape-string_body (over b'"' cs start) d)

-- `lexer_next` reads past the terminator of the source exactly where an unclosed string stands
-- next whose last byte is a backslash that escapes nothing.
pub lexer_next-eq-none_iff : (lex : Lexer) → (lexer_next lex ≡ none) ↔ ReadsPast lex
unfolding lexer_next next_in
lexer_next-eq-none_iff lex = (to, from)
  where
    k : Cursor
    k = skip is_space lex.current

    l : SrcLoc
    l = record { filename = lex.filename; line = k.line; col = k.col }

    found : (r : Bytes) → k.rest ≡ r → next_in r k l ≡ none → ReadsPast lex
    found [] e h = absurd (ground arith)
    found (c ∷ cs) e h =
        let (q, d) = scan_from-none c cs k l h in
        record { body = cs; next_is = rw q at e; dangling = d }

    to : lexer_next lex ≡ none → ReadsPast lex
    to h = found k.rest refl (none_of (next_in k.rest k l) _ h)

    lost : (body r : Bytes) → DanglingEscape body → r ≡ b'"' ∷ body → next_in r k l ≡ none
    lost body r d e = rw e (scan_from_dangling body k l d)

    from : ReadsPast lex → lexer_next lex ≡ none
    from f = rw (lost f.body k.rest f.dangling f.next_is)

-- A later call reads past the terminator.
pub data MayReadPast : Lexer → Type 0 where
  now : {lex : Lexer} → ReadsPast lex → MayReadPast lex
  later :
      {lex : Lexer} {tok : Token} {after : Lexer}
      → lexer_next lex ≡ some (tok, after)
      → MayReadPast after
      → MayReadPast lex

-- The last token, and only that one, is the end of the file.
abbrev pub EndsInEof : List Token → Type 0
EndsInEof [] = ⊥
EndsInEof (t ∷ []) = t.kind ≡ tok_eof
EndsInEof (t ∷ u ∷ ts) = (t.kind ≢ tok_eof) × EndsInEof (u ∷ ts)

abbrev pub Tokenizes : ℕ → Lexer → Type 0
Tokenizes fuel lex = (ts : List Token) × (tokens fuel lex ≡ some ts) × EndsInEof ts

EndsInEof-cons :
    (t : Token) (ts : List Token) → t.kind ≢ tok_eof → EndsInEof ts → EndsInEof (t ∷ ts)
EndsInEof-cons t [] h e = absurd e
EndsInEof-cons t (u ∷ ts) h e = (h, e)

pub is_eof-eq : (k : TokenKind) → is_eof k ≡ true → k ≡ tok_eof
is_eof-eq tok_eof h = refl
is_eof-eq _ h = cc

Split-shrinks :
    {lex : Lexer} {tok : Token} {after : Lexer}
    → Split lex tok after
    → tok.kind ≢ tok_eof
    → length after.current.rest < length lex.current.rest
Split-shrinks {lex} {tok} {after} s h = elim s.ending [
  | inl e ↦ absurd (h e.0)
  | inr e ↦ omega (
    arith,
    e.1,
    ap length s.consumed.text,
    length-append (s.blank ++ s.text) after.current.rest,
    length-append s.blank s.text,
  )
]

-- With more fuel than bytes left the loop over `lexer_next` ends: either it gives the tokens up to
-- the end of the file, which is the last of them and only the last, or some call on the way reads
-- past the terminator.
pub tokens_total :
    (fuel : ℕ) (lex : Lexer) → length lex.current.rest < fuel → Tokenizes fuel lex ⊎ MayReadPast lex
unfolding tokens
tokens_total zero lex h = absurd (omega arith)
tokens_total (suc fuel) lex h = elim (Option-cases (lexer_next lex)) [
  | inl e ↦ inr (now ((lexer_next-eq-none_iff lex).0 e))
  | inr ((tok, after), e) ↦ elim (Bool-cases (is_eof tok.kind)) [
    | inl z ↦ inl (tok ∷ [], rw e (rw z), is_eof-eq tok.kind z)
    | inr z ↦ elim (tokens_total fuel after (omega (arith, shrinks tok after e z))) [
      | inl (ts, q, w) ↦
          inl
            (tok ∷ ts, rw e (rw (z, q)), EndsInEof-cons tok ts (λ y. ground (arith, ap is_eof y)) w)
      | inr m ↦ inr (later e m)
    ]
  ]
]
  where
    shrinks :
        (tok : Token) (after : Lexer)
        → lexer_next lex ≡ some (tok, after)
        → is_eof tok.kind ≡ false
        → length after.current.rest < length lex.current.rest
    shrinks tok after e z =
        Split-shrinks (lexer_next-Split_any lex e) (λ y. ground (arith, ap is_eof y))
