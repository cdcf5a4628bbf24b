-- ===== src/Lexer/Scan.antt =====
-- The scanning functions and `lexer_next`, `lexer_peek` of src/lexer.c.
use heluna_language.Common.{
  ℕ, zero, suc, ◌-◌, ◌%◌, ◌^◌, Bool, true, false, ◌&&◌, ◌||◌, Option, none, some, List, [], ◌∷◌,
  ◌==◌, if◌then◌else◌, ◌>>=◌, length, take, Bytes, codes, String,
}
use heluna_language.Token.{
  is_eof, TokenKind, SrcLoc, Token, tok_integer, tok_float, tok_string, tok_input_ref, tok_lparen,
  tok_rparen, tok_lbracket, tok_rbracket, tok_lbrace, tok_rbrace, tok_comma, tok_dot, tok_dotdot,
  tok_colon, tok_dollar, tok_underscore, tok_plus, tok_minus, tok_star, tok_slash, tok_percent,
  tok_eq, tok_neq, tok_lt, tok_gt, tok_lte, tok_gte, tok_comment, tok_eof, tok_error,
}
use heluna_language.Lexer.Keywords.{lookup_keyword}
use heluna_language.Lexer.Cursor.{
  Cursor, Lexer, peek, step, skip, over, is_space, is_digit, is_alpha, is_word, in_comment,
}

-- A scan ends with a token and the read pointer.
abbrev pub Scanned : Type 0
Scanned = Token × Cursor

-- `length` is the 32-bit word of an `int`.
unfoldable pub make_token : TokenKind → ℕ → ℕ → SrcLoc → Token
make_token kind start length loc = record {
  kind = kind;
  loc = loc;
  start = start;
  length = length;
  message = [];
}

unfoldable pub error_token : String → SrcLoc → Token
error_token msg loc = record {
  kind = tok_error;
  loc = loc;
  start = 0;
  length = length (codes msg);
  message = codes msg;
}

-- `(int)(lex->current - start)`, as the 32-bit word of the `int`.
abbrev pub distance : Cursor → Cursor → ℕ
distance start k = (k.offset - start.offset) % 2 ^ 32

-- The token from the pointer `start` up to the pointer `k`.
abbrev pub lexeme : TokenKind → Cursor → Cursor → SrcLoc → Scanned
lexeme kind start k loc = (make_token kind start.offset (distance start k) loc, k)

-- The loop of `scan_string`: up to the closing quote or the terminator. The escape skips its
-- backslash and then, by the `advance` below the test, whatever follows: where the backslash is
-- the last byte that second `advance` steps over the terminator.
unfoldable pub string_body : Bytes → Cursor → Option Cursor
string_body [] k = some k
string_body (c ∷ []) k =
    if c == b'"' then some k else if c == b'\\' then none else some (over c [] k)
string_body (c ∷ d ∷ ds) k =
    let escaped = string_body ds (over d ds (over c (d ∷ ds) k)) in
    let plain = string_body (d ∷ ds) (over c (d ∷ ds) k) in
    if c == b'"' then some k else if c == b'\\' then escaped else plain

unfoldable pub scan_string : Cursor → Cursor → SrcLoc → Option Scanned
unfolding string_body
scan_string start k loc = string_body k.rest k >>= λ k'. some (
    if peek k' == 0
    then (error_token "unterminated string" loc, k')
    else lexeme tok_string start (step k') loc)

-- The fractional part, with whether there is one. `lex->current[1]` is the byte after the point.
unfoldable pub fraction : Cursor → Bool × Cursor
fraction k =
    if peek k == b'.' && is_digit (peek (step k))
    then (true, skip is_digit (step k))
    else (false, k)

unfoldable pub sign : Cursor → Cursor
sign k = if peek k == b'+' || peek k == b'-' then step k else k

unfoldable pub exponent : Cursor → Bool × Cursor
exponent k =
    if peek k == b'e' || peek k == b'E' then (true, skip is_digit (sign (step k))) else (false, k)

unfoldable pub scan_number : Cursor → Cursor → SrcLoc → Scanned
unfolding fraction exponent
scan_number start k loc =
    let (is_fraction, k₁) = fraction (skip is_digit k) in
    let (is_exponent, k₂) = exponent k₁ in
    lexeme (if is_fraction || is_exponent then tok_float else tok_integer) start k₂ loc

unfoldable pub scan_identifier : Cursor → Cursor → SrcLoc → Scanned
scan_identifier start k loc =
    let end = skip is_word k in
    lexeme (lookup_keyword (take (distance start end) start.rest)) start end loc

unfoldable pub scan_comment : Cursor → Cursor → SrcLoc → Scanned
scan_comment start k loc = lexeme tok_comment start (skip in_comment k) loc

unfoldable pub scan_dollar : Cursor → Cursor → SrcLoc → Scanned
scan_dollar start k loc =
    if is_alpha (peek k)
    then lexeme tok_input_ref start (skip is_word (step k)) loc
    else lexeme tok_dollar start k loc

-- The switch on two-character tokens, `none` where no case of it returns: for each first
-- character the second one that completes the pair, the kind of the pair, and the kind of the
-- first character alone if that is a token.
unfoldable pub pair_of : ℕ → Option (ℕ × TokenKind × Option TokenKind)
pair_of c =
    if c == b'!'
    then some (b'=', tok_neq, none)
    else if c == b'<'
    then some (b'=', tok_lte, some tok_lt)
    else if c == b'>'
    then some (b'=', tok_gte, some tok_gt)
    else if c == b'.'
    then some (b'.', tok_dotdot, some tok_dot)
    else none

-- The switch on single-character tokens.
unfoldable pub single_of : ℕ → Option TokenKind
single_of c =
    if c == b'('
    then some tok_lparen
    else if c == b')'
    then some tok_rparen
    else if c == b'['
    then some tok_lbracket
    else if c == b']'
    then some tok_rbracket
    else if c == b'{'
    then some tok_lbrace
    else if c == b'}'
    then some tok_rbrace
    else if c == b','
    then some tok_comma
    else if c == b':'
    then some tok_colon
    else if c == b'_'
    then some tok_underscore
    else if c == b'+'
    then some tok_plus
    else if c == b'-'
    then some tok_minus
    else if c == b'*'
    then some tok_star
    else if c == b'/'
    then some tok_slash
    else if c == b'%'
    then some tok_percent
    else if c == b'='
    then some tok_eq
    else none

-- The token of one character, or an error.
unfoldable pub kind_or_error : Option TokenKind → String → Cursor → Cursor → SrcLoc → Scanned
kind_or_error (some kind) msg start k loc = lexeme kind start k loc
kind_or_error none msg start k loc = (error_token msg loc, k)

unfoldable pub scan_pair : ℕ × TokenKind × Option TokenKind → Cursor → Cursor → SrcLoc → Scanned
scan_pair (second, both, alone) start k loc =
    if peek k == second
    then lexeme both start (step k) loc
    else kind_or_error alone "unexpected '!'" start k loc

unfoldable pub scan_single : ℕ → Cursor → Cursor → SrcLoc → Scanned
scan_single c start k loc =
    if c == b'-' && is_digit (peek k)
    then scan_number start k loc
    else kind_or_error (single_of c) "unexpected character" start k loc

abbrev pub symbol_of :
    Option (ℕ × TokenKind × Option TokenKind) → ℕ → Cursor → Cursor → SrcLoc → Scanned
symbol_of (some pair) c start k loc = scan_pair pair start k loc
symbol_of none c start k loc = scan_single c start k loc

unfoldable pub scan_symbol : ℕ → Cursor → Cursor → SrcLoc → Scanned
scan_symbol c start k loc = symbol_of (pair_of c) c start k loc

-- `lexer_next` behind the test for the terminator: `start` points to `c`, `k` behind it.
unfoldable pub scan_from : ℕ → Cursor → Cursor → SrcLoc → Option Scanned
scan_from c start k loc =
    if c == b'#'
    then some (scan_comment start k loc)
    else if c == b'"'
    then scan_string start k loc
    else if is_digit c
    then some (scan_number start k loc)
    else if is_alpha c
    then some (scan_identifier start k loc)
    else if c == b'$'
    then some (scan_dollar start k loc)
    else some (scan_symbol c start k loc)

unfoldable pub next_in : Bytes → Cursor → SrcLoc → Option Scanned
next_in [] start loc = some (make_token tok_eof start.offset 0 loc, start)
next_in (c ∷ cs) start loc = scan_from c start (over c cs start) loc

unfoldable pub lexer_next : Lexer → Option (Token × Lexer)
unfolding next_in
lexer_next lex = do
  let start = skip is_space lex.current
  let loc : SrcLoc = record { filename = lex.filename; line = start.line; col = start.col }
  (tok, k) ← next_in start.rest start loc
  some (tok, record lex { current = k })

-- `lexer_peek` scans and then puts pointer, line and column back.
unfoldable pub lexer_peek : Lexer → Option (Token × Lexer)
lexer_peek lex = do
  let saved = lex.current
  (tok, after) ← lexer_next lex
  some (tok, record after { current = saved })

-- The loop of include/heluna/lexer.h: tokens up to the end of the file. `none` is a fault or
-- that the fuel ran out.
unfoldable pub tokens : ℕ → Lexer → Option (List Token)
tokens zero lex = none
tokens (suc fuel) lex = do
  (tok, after) ← lexer_next lex
  let rest = tokens fuel after >>= λ ts. some (tok ∷ ts)
  if is_eof tok.kind then some (tok ∷ []) else rest
