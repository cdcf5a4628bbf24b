-- ===== src/Token.antt =====
-- src/token.c, include/heluna/token.h and the `SrcLoc` of include/heluna/errors.h: token kinds,
-- tokens, and the names of the kinds.
use heluna_language.Common.{ℕ, Bytes, codes, Bool, true, false}

pub data TokenKind : Type 0 where
  tok_integer tok_float tok_string tok_true tok_false tok_nothing tok_ident : TokenKind
  tok_input_ref tok_contract tok_uses tok_using tok_tags tok_tagged tok_sanitizers : TokenKind
  tok_strips tok_input tok_output tok_rules tok_forbid tok_require tok_reject : TokenKind
  tok_tests tok_test tok_given tok_expect tok_source tok_sources tok_keyed_by : TokenKind
  tok_returns tok_lookup tok_config tok_as tok_string_type tok_integer_type : TokenKind
  tok_float_type tok_boolean_type tok_maybe tok_list tok_of tok_record tok_define : TokenKind
  tok_with tok_let tok_be tok_result tok_if tok_then tok_else tok_end tok_match : TokenKind
  tok_when tok_between tok_and tok_or tok_not tok_in tok_is tok_through tok_map : TokenKind
  tok_mod tok_do tok_filter tok_where tok_lparen tok_rparen tok_lbracket tok_rbracket : TokenKind
  tok_lbrace tok_rbrace tok_comma tok_dot tok_dotdot tok_colon tok_dollar : TokenKind
  tok_underscore tok_plus tok_minus tok_star tok_slash tok_percent tok_eq tok_neq : TokenKind
  tok_lt tok_gt tok_lte tok_gte tok_comment tok_eof tok_error : TokenKind

pub record SrcLoc : Type 0 where
  pub filename : Bytes
  pub line : ℕ
  pub col : ℕ

-- `start` is a pointer into the source buffer: its offset there. An error token points to its
-- message instead, which is `message`.
pub record Token : Type 0 where
  pub kind : TokenKind
  pub loc : SrcLoc
  pub start : ℕ
  pub length : ℕ
  pub message : Bytes

-- `kind == TOK_EOF`.
abbrev pub is_eof : TokenKind → Bool
is_eof tok_eof = true
is_eof _ = false

-- A human-readable name for a token kind.
unfoldable pub token_kind_name : TokenKind → Bytes
token_kind_name tok_integer = codes "INTEGER"
token_kind_name tok_float = codes "FLOAT"
token_kind_name tok_string = codes "STRING"
token_kind_name tok_true = codes "TRUE"
token_kind_name tok_false = codes "FALSE"
token_kind_name tok_nothing = codes "NOTHING"
token_kind_name tok_ident = codes "IDENT"
token_kind_name tok_input_ref = codes "INPUT_REF"
token_kind_name tok_contract = codes "CONTRACT"
token_kind_name tok_uses = codes "USES"
token_kind_name tok_using = codes "USING"
token_kind_name tok_tags = codes "TAGS"
token_kind_name tok_tagged = codes "TAGGED"
token_kind_name tok_sanitizers = codes "SANITIZERS"
token_kind_name tok_strips = codes "STRIPS"
token_kind_name tok_input = codes "INPUT"
token_kind_name tok_output = codes "OUTPUT"
token_kind_name tok_rules = codes "RULES"
token_kind_name tok_forbid = codes "FORBID"
token_kind_name tok_require = codes "REQUIRE"
token_kind_name tok_reject = codes "REJECT"
token_kind_name tok_tests = codes "TESTS"
token_kind_name tok_test = codes "TEST"
token_kind_name tok_given = codes "GIVEN"
token_kind_name tok_expect = codes "EXPECT"
token_kind_name tok_source = codes "SOURCE"
token_kind_name tok_sources = codes "SOURCES"
token_kind_name tok_keyed_by = codes "KEYED_BY"
token_kind_name tok_returns = codes "RETURNS"
token_kind_name tok_lookup = codes "LOOKUP"
token_kind_name tok_config = codes "CONFIG"
token_kind_name tok_as = codes "AS"
token_kind_name tok_string_type = codes "STRING_TYPE"
token_kind_name tok_integer_type = codes "INTEGER_TYPE"
token_kind_name tok_float_type = codes "FLOAT_TYPE"
token_kind_name tok_boolean_type = codes "BOOLEAN_TYPE"
token_kind_name tok_maybe = codes "MAYBE"
token_kind_name tok_list = codes "LIST"
token_kind_name tok_of = codes "OF"
token_kind_name tok_record = codes "RECORD"
token_kind_name tok_define = codes "DEFINE"
token_kind_name tok_with = codes "WITH"
token_kind_name tok_let = codes "LET"
token_kind_name tok_be = codes "BE"
token_kind_name tok_result = codes "RESULT"
token_kind_name tok_if = codes "IF"
token_kind_name tok_then = codes "THEN"
token_kind_name tok_else = codes "ELSE"
token_kind_name tok_end = codes "END"
token_kind_name tok_match = codes "MATCH"
token_kind_name tok_when = codes "WHEN"
token_kind_name tok_between = codes "BETWEEN"
token_kind_name tok_and = codes "AND"
token_kind_name tok_or = codes "OR"
token_kind_name tok_not = codes "NOT"
token_kind_name tok_in = codes "IN"
token_kind_name tok_is = codes "IS"
token_kind_name tok_through = codes "THROUGH"
token_kind_name tok_map = codes "MAP"
token_kind_name tok_mod = codes "MOD"
token_kind_name tok_do = codes "DO"
token_kind_name tok_filter = codes "FILTER"
token_kind_name tok_where = codes "WHERE"
token_kind_name tok_lparen = codes "LPAREN"
token_kind_name tok_rparen = codes "RPAREN"
token_kind_name tok_lbracket = codes "LBRACKET"
token_kind_name tok_rbracket = codes "RBRACKET"
token_kind_name tok_lbrace = codes "LBRACE"
token_kind_name tok_rbrace = codes "RBRACE"
token_kind_name tok_comma = codes "COMMA"
token_kind_name tok_dot = codes "DOT"
token_kind_name tok_dotdot = codes "DOTDOT"
token_kind_name tok_colon = codes "COLON"
token_kind_name tok_dollar = codes "DOLLAR"
token_kind_name tok_underscore = codes "UNDERSCORE"
token_kind_name tok_plus = codes "PLUS"
token_kind_name tok_minus = codes "MINUS"
token_kind_name tok_star = codes "STAR"
token_kind_name tok_slash = codes "SLASH"
token_kind_name tok_percent = codes "PERCENT"
token_kind_name tok_eq = codes "EQ"
token_kind_name tok_neq = codes "NEQ"
token_kind_name tok_lt = codes "LT"
token_kind_name tok_gt = codes "GT"
token_kind_name tok_lte = codes "LTE"
token_kind_name tok_gte = codes "GTE"
token_kind_name tok_comment = codes "COMMENT"
token_kind_name tok_eof = codes "EOF"
token_kind_name tok_error = codes "ERROR"
