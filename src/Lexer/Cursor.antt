-- ===== src/Lexer/Cursor.antt =====
-- The read pointer of src/lexer.c: `peek`, `advance` and the loops over one class of bytes.
use heluna_language.Common.{
  ℕ, ◌+◌, Bool, true, false, not, ◌&&◌, ◌||◌, [], ◌∷◌, leb, ◌==◌, if◌then◌else◌, Bytes,
}

-- The read pointer.
pub record Cursor : Type 0 where
  pub rest : Bytes
  pub offset : ℕ
  pub line : ℕ
  pub col : ℕ

pub record Lexer : Type 0 where
  pub source : Bytes
  pub current : Cursor
  pub filename : Bytes

unfoldable pub lexer_init : Bytes → Bytes → Lexer
lexer_init source filename = record {
  source = source;
  current = record { rest = source; offset = 0; line = 1; col = 1 };
  filename = filename;
}

abbrev pub head_or_nul : Bytes → ℕ
head_or_nul [] = 0
head_or_nul (c ∷ _) = c

abbrev pub peek : Cursor → ℕ
peek k = head_or_nul k.rest

-- `advance` over the byte `c`, which leaves `cs`.
unfoldable pub over : ℕ → Bytes → Cursor → Cursor
over c cs k = record {
  rest = cs;
  offset = k.offset + 1;
  line = if c == b'\n' then k.line + 1 else k.line;
  col = if c == b'\n' then 1 else k.col + 1;
}

abbrev pub step_in : Bytes → Cursor → Cursor
step_in [] k = k
step_in (c ∷ cs) k = over c cs k

-- `advance` behind a test of `peek` that fails at the terminator.
abbrev pub step : Cursor → Cursor
step k = step_in k.rest k

-- `while (test(peek(lex))) advance(lex);` for a test that fails at the terminator.
unfoldable pub advance_while : (ℕ → Bool) → Bytes → Cursor → Cursor
advance_while test [] k = k
advance_while test (c ∷ cs) k = elim (test c) [
  | true ↦ advance_while test cs (over c cs k)
  | false ↦ k
]

abbrev pub skip : (ℕ → Bool) → Cursor → Cursor
skip test k = advance_while test k.rest k

abbrev pub is_space : ℕ → Bool
is_space c = c == b' ' || c == b'\t' || c == b'\r' || c == b'\n'

abbrev pub is_digit : ℕ → Bool
is_digit c = leb b'0' c && leb c b'9'

abbrev pub is_alpha : ℕ → Bool
is_alpha c = (leb b'a' c && leb c b'z') || (leb b'A' c && leb c b'Z')

abbrev pub is_word : ℕ → Bool
is_word c = is_alpha c || is_digit c || c == b'-'

abbrev pub in_comment : ℕ → Bool
in_comment c = not (c == b'\n') && not (c == 0)
