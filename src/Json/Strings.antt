-- ===== src/Json/Strings.antt =====
-- `parse_string` and `emit_string` of src/json.c.
use heluna_language.Common.{
  ℕ, ◌+◌, ◌-◌, ◌/◌, ◌%◌, [], ◌∷◌, ◌++◌, ltb, ◌==◌, if◌then◌else◌, Bytes, length,
}

-- The first pass: the raw text up to the closing quote or the terminator, what is left from
-- there, and `out_len`, by which the buffer is sized; it is an `int` in C, so a text in which it
-- passes 2 ^ 31 - 1 stands for none of the program's.
pub record RawText : Type 0 where
  pub raw : Bytes
  pub rest : Bytes
  pub out_len : ℕ

unfoldable pub scan_text : Bytes → RawText
scan_text [] = record { raw = []; rest = []; out_len = 0 }
scan_text (c ∷ []) =
    if c == b'"'
    then record { raw = []; rest = c ∷ []; out_len = 0 }
    else if c == b'\\'
    then record { raw = c ∷ []; rest = []; out_len = 0 }
    else record { raw = c ∷ []; rest = []; out_len = 1 }
scan_text (c ∷ d ∷ ds) =
    let after_escape = scan_text ds in
    let after_plain = scan_text (d ∷ ds) in
    if c == b'"'
    then record { raw = []; rest = c ∷ d ∷ ds; out_len = 0 }
    else if c == b'\\'
    then record {
      raw = c ∷ d ∷ after_escape.raw;
      rest = after_escape.rest;
      out_len = after_escape.out_len + 1;
    }
    else record {
      raw = c ∷ after_plain.raw;
      rest = after_plain.rest;
      out_len = after_plain.out_len + 1;
    }

unfoldable pub unescape : ℕ → ℕ
unescape c =
    if c == b'n' then b'\n' else if c == b't' then b'\t' else if c == b'r' then b'\r' else c

-- The second pass: the bytes written to the buffer before its terminator.
unfoldable pub resolve : Bytes → Bytes
resolve [] = []
resolve (c ∷ []) = c ∷ []
resolve (c ∷ d ∷ ds) =
    let escaped = unescape d ∷ resolve ds in
    let plain = c ∷ resolve (d ∷ ds) in if c == b'\\' then escaped else plain

-- The bytes that the buffer is allocated with, and those that are written to it.
unfoldable pub buffer_size : RawText → ℕ
buffer_size t = t.out_len + 1

unfoldable pub buffer_written : RawText → ℕ
buffer_written t = length (resolve t.raw) + 1

abbrev pub drop_quote : Bytes → Bytes
drop_quote [] = []
drop_quote (c ∷ cs) = if c == b'"' then cs else c ∷ cs

-- The string, with what follows its closing quote. The text begins behind the opening quote.
unfoldable pub parse_string : Bytes → Bytes × Bytes
parse_string s = let t = scan_text s in (resolve t.raw, drop_quote t.rest)

unfoldable pub hex_digit : ℕ → ℕ
hex_digit n = if ltb n 10 then b'0' + n else b'a' + n - 10

-- `\u%04x` of a byte below 0x20.
abbrev pub unicode_escape : ℕ → Bytes
unicode_escape c = b'\\' ∷ b'u' ∷ b'0' ∷ b'0' ∷ hex_digit (c / 16) ∷ hex_digit (c % 16) ∷ []

unfoldable pub emit_byte : ℕ → Bytes
emit_byte c =
    if c == b'"'
    then b'\\' ∷ b'"' ∷ []
    else if c == b'\\'
    then b'\\' ∷ b'\\' ∷ []
    else if c == b'\n'
    then b'\\' ∷ b'n' ∷ []
    else if c == b'\t'
    then b'\\' ∷ b't' ∷ []
    else if c == b'\r'
    then b'\\' ∷ b'r' ∷ []
    else if ltb c 0x20
    then unicode_escape c
    else c ∷ []

unfoldable pub emit_bytes : Bytes → Bytes
emit_bytes [] = []
emit_bytes (c ∷ cs) = emit_byte c ++ emit_bytes cs

unfoldable pub emit_string : Bytes → Bytes
emit_string s = b'"' ∷ (emit_bytes s ++ b'"' ∷ [])
