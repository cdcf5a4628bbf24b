-- ===== src/Evaluator/Text.antt =====
-- `resolve_string` of src/evaluator.c: the text of a string literal.
use heluna_language.Common.{
  ℕ, ◌+◌, ◌-◌, ◌≡◌, refl, Bool, false, ◌&&◌, [], ◌∷◌, ◌==◌, leb, if◌then◌else◌, length, take, Bytes,
  arith, Bool-cases, inl, inr,
}

abbrev is_quote_first : Bytes → Bool
is_quote_first [] = false
is_quote_first (c ∷ _) = c == b'"'

abbrev is_quote_last : Bytes → Bool
is_quote_last [] = false
is_quote_last (c ∷ []) = c == b'"'
is_quote_last (_ ∷ d ∷ ds) = is_quote_last (d ∷ ds)

abbrev behind_first : Bytes → Bytes
behind_first [] = []
behind_first (_ ∷ cs) = cs

-- The surrounding quotes are skipped where both are there.
unfoldable pub unquote : Bytes → Bytes
unquote raw =
    if leb 2 (length raw) && is_quote_first raw && is_quote_last raw
    then take (length raw - 2) (behind_first raw)
    else raw

-- The first pass.
unfoldable pub out_length : Bytes → ℕ
out_length [] = 0
out_length (c ∷ []) = 1
out_length (c ∷ d ∷ ds) =
    let escaped = out_length ds + 1 in
    let plain = out_length (d ∷ ds) + 1 in if c == b'\\' then escaped else plain

unfoldable pub escape_of : ℕ → ℕ
escape_of c = if c == b'n' then b'\n' else if c == b't' then b'\t' else c

-- The second pass.
unfoldable pub resolve : Bytes → Bytes
resolve [] = []
resolve (c ∷ []) = c ∷ []
resolve (c ∷ d ∷ ds) =
    let escaped = escape_of d ∷ resolve ds in
    let plain = c ∷ resolve (d ∷ ds) in if c == b'\\' then escaped else plain

unfoldable pub resolve_string : Bytes → Bytes
resolve_string raw = resolve (unquote raw)

-- The two passes agree: the text written is as long as the first pass counted, so that with its
-- terminator it fills the buffer of `out_len + 1` bytes exactly.
pub length-resolve : (s : Bytes) → length (resolve s) ≡ out_length s
unfolding resolve out_length
length-resolve [] = refl
length-resolve (c ∷ []) = refl
length-resolve (c ∷ d ∷ ds) = elim (Bool-cases (c == b'\\')) [
  | inl e ↦ rw e (omega (arith, length-resolve ds))
  | inr e ↦ rw e (omega (arith, length-resolve (d ∷ ds)))
]
