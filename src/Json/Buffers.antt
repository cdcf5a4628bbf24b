-- ===== src/Json/Buffers.antt =====
-- What `parse_string` writes to its buffer, against what it asks for.
use heluna_language.Common.{
  ℕ, suc, ◌^◌, ◌++◌, length-append, ◌+◌, ◌≤◌, ◌<◌, ◌≡◌, ◌≢◌, ◌↔◌, ◌⊎◌, inl, inr, refl, false, [],
  ◌∷◌, ◌==◌, Bytes, arith, Bool-cases, ap, length, DanglingEscape, lone, plain, escaped,
}
use heluna_language.Json.Escapes.{resolve-plain}
use heluna_language.Json.Strings.{scan_text, resolve, buffer_size, buffer_written}

abbrev text_of : Bytes → Bytes
text_of s = resolve (scan_text s).raw

length-resolve_plain :
    (c : ℕ) (s : Bytes) → c ≢ b'\\' → length (resolve (c ∷ s)) ≡ suc (length (resolve s))
length-resolve_plain c s h = ap length (resolve-plain c s h)

fits : (s : Bytes) → (length (text_of s) ≡ (scan_text s).out_len) ⊎ DanglingEscape s
unfolding scan_text resolve
fits [] = inl refl
fits (c ∷ []) = elim (Bool-cases (c == b'"')) [
  | inl q ↦ inl (ground arith)
  | inr q ↦ elim (Bool-cases (c == b'\\')) [
    | inl b ↦ inr (lone c (ground arith))
    | inr b ↦ inl (ground arith)
  ]
]
fits (c ∷ d ∷ ds) = elim (Bool-cases (c == b'"')) [
  | inl q ↦ inl (ground arith)
  | inr q ↦ elim (Bool-cases (c == b'\\')) [
    | inl b ↦ elim (fits ds) [
      | inl e ↦ inl (ground arith)
      | inr e ↦ inr (escaped c d (ground arith) e)
    ]
    | inr b ↦ elim (fits (d ∷ ds)) [
      | inl e ↦ inl (ground (arith, length-resolve_plain c (scan_text (d ∷ ds)).raw (ground arith)))
      | inr e ↦ inr (plain c (ground arith) (ground arith) e)
    ]
  ]
]

overruns : {s : Bytes} → DanglingEscape s → length (text_of s) ≡ (scan_text s).out_len + 1
unfolding scan_text resolve
overruns (lone c e) = ground arith
overruns (plain c {cs = []} p q d) = elim d [ ]
overruns (plain c {cs = x ∷ xs} p q d) =
    let no_quote : (c == b'"') ≡ false = ground arith in
    let no_escape : (c == b'\\') ≡ false = ground arith in
    rw (no_quote, no_escape)
      (omega (arith, length-resolve_plain c (scan_text (x ∷ xs)).raw q, overruns d))
overruns (escaped c x {cs} e d) = rw e (omega (arith, overruns d))

out_len-le : (s : Bytes) → (scan_text s).out_len ≤ length s
unfolding scan_text
out_len-le [] = omega arith
out_len-le (c ∷ []) = ground arith
out_len-le (c ∷ d ∷ ds) = ground (arith, out_len-le ds, out_len-le (d ∷ ds))

-- In a JSON text shorter than 2 ^ 31 bytes, of which `s` is what is left behind an opening quote, the
-- buffer of `parse_string` is too short for what is written to it exactly where `s` ends in a
-- dangling escape, and then it is short by one byte; and its size is counted within what an `int`
-- holds.
pub buffer_written-lt_iff :
    (front s : Bytes)
    → length (front ++ s) < 2 ^ 31
    → ((buffer_size (scan_text s) < buffer_written (scan_text s)) ↔ DanglingEscape s)
      × (buffer_written (scan_text s) ≤ buffer_size (scan_text s) + 1)
      × ((scan_text s).out_len < 2 ^ 31)
unfolding buffer_size buffer_written
buffer_written-lt_iff front s small = (
  (to, λ d. omega (arith, overruns d)),
  bound,
  omega (arith, small, length-append front s, out_len-le s),
)
  where
    to : (scan_text s).out_len + 1 < length (text_of s) + 1 → DanglingEscape s
    to h = elim (fits s) [ inl e ↦ absurd (omega arith) | inr e ↦ e ]

    bound : length (text_of s) + 1 ≤ (scan_text s).out_len + 1 + 1
    bound = elim (fits s) [ inl e ↦ omega arith | inr e ↦ omega (arith, overruns e) ]
