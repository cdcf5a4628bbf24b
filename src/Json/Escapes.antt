-- ===== src/Json/Escapes.antt =====
-- What `parse_string` reads off an emitted string, and what it writes to its buffer.
use heluna_language.Common.{
  ℕ, ◌/◌, ◌%◌, ◌≤◌, ◌<◌, ◌≡◌, ◌≢◌, ◌↔◌, inl, inr, refl, Bool, true, false, not, ◌&&◌, ◌||◌, [], ◌∷◌,
  ◌++◌, ltb, ◌==◌, if◌then◌else◌, Bytes, arith, append_assoc, All, Bool-cases, ◌∙◌, ap, sym, length,
  subst, append-nil,
}
use heluna_language.Json.Strings.{
  scan_text, unescape, resolve, drop_quote, parse_string, hex_digit, unicode_escape, emit_byte,
  emit_bytes,
}

-- The text that the two passes read, and what they leave.
abbrev text_of : Bytes → Bytes
text_of s = resolve (scan_text s).raw

abbrev left_of : Bytes → Bytes
left_of s = (scan_text s).rest

abbrev ReadsAs : Bytes → Bytes → Bytes → Type 0
ReadsAs s out tail = (text_of s ≡ out ++ text_of tail) × (left_of s ≡ left_of tail)

pub resolve-plain : (c : ℕ) (s : Bytes) → c ≢ b'\\' → resolve (c ∷ s) ≡ c ∷ resolve s
unfolding resolve
resolve-plain c [] h = refl
resolve-plain c (d ∷ ds) h = ground arith

plain-ReadsAs : (c : ℕ) (s : Bytes) → c ≢ b'"' → c ≢ b'\\' → ReadsAs (c ∷ s) (c ∷ []) s
unfolding scan_text
plain-ReadsAs c [] q b = (ground (arith, resolve-plain c [] b), ground arith)
plain-ReadsAs c (d ∷ ds) q b =
    (ground (arith, resolve-plain c (scan_text (d ∷ ds)).raw b), ground arith)

escape-ReadsAs : (d : ℕ) (s : Bytes) → ReadsAs (b'\\' ∷ d ∷ s) (unescape d ∷ []) s
unfolding scan_text resolve
escape-ReadsAs d s = (refl, refl)

-- How a byte of a string comes back.
abbrev pub is_control : ℕ → Bool
is_control c = ltb c 0x20 && not (c == b'\n' || c == b'\t' || c == b'\r')

pub read_back : ℕ → Bytes
read_back c =
    if is_control c
    then b'u' ∷ b'0' ∷ b'0' ∷ hex_digit (c / 16) ∷ hex_digit (c % 16) ∷ []
    else c ∷ []

hex_digit-plain : (n : ℕ) → n < 16 → (hex_digit n ≢ b'"') × (hex_digit n ≢ b'\\')
unfolding hex_digit
hex_digit-plain n h = (ground arith, ground arith)

ReadsAs-cons :
    (c : ℕ) (s out tail : Bytes)
    → c ≢ b'"'
    → c ≢ b'\\'
    → ReadsAs s out tail
    → ReadsAs (c ∷ s) (c ∷ out) tail
ReadsAs-cons c s out tail q b r =
    let p = plain-ReadsAs c s q b in (p.0 ∙ ap (λ t. c ∷ t) r.0, p.1 ∙ r.1)

control-ReadsAs :
    (c : ℕ) (s : Bytes)
    → c < 32
    → ReadsAs
        (unicode_escape c ++ s)
        (b'u' ∷ b'0' ∷ b'0' ∷ hex_digit (c / 16) ∷ hex_digit (c % 16) ∷ [])
        s
unfolding unescape
control-ReadsAs c s h =
    let hi = hex_digit-plain (c / 16) (omega arith) in
    let lo = hex_digit-plain (c % 16) (omega arith) in
    let last = plain-ReadsAs (hex_digit (c % 16)) s lo.0 lo.1 in
    let r =
      ReadsAs-cons b'0' _ (b'0' ∷ hex_digit (c / 16) ∷ hex_digit (c % 16) ∷ []) s (omega arith)
        (omega arith)
        (ReadsAs-cons b'0' _ (hex_digit (c / 16) ∷ hex_digit (c % 16) ∷ []) s (omega arith)
          (omega arith)
          (ReadsAs-cons (hex_digit (c / 16)) _ (hex_digit (c % 16) ∷ []) s hi.0 hi.1 last)) in
    let u = escape-ReadsAs b'u' (b'0' ∷ b'0' ∷ hex_digit (c / 16) ∷ hex_digit (c % 16) ∷ s) in
    (u.0 ∙ ap (λ t. b'u' ∷ t) r.0, u.1 ∙ r.1)

abbrev Case : ℕ → Bytes → Type 0
Case c s = ReadsAs (emit_byte c ++ s) (read_back c) s

emit_byte-ReadsAs : (c : ℕ) (s : Bytes) → Case c s
unfolding emit_byte read_back unescape
emit_byte-ReadsAs c s = elim (Bool-cases (c == b'"')) [
  | inl e ↦ at b'"' e (escape-ReadsAs b'"' s)
  | inr n₁ ↦ elim (Bool-cases (c == b'\\')) [
    | inl e ↦ at b'\\' e (escape-ReadsAs b'\\' s)
    | inr n₂ ↦ elim (Bool-cases (c == b'\n')) [
      | inl e ↦ at b'\n' e (escape-ReadsAs b'n' s)
      | inr n₃ ↦ elim (Bool-cases (c == b'\t')) [
        | inl e ↦ at b'\t' e (escape-ReadsAs b't' s)
        | inr n₄ ↦ elim (Bool-cases (c == b'\r')) [
          | inl e ↦ at b'\r' e (escape-ReadsAs b'r' s)
          | inr n₅ ↦ elim (Bool-cases (ltb c 0x20)) [
            | inl e ↦
                rw (n₁, n₂, n₃, n₄, n₅, e, read_back, emit_byte)
                  (control-ReadsAs c s (ground arith))
            | inr n₆ ↦
                rw (n₁, n₂, n₃, n₄, n₅, n₆, read_back, emit_byte)
                  (plain-ReadsAs c s (ground arith) (ground arith))
          ]
        ]
      ]
    ]
  ]
]
  where
    at : (d : ℕ) → (c == d) ≡ true → Case d s → Case c s
    at d e h = subst (λ t. Case t s) {x = d} {y = c} (ground arith) h

-- The string that comes back from an emitted string.
pub read_back_all : Bytes → Bytes
read_back_all [] = []
read_back_all (c ∷ cs) = read_back c ++ read_back_all cs

emit_bytes-ReadsAs : (t s : Bytes) → ReadsAs (emit_bytes t ++ s) (read_back_all t) s
unfolding emit_bytes read_back_all
emit_bytes-ReadsAs [] s = (refl, refl)
emit_bytes-ReadsAs (c ∷ cs) s =
    let rest = emit_bytes-ReadsAs cs s in
    let here = emit_byte-ReadsAs c (emit_bytes cs ++ s) in
    rw (append_assoc (emit_byte c) (emit_bytes cs) s) (
      here.0 ∙ ap (λ t. read_back c ++ t) rest.0 ∙ sym (append_assoc (read_back c) _ _),
      here.1 ∙ rest.1,
    )

quote-ReadsAs : (s : Bytes) → (text_of (b'"' ∷ s) ≡ []) × (left_of (b'"' ∷ s) ≡ b'"' ∷ s)
unfolding scan_text resolve
quote-ReadsAs [] = (refl, refl)
quote-ReadsAs (d ∷ ds) = (refl, refl)

-- Reading an emitted string, behind its opening quote and whatever follows it, gives the string
-- in which each control byte that has no short escape stands as the five characters of its hexadecimal
-- escape without the backslash, and leaves what follows.
pub parse_string-emit_string :
    (t s : Bytes) → parse_string (emit_bytes t ++ b'"' ∷ s) ≡ (read_back_all t, s)
unfolding parse_string
parse_string-emit_string t s =
    let r = emit_bytes-ReadsAs t (b'"' ∷ s) in
    let q = quote-ReadsAs s in
    let text = r.0 ∙ ap (λ u. read_back_all t ++ u) q.0 ∙ append-nil (read_back_all t) in
    let left = ap drop_quote (r.1 ∙ q.1) in λ i. (text i, left i)

abbrev pub Printable : Bytes → Type 0
Printable = All (λ c. is_control c ≡ false)

length-read_back_all : (t : Bytes) → length t ≤ length (read_back_all t)
unfolding read_back_all read_back
length-read_back_all [] = omega arith
length-read_back_all (c ∷ cs) = elim (Bool-cases (is_control c)) [
  | inl e ↦ rw e (omega (arith, length-read_back_all cs))
  | inr e ↦ rw e (omega (arith, length-read_back_all cs))
]

pub Printable-read_back_all : (t : Bytes) → Printable t → read_back_all t ≡ t
unfolding read_back_all read_back
Printable-read_back_all [] h = refl
Printable-read_back_all (c ∷ cs) h = rw h.0 (ap (λ u. c ∷ u) (Printable-read_back_all cs h.1))

read_back_all-Printable : (t : Bytes) → read_back_all t ≡ t → Printable t
unfolding read_back_all read_back
read_back_all-Printable [] h = tt
read_back_all-Printable (c ∷ cs) h = elim (Bool-cases (is_control c)) [
  | inl e ↦ absurd (omega (arith, ap length (rw e at h), length-read_back_all cs))
  | inr e ↦ (e, read_back_all-Printable cs (tail_eq (rw e at h)))
]
  where
    tail_eq : c ∷ read_back_all cs ≡ c ∷ cs → read_back_all cs ≡ cs
    tail_eq q = cc q

-- The string comes back unchanged exactly if it holds no such control byte.
pub read_back_all-eq_iff :
    (t s : Bytes) → (parse_string (emit_bytes t ++ b'"' ∷ s) ≡ (t, s)) ↔ Printable t
read_back_all-eq_iff t s = (
  λ h.
      read_back_all-Printable t
        (ap (λ (p : Bytes × Bytes). p.0) (sym (parse_string-emit_string t s) ∙ h)),
  λ h. parse_string-emit_string t s ∙ ap (λ u. (u, s)) (Printable-read_back_all t h),
)
