-- ===== src/Stdlib/Texts.antt =====
-- The text functions of src/stdlib.c: `fn_trim`, `fn_lower` and `fn_upper`.
use heluna_language.Common.{
  ℕ, ◌≡◌, refl, Bool, true, false, [], ◌∷◌, ◌++◌, Bytes, All, Bool-cases, inl, inr, ◌∙◌, ap,
  if◌then◌else◌,
}
use heluna_language.Json.Numbers.{is_space}
use heluna_language.Stdlib.{drop_spaces, drop_end_spaces, trim}

abbrev pub Blank : Bytes → Type 0
Blank = All (λ c. is_space c ≡ true)

abbrev pub head_is_space : Bytes → Bool
head_is_space [] = false
head_is_space (c ∷ cs) = is_space c

abbrev pub last_is_space : Bytes → Bool
last_is_space [] = false
last_is_space (c ∷ []) = is_space c
last_is_space (_ ∷ d ∷ ds) = last_is_space (d ∷ ds)

drop_spaces-Split :
    (s : Bytes)
    → (p : Bytes) × (s ≡ p ++ drop_spaces s) × Blank p × (head_is_space (drop_spaces s) ≡ false)
unfolding drop_spaces
drop_spaces-Split [] = ([], refl, tt, refl)
drop_spaces-Split (c ∷ cs) = elim (Bool-cases (is_space c)) [
  | inl e ↦
      let (p, q, b, h) = drop_spaces-Split cs in (c ∷ p, rw e (ap (λ t. c ∷ t) q), (e, b), rw e h)
  | inr e ↦ ([], rw e, tt, rw e e)
]

-- What the loop from the end keeps, in front of a byte.
abbrev kept : ℕ → Bytes → Bytes
kept c [] = if is_space c then [] else c ∷ []
kept c (d ∷ ds) = c ∷ d ∷ ds

drop_end_spaces-cons : (c : ℕ) (cs : Bytes) → drop_end_spaces (c ∷ cs) ≡ kept c (drop_end_spaces cs)
unfolding drop_end_spaces
drop_end_spaces-cons c cs = go (drop_end_spaces cs)
  where
    go :
        (r : Bytes)
        → elim r [ [] ↦ if is_space c then [] else c ∷ [] | d ∷ ds ↦ c ∷ d ∷ ds ] ≡ kept c r
    go [] = refl
    go (d ∷ ds) = refl

-- The text keeps its front, loses white space at its end, and a first byte stays first.
record Ending (s t : Bytes) : Type 0 where
  q : Bytes
  whole : s ≡ t ++ q
  blank : Blank q
  last : last_is_space t ≡ false

kept-Ending : (c : ℕ) (cs r : Bytes) → Ending cs r → Ending (c ∷ cs) (kept c r)
kept-Ending c cs [] e = elim (Bool-cases (is_space c)) [
  | inl h ↦ rw h (record { q = c ∷ cs; whole = refl; blank = (h, rw e.whole e.blank); last = refl })
  | inr h ↦ rw h (record { q = e.q; whole = ap (λ t. c ∷ t) e.whole; blank = e.blank; last = h })
]
kept-Ending c cs (d ∷ ds) e = record {
  q = e.q;
  whole = ap (λ t. c ∷ t) e.whole;
  blank = e.blank;
  last = e.last;
}

drop_end_spaces-Ending : (s : Bytes) → Ending s (drop_end_spaces s)
unfolding drop_end_spaces
drop_end_spaces-Ending [] = record { q = []; whole = refl; blank = tt; last = refl }
drop_end_spaces-Ending (c ∷ cs) =
    rw (drop_end_spaces-cons c cs)
      (kept-Ending c cs (drop_end_spaces cs) (drop_end_spaces-Ending cs))

head_kept : (s t q : Bytes) → s ≡ t ++ q → head_is_space s ≡ false → head_is_space t ≡ false
head_kept s [] q e h = refl
head_kept [] (d ∷ ds) q e h = cc
head_kept (c ∷ cs) (d ∷ ds) q e h = cc

-- `trim` cuts white space off both ends and nothing else: the text is white space, the trimmed
-- text, and white space again, and the trimmed text neither begins nor ends with white space.
pub trim_lem :
    (s : Bytes)
    → (p q : Bytes) × (s ≡ p ++ (trim s ++ q))
      × Blank p
      × Blank q
      × (head_is_space (trim s) ≡ false)
      × (last_is_space (trim s) ≡ false)
unfolding trim
trim_lem s =
    let (p, e, b, h) = drop_spaces-Split s in
    let end = drop_end_spaces-Ending (drop_spaces s) in
    (
      p,
      end.q,
      e ∙ ap (λ t. p ++ t) end.whole,
      b,
      end.blank,
      head_kept (drop_spaces s) (drop_end_spaces (drop_spaces s)) end.q end.whole h,
      end.last,
    )
