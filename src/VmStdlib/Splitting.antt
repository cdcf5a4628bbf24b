-- ===== src/VmStdlib/Splitting.antt =====
-- `split`, `join` and `replace` of src/vm_stdlib.c together.
use heluna_language.Common.{
  ℕ, zero, suc, ◌<◌, ◌≡◌, ◌≢◌, refl, Option, none, some, List, [], ◌∷◌, ◌++◌, ◌==◌, length,
  length-append, append-nil, Bytes, arith, ap, sym, ◌∙◌, Bool-cases, inl, inr, codes,
}
use mathlib.Core.List.{map}
use heluna_language.Value.{HVal, val_string, val_list}
use heluna_language.Stdlib.{value}
use heluna_language.VmStdlib.Fields.{get_string, get_field, as_list}
use heluna_language.VmStdlib.Texts.{
  prefix_rest, behind_byte, here_or, strstr, replace_all, replace, split_all, split, strings,
  join_rest, join, fn_split, fn_join, fn_replace,
}

prefix_rest-eq : (d s r : Bytes) → prefix_rest d s ≡ some r → s ≡ d ++ r
unfolding prefix_rest
prefix_rest-eq [] s r h = ground arith
prefix_rest-eq (d ∷ ds) [] r h = cc
prefix_rest-eq (d ∷ ds) (c ∷ cs) r h = elim (Bool-cases (c == d)) [
  | inl e ↦
      let same : c ≡ d = ground (arith, e) in
      ap (λ t. t ∷ cs) same ∙ ap (λ t. d ∷ t) (prefix_rest-eq ds cs r (rw e at h))
  | inr e ↦ let nothing : none ≡ some r = rw e at h in cc
]

-- What a search says of the text.
abbrev Parts : Bytes → Bytes → Option (Bytes × Bytes) → Type 0
Parts f s none = Unit
Parts f s (some (x, y)) = s ≡ x ++ (f ++ y)

here_or-Parts :
    (f s : Bytes) (o : Option Bytes) (later : Option (Bytes × Bytes))
    → prefix_rest f s ≡ o
    → Parts f s later
    → Parts f s (here_or o later)
here_or-Parts f s none later e h = h
here_or-Parts f s (some r) later e h = prefix_rest-eq f s r e

behind_byte-Parts :
    (f s : Bytes) (c : ℕ) (o : Option (Bytes × Bytes))
    → Parts f s o
    → Parts f (c ∷ s) (behind_byte c o)
behind_byte-Parts f s c none h = tt
behind_byte-Parts f s c (some (x, y)) h = ap (λ t. c ∷ t) h

strstr-Parts : (f s : Bytes) → Parts f s (strstr f s)
unfolding strstr
strstr-Parts f [] = here_or-Parts f [] (prefix_rest f []) none refl tt
strstr-Parts f (c ∷ cs) =
    here_or-Parts f (c ∷ cs) (prefix_rest f (c ∷ cs)) (behind_byte c (strstr f cs)) refl
      (behind_byte-Parts f cs c (strstr f cs) (strstr-Parts f cs))

-- The pieces with `repl` between them: with the delimiter itself that is the text again, and
-- otherwise it is what `replace` makes of it.
abbrev joined : Bytes → List Bytes → Bytes
joined repl ps = join repl (strings ps)

shorter : (d : ℕ) (ds x y s : Bytes) → s ≡ x ++ ((d ∷ ds) ++ y) → length y < length s
shorter d ds x y s h =
    omega (arith, ap length h, length-append x ((d ∷ ds) ++ y), length-append ds y)

split_all-cons :
    (f : ℕ) (d repl p : Bytes)
    → 0 < f
    → join_rest repl (strings (split_all f d p)) ≡ repl ++ joined repl (split_all f d p)
unfolding join join_rest strings split_all
split_all-cons zero d repl p h = absurd (omega (arith, h))
split_all-cons (suc f) d repl p h = go (strstr d p)
  where
    go :
        (o : Option (Bytes × Bytes))
        → (let ps : List Bytes = elim o [ none ↦ p ∷ [] | some (x, y) ↦ x ∷ split_all f d y ] in
            join_rest repl (strings ps) ≡ repl ++ join repl (strings ps))
    go none = refl
    go (some (x, y)) = refl

split_all-join :
    (f d : ℕ) (ds p : Bytes) → length p < f → joined (d ∷ ds) (split_all f (d ∷ ds) p) ≡ p
unfolding join join_rest strings split_all
split_all-join zero d ds p h = absurd (omega (arith, h))
split_all-join (suc f) d ds p h =
    go (split_all-join f d ds) (strstr (d ∷ ds) p) (strstr-Parts (d ∷ ds) p)
  where
    go :
        ((y : Bytes) → length y < f → joined (d ∷ ds) (split_all f (d ∷ ds) y) ≡ y)
        → (o : Option (Bytes × Bytes)) → Parts (d ∷ ds) p o
        → joined (d ∷ ds) (elim o [ none ↦ p ∷ [] | some (x, y) ↦ x ∷ split_all f (d ∷ ds) y ]) ≡ p
    go later none e = append-nil p
    go later (some (x, y)) e =
        let less = shorter d ds x y p e in
        ap (λ t. x ++ t)
          (split_all-cons f (d ∷ ds) (d ∷ ds) y (omega (arith, less, h))
            ∙ ap (λ t. (d ∷ ds) ++ t) (later y (omega (arith, less, h))))
        ∙ sym e

replace_all-join :
    (f d : ℕ) (ds repl p : Bytes)
    → length p < f
    → replace_all f (d ∷ ds) repl p ≡ joined repl (split_all f (d ∷ ds) p)
unfolding join join_rest strings split_all replace_all strstr prefix_rest
replace_all-join zero d ds repl p h = absurd (omega (arith, h))
replace_all-join (suc f) d ds repl [] h = refl
replace_all-join (suc f) d ds repl (c ∷ cs) h =
    go (replace_all-join f d ds repl) (strstr (d ∷ ds) (c ∷ cs)) (strstr-Parts (d ∷ ds) (c ∷ cs))
  where
    go :
        ((y : Bytes)
          → length y < f
          → replace_all f (d ∷ ds) repl y ≡ joined repl (split_all f (d ∷ ds) y))
        → (o : Option (Bytes × Bytes)) → Parts (d ∷ ds) (c ∷ cs) o
        → (elim o [ none ↦ c ∷ cs | some (x, y) ↦ x ++ (repl ++ replace_all f (d ∷ ds) repl y) ])
          ≡ joined repl (elim o [ none ↦ (c ∷ cs) ∷ [] | some (x, y) ↦ x ∷ split_all f (d ∷ ds) y ])
    go later none e = sym (append-nil (c ∷ cs))
    go later (some (x, y)) e =
        let less = shorter d ds x y (c ∷ cs) e in
        ap (λ t. x ++ t)
          (ap (λ t. repl ++ t) (later y (omega (arith, less, h)))
            ∙ sym (split_all-cons f (d ∷ ds) repl y (omega (arith, less, h))))

letters : (s : Bytes) → join_rest [] (strings (map (λ c. c ∷ []) s)) ≡ s
unfolding join_rest strings
letters [] = refl
letters (c ∷ cs) = ap (λ t. c ∷ t) (letters cs)

split-join : (s d : Bytes) → joined d (split s d) ≡ s
unfolding split join join_rest strings
split-join [] [] = refl
split-join (c ∷ cs) [] = ap (λ t. c ∷ t) (letters cs)
split-join s (d ∷ ds) = split_all-join (suc (length s)) d ds s (omega arith)

replace-join : (s d repl : Bytes) → d ≢ [] → replace s d repl ≡ joined repl (split s d)
unfolding split replace
replace-join s [] repl h = absurd (h refl)
replace-join s (d ∷ ds) repl h = replace_all-join (suc (length s)) d ds repl s (omega arith)

-- split gives a list of texts, and join of that list with the same delimiter, which may be empty,
-- gives the text back; both return, whatever other fields their arguments have.
pub fn_join-fn_split :
    (arg arg' : HVal) (s d : Bytes)
    → get_string arg (codes "value") ≡ some s
    → get_string arg (codes "delimiter") ≡ some d
    → as_list (get_field arg' (codes "list")) ≡ some (strings (split s d))
    → get_string arg' (codes "delimiter") ≡ some d
    → (fn_split arg ≡ value (val_list (strings (split s d))))
      × (fn_join arg' ≡ value (val_string s))
unfolding fn_split fn_join
fn_join-fn_split arg arg' s d hs hd hl hd' =
    (rw (hs, hd), rw (hl, hd') (ap (λ t. value (val_string t)) (split-join s d)))

-- Where the text to find is not empty, replace gives what join makes, with the replacement as its
-- delimiter, of the list that split gives at the text to find; both return.
pub fn_replace-fn_join :
    (arg arg' : HVal) (s find repl : Bytes)
    → find ≢ []
    → get_string arg (codes "value") ≡ some s
    → get_string arg (codes "find") ≡ some find
    → get_string arg (codes "replacement") ≡ some repl
    → as_list (get_field arg' (codes "list")) ≡ some (strings (split s find))
    → get_string arg' (codes "delimiter") ≡ some repl
    → (fn_replace arg ≡ value (val_string (replace s find repl))) × (fn_join arg' ≡ fn_replace arg)
unfolding fn_replace fn_join
fn_replace-fn_join arg arg' s find repl h hs hf hr hl hd = (
  rw (hs, hf, hr),
  rw (hl, hd, hs, hf, hr) (ap (λ t. value (val_string t)) (sym (replace-join s find repl h))),
)
