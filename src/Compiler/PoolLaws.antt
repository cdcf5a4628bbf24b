-- ===== src/Compiler/PoolLaws.antt =====
-- What a call of `add_const_*` leaves in the constant pool of src/compiler.c.
use heluna_language.Common.{
  ℕ, zero, suc, length-append, ◌+◌, ◌%◌, ◌^◌, ◌<◌, ◌≤◌, ◌≡◌, refl, Bool, true, false, ◌&&◌, Option,
  none, some, List, [], ◌∷◌, ◌++◌, ◌==◌, if◌then◌else◌, Bytes, length, take, drop, str_eq,
  str_eq-eq, get_elem?, get_elem?-length, length-map, take_prefix, take_all, drop-append, All,
  arith, ap, ◌∙◌, ◌⊎◌, inl, inr, subst,
}
use mathlib.Core.List.{map}
use heluna_language.Compiler.{ConstEntry, ConstPool}
use heluna_language.Packet.Words.{le_bytes, length-le_bytes}
use heluna_language.Compiler.Pool.{
  entry_bytes, find_const, append_const, found_or_added, add_const, is_const, add_const_string,
  add_const_integer, add_const_boolean, bool_byte, IsEntry, IsPool, constants_of,
}

-- A call for this constant: its number holds it, the constants that the pool held keep their
-- numbers, at most this one is new, the pool stays well-formed, and its data are at most a gibibyte,
-- up to which they are doubled within `int`.
abbrev pub Adds : ConstPool → ℕ → Bytes → ConstPool × ℕ → Type 0
Adds p tid bs (p', i) =
    (get_elem? (constants_of p') i ≡ some (tid, bs))
    × ((constants_of p' ≡ constants_of p) ⊎ (constants_of p' ≡ constants_of p ++ (tid, bs) ∷ []))
    × IsPool p'
    × (length p'.const_data ≤ 2 ^ 30)

slice_kept :
    (n k : ℕ) (xs ys : Bytes)
    → length (take n (drop k xs)) ≡ n
    → take n (drop k (xs ++ ys)) ≡ take n (drop k xs)
slice_kept n zero xs ys h = take_prefix n xs ys (subst (λ m. m ≤ length xs) h (length-take n xs))
  where
    length-take : (n : ℕ) (xs : Bytes) → length (take n xs) ≤ length xs
    length-take zero xs = omega arith
    length-take (suc n) [] = omega arith
    length-take (suc n) (x ∷ xs) = omega (arith, length-take n xs)
slice_kept zero (suc k) [] ys h = refl
slice_kept (suc n) (suc k) [] ys h = absurd (omega (arith, h))
slice_kept n (suc k) (x ∷ xs) ys h = slice_kept n k xs ys h

entry_kept :
    (p : ConstPool) (tid : ℕ) (bs : Bytes) (e : ConstEntry)
    → IsEntry p e
    → entry_bytes (append_const p tid bs) e ≡ entry_bytes p e
unfolding append_const
entry_kept p tid bs e h = slice_kept e.len e.offset p.const_data bs h.2

map_append : {A B : Type 0} (f : A → B) (xs ys : List A) → map f (xs ++ ys) ≡ map f xs ++ map f ys
map_append f [] ys = refl
map_append f (x ∷ xs) ys = ap (λ t. f x ∷ t) (map_append f xs ys)

abbrev shown : ConstPool → ConstEntry → ℕ × Bytes
shown q e = (e.type_id, entry_bytes q e)

abbrev added : ConstPool → ℕ → Bytes → ConstEntry
added p tid bs = record { type_id = tid; offset = length p.const_data; len = length bs }

entry_bytes-added :
    (p : ConstPool) (tid : ℕ) (bs : Bytes)
    → entry_bytes (append_const p tid bs) (added p tid bs) ≡ bs
unfolding append_const
entry_bytes-added p tid bs = rw (drop-append p.const_data bs) (take_all bs)

-- The constants of a pool with one more.
constants_of-append_const :
    (p : ConstPool) (tid : ℕ) (bs : Bytes)
    → IsPool p
    → constants_of (append_const p tid bs) ≡ constants_of p ++ (tid, bs) ∷ []
unfolding append_const
constants_of-append_const p tid bs h =
    map_append (shown (append_const p tid bs)) p.entries (added p tid bs ∷ [])
    ∙ ap (λ t. t ++ shown (append_const p tid bs) (added p tid bs) ∷ []) (kept p.entries h)
    ∙ ap (λ b. map (shown p) p.entries ++ (tid, b) ∷ []) (entry_bytes-added p tid bs)
  where
    kept :
        (es : List ConstEntry)
        → All (IsEntry p) es
        → map (shown (append_const p tid bs)) es ≡ map (shown p) es
    kept [] h = refl
    kept (e ∷ es) h = rw (entry_kept p tid bs e h.0) (ap (λ t. shown p e ∷ t) (kept es h.1))

append_const-IsPool :
    (p : ConstPool) (tid : ℕ) (bs : Bytes)
    → IsPool p
    → tid < 256
    → length bs < 2 ^ 32
    → IsPool (append_const p tid bs)
unfolding append_const
append_const-IsPool p tid bs h t b = all p.entries h
  where
    all :
        (es : List ConstEntry)
        → All (IsEntry p) es
        → All (IsEntry (append_const p tid bs)) (es ++ added p tid bs ∷ [])
    all [] h = ((t, b, ap length (entry_bytes-added p tid bs)), tt)
    all (e ∷ es) (k, h) = ((k.0, k.1, ap length (entry_kept p tid bs e k) ∙ k.2), all es h)

abbrev Found : (ConstEntry → Bool) → List ConstEntry → ℕ → Type 0
Found test es i = (e : ConstEntry) × (get_elem? es i ≡ some e) × (test e ≡ true) × (i < length es)

some_inj : (i j : ℕ) → some i ≡ some j → i ≡ j
some_inj i j h = ground arith

Found-find_const :
    (test : ConstEntry → Bool) (e : ConstEntry) (es : List ConstEntry) (i : ℕ) (b : Bool)
    → test e ≡ b
    → (o : Option ℕ) → ((j : ℕ) → o ≡ some j → Found test es j)
    → (if b then some 0 else elim o [ none ↦ none | some j ↦ some (suc j) ]) ≡ some i
    → Found test (e ∷ es) i
Found-find_const test e es i true y o later h =
    subst (Found test (e ∷ es)) (some_inj 0 i h) (e, refl, y, omega arith)
Found-find_const test e es i false n none later h = cc
Found-find_const test e es i false n (some j) later h =
    let (d, g, y, l) = later j refl in
    subst (Found test (e ∷ es)) (some_inj (suc j) i h) (d, g, y, omega (arith, l))

-- An entry found passes the test.
find_const-Found :
    (test : ConstEntry → Bool) (es : List ConstEntry) (i : ℕ)
    → find_const test es ≡ some i
    → Found test es i
unfolding find_const
find_const-Found test [] i h = cc
find_const-Found test (e ∷ es) i h =
    Found-find_const test e es i (test e) refl (find_const test es) (find_const-Found test es) h

get_elem?-map :
    {A B : Type 0} (f : A → B) (xs : List A) (i : ℕ) {a : A}
    → get_elem? xs i ≡ some a
    → get_elem? (map f xs) i ≡ some (f a)
get_elem?-map f [] i h = cc
get_elem?-map f (x ∷ xs) zero h = ground arith
get_elem?-map f (x ∷ xs) (suc i) h = get_elem?-map f xs i h

is_const-shown :
    (p : ConstPool) (tid : ℕ) (bs : Bytes) (e : ConstEntry)
    → is_const p tid bs e ≡ true
    → shown p e ≡ (tid, bs)
unfolding is_const
is_const-shown p tid bs e h =
    let (front, content) =
      both (e.type_id == tid && e.len == length bs) (str_eq (entry_bytes p e) bs) h in
    let (kind, _) = both (e.type_id == tid) (e.len == length bs) front in
    let tids : e.type_id ≡ tid = ground (arith, kind) in
    ap (λ t. (t, entry_bytes p e)) tids
    ∙ ap (λ b. (tid, b)) (str_eq-eq (entry_bytes p e) bs content)
  where
    both : (a b : Bool) → (a && b) ≡ true → (a ≡ true) × (b ≡ true)
    both true b h = (refl, h)
    both false b h = cc

length-append_const :
    (p : ConstPool) (tid : ℕ) (bs : Bytes)
    → length p.const_data + length bs ≤ 2 ^ 30
    → length (append_const p tid bs).const_data ≤ 2 ^ 30
unfolding append_const
length-append_const p tid bs b = omega (arith, b, length-append p.const_data bs)

add_const-Adds :
    (p : ConstPool) (tid : ℕ) (bs : Bytes)
    → IsPool p
    → length p.entries < 2 ^ 16
    → tid < 256
    → length p.const_data + length bs ≤ 2 ^ 30
    → Adds p tid bs (add_const p (is_const p tid bs) tid bs)
unfolding add_const is_const
add_const-Adds p tid bs h n t b = by_found (find_const (is_const p tid bs) p.entries) refl
  where
    by_found :
        (o : Option ℕ)
        → find_const (is_const p tid bs) p.entries ≡ o
        → Adds p tid bs (found_or_added p tid bs o)
    by_found (some i) q =
        let (e, g, y, l) = find_const-Found (is_const p tid bs) p.entries i q in
        let small : i % 2 ^ 16 ≡ i = omega (arith, l) in
        (
          rw small (get_elem?-map (shown p) p.entries i g ∙ ap some (is_const-shown p tid bs e y)),
          inl refl,
          h,
          omega (arith, b),
        )
    by_found none q =
        let small : length p.entries % 2 ^ 16 ≡ length (constants_of p) =
          omega (arith, length-map (shown p) p.entries) in
        let more = constants_of-append_const p tid bs h in
        (
          rw (more, small) (get_elem?-length (constants_of p) [] (tid, bs)),
          inr more,
          append_const-IsPool p tid bs h t (omega (arith, b)),
          length-append_const p tid bs b,
        )

-- On a pool whose entries lie in its data, with fewer than 2 ^ 16 entries, whose data with the text
-- and eight bytes more are at most 2 ^ 30 bytes, on a little-endian host, add_const_string, add_const_integer and add_const_boolean each return a number at
-- which the pool then holds the constant with its type; the constants that it held keep their
-- numbers, at most this one is added behind them, the entries lie in the data again, and the data
-- are at most 2 ^ 30 bytes.
pub add_const_lem :
    (p : ConstPool) (str : Bytes) (word : ℕ) (b : Bool)
    → IsPool p
    → length p.entries < 2 ^ 16
    → length p.const_data + length str + 8 ≤ 2 ^ 30
    → Adds p 1 str (add_const_string p str)
      × Adds p 2 (le_bytes 8 word) (add_const_integer p word)
      × Adds p 4 (bool_byte b) (add_const_boolean p b)
unfolding add_const_string add_const_integer add_const_boolean
add_const_lem p str word b h n short = (
  add_const-Adds p 1 str h n (omega arith) (omega (arith, short)),
  add_const-Adds p 2 (le_bytes 8 word) h n (omega arith)
      (omega (arith, short, length-le_bytes 8 word)),
  add_const-Adds p 4 (bool_byte b) h n (omega arith) (omega (arith, short)),
)
