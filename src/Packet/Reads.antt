-- ===== src/Packet/Reads.antt =====
-- The cursor of src/vm.c, and what its readers make of bytes that were written.
use heluna_language.Common.{
  ℕ, zero, suc, ◌+◌, ◌*◌, ◌/◌, ◌%◌, ◌^◌, ◌<◌, ◌≡◌, ◌≢◌, refl, true, List, [], ◌∷◌, ◌++◌, leb, ◌==◌,
  if◌then◌else◌, Bytes, length, take, drop, take-append, drop-append, length-append, arith, All, ap,
  ◌∙◌, subst,
}
use mathlib.Core.List.{map}
use heluna_language.Packet.Words.{
  u8_bytes, u16_bytes, u32_bytes, u64_bytes, le_bytes, le_value, le_value-le_bytes, length-le_bytes,
}
use heluna_language.Packet.Writes.{
  Write, w_u8, w_u16, w_u32, w_u64, w_bytes, bytes_of, encode, size, encode-append, size-append,
}

-- The bytes from the position on, and the position. Behind the data no bytes are left.
pub record Cursor : Type 0 where
  pub rest : Bytes
  pub pos : ℕ

abbrev pub at : Bytes → ℕ → Cursor
at rest pos = record { rest = rest; pos = pos }

-- `overread` is a copy of bytes behind the data.
pub data Outcome (A : Type 0) : Type 0 where
  done : A → Cursor → Outcome A
  overread : Outcome A
  no_fuel : Outcome A

abbrev pub Read : Type 0 → Type 0
Read A = Cursor → Outcome A

abbrev pub pure : {A : Type 0} → A → Read A
pure a c = done a c

abbrev pub on_done : {A B : Type 0} → Outcome A → (A → Read B) → Outcome B
on_done (done a c) f = f a c
on_done overread f = overread
on_done no_fuel f = no_fuel

infixl 5 ◌>>=◌
abbrev pub ◌>>=◌ : {A B : Type 0} → Read A → (A → Read B) → Read B
◌>>=◌ p f c = on_done (p c) f

abbrev pub skip : ℕ → Cursor → Cursor
skip n c = at (drop n c.rest) (c.pos + n)

abbrev u8_at : Bytes → Cursor → Outcome ℕ
u8_at [] c = done 0 c
u8_at (a ∷ r) c = done a (at r (c.pos + 1))

abbrev u16_at : Bytes → Cursor → Outcome ℕ
u16_at (a ∷ b ∷ r) c = done (a + b * 2 ^ 8) (at r (c.pos + 2))
u16_at _ c = done 0 c

abbrev u32_at : Bytes → Cursor → Outcome ℕ
u32_at (a ∷ b ∷ d ∷ e ∷ r) c = done (a + b * 2 ^ 8 + d * 2 ^ 16 + e * 2 ^ 24) (at r (c.pos + 4))
u32_at _ c = done 0 c

-- Where fewer bytes are left a reader gives 0 and stays.
unfoldable pub read_u8 : Read ℕ
read_u8 c = u8_at c.rest c

unfoldable pub read_u16_le : Read ℕ
read_u16_le c = u16_at c.rest c

unfoldable pub read_u32_le : Read ℕ
read_u32_le c = u32_at c.rest c

unfoldable pub read_u64_le : Read ℕ
read_u64_le c =
    if leb 8 (length c.rest) then done (le_value (take 8 c.rest)) (skip 8 c) else done 0 c

-- The copy is read as a C string.
unfoldable pub until_nul : Bytes → Bytes
until_nul [] = []
until_nul (c ∷ cs) = let more = c ∷ until_nul cs in if c == 0 then [] else more

-- `arena_strndup(arena, c.data + c.pos, n); c.pos += n;`
unfoldable pub copy : ℕ → Read Bytes
unfolding until_nul
copy n c = if leb n (length c.rest) then done (until_nul (take n c.rest)) (skip n c) else overread

unfoldable pub read_name : Read Bytes
read_name = do n ← read_u16_le; copy n

unfoldable pub read_many : {A : Type 0} → ℕ → Read A → Read (List A)
read_many zero p = pure []
read_many (suc n) p = do a ← p; as_rest ← read_many n p; pure (a ∷ as_rest)

-- On what these writes append, in front of anything and at any position, the reader gives `a` and
-- stands behind it.
pub record Reads {A : Type 0} (p : Read A) (ws : List Write) (a : A) : Type 0 where
  pub run : (s : Bytes) (k : ℕ) → p (at (encode ws s) k) ≡ done a (at s (k + size ws))

pub pure-Reads : {A : Type 0} (a : A) → Reads (pure a) [] a
unfolding encode size
pure-Reads a = record { run = λ s k. ap (λ n. done a (at s n)) (omega arith) }

pub bind-Reads :
    {A B : Type 0} {p : Read A} (f : A → Read B) {ws vs : List Write} {a : A} {b : B}
    → Reads p ws a
    → Reads (f a) vs b
    → Reads (p >>= f) (ws ++ vs) b
bind-Reads {p = p} f {ws} {vs} {a} {b} h k = record { run = both }
  where
    both :
        (s : Bytes) (n : ℕ)
        → (p >>= f) (at (encode (ws ++ vs) s) n) ≡ done b (at s (n + size (ws ++ vs)))
    both s n = rw (encode-append ws vs s) (
        ap (λ o. on_done o f) (h.run (encode vs s) n)
        ∙ k.run s (n + size ws)
        ∙ ap (λ m. done b (at s m)) (omega (arith, size-append ws vs)))

-- The same where the result is not used.
pub then-Reads :
    {B : Type 0} {p : Read (Unit {0})} {q : Read B} {ws vs : List Write} {b : B}
    → Reads p ws tt
    → Reads q vs b
    → Reads (p >>= λ _. q) (ws ++ vs) b
then-Reads {q = q} h k = bind-Reads (λ _. q) h k

pub read_u8-Reads : (v : ℕ) → v < 256 → Reads read_u8 (w_u8 v ∷ []) v
unfolding read_u8 encode size bytes_of u8_bytes
read_u8-Reads v h = record {
  run = λ s k. (ap (λ n. done n (at s (k + 1))) {x = v % 256} {y = v} (omega arith));
}

pub read_u16_le-Reads : (v : ℕ) → v < 2 ^ 16 → Reads read_u16_le (w_u16 v ∷ []) v
unfolding read_u16_le encode size bytes_of u16_bytes
read_u16_le-Reads v h = record {
  run = λ s k.
      (ap (λ n. done n (at s (k + 2))) {x = v % 256 + v / 2 ^ 8 % 256 * 2 ^ 8} {y = v}
        (omega arith));
}

pub read_u32_le-Reads : (v : ℕ) → v < 2 ^ 32 → Reads read_u32_le (w_u32 v ∷ []) v
unfolding read_u32_le encode size bytes_of u32_bytes
read_u32_le-Reads v h = record {
  run = λ s k.
      (ap (λ n. done n (at s (k + 4)))
        {x = v % 256
          + v / 2 ^ 8 % 256 * 2 ^ 8
          + v / 2 ^ 16 % 256 * 2 ^ 16
          + v / 2 ^ 24 % 256 * 2 ^ 24}
        {y = v} (omega arith));
}

abbrev Block : Bytes → Bytes → ℕ → ℕ → Type 0
Block b s k n =
    (if leb n (length (b ++ s))
      then done (le_value (take n (b ++ s))) (at (drop n (b ++ s)) (k + n))
      else done 0 (at (b ++ s) k))
    ≡ done (le_value b) (at s (k + n))

Block-at : (b s : Bytes) (k : ℕ) → Block b s k (length b)
Block-at b s k =
    let fits : leb (length b) (length (b ++ s)) ≡ true = ground (arith, length-append b s) in
    rw (fits, take-append b s, drop-append b s)

pub read_u64_le-Reads : (v : ℕ) → v < 2 ^ 64 → Reads read_u64_le (w_u64 v ∷ []) v
unfolding read_u64_le encode size bytes_of u64_bytes
read_u64_le-Reads v h = record {
  run = λ s k.
      (let here =
          subst (Block (le_bytes 8 v) s k) (length-le_bytes 8 v) (Block-at (le_bytes 8 v) s k) in
        let value = ap (λ n. done n (at s (k + 8))) (le_value-le_bytes 8 v (omega arith)) in
        here ∙ value ∙ ap (λ n. done v (at s n)) (omega (arith, length-le_bytes 8 v)));
}

abbrev pub NoNul : Bytes → Type 0
NoNul = All (λ c. c ≢ 0)

pub until_nul-NoNul : (t : Bytes) → NoNul t → until_nul t ≡ t
unfolding until_nul
until_nul-NoNul [] h = refl
until_nul-NoNul (c ∷ cs) h = ground (arith, until_nul-NoNul cs)

pub copy-Reads : (t : Bytes) → NoNul t → Reads (copy (length t)) (w_bytes t ∷ []) t
unfolding copy encode size bytes_of
copy-Reads t h = record {
  run = λ s k.
      (let fits : leb (length t) (length (t ++ s)) ≡ true = ground (arith, length-append t s) in
        rw (fits, take-append t s, drop-append t s, until_nul-NoNul t h)
          (ap (λ n. done t (at s n)) (omega arith)));
}

abbrev pub IsName : Bytes → Type 0
IsName t = (length t < 2 ^ 16) × NoNul t

abbrev pub name_writes : Bytes → List Write
name_writes t = w_u16 (length t) ∷ w_bytes t ∷ []

pub read_name-Reads : (t : Bytes) → IsName t → Reads read_name (name_writes t) t
unfolding read_name
read_name-Reads t h = bind-Reads copy (read_u16_le-Reads (length t) h.0) (copy-Reads t h.1)

pub map-Reads :
    {A B : Type 0} {p : Read A} {ws : List Write} {a : A} (f : A → B)
    → Reads p ws a
    → Reads (p >>= λ x. pure (f x)) ws (f a)
map-Reads f h = record { run = λ s k. ap (λ o. on_done o (λ x. pure (f x))) (h.run s k) }

-- `for` loops on both sides.
unfoldable pub each : {X : Type 0} → (X → List Write) → List X → List Write
each write [] = []
each write (x ∷ xs) = write x ++ each write xs

pub read_many-Reads :
    {X A : Type 0} (p : Read A) (write : X → List Write) (image : X → A) (xs : List X)
    → All (λ x. Reads p (write x) (image x)) xs
    → Reads (read_many (length xs) p) (each write xs) (map image xs)
unfolding read_many each
read_many-Reads p write image [] h = pure-Reads []
read_many-Reads p write image (x ∷ xs) h =
    bind-Reads _ h.0 (map-Reads (λ l. image x ∷ l) (read_many-Reads p write image xs h.1))
