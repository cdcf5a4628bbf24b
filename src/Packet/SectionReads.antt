-- ===== src/Packet/SectionReads.antt =====
-- The machine reads from the other sections what the compiler wrote there.
use heluna_language.Common.{
  ℕ, zero, suc, ◌+◌, ◌*◌, ◌/◌, ◌^◌, ◌<◌, ◌≡◌, refl, Bool, true, false, ◌&&◌, some, List, [], ◌∷◌,
  ◌++◌, leb, ltb, ◌==◌, if◌then◌else◌, Bytes, length, take, drop-append, take-append, take_prefix,
  length-append, arith, All, ap, ◌∙◌, subst, Bool-cases, inl, inr,
}
use mathlib.Core.List.{map}
use heluna_language.Value.{HVal, val_integer, val_float, val_string, val_boolean, val_nothing}
use heluna_language.Compiler.{Compiler, ConstEntry, ConstPool, Instruction, CompilerSource}
use heluna_language.Compiler.Pool.{IsEntry, entry_bytes}
use heluna_language.Packet.Words.{le_value, u8_bytes, u16_bytes, u32_bytes}
use heluna_language.Packet.Writes.{
  Write, w_u8, w_u16, w_u32, w_bytes, bytes_of, encode, size, length-encode, size-append,
  encode-append,
}
use heluna_language.Packet.Reads.{
  Cursor, at, done, Read, ◌>>=◌, skip, read_u16_le, read_many, each, until_nul, Reads, bind-Reads,
  map-Reads, read_u8-Reads, read_u16_le-Reads, read_u32_le-Reads, read_name-Reads, read_many-Reads,
  IsName,
}
use heluna_language.Packet.Sections.{
  write_constant, serialize_constants, write_dep, serialize_stdlib_deps, write_instruction,
  serialize_bytecode, write_source, serialize_sources, signed64, on_word, byte_true, constant_value,
  VmConstant, constant_at, read_constant, count_constants, read_header, next_count, count_behind,
  counted, read_constants, read_deps, read_instruction, read_bytecode, read_source, read_sources,
}

abbrev first_word : Bytes → ℕ
first_word bs = if leb 8 (length bs) then le_value (take 8 bs) else 0

abbrev first_true : Bytes → Bool
first_true [] = false
first_true (b ∷ _) = if b == 0 then false else true

-- The value that the bytes of a constant stand for.
abbrev pub value_of : ℕ → Bytes → HVal
value_of tid bs =
    if tid == 1
    then val_string (until_nul bs)
    else if tid == 2
    then val_integer (signed64 (first_word bs))
    else if tid == 3
    then val_float (first_word bs)
    else if tid == 4
    then val_boolean (first_true bs)
    else val_nothing

on_word-value :
    (bs s : Bytes) (f : ℕ → HVal) → on_word (length bs) (bs ++ s) f ≡ some (f (first_word bs))
on_word-value bs s f = elim (Bool-cases (leb 8 (length bs))) [
  | inl e ↦
      let fits : leb 8 (length (bs ++ s)) ≡ true = ground (arith, length-append bs s) in
      rw (e, fits, take_prefix 8 bs s (ground arith))
  | inr e ↦ rw e
]

constant_value-value :
    (tid : ℕ) (bs s : Bytes) → constant_value tid (length bs) (bs ++ s) ≡ some (value_of tid bs)
unfolding constant_value
constant_value-value tid bs s = elim (Bool-cases (tid == 1)) [
  | inl e ↦
      let fits : leb (length bs) (length (bs ++ s)) ≡ true = ground (arith, length-append bs s) in
      rw (e, fits, take-append bs s)
  | inr e₁ ↦ elim (Bool-cases (tid == 2)) [
    | inl e ↦ rw (e₁, e) (on_word-value bs s (λ w. val_integer (signed64 w)))
    | inr e₂ ↦ elim (Bool-cases (tid == 3)) [
      | inl e ↦ rw (e₁, e₂, e) (on_word-value bs s val_float)
      | inr e₃ ↦ elim (Bool-cases (tid == 4)) [
        | inl e ↦ rw (e₁, e₂, e₃, e) (boolean bs)
        | inr e₄ ↦ rw (e₁, e₂, e₃, e₄)
      ]
    ]
  ]
]
  where
    boolean :
        (bs : Bytes)
        → (if length bs == 0 then some (val_boolean false) else byte_true (bs ++ s))
          ≡ some (val_boolean (first_true bs))
    boolean [] = refl
    boolean (b ∷ bs) = ground arith

abbrev pub constant_image : ConstPool → ConstEntry → VmConstant
constant_image p e = record { type_id = e.type_id; value = value_of e.type_id (entry_bytes p e) }

abbrev constant_tail : ℕ → ℕ → Read VmConstant
constant_tail tid dlen c = constant_at tid dlen (constant_value tid dlen c.rest) c

data-Reads :
    (tid : ℕ) (bs : Bytes)
    → Reads
        (constant_tail tid (length bs))
        (w_bytes bs ∷ [])
        (record { type_id = tid; value = value_of tid bs })
unfolding encode size bytes_of
data-Reads tid bs = record {
  run = λ s k.
      rw (constant_value-value tid bs s, drop-append bs s)
        (ap (λ n. done (record { type_id = tid; value = value_of tid bs }) (at s n)) (omega arith));
}

constant-Reads :
    (p : ConstPool) (e : ConstEntry)
    → IsEntry p e
    → Reads read_constant (write_constant p e) (constant_image p e)
unfolding read_constant write_constant
constant-Reads p e (t, b, l) = bind-Reads _ (read_u8-Reads e.type_id t) (
    bind-Reads (constant_tail e.type_id) (read_u32_le-Reads e.len b) (
      subst
        (λ n.
          Reads (constant_tail e.type_id n) (w_bytes (entry_bytes p e) ∷ []) (constant_image p e))
        l (data-Reads e.type_id (entry_bytes p e))))

if_true : {A : Type 0} (b : Bool) (x y : A) → b ≡ true → (if b then x else y) ≡ x
if_true true x y h = refl
if_true false x y h = cc

if_false : {A : Type 0} (b : Bool) (x y : A) → b ≡ false → (if b then x else y) ≡ y
if_false true x y h = cc
if_false false x y h = refl

size-write_constant :
    (p : ConstPool) (e : ConstEntry) → size (write_constant p e) ≡ 5 + length (entry_bytes p e)
unfolding size write_constant bytes_of u8_bytes u32_bytes
size-write_constant p e = omega arith

header-Reads :
    (tid dlen : ℕ) → tid < 256 → dlen < 2 ^ 32 → Reads read_header (w_u8 tid ∷ w_u32 dlen ∷ []) dlen
header-Reads tid dlen t b = bind-Reads _ (read_u8-Reads tid t) (read_u32_le-Reads dlen b)

-- One round of the first pass.
count_step :
    (p : ConstPool) (e : ConstEntry) (f end k : ℕ) (s : Bytes)
    → IsEntry p e
    → k < end
    → count_constants (suc f) end (at (encode (write_constant p e) s) k)
      ≡ next_count (count_constants f end (at s (k + size (write_constant p e))))
unfolding count_constants encode write_constant size bytes_of u8_bytes u32_bytes
count_step p e f end k s (t, b, l) h =
    let bs = entry_bytes p e in
    let five : leb 5 (length (encode (write_constant p e) s)) ≡ true =
      ground (arith, length-encode (write_constant p e) s, size-write_constant p e) in
    let test : (ltb k end && leb 5 (length (encode (write_constant p e) s))) ≡ true =
      ground (arith, five) in
    if_true _ _ _ test
    ∙ ap (count_behind (count_constants f end)) ((header-Reads e.type_id e.len t b).run (bs ++ s) k)
    ∙ ap (λ (c : Cursor). next_count (count_constants f end c)) (behind bs l)
  where
    behind :
        (bs : Bytes)
        → length bs ≡ e.len
        → skip e.len (at (bs ++ s) (k + (1 + (4 + 0)))) ≡ at s (k + (1 + (4 + (length bs + 0))))
    behind bs q =
        subst
          (λ n. skip n (at (bs ++ s) (k + (1 + (4 + 0)))) ≡ at s (k + (1 + (4 + (length bs + 0)))))
          q (rw (drop-append bs s) (ap (λ n. at s n) (omega arith)))

-- The first pass finds as many constants as there are entries.
count_constants-length :
    (p : ConstPool) (es : List ConstEntry) (f k : ℕ) (s : Bytes)
    → All (IsEntry p) es
    → size (each (write_constant p) es) < f
    → count_constants f
        (k + size (each (write_constant p) es))
        (at (encode (each (write_constant p) es) s) k)
      ≡ some (length es)
unfolding count_constants each size encode
count_constants-length p es zero k s h b = absurd (omega arith)
count_constants-length p [] (suc f) k s h b =
    let test : (ltb k (k + 0) && leb 5 (length s)) ≡ false = ground arith in if_false _ _ _ test
count_constants-length p (e ∷ es) (suc f) k s h b =
    let ws = write_constant p e in
    let rest = each (write_constant p) es in
    let five = size-write_constant p e in
    let total = size-append ws rest in
    rw (encode-append ws rest s) (
      count_step p e f (k + size (ws ++ rest)) k (encode rest s) h.0 (omega (arith, five, total))
      ∙ ap next_count (
          ap (λ end. count_constants f end (at (encode rest s) (k + size ws)))
            (omega (arith, total))
          ∙ count_constants-length p es f (k + size ws) s h.1 (omega (arith, b, five, total))))

pub constants-Reads :
    (c : Compiler) (s : Bytes) (k : ℕ)
    → All (IsEntry c.pool) c.pool.entries
    → read_constants (k + size (serialize_constants c)) (at (encode (serialize_constants c) s) k)
      ≡ done (map (constant_image c.pool) c.pool.entries) (at s (k + size (serialize_constants c)))
unfolding read_constants serialize_constants
constants-Reads c s k h =
    let es = c.pool.entries in
    let ws = each (write_constant c.pool) es in
    let begin = at (encode ws s) k in
    let many =
      read_many-Reads read_constant (write_constant c.pool) (constant_image c.pool) es
        (entries es h) in
    ap (λ o. counted o (λ n. read_many n read_constant begin))
      (count_constants-length c.pool es (suc (length (encode ws s))) k s h
        (omega (arith, length-encode ws s)))
    ∙ many.run s k
  where
    entries :
        (es : List ConstEntry)
        → All (IsEntry c.pool) es
        → All (λ e. Reads read_constant (write_constant c.pool e) (constant_image c.pool e)) es
    entries [] h = tt
    entries (e ∷ es) h = (constant-Reads c.pool e h.0, entries es h.1)

-- Reading a list with its count in front.
list-Reads :
    {X A : Type 0} (p : Read A) (write : X → List Write) (image : X → A) (xs : List X)
    → length xs < 2 ^ 16
    → All (λ x. Reads p (write x) (image x)) xs
    → Reads (read_u16_le >>= λ n. read_many n p) (w_u16 (length xs) ∷ each write xs) (map image xs)
list-Reads p write image xs b h =
    bind-Reads (λ n. read_many n p) (read_u16_le-Reads (length xs) b)
      (read_many-Reads p write image xs h)

All-each :
    {X : Type 0} {P Q : X → Type 0} (xs : List X) → ((x : X) → P x → Q x) → All P xs → All Q xs
All-each [] f h = tt
All-each (x ∷ xs) f h = (f x h.0, All-each xs f h.1)

map_self : {X : Type 0} (xs : List X) → map (λ x. x) xs ≡ xs
map_self [] = refl
map_self (x ∷ xs) = ap (λ t. x ∷ t) (map_self xs)

pub deps-Reads :
    (c : Compiler)
    → length c.stdlib_deps < 2 ^ 16
    → All (λ id. id < 2 ^ 16) c.stdlib_deps
    → Reads read_deps (serialize_stdlib_deps c) c.stdlib_deps
unfolding read_deps serialize_stdlib_deps write_dep
deps-Reads c b h = subst (Reads read_deps (serialize_stdlib_deps c)) (map_self c.stdlib_deps) (
    list-Reads read_u16_le write_dep (λ id. id) c.stdlib_deps b
      (All-each c.stdlib_deps read_u16_le-Reads h))

abbrev pub IsInstruction : Instruction → Type 0
IsInstruction i =
    (i.opcode < 256)
    × (i.flags < 256)
    × (i.dest < 2 ^ 16)
    × (i.operand1 < 2 ^ 16)
    × (i.operand2 < 2 ^ 16)

instruction-Reads :
    (i : Instruction) → IsInstruction i → Reads read_instruction (write_instruction i) i
unfolding read_instruction write_instruction
instruction-Reads i (o, f, d, a, b) = bind-Reads _ (read_u8-Reads i.opcode o) (
    bind-Reads _ (read_u8-Reads i.flags f) (
      bind-Reads _ (read_u16_le-Reads i.dest d) (
        bind-Reads _ (read_u16_le-Reads i.operand1 a) (
          map-Reads
            (λ operand2. record {
              opcode = i.opcode;
              flags = i.flags;
              dest = i.dest;
              operand1 = i.operand1;
              operand2 = operand2;
            })
            (read_u16_le-Reads i.operand2 b)))))

size-bytecode : (is : List Instruction) → size (each write_instruction is) ≡ 8 * length is
unfolding each size write_instruction bytes_of u8_bytes u16_bytes
size-bytecode [] = omega arith
size-bytecode (i ∷ is) = omega (arith, size-bytecode is)

pub bytecode-Reads :
    (c : Compiler)
    → All IsInstruction c.instructions
    → Reads (read_bytecode (size (serialize_bytecode c))) (serialize_bytecode c) c.instructions
unfolding read_bytecode serialize_bytecode
bytecode-Reads c h =
    let is = c.instructions in
    let n : length is ≡ size (each write_instruction is) / 8 = omega (arith, size-bytecode is) in
    subst (λ m. Reads (read_many m read_instruction) (serialize_bytecode c) is) n
      (subst (Reads (read_many (length is) read_instruction) (serialize_bytecode c)) (map_self is) (
        read_many-Reads read_instruction write_instruction (λ i. i) is
          (All-each is instruction-Reads h)))

abbrev pub IsSource : CompilerSource → Type 0
IsSource s = IsName s.name × IsName s.config_json × IsName s.keyed_by

source-Reads : (s : CompilerSource) → IsSource s → Reads read_source (write_source s) s
unfolding read_source write_source
source-Reads s (n, c, k) = bind-Reads _ (read_name-Reads s.name n) (
    bind-Reads _ (read_name-Reads s.config_json c) (
      map-Reads (λ keyed. record { name = s.name; config_json = s.config_json; keyed_by = keyed })
        (read_name-Reads s.keyed_by k)))

pub sources-Reads :
    (c : Compiler)
    → length c.sources < 2 ^ 16
    → All IsSource c.sources
    → Reads read_sources (serialize_sources c) c.sources
unfolding read_sources serialize_sources
sources-Reads c b h =
    subst (Reads read_sources (serialize_sources c)) (map_self c.sources)
      (list-Reads read_source write_source (λ s. s) c.sources b (All-each c.sources source-Reads h))
