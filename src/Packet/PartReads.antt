-- ===== src/Packet/PartReads.antt =====
-- Parts of the contract section: texts that may be absent, types, tag words and library numbers are
-- read as they were written.
use heluna_language.Common.{
  ℕ, suc, ◌^◌, ◌≤◌, ◌<◌, ◌≡◌, refl, Bool, true, ◌&&◌, Option, none, some, List, [], ◌∷◌, leb, ltb,
  Bytes, length, arith, All, str_eq, Bool-cases, inl, inr,
}
use heluna_language.Ast.Contract.{
  AstType, AstFieldDecls, type_null, type_string, type_integer, type_float, type_boolean,
  type_maybe, type_list, type_record, no_decls, decl, count_decls,
}
use heluna_language.Compiler.{
  Compiler, compute_tag_bits, or_tags, stdlib_lookup, find_name, stdlib_table,
}
use heluna_language.Packet.Words.{u8_bytes}
use heluna_language.Packet.Writes.{
  Write, w_u16, w_u64, bytes_of, encode, size, size-append, length-encode,
}
use heluna_language.Packet.Reads.{
  Read, ◌>>=◌, read_u16_le, read_name, copy, until_nul, Reads, bind-Reads, map-Reads, pure-Reads,
  read_u8-Reads, read_u16_le-Reads, read_name-Reads, IsName,
}
use heluna_language.Packet.Types.{
  serialize_type, serialize_subfields, ast_type_to_ftype, skip_type, skip_each, skip_type-Reads,
  skip_each-Reads, depth, depth_decls, IsSmall, AreSmall,
}
use heluna_language.Packet.Contract.{optional_writes, or_zero, with_fuel, skip_detail, read_type}

-- What is read for a text that may be absent.
abbrev pub or_empty : Option Bytes → Bytes
or_empty none = []
or_empty (some t) = t

abbrev pub IsOptionalName : Option Bytes → Type 0
IsOptionalName none = Unit
IsOptionalName (some t) = IsName t

copy_nothing : Reads (copy 0) [] []
unfolding copy encode size until_nul
copy_nothing = record {
  run = λ s k. (let fits : leb 0 (length s) ≡ true = ground arith in rw fits);
}

pub optional-Reads :
    (o : Option Bytes) → IsOptionalName o → Reads read_name (optional_writes o) (or_empty o)
unfolding read_name
optional-Reads none h = bind-Reads copy (read_u16_le-Reads 0 (omega arith)) copy_nothing
optional-Reads (some t) h = read_name-Reads t h

mutual
  unfolding serialize_type size bytes_of u8_bytes

  depth-size : (t : AstType) → depth t ≤ size (serialize_type t)
  depth-size (type_maybe t) = omega (arith, depth-size t)
  depth-size (type_list t) = omega (arith, depth-size t)
  depth-size (type_record fs) = omega (arith, depth_decls-size fs)
  depth-size type_null = omega arith
  depth-size type_string = omega arith
  depth-size type_integer = omega arith
  depth-size type_float = omega arith
  depth-size type_boolean = omega arith

  depth_decls-size : (fs : AstFieldDecls) → depth_decls fs ≤ size (serialize_subfields fs)
  depth_decls-size no_decls = omega arith
  depth_decls-size (decl name t tags rest) = omega (
    arith,
    depth-size t,
    depth_decls-size rest,
    size-append (serialize_type t) (w_u64 0 ∷ w_u16 0 ∷ serialize_subfields rest),
  )

-- The fuel of a reader is enough where it is for anything that stands in front of the rest.
with_fuel-Reads :
    {A : Type 0} (p : ℕ → Read A) {ws : List Write} {a : A}
    → ((f : ℕ) → size ws < f → Reads (p f) ws a)
    → Reads (with_fuel p) ws a
with_fuel-Reads p {ws} h = record {
  run = λ s k. (h (suc (length (encode ws s))) (omega (arith, length-encode ws s))).run s k;
}

record_type-Reads :
    (fs : AstFieldDecls)
    → (count_decls fs < 2 ^ 16) × AreSmall fs
    → (f : ℕ) → size (w_u16 (count_decls fs) ∷ serialize_subfields fs) < f
    → Reads
        (read_u16_le >>= skip_each (skip_type f))
        (w_u16 (count_decls fs) ∷ serialize_subfields fs)
        tt
unfolding size
record_type-Reads fs h f b =
    bind-Reads (skip_each (skip_type f)) (read_u16_le-Reads (count_decls fs) h.0)
      (skip_each-Reads fs f (omega (arith, b, depth_decls-size fs)) h.1)

pub read_type-Reads :
    (t : AstType) → IsSmall t → Reads read_type (serialize_type t) (ast_type_to_ftype t)
unfolding read_type skip_detail serialize_type ast_type_to_ftype
read_type-Reads (type_maybe t) h = bind-Reads _ (read_u8-Reads 6 (omega arith)) (
    map-Reads (λ _. 6)
      (with_fuel-Reads skip_type (λ f b. skip_type-Reads t f (omega (arith, b, depth-size t)) h)))
read_type-Reads (type_list t) h = bind-Reads _ (read_u8-Reads 7 (omega arith)) (
    map-Reads (λ _. 7)
      (with_fuel-Reads skip_type (λ f b. skip_type-Reads t f (omega (arith, b, depth-size t)) h)))
read_type-Reads (type_record fs) h = bind-Reads _ (read_u8-Reads 8 (omega arith)) (
    map-Reads (λ _. 8)
      (with_fuel-Reads (λ f. read_u16_le >>= skip_each (skip_type f)) (record_type-Reads fs h)))
read_type-Reads type_null h =
    bind-Reads _ (read_u8-Reads 1 (omega arith)) (map-Reads (λ _. 1) (pure-Reads tt))
read_type-Reads type_string h =
    bind-Reads _ (read_u8-Reads 1 (omega arith)) (map-Reads (λ _. 1) (pure-Reads tt))
read_type-Reads type_integer h =
    bind-Reads _ (read_u8-Reads 2 (omega arith)) (map-Reads (λ _. 2) (pure-Reads tt))
read_type-Reads type_float h =
    bind-Reads _ (read_u8-Reads 3 (omega arith)) (map-Reads (λ _. 3) (pure-Reads tt))
read_type-Reads type_boolean h =
    bind-Reads _ (read_u8-Reads 4 (omega arith)) (map-Reads (λ _. 4) (pure-Reads tt))

find_name-small :
    (table : List (Bytes × ℕ)) (name : Bytes) (id : ℕ)
    → All (λ (e : Bytes × ℕ). e.1 < 2 ^ 16) table
    → find_name table name ≡ some id
    → id < 2 ^ 16
unfolding find_name
find_name-small [] name id h e = cc
find_name-small ((n, k) ∷ rest) name id h e = elim (Bool-cases (str_eq n name)) [
  | inl q ↦ ground (arith, h.0)
  | inr q ↦ find_name-small rest name id h.1 (rw q at e)
]

all_small : List (Bytes × ℕ) → Bool
all_small [] = true
all_small ((n, k) ∷ rest) = ltb k (2 ^ 16) && all_small rest

all_small-All :
    (table : List (Bytes × ℕ))
    → all_small table ≡ true
    → All (λ (e : Bytes × ℕ). e.1 < 2 ^ 16) table
unfolding all_small
all_small-All [] h = tt
all_small-All ((n, k) ∷ rest) h = (ground arith, all_small-All rest (ground arith))

table_small : all_small stdlib_table ≡ true
unfolding all_small
table_small = refl

pub stdlib_lookup-small : (name : Bytes) → or_zero (stdlib_lookup name) < 2 ^ 16
unfolding stdlib_lookup
stdlib_lookup-small name = go (find_name stdlib_table name) refl
  where
    go : (o : Option ℕ) → find_name stdlib_table name ≡ o → or_zero o < 2 ^ 16
    go none e = omega arith
    go (some id) e = find_name-small stdlib_table name id (all_small-All stdlib_table table_small) e

or_tags-bound :
    (c : Compiler) (ts : List Bytes) (bits : ℕ) → bits < 2 ^ 64 → or_tags c ts bits < 2 ^ 64
unfolding or_tags
or_tags-bound c [] bits h = h
or_tags-bound c (t ∷ ts) bits h = or_tags-bound c ts _ (omega arith)

pub compute_tag_bits-bound : (c : Compiler) (ts : List Bytes) → compute_tag_bits c ts < 2 ^ 64
unfolding compute_tag_bits
compute_tag_bits-bound c ts = or_tags-bound c ts 0 (omega arith)
