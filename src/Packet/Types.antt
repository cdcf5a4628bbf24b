-- ===== src/Packet/Types.antt =====
-- Types in the contract section: `serialize_type` of src/compiler.c and `skip_type` of src/vm.c.
use heluna_language.Common.{
  ℕ, zero, suc, ◌+◌, ◌^◌, ◌<◌, ◌≡◌, refl, ◌||◌, List, [], ◌∷◌, ◌++◌, ◌==◌, if◌then◌else◌, Bytes,
  length, drop-append, arith, ap, ◌∙◌,
}
use heluna_language.Ast.Contract.{
  AstType, AstFieldDecls, type_null, type_string, type_integer, type_float, type_boolean,
  type_maybe, type_list, type_record, no_decls, decl, count_decls,
}
use heluna_language.Packet.Writes.{Write, w_u8, w_u16, w_u64, w_bytes, bytes_of, encode, size}
use heluna_language.Packet.Words.{u8_bytes, u16_bytes, u64_bytes, le_bytes}
use heluna_language.Packet.Reads.{
  at, done, no_fuel, Read, pure, ◌>>=◌, skip, read_u8, read_u16_le, Reads, pure-Reads, bind-Reads,
  then-Reads, read_u16_le-Reads,
}

-- `FTYPE_*`
unfoldable pub ast_type_to_ftype : AstType → ℕ
ast_type_to_ftype type_null = 1
ast_type_to_ftype type_string = 1
ast_type_to_ftype type_integer = 2
ast_type_to_ftype type_float = 3
ast_type_to_ftype type_boolean = 4
ast_type_to_ftype (type_maybe t) = 6
ast_type_to_ftype (type_list t) = 7
ast_type_to_ftype (type_record fs) = 8

unfoldable mutual
  pub serialize_type : AstType → List Write
  serialize_type type_null = w_u8 1 ∷ []
  serialize_type type_string = w_u8 (ast_type_to_ftype type_string) ∷ []
  serialize_type type_integer = w_u8 (ast_type_to_ftype type_integer) ∷ []
  serialize_type type_float = w_u8 (ast_type_to_ftype type_float) ∷ []
  serialize_type type_boolean = w_u8 (ast_type_to_ftype type_boolean) ∷ []
  serialize_type (type_maybe t) = w_u8 (ast_type_to_ftype (type_maybe t)) ∷ serialize_type t
  serialize_type (type_list t) = w_u8 (ast_type_to_ftype (type_list t)) ∷ serialize_type t
  serialize_type (type_record fs) =
      w_u8 (ast_type_to_ftype (type_record fs)) ∷ w_u16 (count_decls fs) ∷ serialize_subfields fs

  pub serialize_subfields : AstFieldDecls → List Write
  serialize_subfields no_decls = []
  serialize_subfields (decl name t tags rest) =
      w_u16 (length name)
      ∷ w_bytes name
      ∷ (serialize_type t ++ w_u64 0 ∷ w_u16 0 ∷ serialize_subfields rest)

-- `c->pos += n;`
unfoldable pub advance : ℕ → Read (Unit {0})
advance n c = done tt (skip n c)

-- The loop over the fields of a record type.
unfoldable pub skip_each : Read (Unit {0}) → ℕ → Read (Unit {0})
skip_each skip_one zero = pure tt
skip_each skip_one (suc n) = do
  as_len ← read_u16_le
  a ← advance as_len
  b ← skip_one
  d ← advance 8
  e ← advance 2
  skip_each skip_one n

abbrev unless_empty : Bytes → Read (Unit {0}) → Read (Unit {0})
unless_empty [] p c = done tt c
unless_empty (_ ∷ _) p c = p c

-- On fuel: each level of a type takes a byte, so that a unit more than the bytes left is enough.
unfoldable pub skip_type : ℕ → Read (Unit {0})
skip_type zero c = no_fuel
skip_type (suc f) c =
    unless_empty c.rest
      (read_u8 >>= λ tid.
        if tid == 6 || tid == 7
        then skip_type f
        else if tid == 8
        then (read_u16_le >>= skip_each (skip_type f))
        else pure tt)
      c

abbrev mutual
  pub depth : AstType → ℕ
  depth (type_maybe t) = suc (depth t)
  depth (type_list t) = suc (depth t)
  depth (type_record fs) = suc (depth_decls fs)
  depth _ = 0

  pub depth_decls : AstFieldDecls → ℕ
  depth_decls no_decls = 0
  depth_decls (decl _ t _ rest) = depth t + depth_decls rest

-- Every record of the type has a count of fields, and every field a length of its name, that
-- 16 bits hold.
abbrev mutual
  pub IsSmall : AstType → Type 0
  IsSmall (type_maybe t) = IsSmall t
  IsSmall (type_list t) = IsSmall t
  IsSmall (type_record fs) = (count_decls fs < 2 ^ 16) × AreSmall fs
  IsSmall _ = Unit

  pub AreSmall : AstFieldDecls → Type 0
  AreSmall no_decls = Unit
  AreSmall (decl name t _ rest) = (length name < 2 ^ 16) × IsSmall t × AreSmall rest

advance-Reads : (t : Bytes) → Reads (advance (length t)) (w_bytes t ∷ []) tt
unfolding encode size bytes_of advance
advance-Reads t = record {
  run = λ s k. rw (drop-append t s) (ap (λ n. done tt (at s n)) (omega arith));
}

advance_tag_bits : Reads (advance 8) (w_u64 0 ∷ []) tt
unfolding encode size bytes_of advance u64_bytes le_bytes
advance_tag_bits = record { run = λ s k. refl }

advance_offset : Reads (advance 2) (w_u16 0 ∷ []) tt
unfolding encode size bytes_of advance u16_bytes
advance_offset = record { run = λ s k. refl }

-- Behind a byte that has been read.
behind_byte :
    {p : Read (Unit {0})} {ws : List Write} (s : Bytes) (k : ℕ)
    → Reads p ws tt
    → p (at (encode ws s) (k + 1)) ≡ done tt (at s (k + (1 + size ws)))
behind_byte s k h = h.run s (k + 1) ∙ ap (λ n. done tt (at s n)) (omega arith)

mutual
  unfolding skip_type serialize_type encode size bytes_of u8_bytes ast_type_to_ftype read_u8
      skip_each count_decls

  -- The reader skips what the writer wrote for a type.
  pub skip_type-Reads :
      (t : AstType) (f : ℕ) → depth t < f → IsSmall t → Reads (skip_type f) (serialize_type t) tt
  skip_type-Reads t zero h m = absurd (omega arith)
  skip_type-Reads type_null (suc f) h m = record { run = λ s k. refl }
  skip_type-Reads type_string (suc f) h m = record { run = λ s k. refl }
  skip_type-Reads type_integer (suc f) h m = record { run = λ s k. refl }
  skip_type-Reads type_float (suc f) h m = record { run = λ s k. refl }
  skip_type-Reads type_boolean (suc f) h m = record { run = λ s k. refl }
  skip_type-Reads (type_maybe t) (suc f) h m = record {
    run = λ s k. behind_byte s k (skip_type-Reads t f (omega arith) m);
  }
  skip_type-Reads (type_list t) (suc f) h m = record {
    run = λ s k. behind_byte s k (skip_type-Reads t f (omega arith) m);
  }
  skip_type-Reads (type_record fs) (suc f) h m =
      let body =
        bind-Reads (skip_each (skip_type f)) (read_u16_le-Reads (count_decls fs) m.0)
          (skip_each-Reads fs f (omega arith) m.1) in
      record { run = λ s k. behind_byte s k body }

  pub skip_each-Reads :
      (fs : AstFieldDecls) (f : ℕ)
      → depth_decls fs < f
      → AreSmall fs
      → Reads (skip_each (skip_type f) (count_decls fs)) (serialize_subfields fs) tt
  skip_each-Reads no_decls f h m = pure-Reads tt
  skip_each-Reads (decl name t tags rest) f h m =
      bind-Reads _ (read_u16_le-Reads (length name) m.0) (
        then-Reads (advance-Reads name) (
          then-Reads (skip_type-Reads t f (omega arith) m.1) (
            then-Reads advance_tag_bits
              (then-Reads advance_offset (skip_each-Reads rest f (omega arith) m.2)))))
