-- ===== src/Ast/Contract.antt =====
-- The contract of include/heluna/ast.h, as far as the compiler writes it to the packet.
--
-- `type_null` is a NULL type. Linked lists inside a type are data of the block. Left out are the parts
-- of a contract that the packet does not hold: `uses`, tests, what a sanitizer uses, the
-- conditions and clauses of rules, the fields of source contracts, and source locations.
use heluna_language.Common.{ℕ, zero, suc, Bool, Option, List, Bytes}

mutual
  pub data AstType : Type 0 where
    type_null type_string type_integer type_float type_boolean : AstType
    type_maybe type_list : AstType → AstType
    type_record : AstFieldDecls → AstType

  -- A field's name, type and tags.
  pub data AstFieldDecls : Type 0 where
    no_decls : AstFieldDecls
    decl : Bytes → AstType → List Bytes → AstFieldDecls → AstFieldDecls

pub record AstTagDef : Type 0 where
  pub name : Bytes
  pub description : Option Bytes

pub record AstSanitizerDef : Type 0 where
  pub name : Bytes
  pub stripped_tags : List Bytes

pub record AstFieldRef : Type 0 where
  pub is_output : Bool
  pub accessors : List Bytes

-- A field reference or a message that is NULL is `none`.
pub data AstRule : Type 0 where
  rule_forbid_field : Option AstFieldRef → AstRule
  rule_forbid_tagged : Bytes → AstRule
  rule_require rule_match : Option AstFieldRef → Option Bytes → AstRule

pub record AstContract : Type 0 where
  pub name : Bytes
  pub tags : List AstTagDef
  pub sanitizers : List AstSanitizerDef
  pub input : AstFieldDecls
  pub output : AstFieldDecls
  pub rules : List AstRule

unfoldable pub count_decls : AstFieldDecls → ℕ
count_decls no_decls = zero
count_decls (decl _ _ _ rest) = suc (count_decls rest)
