-- ===== src/Ast.antt =====
-- The expressions and patterns of include/heluna/ast.h.
--
-- A linked list inside a node is a data type of the block, and a pointer that may be NULL is a
-- constructor: `no_expr`, `pat_null`, and `else_branch`, whose condition is NULL. Source locations
-- are left out; they only fill the location of an error.
pub mod Contract
use heluna_language.Common.{Bytes, Option}
use heluna_language.Common.Int.{ℤ}
use heluna_language.Value.{Double}

pub data AstBinOp : Type 0 where
  bin_add bin_sub bin_mul bin_div bin_mod : AstBinOp
  bin_eq bin_neq bin_lt bin_gt bin_lte bin_gte : AstBinOp
  bin_and bin_or : AstBinOp

mutual
  pub data AstExpr : Type 0 where
    expr_integer : ℤ → AstExpr
    expr_float : Double → AstExpr
    expr_string : Bytes → AstExpr
    expr_true expr_false expr_nothing : AstExpr
    expr_ident : Bytes → AstExpr
    expr_input_ref : Bytes → AstExpr
    expr_binary : AstBinOp → AstExpr → AstExpr → AstExpr
    expr_unary_neg : AstExpr → AstExpr
    expr_not : AstExpr → AstExpr
    expr_if : AstIfBranches → AstExpr
    expr_match : AstExpr → AstWhenClauses → AstMaybeExpr → AstExpr
    expr_let : Bytes → AstExpr → AstExpr → AstExpr
    expr_filter : AstExpr → Bytes → AstExpr → AstExpr
    expr_map : AstExpr → Bytes → AstExpr → AstExpr
    expr_through : AstExpr → AstExpr → AstExpr
    expr_call : Bytes → AstExpr → AstExpr
    expr_record : AstLabels → AstExpr
    expr_list : AstElements → AstExpr
    expr_access : AstExpr → Bytes → AstExpr
    expr_paren : AstExpr → AstExpr
    expr_lookup : Bytes → AstLabels → AstExpr
    expr_is_type : AstExpr → Bytes → AstExpr
    expr_or_else : AstExpr → AstExpr → AstExpr

  pub data AstMaybeExpr : Type 0 where
    no_expr : AstMaybeExpr
    just_expr : AstExpr → AstMaybeExpr

  pub data AstIfBranches : Type 0 where
    no_branches : AstIfBranches
    if_branch : AstExpr → AstExpr → AstIfBranches → AstIfBranches
    else_branch : AstExpr → AstIfBranches → AstIfBranches

  pub data AstWhenClauses : Type 0 where
    no_clauses : AstWhenClauses
    when_clause : AstPattern → AstMaybeExpr → AstExpr → AstWhenClauses → AstWhenClauses

  pub data AstLabels : Type 0 where
    no_labels : AstLabels
    label : Bytes → AstExpr → AstLabels → AstLabels

  pub data AstElements : Type 0 where
    no_elements : AstElements
    element : AstExpr → AstElements → AstElements

  -- `rest_name` of a list pattern is NULL, empty or a name.
  pub data AstPattern : Type 0 where
    pat_null : AstPattern
    pat_literal : AstExpr → AstPattern
    pat_wildcard : AstPattern
    pat_binding : Bytes → AstPattern
    pat_range : AstExpr → AstExpr → AstPattern
    pat_list : AstPatternElems → Option Bytes → AstPattern
    pat_record : AstFieldPatterns → AstPattern

  pub data AstPatternElems : Type 0 where
    no_elems : AstPatternElems
    elem : AstPattern → AstPatternElems → AstPatternElems

  pub data AstFieldPatterns : Type 0 where
    no_field_patterns : AstFieldPatterns
    field_pattern : Bytes → AstPattern → AstFieldPatterns → AstFieldPatterns
