-- ===== src/Evaluator/Eval.antt =====
-- `eval_expr`, `eval_through` and `match_pattern` of src/evaluator.c, and `evaluator_init` and
-- `evaluator_eval`.
use heluna_language.Common.{Bool, true, false, none, some, [], codes}
use heluna_language.Value.{
  HVal, HFields, HVals, val_integer, val_float, val_string, val_boolean, val_nothing, val_record,
  val_list, no_fields, field, no_items, item, record_get,
}
use heluna_language.Ast.{
  AstExpr, AstMaybeExpr, AstIfBranches, AstWhenClauses, AstLabels, AstElements, AstPattern,
  AstPatternElems, AstFieldPatterns, expr_integer, expr_float, expr_string, expr_true, expr_false,
  expr_nothing, expr_ident, expr_input_ref, expr_binary, expr_unary_neg, expr_not, expr_if,
  expr_match, expr_let, expr_filter, expr_map, expr_through, expr_call, expr_record, expr_list,
  expr_access, expr_paren, expr_lookup, expr_is_type, expr_or_else, no_expr, just_expr, no_branches,
  if_branch, else_branch, no_clauses, when_clause, no_labels, label, no_elements, element, pat_null,
  pat_literal, pat_wildcard, pat_binding, pat_range, pat_list, pat_record, no_elems, elem,
  no_field_patterns, field_pattern,
}
use heluna_language.Stdlib.{stdlib_call}
use heluna_language.Evaluator.Text.{resolve_string}
use heluna_language.Evaluator.State.{
  M, Result, EvalState, pure, on_result, eval_error, env_push, ◌>>=◌,
}
use heluna_language.Evaluator.Equal.{Host, hval_equal}
use heluna_language.Evaluator.Operators.{
  binary_op, negate, invert, is_true, is_type, call_result, through_result, inject_value,
}
use heluna_language.Evaluator.Parts.{
  unless_error, ident, input_ref, access, in_scope, filter_list, map_list, choose, or_else, matched,
  no_match, both_match, match_range, on_items, on_fields, on_present, run_clause, lengths_checked,
}

unfoldable mutual
  pub eval_expr : Host → AstExpr → M HVal
  eval_expr h (expr_integer n) = unless_error (pure (val_integer n))
  eval_expr h (expr_float d) = unless_error (pure (val_float d))
  eval_expr h (expr_string raw) = unless_error (pure (val_string (resolve_string raw)))
  eval_expr h expr_true = unless_error (pure (val_boolean true))
  eval_expr h expr_false = unless_error (pure (val_boolean false))
  eval_expr h expr_nothing = unless_error (pure val_nothing)
  eval_expr h (expr_ident name) = unless_error (ident name)
  eval_expr h (expr_input_ref name) = unless_error (input_ref name)
  eval_expr h (expr_binary op l r) =
      unless_error do left ← eval_expr h l; right ← eval_expr h r; binary_op h op left right
  eval_expr h (expr_unary_neg e) = unless_error (eval_expr h e >>= negate h.doubles)
  eval_expr h (expr_not e) = unless_error (eval_expr h e >>= invert)
  eval_expr h (expr_if branches) = unless_error (eval_branches h branches)
  eval_expr h (expr_match subject clauses otherwise) =
      unless_error (eval_expr h subject >>= λ v. eval_clauses h clauses v (eval_maybe h otherwise))
  eval_expr h (expr_let name binding body) =
      unless_error (eval_expr h binding >>= λ v. in_scope name v (eval_expr h body))
  eval_expr h (expr_filter list name test) =
      unless_error
        (eval_expr h list >>= filter_list (codes "filter requires a list") name (eval_expr h test))
  eval_expr h (expr_map list name body) =
      unless_error
        (eval_expr h list >>= map_list (codes "map requires a list") name (eval_expr h body))
  eval_expr h (expr_through left (expr_call name arg)) = unless_error do
    v ← eval_expr h left
    a ← eval_expr h arg
    through_result (stdlib_call h.doubles name (inject_value v a))
  eval_expr h (expr_through left (expr_filter list name test)) = unless_error (
      eval_expr h left
      >>= filter_list (codes "through filter requires a list") name (eval_expr h test))
  eval_expr h (expr_through left (expr_map list name body)) =
      unless_error (
        eval_expr h left >>= map_list (codes "through map requires a list") name (eval_expr h body))
  eval_expr h (expr_through left other) =
      unless_error
        (eval_expr h left >>= λ _. eval_error (codes "unsupported right-hand side of 'through'"))
  eval_expr h (expr_call name arg) =
      unless_error (eval_expr h arg >>= λ a. call_result (stdlib_call h.doubles name a))
  eval_expr h (expr_record labels) =
      unless_error (eval_labels h labels >>= λ fs. pure (val_record fs))
  eval_expr h (expr_list elements) =
      unless_error (eval_elements h elements >>= λ vs. pure (val_list vs))
  eval_expr h (expr_access object name) = unless_error (eval_expr h object >>= λ v. access v name)
  eval_expr h (expr_paren e) = unless_error (eval_expr h e)
  eval_expr h (expr_lookup source keys) = unless_error (pure val_nothing)
  eval_expr h (expr_is_type e name) =
      unless_error (eval_expr h e >>= λ v. pure (val_boolean (is_type v name)))
  eval_expr h (expr_or_else primary fallback) =
      unless_error (eval_expr h primary >>= λ v. or_else v (eval_expr h fallback))

  pub eval_maybe : Host → AstMaybeExpr → M HVal
  eval_maybe h no_expr = pure val_nothing
  eval_maybe h (just_expr e) = eval_expr h e

  pub eval_guard : Host → AstMaybeExpr → M Bool
  eval_guard h no_expr = pure true
  eval_guard h (just_expr e) = eval_expr h e >>= λ v. pure (is_true v)

  pub eval_branches : Host → AstIfBranches → M HVal
  eval_branches h no_branches = pure val_nothing
  eval_branches h (if_branch c body rest) =
      eval_expr h c >>= λ v. choose (is_true v) (eval_expr h body) (eval_branches h rest)
  eval_branches h (else_branch body rest) = eval_expr h body

  pub eval_clauses : Host → AstWhenClauses → HVal → M HVal → M HVal
  eval_clauses h no_clauses v otherwise = otherwise
  eval_clauses h (when_clause pattern guard body rest) v otherwise =
      run_clause (match_pattern h pattern v) (eval_guard h guard) (eval_expr h body)
        (eval_clauses h rest v otherwise)

  pub eval_labels : Host → AstLabels → M HFields
  eval_labels h no_labels = pure no_fields
  eval_labels h (label name e rest) = do
    v ← eval_expr h e
    fs ← eval_labels h rest
    pure (field name v fs)

  pub eval_elements : Host → AstElements → M HVals
  eval_elements h no_elements = pure no_items
  eval_elements h (element e rest) = do
    v ← eval_expr h e
    vs ← eval_elements h rest
    pure (item v vs)

  pub match_pattern : Host → AstPattern → HVal → EvalState → Result Bool
  match_pattern h pat_null v s = matched true s
  match_pattern h pat_wildcard v s = matched true s
  match_pattern h (pat_binding name) v s = matched true (env_push name v s)
  match_pattern h (pat_literal e) v s =
      on_result (eval_expr h e s) (λ lit t. matched (hval_equal h lit v) t) no_match
  match_pattern h (pat_range low high) v s =
      match_range h.doubles (eval_expr h low) (eval_expr h high) v s
  match_pattern h (pat_list elems rest) v s =
      on_items (lengths_checked elems rest (match_elems h elems)) v s
  match_pattern h (pat_record fields) v s = on_fields (match_fields h fields) v s

  pub match_elems : Host → AstPatternElems → HVals → EvalState → Result Bool
  match_elems h no_elems vs s = matched true s
  match_elems h (elem p ps) no_items s = no_match s
  match_elems h (elem p ps) (item v vs) s = both_match (match_pattern h p v) (match_elems h ps vs) s

  pub match_fields : Host → AstFieldPatterns → HVal → EvalState → Result Bool
  match_fields h no_field_patterns v s = matched true s
  match_fields h (field_pattern name p rest) v s =
      both_match (on_present (match_pattern h p) (record_get v name)) (match_fields h rest v) s

unfoldable pub evaluator_init : EvalState
evaluator_init = record {
  env = [];
  env_capacity = 0;
  input_record = none;
  had_error = false;
  error = [];
}

-- The body is NULL where the program has no function.
unfoldable pub evaluator_eval : Host → AstMaybeExpr → HVal → EvalState → Result HVal
evaluator_eval h no_expr input s =
    eval_error (codes "no function body to evaluate")
      (record s { env = []; input_record = some input; had_error = false })
evaluator_eval h (just_expr body) input s =
    eval_expr h body (record s { env = []; input_record = some input; had_error = false })
