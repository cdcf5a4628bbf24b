-- ===== src/Evaluator/Discipline.antt =====
-- Evaluating an expression puts the environment back.
use heluna_language.Common.{
  refl, Bool, true, false, Option, none, some, [], ◌∷◌, if◌then◌else◌, Bytes,
}
use heluna_language.Value.{
  Doubles, HVal, HVals, val_record, val_list, no_items, item, record_get, count_items,
}
use heluna_language.Ast.{
  AstExpr, AstMaybeExpr, AstIfBranches, AstWhenClauses, AstLabels, AstElements, AstPattern,
  AstPatternElems, AstFieldPatterns, expr_integer, expr_float, expr_string, expr_true, expr_false,
  expr_nothing, expr_ident, expr_input_ref, expr_binary, expr_unary_neg, expr_not, expr_if,
  expr_match, expr_let, expr_filter, expr_map, expr_through, expr_call, expr_record, expr_list,
  expr_access, expr_paren, expr_lookup, expr_is_type, expr_or_else, no_expr, just_expr, no_branches,
  if_branch, else_branch, no_clauses, when_clause, no_labels, label, no_elements, element, pat_null,
  pat_literal, pat_wildcard, pat_binding, pat_range, pat_list, pat_record, no_elems, elem,
  no_field_patterns, field_pattern,
}
use heluna_language.Evaluator.State.{
  M, Result, EvalState, pure, returned, null, undefined, on_result, env_push, ◌>>=◌,
}
use heluna_language.Stdlib.{stdlib_call}
use heluna_language.Evaluator.Equal.{Host, hval_equal}
use heluna_language.Evaluator.Operators.{is_true, inject_value}
use heluna_language.Evaluator.Parts.{
  match_range, attempt, as_option, matched, no_match, both_match, lengths_checked, lengths_agree,
  bind_rest, on_items, on_present, count_elems, rest_after,
}
use heluna_language.Evaluator.Eval.{
  eval_expr, eval_maybe, eval_guard, eval_branches, eval_clauses, eval_labels, eval_elements,
  match_pattern, match_elems, match_fields,
}
use heluna_language.Evaluator.Scopes.{
  Balanced, Growing, Growing-below, KeepsEnv, GrowsEnv, Extends-refl, eval_error-KeepsEnv,
  unless_error-KeepsEnv, bind-KeepsEnv, in_scope-KeepsEnv, filter_list-KeepsEnv, map_list-KeepsEnv,
  choose-KeepsEnv, both_match-GrowsEnv, run_clause-KeepsEnv,
}
use heluna_language.Evaluator.Steady.{
  binary_op-KeepsEnv, negate-KeepsEnv, invert-KeepsEnv, ident-KeepsEnv, input_ref-KeepsEnv,
  access-KeepsEnv, call_result-KeepsEnv, through_result-KeepsEnv, or_else-KeepsEnv,
}

-- An evaluation inside a pattern, whose NULL is taken as a value.
attempt-GrowsEnv : (m : M HVal) → KeepsEnv m → GrowsEnv (attempt m)
attempt-GrowsEnv m h s = go (m s) (h s)
  where
    go : (r : Result HVal) → Balanced s.env r → Growing s.env (as_option r)
    go (returned v t) e = ([], e)
    go (null t) e = e
    go undefined e = tt

bind-GrowsEnv :
    {A B : Type 0} (m : M A) (f : A → M B)
    → GrowsEnv m
    → ((a : A) → GrowsEnv (f a))
    → GrowsEnv (m >>= f)
bind-GrowsEnv {A} m f h k s = go (m s) (h s)
  where
    go : (r : Result A) → Growing s.env r → Growing s.env (on_result r f null)
    go (returned a t) e = Growing-below (f a t) e (k a t)
    go (null t) e = e
    go undefined e = tt

match_literal-GrowsEnv :
    (m : M HVal) (test : HVal → Bool)
    → KeepsEnv m
    → GrowsEnv (λ s. on_result (m s) (λ v t. matched (test v) t) no_match)
match_literal-GrowsEnv m test h s = go (m s) (h s)
  where
    go :
        (r : Result HVal)
        → Balanced s.env r
        → Growing s.env (on_result r (λ v t. matched (test v) t) no_match)
    go (returned v t) e = ([], e)
    go (null t) e = e
    go undefined e = tt

match_range-GrowsEnv :
    (dbl : Doubles) (low high : M HVal) (v : HVal)
    → KeepsEnv low
    → KeepsEnv high
    → GrowsEnv (match_range dbl low high v)
unfolding match_range
match_range-GrowsEnv dbl low high v h k =
    bind-GrowsEnv (attempt low) _ (attempt-GrowsEnv low h)
      λ lo. bind-GrowsEnv (attempt high) _ (attempt-GrowsEnv high k) λ hi s. Extends-refl s.env

bind_rest-GrowsEnv : (rest : Option Bytes) (vs : HVals) → GrowsEnv (bind_rest rest vs)
unfolding env_push
bind_rest-GrowsEnv (some (c ∷ cs)) vs s = (record { name = c ∷ cs; value = val_list vs } ∷ [], refl)
bind_rest-GrowsEnv (some []) vs s = Extends-refl s.env
bind_rest-GrowsEnv none vs s = Extends-refl s.env

match_list-GrowsEnv :
    (ps : AstPatternElems) (rest : Option Bytes) (run : HVals → M Bool) (v : HVal)
    → ((vs : HVals) → GrowsEnv (run vs))
    → GrowsEnv (on_items (lengths_checked ps rest run) v)
match_list-GrowsEnv ps rest run (val_list vs) h s =
    go (lengths_agree rest (count_items vs) (count_elems ps))
  where
    both : M Bool
    both = both_match (run vs) (bind_rest rest (rest_after (count_elems ps) vs))

    go : (b : Bool) → Growing s.env (if b then both s else no_match s)
    go true = both_match-GrowsEnv (run vs) _ (h vs) (bind_rest-GrowsEnv rest _) s
    go false = Extends-refl s.env
match_list-GrowsEnv ps rest run _ h s = Extends-refl s.env

on_present-GrowsEnv :
    (run : HVal → M Bool) (o : Option HVal)
    → ((v : HVal) → GrowsEnv (run v))
    → GrowsEnv (on_present run o)
on_present-GrowsEnv run (some v) h s = h v s
on_present-GrowsEnv run none h s = Extends-refl s.env

mutual
  unfolding eval_expr env_push

  eval_expr-KeepsEnv : (h : Host) (e : AstExpr) → KeepsEnv (eval_expr h e)
  eval_expr-KeepsEnv h (expr_integer n) = unless_error-KeepsEnv _ (λ s. refl)
  eval_expr-KeepsEnv h (expr_float d) = unless_error-KeepsEnv _ (λ s. refl)
  eval_expr-KeepsEnv h (expr_string raw) = unless_error-KeepsEnv _ (λ s. refl)
  eval_expr-KeepsEnv h expr_true = unless_error-KeepsEnv _ (λ s. refl)
  eval_expr-KeepsEnv h expr_false = unless_error-KeepsEnv _ (λ s. refl)
  eval_expr-KeepsEnv h expr_nothing = unless_error-KeepsEnv _ (λ s. refl)
  eval_expr-KeepsEnv h (expr_ident name) = unless_error-KeepsEnv _ (ident-KeepsEnv name)
  eval_expr-KeepsEnv h (expr_input_ref name) = unless_error-KeepsEnv _ (input_ref-KeepsEnv name)
  eval_expr-KeepsEnv h (expr_binary op l r) = unless_error-KeepsEnv _ (
      bind-KeepsEnv (eval_expr h l) _ (eval_expr-KeepsEnv h l) λ a.
        bind-KeepsEnv (eval_expr h r) _ (eval_expr-KeepsEnv h r) λ b. binary_op-KeepsEnv h op a b)
  eval_expr-KeepsEnv h (expr_unary_neg e) =
      unless_error-KeepsEnv _
        (bind-KeepsEnv (eval_expr h e) _ (eval_expr-KeepsEnv h e) (negate-KeepsEnv h.doubles))
  eval_expr-KeepsEnv h (expr_not e) =
      unless_error-KeepsEnv _
        (bind-KeepsEnv (eval_expr h e) _ (eval_expr-KeepsEnv h e) invert-KeepsEnv)
  eval_expr-KeepsEnv h (expr_if branches) =
      unless_error-KeepsEnv _ (eval_branches-KeepsEnv h branches)
  eval_expr-KeepsEnv h (expr_match subject clauses otherwise) = unless_error-KeepsEnv _ (
      bind-KeepsEnv (eval_expr h subject) _ (eval_expr-KeepsEnv h subject)
        λ v. eval_clauses-KeepsEnv h clauses v _ (eval_maybe-KeepsEnv h otherwise))
  eval_expr-KeepsEnv h (expr_let name binding body) = unless_error-KeepsEnv _ (
      bind-KeepsEnv (eval_expr h binding) _ (eval_expr-KeepsEnv h binding)
        λ v. in_scope-KeepsEnv name v _ (eval_expr-KeepsEnv h body))
  eval_expr-KeepsEnv h (expr_filter list name test) = unless_error-KeepsEnv _ (
      bind-KeepsEnv (eval_expr h list) _ (eval_expr-KeepsEnv h list)
        λ v. filter_list-KeepsEnv _ name _ v (eval_expr-KeepsEnv h test))
  eval_expr-KeepsEnv h (expr_map list name body) = unless_error-KeepsEnv _ (
      bind-KeepsEnv (eval_expr h list) _ (eval_expr-KeepsEnv h list)
        λ v. map_list-KeepsEnv _ name _ v (eval_expr-KeepsEnv h body))
  eval_expr-KeepsEnv h (expr_through left (expr_call name arg)) = unless_error-KeepsEnv _ (
      bind-KeepsEnv (eval_expr h left) _ (eval_expr-KeepsEnv h left) λ v.
        bind-KeepsEnv (eval_expr h arg) _ (eval_expr-KeepsEnv h arg)
          λ a. through_result-KeepsEnv (stdlib_call h.doubles name (inject_value v a)))
  eval_expr-KeepsEnv h (expr_through left (expr_filter list name test)) = unless_error-KeepsEnv _ (
      bind-KeepsEnv (eval_expr h left) _ (eval_expr-KeepsEnv h left)
        λ v. filter_list-KeepsEnv _ name _ v (eval_expr-KeepsEnv h test))
  eval_expr-KeepsEnv h (expr_through left (expr_map list name body)) = unless_error-KeepsEnv _ (
      bind-KeepsEnv (eval_expr h left) _ (eval_expr-KeepsEnv h left)
        λ v. map_list-KeepsEnv _ name _ v (eval_expr-KeepsEnv h body))
  eval_expr-KeepsEnv h (expr_through left other) = unless_error-KeepsEnv _ (
      bind-KeepsEnv (eval_expr h left) _ (eval_expr-KeepsEnv h left)
        λ v. eval_error-KeepsEnv HVal _)
  eval_expr-KeepsEnv h (expr_call name arg) = unless_error-KeepsEnv _ (
      bind-KeepsEnv (eval_expr h arg) _ (eval_expr-KeepsEnv h arg)
        λ a. call_result-KeepsEnv (stdlib_call h.doubles name a))
  eval_expr-KeepsEnv h (expr_record labels) =
      unless_error-KeepsEnv _
        (bind-KeepsEnv (eval_labels h labels) _ (eval_labels-KeepsEnv h labels) λ fs s. refl)
  eval_expr-KeepsEnv h (expr_list elements) =
      unless_error-KeepsEnv _ (
        bind-KeepsEnv (eval_elements h elements) _ (eval_elements-KeepsEnv h elements) λ vs s. refl)
  eval_expr-KeepsEnv h (expr_access object name) = unless_error-KeepsEnv _ (
      bind-KeepsEnv (eval_expr h object) _ (eval_expr-KeepsEnv h object)
        λ v. access-KeepsEnv v name)
  eval_expr-KeepsEnv h (expr_paren e) = unless_error-KeepsEnv _ (eval_expr-KeepsEnv h e)
  eval_expr-KeepsEnv h (expr_lookup source keys) = unless_error-KeepsEnv _ (λ s. refl)
  eval_expr-KeepsEnv h (expr_is_type e name) =
      unless_error-KeepsEnv _ (bind-KeepsEnv (eval_expr h e) _ (eval_expr-KeepsEnv h e) λ v s. refl)
  eval_expr-KeepsEnv h (expr_or_else primary fallback) = unless_error-KeepsEnv _ (
      bind-KeepsEnv (eval_expr h primary) _ (eval_expr-KeepsEnv h primary)
        λ v. or_else-KeepsEnv v _ (eval_expr-KeepsEnv h fallback))

  eval_maybe-KeepsEnv : (h : Host) (e : AstMaybeExpr) → KeepsEnv (eval_maybe h e)
  eval_maybe-KeepsEnv h no_expr s = refl
  eval_maybe-KeepsEnv h (just_expr e) s = eval_expr-KeepsEnv h e s

  eval_guard-KeepsEnv : (h : Host) (e : AstMaybeExpr) → KeepsEnv (eval_guard h e)
  eval_guard-KeepsEnv h no_expr s = refl
  eval_guard-KeepsEnv h (just_expr e) s =
      bind-KeepsEnv (eval_expr h e) (λ v. pure (is_true v)) (eval_expr-KeepsEnv h e) (λ v t. refl) s

  eval_branches-KeepsEnv : (h : Host) (b : AstIfBranches) → KeepsEnv (eval_branches h b)
  eval_branches-KeepsEnv h no_branches s = refl
  eval_branches-KeepsEnv h (if_branch c body rest) s =
      bind-KeepsEnv (eval_expr h c) _ (eval_expr-KeepsEnv h c)
        (λ v.
          choose-KeepsEnv (is_true v) _ _ (eval_expr-KeepsEnv h body)
            (eval_branches-KeepsEnv h rest))
        s
  eval_branches-KeepsEnv h (else_branch body rest) s = eval_expr-KeepsEnv h body s

  eval_clauses-KeepsEnv :
      (h : Host) (cs : AstWhenClauses) (v : HVal) (otherwise : M HVal)
      → KeepsEnv otherwise
      → KeepsEnv (eval_clauses h cs v otherwise)
  eval_clauses-KeepsEnv h no_clauses v otherwise o = o
  eval_clauses-KeepsEnv h (when_clause pattern guard body rest) v otherwise o =
      run_clause-KeepsEnv _ _ _ _ (match_pattern-GrowsEnv h pattern v) (eval_guard-KeepsEnv h guard)
        (eval_expr-KeepsEnv h body) (eval_clauses-KeepsEnv h rest v otherwise o)

  eval_labels-KeepsEnv : (h : Host) (ls : AstLabels) → KeepsEnv (eval_labels h ls)
  eval_labels-KeepsEnv h no_labels s = refl
  eval_labels-KeepsEnv h (label name e rest) s =
      bind-KeepsEnv (eval_expr h e) _ (eval_expr-KeepsEnv h e)
        (λ v. bind-KeepsEnv (eval_labels h rest) _ (eval_labels-KeepsEnv h rest) λ fs t. refl) s

  eval_elements-KeepsEnv : (h : Host) (es : AstElements) → KeepsEnv (eval_elements h es)
  eval_elements-KeepsEnv h no_elements s = refl
  eval_elements-KeepsEnv h (element e rest) s =
      bind-KeepsEnv (eval_expr h e) _ (eval_expr-KeepsEnv h e)
        (λ v. bind-KeepsEnv (eval_elements h rest) _ (eval_elements-KeepsEnv h rest) λ vs t. refl) s

  match_pattern-GrowsEnv : (h : Host) (p : AstPattern) (v : HVal) → GrowsEnv (match_pattern h p v)
  match_pattern-GrowsEnv h pat_null v s = Extends-refl s.env
  match_pattern-GrowsEnv h pat_wildcard v s = Extends-refl s.env
  match_pattern-GrowsEnv h (pat_binding name) v s = (record { name = name; value = v } ∷ [], refl)
  match_pattern-GrowsEnv h (pat_literal e) v s =
      match_literal-GrowsEnv (eval_expr h e) (λ lit. hval_equal h lit v) (eval_expr-KeepsEnv h e) s
  match_pattern-GrowsEnv h (pat_range low high) v s =
      match_range-GrowsEnv h.doubles _ _ v (eval_expr-KeepsEnv h low) (eval_expr-KeepsEnv h high) s
  match_pattern-GrowsEnv h (pat_list elems rest) v s =
      match_list-GrowsEnv elems rest (match_elems h elems) v (match_elems-GrowsEnv h elems) s
  match_pattern-GrowsEnv h (pat_record fields) (val_record fs) s =
      match_fields-GrowsEnv h fields (val_record fs) s
  match_pattern-GrowsEnv h (pat_record fields) v s = Extends-refl s.env

  match_elems-GrowsEnv :
      (h : Host) (ps : AstPatternElems) (vs : HVals) → GrowsEnv (match_elems h ps vs)
  match_elems-GrowsEnv h no_elems vs s = Extends-refl s.env
  match_elems-GrowsEnv h (elem p ps) no_items s = Extends-refl s.env
  match_elems-GrowsEnv h (elem p ps) (item v vs) s =
      both_match-GrowsEnv _ _ (match_pattern-GrowsEnv h p v) (match_elems-GrowsEnv h ps vs) s

  match_fields-GrowsEnv :
      (h : Host) (ps : AstFieldPatterns) (v : HVal) → GrowsEnv (match_fields h ps v)
  match_fields-GrowsEnv h no_field_patterns v s = Extends-refl s.env
  match_fields-GrowsEnv h (field_pattern name p rest) v s =
      both_match-GrowsEnv _ _
        (on_present-GrowsEnv _ (record_get v name) (match_pattern-GrowsEnv h p))
        (match_fields-GrowsEnv h rest v) s

-- Whatever an expression does, in whatever state: where `eval_expr` returns a value the environment
-- is the one that it started with, and where it returns NULL that one is still there, at most
-- with entries on top. So a mark taken before a call stays good behind it.
pub eval_expr-Balanced : (h : Host) (e : AstExpr) (s : EvalState) → Balanced s.env (eval_expr h e s)
eval_expr-Balanced = eval_expr-KeepsEnv
