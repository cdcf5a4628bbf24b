-- ===== src/Evaluator/Parts.antt =====
-- What `eval_expr` and `match_pattern` of src/evaluator.c do around their recursive calls: the
-- guards, the scopes, the loops and the tests, each with the calls as its arguments.
use heluna_language.Common.{
  ℕ, zero, suc, Bool, true, false, ◌&&◌, Option, none, some, ◌∷◌, ◌++◌, leb, ◌==◌, if◌then◌else◌,
  Bytes, codes,
}
use heluna_language.Common.Int.{leb_ℤ}
use heluna_language.Value.{
  Double, Doubles, HVal, HVals, val_integer, val_float, val_nothing, val_record, val_list, no_items,
  item, record_get, count_items,
}
use heluna_language.Ast.{AstPatternElems, no_elems, elem}
use heluna_language.Evaluator.State.{
  M, Result, EvalState, pure, returned, null, undefined, on_result, eval_error, env_push,
  env_restore, env_mark, env_lookup, ◌>>=◌,
}
use heluna_language.Evaluator.Operators.{is_true}

-- `if (!e || ev->had_error) return NULL;`
abbrev pub unless_error : {A : Type 0} → M A → M A
unless_error m s = if s.had_error then null s else m s

abbrev pub found : Option HVal → Bytes → M HVal
found (some v) text = pure v
found none text = eval_error text

unfoldable pub ident : Bytes → M HVal
ident name s = found (env_lookup s name) (codes "undefined identifier '" ++ name ++ codes "'") s

unfoldable pub input_field : Option HVal → Bytes → M HVal
input_field (some (val_record fs)) name =
    found (record_get (val_record fs) name) (codes "input field '$" ++ name ++ codes "' not found")
input_field _ name = eval_error (codes "no input record for '$" ++ name ++ codes "'")

unfoldable pub input_ref : Bytes → M HVal
unfolding input_field
input_ref name s = input_field s.input_record name s

unfoldable pub access : HVal → Bytes → M HVal
access (val_record fs) name =
    found (record_get (val_record fs) name)
      (codes "field '" ++ name ++ codes "' not found in record")
access _ name = eval_error (codes "field access on non-record value")

-- `ev->env_count = mark; return result;`
abbrev pub finish : ℕ → Result HVal → Result HVal
finish mark r =
    on_result r (λ v t. returned v (env_restore mark t)) (λ t. null (env_restore mark t))

-- `run` in a scope of one more entry.
abbrev pub in_scope : Bytes → HVal → M HVal → M HVal
in_scope name v run s = finish (env_mark s) (run (env_push name v s))

-- The loops of filter and map. Each round first puts the environment back to the mark.
unfoldable pub filter_loop : ℕ → Bytes → M HVal → HVals → M HVals
filter_loop mark name run no_items s = returned no_items (env_restore mark s)
filter_loop mark name run (item v vs) s =
    on_result (run (env_push name v (env_restore mark s)))
      (λ test t.
        on_result (filter_loop mark name run vs t)
          (λ rest u. returned (if is_true test then item v rest else rest) u) null)
      null

unfoldable pub map_loop : ℕ → Bytes → M HVal → HVals → M HVals
map_loop mark name run no_items s = returned no_items (env_restore mark s)
map_loop mark name run (item v vs) s =
    on_result (run (env_push name v (env_restore mark s)))
      (λ w t. on_result (map_loop mark name run vs t) (λ rest u. returned (item w rest) u) null)
      null

unfoldable pub filter_list : Bytes → Bytes → M HVal → HVal → M HVal
filter_list text name run (val_list vs) s =
    on_result (filter_loop (env_mark s) name run vs s) (λ rest u. returned (val_list rest) u) null
filter_list text name run _ s = eval_error text s

unfoldable pub map_list : Bytes → Bytes → M HVal → HVal → M HVal
map_list text name run (val_list vs) s =
    on_result (map_loop (env_mark s) name run vs s) (λ rest u. returned (val_list rest) u) null
map_list text name run _ s = eval_error text s

abbrev number : Doubles → HVal → Option Double
number dbl (val_float d) = some d
number dbl (val_integer n) = some (dbl.of_int n)
number dbl _ = none

abbrev float_range : Doubles → Option Double → Option Double → Option Double → Bool
float_range dbl (some lo) (some hi) (some v) = dbl.leb lo v && dbl.leb v hi
float_range dbl _ _ _ = false

unfoldable pub in_range : Doubles → HVal → HVal → HVal → Bool
in_range dbl (val_integer lo) (val_integer hi) (val_integer v) = leb_ℤ lo v && leb_ℤ v hi
in_range dbl lo hi v = float_range dbl (number dbl lo) (number dbl hi) (number dbl v)

-- `if` and the `or else` of an absent value.
abbrev pub choose : Bool → M HVal → M HVal → M HVal
choose test yes_run no_run s = elim test [ true ↦ yes_run s | false ↦ no_run s ]

abbrev pub or_else : HVal → M HVal → M HVal
or_else val_nothing fallback = fallback
or_else v fallback = pure v

-- What `match_pattern` returns; a NULL from an evaluation inside it is no match.
abbrev pub matched : Bool → EvalState → Result Bool
matched = returned

abbrev pub no_match : EvalState → Result Bool
no_match = matched false

abbrev pub both_match :
    (EvalState → Result Bool) → (EvalState → Result Bool) → EvalState → Result Bool
both_match first second s =
    on_result (first s) (λ m t. elim m [ true ↦ second t | false ↦ no_match t ]) no_match

-- Both ends of a range are evaluated, also where the first one fails.
abbrev pub both_ends : Doubles → HVal → Option HVal → Option HVal → Bool
both_ends dbl v (some lo) (some hi) = in_range dbl lo hi v
both_ends dbl v _ _ = false

-- A NULL as a value.
abbrev pub as_option : Result HVal → Result (Option HVal)
as_option (returned v t) = returned (some v) t
as_option (null t) = returned none t
as_option undefined = undefined

abbrev pub attempt : M HVal → M (Option HVal)
attempt m s = as_option (m s)

unfoldable pub match_range : Doubles → M HVal → M HVal → HVal → M Bool
match_range dbl low high v = do lo ← attempt low; hi ← attempt high; pure (both_ends dbl v lo hi)

unfoldable pub count_elems : AstPatternElems → ℕ
count_elems no_elems = 0
count_elems (elem _ ps) = suc (count_elems ps)

abbrev pub lengths_agree : Option Bytes → ℕ → ℕ → Bool
lengths_agree none vals pats = vals == pats
lengths_agree (some _) vals pats = leb pats vals

-- A named rest is bound, an unnamed one is not.
abbrev pub bind_rest : Option Bytes → HVals → EvalState → Result Bool
bind_rest (some (c ∷ cs)) rest s = matched true (env_push (c ∷ cs) (val_list rest) s)
bind_rest _ rest s = matched true s

unfoldable pub rest_after : ℕ → HVals → HVals
rest_after zero vs = vs
rest_after (suc n) no_items = no_items
rest_after (suc n) (item _ vs) = rest_after n vs

-- `run` reads a list value's items.
abbrev pub on_items : (HVals → EvalState → Result Bool) → HVal → EvalState → Result Bool
on_items run (val_list vs) s = run vs s
on_items run _ s = no_match s

abbrev pub on_fields : (HVal → EvalState → Result Bool) → HVal → EvalState → Result Bool
on_fields run (val_record fs) s = run (val_record fs) s
on_fields run _ s = no_match s

abbrev pub on_present : (HVal → EvalState → Result Bool) → Option HVal → EvalState → Result Bool
on_present run (some v) s = run v s
on_present run none s = no_match s

-- One clause of a match: if the pattern matches and the guard holds the body is run, and else the
-- other clauses, with the environment put back.
abbrev pub run_clause : (EvalState → Result Bool) → M Bool → M HVal → M HVal → M HVal
run_clause pattern guard body others s =
    on_result (pattern s)
      (λ m t. elim m [
        | true ↦
            on_result (guard t)
              (λ g u. elim g [
                | true ↦ finish (env_mark s) (body u)
                | false ↦ others (env_restore (env_mark s) u)
              ])
              null
        | false ↦ others (env_restore (env_mark s) t)
      ])
      null

abbrev pub lengths_checked :
    AstPatternElems
    → Option Bytes
    → (HVals → EvalState → Result Bool)
    → HVals
    → EvalState
    → Result Bool
lengths_checked ps rest run vs s =
    if lengths_agree rest (count_items vs) (count_elems ps)
    then both_match (run vs) (bind_rest rest (rest_after (count_elems ps) vs)) s
    else no_match s
