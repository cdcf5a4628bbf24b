-- ===== src/Tests.antt =====
-- The theorems at concrete inputs, and runs of the definitions.
mod Packets
mod Passes
mod Library
mod Machine
use heluna_language.Common.{
  ◌+◌, ◌-◌, ◌*◌, ◌/◌, ◌^◌, ◌≤◌, ◌<◌, ◌≡◌, ◌≢◌, ◌↔◌, ◌⊎◌, refl, true, false, Option, none, some,
  List, [], ◌∷◌, ◌++◌, ltb, leb, ◌==◌, Bytes, codes, arith, All, length, DanglingEscape,
}
use heluna_language.Common.Int.{◌+ℤ◌, pos, negsuc, nat_abs}
use heluna_language.Value.{
  Doubles, HVal, val_integer, val_string, val_boolean, val_nothing, val_record, val_list, no_fields,
  field, no_items, item,
}
use heluna_language.Arena.{
  Arena, alloc_all, arena_alloc, arena_create, block_create, bump, append_block, align_up,
}
use heluna_language.Arena.Bounds.{IsValid, arena_create-IsValid}
use heluna_language.Arena.Regions.{Region, Inside, Ordered, alloc_all-disjoint}
use heluna_language.Json.Numbers.{digits, read_digits, print_int, strtoll, strtoll-print_int}
use heluna_language.Json.Strings.{
  parse_string, emit_byte, emit_bytes, emit_string, scan_text, buffer_size, buffer_written,
}
use heluna_language.Json.Escapes.{read_back_all-eq_iff, Printable}
use heluna_language.Json.Buffers.{buffer_written-lt_iff}
use heluna_language.Json.Emitter.{json_emit}
use heluna_language.Json.Parser.{json_parse, parse_value, parsed}
use heluna_language.Json.Safe.{IsSafe}
use heluna_language.Token.{tok_error, Token, tok_let, tok_eof, token_kind_name}
use heluna_language.Lexer.Keywords.{lookup_keyword, lookup_in}
use heluna_language.Lexer.Cursor.{Lexer, lexer_init, over, advance_while}
use heluna_language.Lexer.Scan.{
  lexer_next, lexer_peek, next_in, scan_from, scan_identifier, make_token,
}
use heluna_language.Lexer.Moves.{IntSized}
use heluna_language.Lexer.Tokens.{Split, lexer_next-Split}
use heluna_language.Lexer.Faults.{
  ReadsPast, lexer_next-eq-none_iff, Tokenizes, MayReadPast, tokens_total,
}
use heluna_language.Ast.{
  AstExpr, bin_add, bin_mul, expr_integer, expr_ident, expr_input_ref, expr_binary, expr_let,
  expr_list, expr_map, expr_call, expr_match, expr_record, element, no_elements, label, no_labels,
  when_clause, no_clauses, no_expr, pat_list, pat_binding, elem, no_elems,
}
use heluna_language.Stdlib.{value, fold_over, trim}
use heluna_language.Stdlib.Folds.{integers, sum, fold_over-sum}
use heluna_language.Stdlib.Texts.{Blank, head_is_space, last_is_space, trim_lem}
use mathlib.Core.List.{map}
use heluna_language.Stdlib.{to_lower, to_upper}
use heluna_language.Lexer.Peeking.{lexer_peek-eq_iff}
use heluna_language.Lexer.Scan.{lexer_peek}
use heluna_language.Value.{field_get}
use heluna_language.Common.{str_eq}
use heluna_language.Evaluator.Equal.{hval_equal}
use heluna_language.Evaluator.Reflexive.{IsRegular, hval_equal_refl}
use heluna_language.Lexer.Tiles.{Tiles, tokens-Tiles}
use heluna_language.Lexer.Scan.{tokens}
use heluna_language.Token.{tok_ident}
use heluna_language.Ast.{bin_div, bin_mod}
use heluna_language.Evaluator.Operators.{binary_op}
use heluna_language.Evaluator.Division.{DivMod, binary_op-DivMod}
use heluna_language.Json.Settles.{Settles}
use heluna_language.Json.Fuel.{json_parse-Settles}
use heluna_language.Evaluator.Text.{resolve, out_length, length-resolve}
use heluna_language.Evaluator.State.{EvalState, Result, returned}
use heluna_language.Evaluator.Equal.{Host}
use heluna_language.Evaluator.Eval.{eval_expr, evaluator_init}
use heluna_language.Evaluator.Scopes.{Balanced}
use heluna_language.Evaluator.Discipline.{eval_expr-Balanced}
use heluna_language.Json.RoundTrip.{json_parse-json_emit}

-- Doubles that are natural numbers.
abbrev naturals : Doubles
naturals = record {
  add = λ a b. a + b;
  sub = λ a b. a - b;
  mul = λ a b. a * b;
  div = λ a b. a / b;
  neg = λ a. a;
  fabs = λ a. a;
  fmax = λ a b. a + b;
  eqb = λ a b. a == b;
  ltb = λ a b. ltb a b;
  leb = λ a b. leb a b;
  zero = 0;
  tolerance = 0;
  of_int = nat_abs;
  to_int = λ a. some (pos a);
  strtod = read_digits 0;
  print_g = λ a. digits (a + 1) a;
  print_17g = λ a. digits (a + 1) a;
}

-- {"a": [-5, "x\n", true], "b": null}
abbrev sample : HVal
sample = val_record (
    field (codes "a")
      (val_list (
        item (val_integer (negsuc 4))
          (item (val_string (b'x' ∷ b'\n' ∷ [])) (item (val_boolean true) no_items))))
      (field (codes "b") val_nothing no_fields))

sample-IsSafe : IsSafe sample
unfolding IsSafe
sample-IsSafe = ((refl, tt), (omega arith, ((refl, (refl, tt)), (tt, tt))), ((refl, tt), tt, tt))

json_parse-json_emit_example : json_parse naturals (json_emit naturals sample) ≡ parsed sample []
json_parse-json_emit_example = json_parse-json_emit naturals sample sample-IsSafe

read_back_all-eq_iff_example :
    (parse_string (emit_bytes (codes "a\"b") ++ b'"' ∷ codes ", 1") ≡ (codes "a\"b", codes ", 1"))
    ↔ Printable (codes "a\"b")
read_back_all-eq_iff_example = read_back_all-eq_iff (codes "a\"b") (codes ", 1")

buffer_written-lt_iff_example :
    ((buffer_size (scan_text (codes "ab\\")) < buffer_written (scan_text (codes "ab\\")))
      ↔ DanglingEscape (codes "ab\\"))
    × (buffer_written (scan_text (codes "ab\\")) ≤ buffer_size (scan_text (codes "ab\\")) + 1)
    × ((scan_text (codes "ab\\")).out_len < 2 ^ 31)
buffer_written-lt_iff_example = buffer_written-lt_iff (codes "[\"") (codes "ab\\") (omega arith)

-- An arena with one block of 64 bytes.
abbrev small : Arena
small = record { full = []; current = record { size = 64; used = 0 }; default_block_size = 64 }

small-IsValid : IsValid small
small-IsValid = record {
  blocks = tt;
  last = record { within = omega arith; aligned = refl; bounded = omega arith };
  default_bounded = omega arith;
}

-- Three requests: the third does not fit behind the others.
abbrev three_regions : List Region
three_regions =
    (record { block = 0; offset = 0 }, 10)
    ∷ (record { block = 0; offset = 16 }, 40)
    ∷ (record { block = 1; offset = 0 }, 100)
    ∷ []

abbrev after_three : Arena
after_three = record {
  full = record { size = 64; used = 56 } ∷ [];
  current = record { size = 104; used = 104 };
  default_block_size = 64;
}

alloc_three : alloc_all (λ _. true) small (10 ∷ 40 ∷ 100 ∷ []) ≡ some (three_regions, after_three)
unfolding alloc_all arena_alloc bump append_block block_create align_up
alloc_three = refl

alloc_all-disjoint_example :
    IsValid after_three × All (Inside after_three) three_regions × Ordered three_regions
alloc_all-disjoint_example =
    alloc_all-disjoint (λ _. true) small (10 ∷ 40 ∷ 100 ∷ [])
      (omega arith, (omega arith, (omega arith, tt))) small-IsValid alloc_three

create_small : arena_create (λ _. true) 64 ≡ some small
unfolding arena_create block_create
create_small = refl

-- The source `  let x` and the state behind its first token.
abbrev let_source : Lexer
let_source = record {
  source = codes "  let x";
  current = record { rest = codes "  let x"; offset = 0; line = 1; col = 1 };
  filename = codes "f";
}

lexer_init_let : lexer_init (codes "  let x") (codes "f") ≡ let_source
unfolding lexer_init
lexer_init_let = refl

abbrev let_token : Token
let_token = record {
  kind = tok_let;
  loc = record { filename = codes "f"; line = 1; col = 3 };
  start = 2;
  length = 3;
  message = [];
}

abbrev behind_let : Lexer
behind_let = record {
  source = codes "  let x";
  current = record { rest = codes " x"; offset = 5; line = 1; col = 6 };
  filename = codes "f";
}

next_let : lexer_next let_source ≡ some (let_token, behind_let)
unfolding lexer_next next_in scan_from scan_identifier make_token over advance_while lookup_keyword
    lookup_in
next_let = refl

peek_let : lexer_peek let_source ≡ some (let_token, let_source)
unfolding lexer_peek lexer_next next_in scan_from scan_identifier make_token over advance_while
    lookup_keyword lookup_in
peek_let = refl

let_source-IntSized : IntSized let_source.current
let_source-IntSized = (omega arith, omega arith, omega arith)

lexer_next-Split_example :
    (s : Split let_source let_token behind_let) × (let_token.kind ≢ tok_error
      → let_token.length ≡ length s.text)
    × IntSized behind_let.current
lexer_next-Split_example = lexer_next-Split let_source let_source-IntSized next_let

lexer_next-eq-none_iff_example : (lexer_next let_source ≡ none) ↔ ReadsPast let_source
lexer_next-eq-none_iff_example = lexer_next-eq-none_iff let_source

tokens_total_example : Tokenizes 8 let_source ⊎ MayReadPast let_source
tokens_total_example = tokens_total 8 let_source (omega arith)

name_of_eof : token_kind_name tok_eof ≡ codes "EOF"
unfolding token_kind_name
name_of_eof = refl

-- The machine without shared objects.
abbrev host : Host
host = record { doubles = naturals; same_object = λ a b. false }

-- let xs be map [1, 2] as x do x * $k in match xs when [a, ..rest] then a + length of rest
abbrev program : AstExpr
program =
    expr_let (codes "xs")
      (expr_map
        (expr_list (element (expr_integer (pos 1)) (element (expr_integer (pos 2)) no_elements)))
        (codes "x") (expr_binary bin_mul (expr_ident (codes "x")) (expr_input_ref (codes "k"))))
      (expr_match (expr_ident (codes "xs"))
        (when_clause (pat_list (elem (pat_binding (codes "a")) no_elems) (some (codes "rest")))
          no_expr
          (expr_binary bin_add (expr_ident (codes "a")) (
            expr_call (codes "length")
              (expr_record (label (codes "list") (expr_ident (codes "rest")) no_labels))))
          no_clauses)
        no_expr)

abbrev input : HVal
input = val_record (field (codes "k") (val_integer (negsuc 2)) no_fields)

-- The state in which `evaluator_eval` begins.
abbrev start_on : HVal → EvalState
start_on v = record evaluator_init { input_record = some v }

eval_expr-Balanced_example : Balanced evaluator_init.env (eval_expr host program (start_on input))
eval_expr-Balanced_example = eval_expr-Balanced host program (start_on input)

abbrev result_of : Result HVal → Option HVal
result_of (returned v s) = some v
result_of _ = none

length-resolve_example : length (resolve (codes "a\\nb")) ≡ out_length (codes "a\\nb")
length-resolve_example = length-resolve (codes "a\\nb")

fold_over-sum_example :
    fold_over naturals (codes "add") (val_integer (pos 1)) (integers (negsuc 4 ∷ pos 7 ∷ []))
    ≡ value (val_integer (pos 1 +ℤ sum (negsuc 4 ∷ pos 7 ∷ [])))
fold_over-sum_example = fold_over-sum naturals (pos 1) (negsuc 4 ∷ pos 7 ∷ []) (omega arith)

abbrev padded : Bytes
padded = codes "  a b "

trim_lem_example :
    (p q : Bytes) × (padded ≡ p ++ (trim padded ++ q))
    × Blank p
    × Blank q
    × (head_is_space (trim padded) ≡ false)
    × (last_is_space (trim padded) ≡ false)
trim_lem_example = trim_lem padded

lexer_peek-eq_iff_example : (lexer_peek let_source ≡ some (let_token, let_source)) ↔ (
    (let_source ≡ let_source) × ((next : Lexer) × (lexer_next let_source ≡ some (let_token, next))))
lexer_peek-eq_iff_example = lexer_peek-eq_iff let_source let_source let_token

sample-IsRegular : IsRegular host sample
unfolding IsRegular field_get str_eq
sample-IsRegular = (refl, (tt, (tt, (tt, tt))), (refl, tt, tt))

hval_equal_refl_example : hval_equal host sample sample ≡ true
hval_equal_refl_example = hval_equal_refl host sample sample-IsRegular

abbrev let_tokens : List Token
let_tokens =
    let_token
    ∷ record {
      kind = tok_ident;
      loc = record { filename = codes "f"; line = 1; col = 7 };
      start = 6;
      length = 1;
      message = [];
    }
    ∷ record {
      kind = tok_eof;
      loc = record { filename = codes "f"; line = 1; col = 8 };
      start = 7;
      length = 0;
      message = [];
    }
    ∷ []

tokens_let : tokens 8 let_source ≡ some let_tokens
unfolding tokens lexer_next next_in scan_from scan_identifier make_token over advance_while
    lookup_keyword lookup_in str_eq
tokens_let = refl

tokens-Tiles_example : Tiles 0 (codes "  let x") let_tokens
tokens-Tiles_example = tokens-Tiles 8 let_source let_tokens let_source-IntSized tokens_let

binary_op-DivMod_example :
    DivMod
      (negsuc 6)
      (pos 2)
      evaluator_init
      (binary_op host bin_div (val_integer (negsuc 6)) (val_integer (pos 2)) evaluator_init)
      (binary_op host bin_mod (val_integer (negsuc 6)) (val_integer (pos 2)) evaluator_init)
binary_op-DivMod_example = binary_op-DivMod host (negsuc 6) (pos 2) evaluator_init

abbrev open_text : Bytes
open_text = codes "{\"a\": [1, 2"

json_parse-Settles_example : Settles (length open_text) (json_parse naturals open_text)
json_parse-Settles_example = json_parse-Settles naturals open_text
