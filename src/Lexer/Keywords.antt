-- ===== src/Lexer/Keywords.antt =====
-- The keyword table of src/lexer.c.
use heluna_language.Common.{List, [], ◌∷◌, if◌then◌else◌, Bytes, codes, str_eq}
use heluna_language.Token.{
  TokenKind, tok_true, tok_false, tok_nothing, tok_ident, tok_contract, tok_uses, tok_using,
  tok_tags, tok_tagged, tok_sanitizers, tok_strips, tok_input, tok_output, tok_rules, tok_forbid,
  tok_require, tok_reject, tok_tests, tok_test, tok_given, tok_expect, tok_source, tok_sources,
  tok_keyed_by, tok_returns, tok_lookup, tok_config, tok_as, tok_string_type, tok_integer_type,
  tok_float_type, tok_boolean_type, tok_maybe, tok_list, tok_of, tok_record, tok_define, tok_with,
  tok_let, tok_be, tok_result, tok_if, tok_then, tok_else, tok_end, tok_match, tok_when,
  tok_between, tok_and, tok_or, tok_not, tok_in, tok_is, tok_through, tok_map, tok_mod, tok_do,
  tok_filter, tok_where,
}

abbrev pub Keyword : Type 0
Keyword = Bytes × TokenKind

abbrev pub keywords : List Keyword
keywords =
    (codes "and", tok_and)
    ∷ (codes "as", tok_as)
    ∷ (codes "be", tok_be)
    ∷ (codes "between", tok_between)
    ∷ (codes "boolean", tok_boolean_type)
    ∷ (codes "config", tok_config)
    ∷ (codes "contract", tok_contract)
    ∷ (codes "define", tok_define)
    ∷ (codes "do", tok_do)
    ∷ (codes "else", tok_else)
    ∷ (codes "end", tok_end)
    ∷ (codes "expect", tok_expect)
    ∷ (codes "false", tok_false)
    ∷ (codes "filter", tok_filter)
    ∷ (codes "float", tok_float_type)
    ∷ (codes "forbid", tok_forbid)
    ∷ (codes "given", tok_given)
    ∷ (codes "if", tok_if)
    ∷ (codes "in", tok_in)
    ∷ (codes "input", tok_input)
    ∷ (codes "integer", tok_integer_type)
    ∷ (codes "is", tok_is)
    ∷ (codes "keyed-by", tok_keyed_by)
    ∷ (codes "let", tok_let)
    ∷ (codes "list", tok_list)
    ∷ (codes "lookup", tok_lookup)
    ∷ (codes "map", tok_map)
    ∷ (codes "match", tok_match)
    ∷ (codes "maybe", tok_maybe)
    ∷ (codes "mod", tok_mod)
    ∷ (codes "not", tok_not)
    ∷ (codes "nothing", tok_nothing)
    ∷ (codes "of", tok_of)
    ∷ (codes "or", tok_or)
    ∷ (codes "output", tok_output)
    ∷ (codes "record", tok_record)
    ∷ (codes "reject", tok_reject)
    ∷ (codes "require", tok_require)
    ∷ (codes "result", tok_result)
    ∷ (codes "returns", tok_returns)
    ∷ (codes "rules", tok_rules)
    ∷ (codes "sanitizers", tok_sanitizers)
    ∷ (codes "source", tok_source)
    ∷ (codes "sources", tok_sources)
    ∷ (codes "string", tok_string_type)
    ∷ (codes "strips", tok_strips)
    ∷ (codes "tagged", tok_tagged)
    ∷ (codes "tags", tok_tags)
    ∷ (codes "test", tok_test)
    ∷ (codes "tests", tok_tests)
    ∷ (codes "then", tok_then)
    ∷ (codes "through", tok_through)
    ∷ (codes "true", tok_true)
    ∷ (codes "uses", tok_uses)
    ∷ (codes "using", tok_using)
    ∷ (codes "when", tok_when)
    ∷ (codes "where", tok_where)
    ∷ (codes "with", tok_with)
    ∷ []

-- The comparison of `lookup_keyword`: equal lengths and equal bytes.
unfoldable pub lookup_in : List Keyword → Bytes → TokenKind
lookup_in [] word = tok_ident
lookup_in ((w, k) ∷ rest) word = if str_eq w word then k else lookup_in rest word

unfoldable pub lookup_keyword : Bytes → TokenKind
unfolding lookup_in str_eq
lookup_keyword = lookup_in keywords
