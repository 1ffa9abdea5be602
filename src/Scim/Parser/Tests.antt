-- ===== src/Scim/Parser/Tests.antt =====
-- The parser on concrete inputs.
use server_kit.Base.{ℕ, Text, codes, ok, err, Option, some, none, ◌≡◌, refl}
use server_kit.Scim.Ast.{
  eq, and, or, FilterNode, presence, comparison, logical, negation, value_path, number,
  empty_filter, unexpected_token,
}
use server_kit.Scim.Tokenizer.{tokenize}
use server_kit.Scim.Parser.{
  expect, value_kind, parse_value, compare_by, enclosed, attribute_kind, parse_attribute,
  unary_kind, parse_unary, loop, parse_chain, parse_and, parse_or, expect_end, parse_tokens,
  parse_scim_filter, trim, trim_start, is_white,
}
use server_kit.Scim.Parser.Printer.{loose, print}
use server_kit.Scim.Parser.Total.{Parses, parse_scim_filter-Parses}
use server_kit.Scim.Parser.RoundTrip.{parse_tokens-print}

opened : Unit {0}
unfolding tokenize print expect value_kind parse_value compare_by enclosed attribute_kind
    parse_attribute unary_kind parse_unary loop parse_chain parse_and parse_or expect_end
    parse_tokens parse_scim_filter trim trim_start is_white
opened = tt

-- A reading of numbers.
abbrev one : Text → Option ℕ
one s = some 1

abbrev a : FilterNode ℕ
a = presence (codes "a")

abbrev b : FilterNode ℕ
b = presence (codes "b")

abbrev c : FilterNode ℕ
c = comparison (codes "c") eq (number 1)

precedence :
    parse_scim_filter one (codes " a pr or b pr and c eq 1 ") ≡ ok (logical or a (logical and b c))
unfolding opened
precedence = refl

left_associative :
    parse_scim_filter one (codes "a pr and b pr and c eq 1") ≡ ok (logical and (logical and a b) c)
unfolding opened
left_associative = refl

grouped :
    parse_scim_filter one (codes "(a pr or b pr) and not (c eq 1)")
    ≡ ok (logical and (logical or a b) (negation c))
unfolding opened
grouped = refl

in_brackets :
    parse_scim_filter one (codes "emails[a pr and c eq 1]")
    ≡ ok (value_path (codes "emails") (logical and a c))
unfolding opened
in_brackets = refl

empty : parse_scim_filter one (codes "  ") ≡ err empty_filter
unfolding opened
empty = refl

trailing : parse_scim_filter one (codes "a pr b") ≡ err (unexpected_token (some 5))
unfolding opened
trailing = refl

cut_off : parse_scim_filter one (codes "a eq") ≡ err (unexpected_token none)
unfolding opened
cut_off = refl

parse_scim_filter-Parses_example : Parses (parse_scim_filter one (codes "a pr or b pr and c eq 1"))
parse_scim_filter-Parses_example = parse_scim_filter-Parses one (codes "a pr or b pr and c eq 1")

abbrev nested : FilterNode ℕ
nested = logical and (logical or a b) (
    logical and (negation (logical or a c))
      (value_path (codes "d") (logical or b (logical or a c))))

parse_tokens-print_example : parse_tokens (print loose nested) ≡ ok nested
parse_tokens-print_example = parse_tokens-print nested ((tt, tt), ((tt, refl), (tt, (tt, refl))))
