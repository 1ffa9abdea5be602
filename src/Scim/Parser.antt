-- ===== src/Scim/Parser.antt =====
-- packages/scim/src/filter/filter.parser.ts: recursive descent over the tokens. The tokens that are
-- left stand for the parser's position.
pub mod Total
pub mod Printer
pub mod RoundTrip
mod Tests
use server_kit.Base.{
  ℕ, zero, suc, ◌+◌, Text, length, Result, ok, err, ◌>>=◌, leb, ◌==◌, Bool, true, false, ◌&&◌, ◌||◌,
  if◌then◌else◌, List, [], ◌∷◌, ◌++◌, Option, some, none,
}
use mathlib.Core.List.{reverse}
use server_kit.Scim.Ast.{
  Operator, eq, ne, co, sw, ew, gt, ge, lt, le, pr, LogicalOperator, and, or, Literal, FilterNode,
  presence, comparison, logical, negation, value_path, TokenKind, identifier, literal, keyword,
  negate, lparen, rparen, lbracket, rbracket, op, Token, FilterError, empty_filter,
  unexpected_token, out_of_fuel,
}
use server_kit.Scim.Tokenizer.{tokenize}

-- A parse of a node gives the node and the tokens behind it.
abbrev pub Parse : Type 0 → Type 0
Parse Num = Result FilterError (FilterNode Num × List (Token Num))

abbrev pub is_pr : Operator → Bool
is_pr pr = true
is_pr _ = false

module _ {Num : Type 0} where
  abbrev pub is_lparen : TokenKind Num → Bool
  is_lparen lparen = true
  is_lparen _ = false

  abbrev pub is_rparen : TokenKind Num → Bool
  is_rparen rparen = true
  is_rparen _ = false

  abbrev pub is_rbracket : TokenKind Num → Bool
  is_rbracket rbracket = true
  is_rbracket _ = false

  abbrev pub is_keyword : LogicalOperator → TokenKind Num → Bool
  is_keyword and (keyword and) = true
  is_keyword or (keyword or) = true
  is_keyword _ _ = false

  pub expect : (TokenKind Num → Bool) → List (Token Num) → Result FilterError (List (Token Num))
  expect test [] = err (unexpected_token none)
  expect test (t ∷ ts) = if test t.kind then ok ts else err (unexpected_token (some t.start))

  -- The value behind a comparison operator.
  pub value_kind : Text → Operator → TokenKind Num → ℕ → List (Token Num) → Parse Num
  value_kind attribute operator (literal v) start rest = ok (comparison attribute operator v, rest)
  value_kind attribute operator _ start rest = err (unexpected_token (some start))

  pub parse_value : Text → Operator → List (Token Num) → Parse Num
  parse_value attribute operator [] = err (unexpected_token none)
  parse_value attribute operator (t ∷ ts) = value_kind attribute operator t.kind t.start ts

  pub compare_by : Text → Operator → List (Token Num) → Parse Num
  compare_by attribute operator ts =
      if is_pr operator then ok (presence attribute, ts) else parse_value attribute operator ts

  -- A nested filter, up to the token that closes it.
  pub enclosed : (TokenKind Num → Bool) → (FilterNode Num → FilterNode Num) → Parse Num → Parse Num
  enclosed closes build r = do
    (inner, rest) ← r
    rest' ← expect closes rest
    ok (build inner, rest')

  -- `sub` is `parseOr`, one level of nesting down.
  module _ (sub : List (Token Num) → Parse Num) where
    -- What follows an attribute path.
    pub attribute_kind : Text → TokenKind Num → ℕ → List (Token Num) → Parse Num
    attribute_kind attribute lbracket start rest =
        enclosed is_rbracket (value_path attribute) (sub rest)
    attribute_kind attribute (op operator) start rest = compare_by attribute operator rest
    attribute_kind attribute _ start rest = err (unexpected_token (some start))

    pub parse_attribute : Text → List (Token Num) → Parse Num
    parse_attribute attribute [] = err (unexpected_token none)
    parse_attribute attribute (t ∷ ts) = attribute_kind attribute t.kind t.start ts

    pub unary_kind : TokenKind Num → ℕ → List (Token Num) → Parse Num
    unary_kind negate start rest =
        expect is_lparen rest >>= λ rest'. enclosed is_rparen negation (sub rest')
    unary_kind lparen start rest = enclosed is_rparen (λ inner. inner) (sub rest)
    unary_kind (identifier attribute) start rest = parse_attribute attribute rest
    unary_kind _ start rest = err (unexpected_token (some start))

    -- `parseUnary`, with `parseComparisonOrValuePath`.
    pub parse_unary : List (Token Num) → Parse Num
    parse_unary [] = err (unexpected_token none)
    parse_unary (t ∷ ts) = unary_kind t.kind t.start ts

  abbrev pub skip : LogicalOperator → List (Token Num) → Option (List (Token Num))
  skip o [] = none
  skip o (t ∷ ts) = if is_keyword o t.kind then some ts else none

  -- The loops of `parseOr` and `parseAnd`: while the operator follows, one more operand.
  pub loop :
      LogicalOperator
      → (List (Token Num) → Parse Num)
      → ℕ
      → FilterNode Num
      → List (Token Num)
      → Parse Num
  loop o operand zero left ts = err out_of_fuel
  loop o operand (suc g) left ts = elim (skip o ts) [
    | none ↦ ok (left, ts)
    | some ts' ↦ operand ts' >>= λ (right, rest). loop o operand g (logical o left right) rest
  ]

  -- An operand, then the loop with fuel for the tokens that are left.
  pub parse_chain : LogicalOperator → (List (Token Num) → Parse Num) → List (Token Num) → Parse Num
  parse_chain o operand ts =
      operand ts >>= λ (left, rest). loop o operand (suc (length rest)) left rest

  pub parse_and : (List (Token Num) → Parse Num) → List (Token Num) → Parse Num
  parse_and sub = parse_chain and (parse_unary sub)

  -- `parseOr` on fuel for the nesting.
  pub parse_or : ℕ → List (Token Num) → Parse Num
  parse_or zero ts = err out_of_fuel
  parse_or (suc f) ts = parse_chain or (parse_and (parse_or f)) ts

  pub expect_end : FilterNode Num → List (Token Num) → Result FilterError (FilterNode Num)
  expect_end node [] = ok node
  expect_end node (t ∷ ts) = err (unexpected_token (some t.start))

  pub parse_tokens : List (Token Num) → Result FilterError (FilterNode Num)
  parse_tokens ts = parse_or (suc (length ts)) ts >>= λ (node, rest). expect_end node rest

-- The white space that String.prototype.trim removes.
abbrev pub is_white : ℕ → Bool
is_white c =
    leb 9 c && leb c 13
    || c == 32
    || c == 160
    || c == 5760
    || leb 8192 c && leb c 8202
    || c == 8232
    || c == 8233
    || c == 8239
    || c == 8287
    || c == 12288
    || c == 65279

trim_start : Text → Text
trim_start [] = []
trim_start (c ∷ s) = if is_white c then trim_start s else c ∷ s

pub trim : Text → Text
trim s = reverse (trim_start (reverse (trim_start s)))

pub parse_scim_filter :
    {Num : Type 0} → (Text → Option Num) → Text → Result FilterError (FilterNode Num)
parse_scim_filter to_number input =
    let trimmed = trim input in
    if length trimmed == 0 then err empty_filter else tokenize to_number trimmed >>= parse_tokens
