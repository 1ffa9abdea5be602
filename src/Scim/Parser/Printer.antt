-- ===== src/Scim/Parser/Printer.antt =====
-- A printer of filters as tokens, with parentheses only where the grammar needs them.
use server_kit.Base.{Bool, true, false, if◌then◌else◌, List, [], ◌∷◌, ◌++◌}
use server_kit.Scim.Ast.{
  LogicalOperator, and, or, FilterNode, presence, comparison, logical, negation, value_path,
  TokenKind, identifier, literal, keyword, negate, lparen, rparen, lbracket, rbracket, op, pr,
  Token,
}

-- Where a filter stands: alone or as the left operand of `or`; as another operand of `or` or the
-- left operand of `and`; as the right operand of `and`.
pub data Level : Type 0 where
  loose middle tight : Level

-- The operator needs no parentheses at the level.
abbrev pub is_bare : Level → LogicalOperator → Bool
is_bare loose _ = true
is_bare middle and = true
is_bare _ _ = false

abbrev pub left_level : LogicalOperator → Level
left_level or = loose
left_level and = middle

abbrev pub right_level : LogicalOperator → Level
right_level or = middle
right_level and = tight

module _ {Num : Type 0} where
  abbrev pub token : TokenKind Num → Token Num
  token kind = record { kind = kind; start = 0 }

  abbrev pub parenthesized : List (Token Num) → List (Token Num)
  parenthesized ts = token lparen ∷ (ts ++ token rparen ∷ [])

  unfoldable pub print : Level → FilterNode Num → List (Token Num)
  print level (presence a) = token (identifier a) ∷ token (op pr) ∷ []
  print level (comparison a o v) = token (identifier a) ∷ token (op o) ∷ token (literal v) ∷ []
  print level (logical o l r) =
      let body = print (left_level o) l ++ token (keyword o) ∷ print (right_level o) r in
      if is_bare level o then body else parenthesized body
  print level (negation n) = token negate ∷ parenthesized (print loose n)
  print level (value_path a n) =
      token (identifier a) ∷ token lbracket ∷ (print loose n ++ token rbracket ∷ [])
