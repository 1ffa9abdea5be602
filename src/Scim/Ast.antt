-- ===== src/Scim/Ast.antt =====
-- packages/scim/src/filter/filter.ast.ts, with the tokens of filter.tokenizer.ts. `Num` stands for
-- the JavaScript numbers.
use server_kit.Base.{ℕ, Text, Bool, Option}

pub data Operator : Type 0 where
  eq ne co sw ew gt ge lt le pr : Operator

pub data LogicalOperator : Type 0 where
  and or : LogicalOperator

pub data Literal (Num : Type 0) : Type 0 where
  string : Text → Literal Num
  number : Num → Literal Num
  boolean : Bool → Literal Num
  null : Literal Num

-- The value of a comparison is absent for `pr`.
pub data FilterNode (Num : Type 0) : Type 0 where
  presence : (attribute : Text) → FilterNode Num
  comparison : (attribute : Text) (operator : Operator) (value : Literal Num) → FilterNode Num
  logical : LogicalOperator → (left right : FilterNode Num) → FilterNode Num
  negation : FilterNode Num → FilterNode Num
  value_path : (attribute : Text) → FilterNode Num → FilterNode Num

pub data TokenKind (Num : Type 0) : Type 0 where
  identifier : Text → TokenKind Num
  literal : Literal Num → TokenKind Num
  keyword : LogicalOperator → TokenKind Num
  negate lparen rparen lbracket rbracket : TokenKind Num
  op : Operator → TokenKind Num

pub record Token (Num : Type 0) : Type 0 where
  pub kind : TokenKind Num
  pub start : ℕ

-- The throws, each a 400 `invalidFilter`, with the position that the details name; `out_of_fuel`
-- has no counterpart in the program.
pub data FilterError : Type 0 where
  empty_filter : FilterError
  unsupported_escape unterminated_string invalid_number unexpected_character : ℕ → FilterError
  unexpected_token : Option ℕ → FilterError
  out_of_fuel : FilterError
