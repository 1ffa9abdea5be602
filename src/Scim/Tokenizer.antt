-- ===== src/Scim/Tokenizer.antt =====
-- packages/scim/src/filter/filter.tokenizer.ts: from the text of a filter to its tokens. The rest of
-- the input stands for the index: at the rest `s` of an input of length `n` it is `n - length s`.
pub mod Total
pub mod Placed
mod Tests
use server_kit.Base.{
  ℕ, zero, suc, ◌+◌, ◌-◌, Text, codes, text_eq, lookup, length, Result, ok, err, ◌>>=◌, leb, ◌==◌,
  Bool, true, false, not, ◌&&◌, ◌||◌, if◌then◌else◌, List, [], ◌∷◌, ◌++◌, map, Option, some, none,
}
use server_kit.Scim.Ast.{
  Operator, eq, ne, co, sw, ew, gt, ge, lt, le, pr, LogicalOperator, and, or, Literal, string,
  number, boolean, null, TokenKind, identifier, literal, keyword, negate, lparen, rparen, lbracket,
  rbracket, op, Token, FilterError, unsupported_escape, unterminated_string, invalid_number,
  unexpected_character, out_of_fuel,
}

abbrev is_space : ℕ → Bool
is_space c = c == b' ' || c == 9 || c == 10 || c == 13

abbrev is_digit : ℕ → Bool
is_digit c = leb b'0' c && leb c b'9'

abbrev is_letter : ℕ → Bool
is_letter c = leb b'a' c && leb c b'z' || leb b'A' c && leb c b'Z'

-- /[A-Za-z_$]/
is_identifier_start : ℕ → Bool
is_identifier_start c = is_letter c || c == b'_' || c == b'$'

-- /[A-Za-z0-9_.\-:$]/
is_identifier_part : ℕ → Bool
is_identifier_part c =
    is_letter c || is_digit c || c == b'_' || c == b'.' || c == b'-' || c == b':' || c == b'$'

-- toLowerCase, on the ASCII text of an identifier.
unfoldable pub lower_case : Text → Text
lower_case [] = []
lower_case (c ∷ s) = (if leb b'A' c && leb c b'Z' then c + 32 else c) ∷ lower_case s

abbrev operators : List (Text × Operator)
operators =
    (codes "eq", eq)
    ∷ (codes "ne", ne)
    ∷ (codes "co", co)
    ∷ (codes "sw", sw)
    ∷ (codes "ew", ew)
    ∷ (codes "gt", gt)
    ∷ (codes "ge", ge)
    ∷ (codes "lt", lt)
    ∷ (codes "le", le)
    ∷ (codes "pr", pr)
    ∷ []

-- The character that an escape stands for.
abbrev unescape : ℕ → Option ℕ
unescape c =
    if c == b'"' || c == 92 || c == b'/'
    then some c
    else if c == b'n'
    then some 10
    else if c == b't'
    then some 9
    else if c == b'r'
    then some 13
    else if c == b'b'
    then some 8
    else if c == b'f'
    then some 12
    else none

abbrev pushed : ℕ → Result FilterError (Text × Text) → Result FilterError (Text × Text)
pushed c r = r >>= λ (value, rest). ok (c ∷ value, rest)

-- The loop over a string literal that opened at `start`: its value, and the text behind the quote.
pub read_string : ℕ → ℕ → Text → Result FilterError (Text × Text)
read_string n start [] = err (unterminated_string start)
read_string n start (c ∷ []) = if c == b'"' then ok ([], []) else err (unterminated_string start)
read_string n start (c ∷ (d ∷ s)) =
    let plain = pushed c (read_string n start (d ∷ s)) in
    let after_escape = read_string n start s in
    if c == b'"'
    then ok ([], d ∷ s)
    else if c == 92
    then (elim (unescape d) [
      | some x ↦ pushed x after_escape
      | none ↦ err (unsupported_escape (n - length (c ∷ d ∷ s)))
    ])
    else plain

-- The longest prefix whose characters pass the test, and what follows it.
span : (ℕ → Bool) → Text → Text × Text
span p [] = ([], [])
span p (c ∷ s) = let (a, b) = span p s in if p c then (c ∷ a, b) else ([], c ∷ s)

-- One character, if it passes the test.
take_if : (ℕ → Bool) → Text → Text × Text
take_if p [] = ([], [])
take_if p (c ∷ s) = if p c then (c ∷ [], s) else ([], c ∷ s)

-- An optional mark, and if it is there what `more` reads behind it.
after_mark : (ℕ → Bool) → (Text → Text × Text) → Text → Text × Text
after_mark p more [] = ([], [])
after_mark p more (c ∷ s) = let (a, b) = more s in if p c then (c ∷ a, b) else ([], c ∷ s)

read_exponent : Text → Text × Text
read_exponent s =
    let (sign, s₁) = take_if (λ c. c == b'+' || c == b'-') s in
    let (digits, s₂) = span is_digit s₁ in (sign ++ digits, s₂)

-- The text of a number literal.
read_number : Text → Text × Text
read_number s =
    let (sign, s₁) = take_if (λ c. c == b'-') s in
    let (whole, s₂) = span is_digit s₁ in
    let (fraction, s₃) = after_mark (λ c. c == b'.') (span is_digit) s₂ in
    let (exponent, s₄) = after_mark (λ c. c == b'e' || c == b'E') read_exponent s₃ in
    (sign ++ (whole ++ (fraction ++ exponent)), s₄)

module _ {Num : Type 0} (to_number : Text → Option Num) where
  abbrev keywords : List (Text × TokenKind Num)
  keywords =
      (codes "true", literal (boolean true))
      ∷ (codes "false", literal (boolean false))
      ∷ (codes "null", literal null)
      ∷ (codes "and", keyword and)
      ∷ (codes "or", keyword or)
      ∷ (codes "not", negate)
      ∷ []

  -- What an identifier-like text is.
  classify : Text → TokenKind Num
  classify raw = elim (lookup (lower_case raw) keywords) [
    | some kind ↦ kind
    | none ↦ elim (lookup (lower_case raw) operators) [
      | some operator ↦ op operator
      | none ↦ identifier raw
    ]
  ]

  -- `Number(raw)`, `none` for NaN.
  number_token : ℕ → Text × Text → Result FilterError (Option (Token Num) × Text)
  number_token start (raw, rest) = elim (to_number raw) [
    | some value ↦ ok (some (record { kind = literal (number value); start = start }), rest)
    | none ↦ err (invalid_number start)
  ]

  string_token :
      ℕ → Result FilterError (Text × Text) → Result FilterError (Option (Token Num) × Text)
  string_token start r = r >>= λ (value, rest).
      ok (some (record { kind = literal (string value); start = start }), rest)

  identifier_token : ℕ → Text × Text → Option (Token Num) × Text
  identifier_token start (raw, rest) = (some (record { kind = classify raw; start = start }), rest)

  abbrev bracket : ℕ → Option (TokenKind Num)
  bracket c =
      if c == b'('
      then some lparen
      else if c == b')'
      then some rparen
      else if c == b'['
      then some lbracket
      else if c == b']'
      then some rbracket
      else none

  -- One round of the loop on a rest that begins with `c`: a token unless it is a space, and the
  -- rest behind it.
  pub next_token : ℕ → ℕ → Text → Result FilterError (Option (Token Num) × Text)
  next_token n c s =
      let start = n - length (c ∷ s) in
      if is_space c then ok (none, s) else elim (bracket c) [
        | some kind ↦ ok (some (record { kind = kind; start = start }), s)
        | none ↦
            if c == b'"'
            then string_token start (read_string n start s)
            else if c == b'-' || is_digit c
            then number_token start (read_number (c ∷ s))
            else if is_identifier_start c
            then ok (identifier_token start (span is_identifier_part (c ∷ s)))
            else err (unexpected_character start)
      ]

  abbrev keep : Option (Token Num) → List (Token Num) → List (Token Num)
  keep none ts = ts
  keep (some t) ts = t ∷ ts

  pub tokens : ℕ → ℕ → Text → Result FilterError (List (Token Num))
  tokens n f [] = ok []
  tokens n zero (c ∷ s) = err out_of_fuel
  tokens n (suc f) (c ∷ s) = do
    (t, rest) ← next_token n c s
    later ← tokens n f rest
    ok (keep t later)

  unfoldable pub tokenize : Text → Result FilterError (List (Token Num))
  unfolding tokens next_token identifier_token string_token number_token classify read_number
      read_exponent after_mark take_if span read_string lower_case is_identifier_part
      is_identifier_start
  tokenize input = tokens (length input) (length input) input
