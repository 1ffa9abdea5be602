-- ===== src/Scim/Parser/Total.antt =====
-- How many tokens each part of the parser consumes.
use server_kit.Base.{
  ℕ, zero, suc, ◌≤◌, ◌<◌, Text, length, ◌==◌, Result, ok, err, ◌>>=◌, Bool, false, Bool-cases, List,
  [], ◌∷◌, Option, some, Option-cases, ◌≡◌, ◌≢◌, inl, inr, arith,
}
use server_kit.Scim.Ast.{
  Operator, LogicalOperator, and, or, FilterNode, presence, comparison, logical, negation,
  value_path, TokenKind, identifier, literal, keyword, negate, lparen, rparen, lbracket, rbracket,
  op, Token, FilterError, out_of_fuel,
}
use server_kit.Scim.Parser.{
  Parse, is_pr, is_lparen, is_rparen, is_rbracket, expect, value_kind, parse_value, compare_by,
  enclosed, attribute_kind, parse_attribute, unary_kind, parse_unary, skip, loop, parse_chain,
  parse_and, parse_or, expect_end, parse_tokens, trim, parse_scim_filter,
}
use server_kit.Scim.Tokenizer.{tokenize}
use server_kit.Scim.Tokenizer.Placed.{Tokenizes, tokenize-Tokenizes}

module _ {Num : Type 0} where
  -- A filter that the parser can build: `pr` is a presence test, without a value.
  abbrev pub IsWritten : FilterNode Num → Type 0
  IsWritten (presence a) = Unit
  IsWritten (comparison a o v) = is_pr o ≡ false
  IsWritten (logical o l r) = IsWritten l × IsWritten r
  IsWritten (negation n) = IsWritten n
  IsWritten (value_path a n) = IsWritten n

  -- A node and fewer than `k` tokens, or one of the program's errors.
  abbrev pub Consumes : ℕ → Parse Num → Type 0
  Consumes k (ok (node, rest)) = IsWritten node × (length rest < k)
  Consumes k (err e) = e ≢ out_of_fuel

  abbrev Leaves : ℕ → Result FilterError (List (Token Num)) → Type 0
  Leaves k (ok rest) = length rest < k
  Leaves k (err e) = e ≢ out_of_fuel

  Consumes-mono : (k k' : ℕ) (r : Parse Num) → k ≤ k' → Consumes k r → Consumes k' r
  Consumes-mono k k' (ok (node, rest)) h (w, l) = (w, omega arith)
  Consumes-mono k k' (err e) h l = l

  expect-Leaves :
      (test : TokenKind Num → Bool) (ts : List (Token Num)) → Leaves (length ts) (expect test ts)
  unfolding expect
  expect-Leaves test [] = cc
  expect-Leaves test (t ∷ ts) = elim (Bool-cases (test t.kind)) [
    | inl same ↦ rw same (omega arith)
    | inr other ↦ rw other (cc)
  ]

  -- The parse that follows an expected token.
  then-Consumes :
      (k : ℕ) (r : Result FilterError (List (Token Num))) (next : List (Token Num) → Parse Num)
      → Leaves k r
      → ((ts : List (Token Num)) → length ts < k → Consumes k (next ts))
      → Consumes k (r >>= next)
  then-Consumes k (ok ts) next l h = h ts l
  then-Consumes k (err e) next l h = l

  enclosed-Consumes :
      (k : ℕ) (closes : TokenKind Num → Bool) (build : FilterNode Num → FilterNode Num)
      (r : Parse Num)
      → ((n : FilterNode Num) → IsWritten n → IsWritten (build n))
      → Consumes k r
      → Consumes k (enclosed closes build r)
  unfolding enclosed
  enclosed-Consumes k closes build (err e) b c = c
  enclosed-Consumes k closes build (ok (node, rest)) b (w, l) =
      finish (expect closes rest) (expect-Leaves closes rest)
    where
      finish :
          (r : Result FilterError (List (Token Num)))
          → Leaves (length rest) r
          → Consumes k (r >>= λ rest'. ok (build node, rest'))
      finish (ok rest') l' = (b node w, omega arith)
      finish (err e) l' = l'

  value_kind-Consumes :
      (a : Text) (o : Operator) (kind : TokenKind Num) (start : ℕ) (ts : List (Token Num))
      → is_pr o ≡ false
      → Consumes (suc (length ts)) (value_kind a o kind start ts)
  unfolding value_kind
  value_kind-Consumes a o (literal v) start ts h = (h, omega arith)
  value_kind-Consumes a o (identifier _) start ts h = cc
  value_kind-Consumes a o (keyword _) start ts h = cc
  value_kind-Consumes a o negate start ts h = cc
  value_kind-Consumes a o lparen start ts h = cc
  value_kind-Consumes a o rparen start ts h = cc
  value_kind-Consumes a o lbracket start ts h = cc
  value_kind-Consumes a o rbracket start ts h = cc
  value_kind-Consumes a o (op _) start ts h = cc

  parse_value-Consumes :
      (a : Text) (o : Operator) (ts : List (Token Num))
      → is_pr o ≡ false
      → Consumes (suc (length ts)) (parse_value a o ts)
  unfolding parse_value
  parse_value-Consumes a o [] h = cc
  parse_value-Consumes a o (t ∷ ts) h =
      Consumes-mono (suc (length ts)) _ (value_kind a o t.kind t.start ts) (omega arith)
        (value_kind-Consumes a o t.kind t.start ts h)

  compare_by-Consumes :
      (a : Text) (o : Operator) (ts : List (Token Num))
      → Consumes (suc (length ts)) (compare_by a o ts)
  unfolding compare_by
  compare_by-Consumes a o ts = elim (Bool-cases (is_pr o)) [
    | inl same ↦ rw same (tt, omega arith)
    | inr other ↦ rw other (parse_value-Consumes a o ts other)
  ]

  -- `sub` behaves on fewer than `k` tokens.
  module _ (k : ℕ) (sub : List (Token Num) → Parse Num)
      (sub-Consumes : (ts : List (Token Num)) → length ts < k → Consumes (length ts) (sub ts)) where
    enclosed_sub :
        (m : ℕ) (closes : TokenKind Num → Bool) (build : FilterNode Num → FilterNode Num)
        (ts : List (Token Num))
        → ((n : FilterNode Num) → IsWritten n → IsWritten (build n))
        → length ts < k
        → length ts ≤ m
        → Consumes m (enclosed closes build (sub ts))
    enclosed_sub m closes build ts b h h' =
        enclosed-Consumes m closes build (sub ts) b
          (Consumes-mono (length ts) m (sub ts) h' (sub-Consumes ts h))

    attribute_kind-Consumes :
        (a : Text) (kind : TokenKind Num) (start : ℕ) (ts : List (Token Num))
        → length ts < k
        → Consumes (suc (length ts)) (attribute_kind sub a kind start ts)
    unfolding attribute_kind
    attribute_kind-Consumes a lbracket start ts h =
        enclosed_sub (suc (length ts)) is_rbracket (value_path a) ts (λ n w. w) h (omega arith)
    attribute_kind-Consumes a (op o) start ts h = compare_by-Consumes a o ts
    attribute_kind-Consumes a (literal _) start ts h = cc
    attribute_kind-Consumes a (identifier _) start ts h = cc
    attribute_kind-Consumes a (keyword _) start ts h = cc
    attribute_kind-Consumes a negate start ts h = cc
    attribute_kind-Consumes a lparen start ts h = cc
    attribute_kind-Consumes a rparen start ts h = cc
    attribute_kind-Consumes a rbracket start ts h = cc

    parse_attribute-Consumes :
        (a : Text) (ts : List (Token Num))
        → length ts < k
        → Consumes (suc (length ts)) (parse_attribute sub a ts)
    unfolding parse_attribute
    parse_attribute-Consumes a [] h = cc
    parse_attribute-Consumes a (t ∷ ts) h =
        Consumes-mono (suc (length ts)) _ (attribute_kind sub a t.kind t.start ts) (omega arith)
          (attribute_kind-Consumes a t.kind t.start ts (omega arith))

    unary_kind-Consumes :
        (kind : TokenKind Num) (start : ℕ) (ts : List (Token Num))
        → length ts < k
        → Consumes (suc (length ts)) (unary_kind sub kind start ts)
    unfolding unary_kind
    unary_kind-Consumes negate start ts h =
        Consumes-mono (length ts) (suc (length ts)) _ (omega arith) (
          then-Consumes (length ts) (expect is_lparen ts) _ (expect-Leaves is_lparen ts) (λ ts' l.
            enclosed_sub (length ts) is_rparen negation ts' (λ n w. w) (omega arith) (omega arith)))
    unary_kind-Consumes lparen start ts h =
        enclosed_sub (suc (length ts)) is_rparen (λ n. n) ts (λ n w. w) h (omega arith)
    unary_kind-Consumes (identifier a) start ts h = parse_attribute-Consumes a ts h
    unary_kind-Consumes (literal _) start ts h = cc
    unary_kind-Consumes (keyword _) start ts h = cc
    unary_kind-Consumes rparen start ts h = cc
    unary_kind-Consumes lbracket start ts h = cc
    unary_kind-Consumes rbracket start ts h = cc
    unary_kind-Consumes (op _) start ts h = cc

    parse_unary-Consumes :
        (ts : List (Token Num)) → length ts ≤ k → Consumes (length ts) (parse_unary sub ts)
    unfolding parse_unary
    parse_unary-Consumes [] h = cc
    parse_unary-Consumes (t ∷ ts) h =
        Consumes-mono (suc (length ts)) _ (unary_kind sub t.kind t.start ts) (omega arith)
          (unary_kind-Consumes t.kind t.start ts (omega arith))

  skip-lt :
      (o : LogicalOperator) (ts ts' : List (Token Num))
      → skip o ts ≡ some ts'
      → length ts' < length ts
  skip-lt o [] ts' e = absurd (cc)
  skip-lt o (t ∷ ts) ts' e = ground arith

  -- An operand, and what is parsed behind it.
  chain-Consumes :
      (m : ℕ) (r : Parse Num) (next : FilterNode Num → List (Token Num) → Parse Num)
      → Consumes m r
      → ((n : FilterNode Num) (ts : List (Token Num))
          → IsWritten n
          → length ts < m
          → Consumes m (next n ts))
      → Consumes m (r >>= λ (n, rest). next n rest)
  chain-Consumes m (ok (n, rest)) next (w, l) h = h n rest w l
  chain-Consumes m (err e) next c h = c

  module _ (k : ℕ) (o : LogicalOperator) (operand : List (Token Num) → Parse Num)
      (operand-Consumes : (ts : List (Token Num))
        → length ts ≤ k
        → Consumes (length ts) (operand ts)) where
    loop-Consumes :
        (g : ℕ) (left : FilterNode Num) (ts : List (Token Num))
        → IsWritten left
        → length ts < g
        → length ts ≤ k
        → Consumes (suc (length ts)) (loop o operand g left ts)
    unfolding loop
    loop-Consumes zero left ts w h h' = absurd (omega arith)
    loop-Consumes (suc g) left ts w h h' = elim (Option-cases (skip o ts)) [
      | inl stop ↦ rw (stop, loop) (w, omega arith)
      | inr (ts', more) ↦
          let shorter = skip-lt o ts ts' more in
          rw (more, loop)
            (Consumes-mono (length ts') (suc (length ts)) _ (omega arith) (
              chain-Consumes (length ts') (operand ts')
                (λ right rest. loop o operand g (logical o left right) rest)
                (operand-Consumes ts' (omega arith))
                (λ right rest w' l. Consumes-mono (suc (length rest)) (length ts') _ (omega arith) (
                  loop-Consumes g (logical o left right) rest (w, w') (omega arith)
                    (omega arith)))))
    ]

    parse_chain-Consumes :
        (ts : List (Token Num)) → length ts ≤ k → Consumes (length ts) (parse_chain o operand ts)
    unfolding parse_chain
    parse_chain-Consumes ts h =
        chain-Consumes (length ts) (operand ts)
          (λ left rest. loop o operand (suc (length rest)) left rest) (operand-Consumes ts h)
          (λ left rest w l.
            Consumes-mono (suc (length rest)) (length ts) _ (omega arith)
              (loop-Consumes (suc (length rest)) left rest w (omega arith) (omega arith)))

  pub parse_or-Consumes :
      (f : ℕ) (ts : List (Token Num)) → length ts < f → Consumes (length ts) (parse_or f ts)
  unfolding parse_or parse_and
  parse_or-Consumes zero ts h = absurd (omega arith)
  parse_or-Consumes (suc f) ts h =
      parse_chain-Consumes f or (parse_and (parse_or f))
        (parse_chain-Consumes f and (parse_unary (parse_or f))
          (parse_unary-Consumes f (parse_or f) (parse_or-Consumes f)))
        ts (omega arith)

  -- A filter of the parser's form, or one of the program's errors.
  abbrev pub Parses : Result FilterError (FilterNode Num) → Type 0
  Parses (ok node) = IsWritten node
  Parses (err e) = e ≢ out_of_fuel

  parse_tokens-Parses : (ts : List (Token Num)) → Parses (parse_tokens ts)
  unfolding parse_tokens expect_end
  parse_tokens-Parses ts =
      finish (parse_or (suc (length ts)) ts) (parse_or-Consumes (suc (length ts)) ts (omega arith))
    where
      finish :
          (r : Parse Num)
          → Consumes (length ts) r
          → Parses (r >>= λ (node, rest). expect_end node rest)
      finish (ok (node, [])) (w, l) = w
      finish (ok (node, t ∷ rest)) c = cc
      finish (err e) c = c

-- On every text and for every reading of numbers, the tokenizer and the parser end, with a filter in
-- which `pr` has no value or with one of the program's errors: the fuel of both is always enough.
pub parse_scim_filter-Parses :
    {Num : Type 0} (to_number : Text → Option Num) (input : Text)
    → Parses (parse_scim_filter to_number input)
unfolding parse_scim_filter
parse_scim_filter-Parses {Num} to_number input = elim (Bool-cases (length (trim input) == 0)) [
  | inl empty ↦ rw empty (cc)
  | inr other ↦
      rw other
        (finish (tokenize to_number (trim input)) (tokenize-Tokenizes to_number (trim input)))
]
  where
    finish :
        (r : Result FilterError (List (Token Num)))
        → Tokenizes 0 (length (trim input)) r
        → Parses (r >>= parse_tokens)
    finish (ok ts) t = parse_tokens-Parses ts
    finish (err e) t = t
