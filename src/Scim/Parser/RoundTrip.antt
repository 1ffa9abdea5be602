-- ===== src/Scim/Parser/RoundTrip.antt =====
-- Precedence and associativity: printing with the fewest parentheses, then parsing.
use server_kit.Base.{
  ℕ, zero, suc, Text, ◌≤◌, ◌<◌, length, length-append, append-nil, append_assoc, ok, Bool, true,
  false, List, [], ◌∷◌, ◌++◌, none, ◌≡◌, refl, ap, ◌∙◌, sym, arith,
}
use server_kit.Scim.Ast.{
  Operator, LogicalOperator, and, or, FilterNode, presence, comparison, logical, negation,
  value_path, TokenKind, Literal, keyword, rparen, rbracket, Token,
}
use server_kit.Scim.Parser.{
  Parse, is_pr, is_rbracket, is_rparen, is_keyword, expect, value_kind, parse_value, compare_by,
  enclosed, attribute_kind, parse_attribute, unary_kind, parse_unary, skip, loop, parse_chain,
  parse_and, parse_or, expect_end, parse_tokens,
}
use server_kit.Scim.Parser.Total.{IsWritten}
use server_kit.Scim.Parser.Printer.{loose, middle, tight, token, parenthesized, print}

module _ {Num : Type 0} where
  -- The parse stands in the loop of the operator, with the node as what it has so far.
  abbrev InLoop :
      LogicalOperator
      → (List (Token Num) → Parse Num)
      → FilterNode Num
      → List (Token Num)
      → Parse Num
      → Type 0
  InLoop o operand n rest r = (g : ℕ) × (length rest < g) × (r ≡ loop o operand g n rest)

  loop-stop :
      (o : LogicalOperator) (operand : List (Token Num) → Parse Num) (n : FilterNode Num)
      (rest : List (Token Num)) (r : Parse Num)
      → skip o rest ≡ none
      → InLoop o operand n rest r
      → r ≡ ok (n, rest)
  unfolding loop
  loop-stop o operand n rest r stop (zero, h, e) = absurd (omega arith)
  loop-stop o operand n rest r stop (suc g, h, e) = e ∙ rw (stop, loop) refl

  -- The three ways in which a filter is parsed, each with any tokens behind it.
  abbrev AsUnary : ℕ → FilterNode Num → Type 0
  AsUnary f n =
      (rest : List (Token Num))
      → length (print tight n) ≤ f
      → parse_unary (parse_or f) (print tight n ++ rest) ≡ ok (n, rest)

  abbrev AsConjunct : ℕ → FilterNode Num → Type 0
  AsConjunct f n =
      (rest : List (Token Num))
      → length (print middle n) ≤ f
      → InLoop and (parse_unary (parse_or f)) n rest
          (parse_and (parse_or f) (print middle n ++ rest))

  abbrev AsFilter : ℕ → FilterNode Num → Type 0
  AsFilter f n =
      (rest : List (Token Num))
      → length (print loose n) ≤ f
      → skip and rest ≡ none
      → InLoop or (parse_and (parse_or f)) n rest (parse_or (suc f) (print loose n ++ rest))

  chain_from :
      (o : LogicalOperator) (operand : List (Token Num) → Parse Num) (n : FilterNode Num)
      (ts rest : List (Token Num))
      → operand ts ≡ ok (n, rest)
      → InLoop o operand n rest (parse_chain o operand ts)
  unfolding parse_chain
  chain_from o operand n ts rest e = (suc (length rest), omega arith, rw e refl)

  -- One more round of a loop.
  loop_round :
      (o : LogicalOperator) (operand : List (Token Num) → Parse Num) (l n : FilterNode Num)
      (ts rest : List (Token Num)) (r : Parse Num)
      → InLoop o operand l (token (keyword o) ∷ ts) r
      → operand ts ≡ ok (n, rest)
      → length rest ≤ length ts
      → InLoop o operand (logical o l n) rest r
  unfolding loop
  loop_round o operand l n ts rest r (zero, h, e) e' k = absurd (omega arith)
  loop_round and operand l n ts rest r (suc g, h, e) e' k = (g, omega arith, e ∙ rw e' refl)
  loop_round or operand l n ts rest r (suc g, h, e) e' k = (g, omega arith, e ∙ rw e' refl)

  AsFilter-AsConjunct :
      (f : ℕ) (n : FilterNode Num) → print loose n ≡ print middle n → AsConjunct f n → AsFilter f n
  unfolding parse_or
  AsFilter-AsConjunct f n e c rest h stop =
      chain_from or (parse_and (parse_or f)) n (print loose n ++ rest) rest (
        ap (λ ts. parse_and (parse_or f) (ts ++ rest)) e
        ∙ loop-stop and (parse_unary (parse_or f)) n rest _ stop (c rest (rw (sym e) h)))

  AsConjunct-AsUnary :
      (f : ℕ) (n : FilterNode Num) → print middle n ≡ print tight n → AsUnary f n → AsConjunct f n
  unfolding parse_and
  AsConjunct-AsUnary f n e u rest h =
      chain_from and (parse_unary (parse_or f)) n (print middle n ++ rest) rest
        (ap (λ ts. parse_unary (parse_or f) (ts ++ rest)) e ∙ u rest (rw (sym e) h))

  -- A filter between its brackets.
  enclosed_filter :
      (f : ℕ) (n : FilterNode Num) (closes : TokenKind Num → Bool)
      (build : FilterNode Num → FilterNode Num) (kind : TokenKind Num) (rest : List (Token Num))
      → AsFilter f n
      → length (print loose n) ≤ f
      → closes kind ≡ true
      → is_keyword and kind ≡ false
      → is_keyword or kind ≡ false
      → enclosed closes build (parse_or (suc f) ((print loose n ++ token kind ∷ []) ++ rest))
        ≡ ok (build n, rest)
  unfolding enclosed expect
  enclosed_filter f n closes build kind rest a h c k k' =
      let stop : skip and (token kind ∷ rest) ≡ none = rw k refl in
      let stop' : skip or (token kind ∷ rest) ≡ none = rw k' refl in
      let e = append_assoc (print loose n) (token kind ∷ []) rest in
      let parsed =
        loop-stop or (parse_and (parse_or f)) n (token kind ∷ rest) _ stop'
          (a (token kind ∷ rest) h stop) in
      ap (λ ts. enclosed closes build (parse_or (suc f) ts)) e
      ∙ ap (enclosed closes build) parsed
      ∙ rw c refl

  parenthesized_filter :
      (f : ℕ) (n : FilterNode Num) (rest : List (Token Num))
      → AsFilter f n
      → length (parenthesized (print loose n)) ≤ suc f
      → parse_unary (parse_or (suc f)) (parenthesized (print loose n) ++ rest) ≡ ok (n, rest)
  unfolding parse_unary unary_kind
  parenthesized_filter f n rest a h =
      enclosed_filter f n is_rparen (λ m. m) rparen rest a
        (omega (arith, length-append (print loose n) (token rparen ∷ []))) refl refl refl

  negated_filter : (f : ℕ) (n : FilterNode Num) → AsFilter f n → AsUnary (suc f) (negation n)
  unfolding parse_unary unary_kind print expect
  negated_filter f n a rest h =
      enclosed_filter f n is_rparen negation rparen rest a
        (omega (arith, length-append (print loose n) (token rparen ∷ []))) refl refl refl

  bracketed_filter :
      (f : ℕ) (a : Text) (n : FilterNode Num) → AsFilter f n → AsUnary (suc f) (value_path a n)
  unfolding parse_unary unary_kind print parse_attribute attribute_kind
  bracketed_filter f a n c rest h =
      enclosed_filter f n is_rbracket (value_path a) rbracket rest c
        (omega (arith, length-append (print loose n) (token rbracket ∷ []))) refl refl refl

  AsUnary-AsFilter :
      (n : FilterNode Num)
      → print tight n ≡ parenthesized (print loose n)
      → ((f : ℕ) → AsFilter f n)
      → (f : ℕ) → AsUnary f n
  AsUnary-AsFilter n e a zero rest h =
      absurd (let h' : length (parenthesized (print loose n)) ≤ 0 = rw e at h in omega arith)
  AsUnary-AsFilter n e a (suc f) rest h =
      ap (λ ts. parse_unary (parse_or (suc f)) (ts ++ rest)) e
      ∙ parenthesized_filter f n rest (a f) (rw e at h)

  -- Two operands with their operator between them.
  AsFilter-or :
      (f : ℕ) (l r : FilterNode Num) → AsFilter f l → AsConjunct f r → AsFilter f (logical or l r)
  unfolding print parse_or
  AsFilter-or f l r a c rest h stop =
      let e = append_assoc (print loose l) (token (keyword or) ∷ print middle r) rest in
      let k = length-append (print loose l) (token (keyword or) ∷ print middle r) in
      let k' = length-append (print middle r) rest in
      loop_round or (parse_and (parse_or f)) l r (print middle r ++ rest) rest _
        (rw e (a (token (keyword or) ∷ (print middle r ++ rest)) (omega arith) refl))
        (loop-stop and (parse_unary (parse_or f)) r rest _ stop (c rest (omega arith)))
        (omega arith)

  AsConjunct-and :
      (f : ℕ) (l r : FilterNode Num) → AsConjunct f l → AsUnary f r → AsConjunct f (logical and l r)
  unfolding print parse_and
  AsConjunct-and f l r c u rest h =
      let e = append_assoc (print middle l) (token (keyword and) ∷ print tight r) rest in
      let k = length-append (print middle l) (token (keyword and) ∷ print tight r) in
      let k' = length-append (print tight r) rest in
      loop_round and (parse_unary (parse_or f)) l r (print tight r ++ rest) rest _
        (rw e (c (token (keyword and) ∷ (print tight r ++ rest)) (omega arith)))
        (u rest (omega arith)) (omega arith)

  abbrev AsAny : FilterNode Num → Type 0
  AsAny n = (f : ℕ) → AsUnary f n × AsConjunct f n × AsFilter f n

  -- A filter that is printed alike everywhere.
  AsAny-AsUnary :
      (n : FilterNode Num)
      → print loose n ≡ print middle n
      → print middle n ≡ print tight n
      → ((f : ℕ) → AsUnary f n)
      → AsAny n
  AsAny-AsUnary n e e' u f =
      let c = AsConjunct-AsUnary f n e' (u f) in (u f, c, AsFilter-AsConjunct f n e c)

  presence_unary : (a : Text) (f : ℕ) → AsUnary f (presence a)
  unfolding print parse_unary unary_kind parse_attribute attribute_kind compare_by
  presence_unary a f rest h = refl

  comparison_unary :
      (a : Text) (o : Operator) (v : Literal Num)
      → is_pr o ≡ false
      → (f : ℕ) → AsUnary f (comparison a o v)
  unfolding print parse_unary unary_kind parse_attribute attribute_kind compare_by parse_value
      value_kind
  comparison_unary a o v w f rest h = rw w refl

  nested_unary :
      (n : FilterNode Num)
      → 0 < length (print tight n)
      → ((f : ℕ) → AsUnary (suc f) n)
      → (f : ℕ) → AsUnary f n
  nested_unary n p u zero rest h = absurd (omega arith)
  nested_unary n p u (suc f) rest h = u f rest h

  print-AsAny : (n : FilterNode Num) → IsWritten n → AsAny n
  unfolding print
  print-AsAny (presence a) w f = AsAny-AsUnary (presence a) refl refl (presence_unary a) f
  print-AsAny (comparison a o v) w f =
      AsAny-AsUnary (comparison a o v) refl refl (comparison_unary a o v w) f
  print-AsAny (logical and l r) (w, w') f =
      let conjunct : (f : ℕ) → AsConjunct f (logical and l r) =
        λ f. AsConjunct-and f l r (print-AsAny l w f).1 (print-AsAny r w' f).0 in
      let filter : (f : ℕ) → AsFilter f (logical and l r) =
        λ f. AsFilter-AsConjunct f (logical and l r) refl (conjunct f) in
      (AsUnary-AsFilter (logical and l r) refl filter f, conjunct f, filter f)
  print-AsAny (logical or l r) (w, w') f =
      let filter : (f : ℕ) → AsFilter f (logical or l r) =
        λ f. AsFilter-or f l r (print-AsAny l w f).2 (print-AsAny r w' f).1 in
      let unary : (f : ℕ) → AsUnary f (logical or l r) =
        AsUnary-AsFilter (logical or l r) refl filter in
      (unary f, AsConjunct-AsUnary f (logical or l r) refl (unary f), filter f)
  print-AsAny (negation n) w f =
      AsAny-AsUnary (negation n) refl refl
        (nested_unary (negation n) (omega arith) (λ f'. negated_filter f' n (print-AsAny n w f').2))
        f
  print-AsAny (value_path a n) w f =
      AsAny-AsUnary (value_path a n) refl refl
        (nested_unary (value_path a n) (omega arith)
          (λ f'. bracketed_filter f' a n (print-AsAny n w f').2))
        f

  -- Every filter in which `pr` has no value, printed with parentheses only around `or` under `and`,
  -- `and` or `or` as a right operand of its own operator, and the operand of `not`, is parsed back:
  -- `and` binds closer than `or`, and both associate to the left.
  pub parse_tokens-print :
      (node : FilterNode Num) → IsWritten node → parse_tokens (print loose node) ≡ ok node
  unfolding parse_tokens expect_end
  parse_tokens-print node w =
      let ts = print loose node in
      let in_loop = (print-AsAny node w (length ts)).2 [] (omega arith) refl in
      let parsed = loop-stop or (parse_and (parse_or (length ts))) node [] _ refl in_loop in
      let e : parse_or (suc (length ts)) ts ≡ ok (node, []) = rw (append-nil ts) at parsed in
      rw e refl
