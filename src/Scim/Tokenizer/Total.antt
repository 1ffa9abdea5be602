-- ===== src/Scim/Tokenizer/Total.antt =====
-- How much of its input a round of the tokenizer consumes.
use server_kit.Base.{
  ℕ, ◌-◌, ◌≤◌, Text, length, Result, ok, err, ◌==◌, Bool, true, ◌||◌, Bool-cases, Option-cases, [],
  ◌∷◌, Option, some, none, ◌≡◌, ◌≢◌, refl, inl, inr, arith,
}
use server_kit.Scim.Ast.{Token, FilterError, out_of_fuel}
use server_kit.Scim.Tokenizer.{
  is_space, is_digit, is_identifier_start, is_identifier_part, unescape, pushed, read_string, span,
  take_if, after_mark, read_exponent, read_number, number_token, string_token, identifier_token,
  bracket, next_token,
}

-- What a read of a string literal leaves is no longer than what it was given.
abbrev pub Leaves : ℕ → Result FilterError (Text × Text) → Type 0
Leaves k (ok (value, rest)) = length rest ≤ k
Leaves k (err e) = e ≢ out_of_fuel

pushed-Leaves :
    (c k k' : ℕ) (r : Result FilterError (Text × Text))
    → k ≤ k'
    → Leaves k r
    → Leaves k' (pushed c r)
pushed-Leaves c k k' (ok (value, rest)) h l = omega arith
pushed-Leaves c k k' (err e) h l = l

pub read_string-Leaves : (n start : ℕ) (s : Text) → Leaves (length s) (read_string n start s)
unfolding read_string
read_string-Leaves n start [] = cc
read_string-Leaves n start (c ∷ []) = elim (Bool-cases (c == b'"')) [
  | inl closing ↦ rw closing (omega arith)
  | inr other ↦ rw other (cc)
]
read_string-Leaves n start (c ∷ (d ∷ s)) = elim (Bool-cases (c == b'"')) [
  | inl closing ↦ rw closing (omega arith)
  | inr other ↦ elim (Bool-cases (c == 92)) [
    | inr plain ↦
        rw (other, plain)
          (pushed-Leaves c (length (d ∷ s)) _ _ (omega arith) (read_string-Leaves n start (d ∷ s)))
    | inl escape ↦ elim (Option-cases (unescape d)) [
      | inl unknown ↦ rw (other, escape, unknown) (cc)
      | inr (x, known) ↦
          rw (other, escape, known)
            (pushed-Leaves x (length s) _ _ (omega arith) (read_string-Leaves n start s))
    ]
  ]
]

span-le : (p : ℕ → Bool) (s : Text) → length (span p s).1 ≤ length s
unfolding span
span-le p [] = omega arith
span-le p (c ∷ s) = ground (arith, span-le p s)

take_if-le : (p : ℕ → Bool) (s : Text) → length (take_if p s).1 ≤ length s
unfolding take_if
take_if-le p [] = omega arith
take_if-le p (c ∷ s) = ground arith

after_mark-le :
    (p : ℕ → Bool) (more : Text → Text × Text) (s : Text)
    → ((u : Text) → length (more u).1 ≤ length u)
    → length (after_mark p more s).1 ≤ length s
unfolding after_mark
after_mark-le p more [] h = omega arith
after_mark-le p more (c ∷ s) h = ground (arith, h s)

read_exponent-le : (s : Text) → length (read_exponent s).1 ≤ length s
unfolding read_exponent
read_exponent-le s = omega (
  arith,
  take_if-le (λ c. c == b'+' || c == b'-') s,
  span-le is_digit (take_if (λ c. c == b'+' || c == b'-') s).1,
)

-- A number literal takes at least its first character.
read_number-lt :
    (c : ℕ) (s : Text)
    → (c == b'-' || is_digit c) ≡ true
    → length (read_number (c ∷ s)).1 ≤ length s
unfolding read_number
read_number-lt c s h =
    let a = take_if (λ c. c == b'-') (c ∷ s) in
    let b = span is_digit a.1 in
    let d = after_mark (λ c. c == b'.') (span is_digit) b.1 in
    let first : length b.1 ≤ length s = unfold take_if span in ground (arith, span-le is_digit s) in
    omega (
      arith,
      first,
      after_mark-le (λ c. c == b'.') (span is_digit) b.1 (span-le is_digit),
      after_mark-le (λ c. c == b'e' || c == b'E') read_exponent d.1 read_exponent-le,
    )

span_identifier-lt :
    (c : ℕ) (s : Text)
    → is_identifier_start c ≡ true
    → length (span is_identifier_part (c ∷ s)).1 ≤ length s
unfolding span is_identifier_start is_identifier_part
span_identifier-lt c s h = ground (arith, span-le is_identifier_part s)

module _ {Num : Type 0} (to_number : Text → Option Num) where
  -- A round consumes a character, and its token starts where the round does.
  abbrev pub Advances : ℕ → ℕ → Result FilterError (Option (Token Num) × Text) → Type 0
  Advances start k (ok (none, rest)) = length rest ≤ k
  Advances start k (ok (some t, rest)) = (length rest ≤ k) × (t.start ≡ start)
  Advances start k (err e) = e ≢ out_of_fuel

  number_token-Advances :
      (start k : ℕ) (r : Text × Text)
      → length r.1 ≤ k
      → Advances start k (number_token to_number start r)
  unfolding number_token
  number_token-Advances start k (raw, rest) h = elim (Option-cases (to_number raw)) [
    | inl nan ↦ rw (nan, number_token) (cc)
    | inr (v, found) ↦ rw (found, number_token) (h, refl)
  ]

  string_token-Advances :
      (start k : ℕ) (r : Result FilterError (Text × Text))
      → Leaves k r
      → Advances start k (string_token to_number start r)
  unfolding string_token
  string_token-Advances start k (ok (value, rest)) h = (h, refl)
  string_token-Advances start k (err e) h = h

  pub next_token-Advances :
      (n c : ℕ) (s : Text) → Advances (n - length (c ∷ s)) (length s) (next_token to_number n c s)
  unfolding next_token identifier_token
  next_token-Advances n c s = elim (Bool-cases (is_space c)) [
    | inl space ↦ rw space (omega arith)
    | inr visible ↦ elim (Option-cases (bracket to_number c)) [
      | inr (kind, found) ↦ rw (visible, found) (omega arith, refl)
      | inl other ↦ elim (Bool-cases (c == b'"')) [
        | inl quote ↦
            rw (visible, other, quote)
              (string_token-Advances (n - length (c ∷ s)) (length s)
                (read_string n (n - length (c ∷ s)) s)
                (read_string-Leaves n (n - length (c ∷ s)) s))
        | inr no_quote ↦ elim (Bool-cases (c == b'-' || is_digit c)) [
          | inl digit ↦
              rw (visible, other, no_quote, digit)
                (number_token-Advances (n - length (c ∷ s)) (length s) (read_number (c ∷ s))
                  (read_number-lt c s digit))
          | inr no_digit ↦ elim (Bool-cases (is_identifier_start c)) [
            | inl letter ↦
                rw (visible, other, no_quote, no_digit, letter)
                  (span_identifier-lt c s letter, refl)
            | inr unknown ↦ rw (visible, other, no_quote, no_digit, unknown) (cc)
          ]
        ]
      ]
    ]
  ]
