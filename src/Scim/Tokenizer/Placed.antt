-- ===== src/Scim/Tokenizer/Placed.antt =====
-- The fuel of the tokenizer's loop, the positions of its tokens, and string literals.
use server_kit.Base.{
  ℕ, zero, suc, ◌-◌, ◌≤◌, ◌<◌, Text, length, Result, ok, err, ◌>>=◌, ◌==◌, true, false, ◌||◌,
  if◌then◌else◌, Bool-cases, List, [], ◌∷◌, ◌++◌, Option, some, none, ◌≡◌, ◌≢◌, refl, ap, ◌∙◌, inl,
  inr, arith,
}
use server_kit.Scim.Ast.{Token, string, literal, FilterError, out_of_fuel}
use server_kit.Scim.Tokenizer.{
  unescape, pushed, read_string, string_token, next_token, keep, tokens, tokenize,
}
use server_kit.Scim.Tokenizer.Total.{Advances, next_token-Advances}

module _ {Num : Type 0} where
  -- The positions grow from `lo` and stay below `hi`.
  abbrev pub IsPlaced : ℕ → ℕ → List (Token Num) → Type 0
  IsPlaced lo hi [] = Unit
  IsPlaced lo hi (t ∷ ts) = (lo ≤ t.start) × (t.start < hi) × IsPlaced (suc t.start) hi ts

  -- The tokenizer returns placed tokens, or one of the program's errors.
  abbrev pub Tokenizes : ℕ → ℕ → Result FilterError (List (Token Num)) → Type 0
  Tokenizes lo hi (ok ts) = IsPlaced lo hi ts
  Tokenizes lo hi (err e) = e ≢ out_of_fuel

  IsPlaced-mono :
      (lo lo' hi : ℕ) (ts : List (Token Num)) → lo' ≤ lo → IsPlaced lo hi ts → IsPlaced lo' hi ts
  IsPlaced-mono lo lo' hi [] h p = tt
  IsPlaced-mono lo lo' hi (t ∷ ts) h (a, b, c) = (omega arith, b, c)

module _ {Num : Type 0} (to_number : Text → Option Num) where
  keep-Tokenizes :
      (lo lo' hi : ℕ) (t : Option (Token Num)) (r : Result FilterError (List (Token Num)))
      → ((tok : Token Num) → t ≡ some tok → tok.start ≡ lo')
      → lo' < lo
      → lo' < hi
      → Tokenizes lo hi r
      → Tokenizes lo' hi (r >>= λ later. ok (keep to_number t later))
  keep-Tokenizes lo lo' hi none (ok ts) at h h' p = IsPlaced-mono lo lo' hi ts (omega arith) p
  keep-Tokenizes lo lo' hi (some tok) (ok ts) at h h' p =
      let e = at tok refl in
      (omega arith, omega arith, IsPlaced-mono lo (suc tok.start) hi ts (omega arith) p)
  keep-Tokenizes lo lo' hi t (err e) at h h' p = p

  tokens-Tokenizes :
      (n f : ℕ) (s : Text)
      → length s ≤ f
      → length s ≤ n
      → Tokenizes (n - length s) n (tokens to_number n f s)
  unfolding tokens
  tokens-Tokenizes n f [] h k = tt
  tokens-Tokenizes n zero (c ∷ s) h k = absurd (omega arith)
  tokens-Tokenizes n (suc f) (c ∷ s) h k =
      go (next_token to_number n c s) (next_token-Advances to_number n c s)
        (λ rest short. tokens-Tokenizes n f rest (omega arith) (omega arith))
    where
      go :
          (r : Result FilterError (Option (Token Num) × Text))
          → Advances to_number (n - length (c ∷ s)) (length s) r
          → ((rest : Text)
              → length rest ≤ length s
              → Tokenizes (n - length rest) n (tokens to_number n f rest))
          → Tokenizes (n - length (c ∷ s)) n (
              r >>= λ (t, rest). tokens to_number n f rest >>= λ later. ok (keep to_number t later))
      go (ok (none, rest)) a ih =
          keep-Tokenizes (n - length rest) (n - length (c ∷ s)) n none _ (λ tok e. absurd (cc))
            (omega arith) (omega arith) (ih rest a)
      go (ok (some tok, rest)) (a, b) ih =
          keep-Tokenizes (n - length rest) (n - length (c ∷ s)) n (some tok) _
            (λ tok' e. ground arith) (omega arith) (omega arith) (ih rest a)
      go (err e) a ih = a

  -- The tokenizer never runs out of its fuel, the length of the input; when it returns tokens, their
  -- positions strictly increase and lie within the input.
  pub tokenize-Tokenizes : (input : Text) → Tokenizes 0 (length input) (tokenize to_number input)
  unfolding tokenize
  tokenize-Tokenizes input =
      let e : length input - length input ≡ 0 = omega arith in
      rw e at (tokens-Tokenizes (length input) (length input) input (omega arith) (omega arith))

-- A string literal: quotes and backslashes are escaped.
abbrev pub escape : Text → Text
escape [] = []
escape (c ∷ s) = if c == b'"' || c == 92 then 92 ∷ (c ∷ escape s) else c ∷ escape s

read_plain :
    (n start c : ℕ) (s : Text)
    → (c == b'"' || c == 92) ≡ false
    → read_string n start (c ∷ s) ≡ pushed c (read_string n start s)
unfolding read_string
read_plain n start c [] h = ground arith
read_plain n start c (d ∷ s) h =
    let a : (c == b'"') ≡ false = ground arith in
    let b : (c == 92) ≡ false = ground arith in rw (a, b)

read_escaped :
    (n start c : ℕ) (s : Text)
    → (c == b'"' || c == 92) ≡ true
    → read_string n start (92 ∷ (c ∷ s)) ≡ pushed c (read_string n start s)
unfolding read_string
read_escaped n start c s h = let a : unescape c ≡ some c = ground arith in rw a

-- Behind its opening quote, an escaped text and a closing quote are read back as the text.
pub read_string-escape :
    (n start : ℕ) (value rest : Text)
    → read_string n start (escape value ++ b'"' ∷ rest) ≡ ok (value, rest)
unfolding read_string
read_string-escape n start [] [] = refl
read_string-escape n start [] (c ∷ rest) = refl
read_string-escape n start (c ∷ value) rest =
    let ih = read_string-escape n start value rest in
    elim (Bool-cases (c == b'"' || c == 92)) [
      | inl special ↦
          rw special
            (read_escaped n start c (escape value ++ b'"' ∷ rest) special ∙ ap (pushed c) ih)
      | inr plain ↦
          rw plain (read_plain n start c (escape value ++ b'"' ∷ rest) plain ∙ ap (pushed c) ih)
    ]

-- Any text, quoted and escaped, is one string token at the position 0.
pub tokenize-quoted :
    {Num : Type 0} (to_number : Text → Option Num) (value : Text)
    → tokenize to_number (b'"' ∷ (escape value ++ b'"' ∷ []))
      ≡ ok (record { kind = literal (string value); start = 0 } ∷ [])
unfolding tokenize tokens next_token string_token
tokenize-quoted to_number value =
    let n = length (b'"' ∷ (escape value ++ b'"' ∷ [])) in
    let zero_start : n - n ≡ 0 = omega arith in rw (zero_start, read_string-escape n 0 value [])
