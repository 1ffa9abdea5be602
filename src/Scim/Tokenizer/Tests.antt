-- ===== src/Scim/Tokenizer/Tests.antt =====
-- The tokenizer on concrete inputs.
use server_kit.Base.{
  ℕ, ◌+◌, ◌*◌, ◌-◌, Text, codes, ok, err, leb, ◌&&◌, if◌then◌else◌, [], ◌∷◌, ◌++◌, Option, some,
  none, ◌≡◌, refl,
}
use server_kit.Scim.Ast.{
  eq, pr, and, string, number, identifier, literal, keyword, op, lbracket, rbracket,
  unterminated_string, unsupported_escape, invalid_number, unexpected_character,
}
use server_kit.Scim.Tokenizer.{
  tokenize, tokens, next_token, identifier_token, string_token, number_token, classify, read_number,
  read_exponent, after_mark, take_if, span, read_string, lower_case, is_identifier_part,
  is_identifier_start,
}
use server_kit.Scim.Tokenizer.Placed.{Tokenizes, tokenize-Tokenizes, escape, tokenize-quoted}

opened : Unit {0}
unfolding tokenize tokens next_token identifier_token string_token number_token classify read_number
    read_exponent after_mark take_if span read_string lower_case is_identifier_part
    is_identifier_start
opened = tt

-- A reading of numbers: texts of digits.
abbrev digits : ℕ → Text → Option ℕ
digits n [] = some n
digits n (c ∷ s) = if leb b'0' c && leb c b'9' then digits (n * 10 + (c - b'0')) s else none

abbrev decimal : Text → Option ℕ
decimal [] = none
decimal (c ∷ s) = digits 0 (c ∷ s)

words :
    tokenize decimal (codes "a.b PR and emails[x eq 42]")
    ≡ ok (
        record { kind = identifier (codes "a.b"); start = 0 }
        ∷ record { kind = op pr; start = 4 }
        ∷ record { kind = keyword and; start = 7 }
        ∷ record { kind = identifier (codes "emails"); start = 11 }
        ∷ record { kind = lbracket; start = 17 }
        ∷ record { kind = identifier (codes "x"); start = 18 }
        ∷ record { kind = op eq; start = 20 }
        ∷ record { kind = literal (number 42); start = 23 }
        ∷ record { kind = rbracket; start = 25 }
        ∷ [])
unfolding opened
words = refl

unterminated : tokenize decimal (codes "a eq \"b") ≡ err (unterminated_string 5)
unfolding opened
unterminated = refl

bad_escape : tokenize decimal (codes "\"a\\u0041\"") ≡ err (unsupported_escape 2)
unfolding opened
bad_escape = refl

minus_alone : tokenize decimal (codes "a eq -") ≡ err (invalid_number 5)
unfolding opened
minus_alone = refl

stray : tokenize decimal (codes "a = 1") ≡ err (unexpected_character 2)
unfolding opened
stray = refl

tokenize-Tokenizes_words : Tokenizes 0 26 (tokenize decimal (codes "a.b PR and emails[x eq 42]"))
tokenize-Tokenizes_words = tokenize-Tokenizes decimal (codes "a.b PR and emails[x eq 42]")

tokenize-quoted_example :
    tokenize decimal (b'"' ∷ (escape (codes "a\"b\\") ++ b'"' ∷ []))
    ≡ ok (record { kind = literal (string (codes "a\"b\\")); start = 0 } ∷ [])
tokenize-quoted_example = tokenize-quoted decimal (codes "a\"b\\")
