-- ===== src/Authentication/Otp/Tests.antt =====
-- One-time passwords with a concrete hash.
use server_kit.Base.{
  ℕ, ◌+◌, ◌^◌, ◌==◌, ◌&&◌, Text, codes, text_eq, length, every, ok, err, true, false, List, [], ◌∷◌,
  ◌++◌, none, ◌≡◌, refl, arith,
}
use server_kit.Authentication.Otp.{
  pos, negsuc, minus, plus, Algorithm, sha1, range_error, low_byte, shift, zeros, fill, uint_decode,
  byte, truncate, digits, pad, pad_start, utf8, timing_safe_equal, counter_at, generate_hotp,
  generate, check_token, search_window, validate_hotp, validate, OtpOptions,
}
use server_kit.Authentication.Otp.Counter.{unsigned, big_endian, uint_decode-big_endian}
use server_kit.Authentication.Otp.Window.{
  is_digit, any_step, generate_hotp-length, validate_hotp-any_step,
}

opened : Unit {0}
unfolding minus plus low_byte shift zeros fill uint_decode byte truncate digits pad pad_start utf8
    timing_safe_equal counter_at generate_hotp generate check_token search_window validate_hotp
    validate
opened = tt

-- A hash that repeats the bytes of the counter.
abbrev hash : Algorithm → Text → List ℕ → List ℕ
hash algorithm secret bytes = bytes ++ bytes ++ 4 ∷ []

bytes :
    (uint_decode (pos 258) ≡ 0 ∷ 0 ∷ 0 ∷ 0 ∷ 0 ∷ 0 ∷ 1 ∷ 2 ∷ [])
    × (uint_decode (negsuc 0) ≡ 255 ∷ 255 ∷ 255 ∷ 255 ∷ 255 ∷ 255 ∷ 255 ∷ 255 ∷ [])
unfolding opened
bytes = (refl, refl)

password : generate_hotp hash (codes "s") (pos 258) 6 sha1 ≡ codes "000258"
unfolding opened
password = refl

abbrev defaults : OtpOptions
defaults = record {
  type = none;
  algorithm = none;
  counter = none;
  period_seconds = none;
  token_length = none;
  timestamp = none;
}

-- 77 periods of thirty seconds after 1970.
timed : generate hash 2310000 (codes "s") defaults ≡ codes "000077"
unfolding opened
timed = refl

drift :
    (validate hash 2310000 (codes "000076") (codes "s") defaults 1 ≡ ok true)
    × (validate hash 2310000 (codes "000075") (codes "s") defaults 1 ≡ ok false)
unfolding opened
drift = (refl, refl)

-- Six characters that are no ASCII: the buffers differ in length, and the comparison throws.
full_width_throws :
    validate hash 2310000
      (65296 ∷ 65296 ∷ 65296 ∷ 65296 ∷ 65303 ∷ 65303 ∷ [])
      (codes "s")
      defaults
      1
    ≡ err range_error
unfolding opened
full_width_throws = refl

uint_decode-big_endian_example :
    (length (uint_decode (negsuc 300)) ≡ 8)
    × (big_endian 0 (uint_decode (negsuc 300)) ≡ unsigned (256 ^ 8) (negsuc 300))
uint_decode-big_endian_example = uint_decode-big_endian (negsuc 300) (omega arith)

generate_hotp-length_example :
    (length (generate_hotp hash (codes "s") (pos 258) 6 sha1) ≡ 6)
    × (every is_digit (generate_hotp hash (codes "s") (pos 258) 6 sha1) ≡ true)
generate_hotp-length_example = generate_hotp-length hash (codes "s") (pos 258) 6 sha1 (omega arith)

validate_hotp-any_step_example :
    validate_hotp hash (codes "000076") (codes "s") 77 6 sha1 1
    ≡ ok (
        length (codes "000076") == 6
        && any_step
            (λ c. text_eq (codes "000076") (generate_hotp hash (codes "s") c 6 sha1))
            77
            (1 + 1)
            0)
validate_hotp-any_step_example =
    validate_hotp-any_step hash (codes "000076") (codes "s") 77 6 sha1 1 refl (omega arith)
