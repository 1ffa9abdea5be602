-- ===== src/Authentication/Otp/Window.antt =====
-- The form of a password, and which passwords the drift window accepts.
use server_kit.Base.{
  ℕ, zero, suc, ◌+◌, ◌-◌, ◌/◌, ◌%◌, ◌^◌, ◌≤◌, ◌<◌, Text, text_eq, length, every, Result, ok, leb,
  ltb, ◌==◌, Bool, true, false, ◌&&◌, ◌||◌, Bool-cases, List, [], ◌∷◌, ◌≡◌, refl, ap, inl, inr,
  arith,
}
use server_kit.Authentication.Otp.{
  ℤ, minus, plus, Algorithm, OtpError, digits, pad, pad_start, utf8, timing_safe_equal, truncate,
  uint_decode, generate_hotp, check_token, search_window, validate_hotp,
}

abbrev pub is_digit : ℕ → Bool
is_digit c = leb b'0' c && leb c b'9'

abbrev pub is_ascii : ℕ → Bool
is_ascii c = ltb c 128

digit_of : (n : ℕ) → is_digit (n % 10 + b'0') ≡ true
digit_of n = ground arith

digits-every :
    (f n : ℕ) (acc : Text) → every is_digit acc ≡ true → every is_digit (digits f n acc) ≡ true
unfolding digits
digits-every zero n acc h = rw (digit_of n) h
digits-every (suc f) n acc h = elim (Bool-cases (n / 10 == 0)) [
  | inl last ↦ rw last (rw (digit_of n) h)
  | inr more ↦ rw more (digits-every f (n / 10) ((n % 10 + b'0') ∷ acc) (rw (digit_of n) h))
]

length-digits :
    (f n k : ℕ) (acc : Text) → n < 10 ^ k → 0 < k → length (digits f n acc) ≤ k + length acc
unfolding digits
length-digits f n zero acc h p = absurd (omega arith)
length-digits zero n (suc k) acc h p = omega arith
length-digits (suc f) n (suc zero) acc h p =
    let last : (n / 10 == 0) ≡ true = ground arith in rw last (omega arith)
length-digits (suc f) n (suc (suc k)) acc h p = elim (Bool-cases (n / 10 == 0)) [
  | inl last ↦ rw last (omega arith)
  | inr more ↦
      let ih =
        length-digits f (n / 10) (suc k) ((n % 10 + b'0') ∷ acc) (omega arith) (omega arith) in
      rw more (omega arith)
]

pad-every : (k : ℕ) (s : Text) → every is_digit s ≡ true → every is_digit (pad k s) ≡ true
unfolding pad
pad-every zero s h = h
pad-every (suc k) s h = pad-every k s h

length-pad : (k : ℕ) (s : Text) → length (pad k s) ≡ k + length s
unfolding pad
length-pad zero s = omega arith
length-pad (suc k) s = omega (arith, length-pad k s)

positive_power : (k : ℕ) → 0 < 10 ^ k
positive_power zero = omega arith
positive_power (suc k) = omega (arith, positive_power k)

-- For every hash, a password has exactly the requested number of characters, at least one, and all of
-- them are decimal digits.
pub generate_hotp-length :
    (hmac : Algorithm → Text → List ℕ → List ℕ) (secret : Text) (counter : ℤ) (k : ℕ)
    (algorithm : Algorithm)
    → 0 < k
    → (length (generate_hotp hmac secret counter k algorithm) ≡ k)
      × (every is_digit (generate_hotp hmac secret counter k algorithm) ≡ true)
unfolding generate_hotp pad_start
generate_hotp-length hmac secret counter k algorithm p =
    let t = truncate (hmac algorithm secret (uint_decode counter)) in
    let otp = t % 10 ^ k in
    let small : otp < 10 ^ k = omega (arith, positive_power k) in
    let short = length-digits otp otp k [] small p in
    let s = digits otp otp [] in
    (
      omega (arith, length-pad (k - length s) s),
      pad-every (k - length s) s (digits-every otp otp [] refl),
    )

utf8-ascii : (s : Text) → every is_ascii s ≡ true → utf8 s ≡ s
unfolding utf8
utf8-ascii [] h = refl
utf8-ascii (c ∷ []) h = let a : ltb c 128 ≡ true = ground arith in rw a refl
utf8-ascii (c ∷ (d ∷ s)) h =
    let a : ltb c 128 ≡ true = ground arith in
    let b : every is_ascii (d ∷ s) ≡ true = ground arith in
    rw a (ap (λ t. c ∷ t) (utf8-ascii (d ∷ s) b))

digits_ascii : (s : Text) → every is_digit s ≡ true → every is_ascii s ≡ true
digits_ascii [] h = refl
digits_ascii (c ∷ s) h = ground (arith, digits_ascii s)

-- The counters within the window pass the test: `counter - i` or `counter + i` for an `i` from the
-- step on, below `left` steps later.
abbrev pub any_step : (ℤ → Bool) → ℕ → ℕ → ℕ → Bool
any_step p counter zero i = false
any_step p counter (suc left) i =
    (p (minus counter i) || p (plus counter i)) || any_step p counter left (i + 1)

module _ (hmac : Algorithm → Text → List ℕ → List ℕ) where
  search_window-any_step :
      (check : ℤ → Result OtpError Bool) (p : ℤ → Bool) (counter left i : ℕ)
      → ((c : ℤ) → check c ≡ ok (p c))
      → search_window hmac check counter left i ≡ ok (any_step p counter left i)
  unfolding search_window
  search_window-any_step check p counter zero i h = refl
  search_window-any_step check p counter (suc left) i h =
      let ih = search_window-any_step check p counter left (i + 1) h in
      elim (Bool-cases (p (minus counter i))) [
        | inl below ↦ rw (h (minus counter i), below) refl
        | inr not_below ↦ elim (Bool-cases (p (plus counter i))) [
          | inl above ↦ rw (h (minus counter i), not_below, h (plus counter i), above) refl
          | inr not_above ↦ rw (h (minus counter i), not_below, h (plus counter i), not_above) ih
        ]
      ]

  check_token-ascii :
      (otp secret : Text) (k : ℕ) (algorithm : Algorithm) (c : ℤ)
      → every is_ascii otp ≡ true
      → 0 < k
      → length otp ≡ k
      → check_token hmac otp secret k algorithm c
        ≡ ok (text_eq otp (generate_hotp hmac secret c k algorithm))
  unfolding check_token timing_safe_equal
  check_token-ascii otp secret k algorithm c h p e =
      let token = generate_hotp hmac secret c k algorithm in
      let (len, all) = generate_hotp-length hmac secret c k algorithm p in
      let same : (length otp == length token) ≡ true = ground arith in
      rw (utf8-ascii otp h, utf8-ascii token (digits_ascii token all), same) refl

  -- For an ASCII text and at least one digit, validation never throws: it accepts exactly the texts of the
  -- right length that are the password of a counter within the window.
  pub validate_hotp-any_step :
      (otp secret : Text) (counter k : ℕ) (algorithm : Algorithm) (window : ℕ)
      → every is_ascii otp ≡ true
      → 0 < k
      → validate_hotp hmac otp secret counter k algorithm window
        ≡ ok (
            length otp == k
            && any_step
                (λ c. text_eq otp (generate_hotp hmac secret c k algorithm))
                counter
                (window + 1)
                0)
  unfolding validate_hotp
  validate_hotp-any_step otp secret counter k algorithm window h p =
      elim (Bool-cases (length otp == k)) [
        | inr other ↦ rw other refl
        | inl same ↦ rw same (
            search_window-any_step (check_token hmac otp secret k algorithm)
              (λ c. text_eq otp (generate_hotp hmac secret c k algorithm)) counter (window + 1) 0
              (λ c. check_token-ascii otp secret k algorithm c h p (ground arith)))
      ]
