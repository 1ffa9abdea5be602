-- ===== src/Authentication/Otp.antt =====
-- packages/authentication/src/providers/otp.provider.ts: one-time passwords. The keyed hash, with the
-- base32 decoding of the secret, is a parameter; a time is its number of milliseconds since 1970.
pub mod Counter
pub mod Window
mod Tests
use server_kit.Base.{
  ℕ, zero, suc, ◌+◌, ◌-◌, ◌*◌, ◌/◌, ◌%◌, ◌^◌, Text, codes, text_eq, length, Result, ok, err, ◌>>=◌,
  leb, ltb, ◌==◌, Bool, true, false, not, ◌&&◌, if◌then◌else◌, List, [], ◌∷◌, ◌++◌, Option, some,
  none,
}

-- A counter, which the drift window may take below 0.
pub data ℤ : Type 0 where
  pos negsuc : ℕ → ℤ

-- `counter - i` and `counter + i`.
pub minus : ℕ → ℕ → ℤ
minus c i = if leb i c then pos (c - i) else negsuc (i - c - 1)

pub plus : ℕ → ℕ → ℤ
plus c i = pos (c + i)

-- uintDecode: `acc & 255`, and `acc` without it shifted by a byte.
unfoldable pub low_byte : ℤ → ℕ
low_byte (pos n) = n % 256
low_byte (negsuc n) = 255 - n % 256

unfoldable pub shift : ℤ → ℤ
shift (pos n) = pos (n / 256)
shift (negsuc n) = negsuc (n / 256)

unfoldable pub zeros : ℕ → List ℕ
zeros zero = []
zeros (suc k) = 0 ∷ zeros k

-- The loop of uintDecode, which fills `k` bytes from the last one and stops at 0.
unfoldable pub fill : ℕ → ℤ → List ℕ
fill zero acc = []
fill (suc k) (pos zero) = zeros (suc k)
fill (suc k) acc = fill k (shift acc) ++ low_byte acc ∷ []

pub uint_decode : ℤ → List ℕ
uint_decode num = fill 8 num

-- `digest[i]!`, where a missing byte counts as 0 under `&`.
pub byte : List ℕ → ℕ → ℕ
byte [] i = 0
byte (b ∷ bs) zero = b
byte (b ∷ bs) (suc i) = byte bs i

-- The 31 bits of the digest at the offset that its last byte gives.
pub truncate : List ℕ → ℕ
truncate digest =
    let offset = byte digest (length digest - 1) % 16 in
    byte digest offset % 128 * 16777216
    + byte digest (offset + 1) % 256 * 65536
    + byte digest (offset + 2) % 256 * 256
    + byte digest (offset + 3) % 256

-- `toString`, with the number as fuel, in front of a text.
pub digits : ℕ → ℕ → Text → Text
digits zero n acc = (n % 10 + b'0') ∷ acc
digits (suc f) n acc =
    let more = digits f (n / 10) ((n % 10 + b'0') ∷ acc) in
    if n / 10 == 0 then (n % 10 + b'0') ∷ acc else more

-- `padStart(k, '0')`, of what is missing.
pub pad : ℕ → Text → Text
pad zero s = s
pad (suc k) s = b'0' ∷ pad k s

pub pad_start : ℕ → Text → Text
pad_start k s = pad (k - length s) s

-- Buffer.from: the UTF-8 bytes, with U+FFFD for a lone surrogate.
pub utf8 : Text → List ℕ
utf8 [] = []
utf8 (c ∷ []) =
    if ltb c 128
    then c ∷ []
    else if ltb c 2048
    then (192 + c / 64) ∷ (128 + c % 64) ∷ []
    else if leb 55296 c && ltb c 57344
    then 239 ∷ 191 ∷ 189 ∷ []
    else (224 + c / 4096) ∷ (128 + c / 64 % 64) ∷ (128 + c % 64) ∷ []
utf8 (c ∷ (d ∷ s)) =
    let next = utf8 (d ∷ s) in
    let behind_pair = utf8 s in
    let point = 65536 + (c - 55296) * 1024 + (d - 56320) in
    if ltb c 128
    then c ∷ next
    else if ltb c 2048
    then (192 + c / 64) ∷ (128 + c % 64) ∷ next
    else if leb 55296 c && ltb c 56320 && leb 56320 d && ltb d 57344
    then (240 + point / 262144)
      ∷ (128 + point / 4096 % 64)
      ∷ (128 + point / 64 % 64)
      ∷ (128 + point % 64)
      ∷ behind_pair
    else if leb 55296 c && ltb c 57344
    then 239 ∷ 191 ∷ 189 ∷ next
    else (224 + c / 4096) ∷ (128 + c / 64 % 64) ∷ (128 + c % 64) ∷ next

-- crypto.timingSafeEqual throws a RangeError on buffers of different lengths.
pub data OtpError : Type 0 where
  range_error : OtpError

pub timing_safe_equal : List ℕ → List ℕ → Result OtpError Bool
timing_safe_equal a b = if length a == length b then ok (text_eq a b) else err range_error

pub data OtpType : Type 0 where
  hotp totp : OtpType

pub data Algorithm : Type 0 where
  sha1 sha256 sha512 : Algorithm

-- `Partial<HotpOptions | TotpOptions>`.
pub record OtpOptions : Type 0 where
  pub type : Option OtpType
  pub algorithm : Option Algorithm
  pub counter : Option ℕ
  pub period_seconds : Option ℕ
  pub token_length : Option ℕ
  pub timestamp : Option ℕ

-- `{ ...defaultOtpOptions, ...options }`, field by field.
abbrev pub or_default : {A : Type 0} → A → Option A → A
or_default d none = d
or_default d (some a) = a

pub counter_at : ℕ → ℕ → ℕ
counter_at now period = now / (1000 * period)

module _ (hmac : Algorithm → Text → List ℕ → List ℕ) where
  pub generate_hotp : Text → ℤ → ℕ → Algorithm → Text
  generate_hotp secret counter token_length algorithm =
      let otp = truncate (hmac algorithm secret (uint_decode counter)) % 10 ^ token_length in
      pad_start token_length (digits otp otp [])

  -- The options with the current time, which counts where none is given.
  pub generate : ℕ → Text → OtpOptions → Text
  generate now secret options =
      let token_length = or_default 6 (options.token_length) in
      let algorithm = or_default sha1 (options.algorithm) in
      elim (or_default totp (options.type)) [
        | hotp ↦ generate_hotp secret (pos (or_default 0 (options.counter))) token_length algorithm
        | totp ↦
            generate_hotp secret
              (pos (
                counter_at (or_default now (options.timestamp))
                  (or_default 30 (options.period_seconds))))
              token_length algorithm
      ]

  pub check_token : Text → Text → ℕ → Algorithm → ℤ → Result OtpError Bool
  check_token otp secret token_length algorithm i =
      timing_safe_equal (utf8 otp) (utf8 (generate_hotp secret i token_length algorithm))

  -- The loop of validateHOTP with `left` more steps from the step `i`.
  pub search_window : (ℤ → Result OtpError Bool) → ℕ → ℕ → ℕ → Result OtpError Bool
  search_window check counter zero i = ok false
  search_window check counter (suc left) i = do
    below ← check (minus counter i)
    above ← (if below then ok true else check (plus counter i))
    if above then ok true else search_window check counter left (i + 1)

  pub validate_hotp : Text → Text → ℕ → ℕ → Algorithm → ℕ → Result OtpError Bool
  validate_hotp otp secret counter token_length algorithm window =
      if not (length otp == token_length)
      then ok false
      else search_window (check_token otp secret token_length algorithm) counter (window + 1) 0

  pub validate : ℕ → Text → Text → OtpOptions → ℕ → Result OtpError Bool
  validate now otp secret options window =
      let token_length = or_default 6 (options.token_length) in
      let algorithm = or_default sha1 (options.algorithm) in
      elim (or_default totp (options.type)) [
        | hotp ↦
            validate_hotp otp secret (or_default 0 (options.counter)) token_length algorithm window
        | totp ↦
            validate_hotp otp secret
              (counter_at (or_default now (options.timestamp))
                (or_default 30 (options.period_seconds)))
              token_length algorithm window
      ]
