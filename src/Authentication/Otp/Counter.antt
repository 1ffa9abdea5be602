-- ===== src/Authentication/Otp/Counter.antt =====
-- The bytes of a counter.
use server_kit.Base.{
  ℕ, zero, suc, ◌+◌, ◌-◌, ◌*◌, ◌/◌, ◌%◌, ◌^◌, ◌<◌, length, length-append, List, [], ◌∷◌, ◌++◌, ◌≡◌,
  refl, ap, ◌∙◌, arith,
}
use server_kit.Authentication.Otp.{ℤ, pos, negsuc, low_byte, shift, zeros, fill, uint_decode}

-- The number that bytes spell, the most significant first, behind the number `acc`.
abbrev pub big_endian : ℕ → List ℕ → ℕ
big_endian acc [] = acc
big_endian acc (b ∷ bs) = big_endian (acc * 256 + b) bs

big_endian-append :
    (acc b : ℕ) (bs : List ℕ) → big_endian acc (bs ++ b ∷ []) ≡ big_endian acc bs * 256 + b
big_endian-append acc b [] = refl
big_endian-append acc b (c ∷ bs) = big_endian-append (acc * 256 + c) b bs

big_endian-zeros : (k : ℕ) → big_endian 0 (zeros k) ≡ 0
unfolding zeros
big_endian-zeros zero = refl
big_endian-zeros (suc k) = big_endian-zeros k

length-zeros : (k : ℕ) → length (zeros k) ≡ k
unfolding zeros
length-zeros zero = refl
length-zeros (suc k) = ap suc (length-zeros k)

-- What a counter is worth in `256 ^ k`, a negative one by its complement.
abbrev pub unsigned : ℕ → ℤ → ℕ
unsigned size (pos n) = n
unsigned size (negsuc n) = size - 1 - n

abbrev pub Fits : ℕ → ℤ → Type 0
Fits size (pos n) = n < size
Fits size (negsuc n) = n < size

length-fill : (k : ℕ) (c : ℤ) → length (fill k c) ≡ k
unfolding fill shift
length-fill zero c = refl
length-fill (suc k) (pos zero) = length-zeros (suc k)
length-fill (suc k) (pos (suc n)) = omega (
  arith,
  length-append (fill k (shift (pos (suc n)))) (low_byte (pos (suc n)) ∷ []),
  length-fill k (shift (pos (suc n))),
)
length-fill (suc k) (negsuc n) = omega (
  arith,
  length-append (fill k (shift (negsuc n))) (low_byte (negsuc n) ∷ []),
  length-fill k (shift (negsuc n)),
)

big_endian-fill :
    (k : ℕ) (c : ℤ) → Fits (256 ^ k) c → big_endian 0 (fill k c) ≡ unsigned (256 ^ k) c
unfolding fill shift low_byte
big_endian-fill zero (pos n) h = omega arith
big_endian-fill zero (negsuc n) h = omega arith
big_endian-fill (suc k) (pos zero) h = big_endian-zeros (suc k)
big_endian-fill (suc k) (pos (suc n)) h =
    let ih = big_endian-fill k (pos (suc n / 256)) (omega arith) in
    let e = big_endian-append 0 (suc n % 256) (fill k (pos (suc n / 256))) in e ∙ omega arith
big_endian-fill (suc k) (negsuc n) h =
    let ih = big_endian-fill k (negsuc (n / 256)) (omega arith) in
    let e = big_endian-append 0 (255 - n % 256) (fill k (negsuc (n / 256))) in e ∙ omega arith

-- A counter from -2 ^ 64 up to 2 ^ 64 - 1 is written as eight bytes, the most significant first, that
-- spell it, a negative one in two's complement.
pub uint_decode-big_endian :
    (c : ℤ)
    → Fits (256 ^ 8) c
    → (length (uint_decode c) ≡ 8) × (big_endian 0 (uint_decode c) ≡ unsigned (256 ^ 8) c)
unfolding uint_decode
uint_decode-big_endian c h = (length-fill 8 c, big_endian-fill 8 c h)
