-- ===== src/Ida/Crc/Residue.antt =====
-- ida_decode.c, `crc_ccitt`: the CRC of a message and its own CRC.
use native.Mathlib.Nat.{pow-suc, mul-le-mul_left, mod-eq_of_lt, one-le-pow, div-eq_of_lt}
use iridium_sniffer.Base.{
  ℕ, zero, suc, ◌+◌, ◌*◌, ◌/◌, ◌%◌, ◌^◌, ◌<◌, List, [], ◌∷◌, ◌++◌, bit_xor, u16, ◌≡◌, refl, ap, ap₂,
  ◌∙◌, arith,
}
use iridium_sniffer.Bits.Step.{bit_xor_halves}
use iridium_sniffer.Bits.Xor.{bit_xor_self, bit_xor-lt}
use iridium_sniffer.Ida.Crc.{crc_bit, crc_bits, crc_byte, crc_from, crc_ccitt}

-- The upper part of a word clears itself.
pub bit_xor_upper : (k a r : ℕ) → r < 2 ^ k → bit_xor (a * 2 ^ k + r) (a * 2 ^ k) ≡ r
bit_xor_upper zero a r h =
    let p : a * 1 + r ≡ a * 1 = omega arith in rw p (bit_xor_self (a * 1) ∙ omega arith)
bit_xor_upper (suc k) a r h = omega (
  arith,
  bit_xor_halves (a * 2 ^ suc k + r) (a * 2 ^ suc k),
  bit_xor_upper k a (r / 2) (omega (arith, pow-suc 2 k)),
  ap₂ bit_xor upper lower,
  doubled,
)
  where
    doubled : a * 2 ^ suc k ≡ 2 * (a * 2 ^ k)
    doubled = rw (pow-suc 2 k) (omega arith)

    upper : (a * 2 ^ suc k + r) / 2 ≡ a * 2 ^ k + r / 2
    upper = omega (arith, doubled)

    lower : a * 2 ^ suc k / 2 ≡ a * 2 ^ k
    lower = omega (arith, doubled)

crc_bit-lt : (crc : ℕ) → crc_bit crc < 2 ^ 16
unfolding crc_bit
crc_bit-lt crc = ground arith

crc_bits-lt : (n crc : ℕ) → crc < 2 ^ 16 → crc_bits n crc < 2 ^ 16
crc_bits-lt zero crc h = unfold crc_bits in h
crc_bits-lt (suc n) crc h = step (crc_bits-lt n (crc_bit crc) (crc_bit-lt crc))
  where
    step : crc_bits n (crc_bit crc) < 2 ^ 16 → crc_bits (suc n) crc < 2 ^ 16
    step q = unfold crc_bits in q

crc_byte-lt : (crc byte : ℕ) → crc < 2 ^ 16 → crc_byte crc byte < 2 ^ 16
crc_byte-lt crc byte h =
    unfold crc_byte in
    crc_bits-lt 8 (bit_xor crc (u16 (byte * 2 ^ 8)))
      (bit_xor-lt 16 crc (u16 (byte * 2 ^ 8)) h (omega arith))

crc_from-lt : (crc : ℕ) (bytes : List ℕ) → crc < 2 ^ 16 → crc_from crc bytes < 2 ^ 16
unfolding crc_from
crc_from-lt crc [] h = h
crc_from-lt crc (b ∷ bytes) h = crc_from-lt (crc_byte crc b) bytes (crc_byte-lt crc b h)

crc_from-append :
    (crc : ℕ) (xs ys : List ℕ) → crc_from crc (xs ++ ys) ≡ crc_from (crc_from crc xs) ys
unfolding crc_from
crc_from-append crc [] ys = refl
crc_from-append crc (x ∷ xs) ys = crc_from-append (crc_byte crc x) xs ys

-- Bits shift up unchanged while none reaches the top.
crc_bit_small : (crc : ℕ) → crc < 2 ^ 15 → crc_bit crc ≡ crc * 2
unfolding crc_bit
crc_bit_small crc h = rw (div-eq_of_lt {n = crc} {m = 2 ^ 15} h) (mod-eq_of_lt (omega arith))

crc_bits_small : (n crc : ℕ) → crc * 2 ^ n < 2 ^ 16 → crc_bits n crc ≡ crc * 2 ^ n
unfolding crc_bits
crc_bits_small zero crc h = omega arith
crc_bits_small (suc n) crc h =
    rw (crc_bit_small crc small, crc_bits_small n (crc * 2) (omega (arith, doubled)))
      (omega (arith, doubled))
  where
    doubled : crc * 2 ^ suc n ≡ crc * 2 * 2 ^ n
    doubled = rw (pow-suc 2 n) (omega arith)

    small : crc < 2 ^ 15
    small = omega (arith, doubled, mul-le-mul_left crc (one-le-pow n 2 (omega arith)))

-- Feeding the CRC's own two bytes leaves nothing.
own_bytes : (crc : ℕ) → crc < 2 ^ 16 → crc_byte (crc_byte crc (crc / 256)) (crc % 256) ≡ 0
own_bytes crc h = ap (λ c. crc_byte c (crc % 256)) first ∙ second
  where
    emptied : bit_xor crc (u16 (crc / 256 * 2 ^ 8)) ≡ crc % 256
    emptied =
        ap₂ bit_xor {x = crc} {y = crc / 256 * 2 ^ 8 + crc % 256} (omega arith) (omega arith)
        ∙ bit_xor_upper 8 (crc / 256) (crc % 256) (omega arith)

    first : crc_byte crc (crc / 256) ≡ crc % 256 * 2 ^ 8
    first = unfold crc_byte in ap (crc_bits 8) emptied ∙ crc_bits_small 8 (crc % 256) (omega arith)

    gone : bit_xor (crc % 256 * 2 ^ 8) (u16 (crc % 256 * 2 ^ 8)) ≡ 0
    gone = ap (bit_xor (crc % 256 * 2 ^ 8)) (omega arith) ∙ bit_xor_self (crc % 256 * 2 ^ 8)

    second : crc_byte (crc % 256 * 2 ^ 8) (crc % 256) ≡ 0
    second = unfold crc_byte in ap (crc_bits 8) gone ∙ crc_bits_small 8 0 (omega arith)

-- The receiver's test `computed_crc == 0` accepts every message whose last two bytes are its CRC.
pub crc_ccitt-residue :
    (bytes : List ℕ)
    → let crc = crc_ccitt bytes in crc_ccitt (bytes ++ (crc / 256 ∷ crc % 256 ∷ [])) ≡ 0
unfolding crc_ccitt crc_from
crc_ccitt-residue bytes =
    crc_from-append 0xFFFF bytes _
    ∙ own_bytes (crc_from 0xFFFF bytes) (crc_from-lt 0xFFFF bytes (omega arith))
