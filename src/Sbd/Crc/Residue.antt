-- ===== src/Sbd/Crc/Residue.antt =====
-- sbd_acars.c: the CRC-16 of a message and its own CRC.
use iridium_sniffer.Base.{
  ℕ, zero, suc, ◌*◌, ◌/◌, ◌%◌, ◌^◌, ◌<◌, List, [], ◌∷◌, ◌++◌, bit_xor, ◌≡◌, refl, ap, ◌∙◌, sym,
  arith,
}
use iridium_sniffer.Bits.Step.{zero-bit_xor}
use iridium_sniffer.Bits.Xor.{bit_xor_assoc, bit_xor_self, bit_xor-lt}
use iridium_sniffer.Ida.Crc.Residue.{bit_xor_upper}
use iridium_sniffer.Sbd.Crc.{crc16_bit, crc16_bits, crc16_init, crc16_from, crc16_kermit}
use iridium_sniffer.Sbd.Crc.Table.{AreBytes, bit_by_bit, crc16_bits-above, crc16_from-bits}

crc16_bit-lt : (x : ℕ) → x < 2 ^ 16 → crc16_bit x < 2 ^ 16
unfolding crc16_bit
crc16_bit-lt x h = ground (arith, bit_xor-lt 16 (x / 2) 0x8408 (omega arith) (omega arith))

crc16_bits-lt : (n x : ℕ) → x < 2 ^ 16 → crc16_bits n x < 2 ^ 16
unfolding crc16_bits
crc16_bits-lt zero x h = h
crc16_bits-lt (suc n) x h = crc16_bits-lt n (crc16_bit x) (crc16_bit-lt x h)

crc16_bits-zero : (n : ℕ) → crc16_bits n 0 ≡ 0
unfolding crc16_bits crc16_bit
crc16_bits-zero zero = refl
crc16_bits-zero (suc n) = crc16_bits-zero n

bit_by_bit-lt :
    (crc : ℕ) (bytes : List ℕ) → AreBytes bytes → crc < 2 ^ 16 → bit_by_bit crc bytes < 2 ^ 16
bit_by_bit-lt crc [] a h = h
bit_by_bit-lt crc (b ∷ bytes) (l, a) h =
    bit_by_bit-lt (crc16_bits 8 (bit_xor crc b)) bytes a
      (crc16_bits-lt 8 (bit_xor crc b) (bit_xor-lt 16 crc b h (omega arith)))

bit_by_bit-append :
    (crc : ℕ) (xs ys : List ℕ) → bit_by_bit crc (xs ++ ys) ≡ bit_by_bit (bit_by_bit crc xs) ys
bit_by_bit-append crc [] ys = refl
bit_by_bit-append crc (x ∷ xs) ys = bit_by_bit-append (crc16_bits 8 (bit_xor crc x)) xs ys

AreBytes-append : (xs ys : List ℕ) → AreBytes xs → AreBytes ys → AreBytes (xs ++ ys)
AreBytes-append [] ys a b = b
AreBytes-append (x ∷ xs) ys (l, a) b = (l, AreBytes-append xs ys a b)

-- Its own two bytes, the low one first, leave nothing.
own_bytes : (crc : ℕ) → bit_by_bit crc (crc % 2 ^ 8 ∷ (crc / 2 ^ 8 ∷ [])) ≡ 0
own_bytes crc =
    let y = crc / 2 ^ 8 in
    let split : crc % 2 ^ 8 ≡ bit_xor crc (y * 2 ^ 8) =
      sym (bit_xor_upper 8 y (crc % 2 ^ 8) (omega arith))
      ∙ ap (λ t. bit_xor t (y * 2 ^ 8)) {y = crc} (omega arith) in
    let low : bit_xor crc (crc % 2 ^ 8) ≡ bit_xor 0 (y * 2 ^ 8) =
      ap (bit_xor crc) split
      ∙ sym (bit_xor_assoc crc crc (y * 2 ^ 8))
      ∙ ap (λ t. bit_xor t (y * 2 ^ 8)) (bit_xor_self crc) in
    let first : crc16_bits 8 (bit_xor crc (crc % 2 ^ 8)) ≡ y =
      ap (crc16_bits 8) low
      ∙ crc16_bits-above 8 0 y
      ∙ ap (λ t. bit_xor t y) (crc16_bits-zero 8)
      ∙ zero-bit_xor y in
    ap (λ t. crc16_bits 8 (bit_xor t y)) first
    ∙ ap (crc16_bits 8) (bit_xor_self y)
    ∙ crc16_bits-zero 8

-- The test of a received CRC accepts every message of bytes whose last two bytes are its CRC, the low
-- byte first.
pub crc16_kermit-residue :
    (bytes : List ℕ)
    → AreBytes bytes
    → let crc = crc16_kermit crc16_init bytes in
      crc16_kermit crc16_init (bytes ++ (crc % 2 ^ 8 ∷ (crc / 2 ^ 8 ∷ []))) ≡ 0
unfolding crc16_kermit
crc16_kermit-residue bytes a =
    let crc = crc16_from crc16_init 0 bytes in
    let same : crc ≡ bit_by_bit 0 bytes = crc16_from-bits 0 bytes a in
    let small : crc < 2 ^ 16 = omega (arith, same, bit_by_bit-lt 0 bytes a (omega arith)) in
    crc16_from-bits 0 (bytes ++ (crc % 2 ^ 8 ∷ (crc / 2 ^ 8 ∷ [])))
      (AreBytes-append bytes _ a (omega arith, (omega arith, tt)))
    ∙ bit_by_bit-append 0 bytes _
    ∙ ap (λ t. bit_by_bit t (crc % 2 ^ 8 ∷ (crc / 2 ^ 8 ∷ []))) (sym same)
    ∙ own_bytes crc
