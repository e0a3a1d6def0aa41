-- ===== src/Sbd/Crc/Table.antt =====
-- sbd_acars.c: the table-driven CRC against the CRC bit by bit.
use native.Mathlib.Nat.{pow-suc, div-div-eq-div-mul}
use iridium_sniffer.Base.{
  ℕ, zero, suc, ◌+◌, ◌*◌, ◌/◌, ◌%◌, ◌^◌, ◌<◌, List, [], ◌∷◌, Bool-cases, inl, inr, bit_xor, get_or,
  ◌==◌, ◌≡◌, refl, ap, ap₂, ◌∙◌, sym, arith,
}
use iridium_sniffer.Bits.Xor.{
  bit_xor_comm, bit_xor_assoc, bit_xor-zero, bit_xor_cancel, half-bit_xor, low-bit_xor,
}
use iridium_sniffer.Ida.Crc.Residue.{bit_xor_upper}
use iridium_sniffer.Sbd.Crc.{
  crc16_bit, crc16_bits, table_from, crc16_init, crc16_byte, crc16_from, crc16_kermit,
}

-- CRC-16/Kermit without a table: a byte goes into the low end, and eight bits go out.
abbrev pub bit_by_bit : ℕ → List ℕ → ℕ
bit_by_bit crc [] = crc
bit_by_bit crc (b ∷ bytes) = bit_by_bit (crc16_bits 8 (bit_xor crc b)) bytes

abbrev pub AreBytes : List ℕ → Type 0
AreBytes [] = Unit
AreBytes (b ∷ bytes) = (b < 2 ^ 8) × AreBytes bytes

doubled : (y n : ℕ) → y * 2 ^ suc n ≡ 2 * (y * 2 ^ n)
doubled y n = rw (pow-suc 2 n) (omega arith)

swap : (a b c : ℕ) → bit_xor (bit_xor a b) c ≡ bit_xor (bit_xor a c) b
swap a b c = bit_xor_assoc a b c ∙ ap (bit_xor a) (bit_xor_comm b c) ∙ sym (bit_xor_assoc a c b)

-- The bits above the lowest one only move down.
crc16_bit-above : (x y : ℕ) → crc16_bit (bit_xor x (2 * y)) ≡ bit_xor (crc16_bit x) y
unfolding crc16_bit
crc16_bit-above x y =
    let low : bit_xor x (2 * y) % 2 ≡ x % 2 = omega (arith, low-bit_xor x (2 * y)) in
    let half : bit_xor x (2 * y) / 2 ≡ bit_xor (x / 2) y =
      half-bit_xor x (2 * y) ∙ ap (bit_xor (x / 2)) (omega arith) in
    elim (Bool-cases (x % 2 == 1)) [
      | inl e ↦ rw (low, half, e) (swap (x / 2) y 0x8408)
      | inr e ↦ rw (low, half, e) refl
    ]

pub crc16_bits-above :
    (n x y : ℕ) → crc16_bits n (bit_xor x (y * 2 ^ n)) ≡ bit_xor (crc16_bits n x) y
unfolding crc16_bits
crc16_bits-above zero x y = ap (bit_xor x) (omega arith)
crc16_bits-above (suc n) x y =
    rw (doubled y n, crc16_bit-above x (y * 2 ^ n)) (crc16_bits-above n (crc16_bit x) y)

div-bit_xor : (n a b : ℕ) → bit_xor a b / 2 ^ n ≡ bit_xor (a / 2 ^ n) (b / 2 ^ n)
div-bit_xor zero a b =
    let whole : bit_xor a b / 1 ≡ bit_xor a b = omega arith in
    whole ∙ ap₂ bit_xor {x = a} {y = a / 1} {u = b} {v = b / 1} (omega arith) (omega arith)
div-bit_xor (suc n) a b =
    moved (bit_xor a b)
    ∙ ap (λ t. t / 2 ^ n) (half-bit_xor a b)
    ∙ div-bit_xor n (a / 2) (b / 2)
    ∙ ap₂ bit_xor (sym (moved a)) (sym (moved b))
  where
    moved : (v : ℕ) → v / 2 ^ suc n ≡ v / 2 / 2 ^ n
    moved v = rw (pow-suc 2 n, div-div-eq-div-mul v 2 (2 ^ n)) (ap (λ t. v / t) (omega arith))

-- One step by the table, split at the low byte.
entry : (i n k : ℕ) → k < n → get_or (table_from i n) k 0 ≡ crc16_bits 8 (i + k)
unfolding table_from
entry i zero k h = absurd (omega arith)
entry i (suc n) zero h = ap (crc16_bits 8) (omega arith)
entry i (suc n) (suc k) h = entry (i + 1) n k (omega arith) ∙ ap (crc16_bits 8) (omega arith)

crc16_byte-bits :
    (crc b : ℕ) → b < 2 ^ 8 → crc16_byte crc16_init crc b ≡ crc16_bits 8 (bit_xor crc b)
unfolding crc16_byte crc16_init
crc16_byte-bits crc b h =
    let v = bit_xor crc b in
    let top : v / 2 ^ 8 ≡ crc / 2 ^ 8 =
      div-bit_xor 8 crc b ∙ ap (bit_xor (crc / 2 ^ 8)) (omega arith) ∙ bit_xor-zero (crc / 2 ^ 8) in
    let whole : bit_xor (v % 2 ^ 8) (v / 2 ^ 8 * 2 ^ 8) ≡ v =
      ap (λ t. bit_xor t (v / 2 ^ 8 * 2 ^ 8))
        (sym (bit_xor_upper 8 (v / 2 ^ 8) (v % 2 ^ 8) (omega arith)))
      ∙ bit_xor_cancel _ _
      ∙ omega arith in
    ap₂ bit_xor (entry 0 256 (v % 2 ^ 8) (omega arith) ∙ ap (crc16_bits 8) (omega arith)) (sym top)
    ∙ sym (crc16_bits-above 8 (v % 2 ^ 8) (v / 2 ^ 8))
    ∙ ap (crc16_bits 8) whole

pub crc16_from-bits :
    (crc : ℕ) (bytes : List ℕ)
    → AreBytes bytes
    → crc16_from crc16_init crc bytes ≡ bit_by_bit crc bytes
unfolding crc16_from
crc16_from-bits crc [] h = refl
crc16_from-bits crc (b ∷ bytes) (h, hs) =
    ap (λ c. crc16_from crc16_init c bytes) (crc16_byte-bits crc b h)
    ∙ crc16_from-bits (crc16_bits 8 (bit_xor crc b)) bytes hs

-- The CRC of bytes by the table of `crc16_init` is the CRC computed bit by bit.
pub crc16_kermit-bit_by_bit :
    (bytes : List ℕ) → AreBytes bytes → crc16_kermit crc16_init bytes ≡ bit_by_bit 0 bytes
unfolding crc16_kermit
crc16_kermit-bit_by_bit bytes h = crc16_from-bits 0 bytes h
