-- ===== src/Bch/Words.antt =====
-- frame_decode.c: `bits_to_uint` and `uint_to_bits` together.
use native.Mathlib.Nat.{pow-suc, one-le-pow, mod-le, lt_of_lt_of_le, pow-le-pow_right, mod-eq_of_lt}
use iridium_sniffer.Base.{
  ℕ, zero, suc, ◌+◌, ◌*◌, ◌/◌, ◌%◌, ◌^◌, ◌≤◌, ◌<◌, List, [], ◌∷◌, ◌++◌, bit_or, shl32, ◌≡◌, refl,
  ap, ◌∙◌, arith,
}
use iridium_sniffer.Bits.Or.{bit_or_double, bit_or-lt}
use iridium_sniffer.Bch.Sound.{IsError, no_error, single, double}
use iridium_sniffer.Bch.{shift_in, write_bits, bits_to_uint, uint_to_bits}

-- One bit shifted into a word that has room for it.
shift_bit : (val b : ℕ) → val * 2 < 2 ^ 32 → b < 2 → bit_or (shl32 val 1) b ≡ 2 * val + b
shift_bit val b room h = rw fits (bit_or_double val b h)
  where
    fits : shl32 val 1 ≡ val * 2
    fits = omega arith

shift_in-cons :
    (k b val : ℕ) (rest : List ℕ)
    → val * 2 < 2 ^ 32
    → b < 2
    → shift_in (suc k) (b ∷ rest) val ≡ shift_in k rest (2 * val + b)
unfolding shift_in
shift_in-cons k b val rest room h =
    ap (shift_in k rest) (rw (mod-eq_of_lt h) (shift_bit val b room h))

-- Reading the `n` bits of `v` and going on behind them.
shift_in-write_bits :
    (n k v acc : ℕ) (rest : List ℕ)
    → v < 2 ^ n
    → acc * 2 ^ n + v < 2 ^ 32
    → shift_in (n + k) (write_bits n v rest) acc ≡ shift_in k rest (acc * 2 ^ n + v)
unfolding write_bits
shift_in-write_bits zero k v acc rest h room =
    let all : 0 + k ≡ k = omega arith in
    let same : acc * 1 + v ≡ acc = omega arith in rw (all, same)
shift_in-write_bits (suc n) k v acc rest h room =
    rw (more, shift_in-write_bits n (suc k) (v / 2) acc (v % 2 ∷ rest) upper (omega (arith, grown)))
      (shift_in-cons k (v % 2) (acc * 2 ^ n + v / 2) rest (omega (arith, grown)) (omega arith)
        ∙ ap (shift_in k rest) (omega (arith, grown)))
  where
    more : suc n + k ≡ n + suc k
    more = omega arith

    upper : v / 2 < 2 ^ n
    upper = omega (arith, pow-suc 2 n)

    grown : acc * 2 ^ suc n ≡ 2 * (acc * 2 ^ n)
    grown = rw (pow-suc 2 n) (omega arith)

write_bits-append : (n v : ℕ) (xs ys : List ℕ) → write_bits n v xs ++ ys ≡ write_bits n v (xs ++ ys)
unfolding write_bits
write_bits-append zero v xs ys = refl
write_bits-append (suc n) v xs ys = write_bits-append n (v / 2) (v % 2 ∷ xs) ys

-- `bits_to_uint` gives back a word of `n` bits, at most 32, whose bits `uint_to_bits` wrote, whatever
-- stands behind them.
pub bits_to_uint-uint_to_bits :
    (n v : ℕ) (rest : List ℕ) → v < 2 ^ n → n ≤ 32 → bits_to_uint (uint_to_bits v n ++ rest) n ≡ v
unfolding bits_to_uint uint_to_bits
bits_to_uint-uint_to_bits n v rest h fits =
    let word : v < 2 ^ 32 = lt_of_lt_of_le h (pow-le-pow_right {n = 2} (omega arith) fits) in
    let all : n + 0 ≡ n = omega arith in
    let read : shift_in n (write_bits n v rest) 0 ≡ 0 * 2 ^ n + v =
      rw all at (shift_in-write_bits n 0 v 0 rest h (omega arith)) in
    rw (write_bits-append n v [] rest, read) (omega arith)

-- The word of a bit pattern has the bits of its pattern only.
shl32_one-lt : (w b : ℕ) → b < w → shl32 1 b < 2 ^ w
shl32_one-lt w b h =
    let below : 2 ^ suc b ≤ 2 ^ w = pow-le-pow_right {n = 2} (omega arith) h in
    omega (arith, pow-suc 2 b, one-le-pow b 2 (omega arith), mod-le (1 * 2 ^ b) (2 ^ 32))

pub IsError-lt : (w : ℕ) {n k e : ℕ} → IsError n k e → n ≤ w → e < 2 ^ w
IsError-lt w no_error h = one-le-pow w 2 (omega arith)
IsError-lt w (single b hb) h = shl32_one-lt w b (omega arith)
IsError-lt w (double b c hb hc) h =
    bit_or-lt w (shl32 1 b) (shl32 1 c) (shl32_one-lt w b (omega arith))
      (shl32_one-lt w c (omega arith))
