-- ===== src/Bits/Or.antt =====
-- The operator `|` of C on a shifted word and a bit.
use iridium_sniffer.Base.{ℕ, zero, suc, ◌+◌, ◌*◌, ◌/◌, ◌^◌, ◌≤◌, ◌<◌, bit_or, ◌≡◌, arith}
use native.Mathlib.Nat.{pow-suc}
use iridium_sniffer.Bits.Step.{zero-bit_or, bit_or_halves}

zero_below : (n a : ℕ) → a ≤ n → bit_or a 0 ≡ a
zero_below n zero h = zero-bit_or 0
zero_below zero (suc a) h = absurd (omega arith)
zero_below (suc n) (suc a) h =
    omega (arith, bit_or_halves (suc a) 0, zero_below n (suc a / 2) (omega arith))

bit_or-zero : (a : ℕ) → bit_or a 0 ≡ a
bit_or-zero a = zero_below a a (omega arith)

pub bit_or_double : (x b : ℕ) → b < 2 → bit_or (x * 2) b ≡ 2 * x + b
bit_or_double x b h = omega (arith, bit_or_halves (x * 2) b, whole, bit_or-zero x)
  where
    whole : bit_or (x * 2 / 2) (b / 2) ≡ bit_or x 0
    whole = let p : x * 2 / 2 ≡ x = omega arith in let q : b / 2 ≡ 0 = omega arith in rw (p, q)

pub bit_or-lt : (w a b : ℕ) → a < 2 ^ w → b < 2 ^ w → bit_or a b < 2 ^ w
bit_or-lt zero a b h k =
    let p : a ≡ 0 = omega arith in let q : b ≡ 0 = omega arith in rw (p, q) (omega arith)
bit_or-lt (suc w) a b h k = omega (
  arith,
  pow-suc 2 w,
  bit_or_halves a b,
  bit_or-lt w (a / 2) (b / 2) (omega (arith, pow-suc 2 w)) (omega (arith, pow-suc 2 w)),
)
