-- ===== src/Bits/Xor.antt =====
-- The operator `^` of C: its laws as an operation on numbers and on single bits.
use iridium_sniffer.Base.{
  ℕ, zero, suc, ◌+◌, ◌*◌, ◌/◌, ◌%◌, ◌^◌, ◌≤◌, ◌<◌, bit_xor, ◌≡◌, refl, ap, arith, bit_at,
}
use iridium_sniffer.Bits.Step.{zero-bit_xor, bit_xor_halves}
use native.Mathlib.Nat.{pow-suc, div-div-eq-div-mul}

-- Each law is proved below a bound that halves.
comm_below : (n a b : ℕ) → a ≤ n → b ≤ n → bit_xor a b ≡ bit_xor b a
comm_below zero a b h k = let p : a ≡ b = omega arith in rw p
comm_below (suc n) a b h k = omega (
  arith,
  bit_xor_halves a b,
  bit_xor_halves b a,
  comm_below n (a / 2) (b / 2) (omega arith) (omega arith),
)

pub bit_xor_comm : (a b : ℕ) → bit_xor a b ≡ bit_xor b a
bit_xor_comm a b = comm_below (a + b) a b (omega arith) (omega arith)

pub bit_xor-zero : (a : ℕ) → bit_xor a 0 ≡ a
bit_xor-zero a = omega (arith, bit_xor_comm a 0, zero-bit_xor a)

self_below : (n a : ℕ) → a ≤ n → bit_xor a a ≡ 0
self_below n zero h = zero-bit_xor 0
self_below zero (suc a) h = absurd (omega arith)
self_below (suc n) (suc a) h =
    omega (arith, bit_xor_halves (suc a) (suc a), self_below n (suc a / 2) (omega arith))

pub bit_xor_self : (a : ℕ) → bit_xor a a ≡ 0
bit_xor_self a = self_below a a (omega arith)

-- The halves and the low digit of an exclusive or.
pub half-bit_xor : (a b : ℕ) → bit_xor a b / 2 ≡ bit_xor (a / 2) (b / 2)
half-bit_xor a b = omega (arith, bit_xor_halves a b)

pub low-bit_xor : (a b : ℕ) → bit_xor a b % 2 ≡ (a % 2 + b % 2) % 2
low-bit_xor a b = omega (arith, bit_xor_halves a b)

assoc_below : (n a b c : ℕ) → a + b + c ≤ n → bit_xor (bit_xor a b) c ≡ bit_xor a (bit_xor b c)
assoc_below zero a b c h =
    let p : a ≡ 0 = omega arith in
    let q : b ≡ 0 = omega arith in let r : c ≡ 0 = omega arith in rw (p, q, r) refl
assoc_below (suc n) zero b c h = rw (zero-bit_xor b, zero-bit_xor (bit_xor b c))
assoc_below (suc n) (suc a) b c h = omega (
  arith,
  bit_xor_halves (bit_xor (suc a) b) c,
  bit_xor_halves (suc a) (bit_xor b c),
  ap (λ (t : ℕ). bit_xor t (c / 2)) (half-bit_xor (suc a) b),
  ap (λ (t : ℕ). bit_xor (suc a / 2) t) (half-bit_xor b c),
  low-bit_xor (suc a) b,
  low-bit_xor b c,
  assoc_below n (suc a / 2) (b / 2) (c / 2) (omega arith),
)

pub bit_xor_assoc : (a b c : ℕ) → bit_xor (bit_xor a b) c ≡ bit_xor a (bit_xor b c)
bit_xor_assoc a b c = assoc_below (a + b + c) a b c (omega arith)

-- Two errors of the same pattern cancel.
pub bit_xor_cancel : (a b : ℕ) → bit_xor (bit_xor a b) b ≡ a
bit_xor_cancel a b = rw (bit_xor_assoc a b b, bit_xor_self b) (bit_xor-zero a)

pub bit_xor_middle :
    (a b c d : ℕ) → bit_xor (bit_xor a b) (bit_xor c d) ≡ bit_xor (bit_xor a c) (bit_xor b d)
bit_xor_middle a b c d = rw (
  bit_xor_assoc a b (bit_xor c d),
  ← bit_xor_assoc b c d,
  bit_xor_comm b c,
  bit_xor_assoc c b d,
  ← bit_xor_assoc a c (bit_xor b d),
)

pub bit_at-suc : (a i : ℕ) → bit_at a (suc i) ≡ bit_at (a / 2) i
bit_at-suc a i =
    rw (div-div-eq-div-mul a 2 (2 ^ i)) (omega (arith, ap (λ (t : ℕ). a / t % 2) (pow_two_suc i)))
  where
    pow_two_suc : (k : ℕ) → 2 ^ suc k ≡ 2 * 2 ^ k
    pow_two_suc k = omega (arith, pow-suc 2 k)

pub bit_at-bit_xor : (a b i : ℕ) → bit_at (bit_xor a b) i ≡ (bit_at a i + bit_at b i) % 2
bit_at-bit_xor a b zero = omega (arith, low-bit_xor a b)
bit_at-bit_xor a b (suc i) = omega (
  arith,
  bit_at-suc (bit_xor a b) i,
  bit_at-suc a i,
  bit_at-suc b i,
  ap (λ (t : ℕ). bit_at t i) (half-bit_xor a b),
  bit_at-bit_xor (a / 2) (b / 2) i,
)

-- Words of a width stay in it.
pub bit_xor-lt : (w a b : ℕ) → a < 2 ^ w → b < 2 ^ w → bit_xor a b < 2 ^ w
bit_xor-lt zero a b h k =
    let p : a ≡ 0 = omega arith in let q : b ≡ 0 = omega arith in rw (p, q) (omega arith)
bit_xor-lt (suc w) a b h k = omega (
  arith,
  pow-suc 2 w,
  bit_xor_halves a b,
  bit_xor-lt w (a / 2) (b / 2) (omega (arith, pow-suc 2 w)) (omega (arith, pow-suc 2 w)),
)
