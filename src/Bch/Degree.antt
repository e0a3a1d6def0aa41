-- ===== src/Bch/Degree.antt =====
-- frame_decode.c, `gf2_remainder`: the degree of a polynomial and the size of remainders.
use native.Mathlib.Nat.{
  zero-add, add-zero, mul-lt-mul_of_pos_right, lt_of_lt_of_le, pow-le-pow_right, pow-suc,
  div-eq_of_lt, one-le-pow, mod-eq_of_lt,
}
use iridium_sniffer.Base.{
  ℕ, zero, suc, ◌+◌, ◌-◌, ◌*◌, ◌/◌, ◌^◌, ◌≤◌, ◌<◌, bit_xor, ◌≡◌, ◌≢◌, refl, ap, arith, shl32,
  bit_at, ◌==◌, Bool-cases, inl, inr, ==_iff,
}
use iridium_sniffer.Bits.Step.{bit_xor_halves}
use iridium_sniffer.Bits.Xor.{bit_at-suc}
use iridium_sniffer.Bch.{reduce_at, reduce, gf2_remainder, bit_length}
use iridium_sniffer.Bch.Linear.{gf2_remainder-eq-reduce}

pub pow-add : (a b : ℕ) → 2 ^ (a + b) ≡ 2 ^ a * 2 ^ b
pow-add zero b = rw (zero-add b) (omega arith)
pow-add (suc a) b = rw (shift, pow-suc 2 (a + b), pow-suc 2 a, pow-add a b) (omega arith)
  where
    shift : suc a + b ≡ suc (a + b)
    shift = omega arith

-- A word below `2 ^ (i + 1)` has bit `i` exactly if it is at least `2 ^ i`.
top_bit : (i a : ℕ) → a < 2 ^ suc i → bit_at a i ≡ 1 → 2 ^ i ≤ a
top_bit zero a h k = omega arith
top_bit (suc i) a h k = omega (
  arith,
  pow-suc 2 i,
  pow-suc 2 (suc i),
  top_bit i (a / 2) (omega (arith, pow-suc 2 (suc i))) (omega (arith, bit_at-suc a i)),
)

no_top_bit : (i a : ℕ) → bit_at a i ≢ 1 → a < 2 ^ suc i → a < 2 ^ i
no_top_bit zero a k h = omega arith
no_top_bit (suc i) a k h = omega (
  arith,
  pow-suc 2 i,
  pow-suc 2 (suc i),
  no_top_bit i (a / 2) (omega (arith, bit_at-suc a i, k)) (omega (arith, pow-suc 2 (suc i))),
)

-- Two words with the same top bit: the exclusive or has it no more.
bit_xor_drops :
    (i a b : ℕ) → 2 ^ i ≤ a → a < 2 ^ suc i → 2 ^ i ≤ b → b < 2 ^ suc i → bit_xor a b < 2 ^ i
bit_xor_drops zero a b ha ka hb kb =
    let p : a ≡ 1 = omega arith in let q : b ≡ 1 = omega arith in rw (p, q) (omega arith)
bit_xor_drops (suc i) a b ha ka hb kb = omega (
  arith,
  pow-suc 2 i,
  bit_xor_halves a b,
  bit_xor_drops i (a / 2) (b / 2) (omega (arith, pow-suc 2 i)) (omega (arith, pow-suc 2 (suc i)))
      (omega (arith, pow-suc 2 i)) (omega (arith, pow-suc 2 (suc i))),
)

bit_length-zero : (w : ℕ) → bit_length w 0 ≡ 0
unfolding bit_length
bit_length-zero zero = refl
bit_length-zero (suc w) = refl

-- What `__builtin_clz` says of a word that is not 0.
bit_length_bounds :
    (w x : ℕ)
    → 0 < x
    → x < 2 ^ w
    → (d : ℕ) × (bit_length w x ≡ suc d) × (d < w) × (2 ^ d ≤ x) × (x < 2 ^ suc d)
unfolding bit_length
bit_length_bounds zero x h k = absurd (omega arith)
bit_length_bounds (suc w) x h k = elim (Bool-cases (x / 2 == 0)) [
  | inl e ↦ (0, ground (arith, bit_length-zero w), omega arith, omega arith, ground arith)
  | inr e ↦ longer (bit_length_bounds w (x / 2) (ground arith) (omega (arith, pow-suc 2 w)))
]
  where
    longer :
        (d : ℕ) × (bit_length w (x / 2) ≡ suc d) × (d < w) × (2 ^ d ≤ x / 2) × (x / 2 < 2 ^ suc d)
        → (d : ℕ) × (bit_length (suc w) x ≡ suc d) × (d < suc w) × (2 ^ d ≤ x) × (x < 2 ^ suc d)
    longer (d, e, fits, lo, hi) = (
      suc d,
      ground arith,
      omega arith,
      omega (arith, pow-suc 2 d),
      omega (arith, pow-suc 2 (suc d)),
    )

module _ (poly d : ℕ) (low : 2 ^ d ≤ poly) (high : poly < 2 ^ suc d) where
  -- The shifted polynomial has its top bit at `d + n`, and loses none while that fits the word.
  shifted_from : (n : ℕ) → 2 ^ (d + n) ≤ poly * 2 ^ n
  shifted_from n = rw (pow-add d n) (grind arith)

  shifted_to : (n : ℕ) → poly * 2 ^ n < 2 ^ suc (d + n)
  shifted_to n =
      let pos : 0 < 2 ^ n = one-le-pow n 2 (omega arith) in
      let e : 2 ^ suc (d + n) ≡ 2 ^ suc d * 2 ^ n =
        rw (pow-suc 2 (d + n), pow-suc 2 d, pow-add d n) (omega arith) in
      rw e (mul-lt-mul_of_pos_right high pos)

  shl32-eq : (n : ℕ) → d + n < 32 → shl32 poly n ≡ poly * 2 ^ n
  shl32-eq n fits =
      mod-eq_of_lt
        (lt_of_lt_of_le (shifted_to n) (pow-le-pow_right {n = 2} (omega arith) {j = 32} fits))

  -- Round `i = d + n` clears bit `i`.
  reduce_at-lt :
      (n val : ℕ)
      → d + n < 32
      → val < 2 ^ suc (d + n)
      → reduce_at poly (suc d) (d + n) val < 2 ^ (d + n)
  unfolding reduce_at
  reduce_at-lt n val fits h = elim (Bool-cases (bit_at val (d + n) == 1)) [
    | inl e ↦
        rw (e, shift, shl32-eq n fits)
          (bit_xor_drops (d + n) val (poly * 2 ^ n) (top_bit (d + n) val h ((==_iff _ 1).0 e)) h
            (shifted_from n) (shifted_to n))
    | inr e ↦ rw e (no_top_bit (d + n) val (λ p. cc ((==_iff (bit_at val (d + n)) 1).1 p)) h)
  ]
    where
      shift : d + n + 1 - suc d ≡ n
      shift = omega arith

  -- One round, by its bit.
  reduce_round :
      (n val : ℕ)
      → reduce poly (suc d) (suc n) val ≡ reduce poly (suc d) n (reduce_at poly (suc d) (d + n) val)
  unfolding reduce
  reduce_round n val =
      ap (λ (i : ℕ). reduce poly (suc d) n (reduce_at poly (suc d) i val)) (index d n)
    where
      index : (c m : ℕ) → suc c - 1 + m ≡ c + m
      index c m = omega arith

  reduce-lt : (n val : ℕ) → d + n ≤ 32 → val < 2 ^ (d + n) → reduce poly (suc d) n val < 2 ^ d
  reduce-lt zero val fits h = unfold reduce in rw add-zero at h
  reduce-lt (suc n) val fits h = rw (reduce_round n val) (
      reduce-lt n (reduce_at poly (suc d) (d + n) val) (omega arith)
        (reduce_at-lt n val (omega arith) (rw (more d n) at h)))
    where
      more : (c m : ℕ) → c + suc m ≡ suc (c + m)
      more c m = omega arith

  reduce_at_short : (n val : ℕ) → val < 2 ^ d → reduce_at poly (suc d) (d + n) val ≡ val
  unfolding reduce_at
  reduce_at_short n val h = rw (
      div-eq_of_lt (
        lt_of_lt_of_le h
          (pow-le-pow_right {n = 2} (omega arith) {i = d} {j = d + n} (omega arith))))

  reduce_short : (n val : ℕ) → val < 2 ^ d → reduce poly (suc d) n val ≡ val
  reduce_short zero val h = unfold reduce in refl
  reduce_short (suc n) val h =
      rw (reduce_round n val, reduce_at_short n val h) (reduce_short n val h)

abbrev pub degree : ℕ → ℕ
degree poly = bit_length 32 poly - 1

module _ (poly val : ℕ) (pos : 0 < poly) (fits : poly < 2 ^ 32) where
  -- For a polynomial other than 0 and a word, both of 32 bits, the remainder has fewer bits than the
  -- polynomial.
  pub gf2_remainder-lt : val < 2 ^ 32 → gf2_remainder poly val < 2 ^ degree poly
  gf2_remainder-lt word = bounded (bit_length_bounds 32 poly pos fits)
    where
      bounded :
          (d : ℕ) × (bit_length 32 poly ≡ suc d) × (d < 32) × (2 ^ d ≤ poly) × (poly < 2 ^ suc d)
          → gf2_remainder poly val < 2 ^ degree poly
      bounded (d, e, d_fits, lo, hi) =
          let all : d + (33 - suc d) ≡ 32 = omega arith in
          let same : suc d - 1 ≡ d = omega arith in
          rw (gf2_remainder-eq-reduce poly val, e, same)
            (reduce-lt poly d lo hi (33 - suc d) val (omega arith) (rw all word))

  -- A word with fewer bits than the polynomial is its own remainder.
  pub gf2_remainder_short : val < 2 ^ degree poly → gf2_remainder poly val ≡ val
  gf2_remainder_short short = whole (bit_length_bounds 32 poly pos fits)
    where
      whole :
          (d : ℕ) × (bit_length 32 poly ≡ suc d) × (d < 32) × (2 ^ d ≤ poly) × (poly < 2 ^ suc d)
          → gf2_remainder poly val ≡ val
      whole (d, e, d_fits, lo, hi) =
          let same : suc d - 1 ≡ d = omega arith in
          rw (gf2_remainder-eq-reduce poly val, e)
            (reduce_short poly d lo hi (33 - suc d) val (rw (e, same) at short))
