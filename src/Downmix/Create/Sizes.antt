-- ===== src/Downmix/Create/Sizes.antt =====
-- burst_downmix.c: the sizes that `burst_downmix_create` computes.
use native.Mathlib.Nat.{pow-suc, one-le-pow}
use iridium_sniffer.Base.{
  ℕ, zero, suc, ◌+◌, ◌*◌, ◌^◌, ◌≤◌, ◌<◌, ltb, ltb→lt, leb, ◌==◌, Bool-cases, true, inl, inr, ◌≡◌,
  refl, ap, sym, ◌∙◌, arith,
}
use iridium_sniffer.Downmix.Create.{next_pow2, next_pow2_from, floor_pow2, floor_pow2_from}

-- 2^k is at least `n`, and no smaller power of two is.
pub record IsLeast (n k : ℕ) : Type 0 where
  pub above : n ≤ 2 ^ k
  pub least : (j : ℕ) → n ≤ 2 ^ j → k ≤ j

lowest : (j n : ℕ) → ((i : ℕ) → i < j → 2 ^ i < n) → (i : ℕ) → n ≤ 2 ^ i → j ≤ i
lowest j n below i h = elim (Bool-cases (ltb i j)) [
  | inl e ↦ absurd (omega (arith, below i (ltb→lt i j e), h))
  | inr e ↦ ground arith
]

one_more : (j n : ℕ) → ((i : ℕ) → i < j → 2 ^ i < n) → 2 ^ j < n → (i : ℕ) → i < suc j → 2 ^ i < n
one_more j n below h i l = elim (Bool-cases (i == j)) [
  | inl e ↦ let same : i ≡ j = ground arith in rw (same) h
  | inr e ↦ below i (ground arith)
]

doubled :
    (fuel p n : ℕ) → ltb p n ≡ true → next_pow2_from (suc fuel) p n ≡ next_pow2_from fuel (2 * p) n
unfolding next_pow2_from
doubled fuel p n e = rw (next_pow2_from, e) refl

doubled_floor :
    (fuel size raw : ℕ)
    → leb (size * 2) raw ≡ true
    → floor_pow2_from (suc fuel) size raw ≡ floor_pow2_from fuel (size * 2) raw
unfolding floor_pow2_from
doubled_floor fuel size raw e = rw (floor_pow2_from, e) refl

-- `j` rounds are done: 2^j is the size, all smaller powers are below `n`.
round_up :
    (fuel j n : ℕ)
    → n ≤ 2 ^ j + fuel
    → ((i : ℕ) → i < j → 2 ^ i < n)
    → (k : ℕ) × (next_pow2_from fuel (2 ^ j) n ≡ 2 ^ k) × IsLeast n k
unfolding next_pow2_from
round_up zero j n h below = (j, refl, record { above = omega arith; least = lowest j n below })
round_up (suc fuel) j n h below = elim (Bool-cases (ltb (2 ^ j) n)) [
  | inl e ↦
      let double : 2 ^ suc j ≡ 2 * 2 ^ j = omega (arith, pow-suc 2 j) in
      let (k, is, l) =
        round_up fuel (suc j) n (omega (arith, double, one-le-pow j 2 (omega arith), h))
          (one_more j n below (ltb→lt _ _ e)) in
      (k, doubled fuel (2 ^ j) n e ∙ ap (λ p. next_pow2_from fuel p n) (sym double) ∙ is, l)
  | inr e ↦
      (j, rw (next_pow2_from, e) refl, record { above = ground arith; least = lowest j n below })
]

-- `next_pow2` gives the least power of two that is not below n.
pub next_pow2_lem : (n : ℕ) → (k : ℕ) × (next_pow2 n ≡ 2 ^ k) × IsLeast n k
unfolding next_pow2
next_pow2_lem n = round_up n 0 n (omega arith) (λ i h. absurd (omega (arith, h)))

-- For a number of at most 2 ^ 30 the loop ends, with the least power of two that is not below it, and no
-- doubling on the way exceeds the largest `int`.
pub next_pow2-IsLeast :
    (n : ℕ) → n ≤ 2 ^ 30 → (k : ℕ) × (next_pow2 n ≡ 2 ^ k) × (k ≤ 30) × IsLeast n k
next_pow2-IsLeast n h = let (k, is, l) = next_pow2_lem n in (k, is, l.least 30 h, l)

-- 2^k is at most `raw`, and the next power of two is not.
pub record IsGreatest (raw k : ℕ) : Type 0 where
  pub below : 2 ^ k ≤ raw
  pub greatest : raw < 2 ^ suc k

round_down :
    (fuel j raw : ℕ)
    → raw ≤ 2 ^ j + fuel
    → 2 ^ j ≤ raw
    → (k : ℕ) × (floor_pow2_from fuel (2 ^ j) raw ≡ 2 ^ k) × IsGreatest raw k
unfolding floor_pow2_from
round_down zero j raw h l = (
  j,
  refl,
  record { below = l; greatest = omega (arith, pow-suc 2 j, one-le-pow j 2 (omega arith)) },
)
round_down (suc fuel) j raw h l =
    let double : 2 ^ suc j ≡ 2 ^ j * 2 = pow-suc 2 j in
    elim (Bool-cases (leb (2 ^ j * 2) raw)) [
      | inl e ↦
          let (k, is, g) =
            round_down fuel (suc j) raw (omega (arith, double, one-le-pow j 2 (omega arith), h))
              (ground (arith, double)) in
          (
            k,
            doubled_floor fuel (2 ^ j) raw e
                ∙ ap (λ p. floor_pow2_from fuel p raw) (sym double)
                ∙ is,
            g,
          )
      | inr e ↦
          (j, rw (floor_pow2_from, e) refl, record { below = l; greatest = ground (arith, double) })
    ]

-- The size of the FFT for the frequency, for `raw` of at least 1, is the greatest power of two that is
-- at most `raw`.
floor_pow2-IsGreatest : (raw : ℕ) → 1 ≤ raw → (k : ℕ) × (floor_pow2 raw ≡ 2 ^ k) × IsGreatest raw k
unfolding floor_pow2
floor_pow2-IsGreatest raw h = round_down raw 0 raw (omega arith) h
