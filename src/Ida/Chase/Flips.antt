-- ===== src/Ida/Chase/Flips.antt =====
-- ida_decode.c, `chase_bch_da`: a word with the bits of a mask flipped.
use iridium_sniffer.Base.{
  ℕ, zero, suc, ◌+◌, ◌-◌, ◌/◌, ◌^◌, List, bit_xor, ◌≡◌, [], ◌∷◌, ◌==◌, if◌then◌else◌, bit_at, take,
  shl32, ◌*◌, ◌%◌, ap, refl, sym, ◌∙◌, arith,
}
use native.Mathlib.Nat.{zero-div, pow-suc, pow-le-pow_right, mod-eq_of_lt, div-div-eq-div-mul}
use iridium_sniffer.Ida.Chase.{flip, flip_masks}

-- With the mask 0 nothing is flipped.
pub flip-zero : (masks : List ℕ) (b val : ℕ) → flip masks 0 b val ≡ val
unfolding flip
flip-zero [] b val = refl
flip-zero (m ∷ masks) b val =
    let off : bit_at 0 b ≡ 0 = rw (zero-div (2 ^ b)) refl in rw (off) (flip-zero masks (b + 1) val)

-- The bits at these positions, counted from the most significant of 31, are flipped where the mask, read
-- from its least significant bit on, has a 1.
abbrev pub toggled : List ℕ → ℕ → ℕ → ℕ
toggled [] mask val = val
toggled (p ∷ pos) mask val =
    toggled pos (mask / 2) (if mask % 2 == 1 then bit_xor val (2 ^ (30 - p)) else val)

single_mask : (p : ℕ) → shl32 1 (30 - p) ≡ 2 ^ (30 - p)
single_mask p =
    let small = pow-le-pow_right {n = 2} (omega arith) {i = 30 - p} {j = 30} (omega arith) in
    ap (λ n. n % 2 ^ 32) {x = 1 * 2 ^ (30 - p)} {y = 2 ^ (30 - p)} (omega arith)
    ∙ mod-eq_of_lt (omega (arith, small))

pub flip-toggled :
    (k : ℕ) (pos : List ℕ) (mask b val : ℕ)
    → flip (flip_masks k pos) mask b val ≡ toggled (take k pos) (mask / 2 ^ b) val
unfolding flip flip_masks
flip-toggled zero pos mask b val = refl
flip-toggled (suc k) [] mask b val = refl
flip-toggled (suc k) (p ∷ pos) mask b val =
    let half : mask / 2 ^ (b + 1) ≡ mask / 2 ^ b / 2 =
      ap (λ n. mask / n) {x = 2 ^ (b + 1)} {y = 2 ^ b * 2} (power b)
      ∙ sym (div-div-eq-div-mul mask (2 ^ b) 2) in
    let val' = if bit_at mask b == 1 then bit_xor val (2 ^ (30 - p)) else val in
    rw (single_mask p)
      (flip-toggled k pos mask (b + 1) val' ∙ ap (λ n. toggled (take k pos) n val') half)
  where
    power : (b : ℕ) → 2 ^ (b + 1) ≡ 2 ^ b * 2
    power b = ap (λ n. 2 ^ n) {x = b + 1} {y = suc b} (omega arith) ∙ pow-suc 2 b
