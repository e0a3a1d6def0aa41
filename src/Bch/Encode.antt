-- ===== src/Bch/Encode.antt =====
-- The sender's side of the BCH codes, as a description: the systematic codeword of a data word, which is
-- the data followed by the remainder.
use native.Mathlib.Nat.{
  div-eq_of_lt, pow-suc, div-div-eq-div-mul, div-one, mul-div_left, one-le-pow,
}
use iridium_sniffer.Base.{ℕ, zero, suc, ◌*◌, ◌/◌, ◌^◌, ◌<◌, bit_xor, ◌≡◌, ap, ◌∙◌, arith}
use iridium_sniffer.Bits.Xor.{bit_xor-zero, bit_xor_self, half-bit_xor}
use iridium_sniffer.Bch.{gf2_remainder}
use iridium_sniffer.Bch.Linear.{gf2_remainder-bit_xor}
use iridium_sniffer.Bch.Degree.{degree, gf2_remainder-lt, gf2_remainder_short}

abbrev pub shifted : ℕ → ℕ → ℕ
shifted check data_word = data_word * 2 ^ check

abbrev pub codeword : ℕ → ℕ → ℕ → ℕ
codeword poly check data_word =
    bit_xor (shifted check data_word) (gf2_remainder poly (shifted check data_word))

shr-bit_xor : (k a b : ℕ) → bit_xor a b / 2 ^ k ≡ bit_xor (a / 2 ^ k) (b / 2 ^ k)
shr-bit_xor zero a b = rw (div-one (bit_xor a b), div-one a, div-one b)
shr-bit_xor (suc k) a b =
    rw
      (
        pow-suc 2 k,
        ← div-div-eq-div-mul (bit_xor a b) (2 ^ k) 2,
        ← div-div-eq-div-mul a (2 ^ k) 2,
        ← div-div-eq-div-mul b (2 ^ k) 2,
        shr-bit_xor k a b,
      )
      (half-bit_xor (a / 2 ^ k) (b / 2 ^ k))

module _ (poly check : ℕ) (pos : 0 < poly) (fits : poly < 2 ^ 32) (deg : degree poly ≡ check)
    (d : ℕ) (word : shifted check d < 2 ^ 32) where
  pub check-lt : gf2_remainder poly (shifted check d) < 2 ^ check
  check-lt = rw deg at (gf2_remainder-lt poly (shifted check d) pos fits word)

  -- A codeword has remainder 0.
  pub codeword-code : gf2_remainder poly (codeword poly check d) ≡ 0
  codeword-code =
      let r = gf2_remainder poly (shifted check d) in
      gf2_remainder-bit_xor poly (shifted check d) r
      ∙ ap (bit_xor r) (gf2_remainder_short poly r pos fits (rw deg check-lt))
      ∙ bit_xor_self r

  -- Its upper bits are the data.
  pub codeword-data : codeword poly check d / 2 ^ check ≡ d
  codeword-data =
      shr-bit_xor check (shifted check d) (gf2_remainder poly (shifted check d))
      ∙ rw
          (mul-div_left d {n = 2 ^ check} (one-le-pow check 2 (omega arith)), div-eq_of_lt check-lt)
          (bit_xor-zero d)
