-- ===== src/Bch/Linear.antt =====
-- frame_decode.c: `gf2_remainder` and `^`.
use iridium_sniffer.Base.{ℕ, zero, suc, ◌+◌, ◌-◌, bit_xor, ◌≡◌, refl, ◌∙◌, ap, arith, shl32}
use iridium_sniffer.Bits.Xor.{
  bit_xor_comm, bit_xor_assoc, bit_xor_middle, bit_xor_self, bit_xor-zero, bit_at-bit_xor,
}
use iridium_sniffer.Bch.{reduce_at, reduce, gf2_remainder, bit_length}

module _ (poly poly_bits : ℕ) where
  reduce_at-bit_xor :
      (i a b : ℕ)
      → reduce_at poly poly_bits i (bit_xor a b)
        ≡ bit_xor (reduce_at poly poly_bits i a) (reduce_at poly poly_bits i b)
  unfolding reduce_at
  reduce_at-bit_xor i a b =
      let m = shl32 poly (i + 1 - poly_bits) in
      ground (
        arith,
        bit_at-bit_xor a b i,
        bit_xor_assoc a b m,
        bit_xor_assoc a m b,
        bit_xor_comm m b,
        bit_xor_middle a b m m,
        bit_xor_self m,
        bit_xor-zero (bit_xor a b),
      )

  reduce-bit_xor :
      (n a b : ℕ)
      → reduce poly poly_bits n (bit_xor a b)
        ≡ bit_xor (reduce poly poly_bits n a) (reduce poly poly_bits n b)
  unfolding reduce
  reduce-bit_xor zero a b = refl
  reduce-bit_xor (suc n) a b =
      ap (reduce poly poly_bits n) (reduce_at-bit_xor (poly_bits - 1 + n) a b)
      ∙ reduce-bit_xor n _ _

  reduce-zero : (n : ℕ) → reduce poly poly_bits n 0 ≡ 0
  reduce-zero n = reduce-bit_xor n 0 0 ∙ bit_xor_self (reduce poly poly_bits n 0)

-- The early return for 0 changes nothing.
pub gf2_remainder-eq-reduce :
    (poly val : ℕ)
    → gf2_remainder poly val ≡ reduce poly (bit_length 32 poly) (33 - bit_length 32 poly) val
unfolding gf2_remainder
gf2_remainder-eq-reduce poly val =
    ground (arith, reduce-zero poly (bit_length 32 poly) (33 - bit_length 32 poly))

-- The remainder of an exclusive or is the exclusive or of the remainders.
pub gf2_remainder-bit_xor :
    (poly a b : ℕ)
    → gf2_remainder poly (bit_xor a b) ≡ bit_xor (gf2_remainder poly a) (gf2_remainder poly b)
gf2_remainder-bit_xor poly a b =
    rw
      (
        gf2_remainder-eq-reduce poly (bit_xor a b),
        gf2_remainder-eq-reduce poly a,
        gf2_remainder-eq-reduce poly b,
      )
      (reduce-bit_xor poly (bit_length 32 poly) (33 - bit_length 32 poly) a b)
