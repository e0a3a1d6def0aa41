-- ===== src/Block/RoundTrip.antt =====
-- frame_decode.c: one block from the sender through the BCH decoder and the parity check.
use iridium_sniffer.Base.{
  ℕ, ◌+◌, ◌%◌, ◌^◌, ◌<◌, ◌≤◌, List, [], ◌∷◌, ◌++◌, bit_xor, some, true, ◌≡◌, refl, ap, ◌∙◌, arith,
}
use iridium_sniffer.Bits.Xor.{bit_xor-lt}
use iridium_sniffer.Base.Int.{pos}
use iridium_sniffer.Bch.{
  gf2_remainder, bits_to_uint, uint_to_bits, poly_ra, syn_ra, bit_length, correct_word, Corrected,
}
use iridium_sniffer.Bch.Encode.{codeword, shifted, check-lt, codeword-code, codeword-data}
use iridium_sniffer.Bch.Degree.{degree}
use iridium_sniffer.Bch.Sound.{IsError}
use iridium_sniffer.Bch.Tables.{syn_ra-IsComplete}
use iridium_sniffer.Bch.Correct.{correct_word_recovers}
use iridium_sniffer.Bch.Words.{IsError-lt, bits_to_uint-uint_to_bits}
use iridium_sniffer.Block.{
  Decoded, split_word, chase_bch_decode_p, check_parity32, accept_block, sum_bits, bch_ra_data,
}

abbrev pub ra_codeword : ℕ → ℕ
ra_codeword d = codeword poly_ra 10 d

-- The 31 bits on the air: the codeword with the errors `e`, and the parity bit of what was sent.
abbrev pub parity_of : ℕ → ℕ
parity_of d =
    (sum_bits (uint_to_bits d bch_ra_data) + sum_bits (uint_to_bits (ra_codeword d % 2 ^ 10) 10))
    % 2

abbrev pub received : ℕ → ℕ → List ℕ
received d e = uint_to_bits (bit_xor (ra_codeword d) e) 31 ++ (parity_of d ∷ [])

-- The decoder in terms of `correct_word`, and the gates in terms of the decoder.
decodes_to :
    (block : List ℕ) (c : Corrected)
    → correct_word poly_ra syn_ra 1024 (bits_to_uint block 31) ≡ some c
    → chase_bch_decode_p block ≡ some (split_word c)
unfolding chase_bch_decode_p
decodes_to block c e = rw (e, chase_bch_decode_p)

accepts_as :
    (block : List ℕ) (c : Decoded)
    → chase_bch_decode_p block ≡ some c
    → check_parity32 block c.data_bits c.check_bits ≡ true
    → accept_block block ≡ some c.data_bits
accepts_as block c e even = unfold accept_block in rw (e, accept_block) (rw even)

module _ (d : ℕ) (h : d < 2 ^ 21) where
  degree_ra : degree poly_ra ≡ 10
  degree_ra = unfold bit_length in refl

  ra_codeword-lt : ra_codeword d < 2 ^ 31
  ra_codeword-lt =
      bit_xor-lt 31 (shifted 10 d) (gf2_remainder poly_ra (shifted 10 d)) (omega arith)
        (omega (arith, check-lt poly_ra 10 (omega arith) (omega arith) degree_ra d (omega arith)))

  module _ (k e : ℕ) (err : IsError 31 k e) (few : k ≤ 2) where
    corrected :
        correct_word poly_ra syn_ra 1024 (bits_to_uint (received d e) 31)
        ≡ some (record { errs = pos k; word = ra_codeword d })
    corrected =
        ap (correct_word poly_ra syn_ra 1024) (
          bits_to_uint-uint_to_bits 31 (bit_xor (ra_codeword d) e) (parity_of d ∷ [])
            (bit_xor-lt 31 (ra_codeword d) e ra_codeword-lt (IsError-lt 31 err (omega arith)))
            (omega arith))
        ∙ correct_word_recovers poly_ra 1024 31 syn_ra 2 syn_ra-IsComplete (ra_codeword d) k e
            (codeword-code poly_ra 10 (omega arith) (omega arith) degree_ra d (omega arith)) err few

    -- `chase_bch_decode_p` returns the number of wrong bits, and the data and check bits as sent.
    chase_bch_decode_p-received :
        chase_bch_decode_p (received d e)
        ≡ some (record {
          errs = pos k;
          data_bits = uint_to_bits d 21;
          check_bits = uint_to_bits (ra_codeword d % 2 ^ 10) 10;
        })
    chase_bch_decode_p-received =
        rw (codeword-data poly_ra 10 (omega arith) (omega arith) degree_ra d (omega arith)) at
          (decodes_to (received d e) _ corrected)

    even :
        check_parity32 (received d e) (uint_to_bits d 21) (uint_to_bits (ra_codeword d % 2 ^ 10) 10)
        ≡ true
    unfolding check_parity32 uint_to_bits
    even = ground arith

    -- A block of 21 data bits that arrives with at most two of its 31 code bits wrong passes both
    -- gates, and its data bits are those that were sent.
    pub accept_block-received : accept_block (received d e) ≡ some (uint_to_bits d 21)
    accept_block-received = accepts_as (received d e) _ chase_bch_decode_p-received even
