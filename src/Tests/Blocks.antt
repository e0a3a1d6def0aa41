-- ===== src/Tests/Blocks.antt =====
-- Blocks and words with errors in them.
use iridium_sniffer.Base.{
  Bool, ℕ, ◌*◌, List, [], ◌∷◌, ◌++◌, bit_or, bit_xor, shl32, length, replicate, some, Option, ◌≡◌,
  refl, arith,
}
use iridium_sniffer.Base.Int.{pos}
use iridium_sniffer.Bch.{gf2_remainder, bits_to_uint, uint_to_bits, poly_da}
use iridium_sniffer.Bch.Sound.{double}
use iridium_sniffer.Deinterleave.{de_interleave_n}
use iridium_sniffer.Deinterleave.Streams.{interleave, stream, de_interleave_n-interleave}
use iridium_sniffer.Block.{accept_block}
use iridium_sniffer.Block.RoundTrip.{received, accept_block-received}
use iridium_sniffer.Ida.Chase.{correct_da, chase_bch_da}
use iridium_sniffer.Ida.Chase.Found.{correct_da_recovers}
use iridium_sniffer.Ida.Chase.Flips.{toggled}
use iridium_sniffer.Ida.Chase.Search.{IsSearch, selected, last_mask, chase_bch_da-IsSearch}
use iridium_sniffer.Tests.{groups2}

-- The polynomial is a codeword; bits 3 and 7 are wrong.
abbrev two_errors : ℕ
two_errors = bit_or (shl32 1 3) (shl32 1 7)

poly_da-code : gf2_remainder poly_da poly_da ≡ 0
unfolding gf2_remainder
poly_da-code = refl

correct_da_recovers_example :
    correct_da (bit_xor 3545 two_errors) ≡ some (record { errs = pos 2; word = 3545 })
correct_da_recovers_example =
    correct_da_recovers 3545 2 two_errors poly_da-code (double 3 7 (omega arith) (omega arith))
      (omega arith)

-- Bits 3, 7 and 30 of the codeword 3545 are wrong, and the bits 30 and 29 are the least reliable ones.
abbrev weak : Option (List ℕ)
weak = some (replicate 31 1)

chase_bch_da-IsSearch_example :
    IsSearch
      (λ m.
        toggled
          (selected {R = ℕ} (λ a b. Bool.false) 0 2 weak)
          m
          (bits_to_uint (uint_to_bits 1073745233 31) 31))
      (bits_to_uint (uint_to_bits 1073745233 31) 31)
      (last_mask {R = ℕ} (λ a b. Bool.false) 0 2 weak)
      (chase_bch_da {R = ℕ} (λ a b. Bool.false) 0 2 (uint_to_bits 1073745233 31) weak)
chase_bch_da-IsSearch_example =
    chase_bch_da-IsSearch {R = ℕ} (λ a b. Bool.false) 0 2 (uint_to_bits 1073745233 31) weak
      (omega arith)

-- One group: the symbols 0 1 for stream 0 and 1 1 for stream 1.
abbrev one_group : List (List ℕ)
one_group = groups2 (1 ∷ (1 ∷ [])) (0 ∷ (1 ∷ []))

de_interleave_n-interleave_example :
    de_interleave_n 0 (interleave one_group ++ (1 ∷ [])) (2 * length one_group)
    ≡ (stream 0 1 one_group, stream 0 0 one_group)
de_interleave_n-interleave_example =
    de_interleave_n-interleave 0 one_group (1 ∷ []) (refl, tt) (omega arith)

accept_block-received_example : accept_block (received 77 two_errors) ≡ some (uint_to_bits 77 21)
accept_block-received_example =
    accept_block-received 77 (omega arith) 2 two_errors (double 3 7 (omega arith) (omega arith))
      (omega arith)
