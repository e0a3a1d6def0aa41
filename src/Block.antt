-- ===== src/Block.antt =====
-- The 32-bit blocks of ring alert and broadcast frames: BCH(31,21), the parity bit over it, and
-- the blocks that follow in pairs. The reliabilities that frame_decode.c passes along here are
-- never read: Chase decoding is off for these frames.
pub mod RoundTrip
pub mod Loop
use iridium_sniffer.Base.{
  ℕ, zero, suc, ◌+◌, ◌*◌, ◌/◌, ◌%◌, ◌^◌, List, [], ◌∷◌, ◌++◌, Option, none, some, Bool, true, false,
  ◌&&◌, get_or, length, drop, leb, ◌==◌, if◌then◌else◌,
}
use iridium_sniffer.Base.Int.{ℤ}
use iridium_sniffer.Bch.{bits_to_uint, uint_to_bits, correct_word, Corrected, syn_ra, poly_ra}
use iridium_sniffer.Deinterleave.{de_interleave}

-- `BCH_RA_DATA`
abbrev pub bch_ra_data : ℕ
bch_ra_data = 21

-- What `chase_bch_decode_p` stores through its pointers, and the count that it returns.
pub record Decoded : Type 0 where
  pub errs : ℤ
  pub data_bits : List ℕ
  pub check_bits : List ℕ

-- `val >> 10` and `val & 0x3FF`
abbrev pub split_word : Corrected → Decoded
split_word c = record {
  errs = c.errs;
  data_bits = uint_to_bits (c.word / 2 ^ 10) bch_ra_data;
  check_bits = uint_to_bits (c.word % 2 ^ 10) 10;
}

unfoldable pub chase_bch_decode_p : List ℕ → Option Decoded
chase_bch_decode_p block32 = elim (correct_word poly_ra syn_ra 1024 (bits_to_uint block32 31)) [
  | none ↦ none
  | some c ↦ some (split_word c)
]

abbrev pub sum_bits : List ℕ → ℕ
sum_bits [] = 0
sum_bits (b ∷ r) = b + sum_bits r

unfoldable pub check_parity32 : List ℕ → List ℕ → List ℕ → Bool
check_parity32 block32 bch_data bch_check =
    (sum_bits bch_data + sum_bits bch_check + get_or block32 31 0) % 2 == 0

-- Both gates on one block: the data bits of a block that passes them.
unfoldable pub accept_block : List ℕ → Option (List ℕ)
accept_block block32 = elim (chase_bch_decode_p block32) [
  | none ↦ none
  | some d ↦ if check_parity32 block32 d.data_bits d.check_bits then some d.data_bits else none
]

abbrev pub both : Option (List ℕ) → Option (List ℕ) → Option (List ℕ)
both none b = none
both (some x) none = none
both (some x) (some y) = some (x ++ y)

-- Two blocks out of 64 bits.
unfoldable pub accept_pair : List ℕ → Option (List ℕ)
accept_pair input =
    let (di1, di2) = de_interleave 0 input in both (accept_block di1) (accept_block di2)

-- `while (offset + 64 <= limit && bch_len + 2 * BCH_RA_DATA <= sizeof(bch_stream))`, on fuel.
unfoldable pub more_blocks : ℕ → List ℕ → ℕ → ℕ → ℕ → List ℕ → List ℕ
more_blocks zero input limit size offset bch_stream = bch_stream
more_blocks (suc fuel) input limit size offset bch_stream =
    elim (leb (offset + 64) limit && leb (length bch_stream + 2 * bch_ra_data) size) [
      | false ↦ bch_stream
      | true ↦ elim (accept_pair (drop offset input)) [
        | none ↦ bch_stream
        | some pair ↦ more_blocks fuel input limit size (offset + 64) (bch_stream ++ pair)
      ]
    ]
