-- ===== src/Ida/Lcw.antt =====
-- ida_decode.c, `decode_lcw`: the link control word, 46 bits permuted into three codewords.
pub mod Header
use iridium_sniffer.Base.{
  ℕ, zero, suc, ◌+◌, ◌-◌, ◌*◌, ◌/◌, ◌%◌, ◌^◌, List, [], ◌∷◌, Option, none, some, Bool, true, false,
  get_or, length, drop, ltb, ◌==◌, if◌then◌else◌, shl32, map,
}
use mathlib.Core.Option
use iridium_sniffer.Bch.{
  bits_to_uint, gf2_remainder, correct_word, Corrected, poly_lcw1, poly_lcw2, poly_lcw3, syn_lcw1,
  syn_lcw2, syn_lcw3,
}

-- `lcw_t`; `lcw_ok` is 1 in every one that is returned.
pub record LcwWord : Type 0 where
  pub ft : ℕ
  pub lcw_ft : ℕ
  pub lcw_code : ℕ
  pub lcw3_val : ℕ
  pub ec_lcw : ℕ

abbrev pub lcw_perm : List ℕ
lcw_perm =
    40 ∷ 39 ∷ 36 ∷ 35 ∷ 32 ∷ 31 ∷ 28 ∷ 27 ∷ 24 ∷ 23 ∷ 20 ∷ 19 ∷ 16 ∷ 15 ∷ 12 ∷ 11 ∷ 8 ∷ 7 ∷ 4 ∷ 3
    ∷ 41 ∷ 38 ∷ 37 ∷ 34 ∷ 33 ∷ 30 ∷ 29 ∷ 26 ∷ 25 ∷ 22 ∷ 21 ∷ 18 ∷ 17 ∷ 14 ∷ 13 ∷ 10 ∷ 9 ∷ 6 ∷ 5 ∷ 2
    ∷ 1 ∷ 46 ∷ 45 ∷ 44 ∷ 43 ∷ 42 ∷ []

-- `for (i = 0; i < 46; i += 2)`, with `n` rounds left: the two bits of each symbol change places.
unfoldable pub swap_pairs : ℕ → List ℕ → List ℕ
swap_pairs zero input = []
swap_pairs (suc n) input = get_or input 1 0 ∷ get_or input 0 0 ∷ swap_pairs n (drop 2 input)

-- `lcw_bits[i] = swapped[lcw_perm[i] - 1]`
unfoldable pub permute : List ℕ → List ℕ → List ℕ
permute perm swapped = map (λ p. get_or swapped (p - 1) 0) perm

-- Whether a codeword had to be corrected: its syndrome is not 0.
abbrev pub was_corrected : ℕ → ℕ → ℕ
was_corrected poly val = if gf2_remainder poly val == 0 then 0 else 1

-- The fields of the three corrected words; `v2` has a zero bit appended.
abbrev pub fields : ℕ → ℕ → ℕ → ℕ → LcwWord
fields v1 v2 v3 corrections =
    let lcw2_data = v2 / 2 ^ 8 % 64 in
    record {
      ft = v1 / 2 ^ 4 % 8;
      lcw_ft = lcw2_data / 2 ^ 4 % 4;
      lcw_code = lcw2_data % 16;
      lcw3_val = v3 / 2 ^ 5;
      ec_lcw = corrections;
    }

-- The three words out of the permuted bits; none where one of them cannot be corrected.
unfoldable pub decode_words : List ℕ → Option LcwWord
decode_words lcw_bits =
    let v1 = bits_to_uint lcw_bits 7 in
    let v2 = shl32 (bits_to_uint (drop 7 lcw_bits) 13) 1 in
    let v3 = bits_to_uint (drop 20 lcw_bits) 26 in
    let corrections =
      was_corrected poly_lcw1 v1 + was_corrected poly_lcw2 v2 + was_corrected poly_lcw3 v3 in
    elim (correct_word poly_lcw1 syn_lcw1 16 v1) [
      | none ↦ none
      | some c1 ↦ elim (correct_word poly_lcw2 syn_lcw2 256 v2) [
        | none ↦ none
        | some c2 ↦ elim (correct_word poly_lcw3 syn_lcw3 32 v3) [
          | none ↦ none
          | some c3 ↦ some (fields c1.word c2.word c3.word corrections)
        ]
      ]
    ]

-- `input` holds `data_len` bits; none is the return of 0.
unfoldable pub decode_lcw : List ℕ → Option LcwWord
decode_lcw input =
    if ltb (length input) 46 then none else decode_words (permute lcw_perm (swap_pairs 23 input))
