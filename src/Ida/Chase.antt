-- ===== src/Ida/Chase.antt =====
-- ida_decode.c, `chase_bch_da`: BCH(31,20), and where that fails, the same after flipping the least
-- reliable bits in every combination. `use_chase` is the number of bits of the option --chase, `llr`
-- the reliabilities.
pub mod Found
pub mod Flips
pub mod Search
use iridium_sniffer.Base.{
  ℕ, zero, suc, ◌+◌, ◌-◌, ◌*◌, ◌/◌, ◌%◌, ◌^◌, List, [], ◌∷◌, Option, none, some, Bool, true, false,
  get_or, set, bit_xor, bit_at, shl32, ◌==◌, if◌then◌else◌,
}
use iridium_sniffer.Base.Int.{ℤ}
use iridium_sniffer.Bch.{
  bits_to_uint, uint_to_bits, correct_word, gf2_remainder, Corrected, syn_da, poly_da,
}

-- `BCH_DA_DATA` and `BCH_DA_SYN`
abbrev pub bch_da_data : ℕ
bch_da_data = 20

abbrev pub bch_da_syn : ℕ
bch_da_syn = 11

-- The number returned, and what is stored through `out_data` and `fixed`.
pub record DaBlock : Type 0 where
  pub errs : ℤ
  pub data_bits : List ℕ
  pub fixed : ℕ

abbrev pub da_block : ℕ → Corrected → DaBlock
da_block fixed c = record {
  errs = c.errs;
  data_bits = uint_to_bits (c.word / 2 ^ bch_da_syn) bch_da_data;
  fixed = fixed;
}

unfoldable pub correct_da : ℕ → Option Corrected
correct_da val = correct_word poly_da syn_da 2048 val

-- `pos[i] = i` for the positions from `i` on.
unfoldable pub positions : ℕ → ℕ → List ℕ
positions zero i = []
positions (suc left) i = i ∷ positions left (i + 1)

module _ {R : Type 0} (less : R → R → Bool) (zero_value : R) (llr : List R) where
  abbrev pub reliability : List ℕ → ℕ → R
  reliability pos i = get_or llr (get_or pos i 0) zero_value

  -- `for (j = ...; j < 31; j++) if (llr[pos[j]] < llr[pos[min_idx]]) min_idx = j;`
  unfoldable pub least_from : ℕ → ℕ → ℕ → List ℕ → ℕ
  least_from zero j min_idx pos = min_idx
  least_from (suc left) j min_idx pos =
      least_from left (j + 1)
        (if less (reliability pos j) (reliability pos min_idx) then j else min_idx) pos

  abbrev pub swap : ℕ → ℕ → List ℕ → List ℕ
  swap i j pos = set (set pos i (get_or pos j 0)) j (get_or pos i 0)

  -- The selection of the `k` least reliable positions, at index `i` with `left` to go.
  unfoldable pub select : ℕ → ℕ → List ℕ → List ℕ
  select zero i pos = pos
  select (suc left) i pos = select left (i + 1) (swap i (least_from (30 - i) (i + 1) i pos) pos)

-- `flip_mask[i] = 1u << (30 - pos[i])`, for the first `k` positions.
unfoldable pub flip_masks : ℕ → List ℕ → List ℕ
flip_masks zero pos = []
flip_masks (suc k) [] = []
flip_masks (suc k) (p ∷ pos) = shl32 1 (30 - p) ∷ flip_masks k pos

-- `if (mask & (1 << b)) flipped ^= flip_mask[b];`
unfoldable pub flip : List ℕ → ℕ → ℕ → ℕ → ℕ
flip [] mask b flipped = flipped
flip (m ∷ masks) mask b flipped =
    flip masks mask (b + 1) (if bit_at mask b == 1 then bit_xor flipped m else flipped)

-- The combinations from `mask` on, `left` of them: the first that can be corrected.
unfoldable pub try_masks : List ℕ → ℕ → ℕ → ℕ → Option Corrected
try_masks masks base_val zero mask = none
try_masks masks base_val (suc left) mask = elim (correct_da (flip masks mask 0 base_val)) [
  | some c ↦ some c
  | none ↦ try_masks masks base_val left (mask + 1)
]

module _ {R : Type 0} (less : R → R → Bool) (zero_value : R) (use_chase : ℕ) where
  -- `block31` and `llr31` start at the block; none for a NULL `llr31`. `*fixed` is 0 only where the
  -- syndrome was 0 at once.
  unfoldable pub chase_bch_da : List ℕ → Option (List R) → Option DaBlock
  chase_bch_da block31 llr31 =
      let val = bits_to_uint block31 31 in
      elim (correct_da val) [
        | some c ↦ some (da_block (if gf2_remainder poly_da val == 0 then 0 else 1) c)
        | none ↦ elim llr31 [
          | none ↦ none
          | some llr ↦
              elim (try_masks
                (flip_masks use_chase (select less zero_value llr use_chase 0 (positions 31 0))) val
                (2 ^ use_chase - 1) 1) [ some c ↦ some (da_block 1 c) | none ↦ none ]
        ]
      ]
