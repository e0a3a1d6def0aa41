-- ===== src/Ida/Payload.antt =====
-- `descramble_payload`: blocks of 124 bits, de-interleaved and cut into four words of 31 bits, and
-- a shorter last block. The stream grows by 20 bits for each word that decodes.
use iridium_sniffer.Base.{
  ℕ, zero, suc, ◌+◌, ◌-◌, ◌*◌, ◌/◌, ◌%◌, List, [], ◌∷◌, ◌++◌, Option, none, some, Bool, true, false,
  ◌&&◌, get_or, length, drop, leb, ltb, if◌then◌else◌,
}
use mathlib.Core.Option
use iridium_sniffer.Deinterleave.{de_interleave_n}
use iridium_sniffer.Ida.Chase.{DaBlock, chase_bch_da, bch_da_data}

-- `bch_stream` with its `bch_len` bits, and `*fixederrs`.
pub record Output : Type 0 where
  pub bch_stream : List ℕ
  pub fixederrs : ℕ

abbrev pub append_block : Output → DaBlock → Output
append_block out b = record {
  bch_stream = out.bch_stream ++ b.data_bits;
  fixederrs = out.fixederrs + b.fixed;
}

-- `order[4] = {3, 1, 2, 0}`
abbrev pub order : List ℕ
order = 3 ∷ 1 ∷ 2 ∷ 0 ∷ []

abbrev pub concat_pair {ℓ} : {A : Type ℓ} → List A × List A → List A
concat_pair p = p.0 ++ p.1

-- `for (i = ...; i < half_len; i++) combined[clen++] = h[i];`, with `left` rounds from `i`. An entry
-- of `h` that the de-interleaver did not write reads as `zero_value`: there is one, the last, if the
-- number of symbols is odd, and C reads an uninitialised byte there.
unfoldable pub read_range {ℓ} : {A : Type ℓ} → A → ℕ → ℕ → List A → List A
read_range zero_value zero i h = []
read_range zero_value (suc left) i h = get_or h i zero_value ∷ read_range zero_value left (i + 1) h

-- The halves of the last block without their first entries, the second half first. It has at most
-- 61 symbols, so the 128 entries of `combined` are enough.
abbrev pub tails {ℓ} : {A : Type ℓ} → A → ℕ → List A × List A → List A
tails zero_value half_len (h1, h2) =
    read_range zero_value (half_len - 1) 1 h2 ++ read_range zero_value (half_len - 1) 1 h1

module _ {R : Type 0} (less : R → R → Bool) (zero_value : R) (use_chase : ℕ) (max_bch : ℕ) where
  abbrev pub decode_at : List ℕ → Option (List R) → ℕ → Option DaBlock
  decode_at combined lcombined off =
      chase_bch_da less zero_value use_chase (drop off combined)
        (Option.map (λ l. drop off l) lcombined)

  -- The words of a full block in order: `inl` where a word fails (`goto done`).
  unfoldable pub full_words : List ℕ → List ℕ → Option (List R) → Output → Bool × Output
  full_words [] combined lcombined out = (true, out)
  full_words (c ∷ cs) combined lcombined out =
      elim (leb (length out.bch_stream + bch_da_data) max_bch) [
        | false ↦ (true, out)
        | true ↦ elim (decode_at combined lcombined (c * 31)) [
          | none ↦ (false, out)
          | some b ↦ full_words cs combined lcombined (append_block out b)
        ]
      ]

  -- `left` full blocks from `input` on; false where a word failed.
  unfoldable pub full_blocks : ℕ → List ℕ → Option (List R) → Output → Bool × Output
  full_blocks zero input llr out = (true, out)
  full_blocks (suc left) input llr out =
      let (go_on, out') =
        full_words order (concat_pair (de_interleave_n 0 input 62))
          (Option.map (λ l. concat_pair (de_interleave_n zero_value l 62)) llr) out in
      elim go_on [
        | false ↦ (false, out')
        | true ↦ full_blocks left (drop 124 input) (Option.map (λ l. drop 124 l) llr) out'
      ]

  -- `while (pos + 31 <= clen && bch_len + BCH_DA_DATA <= max_bch)`; the lists start at `pos`.
  unfoldable pub last_words : ℕ → List ℕ → Option (List R) → Output → Output
  last_words zero combined lcombined out = out
  last_words (suc fuel) combined lcombined out =
      elim (leb 31 (length combined) && leb (length out.bch_stream + bch_da_data) max_bch) [
        | false ↦ out
        | true ↦ elim (decode_at combined lcombined 0) [
          | none ↦ out
          | some b ↦
              last_words fuel (drop 31 combined) (Option.map (λ l. drop 31 l) lcombined)
                (append_block out b)
        ]
      ]

  unfoldable pub last_block : ℕ → List ℕ → Option (List R) → Output → Output
  last_block remain input llr out =
      let n_sym = remain / 2 in
      if leb 4 remain
        && leb (length out.bch_stream + 2 * (n_sym - 1)) max_bch
        && ltb 1 n_sym
        && leb (length out.bch_stream + bch_da_data) max_bch
      then last_words 5 (tails 0 n_sym (de_interleave_n 0 input n_sym))
          (Option.map (λ l. tails zero_value n_sym (de_interleave_n zero_value l n_sym)) llr) out
      else out

  -- `data_len` is the length of `input`.
  unfoldable pub descramble_payload : List ℕ → Option (List R) → Output
  descramble_payload input llr =
      let n_full = length input / 124 in
      let remain = length input % 124 in
      let (go_on, out) = full_blocks n_full input llr (record { bch_stream = []; fixederrs = 0 }) in
      elim go_on [
        | false ↦ out
        | true ↦
            last_block remain (drop (n_full * 124) input)
              (Option.map (λ l. drop (n_full * 124) l) llr) out
      ]
