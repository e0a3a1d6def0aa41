-- ===== src/Deinterleave.antt =====
-- The de-interleavers of frame_decode.c and ida_decode.c, for bits and for reliabilities alike.
-- A symbol is two neighbouring entries; the streams take symbols from the end of the block.
pub mod Streams
use iridium_sniffer.Base.{ℕ, zero, suc, ◌+◌, ◌-◌, ◌*◌, ◌/◌, List, [], ◌∷◌, get_or}

-- `for (...; s -= stride) { out[p++] = in[2 * s]; out[p++] = in[2 * s + 1]; }`, `n` rounds from `s`.
module _ {ℓ} {A : Type ℓ} (zero_value : A) (input : List A) where
  unfoldable pub symbols_down : ℕ → ℕ → ℕ → List A
  symbols_down stride zero s = []
  symbols_down stride (suc n) s =
      get_or input (2 * s) zero_value
      ∷ get_or input (2 * s + 1) zero_value
      ∷ symbols_down stride n (s - stride)

  -- `de_interleave_n` and `de_interleave_llr_n`: each loop makes `n_sym / 2` rounds.
  unfoldable pub de_interleave_n : ℕ → List A × List A
  unfolding symbols_down
  de_interleave_n n_sym =
      (symbols_down 2 (n_sym / 2) (n_sym - 1), symbols_down 2 (n_sym / 2) (n_sym - 2))

  -- `de_interleave` and `de_interleave_llr`: 64 entries, from `s = 31` and from `s = 30`.
  unfoldable pub de_interleave : List A × List A
  unfolding symbols_down
  de_interleave = (symbols_down 2 16 31, symbols_down 2 16 30)

  -- `de_interleave3`: 96 entries, from `s = 47`, 46 and 45.
  unfoldable pub de_interleave3 : List A × List A × List A
  unfolding symbols_down
  de_interleave3 = (symbols_down 3 16 47, symbols_down 3 16 46, symbols_down 3 16 45)
