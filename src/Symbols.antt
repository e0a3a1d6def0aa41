-- ===== src/Symbols.antt =====
-- The end of qpsk_demod.c, on the symbols 0 to 3: the unique word, the differential decoding and
-- the bits.
pub mod Rotation
use iridium_sniffer.Base.{
  ℕ, zero, suc, ◌+◌, ◌-◌, ◌/◌, ◌%◌, List, [], ◌∷◌, Bool, true, false, length, get_or, leb, ltb,
  ◌==◌, if◌then◌else◌,
}
use iridium_sniffer.Demod.{Direction}

-- `dqpsk_map`
abbrev pub dqpsk_map : ℕ → ℕ
dqpsk_map diff = get_or (0 ∷ (2 ∷ (3 ∷ (1 ∷ [])))) diff 0

-- The loop of `decode_dqpsk`, from a given `old_sym`.
unfoldable pub decode_from : ℕ → List ℕ → List ℕ
decode_from old_sym [] = []
decode_from old_sym (s ∷ symbols) = dqpsk_map ((s + 4 - old_sym) % 4) ∷ decode_from s symbols

unfoldable pub decode_dqpsk : List ℕ → List ℕ
decode_dqpsk symbols = decode_from 0 symbols

-- `IR_UW_LENGTH`, `IR_UW_DL` and `IR_UW_UL`
abbrev pub ir_uw_length : ℕ
ir_uw_length = 12

abbrev pub ir_uw_dl : List ℕ
ir_uw_dl = 0 ∷ (2 ∷ (2 ∷ (2 ∷ (2 ∷ (0 ∷ (0 ∷ (0 ∷ (2 ∷ (0 ∷ (0 ∷ (2 ∷ [])))))))))))

abbrev pub ir_uw_ul : List ℕ
ir_uw_ul = 2 ∷ (2 ∷ (0 ∷ (0 ∷ (0 ∷ (2 ∷ (0 ∷ (0 ∷ (2 ∷ (0 ∷ (2 ∷ (2 ∷ [])))))))))))

abbrev pub unique_word : Direction → List ℕ
unique_word Direction.downlink = ir_uw_dl
unique_word Direction.uplink = ir_uw_ul
unique_word Direction.undef = ir_uw_ul

-- `abs(symbols[i] - uw[i])`, where a difference of 3 is one step the other way round.
abbrev pub symbol_diff : ℕ → ℕ → ℕ
symbol_diff a b = let diff = (a - b) + (b - a) in if diff == 3 then 1 else diff

unfoldable pub sum_diffs : List ℕ → List ℕ → ℕ
sum_diffs symbols [] = 0
sum_diffs [] (u ∷ uw) = 0
sum_diffs (s ∷ symbols) (u ∷ uw) = symbol_diff s u + sum_diffs symbols uw

-- `diffs <= UW_MAX_ERRORS`
unfoldable pub check_sync_word : List ℕ → Direction → Bool
check_sync_word symbols direction =
    if ltb (length symbols) ir_uw_length
    then false
    else leb (sum_diffs symbols (unique_word direction)) 2

unfoldable pub map_symbols_to_bits : List ℕ → List ℕ
map_symbols_to_bits [] = []
map_symbols_to_bits (s ∷ symbols) = s / 2 % 2 ∷ (s % 2 ∷ map_symbols_to_bits symbols)
