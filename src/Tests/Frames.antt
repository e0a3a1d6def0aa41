-- ===== src/Tests/Frames.antt =====
-- Frames with a ring alert header and with a broadcast.
use iridium_sniffer.Base.{
  ℕ, List, [], ◌∷◌, ◌++◌, true, replicate, none, some, shl32, ◌≡◌, ◌⊎◌, refl, arith,
}
use iridium_sniffer.Base.Int.{ℤ}
use iridium_sniffer.Bch.{uint_to_bits, bits_to_uint, gf2_remainder, correct_word, syn_ra, syn_hdr}
use iridium_sniffer.Frame.{parse_ibc, extract_uint, extract_from}
use iridium_sniffer.Deinterleave.{de_interleave, symbols_down}
use iridium_sniffer.Block.{
  accept_pair, accept_block, chase_bch_decode_p, check_parity32, more_blocks,
}
use iridium_sniffer.Bch.Sound.{no_error, single}
use iridium_sniffer.Deinterleave.Streams.{AreGroups, interleave}
use iridium_sniffer.Frame.Header.{Sent, on_air, accept_header-sent}
use iridium_sniffer.Frame.Decode.{
  access_dl, access_ul, has_prefix, accept_header, frame_decode, detect, detect_ibc, bc_type_of,
}
use iridium_sniffer.Frame.Accepts.{IsReport, frame_decode-IsReport}
use iridium_sniffer.Demod.{Direction, DemodFrame}
use iridium_sniffer.Tests.{hertz, groups2, groups3}

-- Satellite 0, beam 1; the other blocks are 0, and one of them has a wrong bit.
abbrev beam_one : Sent
beam_one = record {
  word = 256;
  fits = omega arith;
  bits = 0;
  errors = 0;
  pattern = no_error;
  few = omega arith;
}

abbrev wrong_bit : Sent
wrong_bit = record {
  word = 0;
  fits = omega arith;
  bits = 1;
  errors = shl32 1 4;
  pattern = single 4 (omega arith);
  few = omega arith;
}

abbrev header : List (List ℕ)
header = groups3 (on_air beam_one) (on_air wrong_bit) (on_air beam_one)

all_three : AreGroups 3 header
unfolding uint_to_bits
all_three = (
  refl,
  (
    refl,
    (
      refl,
      (
        refl,
        (
          refl,
          (
            refl,
            (refl, (refl, (refl, (refl, (refl, (refl, (refl, (refl, (refl, (refl, tt)))))))))),
          ),
        ),
      ),
    ),
  ),
)

accept_header-sent_example :
    accept_header (interleave header ++ (1 ∷ []))
    ≡ some (uint_to_bits 256 21 ++ (uint_to_bits 0 21 ++ uint_to_bits 256 21))
unfolding uint_to_bits
accept_header-sent_example =
    accept_header-sent beam_one wrong_bit beam_one header (1 ∷ []) all_three refl refl refl refl

abbrev broadcast : DemodFrame hertz
broadcast = record {
  id = 1;
  timestamp = 5;
  center_frequency = 1_626_000_000;
  direction = Direction.downlink;
  magnitude = 10;
  noise = 1;
  confidence = 90;
  level = 1;
  n_symbols = 47;
  n_payload_symbols = ℤ.pos 35;
  bits = access_dl ++ (replicate 6 0 ++ interleave (groups2 (on_air beam_one) (on_air wrong_bit)));
  llr = none;
}

is_detected : (frame_decode hertz broadcast).0 ≡ true
unfolding frame_decode detect detect_ibc accept_pair accept_block chase_bch_decode_p check_parity32
    more_blocks parse_ibc extract_uint extract_from correct_word gf2_remainder bits_to_uint
    uint_to_bits de_interleave symbols_down syn_ra syn_hdr bc_type_of
is_detected = refl

frame_decode-IsReport_example :
    ((has_prefix access_dl broadcast.bits ≡ true) ⊎ (has_prefix access_ul broadcast.bits ≡ true))
    × IsReport hertz (frame_decode hertz broadcast).1.payload
    × ((frame_decode hertz broadcast).1.timestamp ≡ 5)
    × ((frame_decode hertz broadcast).1.frequency ≡ 1_626_000_000)
frame_decode-IsReport_example = frame_decode-IsReport hertz broadcast is_detected
