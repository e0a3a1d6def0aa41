-- ===== src/Tests/Bursts.antt =====
-- IDA bursts: a frame that is decoded, a message of two bursts, and a context that is flushed.
use iridium_sniffer.Base.{
  ℕ, zero, suc, ◌+◌, ◌/◌, ◌%◌, List, [], ◌∷◌, ◌++◌, true, false, replicate, set, none, some, ◌≡◌,
  refl, arith,
}
use iridium_sniffer.Base.Int.{ℤ}
use iridium_sniffer.Demod.{Direction, DemodFrame}
use iridium_sniffer.Ida.Lcw.{LcwWord, decode_lcw, decode_words, permute, swap_pairs}
use iridium_sniffer.Ida.Lcw.Header.{format_lcw_header}
use iridium_sniffer.Ida.Lcw.Header.Lossless.{word_of, format_lcw_header-word_of}
use iridium_sniffer.Ida.Crc.{crc_ccitt}
use iridium_sniffer.Ida.Crc.Residue.{crc_ccitt-residue}
use iridium_sniffer.Ida.Decode.{Burst, ida_decode, read_burst, shift_bits, pack_bytes, check_crc}
use iridium_sniffer.Ida.Payload.{
  descramble_payload, full_blocks, full_words, last_block, last_words, read_range,
}
use iridium_sniffer.Ida.Chase.{chase_bch_da, correct_da}
use iridium_sniffer.Deinterleave.{de_interleave_n, symbols_down}
use iridium_sniffer.Bch.{
  correct_word, gf2_remainder, bits_to_uint, uint_to_bits, syn_lcw1, syn_lcw2, syn_lcw3,
}
use iridium_sniffer.Ida.Decode.Bounds.{IsReport, ida_decode-IsReport}
use iridium_sniffer.Ida.Reassembly.{
  Slot, ida_reassemble, ida_reassemble_flush, start, try_slots, matches,
}
use iridium_sniffer.Ida.Reassembly.Invariant.{
  AllFit, IsContext, MessageFits, ida_reassemble-IsContext,
}
use iridium_sniffer.Ida.Reassembly.Flush.{AllFlushed, ida_reassemble_flush_lem}
use iridium_sniffer.Ida.Reassembly.Delivery.{whole_message, delivered}
use iridium_sniffer.Ida.Reassembly.Steps.{run}
use iridium_sniffer.Tests.{hertz}

abbrev lcw_sync : LcwWord
lcw_sync = record { ft = 2; lcw_ft = 0; lcw_code = 0; lcw3_val = 0x12345; ec_lcw = 0 }

format_lcw_header-word_of_example :
    word_of (format_lcw_header 2 lcw_sync).code (format_lcw_header 2 lcw_sync).remain ≡ 0x12345
format_lcw_header-word_of_example = format_lcw_header-word_of 2 lcw_sync (omega arith)

crc_ccitt-residue_example :
    let crc = crc_ccitt (1 ∷ (2 ∷ [])) in
    crc_ccitt ((1 ∷ (2 ∷ [])) ++ (crc / 256 ∷ (crc % 256 ∷ []))) ≡ 0
crc_ccitt-residue_example = crc_ccitt-residue (1 ∷ (2 ∷ []))

-- A burst of three bytes.
abbrev pub burst : ℕ → ℕ → Burst hertz
burst da_ctr cont = record {
  timestamp = 1_000 + da_ctr;
  frequency = 1_620_000_000;
  direction = Direction.downlink;
  magnitude = 10;
  noise = 1;
  level = 1;
  confidence = 90;
  n_symbols = ℤ.pos 200;
  da_ctr = da_ctr;
  da_len = 3;
  cont = cont;
  payload = da_ctr ∷ (7 ∷ (8 ∷ []));
  crc = record { crc_ok = true; stored_crc = 0; computed_crc = 0 };
  fixederrs = 0;
  bch_stream = replicate 200 0;
  bch_len = 200;
  lcw = lcw_sync;
}

abbrev pub free : Slot hertz
free = record {
  active = false;
  direction = Direction.undef;
  frequency = 0;
  last_timestamp = 0;
  last_ctr = 0;
  bytes = [];
}

-- A message from another satellite is under way.
abbrev other : Slot hertz
other = record {
  active = true;
  direction = Direction.downlink;
  frequency = 1_621_000_000;
  last_timestamp = 900;
  last_ctr = 0;
  bytes = 5 ∷ [];
}

delivered_example :
    (s' : Slot hertz) × (s'.active ≡ false)
    × (run hertz (other ∷ (free ∷ [])) (burst 0 1 ∷ (burst 1 0 ∷ [])) ≡ (
      whole_message hertz (other ∷ []) [] (start hertz (burst 0 1)) (burst 1 0) [] ∷ [],
      other ∷ (s' ∷ []),
    ))
unfolding try_slots matches
delivered_example =
    delivered hertz (other ∷ []) free [] (burst 0 1) (burst 1 0) [] (refl, tt) refl
      (record {
        usable = record { checked = refl; some_data = omega arith };
        counter = refl;
        more = λ e. absurd (cc e);
        unexpected = refl;
      })
      (
        record {
          usable = record { checked = refl; some_data = omega arith };
          direction = refl;
          near = refl;
          later = omega arith;
          soon = omega arith;
          counter = refl;
          fits = omega arith;
        },
        refl,
      )
      (refl, tt)

pub free-AllFit : (n : ℕ) → AllFit hertz (replicate n free)
free-AllFit zero = tt
free-AllFit (suc n) = (omega arith, free-AllFit n)

ida_reassemble-IsContext_example :
    IsContext hertz (ida_reassemble hertz (replicate 16 free) (burst 0 1)).1
    × MessageFits hertz (ida_reassemble hertz (replicate 16 free) (burst 0 1)).0
ida_reassemble-IsContext_example =
    ida_reassemble-IsContext hertz (replicate 16 free) (burst 0 1)
      (record { count = refl; fits = free-AllFit 16 }) (omega arith)

ida_reassemble_flush_lem_example :
    AllFlushed hertz 300_000_000
      (other ∷ (free ∷ []))
      (ida_reassemble_flush hertz (other ∷ (free ∷ [])) 300_000_000)
ida_reassemble_flush_lem_example =
    ida_reassemble_flush_lem hertz (other ∷ (free ∷ [])) 300_000_000
      (omega arith, (omega arith, tt))

-- A link control word with `ft` 2, and three blocks of payload, all zeros.
abbrev lcw_bits : List ℕ
lcw_bits = set (set (set (set (replicate 46 0) 26 1) 30 1) 31 1) 39 1

abbrev pub ida_frame : DemodFrame hertz
ida_frame = record {
  id = 1;
  timestamp = 5;
  center_frequency = 1_620_000_000;
  direction = Direction.downlink;
  magnitude = 10;
  noise = 1;
  confidence = 90;
  level = 1;
  n_symbols = 221;
  n_payload_symbols = ℤ.pos 209;
  bits = replicate 24 0 ++ (lcw_bits ++ replicate 372 0);
  llr = none;
}

abbrev ida_burst : Burst hertz
ida_burst = record {
  timestamp = 5;
  frequency = 1_620_000_000;
  direction = Direction.downlink;
  magnitude = 10;
  noise = 1;
  level = 1;
  confidence = 90;
  n_symbols = ℤ.pos 209;
  da_ctr = 0;
  da_len = 0;
  cont = 0;
  payload = replicate 20 0;
  crc = record { crc_ok = false; stored_crc = 0; computed_crc = 0 };
  fixederrs = 0;
  bch_stream = replicate 240 0;
  bch_len = 240;
  lcw = record { ft = 2; lcw_ft = 0; lcw_code = 0; lcw3_val = 0; ec_lcw = 0 };
}

is_decoded : ida_decode hertz 0 ida_frame ≡ some ida_burst
unfolding ida_decode read_burst shift_bits pack_bytes check_crc decode_lcw decode_words permute
    swap_pairs correct_word gf2_remainder bits_to_uint uint_to_bits descramble_payload full_blocks
    full_words last_block last_words read_range chase_bch_da correct_da de_interleave_n symbols_down
    syn_lcw1 syn_lcw2 syn_lcw3
is_decoded = refl

ida_decode-IsReport_example : IsReport hertz ida_frame ida_burst
ida_decode-IsReport_example = ida_decode-IsReport hertz 0 ida_frame ida_burst is_decoded
