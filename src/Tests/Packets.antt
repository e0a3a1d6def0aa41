-- ===== src/Tests/Packets.antt =====
-- A VITA-49 datagram with one word of samples, and an SBD packet.
use iridium_sniffer.Base.{
  ℕ, zero, suc, List, [], ◌∷◌, length, false, replicate, some, ◌≡◌, refl, arith,
}
use iridium_sniffer.Vita.{vrl_strip, payload_of, vrt_parse_header}
use iridium_sniffer.Vita.Payload.{IsInside, vrt_parse_header-IsInside}
use iridium_sniffer.Sbd.{Slot, State, sbd_extract}
use iridium_sniffer.Sbd.Bounded.{AreBounded, IsContext, sbd_extract-IsContext}
use iridium_sniffer.Sbd.Crc.{crc16_init, crc16_kermit}
use iridium_sniffer.Sbd.Crc.Table.{bit_by_bit, crc16_kermit-bit_by_bit}

abbrev datagram : List ℕ
datagram = 16 ∷ (0 ∷ (0 ∷ (3 ∷ (0 ∷ (0 ∷ (0 ∷ (9 ∷ (1 ∷ (2 ∷ (3 ∷ (4 ∷ [])))))))))))

is_read : vrt_parse_header datagram ≡ some (8, 4)
unfolding vrt_parse_header vrl_strip payload_of
is_read = refl

vrt_parse_header-IsInside_example : IsInside 8 4 (length datagram)
vrt_parse_header-IsInside_example = vrt_parse_header-IsInside datagram 8 4 is_read

abbrev free : Slot ℕ
free = record {
  active = false;
  msgno = 0;
  msgcnt = 0;
  ul = false;
  timestamp = 0;
  frequency = 0;
  magnitude = 0;
  bytes = [];
}

abbrev pub idle : State ℕ
idle = record {
  sbd_multi = replicate 8 free;
  stats = record { total = 0; short = 0; single = 0; multi_ok = 0; multi_frag = 0; broken = 0 };
}

abbrev packet : List ℕ
packet = 0x76 ∷ (9 ∷ (0x10 ∷ (2 ∷ (2 ∷ (65 ∷ (66 ∷ []))))))

pub free-AreBounded : (n : ℕ) → AreBounded ℕ (replicate n free)
free-AreBounded zero = tt
free-AreBounded (suc n) = (omega arith, free-AreBounded n)

sbd_extract-IsContext_example :
    IsContext ℕ (sbd_extract ℕ idle packet false 5 1_620_000_000 10).1.sbd_multi
sbd_extract-IsContext_example =
    sbd_extract-IsContext ℕ idle packet false 5 1_620_000_000 10
      (record { eight = refl; bounded = free-AreBounded 8 })

crc16_kermit-bit_by_bit_example :
    crc16_kermit crc16_init (0x31 ∷ (0xF0 ∷ [])) ≡ bit_by_bit 0 (0x31 ∷ (0xF0 ∷ []))
crc16_kermit-bit_by_bit_example =
    crc16_kermit-bit_by_bit (0x31 ∷ (0xF0 ∷ [])) (omega arith, (omega arith, tt))
