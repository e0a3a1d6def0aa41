-- ===== src/Ida/Crc.antt =====
-- ida_decode.c, `crc_ccitt`: CRC-CCITT-FALSE, bit by bit.
pub mod Residue
use iridium_sniffer.Base.{
  ℕ, zero, suc, ◌+◌, ◌*◌, ◌/◌, ◌%◌, ◌^◌, List, [], ◌∷◌, bit_xor, bit_at, u16, ◌==◌, if◌then◌else◌,
}

-- `if (crc & 0x8000) crc = (crc << 1) ^ 0x1021; else crc = crc << 1;`
unfoldable pub crc_bit : ℕ → ℕ
crc_bit crc = if bit_at crc 15 == 1 then u16 (bit_xor (crc * 2) 0x1021) else u16 (crc * 2)

unfoldable pub crc_bits : ℕ → ℕ → ℕ
crc_bits zero crc = crc
crc_bits (suc n) crc = crc_bits n (crc_bit crc)

-- `crc ^= data[i] << 8`, and eight bits.
unfoldable pub crc_byte : ℕ → ℕ → ℕ
crc_byte crc byte = crc_bits 8 (bit_xor crc (u16 (byte * 2 ^ 8)))

unfoldable pub crc_from : ℕ → List ℕ → ℕ
crc_from crc [] = crc
crc_from crc (b ∷ bytes) = crc_from (crc_byte crc b) bytes

unfoldable pub crc_ccitt : List ℕ → ℕ
crc_ccitt bytes = crc_from 0xFFFF bytes
