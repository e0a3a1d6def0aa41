-- ===== src/Sbd/Crc.antt =====
-- sbd_acars.c: `crc16_init` and `crc16_kermit`, CRC-16/Kermit by a table.
pub mod Table
pub mod Residue
use iridium_sniffer.Base.{
  ℕ, zero, suc, ◌+◌, ◌/◌, ◌%◌, ◌^◌, List, [], ◌∷◌, bit_xor, get_or, ◌==◌, if◌then◌else◌,
}

-- `if (crc & 1) crc = (crc >> 1) ^ 0x8408; else crc >>= 1;`
unfoldable pub crc16_bit : ℕ → ℕ
crc16_bit crc = if crc % 2 == 1 then bit_xor (crc / 2) 0x8408 else crc / 2

unfoldable pub crc16_bits : ℕ → ℕ → ℕ
crc16_bits zero crc = crc
crc16_bits (suc n) crc = crc16_bits n (crc16_bit crc)

-- The entries of the table from `i` on.
unfoldable pub table_from : ℕ → ℕ → List ℕ
table_from i zero = []
table_from i (suc n) = crc16_bits 8 i ∷ table_from (i + 1) n

unfoldable pub crc16_init : List ℕ
crc16_init = table_from 0 256

-- `crc = crc16_table[(crc ^ data[i]) & 0xFF] ^ (crc >> 8);`
unfoldable pub crc16_byte : List ℕ → ℕ → ℕ → ℕ
crc16_byte table crc byte = bit_xor (get_or table (bit_xor crc byte % 2 ^ 8) 0) (crc / 2 ^ 8)

unfoldable pub crc16_from : List ℕ → ℕ → List ℕ → ℕ
crc16_from table crc [] = crc
crc16_from table crc (b ∷ bytes) = crc16_from table (crc16_byte table crc b) bytes

unfoldable pub crc16_kermit : List ℕ → List ℕ → ℕ
crc16_kermit table bytes = crc16_from table 0 bytes
