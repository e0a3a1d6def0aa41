-- ===== src/Gsmtap/Layout.antt =====
-- gsmtap.c, `gsmtap_send`: the length and the fields of the datagram.
use iridium_sniffer.Base.{
  ℕ, zero, suc, ◌+◌, ◌*◌, ◌/◌, ◌%◌, ◌^◌, ◌≤◌, ◌<◌, List, ◌++◌, some, true, false, length,
  length-take, get_or, take, drop, ◌==◌, Bool-cases, inl, inr, ◌≡◌, refl, arith,
}
use native.Mathlib.Nat.{mod-lt, pow-suc}
use iridium_sniffer.Base.Int.{ℤ, pos}
use iridium_sniffer.Bits.Or.{bit_or-lt}
use iridium_sniffer.Ida.Reassembly.{same_direction}
use iridium_sniffer.Base.Doubles.{Doubles}
use iridium_sniffer.Demod.{Direction}
use iridium_sniffer.Gsmtap.{gsmtap_send, header, arfcn_of, wrap}

-- Two and four bytes in network order, at an index.
abbrev pub read16 : List ℕ → ℕ → ℕ
read16 bytes i = get_or bytes i 0 * 256 + get_or bytes (i + 1) 0

abbrev pub read32 : List ℕ → ℕ → ℕ
read32 bytes i = read16 bytes i * 2 ^ 16 + read16 bytes (i + 2)

wrap-lt : (w : ℕ) (x : ℤ) → wrap w x < 2 ^ w
wrap-lt w x = mod-lt _ (positive w)
  where
    positive : (w : ℕ) → 0 < 2 ^ w
    positive zero = omega arith
    positive (suc w) = omega (arith, positive w, pow-suc 2 w)

read16-be16 : (a : ℕ) → a < 2 ^ 16 → a / 256 % 256 * 256 + a % 256 ≡ a
read16-be16 a h = omega arith

read32-be32 :
    (a : ℕ)
    → a < 2 ^ 32
    → (a / 2 ^ 24 % 256 * 256 + a / 2 ^ 16 % 256) * 2 ^ 16 + (a / 2 ^ 8 % 256 * 256 + a % 256) ≡ a
read32-be32 a h = omega arith

arfcn_of-lt :
    (fchan : ℕ) (direction : Direction) → fchan < 2 ^ 16 → arfcn_of fchan direction < 2 ^ 16
unfolding arfcn_of
arfcn_of-lt fchan direction h = elim (Bool-cases (same_direction direction Direction.uplink)) [
  | inl e ↦ rw (e) (bit_or-lt 16 fchan 0x4000 h (omega arith))
  | inr e ↦ rw (e) h
]

module _ (F : Doubles) where
  open F use {Double, of_int, to_int, sub, div, decimal}

  abbrev pub channel : Double → ℕ
  channel frequency =
      wrap 16 (to_int (div (sub frequency (of_int (pos 1_616_000_000))) (decimal 41_666_667 3)))

  -- What is sent for a message: at most 256 bytes, of which the first 16 hold the channel with its
  -- direction and the frequency in network order, and the others are the first 240 of the message.
  gsmtap_send-layout :
      (bytes : List ℕ) (frequency : Double) (direction : Direction) (signal_dbm : ℕ)
      → 0 < length bytes
      → (pkt : List ℕ) × (gsmtap_send F true bytes frequency direction signal_dbm ≡ some pkt)
        × (length pkt ≤ 256)
        × (drop 16 pkt ≡ take 240 bytes)
        × (read16 pkt 4 ≡ arfcn_of (channel frequency) direction)
        × (read32 pkt 8 ≡ wrap 32 (to_int frequency))
  unfolding gsmtap_send header
  gsmtap_send-layout bytes frequency direction signal_dbm h =
      let arfcn = arfcn_of (channel frequency) direction in
      let number = wrap 32 (to_int frequency) in
      let sent : (length bytes == 0) ≡ false = ground arith in
      (
        header arfcn signal_dbm number ++ take 240 bytes,
        rw (sent) refl,
        omega (arith, length-take 240 bytes),
        refl,
        read16-be16 arfcn (
            arfcn_of-lt (channel frequency) direction (
              wrap-lt 16 (
                to_int (div (sub frequency (of_int (pos 1_616_000_000))) (decimal 41_666_667 3))))),
        read32-be32 number (wrap-lt 32 (to_int frequency)),
      )
