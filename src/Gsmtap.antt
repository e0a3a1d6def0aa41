-- ===== src/Gsmtap.antt =====
-- gsmtap.c and the callback of main.c in front of it: a reassembled message as a GSMTAP datagram.
pub mod Layout
use iridium_sniffer.Base.{
  ℕ, ◌+◌, ◌-◌, ◌*◌, ◌/◌, ◌%◌, ◌^◌, List, [], ◌∷◌, ◌++◌, Option, none, some, Bool, ◌||◌, not, bit_or,
  length, take, replicate, ltb, ◌==◌, if◌then◌else◌, u8, u16, u32,
}
use iridium_sniffer.Base.Int.{ℤ, pos, negsuc, pos_part, neg_part}
use iridium_sniffer.Base.Doubles.{Doubles}
use iridium_sniffer.Demod.{Direction}
use iridium_sniffer.Ida.Reassembly.{Message, same_direction}

-- The two's complement of an integer on a word of `2 ^ w` values.
abbrev pub wrap : ℕ → ℤ → ℕ
wrap w x = (pos_part x + 2 ^ w - neg_part x % 2 ^ w) % 2 ^ w

-- Network order.
abbrev pub be16 : ℕ → List ℕ
be16 x = (x / 256 % 256) ∷ (x % 256 ∷ [])

abbrev pub be32 : ℕ → List ℕ
be32 x = (x / 2 ^ 24 % 256) ∷ (x / 2 ^ 16 % 256 ∷ (x / 2 ^ 8 % 256 ∷ (x % 256 ∷ [])))

-- The 14 bits of the channel, and the flag of the uplink.
unfoldable pub arfcn_of : ℕ → Direction → ℕ
arfcn_of fchan direction =
    if same_direction direction Direction.uplink then bit_or fchan 0x4000 else fchan

-- The 16 bytes before the message.
unfoldable pub header : ℕ → ℕ → ℕ → List ℕ
header arfcn signal_dbm frame_number =
    (2 ∷ (4 ∷ (2 ∷ (0 ∷ []))))
    ++ (be16 arfcn
        ++ ((signal_dbm ∷ (0 ∷ [])) ++ (be32 frame_number ++ (1 ∷ (0 ∷ (0 ∷ (0 ∷ [])))))))

module _ (F : Doubles) where
  open F use {Double, of_int, to_int, sub, mul, div, lt, log10, decimal}

  -- The datagram, none where nothing is sent; `is_open` says that there is a socket. A channel or a
  -- frequency that no `uint16_t` or `uint32_t` holds is undefined in C and wraps around here.
  unfoldable pub gsmtap_send : Bool → List ℕ → Double → Direction → ℕ → Option (List ℕ)
  gsmtap_send is_open bytes frequency direction signal_dbm =
      let fchan =
        wrap 16
          (to_int (div (sub frequency (of_int (pos 1_616_000_000))) (decimal 41_666_667 3))) in
      if not is_open || (length bytes == 0)
      then none
      else some (
          header (arfcn_of fchan direction) signal_dbm (wrap 32 (to_int frequency))
          ++ take 240 bytes)

  -- The magnitude in dB as a signed byte.
  unfoldable pub gsmtap_ida_cb : Bool → Message F → Option (List ℕ)
  gsmtap_ida_cb is_open m =
      let dbm =
        if lt (of_int (pos 0)) m.magnitude
        then to_int (mul (of_int (pos 20)) (log10 m.magnitude))
        else negsuc 127 in
      gsmtap_send is_open m.bytes m.frequency m.direction (wrap 8 dbm)
