-- ===== src/Demod.antt =====
-- `demod_frame_t`, what the demodulator hands to both decoders. `n_bits` is the length of `bits`;
-- `llr` is none where the pointer is NULL. `float` and `double` are one parameter type.
use iridium_sniffer.Base.{ℕ, List, Option}
use iridium_sniffer.Base.Int.{ℤ}
use iridium_sniffer.Base.Doubles.{Doubles}

-- `ir_direction_t`
pub data Direction : Type 0 where
  undef downlink uplink : Direction

module _ (F : Doubles) where
  open F use {Double}

  pub record DemodFrame : Type 0 where
    pub id : ℕ
    pub timestamp : ℕ
    pub center_frequency : Double
    pub direction : Direction
    pub magnitude : Double
    pub noise : Double
    pub confidence : ℕ
    pub level : Double
    pub n_symbols : ℕ
    pub n_payload_symbols : ℤ
    pub bits : List ℕ
    pub llr : Option (List Double)
