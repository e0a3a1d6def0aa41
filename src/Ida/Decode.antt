-- ===== src/Ida/Decode.antt =====
-- ida_decode.c, `ida_decode`: from a demodulated frame to one IDA burst.
pub mod Bounds
use iridium_sniffer.Base.{
  ℕ, zero, suc, ◌+◌, ◌-◌, ◌*◌, ◌/◌, ◌%◌, ◌^◌, List, [], ◌∷◌, ◌++◌, Option, none, some, Bool, true,
  false, ◌&&◌, ◌||◌, not, get_or, length, drop, take, replicate, leb, ltb, ◌==◌, if◌then◌else◌,
  bit_or, u8, u16,
}
use mathlib.Core.Option
use iridium_sniffer.Base.Int.{ℤ}
use iridium_sniffer.Base.Doubles.{Doubles}
use iridium_sniffer.Demod.{Direction, DemodFrame}
use iridium_sniffer.Ida.Payload.{Output, descramble_payload}
use iridium_sniffer.Ida.Lcw.{LcwWord, decode_lcw}
use iridium_sniffer.Ida.Crc.{crc_ccitt}

-- `sizeof(bch_stream)` in `ida_decode`, and in `ida_burst_t`.
abbrev pub max_bch : ℕ
max_bch = 512

abbrev pub burst_stream_size : ℕ
burst_stream_size = 256

-- `for (b = 0; b < n; b++) val = (val << 1) | bits[b]` in words of `w` bits.
unfoldable pub shift_bits : ℕ → ℕ → List ℕ → ℕ → ℕ
shift_bits w zero bits val = val
shift_bits w (suc n) [] val = shift_bits w n [] (val * 2 % 2 ^ w)
shift_bits w (suc n) (b ∷ bits) val = shift_bits w n bits (bit_or (val * 2) b % 2 ^ w)

-- Bits packed into `n` bytes from the top bit down; what is missing at the end is filled up with
-- zeros, which are in `crc_buf` from the start.
unfoldable pub pack_bytes : ℕ → List ℕ → List ℕ
pack_bytes zero bits = []
pack_bytes (suc n) bits = shift_bits 8 8 bits 0 ∷ pack_bytes n (drop 8 bits)

-- What goes into `crc_buf`: the first 20 bits, 12 zero bits, and the others but the last 4.
abbrev pub crc_input : List ℕ → List ℕ
crc_input bch_stream =
    take 20 bch_stream ++ (replicate 12 0 ++ take (length bch_stream - 24) (drop 20 bch_stream))

-- `(bch_stream[5] << 2) | ...` and the like: `n` bits from `i` on.
abbrev pub field : List ℕ → ℕ → ℕ → ℕ
field bch_stream i n = shift_bits 32 n (drop i bch_stream) 0

-- The test `crc_bytes <= sizeof(crc_buf)`, the CRC computed and the one stored.
pub record CrcCheck : Type 0 where
  pub crc_ok : Bool
  pub stored_crc : ℕ
  pub computed_crc : ℕ

unfoldable pub check_crc : List ℕ → ℕ → CrcCheck
check_crc bch_stream da_len =
    let bits = crc_input bch_stream in
    let crc_bytes = (length bits + 7) / 8 in
    let computed = crc_ccitt (pack_bytes crc_bytes bits) in
    let stored = shift_bits 16 16 (drop 180 bch_stream) 0 in
    if ltb 0 da_len && leb 196 (length bch_stream)
    then (if leb crc_bytes 64
        then record { crc_ok = computed == 0; stored_crc = stored; computed_crc = computed }
        else record { crc_ok = false; stored_crc = stored; computed_crc = 0 })
    else record { crc_ok = false; stored_crc = 0; computed_crc = 0 }

-- `lcw.ft` is 2 on the downlink and 6 or 7 on the uplink.
abbrev pub is_ida : ℕ → Bool
is_ida ft = (ft == 2) || (ft == 6) || (ft == 7)

abbrev pub is_directed : Direction → Bool
is_directed Direction.undef = false
is_directed Direction.downlink = true
is_directed Direction.uplink = true

module _ (F : Doubles) where
  open F use {Double, of_int, lt}

  -- `ida_burst_t`, without the header text.
  pub record Burst : Type 0 where
    pub timestamp : ℕ
    pub frequency : Double
    pub direction : Direction
    pub magnitude : Double
    pub noise : Double
    pub level : Double
    pub confidence : ℕ
    pub n_symbols : ℤ
    pub da_ctr : ℕ
    pub da_len : ℕ
    pub cont : ℕ
    pub payload : List ℕ
    pub crc : CrcCheck
    pub fixederrs : ℕ
    pub bch_stream : List ℕ
    pub bch_len : ℕ
    pub lcw : LcwWord

  -- The fields of a descrambled stream of at least 196 bits; none for the two returns of 0.
  unfoldable pub read_burst : DemodFrame F → LcwWord → Output → Option Burst
  read_burst frame lcw out =
      let s = out.bch_stream in
      let da_len = field s 11 5 in
      if ltb (length s) 196 || not (field s 17 3 == 0) || ltb 20 da_len
      then none
      else some (record {
        timestamp = frame.timestamp;
        frequency = frame.center_frequency;
        direction = frame.direction;
        magnitude = frame.magnitude;
        noise = frame.noise;
        level = frame.level;
        confidence = frame.confidence;
        n_symbols = frame.n_payload_symbols;
        da_ctr = field s 5 3;
        da_len = da_len;
        cont = get_or s 3 0;
        payload = take (if ltb 0 da_len then da_len else 20) (pack_bytes 20 (drop 20 s));
        crc = check_crc s da_len;
        fixederrs = out.fixederrs;
        bch_stream =
            take (if ltb (length s) burst_stream_size then length s else burst_stream_size) s;
        bch_len = length s;
        lcw = lcw;
      })

  -- none is the return of 0; `use_chase` is the option's number of bits to flip.
  unfoldable pub ida_decode : ℕ → DemodFrame F → Option Burst
  ida_decode use_chase frame =
      let input = drop 24 frame.bits in
      let llr = Option.map (λ l. drop (24 + 46) l) frame.llr in
      if ltb (length frame.bits) (24 + 46 + 124) || not (is_directed frame.direction)
      then none
      else elim (decode_lcw input) [
        | none ↦ none
        | some lcw ↦ elim (is_ida lcw.ft && not (ltb (length input - 46) 124)) [
          | false ↦ none
          | true ↦
              read_burst frame lcw
                (descramble_payload lt (of_int (ℤ.pos 0)) use_chase max_bch (drop 46 input) llr)
        ]
      ]
