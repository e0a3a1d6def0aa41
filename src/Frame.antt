-- ===== src/Frame.antt =====
-- frame_decode.c: the fields of ring alert (IRA) and broadcast (IBC) frames, and `frame_decode`.
pub mod Decode
pub mod Accepts
pub mod Header
use iridium_sniffer.Base.{
  ℕ, zero, suc, ◌+◌, ◌-◌, ◌*◌, ◌/◌, ◌%◌, ◌^◌, List, [], ◌∷◌, ◌++◌, Option, none, some, Bool, true,
  false, ◌&&◌, ◌||◌, not, get_or, length, drop, take, leb, ltb, ◌==◌, if◌then◌else◌, bit_or, shl32,
}
use iridium_sniffer.Base.Int.{ℤ, pos, negsuc, sub_ℕ, ◌+ℤ◌, ◌-ℤ◌}
use iridium_sniffer.Base.Doubles.{Doubles}
use iridium_sniffer.Bch.{bits_to_uint, uint_to_bits, correct_word, syn_hdr, poly_hdr}
use iridium_sniffer.Deinterleave.{de_interleave3}
use iridium_sniffer.Block.{accept_block, accept_pair, both, more_blocks, bch_ra_data}

-- `for (i = 0; i < n; i++) val = (val << 1) | bits[i]` on `int`, which holds every field read so.
unfoldable pub extract_from : ℕ → List ℕ → ℕ → ℕ
extract_from zero bits val = val
extract_from (suc n) [] val = extract_from n [] (val * 2)
extract_from (suc n) (b ∷ bits) val = extract_from n bits (bit_or (val * 2) b)

unfoldable pub extract_uint : List ℕ → ℕ → ℕ
unfolding extract_from
extract_uint bits n = extract_from n bits 0

-- Bit 0 is the sign, bits 1 to 11 are shifted into `mag`.
unfoldable pub extract_signed12 : List ℕ → ℤ
unfolding extract_from
extract_signed12 bits =
    let mag = extract_from 11 (drop 1 bits) 0 in
    if get_or bits 0 0 == 0 then pos mag else sub_ℕ mag (2 ^ 11)

-- The same loop on `uint32_t`.
unfoldable pub extract_u32 : ℕ → List ℕ → ℕ → ℕ
extract_u32 zero bits val = val
extract_u32 (suc n) [] val = extract_u32 n [] (shl32 val 1)
extract_u32 (suc n) (b ∷ bits) val = extract_u32 n bits (bit_or (shl32 val 1) b)

pub record Page : Type 0 where
  pub tmsi : ℕ
  pub msc_id : ℕ

-- `for (i = 0; i < 42; i++) if (!page[i]) ...`
unfoldable pub all_ones : ℕ → List ℕ → Bool
all_ones zero page = true
all_ones (suc n) [] = false
all_ones (suc n) (b ∷ page) = not (b == 0) && all_ones n page

-- The paging blocks from `offset` on, with room for `left` more of the 12. The list is
-- `bch_data[offset .. n_bits)`, so its length is `n_bits - offset`.
unfoldable pub read_pages : ℕ → List ℕ → List Page
read_pages zero rest = []
read_pages (suc left) rest =
    if leb 42 (length rest) && not (all_ones 42 rest)
    then record { tmsi = extract_u32 32 rest 0; msc_id = extract_uint (drop 34 rest) 5 }
      ∷ read_pages left (drop 42 rest)
    else []

abbrev pub max_pages : ℕ
max_pages = 12

-- `ibc_data_t`
pub record Ibc : Type 0 where
  pub sat_id : ℕ
  pub beam_id : ℕ
  pub timeslot : ℕ
  pub sv_blocking : ℕ
  pub bc_type : ℕ
  pub iri_time : ℕ

-- `bch_data` holds `n_bits` bits.
unfoldable pub parse_ibc : List ℕ → ℕ → Ibc
parse_ibc bch_data hdr_type =
    if ltb (length bch_data) 42
    then record {
      sat_id = 0;
      beam_id = 0;
      timeslot = 0;
      sv_blocking = 0;
      bc_type = hdr_type;
      iri_time = 0;
    }
    else record {
      sat_id = extract_uint bch_data 7;
      beam_id = extract_uint (drop 7 bch_data) 6;
      timeslot = get_or bch_data 14 0;
      sv_blocking = get_or bch_data 15 0;
      bc_type = hdr_type;
      iri_time =
          if leb 84 (length bch_data) && (extract_uint (drop 42 bch_data) 6 == 1)
          then extract_u32 32 (drop 52 bch_data) 0
          else 0;
    }

module _ (F : Doubles) where
  open F use {Double, of_int, to_int, add, mul, div, sqrt, atan2, pi}

  -- `ira_data_t`; `n_pages` is the length of `pages`.
  pub record Ira : Type 0 where
    pub sat_id : ℕ
    pub beam_id : ℕ
    pub lat : Double
    pub lon : Double
    pub alt : ℤ
    pub pos_x : ℤ
    pub pos_y : ℤ
    pub pos_z : ℤ
    pub pages : List Page

  -- `memset(ira, 0, ...)`
  unfoldable pub blank_ira : Ira
  blank_ira = record {
    sat_id = 0;
    beam_id = 0;
    lat = of_int (pos 0);
    lon = of_int (pos 0);
    alt = pos 0;
    pos_x = pos 0;
    pos_y = pos 0;
    pos_z = pos 0;
    pages = [];
  }

  abbrev square : ℤ → Double
  square a = mul (of_int a) (of_int a)

  abbrev degrees : Double → Double
  degrees a = div (mul a (of_int (pos 180))) pi

  unfoldable pub parse_ira : List ℕ → Ira
  parse_ira bch_data =
      let x = extract_signed12 (drop 13 bch_data) in
      let y = extract_signed12 (drop 25 bch_data) in
      let z = extract_signed12 (drop 37 bch_data) in
      if ltb (length bch_data) 63 then blank_ira else record {
        sat_id = extract_uint bch_data 7;
        beam_id = extract_uint (drop 7 bch_data) 6;
        lat = degrees (atan2 (of_int z) (sqrt (add (square x) (square y))));
        lon = degrees (atan2 (of_int y) (of_int x));
        alt =
            to_int (mul (sqrt (add (add (square x) (square y)) (square z))) (of_int (pos 4)))
            -ℤ pos 6378
            +ℤ pos 23;
        pos_x = x;
        pos_y = y;
        pos_z = z;
        pages = read_pages max_pages (drop 63 bch_data);
      }
