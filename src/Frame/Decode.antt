-- ===== src/Frame/Decode.antt =====
-- frame_decode.c, `frame_decode`: the access code, then the two detections in turn.
use iridium_sniffer.Base.{
  ℕ, ◌+◌, ◌/◌, ◌^◌, List, [], ◌∷◌, Option, none, some, Bool, true, false, ◌&&◌, not, length, drop,
  leb, ltb, ◌==◌, if◌then◌else◌,
}
use iridium_sniffer.Base.Doubles.{Doubles}
use iridium_sniffer.Demod.{DemodFrame}
use iridium_sniffer.Bch.{bits_to_uint, uint_to_bits, correct_word, Corrected, syn_hdr, poly_hdr}
use iridium_sniffer.Deinterleave.{de_interleave3}
use iridium_sniffer.Block.{accept_block, accept_pair, both, more_blocks}
use iridium_sniffer.Frame.{Ira, Ibc, parse_ira, parse_ibc, extract_uint}

abbrev pub access_dl : List ℕ
access_dl =
    0 ∷ 0 ∷ 1 ∷ 1 ∷ 0 ∷ 0 ∷ 0 ∷ 0 ∷ 0 ∷ 0 ∷ 1 ∷ 1 ∷ 0 ∷ 0 ∷ 0 ∷ 0 ∷ 1 ∷ 1 ∷ 1 ∷ 1 ∷ 0 ∷ 0 ∷ 1 ∷ 1
    ∷ []

abbrev pub access_ul : List ℕ
access_ul =
    1 ∷ 1 ∷ 0 ∷ 0 ∷ 1 ∷ 1 ∷ 0 ∷ 0 ∷ 0 ∷ 0 ∷ 1 ∷ 1 ∷ 1 ∷ 1 ∷ 0 ∷ 0 ∷ 1 ∷ 1 ∷ 1 ∷ 1 ∷ 1 ∷ 1 ∷ 0 ∷ 0
    ∷ []

-- `memcmp(bits, code, 24) == 0`, the list of the code being as long as the comparison.
abbrev pub has_prefix : List ℕ → List ℕ → Bool
has_prefix [] bits = true
has_prefix (c ∷ code) [] = false
has_prefix (c ∷ code) (b ∷ bits) = (b == c) && has_prefix code bits

-- `if (beam_id < 1 || beam_id > 48) return 0;`
abbrev pub is_beam : ℕ → Bool
is_beam b = leb 1 b && leb b 48

-- `bch_stream[256]` and `bch_stream[512]`, and `ibc_max`.
abbrev pub ibc_stream_size : ℕ
ibc_stream_size = 256

abbrev pub ira_stream_size : ℕ
ira_stream_size = 512

abbrev pub ibc_max_bits : ℕ
ibc_max_bits = 262

-- The corrected header's upper bits: `uint_to_bits(hdr_val >> 4, hdr_data, 3)`, read back as the type.
unfoldable pub bc_type_of : Corrected → ℕ
bc_type_of hdr = extract_uint (uint_to_bits (hdr.word / 2 ^ 4) 3) 3

-- The IBC detection up to `out->type = FRAME_IBC`: none where the code falls through to IRA.
-- The 6 bits behind the access code are the header, and the blocks follow.
unfoldable pub detect_ibc : List ℕ → Option Ibc
detect_ibc input =
    if leb (6 + 64) (length input)
    then (elim (correct_word poly_hdr syn_hdr 16 (bits_to_uint input 6)) [
      | none ↦ none
      | some hdr ↦ elim (accept_pair (drop 6 input)) [
        | none ↦ none
        | some first ↦ some (
            parse_ibc
              (more_blocks ibc_stream_size input
                (if ltb (length input) ibc_max_bits then length input else ibc_max_bits)
                ibc_stream_size (6 + 64) first)
              (bc_type_of hdr))
      ]
    ])
    else none

-- The three header blocks of an IRA frame.
unfoldable pub accept_header : List ℕ → Option (List ℕ)
accept_header input =
    let (ra1, ra2, ra3) = de_interleave3 0 input in
    both (accept_block ra1) (both (accept_block ra2) (accept_block ra3))

module _ (F : Doubles) where
  open F use {Double, of_int}

  -- The IRA detection up to `out->type = FRAME_IRA`.
  unfoldable pub detect_ira : List ℕ → Option (Ira F)
  detect_ira input =
      if leb 96 (length input)
      then (elim (accept_header input) [
        | none ↦ none
        | some header ↦ some (
            parse_ira F
              (more_blocks ira_stream_size input (length input) ira_stream_size 96 header))
      ])
      else none

  -- The union of `decoded_frame_t` with its tag.
  pub data Payload : Type 0 where
    unknown : Payload
    ira : Ira F → Payload
    ibc : Ibc → Payload

  pub record DecodedFrame : Type 0 where
    pub timestamp : ℕ
    pub frequency : Double
    pub payload : Payload

  -- Both detections, and the beam test behind each: the return value and what `out` holds.
  unfoldable pub detect : List ℕ → Bool × Payload
  detect input = elim (detect_ibc input) [
    | some b ↦ (is_beam b.beam_id, ibc b)
    | none ↦ elim (detect_ira input) [
      | some r ↦ (is_beam r.beam_id, ira r)
      | none ↦ (false, unknown)
    ]
  ]

  -- Returns whether a frame was detected, and what is stored through `out`.
  unfoldable pub frame_decode : DemodFrame F → Bool × DecodedFrame
  frame_decode frame =
      let out : Payload → DecodedFrame = λ p. record {
        timestamp = frame.timestamp;
        frequency = frame.center_frequency;
        payload = p;
      } in
      if ltb (length frame.bits) 24
      then (false, out unknown)
      else if not (has_prefix access_dl frame.bits) && not (has_prefix access_ul frame.bits)
      then (false, out unknown)
      else let (found, p) = detect (drop 24 frame.bits) in (found, out p)
