-- ===== src/Frame/Accepts.antt =====
-- frame_decode.c, `frame_decode`: the frames it accepts.
use iridium_sniffer.Base.{
  ℕ, zero, suc, ◌≤◌, List, Option, none, some, Bool, true, false, ◌&&◌, not, length, drop, leb, ltb,
  if◌then◌else◌, ◌⊎◌, inl, inr, some_eq, ◌≡◌, refl, arith,
}
use iridium_sniffer.Base.Doubles.{Doubles}
use iridium_sniffer.Demod.{DemodFrame}
use iridium_sniffer.Frame.{Ira, Ibc, read_pages, parse_ira, blank_ira}
use iridium_sniffer.Frame.Decode.{
  Payload, unknown, ira, ibc, DecodedFrame, detect, detect_ibc, detect_ira, frame_decode, is_beam,
  has_prefix, access_dl, access_ul, accept_header,
}
use iridium_sniffer.Block.{more_blocks}

read_pages-le : (left : ℕ) (rest : List ℕ) → length (read_pages left rest) ≤ left
unfolding read_pages
read_pages-le zero rest = omega arith
read_pages-le (suc left) rest = ground (arith, read_pages-le left (drop 42 rest))

module _ (F : Doubles) where
  parse_ira-pages : (bits : List ℕ) → length (parse_ira F bits).pages ≤ 12
  unfolding parse_ira blank_ira
  parse_ira-pages bits = ground (arith, read_pages-le 12 (drop 63 bits))

  -- A report on one of the 48 spot beams, with at most the 12 pages that there is room for.
  abbrev pub IsReport : Payload F → Type 0
  IsReport unknown = ⊥
  IsReport (ira r) = (1 ≤ r.beam_id) × (r.beam_id ≤ 48) × (length r.pages ≤ 12)
  IsReport (ibc b) = (1 ≤ b.beam_id) × (b.beam_id ≤ 48)

  ira-few : (input : List ℕ) (r : Ira F) → detect_ira F input ≡ some r → length r.pages ≤ 12
  ira-few input r h =
      of_tests (leb 96 (length input)) (accept_header input) (unfold detect_ira in h)
    where
      of_tests :
          (long : Bool) (o : Option (List ℕ))
          → (if long
              then (elim o [
                | none ↦ none
                | some header ↦
                    some (parse_ira F (more_blocks 512 input (length input) 512 96 header))
              ])
              else none)
            ≡ some r
          → length r.pages ≤ 12
      of_tests false o e = cc
      of_tests true none e = cc
      of_tests true (some header) e =
          rw (← some_eq e) (parse_ira-pages (more_blocks 512 input (length input) 512 96 header))

  detect-IsReport : (input : List ℕ) → (detect F input).0 ≡ true → IsReport (detect F input).1
  unfolding detect
  detect-IsReport input = by_ibc (detect_ibc input)
    where
      by_ira :
          (o : Option (Ira F))
          → ((r : Ira F) → o ≡ some r → length r.pages ≤ 12)
          → let res : Bool × Payload F = elim o [
            | some r ↦ (is_beam r.beam_id, ira r)
            | none ↦ (false, unknown)
          ] in
            res.0 ≡ true → IsReport res.1
      by_ira none few h = cc
      by_ira (some r) few h = ground (arith, few r refl)

      by_ibc :
          (o : Option Ibc)
          → let res : Bool × Payload F = elim o [
            | some b ↦ (is_beam b.beam_id, ibc b)
            | none ↦ elim (detect_ira F input) [
              | some r ↦ (is_beam r.beam_id, ira r)
              | none ↦ (false, unknown)
            ]
          ] in
            res.0 ≡ true → IsReport res.1
      by_ibc none h = by_ira (detect_ira F input) (ira-few input) h
      by_ibc (some b) h = ground arith

  -- If `frame_decode` returns 1, the frame begins with one of the access codes, and what it stored
  -- is a report; the time and the frequency are those of the frame.
  pub frame_decode-IsReport :
      (frame : DemodFrame F)
      → (frame_decode F frame).0 ≡ true
      → ((has_prefix access_dl frame.bits ≡ true) ⊎ (has_prefix access_ul frame.bits ≡ true))
        × IsReport (frame_decode F frame).1.payload
        × ((frame_decode F frame).1.timestamp ≡ frame.timestamp)
        × ((frame_decode F frame).1.frequency ≡ frame.center_frequency)
  unfolding frame_decode
  frame_decode-IsReport frame =
      of_tests (ltb (length frame.bits) 24) (has_prefix access_dl frame.bits)
        (has_prefix access_ul frame.bits) (detect F (drop 24 frame.bits))
        (detect-IsReport (drop 24 frame.bits))
    where
      out : Payload F → DecodedFrame F
      out p = record {
        timestamp = frame.timestamp;
        frequency = frame.center_frequency;
        payload = p;
      }

      of_tests :
          (short dl ul : Bool) (r : Bool × Payload F)
          → (r.0 ≡ true → IsReport r.1)
          → let res : Bool × DecodedFrame F =
              if short
              then (false, out unknown)
              else if not dl && not ul
              then (false, out unknown)
              else (r.0, out r.1) in
            res.0 ≡ true
            → ((dl ≡ true) ⊎ (ul ≡ true))
              × IsReport res.1.payload
              × (res.1.timestamp ≡ frame.timestamp)
              × (res.1.frequency ≡ frame.center_frequency)
      of_tests true dl ul r ok h = cc
      of_tests false true ul r ok h = (inl refl, ok h, refl, refl)
      of_tests false false true r ok h = (inr refl, ok h, refl, refl)
      of_tests false false false r ok h = cc
