-- ===== src/Vita/Payload.antt =====
-- vita49.c, `vrt_parse_header`: where the samples of a datagram lie.
use iridium_sniffer.Base.{
  ℕ, ◌+◌, ◌-◌, ◌*◌, ◌/◌, ◌%◌, ◌^◌, ◌≤◌, ◌<◌, List, none, some, Bool, true, false, ◌&&◌, ◌||◌, not,
  length, leb, ltb, ◌==◌, if◌then◌else◌, bit_at, ◌≡◌, refl, arith, Bool-cases, some_eq, sym, inl,
  inr,
}
use iridium_sniffer.Vita.{
  word_at, vrl_strip, payload_of, vrt_parse_header, optional_words, words_if,
}

-- At least one word of samples, at a whole number of words, that ends inside of the packet.
pub record IsInside (off bytes len : ℕ) : Type 0 where
  pub some_bytes : 0 < bytes
  pub whole_words : (off % 4 ≡ 0) × (bytes % 4 ≡ 0)
  pub ends : off + bytes ≤ len

layout :
    (off hdr trailer size len : ℕ)
    → off % 4 ≡ 0
    → size * 4 ≤ len
    → hdr + trailer < size
    → IsInside (off + hdr * 4) ((size - hdr - trailer) * 4) (off + len)
layout off hdr trailer size len h s t = record {
  some_bytes = omega arith;
  whole_words = (omega arith, omega arith);
  ends = omega arith;
}

payload_of-IsInside :
    (w0 off len : ℕ) (p : ℕ × ℕ)
    → off % 4 ≡ 0
    → payload_of w0 off len ≡ some p
    → IsInside p.0 p.1 (off + len)
unfolding payload_of
payload_of-IsInside w0 off len p h =
    by_tests (not (w0 / 2 ^ 28 % 16 == 0) && not (w0 / 2 ^ 28 % 16 == 1)) (w0 % 2 ^ 16)
      (1 + optional_words w0 (w0 / 2 ^ 28 % 16 == 1)) (words_if (bit_at w0 26 == 1) 1)
  where
    by_tests :
        (other : Bool) (size hdr trailer : ℕ)
        → (if other
            then none
            else if ltb len (size * 4) || ltb (size * 4) 4
            then none
            else if leb size (hdr + trailer)
            then none
            else some (off + hdr * 4, (size - hdr - trailer) * 4))
          ≡ some p
        → IsInside p.0 p.1 (off + len)
    by_tests true size hdr trailer e = absurd (cc e)
    by_tests false size hdr trailer e = elim (Bool-cases (ltb len (size * 4) || ltb (size * 4) 4)) [
      | inl bad ↦ (let q = rw (bad) at e in absurd (cc q))
      | inr fits ↦ elim (Bool-cases (leb size (hdr + trailer))) [
        | inl empty ↦ (let q = rw (fits, empty) at e in absurd (cc q))
        | inr more ↦
            (let q = rw (fits, more) at e in
              let r = layout off hdr trailer size len h (ground arith) (ground arith) in
              rw (sym (some_eq q)) r)
      ]
    ]

widen : (off bytes len len' : ℕ) → len ≤ len' → IsInside off bytes len → IsInside off bytes len'
widen off bytes len len' h i = record {
  some_bytes = i.some_bytes;
  whole_words = i.whole_words;
  ends = omega (arith, i.ends);
}

-- The wrapper is cut off at a whole word, and what is left is a part of the datagram.
vrl_strip_lem :
    (pkt : List ℕ)
    → 4 ≤ length pkt
    → ((vrl_strip pkt).0 % 4 ≡ 0)
      × ((vrl_strip pkt).0 + ((vrl_strip pkt).1 - (vrl_strip pkt).0) ≤ length pkt)
unfolding vrl_strip
vrl_strip_lem pkt h = elim (Bool-cases (leb 12 (length pkt) && (word_at pkt 0 == 0x56524C50))) [
  | inl wrapped ↦ rw (wrapped, vrl_strip) (refl, ground arith)
  | inr bare ↦ rw (bare, vrl_strip) (refl, ground arith)
]

-- Of a datagram that is accepted, at least one word is samples, they start and end at whole words,
-- and they lie inside of the bytes received.
pub vrt_parse_header-IsInside :
    (pkt : List ℕ) (off bytes : ℕ)
    → vrt_parse_header pkt ≡ some (off, bytes)
    → IsInside off bytes (length pkt)
unfolding vrt_parse_header
vrt_parse_header-IsInside pkt off bytes e = elim (Bool-cases (ltb (length pkt) 4)) [
  | inl short ↦
      (let q : none ≡ some (off, bytes) = rw (short, vrt_parse_header) at e in absurd (cc q))
  | inr long ↦
      (let q = rw (long, vrt_parse_header) at e in
        let strip = vrl_strip_lem pkt (ground arith) in
        widen off bytes _ (length pkt) strip.1
          (payload_of-IsInside _ (vrl_strip pkt).0 _ (off, bytes) strip.0 q))
]
