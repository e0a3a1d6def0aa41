-- ===== src/Ida/Decode/Bounds.antt =====
-- ida_decode.c, `ida_decode`: the bursts that it reports.
use iridium_sniffer.Base.{
  ℕ, zero, suc, ◌+◌, ◌-◌, ◌≤◌, List, some, Option-cases, some_eq, Bool, true, false, Bool-cases,
  inl, inr, ◌&&◌, ◌||◌, not, length, length-take, drop, take, ltb, ◌==◌, ◌≡◌, refl, sym, arith,
  if◌then◌else◌,
}
use iridium_sniffer.Base.Doubles.{Doubles}
use iridium_sniffer.Demod.{DemodFrame}
use iridium_sniffer.Ida.Payload.{Output}
use iridium_sniffer.Ida.Lcw.{LcwWord, decode_lcw}
use iridium_sniffer.Ida.Decode.{
  Burst, read_burst, ida_decode, field, pack_bytes, is_ida, is_directed,
}

-- The tests of the stream, on its length, the field that is zero and the length of the data.
checked : (n f d : ℕ) → (ltb n 196 || not (f == 0) || ltb 20 d) ≡ false → (196 ≤ n) × (d ≤ 20)
checked n f d h = (ground arith, ground arith)

frame_checked : (short known : Bool) → (short || not known) ≡ false → known ≡ true
frame_checked true known h = absurd (cc h)
frame_checked false true h = refl
frame_checked false false h = absurd (cc h)

and_left : (a b : Bool) → (a && b) ≡ true → a ≡ true
and_left true b h = refl
and_left false b h = absurd (cc h)

at_most : (n m : ℕ) → (if ltb n m then n else m) ≤ m
at_most n m = ground arith

length-take_first : (n m : ℕ) {A : Type 0} (xs : List A) → n ≤ m → length (take n xs) ≤ m
length-take_first n m xs h = omega (arith, length-take n xs)

length-take_all : (n m : ℕ) {A : Type 0} (xs : List A) → length xs ≤ m → length (take n xs) ≤ m
length-take_all n m xs h = omega (arith, length-take n xs)

module _ (F : Doubles) where
  -- The lengths are those of the arrays of `ida_burst_t`, and the type is one of an IDA frame.
  pub record IsReport (frame : DemodFrame F) (b : Burst F) : Type 0 where
    pub da_len : b.da_len ≤ 20
    pub payload : length b.payload ≤ 20
    pub stream : length b.bch_stream ≤ 256
    pub whole : 196 ≤ b.bch_len
    pub ida : is_ida b.lcw.ft ≡ true
    pub directed : is_directed b.direction ≡ true
    pub same_direction : b.direction ≡ frame.direction

  length-pack_bytes : (n : ℕ) (bits : List ℕ) → length (pack_bytes n bits) ≡ n
  unfolding pack_bytes
  length-pack_bytes zero bits = refl
  length-pack_bytes (suc n) bits = rw (length-pack_bytes n (drop 8 bits))

  read_burst-IsReport :
      (frame : DemodFrame F) (lcw : LcwWord) (out : Output) (b : Burst F)
      → is_ida lcw.ft ≡ true
      → is_directed frame.direction ≡ true
      → read_burst F frame lcw out ≡ some b
      → IsReport frame b
  unfolding read_burst
  read_burst-IsReport frame lcw out b i d e =
      elim (Bool-cases (
        ltb (length out.bch_stream) 196
        || not (field out.bch_stream 17 3 == 0)
        || ltb 20 (field out.bch_stream 11 5))) [
          | inl bad ↦ (let q = rw (bad) at e in absurd (cc q))
          | inr good ↦
              (let q = rw (good) at e in
                let c =
                  checked (length out.bch_stream) (field out.bch_stream 17 3)
                    (field out.bch_stream 11 5) good in
                rw (sym (some_eq q)) (record {
                  da_len = c.1;
                  payload =
                      length-take_all _ 20 (pack_bytes 20 (drop 20 out.bch_stream))
                        (omega (arith, length-pack_bytes 20 (drop 20 out.bch_stream)));
                  stream =
                      length-take_first _ 256 out.bch_stream (at_most (length out.bch_stream) 256);
                  whole = c.0;
                  ida = i;
                  directed = d;
                  same_direction = refl;
                }))
        ]

  -- A burst that is reported fits into `ida_burst_t`, has at least the 196 bits of its fields, and
  -- comes from a frame of known direction and of a type for IDA.
  pub ida_decode-IsReport :
      (use_chase : ℕ) (frame : DemodFrame F) (b : Burst F)
      → ida_decode F use_chase frame ≡ some b
      → IsReport frame b
  unfolding ida_decode
  ida_decode-IsReport use_chase frame b e =
      elim (Bool-cases
        (ltb (length frame.bits) (24 + 46 + 124) || not (is_directed frame.direction))) [
          | inl bad ↦ (let q = rw (bad) at e in absurd (cc q))
          | inr good ↦ elim (Option-cases (decode_lcw (drop 24 frame.bits))) [
            | inl n ↦ (let q = rw (good, n) at e in absurd (cc q))
            | inr (lcw, l) ↦
                elim (Bool-cases
                  (is_ida lcw.ft && not (ltb (length (drop 24 frame.bits) - 46) 124))) [
                    | inr bad_type ↦ (let q = rw (good, l, bad_type) at e in absurd (cc q))
                    | inl good_type ↦
                        read_burst-IsReport frame lcw _ b (and_left _ _ good_type)
                          (frame_checked _ _ good) (rw (good, l, good_type) at e)
                  ]
          ]
        ]
