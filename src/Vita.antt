-- ===== src/Vita.antt =====
-- vita49.c: which bytes of a datagram are samples, and what a context packet sets.
-- A datagram is a list of bytes; `ntohl` of a word is its four bytes from the top down.
pub mod Payload
pub mod Explicit
use iridium_sniffer.Base.{
  ℕ, ◌+◌, ◌-◌, ◌*◌, ◌/◌, ◌%◌, ◌^◌, ◌≤◌, List, [], ◌∷◌, Option, none, some, Bool, true, false, ◌&&◌,
  ◌||◌, not, length, drop, get_or, take, leb, ltb, ◌==◌, if◌then◌else◌, bit_at,
}
use mathlib.Core.Option
use iridium_sniffer.Base.Int.{ℤ, pos, negsuc}
use iridium_sniffer.Base.Doubles.{Doubles}

-- `ntohl` of the word at byte `i`.
abbrev pub word_at : List ℕ → ℕ → ℕ
word_at pkt i =
    get_or pkt i 0 * 2 ^ 24
    + get_or pkt (i + 1) 0 * 2 ^ 16
    + get_or pkt (i + 2) 0 * 2 ^ 8
    + get_or pkt (i + 3) 0

-- The offset returned, and `*pkt_len` afterwards; the magic number is "VRLP".
unfoldable pub vrl_strip : List ℕ → ℕ × ℕ
vrl_strip pkt =
    if leb 12 (length pkt) && (word_at pkt 0 == 0x56524C50)
    then (8, length pkt - 4)
    else (0, length pkt)

-- The words of a header after the first: stream ID, class ID and the two timestamps.
abbrev pub words_if : Bool → ℕ → ℕ
words_if true n = n
words_if false n = 0

abbrev pub optional_words : ℕ → Bool → ℕ
optional_words w0 stream_id =
    words_if stream_id 1
    + words_if (bit_at w0 27 == 1) 2
    + words_if (not (w0 / 2 ^ 22 % 4 == 0)) 1
    + words_if (not (w0 / 2 ^ 20 % 4 == 0)) 2

-- The size checks and the layout, for a header word `w0` at `vrl_off` with `vrt_len` bytes.
unfoldable pub payload_of : ℕ → ℕ → ℕ → Option (ℕ × ℕ)
payload_of w0 vrl_off vrt_len =
    let pkt_type = w0 / 2 ^ 28 % 16 in
    let pkt_size_w = w0 % 2 ^ 16 in
    let hdr_words = 1 + optional_words w0 (pkt_type == 1) in
    let trailer_words = words_if (bit_at w0 26 == 1) 1 in
    if not (pkt_type == 0) && not (pkt_type == 1)
    then none
    else if ltb vrt_len (pkt_size_w * 4) || ltb (pkt_size_w * 4) 4
    then none
    else if leb pkt_size_w (hdr_words + trailer_words)
    then none
    else some (vrl_off + hdr_words * 4, (pkt_size_w - hdr_words - trailer_words) * 4)

-- `vrt_parse_header`: the offset and the size of the samples; none is the return of -1.
unfoldable pub vrt_parse_header : List ℕ → Option (ℕ × ℕ)
vrt_parse_header pkt =
    let (vrl_off, pkt_len) = vrl_strip pkt in
    if ltb (length pkt) 4
    then none
    else payload_of (word_at pkt vrl_off) vrl_off (pkt_len - vrl_off)

pub data IqFormat : Type 0 where
  ci8 ci16 cf32 : IqFormat

-- `vrt_parse_data_format`; none is -1.
unfoldable pub vrt_parse_data_format : ℕ → Option IqFormat
vrt_parse_data_format fmt_word1 =
    let dif = fmt_word1 / 2 ^ 24 % 32 in
    let data_bits = fmt_word1 % 32 + 1 in
    if not (fmt_word1 / 2 ^ 29 % 4 == 1)
    then none
    else if dif == 0
    then (if data_bits == 8
        then some IqFormat.ci8
        else if data_bits == 16
        then some IqFormat.ci16
        else none)
    else if dif == 14
    then some IqFormat.cf32
    else none

-- A row of `cif_fields`: the number of the bit, and the size in words.
pub record CifField : Type 0 where
  pub bit : ℕ
  pub words : ℕ

abbrev row : ℕ → ℕ → CifField
row b w = record { bit = b; words = w }

abbrev pub cif_fields : List CifField
cif_fields =
    row 31 1
    ∷ (row 30 1
        ∷ (row 29 2
            ∷ (row 28 2
                ∷ (row 27 2
                    ∷ (row 26 2
                        ∷ (row 25 2
                            ∷ (row 24 1
                                ∷ (row 23 1
                                    ∷ (row 22 1
                                        ∷ (row 21 2
                                            ∷ (row 20 2
                                                ∷ (row 19 1
                                                    ∷ (row 18 1
                                                        ∷ (row 17 2
                                                            ∷ (row 16 1
                                                            ∷ (row 15 2 ∷ []))))))))))))))))

-- `(int64_t)val`
abbrev pub to_signed64 : ℕ → ℤ
to_signed64 val = if ltb val (2 ^ 63) then pos val else negsuc (2 ^ 64 - 1 - val)

module _ (F : Doubles) where
  open F use {Double, of_int, div}

  -- The three values that the walk looks for.
  pub record Found : Type 0 where
    pub rf_freq : Option Double
    pub sample_rate : Option Double
    pub format : Option IqFormat

  -- `(double)(int64_t)read_be64(&words[off_w]) / (1LL << 20)`
  abbrev pub fixed_point : List ℕ → ℕ → Double
  fixed_point vrt off_w =
      div (of_int (to_signed64 (word_at vrt (4 * off_w) * 2 ^ 32 + word_at vrt (4 * off_w + 4))))
        (of_int (pos (2 ^ 20)))

  abbrev pub note_field : CifField → List ℕ → ℕ → Found → Found
  note_field f vrt off_w found =
      if f.bit == 27
      then record found { rf_freq = some (fixed_point vrt off_w) }
      else if f.bit == 21
      then record found { sample_rate = some (fixed_point vrt off_w) }
      else if f.bit == 15
      then record found { format = vrt_parse_data_format (word_at vrt (4 * off_w)) }
      else found

  -- The walk over the fields that `cif0` announces; none if the packet is cut short.
  unfoldable pub walk : List CifField → ℕ → List ℕ → ℕ → ℕ → Found → Option Found
  walk [] cif0 vrt pkt_size_w off_w found = some found
  walk (f ∷ fields) cif0 vrt pkt_size_w off_w found = elim (bit_at cif0 f.bit == 1) [
    | false ↦ walk fields cif0 vrt pkt_size_w off_w found
    | true ↦ elim (ltb pkt_size_w (off_w + f.words)) [
      | true ↦ none
      | false ↦ walk fields cif0 vrt pkt_size_w (off_w + f.words) (note_field f vrt off_w found)
    ]
  ]

  -- The context packet up to the end of the walk; none for its early returns.
  unfoldable pub read_context : List ℕ → Option Found
  read_context vrt =
      let w0 = word_at vrt 0 in
      let pkt_size_w = w0 % 2 ^ 16 in
      let off_w = 1 + optional_words w0 true in
      if ltb (length vrt) 8
      then none
      else if ltb (length vrt) (pkt_size_w * 4) || ltb pkt_size_w 2
      then none
      else if leb pkt_size_w off_w
      then none
      else walk cif_fields (word_at vrt (4 * off_w)) vrt pkt_size_w (off_w + 1)
          (record { rf_freq = none; sample_rate = none; format = none })

  -- The globals that the handler reads and writes, with its `ctx_logged`.
  pub record Settings : Type 0 where
    pub samp_rate : Double
    pub samp_rate_explicit : Bool
    pub center_freq : Double
    pub center_freq_explicit : Bool
    pub iq_format : IqFormat
    pub iq_format_explicit : Bool
    pub ctx_logged : Bool
    pub vita49_ctx_ready : Bool

  abbrev pub detected : {A : Type 0} → Bool → A → Option A → A
  detected true old value = old
  detected false old none = old
  detected false old (some value) = value

  abbrev pub same_format : IqFormat → IqFormat → Bool
  same_format IqFormat.ci8 IqFormat.ci8 = true
  same_format IqFormat.ci16 IqFormat.ci16 = true
  same_format IqFormat.cf32 IqFormat.cf32 = true
  same_format _ _ = false

  -- `errx`: an explicit format that is not the one detected.
  abbrev pub is_mismatch : Settings → Option IqFormat → Bool
  is_mismatch s none = false
  is_mismatch s (some format) = s.iq_format_explicit && not (same_format s.iq_format format)

  abbrev pub is_empty : Found → Bool
  is_empty found = elim found.rf_freq [
    | some x ↦ false
    | none ↦ elim found.sample_rate [
      | some x ↦ false
      | none ↦ elim found.format [ some x ↦ false | none ↦ true ]
    ]
  ]

  -- The settings with what was found, and the main thread told; none is the exit by `errx`.
  unfoldable pub apply_found : Settings → Found → Option Settings
  apply_found s found =
      if is_empty found || s.ctx_logged
      then some s
      else if is_mismatch s found.format
      then none
      else some (record s {
        samp_rate = detected s.samp_rate_explicit s.samp_rate found.sample_rate;
        center_freq = detected s.center_freq_explicit s.center_freq found.rf_freq;
        iq_format = detected s.iq_format_explicit s.iq_format found.format;
        ctx_logged = true;
        vita49_ctx_ready = true;
      })

  unfoldable pub vrt_handle_context : Settings → List ℕ → Option Settings
  vrt_handle_context s vrt = elim (read_context vrt) [
    | none ↦ some s
    | some found ↦ apply_found s found
  ]

  -- One datagram in the loop of `vita49_thread`: the settings, and where its samples are, none for
  -- a context packet or a packet that is skipped.
  unfoldable pub receive : Settings → List ℕ → Option (Settings × Option (ℕ × ℕ))
  receive s pkt =
      let (ctx_off, ctx_len) = vrl_strip pkt in
      let ctype = word_at pkt ctx_off / 2 ^ 28 % 16 in
      if ltb (ctx_off + 4) ctx_len && ((ctype == 4) || (ctype == 5))
      then Option.map (λ s'. (s', none))
          (vrt_handle_context s (take (ctx_len - ctx_off) (drop ctx_off pkt)))
      else some (s, vrt_parse_header pkt)
