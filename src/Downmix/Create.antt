-- ===== src/Downmix/Create.antt =====
-- burst_downmix.c, `burst_downmix_create`: the settings of the downmixer, its filters, and the FFTs of
-- the unique words.
pub mod Sizes
pub mod Ready
use mathlib.Core.List.{reverse}
use iridium_sniffer.Base.{
  ℕ, zero, suc, ◌+◌, ◌-◌, ◌*◌, ◌%◌, ◌==◌, List, [], ◌∷◌, ◌++◌, Bool, true, false, map, take, length,
  replicate, ltb, leb, if◌then◌else◌,
}
use iridium_sniffer.Base.Int.{ℤ, pos, negsuc}
use iridium_sniffer.Base.Doubles.{Doubles}
use iridium_sniffer.Detector.{Sample}
use iridium_sniffer.Detector.Create.{blackman_window}
use iridium_sniffer.Symbols.{ir_uw_dl, ir_uw_ul, ir_uw_length}
use iridium_sniffer.Filter.{c_zero, conj}
use iridium_sniffer.Filter.Taps.{rrc_taps, rc_taps, lpf_taps, box_taps}
use iridium_sniffer.Downmix.Steps.{Downmix, Library, truncate, filter_same}

-- `while (p < n) p <<= 1;` in at most `fuel` rounds.
unfoldable pub next_pow2_from : ℕ → ℕ → ℕ → ℕ
next_pow2_from zero p n = p
next_pow2_from (suc fuel) p n =
    let later = next_pow2_from fuel (2 * p) n in if ltb p n then later else p

unfoldable pub next_pow2 : ℕ → ℕ
next_pow2 n = next_pow2_from n 1 n

-- `while (size * 2 <= raw) size *= 2;` in at most `fuel` rounds.
unfoldable pub floor_pow2_from : ℕ → ℕ → ℕ → ℕ
floor_pow2_from zero size raw = size
floor_pow2_from (suc fuel) size raw =
    let later = floor_pow2_from fuel (size * 2) raw in if leb (size * 2) raw then later else size

unfoldable pub floor_pow2 : ℕ → ℕ
floor_pow2 raw = floor_pow2_from raw 1 raw

module _ (F : Doubles) where
  open F use {Double, of_int, mul, div, round, decimal}

  abbrev int : ℕ → Double
  int n = of_int (pos n)

  -- `downmix_config_t`; an `int` that is not positive, or no configuration, is 0 here.
  pub record DownmixConfig : Type 0 where
    pub output_sample_rate : ℕ
    pub search_depth : ℕ

  abbrev pub s0 : Sample F
  s0 = record { re = int 1; im = int 1 }

  abbrev pub s1 : Sample F
  s1 = record { re = of_int (negsuc 0); im = of_int (negsuc 0) }

  -- The preamble: s0 for the downlink, s1 and s0 in turn, from index `i` on, for the uplink.
  abbrev pub preamble : Bool → ℕ → ℕ → List (Sample F)
  preamble is_uplink i zero = []
  preamble is_uplink i (suc n) =
      (if is_uplink then (if i % 2 == 0 then s1 else s0) else s0) ∷ preamble is_uplink (suc i) n

  -- `isps - 1` zeros behind each symbol.
  abbrev pub upsample : ℕ → List (Sample F) → List (Sample F)
  upsample isps [] = []
  upsample isps (s ∷ symbols) = s ∷ (replicate (isps - 1) (c_zero F) ++ upsample isps symbols)

  -- The FFT of a unique word behind its preamble, and its length in samples.
  unfoldable pub generate_sync_word :
      Library F → Double → List Double → ℕ → List ℕ → ℕ → Bool → List (Sample F) × ℕ
  generate_sync_word L sps rc_fir corr_fft_size uw preamble_len is_uplink =
      let symbols = preamble is_uplink 0 preamble_len ++ map (λ u. if u == 0 then s0 else s1) uw in
      let isps = truncate F (round sps) in
      let padded_len = length symbols * isps - (isps - 1) in
      let shaped = filter_same F rc_fir (take padded_len (upsample isps symbols)) in
      let template = map (conj F) (reverse shaped) in
      (
        L.fft (take corr_fft_size template ++ replicate (corr_fft_size - padded_len) (c_zero F)),
        padded_len,
      )

  unfoldable pub burst_downmix_create : Library F → DownmixConfig → Downmix F
  burst_downmix_create L config =
      let output_rate =
        if ltb 0 config.output_sample_rate then config.output_sample_rate else 10 * 25_000 in
      let rate = int output_rate in
      let sps = div rate (int 25_000) in
      let samples : ℕ → ℕ = λ symbols. truncate F (mul (int symbols) sps) in
      let box_len = truncate F (mul sps (int 2)) in
      let cfo_fft_size = floor_pow2 (truncate F (mul sps (int 26))) in
      let sync_search_len = samples (64 + ir_uw_length + 8) in
      let corr_fft_size = next_pow2 (sync_search_len + samples (16 + ir_uw_length)) in
      let rc_fir = rc_taps F rate (int 25_000) (decimal 4 1) 51 in
      let dl = generate_sync_word L sps rc_fir corr_fft_size ir_uw_dl 16 false in
      let ul = generate_sync_word L sps rc_fir corr_fft_size ir_uw_ul 16 true in
      record {
        output_sample_rate = output_rate;
        search_depth = if ltb 0 config.search_depth then config.search_depth else output_rate;
        samples_per_symbol = sps;
        input_fir =
            lpf_taps F (int 1) (int 10_000_000) (mul rate (decimal 4 1)) (mul rate (decimal 2 1));
        noise_fir = lpf_taps F (int 1) rate (div (int 40_000) (int 2)) (int 40_000);
        start_fir = box_taps F (if ltb box_len 3 then 3 else box_len);
        rrc_fir = rrc_taps F (int 1) rate (int 25_000) (decimal 4 1) 51;
        cfo_fft_size = cfo_fft_size;
        cfo_fft_total = cfo_fft_size * 16;
        cfo_window = blackman_window F cfo_fft_size;
        corr_fft_size = corr_fft_size;
        sync_search_len = sync_search_len;
        dl_sync_fft = dl.0;
        ul_sync_fft = ul.0;
        dl_sync_len = dl.1;
        ul_sync_len = ul.1;
        work_size = 2 * 1024 * 1024;
        pre_start_samples = truncate F (mul (mul (int 100) (decimal 1 6)) rate);
      }
