-- ===== src/Downmix/Steps.antt =====
-- burst_downmix.c: the settings of the downmixer, and the steps of `burst_downmix_process` that are
-- functions of their own.
use iridium_sniffer.Base.{
  ℕ, suc, ◌==◌, ◌+◌, ◌-◌, ◌*◌, ◌/◌, ◌%◌, ◌^◌, List, [], ◌∷◌, ◌++◌, take, length, min, get_or,
  replicate, ltb, leb, if◌then◌else◌, ◌&&◌, ◌||◌,
}
use iridium_sniffer.Base.Int.{ℤ, pos, negsuc, pos_part, sub_ℕ, ◌+ℤ◌, ltb_ℤ}
use iridium_sniffer.Base.Doubles.{Doubles}
use iridium_sniffer.Demod.{Direction}
use iridium_sniffer.Detector.{Sample}
use iridium_sniffer.Detector.Kernels.{power, zip_with}
use iridium_sniffer.Filter.{
  c_mul, c_zero, generic_fir_ccf, generic_fir_ccf_dec, generic_fir_fff, generic_mag_squared,
  generic_max_float, generic_csquare_window,
}

-- The index of an FFT as a frequency, and back.
unfoldable pub fft_unshift_index : ℕ → ℕ → ℤ
fft_unshift_index idx size = if leb (size / 2) idx then sub_ℕ idx size else pos idx

unfoldable pub fft_shift_index : ℤ → ℕ → ℤ
fft_shift_index idx size = if ltb_ℤ idx (pos 0) then idx +ℤ pos size else idx

module _ (F : Doubles) where
  open F use {Double, of_int, to_int, add, sub, mul, div, lt, eq, fabs, round, decimal}

  abbrev int : ℕ → Double
  int n = of_int (pos n)

  -- The FFTs, cabsf, and exp(i x).
  pub record Library : Type 0 where
    pub fft : List (Sample F) → List (Sample F)
    pub ifft : List (Sample F) → List (Sample F)
    pub cabs : Sample F → Double
    pub cis : Double → Sample F

  -- `struct _burst_downmix` without its buffers; a filter is its taps, a length is that of the list.
  pub record Downmix : Type 0 where
    pub output_sample_rate : ℕ
    pub search_depth : ℕ
    pub samples_per_symbol : Double
    pub input_fir : List Double
    pub noise_fir : List Double
    pub start_fir : List Double
    pub rrc_fir : List Double
    pub cfo_fft_size : ℕ
    pub cfo_fft_total : ℕ
    pub cfo_window : List Double
    pub corr_fft_size : ℕ
    pub sync_search_len : ℕ
    pub dl_sync_fft : List (Sample F)
    pub ul_sync_fft : List (Sample F)
    pub dl_sync_len : ℕ
    pub ul_sync_len : ℕ
    pub work_size : ℕ
    pub pre_start_samples : ℕ

  -- `(int)x` of a number that is not negative.
  abbrev pub truncate : Double → ℕ
  truncate x = pos_part (to_int x)

  -- The samples in the middle of as many zeros as the filter reads around them.
  abbrev pub padded : List Double → List (Sample F) → List (Sample F)
  padded taps xs =
      let before = (length taps - 1) / 2 in
      replicate before (c_zero F) ++ (xs ++ replicate (length taps - 1 - before) (c_zero F))

  -- A filter that keeps the length.
  unfoldable pub filter_same : List Double → List (Sample F) → List (Sample F)
  filter_same taps xs = generic_fir_ccf F taps (padded taps xs) (length xs)

  abbrev pub decimation_of : Downmix → ℕ → ℕ
  decimation_of dm in_sample_rate =
      let decimation = truncate (round (div (int in_sample_rate) (int dm.output_sample_rate))) in
      if ltb decimation 1 then 1 else decimation

  -- The samples and the time; no samples for the return of 0.
  unfoldable pub decimate_burst : Downmix → List (Sample F) → ℕ → ℕ → List (Sample F) × ℕ
  decimate_burst dm xs in_sample_rate timestamp =
      let ntaps = length dm.input_fir in
      let decimation = decimation_of dm in_sample_rate in
      let n_out = min ((length xs + 1 - ntaps) / decimation) dm.work_size in
      let delay_ns = (ntaps / 2) * 1_000_000_000 / in_sample_rate in
      if n_out == 0
      then ([], timestamp)
      else (generic_fir_ccf_dec F dm.input_fir xs n_out decimation, (timestamp + delay_ns) % 2 ^ 64)

  -- The first index whose entry is not below the threshold, or the length.
  abbrev pub first_above : Double → List Double → ℕ
  first_above threshold [] = 0
  first_above threshold (x ∷ xs) =
      if lt threshold x || eq threshold x then 0 else suc (first_above threshold xs)

  unfoldable pub find_burst_start : Downmix → List (Sample F) → ℕ
  find_burst_start dm frame =
      let ntaps = length dm.start_fir in
      let search = min dm.search_depth (length frame) in
      let mag_len = min (search + ntaps - 1) (length frame) in
      let filtered_len = min (mag_len + 1 - ntaps) search in
      let mag_f = generic_mag_squared F (take mag_len frame) in
      let filtered = generic_fir_fff F dm.start_fir mag_f filtered_len in
      let start = first_above (mul (decimal 45 2) (generic_max_float F filtered)) filtered in
      if (filtered_len == 0) || (start == 0)
      then 0
      else start + (ntaps - 1) / 2 - dm.pre_start_samples

  -- The greatest power behind `max` at `idx`, from index `i` on: its index and itself.
  abbrev pub peak_from : List (Sample F) → ℕ → ℕ → Double → ℕ × Double
  peak_from [] i idx max = (idx, max)
  peak_from (x ∷ xs) i idx max =
      let m = power F x in
      peak_from xs (suc i) (if lt max m then i else idx) (if lt max m then m else max)

  abbrev pub peak : List (Sample F) → ℕ × Double
  peak xs = peak_from xs 0 0 (int 0)

  -- Where a parabola through the powers left, at and right of a peak has its top.
  abbrev pub interpolate : Double → Double → Double → Double
  interpolate alpha beta gamma =
      let denom = add (sub alpha (mul (int 2) beta)) gamma in
      if lt (decimal 1 10) (fabs denom)
      then div (mul (decimal 5 1) (sub alpha gamma)) denom
      else int 0

  abbrev power_at : List (Sample F) → ℕ → Double
  power_at xs i = power F (get_or xs i (c_zero F))

  module _ (L : Library) where
    unfoldable pub estimate_fine_cfo : Downmix → List (Sample F) → Double
    estimate_fine_cfo dm frame =
        let total = dm.cfo_fft_total in
        let n = min dm.cfo_fft_size (length frame) in
        let squared = generic_csquare_window F (take n frame) dm.cfo_window in
        let fft_out = take total (L.fft (squared ++ replicate (total - n) (c_zero F))) in
        let (max_idx_shifted, max_mag) = peak fft_out in
        let max_idx = fft_unshift_index max_idx_shifted total in
        let idx_m1 = pos_part (fft_shift_index (max_idx +ℤ negsuc 0) total) in
        let idx_p1 = pos_part (fft_shift_index (max_idx +ℤ pos 1) total) in
        let correction =
          if ltb 0 max_idx_shifted && ltb (max_idx_shifted + 1) total
          then interpolate (power_at fft_out idx_m1) max_mag (power_at fft_out idx_p1)
          else int 0 in
        div (div (add (of_int max_idx) correction) (int total)) (int 2)

    -- What the correlation finds.
    pub record Sync : Type 0 where
      pub uw_start : ℤ
      pub direction : Direction
      pub correction : Double
      pub corr_result : Sample F

    -- The result for one direction, from its correlation and its peak.
    abbrev pub sync_at : Downmix → ℕ → Direction → ℕ → ℕ → List (Sample F) → ℕ → Sync
    sync_at dm search_len direction preamble_symbols sync_len ifft_out corr_offset = record {
      uw_start =
          sub_ℕ (corr_offset + 1 + truncate (mul (int preamble_symbols) dm.samples_per_symbol))
            sync_len;
      direction = direction;
      correction =
          if ltb 0 corr_offset && ltb (corr_offset + 1) search_len
          then interpolate (power_at ifft_out (corr_offset - 1)) (power_at ifft_out corr_offset)
              (power_at ifft_out (corr_offset + 1))
          else int 0;
      corr_result = get_or ifft_out corr_offset (c_zero F);
    }

    unfoldable pub correlate_sync : Downmix → List (Sample F) → Sync
    correlate_sync dm frame =
        let search_len = min dm.sync_search_len (length frame) in
        let fwd =
          L.fft (take search_len frame ++ replicate (dm.corr_fft_size - search_len) (c_zero F)) in
        let dl = L.ifft (zip_with F (c_mul F) fwd dm.dl_sync_fft) in
        let ul = L.ifft (zip_with F (c_mul F) fwd dm.ul_sync_fft) in
        let (offset_dl, max_dl) = peak (take search_len dl) in
        let (offset_ul, max_ul) = peak (take search_len ul) in
        if lt max_ul max_dl || eq max_ul max_dl
        then sync_at dm search_len Direction.downlink 16 dm.dl_sync_len dl offset_dl
        else sync_at dm search_len Direction.uplink 32 dm.ul_sync_len ul offset_ul
