-- ===== src/Downmix.antt =====
-- burst_downmix.c: a burst of samples is brought to the base band, cut at its unique word, and handed
-- to the demodulator as one frame. The steps stand in Steps; a work buffer is the list of what was
-- written to it, with the zeros around it that the filters read.
pub mod Steps
pub mod Bounds
pub mod Cut
pub mod Create
use iridium_sniffer.Base.{
  ℕ, zero, suc, ◌==◌, ◌||◌, ◌+◌, ◌-◌, ◌*◌, ◌/◌, ◌%◌, ◌^◌, List, [], ◌∷◌, ◌++◌, Option, none, some,
  Bool, take, drop, length, min, replicate, ltb, leb, if◌then◌else◌,
}
use iridium_sniffer.Base.Int.{ℤ, pos, pos_part, neg_part, sub_ℕ, ltb_ℤ}
use iridium_sniffer.Base.Doubles.{Doubles}
use iridium_sniffer.Demod.{Direction}
use iridium_sniffer.Detector.{Sample, BurstData}
use iridium_sniffer.Filter.{generic_fir_ccf, c_div, conj, c_one, Rotator, rotator_rotate_n}
use iridium_sniffer.Downmix.Steps.{
  Downmix, Library, truncate, filter_same, decimate_burst, find_burst_start, estimate_fine_cfo,
  correlate_sync,
}

module _ (F : Doubles) where
  open F use {Double, of_int, add, sub, mul, div, lt, pi}

  abbrev int : ℕ → Double
  int n = of_int (pos n)

  -- `downmix_frame_t`; `num_samples` is the length of the samples.
  pub record DownmixFrame : Type 0 where
    pub id : ℕ
    pub timestamp : ℕ
    pub center_frequency : Double
    pub sample_rate : Double
    pub samples_per_symbol : Double
    pub direction : Direction
    pub magnitude : Double
    pub noise : Double
    pub uw_start : Double
    pub samples : List (Sample F)

  -- The nanoseconds of `n` samples.
  abbrev pub nanoseconds : ℕ → ℕ → ℕ
  nanoseconds n rate = truncate F (mul (div (int n) (int rate)) (int 1_000_000_000))

  module _ (L : Library F) where
    -- A rotation by `freq` turns a sample, backwards.
    unfoldable pub correct_cfo : Double → List (Sample F) → List (Sample F)
    correct_cfo freq xs =
        let phase_inc = mul (mul (of_int (ℤ.negsuc 1)) pi) freq in
        let r : Rotator F = record { phase = c_one F; phase_incr = L.cis phase_inc } in
        (rotator_rotate_n F L.cabs r xs).0

    -- The noise-limiting filter, if there are enough samples.
    unfoldable pub limit_noise : Downmix F → List (Sample F) → List (Sample F)
    limit_noise dm xs =
        if leb (length dm.noise_fir) (length xs) then filter_same F dm.noise_fir xs else xs

    unfoldable pub align_phase : Sample F → List (Sample F) → List (Sample F)
    align_phase corr_result xs =
        let mag = L.cabs corr_result in
        let phase = if lt (int 0) mag then conj F (c_div F corr_result mag) else c_one F in
        (rotator_rotate_n F L.cabs (record { phase = phase; phase_incr = c_one F }) xs).0

    -- The least and the greatest length of a frame at a frequency.
    unfoldable pub frame_lengths : Downmix F → Double → ℕ × ℕ
    frame_lengths dm center_frequency =
        let symbols : ℕ → ℕ = λ k. truncate F (mul (int k) dm.samples_per_symbol) in
        if lt (int 1_626_000_000) center_frequency
        then (symbols 80, symbols 444)
        else (symbols 131, symbols 191)

    -- Steps 7 to 9, on the filtered frame that starts `start` samples into the burst.
    unfoldable pub extract_frame :
        Downmix F → BurstData F → ℕ → Double → ℕ → List (Sample F) → Option DownmixFrame
    extract_frame dm burst timestamp center_frequency start frame =
        let s = correlate_sync F L dm frame in
        let uw_start = pos_part s.uw_start in
        let (min_frame_len, max_frame_len) = frame_lengths dm center_frequency in
        let available = length frame - uw_start in
        let extract_len = if ltb available max_frame_len then available else max_frame_len in
        if ltb_ℤ s.uw_start (pos 0) || leb (length frame) uw_start || ltb available min_frame_len
        then none
        else some (record {
          id = (burst.info).id;
          timestamp = (timestamp + nanoseconds start dm.output_sample_rate) % 2 ^ 64;
          center_frequency = center_frequency;
          sample_rate = int dm.output_sample_rate;
          samples_per_symbol = dm.samples_per_symbol;
          direction = s.direction;
          magnitude = (burst.info).magnitude;
          noise = (burst.info).noise;
          uw_start = s.correction;
          samples = take extract_len (drop uw_start (align_phase s.corr_result frame));
        })

    -- Steps 3 to 9, on the decimated burst.
    unfoldable pub downmix_rest :
        Downmix F → BurstData F → ℕ → Double → List (Sample F) → Option DownmixFrame
    downmix_rest dm burst timestamp center_frequency decimated =
        let xs = limit_noise dm decimated in
        let start = find_burst_start F dm xs in
        let frame = drop start xs in
        let center_offset = estimate_fine_cfo F L dm frame in
        let corrected = correct_cfo center_offset frame in
        if leb (length xs) (start + 100)
        then none
        else extract_frame dm burst timestamp
            (add center_frequency (mul center_offset (int dm.output_sample_rate))) start
            (filter_same F dm.rrc_fir corrected)

    -- None for the return of 0.
    unfoldable pub burst_downmix_process : Downmix F → BurstData F → Option DownmixFrame
    burst_downmix_process dm burst =
        let xs = take dm.work_size burst.samples in
        let rate = burst.sample_rate in
        let timestamp = (burst.start_time_ns + nanoseconds (burst.info).start rate) % 2 ^ 64 in
        let relative_freq =
          div (of_int (sub_ℕ (burst.info).center_bin (burst.fft_size / 2))) (int burst.fft_size) in
        let center_frequency = add burst.center_frequency (mul relative_freq (int rate)) in
        let (decimated, timestamp') =
          decimate_burst F dm (correct_cfo relative_freq xs) rate timestamp in
        if ltb (length burst.samples) 100 || ltb (length decimated) 100
        then none
        else downmix_rest dm burst timestamp' center_frequency decimated
