-- ===== src/Detector/Noise.antt =====
-- burst_detect.c: `update_filters_pre` and `update_filters_post`, the noise floor of each FFT bin.
use iridium_sniffer.Base.{
  ◌+◌, ◌*◌, List, [], ◌∷◌, Bool, true, false, ◌&&◌, ◌||◌, length, get_or, set, ◌==◌, if◌then◌else◌,
}
use iridium_sniffer.Base.Int.{pos, negsuc}
use iridium_sniffer.Base.Doubles.{Doubles}
use iridium_sniffer.Detector.{Settings, Detector}
use iridium_sniffer.Detector.Kernels.{generic_relative_mag, generic_baseline_update}

module _ (F : Doubles) where
  open F use {Double, of_int, add, mul, div, lt, log10}

  -- The new state, and whether it returned 1.
  unfoldable pub update_filters_pre : Detector F → Detector F × Bool
  update_filters_pre d =
      if d.history_primed
      then (
        record d { relative_magnitude = generic_relative_mag F d.magnitude_shifted d.baseline_sum },
        true,
      )
      else (d, false)

  unfoldable pub update_filters_post : Settings F → Detector F → Bool → Detector F
  update_filters_post c d force =
      if (length d.bursts == 0) || force
      then (let hist = get_or d.baseline_history d.history_index [] in
          let wraps = d.history_index + 1 == c.history_size in
          record d {
            baseline_sum = generic_baseline_update F d.baseline_sum hist d.magnitude_shifted;
            baseline_history = set d.baseline_history d.history_index d.magnitude_shifted;
            history_index = if wraps then 0 else d.history_index + 1;
            history_primed = wraps || d.history_primed;
          })
      else d

  abbrev pub total : List Double → Double → Double
  total [] sum = sum
  total (x ∷ xs) sum = total xs (add sum x)

  unfoldable pub burst_detector_noise_floor : Settings F → Detector F → Double
  burst_detector_noise_floor c d =
      let zero = of_int (pos 0) in
      let avg = div (total d.baseline_sum zero) (of_int (pos (c.fft_size * c.history_size))) in
      let bin_width = div (of_int (pos c.sample_rate)) (of_int (pos c.fft_size)) in
      if c.history_size == 0
      then zero
      else if lt zero avg && lt zero bin_width
      then mul (of_int (pos 10)) (log10 (div avg bin_width))
      else of_int (negsuc 119)
