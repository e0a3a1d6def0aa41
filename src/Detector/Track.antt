-- ===== src/Detector/Track.antt =====
-- burst_detect.c: the bursts on the air, from one FFT frame to the next: `update_bursts`, the mask of
-- the bins they cover, `delete_gone_bursts`, and new bursts out of the peaks.
use iridium_sniffer.Base.{
  ℕ, zero, suc, ◌+◌, ◌-◌, ◌/◌, ◌%◌, ◌^◌, List, [], ◌∷◌, ◌++◌, Bool, true, false, ◌&&◌, ◌||◌, not,
  length, get_or, replicate, map, ltb, leb, ◌==◌, if◌then◌else◌, sub64,
}
use iridium_sniffer.Base.Int.{pos}
use iridium_sniffer.Base.Doubles.{Doubles}
use iridium_sniffer.Detector.{Settings, Detector, Active, Peak}
use iridium_sniffer.Detector.Kernels.{zip_with}
use iridium_sniffer.Detector.Sweep.{Rule, sweep}
use iridium_sniffer.Detector.Noise.{update_filters_post}

-- memset of `n` entries from index `start` on.
abbrev pub fill {ℓ} : {A : Type ℓ} → List A → ℕ → ℕ → A → List A
fill [] start n v = []
fill (x ∷ xs) zero zero v = x ∷ xs
fill (x ∷ xs) zero (suc n) v = v ∷ fill xs zero n v
fill (x ∷ xs) (suc start) n v = x ∷ fill xs start n v

module _ (F : Doubles) where
  open F use {Double, of_int, mul, div, lt, eq, log10, decimal}

  abbrev pub above : Settings F → List Double → ℕ → Bool
  above c magnitude bin = lt c.threshold (get_or magnitude bin (of_int (pos 0)))

  -- The bin of the burst or a neighbour is above the threshold.
  unfoldable pub is_active : Settings F → Detector F → ℕ → Bool
  is_active c d cb =
      (ltb 0 cb && above c d.relative_magnitude (cb - 1))
      || above c d.relative_magnitude cb
      || (ltb (cb + 1) c.fft_size && above c d.relative_magnitude (cb + 1))

  unfoldable pub update_bursts : Settings F → Detector F → Detector F
  update_bursts c d = record d {
    bursts =
        map (λ b. if is_active c d b.center_bin then record b { last_active = d.index } else b)
          d.bursts;
  }

  -- The bins of a burst, cut at both ends of the frame.
  unfoldable pub mask_burst : Settings F → List Double → ℕ → List Double
  mask_burst c mask center_bin =
      let half = c.burst_width / 2 in
      let clear_start = center_bin - half in
      let clear_stop =
        if leb c.fft_size (center_bin + half) then c.fft_size - 1 else center_bin + half in
      fill mask clear_start (clear_stop + 1 - clear_start) (of_int (pos 0))

  unfoldable pub mask_all : Settings F → List Double → List (Active F) → List Double
  mask_all c mask [] = mask
  mask_all c mask (b ∷ bursts) = mask_all c (mask_burst c mask b.center_bin) bursts

  unfoldable pub update_burst_mask : Settings F → Detector F → Detector F
  update_burst_mask c d = record d {
    burst_mask = mask_all c (replicate c.fft_size (of_int (pos 1))) d.bursts;
  }

  -- More than `max_burst_len` samples long.
  abbrev pub is_long : Settings F → Active F → Bool
  is_long c b = ltb 0 c.max_burst_len && ltb c.max_burst_len (sub64 b.last_active b.start)

  unfoldable pub gone_rule : Settings F → ℕ → Rule (Active F)
  gone_rule c index = record {
    leaves = λ b. leb ((b.last_active + c.burst_post_len) % 2 ^ 64) index || is_long c b;
    flags = λ b. is_long c b;
    mark = λ b. record b { stop = index };
  }

  unfoldable pub delete_gone_bursts : Settings F → Detector F → Detector F
  delete_gone_bursts c d =
      let (bursts, gone, update_noise) =
        sweep (gone_rule c d.index) (length d.bursts) 0 d.bursts d.gone_bursts false in
      let d' = record d { bursts = bursts; gone_bursts = gone } in
      if update_noise then update_filters_post F c d' true else d'

  unfoldable pub remove_peaks_around_bursts : Detector F → Detector F
  remove_peaks_around_bursts d = record d {
    relative_magnitude = zip_with F mul d.relative_magnitude d.burst_mask;
  }

  -- The peaks from bin `bin` on, in `n` rounds.
  unfoldable pub scan_peaks : Settings F → List Double → ℕ → ℕ → List (Peak F)
  scan_peaks c magnitude zero bin = []
  scan_peaks c magnitude (suc n) bin =
      let dc_bin = c.fft_size / 2 in
      let rest = scan_peaks c magnitude n (bin + 1) in
      if leb dc_bin (bin + 3) && leb bin (dc_bin + 3)
      then rest
      else if above c magnitude bin
      then record { bin = bin; relative_magnitude = get_or magnitude bin (of_int (pos 0)) } ∷ rest
      else rest

  module _ (qsort : List (Peak F) → List (Peak F)) where
    unfoldable pub extract_peaks : Settings F → Detector F → Detector F
    extract_peaks c d =
        let half_bw = c.burst_width / 2 in
        let peaks = scan_peaks c d.relative_magnitude (c.fft_size - half_bw - half_bw) half_bw in
        record d { peaks = qsort peaks }

  unfoldable pub burst_of : Settings F → Detector F → Peak F → Active F
  burst_of c d p =
      let start = sub64 d.index c.burst_pre_len in
      let ten = of_int (pos 10) in
      let size = of_int (pos c.fft_size) in
      let history = of_int (pos c.history_size) in
      let level =
        div (div (get_or d.baseline_sum p.bin (of_int (pos 0))) history) (mul size size) in
      record {
        id = d.burst_id;
        start = start;
        stop = 0;
        last_active = start;
        center_bin = p.bin;
        magnitude = mul ten (log10 (mul (mul p.relative_magnitude history) (decimal 172 2)));
        noise =
            mul ten
              (log10 (div (div level (decimal 172 2)) (div (of_int (pos c.sample_rate)) size)));
      }

  -- A peak in a bin that no burst covers starts one.
  unfoldable pub create_from_peak : Settings F → Detector F → Peak F → Detector F
  create_from_peak c d p =
      let b = burst_of c d p in
      if eq (get_or d.burst_mask p.bin (of_int (pos 0))) (of_int (pos 0)) then d else record d {
        burst_id = (d.burst_id + 10) % 2 ^ 64;
        peak_signal_db = if lt d.peak_signal_db b.magnitude then b.magnitude else d.peak_signal_db;
        bursts = d.bursts ++ (b ∷ []);
        new_bursts = d.new_bursts ++ (b ∷ []);
        burst_mask = mask_burst c d.burst_mask b.center_bin;
      }

  unfoldable pub create_from_peaks : Settings F → Detector F → List (Peak F) → Detector F
  create_from_peaks c d [] = d
  create_from_peaks c d (p ∷ peaks) = create_from_peaks c (create_from_peak c d p) peaks

  unfoldable pub squelch_rule : Settings F → ℕ → Rule (Active F)
  squelch_rule c index = record {
    leaves = λ b. not (b.start == sub64 index c.burst_pre_len);
    flags = λ b. false;
    mark = λ b. record b { stop = index };
  }

  -- Too many bursts: the ones that were there before are gone, the new ones forgotten.
  unfoldable pub squelch : Settings F → Detector F → Detector F
  squelch c d =
      let (bursts, gone, flag) =
        sweep (squelch_rule c d.index) (length d.bursts) 0 d.bursts d.gone_bursts false in
      let d' =
        update_burst_mask c (record d { new_bursts = []; bursts = []; gone_bursts = gone }) in
      let zeros = replicate c.fft_size (of_int (pos 0)) in
      if leb 10 (d.squelch_count + 3)
      then record d' {
        history_index = 0;
        history_primed = false;
        baseline_history = replicate c.history_size zeros;
        baseline_sum = zeros;
        squelch_count = 0;
      }
      else record d' { squelch_count = d.squelch_count + 3 }

  unfoldable pub create_new_bursts : Settings F → Detector F → Detector F
  create_new_bursts c d =
      let d' = create_from_peaks c (record d { new_bursts = [] }) d.peaks in
      if ltb 0 c.max_bursts && ltb c.max_bursts (length d'.bursts)
      then squelch c d'
      else record d' { squelch_count = d'.squelch_count - 1 }
