-- ===== src/Detector/Feed/Clock.antt =====
-- burst_detect.c: the counts of samples and the ring buffer, which a frame only reads.
use iridium_sniffer.Base.{
  List, [], ◌∷◌, Bool, true, false, ◌&&◌, ◌||◌, ◌==◌, ◌+◌, length, ltb, leb, get_or, Bool-cases,
  inl, inr, ◌≡◌, refl, ◌∙◌,
}
use iridium_sniffer.Base.Int.{pos}
use iridium_sniffer.Base.Doubles.{Doubles}
use iridium_sniffer.Detector.{Settings, Detector, Peak, Sample}
use iridium_sniffer.Detector.Sweep.{flagged, sweep-once}
use iridium_sniffer.Detector.Noise.{update_filters_pre, update_filters_post}
use iridium_sniffer.Detector.Track.{
  update_bursts, remove_peaks_around_bursts, extract_peaks, delete_gone_bursts, update_burst_mask,
  gone_rule, create_new_bursts, create_from_peak, create_from_peaks, squelch,
}
use iridium_sniffer.Detector.Feed.{detect, process_fft_frame}

module _ (F : Doubles) (c : Settings F) where
  open F use {of_int, eq}

  pub record IsSameClock (d d' : Detector F) : Type 0 where
    pub index : d'.index ≡ d.index
    pub sample_count : d'.sample_count ≡ d.sample_count
    pub ringbuf : d'.ringbuf ≡ d.ringbuf

  abbrev same : (d : Detector F) → IsSameClock d d
  same d = record { index = refl; sample_count = refl; ringbuf = refl }

  abbrev then_same : {a b d : Detector F} → IsSameClock a b → IsSameClock b d → IsSameClock a d
  then_same s t = record {
    index = t.index ∙ s.index;
    sample_count = t.sample_count ∙ s.sample_count;
    ringbuf = t.ringbuf ∙ s.ringbuf;
  }

  post_clock : (d : Detector F) (force : Bool) → IsSameClock d (update_filters_post F c d force)
  unfolding update_filters_post
  post_clock d force = elim (Bool-cases ((length d.bursts == 0) || force)) [
    | inl e ↦ rw (e) (record { index = refl; sample_count = refl; ringbuf = refl })
    | inr e ↦ rw (e) (same d)
  ]

  delete_clock : (d : Detector F) → IsSameClock d (delete_gone_bursts F c d)
  unfolding delete_gone_bursts
  delete_clock d = elim (Bool-cases (flagged (gone_rule F c d.index) d.bursts)) [
    | inl e ↦
        rw (sweep-once (gone_rule F c d.index) d.bursts d.gone_bursts, e)
          (then_same (record { index = refl; sample_count = refl; ringbuf = refl })
            (post_clock _ true))
    | inr e ↦
        rw (sweep-once (gone_rule F c d.index) d.bursts d.gone_bursts, e)
          (record { index = refl; sample_count = refl; ringbuf = refl })
  ]

  from_peak_clock : (d : Detector F) (p : Peak F) → IsSameClock d (create_from_peak F c d p)
  unfolding create_from_peak
  from_peak_clock d p =
      elim (Bool-cases (eq (get_or d.burst_mask p.bin (of_int (pos 0))) (of_int (pos 0)))) [
        | inl e ↦ rw (e) (same d)
        | inr e ↦ rw (e) (record { index = refl; sample_count = refl; ringbuf = refl })
      ]

  from_peaks_clock :
      (peaks : List (Peak F)) (d : Detector F) → IsSameClock d (create_from_peaks F c d peaks)
  unfolding create_from_peaks
  from_peaks_clock [] d = same d
  from_peaks_clock (p ∷ peaks) d =
      then_same (from_peak_clock d p) (from_peaks_clock peaks (create_from_peak F c d p))

  squelch_clock : (d : Detector F) → IsSameClock d (squelch F c d)
  unfolding squelch update_burst_mask
  squelch_clock d = elim (Bool-cases (leb 10 (d.squelch_count + 3))) [
    | inl e ↦ rw (e) (record { index = refl; sample_count = refl; ringbuf = refl })
    | inr e ↦ rw (e) (record { index = refl; sample_count = refl; ringbuf = refl })
  ]

  create_clock : (d : Detector F) → IsSameClock d (create_new_bursts F c d)
  unfolding create_new_bursts
  create_clock d =
      let first = record d { new_bursts = [] } in
      let d' = create_from_peaks F c first d.peaks in
      let s =
        then_same {b = first} (record { index = refl; sample_count = refl; ringbuf = refl })
          (from_peaks_clock d.peaks first) in
      elim (Bool-cases (ltb 0 c.max_bursts && ltb c.max_bursts (length d'.bursts))) [
        | inl e ↦ rw (e) (then_same s (squelch_clock d'))
        | inr e ↦
            rw (e) (record { index = s.index; sample_count = s.sample_count; ringbuf = s.ringbuf })
      ]

  module _ (qsort : List (Peak F) → List (Peak F)) where
    before_clock :
        (d : Detector F)
        → IsSameClock d
            (extract_peaks F qsort c (remove_peaks_around_bursts F (update_bursts F c d)))
    unfolding extract_peaks remove_peaks_around_bursts update_bursts
    before_clock d = record { index = refl; sample_count = refl; ringbuf = refl }

    mask_clock : (d : Detector F) → IsSameClock d (update_burst_mask F c d)
    unfolding update_burst_mask
    mask_clock d = record { index = refl; sample_count = refl; ringbuf = refl }

    detect_clock : (d : Detector F) → IsSameClock d (detect F qsort c d)
    unfolding detect
    detect_clock d =
        then_same (before_clock d)
          (then_same (delete_clock _) (then_same (mask_clock _) (create_clock _)))

    pub process_fft_frame-IsSameClock :
        (fft : List (Sample F) → List (Sample F)) (d : Detector F) (samples : List (Sample F))
        → IsSameClock d (process_fft_frame F qsort fft c d samples)
    unfolding process_fft_frame update_filters_pre
    process_fft_frame-IsSameClock fft d samples = elim (Bool-cases d.history_primed) [
      | inl e ↦ rw (e) (
          then_same (record { index = refl; sample_count = refl; ringbuf = refl })
            (then_same (detect_clock _) (post_clock _ false)))
      | inr e ↦ rw (e) (
          then_same (record { index = refl; sample_count = refl; ringbuf = refl })
            (post_clock _ false))
    ]
