-- ===== src/Downmix/Cut.antt =====
-- burst_downmix.c, `burst_downmix_process`: a frame is a piece of its burst, of a length that frames at
-- its frequency have.
use native.Mathlib.Nat.{min-le_left, min-le_right}
use iridium_sniffer.Base.{
  ℕ, ◌+◌, ◌-◌, ◌*◌, ◌/◌, ◌%◌, ◌^◌, ◌≤◌, ◌≡◌, ◌≢◌, refl, sym, List, some, length, length-drop,
  length-take, take, drop, min, ltb, leb, if◌then◌else◌, arith, Bool, true, false, Bool-cases,
  whichever, inl, inr, some_eq, ◌||◌,
}
use iridium_sniffer.Base.Int.{pos, sub_ℕ, pos_part, ltb_ℤ}
use iridium_sniffer.Base.Doubles.{Doubles}
use iridium_sniffer.Demod.{Direction}
use iridium_sniffer.Detector.{Sample, BurstData}
use iridium_sniffer.Filter.{rotator_rotate_n}
use iridium_sniffer.Downmix.{
  nanoseconds, DownmixFrame, correct_cfo, limit_noise, align_phase, frame_lengths, extract_frame,
  downmix_rest, burst_downmix_process,
}
use iridium_sniffer.Downmix.Steps.{
  Downmix, Library, filter_same, decimate_burst, find_burst_start, estimate_fine_cfo,
  correlate_sync, Sync, decimation_of,
}
use iridium_sniffer.Downmix.Bounds.{length-rotate_from, length-filter_same, decimate_burst-IsInside}

downlink_lem : Direction.downlink ≢ Direction.undef
downlink_lem e = cc e

uplink_lem : Direction.uplink ≢ Direction.undef
uplink_lem e = cc e

or_last : (a b c : Bool) → (a || b || c) ≡ false → c ≡ false
or_last true b c h = absurd (cc h)
or_last false true c h = absurd (cc h)
or_last false false c h = h

-- The length that is cut out of `available` samples.
record IsLength (available lo hi n : ℕ) : Type 0 where
  most : n ≤ hi
  least : min lo hi ≤ n
  left : n ≤ available

extract_len-IsLength :
    (available lo hi : ℕ)
    → ltb available lo ≡ false
    → IsLength available lo hi (if ltb available hi then available else hi)
extract_len-IsLength available lo hi h = elim (Bool-cases (ltb available hi)) [
  | inl e ↦ rw (e) (record {
    most = ground arith;
    least = ground (arith, min-le_left lo hi);
    left = omega arith;
  })
  | inr e ↦ rw (e) (record { most = omega arith; least = min-le_right lo hi; left = ground arith })
]

module _ (F : Doubles) (L : Library F) where
  open F use {of_int, div}

  length-correct_cfo :
      (freq : F.Double) (xs : List (Sample F)) → length (correct_cfo F L freq xs) ≡ length xs
  unfolding correct_cfo rotator_rotate_n
  length-correct_cfo freq xs = length-rotate_from F _ _ xs

  length-align_phase :
      (c : Sample F) (xs : List (Sample F)) → length (align_phase F L c xs) ≡ length xs
  unfolding align_phase rotator_rotate_n
  length-align_phase c xs = length-rotate_from F _ _ xs

  length-limit_noise :
      (dm : Downmix F) (xs : List (Sample F)) → length (limit_noise F L dm xs) ≡ length xs
  unfolding limit_noise
  length-limit_noise dm xs = elim (Bool-cases (leb (length dm.noise_fir) (length xs))) [
    | inl e ↦ rw (limit_noise, e) (length-filter_same F dm.noise_fir xs)
    | inr e ↦ rw (limit_noise, e) refl
  ]

  -- A frame of a burst with `available` samples behind the decimation.
  pub record IsCut (dm : Downmix F) (burst : BurstData F) (available : ℕ) (f : DownmixFrame F)
      : Type 0 where
    pub id : f.id ≡ burst.info.id
    pub direction : f.direction ≢ Direction.undef
    pub at_most : length f.samples ≤ (frame_lengths F L dm f.center_frequency).1
    pub at_least :
        min (frame_lengths F L dm f.center_frequency).0 (frame_lengths F L dm f.center_frequency).1
        ≤ length f.samples
    pub inside : length f.samples ≤ available
    pub enough : 100 ≤ length burst.samples

  correlate_sync-direction :
      (dm : Downmix F) (frame : List (Sample F))
      → (correlate_sync F L dm frame).direction ≢ Direction.undef
  unfolding correlate_sync
  correlate_sync-direction dm frame =
      whichever (λ (s : Sync F L). s.direction ≢ Direction.undef) _ downlink_lem uplink_lem

  module _ (dm : Downmix F) (burst : BurstData F) (timestamp start : ℕ)
      (center_frequency : F.Double) (frame : List (Sample F))
      (more : 100 ≤ length burst.samples) where
    abbrev lengths : ℕ × ℕ
    lengths = frame_lengths F L dm center_frequency

    abbrev uw : ℕ
    uw = pos_part (correlate_sync F L dm frame).uw_start

    abbrev cut : ℕ → List (Sample F)
    cut n = take n (drop uw (align_phase F L (correlate_sync F L dm frame).corr_result frame))

    length-cut : (n : ℕ) → n ≤ length frame - uw → length (cut n) ≡ n
    length-cut n h =
        let aligned = align_phase F L (correlate_sync F L dm frame).corr_result frame in
        omega (
          arith,
          h,
          length-take n (drop uw aligned),
          length-drop uw aligned,
          length-align_phase (correlate_sync F L dm frame).corr_result frame,
        )

    extract_frame-IsCut :
        (f : DownmixFrame F)
        → extract_frame F L dm burst timestamp center_frequency start frame ≡ some f
        → IsCut dm burst (length frame) f
    unfolding extract_frame
    extract_frame-IsCut f h =
        let available = length frame - uw in
        let n = if ltb available lengths.1 then available else lengths.1 in
        elim (Bool-cases (
          ltb_ℤ (correlate_sync F L dm frame).uw_start (pos 0)
          || leb (length frame) uw
          || ltb available lengths.0)) [
            | inl e ↦ absurd (cc (rw (e) at h))
            | inr e ↦
                let is : IsLength available lengths.0 lengths.1 n =
                  extract_len-IsLength available lengths.0 lengths.1 (
                    or_last (ltb_ℤ (correlate_sync F L dm frame).uw_start (pos 0))
                      (leb (length frame) uw) _ e) in
                let len : length (cut n) ≡ n = length-cut n is.left in
                rw (sym (some_eq (rw (e) at h))) (record {
                  id = refl;
                  direction = correlate_sync-direction dm frame;
                  at_most = rw (len) is.most;
                  at_least = rw (len) is.least;
                  inside = rw (len) (omega (arith, is.left));
                  enough = more;
                })
          ]

  longer :
      (dm : Downmix F) (burst : BurstData F) (m n : ℕ) (f : DownmixFrame F)
      → IsCut dm burst m f
      → m ≤ n
      → IsCut dm burst n f
  longer dm burst m n f c h = record {
    id = c.id;
    direction = c.direction;
    at_most = c.at_most;
    at_least = c.at_least;
    inside = omega (arith, c.inside, h);
    enough = c.enough;
  }

  downmix_rest-IsCut :
      (dm : Downmix F) (burst : BurstData F) (timestamp : ℕ) (center_frequency : F.Double)
      (decimated : List (Sample F)) (f : DownmixFrame F)
      → 100 ≤ length burst.samples
      → downmix_rest F L dm burst timestamp center_frequency decimated ≡ some f
      → IsCut dm burst (length decimated) f
  unfolding downmix_rest
  downmix_rest-IsCut dm burst timestamp center_frequency decimated f more h =
      let xs = limit_noise F L dm decimated in
      let start = find_burst_start F dm xs in
      elim (Bool-cases (leb (length xs) (start + 100))) [
        | inl e ↦ absurd (cc (rw (e) at h))
        | inr e ↦
            let offset = estimate_fine_cfo F L dm (drop start xs) in
            let corrected = correct_cfo F L offset (drop start xs) in
            let c : IsCut dm burst (length (filter_same F dm.rrc_fir corrected)) f =
              extract_frame-IsCut dm burst _ _ _ _ more f (rw (e) at h) in
            longer dm burst _ (length decimated) f c (
              omega (
                arith,
                length-filter_same F dm.rrc_fir corrected,
                length-correct_cfo offset (drop start xs),
                length-drop start xs,
                length-limit_noise dm decimated,
              ))
      ]

  -- A frame comes from a burst of at least 100 samples, has its id and the direction of one of the two
  -- unique words, is at most as long as frames at its frequency are, and at least as long as the
  -- lesser of the bounds for them. It is no longer than n samples, which fit into the work buffer and
  -- are, at the rate of the decimation and with the taps of its filter, inside of those of the burst.
  pub burst_downmix_process-IsCut :
      (dm : Downmix F) (burst : BurstData F) (f : DownmixFrame F)
      → burst_downmix_process F L dm burst ≡ some f
      → (n : ℕ) × IsCut dm burst n f
        × (n ≤ dm.work_size)
        × ((n - 1) * decimation_of F dm burst.sample_rate + length dm.input_fir
            ≤ length burst.samples)
  unfolding burst_downmix_process
  burst_downmix_process-IsCut dm burst f h =
      let rate = burst.sample_rate in
      let xs = take dm.work_size burst.samples in
      let relative_freq =
        div (of_int (sub_ℕ burst.info.center_bin (burst.fft_size / 2)))
          (of_int (pos burst.fft_size)) in
      let turned = correct_cfo F L relative_freq xs in
      let timestamp = (burst.start_time_ns + nanoseconds F burst.info.start rate) % 2 ^ 64 in
      let decimated = (decimate_burst F dm turned rate timestamp).0 in
      let len : length turned ≡ length xs = length-correct_cfo relative_freq xs in
      let cut_off = length-take dm.work_size burst.samples in
      elim (Bool-cases (ltb (length burst.samples) 100)) [
        | inl e ↦ absurd (cc (rw (e) at h))
        | inr e ↦ elim (Bool-cases (ltb (length decimated) 100)) [
          | inl d ↦ absurd (cc (rw (e, d) at h))
          | inr d ↦
              let is =
                decimate_burst-IsInside F dm turned rate timestamp (omega (arith, len, cut_off))
                  (ground arith) in
              (
                length decimated,
                downmix_rest-IsCut dm burst _ _ decimated f (ground arith) (rw (e, d) at h),
                is.fits,
                omega (arith, is.reads, len, cut_off),
              )
        ]
      ]
