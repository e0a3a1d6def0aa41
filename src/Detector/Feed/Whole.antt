-- ===== src/Detector/Feed/Whole.antt =====
-- burst_detect.c, `burst_detector_feed`: the frames that are left when the loop ends.
use iridium_sniffer.Base.{
  ℕ, zero, suc, ◌+◌, ◌%◌, ◌^◌, ◌≤◌, ◌<◌, List, ◌++◌, length, leb, leb→le, Bool-cases, inl, inr, ◌≡◌,
  refl, ap, ◌∙◌, arith,
}
use native.Mathlib.Nat.{mod-eq_of_lt}
use iridium_sniffer.Base.Doubles.{Doubles}
use iridium_sniffer.Detector.{Settings, Detector, Peak, Sample}
use iridium_sniffer.Detector.Feed.{
  cpu_frames, frame_at, advance, process_fft_frame, emit_gone_bursts, take_in, feed_samples,
}
use iridium_sniffer.Detector.Ring.{ringbuf_write}
use iridium_sniffer.Detector.Ring.History.{IsHistory, ringbuf_write-IsHistory}
use iridium_sniffer.Detector.Feed.Clock.{process_fft_frame-IsSameClock}

module _ (F : Doubles) (qsort : List (Peak F) → List (Peak F))
    (fft : List (Sample F) → List (Sample F)) (c : Settings F) where
  abbrev frame : Detector F → Detector F
  frame d = process_fft_frame F qsort fft c d (frame_at F qsort c d d.index)

  -- No whole frame is left, and no sample is lost or made up.
  pub record IsDrained (d d' : Detector F) : Type 0 where
    pub index : d'.sample_count < d'.index + c.fft_size
    pub sample_count : d'.sample_count ≡ d.sample_count
    pub ringbuf : d'.ringbuf ≡ d.ringbuf

  cpu_frames-IsDrained :
      (fuel : ℕ) (d : Detector F)
      → 0 < c.fft_size
      → d.sample_count + c.fft_size < 2 ^ 64
      → d.index ≤ d.sample_count
      → d.sample_count < d.index + fuel + c.fft_size
      → IsDrained d (cpu_frames F qsort fft fuel c d)
  unfolding cpu_frames
  cpu_frames-IsDrained zero d p w i f = record {
    index = omega arith;
    sample_count = refl;
    ringbuf = refl;
  }
  cpu_frames-IsDrained (suc fuel) d p w i f =
      let small : (d.index + c.fft_size) % 2 ^ 64 ≡ d.index + c.fft_size =
        mod-eq_of_lt (omega arith) in
      elim (Bool-cases (leb (d.index + c.fft_size) d.sample_count)) [
        | inl e ↦
            let s = process_fft_frame-IsSameClock F c qsort fft d (frame_at F qsort c d d.index) in
            let next = advance F qsort fft c (frame d) in
            let at : next.index ≡ d.index + c.fft_size =
              ap (λ k. (k + c.fft_size) % 2 ^ 64) s.index ∙ small in
            let rest =
              cpu_frames-IsDrained fuel next p (omega (arith, s.sample_count))
                (omega (arith, at, s.sample_count, leb→le _ _ e))
                (omega (arith, at, s.sample_count)) in
            rw (cpu_frames, small, e)
              (record {
                index = rest.index;
                sample_count = rest.sample_count ∙ s.sample_count;
                ringbuf = rest.ringbuf ∙ s.ringbuf;
              })
        | inr e ↦
            rw (cpu_frames, small, e)
              (record { index = ground arith; sample_count = refl; ringbuf = refl })
      ]

  fed-IsDrained :
      (d : Detector F) (now : ℕ) (samples : List (Sample F))
      → 0 < c.fft_size
      → d.sample_count + length samples + c.fft_size < 2 ^ 64
      → d.index ≤ d.sample_count
      → ((take_in F qsort d now samples).sample_count ≡ d.sample_count + length samples)
        × IsDrained (take_in F qsort d now samples) (feed_samples F qsort fft c d now samples).1
  unfolding feed_samples emit_gone_bursts
  fed-IsDrained d now samples p w i =
      let d' = take_in F qsort d now samples in
      let count : d'.sample_count ≡ d.sample_count + length samples =
        unfold take_in in mod-eq_of_lt (omega arith) in
      let start : d'.index ≡ d.index = unfold take_in in refl in
      let drained =
        cpu_frames-IsDrained d'.sample_count d' p (omega (arith, count))
          (omega (arith, count, start)) (omega (arith, count, start)) in
      (
        count,
        record {
          index = drained.index;
          sample_count = drained.sample_count;
          ringbuf = drained.ringbuf;
        },
      )

  -- After a buffer of samples less than one frame of them is unprocessed and all are counted, if a
  -- frame is not empty, no more than all samples were processed before, and the sample count stays a
  -- frame below 2 ^ 64.
  pub feed_samples-drains :
      (d : Detector F) (now : ℕ) (samples : List (Sample F))
      → 0 < c.fft_size
      → d.sample_count + length samples + c.fft_size < 2 ^ 64
      → d.index ≤ d.sample_count
      → ((feed_samples F qsort fft c d now samples).1.sample_count
          ≡ d.sample_count + length samples)
        × (d.sample_count + length samples
            < (feed_samples F qsort fft c d now samples).1.index + c.fft_size)
  feed_samples-drains d now samples p w i =
      let (count, drained) = fed-IsDrained d now samples p w i in
      (drained.sample_count ∙ count, omega (arith, drained.index, drained.sample_count, count))

  -- A buffer of samples, no longer than the ring buffer, is added to the history that the ring buffer
  -- holds, if a frame is not empty, the history is all samples so far, of which no more than all were
  -- processed, and the sample count stays a frame below 2 ^ 64.
  pub feed_samples-IsHistory :
      (d : Detector F) (now : ℕ) (history samples : List (Sample F))
      → IsHistory F d.ringbuf history
      → d.sample_count ≡ length history
      → length samples ≤ length d.ringbuf.cells
      → 0 < c.fft_size
      → length history + length samples + c.fft_size < 2 ^ 64
      → d.index ≤ length history
      → IsHistory F (feed_samples F qsort fft c d now samples).1.ringbuf (history ++ samples)
  feed_samples-IsHistory d now history samples h n l p w i =
      let (count, drained) = fed-IsDrained d now samples p (omega (arith, n)) (omega (arith, n)) in
      let written : (take_in F qsort d now samples).ringbuf
          ≡ ringbuf_write F d.ringbuf (length history) samples =
        unfold take_in in ap (λ k. ringbuf_write F d.ringbuf k samples) n in
      rw (drained.ringbuf, written) (ringbuf_write-IsHistory F d.ringbuf history samples h l)
