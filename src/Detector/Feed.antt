-- ===== src/Detector/Feed.antt =====
-- burst_detect.c: one FFT frame, all frames of a buffer on the CPU or in batches on the GPU, and the
-- bursts that are handed on.
pub mod Clock
pub mod Whole
use iridium_sniffer.Base.{
  ℕ, zero, suc, ◌+◌, ◌%◌, ◌^◌, List, [], ◌∷◌, ◌++◌, Option, none, some, Bool, true, false, length,
  map, ltb, leb, ◌==◌, if◌then◌else◌,
}
use iridium_sniffer.Base.Int.{ℤ}
use iridium_sniffer.Base.Doubles.{Doubles}
use iridium_sniffer.Detector.{BurstData, Settings, Detector, Active, Peak, Sample}
use iridium_sniffer.Detector.Kernels.{
  generic_window_cf, generic_fftshift_mag, generic_convert_i8_cf, convert_cf32,
}
use iridium_sniffer.Detector.Ring.{read_block, ringbuf_write, ringbuf_extract}
use iridium_sniffer.Detector.Noise.{update_filters_pre, update_filters_post}
use iridium_sniffer.Detector.Track.{
  update_bursts, remove_peaks_around_bursts, extract_peaks, delete_gone_bursts, update_burst_mask,
  create_new_bursts,
}

module _ (F : Doubles) (qsort : List (Peak F) → List (Peak F)) where
  open F use {Double}

  -- The calls where the history is primed.
  unfoldable pub detect : Settings F → Detector F → Detector F
  detect c d = create_new_bursts F c (
      update_burst_mask F c (
        delete_gone_bursts F c
          (extract_peaks F qsort c (remove_peaks_around_bursts F (update_bursts F c d)))))

  unfoldable pub process_magnitude_frame : Settings F → Detector F → List Double → Detector F
  process_magnitude_frame c d magnitude =
      let (d', primed) = update_filters_pre F (record d { magnitude_shifted = magnitude }) in
      update_filters_post F c (if primed then detect c d' else d') false

  -- What the callback gets for one burst, none if no sample is left.
  unfoldable pub extract_burst : Settings F → Detector F → Active F → List (BurstData F)
  extract_burst c d b =
      elim (ringbuf_extract F d.ringbuf b.start ((b.stop + c.burst_pre_len) % 2 ^ 64)) [
        | none ↦ []
        | some samples ↦
            record {
              info = b;
              center_frequency = c.center_frequency;
              sample_rate = c.sample_rate;
              fft_size = c.fft_size;
              start_time_ns = d.start_time_ns;
              samples = samples;
            }
            ∷ []
      ]

  unfoldable pub extract_bursts : Settings F → Detector F → List (Active F) → List (BurstData F)
  extract_bursts c d [] = []
  extract_bursts c d (b ∷ bursts) = extract_burst c d b ++ extract_bursts c d bursts

  unfoldable pub emit_gone_bursts : Settings F → Detector F → List (BurstData F) × Detector F
  emit_gone_bursts c d =
      let out = extract_bursts c d d.gone_bursts in
      (
        out,
        record d { gone_bursts = []; n_tagged_bursts = (d.n_tagged_bursts + length out) % 2 ^ 64 },
      )

  -- The samples of the frame at an absolute index.
  abbrev pub frame_at : Settings F → Detector F → ℕ → List (Sample F)
  frame_at c d idx = read_block d.ringbuf.cells (idx % length d.ringbuf.cells) c.fft_size

  -- Converted samples in the ring buffer. `now` is the clock.
  unfoldable pub take_in : Detector F → ℕ → List (Sample F) → Detector F
  take_in d now samples = record d {
    start_time_ns =
        if d.start_time_ns == 0
        then if d.pending_hw_ts == 0 then now else d.pending_hw_ts
        else d.start_time_ns;
    pending_hw_ts = 0;
    ringbuf = ringbuf_write F d.ringbuf d.sample_count samples;
    sample_count = (d.sample_count + length samples) % 2 ^ 64;
  }

  module _ (fft : List (Sample F) → List (Sample F)) where
    -- The kernels around the FFT.
    abbrev pub spectrum : Settings F → List (Sample F) → List Double
    spectrum c samples =
        generic_fftshift_mag F (fft (generic_window_cf F samples c.window)) c.fft_size

    unfoldable pub process_fft_frame : Settings F → Detector F → List (Sample F) → Detector F
    process_fft_frame c d samples =
        let (d', primed) =
          update_filters_pre F (record d { magnitude_shifted = spectrum c samples }) in
        update_filters_post F c (if primed then detect c d' else d') false

    abbrev pub advance : Settings F → Detector F → Detector F
    advance c d = record d { index = (d.index + c.fft_size) % 2 ^ 64 }

    -- The loop of the CPU path, in at most `fuel` rounds.
    unfoldable pub cpu_frames : ℕ → Settings F → Detector F → Detector F
    cpu_frames zero c d = d
    cpu_frames (suc fuel) c d = elim (leb ((d.index + c.fft_size) % 2 ^ 64) d.sample_count) [
      | true ↦ cpu_frames fuel c (advance c (process_fft_frame c d (frame_at c d d.index)))
      | false ↦ d
    ]

    -- Samples come in, the callback's bursts go out.
    unfoldable pub feed_samples :
        Settings F → Detector F → ℕ → List (Sample F) → List (BurstData F) × Detector F
    feed_samples c d now samples =
        let d' = take_in d now samples in emit_gone_bursts c (cpu_frames d'.sample_count c d')

    unfoldable pub burst_detector_feed :
        Settings F → Detector F → ℕ → List ℤ → List (BurstData F) × Detector F
    burst_detector_feed c d now iq = feed_samples c d now (generic_convert_i8_cf F iq)

    unfoldable pub burst_detector_feed_cf32 :
        Settings F → Detector F → ℕ → List Double → List (BurstData F) × Detector F
    burst_detector_feed_cf32 c d now iq = feed_samples c d now (convert_cf32 F iq)

  -- The plugin: a magnitude for each frame of the batch, or an error.
  module _ (gpu_process : List (List (Sample F)) → Option (List (List Double))) where
    unfoldable pub process_batch : Settings F → Detector F → List (List Double) → Detector F
    process_batch c d [] = d
    process_batch c d (m ∷ magnitudes) =
        let d' = process_magnitude_frame c d m in
        process_batch c (record d' { index = (d'.index + c.fft_size) % 2 ^ 64 }) magnitudes

    -- A batch that fails is dropped.
    unfoldable pub gpu_flush_batch : Settings F → Detector F → List (List (Sample F)) → Detector F
    gpu_flush_batch c d [] = d
    gpu_flush_batch c d (frame ∷ batch) = elim (gpu_process (frame ∷ batch)) [
      | none ↦ d
      | some magnitudes ↦ process_batch c d magnitudes
    ]

    -- The loop of the GPU path, in at most `fuel` rounds: the frame at `read_idx` joins the batch, and
    -- a batch that is full is processed and its bursts are handed on.
    unfoldable pub gpu_frames :
        ℕ
        → Settings F
        → Detector F
        → ℕ
        → ℕ
        → List (List (Sample F))
        → List (BurstData F) × Detector F
    gpu_frames zero c d size read_idx batch = ([], gpu_flush_batch c d batch)
    gpu_frames (suc fuel) c d size read_idx batch =
        let next = (read_idx + c.fft_size) % 2 ^ 64 in
        let batch' = batch ++ (frame_at c d read_idx ∷ []) in
        elim (leb next d.sample_count) [
          | false ↦ ([], gpu_flush_batch c d batch)
          | true ↦ elim (leb size (length batch')) [
            | false ↦ gpu_frames fuel c d size next batch'
            | true ↦
                let (out, d') = emit_gone_bursts c (gpu_flush_batch c d batch') in
                let (more, last) = gpu_frames fuel c d' size next [] in (out ++ more, last)
          ]
        ]

    -- Batches of 16 frames, where there is a GPU.
    unfoldable pub feed_samples_gpu :
        Settings F → Detector F → ℕ → List (Sample F) → List (BurstData F) × Detector F
    feed_samples_gpu c d now samples =
        let d1 = take_in d now samples in
        let (out, d2) = gpu_frames d1.sample_count c d1 16 d1.index [] in
        let (rest, d3) = emit_gone_bursts c d2 in (out ++ rest, d3)
